-- ===== src/Tests.antt =====
-- Concrete inputs for the theorems, and a red-black tree that shows that the laws of `RbTree` can
-- hold.
mod Soundness
mod Requests
mod Limits
use mathlib.Core.List.{head?}
use imr_lsm.Prelude.{
  ℕ, suc, ◌+◌, ◌-◌, ◌*◌, ◌/◌, ◌%◌, ◌^◌, ◌≤◌, ◌<◌, ◌≡◌, ◌≢◌, ◌⊎◌, ◌↔◌, refl, true, false, not, none,
  some, length, u32_mod, List, [], ◌∷◌, ap, map, arith, get_elem?, if◌then◌else◌, ◌==◌,
}
use imr_lsm.Prelude.Keyed.{find, without}
use imr_lsm.Geometry.{
  Geometry, IsDefault, index_power_of_2, lba_zone_idx, zone_idx_lba, write_block_count,
  zone_top_pba, zone_bottom_pba, num_sectors_zone,
}
use imr_lsm.Geometry.Zones.{lba_zone_idx-zone_idx_lba, write_block_count_lem, index_power_of_2_lem}
use imr_lsm.Geometry.Tracks.{
  zone_top-ne-bottom, zone_bottom_pba-ne, zone_top_pba-ne, lba_zone_idx-zone_bottom_pba,
  lba_zone_idx-zone_top_pba,
}
use imr_lsm.ReadTree.Defs.{
  TreeNode, Tree, leaf, branch, RbTree, ReadTree, node_key, nodes, no_tree_stats, tree_update,
  tree_evict, tree_remove, tree_lookup, read_tree_limit,
}
use imr_lsm.ReadTree.Lru.{count, drop_to}
use imr_lsm.ReadTree.Invariant.{IsConsistent, cached, Keeps, tree_evict_lem}
use imr_lsm.ReadTree.Operations.{
  IsWell, updated, tree_update-IsWell, tree_update_self, tree_update_ne,
}
use imr_lsm.ReadTree.Removal.{tree_lookup_lem, cached-tree_remove}
use imr_lsm.Metadata.{Node, Level, Entry, no_copy, Segment, no_validity}
use imr_lsm.Bloom.{build_bloom, bloom_may_contain, next_power_of_two, bloom_choose_bits}
use imr_lsm.Bloom.Membership.{build_bloom-bloom_may_contain}
use imr_lsm.Bloom.Sizes.{next_power_of_two_lem, bloom_choose_bits_lem}
use imr_lsm.BlockTable.{Builder, entry_key, block_table_find, empty_builder, add_block_entry}
use imr_lsm.BlockTable.Find.{block_table_find-find}
use imr_lsm.BlockTable.Build.{Adds, add_block_entry-Adds}
use imr_lsm.SortedLevel.{sorted_upsert}
use imr_lsm.SortedLevel.Upsert.{Upserts, sorted_upsert-Upserts}
use imr_lsm.State.{Meta}
use imr_lsm.State.Setup.{empty_level, released}
use imr_lsm.Records.{
  find_latest_record, find_newer_record, find_older_valid_record, entry_should_keep,
  zone_map_has_key,
}
use imr_lsm.Records.Versions.{Version, versions, IsIndexed}
use imr_lsm.Records.Scans.{IsLatest, find_latest_record-IsLatest, find_newer_record_iff}
use imr_lsm.Records.Older.{HasOlder, HasNewer, find_older_valid_record_iff, entry_should_keep_iff}
use imr_lsm.Placement.{allocate_output, map_loop}
use imr_lsm.Placement.Allocate.{Allocates, allocate_output-Allocates}
use imr_lsm.Placement.Mapping.{strip, map_loop-strip}
use imr_lsm.Compaction.{new_segment}
use imr_lsm.Metadata.{valid, deleted, success}
use imr_lsm.Levels.{calculate_dynamic_levels, survey, level_total_count}
use imr_lsm.Compaction.{run_compactions, flush_bottom_unsorted}
use imr_lsm.State.{State, Env}
use imr_lsm.State.Setup.{ensure_initialized}
use imr_lsm.Write.{append_unsorted_node, prepare, insert as insert_key, delete}
use imr_lsm.Read.{read}
use imr_lsm.Read.Own.{answer, IsPast, read-append_unsorted_node}
use imr_lsm.Read.Writes.{read-insert, read-delete}
use imr_lsm.Levels.{compaction_dst_level, pick_compaction_level}
use imr_lsm.Levels.Bounds.{compaction_dst_level_lem, pick_compaction_level_lem}
use imr_lsm.Validity.{segment_validity}
use imr_lsm.Validity.Counts.{Counts, kept, number, segment_validity_lem}

-- a disk of 80 zones
abbrev pub disk : Geometry
disk = record { block_shift = 3; zone_shift = 16; num_zones = 80 }

pub disk-IsDefault : IsDefault disk
disk-IsDefault = record { block = refl; zone = refl }

-- a tree with no left branches
abbrev pub spine : List TreeNode → Tree
spine [] = leaf
spine (n ∷ ns) = branch leaf n (spine ns)

pub nodes-spine : (ns : List TreeNode) → nodes (spine ns) ≡ ns
nodes-spine [] = refl
nodes-spine (n ∷ ns) = ap (λ rest. n ∷ rest) (nodes-spine ns)

abbrev pub rb_spine : RbTree
rb_spine = record {
  insert_color = λ k t. t;
  erase = λ k t. spine (without node_key k (nodes t));
  first = λ t. head? (nodes t);
  nodes-insert_color = λ k t. refl;
  nodes-erase = λ k t h. nodes-spine (without node_key k (nodes t));
  first-head? = λ t. refl;
}

abbrev pub node_4 : TreeNode
node_4 = record { key = 4; pba = 400; valid = true; timestamp = 1 }

abbrev pub node_9 : TreeNode
node_9 = record { key = 9; pba = 900; valid = false; timestamp = 2 }

-- two records are cached, and the limit is two
abbrev pub tree_two : ReadTree
tree_two = record {
  root = branch leaf node_4 (branch leaf node_9 leaf);
  lru = 9 ∷ 4 ∷ [];
  limit = 2;
  size = 2;
  stats = no_tree_stats;
}

tree_two-IsConsistent : IsConsistent tree_two
unfolding count find
tree_two-IsConsistent = record {
  ordered = ((omega arith, tt), (tt, tt));
  sized = refl;
  as_long = refl;
  listed = λ k. ground arith;
}

pub tree_two-IsWell : IsWell tree_two
unfolding read_tree_limit
tree_two-IsWell = record {
  consistent = tree_two-IsConsistent;
  bounded = ground arith;
  limited = ground arith;
}

build_bloom-bloom_may_contain_example : bloom_may_contain (build_bloom 10 (3 ∷ 70 ∷ [])) 70 ≡ true
build_bloom-bloom_may_contain_example = build_bloom-bloom_may_contain 10 (3 ∷ 70 ∷ []) 1 70 refl

tree_update_self_example :
    cached 5 (tree_update rb_spine true 5 500 true 3 tree_two)
    ≡ some (updated rb_spine tree_two 5 500 true 3 (cached 5 tree_two))
tree_update_self_example = tree_update_self rb_spine tree_two 5 500 true 3 tree_two-IsWell

tree_update-IsWell_example : IsWell (tree_update rb_spine true 5 500 true 3 tree_two)
tree_update-IsWell_example = tree_update-IsWell rb_spine tree_two 5 500 true 3 true tree_two-IsWell

tree_update_ne_example :
    (cached 4 (tree_update rb_spine true 5 500 true 3 tree_two) ≡ cached 4 tree_two)
    ⊎ (cached 4 (tree_update rb_spine true 5 500 true 3 tree_two) ≡ none)
tree_update_ne_example =
    tree_update_ne rb_spine tree_two 5 500 true 3 true 4 tree_two-IsWell (ground arith)

tree_evict_lem_example :
    IsConsistent (tree_evict rb_spine tree_two)
    × ((tree_evict rb_spine tree_two).size ≤ read_tree_limit tree_two)
    × ((tree_evict rb_spine tree_two).lru ≡ drop_to (read_tree_limit tree_two) (9 ∷ 4 ∷ []))
    × Keeps tree_two (tree_evict rb_spine tree_two)
tree_evict_lem_example = tree_evict_lem rb_spine tree_two tree_two-IsConsistent

cached-tree_remove_example :
    cached 4 (tree_remove rb_spine 9 tree_two) ≡ (if 9 == 4 then none else cached 4 tree_two)
cached-tree_remove_example = cached-tree_remove rb_spine 9 tree_two tree_two-IsWell 4

tree_lookup_lem_example :
    ((tree_lookup 9 tree_two).1 ≡ cached 9 tree_two)
    × ((tree_lookup 9 tree_two).0.root ≡ tree_two.root)
    × IsWell (tree_lookup 9 tree_two).0
tree_lookup_lem_example = tree_lookup_lem 9 tree_two tree_two-IsWell

abbrev pub table_of_two : List Entry
table_of_two =
    record { key = 3; pba = 300; valid = true; timestamp = 5; copy = no_copy }
    ∷ record { key = 8; pba = 800; valid = true; timestamp = 6; copy = no_copy }
    ∷ []

block_table_find-find_example : block_table_find 8 table_of_two ≡ find entry_key 8 table_of_two
block_table_find-find_example = block_table_find-find 8 table_of_two ((omega arith, tt), (tt, tt))

abbrev builder_two : Builder
builder_two = record empty_builder { node_count = 2; block_table = table_of_two; capacity = 16 }

abbrev pub entry_8 : Entry
entry_8 = record { key = 8; pba = 801; valid = false; timestamp = 9; copy = no_copy }

add_block_entry-Adds_example : Adds entry_8 builder_two (add_block_entry 0 true entry_8 builder_two)
add_block_entry-Adds_example =
    add_block_entry-Adds 0 true entry_8 builder_two
      (record { ascending = ((omega arith, tt), (tt, tt)); fits = ground arith })

abbrev record_5 : Node
record_5 = record { key = 5; pba = 500; zone_idx = 0; valid = true; timestamp = 4 }

abbrev pub level_of_one : Level
level_of_one = record empty_level {
  sorted = record { key = 7; pba = 700; zone_idx = 0; valid = true; timestamp = 2 } ∷ [];
  sorted_count = 1;
}

sorted_upsert-Upserts_example :
    Upserts record_5 level_of_one (sorted_upsert true record_5 level_of_one)
sorted_upsert-Upserts_example =
    sorted_upsert-Upserts true record_5 level_of_one
      (record { ascending = (tt, tt); counted = refl }) (ground arith)

-- an index with one record in level 6 and one segment
abbrev meta_two : Meta
meta_two = record released {
  levels = λ level. if level == 6 then level_of_one else empty_level;
  segments = new_segment 10 1 6 1 builder_two ∷ [];
}

meta_two-IsIndexed : IsIndexed meta_two
unfolding new_segment
meta_two-IsIndexed = record {
  sorted = λ level. ground arith;
  tables = (((omega arith, tt), (tt, tt)), tt);
}

find_latest_record-IsLatest_example :
    IsLatest
      (versions 8 meta_two)
      (record { timestamp = 0; valid = false; pba = 0; found = false })
      (find_latest_record 8 meta_two)
find_latest_record-IsLatest_example = find_latest_record-IsLatest 8 meta_two meta_two-IsIndexed

find_newer_record_iff_example :
    ((find_newer_record 8 5 meta_two).found ≡ true)
    ↔ ((i : ℕ) × (v : Version) × (get_elem? (versions 8 meta_two) i ≡ some v) × (5 < v.timestamp))
find_newer_record_iff_example = find_newer_record_iff 8 5 meta_two meta_two-IsIndexed

find_older_valid_record_iff_example :
    (find_older_valid_record 8 7 meta_two ≡ true) ↔ HasOlder 7 (versions 8 meta_two)
find_older_valid_record_iff_example = find_older_valid_record_iff 8 7 meta_two meta_two-IsIndexed

entry_should_keep_iff_example : (entry_should_keep disk none meta_two entry_8 ≡ true) ↔ (
    (¬ HasNewer 9 (versions 8 meta_two))
    × ((false ≡ true) ⊎ ((zone_map_has_key disk none 8 ≡ true) ⊎ HasOlder 9 (versions 8 meta_two))))
entry_should_keep_iff_example = entry_should_keep_iff disk none meta_two entry_8 meta_two-IsIndexed

-- a segment of two entries that may be placed in a range of two blocks on top tracks
abbrev placed_segment : Segment
placed_segment =
    let s = new_segment 10 2 6 1 builder_two in
    record s {
      placement = record (s.placement) {
        policy = 1;
        target_track_type = 2;
        top_pba_start = 800;
        top_pba_end = 830;
      };
    }

allocate_output-Allocates_example :
    Allocates disk meta_two.segments placed_segment
      (allocate_output disk meta_two.segments placed_segment)
allocate_output-Allocates_example = allocate_output-Allocates disk meta_two.segments placed_segment

lba_zone_idx-zone_idx_lba_example : lba_zone_idx disk (zone_idx_lba disk 3 + 17) ≡ 3
unfolding num_sectors_zone
lba_zone_idx-zone_idx_lba_example =
    lba_zone_idx-zone_idx_lba disk disk-IsDefault 3 17 (ground arith) (ground arith)

write_block_count_lem_example : write_block_count disk 13 16 + 13 / 8 ≡ (13 + 16 - 1) / 8 + 1
write_block_count_lem_example =
    write_block_count_lem disk disk-IsDefault 13 16 (omega arith) (ground arith)

bloom_choose_bits_lem_example :
    (256 ≤ bloom_choose_bits 10 100)
    × (bloom_choose_bits 10 100 ≤ 16384)
    × (bloom_choose_bits 10 100 % 64 ≡ 0)
bloom_choose_bits_lem_example = bloom_choose_bits_lem 10 100

abbrev pub ready_env : Env
ready_env = record {
  geometry = disk;
  rb = rb_spine;
  compaction_threshold = 16;
  bloom_bits_per_key = 10;
  alloc = λ n. true;
}

-- an index with two cached records
abbrev pub two_cached : State
two_cached = record {
  meta = record released { initialized = true; timestamp = 5; base_level = 6; tree = tree_two };
  zones = none;
  allocs = 0;
}

two_cached-IsPast : IsPast 9 two_cached.meta
unfolding find
two_cached-IsPast n here = ground arith

pub two_cached_ready : (prepare ready_env two_cached).1 ≡ success
unfolding prepare ensure_initialized flush_bottom_unsorted calculate_dynamic_levels survey
    level_total_count
two_cached_ready = refl

read-insert_example : (read ready_env 9 (insert_key ready_env 6 9 77 0 two_cached).0).1 ≡ valid 77
read-insert_example =
    read-insert ready_env 9 two_cached refl tree_two-IsWell two_cached_ready refl refl
      (ground arith) 6 77 0 (omega arith) two_cached-IsPast

read-delete_example : (read ready_env 9 (delete ready_env 9 two_cached).0).1 ≡ deleted
read-delete_example =
    read-delete ready_env 9 two_cached refl tree_two-IsWell two_cached_ready refl refl
      (ground arith)

compaction_dst_level_lem_example :
    (2 < (compaction_dst_level 16 2 meta_two).0) × ((compaction_dst_level 16 2 meta_two).0 ≤ 6)
compaction_dst_level_lem_example = compaction_dst_level_lem 16 2 meta_two (omega arith)

pick_compaction_level_lem_example :
    ((pick_compaction_level 16 meta_two).0 ≡ 7)
    ⊎ (((pick_compaction_level 16 meta_two).0 < 6)
        × (0
            < level_total_count
                (pick_compaction_level 16 meta_two).1.levels
                (pick_compaction_level 16 meta_two).0))
pick_compaction_level_lem_example = pick_compaction_level_lem 16 meta_two

segment_validity_lem_example :
    Counts disk none meta_two placed_segment.block_table no_validity
      (segment_validity disk none meta_two placed_segment)
    × ((segment_validity disk none meta_two placed_segment).obsolete_ratio_permille ≡ (
        if length placed_segment.block_table == 0
        then 0
        else number (λ e. not (kept disk none meta_two e)) placed_segment.block_table
          * 1000
          / length placed_segment.block_table
          % u32_mod))
unfolding new_segment
segment_validity_lem_example = segment_validity_lem disk none meta_two placed_segment (ground arith)
