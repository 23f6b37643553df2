-- ===== src/Compaction.antt =====
-- Segments and compactions of levels (imrsim_kmod/dm-imrsim.c, `imr_lsm_append_segment_locked`,
-- `imr_lsm_flush_bottom_unsorted_locked`, `imr_lsm_compact_level_locked`,
-- `imr_lsm_run_compactions_locked`). An operation returns the new state beside its code; what was
-- changed before an error stays changed.
pub mod Cache
pub mod Filters
pub mod Merges
pub mod Sound
pub mod Runs
use imr_lsm.Prelude.{
  ℕ, zero, suc, ◌+◌, ◌%◌, false, ◌&&◌, ◌||◌, not, List, [], ◌∷◌, ◌++◌, map, leb, ◌==◌,
  if◌then◌else◌, inc32, inc64, u32_mod,
}
use imr_lsm.Metadata.{
  Node, Level, Segment, Code, success, enomem, levels_total, max_level, track_bottom, no_validity,
  no_output,
}
use imr_lsm.BlockTable.{Builder, empty_builder, builder_add_node, entry_key}
use imr_lsm.Bloom.{build_bloom}
use imr_lsm.SortedLevel.{sorted_upsert}
use imr_lsm.Levels.{calculate_dynamic_levels, compaction_dst_level, pick_compaction_level}
use imr_lsm.Placement.{apply_segment_placement, map_segment_output}
use imr_lsm.Validity.{recalculate_invalid_stats}
use imr_lsm.State.{Meta, State, Env, update}

-- the segment that `kzalloc` and the builder give, with its filter
unfoldable pub new_segment : ℕ → ℕ → ℕ → ℕ → Builder → Segment
new_segment bits_per_key id level track_type b = record {
  id = id;
  level = level;
  zone_idx = b.zone_idx;
  track_type = track_type;
  retired = false;
  node_count = b.node_count;
  min_key = b.min_key;
  max_key = b.max_key;
  min_timestamp = b.min_timestamp;
  max_timestamp = b.max_timestamp;
  bloom = build_bloom bits_per_key (map entry_key b.block_table);
  block_table = b.block_table;
  validity = no_validity;
  compaction_candidate = false;
  compaction_score = 0;
  read_hit_count = 0;
  last_read_timestamp = 0;
  placement = record {
    policy = 0;
    target_track_type = 0;
    bottom_track_start = 0;
    bottom_track_end = 0;
    bottom_key_start = 0;
    bottom_key_end = 0;
    top_track_start = 0;
    top_track_end = 0;
    top_pba_start = 0;
    top_pba_end = 0;
  };
  output = no_output;
}

-- what the loops over nodes carry: the destination level, the builder, the allocations made
pub record Merge : Type 0 where
  pub dst : Level
  pub builder : Builder
  pub allocs : ℕ

module _ (env : Env) where
  -- the metadata with one more segment at the end of the list
  unfoldable pub link_segment : ℕ → ℕ → Builder → State → State
  link_segment level track_type b s =
      let g = env.geometry in
      let m = s.meta in
      let fresh = new_segment env.bloom_bits_per_key m.next_segment_id level track_type b in
      let (placed, stats) = apply_segment_placement g m.segments fresh m.stats.placement in
      let (mapped, stats') = map_segment_output g placed stats in
      record s {
        meta = recalculate_invalid_stats g s.zones (record m {
          next_segment_id = inc32 m.next_segment_id;
          segments = m.segments ++ (mapped ∷ []);
          segment_count = inc32 m.segment_count;
          stats = record (m.stats) { placement = stats' };
        });
      }

  -- `imr_lsm_append_segment_locked`: an empty builder gives no segment; the segment and the words of
  -- its filter are allocated in turn, and the second failure has used up the segment's number
  unfoldable pub append_segment : ℕ → ℕ → Builder → State → State × Code
  append_segment level track_type b s =
      let m = s.meta in
      let numbered = record m { next_segment_id = inc32 m.next_segment_id } in
      if b.node_count == 0
      then (s, success)
      else if not (env.alloc s.allocs)
      then (record s { allocs = suc s.allocs }, enomem)
      else if not (env.alloc (suc s.allocs))
      then (record s { meta = numbered; allocs = suc (suc s.allocs) }, enomem)
      else (link_segment level track_type b (record s { allocs = suc (suc s.allocs) }), success)

  abbrev then_upsert : Node → Merge → Builder × Code → Merge × Code
  then_upsert n w (b, success) =
      let (dst, code) = sorted_upsert (env.alloc (suc w.allocs)) n w.dst in
      (record { dst = dst; builder = b; allocs = suc (suc w.allocs) }, code)
  then_upsert n w (b, code) = (record w { builder = b; allocs = suc w.allocs }, code)

  -- one node: its entry for the new segment, then its place in the sorted destination
  unfoldable pub merge_node : Node → Merge → Merge × Code
  merge_node n w =
      then_upsert n w (builder_add_node env.compaction_threshold (env.alloc w.allocs) n w.builder)

  unfoldable pub merge_nodes : List Node → Merge → Merge × Code
  merge_nodes [] w = (w, success)
  merge_nodes (n ∷ ns) w =
      let (w', code) = merge_node n w in
      elim code [ success ↦ merge_nodes ns w' | failed ↦ (w', failed) ]

  -- `imr_lsm_free_unsorted_level_locked` and `imr_lsm_free_sorted_level_locked`
  abbrev pub free_unsorted : Level → Level
  free_unsorted l = record l { unsorted = []; unsorted_count = 0 }

  abbrev pub free_sorted : Level → Level
  free_sorted l = record l { sorted = []; sorted_count = 0 }

  abbrev pub with_meta : State → Meta → State
  with_meta s m = record s { meta = m }

  -- the state after a merge, with the destination level written back
  abbrev pub merged : ℕ → Merge → State → State
  merged dst_level w s = record s {
    meta = record (s.meta) { levels = update s.meta.levels dst_level w.dst };
    allocs = w.allocs;
  }

  -- the counters at the end of a compaction, and the new sizes of the levels
  abbrev finish : ℕ → ℕ → ℕ → State × Code → State × Code
  finish from to input (s, success) =
      let m = s.meta in
      let counted = record m {
        stats = record (m.stats) {
          compaction = record {
            compaction_count = inc64 m.stats.compaction.compaction_count;
            last_from = from;
            last_to = to;
            last_input = input;
            last_output_total = (m.levels to).sorted_count;
          };
        };
      } in
      (with_meta s (calculate_dynamic_levels env.compaction_threshold counted), success)
  finish from to input (s, code) = (s, code)

  abbrev then_flush : ℕ → Merge × Code → State → State × Code
  then_flush input (w, success) s =
      let s' = merged max_level w s in
      let m = s'.meta in
      let freed = record m {
        levels = update m.levels max_level (free_unsorted (m.levels max_level));
      } in
      finish max_level max_level input
        (append_segment max_level track_bottom w.builder (with_meta s' freed))
  then_flush input (w, code) s = (merged max_level w s, code)

  -- `imr_lsm_flush_bottom_unsorted_locked`
  unfoldable pub flush_bottom_unsorted : State → State × Code
  flush_bottom_unsorted s =
      let bottom = s.meta.levels max_level in
      let start : Merge = record { dst = bottom; builder = empty_builder; allocs = s.allocs } in
      if leb max_level s.meta.base_level || (bottom.unsorted_count == 0)
      then (s, success)
      else then_flush bottom.unsorted_count (merge_nodes bottom.unsorted start) s

  abbrev then_merge : List Node → Merge × Code → Merge × Code
  then_merge ns (w, success) = merge_nodes ns w
  then_merge ns (w, code) = (w, code)

  abbrev then_compact : ℕ → ℕ → ℕ → Merge × Code → State → State × Code
  then_compact level dst_level input (w, success) s =
      let s' = merged dst_level w s in
      let m = s'.meta in
      let emptied =
        if dst_level == level
        then free_unsorted (m.levels level)
        else free_sorted (free_unsorted (m.levels level)) in
      finish level dst_level input (
        append_segment dst_level track_bottom w.builder
          (with_meta s' (record m { levels = update m.levels level emptied })))
  then_compact level dst_level input (w, code) s = (merged dst_level w s, code)

  -- `imr_lsm_compact_level_locked`: the unsorted nodes, then, if they move to another level, the
  -- sorted ones
  unfoldable pub compact_level : ℕ → State → State × Code
  compact_level level s =
      let source = s.meta.levels level in
      let (dst_level, m) = compaction_dst_level env.compaction_threshold level s.meta in
      let s' = with_meta s m in
      let start : Merge = record {
        dst = m.levels dst_level;
        builder = empty_builder;
        allocs = s.allocs;
      } in
      let input = (source.unsorted_count + source.sorted_count) % u32_mod in
      let sorted_nodes = if dst_level == level then [] else source.sorted in
      if (source.unsorted_count == 0) && ((source.sorted_count == 0) || (dst_level == level))
      then (s', success)
      else then_compact level dst_level input
          (then_merge sorted_nodes (merge_nodes source.unsorted start)) s'

  -- the rounds of `imr_lsm_run_compactions_locked`
  unfoldable pub compaction_rounds : ℕ → State → State × Code
  compaction_rounds zero s = (s, success)
  compaction_rounds (suc rounds) s =
      let (level, m) = pick_compaction_level env.compaction_threshold s.meta in
      let s' = with_meta s m in
      let (s'', code) = compact_level level s' in
      let rest : State × Code = elim code [
        | success ↦ compaction_rounds rounds s''
        | failed ↦ (s'', failed)
      ] in
      if leb levels_total level then (s', success) else rest

  -- `imr_lsm_run_compactions_locked`
  unfoldable pub run_compactions : State → State × Code
  run_compactions s =
      let sized = with_meta s (calculate_dynamic_levels env.compaction_threshold s.meta) in
      let (s', code) = flush_bottom_unsorted sized in
      elim code [ success ↦ compaction_rounds levels_total s' | failed ↦ (s', failed) ]
