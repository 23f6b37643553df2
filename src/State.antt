-- ===== src/State.antt =====
-- The whole state that the operations of the index share: `imr_lsm_meta` with its counters, the zone
-- map, and the allocator's answers (imrsim_kmod/dm-imrsim.c, `struct imr_lsm_metadata` and
-- `struct imr_lsm_stats`; imrsim_kmod/imrsim_types.h, `struct imrsim_zone_status`).
-- What the module does not decide is in `Env`: its tunables, the geometry of the disk, the kernel's
-- red-black trees, and whether the n-th call of `kzalloc` succeeds. Locks are not modelled: each
-- operation holds `imr_lsm_lock` from its first access of the state to its last.
pub mod Setup
use imr_lsm.Prelude.{
  ℕ, suc, Bool, true, false, Option, none, some, List, [], ◌==◌, if◌then◌else◌, inc64, inc32,
}
use imr_lsm.Geometry.{Geometry}
use imr_lsm.ReadTree.Defs.{RbTree, ReadTree}
use imr_lsm.Metadata.{Code, Level, Segment}

pub record WriteStats : Type 0 where
  pub logical_write_count : ℕ
  pub record_insert_count : ℕ
  pub write_count : ℕ
  pub delete_count : ℕ

pub record DiscardStats : Type 0 where
  pub bio_count : ℕ
  pub delete_count : ℕ
  pub delete_failed_count : ℕ
  pub last_lba : ℕ
  pub last_sectors : ℕ
  pub last_error : Code

-- `imr_lsm_read_filter_stats`, without the last entry found, which stands beside it
pub record FilterStats : Type 0 where
  pub segment_lookup : ℕ
  pub segment_skip : ℕ
  pub segment_candidate : ℕ
  pub bloom_lookup : ℕ
  pub bloom_negative : ℕ
  pub bloom_maybe : ℕ
  pub table_lookup : ℕ
  pub table_hit : ℕ
  pub table_miss : ℕ

abbrev pub no_filter_stats : FilterStats
no_filter_stats = record {
  segment_lookup = 0;
  segment_skip = 0;
  segment_candidate = 0;
  bloom_lookup = 0;
  bloom_negative = 0;
  bloom_maybe = 0;
  table_lookup = 0;
  table_hit = 0;
  table_miss = 0;
}

pub record ReadStats : Type 0 where
  pub lookup_count : ℕ
  pub miss_count : ℕ
  pub tree_hit_count : ℕ
  pub unsorted_hit_count : ℕ
  pub segment_hit_count : ℕ
  pub sorted_hit_count : ℕ
  pub tombstone_hit_count : ℕ
  pub fallback_count : ℕ
  pub filter : FilterStats
  pub last_filter : FilterStats
  pub last_segment_read_key : ℕ
  pub last_hit_key : ℕ
  pub last_hit_pba : ℕ
  pub last_hit_timestamp : ℕ
  pub last_hit_valid : Bool

pub record PlacementStats : Type 0 where
  pub policy_count : ℕ
  pub bottom_to_top_count : ℕ
  pub no_target_count : ℕ
  pub mixed_zone_count : ℕ
  pub output_alloc_count : ℕ
  pub output_no_target_count : ℕ
  pub output_no_space_count : ℕ
  pub mapping_count : ℕ
  pub mapping_entry_count : ℕ
  pub mapping_no_output_count : ℕ

pub record InvalidStats : Type 0 where
  pub recalc_count : ℕ
  pub segment_count : ℕ
  pub entry_count : ℕ
  pub obsolete_count : ℕ
  pub tombstone_count : ℕ
  pub delete_invalid_count : ℕ
  pub max_ratio_permille : ℕ
  pub max_segment_id : ℕ
  pub last_segments : ℕ
  pub last_entries : ℕ

pub record CandidateStats : Type 0 where
  pub selection_count : ℕ
  pub candidate_count : ℕ
  pub no_candidate_count : ℕ
  pub segment_id : ℕ
  pub level : ℕ
  pub score : ℕ
  pub ratio_permille : ℕ
  pub invalid_count : ℕ
  pub delete_invalid_count : ℕ
  pub tombstone_count : ℕ

pub record CompactionStats : Type 0 where
  pub compaction_count : ℕ
  pub last_from : ℕ
  pub last_to : ℕ
  pub last_input : ℕ
  pub last_output_total : ℕ

pub record Stats : Type 0 where
  pub write : WriteStats
  pub discard : DiscardStats
  pub read : ReadStats
  pub placement : PlacementStats
  pub invalid : InvalidStats
  pub candidate : CandidateStats
  pub compaction : CompactionStats

-- `imr_lsm_metadata`. `lowest_unnecessary` is `none` for -1.
pub record Meta : Type 0 where
  pub initialized : Bool
  pub timestamp : ℕ
  pub active_write_level : ℕ
  pub base_level : ℕ
  pub lowest_unnecessary : Option ℕ
  pub level_max_entries : ℕ → ℕ
  pub next_segment_id : ℕ
  pub segments : List Segment
  pub segment_count : ℕ
  pub tree : ReadTree
  pub stats : Stats
  pub levels : ℕ → Level

-- `imrsim_zone_status`, as far as the index reads it; `none` in the map is -1
pub record Zone : Type 0 where
  pub z_length : ℕ
  pub z_map_size : ℕ
  pub z_pba_map : ℕ → Option ℕ

-- `zones` is `none` while `zone_status` is NULL; `allocs` counts the calls of `kzalloc`
pub record State : Type 0 where
  pub meta : Meta
  pub zones : Option (ℕ → Zone)
  pub allocs : ℕ

pub record Env : Type 0 where
  pub geometry : Geometry
  pub rb : RbTree
  pub compaction_threshold : ℕ
  pub bloom_bits_per_key : ℕ
  pub alloc : ℕ → Bool

-- a write to one element of an array
abbrev pub update {ℓ} : {A : Type ℓ} → (ℕ → A) → ℕ → A → ℕ → A
update f i a j = if i == j then a else f j
