-- ===== src/Metadata.antt =====
-- The state of the LSM index: `imr_lsm_meta`, its nodes, levels, segments and counters
-- (imrsim_kmod/dm-imrsim.c, the structures), and how it is set up and released.
-- A linked list is a list, head first. The flat `struct imr_lsm_stats` is split into records for
-- the operations that write its fields. Array `levels` is a function of the level number.
use imr_lsm.Prelude.{ℕ, Bool, false, List, u32_max}

-- IMR_LSM_LEVELS, IMR_LSM_MAX_LEVEL and the other constants of the index
abbrev pub levels_total : ℕ
levels_total = 7

abbrev pub max_level : ℕ
max_level = 6

abbrev pub default_unsorted_level : ℕ
default_unsorted_level = 0

abbrev pub default_threshold : ℕ
default_threshold = 16

abbrev pub default_bits_per_key : ℕ
default_bits_per_key = 10

abbrev pub level_ratio : ℕ
level_ratio = 2

abbrev pub zone_mixed : ℕ
zone_mixed = u32_max

abbrev pub segment_none : ℕ
segment_none = u32_max

abbrev pub zone_none : ℕ
zone_none = u32_max

-- `imr_lsm_unsorted_node` and `imr_lsm_sorted_node`, which have the same fields
pub record Node : Type 0 where
  pub key : ℕ
  pub pba : ℕ
  pub zone_idx : ℕ
  pub valid : Bool
  pub timestamp : ℕ

-- `imr_lsm_level_state`
pub record Level : Type 0 where
  pub unsorted : List Node
  pub sorted : List Node
  pub unsorted_count : ℕ
  pub sorted_count : ℕ

-- the bookkeeping of an output copy in an `imr_lsm_block_entry`
pub record Copy : Type 0 where
  pub source_pba : ℕ
  pub output_pba : ℕ
  pub source_pba_valid : Bool
  pub output_mapped : Bool
  pub output_copy_planned : Bool
  pub output_copied : Bool
  pub output_committed : Bool

abbrev pub no_copy : Copy
no_copy = record {
  source_pba = 0;
  output_pba = 0;
  source_pba_valid = false;
  output_mapped = false;
  output_copy_planned = false;
  output_copied = false;
  output_committed = false;
}

-- `imr_lsm_block_entry`
pub record Entry : Type 0 where
  pub key : ℕ
  pub pba : ℕ
  pub valid : Bool
  pub timestamp : ℕ
  pub copy : Copy

-- the Bloom filter of a segment; `bloom_bits` are its 64-bit words
pub record Bloom : Type 0 where
  pub key_count : ℕ
  pub bits_count : ℕ
  pub word_count : ℕ
  pub hash_count : ℕ
  pub bits : List ℕ

-- IMR_LSM_TRACK_BOTTOM, IMR_LSM_TRACK_TOP, IMR_LSM_PLACEMENT_NONE, IMR_LSM_PLACEMENT_BOTTOM_TO_TOP
abbrev pub track_bottom : ℕ
track_bottom = 1

abbrev pub track_top : ℕ
track_top = 2

abbrev pub placement_none : ℕ
placement_none = 0

abbrev pub placement_bottom_to_top : ℕ
placement_bottom_to_top = 1

-- the fields `placement_*` of a segment
pub record Placement : Type 0 where
  pub policy : ℕ
  pub target_track_type : ℕ
  pub bottom_track_start : ℕ
  pub bottom_track_end : ℕ
  pub bottom_key_start : ℕ
  pub bottom_key_end : ℕ
  pub top_track_start : ℕ
  pub top_track_end : ℕ
  pub top_pba_start : ℕ
  pub top_pba_end : ℕ

-- the fields `output_*` of a segment
pub record Output : Type 0 where
  pub allocated : Bool
  pub track_type : ℕ
  pub block_count : ℕ
  pub pba_start : ℕ
  pub pba_end : ℕ

abbrev pub no_output : Output
no_output = record {
  allocated = false;
  track_type = 0;
  block_count = 0;
  pba_start = 0;
  pba_end = 0;
}

-- the counts of `imr_lsm_recalculate_segment_invalid_stats_locked` in a segment
pub record Validity : Type 0 where
  pub live_count : ℕ
  pub invalid_count : ℕ
  pub obsolete_count : ℕ
  pub tombstone_count : ℕ
  pub delete_invalid_count : ℕ
  pub obsolete_ratio_permille : ℕ

abbrev pub no_validity : Validity
no_validity = record {
  live_count = 0;
  invalid_count = 0;
  obsolete_count = 0;
  tombstone_count = 0;
  delete_invalid_count = 0;
  obsolete_ratio_permille = 0;
}

-- `imr_lsm_segment`; `block_table_count` is the length of `block_table`
pub record Segment : Type 0 where
  pub id : ℕ
  pub level : ℕ
  pub zone_idx : ℕ
  pub track_type : ℕ
  pub retired : Bool
  pub node_count : ℕ
  pub min_key : ℕ
  pub max_key : ℕ
  pub min_timestamp : ℕ
  pub max_timestamp : ℕ
  pub bloom : Bloom
  pub block_table : List Entry
  pub validity : Validity
  pub compaction_candidate : Bool
  pub compaction_score : ℕ
  pub read_hit_count : ℕ
  pub last_read_timestamp : ℕ
  pub placement : Placement
  pub output : Output

-- The `int` that an operation returns: 0, an error number of the kernel, or one of
-- imrsim_kmod/imrsim_zerror.h.
pub data Code : Type 0 where
  success enomem einval out_range write_border : Code

-- `imr_lsm_lookup_result`
pub data Lookup : Type 0 where
  miss : Lookup
  valid : ℕ → Lookup
  deleted : Lookup
