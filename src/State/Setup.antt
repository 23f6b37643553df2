-- ===== src/State/Setup.antt =====
-- `imr_lsm_release_metadata_locked` and `imr_lsm_initialize_metadata_locked`.
use imr_lsm.Prelude.{true, false, none, []}
use imr_lsm.ReadTree.Defs.{ReadTree, leaf, read_tree_limit_default, no_tree_stats}
use imr_lsm.Metadata.{Level, max_level, success}
use imr_lsm.State.{Stats, Meta, State, no_filter_stats}

abbrev pub empty_level : Level
empty_level = record { unsorted = []; sorted = []; unsorted_count = 0; sorted_count = 0 }

abbrev pub empty_read_tree : ReadTree
empty_read_tree = record {
  root = leaf;
  lru = [];
  limit = read_tree_limit_default;
  size = 0;
  stats = no_tree_stats;
}

abbrev pub no_stats : Stats
no_stats = record {
  write = record {
    logical_write_count = 0;
    record_insert_count = 0;
    write_count = 0;
    delete_count = 0;
  };
  discard = record {
    bio_count = 0;
    delete_count = 0;
    delete_failed_count = 0;
    last_lba = 0;
    last_sectors = 0;
    last_error = success;
  };
  read = record {
    lookup_count = 0;
    miss_count = 0;
    tree_hit_count = 0;
    unsorted_hit_count = 0;
    segment_hit_count = 0;
    sorted_hit_count = 0;
    tombstone_hit_count = 0;
    fallback_count = 0;
    filter = no_filter_stats;
    last_filter = no_filter_stats;
    last_segment_read_key = 0;
    last_hit_key = 0;
    last_hit_pba = 0;
    last_hit_timestamp = 0;
    last_hit_valid = false;
  };
  placement = record {
    policy_count = 0;
    bottom_to_top_count = 0;
    no_target_count = 0;
    mixed_zone_count = 0;
    output_alloc_count = 0;
    output_no_target_count = 0;
    output_no_space_count = 0;
    mapping_count = 0;
    mapping_entry_count = 0;
    mapping_no_output_count = 0;
  };
  invalid = record {
    recalc_count = 0;
    segment_count = 0;
    entry_count = 0;
    obsolete_count = 0;
    tombstone_count = 0;
    delete_invalid_count = 0;
    max_ratio_permille = 0;
    max_segment_id = 0;
    last_segments = 0;
    last_entries = 0;
  };
  candidate = record {
    selection_count = 0;
    candidate_count = 0;
    no_candidate_count = 0;
    segment_id = 0;
    level = 0;
    score = 0;
    ratio_permille = 0;
    invalid_count = 0;
    delete_invalid_count = 0;
    tombstone_count = 0;
  };
  compaction = record {
    compaction_count = 0;
    last_from = 0;
    last_to = 0;
    last_input = 0;
    last_output_total = 0;
  };
}

-- the metadata after `memset` and `imr_lsm_init_read_tree_locked`
abbrev pub released : Meta
released = record {
  initialized = false;
  timestamp = 0;
  active_write_level = 0;
  base_level = 0;
  lowest_unnecessary = none;
  level_max_entries = λ _. 0;
  next_segment_id = 0;
  segments = [];
  segment_count = 0;
  tree = empty_read_tree;
  stats = no_stats;
  levels = λ _. empty_level;
}

-- Every list is freed and the structure cleared, whatever it held.
unfoldable pub release_metadata : State → State
release_metadata s = record s { meta = released }

unfoldable pub initialize_metadata : State → State
unfolding release_metadata
initialize_metadata s =
    let s' = release_metadata s in
    record s' {
      meta = record (s'.meta) {
        initialized = true;
        timestamp = 0;
        active_write_level = max_level;
        base_level = max_level;
        lowest_unnecessary = none;
      };
    }

-- `if(!imr_lsm_meta.initialized) imr_lsm_initialize_metadata_locked();`
unfoldable pub ensure_initialized : State → State
unfolding initialize_metadata
ensure_initialized s = elim (s.meta.initialized) [ true ↦ s | false ↦ initialize_metadata s ]
