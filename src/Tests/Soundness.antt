-- ===== src/Tests/Soundness.antt =====
-- Concrete inputs for the theorems on whole states of the index.
use imr_lsm.Prelude.{◌+◌, ◌<◌, ◌≡◌, refl, true, not, none, [], ◌∷◌, arith, if◌then◌else◌, ◌==◌}
use imr_lsm.Prelude.Keyed.{find}
use imr_lsm.BlockTable.{Builder, empty_builder}
use imr_lsm.BlockTable.Range.{IsRanged}
use imr_lsm.State.{Meta, State, no_filter_stats}
use imr_lsm.State.Setup.{empty_level, released}
use imr_lsm.Compaction.{new_segment}
use imr_lsm.Compaction.Filters.{IsFiltered, new_segment-IsFiltered}
use imr_lsm.Compaction.Sound.{IsSound, population}
use imr_lsm.Write.{insert as insert_key, delete}
use imr_lsm.Write.Sound.{insert-IsSound, delete-IsSound}
use imr_lsm.Read.{segment_lookup_level, read}
use imr_lsm.Read.Hits.{newest_hit, has_segment, AsGood, segment_lookup_level_lem}
use imr_lsm.Read.Latest.{readable, no_record, answer_of, read_lem}
use imr_lsm.Records.{Found}
use imr_lsm.Records.Scans.{IsLatest}
use imr_lsm.Tests.{tree_two, tree_two-IsWell, level_of_one, table_of_two, ready_env}

abbrev pub ranged_two : Builder
ranged_two = record empty_builder {
  node_count = 2;
  block_table = table_of_two;
  capacity = 16;
  min_key = 3;
  max_key = 8;
  min_timestamp = 5;
  max_timestamp = 6;
}

ranged_two-IsRanged : IsRanged ranged_two
ranged_two-IsRanged = record {
  built = record { ascending = ((omega arith, tt), (tt, tt)); fits = ground arith };
  within = ((omega arith, omega arith), ((omega arith, omega arith), tt));
  empty = λ none_left. absurd (ground arith);
  filled = λ some_nodes. ground arith;
}

-- two records in a segment of level 6 and one in its sorted list
abbrev pub sound_meta : Meta
sound_meta = record released {
  initialized = true;
  timestamp = 9;
  base_level = 6;
  active_write_level = 6;
  tree = tree_two;
  levels = λ level. if level == 6 then level_of_one else empty_level;
  segments = new_segment 10 1 6 1 ranged_two ∷ [];
}

sound_meta-IsFiltered : IsFiltered (new_segment 10 1 6 1 ranged_two)
sound_meta-IsFiltered =
    new_segment-IsFiltered 10 1 6 1 ranged_two ranged_two-IsRanged (ground arith)

pub sound_meta-IsSound : IsSound sound_meta
sound_meta-IsSound = record {
  levels = λ level. record { ascending = ground arith; counted = ground arith };
  segments = (sound_meta-IsFiltered, tt);
  active = omega arith;
}

abbrev pub sound_state : State
sound_state = record { meta = sound_meta; zones = none; allocs = 0 }

few_nodes : population sound_meta.levels + 1 < 4294967295
unfolding population
few_nodes = ground arith

insert-IsSound_example : IsSound (insert_key ready_env 6 5 77 0 sound_state).0.meta
insert-IsSound_example = insert-IsSound ready_env 6 5 77 0 sound_state sound_meta-IsSound few_nodes

delete-IsSound_example : IsSound (delete ready_env 8 sound_state).0.meta
delete-IsSound_example = delete-IsSound ready_env 8 sound_state sound_meta-IsSound few_nodes

read_lem_example :
    (r : Found) × IsLatest (readable 8 sound_meta) no_record r
    × ((read ready_env 8 sound_state).1 ≡ answer_of r)
unfolding find
read_lem_example = read_lem ready_env 8 sound_state refl tree_two-IsWell refl sound_meta-IsSound

segment_lookup_level_lem_example :
    ((segment_lookup_level 6 8 9 sound_meta.segments no_filter_stats none).1.level_hit
      ≡ newest_hit 6 8 sound_meta.segments none)
    × ((segment_lookup_level 6 8 9 sound_meta.segments no_filter_stats none).1.needs_sorted_fallback
        ≡ not (has_segment 6 sound_meta.segments))
    × AsGood sound_meta.segments
        (segment_lookup_level 6 8 9 sound_meta.segments no_filter_stats none).0
segment_lookup_level_lem_example =
    segment_lookup_level_lem 6 8 9 sound_meta.segments no_filter_stats none
      (sound_meta-IsFiltered, tt)
