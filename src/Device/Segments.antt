-- ===== src/Device/Segments.antt =====
-- The compaction of the selected segment (imrsim_kmod/dm-imrsim.c,
-- `imr_lsm_selected_segment_compaction_candidate_locked` and `imr_lsm_compact_selected_segment_locked`).
use imr_lsm.Prelude.{
  ℕ, suc, Bool, true, false, not, ◌&&◌, Option, none, some, List, [], ◌∷◌, length, ◌==◌,
  if◌then◌else◌, inc64,
}
use imr_lsm.Metadata.{Entry, Segment, Code, success}
use imr_lsm.BlockTable.{Builder, empty_builder, builder_add}
use imr_lsm.Records.{entry_should_keep}
use imr_lsm.Validity.{recalculate_invalid_stats}
use imr_lsm.State.{Meta, State, Env}
use imr_lsm.Compaction.{append_segment}
use imr_lsm.Device.{e_index}
use imr_lsm.Device.Compact.{Disk}
use imr_lsm.Device.Output.{OutputStats, OutputRun, commit_output}

-- the counters of the compactions of segments; `none` is IMR_LSM_SEGMENT_NONE
pub record SegmentStats : Type 0 where
  pub execute_count : ℕ
  pub no_candidate_count : ℕ
  pub last_from_id : Option ℕ
  pub last_to_id : Option ℕ
  pub last_input_entries : ℕ
  pub last_live_entries : ℕ
  pub last_dropped_entries : ℕ

-- the first segment that has the number of the candidate and is not retired
unfoldable pub find_segment : ℕ → List Segment → Option Segment
find_segment id [] = none
find_segment id (s ∷ ss) = if not s.retired && (s.id == id) then some s else find_segment id ss

-- `imr_lsm_selected_segment_compaction_candidate_locked`
unfoldable pub selected_segment : Meta → Option Segment
selected_segment m =
    let c = m.stats.candidate in if c.score == 0 then none else find_segment c.segment_id m.segments

-- what the loop over the entries carries
pub record Keeping : Type 0 where
  pub builder : Builder
  pub live : ℕ
  pub dropped : ℕ
  pub allocs : ℕ

-- the segment that was compacted, where it stands in the list
abbrev pub retire : Segment → Segment
retire s = record s { retired = true; compaction_candidate = false; compaction_score = 0 }

-- The source holds a pointer to the segment; numbers of segments are not used twice, so it is the first
-- one with the number that is not retired.
unfoldable pub retire_segment : ℕ → List Segment → List Segment
retire_segment id [] = []
retire_segment id (s ∷ ss) =
    if not s.retired && (s.id == id) then retire s ∷ ss else s ∷ retire_segment id ss

-- what a compaction of a segment returns: the output's record, and the counters
pub record Compacted : Type 0 where
  pub output : OutputRun
  pub stats : SegmentStats

module _ (env : Env) where
  abbrev pub then_keep : Keeping → Builder × Code → Keeping × Code
  then_keep c (b, success) =
      (record c { builder = b; live = suc c.live; allocs = suc c.allocs }, success)
  then_keep c (b, code) = (record c { builder = b; allocs = suc c.allocs }, code)

  -- one entry: it is dropped, or added to the builder of the new segment
  unfoldable pub keep_entry : State → ℕ → Entry → Keeping → Keeping × Code
  keep_entry s zone_idx e c =
      if not (entry_should_keep env.geometry s.zones s.meta e)
      then (record c { dropped = suc c.dropped }, success)
      else then_keep c (
          builder_add env.compaction_threshold (env.alloc c.allocs) e.key e.pba zone_idx e.valid
            e.timestamp c.builder)

  unfoldable pub keep_entries : State → ℕ → List Entry → Keeping → Keeping × Code
  keep_entries s zone_idx [] c = (c, success)
  keep_entries s zone_idx (e ∷ es) c =
      let (c', code) = keep_entry s zone_idx e c in
      elim code [ success ↦ keep_entries s zone_idx es c' | failed ↦ (c', failed) ]

  abbrev pub refused_with : Code → State → Disk → OutputStats → SegmentStats → Compacted
  refused_with code s disk o st = record {
    output = record { index = s; stats = o; disk = disk; error = some (e_index code) };
    stats = st;
  }

  -- the segment is retired and the counters written; a new segment is then committed to its output
  unfoldable pub retire_and_commit :
      Segment → Keeping → Bool → ℕ → State → Disk → OutputStats → SegmentStats → Compacted
  retire_and_commit segment c appended new_id s disk o st =
      let m = record (s.meta) { segments = retire_segment segment.id s.meta.segments } in
      let s' = record s { meta = recalculate_invalid_stats env.geometry s.zones m } in
      record {
        output =
            if appended
            then commit_output env 3 disk s' o
            else record { index = s'; stats = o; disk = disk; error = none };
        stats = record st {
          execute_count = inc64 st.execute_count;
          last_from_id = some segment.id;
          last_to_id = if appended then some new_id else none;
          last_input_entries = length segment.block_table;
          last_live_entries = c.live;
          last_dropped_entries = c.dropped;
        };
      }

  abbrev pub then_retire :
      Segment → Keeping → ℕ → Disk → OutputStats → SegmentStats → State × Code → Compacted
  then_retire segment c new_id disk o st (s, success) =
      retire_and_commit segment c (not (c.builder.node_count == 0)) new_id s disk o st
  then_retire segment c new_id disk o st (s, code) = refused_with code s disk o st

  abbrev pub then_append_kept :
      Segment → State → Disk → OutputStats → SegmentStats → Keeping × Code → Compacted
  then_append_kept segment s disk o st (c, success) =
      then_retire segment c s.meta.next_segment_id disk o st (
        append_segment env segment.level segment.track_type c.builder
          (record s { allocs = c.allocs }))
  then_append_kept segment s disk o st (c, code) =
      refused_with code (record s { allocs = c.allocs }) disk o st

  -- `imr_lsm_compact_selected_segment_locked`. An empty builder makes no segment, as in the source, which
  -- tests it before the call.
  unfoldable pub compact_selected_segment : Disk → State → OutputStats → SegmentStats → Compacted
  compact_selected_segment disk s o st =
      let s' = record s { meta = recalculate_invalid_stats env.geometry s.zones s.meta } in
      let start : Keeping = record {
        builder = empty_builder;
        live = 0;
        dropped = 0;
        allocs = s.allocs;
      } in
      elim (selected_segment s'.meta) [
        | none ↦ record {
          output = record { index = s'; stats = o; disk = disk; error = none };
          stats = record st {
            no_candidate_count = inc64 st.no_candidate_count;
            last_from_id = none;
            last_to_id = none;
            last_input_entries = 0;
            last_live_entries = 0;
            last_dropped_entries = 0;
          };
        }
        | some segment ↦
            then_append_kept segment s' disk o st
              (keep_entries s' segment.zone_idx segment.block_table start)
      ]
