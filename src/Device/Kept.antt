-- ===== src/Device/Kept.antt =====
-- A compaction of the selected segment and the index.
use mathlib.Core.Path.{subst}
use imr_lsm.Prelude.{
  ℕ, ◌+◌, ◌≤◌, ◌<◌, ◌≡◌, refl, sym, ap, inl, inr, Bool, true, false, not, ◌&&◌, Option, none, some,
  List, [], ◌∷◌, length, ◌==◌, if◌then◌else◌, arith, All, Bool-cases, u32_max, u32_mod,
}
use imr_lsm.Metadata.{Entry, Level, Segment, Code, success, enomem}
use imr_lsm.BlockTable.{Builder, builder_add}
use imr_lsm.BlockTable.Range.{IsRanged, empty-IsRanged, builder_add-IsRanged}
use imr_lsm.SortedLevel.Upsert.{IsSortedLevel}
use imr_lsm.Records.{entry_should_keep}
use imr_lsm.Validity.{recalculate_invalid_stats, update_selection, recalculate_segment, scored}
use imr_lsm.State.{Meta, State, Env}
use imr_lsm.Prelude.Members.{All-map}
use imr_lsm.Metadata.{max_level}
use imr_lsm.Compaction.{append_segment}
use imr_lsm.Compaction.Filters.{
  IsFiltered, recalculate_segment-core, recalculate_invalid_stats-IsFiltered,
  append_segment-IsFiltered,
}
use imr_lsm.Compaction.Sound.{IsSound, kept-append_segment}
use imr_lsm.Device.Compact.{Disk}
use imr_lsm.Device.Output.{OutputStats}
use imr_lsm.Device.Commits.{either-IsFiltered, either-IsSound, commit_output-IsSound}
use imr_lsm.Device.Segments.{
  SegmentStats, find_segment, selected_segment, Keeping, then_keep, Compacted, keep_entry,
  keep_entries, retire_segment, retire_and_commit, then_retire, then_append_kept,
  compact_selected_segment,
}

retire_segment-IsFiltered :
    (id : ℕ) (ss : List Segment) → All IsFiltered ss → All IsFiltered (retire_segment id ss)
unfolding retire_segment
retire_segment-IsFiltered id [] h = tt
retire_segment-IsFiltered id (s ∷ ss) h =
    either-IsFiltered (λ (r : List Segment). r) (not s.retired && (s.id == id)) _ _
      (record { ascending = h.0.ascending; admitted = h.0.admitted; filled = h.0.filled }, h.1)
      (h.0, retire_segment-IsFiltered id ss h.1)

recalculated-IsSound :
    (env : Env) (s : State) (m : Meta)
    → IsSound m
    → IsSound (recalculate_invalid_stats env.geometry s.zones m)
unfolding recalculate_invalid_stats update_selection
recalculated-IsSound env s m h = record {
  levels = h.levels;
  segments = recalculate_invalid_stats-IsFiltered env.geometry s.zones m h.segments;
  active = h.active;
}

-- the table is not too long to be counted
abbrev pub IsCounted : Segment → Type 0
IsCounted s = length s.block_table < u32_max

recalculated-IsCounted :
    (env : Env) (s : State) (m : Meta)
    → All IsCounted m.segments
    → All IsCounted (recalculate_invalid_stats env.geometry s.zones m).segments
unfolding recalculate_invalid_stats update_selection
recalculated-IsCounted env s m h =
    All-map IsCounted scored _ (λ x k. k)
      (All-map IsCounted (recalculate_segment env.geometry s.zones m) m.segments
        (λ x k.
          subst (λ (es : List Entry). length es < u32_max)
            (sym (ap (λ c. c.3) (recalculate_segment-core env.geometry s.zones m x))) k)
        h)

abbrev AllCounted : Option Segment → Type 0
AllCounted none = Unit
AllCounted (some s) = IsCounted s

either-AllCounted :
    (b : Bool) (x y : Option Segment)
    → AllCounted x
    → AllCounted y
    → AllCounted (if b then x else y)
either-AllCounted true x y h k = h
either-AllCounted false x y h k = k

find_segment-AllCounted :
    (id : ℕ) (ss : List Segment) → All IsCounted ss → AllCounted (find_segment id ss)
unfolding find_segment
find_segment-AllCounted id [] h = tt
find_segment-AllCounted id (s ∷ ss) h =
    either-AllCounted (not s.retired && (s.id == id)) _ _ h.0 (find_segment-AllCounted id ss h.1)

selected_segment-AllCounted :
    (m : Meta) → All IsCounted m.segments → AllCounted (selected_segment m)
unfolding selected_segment
selected_segment-AllCounted m h =
    either-AllCounted (m.stats.candidate.score == 0) _ _ tt
      (find_segment-AllCounted m.stats.candidate.segment_id m.segments h)

module _ (env : Env) where
  -- one entry more in the builder, at most
  KeepsRange : ℕ → Keeping → Keeping × Code → Type 0
  KeepsRange k c r = IsRanged r.0.builder × (r.0.builder.node_count ≤ c.builder.node_count + k)

  then_keep-builder : (c : Keeping) (r : Builder × Code) → (then_keep env c r).0.builder ≡ r.0
  then_keep-builder c (b, success) = refl
  then_keep-builder c (b, enomem) = refl
  then_keep-builder c (b, code) = refl

  keep_entry-KeepsRange :
      (s : State) (zone_idx : ℕ) (e : Entry) (c : Keeping)
      → IsRanged c.builder
      → c.builder.node_count + 1 < u32_mod
      → KeepsRange 1 c (keep_entry env s zone_idx e c)
  unfolding keep_entry KeepsRange
  keep_entry-KeepsRange s zone_idx e c h room =
      let added =
        builder_add-IsRanged env.compaction_threshold (env.alloc c.allocs) e.key e.pba zone_idx
          e.valid e.timestamp c.builder h room in
      let r =
        builder_add env.compaction_threshold (env.alloc c.allocs) e.key e.pba zone_idx e.valid
          e.timestamp c.builder in
      elim (Bool-cases (not (entry_should_keep env.geometry s.zones s.meta e))) [
        | inl dropped ↦ rw dropped (h, omega arith)
        | inr kept ↦ rw (kept, then_keep-builder c r) (added.0, added.1)
      ]

  keep_entries-IsRanged :
      (s : State) (zone_idx : ℕ) (es : List Entry) (c : Keeping)
      → IsRanged c.builder
      → c.builder.node_count + length es < u32_mod
      → IsRanged (keep_entries env s zone_idx es c).0.builder
  unfolding keep_entries KeepsRange
  keep_entries-IsRanged s zone_idx [] c h room = h
  keep_entries-IsRanged s zone_idx (e ∷ es) c h room =
      let one = keep_entry-KeepsRange s zone_idx e c h (omega arith) in
      let (c', code) = keep_entry env s zone_idx e c in
      (elim code
        as (λ x.
          let r : Keeping × Code = elim x [
            | success ↦ keep_entries env s zone_idx es c'
            | failed ↦ (c', failed)
          ] in
          IsRanged r.0.builder) [
            | success ↦ keep_entries-IsRanged s zone_idx es c' one.0 (omega (arith, one.1, room))
            | failed ↦ one.0
          ])

  append_segment-IsSound :
      (level track : ℕ) (b : Builder) (s : State)
      → IsRanged b
      → IsSound s.meta
      → IsSound (append_segment env level track b s).0.meta
  append_segment-IsSound level track b s ranged h =
      let kept = kept-append_segment env level track b s in
      record {
        levels =
            subst (λ (f : ℕ → Level). (level : ℕ) → IsSortedLevel (f level))
              (sym (ap (λ x. x.0) kept)) h.levels;
        segments = append_segment-IsFiltered env level track b s ranged h.segments;
        active = subst (λ (n : ℕ). n ≤ max_level) (sym (ap (λ x. x.1) kept)) h.active;
      }

  retire_and_commit-IsSound :
      (segment : Segment) (c : Keeping) (appended : Bool) (new_id : ℕ) (s : State) (disk : Disk)
      (o : OutputStats) (st : SegmentStats)
      → IsSound s.meta
      → IsSound (retire_and_commit env segment c appended new_id s disk o st).output.index.meta
  unfolding retire_and_commit
  retire_and_commit-IsSound segment c appended new_id s disk o st h =
      let m = record (s.meta) { segments = retire_segment segment.id s.meta.segments } in
      let retired : IsSound m = record {
        levels = h.levels;
        segments = retire_segment-IsFiltered segment.id s.meta.segments h.segments;
        active = h.active;
      } in
      let sound = recalculated-IsSound env s m retired in
      either-IsSound env appended _ _ (commit_output-IsSound env 3 disk _ o sound) sound

  then_retire-IsSound :
      (segment : Segment) (c : Keeping) (new_id : ℕ) (disk : Disk) (o : OutputStats)
      (st : SegmentStats) (r : State × Code)
      → IsSound r.0.meta
      → IsSound (then_retire env segment c new_id disk o st r).output.index.meta
  then_retire-IsSound segment c new_id disk o st (s, success) h =
      retire_and_commit-IsSound segment c _ new_id s disk o st h
  then_retire-IsSound segment c new_id disk o st (s, enomem) h = h
  then_retire-IsSound segment c new_id disk o st (s, code) h = h

  then_append_kept-IsSound :
      (segment : Segment) (s : State) (disk : Disk) (o : OutputStats) (st : SegmentStats)
      (r : Keeping × Code)
      → IsRanged r.0.builder
      → IsSound s.meta
      → IsSound (then_append_kept env segment s disk o st r).output.index.meta
  then_append_kept-IsSound segment s disk o st (c, success) ranged h =
      then_retire-IsSound segment c s.meta.next_segment_id disk o st _ (
        append_segment-IsSound segment.level segment.track_type c.builder
          (record s { allocs = c.allocs }) ranged h)
  then_append_kept-IsSound segment s disk o st (c, enomem) ranged h = h
  then_append_kept-IsSound segment s disk o st (c, code) ranged h = h

  picked-IsSound :
      (picked : Option Segment) (left : Compacted) (s : State) (start : Keeping) (disk : Disk)
      (o : OutputStats) (st : SegmentStats)
      → IsSound left.output.index.meta
      → IsSound s.meta
      → AllCounted picked
      → IsRanged start.builder
      → start.builder.node_count ≡ 0
      → (let r : Compacted = elim picked [
        | none ↦ left
        | some segment ↦
            then_append_kept env segment s disk o st
              (keep_entries env s segment.zone_idx segment.block_table start)
      ] in
          IsSound r.output.index.meta)
  picked-IsSound none left s start disk o st h sound small ranged fresh = h
  picked-IsSound (some segment) left s start disk o st h sound small ranged fresh =
      then_append_kept-IsSound segment s disk o st _
        (keep_entries-IsRanged s segment.zone_idx segment.block_table start ranged
          (omega (arith, small, fresh)))
        sound

  -- A compaction of the selected segment, however far it gets, keeps the levels sorted and the filters of all
  -- segments true to their tables. Each segment has fewer than 2^32 - 1
  -- entries in its table.
  pub compact_selected_segment-IsSound :
      (disk : Disk) (s : State) (o : OutputStats) (st : SegmentStats)
      → IsSound s.meta
      → All IsCounted s.meta.segments
      → IsSound (compact_selected_segment env disk s o st).output.index.meta
  unfolding compact_selected_segment
  compact_selected_segment-IsSound disk s o st h small =
      let s' = record s { meta = recalculate_invalid_stats env.geometry s.zones s.meta } in
      let sound = recalculated-IsSound env s s.meta h in
      picked-IsSound (selected_segment s'.meta) _ s' _ disk o st sound sound
        (selected_segment-AllCounted s'.meta (recalculated-IsCounted env s s.meta small))
        empty-IsRanged refl
