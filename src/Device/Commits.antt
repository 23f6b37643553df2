-- ===== src/Device/Commits.antt =====
-- The passes over the segments and the keys of their tables.
use mathlib.Core.Path.{subst}
use imr_lsm.Prelude.{
  ℕ, ◌<◌, ◌≡◌, refl, sym, ap, Bool, true, false, ◌||◌, Option, none, some, List, [], ◌∷◌, map,
  length, ◌==◌, ltb, if◌then◌else◌, arith, All,
}
use imr_lsm.Prelude.Keyed.{IsAscending}
use imr_lsm.Metadata.{Entry, Segment}
use imr_lsm.BlockTable.{entry_key}
use imr_lsm.State.{Meta, State, Env}
use imr_lsm.Geometry.{Geometry}
use imr_lsm.Compaction.Filters.{IsFiltered, Admits}
use imr_lsm.Compaction.Sound.{IsSound}
use imr_lsm.Device.{Errno}
use imr_lsm.Device.Compact.{Disk}
use imr_lsm.Device.Output.{
  Pass, OutputStats, OutputRun, Commit, plan_entry, plan_entries, plan_segments, plan_output_copy,
  copy_entry, copy_entries, copy_segments, copy_refusal, copy_output_payload, commit_entry,
  commit_entries, commit_segments, commit_output_metadata, commit_output, committed, record_copy,
  open_segment, close_segment, no_pass,
}

abbrev keys : List Entry → List ℕ
keys = map entry_key

All-keys : (P : ℕ → Type 0) (es : List Entry) → All (λ (e : Entry). P e.key) es → All P (keys es)
All-keys P [] h = tt
All-keys P (e ∷ es) h = (h.0, All-keys P es h.1)

keys-All : (P : ℕ → Type 0) (es : List Entry) → All P (keys es) → All (λ (e : Entry). P e.key) es
keys-All P [] h = tt
keys-All P (e ∷ es) h = (h.0, keys-All P es h.1)

IsAscending-keys :
    (es : List Entry) → IsAscending entry_key es → IsAscending (λ (k : ℕ). k) (keys es)
IsAscending-keys [] h = tt
IsAscending-keys (e ∷ es) h = (All-keys (λ k. e.key < k) es h.0, IsAscending-keys es h.1)

keys-IsAscending :
    (es : List Entry) → IsAscending (λ (k : ℕ). k) (keys es) → IsAscending entry_key es
keys-IsAscending [] h = tt
keys-IsAscending (e ∷ es) h = (keys-All (λ k. e.key < k) es h.0, keys-IsAscending es h.1)

length-keys : (es : List Entry) → length (keys es) ≡ length es
length-keys [] = refl
length-keys (e ∷ es) = omega (arith, length-keys es)

-- a segment with another table of the same keys
table-IsFiltered :
    (s : Segment) (es : List Entry)
    → keys es ≡ keys s.block_table
    → IsFiltered s
    → IsFiltered (record s { block_table = es })
table-IsFiltered s es same h = record {
  ascending =
      keys-IsAscending es (
        subst (IsAscending (λ (k : ℕ). k)) (sym same) (IsAscending-keys s.block_table h.ascending));
  admitted =
      keys-All (Admits s) es
        (subst (All (Admits s)) (sym same) (All-keys (Admits s) s.block_table h.admitted));
  filled = omega (
    arith,
    ap (λ (ks : List ℕ). length ks) same,
    length-keys es,
    length-keys s.block_table,
    h.filled,
  );
}

-- two outcomes with the segments in each
pub either-IsFiltered :
    {R : Type 0}
    → (segments : R → List Segment) (b : Bool) (x y : R) → All IsFiltered (segments x)
    → All IsFiltered (segments y)
    → All IsFiltered (segments (if b then x else y))
either-IsFiltered segments true x y h k = h
either-IsFiltered segments false x y h k = k

module _ (g : Geometry) where
  plan_entries-keys : (es : List Entry) (p : Pass) → keys (plan_entries g es p).0 ≡ keys es
  unfolding plan_entries plan_entry
  plan_entries-keys [] p = refl
  plan_entries-keys (e ∷ es) p = ground (arith, plan_entries-keys es (plan_entry g e p).1)

  plan_segments-IsFiltered :
      (ss : List Segment) (p : Pass) → All IsFiltered ss → All IsFiltered (plan_segments g ss p).0
  unfolding plan_segments
  plan_segments-IsFiltered [] p h = tt
  plan_segments-IsFiltered (s ∷ ss) p h =
      let (es, p') = plan_entries g s.block_table (open_segment g p) in
      either-IsFiltered (λ (r : List Segment × Pass). r.0) s.retired _ _
        (h.0, plan_segments-IsFiltered ss p h.1)
        (
          table-IsFiltered s es (plan_entries-keys s.block_table (open_segment g p)) h.0,
          plan_segments-IsFiltered ss (close_segment g s.id p') h.1,
        )

  copy_entry-key : (e : Entry) (disk : Disk) (p : Pass) → (copy_entry g e disk p).0.key ≡ e.key
  unfolding copy_entry
  copy_entry-key e disk p = ground arith

  -- the entries after one that was copied, or not
  rest_keys :
      (e e' : Entry) (es : List Entry) (disk : Disk) (p : Pass) (error : Option Errno)
      (rest : List Entry × Disk × Pass × Option Errno)
      → e'.key ≡ e.key
      → keys rest.0 ≡ keys es
      → (let r : List Entry × Disk × Pass × Option Errno = elim error [
        | none ↦ (e' ∷ rest.0, rest.1, rest.2, rest.3)
        | some x ↦ (e' ∷ es, disk, p, some x)
      ] in
          keys r.0 ≡ keys (e ∷ es))
  rest_keys e e' es disk p none rest one more = rw (one, more) refl
  rest_keys e e' es disk p (some x) rest one more = rw one refl

  copy_entries-keys :
      (es : List Entry) (disk : Disk) (p : Pass) → keys (copy_entries g es disk p).0 ≡ keys es
  unfolding copy_entries
  copy_entries-keys [] disk p = refl
  copy_entries-keys (e ∷ es) disk p =
      let (e', disk', p', error) = copy_entry g e disk p in
      rest_keys e e' es disk' p' error (copy_entries g es disk' p') (copy_entry-key e disk p)
        (copy_entries-keys es disk' p')

  rest-IsFiltered :
      (s : Segment) (ss : List Segment) (disk : Disk) (p : Pass) (error : Option Errno)
      (rest : List Segment × Disk × Pass × Option Errno)
      → IsFiltered s
      → All IsFiltered ss
      → All IsFiltered rest.0
      → (let r : List Segment × Disk × Pass × Option Errno = elim error [
        | none ↦ (s ∷ rest.0, rest.1, rest.2, rest.3)
        | some x ↦ (s ∷ ss, disk, p, some x)
      ] in
          All IsFiltered r.0)
  rest-IsFiltered s ss disk p none rest one left more = (one, more)
  rest-IsFiltered s ss disk p (some x) rest one left more = (one, left)

  copy_segments-IsFiltered :
      (ss : List Segment) (disk : Disk) (p : Pass)
      → All IsFiltered ss
      → All IsFiltered (copy_segments g ss disk p).0
  unfolding copy_segments
  copy_segments-IsFiltered [] disk p h = tt
  copy_segments-IsFiltered (s ∷ ss) disk p h =
      let (es, disk', p', error) = copy_entries g s.block_table disk (open_segment g p) in
      let one =
        table-IsFiltered s es (copy_entries-keys s.block_table disk (open_segment g p)) h.0 in
      either-IsFiltered (λ (r : List Segment × Disk × Pass × Option Errno). r.0) s.retired _ _
        (h.0, copy_segments-IsFiltered ss disk p h.1)
        (rest-IsFiltered (record s { block_table = es }) ss disk' p' error
          (copy_segments g ss disk' (close_segment g s.id p')) one h.1
          (copy_segments-IsFiltered ss disk' (close_segment g s.id p') h.1))

module _ (env : Env) where
  commit_entries-keys :
      (m : Meta) (es : List Entry) (c : Commit) → keys (commit_entries env m es c).0 ≡ keys es
  unfolding commit_entries commit_entry
  commit_entries-keys m [] c = refl
  commit_entries-keys m (e ∷ es) c =
      ground (arith, commit_entries-keys m es (commit_entry env m e c).1)

  commit_segments-IsFiltered :
      (m : Meta) (ss : List Segment) (c : Commit)
      → All IsFiltered ss
      → All IsFiltered (commit_segments env m ss c).0
  unfolding commit_segments
  commit_segments-IsFiltered m [] c h = tt
  commit_segments-IsFiltered m (s ∷ ss) c h =
      let opened = record c { pass = open_segment env.geometry c.pass } in
      let (es, c') = commit_entries env m s.block_table opened in
      either-IsFiltered (λ (r : List Segment × Commit). r.0) s.retired _ _
        (h.0, commit_segments-IsFiltered m ss c h.1)
        (
          table-IsFiltered s es (commit_entries-keys m s.block_table opened) h.0,
          commit_segments-IsFiltered m ss
              (record c' { pass = close_segment env.geometry s.id c'.pass }) h.1,
        )

  committed-IsSound : (r : OutputRun) → IsSound r.index.meta → IsSound (committed env r).index.meta
  unfolding commit_output_metadata
  committed-IsSound r h = record {
    levels = h.levels;
    segments = commit_segments-IsFiltered r.index.meta r.index.meta.segments _ h.segments;
    active = h.active;
  }

  pub either-IsSound :
      (b : Bool) (x y : OutputRun)
      → IsSound x.index.meta
      → IsSound y.index.meta
      → IsSound (if b then x else y).index.meta
  either-IsSound true x y h k = h
  either-IsSound false x y h k = k

  ended-IsSound :
      (error : Option Errno) (x : OutputRun)
      → IsSound x.index.meta
      → (let r : OutputRun = elim error [ none ↦ committed env x | some e ↦ x ] in
          IsSound r.index.meta)
  ended-IsSound none x h = committed-IsSound x h
  ended-IsSound (some e) x h = h

  refused-IsSound :
      (refusal : Option Errno) (m : Meta) (disk : Disk) (o : OutputStats)
      → IsSound m
      → (let r : Meta × OutputStats × Disk × Option Errno = elim refusal [
        | some e ↦ (m, record_copy env.geometry (some e) no_pass o, disk, some e)
        | none ↦ (
          record m { segments = (copy_segments env.geometry m.segments disk no_pass).0 },
          record_copy env.geometry
              (copy_segments env.geometry m.segments disk no_pass).3
              (copy_segments env.geometry m.segments disk no_pass).2
              o,
          (copy_segments env.geometry m.segments disk no_pass).1,
          (copy_segments env.geometry m.segments disk no_pass).3,
        )
      ] in
          IsSound r.0)
  refused-IsSound (some e) m disk o h = h
  refused-IsSound none m disk o h = record {
    levels = h.levels;
    segments = copy_segments-IsFiltered env.geometry m.segments disk no_pass h.segments;
    active = h.active;
  }

  copy_output_payload-IsSound :
      (disk : Disk) (m : Meta) (o : OutputStats)
      → IsSound m
      → IsSound (copy_output_payload env.geometry disk m o).0
  unfolding copy_output_payload
  copy_output_payload-IsSound disk m o h =
      refused-IsSound (copy_refusal env.geometry disk) m disk o h

  plan_output_copy-IsSound :
      (m : Meta) (o : OutputStats) → IsSound m → IsSound (plan_output_copy env.geometry m o).0
  unfolding plan_output_copy
  plan_output_copy-IsSound m o h = record {
    levels = h.levels;
    segments = plan_segments-IsFiltered env.geometry m.segments no_pass h.segments;
    active = h.active;
  }

  -- A run of the output, with each of its steps and whether or not the disk fails in it, keeps the levels
  -- sorted and the filters of all segments true to their tables.
  pub commit_output-IsSound :
      (run : ℕ) (disk : Disk) (s : State) (o : OutputStats)
      → IsSound s.meta
      → IsSound (commit_output env run disk s o).index.meta
  unfolding commit_output
  commit_output-IsSound run disk s o h =
      let (m, o') = plan_output_copy env.geometry s.meta o in
      let plan = plan_output_copy-IsSound s.meta o h in
      let copy = copy_output_payload-IsSound disk m o' plan in
      let planned : OutputRun = record {
        index = record s { meta = m };
        stats = o';
        disk = disk;
        error = none;
      } in
      either-IsSound ((run == 0) || ltb 3 run) _ _ h (
        either-IsSound (run == 1) _ _ plan (
          either-IsSound (run == 2) _ _ (committed-IsSound planned plan)
            (ended-IsSound (copy_output_payload env.geometry disk m o').3 _ copy)))
