-- ===== src/Device/Addresses.antt =====
-- The addresses of the entries of all segments in a run of the output.
use imr_lsm.Prelude.{
  ℕ, ◌≡◌, refl, ap, ◌∙◌, Bool, true, false, not, inl, inr, ◌&&◌, ◌||◌, Option, none, some, List, [],
  ◌∷◌, map, ◌==◌, ltb, leb, if◌then◌else◌, arith, All, Bool-cases,
}
use imr_lsm.Metadata.{Entry, Segment}
use imr_lsm.State.{Meta, State, Env}
use imr_lsm.Geometry.{Geometry}
use imr_lsm.Device.{Errno}
use imr_lsm.Device.Compact.{Disk}
use imr_lsm.Device.Output.{
  Pass, OutputStats, OutputRun, Commit, plan_entry, plan_entries, plan_segments, plan_output_copy,
  copy_entry, copy_entries, copy_segments, copy_refusal, copy_output_payload, commit_entry,
  commit_entries, commit_segments, commit_output_metadata, commit_output, committed, record_copy,
  open_segment, close_segment, no_pass,
}

-- where an entry is
abbrev pub at : Entry → ℕ × ℕ
at e = (e.key, e.pba)

-- where it is to go: a valid entry that is mapped and not yet committed, to its output; others stay
abbrev pub due : Entry → ℕ × ℕ
due e = (
  e.key,
  if e.valid && (e.copy.output_mapped && not e.copy.output_committed)
      then e.copy.output_pba
      else e.pba,
)

abbrev pub addresses : List Segment → List (List (ℕ × ℕ))
addresses [] = []
addresses (s ∷ ss) = map at s.block_table ∷ addresses ss

-- a retired segment stays as it is
abbrev pub outputs : List Segment → List (List (ℕ × ℕ))
outputs [] = []
outputs (s ∷ ss) = (if s.retired then map at s.block_table else map due s.block_table) ∷ outputs ss

abbrev IsPlanned : Entry → Type 0
IsPlanned e = e.copy.output_copy_planned ≡ (e.valid && e.copy.output_mapped)

abbrev ArePlanned : Segment → Type 0
ArePlanned s = s.retired ≡ false → All IsPlanned s.block_table

cons_eq : {A : Type 0} → {x y : A} → {xs ys : List A} → x ≡ y → xs ≡ ys → (x ∷ xs) ≡ (y ∷ ys)
cons_eq e f = rw (e, f) refl

-- two outcomes with the segments in each
either_segments :
    {R : Type 0}
    → (segments : R → List Segment) (P : List Segment → Type 0) (b : Bool) (x y : R)
    → (b ≡ true → P (segments x))
    → (b ≡ false → P (segments y))
    → P (segments (if b then x else y))
either_segments segments P true x y h k = h refl
either_segments segments P false x y h k = k refl

module _ (g : Geometry) where
  plan_entries-IsPlanned : (es : List Entry) (p : Pass) → All IsPlanned (plan_entries g es p).0
  unfolding plan_entries plan_entry
  plan_entries-IsPlanned [] p = tt
  plan_entries-IsPlanned (e ∷ es) p = (ground arith, plan_entries-IsPlanned es (plan_entry g e p).1)

  plan_entries-at :
      (es : List Entry) (p : Pass)
      → (map at (plan_entries g es p).0 ≡ map at es)
        × (map due (plan_entries g es p).0 ≡ map due es)
  unfolding plan_entries plan_entry
  plan_entries-at [] p = (refl, refl)
  plan_entries-at (e ∷ es) p =
      let rest = plan_entries-at es (plan_entry g e p).1 in
      (ground (arith, rest.0), ground (arith, rest.1))

  copy_entry-same :
      (e : Entry) (disk : Disk) (p : Pass)
      → (at (copy_entry g e disk p).0 ≡ at e)
        × (due (copy_entry g e disk p).0 ≡ due e)
        × (IsPlanned e → IsPlanned (copy_entry g e disk p).0)
  unfolding copy_entry
  copy_entry-same e disk p = (ground arith, ground arith, λ h. ground (arith, h))

  -- the same entries, for the addresses and for what is planned
  abbrev SameEntries : List Entry → List Entry → Type 0
  SameEntries es es' =
      (map at es' ≡ map at es) × (map due es' ≡ map due es) × (All IsPlanned es → All IsPlanned es')

  copied_entries :
      (e e' : Entry) (es : List Entry) (disk : Disk) (p : Pass) (error : Option Errno)
      (rest : List Entry × Disk × Pass × Option Errno)
      → (at e' ≡ at e) × (due e' ≡ due e) × (IsPlanned e → IsPlanned e')
      → SameEntries es rest.0
      → (let r : List Entry × Disk × Pass × Option Errno = elim error [
        | none ↦ (e' ∷ rest.0, rest.1, rest.2, rest.3)
        | some x ↦ (e' ∷ es, disk, p, some x)
      ] in
          SameEntries (e ∷ es) r.0)
  copied_entries e e' es disk p none rest one more =
      (cons_eq one.0 more.0, cons_eq one.1 more.1, λ h. (one.2 h.0, more.2 h.1))
  copied_entries e e' es disk p (some x) rest one more =
      (ap (λ x. x ∷ map at es) one.0, ap (λ x. x ∷ map due es) one.1, λ h. (one.2 h.0, h.1))

  copy_entries-same :
      (es : List Entry) (disk : Disk) (p : Pass) → SameEntries es (copy_entries g es disk p).0
  unfolding copy_entries
  copy_entries-same [] disk p = (refl, refl, λ h. h)
  copy_entries-same (e ∷ es) disk p =
      let (e', disk', p', error) = copy_entry g e disk p in
      copied_entries e e' es disk' p' error (copy_entries g es disk' p') (copy_entry-same e disk p)
        (copy_entries-same es disk' p')

  -- the same for segments
  abbrev SameSegments : List Segment → List Segment → Type 0
  SameSegments ss ss' =
      (addresses ss' ≡ addresses ss)
      × (outputs ss' ≡ outputs ss)
      × (All ArePlanned ss → All ArePlanned ss')

  next_segment :
      (s : Segment) (es : List Entry) (ss ss' : List Segment)
      → SameEntries s.block_table es
      → SameSegments ss ss'
      → SameSegments (s ∷ ss) (record s { block_table = es } ∷ ss')
  next_segment s es ss ss' one more = (
    cons_eq one.0 more.0,
    rw (one.0, one.1, more.1) refl,
    λ h. (λ live. one.2 (h.0 live), more.2 h.1),
  )

  passed_segment :
      (s : Segment) (ss ss' : List Segment) → SameSegments ss ss' → SameSegments (s ∷ ss) (s ∷ ss')
  passed_segment s ss ss' more = (rw more.0 refl, rw more.1 refl, λ h. (h.0, more.2 h.1))

  copied_segments :
      (s : Segment) (es : List Entry) (ss : List Segment) (disk : Disk) (p : Pass)
      (error : Option Errno) (rest : List Segment × Disk × Pass × Option Errno)
      → SameEntries s.block_table es
      → SameSegments ss rest.0
      → (let s' = record s { block_table = es } in
          let r : List Segment × Disk × Pass × Option Errno = elim error [
            | none ↦ (s' ∷ rest.0, rest.1, rest.2, rest.3)
            | some x ↦ (s' ∷ ss, disk, p, some x)
          ] in
          SameSegments (s ∷ ss) r.0)
  copied_segments s es ss disk p none rest one more = next_segment s es ss rest.0 one more
  copied_segments s es ss disk p (some x) rest one more =
      next_segment s es ss ss one (refl, refl, λ h. h)

  copy_segments-same :
      (ss : List Segment) (disk : Disk) (p : Pass) → SameSegments ss (copy_segments g ss disk p).0
  unfolding copy_segments
  copy_segments-same [] disk p = (refl, refl, λ h. h)
  copy_segments-same (s ∷ ss) disk p =
      let (es, disk', p', error) = copy_entries g s.block_table disk (open_segment g p) in
      either_segments (λ (r : List Segment × Disk × Pass × Option Errno). r.0)
        (SameSegments (s ∷ ss)) s.retired _ _
        (λ old. passed_segment s ss _ (copy_segments-same ss disk p))
        (λ live.
          copied_segments s es ss disk' p' error
            (copy_segments g ss disk' (close_segment g s.id p'))
            (copy_entries-same s.block_table disk (open_segment g p))
            (copy_segments-same ss disk' (close_segment g s.id p')))

  -- what a plan of the segments makes of them
  abbrev Plans : List Segment → List Segment → Type 0
  Plans ss ss' = (addresses ss' ≡ addresses ss) × (outputs ss' ≡ outputs ss) × All ArePlanned ss'

  plan_segments-Plans : (ss : List Segment) (p : Pass) → Plans ss (plan_segments g ss p).0
  unfolding plan_segments
  plan_segments-Plans [] p = (refl, refl, tt)
  plan_segments-Plans (s ∷ ss) p =
      let (es, p') = plan_entries g s.block_table (open_segment g p) in
      let one = plan_entries-at s.block_table (open_segment g p) in
      let passed = plan_segments-Plans ss p in
      let more = plan_segments-Plans ss (close_segment g s.id p') in
      either_segments (λ (r : List Segment × Pass). r.0) (Plans (s ∷ ss)) s.retired _ _
        (λ old. (
          cons_eq refl passed.0,
          cons_eq refl passed.1,
          (λ live. absurd (ground (arith, old, live)), passed.2),
        ))
        (λ live. (
          cons_eq one.0 more.0,
          rw (one.0, one.1, more.1) refl,
          (λ alive. plan_entries-IsPlanned s.block_table (open_segment g p), more.2),
        ))

-- whether a run ends with a commit
abbrev pub is_committed : ℕ → Option Errno → Bool
is_committed run none = leb 2 run
is_committed run (some e) = false

module _ (env : Env) where
  commit_entry-at :
      (m : Meta) (e : Entry) (c : Commit) → IsPlanned e → at (commit_entry env m e c).0 ≡ due e
  unfolding commit_entry
  commit_entry-at m e c planned = ground (arith, planned)

  commit_entries-at :
      (m : Meta) (es : List Entry) (c : Commit)
      → All IsPlanned es
      → map at (commit_entries env m es c).0 ≡ map due es
  unfolding commit_entries
  commit_entries-at m [] c h = refl
  commit_entries-at m (e ∷ es) c h =
      cons_eq (commit_entry-at m e c h.0) (commit_entries-at m es (commit_entry env m e c).1 h.1)

  commit_segments-addresses :
      (m : Meta) (ss : List Segment) (c : Commit)
      → All ArePlanned ss
      → addresses (commit_segments env m ss c).0 ≡ outputs ss
  unfolding commit_segments
  commit_segments-addresses m [] c h = refl
  commit_segments-addresses m (s ∷ ss) c h =
      let opened = record c { pass = open_segment env.geometry c.pass } in
      let (es, c') = commit_entries env m s.block_table opened in
      either_segments (λ (r : List Segment × Commit). r.0) (λ r. addresses r ≡ outputs (s ∷ ss))
        s.retired _ _ (λ old. rw old (cons_eq refl (commit_segments-addresses m ss c h.1)))
        (λ live. rw live (
          cons_eq (commit_entries-at m s.block_table opened (h.0 live)) (
            commit_segments-addresses m ss
              (record c' { pass = close_segment env.geometry s.id c'.pass }) h.1)))

  refused_same :
      (refusal : Option Errno) (m : Meta) (disk : Disk) (o : OutputStats)
      → (let r : Meta × OutputStats × Disk × Option Errno = elim refusal [
        | some e ↦ (m, record_copy env.geometry (some e) no_pass o, disk, some e)
        | none ↦ (
          record m { segments = (copy_segments env.geometry m.segments disk no_pass).0 },
          record_copy env.geometry
              (copy_segments env.geometry m.segments disk no_pass).3
              (copy_segments env.geometry m.segments disk no_pass).2
              o,
          (copy_segments env.geometry m.segments disk no_pass).1,
          (copy_segments env.geometry m.segments disk no_pass).3,
        )
      ] in
          SameSegments env.geometry m.segments r.0.segments)
  refused_same (some e) m disk o = (refl, refl, λ h. h)
  refused_same none m disk o = copy_segments-same env.geometry m.segments disk no_pass

  copy_output_payload-same :
      (disk : Disk) (m : Meta) (o : OutputStats)
      → SameSegments env.geometry m.segments (copy_output_payload env.geometry disk m o).0.segments
  unfolding copy_output_payload
  copy_output_payload-same disk m o = refused_same (copy_refusal env.geometry disk) m disk o

  -- what a run makes of the addresses
  abbrev Moves : ℕ → List Segment → OutputRun → Type 0
  Moves run ss r =
      addresses r.index.meta.segments
      ≡ (if is_committed run r.error then outputs ss else addresses ss)

  committed-addresses :
      (r : OutputRun)
      → All ArePlanned r.index.meta.segments
      → addresses (committed env r).index.meta.segments ≡ outputs r.index.meta.segments
  unfolding commit_output_metadata
  committed-addresses r h = commit_segments-addresses r.index.meta r.index.meta.segments _ h

  ended-Moves :
      (run : ℕ) (ss : List Segment) (error : Option Errno) (index : State) (stats : OutputStats)
      (disk : Disk)
      → leb 2 run ≡ true
      → (addresses index.meta.segments ≡ addresses ss)
        × (outputs index.meta.segments ≡ outputs ss)
        × All ArePlanned index.meta.segments
      → (let x : OutputRun = record { index = index; stats = stats; disk = disk; error = error } in
          let r : OutputRun = elim error [ none ↦ committed env x | some e ↦ x ] in Moves run ss r)
  ended-Moves run ss none index stats disk high h = rw high (
      committed-addresses (record { index = index; stats = stats; disk = disk; error = none }) h.2
      ∙ h.1)
  ended-Moves run ss (some e) index stats disk high h = h.0

  -- A run of the output that ends with a commit, which is a run with 2, or with 3 if the copy met no error,
  -- has moved each valid entry that was mapped and not yet committed, in the segments that are not retired, to
  -- its output; every other run, and every other entry and retired segment in such a run, keeps the addresses as they were.
  pub commit_output-addresses :
      (run : ℕ) (disk : Disk) (s : State) (o : OutputStats)
      → (let r = commit_output env run disk s o in
          addresses r.index.meta.segments ≡ (
            if is_committed run r.error
            then outputs s.meta.segments
            else addresses s.meta.segments))
  unfolding commit_output plan_output_copy
  commit_output-addresses run disk s o =
      let plan = plan_segments-Plans env.geometry s.meta.segments no_pass in
      let (m, o') = plan_output_copy env.geometry s.meta o in
      let (m', o'', disk', error) = copy_output_payload env.geometry disk m o' in
      let copy = copy_output_payload-same disk m o' in
      elim (Bool-cases ((run == 0) || ltb 3 run)) [
        | inl wrong ↦ rw wrong refl
        | inr right ↦ elim (Bool-cases (run == 1)) [
          | inl one ↦
              let early : leb 2 run ≡ false = ground (arith, one) in rw (right, one, early) plan.0
          | inr more ↦
              let high : leb 2 run ≡ true = ground (arith, right, more) in
              elim (Bool-cases (run == 2)) [
                | inl two ↦
                    rw (right, more, two)
                      (ended-Moves run s.meta.segments none (record s { meta = m }) o' disk high
                        plan)
                | inr three ↦
                    rw (right, more, three)
                      (ended-Moves run s.meta.segments error (record s { meta = m' }) o'' disk' high
                        (copy.0 ∙ plan.0, copy.1 ∙ plan.1, copy.2 plan.2))
              ]
        ]
      ]
