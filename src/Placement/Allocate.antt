-- ===== src/Placement/Allocate.antt =====
-- The output of a segment is the first free range of the top tracks.
use imr_lsm.Prelude.{
  ℕ, zero, suc, ◌+◌, ◌-◌, ◌≤◌, ◌<◌, ◌≡◌, ◌≢◌, ◌⊎◌, inl, inr, true, false, ◌&&◌, not, Option, none,
  some, List, [], ◌∷◌, ltb, leb, ◌==◌, arith, Bool-cases, Option-cases, All,
}
use imr_lsm.Geometry.{Geometry}
use imr_lsm.Metadata.{Segment, Output, placement_bottom_to_top, track_top}
use imr_lsm.Placement.{
  pba_ranges_overlap, find_output_overlap, allocate_loop, Allocation, no_target, no_space,
  allocated_at, allocate_output, output_sector_count,
}

-- the range [a, b] shares no sector with the output of the segment, if it is active and has one
abbrev pub IsClear : ℕ → ℕ → Segment → Type 0
IsClear a b s =
    s.retired ≡ false
    → s.output.allocated ≡ true
    → (b < s.output.pba_start) ⊎ ((s.output.pba_end < a) ⊎ (s.output.pba_end < s.output.pba_start))

abbrev pub IsFree : ℕ → ℕ → List Segment → Type 0
IsFree a b ss = All (IsClear a b) ss

overlap-none :
    (a b : ℕ) (ss : List Segment) → a ≤ b → find_output_overlap ss a b ≡ none → IsFree a b ss
unfolding find_output_overlap pba_ranges_overlap
overlap-none a b [] le h = tt
overlap-none a b (s ∷ ss) le h =
    elim (Bool-cases (
      not s.retired
      && (s.output.allocated && pba_ranges_overlap a b s.output.pba_start s.output.pba_end))) [
        | inl hit ↦ absurd (ground arith)
        | inr clear ↦ (λ active allocated. ground arith, overlap-none a b ss le (ground arith))
      ]

-- an output that the search returns is in the way of every range that reaches it
overlap-some :
    (a b : ℕ) (ss : List Segment) (o : Output)
    → find_output_overlap ss a b ≡ some o
    → (a ≤ o.pba_end)
      × (o.pba_start ≤ b)
      × ((x y : ℕ) → x ≤ o.pba_end → o.pba_start ≤ y → ¬ IsFree x y ss)
unfolding find_output_overlap pba_ranges_overlap
overlap-some a b [] o h = absurd (ground arith)
overlap-some a b (s ∷ ss) o h =
    elim (Bool-cases (
      not s.retired
      && (s.output.allocated && pba_ranges_overlap a b s.output.pba_start s.output.pba_end))) [
        | inl hit ↦
            let same : s.output ≡ o = ground arith in
            let e : s.output.pba_end ≡ o.pba_end = λ i. (same i).pba_end in
            let b' : s.output.pba_start ≡ o.pba_start = λ i. (same i).pba_start in
            (ground arith, ground arith, λ x y p q free. ground (arith, free.0))
        | inr clear ↦
            let (low, high, blocked) = overlap-some a b ss o (ground arith) in
            (low, high, λ x y p q free. blocked x y p q free.1)
      ]

-- What the loop returns: the first start in the range from which the sectors are free, or nothing
-- if there is no such start.
abbrev pub FirstFit : List Segment → ℕ → ℕ → ℕ → Option ℕ → Type 0
FirstFit ss sectors cursor last (some c) =
    (cursor ≤ c)
    × (c + sectors - 1 ≤ last)
    × IsFree c (c + sectors - 1) ss
    × ((x : ℕ) → cursor ≤ x → x < c → ¬ IsFree x (x + sectors - 1) ss)
FirstFit ss sectors cursor last none =
    (x : ℕ) → cursor ≤ x → x + sectors - 1 ≤ last → ¬ IsFree x (x + sectors - 1) ss

FirstFit-extend :
    (ss : List Segment) (sectors cursor later last : ℕ)
    → cursor ≤ later
    → ((x : ℕ) → cursor ≤ x → x < later → ¬ IsFree x (x + sectors - 1) ss)
    → (r : Option ℕ) → FirstFit ss sectors later last r
    → FirstFit ss sectors cursor last r
FirstFit-extend ss sectors cursor later last le passed (some c) (low, fits, free, first) = (
  omega arith,
  fits,
  free,
  λ x p lt. elim (Bool-cases (ltb x later)) [
    | inl before ↦ passed x p (ground arith)
    | inr after ↦ first x (ground arith) lt
  ],
)
FirstFit-extend ss sectors cursor later last le passed none taken = λ x p fits.
    elim (Bool-cases (ltb x later)) [
      | inl before ↦ passed x p (ground arith)
      | inr after ↦ taken x (ground arith) fits
    ]

-- The search for the output of a segment is a first fit.
pub allocate_loop-FirstFit :
    (fuel : ℕ) (ss : List Segment) (sectors cursor last : ℕ)
    → 0 < sectors
    → last < cursor + fuel
    → FirstFit ss sectors cursor last (allocate_loop fuel ss sectors cursor last)
unfolding allocate_loop
allocate_loop-FirstFit zero ss sectors cursor last pos enough = λ x le fits. absurd (omega arith)
allocate_loop-FirstFit (suc fuel) ss sectors cursor last pos enough =
    let end = cursor + sectors - 1 in
    elim (Bool-cases (leb cursor last && leb end last)) [
      | inr out ↦ rw out (λ x le fits. absurd (ground arith))
      | inl room ↦ elim (Option-cases (find_output_overlap ss cursor end)) [
        | inl free ↦
            rw (room, free, allocate_loop)
              (
                omega arith,
                ground arith,
                overlap-none cursor end ss (omega arith) free,
                λ x le lt. absurd (omega arith),
              )
        | inr (o, hit) ↦
            let (low, high, blocked) = overlap-some cursor end ss o hit in
            let passed : (x : ℕ) → cursor ≤ x → x ≤ o.pba_end → ¬ IsFree x (x + sectors - 1) ss =
              λ x le p. blocked x (x + sectors - 1) p (omega arith) in
            elim (Bool-cases (leb last o.pba_end)) [
              | inl final ↦
                  rw (room, hit, final, allocate_loop) (λ x le fits. passed x le (ground arith))
              | inr more ↦
                  rw (room, hit, more, allocate_loop)
                    (FirstFit-extend ss sectors cursor (o.pba_end + 1) last (omega arith)
                      (λ x le lt. passed x le (omega arith)) _
                      (allocate_loop-FirstFit fuel ss sectors (o.pba_end + 1) last pos
                        (omega arith)))
            ]
      ]
    ]

-- what each outcome of the allocation says of the top tracks and of the other outputs
abbrev pub Allocates : Geometry → List Segment → Segment → Allocation → Type 0
Allocates g ss s no_target =
    (s.placement.policy ≢ placement_bottom_to_top)
    ⊎ ((s.placement.target_track_type ≢ track_top)
        ⊎ ((s.placement.top_pba_end < s.placement.top_pba_start) ⊎ (output_sector_count g s ≡ 0)))
Allocates g ss s no_space =
    FirstFit ss (output_sector_count g s) s.placement.top_pba_start s.placement.top_pba_end none
Allocates g ss s (allocated_at cursor) =
    FirstFit ss (output_sector_count g s) s.placement.top_pba_start s.placement.top_pba_end
      (some cursor)

module _ (g : Geometry) (ss : List Segment) (s : Segment) where
  abbrev searched : Option ℕ
  searched =
      allocate_loop (suc (s.placement.top_pba_end - s.placement.top_pba_start)) ss
        (output_sector_count g s) s.placement.top_pba_start s.placement.top_pba_end

  searched-FirstFit :
      0 < output_sector_count g s
      → FirstFit ss
          (output_sector_count g s)
          s.placement.top_pba_start
          s.placement.top_pba_end
          searched
  searched-FirstFit pos =
      allocate_loop-FirstFit (suc (s.placement.top_pba_end - s.placement.top_pba_start)) ss
        (output_sector_count g s) s.placement.top_pba_start s.placement.top_pba_end pos
        (omega arith)

  -- Every outcome of the allocation of an output: an output is the first range of the target tracks that
  -- overlaps no output of another segment, and a refusal means that the policy or the target is missing,
  -- that there is nothing to place, or that no such range is free.
  pub allocate_output-Allocates : Allocates g ss s (allocate_output g ss s)
  unfolding allocate_output
  allocate_output-Allocates =
      let p = s.placement in
      let sectors = output_sector_count g s in
      elim (Bool-cases (p.policy == placement_bottom_to_top)) [
        | inr other ↦ rw other (inl (ground arith))
        | inl policy ↦ elim (Bool-cases (p.target_track_type == track_top)) [
          | inr other ↦ rw (policy, other) (inr (inl (ground arith)))
          | inl target ↦ elim (Bool-cases (ltb p.top_pba_end p.top_pba_start)) [
            | inl empty ↦ rw (policy, target, empty) (inr (inr (inl (ground arith))))
            | inr range ↦ elim (Bool-cases (sectors == 0)) [
              | inl nothing ↦ rw (policy, target, range, nothing) (inr (inr (inr (ground arith))))
              | inr something ↦
                  let first = searched-FirstFit (ground arith) in
                  elim (Bool-cases (ltb (p.top_pba_end - p.top_pba_start + 1) sectors)) [
                    | inl large ↦
                        rw (policy, target, range, something, large)
                          (λ x low fits. absurd (ground arith))
                    | inr small ↦
                        rw (policy, target, range, something, small)
                          (elim (Option-cases searched) [
                            | inl full ↦ rw (full, allocate_output) (rw full at first)
                            | inr (cursor, fit) ↦ rw (fit, allocate_output) (rw fit at first)
                          ])
                  ]
            ]
          ]
        ]
      ]
