-- ===== src/Device/Queue.antt =====
-- The zones that wait to be stored.
use imr_lsm.Prelude.{
  ℕ, suc, ◌*◌, ◌+◌, ◌-◌, ◌≤◌, ◌<◌, ◌≡◌, refl, inl, inr, true, false, List, [], ◌∷◌, ◌++◌, length,
  leb, ◌==◌, if◌then◌else◌, arith, Bool-cases, All,
}
use imr_lsm.Prelude.Members.{All-append}
use imr_lsm.Device.Request.{Task, is_near, queue_zone, queue_depth, page_edge, page_gap}

-- no zone of the list is within `edge` of a later one
abbrev pub IsSpaced : List ℕ → Type 0
IsSpaced [] = Unit
IsSpaced (z ∷ zs) = All (λ (y : ℕ). page_edge < (y - z) + (z - y)) zs × IsSpaced zs

pub record IsQueue (t : Task) : Type 0 where
  pub spaced : IsSpaced t.stu_zone_idx
  pub bounded : length t.stu_zone_idx ≤ queue_depth

is_near-All :
    (edge idx : ℕ) (zs : List ℕ)
    → is_near edge idx zs ≡ false
    → All (λ (z : ℕ). edge < (idx - z) + (z - idx)) zs
unfolding is_near
is_near-All edge idx [] far = tt
is_near-All edge idx (z ∷ zs) far = elim (Bool-cases (leb ((idx - z) + (z - idx)) edge)) [
  | inl near ↦ absurd (ground (arith, far))
  | inr away ↦ (ground arith, is_near-All edge idx zs (ground (arith, far)))
]

IsSpaced-append :
    (idx : ℕ) (zs : List ℕ)
    → All (λ (z : ℕ). page_edge < (idx - z) + (z - idx)) zs
    → IsSpaced zs
    → IsSpaced (zs ++ (idx ∷ []))
IsSpaced-append idx [] far h = (tt, tt)
IsSpaced-append idx (z ∷ zs) far h =
    (All-append _ zs (idx ∷ []) h.0 (far.0, tt), IsSpaced-append idx zs far.1 h.1)

length-append_one : (idx : ℕ) (zs : List ℕ) → length (zs ++ (idx ∷ [])) ≡ suc (length zs)
length-append_one idx [] = refl
length-append_one idx (z ∷ zs) = omega (arith, length-append_one idx zs)

-- A write that is accepted keeps the list of zones to be stored within its array and its zones further
-- apart than the zones of one page.
pub queue_zone-IsQueue : (zone_idx : ℕ) (t : Task) → IsQueue t → IsQueue (queue_zone zone_idx t)
unfolding queue_zone
queue_zone-IsQueue zone_idx t h = elim (Bool-cases (length t.stu_zone_idx == queue_depth)) [
  | inl full ↦ rw full (record { spaced = h.spaced; bounded = h.bounded })
  | inr room ↦ elim (Bool-cases (is_near page_edge zone_idx t.stu_zone_idx)) [
    | inl near ↦ rw (room, near) (record { spaced = h.spaced; bounded = h.bounded })
    | inr far ↦
        rw (room, far)
          (record {
            spaced =
                IsSpaced-append zone_idx t.stu_zone_idx
                  (is_near-All page_edge zone_idx t.stu_zone_idx far) h.spaced;
            bounded = ground (arith, length-append_one zone_idx t.stu_zone_idx, h.bounded);
          })
  ]
]

is_near_self : (edge idx : ℕ) (zs : List ℕ) → is_near edge idx (zs ++ (idx ∷ [])) ≡ true
unfolding is_near
is_near_self edge idx [] = ground arith
is_near_self edge idx (z ∷ zs) = ground (arith, is_near_self edge idx zs)

-- The gap between the zones to be stored is never counted: it stays as it is until the list is full.
pub queue_zone-gap :
    (zone_idx : ℕ) (t : Task)
    → (queue_zone zone_idx t).stu_zone_idx_gap
      ≡ (if length t.stu_zone_idx == queue_depth then page_gap else t.stu_zone_idx_gap)
unfolding queue_zone
queue_zone-gap zone_idx t =
    ground (arith, is_near_self (page_gap * page_edge) zone_idx t.stu_zone_idx)
