-- ===== src/Placement/Mapping.antt =====
-- The mapping of entries to output blocks and the bookkeeping of the copy.
use imr_lsm.Prelude.{ℕ, ◌+◌, ◌^◌, ◌≡◌, refl, inl, inr, not, List, [], ◌∷◌, map, ltb, Bool-cases}
use imr_lsm.Geometry.{Geometry}
use imr_lsm.Metadata.{Entry, no_copy}
use imr_lsm.Placement.{map_loop}

-- an entry without the bookkeeping
abbrev pub strip : Entry → Entry
strip e = record e { copy = no_copy }

-- Mapping the entries of a segment to its output range changes only their bookkeeping of the copy: the
-- keys, the addresses, the validity and the timestamps stay, in their order.
pub map_loop-strip :
    (g : Geometry) (cursor last : ℕ) (es : List Entry)
    → map strip (map_loop g cursor last es).0 ≡ map strip es
unfolding map_loop
map_loop-strip g cursor last [] = refl
map_loop-strip g cursor last (e ∷ es) = elim (Bool-cases (not e.valid)) [
  | inl dead ↦ rw dead (rw (map_loop-strip g cursor last es))
  | inr live ↦ elim (Bool-cases (ltb last cursor)) [
    | inl full ↦ rw (live, full)
    | inr room ↦ rw (live, room) (rw (map_loop-strip g (cursor + 2 ^ g.block_shift) last es))
  ]
]
