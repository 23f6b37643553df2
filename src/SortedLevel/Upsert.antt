-- ===== src/SortedLevel/Upsert.antt =====
-- The upsert into a sorted level: its order and its records.
use imr_lsm.Prelude.{
  ℕ, ◌<◌, ◌≡◌, ◌∙◌, refl, ltb, inl, inr, Bool, true, false, Option, none, some, ◌==◌, if◌then◌else◌,
  length, arith, Option-cases, u32_max, inc32,
}
use imr_lsm.Prelude.Keyed.{
  IsAscending, find, insert, modify, sorted_find-find, find-insert, insert-IsAscending,
  length-insert, find-modify_self, find-modify_ne, modify-IsAscending, length-modify,
}
use imr_lsm.Metadata.{Node, Level, Code, success}
use imr_lsm.SortedLevel.{node_key, overwrite, sorted_upsert}

pub record IsSortedLevel (l : Level) : Type 0 where
  pub ascending : IsAscending node_key l.sorted
  pub counted : l.sorted_count ≡ length l.sorted

abbrev pub newest : Node → Option Node → Node
newest new none = new
newest new (some old) =
    if ltb old.timestamp new.timestamp
    then record old {
      pba = new.pba;
      zone_idx = new.zone_idx;
      valid = new.valid;
      timestamp = new.timestamp;
    }
    else old

-- the level after a call that returns 0 holds the newest record; after a failed one it is unchanged
abbrev pub Upserts : Node → Level → Level × Code → Type 0
Upserts new l (l', success) =
    IsSortedLevel l'
    × (l'.unsorted ≡ l.unsorted)
    × (l'.unsorted_count ≡ l.unsorted_count)
    × ((j : ℕ)
        → find node_key j l'.sorted ≡ (
            if new.key == j
            then some (newest new (find node_key new.key l.sorted))
            else find node_key j l.sorted))
Upserts new l (l', code) = l' ≡ l

module _ (new : Node) (l : Level) (s : IsSortedLevel l) where
  overwrite-key : (x : Node) → node_key (overwrite new x) ≡ node_key x
  overwrite-key x = ground arith

  found-Upserts :
      (old : Node)
      → find node_key new.key l.sorted ≡ some old
      → Upserts new l
          (record l { sorted = modify node_key new.key (overwrite new) l.sorted }, success)
  found-Upserts old found = (
    record {
      ascending =
          modify-IsAscending node_key (overwrite new) overwrite-key new.key l.sorted s.ascending;
      counted = omega (arith, s.counted, length-modify node_key new.key (overwrite new) l.sorted);
    },
    refl,
    refl,
    λ j. ground (
      arith,
      find-modify_self node_key (overwrite new) overwrite-key new.key old l.sorted found,
      find-modify_ne node_key (overwrite new) overwrite-key j new.key l.sorted,
    ),
  )

  inserted-Upserts :
      find node_key new.key l.sorted ≡ none
      → length l.sorted < u32_max
      → Upserts new l (
        record l { sorted = insert node_key new l.sorted; sorted_count = inc32 l.sorted_count },
        success,
      )
  inserted-Upserts absent small = (
    record {
      ascending = insert-IsAscending node_key new l.sorted s.ascending absent;
      counted = omega (arith, s.counted, length-insert node_key new l.sorted);
    },
    refl,
    refl,
    λ j. rw absent (find-insert node_key j new l.sorted absent),
  )

-- An upsert into a sorted level of fewer than 2^32 - 1 nodes, whether the key is there or not, and
-- whether or not memory is found: a call that returns 0 keeps the level sorted and counted, with the
-- newest record for the key, every other record as it was and the unsorted list unchanged; a failed call
-- leaves the level as it was.
pub sorted_upsert-Upserts :
    (allocated : Bool) (new : Node) (l : Level)
    → IsSortedLevel l
    → length l.sorted < u32_max
    → Upserts new l (sorted_upsert allocated new l)
unfolding sorted_upsert
sorted_upsert-Upserts allocated new l s small =
    let scan = sorted_find-find node_key new.key l.sorted s.ascending in
    elim (Option-cases (find node_key new.key l.sorted)) [
      | inr (old, found) ↦ rw (scan ∙ found, sorted_upsert) (found-Upserts new l s old found)
      | inl absent ↦ (elim allocated as (λ a. Upserts new l (sorted_upsert a new l)) [
        | true ↦ rw (scan ∙ absent, sorted_upsert) (inserted-Upserts new l s absent small)
        | false ↦ rw (scan ∙ absent, sorted_upsert) refl
      ])
    ]
