-- ===== src/BlockTable/Build.antt =====
-- The builder of a block table over a run of records.
use imr_lsm.Prelude.{
  ℕ, suc, ◌-◌, ◌/◌, ◌≤◌, ◌<◌, ◌≡◌, refl, inl, inr, Bool, true, false, Option, none, some, List, [],
  ◌∷◌, ltb, ◌==◌, if◌then◌else◌, length, get_elem?, get_or, get_elem?-eq-get_or, set, arith,
  Bool-cases, Option-cases, u32_max, length-set,
}
use imr_lsm.Prelude.Keyed.{
  IsAscending, find, insert, find-insert, insert-IsAscending, length-insert, find-modify_self,
  find-modify_ne, modify-IsAscending,
}
use imr_lsm.Prelude.Positions.{
  position, find-get_elem?, scan_pos, scan_pos_last, insert_at, insert_at-scan_pos, set-scan_pos,
  get_elem?-scan_pos,
}
use imr_lsm.Metadata.{Entry, Code, success, enomem, no_copy}
use imr_lsm.BlockTable.{
  entry_key, Builder, builder_reserve, add_block_entry, place_entry, entry_pos, replace,
  insert_reserved,
}

-- the short cut at the end of the table finds the position of the scan
entry_pos-scan_pos :
    (key : ℕ) (table : List Entry)
    → IsAscending entry_key table
    → entry_pos key table ≡ scan_pos entry_key key table
unfolding entry_pos scan_pos
entry_pos-scan_pos key [] h = refl
entry_pos-scan_pos key (e ∷ es) h =
    let n : ℕ = length es in
    let last = get_or (e ∷ es) n e in
    let index : suc n - 1 ≡ n = omega arith in
    let at : get_elem? (e ∷ es) n ≡ some last = get_elem?-eq-get_or (e ∷ es) n e (omega arith) in
    rw (index, at, entry_pos)
      (ground (arith, scan_pos_last entry_key key (e ∷ es) n last h refl at))

-- what the table holds for a key once `new` is added
abbrev pub newest : Entry → Option Entry → Entry
newest new none = new
newest new (some old) =
    if ltb old.timestamp new.timestamp
    then record old { pba = new.pba; valid = new.valid; timestamp = new.timestamp; copy = no_copy }
    else old

pub record IsBuilt (b : Builder) : Type 0 where
  pub ascending : IsAscending entry_key b.block_table
  pub fits : length b.block_table ≤ b.capacity

-- the builder after a call that returns 0 holds the newest record; after a failed one it is unchanged
abbrev pub Adds : Entry → Builder → Builder × Code → Type 0
Adds new b (b', success) =
    IsBuilt b'
    × ((j : ℕ)
        → find entry_key j b'.block_table ≡ (
            if new.key == j
            then some (newest new (find entry_key new.key b.block_table))
            else find entry_key j b.block_table))
Adds new b (b', code) = b' ≡ b

-- what a reservation gives: room for one more entry, or the builder as it was
Reserved : Builder → Builder × Code → Type 0
Reserved b (b', success) = (b'.block_table ≡ b.block_table) × (length b.block_table < b'.capacity)
Reserved b (b', code) = b' ≡ b

reserve-Reserved :
    (tunable : ℕ) (allocated : Bool) (b : Builder)
    → length b.block_table ≤ b.capacity
    → Reserved b (builder_reserve tunable allocated b)
unfolding builder_reserve Reserved
reserve-Reserved tunable allocated b fits =
    elim (Bool-cases (ltb (length b.block_table) b.capacity)) [
      | inl room ↦ rw room (refl, ground arith)
      | inr tight ↦ elim (Bool-cases (b.capacity == 0)) [
        | inl unused ↦ (elim allocated as (λ a. Reserved b (builder_reserve tunable a b)) [
          | true ↦ rw (tight, unused) (refl, ground arith)
          | false ↦ rw (tight, unused) refl
        ])
        | inr used ↦ elim (Bool-cases (ltb (u32_max / 2) b.capacity)) [
          | inl large ↦ rw (tight, used, large) refl
          | inr fine ↦ (elim allocated as (λ a. Reserved b (builder_reserve tunable a b)) [
            | true ↦ rw (tight, used, fine) (refl, ground arith)
            | false ↦ rw (tight, used, fine) refl
          ])
        ]
      ]
    ]

module _ (new : Entry) (b : Builder) (built : IsBuilt b) where
  insert-Adds :
      (r : Builder × Code)
      → Reserved b r
      → find entry_key new.key b.block_table ≡ none
      → Adds new b (insert_reserved (scan_pos entry_key new.key b.block_table) new r)
  unfolding Reserved
  insert-Adds (b', success) h absent =
      let table = b.block_table in
      let placed : insert_at (scan_pos entry_key new.key table) new b'.block_table
          ≡ insert entry_key new table =
        rw (h.0) (insert_at-scan_pos entry_key new table) in
      (
        record {
          ascending = rw placed (insert-IsAscending entry_key new table built.ascending absent);
          fits = rw placed (omega (arith, length-insert entry_key new table));
        },
        λ j. rw (placed, absent) (find-insert entry_key j new table absent),
      )
  insert-Adds (b', enomem) h absent = h
  insert-Adds (b', code) h absent = h

  replace-key : (x : Entry) → (replace new x).key ≡ x.key
  replace-key x = ground arith

  replace-Adds :
      (old : Entry)
      → find entry_key new.key b.block_table ≡ some old
      → Adds new b (
        record b {
          block_table =
              set b.block_table (scan_pos entry_key new.key b.block_table) (replace new old);
        },
        success,
      )
  replace-Adds old found =
      let table = b.block_table in
      let pos = scan_pos entry_key new.key table in
      let shape = set-scan_pos entry_key new.key (replace new) table old built.ascending found in
      (
        record {
          ascending = rw shape (
              modify-IsAscending entry_key (replace new) replace-key new.key table built.ascending);
          fits = omega (arith, length-set {A = Entry} table pos (replace new old), built.fits);
        },
        λ j. elim (Bool-cases (new.key == j)) [
          | inl same ↦
              rw (shape, found)
                (ground (
                  arith,
                  find-modify_self entry_key (replace new) replace-key new.key old table found,
                ))
          | inr other ↦
              rw shape
                (ground (arith, find-modify_ne entry_key (replace new) replace-key j new.key table))
        ],
      )

place_entry-Adds :
    (tunable : ℕ) (allocated : Bool) (new : Entry) (b : Builder)
    → IsBuilt b
    → Adds new b (place_entry tunable allocated new b (scan_pos entry_key new.key b.block_table))
unfolding place_entry
place_entry-Adds tunable allocated new b built =
    let table = b.block_table in
    let reserved = reserve-Reserved tunable allocated b built.fits in
    elim (Option-cases (find entry_key new.key table)) [
      | inr (old, found) ↦
          let at = get_elem?-scan_pos entry_key new.key table old built.ascending found in
          let (_, _, _, same) = position entry_key new.key table old found in
          let hit : (old.key == new.key) ≡ true = ground arith in
          rw (at, hit, place_entry) (replace-Adds new b built old found)
      | inl absent ↦ elim (Option-cases (get_elem? table (scan_pos entry_key new.key table))) [
        | inl past ↦ rw (past, place_entry) (insert-Adds new b built _ reserved absent)
        | inr (e, at) ↦
            let here = find-get_elem? entry_key table _ e built.ascending at in
            let differs : (e.key == new.key) ≡ false = ground arith in
            rw (at, differs, place_entry) (insert-Adds new b built _ reserved absent)
      ]
    ]

-- Adding an entry to a builder that is in order, whether its key is there or not, and whether or not memory is found: a call that returns 0 leaves the table ascending and
-- within its capacity, with the newest record for the key and every other entry as it was; a failed call
-- leaves the builder as it was.
pub add_block_entry-Adds :
    (tunable : ℕ) (allocated : Bool) (new : Entry) (b : Builder)
    → IsBuilt b
    → Adds new b (add_block_entry tunable allocated new b)
unfolding add_block_entry
add_block_entry-Adds tunable allocated new b built =
    rw (entry_pos-scan_pos new.key b.block_table built.ascending)
      (place_entry-Adds tunable allocated new b built)
