-- ===== src/BlockTable/Find.antt =====
-- The binary search of a block table.
use imr_lsm.Prelude.{
  ℕ, zero, suc, ◌+◌, ◌-◌, ◌/◌, ◌≤◌, ◌<◌, ◌≡◌, ◌∙◌, sym, inl, inr, true, some, List, ltb, ◌==◌,
  length, get_elem?, get_or, get_elem?-eq-get_or, arith, Bool-cases, Option-cases,
}
use imr_lsm.Prelude.Keyed.{IsAscending, find}
use imr_lsm.Prelude.Positions.{position, key-lt, find-get_elem?}
use imr_lsm.Metadata.{Entry}
use imr_lsm.BlockTable.{entry_key, find_loop, block_table_find}

module _ (key : ℕ) (table : List Entry) where
  -- what the loop returns is an entry of the table with the key
  find_loop_sound :
      (fuel left right : ℕ) (e : Entry)
      → find_loop fuel left right key table ≡ some e
      → (i : ℕ) × (get_elem? table i ≡ some e) × (e.key ≡ key)
  unfolding find_loop
  find_loop_sound zero left right e h = absurd (ground arith)
  find_loop_sound (suc fuel) left right e h = elim (Bool-cases (ltb left right)) [
    | inr done ↦ absurd (ground arith)
    | inl more ↦
        let mid = left + (right - left) / 2 in
        elim (Option-cases (get_elem? table mid)) [
          | inl out ↦ absurd (ground arith)
          | inr (c, at) ↦ elim (Bool-cases (c.key == key)) [
            | inl hit ↦ (mid, ground arith, ground arith)
            | inr other ↦ elim (Bool-cases (ltb c.key key)) [
              | inl up ↦ find_loop_sound fuel (mid + 1) right e (ground arith)
              | inr down ↦ find_loop_sound fuel left mid e (ground arith)
            ]
          ]
        ]
  ]

  -- an entry with the key inside the range is found
  find_loop_complete :
      (fuel left right i : ℕ) (e : Entry)
      → IsAscending entry_key table
      → get_elem? table i ≡ some e
      → e.key ≡ key
      → left ≤ i
      → i < right
      → right ≤ length table
      → right - left < fuel
      → find_loop fuel left right key table ≡ some e
  unfolding find_loop
  find_loop_complete zero left right i e h at same low high fits enough = absurd (omega arith)
  find_loop_complete (suc fuel) left right i e h at same low high fits enough =
      let mid = left + (right - left) / 2 in
      let c = get_or table mid e in
      let at_mid : get_elem? table mid ≡ some c = get_elem?-eq-get_or table mid e (omega arith) in
      let more : ltb left right ≡ true = ground arith in
      ground (
        arith,
        at_mid,
        key-lt entry_key table i mid e c h at at_mid,
        key-lt entry_key table mid i c e h at_mid at,
        find_loop_complete fuel (mid + 1) right i e h at same,
        find_loop_complete fuel left mid i e h at same,
      )

  -- On a block table in ascending order of the keys, the binary search returns the entry that has the
  -- key, and none if there is none.
  pub block_table_find-find :
      IsAscending entry_key table → block_table_find key table ≡ find entry_key key table
  unfolding block_table_find
  block_table_find-find h = elim (Option-cases (find entry_key key table)) [
    | inr (e, found) ↦
        let (i, at, lt, same) = position entry_key key table e found in
        find_loop_complete (suc (length table)) 0 (length table) i e h at same (omega arith) lt
          (omega arith) (omega arith)
        ∙ sym found
    | inl absent ↦ elim (Option-cases (block_table_find key table)) [
      | inl nothing ↦ ground (arith)
      | inr (e, hit) ↦
          let (i, at, same) = find_loop_sound (suc (length table)) 0 (length table) e hit in
          absurd (ground (arith, find-get_elem? entry_key table i e h at))
    ]
  ]
