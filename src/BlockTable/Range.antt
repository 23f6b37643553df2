-- ===== src/BlockTable/Range.antt =====
-- The key range of a builder and its table.
use mathlib.Core.Path.{subst}
use imr_lsm.Prelude.{
  ℕ, ◌+◌, ◌≤◌, ◌<◌, ◌≡◌, refl, sym, ap, inl, inr, Bool, none, some, [], ltb, ◌==◌, if◌then◌else◌,
  length, arith, Bool-cases, All, u32_mod,
}
use imr_lsm.Prelude.Keyed.{find}
use imr_lsm.Prelude.Members.{All-find, All-of-find, find-filled}
use imr_lsm.Metadata.{Entry, Code, success, enomem}
use imr_lsm.BlockTable.{
  entry_key, Builder, empty_builder, builder_reserve, add_block_entry, place_entry, insert_reserved,
  fresh_entry, builder_add, count_added, entry_pos,
}
use imr_lsm.BlockTable.Build.{IsBuilt, Adds, newest, add_block_entry-Adds}

-- the fields that an addition leaves to `note_bounds`
abbrev pub range : Builder → ℕ × ℕ × ℕ
range b = (b.min_key, b.max_key, b.node_count)

range-builder_reserve :
    (tunable : ℕ) (allocated : Bool) (b : Builder)
    → range (builder_reserve tunable allocated b).0 ≡ range b
unfolding builder_reserve
range-builder_reserve tunable allocated b = ground arith

range-insert_reserved :
    (pos : ℕ) (new : Entry) (r : Builder × Code) → range (insert_reserved pos new r).0 ≡ range r.0
range-insert_reserved pos new (b, success) = refl
range-insert_reserved pos new (b, enomem) = refl
range-insert_reserved pos new (b, code) = refl

range-add_block_entry :
    (tunable : ℕ) (allocated : Bool) (new : Entry) (b : Builder)
    → range (add_block_entry tunable allocated new b).0 ≡ range b
unfolding add_block_entry place_entry
range-add_block_entry tunable allocated new b =
    let pos = entry_pos new.key b.block_table in
    ground (
      arith,
      range-insert_reserved pos new (builder_reserve tunable allocated b),
      range-builder_reserve tunable allocated b,
    )

pub record IsRanged (b : Builder) : Type 0 where
  pub built : IsBuilt b
  pub within : All (λ (e : Entry). (b.min_key ≤ e.key) × (e.key ≤ b.max_key)) b.block_table
  pub empty : b.node_count ≡ 0 → b.block_table ≡ []
  pub filled : 0 < b.node_count → 0 < length b.block_table

pub empty-IsRanged : IsRanged empty_builder
empty-IsRanged = record {
  built = record { ascending = tt; fits = omega arith };
  within = tt;
  empty = λ none. refl;
  filled = λ some. absurd (omega arith);
}

module _ (new : Entry) (b b' : Builder) where
  only_new :
      Adds new b (b', success)
      → b.block_table ≡ []
      → (e : Entry) → find entry_key e.key b'.block_table ≡ some e
      → (new.key ≤ e.key) × (e.key ≤ new.key)
  unfolding find
  only_new adds none_before e found =
      let says = adds.1 e.key in
      let nothing : find entry_key e.key b.block_table ≡ none = rw none_before refl in ground arith

  filled_by : Adds new b (b', success) → 0 < length b'.block_table
  filled_by adds =
      let says = adds.1 new.key in
      let here : find entry_key new.key b'.block_table
          ≡ some (newest new (find entry_key new.key b.block_table)) =
        ground arith in
      find-filled entry_key new.key b'.block_table _ here

  new_or_old :
      IsRanged b
      → b'.min_key ≡ b.min_key
      → b'.max_key ≡ b.max_key
      → Adds new b (b', success)
      → (e : Entry) → find entry_key e.key b'.block_table ≡ some e
      → ((if ltb new.key b'.min_key then new.key else b'.min_key) ≤ e.key)
        × (e.key ≤ (if ltb b'.max_key new.key then new.key else b'.max_key))
  new_or_old ranged low high adds e found =
      let says = adds.1 e.key in
      elim (Bool-cases (new.key == e.key)) [
        | inl here ↦ ground arith
        | inr there ↦
            let old : find entry_key e.key b.block_table ≡ some e = ground arith in
            let bounds =
              All-find entry_key (λ (x : Entry). (b.min_key ≤ x.key) × (x.key ≤ b.max_key)) e.key
                b.block_table e ranged.within old in
            ground arith
      ]

-- the step that counts an added record
counted :
    (zone_idx timestamp : ℕ) (new : Entry) (b : Builder) (r : Builder × Code)
    → IsRanged b
    → b.node_count + 1 < u32_mod
    → range r.0 ≡ range b
    → Adds new b r
    → IsRanged (count_added new.key zone_idx timestamp r).0
      × ((count_added new.key zone_idx timestamp r).0.node_count ≤ b.node_count + 1)
counted zone_idx timestamp new b (b', success) ranged room same adds =
    let low : b'.min_key ≡ b.min_key = ap (λ x. x.0) same in
    let high : b'.max_key ≡ b.max_key = ap (λ x. x.1) same in
    let count : b'.node_count ≡ b.node_count = ap (λ x. x.2) same in
    elim (Bool-cases (b'.node_count == 0)) [
      | inl first ↦
          let none_before : b.block_table ≡ [] = ranged.empty (ground arith) in
          let within : (e : Entry)
              → find entry_key e.key b'.block_table ≡ some e
              → (new.key ≤ e.key) × (e.key ≤ new.key) =
            λ e found. only_new new b b' adds none_before e found in
          rw first (
            record {
              built = record { ascending = adds.0.ascending; fits = adds.0.fits };
              within =
                  All-of-find entry_key (λ (e : Entry). (new.key ≤ e.key) × (e.key ≤ new.key))
                    b'.block_table adds.0.ascending within;
              empty = λ none_left. absurd (ground arith);
              filled = λ counted_some. filled_by new b b' adds;
            },
            ground arith,
          )
      | inr later ↦
          let within : (e : Entry)
              → find entry_key e.key b'.block_table ≡ some e
              → ((if ltb new.key b'.min_key then new.key else b'.min_key) ≤ e.key)
                × (e.key ≤ (if ltb b'.max_key new.key then new.key else b'.max_key)) =
            λ e found. new_or_old new b b' ranged low high adds e found in
          rw later (
            record {
              built = record { ascending = adds.0.ascending; fits = adds.0.fits };
              within = All-of-find entry_key _ b'.block_table adds.0.ascending within;
              empty = λ none_left. absurd (ground arith);
              filled = λ counted_some. filled_by new b b' adds;
            },
            ground arith,
          )
    ]
counted zone_idx timestamp new b (b', enomem) ranged room same adds =
    (subst IsRanged (sym adds) ranged, ground arith)
counted zone_idx timestamp new b (b', code) ranged room same adds =
    (subst IsRanged (sym adds) ranged, ground arith)

-- Adding a record to a builder that covers its table, when fewer than 2^32 - 1 were added before: it
-- still covers it, and counts at most one more.
pub builder_add-IsRanged :
    (tunable : ℕ) (allocated : Bool) (key pba zone_idx : ℕ) (valid : Bool) (timestamp : ℕ)
    (b : Builder)
    → IsRanged b
    → b.node_count + 1 < u32_mod
    → IsRanged (builder_add tunable allocated key pba zone_idx valid timestamp b).0
      × ((builder_add tunable allocated key pba zone_idx valid timestamp b).0.node_count
          ≤ b.node_count + 1)
unfolding builder_add
builder_add-IsRanged tunable allocated key pba zone_idx valid timestamp b ranged room =
    let new = fresh_entry key pba valid timestamp in
    counted zone_idx timestamp new b (add_block_entry tunable allocated new b) ranged room
      (range-add_block_entry tunable allocated new b)
      (add_block_entry-Adds tunable allocated new b ranged.built)
