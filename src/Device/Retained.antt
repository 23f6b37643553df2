-- ===== src/Device/Retained.antt =====
-- The table of a segment in its compaction.
use imr_lsm.Prelude.{
  ℕ, suc, ◌<◌, ◌≡◌, ◌∙◌, refl, sym, ap, inl, inr, Bool, true, false, not, Option, none, some, List,
  [], ◌∷◌, ◌==◌, if◌then◌else◌, arith, All, Bool-cases,
}
use imr_lsm.Prelude.Keyed.{find, IsAscending}
use imr_lsm.Metadata.{Entry, Code, success, enomem}
use imr_lsm.BlockTable.{Builder, entry_key, builder_add, count_added, note_bounds}
use imr_lsm.BlockTable.Build.{IsBuilt, Adds, newest, add_block_entry-Adds}
use imr_lsm.Placement.Mapping.{strip}
use imr_lsm.Records.{entry_should_keep}
use imr_lsm.State.{State, Env}
use imr_lsm.Device.Segments.{Keeping, then_keep, keep_entry, keep_entries}

-- the builder after a new key: ordered, with the entry and all others
Grows : Entry → Builder → Builder × Code → Type 0
Grows e b (b', success) =
    IsBuilt b'
    × ((j : ℕ)
        → find entry_key j b'.block_table
          ≡ (if e.key == j then some (strip e) else find entry_key j b.block_table))
Grows e b (b', code) = Unit

table-note_bounds :
    (key zone_idx timestamp : ℕ) (b : Builder)
    → ((note_bounds key zone_idx timestamp b).block_table ≡ b.block_table)
      × ((note_bounds key zone_idx timestamp b).capacity ≡ b.capacity)
table-note_bounds key zone_idx timestamp b = (ground arith, ground arith)

count_added-Grows :
    (e : Entry) (zone_idx : ℕ) (b : Builder) (r : Builder × Code)
    → find entry_key e.key b.block_table ≡ none
    → Adds (strip e) b r
    → Grows e b (count_added e.key zone_idx e.timestamp r)
unfolding Grows
count_added-Grows e zone_idx b (b', success) absent adds =
    let (table, capacity) = table-note_bounds e.key zone_idx e.timestamp b' in
    (
      record { ascending = rw table adds.0.ascending; fits = rw (table, capacity) adds.0.fits },
      λ j. rw table (
          adds.1 j
          ∙ ap
              (λ (o : Option Entry).
                if e.key == j then some (newest (strip e) o) else find entry_key j b.block_table)
              absent),
    )
count_added-Grows e zone_idx b (b', enomem) absent adds = tt
count_added-Grows e zone_idx b (b', code) absent adds = tt

module _ (env : Env) (s : State) (zone_idx : ℕ) where
  -- the entries of a table that are to be kept
  unfoldable pub kept : List Entry → List Entry
  kept [] = []
  kept (e ∷ es) = if entry_should_keep env.geometry s.zones s.meta e then e ∷ kept es else kept es

  abbrev pub found_or : Option Entry → Option Entry → Option Entry
  found_or none o = o
  found_or (some e) o = some (strip e)

  -- the builder holds what it held and what is to be kept
  abbrev pub Keeps : List Entry → Keeping → Keeping × Code → Type 0
  Keeps es c (c', success) =
      (j : ℕ)
      → find entry_key j c'.builder.block_table
        ≡ found_or (find entry_key j (kept es)) (find entry_key j c.builder.block_table)
  Keeps es c (c', code) = Unit

  kept-above :
      (k : ℕ) (es : List Entry)
      → All (λ (e : Entry). k < e.key) es
      → find entry_key k (kept es) ≡ none
  unfolding kept find
  kept-above k [] h = refl
  kept-above k (e ∷ es) h = ground (arith, kept-above k es h.1, h.0)

  -- no key of the entries is in the builder
  abbrev Fresh : List Entry → Builder → Type 0
  Fresh es b = All (λ (e : Entry). find entry_key e.key b.block_table ≡ none) es

  Fresh-Grows :
      (e : Entry) (es : List Entry) (b b' : Builder)
      → All (λ (x : Entry). e.key < x.key) es
      → ((j : ℕ)
          → find entry_key j b'.block_table
            ≡ (if e.key == j then some (strip e) else find entry_key j b.block_table))
      → Fresh es b
      → Fresh es b'
  Fresh-Grows e [] b b' above same h = tt
  Fresh-Grows e (x ∷ es) b b' above same h = (
    (let apart : (e.key == x.key) ≡ false = ground (arith, above.0) in same x.key ∙ rw apart h.0),
    Fresh-Grows e es b b' above.1 same h.1,
  )

  kept-cons :
      (e : Entry) (es : List Entry)
      → entry_should_keep env.geometry s.zones s.meta e ≡ true
      → kept (e ∷ es) ≡ e ∷ kept es
  unfolding kept
  kept-cons e es keep = rw keep refl

  found_or-cons :
      (e : Entry) (es : List Entry) (j : ℕ) (o : Option Entry)
      → All (λ (x : Entry). e.key < x.key) es
      → found_or (find entry_key j (kept es)) (if e.key == j then some (strip e) else o)
        ≡ found_or (find entry_key j (e ∷ kept es)) o
  unfolding find
  found_or-cons e es j o above = elim (Bool-cases (e.key == j)) [
    | inl same ↦
        let here : j ≡ e.key = ground arith in
        let gone : find entry_key j (kept es) ≡ none =
          ap (λ k. find entry_key k (kept es)) here ∙ kept-above e.key es above in
        rw (same, gone) refl
    | inr other ↦ rw other refl
  ]

  Keeps-cons :
      (e : Entry) (es : List Entry) (c c' : Keeping) (r : Keeping × Code)
      → ((j : ℕ)
          → find entry_key j c'.builder.block_table
            ≡ (if e.key == j then some (strip e) else find entry_key j c.builder.block_table))
      → All (λ (x : Entry). e.key < x.key) es
      → entry_should_keep env.geometry s.zones s.meta e ≡ true
      → Keeps es c' r
      → Keeps (e ∷ es) c r
  Keeps-cons e es c c' (x, success) grows above keep h = λ j.
      h j
      ∙ ap (found_or (find entry_key j (kept es))) (grows j)
      ∙ found_or-cons e es j (find entry_key j c.builder.block_table) above
      ∙ sym (
          ap (λ ks. found_or (find entry_key j ks) (find entry_key j c.builder.block_table))
            (kept-cons e es keep))
  Keeps-cons e es c c' (x, enomem) grows above keep h = tt
  Keeps-cons e es c c' (x, code) grows above keep h = tt

  kept-drop :
      (e : Entry) (es : List Entry)
      → entry_should_keep env.geometry s.zones s.meta e ≡ false
      → kept (e ∷ es) ≡ kept es
  unfolding kept
  kept-drop e es drop = rw drop refl

  Keeps-drop :
      (e : Entry) (es : List Entry) (c : Keeping) (r : Keeping × Code)
      → entry_should_keep env.geometry s.zones s.meta e ≡ false
      → Keeps es (record c { dropped = suc c.dropped }) r
      → Keeps (e ∷ es) c r
  Keeps-drop e es c (x, success) drop h = λ j.
      h j
      ∙ sym (
          ap (λ ks. found_or (find entry_key j ks) (find entry_key j c.builder.block_table))
            (kept-drop e es drop))
  Keeps-drop e es c (x, enomem) drop h = tt
  Keeps-drop e es c (x, code) drop h = tt

  -- one entry that is kept, and the rest
  added-Keeps :
      (e : Entry) (es : List Entry) (c : Keeping) (r : Builder × Code)
      → All (λ (x : Entry). e.key < x.key) es
      → Grows e c.builder r
      → ((c' : Keeping)
          → IsBuilt c'.builder
          → Fresh es c'.builder
          → Keeps es c' (keep_entries env s zone_idx es c'))
      → Fresh es c.builder
      → entry_should_keep env.geometry s.zones s.meta e ≡ true
      → (let (c', code) = then_keep env c r in
          let rest : Keeping × Code = elim code [
            | success ↦ keep_entries env s zone_idx es c'
            | failed ↦ (c', failed)
          ] in
          Keeps (e ∷ es) c rest)
  unfolding Grows
  added-Keeps e es c (b, success) above grows next fresh keep =
      let (c', code) = then_keep env c (b, success) in
      Keeps-cons e es c c' (keep_entries env s zone_idx es c') grows.1 above keep
        (next c' grows.0 (Fresh-Grows e es c.builder b above grows.1 fresh))
  added-Keeps e es c (b, enomem) above grows next fresh keep = tt
  added-Keeps e es c (b, code) above grows next fresh keep = tt

  abbrev continued : List Entry → Keeping × Code → Keeping × Code
  continued es x = elim (x.1) [
    | success ↦ keep_entries env s zone_idx es x.0
    | failed ↦ (x.0, failed)
  ]

  either-Keeps :
      (b : Bool) (e : Entry) (es : List Entry) (c : Keeping) (x y : Keeping × Code)
      → entry_should_keep env.geometry s.zones s.meta e ≡ b
      → (entry_should_keep env.geometry s.zones s.meta e ≡ false
          → Keeps (e ∷ es) c (continued es x))
      → (entry_should_keep env.geometry s.zones s.meta e ≡ true → Keeps (e ∷ es) c (continued es y))
      → Keeps (e ∷ es) c (continued es (if not b then x else y))
  either-Keeps true e es c x y is h k = k is
  either-Keeps false e es c x y is h k = h is

  -- The compaction of a segment goes through its table, which is ascending, with a builder in order that
  -- holds none of its keys. If it returns 0, the builder holds, under each key, the entry that is to be
  -- kept, without its bookkeeping of the copy, and otherwise what it held before.
  pub keep_entries-Keeps :
      (es : List Entry) (c : Keeping)
      → IsAscending entry_key es
      → IsBuilt c.builder
      → Fresh es c.builder
      → Keeps es c (keep_entries env s zone_idx es c)
  unfolding keep_entries keep_entry builder_add kept find
  keep_entries-Keeps [] c h built fresh = λ j. refl
  keep_entries-Keeps (e ∷ es) c h built fresh =
      let added =
        add_block_entry-Adds env.compaction_threshold (env.alloc c.allocs) (strip e) c.builder
          built in
      let grows = count_added-Grows e zone_idx c.builder _ fresh.0 added in
      let next = λ (c' : Keeping) (built' : IsBuilt c'.builder) (fresh' : Fresh es c'.builder).
        keep_entries-Keeps es c' h.1 built' fresh' in
      either-Keeps (entry_should_keep env.geometry s.zones s.meta e) e es c _ _ refl
        (λ drop.
          Keeps-drop e es c (keep_entries env s zone_idx es (record c { dropped = suc c.dropped }))
            drop (next (record c { dropped = suc c.dropped }) built fresh.1))
        (λ keep. added-Keeps e es c _ h.0 grows next fresh.1 keep)
