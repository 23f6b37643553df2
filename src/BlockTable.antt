-- ===== src/BlockTable.antt =====
-- The block table of a segment, and the builder that collects it (imrsim_kmod/dm-imrsim.c,
-- `imr_lsm_segment_builder_*`, `imr_lsm_segment_block_table_find`).
-- A table is the list of its entries in use; the capacity of its allocation is kept beside it.
pub mod Find
pub mod Build
pub mod Range
use imr_lsm.Prelude.{
  ℕ, zero, suc, ◌+◌, ◌-◌, ◌*◌, ◌/◌, ◌%◌, Bool, true, false, Option, none, some, List, [], ◌∷◌, ltb,
  leb, ◌==◌, if◌then◌else◌, length, get_elem?, set, u32_max, inc32,
}
use imr_lsm.Prelude.Positions.{insert_at, scan_pos}
use imr_lsm.Metadata.{Entry, Node, Code, success, enomem, no_copy, default_threshold, zone_mixed}

abbrev pub entry_key : Entry → ℕ
entry_key e = e.key

-- The loop of `imr_lsm_segment_block_table_find`, with the width of the range as fuel. A read past
-- the table does not occur, and ends the loop here.
unfoldable pub find_loop : ℕ → ℕ → ℕ → ℕ → List Entry → Option Entry
find_loop zero left right key table = none
find_loop (suc fuel) left right key table =
    let mid = left + (right - left) / 2 in
    elim (ltb left right) [
      | false ↦ none
      | true ↦ elim (get_elem? table mid) [
        | none ↦ none
        | some candidate ↦
            let above = find_loop fuel (mid + 1) right key table in
            let below = find_loop fuel left mid key table in
            if candidate.key == key
            then some candidate
            else if ltb candidate.key key
            then above
            else below
      ]
    ]

unfoldable pub block_table_find : ℕ → List Entry → Option Entry
block_table_find key table = find_loop (suc (length table)) 0 (length table) key table

-- `imr_lsm_compaction_threshold_locked`, over the module's tunable
abbrev pub compaction_threshold : ℕ → ℕ
compaction_threshold tunable = if tunable == 0 then default_threshold else tunable

-- `imr_lsm_segment_builder`
pub record Builder : Type 0 where
  pub node_count : ℕ
  pub zone_idx : ℕ
  pub min_key : ℕ
  pub max_key : ℕ
  pub min_timestamp : ℕ
  pub max_timestamp : ℕ
  pub block_table : List Entry
  pub capacity : ℕ

-- `= {0}`
abbrev pub empty_builder : Builder
empty_builder = record {
  node_count = 0;
  zone_idx = 0;
  min_key = 0;
  max_key = 0;
  min_timestamp = 0;
  max_timestamp = 0;
  block_table = [];
  capacity = 0;
}

-- `imr_lsm_segment_builder_release`
abbrev pub builder_release : Builder → Builder
builder_release b = record b { block_table = []; capacity = 0 }

-- `imr_lsm_segment_builder_reserve_block_table`; `allocated` says whether its `kzalloc` succeeds
unfoldable pub builder_reserve : ℕ → Bool → Builder → Builder × Code
builder_reserve tunable allocated b =
    let grow : ℕ → Builder × Code =
      λ capacity. if allocated then (record b { capacity = capacity }, success) else (b, enomem) in
    if ltb (length b.block_table) b.capacity
    then (b, success)
    else if b.capacity == 0
    then grow (compaction_threshold tunable)
    else if ltb (u32_max / 2) b.capacity
    then (b, enomem)
    else grow (b.capacity * 2)

-- where the entry of a key is or goes: the end, if the last key is smaller, or the first position
-- whose key is not
unfoldable pub entry_pos : ℕ → List Entry → ℕ
entry_pos key table = elim (get_elem? table (length table - 1)) [
  | none ↦ 0
  | some last ↦ if ltb last.key key then length table else scan_pos entry_key key table
]

-- a newer record of a key replaces the older one, whose output bookkeeping is reset
abbrev pub replace : Entry → Entry → Entry
replace new old =
    if ltb old.timestamp new.timestamp
    then record old { pba = new.pba; valid = new.valid; timestamp = new.timestamp; copy = no_copy }
    else old

abbrev pub fresh_entry : ℕ → ℕ → Bool → ℕ → Entry
fresh_entry key pba valid timestamp = record {
  key = key;
  pba = pba;
  valid = valid;
  timestamp = timestamp;
  copy = no_copy;
}

abbrev insert_reserved : ℕ → Entry → Builder × Code → Builder × Code
insert_reserved pos new (b, success) =
    (record b { block_table = insert_at pos new b.block_table }, success)
insert_reserved pos new (b, code) = (b, code)

-- the change at the position of the key: a replacement, or an insertion
unfoldable pub place_entry : ℕ → Bool → Entry → Builder → ℕ → Builder × Code
place_entry tunable allocated new b pos =
    let inserted = insert_reserved pos new (builder_reserve tunable allocated b) in
    elim (get_elem? b.block_table pos) [
      | none ↦ inserted
      | some entry ↦
          if entry.key == new.key
          then (record b { block_table = set b.block_table pos (replace new entry) }, success)
          else inserted
    ]

-- `imr_lsm_segment_builder_add_block_entry`
unfoldable pub add_block_entry : ℕ → Bool → Entry → Builder → Builder × Code
add_block_entry tunable allocated new b =
    place_entry tunable allocated new b (entry_pos new.key b.block_table)

abbrev pub note_bounds : ℕ → ℕ → ℕ → Builder → Builder
note_bounds key zone_idx timestamp b =
    if b.node_count == 0
    then record b {
      zone_idx = zone_idx;
      min_key = key;
      max_key = key;
      min_timestamp = timestamp;
      max_timestamp = timestamp;
    }
    else record b {
      zone_idx = if b.zone_idx == zone_idx then b.zone_idx else zone_mixed;
      min_key = if ltb key b.min_key then key else b.min_key;
      max_key = if ltb b.max_key key then key else b.max_key;
      min_timestamp = if ltb timestamp b.min_timestamp then timestamp else b.min_timestamp;
      max_timestamp = if ltb b.max_timestamp timestamp then timestamp else b.max_timestamp;
    }

abbrev pub count_added : ℕ → ℕ → ℕ → Builder × Code → Builder × Code
count_added key zone_idx timestamp (b, success) =
    let b' = note_bounds key zone_idx timestamp b in
    (record b' { node_count = inc32 b'.node_count }, success)
count_added key zone_idx timestamp (b, code) = (b, code)

-- `imr_lsm_segment_builder_add`
unfoldable pub builder_add : ℕ → Bool → ℕ → ℕ → ℕ → Bool → ℕ → Builder → Builder × Code
builder_add tunable allocated key pba zone_idx valid timestamp b =
    count_added key zone_idx timestamp
      (add_block_entry tunable allocated (fresh_entry key pba valid timestamp) b)

-- `imr_lsm_segment_builder_add_unsorted` and `imr_lsm_segment_builder_add_sorted`
abbrev pub builder_add_node : ℕ → Bool → Node → Builder → Builder × Code
builder_add_node tunable allocated n b =
    builder_add tunable allocated n.key n.pba n.zone_idx n.valid n.timestamp b
