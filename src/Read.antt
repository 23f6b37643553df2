-- ===== src/Read.antt =====
-- Reading a key: the read tree, then the unsorted lists, then for each level its segments and, where
-- they do not answer, its sorted list (imrsim_kmod/dm-imrsim.c,
-- `imr_lsm_segment_lookup_level_locked`, `imr_lsm_read`).
pub mod Own
pub mod Writes
pub mod Hits
pub mod Latest
use imr_lsm.Prelude.{
  ℕ, suc, Bool, true, false, ◌&&◌, ◌||◌, not, Option, none, some, List, [], ◌∷◌, ltb, ◌==◌,
  if◌then◌else◌, inc64, add64,
}
use imr_lsm.Prelude.Keyed.{sorted_find}
use imr_lsm.ReadTree.Defs.{TreeNode, ReadTree, tree_lookup, tree_update}
use imr_lsm.Metadata.{Node, Level, Entry, Segment, Lookup, miss, valid, deleted}
use imr_lsm.Bloom.{bloom_may_contain}
use imr_lsm.BlockTable.{block_table_find}
use imr_lsm.SortedLevel.{node_key}
use imr_lsm.Records.{level_numbers}
use imr_lsm.State.{FilterStats, no_filter_stats, ReadStats, Meta, State, Env}

-- what a lookup in the segments of a level carries: the counters and the newest entry of the whole
-- read (`filter`), the newest entry of the level, and the flags of the source
pub record LevelLookup : Type 0 where
  pub filter : FilterStats
  pub table_hit : Option Entry
  pub level_hit : Option Entry
  pub has_level_segment : Bool
  pub needs_sorted_fallback : Bool

abbrev pub newer_entry : Entry → Option Entry → Option Entry
newer_entry e none = some e
newer_entry e (some old) = if ltb old.timestamp e.timestamp then some e else some old

-- the search of a block table, once the key range and the Bloom filter admit the key
unfoldable pub lookup_table : ℕ → ℕ → Segment → LevelLookup → Segment × LevelLookup
lookup_table key now s l =
    let f = l.filter in
    elim (s.block_table) [
      | [] ↦ (s, record l { needs_sorted_fallback = true })
      | first ∷ others ↦ elim (block_table_find key s.block_table) [
        | none ↦ (
          s,
          record l {
            filter = record f {
              table_lookup = inc64 f.table_lookup;
              table_miss = inc64 f.table_miss;
            };
          },
        )
        | some e ↦ (
          record s { read_hit_count = inc64 s.read_hit_count; last_read_timestamp = now },
          record l {
            filter = record f {
              table_lookup = inc64 f.table_lookup;
              table_hit = inc64 f.table_hit;
            };
            table_hit = newer_entry e l.table_hit;
            level_hit = newer_entry e l.level_hit;
          },
        )
      ]
    ]

abbrev count_lookup : FilterStats → FilterStats
count_lookup f = record f { segment_lookup = inc64 f.segment_lookup }

abbrev count_candidate : FilterStats → FilterStats
count_candidate f = record f {
  segment_candidate = inc64 f.segment_candidate;
  bloom_lookup = inc64 f.bloom_lookup;
}

-- one segment of the loop
unfoldable pub lookup_segment : ℕ → ℕ → ℕ → Segment → LevelLookup → Segment × LevelLookup
lookup_segment level key now s l =
    let seen = record l { has_level_segment = true } in
    let f = count_lookup l.filter in
    let c = count_candidate f in
    let maybe = record seen { filter = record c { bloom_maybe = inc64 c.bloom_maybe } } in
    if not (s.level == level)
    then (s, l)
    else if s.retired
    then (s, seen)
    else if ltb key s.min_key || ltb s.max_key key
    then (s, record seen { filter = record f { segment_skip = inc64 f.segment_skip } })
    else if (s.bloom.key_count == 0) || bloom_may_contain s.bloom key
    then lookup_table key now s maybe
    else (s, record seen { filter = record c { bloom_negative = inc64 c.bloom_negative } })

unfoldable pub lookup_segments : ℕ → ℕ → ℕ → List Segment → LevelLookup → List Segment × LevelLookup
lookup_segments level key now [] l = ([], l)
lookup_segments level key now (s ∷ ss) l =
    let (s', l') = lookup_segment level key now s l in
    let (ss', l'') = lookup_segments level key now ss l' in (s' ∷ ss', l'')

-- `imr_lsm_segment_lookup_level_locked`: its return value is `needs_sorted_fallback`, or that the
-- level has no segment
unfoldable pub segment_lookup_level :
    ℕ → ℕ → ℕ → List Segment → FilterStats → Option Entry → List Segment × LevelLookup
segment_lookup_level level key now ss filter table_hit =
    let (ss', l) = lookup_segments level key now ss (record {
      filter = filter;
      table_hit = table_hit;
      level_hit = none;
      has_level_segment = false;
      needs_sorted_fallback = false;
    }) in
    (ss', record l { needs_sorted_fallback = not l.has_level_segment || l.needs_sorted_fallback })

-- `imr_lsm_read_source`
pub data Source : Type 0 where
  no_source unsorted_source segment_source sorted_source : Source

-- the newest record so far: `newest_timestamp`, `newest_valid`, `newest_source`, `newest_pba`;
-- `found` says that `result` is no longer a miss
pub record Newest : Type 0 where
  pub timestamp : ℕ
  pub is_valid : Bool
  pub source : Source
  pub pba : ℕ
  pub found : Bool

abbrev pub nothing_found : Newest
nothing_found = record {
  timestamp = 0;
  is_valid = false;
  source = no_source;
  pba = 0;
  found = false;
}

-- the four writes under `timestamp > newest_timestamp`
unfoldable pub take_newer : Source → ℕ → Bool → ℕ → Newest → Newest
take_newer source timestamp is_valid pba n =
    if ltb n.timestamp timestamp
    then record {
      timestamp = timestamp;
      is_valid = is_valid;
      source = source;
      pba = pba;
      found = true;
    }
    else n

unfoldable pub read_unsorted : ℕ → List Node → Newest → Newest
read_unsorted key [] n = n
read_unsorted key (x ∷ xs) n =
    read_unsorted key xs
      (if x.key == key then take_newer unsorted_source x.timestamp x.valid x.pba n else n)

unfoldable pub read_unsorted_levels : ℕ → (ℕ → Level) → List ℕ → Newest → Newest
read_unsorted_levels key levels [] n = n
read_unsorted_levels key levels (level ∷ rest) n =
    read_unsorted_levels key levels rest (read_unsorted key (levels level).unsorted n)

-- the scan of a sorted list, which ends at the key or above it
unfoldable pub read_sorted : ℕ → Level → Newest → Newest
read_sorted key l n = if l.sorted_count == 0 then n else elim (sorted_find node_key key l.sorted) [
  | none ↦ n
  | some x ↦ take_newer sorted_source x.timestamp x.valid x.pba n
]

abbrev pub take_entry : Option Entry → Newest → Newest
take_entry none n = n
take_entry (some e) n = take_newer segment_source e.timestamp e.valid e.pba n

-- what the second loop of `imr_lsm_read` carries
pub record Scan : Type 0 where
  pub segments : List Segment
  pub filter : FilterStats
  pub table_hit : Option Entry
  pub newest : Newest

unfoldable pub read_levels : ℕ → ℕ → (ℕ → Level) → List ℕ → Scan → Scan
read_levels key now levels [] c = c
read_levels key now levels (level ∷ rest) c =
    let (ss, l) = segment_lookup_level level key now c.segments c.filter c.table_hit in
    let n = take_entry l.level_hit c.newest in
    read_levels key now levels rest (record {
      segments = ss;
      filter = l.filter;
      table_hit = l.table_hit;
      newest = if l.needs_sorted_fallback then read_sorted key (levels level) n else n;
    })

abbrev add_filter : FilterStats → FilterStats → FilterStats
add_filter t f = record {
  segment_lookup = add64 t.segment_lookup f.segment_lookup;
  segment_skip = add64 t.segment_skip f.segment_skip;
  segment_candidate = add64 t.segment_candidate f.segment_candidate;
  bloom_lookup = add64 t.bloom_lookup f.bloom_lookup;
  bloom_negative = add64 t.bloom_negative f.bloom_negative;
  bloom_maybe = add64 t.bloom_maybe f.bloom_maybe;
  table_lookup = add64 t.table_lookup f.table_lookup;
  table_hit = add64 t.table_hit f.table_hit;
  table_miss = add64 t.table_miss f.table_miss;
}

-- the counters of the filters after the loops
abbrev record_filter : ℕ → Scan → ReadStats → ReadStats
record_filter key c r =
    let counted = record r {
      filter = add_filter r.filter c.filter;
      last_filter = c.filter;
      last_segment_read_key = key;
    } in
    elim (c.table_hit) [
      | none ↦ record counted {
        last_hit_key = 0;
        last_hit_pba = 0;
        last_hit_timestamp = 0;
        last_hit_valid = false;
      }
      | some e ↦ record counted {
        last_hit_key = e.key;
        last_hit_pba = e.pba;
        last_hit_timestamp = e.timestamp;
        last_hit_valid = e.valid;
      }
    ]

abbrev count_source : Source → ReadStats → ReadStats
count_source unsorted_source r = record r { unsorted_hit_count = inc64 r.unsorted_hit_count }
count_source segment_source r = record r { segment_hit_count = inc64 r.segment_hit_count }
count_source other r = record r { sorted_hit_count = inc64 r.sorted_hit_count }

abbrev with_read : Meta → ReadStats → Meta
with_read m r = record m { stats = record (m.stats) { read = r } }

abbrev count_tombstone : ReadStats → ReadStats
count_tombstone r = record r { tombstone_hit_count = inc64 r.tombstone_hit_count }

abbrev count_miss : ReadStats → ReadStats
count_miss r = record r { miss_count = inc64 r.miss_count }

module _ (env : Env) where
  -- the end of `imr_lsm_read`: the newest record goes into the read tree
  unfoldable pub finish_read : ℕ → Newest → State → State × Lookup
  finish_read key n s =
      let m = s.meta in
      let r = m.stats.read in
      let cached =
        tree_update env.rb (env.alloc s.allocs) key n.pba n.is_valid n.timestamp m.tree in
      let kept = record m { tree = cached } in
      if not n.found
      then (record s { meta = with_read m (count_miss r) }, miss)
      else if n.is_valid
      then (
        record s { meta = with_read kept (count_source n.source r); allocs = suc s.allocs },
        valid n.pba,
      )
      else (record s { meta = with_read kept (count_tombstone r); allocs = suc s.allocs }, deleted)

  -- a read that the tree did not answer
  unfoldable pub read_index : ℕ → State → State × Lookup
  read_index key s =
      let m = s.meta in
      let start : Scan = record {
        segments = m.segments;
        filter = no_filter_stats;
        table_hit = none;
        newest = read_unsorted_levels key m.levels level_numbers nothing_found;
      } in
      let c = read_levels key m.timestamp m.levels level_numbers start in
      let scanned = record m { segments = c.segments } in
      finish_read key c.newest
        (record s { meta = with_read scanned (record_filter key c m.stats.read) })

  -- `imr_lsm_read`
  unfoldable pub read : ℕ → State → State × Lookup
  read key s =
      let r = s.meta.stats.read in
      let m = with_read s.meta (record r { lookup_count = inc64 r.lookup_count }) in
      let (tree, answer) = tree_lookup key m.tree in
      let looked = record m { tree = tree } in
      let counted = looked.stats.read in
      if not m.initialized
      then (record s { meta = with_read m (count_miss m.stats.read) }, miss)
      else elim answer [
        | none ↦ read_index key (record s { meta = looked })
        | some n ↦
            if n.valid
            then (
              record s {
                meta =
                    with_read looked
                      (record counted { tree_hit_count = inc64 counted.tree_hit_count });
              },
              valid n.pba,
            )
            else (record s { meta = with_read looked (count_tombstone counted) }, deleted)
      ]
