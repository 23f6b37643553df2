-- ===== src/Read/Latest.antt =====
-- A read that the tree does not answer, against the list of the versions that it may see.
use imr_lsm.Prelude.{
  ℕ, ◌≡◌, ◌∙◌, refl, sym, ap, inl, inr, Bool, true, false, not, ◌&&◌, Option, none, some, List, [],
  ◌∷◌, ◌++◌, ◌==◌, if◌then◌else◌, arith, Bool-cases, Option-cases, All, length, inc64,
}
use imr_lsm.Prelude.Keyed.{find, sorted_find}
use imr_lsm.ReadTree.Defs.{tree_lookup}
use imr_lsm.ReadTree.Invariant.{cached}
use imr_lsm.ReadTree.Operations.{IsWell}
use imr_lsm.ReadTree.Removal.{tree_lookup_lem}
use imr_lsm.Metadata.{Node, Level, Entry, Segment, Lookup, miss, valid, deleted}
use imr_lsm.BlockTable.{entry_key}
use imr_lsm.SortedLevel.{node_key}
use imr_lsm.SortedLevel.Upsert.{IsSortedLevel}
use imr_lsm.State.{Meta, State, Env, no_filter_stats}
use imr_lsm.Records.{Found, update_latest, scan_unsorted, scan_sorted, level_numbers}
use imr_lsm.Records.Versions.{
  Version, node_version, entry_version, versions_in, versions_in-find, latest_of, latest_of-append,
  scan_unsorted-latest_of, scan_sorted-latest_of,
}
use imr_lsm.Records.Scans.{IsLatest, latest_of-IsLatest}
use imr_lsm.Compaction.Filters.{IsFiltered}
use imr_lsm.Compaction.Sound.{IsSound}
use imr_lsm.Read.{
  Source, unsorted_source, sorted_source, Newest, nothing_found, take_newer, take_entry,
  newer_entry, read_unsorted, read_unsorted_levels, read_sorted, Scan, read_levels,
  segment_lookup_level, finish_read, read_index, read,
}
use imr_lsm.Read.Hits.{hit_of, join_hit, newest_hit, has_segment, AsGood, segment_lookup_level_lem}

-- the record found, without where it was found
abbrev pub as_found : Newest → Found
as_found n = record { timestamp = n.timestamp; valid = n.is_valid; pba = n.pba; found = n.found }

unfoldable pub unsorted_versions : ℕ → (ℕ → Level) → List ℕ → List Version
unsorted_versions key levels [] = []
unsorted_versions key levels (level ∷ rest) =
    versions_in node_key node_version key (levels level).unsorted
    ++ unsorted_versions key levels rest

-- the entries of a level's segments that are not retired
unfoldable pub table_versions : ℕ → ℕ → List Segment → List Version
table_versions level key [] = []
table_versions level key (s ∷ ss) =
    (if (s.level == level) && not s.retired
      then versions_in entry_key entry_version key s.block_table
      else [])
    ++ table_versions level key ss

-- level by level: the tables, and the sorted list of a level that has no segment
unfoldable pub deep_versions : ℕ → (ℕ → Level) → List Segment → List ℕ → List Version
deep_versions key levels ss [] = []
deep_versions key levels ss (level ∷ rest) =
    table_versions level key ss
    ++ ((if has_segment level ss
          then []
          else versions_in node_key node_version key (levels level).sorted)
        ++ deep_versions key levels ss rest)

-- the versions of a key that a read may see, in its order
unfoldable pub readable : ℕ → Meta → List Version
readable key m =
    unsorted_versions key m.levels level_numbers
    ++ deep_versions key m.levels m.segments level_numbers

as_found-take_newer :
    (source : Source) (t : ℕ) (live : Bool) (pba : ℕ) (n : Newest)
    → as_found (take_newer source t live pba n) ≡ update_latest t live pba (as_found n)
unfolding take_newer update_latest
as_found-take_newer origin t live pba n = ground arith

read_unsorted-scan_unsorted :
    (key : ℕ) (xs : List Node) (n : Newest)
    → as_found (read_unsorted key xs n) ≡ scan_unsorted key xs (as_found n)
unfolding read_unsorted scan_unsorted
read_unsorted-scan_unsorted key [] n = refl
read_unsorted-scan_unsorted key (x ∷ xs) n =
    let taken = take_newer unsorted_source x.timestamp x.valid x.pba n in
    let n' = if x.key == key then taken else n in
    let step : as_found n' ≡ (
        if x.key == key then update_latest x.timestamp x.valid x.pba (as_found n) else as_found n) =
      ground (arith, as_found-take_newer unsorted_source x.timestamp x.valid x.pba n) in
    read_unsorted-scan_unsorted key xs n' ∙ ap (scan_unsorted key xs) step

read_unsorted_levels-latest_of :
    (key : ℕ) (levels : ℕ → Level) (numbers : List ℕ) (n : Newest)
    → as_found (read_unsorted_levels key levels numbers n)
      ≡ latest_of (unsorted_versions key levels numbers) (as_found n)
unfolding read_unsorted_levels unsorted_versions latest_of
read_unsorted_levels-latest_of key levels [] n = refl
read_unsorted_levels-latest_of key levels (level ∷ rest) n =
    let xs = (levels level).unsorted in
    let vs = versions_in node_key node_version key xs in
    read_unsorted_levels-latest_of key levels rest (read_unsorted key xs n)
    ∙ ap (latest_of (unsorted_versions key levels rest))
        (read_unsorted-scan_unsorted key xs n ∙ scan_unsorted-latest_of key xs (as_found n))
    ∙ sym (latest_of-append vs (unsorted_versions key levels rest) (as_found n))

-- the newest entry of a level is taken as its entries in turn would be
take_entry-newer_entry :
    (e : Entry) (best : Option Entry) (n : Newest)
    → as_found (take_entry (newer_entry e best) n)
      ≡ update_latest e.timestamp e.valid e.pba (as_found (take_entry best n))
unfolding take_newer update_latest
take_entry-newer_entry e none n = ground arith
take_entry-newer_entry e (some old) n = ground arith

take_entry-join_hit :
    (level key : ℕ) (s : Segment) (best : Option Entry) (n : Newest)
    → IsFiltered s
    → as_found (take_entry (join_hit (hit_of level key s) best) n)
      ≡ latest_of
          (if (s.level == level) && not s.retired
            then versions_in entry_key entry_version key s.block_table
            else [])
          (as_found (take_entry best n))
unfolding latest_of
take_entry-join_hit level key s best n h = elim (Bool-cases ((s.level == level) && not s.retired)) [
  | inr other ↦ rw other refl
  | inl here ↦ elim (Option-cases (find entry_key key s.block_table)) [
    | inl absent ↦
        rw (here, versions_in-find entry_key entry_version key s.block_table h.ascending, absent)
          refl
    | inr (e, found) ↦
        rw (here, versions_in-find entry_key entry_version key s.block_table h.ascending, found)
          (take_entry-newer_entry e best n)
  ]
]

take_entry-latest_of :
    (level key : ℕ) (ss : List Segment) (best : Option Entry) (n : Newest)
    → All IsFiltered ss
    → as_found (take_entry (newest_hit level key ss best) n)
      ≡ latest_of (table_versions level key ss) (as_found (take_entry best n))
unfolding newest_hit table_versions latest_of
take_entry-latest_of level key [] best n h = refl
take_entry-latest_of level key (s ∷ ss) best n h =
    let vs =
      if (s.level == level) && not s.retired
      then versions_in entry_key entry_version key s.block_table
      else [] in
    take_entry-latest_of level key ss (join_hit (hit_of level key s) best) n h.1
    ∙ ap (latest_of (table_versions level key ss)) (take_entry-join_hit level key s best n h.0)
    ∙ sym (latest_of-append vs (table_versions level key ss) (as_found (take_entry best n)))

sorted_find_empty : (key : ℕ) (xs : List Node) → length xs ≡ 0 → sorted_find node_key key xs ≡ none
unfolding sorted_find
sorted_find_empty key [] e = refl
sorted_find_empty key (x ∷ xs) e = absurd (omega arith)

read_sorted-scan_sorted :
    (key : ℕ) (l : Level) (n : Newest)
    → IsSortedLevel l
    → as_found (read_sorted key l n) ≡ scan_sorted key l.sorted (as_found n)
unfolding read_sorted scan_sorted sorted_find
read_sorted-scan_sorted key l n h = elim (Bool-cases (l.sorted_count == 0)) [
  | inl empty ↦
      let nothing = sorted_find_empty key l.sorted (ground (arith, h.counted)) in
      rw (empty, nothing, scan_sorted) refl
  | inr more ↦ elim (Option-cases (sorted_find node_key key l.sorted)) [
    | inl absent ↦ rw (more, absent, scan_sorted) refl
    | inr (x, found) ↦
        rw (more, found, scan_sorted)
          (as_found-take_newer sorted_source x.timestamp x.valid x.pba n)
  ]
]

read_sorted-latest_of :
    (key : ℕ) (l : Level) (n : Newest)
    → IsSortedLevel l
    → as_found (read_sorted key l n)
      ≡ latest_of (versions_in node_key node_version key l.sorted) (as_found n)
unfolding read_sorted
read_sorted-latest_of key l n h =
    read_sorted-scan_sorted key l n h ∙ scan_sorted-latest_of key l.sorted (as_found n) h.ascending

AsGood-trans : (ss ss' ss'' : List Segment) → AsGood ss ss' → AsGood ss' ss'' → AsGood ss ss''
AsGood-trans ss ss' ss'' first second = record {
  hits = λ level key o. second.hits level key o ∙ first.hits level key o;
  levels = λ level. second.levels level ∙ first.levels level;
  filtered = second.filtered;
}

module _ (key now : ℕ) (levels : ℕ → Level) (sorted : (level : ℕ) → IsSortedLevel (levels level))
    (ss : List Segment) (h : All IsFiltered ss) where
  -- one level of the second loop
  level_newest :
      (level : ℕ) (needs : Bool) (n n' : Newest)
      → needs ≡ not (has_segment level ss)
      → as_found n' ≡ latest_of (table_versions level key ss) (as_found n)
      → as_found (if needs then read_sorted key (levels level) n' else n')
        ≡ latest_of
            (if has_segment level ss
              then []
              else versions_in node_key node_version key (levels level).sorted)
            (latest_of (table_versions level key ss) (as_found n))
  unfolding latest_of
  level_newest level needs n n' e tables = elim (Bool-cases (has_segment level ss)) [
    | inl held ↦ rw (e, held) tables
    | inr bare ↦
        rw (e, bare)
          (read_sorted-latest_of key (levels level) n' (sorted level)
            ∙ ap (latest_of (versions_in node_key node_version key (levels level).sorted)) tables)
  ]

  read_levels-latest_of :
      (numbers : List ℕ) (c : Scan)
      → AsGood ss c.segments
      → as_found (read_levels key now levels numbers c).newest
        ≡ latest_of (deep_versions key levels ss numbers) (as_found c.newest)
  unfolding read_levels deep_versions latest_of
  read_levels-latest_of [] c good = refl
  read_levels-latest_of (level ∷ rest) c good =
      let (ss', l) = segment_lookup_level level key now c.segments c.filter c.table_hit in
      let looked =
        segment_lookup_level_lem level key now c.segments c.filter c.table_hit good.filtered in
      let n = take_entry l.level_hit c.newest in
      let tables : as_found n ≡ latest_of (table_versions level key ss) (as_found c.newest) =
        ap (λ o. as_found (take_entry o c.newest)) (looked.0 ∙ good.hits level key none)
        ∙ take_entry-latest_of level key ss none c.newest h in
      let here =
        level_newest level l.needs_sorted_fallback c.newest n
          (looked.1 ∙ ap not (good.levels level)) tables in
      let c' : Scan = record {
        segments = ss';
        filter = l.filter;
        table_hit = l.table_hit;
        newest = if l.needs_sorted_fallback then read_sorted key (levels level) n else n;
      } in
      let ts = table_versions level key ss in
      let bare =
        if has_segment level ss
        then []
        else versions_in node_key node_version key (levels level).sorted in
      let deeper = deep_versions key levels ss rest in
      read_levels-latest_of rest c' (AsGood-trans ss c.segments ss' good looked.2)
      ∙ ap (latest_of deeper) here
      ∙ sym (
          latest_of-append ts (bare ++ deeper) (as_found c.newest)
          ∙ latest_of-append bare deeper (latest_of ts (as_found c.newest)))

-- what a read answers for the record that it found
abbrev pub answer_of : Found → Lookup
answer_of f = if f.found then (if f.valid then valid f.pba else deleted) else miss

abbrev pub no_record : Found
no_record = record { timestamp = 0; valid = false; pba = 0; found = false }

finish_read-answer_of :
    (env : Env) (key : ℕ) (n : Newest) (s : State)
    → (finish_read env key n s).1 ≡ answer_of (as_found n)
unfolding finish_read
finish_read-answer_of env key n s = ground arith

AsGood-refl : (ss : List Segment) → All IsFiltered ss → AsGood ss ss
AsGood-refl ss h = record { hits = λ level key o. refl; levels = λ level. refl; filtered = h }

read_index-answer_of :
    (env : Env) (key : ℕ) (s : State)
    → IsSound s.meta
    → (read_index env key s).1 ≡ answer_of (latest_of (readable key s.meta) no_record)
unfolding read_index readable
read_index-answer_of env key s sound =
    let m = s.meta in
    let first = read_unsorted_levels key m.levels level_numbers nothing_found in
    let us = unsorted_versions key m.levels level_numbers in
    let ds = deep_versions key m.levels m.segments level_numbers in
    let start : Scan = record {
      segments = m.segments;
      filter = no_filter_stats;
      table_hit = none;
      newest = first;
    } in
    let c = read_levels key m.timestamp m.levels level_numbers start in
    let deep =
      read_levels-latest_of key m.timestamp m.levels sound.levels m.segments sound.segments
        level_numbers start (AsGood-refl m.segments sound.segments) in
    let all : as_found c.newest ≡ latest_of (us ++ ds) no_record =
      deep
      ∙ ap (latest_of ds) (read_unsorted_levels-latest_of key m.levels level_numbers nothing_found)
      ∙ sym (latest_of-append us ds no_record) in
    finish_read-answer_of env key c.newest _ ∙ ap answer_of all

-- the state in which a read goes on to the index
abbrev missed : ℕ → State → State
missed key s =
    let m = s.meta in
    let r = m.stats.read in
    record s {
      meta = record m {
        tree = (tree_lookup key m.tree).0;
        stats = record (m.stats) { read = record r { lookup_count = inc64 r.lookup_count } };
      };
    }

read-read_index :
    (env : Env) (key : ℕ) (s : State)
    → s.meta.initialized ≡ true
    → (tree_lookup key s.meta.tree).1 ≡ none
    → (read env key s).1 ≡ (read_index env key (missed key s)).1
unfolding read
read-read_index env key s on absent = elim (Bool-cases s.meta.initialized) [
  | inl yes_on ↦ ground arith
  | inr off ↦ absurd (ground arith)
]

readable-missed : (key : ℕ) (s : State) → readable key (missed key s).meta ≡ readable key s.meta
unfolding readable
readable-missed key s = refl

-- A read of an initialized index, whose levels are sorted and whose segments' filters admit their keys,
-- answers for a key that the well-formed read tree does not hold with the newest of the versions that a
-- read may see, those of the unsorted lists, of the tables, and of the sorted lists of levels without a
-- segment: with its address if it is valid, with a deletion if it is a tombstone, and with a miss if
-- there is none with a timestamp above 0.
pub read_lem :
    (env : Env) (key : ℕ) (s : State)
    → s.meta.initialized ≡ true
    → IsWell s.meta.tree
    → cached key s.meta.tree ≡ none
    → IsSound s.meta
    → (r : Found) × IsLatest (readable key s.meta) no_record r × ((read env key s).1 ≡ answer_of r)
read_lem env key s on well absent sound =
    let looked : (tree_lookup key s.meta.tree).1 ≡ none =
      (tree_lookup_lem key s.meta.tree well).0 ∙ absent in
    (
      latest_of (readable key s.meta) no_record,
      latest_of-IsLatest (readable key s.meta) no_record,
      read-read_index env key s on looked
          ∙ read_index-answer_of env key (missed key s)
              (record { levels = sound.levels; segments = sound.segments; active = sound.active })
          ∙ ap (λ vs. answer_of (latest_of vs no_record)) (readable-missed key s),
    )
