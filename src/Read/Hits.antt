-- ===== src/Read/Hits.antt =====
-- The lookup in the segments of a level, which the key ranges, the Bloom filters and the binary search
-- shorten, against the plain search of every table.
use imr_lsm.Prelude.{
  ℕ, ◌≡◌, ◌∙◌, refl, ap, inl, inr, Bool, false, not, ◌&&◌, ◌||◌, Option, none, some, List, [], ◌∷◌,
  ◌==◌, if◌then◌else◌, arith, Option-cases, All,
}
use imr_lsm.Prelude.Keyed.{find, find-key}
use imr_lsm.Prelude.Members.{All-find}
use imr_lsm.Metadata.{Entry, Segment, Bloom}
use imr_lsm.BlockTable.{entry_key}
use imr_lsm.BlockTable.Find.{block_table_find-find}
use imr_lsm.State.{FilterStats}
use imr_lsm.Compaction.Filters.{Admits, IsFiltered, IsFiltered-core}
use imr_lsm.Read.{
  LevelLookup, newer_entry, lookup_table, lookup_segment, lookup_segments, segment_lookup_level,
}

-- what a segment holds for a key, for a read of a level
abbrev pub hit_of : ℕ → ℕ → Segment → Option Entry
hit_of level key s =
    if (s.level == level) && not s.retired then find entry_key key s.block_table else none

abbrev pub join_hit : Option Entry → Option Entry → Option Entry
join_hit none best = best
join_hit (some e) best = newer_entry e best

-- the newest entry of the key in the tables of the level
unfoldable pub newest_hit : ℕ → ℕ → List Segment → Option Entry → Option Entry
newest_hit level key [] best = best
newest_hit level key (s ∷ ss) best = newest_hit level key ss (join_hit (hit_of level key s) best)

unfoldable pub has_segment : ℕ → List Segment → Bool
has_segment level [] = false
has_segment level (s ∷ ss) = (s.level == level) || has_segment level ss

-- a table that holds the key is not passed over
admitted_hit :
    (key : ℕ) (s : Segment) (e : Entry)
    → IsFiltered s
    → find entry_key key s.block_table ≡ some e
    → Admits s key
admitted_hit key s e h found =
    let same : e.key ≡ key = find-key entry_key key s.block_table e found in
    rw same at
      (All-find entry_key (λ (x : Entry). Admits s x.key) key s.block_table e h.admitted found)

-- the fields of a segment that a lookup leaves alone
abbrev pub seen : Segment → ℕ × Bool × ℕ × ℕ × Bloom × List Entry
seen s = (s.level, s.retired, s.min_key, s.max_key, s.bloom, s.block_table)

seen-IsFiltered : (s s' : Segment) → seen s' ≡ seen s → IsFiltered s → IsFiltered s'
seen-IsFiltered s s' same = IsFiltered-core s s' (ap (λ x. (x.2, x.3, x.4, x.5)) same)

seen-hit_of :
    (level key : ℕ) (s s' : Segment) → seen s' ≡ seen s → hit_of level key s' ≡ hit_of level key s
seen-hit_of level key s s' same =
    ap (λ x. if (x.0 == level) && not x.1 then find entry_key key x.5 else none) same

-- reads find the same in both lists of segments
pub record AsGood (ss ss' : List Segment) : Type 0 where
  pub hits :
      (level key : ℕ) (o : Option Entry) → newest_hit level key ss' o ≡ newest_hit level key ss o
  pub levels : (level : ℕ) → has_segment level ss' ≡ has_segment level ss
  pub filtered : All IsFiltered ss'

AsGood-cons :
    (s s' : Segment) (ss ss' : List Segment)
    → seen s' ≡ seen s
    → IsFiltered s
    → AsGood ss ss'
    → AsGood (s ∷ ss) (s' ∷ ss')
unfolding newest_hit has_segment
AsGood-cons s s' ss ss' same h good = record {
  hits = λ level key o. rw (seen-hit_of level key s s' same) (good.hits level key _);
  levels = λ level. rw (ap (λ x. x.0) same, good.levels level) refl;
  filtered = (seen-IsFiltered s s' same h, good.filtered);
}

module _ (level key now : ℕ) where
  lookup_segment_lem :
      (s : Segment) (l : LevelLookup)
      → IsFiltered s
      → ((lookup_segment level key now s l).1.level_hit ≡ join_hit (hit_of level key s) l.level_hit)
        × ((lookup_segment level key now s l).1.has_level_segment
            ≡ ((s.level == level) || l.has_level_segment))
        × ((lookup_segment level key now s l).1.needs_sorted_fallback ≡ l.needs_sorted_fallback)
        × (seen (lookup_segment level key now s l).0 ≡ seen s)
  unfolding lookup_segment lookup_table
  lookup_segment_lem s l h =
      let plain = block_table_find-find key s.block_table h.ascending in
      elim (Option-cases (find entry_key key s.block_table)) [
        | inl absent ↦ ground (arith, h.filled)
        | inr (e, found) ↦ ground (arith, h.filled, admitted_hit key s e h found)
      ]

  lookup_segments_lem :
      (ss : List Segment) (l : LevelLookup)
      → All IsFiltered ss
      → ((lookup_segments level key now ss l).1.level_hit ≡ newest_hit level key ss l.level_hit)
        × ((lookup_segments level key now ss l).1.has_level_segment
            ≡ (has_segment level ss || l.has_level_segment))
        × ((lookup_segments level key now ss l).1.needs_sorted_fallback ≡ l.needs_sorted_fallback)
        × AsGood ss (lookup_segments level key now ss l).0
  unfolding lookup_segments newest_hit has_segment
  lookup_segments_lem [] l h = (
    refl,
    refl,
    refl,
    record { hits = λ level key o. refl; levels = λ level. refl; filtered = tt },
  )
  lookup_segments_lem (s ∷ ss) l h =
      let one = lookup_segment_lem s l h.0 in
      let (s', l') = lookup_segment level key now s l in
      let rest = lookup_segments_lem ss l' h.1 in
      (
        rest.0 ∙ ap (newest_hit level key ss) one.0,
        ground (arith, rest.1, one.1),
        rest.2 ∙ one.2,
        AsGood-cons s s' ss (lookup_segments level key now ss l').0 one.3 h.0 rest.3,
      )

  -- Where every segment's filters admit its keys, the lookup in the segments of a level, with its key
  -- ranges, Bloom filters and binary search, finds the newest entry of the key in all tables of the
  -- level that are not retired; it asks for the sorted list exactly if the level has no segment, and
  -- leaves the segments as good for reads as they were.
  pub segment_lookup_level_lem :
      (ss : List Segment) (filter : FilterStats) (table_hit : Option Entry)
      → All IsFiltered ss
      → ((segment_lookup_level level key now ss filter table_hit).1.level_hit
          ≡ newest_hit level key ss none)
        × ((segment_lookup_level level key now ss filter table_hit).1.needs_sorted_fallback
            ≡ not (has_segment level ss))
        × AsGood ss (segment_lookup_level level key now ss filter table_hit).0
  unfolding segment_lookup_level
  segment_lookup_level_lem ss filter table_hit h =
      let start : LevelLookup = record {
        filter = filter;
        table_hit = table_hit;
        level_hit = none;
        has_level_segment = false;
        needs_sorted_fallback = false;
      } in
      let all = lookup_segments_lem ss start h in (all.0, ground (arith, all.1, all.2), all.3)
