-- ===== src/Records/Older.antt =====
-- The scan for an older valid record, and when a tombstone or an entry is kept.
use imr_lsm.Prelude.{
  ℕ, zero, suc, ◌<◌, ◌≡◌, ◌∙◌, ◌⊎◌, ◌↔◌, refl, sym, inl, inr, Bool, true, false, ◌&&◌, ◌||◌, Option,
  some, List, [], ◌∷◌, ◌++◌, ltb, get_elem?, arith, Bool-cases, All,
}
use imr_lsm.Prelude.Keyed.{IsAscending, sorted_find-find}
use imr_lsm.Metadata.{Node, Level, Entry, Segment}
use imr_lsm.BlockTable.{entry_key}
use imr_lsm.BlockTable.Find.{block_table_find-find}
use imr_lsm.SortedLevel.{node_key}
use imr_lsm.Geometry.{Geometry}
use imr_lsm.State.{Meta, Zone}
use imr_lsm.Records.{
  level_numbers, older_unsorted, older_sorted, older_levels, older_segments,
  find_older_valid_record, zone_map_has_key, find_newer_record, tombstone_should_keep,
  entry_should_keep,
}
use imr_lsm.Records.Scans.{find_newer_record_iff}
use imr_lsm.Records.Versions.{
  Version, node_version, entry_version, versions_in, versions_in-find, level_versions,
  segment_versions, versions, IsIndexed,
}

unfoldable pub any_older : ℕ → List Version → Bool
any_older timestamp [] = false
any_older timestamp (v ∷ vs) = (v.valid && ltb v.timestamp timestamp) || any_older timestamp vs

any_older-append :
    (t : ℕ) (vs ws : List Version) → any_older t (vs ++ ws) ≡ (any_older t vs || any_older t ws)
unfolding any_older
any_older-append t [] ws = refl
any_older-append t (v ∷ vs) ws = ground (arith, any_older-append t vs ws)

older_unsorted-any_older :
    (key t : ℕ) (ns : List Node)
    → older_unsorted key t ns ≡ any_older t (versions_in node_key node_version key ns)
unfolding older_unsorted any_older versions_in
older_unsorted-any_older key t [] = refl
older_unsorted-any_older key t (n ∷ ns) = ground (arith, older_unsorted-any_older key t ns)

older_sorted-any_older :
    (key t : ℕ) (ns : List Node)
    → IsAscending node_key ns
    → older_sorted key t ns ≡ any_older t (versions_in node_key node_version key ns)
unfolding older_sorted any_older
older_sorted-any_older key t ns h =
    rw (versions_in-find node_key node_version key ns h)
      (ground (arith, sorted_find-find node_key key ns h))

older_levels-any_older :
    (key t : ℕ) (levels : ℕ → Level) (numbers : List ℕ)
    → ((level : ℕ) → IsAscending node_key (levels level).sorted)
    → older_levels key t levels numbers ≡ any_older t (level_versions key levels numbers)
unfolding older_levels any_older level_versions
older_levels-any_older key t levels [] h = refl
older_levels-any_older key t levels (level ∷ rest) h =
    let us = versions_in node_key node_version key (levels level).unsorted in
    let vs = versions_in node_key node_version key (levels level).sorted in
    ground (
      arith,
      any_older-append t us (vs ++ level_versions key levels rest),
      any_older-append t vs (level_versions key levels rest),
      older_unsorted-any_older key t (levels level).unsorted,
      older_sorted-any_older key t (levels level).sorted (h level),
      older_levels-any_older key t levels rest h,
    )

older_segments-any_older :
    (key t : ℕ) (ss : List Segment)
    → All (λ (s : Segment). IsAscending entry_key s.block_table) ss
    → older_segments key t ss ≡ any_older t (segment_versions key ss)
unfolding older_segments any_older segment_versions
older_segments-any_older key t [] h = refl
older_segments-any_older key t (s ∷ ss) h =
    let vs = versions_in entry_key entry_version key s.block_table in
    ground (
      arith,
      any_older-append t vs (segment_versions key ss),
      versions_in-find entry_key entry_version key s.block_table h.0,
      block_table_find-find key s.block_table h.0,
      older_segments-any_older key t ss h.1,
    )

-- a valid version older than `t`, and a version newer than `t`
abbrev pub HasOlder : ℕ → List Version → Type 0
HasOlder t vs =
    (i : ℕ) × (v : Version) × (get_elem? vs i ≡ some v) × (v.valid ≡ true) × (v.timestamp < t)

abbrev pub HasNewer : ℕ → List Version → Type 0
HasNewer t vs = (i : ℕ) × (v : Version) × (get_elem? vs i ≡ some v) × (t < v.timestamp)

any_older-HasOlder : (t : ℕ) (vs : List Version) → any_older t vs ≡ true → HasOlder t vs
unfolding any_older
any_older-HasOlder t [] h = absurd (ground arith)
any_older-HasOlder t (v ∷ vs) h = elim (Bool-cases (v.valid && ltb v.timestamp t)) [
  | inl here ↦ (0, v, refl, ground arith, ground arith)
  | inr later ↦
      let (i, w, at, valid, lt) = any_older-HasOlder t vs (ground arith) in
      (suc i, w, at, valid, lt)
]

HasOlder-any_older :
    (t : ℕ) (vs : List Version) (i : ℕ) (v : Version)
    → get_elem? vs i ≡ some v
    → v.valid ≡ true
    → v.timestamp < t
    → any_older t vs ≡ true
unfolding any_older
HasOlder-any_older t [] i v at valid lt = absurd (ground arith)
HasOlder-any_older t (w ∷ ws) zero v at valid lt = ground arith
HasOlder-any_older t (w ∷ ws) (suc i) v at valid lt =
    ground (arith, HasOlder-any_older t ws i v at valid lt)

-- In an index whose sorted lists and block tables are ascending, the scan for an older valid record
-- finds one exactly if the index holds a valid version of the key with a smaller timestamp.
pub find_older_valid_record_iff :
    (key timestamp : ℕ) (m : Meta)
    → IsIndexed m
    → (find_older_valid_record key timestamp m ≡ true) ↔ HasOlder timestamp (versions key m)
unfolding find_older_valid_record versions
find_older_valid_record_iff key timestamp m h =
    let ls = level_versions key m.levels level_numbers in
    let ss = segment_versions key m.segments in
    let same : find_older_valid_record key timestamp m ≡ any_older timestamp (ls ++ ss) = ground (
      arith,
      any_older-append timestamp ls ss,
      older_levels-any_older key timestamp m.levels level_numbers h.sorted,
      older_segments-any_older key timestamp m.segments h.tables,
    ) in
    (
      λ found. any_older-HasOlder timestamp (ls ++ ss) (sym same ∙ found),
      λ (i, v, at, valid, lt). same ∙ HasOlder-any_older timestamp (ls ++ ss) i v at valid lt,
    )

-- In an index whose sorted lists and block tables are ascending, segment compaction keeps an entry
-- exactly if no version of the key is newer, and the entry is valid, or is a tombstone whose key is in
-- the zone map, or is a tombstone with an older valid version of the key.
pub entry_should_keep_iff :
    (g : Geometry) (zones : Option (ℕ → Zone)) (m : Meta) (e : Entry)
    → IsIndexed m
    → (entry_should_keep g zones m e ≡ true) ↔ (
        (¬ HasNewer e.timestamp (versions e.key m))
        × ((e.valid ≡ true)
            ⊎ ((zone_map_has_key g zones e.key ≡ true) ⊎ HasOlder e.timestamp (versions e.key m))))
unfolding entry_should_keep tombstone_should_keep
entry_should_keep_iff g zones m e h =
    let newer = find_newer_record_iff e.key e.timestamp m h in
    let older = find_older_valid_record_iff e.key e.timestamp m h in
    (
      λ keep. (
        λ n. absurd (ground (arith, newer.1 n)),
        elim (Bool-cases e.valid) [
          | inl live ↦ inl live
          | inr dead ↦ elim (Bool-cases (zone_map_has_key g zones e.key)) [
            | inl mapped ↦ inr (inl mapped)
            | inr unmapped ↦ inr (inr (older.0 (ground arith)))
          ]
        ],
      ),
      λ (current, reason). elim (Bool-cases (find_newer_record e.key e.timestamp m).found) [
        | inl found ↦ absurd (current (newer.0 found))
        | inr none_newer ↦ elim reason [
          | inl live ↦ ground arith
          | inr (inl mapped) ↦ ground arith
          | inr (inr hidden) ↦ ground (arith, older.1 hidden)
        ]
      ],
    )
