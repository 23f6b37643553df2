-- ===== src/Records/Scans.antt =====
-- What the scans for the newest, a newer and an older record return.
use imr_lsm.Prelude.{
  ℕ, zero, suc, ◌≤◌, ◌<◌, ◌≡◌, ◌∙◌, ◌⊎◌, ◌↔◌, refl, ap, inl, inr, true, false, some, List, [], ◌∷◌,
  ◌++◌, ltb, get_elem?, arith, Bool-cases, Option-cases, All,
}
use imr_lsm.Prelude.Keyed.{IsAscending, find}
use imr_lsm.Metadata.{Level, Segment}
use imr_lsm.BlockTable.{entry_key}
use imr_lsm.BlockTable.Find.{block_table_find-find}
use imr_lsm.SortedLevel.{node_key}
use imr_lsm.State.{Meta}
use imr_lsm.Records.{
  Found, level_numbers, update_latest, scan_levels, scan_segments, scan_all, find_latest_record,
  find_newer_record,
}
use imr_lsm.Records.Versions.{
  Version, node_version, entry_version, versions_in, versions_in-find, level_versions,
  segment_versions, versions, IsIndexed, latest_of, latest_of-append, scan_unsorted-latest_of,
  scan_sorted-latest_of,
}

module _ (key : ℕ) where
  scan_levels-latest_of :
      (levels : ℕ → Level) (numbers : List ℕ) (f : Found)
      → ((level : ℕ) → IsAscending node_key (levels level).sorted)
      → scan_levels key levels numbers f ≡ latest_of (level_versions key levels numbers) f
  unfolding scan_levels latest_of level_versions
  scan_levels-latest_of levels [] f h = refl
  scan_levels-latest_of levels (level ∷ rest) f h =
      let ns = (levels level).unsorted in
      let ss = (levels level).sorted in
      let us = versions_in node_key node_version key ns in
      let vs = versions_in node_key node_version key ss in
      rw
        (
          latest_of-append us (vs ++ level_versions key levels rest) f,
          latest_of-append vs (level_versions key levels rest) (latest_of us f),
          scan_unsorted-latest_of key ns f,
          scan_sorted-latest_of key ss (latest_of us f) (h level),
        )
        (scan_levels-latest_of levels rest _ h)

  scan_segments-latest_of :
      (ss : List Segment) (f : Found)
      → All (λ (s : Segment). IsAscending entry_key s.block_table) ss
      → scan_segments key ss f ≡ latest_of (segment_versions key ss) f
  unfolding scan_segments latest_of segment_versions
  scan_segments-latest_of [] f h = refl
  scan_segments-latest_of (s ∷ ss) f h = elim (Bool-cases s.retired) [
    | inl retired ↦ rw retired (scan_segments-latest_of ss f h.1)
    | inr active ↦
        let search = block_table_find-find key s.block_table h.0 in
        let single = versions_in-find entry_key entry_version key s.block_table h.0 in
        elim (Option-cases (find entry_key key s.block_table)) [
          | inl e ↦
              rw (active, single, e, search ∙ e, scan_segments) (scan_segments-latest_of ss f h.1)
          | inr (n, e) ↦
              rw (active, single, e, search ∙ e, scan_segments) (scan_segments-latest_of ss _ h.1)
        ]
  ]

  -- every scan folds over the versions of the key
  pub scan_all-latest_of :
      (m : Meta) (f : Found) → IsIndexed m → scan_all key m f ≡ latest_of (versions key m) f
  unfolding scan_all versions
  scan_all-latest_of m f h =
      rw
        (latest_of-append (level_versions key m.levels level_numbers)
          (segment_versions key m.segments) f)
        (rw (scan_levels-latest_of m.levels level_numbers f h.sorted)
          (scan_segments-latest_of m.segments _ h.tables))

-- `r` is what a scan that started at `f` must return over the versions `vs`: it bounds them all, and
-- it is one of them, or none is newer than the start
pub record IsLatest (vs : List Version) (f r : Found) : Type 0 where
  pub bound : All (λ (v : Version). v.timestamp ≤ r.timestamp) vs
  pub grows : f.timestamp ≤ r.timestamp
  pub origin :
      (r ≡ f)
      ⊎ ((f.timestamp < r.timestamp)
          × (r.found ≡ true)
          × (i : ℕ) × (get_elem? vs i
              ≡ some (record { timestamp = r.timestamp; valid = r.valid; pba = r.pba })))

pub latest_of-IsLatest : (vs : List Version) (f : Found) → IsLatest vs f (latest_of vs f)
unfolding latest_of update_latest
latest_of-IsLatest [] f = record { bound = tt; grows = omega arith; origin = inl refl }
latest_of-IsLatest (v ∷ vs) f = elim (Bool-cases (ltb f.timestamp v.timestamp)) [
  | inl newer ↦
      let ih =
        latest_of-IsLatest vs
          (record { timestamp = v.timestamp; valid = v.valid; pba = v.pba; found = true }) in
      rw newer (record {
        bound = (ih.grows, ih.bound);
        grows = ground (arith, ih.grows);
        origin = elim (ih.origin) [
          | inl same ↦ inr (ground arith, ap (λ (r : Found). r.found) same, 0, ground arith)
          | inr (lt, hit, i, at) ↦ inr (ground arith, hit, suc i, at)
        ];
      })
  | inr older ↦
      let ih = latest_of-IsLatest vs f in
      rw older (record {
        bound = (ground (arith, ih.grows), ih.bound);
        grows = ih.grows;
        origin = elim (ih.origin) [
          | inl same ↦ inl same
          | inr (lt, hit, i, at) ↦ inr (lt, hit, suc i, at)
        ];
      })
]

-- In an index whose sorted lists and block tables are ascending, the scan for the newest record of a key
-- returns a version of the key with the largest timestamp, or nothing if no version has a timestamp
-- above 0.
pub find_latest_record-IsLatest :
    (key : ℕ) (m : Meta)
    → IsIndexed m
    → IsLatest
        (versions key m)
        (record { timestamp = 0; valid = false; pba = 0; found = false })
        (find_latest_record key m)
unfolding find_latest_record
find_latest_record-IsLatest key m h =
    rw (scan_all-latest_of key m _ h) (latest_of-IsLatest (versions key m) _)

bound_at :
    (vs : List Version) (t i : ℕ) (v : Version)
    → All (λ (w : Version). w.timestamp ≤ t) vs
    → get_elem? vs i ≡ some v
    → v.timestamp ≤ t
bound_at [] t i v h e = absurd (ground arith)
bound_at (w ∷ ws) t zero v h e = ground arith
bound_at (w ∷ ws) t (suc i) v h e = bound_at ws t i v h.1 e

-- In an index whose sorted lists and block tables are ascending, the scan for a newer record finds one
-- exactly if the index holds a version of the key with a larger timestamp.
pub find_newer_record_iff :
    (key timestamp : ℕ) (m : Meta)
    → IsIndexed m
    → ((find_newer_record key timestamp m).found ≡ true) ↔ (
        (i : ℕ) × (v : Version) × (get_elem? (versions key m) i ≡ some v)
        × (timestamp < v.timestamp))
unfolding find_newer_record
find_newer_record_iff key timestamp m h =
    let start : Found = record { timestamp = timestamp; valid = false; pba = 0; found = false } in
    let l = latest_of-IsLatest (versions key m) start in
    rw (scan_all-latest_of key m start h) (
      λ hit. (elim (l.origin) [
        | inl same ↦ absurd (ground arith)
        | inr (lt, _, i, at) ↦ (i, _, at, lt)
      ]),
      λ (i, v, at, lt). elim (l.origin) [
        | inl same ↦ let top = bound_at (versions key m) _ i v l.bound at in absurd (ground arith)
        | inr (_, hit, _, _) ↦ hit
      ],
    )
