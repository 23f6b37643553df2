-- ===== src/Records/Versions.antt =====
-- The scans against a plain description: the list of all versions of a key that the index holds.
use imr_lsm.Prelude.{
  ℕ, ◌≤◌, ◌≡◌, ◌∙◌, refl, ap, inl, inr, Bool, none, some, List, [], ◌∷◌, ◌++◌, ◌==◌, if◌then◌else◌,
  arith, Bool-cases, Option-cases, All,
}
use imr_lsm.Prelude.Keyed.{AllAbove, IsAscending, find, sorted_find-find}
use imr_lsm.Metadata.{Node, Level, Entry, Segment}
use imr_lsm.BlockTable.{entry_key}
use imr_lsm.SortedLevel.{node_key}
use imr_lsm.State.{Meta}
use imr_lsm.Records.{Found, level_numbers, update_latest, scan_unsorted, scan_sorted}

-- one version of a key: what a node or an entry says of it
pub record Version : Type 0 where
  pub timestamp : ℕ
  pub valid : Bool
  pub pba : ℕ

abbrev pub node_version : Node → Version
node_version n = record { timestamp = n.timestamp; valid = n.valid; pba = n.pba }

abbrev pub entry_version : Entry → Version
entry_version e = record { timestamp = e.timestamp; valid = e.valid; pba = e.pba }

module _ {A : Type 0} (key : A → ℕ) (version : A → Version) where
  unfoldable pub versions_in : ℕ → List A → List Version
  versions_in k [] = []
  versions_in k (x ∷ xs) =
      let rest = versions_in k xs in if key x == k then version x ∷ rest else rest

  versions_in_above : (j k : ℕ) (xs : List A) → k ≤ j → AllAbove key j xs → versions_in k xs ≡ []
  unfolding versions_in
  versions_in_above j k [] le h = refl
  versions_in_above j k (x ∷ xs) le h = ground (arith, versions_in_above j k xs le h.1)

  -- an ascending list holds at most one version of a key
  pub versions_in-find :
      (k : ℕ) (xs : List A)
      → IsAscending key xs
      → versions_in k xs ≡ elim (find key k xs) [ none ↦ [] | some x ↦ version x ∷ [] ]
  unfolding versions_in find
  versions_in-find k [] h = refl
  versions_in-find k (x ∷ xs) h = elim (Bool-cases (key x == k)) [
    | inl e ↦ rw e (ap (◌∷◌ (version x)) (versions_in_above (key x) k xs (ground arith) h.0))
    | inr e ↦ rw e (versions_in-find k xs h.1)
  ]

unfoldable pub level_versions : ℕ → (ℕ → Level) → List ℕ → List Version
level_versions key levels [] = []
level_versions key levels (level ∷ rest) =
    versions_in node_key node_version key (levels level).unsorted
    ++ (versions_in node_key node_version key (levels level).sorted
        ++ level_versions key levels rest)

-- the segments that are not retired
unfoldable pub segment_versions : ℕ → List Segment → List Version
segment_versions key [] = []
segment_versions key (s ∷ ss) =
    (if s.retired then [] else versions_in entry_key entry_version key s.block_table)
    ++ segment_versions key ss

unfoldable pub versions : ℕ → Meta → List Version
unfolding level_versions segment_versions
versions key m = level_versions key m.levels level_numbers ++ segment_versions key m.segments

-- the sorted lists and the block tables are ascending
pub record IsIndexed (m : Meta) : Type 0 where
  pub sorted : (level : ℕ) → IsAscending node_key (m.levels level).sorted
  pub tables : All (λ (s : Segment). IsAscending entry_key s.block_table) m.segments

-- one step of a scan for each version
unfoldable pub latest_of : List Version → Found → Found
latest_of [] f = f
latest_of (v ∷ vs) f = latest_of vs (update_latest v.timestamp v.valid v.pba f)

pub latest_of-append :
    (vs ws : List Version) (f : Found) → latest_of (vs ++ ws) f ≡ latest_of ws (latest_of vs f)
unfolding latest_of
latest_of-append [] ws f = refl
latest_of-append (v ∷ vs) ws f = latest_of-append vs ws _

pub scan_unsorted-latest_of :
    (key : ℕ) (ns : List Node) (f : Found)
    → scan_unsorted key ns f ≡ latest_of (versions_in node_key node_version key ns) f
unfolding scan_unsorted latest_of versions_in
scan_unsorted-latest_of key [] f = refl
scan_unsorted-latest_of key (n ∷ ns) f = elim (Bool-cases (n.key == key)) [
  | inl e ↦ rw e (scan_unsorted-latest_of key ns _)
  | inr e ↦ rw e (scan_unsorted-latest_of key ns f)
]

pub scan_sorted-latest_of :
    (key : ℕ) (ns : List Node) (f : Found)
    → IsAscending node_key ns
    → scan_sorted key ns f ≡ latest_of (versions_in node_key node_version key ns) f
unfolding scan_sorted latest_of
scan_sorted-latest_of key ns f h = elim (Option-cases (find node_key key ns)) [
  | inl e ↦ rw (
    versions_in-find node_key node_version key ns h,
    e,
    sorted_find-find node_key key ns h ∙ e,
    scan_sorted,
  )
  | inr (n, e) ↦ rw (
    versions_in-find node_key node_version key ns h,
    e,
    sorted_find-find node_key key ns h ∙ e,
    scan_sorted,
  )
]
