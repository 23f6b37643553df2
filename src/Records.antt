-- ===== src/Records.antt =====
-- The scans for a record of a key over the whole index: the newest, a newer one, an older one that
-- is valid; and whether a tombstone must be kept (imrsim_kmod/dm-imrsim.c,
-- `imr_lsm_find_*_record_locked`, `imr_lsm_zone_map_has_key`, `imr_lsm_*_should_keep_locked`).
pub mod Versions
pub mod Scans
pub mod Older
use imr_lsm.Prelude.{
  ℕ, ◌+◌, ◌-◌, ◌*◌, ◌/◌, ◌%◌, ◌^◌, Bool, true, false, ◌&&◌, ◌||◌, not, Option, none, some, List, [],
  ◌∷◌, ltb, leb, ◌==◌, if◌then◌else◌, u32_mod,
}
use imr_lsm.Prelude.Keyed.{sorted_find}
use imr_lsm.Geometry.{Geometry, total_items}
use imr_lsm.Metadata.{Node, Level, Entry, Segment}
use imr_lsm.BlockTable.{block_table_find}
use imr_lsm.SortedLevel.{node_key}
use imr_lsm.State.{Meta, Zone}

-- the level numbers of a loop over all levels
abbrev pub level_numbers : List ℕ
level_numbers = 0 ∷ 1 ∷ 2 ∷ 3 ∷ 4 ∷ 5 ∷ 6 ∷ []

-- what a scan has found so far: `newer_timestamp`, `newer_valid`, `newer_found`; the scan for the
-- newest record also keeps `latest_pba`
pub record Found : Type 0 where
  pub timestamp : ℕ
  pub valid : Bool
  pub pba : ℕ
  pub found : Bool

-- `imr_lsm_update_newer_record` and `imr_lsm_update_latest_record`
unfoldable pub update_latest : ℕ → Bool → ℕ → Found → Found
update_latest timestamp valid pba f =
    if ltb f.timestamp timestamp
    then record { timestamp = timestamp; valid = valid; pba = pba; found = true }
    else f

-- the loop over an unsorted list
unfoldable pub scan_unsorted : ℕ → List Node → Found → Found
unfolding update_latest
scan_unsorted key [] f = f
scan_unsorted key (n ∷ ns) f =
    scan_unsorted key ns (if n.key == key then update_latest n.timestamp n.valid n.pba f else f)

-- the loop over a sorted list, which ends at the key or above it
unfoldable pub scan_sorted : ℕ → List Node → Found → Found
unfolding update_latest
scan_sorted key ns f = elim (sorted_find node_key key ns) [
  | none ↦ f
  | some n ↦ update_latest n.timestamp n.valid n.pba f
]

unfoldable pub scan_levels : ℕ → (ℕ → Level) → List ℕ → Found → Found
unfolding scan_unsorted scan_sorted
scan_levels key levels [] f = f
scan_levels key levels (level ∷ rest) f =
    scan_levels key levels rest
      (scan_sorted key (levels level).sorted (scan_unsorted key (levels level).unsorted f))

-- the loop over the segments that are not retired
unfoldable pub scan_segments : ℕ → List Segment → Found → Found
unfolding update_latest
scan_segments key [] f = f
scan_segments key (s ∷ ss) f =
    let f' : Found = elim (block_table_find key s.block_table) [
      | none ↦ f
      | some e ↦ update_latest e.timestamp e.valid e.pba f
    ] in
    scan_segments key ss (if s.retired then f else f')

unfoldable pub scan_all : ℕ → Meta → Found → Found
unfolding scan_levels scan_segments
scan_all key m f = scan_segments key m.segments (scan_levels key m.levels level_numbers f)

-- `imr_lsm_find_latest_record_locked`
unfoldable pub find_latest_record : ℕ → Meta → Found
unfolding scan_all
find_latest_record key m =
    scan_all key m (record { timestamp = 0; valid = false; pba = 0; found = false })

-- `imr_lsm_find_newer_record_locked`. Its tests `> timestamp` before an update change nothing, since
-- the update compares with a timestamp that starts there and only grows.
unfoldable pub find_newer_record : ℕ → ℕ → Meta → Found
unfolding scan_all
find_newer_record key timestamp m =
    scan_all key m (record { timestamp = timestamp; valid = false; pba = 0; found = false })

-- the loops of `imr_lsm_find_older_valid_record_locked`
unfoldable pub older_unsorted : ℕ → ℕ → List Node → Bool
older_unsorted key timestamp [] = false
older_unsorted key timestamp (n ∷ ns) =
    (n.key == key && n.valid && ltb n.timestamp timestamp) || older_unsorted key timestamp ns

unfoldable pub older_sorted : ℕ → ℕ → List Node → Bool
older_sorted key timestamp ns = elim (sorted_find node_key key ns) [
  | none ↦ false
  | some n ↦ n.valid && ltb n.timestamp timestamp
]

unfoldable pub older_levels : ℕ → ℕ → (ℕ → Level) → List ℕ → Bool
unfolding older_unsorted older_sorted
older_levels key timestamp levels [] = false
older_levels key timestamp levels (level ∷ rest) =
    older_unsorted key timestamp (levels level).unsorted
    || older_sorted key timestamp (levels level).sorted
    || older_levels key timestamp levels rest

unfoldable pub older_segments : ℕ → ℕ → List Segment → Bool
older_segments key timestamp [] = false
older_segments key timestamp (s ∷ ss) =
    let here : Bool = elim (block_table_find key s.block_table) [
      | none ↦ false
      | some e ↦ e.valid && ltb e.timestamp timestamp
    ] in
    (not s.retired && here) || older_segments key timestamp ss

unfoldable pub find_older_valid_record : ℕ → ℕ → Meta → Bool
unfolding older_levels older_segments
find_older_valid_record key timestamp m =
    older_levels key timestamp m.levels level_numbers || older_segments key timestamp m.segments

-- `imr_lsm_zone_map_has_key`
unfoldable pub zone_map_has_key : Geometry → Option (ℕ → Zone) → ℕ → Bool
zone_map_has_key g none key = false
zone_map_has_key g (some zones) key =
    let zone_idx = key / 2 ^ g.zone_shift % u32_mod in
    let block_offset = key - zone_idx * 2 ^ g.zone_shift in
    if leb g.num_zones zone_idx
    then false
    else if leb total_items block_offset
    then false
    else elim ((zones zone_idx).z_pba_map block_offset) [ none ↦ false | some _ ↦ true ]

-- `imr_lsm_tombstone_should_keep_locked`
unfoldable pub tombstone_should_keep : Geometry → Option (ℕ → Zone) → Meta → Entry → Bool
tombstone_should_keep g zones m e =
    if zone_map_has_key g zones e.key then true else find_older_valid_record e.key e.timestamp m

-- `imr_lsm_segment_entry_should_keep_locked`
unfoldable pub entry_should_keep : Geometry → Option (ℕ → Zone) → Meta → Entry → Bool
entry_should_keep g zones m e =
    if (find_newer_record e.key e.timestamp m).found
    then false
    else if e.valid
    then true
    else tombstone_should_keep g zones m e
