-- ===== src/Device/Candidate.antt =====
-- The zone that waits for a compaction (imrsim_kmod/dm-imrsim.c,
-- `imr_lsm_clear_zone_compaction_auto_pending_locked` to `imr_lsm_record_zone_compaction_candidate`).
use imr_lsm.Prelude.{
  ℕ, ◌+◌, ◌%◌, Bool, true, false, not, ◌&&◌, ◌||◌, Option, none, some, ltb, leb, ◌==◌,
  if◌then◌else◌, inc64, u32_mod,
}
use imr_lsm.Geometry.{Geometry, total_items}
use imr_lsm.State.{Zone}
use imr_lsm.State.Setup.{ensure_initialized}
use imr_lsm.Device.{Device, ZoneCompaction, cleared}

-- whether the number of a zone is the one that is kept
abbrev pub is_zone : ℕ → Option ℕ → Bool
is_zone zone_idx none = false
is_zone zone_idx (some z) = z == zone_idx

-- `imr_lsm_clear_zone_compaction_auto_pending_locked`; `none` clears whatever zone is pending
unfoldable pub clear_auto_pending : Option ℕ → ZoneCompaction → ZoneCompaction
clear_auto_pending none c = record c { auto_pending = false; auto_pending_zone = none }
clear_auto_pending (some zone_idx) c =
    if is_zone zone_idx c.auto_pending_zone
    then record c { auto_pending = false; auto_pending_zone = none }
    else c

-- `imr_lsm_clear_zone_compaction_candidate_locked`
unfoldable pub clear_candidate : ℕ → ZoneCompaction → ZoneCompaction
unfolding clear_auto_pending
clear_candidate zone_idx c =
    let none_left = record c {
      candidate_zone = none;
      candidate_dest_zone = none;
      candidate_map_size = 0;
      candidate_ready = false;
    } in
    if is_zone zone_idx c.candidate_zone then clear_auto_pending (some zone_idx) none_left else c

-- the destination of a compaction of a zone: the next one, if the device has it
abbrev pub dest_zone : Geometry → ℕ → Option ℕ
dest_zone g zone_idx =
    let dest = (zone_idx + 1) % u32_mod in if ltb dest g.num_zones then some dest else none

unfoldable pub is_ready : Geometry → (ℕ → Zone) → ℕ → Bool
is_ready g zones zone_idx =
    let dest = (zone_idx + 1) % u32_mod in ltb dest g.num_zones && ((zones dest).z_map_size == 0)

-- `imr_lsm_record_zone_compaction_candidate_locked`
unfoldable pub record_candidate : Geometry → Option (ℕ → Zone) → ℕ → ZoneCompaction → ZoneCompaction
record_candidate g none zone_idx c = c
record_candidate g (some zones) zone_idx c =
    let size = (zones zone_idx).z_map_size in
    let ready = is_ready g zones zone_idx in
    let fresh = not (is_zone zone_idx c.candidate_zone) in
    let noted = record c {
      candidate_count = if fresh then inc64 c.candidate_count else c.candidate_count;
      candidate_zone = some zone_idx;
      candidate_dest_zone = dest_zone g zone_idx;
      candidate_map_size = size;
      candidate_ready = ready;
      last_candidate_zone = some zone_idx;
      last_candidate_dest_zone = dest_zone g zone_idx;
      last_candidate_map_size = size;
      last_candidate_ready = ready;
    } in
    if leb g.num_zones zone_idx then c else if ltb size total_items then c else noted

-- `imr_lsm_defer_zone_compaction_auto_run_locked`
unfoldable pub defer_auto_run : ℕ → ZoneCompaction → ZoneCompaction
defer_auto_run zone_idx c =
    if not c.auto_run || c.auto_running
    then c
    else if not (is_zone zone_idx c.candidate_zone) || not c.candidate_ready
    then c
    else if c.auto_pending && is_zone zone_idx c.auto_pending_zone
    then c
    else record c {
      auto_pending_zone = some zone_idx;
      auto_pending = true;
      auto_pending_count = inc64 c.auto_pending_count;
      last_auto_pending_zone = some zone_idx;
    }

-- `imr_lsm_record_zone_compaction_candidate`
unfoldable pub record_zone_candidate : Geometry → ℕ → Device → Device
record_zone_candidate g zone_idx d =
    let c = cleared d.index d.compaction in
    record d {
      index = ensure_initialized d.index;
      compaction = defer_auto_run zone_idx (record_candidate g d.index.zones zone_idx c);
    }

-- `imr_lsm_debugfs_zone_compaction_auto_run_write` with the number that was written, which is the
-- kernel's to parse; a number above one is refused
unfoldable pub write_auto_run : ℕ → Device → Device
write_auto_run enabled d =
    let c = cleared d.index d.compaction in
    let on = record c { auto_run = true } in
    let c' : ZoneCompaction =
      if enabled == 0
      then clear_auto_pending none (record c { auto_run = false })
      else elim (c.candidate_zone) [ none ↦ on | some zone_idx ↦ defer_auto_run zone_idx on ] in
    if ltb 1 enabled then d else record d { index = ensure_initialized d.index; compaction = c' }
