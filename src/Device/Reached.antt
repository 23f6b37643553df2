-- ===== src/Device/Reached.antt =====
-- The operations of the device and the zone that waits for its compaction, as a step relation.
use imr_lsm.Prelude.{ℕ, ◌≡◌, Bool, true, false, if◌then◌else◌}
use imr_lsm.State.{State, Env}
use imr_lsm.Device.{Device, no_compaction, Phase}
use imr_lsm.Device.Candidate.{write_auto_run}
use imr_lsm.Device.Compact.{Disk, compact_zone, auto_work, seed_full_zone}
use imr_lsm.Device.Request.{Bio, Task, map_request}
use imr_lsm.Device.Pending.{IsConsistent}

module _ (env : Env) where
  abbrev Holds : Device → Type 0
  Holds d = IsConsistent env.geometry d.compaction

  either_Holds :
      {R : Type 0}
      → (device : R → Device) (b : Bool) (x y : R) → Holds (device x)
      → Holds (device y)
      → Holds (device (if b then x else y))
  either_Holds device true x y h k = h
  either_Holds device false x y h k = k

  -- What happens to the device: a request of the device mapper, a compaction of a zone, the work that waits for
  -- the worker, a zone filled for a test, and the automatic runs turned on or off.
  pub data Step (d : Device) : Device → Type 0 where
    requested :
        (phase : Phase) (start : ℕ) (target_offset : ℕ → ℕ) (bio : Bio) (t : Task)
        → Step d (map_request env phase start target_offset bio d t).0
    compacted : (zone_idx : ℕ) (disk : Disk) → Step d (compact_zone env zone_idx disk d).0
    worked : (disk : Disk) → Step d (auto_work env disk d).0
    zone_seeded : (zone_idx : ℕ) → Step d (seed_full_zone env.geometry zone_idx d).0
    switched : (enabled : ℕ) → Step d (write_auto_run enabled d)

  -- the devices that operations make of one whose index was just initialized
  pub data Reachable : Device → Type 0 where
    initial : (d : Device) → d.compaction ≡ no_compaction → Reachable d
    next : (d d' : Device) → Reachable d → Step d d' → Reachable d'
