-- ===== src/SortedLevel.antt =====
-- The sorted list of a level (imrsim_kmod/dm-imrsim.c, `imr_lsm_sorted_find_locked`,
-- `imr_lsm_sorted_upsert_*`).
pub mod Upsert
use imr_lsm.Prelude.{ℕ, Bool, Option, none, some, List, ltb, ◌==◌, if◌then◌else◌, inc32}
use imr_lsm.Prelude.Keyed.{sorted_find, insert, modify}
use imr_lsm.Metadata.{Node, Level, Code, success, enomem}

abbrev pub node_key : Node → ℕ
node_key n = n.key

-- the write to the node found, if the new record is newer
abbrev pub overwrite : Node → Node → Node
overwrite new old =
    if ltb old.timestamp new.timestamp
    then record old {
      pba = new.pba;
      zone_idx = new.zone_idx;
      valid = new.valid;
      timestamp = new.timestamp;
    }
    else old

-- `imr_lsm_sorted_upsert_value_locked`, whose five values are the fields of a node; `allocated` says
-- whether its `kzalloc` succeeds
unfoldable pub sorted_upsert : Bool → Node → Level → Level × Code
sorted_upsert allocated new l = elim (sorted_find node_key new.key l.sorted) [
  | some old ↦ (record l { sorted = modify node_key new.key (overwrite new) l.sorted }, success)
  | none ↦
      if allocated
      then (
        record l { sorted = insert node_key new l.sorted; sorted_count = inc32 l.sorted_count },
        success,
      )
      else (l, enomem)
]
