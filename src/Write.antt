-- ===== src/Write.antt =====
-- The writes of the index: insertions, tombstones, discards, and the zone map
-- (imrsim_kmod/dm-imrsim.c, `imr_lsm_append_unsorted_node_locked` to
-- `imrsim_lsm_delete_lba_range_locked`).
pub mod Sound
use imr_lsm.Prelude.{
  ℕ, zero, suc, ◌+◌, ◌-◌, ◌*◌, ◌/◌, ◌%◌, ◌^◌, Bool, true, false, not, Option, none, some, ◌∷◌, leb,
  ◌==◌, if◌then◌else◌, inc32, inc64, u32_mod,
}
use imr_lsm.Geometry.{total_items, write_block_count}
use imr_lsm.Metadata.{
  Node, Code, success, enomem, einval, out_range, levels_total, default_unsorted_level,
}
use imr_lsm.ReadTree.Defs.{tree_update, tree_remove}
use imr_lsm.Levels.{level_capacity, calculate_dynamic_levels}
use imr_lsm.Validity.{recalculate_invalid_stats}
use imr_lsm.Compaction.{compact_level, run_compactions, flush_bottom_unsorted}
use imr_lsm.State.{State, Env, Zone, update}
use imr_lsm.State.Setup.{ensure_initialized}

module _ (env : Env) where
  -- the new node in front of the unsorted list of the level, with the next timestamp, and its record
  -- in the read tree
  unfoldable pub push_node : ℕ → ℕ → ℕ → ℕ → Bool → State → State
  push_node level key pba zone_idx valid s =
      let m = s.meta in
      let timestamp = inc64 m.timestamp in
      let l = m.levels level in
      let n : Node = record {
        key = key;
        pba = pba;
        zone_idx = zone_idx;
        valid = valid;
        timestamp = timestamp;
      } in
      record s {
        meta = record m {
          timestamp = timestamp;
          levels =
              update m.levels level
                (record l { unsorted = n ∷ l.unsorted; unsorted_count = inc32 l.unsorted_count });
          tree = tree_update env.rb (env.alloc s.allocs) key pba valid timestamp m.tree;
        };
        allocs = suc s.allocs;
      }

  abbrev pub recalculated : State × Code → State × Code
  recalculated (s, success) =
      (record s { meta = recalculate_invalid_stats env.geometry s.zones s.meta }, success)
  recalculated (s, code) = (s, code)

  abbrev pub then_run : State × Code → State × Code
  then_run (s, success) = recalculated (run_compactions env s)
  then_run (s, code) = (s, code)

  -- `imr_lsm_append_unsorted_node_locked`
  unfoldable pub append_unsorted_node : ℕ → ℕ → ℕ → ℕ → Bool → State → State × Code
  append_unsorted_node level key pba zone_idx valid s =
      let pushed = push_node level key pba zone_idx valid (record s { allocs = suc s.allocs }) in
      let m = pushed.meta in
      let full =
        leb (level_capacity env.compaction_threshold m.level_max_entries level)
          (m.levels level).unsorted_count in
      if not (env.alloc s.allocs)
      then (record s { allocs = suc s.allocs }, enomem)
      else if full
      then then_run (compact_level env level pushed)
      else then_run (pushed, success)

  -- what `imr_lsm_append_unsorting_node` and `imr_lsm_delete` do first
  unfoldable pub prepare : State → State × Code
  prepare s =
      let s' = ensure_initialized s in
      flush_bottom_unsorted env
        (record s' { meta = calculate_dynamic_levels env.compaction_threshold s'.meta })

  abbrev pub count_write : State × Code → State × Code
  count_write (s, success) =
      let m = s.meta in
      let w = record (m.stats.write) { write_count = inc64 m.stats.write.write_count } in
      (record s { meta = record m { stats = record (m.stats) { write = w } } }, success)
  count_write (s, code) = (s, code)

  abbrev pub then_append : ℕ → ℕ → ℕ → ℕ → State × Code → State × Code
  then_append level key pba zone_idx (s, success) =
      let target = if level == default_unsorted_level then s.meta.active_write_level else level in
      count_write (append_unsorted_node target key pba zone_idx true s)
  then_append level key pba zone_idx (s, code) = (s, code)

  -- `imr_lsm_append_unsorting_node`, which `imr_lsm_unsorted_write` and `imr_lsm_insert` call
  unfoldable pub insert : ℕ → ℕ → ℕ → ℕ → State → State × Code
  insert level key pba zone_idx s =
      if leb levels_total level then (s, einval) else then_append level key pba zone_idx (prepare s)

  abbrev pub count_insert : State → State
  count_insert s =
      let s' = ensure_initialized s in
      let m = s'.meta in
      let w = record (m.stats.write) {
        record_insert_count = inc64 m.stats.write.record_insert_count;
      } in
      record s' { meta = record m { stats = record (m.stats) { write = w } } }

  -- `imr_lsm_record_insert`
  unfoldable pub record_insert : ℕ → ℕ → ℕ → State → State × Code
  record_insert zone_idx logical_lba physical_lba s =
      insert default_unsorted_level (logical_lba / 2 ^ env.geometry.block_shift) physical_lba
        zone_idx (count_insert s)

  -- `imr_lsm_record_logical_write`
  unfoldable pub record_logical_write : State → State
  record_logical_write s =
      let s' = ensure_initialized s in
      let m = s'.meta in
      let w = record (m.stats.write) {
        logical_write_count = inc64 m.stats.write.logical_write_count;
      } in
      record s' { meta = record m { stats = record (m.stats) { write = w } } }

  abbrev pub count_delete : State × Code → State × Code
  count_delete (s, success) =
      let m = s.meta in
      let w = record (m.stats.write) { delete_count = inc64 m.stats.write.delete_count } in
      (record s { meta = record m { stats = record (m.stats) { write = w } } }, success)
  count_delete (s, code) = (s, code)

  abbrev pub then_tombstone : ℕ → State × Code → State × Code
  then_tombstone key (s, success) =
      let m = s.meta in
      let removed = record s { meta = record m { tree = tree_remove env.rb key m.tree } } in
      count_delete (append_unsorted_node m.active_write_level key 0 0 false removed)
  then_tombstone key (s, code) = (s, code)

  -- `imr_lsm_delete`; it returns 1 where this returns `success`
  unfoldable pub delete : ℕ → State → State × Code
  delete key s = then_tombstone key (prepare s)

  -- a write to `zone_status[zone_idx].z_pba_map[block_offset]`
  abbrev pub set_zone_map : ℕ → ℕ → Option ℕ → (ℕ → Zone) → ℕ → Zone
  set_zone_map zone_idx block_offset entry zones =
      let z = zones zone_idx in
      update zones zone_idx (record z { z_pba_map = update z.z_pba_map block_offset entry })

  abbrev then_unmap : ℕ → ℕ → (ℕ → Zone) → State × Code → State × Code
  then_unmap zone_idx block_offset zones (s, success) =
      (record s { zones = some (set_zone_map zone_idx block_offset none zones) }, success)
  then_unmap zone_idx block_offset zones (s, code) = (s, code)

  -- `imrsim_lsm_delete_key_locked`
  unfoldable pub delete_key : ℕ → State → State × Code
  delete_key key s =
      let g = env.geometry in
      let zone_idx = key / 2 ^ g.zone_shift % u32_mod in
      let block_offset = key - zone_idx * 2 ^ g.zone_shift in
      elim (s.zones) [
        | none ↦ (s, out_range)
        | some zones ↦
            if leb g.num_zones zone_idx
            then (s, out_range)
            else if leb total_items block_offset
            then (s, out_range)
            else then_unmap zone_idx block_offset zones (delete key s)
      ]

  -- the loop of `imrsim_lsm_delete_lba_range_locked`, with `left` blocks to go
  unfoldable pub delete_blocks : ℕ → ℕ → State → State × Code
  delete_blocks zero key s = (s, success)
  delete_blocks (suc left) key s =
      let (s', code) = delete_key key s in
      elim code [ success ↦ delete_blocks left (key + 1) s' | failed ↦ (s', failed) ]

  -- `imrsim_lsm_delete_lba_range_locked`
  unfoldable pub delete_lba_range : ℕ → ℕ → State → State × Code
  delete_lba_range lba sectors =
      delete_blocks (write_block_count env.geometry lba sectors)
        (lba / 2 ^ env.geometry.block_shift)

  -- `imr_lsm_record_discard_bio`
  unfoldable pub record_discard_bio : ℕ → ℕ → State → State
  record_discard_bio lba sectors s =
      let s' = ensure_initialized s in
      let m = s'.meta in
      let d = record (m.stats.discard) {
        bio_count = inc64 m.stats.discard.bio_count;
        last_lba = lba;
        last_sectors = sectors;
        last_error = success;
      } in
      record s' { meta = record m { stats = record (m.stats) { discard = d } } }

  -- `imr_lsm_record_discard_result`
  unfoldable pub record_discard_result : Code → State → State
  record_discard_result code s =
      let s' = ensure_initialized s in
      let m = s'.meta in
      let old = m.stats.discard in
      let failed : Bool = elim code [ success ↦ false | _ ↦ true ] in
      let d = record old {
        last_error = code;
        delete_failed_count =
            if failed then inc64 old.delete_failed_count else old.delete_failed_count;
        delete_count = if failed then old.delete_count else inc64 old.delete_count;
      } in
      record s' { meta = record m { stats = record (m.stats) { discard = d } } }
