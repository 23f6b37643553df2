-- ===== src/Device/Compact.antt =====
-- The compaction of a full zone (imrsim_kmod/dm-imrsim.c, `imr_lsm_copy_zone_compaction_block`,
-- `imr_lsm_compact_zone_locked`, `imr_lsm_auto_run_zone_compaction_locked`,
-- `imr_lsm_zone_compaction_auto_work`, `imr_lsm_seed_full_zone_locked`). The disk below the target, its
-- pages and their reads and writes are the kernel's: `Disk` says which of them succeed and what a block
-- holds.
use imr_lsm.Prelude.{
  sub64, ℕ, zero, suc, ◌+◌, ◌-◌, ◌*◌, ◌/◌, ◌%◌, ◌^◌, Bool, true, false, not, ◌||◌, Option, none,
  some, List, [], ◌∷◌, ltb, leb, ◌==◌, if◌then◌else◌, inc64, u32_mod, u64_mod,
}
use imr_lsm.Geometry.{
  Geometry, total_items, zone_idx_lba, zone_key_start, zone_bottom_pba, zone_top_pba,
}
use imr_lsm.ReadTree.Defs.{tree_update}
use imr_lsm.Metadata.{Entry, Segment, Code, success, max_level, track_bottom}
use imr_lsm.BlockTable.{Builder, empty_builder, builder_add}
use imr_lsm.Records.{find_latest_record}
use imr_lsm.Validity.{recalculate_invalid_stats}
use imr_lsm.State.{Meta, State, Env, Zone, update}
use imr_lsm.Compaction.{append_segment}
use imr_lsm.Device.{
  Device, Errno, e_invalid, e_no_space, e_busy, e_unsupported, e_no_memory, e_no_device, e_io,
  e_no_data, e_index, Result, as_entry,
}
use imr_lsm.Device.Candidate.{is_zone, clear_auto_pending, clear_candidate, record_candidate}
use imr_lsm.Device.Relocate.{bottom_blocks}

-- the disk below: whether it is attached, whether a page is given and its size, which reads and writes
-- succeed, and the block at each sector
pub record Disk : Type 0 where
  pub attached : Bool
  pub page_given : Bool
  pub page_size : ℕ
  pub read_ok : ℕ → Bool
  pub write_ok : ℕ → Bool
  pub blocks : ℕ → ℕ

-- `imr_lsm_copy_zone_compaction_block`: whether the block was copied, and the error
unfoldable pub copy_block : ℕ → ℕ → Disk → Disk × Bool × Option Errno
copy_block source dest disk =
    if source == dest
    then (disk, false, none)
    else if not disk.attached
    then (disk, false, some e_no_device)
    else if not (disk.read_ok source)
    then (disk, false, some e_io)
    else if not (disk.write_ok dest)
    then (disk, false, some e_io)
    else (record disk { blocks = update disk.blocks dest (disk.blocks source) }, true, none)

-- what the loop over the blocks of a zone carries
pub record Copying : Type 0 where
  pub builder : Builder
  pub live : ℕ
  pub skipped : ℕ
  pub copied : ℕ
  pub failed : ℕ
  pub output_start : ℕ
  pub output_end : ℕ
  pub timestamp : ℕ
  pub allocs : ℕ
  pub disk : Disk

module _ (env : Env) (source_zone : ℕ) where
  abbrev dest_zone1 : ℕ
  dest_zone1 = (source_zone + 1) % u32_mod

  -- where the newest record of a block is: as the index says or, where it says nothing, the zone map
  unfoldable pub live_pba : Meta → Zone → ℕ → Option ℕ
  live_pba m z offset =
      let g = env.geometry in
      let latest = find_latest_record ((zone_key_start g source_zone + offset) % u64_mod) m in
      if latest.found
      then (if latest.valid then some latest.pba else none)
      else elim (z.z_pba_map offset) [
        | none ↦ none
        | some e ↦ some ((zone_idx_lba g source_zone + e * 2 ^ g.block_shift) % u64_mod)
      ]

  -- the n-th block of the output: the bottom tracks of the zone, then those of the next one
  abbrev pub dest_pba : ℕ → ℕ
  dest_pba n =
      if ltb n bottom_blocks
      then zone_bottom_pba env.geometry source_zone n
      else zone_bottom_pba env.geometry dest_zone1 (n - bottom_blocks)

  abbrev pub then_count : ℕ → Copying → Builder × Code → Copying × Option Errno
  then_count dest c (b, success) = (
    record c {
      builder = b;
      live = suc c.live;
      output_start = if c.live == 0 then dest else c.output_start;
      output_end = (dest + 2 ^ env.geometry.block_shift - 1) % u64_mod;
    },
    none,
  )
  then_count dest c (b, code) = (record c { builder = b }, some (e_index code))

  abbrev pub then_add : ℕ → ℕ → Copying → Disk × Bool × Option Errno → Copying × Option Errno
  then_add offset dest c (disk, copied, some e) =
      (record c { disk = disk; failed = suc c.failed }, some e)
  then_add offset dest c (disk, copied, none) =
      let timestamp = inc64 c.timestamp in
      let key = (zone_key_start env.geometry source_zone + offset) % u64_mod in
      then_count dest
        (record c {
          disk = disk;
          copied = if copied then suc c.copied else c.copied;
          timestamp = timestamp;
          allocs = suc c.allocs;
        })
        (builder_add env.compaction_threshold (env.alloc c.allocs) key dest source_zone true
          timestamp c.builder)

  -- one block of the zone
  unfoldable pub compact_block : Meta → Zone → ℕ → Copying → Copying × Option Errno
  compact_block m z offset c =
      let dest = dest_pba c.live in
      elim (live_pba m z offset) [
        | none ↦ (record c { skipped = suc c.skipped }, none)
        | some pba ↦
            if leb (2 * bottom_blocks) c.live
            then (c, some e_no_space)
            else then_add offset dest c (copy_block pba dest c.disk)
      ]

  -- the loop, with `left` blocks to go from `offset`
  unfoldable pub compact_blocks : ℕ → Meta → Zone → ℕ → Copying → Copying × Option Errno
  compact_blocks zero m z offset c = (c, none)
  compact_blocks (suc left) m z offset c =
      let (c', error) = compact_block m z offset c in
      elim error [ none ↦ compact_blocks left m z (suc offset) c' | some e ↦ (c', some e) ]

  -- the state with the timestamps and the allocations that the loop used
  abbrev pub used_up : Copying → State → State
  used_up c s = record s { meta = record (s.meta) { timestamp = c.timestamp }; allocs = c.allocs }

  -- the zone map and the read tree take the entries of the new segment
  unfoldable pub take_entries : List Entry → (ℕ → Option ℕ) → State → (ℕ → Option ℕ) × State
  take_entries [] pba_map s = (pba_map, s)
  take_entries (e ∷ es) pba_map s =
      let g = env.geometry in
      let m = s.meta in
      let offset = sub64 e.key (zone_key_start g source_zone) % u32_mod in
      take_entries es
        (update pba_map offset
          (as_entry (sub64 e.pba (zone_idx_lba g source_zone) / 2 ^ g.block_shift)))
        (record s {
          meta = record m {
            tree = tree_update env.rb (env.alloc s.allocs) e.key e.pba e.valid e.timestamp m.tree;
          };
          allocs = suc s.allocs;
        })

  -- the table of the last segment of the list
  unfoldable pub tail_table : List Segment → List Entry
  tail_table [] = []
  tail_table (s ∷ []) = s.block_table
  tail_table (s ∷ t ∷ ss) = tail_table (t ∷ ss)

  abbrev no_used_blocks : ℕ → (ℕ → ℕ → ℕ → Bool) → ℕ → ℕ → ℕ → Bool
  no_used_blocks zone_idx used_blocks = update used_blocks zone_idx (λ track block. false)

  -- the result as it is recorded
  abbrev pub result_of : Copying → Option Errno → Result
  result_of c error = record {
    source_zone = some source_zone;
    dest_zone0 = some source_zone;
    dest_zone1 = some dest_zone1;
    input_entries = total_items;
    live_entries = c.live;
    skipped_entries = c.skipped;
    copied_entries = c.copied;
    failed_entries = c.failed;
    output_pba_start = c.output_start;
    output_pba_end = c.output_end;
    error = error;
  }

  -- the labels `out_release` and `out_stats`
  abbrev pub failed_with : Errno → Copying → Device → Device × Disk × Option Errno
  failed_with e c d = (
    record d {
      index = used_up c d.index;
      compaction = record (d.compaction) {
        failed_count = inc64 d.compaction.failed_count;
        last_result = result_of c (some e);
      };
    },
    c.disk,
    some e,
  )

  -- after the segment was appended: the maps, the tracks, the statistics and the candidate
  unfoldable pub finish_zone : Copying → (ℕ → Zone) → State → Device → Device × Disk × Option Errno
  finish_zone c zones s d =
      let (pba_map, s') = take_entries (tail_table s.meta.segments) (λ _. none) s in
      let source = record (zones source_zone) {
        z_pba_map = pba_map;
        z_map_size = if ltb bottom_blocks c.live then bottom_blocks else c.live;
      } in
      let zones' = update zones source_zone source in
      let dest = record (zones' dest_zone1) { z_map_size = c.live - bottom_blocks } in
      let zones'' = some (update zones' dest_zone1 dest) in
      let counted = record (d.compaction) {
        compaction_count = inc64 d.compaction.compaction_count;
        last_result = result_of c none;
      } in
      (
        record d {
          index = record s' {
            zones = zones'';
            meta = recalculate_invalid_stats env.geometry zones'' s'.meta;
          };
          used_blocks = no_used_blocks dest_zone1 (no_used_blocks source_zone d.used_blocks);
          compaction = clear_candidate source_zone counted;
        },
        c.disk,
        none,
      )

  abbrev pub then_finish :
      Copying → (ℕ → Zone) → Device → State × Code → Device × Disk × Option Errno
  then_finish c zones d (s, success) = finish_zone c zones s d
  then_finish c zones d (s, code) =
      failed_with (e_index code) (record c { timestamp = s.meta.timestamp; allocs = s.allocs })
        (record d { index = s })

  abbrev pub then_append_segment :
      (ℕ → Zone) → Device → Copying × Option Errno → Device × Disk × Option Errno
  then_append_segment zones d (c, some e) = failed_with e c d
  then_append_segment zones d (c, none) =
      if c.live == 0
      then failed_with e_no_data c d
      else then_finish c zones d
          (append_segment env max_level track_bottom c.builder (used_up c d.index))

  -- why a compaction does not start
  unfoldable pub compact_refusal : (ℕ → Zone) → Disk → Option Errno
  compact_refusal zones disk =
      let g = env.geometry in
      if leb g.num_zones source_zone
      then some e_invalid
      else if leb g.num_zones dest_zone1
      then some e_no_space
      else if ltb (zones source_zone).z_map_size total_items
      then some e_invalid
      else if ltb 0 (zones dest_zone1).z_map_size
      then some e_busy
      else if ltb disk.page_size (2 ^ g.block_shift * 2 ^ 9 % u32_mod)
      then some e_unsupported
      else if not disk.page_given
      then some e_no_memory
      else none

  abbrev pub start_copying : Disk → Device → Copying
  start_copying disk d = record {
    builder = empty_builder;
    live = 0;
    skipped = 0;
    copied = 0;
    failed = 0;
    output_start = 0;
    output_end = 0;
    timestamp = d.index.meta.timestamp;
    allocs = d.index.allocs;
    disk = disk;
  }

  -- `imr_lsm_compact_zone_locked`. The test whether a zone has more blocks than two zones have on their
  -- bottom tracks is one of constants, and false.
  unfoldable pub compact_zone : Disk → Device → Device × Disk × Option Errno
  compact_zone disk d =
      let start = start_copying disk d in
      elim (d.index.zones) [
        | none ↦ failed_with e_invalid start d
        | some zones ↦ elim (compact_refusal zones disk) [
          | some e ↦ failed_with e start d
          | none ↦
              then_append_segment zones d
                (compact_blocks total_items d.index.meta (zones source_zone) 0 start)
        ]
      ]

  -- `imr_lsm_auto_run_zone_compaction_locked`
  unfoldable pub auto_run_zone : Disk → Device → Device × Disk × Option Errno
  auto_run_zone disk d =
      let c = d.compaction in
      let running = record c { auto_running = true; last_auto_run_zone = some source_zone } in
      let (d', disk', error) = compact_zone disk (record d { compaction = running }) in
      let c' = d'.compaction in
      let failed : Bool = elim error [ none ↦ false | some e ↦ true ] in
      let ended = record c' {
        last_auto_run_error = error;
        auto_run_count = if failed then c'.auto_run_count else inc64 c'.auto_run_count;
        auto_run_failed_count =
            if failed then inc64 c'.auto_run_failed_count else c'.auto_run_failed_count;
        auto_running = false;
      } in
      if not c.auto_run || c.auto_running
      then (d, disk, none)
      else if not (is_zone source_zone c.candidate_zone) || not c.candidate_ready
      then (d, disk, none)
      else (record d' { compaction = ended }, disk', error)

-- `imr_lsm_zone_compaction_auto_work`
unfoldable pub auto_work : Env → Disk → Device → Device × Disk
auto_work env disk d =
    let c = d.compaction in
    let taken = record d { compaction = clear_auto_pending c.auto_pending_zone c } in
    let zone_idx : ℕ = elim (c.auto_pending_zone) [ none ↦ u32_mod - 1 | some z ↦ z ] in
    let (d', disk', error) = auto_run_zone env zone_idx disk taken in
    if not d.index.meta.initialized || (not c.auto_run || not c.auto_pending)
    then (d, disk)
    else (d', disk')

-- the map that `imr_lsm_seed_full_zone_locked` gives a zone
abbrev seeded : Geometry → ℕ → ℕ → Option ℕ
seeded g zone_idx offset =
    let pba =
      if ltb offset bottom_blocks
      then zone_bottom_pba g zone_idx offset
      else zone_top_pba g zone_idx (offset - bottom_blocks) in
    if ltb offset total_items
    then as_entry (sub64 pba (zone_idx_lba g zone_idx) / 2 ^ g.block_shift)
    else none

-- `imr_lsm_seed_full_zone_locked`
unfoldable pub seed_full_zone : Geometry → ℕ → Device → Device × Option Errno
seed_full_zone g zone_idx d = elim (d.index.zones) [
  | none ↦ (d, some e_invalid)
  | some zones ↦
      let z = record (zones zone_idx) { z_pba_map = seeded g zone_idx; z_map_size = total_items } in
      let zones' = some (update zones zone_idx z) in
      if leb g.num_zones zone_idx then (d, some e_invalid) else (
        record d {
          index = record (d.index) { zones = zones' };
          used_blocks = update d.used_blocks zone_idx (λ track block. true);
          compaction = record_candidate g zones' zone_idx d.compaction;
        },
        none,
      )
]
