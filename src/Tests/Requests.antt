-- ===== src/Tests/Requests.antt =====
-- Concrete inputs for the theorems on the device.
use imr_lsm.Prelude.{
  ℕ, ◌%◌, ◌^◌, ◌≡◌, refl, true, false, none, some, List, [], ◌∷◌, map, ◌++◌, ◌||◌, ◌+◌, ◌*◌, length,
  arith, if◌then◌else◌, ◌==◌, u64_mod,
}
use imr_lsm.Prelude.Keyed.{find, sorted_find}
use imr_lsm.Geometry.{
  zone_idx_lba, zone_top_pba, zone_bottom_pba, top_track_size, write_block_count,
}
use imr_lsm.Metadata.{Entry, Segment}
use imr_lsm.Levels.{calculate_dynamic_levels, survey, level_total_count}
use imr_lsm.State.{State, Zone}
use imr_lsm.State.Setup.{ensure_initialized}
use imr_lsm.Compaction.{flush_bottom_unsorted, new_segment}
use imr_lsm.Write.{prepare, count_insert}
use imr_lsm.Device.{
  Device, cond_closed, cond_offline, no_compaction, phase_two, phase_three, accepted, rewrite, e_io,
  ZoneCompaction,
}
use imr_lsm.Device.Candidate.{write_auto_run}
use imr_lsm.Device.Relocate.{record_write_mapping_range}
use imr_lsm.Device.Rules.{write_bottom, locate}
use imr_lsm.Device.Places.{IsDistinct, new_sectors, new_sectors-IsDistinct}
use imr_lsm.Device.Rewrites.{over, covered, with_data, write_bottom_lem}
use imr_lsm.Device.Request.{Task, Bio, write_bio, queue_zone, map_request}
use imr_lsm.Device.Queue.{IsQueue, queue_zone-IsQueue}
use imr_lsm.Device.RoundTrip.{IsReady, block_start, first_mapped, locate-record_write_mapping_range}
use imr_lsm.Device.Compact.{
  Disk, compact_zone, compact_refusal, compact_blocks, compact_block, live_pba, copy_block,
}
use imr_lsm.Device.Failures.{metadata, SameBut, compact_zone-KeepsOnError}
use imr_lsm.BlockTable.{empty_builder, builder_add, add_block_entry, place_entry, builder_reserve}
use imr_lsm.Records.{find_latest_record}
use imr_lsm.Compaction.Sound.{IsSound}
use imr_lsm.Device.Output.{OutputStats, no_pass, commit_output}
use imr_lsm.Device.Addresses.{addresses, outputs, is_committed, commit_output-addresses}
use imr_lsm.Device.Segments.{SegmentStats, Keeping, keep_entries, compact_selected_segment}
use imr_lsm.Device.Kept.{compact_selected_segment-IsSound}
use imr_lsm.Device.Retained.{Keeps, keep_entries-Keeps}
use imr_lsm.Tests.Soundness.{sound_state, sound_meta-IsSound}
use imr_lsm.Tests.{table_of_two, disk, disk-IsDefault, tree_two-IsWell, ready_env, two_cached}

-- zone 3 is full and the others are free
abbrev zones_one_full : ℕ → Zone
zones_one_full i = record {
  z_length = 524288;
  z_map_size = if i == 3 then 65536 else 0;
  z_pba_map = λ offset. none;
}

-- the two writes take the last block of the bottom tracks of zone 3 and the first of its top tracks
new_sectors-IsDistinct_example :
    (let ws : List (ℕ × ℕ) = (1572864, 8) ∷ (1572872, 8) ∷ [] in
      let z = record (zones_one_full 2) { z_map_size = 36351 } in
      IsDistinct (new_sectors ready_env 3 phase_two ws z)
      × IsDistinct (new_sectors ready_env 3 phase_three ws z))
unfolding write_block_count
new_sectors-IsDistinct_example =
    new_sectors-IsDistinct ready_env disk-IsDefault 3 (ground arith)
      ((1572864, 8) ∷ (1572872, 8) ∷ []) (record (zones_one_full 2) { z_map_size = 36351 })
      (refl, (refl, tt)) (ground arith)

abbrev automatic : ZoneCompaction
automatic = record no_compaction { auto_run = true }

-- a device whose zone 3 is closed, with data on top track 6, and whose zone 4 is offline
abbrev device_one : Device
device_one = record {
  index = record two_cached { zones = some zones_one_full };
  compaction = automatic;
  conds = λ i. if i == 4 then cond_offline else cond_closed;
  used_blocks = λ i track block. track == 6;
  zone_stats = λ i. record {
    z_write_total = 0;
    z_extra_write_total = 0;
    write_span_zones = 0;
    read_span_zones = 0;
  };
  write_total = 0;
  extra_write_total = 0;
  read_flag = 0;
  write_flag = 0;
  rmw_lba = [];
}

write_bottom_lem_example :
    (let (d', v) = write_bottom disk 3 5 100 device_one in
      (d'.rmw_lba
        ≡ with_data
            (covered 3 5 100 device_one)
            (zone_top_pba disk 3 (5 * top_track_size + over 100))
          ++ with_data
              (covered 3 6 100 device_one)
              (zone_top_pba disk 3 (6 * top_track_size + over 100)))
      × (v ≡ (
          if covered 3 5 100 device_one || covered 3 6 100 device_one then rewrite else accepted))
      × (d'.extra_write_total ≡ (0 + length d'.rmw_lba) % u64_mod))
write_bottom_lem_example =
    write_bottom_lem disk disk-IsDefault 3 (ground arith) device_one 5 100 (omega arith)
      (omega arith) (ground arith)

abbrev one_queued : Task
one_queued = record {
  status_change = false;
  stats_change = false;
  stu_zone_idx = 7 ∷ [];
  stu_zone_idx_gap = 0;
  sts_zone_idx = 0;
}

queue_zone-IsQueue_example : IsQueue (queue_zone 300 one_queued)
queue_zone-IsQueue_example =
    queue_zone-IsQueue 300 one_queued (record { spaced = (tt, tt); bounded = omega arith })

-- a disk whose writes fail
abbrev broken_disk : Disk
broken_disk = record {
  attached = true;
  page_given = true;
  page_size = 4096;
  read_ok = λ sector. true;
  write_ok = λ sector. false;
  blocks = λ sector. 0;
}

-- the automatic runs are turned on, zone 3 is written, and the worker finds nothing that waits
abbrev fresh_device : Device
fresh_device = record device_one { compaction = no_compaction }

abbrev switched_device : Device
switched_device = write_auto_run 1 fresh_device

abbrev write_to_3 : Bio
write_to_3 = record { kind = write_bio; direct = false; lba = 1572864; sectors = 8 }

abbrev written_device : Device
written_device =
    (map_request ready_env phase_two 0 (λ sector. sector) write_to_3 switched_device one_queued).0

-- zone 3 is full, its first block is on the first top track and its second on the block of the output
-- where the first one goes; of the output only that block can be written
abbrev two_blocks : Device
two_blocks = record device_one {
  index = record two_cached {
    zones = some (λ i. record (zones_one_full i) {
      z_pba_map = λ offset. if offset == 0 then some 0 else if offset == 1 then some 456 else none;
    });
  };
}

abbrev half_broken : Disk
half_broken = record broken_disk {
  write_ok = λ sector. sector == 1576512;
  blocks = λ sector. sector;
}

-- it fails, after one block was copied
half_broken_fails : (compact_zone ready_env 3 half_broken two_blocks).2 ≡ some e_io
unfolding compact_zone compact_refusal compact_blocks compact_block live_pba copy_block builder_add
    find_latest_record zone_bottom_pba sorted_find add_block_entry place_entry builder_reserve
half_broken_fails = refl

half_broken_copies :
    (compact_zone ready_env 3 half_broken two_blocks).0.compaction.last_result.copied_entries ≡ 1
unfolding compact_zone compact_refusal compact_blocks compact_block live_pba copy_block builder_add
    find_latest_record zone_bottom_pba sorted_find add_block_entry place_entry builder_reserve
half_broken_copies = refl

compact_zone-KeepsOnError_example :
    (let (d', disk', e) = compact_zone ready_env 3 half_broken two_blocks in
      (metadata d' ≡ metadata two_blocks)
      × (d'.compaction.last_result.error ≡ some e_io)
      × SameBut ready_env 3 1 half_broken disk')
unfolding compact_zone compact_refusal compact_blocks compact_block live_pba copy_block builder_add
    find_latest_record zone_bottom_pba sorted_find add_block_entry place_entry builder_reserve
compact_zone-KeepsOnError_example = compact_zone-KeepsOnError ready_env 3 half_broken two_blocks

-- the state in which the index takes the record of the first block of zone 2
abbrev taking : State
taking = count_insert ready_env (first_mapped ready_env 2 1048576 1052224 device_one).index

taking-IsReady : IsReady ready_env 131072 taking
unfolding ensure_initialized prepare flush_bottom_unsorted calculate_dynamic_levels survey
    level_total_count find
taking-IsReady = record {
  on = refl;
  well = tree_two-IsWell;
  past = λ n here. ground arith;
  room = ground arith;
  flushed = refl;
  node = refl;
  tree_node = refl;
}

locate-record_write_mapping_range_example :
    (locate ready_env 2 1048578 zones_one_full
      (record_write_mapping_range ready_env 2 1048578 1052226 6 device_one).0).1
    ≡ some (block_start disk 1052226 + 1048578 % 2 ^ 3)
unfolding zone_idx_lba write_block_count
locate-record_write_mapping_range_example =
    locate-record_write_mapping_range ready_env 2 1048578 1052226 6 zones_one_full device_one
      disk-IsDefault (ground arith, ground arith) refl (ground arith) taking-IsReady

abbrev no_output_stats : OutputStats
no_output_stats = record {
  plan_count = 0;
  plan_entry_count = 0;
  plan_missing_count = 0;
  last_plan = no_pass;
  commit_count = 0;
  commit_entry_count = 0;
  commit_already_count = 0;
  commit_missing_count = 0;
  last_commit = no_pass;
  copy_count = 0;
  copy_entry_count = 0;
  copy_failed_count = 0;
  last_copy = no_pass;
  last_copy_error = none;
}

-- every entry of the index is mapped to an output
abbrev mapped_state : State
mapped_state = record sound_state {
  meta = record (sound_state.meta) {
    segments =
        map
          (λ (x : Segment). record x {
            block_table =
                map
                  (λ (e : Entry). record e {
                    copy = record (e.copy) { output_mapped = true; output_pba = 5000 };
                  })
                  x.block_table;
          })
          sound_state.meta.segments;
  };
}

commit_output-addresses_example :
    (let r = commit_output ready_env 2 broken_disk mapped_state no_output_stats in
      addresses r.index.meta.segments ≡ (
        if is_committed 2 r.error
        then outputs mapped_state.meta.segments
        else addresses mapped_state.meta.segments))
commit_output-addresses_example =
    commit_output-addresses ready_env 2 broken_disk mapped_state no_output_stats

abbrev no_segment_stats : SegmentStats
no_segment_stats = record {
  execute_count = 0;
  no_candidate_count = 0;
  last_from_id = none;
  last_to_id = none;
  last_input_entries = 0;
  last_live_entries = 0;
  last_dropped_entries = 0;
}

abbrev keeping_none : Keeping
keeping_none = record { builder = empty_builder; live = 0; dropped = 0; allocs = 0 }

keep_entries-Keeps_example :
    Keeps ready_env sound_state 0 table_of_two keeping_none
      (keep_entries ready_env sound_state 0 table_of_two keeping_none)
unfolding find
keep_entries-Keeps_example =
    keep_entries-Keeps ready_env sound_state 0 table_of_two keeping_none
      ((omega arith, tt), (tt, tt)) (record { ascending = tt; fits = omega arith })
      (refl, (refl, tt))

compact_selected_segment-IsSound_example :
    IsSound
      (compact_selected_segment ready_env broken_disk sound_state no_output_stats
        no_segment_stats).output.index.meta
unfolding new_segment
compact_selected_segment-IsSound_example =
    compact_selected_segment-IsSound ready_env broken_disk sound_state no_output_stats
      no_segment_stats sound_meta-IsSound (ground arith, tt)
