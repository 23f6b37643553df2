-- ===== src/Device/Relocate.antt =====
-- Where a logical write goes: the next free block of the zone, on its bottom tracks first, and the
-- mapping that is recorded (imrsim_kmod/dm-imrsim.c, `imrsim_record_write_mapping_range` and the first
-- half of `imrsim_write_rule_check`).
use imr_lsm.Prelude.{
  sub64, ℕ, zero, suc, ◌+◌, ◌-◌, ◌*◌, ◌/◌, ◌%◌, ◌^◌, Bool, true, false, Option, none, some, ltb,
  leb, if◌then◌else◌, u32_mod, u64_mod,
}
use imr_lsm.Geometry.{
  Geometry, top_track_num_total, top_track_size, bottom_track_size, total_items, zone_idx_lba,
  write_block_count,
}
use imr_lsm.Metadata.{Code, success}
use imr_lsm.State.{Env, Zone, update}
use imr_lsm.Write.{record_insert, set_zone_map}
use imr_lsm.Device.{
  Device, Phase, phase_one, phase_two, phase_three, Verdict, accepted, write_out_range,
  write_across, refused, as_entry, cleared,
}
use imr_lsm.Device.Candidate.{record_zone_candidate}

-- the number of blocks of the bottom tracks: `boundary`
abbrev pub bottom_blocks : ℕ
bottom_blocks = bottom_track_size * top_track_num_total

module _ (g : Geometry) where
  -- the sector of the n-th block of the bottom tracks of a zone that starts at `zlba`
  unfoldable pub bottom_sector : ℕ → ℕ → ℕ
  bottom_sector zlba n =
      let track = n / bottom_track_size % u32_mod in
      let before =
        ((track + 1) * top_track_size + track * bottom_track_size) * 2 ^ g.block_shift % u32_mod in
      let within = n % bottom_track_size * 2 ^ g.block_shift % u32_mod in
      (zlba + before + within) % u64_mod

  -- the sector of block `block` of the top track `track`
  unfoldable pub top_sector : ℕ → ℕ → ℕ → ℕ
  top_sector zlba track block =
      let before = track * (top_track_size + bottom_track_size) * 2 ^ g.block_shift % u32_mod in
      (zlba + before + block * 2 ^ g.block_shift) % u64_mod

  -- The place of a new write in a zone of which `size` blocks are in use: whether it is on a top track,
  -- and its sector. In the first phase nothing is moved.
  unfoldable pub place : Phase → ℕ → ℕ → ℕ → Bool × ℕ
  place phase_one zlba size lba = (false, lba)
  place phase_two zlba size lba =
      let above = size - bottom_blocks in
      if ltb size bottom_blocks
      then (false, bottom_sector zlba size)
      else (true, top_sector zlba (above / top_track_size % u32_mod) (above % top_track_size))
  place phase_three zlba size lba =
      let above = size - bottom_blocks in
      let half = top_track_size * top_track_num_total / 2 in
      let later = above - half in
      if ltb size bottom_blocks
      then (false, bottom_sector zlba size)
      else if ltb size (bottom_blocks + half)
      then (true, top_sector zlba (2 * (above / top_track_size) % u32_mod) (above % top_track_size))
      else (
        true,
        top_sector zlba ((2 * (later / top_track_size) + 1) % u32_mod) (later % top_track_size),
      )

-- a write after its relocation: the sector that it goes to and, of a new write, whether that is on a
-- top track
pub record Moved : Type 0 where
  pub device : Device
  pub verdict : Verdict
  pub sector : ℕ
  pub top : Option Bool

module _ (env : Env) where
  -- `imr_lsm_record_insert_and_check_zone_full`
  abbrev pub then_check_full : ℕ → Device × Code → Device × Code
  then_check_full zone_idx (d, success) = (record_zone_candidate env.geometry zone_idx d, success)
  then_check_full zone_idx (d, code) = (d, code)

  unfoldable pub insert_and_check_full : ℕ → ℕ → ℕ → Device → Device × Code
  insert_and_check_full zone_idx logical_lba physical_lba d =
      let (s, code) = record_insert env zone_idx logical_lba physical_lba d.index in
      then_check_full zone_idx
        (record d { index = s; compaction = cleared d.index d.compaction }, code)

  -- the zone map's entry for a block, where the zones are there
  abbrev pub map_block : ℕ → ℕ → Option ℕ → Device → Device
  map_block zone_idx block_offset entry d = record d {
    index = record (d.index) {
      zones = elim (d.index.zones) [
        | none ↦ none
        | some zones ↦ some (set_zone_map env zone_idx block_offset entry zones)
      ];
    };
  }

  -- The loop of `imrsim_record_write_mapping_range`, with `left` blocks to go from the block at `lba`,
  -- which goes to `pba`. What was recorded before an error stays.
  unfoldable pub record_blocks : ℕ → ℕ → ℕ → ℕ → Device → Device × Verdict
  record_blocks zone_idx zero lba pba d = (d, accepted)
  record_blocks zone_idx (suc left) lba pba d =
      let zone_lba = zone_idx_lba env.geometry zone_idx in
      let step = 2 ^ env.geometry.block_shift in
      let block_offset = (lba - zone_lba) / step in
      let mapped = map_block zone_idx block_offset (as_entry (sub64 pba zone_lba / step)) d in
      let (d', code) = insert_and_check_full zone_idx lba pba mapped in
      let rest : Device × Verdict = elim code [
        | success ↦ record_blocks zone_idx left ((lba + step) % u64_mod) ((pba + step) % u64_mod) d'
        | failed ↦ (d', refused failed)
      ] in
      if ltb lba zone_lba
      then (d, write_out_range)
      else if leb total_items block_offset
      then (d, write_across)
      else rest

  -- `imrsim_record_write_mapping_range`
  unfoldable pub record_write_mapping_range : ℕ → ℕ → ℕ → ℕ → Device → Device × Verdict
  record_write_mapping_range zone_idx logical_lba physical_lba bio_sectors =
      let step = 2 ^ env.geometry.block_shift in
      record_blocks zone_idx (write_block_count env.geometry logical_lba bio_sectors)
        (logical_lba - logical_lba % step) (physical_lba - physical_lba % step)

  -- where a new write goes, with its first block mapped and its blocks counted
  unfoldable pub claim_blocks : Phase → ℕ → ℕ → ℕ → Zone → Bool × ℕ × Zone
  claim_blocks phase zone_idx lba bio_sectors z =
      let g = env.geometry in
      let zlba = zone_idx_lba g zone_idx in
      let step = 2 ^ g.block_shift in
      let (top, sector) = place g phase zlba z.z_map_size lba in
      (
        top,
        sector,
        record z {
          z_pba_map =
              update z.z_pba_map ((lba - zlba) / step) (as_entry (sub64 sector zlba / step));
          z_map_size = (z.z_map_size + write_block_count g lba bio_sectors) % u32_mod;
        },
      )

  abbrev moved_to : ℕ → Option Bool → Device × Verdict → Moved
  moved_to sector top (d, verdict) = record {
    device = d;
    verdict = verdict;
    sector = sector;
    top = top;
  }

  -- The relocation of a logical write, phase by phase.
  unfoldable pub relocate : Phase → ℕ → ℕ → ℕ → (ℕ → Zone) → Device → Moved
  relocate phase_one zone_idx lba bio_sectors zones d = moved_to lba none (d, accepted)
  relocate phase zone_idx lba bio_sectors zones d =
      let g = env.geometry in
      let zlba = zone_idx_lba g zone_idx in
      let step = 2 ^ g.block_shift in
      let z = zones zone_idx in
      let (top, sector, z') = claim_blocks phase zone_idx lba bio_sectors z in
      elim (z.z_pba_map ((lba - zlba) / step)) [
        | none ↦ moved_to sector (some top) (
            record_write_mapping_range zone_idx lba sector bio_sectors
              (record d { index = record (d.index) { zones = some (update zones zone_idx z') } }))
        | some e ↦
            let old = (zlba + e * step) % u64_mod in
            moved_to old none (record_write_mapping_range zone_idx lba old bio_sectors d)
      ]
