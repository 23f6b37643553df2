-- ===== src/Geometry.antt =====
-- The layout of the disk: zones, blocks, and the interlaced tracks of a zone
-- (imrsim_kmod/dm-imrsim.c, the address helpers; imrsim_kmod/imrsim_types.h, the track constants).
-- Sector and block addresses are `__u64`; what the source computes in `__u32` is reduced here too.
pub mod Zones
pub mod Tracks
use imr_lsm.Prelude.{
  ℕ, zero, suc, ◌+◌, ◌-◌, ◌*◌, ◌/◌, ◌%◌, ◌^◌, ◌≡◌, ltb, ◌==◌, if◌then◌else◌, u32_mod, u64_mod,
}

-- The module's globals IMR_BLOCK_SIZE_SHIFT, IMR_ZONE_SIZE_SHIFT and IMR_NUMZONES.
pub record Geometry : Type 0 where
  pub block_shift : ℕ
  pub zone_shift : ℕ
  pub num_zones : ℕ

-- TOP_TRACK_NUM_TOTAL, IMR_TOP_TRACK_SIZE, IMR_BOTTOM_TRACK_SIZE and TOTAL_ITEMS
abbrev pub top_track_num_total : ℕ
top_track_num_total = 64

abbrev pub top_track_size : ℕ
top_track_size = 456

abbrev pub bottom_track_size : ℕ
bottom_track_size = 568

abbrev pub total_items : ℕ
total_items = (top_track_size + bottom_track_size) * top_track_num_total

-- `imrsim_init_zone_default`: the shifts, and the number of zones of a device of `size_dev` sectors
unfoldable pub init_zone_default : ℕ → Geometry
init_zone_default size_dev = record {
  block_shift = 3;
  zone_shift = 16;
  num_zones = size_dev / 2 ^ 3 / 2 ^ 16 % u32_mod;
}

-- `index_power_of_2`: `while(num >>= 1) ++index`, with fuel
pub index_loop : ℕ → ℕ → ℕ → ℕ
index_loop zero num index = index
index_loop (suc fuel) num index =
    let num' = num / 2 in
    let rest = index_loop fuel num' (index + 1) in if num' == 0 then index else rest

unfoldable pub index_power_of_2 : ℕ → ℕ
unfolding index_loop
index_power_of_2 num = index_loop num num 0

module _ (g : Geometry) where
  unfoldable pub num_sectors_zone : ℕ
  num_sectors_zone = 2 ^ g.block_shift * 2 ^ g.zone_shift % u32_mod

  unfoldable pub zone_idx_lba : ℕ → ℕ
  zone_idx_lba idx = idx * 2 ^ g.block_shift * 2 ^ g.zone_shift % u64_mod

  unfoldable pub lba_zone_idx : ℕ → ℕ
  lba_zone_idx lba = lba / 2 ^ g.block_shift / 2 ^ g.zone_shift % u32_mod

  unfoldable pub zone_key_start : ℕ → ℕ
  zone_key_start zone_idx = zone_idx * 2 ^ g.zone_shift % u64_mod

  abbrev pub bottom_range_blocks : ℕ
  bottom_range_blocks = bottom_track_size * top_track_num_total

  abbrev pub track_group_blocks : ℕ
  track_group_blocks = top_track_size + bottom_track_size

  unfoldable pub zone_bottom_pba : ℕ → ℕ → ℕ
  unfolding zone_idx_lba
  zone_bottom_pba zone_idx bottom_block_offset =
      let track = bottom_block_offset / bottom_track_size in
      let block = bottom_block_offset % bottom_track_size in
      let zone_block = (track * track_group_blocks + top_track_size + block) % u32_mod in
      (zone_idx_lba zone_idx + zone_block * 2 ^ g.block_shift) % u64_mod

  unfoldable pub zone_top_pba : ℕ → ℕ → ℕ
  unfolding zone_idx_lba
  zone_top_pba zone_idx top_block_offset =
      let track = top_block_offset / top_track_size in
      let block = top_block_offset % top_track_size in
      let zone_block = (track * track_group_blocks + block) % u32_mod in
      (zone_idx_lba zone_idx + zone_block * 2 ^ g.block_shift) % u64_mod

  -- `imrsim_write_block_count`: the blocks that `bio_sectors` sectors from `logical_lba` touch
  unfoldable pub write_block_count : ℕ → ℕ → ℕ
  write_block_count logical_lba bio_sectors =
      let block_sectors = 2 ^ g.block_shift in
      let first_block_offset = logical_lba % block_sectors in
      let covered_sectors = (first_block_offset + bio_sectors) % u64_mod in
      if bio_sectors == 0
      then 0
      else ((covered_sectors + block_sectors - 1) % u64_mod / 2 ^ g.block_shift) % u32_mod

-- `imrsim_init_zone_default` sets these shifts.
pub record IsDefault (g : Geometry) : Type 0 where
  pub block : g.block_shift ≡ 3
  pub zone : g.zone_shift ≡ 16
