-- ===== src/Device/Rewrites.antt =====
-- A write to a bottom track and the blocks of the two top tracks over it.
use imr_lsm.Prelude.{
  ℕ, ◌+◌, ◌*◌, ◌/◌, ◌%◌, ◌<◌, ◌≡◌, refl, inl, inr, true, Bool, ◌&&◌, ◌||◌, List, [], ◌∷◌, ◌++◌, ltb,
  length, arith, Bool-cases, if◌then◌else◌, u64_mod, u32_mod,
}
use imr_lsm.Geometry.{
  Geometry, IsDefault, zone_idx_lba, zone_top_pba, top_track_size, bottom_track_size,
  top_track_num_total,
}
use imr_lsm.Device.{Device, accepted, rewrite}
use imr_lsm.Device.Rules.{track_rate, block_on_top, write_bottom}

-- the block of a top track over block `block` of a bottom track
abbrev pub over : ℕ → ℕ
over block = block * 10000 / track_rate

-- the sectors to be rewritten: of the blocks over it that have data, each with its address
abbrev pub with_data : Bool → ℕ → List ℕ
with_data b sector = if b then sector ∷ [] else []

-- whether the zone has the top track, and its block over `block` has data
abbrev pub covered : ℕ → ℕ → ℕ → Device → Bool
covered zone_idx track block d =
    ltb track top_track_num_total && d.used_blocks zone_idx track (over block)

module _ (g : Geometry) (g' : IsDefault g) (zone_idx : ℕ) (small : zone_idx < u32_mod)
    (d : Device) where
  abbrev pub over_pba : ℕ → ℕ → ℕ
  over_pba track block = zone_top_pba g zone_idx (track * top_track_size + over block)

  on_top :
      (track block : ℕ)
      → track < top_track_num_total
      → block < bottom_track_size
      → block_on_top g zone_idx track (over block) ≡ over_pba track block
  unfolding zone_top_pba zone_idx_lba
  on_top track block ht hb = rw (g'.block, g'.zone) (omega arith)

  -- In the default geometry, for a write to a block of a bottom track: the sectors noted for the rewrite are
  -- the address of the block over it on the top track of the same number, if that block has data, and
  -- then of the one on the next top track, if the zone has that track and that block has data, and no others;
  -- the write needs a rewrite exactly if one of the two has data; and each noted sector is counted once
  -- as an extra write of the device.
  pub write_bottom_lem :
      (track block : ℕ)
      → track < top_track_num_total
      → block < bottom_track_size
      → d.extra_write_total < u64_mod
      → (let (d', v) = write_bottom g zone_idx track block d in
          (d'.rmw_lba
            ≡ with_data (covered zone_idx track block d) (over_pba track block)
              ++ with_data (covered zone_idx (track + 1) block d) (over_pba (track + 1) block))
          × (v ≡ (
              if covered zone_idx track block d || covered zone_idx (track + 1) block d
              then rewrite
              else accepted))
          × (d'.extra_write_total ≡ (d.extra_write_total + length d'.rmw_lba) % u64_mod))
  unfolding write_bottom
  write_bottom_lem track block ht hb fits =
      let here : ltb track top_track_num_total ≡ true = ground (arith, ht) in
      let one = on_top track block ht hb in
      elim (Bool-cases (d.used_blocks zone_idx track (over block))) [
        | inl first ↦ elim (Bool-cases (covered zone_idx (track + 1) block d)) [
          | inl second ↦
              rw (here, first, second, one, on_top (track + 1) block (ground (arith, second)) hb)
                (refl, refl, ground (arith, fits))
          | inr second ↦ rw (here, first, second, one) (refl, refl, ground (arith, fits))
        ]
        | inr first ↦ elim (Bool-cases (covered zone_idx (track + 1) block d)) [
          | inl second ↦
              rw (here, first, second, on_top (track + 1) block (ground (arith, second)) hb)
                (refl, refl, ground (arith, fits))
          | inr second ↦ rw (here, first, second) (refl, refl, ground (arith, fits))
        ]
      ]
