-- ===== src/Geometry/Zones.antt =====
-- Zones and blocks: addresses, indices and block counts.
use imr_lsm.Prelude.{
  ℕ, zero, suc, ◌+◌, ◌-◌, ◌/◌, ◌^◌, ◌≤◌, ◌<◌, ◌≡◌, refl, arith, u32_mod, ◌==◌, Bool-cases, inl, inr,
}
use native.Mathlib.Nat.{pow-suc}
use imr_lsm.Geometry.{
  Geometry, IsDefault, init_zone_default, zone_idx_lba, lba_zone_idx, num_sectors_zone,
  write_block_count, index_loop, index_power_of_2,
}

init_zone_default-IsDefault : (size_dev : ℕ) → IsDefault (init_zone_default size_dev)
unfolding init_zone_default
init_zone_default-IsDefault size_dev = record { block = refl; zone = refl }

module _ (g : Geometry) (d : IsDefault g) where
  -- In the default geometry a sector of a zone with a 32-bit index, found at an offset less than the size
  -- of a zone, is mapped back to that zone.
  pub lba_zone_idx-zone_idx_lba :
      (idx offset : ℕ)
      → idx < u32_mod
      → offset < num_sectors_zone g
      → lba_zone_idx g (zone_idx_lba g idx + offset) ≡ idx
  unfolding lba_zone_idx zone_idx_lba num_sectors_zone
  lba_zone_idx-zone_idx_lba idx offset h k =
      rw (d.block, d.zone) (let k' : offset < 524288 = rw (d.block, d.zone) at k in omega arith)

  -- In the default geometry, for a write of between 1 and 2^34 - 1 sectors, the block of its first sector
  -- and the number of blocks make the block after that of its last sector.
  pub write_block_count_lem :
      (lba sectors : ℕ)
      → 0 < sectors
      → sectors < 2 ^ 34
      → write_block_count g lba sectors + lba / 8 ≡ (lba + sectors - 1) / 8 + 1
  unfolding write_block_count
  write_block_count_lem lba sectors pos fits = rw d.block (ground arith)

-- `num` lies between two powers of two.
index_loop_lem :
    (fuel num index : ℕ)
    → 0 < num
    → num ≤ fuel
    → (e : ℕ) × (index_loop fuel num index ≡ index + e) × (2 ^ e ≤ num) × (num < 2 ^ suc e)
unfolding index_loop
index_loop_lem zero num index pos le = absurd (omega arith)
index_loop_lem (suc fuel) num index pos le = elim (Bool-cases (num / 2 == 0)) [
  | inl e ↦ (0, ground arith, omega arith, ground arith)
  | inr e ↦
      let (k, found, low, high) =
        index_loop_lem fuel (num / 2) (index + 1) (ground arith) (omega arith) in
      (suc k, rw e (omega arith), omega (arith, pow-suc 2 k), omega (arith, pow-suc 2 (suc k)))
]

-- For a positive number `index_power_of_2` is the integer logarithm to base 2.
pub index_power_of_2_lem :
    (num : ℕ) → 0 < num → (2 ^ index_power_of_2 num ≤ num) × (num < 2 ^ suc (index_power_of_2 num))
unfolding index_power_of_2
index_power_of_2_lem num pos =
    let (k, found, low, high) = index_loop_lem num num 0 pos (omega arith) in
    let e : index_loop num num 0 ≡ k = omega arith in rw e (low, high)
