-- ===== src/Geometry/Tracks.antt =====
-- The blocks of the two kinds of tracks of a zone, and their addresses.
use imr_lsm.Prelude.{ℕ, ◌*◌, ◌<◌, ◌≡◌, ◌≢◌, arith, u32_mod}
use imr_lsm.Geometry.{
  Geometry, IsDefault, lba_zone_idx, zone_bottom_pba, zone_top_pba, top_track_size,
  bottom_track_size, top_track_num_total,
}

-- In the default geometry, where zones are 2^16 blocks of 8 sectors and the zone index fits 32 bits.
module _ (g : Geometry) (d : IsDefault g) (idx : ℕ) (small : idx < u32_mod) where
  -- In the default geometry a block of a top track and a block of a bottom track of the same zone,
  -- each within the zone, have different addresses.
  pub zone_top-ne-bottom :
      (t b : ℕ)
      → t < top_track_size * top_track_num_total
      → b < bottom_track_size * top_track_num_total
      → zone_top_pba g idx t ≢ zone_bottom_pba g idx b
  unfolding zone_top_pba zone_bottom_pba
  zone_top-ne-bottom t b ht hb = rw (d.block, d.zone) (omega arith)

  -- In the default geometry two different blocks of the bottom tracks of a zone have different
  -- addresses.
  pub zone_bottom_pba-ne :
      (a b : ℕ)
      → a < bottom_track_size * top_track_num_total
      → b < bottom_track_size * top_track_num_total
      → a ≢ b
      → zone_bottom_pba g idx a ≢ zone_bottom_pba g idx b
  unfolding zone_bottom_pba
  zone_bottom_pba-ne a b ha hb ne e = let e' = rw (d.block, d.zone) at e in ne (omega arith)

  -- In the default geometry two different blocks of the top tracks of a zone have different
  -- addresses.
  pub zone_top_pba-ne :
      (a b : ℕ)
      → a < top_track_size * top_track_num_total
      → b < top_track_size * top_track_num_total
      → a ≢ b
      → zone_top_pba g idx a ≢ zone_top_pba g idx b
  unfolding zone_top_pba
  zone_top_pba-ne a b ha hb ne e = let e' = rw (d.block, d.zone) at e in ne (omega arith)

  -- In the default geometry the address of a block of the bottom tracks of a zone lies in that zone.
  pub lba_zone_idx-zone_bottom_pba :
      (b : ℕ)
      → b < bottom_track_size * top_track_num_total
      → lba_zone_idx g (zone_bottom_pba g idx b) ≡ idx
  unfolding zone_bottom_pba lba_zone_idx
  lba_zone_idx-zone_bottom_pba b hb = rw (d.block, d.zone) (omega arith)

  -- In the default geometry the address of a block of the top tracks of a zone lies in that zone.
  pub lba_zone_idx-zone_top_pba :
      (t : ℕ)
      → t < top_track_size * top_track_num_total
      → lba_zone_idx g (zone_top_pba g idx t) ≡ idx
  unfolding zone_top_pba lba_zone_idx
  lba_zone_idx-zone_top_pba t ht = rw (d.block, d.zone) (omega arith)
