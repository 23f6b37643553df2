-- ===== src/Device/Places.antt =====
-- The places of new writes in a zone.
use imr_lsm.Prelude.{
  ℕ, ◌+◌, ◌-◌, ◌*◌, ◌/◌, ◌%◌, ◌≤◌, ◌<◌, ◌≡◌, ◌≢◌, inl, inr, true, false, if◌then◌else◌, ltb, sym,
  ◌∙◌, arith, Bool-cases, List, [], ◌∷◌, length, All, u32_mod,
}
use imr_lsm.Geometry.{
  Geometry, IsDefault, zone_idx_lba, zone_bottom_pba, zone_top_pba, top_track_size,
  top_track_num_total, total_items, write_block_count,
}
use imr_lsm.Geometry.Tracks.{zone_top-ne-bottom, zone_bottom_pba-ne, zone_top_pba-ne}
use imr_lsm.State.{Env, Zone}
use imr_lsm.Device.{Phase, phase_two, phase_three}
use imr_lsm.Device.Relocate.{bottom_blocks, bottom_sector, top_sector, place, claim_blocks}

-- the block of the top tracks that the third phase fills as its n-th: the even tracks first
abbrev pub interlaced : ℕ → ℕ
interlaced n =
    let half = top_track_size * top_track_num_total / 2 in
    if ltb n half
    then 2 * (n / top_track_size) * top_track_size + n % top_track_size
    else (2 * ((n - half) / top_track_size) + 1) * top_track_size + (n - half) % top_track_size

module _ (g : Geometry) (d : IsDefault g) (idx : ℕ) (small : idx < u32_mod) where
  bottom_sector-pba :
      (n : ℕ) → n < bottom_blocks → bottom_sector g (zone_idx_lba g idx) n ≡ zone_bottom_pba g idx n
  unfolding bottom_sector zone_bottom_pba zone_idx_lba
  bottom_sector-pba n h = rw (d.block, d.zone) (omega arith)

  -- In the default geometry the second phase fills the bottom tracks of a zone and then its top tracks,
  -- block after block.
  place-two :
      (size lba : ℕ)
      → size < total_items
      → (place g phase_two (zone_idx_lba g idx) size lba).1 ≡ (
          if ltb size bottom_blocks
          then zone_bottom_pba g idx size
          else zone_top_pba g idx (size - bottom_blocks))
  unfolding place top_sector zone_top_pba zone_idx_lba
  place-two size lba h = elim (Bool-cases (ltb size bottom_blocks)) [
    | inl bottom ↦ rw bottom (bottom_sector-pba size (ground arith))
    | inr top ↦ rw (top, d.block, d.zone) (ground arith)
  ]

  place-three :
      (size lba : ℕ)
      → size < total_items
      → (place g phase_three (zone_idx_lba g idx) size lba).1 ≡ (
          if ltb size bottom_blocks
          then zone_bottom_pba g idx size
          else zone_top_pba g idx (interlaced (size - bottom_blocks)))
  unfolding place top_sector zone_top_pba zone_idx_lba
  place-three size lba h = elim (Bool-cases (ltb size bottom_blocks)) [
    | inl bottom ↦ rw bottom (bottom_sector-pba size (ground arith))
    | inr above ↦
        elim (Bool-cases (ltb size (bottom_blocks + top_track_size * top_track_num_total / 2))) [
          | inl even ↦
              let even' : ltb (size - bottom_blocks) (top_track_size * top_track_num_total / 2)
                  ≡ true =
                ground arith in
              rw (above, even, even', d.block, d.zone) (omega (arith, h))
          | inr odd ↦
              let odd' : ltb (size - bottom_blocks) (top_track_size * top_track_num_total / 2)
                  ≡ false =
                ground arith in
              rw (above, odd, odd', d.block, d.zone) (omega (arith, h))
        ]
  ]

  interlaced-inside :
      (n : ℕ)
      → n < top_track_size * top_track_num_total
      → interlaced n < top_track_size * top_track_num_total
  interlaced-inside n h = ground arith

  interlaced-ne :
      (m n : ℕ)
      → m < top_track_size * top_track_num_total
      → n < top_track_size * top_track_num_total
      → m ≢ n
      → interlaced m ≢ interlaced n
  interlaced-ne m n hm hn ne = elim (Bool-cases (ltb m 14592)) [
    | inl a ↦ elim (Bool-cases (ltb n 14592)) [
      | inl b ↦ rw (a, b) (λ e. ne (omega (arith, e)))
      | inr b ↦ rw (a, b) (λ e. ne (omega (arith, e)))
    ]
    | inr a ↦
        let high : 14592 ≤ m = ground arith in
        elim (Bool-cases (ltb n 14592)) [
          | inl b ↦ rw (a, b) (λ e. ne (omega (arith, e)))
          | inr b ↦
              let high' : 14592 ≤ n = ground arith in
              rw (a, b) (λ e. ne (omega (arith, e, high, high')))
        ]
  ]

  -- an order of the top tracks' blocks that uses none twice gives each size its own place
  two_places :
      (order : ℕ → ℕ)
      → ((n : ℕ)
          → n < top_track_size * top_track_num_total
          → order n < top_track_size * top_track_num_total)
      → ((m n : ℕ)
          → m < top_track_size * top_track_num_total
          → n < top_track_size * top_track_num_total
          → m ≢ n
          → order m ≢ order n)
      → (a b : ℕ) → a < total_items
      → b < total_items
      → a ≢ b
      → (if ltb a bottom_blocks
          then zone_bottom_pba g idx a
          else zone_top_pba g idx (order (a - bottom_blocks)))
        ≢ (if ltb b bottom_blocks
            then zone_bottom_pba g idx b
            else zone_top_pba g idx (order (b - bottom_blocks)))
  two_places order inside apart a b ha hb ne = elim (Bool-cases (ltb a bottom_blocks)) [
    | inl low ↦ elim (Bool-cases (ltb b bottom_blocks)) [
      | inl low' ↦
          rw (low, low') (zone_bottom_pba-ne g d idx small a b (ground arith) (ground arith) ne)
      | inr high' ↦
          rw (low, high')
            (λ e.
              zone_top-ne-bottom g d idx small (order (b - bottom_blocks)) a
                (inside _ (ground arith)) (ground arith) (sym e))
    ]
    | inr high ↦ elim (Bool-cases (ltb b bottom_blocks)) [
      | inl low' ↦
          rw (high, low')
            (zone_top-ne-bottom g d idx small (order (a - bottom_blocks)) b
              (inside _ (ground arith)) (ground arith))
      | inr high' ↦
          rw (high, high')
            (zone_top_pba-ne g d idx small (order (a - bottom_blocks)) (order (b - bottom_blocks))
              (inside _ (ground arith)) (inside _ (ground arith))
              (apart _ _ (ground arith) (ground arith) (λ e. ne (ground arith))))
    ]
  ]

  -- In the default geometry, two new writes that find a zone filled to different sizes, each below its
  -- capacity, go to different sectors, in the second and in the third phase.
  place-ne :
      (a b lba lba' : ℕ)
      → a < total_items
      → b < total_items
      → a ≢ b
      → ((place g phase_two (zone_idx_lba g idx) a lba).1
          ≢ (place g phase_two (zone_idx_lba g idx) b lba').1)
        × ((place g phase_three (zone_idx_lba g idx) a lba).1
            ≢ (place g phase_three (zone_idx_lba g idx) b lba').1)
  place-ne a b lba lba' ha hb ne = (
    λ e.
        two_places (λ n. n) (λ n h. h) (λ m n hm hn k. k) a b ha hb ne
          (sym (place-two a lba ha) ∙ e ∙ place-two b lba' hb),
    λ e.
        two_places interlaced interlaced-inside interlaced-ne a b ha hb ne
          (sym (place-three a lba ha) ∙ e ∙ place-three b lba' hb),
  )

-- a write of sectors of one block
abbrev pub IsOneBlock : Geometry → ℕ × ℕ → Type 0
IsOneBlock g (lba, bio_sectors) = write_block_count g lba bio_sectors ≡ 1

-- no element of a list stands in it again
abbrev pub IsDistinct : List ℕ → Type 0
IsDistinct [] = Unit
IsDistinct (x ∷ xs) = All (λ (y : ℕ). x ≢ y) xs × IsDistinct xs

module _ (env : Env) (idx : ℕ) where
  -- the sectors of new writes to a zone, one after another, each of which finds the zone as the one
  -- before left it
  unfoldable pub new_sectors : Phase → List (ℕ × ℕ) → Zone → List ℕ
  new_sectors phase [] z = []
  new_sectors phase ((lba, bio_sectors) ∷ ws) z =
      let (_, sector, z') = claim_blocks env phase idx lba bio_sectors z in
      sector ∷ new_sectors phase ws z'

module _ (env : Env) (default : IsDefault env.geometry) (idx : ℕ) (small : idx < u32_mod) where
  abbrev Apart : Phase → Type 0
  Apart phase =
      (a b lba lba' : ℕ)
      → a < b
      → b < total_items
      → (place env.geometry phase (zone_idx_lba env.geometry idx) a lba).1
        ≢ (place env.geometry phase (zone_idx_lba env.geometry idx) b lba').1

  later_ne :
      (phase : Phase) (apart : Apart phase) (a lba : ℕ) (ws : List (ℕ × ℕ)) (z : Zone)
      → All (IsOneBlock env.geometry) ws
      → a < z.z_map_size
      → z.z_map_size + length ws ≤ total_items
      → All
          (λ (y : ℕ). (place env.geometry phase (zone_idx_lba env.geometry idx) a lba).1 ≢ y)
          (new_sectors env idx phase ws z)
  unfolding new_sectors claim_blocks
  later_ne phase apart a lba [] z ones lt fits = tt
  later_ne phase apart a lba ((lba', n) ∷ ws) z ones lt fits = (
    apart a z.z_map_size lba lba' lt (omega arith),
    later_ne phase apart a lba ws (claim_blocks env phase idx lba' n z).2 ones.1
        (rw ones.0 (omega arith)) (rw ones.0 (omega arith)),
  )

  sectors_IsDistinct :
      (phase : Phase) (apart : Apart phase) (ws : List (ℕ × ℕ)) (z : Zone)
      → All (IsOneBlock env.geometry) ws
      → z.z_map_size + length ws ≤ total_items
      → IsDistinct (new_sectors env idx phase ws z)
  unfolding new_sectors claim_blocks
  sectors_IsDistinct phase apart [] z ones fits = tt
  sectors_IsDistinct phase apart ((lba, n) ∷ ws) z ones fits = (
    later_ne phase apart z.z_map_size lba ws (claim_blocks env phase idx lba n z).2 ones.1
        (rw ones.0 (omega arith)) (rw ones.0 (omega arith)),
    sectors_IsDistinct phase apart ws (claim_blocks env phase idx lba n z).2 ones.1
        (rw ones.0 (omega arith)),
  )

  -- In the default geometry, new writes of one block each that follow each other in a zone with room for
  -- all of them go to different sectors, in the second and in the third phase.
  pub new_sectors-IsDistinct :
      (ws : List (ℕ × ℕ)) (z : Zone)
      → All (IsOneBlock env.geometry) ws
      → z.z_map_size + length ws ≤ total_items
      → IsDistinct (new_sectors env idx phase_two ws z)
        × IsDistinct (new_sectors env idx phase_three ws z)
  new_sectors-IsDistinct ws z ones fits =
      let ne = λ (a b lba lba' : ℕ) (lt : a < b) (inside : b < total_items).
        place-ne env.geometry default idx small a b lba lba' (omega arith) inside (omega arith) in
      (
        sectors_IsDistinct phase_two (λ a b lba lba' lt inside. (ne a b lba lba' lt inside).0) ws z
            ones fits,
        sectors_IsDistinct phase_three (λ a b lba lba' lt inside. (ne a b lba lba' lt inside).1) ws
            z ones fits,
      )
