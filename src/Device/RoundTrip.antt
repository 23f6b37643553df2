-- ===== src/Device/RoundTrip.antt =====
-- A read of a block after a write of it.
use imr_lsm.Prelude.{
  sub64, ℕ, zero, suc, ◌+◌, ◌-◌, ◌*◌, ◌/◌, ◌%◌, ◌^◌, ◌≤◌, ◌<◌, ◌≡◌, refl, sym, ap, ◌∙◌, true, false,
  some, ltb, leb, arith, u64_mod,
}
use mathlib.Core.Path.{subst}
use imr_lsm.Geometry.{Geometry, IsDefault, total_items, zone_idx_lba, write_block_count}
use imr_lsm.ReadTree.Operations.{IsWell}
use imr_lsm.Metadata.{Code, success, enomem}
use imr_lsm.State.{State, Env, Zone}
use imr_lsm.Write.{prepare, count_insert, record_insert}
use imr_lsm.Read.Own.{Holds, IsPast, read-Holds}
use imr_lsm.Read.Writes.{ensured, insert-Holds}
use imr_lsm.Device.{Device, Verdict, refused, as_entry}
use imr_lsm.Device.Candidate.{record_zone_candidate}
use imr_lsm.Device.Relocate.{
  then_check_full, insert_and_check_full, map_block, record_blocks, record_write_mapping_range,
}
use imr_lsm.Device.Rules.{locate}

-- The index can take a record of the key: it is initialized, its tree well-formed, no cached record of
-- the key later than the clock, the clock not at its end, the flush of the bottom level succeeds, and so
-- do the allocations of the node and of its tree node.
pub record IsReady (env : Env) (key : ℕ) (s : State) : Type 0 where
  pub on : s.meta.initialized ≡ true
  pub well : IsWell s.meta.tree
  pub past : IsPast key s.meta
  pub room : s.meta.timestamp + 1 < u64_mod
  pub flushed : (prepare env s).1 ≡ success
  pub node : env.alloc (prepare env s).0.allocs ≡ true
  pub tree_node : env.alloc (suc (prepare env s).0.allocs) ≡ true

-- the first sector of the block of a sector
abbrev pub block_start : Geometry → ℕ → ℕ
block_start g lba = lba - lba % 2 ^ g.block_shift

-- the sector is one of the zone's
abbrev pub InZone : Geometry → ℕ → ℕ → Type 0
InZone g zone_idx lba =
    (zone_idx_lba g zone_idx ≤ lba)
    × (lba < zone_idx_lba g zone_idx + total_items * 2 ^ g.block_shift)

module _ (g : Geometry) (default : IsDefault g) where
  start-key : (lba : ℕ) → block_start g lba / 2 ^ g.block_shift ≡ lba / 2 ^ g.block_shift
  start-key lba = rw default.block (omega arith)

  module _ (zone_idx lba : ℕ) (inside : InZone g zone_idx lba) where
    start-low : zone_idx_lba g zone_idx ≤ block_start g lba
    unfolding zone_idx_lba
    start-low =
        let low = rw (default.block, default.zone) at inside.0 in
        rw (default.block, default.zone) (omega (arith, low))

    start-inside : (block_start g lba - zone_idx_lba g zone_idx) / 2 ^ g.block_shift < total_items
    unfolding zone_idx_lba
    start-inside =
        let high = rw (default.block, default.zone) at inside.1 in
        rw (default.block, default.zone) (omega (arith, high))

    start-offset :
        (pba : ℕ)
        → pba < u64_mod
        → (block_start g pba + (lba - zone_idx_lba g zone_idx) % 2 ^ g.block_shift) % u64_mod
          ≡ block_start g pba + lba % 2 ^ g.block_shift
    unfolding zone_idx_lba
    start-offset pba fits =
        let low = rw (default.block, default.zone) at inside.0 in
        rw (default.block, default.zone) (omega (arith, low, fits))

-- the device with the first block of a write in the zone map
abbrev pub first_mapped : Env → ℕ → ℕ → ℕ → Device → Device
first_mapped env zone_idx lba pba d =
    let step = 2 ^ env.geometry.block_shift in
    let zone_lba = zone_idx_lba env.geometry zone_idx in
    map_block env zone_idx ((lba - zone_lba) / step) (as_entry (sub64 pba zone_lba / step)) d

module _ (env : Env) where
  then_check_full-Holds :
      (zone_idx key pba : ℕ) (r : Device × Code)
      → Holds key true pba r.0.index.meta
      → Holds key true pba (then_check_full env zone_idx r).0.index.meta
  unfolding record_zone_candidate
  then_check_full-Holds zone_idx key pba (d, success) h =
      subst (λ (s : State). Holds key true pba s.meta) (sym (ensured d.index h.0)) h
  then_check_full-Holds zone_idx key pba (d, enomem) h = h
  then_check_full-Holds zone_idx key pba (d, code) h = h

  insert_and_check_full-Holds :
      (zone_idx lba pba : ℕ) (d : Device)
      → IsReady env (lba / 2 ^ env.geometry.block_shift) (count_insert env d.index)
      → Holds
          (lba / 2 ^ env.geometry.block_shift)
          true
          pba
          (insert_and_check_full env zone_idx lba pba d).0.index.meta
  unfolding insert_and_check_full record_insert
  insert_and_check_full-Holds zone_idx lba pba d h =
      then_check_full-Holds zone_idx (lba / 2 ^ env.geometry.block_shift) pba _ (
        insert-Holds env (lba / 2 ^ env.geometry.block_shift) (count_insert env d.index) h.on h.well
          h.flushed h.node h.tree_node h.room 0 pba zone_idx (omega arith) h.past)

  locate-Holds :
      (zone_idx lba pba : ℕ) (zones : ℕ → Zone) (d : Device)
      → Holds (lba / 2 ^ env.geometry.block_shift) true pba d.index.meta
      → (locate env zone_idx lba zones d).1
        ≡ some (
            (pba + (lba - zone_idx_lba env.geometry zone_idx) % 2 ^ env.geometry.block_shift)
            % u64_mod)
  unfolding locate
  locate-Holds zone_idx lba pba zones d h =
      let e = read-Holds env (lba / 2 ^ env.geometry.block_shift) true pba d.index h in
      rw (e, locate) refl

  last_block :
      (zone_idx lba pba : ℕ) (r : Device × Code)
      → (let rest : Device × Verdict = elim r.1 [
        | success ↦ record_blocks env zone_idx zero lba pba r.0
        | failed ↦ (r.0, refused failed)
      ] in
          rest.0 ≡ r.0)
  unfolding record_blocks
  last_block zone_idx lba pba (d, success) = refl
  last_block zone_idx lba pba (d, enomem) = refl
  last_block zone_idx lba pba (d, code) = refl

  one_block :
      (zone_idx lba pba : ℕ) (d : Device)
      → zone_idx_lba env.geometry zone_idx ≤ lba
      → (lba - zone_idx_lba env.geometry zone_idx) / 2 ^ env.geometry.block_shift < total_items
      → (let step = 2 ^ env.geometry.block_shift in
          let zone_lba = zone_idx_lba env.geometry zone_idx in
          let mapped =
            map_block env zone_idx
              ((lba - zone_lba) / step)
              (as_entry (sub64 pba zone_lba / step))
              d in
          (record_blocks env zone_idx 1 lba pba d).0
          ≡ (insert_and_check_full env zone_idx lba pba mapped).0)
  unfolding record_blocks
  one_block zone_idx lba pba d low inside =
      let step = 2 ^ env.geometry.block_shift in
      let zone_lba = zone_idx_lba env.geometry zone_idx in
      let block_offset = (lba - zone_lba) / step in
      let mapped = map_block env zone_idx block_offset (as_entry (sub64 pba zone_lba / step)) d in
      let within : ltb lba zone_lba ≡ false = ground arith in
      let held : leb total_items block_offset ≡ false = ground arith in
      rw (within, held, record_blocks)
        (last_block zone_idx ((lba + step) % u64_mod) ((pba + step) % u64_mod)
          (insert_and_check_full env zone_idx lba pba mapped))

  -- In the default geometry, a write of sectors of one block of a zone is recorded, and the index can take
  -- its record. Then, whether or not the compactions that the write runs succeed, a read of its first sector
  -- is sent to the block that was recorded for it, at the offset that the sector has in its own block.
  pub locate-record_write_mapping_range :
      (zone_idx lba pba bio_sectors : ℕ) (zones : ℕ → Zone) (d : Device)
      → IsDefault env.geometry
      → InZone env.geometry zone_idx lba
      → write_block_count env.geometry lba bio_sectors ≡ 1
      → pba < u64_mod
      → IsReady env (block_start env.geometry lba / 2 ^ env.geometry.block_shift) (
          count_insert env
            (first_mapped env zone_idx
              (block_start env.geometry lba)
              (block_start env.geometry pba)
              d).index)
      → (locate env zone_idx lba zones
          (record_write_mapping_range env zone_idx lba pba bio_sectors d).0).1
        ≡ some (block_start env.geometry pba + lba % 2 ^ env.geometry.block_shift)
  unfolding record_write_mapping_range
  locate-record_write_mapping_range zone_idx lba pba bio_sectors zones d default inside one fits
        ready =
      let g = env.geometry in
      let start = block_start g lba in
      let target = block_start g pba in
      let mapped = first_mapped env zone_idx start target d in
      let same =
        one_block zone_idx start target d (start-low g default zone_idx lba inside)
          (start-inside g default zone_idx lba inside) in
      let held = insert_and_check_full-Holds zone_idx start target mapped ready in
      let held' : Holds (lba / 2 ^ g.block_shift) true target
          (record_blocks env zone_idx 1 start target d).0.index.meta =
        subst
          (λ (k : ℕ).
            Holds k true target (record_blocks env zone_idx 1 start target d).0.index.meta)
          (start-key g default lba)
          (subst (λ (r : Device). Holds (start / 2 ^ g.block_shift) true target r.index.meta)
            (sym same) held) in
      rw one (
        locate-Holds zone_idx lba target zones _ held'
        ∙ ap some (start-offset g default zone_idx lba inside pba fits))
