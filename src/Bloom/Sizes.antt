-- ===== src/Bloom/Sizes.antt =====
-- The sizes of a Bloom filter: a power of two within the limits, and 3 to 7 hashes.
use native.Mathlib.Nat.{pow-suc}
use imr_lsm.Prelude.{
  ℕ, zero, suc, ◌*◌, ◌/◌, ◌%◌, ◌^◌, ◌≤◌, ◌<◌, ◌≡◌, refl, inl, inr, true, ltb, leb, ◌==◌, arith,
  Bool-cases, if◌then◌else◌, u32_max, u32_mod, u64_mod,
}
use imr_lsm.Bloom.{
  power_loop, next_power_of_two, bloom_choose_bits, bloom_choose_hashes, bloom_bits_per_key,
  bloom_min_bits, bloom_max_bits,
}

shift : (e f v : ℕ) → v ≤ 2 ^ e * 2 ^ suc f → v ≤ 2 ^ suc e * 2 ^ f
shift e f v h = rw (pow-suc 2 e) (let h' = rw (pow-suc 2 f) at h in omega arith)

power_loop_lem :
    (fuel value e : ℕ)
    → 1 < value
    → value ≤ 2 ^ 31
    → 2 ^ e < 2 * value
    → value ≤ 2 ^ e * 2 ^ fuel
    → (k : ℕ) × (power_loop fuel value (2 ^ e) ≡ 2 ^ k) × (value ≤ 2 ^ k) × (2 ^ k < 2 * value)
unfolding power_loop
power_loop_lem zero value e big fits low enough = (e, refl, omega arith, low)
power_loop_lem (suc fuel) value e big fits low enough = elim (Bool-cases (ltb (2 ^ e) value)) [
  | inl more ↦
      let doubled : 2 ^ e * 2 % u32_mod ≡ 2 ^ suc e = ground (arith, pow-suc 2 e) in
      let room : leb (2 ^ e) (u32_max / 2) ≡ true = ground arith in
      let (k, found, above, below) =
        power_loop_lem fuel value (suc e) big fits (ground (arith, pow-suc 2 e))
          (shift e fuel value enough) in
      (k, rw (more, room, doubled) found, above, below)
  | inr done ↦ (e, rw done, ground arith, low)
]

-- For a value above 1 and at most 2^31 the result is the least power of two that is not below it.
pub next_power_of_two_lem :
    (value : ℕ)
    → 1 < value
    → value ≤ 2 ^ 31
    → (k : ℕ) × (next_power_of_two value ≡ 2 ^ k) × (value ≤ 2 ^ k) × (2 ^ k < 2 * value)
unfolding next_power_of_two
next_power_of_two_lem value big fits =
    let (k, found, above, below) = power_loop_lem 32 value 0 big fits (omega arith) (omega arith) in
    (k, ground (arith, found), above, below)

-- a power of two from 64 on is a multiple of 64
pow_multiple : (k : ℕ) → 64 ≤ 2 ^ k → 2 ^ k % 64 ≡ 0
pow_multiple zero h = absurd (omega arith)
pow_multiple (suc zero) h = absurd (omega arith)
pow_multiple (suc (suc zero)) h = absurd (omega arith)
pow_multiple (suc (suc (suc zero))) h = absurd (omega arith)
pow_multiple (suc (suc (suc (suc zero)))) h = absurd (omega arith)
pow_multiple (suc (suc (suc (suc (suc zero))))) h = absurd (omega arith)
pow_multiple (suc (suc (suc (suc (suc (suc k)))))) h = omega (
  arith,
  pow-suc 2 k,
  pow-suc 2 (suc k),
  pow-suc 2 (suc (suc k)),
  pow-suc 2 (suc (suc (suc k))),
  pow-suc 2 (suc (suc (suc (suc k)))),
  pow-suc 2 (suc (suc (suc (suc (suc k))))),
)

choose_range :
    (key_count k capped : ℕ)
    → 256 ≤ capped
    → capped ≤ 16384
    → capped ≤ 2 ^ k
    → 2 ^ k < 2 * capped
    → (let bits = if ltb (2 ^ k) bloom_min_bits then bloom_min_bits else 2 ^ k in
        let chosen =
          if key_count == 0
          then bloom_min_bits
          else if ltb bloom_max_bits bits
          then bloom_max_bits
          else bits in
        (256 ≤ chosen) × (chosen ≤ 16384) × (chosen % 64 ≡ 0))
choose_range key_count k capped low high above below = ground (arith, pow_multiple k (omega arith))

-- A filter has between 256 and 16384 bits, in whole 64-bit words, for every tunable and number of keys.
pub bloom_choose_bits_lem :
    (tunable key_count : ℕ)
    → (256 ≤ bloom_choose_bits tunable key_count)
      × (bloom_choose_bits tunable key_count ≤ 16384)
      × (bloom_choose_bits tunable key_count % 64 ≡ 0)
unfolding bloom_choose_bits
bloom_choose_bits_lem tunable key_count =
    let target = key_count * bloom_bits_per_key tunable % u64_mod in
    let raised = if ltb target bloom_min_bits then bloom_min_bits else target in
    let capped = if ltb bloom_max_bits raised then bloom_max_bits else raised in
    let low : 256 ≤ capped = ground arith in
    let high : capped ≤ 16384 = ground arith in
    let same : capped % u32_mod ≡ capped = omega arith in
    let (k, found, above, below) = next_power_of_two_lem capped (omega arith) (omega arith) in
    rw (same, found) (choose_range key_count k capped low high above below)

-- It uses 3 to 7 hashes.
pub bloom_choose_hashes_lem :
    (bits_per_key : ℕ)
    → (3 ≤ bloom_choose_hashes bits_per_key) × (bloom_choose_hashes bits_per_key ≤ 7)
unfolding bloom_choose_hashes
bloom_choose_hashes_lem bits_per_key = ground arith
