-- ===== src/Bloom.antt =====
-- The Bloom filter of a segment (imrsim_kmod/dm-imrsim.c, `imr_lsm_bloom_*`,
-- `imr_lsm_next_power_of_two_u32`).
pub mod Membership
pub mod Sizes
use imr_lsm.Prelude.{
  ℕ, zero, suc, ◌+◌, ◌-◌, ◌*◌, ◌/◌, ◌%◌, ◌^◌, Bool, true, false, ◌&&◌, ◌||◌, not, List, [], ◌∷◌,
  map, ltb, leb, ◌==◌, if◌then◌else◌, bit_and, bit_or, bit_xor, get_or, set, replicate, u32_max,
  u32_mod, u64_mod, max, length,
}
use imr_lsm.Metadata.{Bloom, default_bits_per_key}

-- IMR_LSM_BLOOM_MIN_BITS, _MAX_BITS, _MIN_HASHES, _MAX_HASHES
abbrev pub bloom_min_bits : ℕ
bloom_min_bits = 256

abbrev pub bloom_max_bits : ℕ
bloom_max_bits = 16384

abbrev pub bloom_min_hashes : ℕ
bloom_min_hashes = 3

abbrev pub bloom_max_hashes : ℕ
bloom_max_hashes = 7

-- `imr_lsm_bloom_bits_per_key_locked`, over the module's tunable
abbrev pub bloom_bits_per_key : ℕ → ℕ
bloom_bits_per_key tunable = if tunable == 0 then default_bits_per_key else tunable

-- The loop of `imr_lsm_next_power_of_two_u32`. The fuel is the number of doublings, and 32 doublings
-- pass every `__u32`.
unfoldable pub power_loop : ℕ → ℕ → ℕ → ℕ
power_loop zero value result = result
power_loop (suc fuel) value result =
    let rest = power_loop fuel value (result * 2 % u32_mod) in
    if ltb result value && leb result (u32_max / 2) then rest else result

unfoldable pub next_power_of_two : ℕ → ℕ
unfolding power_loop
next_power_of_two value = if leb value 1 then 1 else power_loop 32 value 1

unfoldable pub bloom_choose_bits : ℕ → ℕ → ℕ
bloom_choose_bits tunable key_count =
    let target_bits = key_count * bloom_bits_per_key tunable % u64_mod in
    let raised = if ltb target_bits bloom_min_bits then bloom_min_bits else target_bits in
    let capped = if ltb bloom_max_bits raised then bloom_max_bits else raised in
    let bits = next_power_of_two (capped % u32_mod) in
    let bits' = if ltb bits bloom_min_bits then bloom_min_bits else bits in
    if key_count == 0
    then bloom_min_bits
    else if ltb bloom_max_bits bits'
    then bloom_max_bits
    else bits'

unfoldable pub bloom_choose_hashes : ℕ → ℕ
bloom_choose_hashes bits_per_key =
    let hashes = bits_per_key * 69 % u32_mod / 100 in
    let raised = if ltb hashes bloom_min_hashes then bloom_min_hashes else hashes in
    if ltb bloom_max_hashes raised then bloom_max_hashes else raised

-- the 64-bit mix of the key and the seed; `>> 33` is a division
unfoldable pub bloom_mix : ℕ → ℕ → ℕ
bloom_mix key seed =
    let a = bit_xor key ((seed + 1) * 0x9e37_79b9_7f4a_7c15 % u64_mod) in
    let b = bit_xor a (a / 2 ^ 33) * 0xff51_afd7_ed55_8ccd % u64_mod in
    let c = bit_xor b (b / 2 ^ 33) * 0xc4ce_b9fe_1a85_ec53 % u64_mod in bit_xor c (c / 2 ^ 33)

unfoldable pub bloom_hash : ℕ → ℕ → ℕ → ℕ
bloom_hash key seed bloom_bits =
    bit_and (bloom_mix key seed) ((bloom_bits + u32_mod - 1) % u32_mod) % u32_mod

-- `bloom_words[bit / 64] |= (1ULL << (bit % 64))`
unfoldable pub set_bit : ℕ → List ℕ → List ℕ
set_bit bit words = set words (bit / 64) (bit_or (get_or words (bit / 64) 0) (2 ^ (bit % 64)))

-- `bloom_words[bit / 64] & (1ULL << (bit % 64))`, as a test
unfoldable pub has_bit : ℕ → List ℕ → Bool
has_bit bit words = not (bit_and (get_or words (bit / 64) 0) (2 ^ (bit % 64)) == 0)

-- The loops over `hash_idx`, from the number of hashes left and the next index.
unfoldable pub add_loop : ℕ → ℕ → ℕ → ℕ → List ℕ → List ℕ
add_loop zero hash_idx bloom_bits key words = words
add_loop (suc left) hash_idx bloom_bits key words =
    add_loop left (hash_idx + 1) bloom_bits key (set_bit (bloom_hash key hash_idx bloom_bits) words)

unfoldable pub bloom_add : ℕ → ℕ → ℕ → List ℕ → List ℕ
bloom_add bloom_bits bloom_hashes key words = add_loop bloom_hashes 0 bloom_bits key words

unfoldable pub contain_loop : ℕ → ℕ → ℕ → ℕ → List ℕ → Bool
contain_loop zero hash_idx bloom_bits key words = true
contain_loop (suc left) hash_idx bloom_bits key words =
    let rest = contain_loop left (hash_idx + 1) bloom_bits key words in
    if has_bit (bloom_hash key hash_idx bloom_bits) words then rest else false

-- a filter without words says that it may contain every key
unfoldable pub bloom_may_contain : Bloom → ℕ → Bool
bloom_may_contain b key =
    if (length b.bits == 0) || (b.bits_count == 0) || (b.hash_count == 0)
    then true
    else contain_loop b.hash_count 0 b.bits_count key b.bits

-- `imr_lsm_segment_build_bloom`, when its `kzalloc` succeeds, over the keys of the block table
abbrev pub add_keys : ℕ → ℕ → List ℕ → List ℕ → List ℕ
add_keys bloom_bits bloom_hashes [] words = words
add_keys bloom_bits bloom_hashes (key ∷ keys) words =
    add_keys bloom_bits bloom_hashes keys (bloom_add bloom_bits bloom_hashes key words)

unfoldable pub build_bloom : ℕ → List ℕ → Bloom
build_bloom tunable keys =
    let key_count = length keys in
    let bits = bloom_choose_bits tunable key_count in
    let words = bits / 64 in
    let bits_per_key =
      if key_count == 0 then bloom_bits_per_key tunable else max 1 (bits / key_count) in
    let hashes = bloom_choose_hashes bits_per_key in
    record {
      key_count = key_count;
      bits_count = bits;
      word_count = words;
      hash_count = hashes;
      bits = add_keys bits hashes keys (replicate words 0);
    }
