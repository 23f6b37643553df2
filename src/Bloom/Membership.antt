-- ===== src/Bloom/Membership.antt =====
-- Membership in a Bloom filter: keys added and keys tested.
use imr_lsm.Prelude.{
  ℕ, zero, suc, ◌+◌, ◌-◌, ◌*◌, ◌/◌, ◌%◌, ◌^◌, ◌≤◌, ◌<◌, ◌≡◌, refl, ◌∙◌, some, get_elem?, replicate,
  length-replicate, inl, inr, true, ◌==◌, arith, Bool-cases, u32_max, u32_mod, List, [], ◌∷◌,
  get_or, length, length-set, get_or-set_self, get_or-set_ne, get_or-set_cases, bit_or,
}
use imr_lsm.Prelude.Bits.{bit_or_sets, bit_or_keeps, bit_and-le}
use imr_lsm.Bloom.Sizes.{bloom_choose_bits_lem}
use imr_lsm.Bloom.{
  set_bit, has_bit, bloom_hash, add_loop, bloom_add, contain_loop, bloom_may_contain, add_keys,
  build_bloom, bloom_mix, bloom_choose_bits,
}

has_bit-set_bit_self :
    (bit : ℕ) (words : List ℕ) → bit / 64 < length words → has_bit bit (set_bit bit words) ≡ true
unfolding has_bit set_bit
has_bit-set_bit_self bit words h =
    let w = get_or words (bit / 64) 0 in
    rw (get_or-set_self words (bit / 64) (bit_or w (2 ^ (bit % 64))) 0 h)
      (ground (arith, bit_or_sets (bit % 64) w))

has_bit-set_bit :
    (bit other : ℕ) (words : List ℕ)
    → has_bit bit words ≡ true
    → has_bit bit (set_bit other words) ≡ true
unfolding has_bit set_bit
has_bit-set_bit bit other words h =
    let w = get_or words (bit / 64) 0 in
    let v = bit_or w (2 ^ (other % 64)) in
    elim (Bool-cases (other / 64 == bit / 64)) [
      | inl e ↦
          let same : other / 64 ≡ bit / 64 = ground arith in
          elim (get_or-set_cases words (bit / 64) v 0) [
            | inl written ↦
                rw (same, written)
                  (ground (arith, bit_or_keeps (bit % 64) (other % 64) (get_or words (bit / 64) 0)))
            | inr kept ↦ rw (same, kept) h
          ]
      | inr e ↦ rw (get_or-set_ne words (other / 64) (bit / 64) _ 0 (ground arith)) h
    ]

has_bit-bloom_hash :
    (key hash_idx bits : ℕ) (words : List ℕ)
    → 0 < bits
    → bits ≤ u32_max
    → length words * 64 ≡ bits
    → bloom_hash key hash_idx bits / 64 < length words
unfolding bloom_hash
has_bit-bloom_hash key hash_idx bits words pos fits whole =
    let mask = (bits + u32_mod - 1) % u32_mod in
    omega (arith, bit_and-le (bloom_mix key hash_idx) mask)

length-set_bit : (bit : ℕ) (words : List ℕ) → length (set_bit bit words) ≡ length words
unfolding set_bit
length-set_bit bit words = length-set words (bit / 64) _

add_loop-length :
    (left hash_idx bits key : ℕ) (words : List ℕ)
    → length (add_loop left hash_idx bits key words) ≡ length words
unfolding add_loop
add_loop-length zero hash_idx bits key words = refl
add_loop-length (suc left) hash_idx bits key words =
    add_loop-length left (hash_idx + 1) bits key _ ∙ length-set_bit _ words

add_loop_keeps :
    (bit left hash_idx bits key : ℕ) (words : List ℕ)
    → has_bit bit words ≡ true
    → has_bit bit (add_loop left hash_idx bits key words) ≡ true
unfolding add_loop
add_loop_keeps bit zero hash_idx bits key words h = h
add_loop_keeps bit (suc left) hash_idx bits key words h =
    add_loop_keeps bit left (hash_idx + 1) bits key _ (has_bit-set_bit bit _ words h)

-- Bits only come: what a filter may contain it still may contain with more bits set.
abbrev Covers : List ℕ → List ℕ → Type 0
Covers ws vs = (bit : ℕ) → has_bit bit vs ≡ true → has_bit bit ws ≡ true

contain_loop-Covers :
    (left hash_idx bits key : ℕ) (ws vs : List ℕ)
    → Covers ws vs
    → contain_loop left hash_idx bits key vs ≡ true
    → contain_loop left hash_idx bits key ws ≡ true
unfolding contain_loop
contain_loop-Covers zero hash_idx bits key ws vs c h = refl
contain_loop-Covers (suc left) hash_idx bits key ws vs c h = ground (
  arith,
  c (bloom_hash key hash_idx bits),
  contain_loop-Covers left (hash_idx + 1) bits key ws vs c,
)

contain_loop-add_loop :
    (left hash_idx bits key : ℕ) (words : List ℕ)
    → 0 < bits
    → bits ≤ u32_max
    → length words * 64 ≡ bits
    → contain_loop left hash_idx bits key (add_loop left hash_idx bits key words) ≡ true
unfolding contain_loop add_loop
contain_loop-add_loop zero hash_idx bits key words pos fits whole = refl
contain_loop-add_loop (suc left) hash_idx bits key words pos fits whole =
    let bit = bloom_hash key hash_idx bits in
    let first = add_loop_keeps bit left (hash_idx + 1) bits key (set_bit bit words) (
      has_bit-set_bit_self bit words (has_bit-bloom_hash key hash_idx bits words pos fits whole)) in
    let rest =
      contain_loop-add_loop left (hash_idx + 1) bits key (set_bit bit words) pos fits
        (omega (arith, length-set_bit bit words)) in
    rw (first, rest)

add_keys-Covers : (bits hashes : ℕ) (keys ws : List ℕ) → Covers (add_keys bits hashes keys ws) ws
unfolding bloom_add
add_keys-Covers bits hashes [] ws bit h = h
add_keys-Covers bits hashes (key ∷ keys) ws bit h =
    add_keys-Covers bits hashes keys _ bit (add_loop_keeps bit hashes 0 bits key ws h)

add_keys-contains :
    (bits hashes : ℕ) (keys ws : List ℕ) (i key : ℕ)
    → 0 < bits
    → bits ≤ u32_max
    → length ws * 64 ≡ bits
    → get_elem? keys i ≡ some key
    → contain_loop hashes 0 bits key (add_keys bits hashes keys ws) ≡ true
unfolding bloom_add
add_keys-contains bits hashes [] ws i key pos fits whole e = cc
add_keys-contains bits hashes (k ∷ keys) ws zero key pos fits whole e =
    let same : k ≡ key = ground arith in
    rw same (
      contain_loop-Covers hashes 0 bits key _ _ (add_keys-Covers bits hashes keys _)
        (contain_loop-add_loop hashes 0 bits key ws pos fits whole))
add_keys-contains bits hashes (k ∷ keys) ws (suc i) key pos fits whole e =
    add_keys-contains bits hashes keys _ i key pos fits
      (omega (arith, add_loop-length hashes 0 bits k ws)) e

add_keys-length :
    (bits hashes : ℕ) (keys ws : List ℕ) → length (add_keys bits hashes keys ws) ≡ length ws
unfolding bloom_add
add_keys-length bits hashes [] ws = refl
add_keys-length bits hashes (k ∷ keys) ws =
    add_keys-length bits hashes keys _ ∙ add_loop-length hashes 0 bits k ws

-- The filter that is built from a list of keys answers "maybe" for each key of the list: a lookup that
-- the filter stops misses nothing. This holds for every tunable.
pub build_bloom-bloom_may_contain :
    (tunable : ℕ) (keys : List ℕ) (i key : ℕ)
    → get_elem? keys i ≡ some key
    → bloom_may_contain (build_bloom tunable keys) key ≡ true
unfolding build_bloom bloom_may_contain
build_bloom-bloom_may_contain tunable keys i key e =
    let (low, high, whole) = bloom_choose_bits_lem tunable (length keys) in
    let bits = bloom_choose_bits tunable (length keys) in
    let words : List ℕ = replicate (bits / 64) 0 in
    let hashes = (build_bloom tunable keys).hash_count in
    let inside : contain_loop hashes 0 bits key (add_keys bits hashes keys words) ≡ true =
      add_keys-contains bits hashes keys words i key (omega arith) (omega arith)
        (omega (arith, length-replicate {A = ℕ} (bits / 64) 0)) e in
    ground (arith, inside)
