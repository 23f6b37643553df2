-- ===== src/Prelude/Bits.antt =====
-- Single bits of a word: what `|` and `&` do to the bit 2 ^ i.
use Prim.Native.Nat.{
  ℕ, zero, suc, ◌+◌, ◌*◌, ◌/◌, ◌%◌, ◌^◌, ◌≤◌, ◌<◌, min, max, bit_and, bit_or, digits,
  bit_and-bitwise, bit_or-bitwise,
}
use mathlib.Core.Path.{◌≡◌, refl, ◌∙◌, ap}
use native.Mathlib.Nat.{pow-suc}
use native.Mathlib.Omega.{arith}

-- The native operations stand for a recursion over the halves of the left number, whose fuel does not
-- matter once it is enough; so each takes one step per bit.
module _ (rest : ℕ → ℕ) (bit : ℕ → ℕ → ℕ) where
  digits_enough :
      (x y left right : ℕ)
      → x ≤ left
      → x ≤ right
      → digits rest bit left x y ≡ digits rest bit right x y
  digits_enough zero y zero zero l r = refl
  digits_enough zero y zero (suc right) l r = refl
  digits_enough zero y (suc left) zero l r = refl
  digits_enough zero y (suc left) (suc right) l r = refl
  digits_enough (suc x) y zero right l r = absurd (omega arith)
  digits_enough (suc x) y (suc left) zero l r = absurd (omega arith)
  digits_enough (suc x) y (suc left) (suc right) l r =
      ap (λ high. high * 2 + bit (suc x % 2) (y % 2))
        (digits_enough (suc x / 2) (y / 2) left right (omega arith) (omega arith))

  digits_step :
      (x y : ℕ)
      → digits rest bit (suc x) (suc x) y
        ≡ digits rest bit (suc x / 2) (suc x / 2) (y / 2) * 2 + bit (suc x % 2) (y % 2)
  digits_step x y =
      ap (λ high. high * 2 + bit (suc x % 2) (y % 2))
        (digits_enough (suc x / 2) (y / 2) x (suc x / 2) (omega arith) (omega arith))

pub bit_and_step : (x y : ℕ) → bit_and x y ≡ bit_and (x / 2) (y / 2) * 2 + min (x % 2) (y % 2)
bit_and_step zero b = omega (arith, bit_and-bitwise 0 b, bit_and-bitwise 0 (b / 2))
bit_and_step (suc x) b = omega (
  arith,
  digits_step (λ y. 0) min x b,
  bit_and-bitwise (suc x) b,
  bit_and-bitwise (suc x / 2) (b / 2),
)

pub bit_or_step : (x y : ℕ) → bit_or x y ≡ bit_or (x / 2) (y / 2) * 2 + max (x % 2) (y % 2)
bit_or_step zero b = omega (arith, bit_or-bitwise 0 b, bit_or-bitwise 0 (b / 2))
bit_or_step (suc x) b = omega (
  arith,
  digits_step (λ y. y) max x b,
  bit_or-bitwise (suc x) b,
  bit_or-bitwise (suc x / 2) (b / 2),
)

pow_half : (i : ℕ) → 2 ^ suc i / 2 ≡ 2 ^ i
pow_half i = omega (arith, pow-suc 2 i)

pow_even : (i : ℕ) → 2 ^ suc i % 2 ≡ 0
pow_even i = omega (arith, pow-suc 2 i)

-- a bound on the right number, halved together with the left one
mask_bounds : (size x m : ℕ) → x ≤ size → bit_and x m ≤ m
mask_bounds size zero m fits = omega (arith, bit_and-bitwise 0 m)
mask_bounds zero (suc x) m fits = absurd (omega arith)
mask_bounds (suc size) (suc x) m fits =
    omega (arith, mask_bounds size (suc x / 2) (m / 2) (omega arith), bit_and_step (suc x) m)

-- A mask bounds.
pub bit_and-le : (a b : ℕ) → bit_and a b ≤ b
bit_and-le a b = mask_bounds a a b (omega arith)

keeps_all : (size x : ℕ) → x ≤ size → bit_or x 0 ≡ x
keeps_all size zero fits = bit_or-bitwise 0 0
keeps_all zero (suc x) fits = absurd (omega arith)
keeps_all (suc size) (suc x) fits =
    omega (arith, keeps_all size (suc x / 2) (omega arith), bit_or_step (suc x) 0)

bit_or-zero : (a : ℕ) → bit_or a 0 ≡ a
bit_or-zero a = keeps_all a a (omega arith)

and_half : (a i : ℕ) → bit_and a (2 ^ suc i) ≡ bit_and (a / 2) (2 ^ i) * 2
and_half a i = bit_and_step a (2 ^ suc i) ∙ rw (pow_half i, pow_even i) (omega arith)

or_half : (a i : ℕ) → bit_or a (2 ^ suc i) ≡ bit_or (a / 2) (2 ^ i) * 2 + a % 2
or_half a i = bit_or_step a (2 ^ suc i) ∙ rw (pow_half i, pow_even i) (omega arith)

or_halved : (a i : ℕ) → bit_or a (2 ^ suc i) / 2 ≡ bit_or (a / 2) (2 ^ i)
or_halved a i = omega (arith, or_half a i)

or_one_halved : (a : ℕ) → bit_or a 1 / 2 ≡ a / 2
or_one_halved a = omega (arith, bit_or_step a 1, bit_or-zero (a / 2))

-- A bit that was set is set.
pub bit_or_sets : (i w : ℕ) → 0 < bit_and (bit_or w (2 ^ i)) (2 ^ i)
bit_or_sets zero w = omega (arith, bit_and_step (bit_or w 1) 1, bit_or_step w 1)
bit_or_sets (suc i) w =
    rw (and_half (bit_or w (2 ^ suc i)) i, or_halved w i) (omega (arith, bit_or_sets i (w / 2)))

-- Setting a bit clears none.
pub bit_or_keeps : (i j w : ℕ) → 0 < bit_and w (2 ^ i) → 0 < bit_and (bit_or w (2 ^ j)) (2 ^ i)
bit_or_keeps zero zero w h = bit_or_sets 0 w
bit_or_keeps zero (suc j) w h = omega (
  arith,
  bit_and_step (bit_or w (2 ^ suc j)) 1,
  bit_and_step w 1,
  bit_and-le (w / 2) 0,
  or_half w j,
)
bit_or_keeps (suc i) zero w h =
    let h' : 0 < bit_and (w / 2) (2 ^ i) = omega (arith, and_half w i) in
    rw (and_half (bit_or w 1) i, or_one_halved w) (omega arith)
bit_or_keeps (suc i) (suc j) w h =
    let h' : 0 < bit_and (w / 2) (2 ^ i) = omega (arith, and_half w i) in
    rw (and_half (bit_or w (2 ^ suc j)) i, or_halved w j)
      (omega (arith, bit_or_keeps i j (w / 2) h'))
