-- ===== src/Prelude/Positions.antt =====
-- Ascending lists by position: where a key stands, and insertion and change at a position.
use Prim.Native.Nat.{ℕ, zero, suc, ◌≤◌, ◌<◌}
use mathlib.Core.Path.{◌≡◌, refl}
use mathlib.Core.Logic.{inl, inr}
use mathlib.Core.Bool.{true}
use mathlib.Core.List.{List, [], ◌∷◌}
use mathlib.Core.Option.{some}
use native.Mathlib.Omega.{arith}
use imr_lsm.Prelude.Tests.{ltb, ◌==◌, if◌then◌else◌, Bool-cases}
use imr_lsm.Prelude.Lists.{length, get_elem?, set}
use imr_lsm.Prelude.Keyed.{AllAbove, IsAscending, find, insert, modify, find_of_AllAbove}

-- the records from a position on move up by one, and the new one takes their place
unfoldable pub insert_at {ℓ} : {A : Type ℓ} → ℕ → A → List A → List A
insert_at zero x xs = x ∷ xs
insert_at (suc i) x [] = x ∷ []
insert_at (suc i) x (y ∷ ys) = y ∷ insert_at i x ys

module _ {A : Type 0} (key : A → ℕ) where
  -- the first position whose key is not below `k`
  unfoldable pub scan_pos : ℕ → List A → ℕ
  scan_pos k [] = 0
  scan_pos k (x ∷ xs) = let rest = suc (scan_pos k xs) in if ltb (key x) k then rest else 0

  pub scan_pos-le : (k : ℕ) (xs : List A) → scan_pos k xs ≤ length xs
  unfolding scan_pos
  scan_pos-le k [] = omega arith
  scan_pos-le k (x ∷ xs) = ground (arith, scan_pos-le k xs)

  pub insert_at-scan_pos :
      (x : A) (xs : List A) → insert_at (scan_pos (key x) xs) x xs ≡ insert key x xs
  unfolding insert_at scan_pos insert
  insert_at-scan_pos x [] = refl
  insert_at-scan_pos x (y ∷ ys) = elim (Bool-cases (ltb (key y) (key x))) [
    | inl e ↦ rw e (rw (insert_at-scan_pos x ys))
    | inr e ↦ rw e
  ]

  -- On an ascending list the key stands at that position or nowhere.
  pub get_elem?-scan_pos :
      (k : ℕ) (xs : List A) (x : A)
      → IsAscending key xs
      → find key k xs ≡ some x
      → get_elem? xs (scan_pos k xs) ≡ some x
  unfolding scan_pos find
  get_elem?-scan_pos k [] x h e = ground arith
  get_elem?-scan_pos k (y ∷ ys) x h e = ground (
    arith,
    get_elem?-scan_pos k ys x h.1,
    λ (le : k ≤ key y). find_of_AllAbove key k (key y) ys le h.0,
  )

  pub set-scan_pos :
      (k : ℕ) (f : A → A) (xs : List A) (x : A)
      → IsAscending key xs
      → find key k xs ≡ some x
      → set xs (scan_pos k xs) (f x) ≡ modify key k f xs
  unfolding scan_pos find modify
  set-scan_pos k f [] x h e = refl
  set-scan_pos k f (y ∷ ys) x h e = ground (
    arith,
    set-scan_pos k f ys x h.1,
    λ (le : k ≤ key y). find_of_AllAbove key k (key y) ys le h.0,
  )

  pub find-get_elem? :
      (xs : List A) (i : ℕ) (x : A)
      → IsAscending key xs
      → get_elem? xs i ≡ some x
      → find key (key x) xs ≡ some x
  unfolding find
  find-get_elem? [] i x h e = ground arith
  find-get_elem? (y ∷ ys) zero x h e = ground arith
  find-get_elem? (y ∷ ys) (suc i) x h e = ground (
    arith,
    find-get_elem? ys i x h.1 e,
    λ (le : key x ≤ key y). find_of_AllAbove key (key x) (key y) ys le h.0,
  )

  pub position :
      (k : ℕ) (xs : List A) (x : A)
      → find key k xs ≡ some x
      → (i : ℕ) × (get_elem? xs i ≡ some x) × (i < length xs) × (key x ≡ k)
  unfolding find
  position k [] x e = absurd (ground arith)
  position k (y ∷ ys) x e = elim (Bool-cases (key y == k)) [
    | inl here ↦ (0, ground arith, ground arith, ground arith)
    | inr there ↦
        let (i, at, lt, same) = position k ys x (ground arith) in (suc i, at, omega arith, same)
  ]

  AllAbove-get_elem? :
      (k : ℕ) (xs : List A) (i : ℕ) (x : A)
      → AllAbove key k xs
      → get_elem? xs i ≡ some x
      → k < key x
  AllAbove-get_elem? k [] i x h e = absurd (ground arith)
  AllAbove-get_elem? k (y ∷ ys) zero x h e = ground arith
  AllAbove-get_elem? k (y ∷ ys) (suc i) x h e = AllAbove-get_elem? k ys i x h.1 e

  -- Keys grow with the position.
  pub key-lt :
      (xs : List A) (i j : ℕ) (x y : A)
      → IsAscending key xs
      → get_elem? xs i ≡ some x
      → get_elem? xs j ≡ some y
      → i < j
      → key x < key y
  key-lt [] i j x y h p q lt = absurd (ground arith)
  key-lt (z ∷ zs) zero zero x y h p q lt = absurd (omega arith)
  key-lt (z ∷ zs) (suc i) zero x y h p q lt = absurd (omega arith)
  key-lt (z ∷ zs) zero (suc j) x y h p q lt =
      ground (arith, AllAbove-get_elem? (key z) zs j y h.0 q)
  key-lt (z ∷ zs) (suc i) (suc j) x y h p q lt = key-lt zs i j x y h.1 p q (omega arith)

  -- If the last key is below `k`, all are.
  pub scan_pos_last :
      (k : ℕ) (xs : List A) (last : ℕ) (x : A)
      → IsAscending key xs
      → length xs ≡ suc last
      → get_elem? xs last ≡ some x
      → key x < k
      → scan_pos k xs ≡ length xs
  unfolding scan_pos
  scan_pos_last k [] last x h len e lt = refl
  scan_pos_last k (y ∷ []) zero x h len e lt = ground arith
  scan_pos_last k (y ∷ []) (suc last) x h len e lt = absurd (omega arith)
  scan_pos_last k (y ∷ z ∷ zs) zero x h len e lt = absurd (omega arith)
  scan_pos_last k (y ∷ z ∷ zs) (suc last) x h len e lt =
      let rest = scan_pos_last k (z ∷ zs) last x h.1 (omega arith) e lt in
      let below = AllAbove-get_elem? (key y) (z ∷ zs) last x h.0 e in
      let first : ltb (key y) k ≡ true = ground arith in rw (first, rest)
