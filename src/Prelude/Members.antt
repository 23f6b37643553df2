-- ===== src/Prelude/Members.antt =====
-- What holds of every record of a list, and what of every record that a search finds.
use Prim.Native.Nat.{ℕ, zero, suc, ◌<◌}
use mathlib.Core.Path.{◌≡◌, refl, subst}
use mathlib.Core.Logic.{inl, inr}
use mathlib.Core.Bool.{false}
use mathlib.Core.List.{List, [], ◌∷◌, ◌++◌, map}
use mathlib.Core.Option.{some}
use native.Mathlib.Omega.{arith}
use imr_lsm.Prelude.Tests.{◌==◌, Bool-cases, ==_self}
use imr_lsm.Prelude.Lists.{length, get_elem?, All}
use imr_lsm.Prelude.Keyed.{IsAscending, find}

module _ {A : Type 0} (key : A → ℕ) where
  pub All-find :
      (P : A → Type 0) (k : ℕ) (xs : List A) (x : A) → All P xs → find key k xs ≡ some x → P x
  unfolding find
  All-find P k [] x h e = cc
  All-find P k (y ∷ ys) x h e = elim (Bool-cases (key y == k)) [
    | inl here ↦
        let found : some y ≡ some x = rw here at e in let same : y ≡ x = cc in subst P same h.0
    | inr there ↦ All-find P k ys x h.1 (rw there at e)
  ]

  pub find-filled : (k : ℕ) (xs : List A) (x : A) → find key k xs ≡ some x → 0 < length xs
  unfolding find
  find-filled k [] x e = cc
  find-filled k (y ∷ ys) x e = omega arith

  -- in an ascending list every record is the one that a search for its key finds
  pub All-of-find :
      (P : A → Type 0) (xs : List A)
      → IsAscending key xs
      → ((x : A) → find key (key x) xs ≡ some x → P x)
      → All P xs
  unfolding find
  All-of-find P [] h p = tt
  All-of-find P (y ∷ ys) h p = (
    p y (rw (==_self (key y)) refl),
    All-of-find P ys h.1 (λ x e.
        let above = All-find (λ (z : A). key y < key z) (key x) ys x h.0 e in
        let differs : (key y == key x) ≡ false = ground arith in p x (rw differs e)),
  )

module _ {ℓ} {A : Type ℓ} where
  pub All-of-get :
      (P : A → Type 0) (xs : List A) → ((i : ℕ) (x : A) → get_elem? xs i ≡ some x → P x) → All P xs
  All-of-get P [] p = tt
  All-of-get P (y ∷ ys) p = (p 0 y refl, All-of-get P ys (λ i x e. p (suc i) x e))

  pub All-append : (P : A → Type 0) (xs ys : List A) → All P xs → All P ys → All P (xs ++ ys)
  All-append P [] ys h k = k
  All-append P (x ∷ xs) ys h k = (h.0, All-append P xs ys h.1 k)

  pub All-mono : (P Q : A → Type 0) (xs : List A) → ((x : A) → P x → Q x) → All P xs → All Q xs
  All-mono P Q [] f h = tt
  All-mono P Q (x ∷ xs) f h = (f x h.0, All-mono P Q xs f h.1)

  pub All-map :
      (P : A → Type 0) (f : A → A) (xs : List A)
      → ((x : A) → P x → P (f x))
      → All P xs
      → All P (map f xs)
  All-map P f [] keeps h = tt
  All-map P f (x ∷ xs) keeps h = (keeps x h.0, All-map P f xs keeps h.1)

  pub get_elem?-map :
      {B : Type 0} (f : A → B) (xs : List A) (i : ℕ) (x : A)
      → get_elem? xs i ≡ some x
      → get_elem? (map f xs) i ≡ some (f x)
  get_elem?-map f [] i x e = cc
  get_elem?-map f (y ∷ ys) zero x e = cc
  get_elem?-map f (y ∷ ys) (suc i) x e = get_elem?-map f ys i x e

  pub All_get_elem? :
      (P : A → Type 0) (xs : List A) (i : ℕ) (x : A) → All P xs → get_elem? xs i ≡ some x → P x
  All_get_elem? P [] i x h e = cc
  All_get_elem? P (y ∷ ys) zero x h e = let same : y ≡ x = cc in subst P same h.0
  All_get_elem? P (y ∷ ys) (suc i) x h e = All_get_elem? P ys i x h.1 e
