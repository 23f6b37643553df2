-- ===== src/Prelude/Keyed.antt =====
-- Lists of records in ascending order of a key: the sorted levels, the block tables of the
-- segments, and the nodes of the read tree from left to right.
use Prim.Native.Nat.{ℕ, suc, ◌+◌, ◌≤◌, ◌<◌}
use mathlib.Core.Path.{◌≡◌, refl}
use mathlib.Core.Logic.{◌≢◌, inl, inr}
use mathlib.Core.Bool.{true}
use mathlib.Core.List.{List, [], ◌∷◌, ◌++◌}
use mathlib.Core.Option.{Option, none, some}
use native.Mathlib.Omega.{arith}
use imr_lsm.Prelude.Tests.{ltb, ◌==◌, if◌then◌else◌, Bool-cases}
use imr_lsm.Prelude.Lists.{length, All}

module _ {A : Type 0} (key : A → ℕ) where
  -- every key lies above `k`
  abbrev pub AllAbove : ℕ → List A → Type 0
  AllAbove k = All (λ x. k < key x)

  abbrev pub IsAscending : List A → Type 0
  IsAscending [] = Unit
  IsAscending (x ∷ xs) = AllAbove (key x) xs × IsAscending xs

  -- the first record with the key
  unfoldable pub find : ℕ → List A → Option A
  find k [] = none
  find k (x ∷ xs) = if key x == k then some x else find k xs

  -- all records but those with the key
  unfoldable pub without : ℕ → List A → List A
  without k [] = []
  without k (x ∷ xs) = let rest = without k xs in if key x == k then rest else x ∷ rest

  -- the scan of an ascending list, which stops at the first key above `k`
  unfoldable pub sorted_find : ℕ → List A → Option A
  sorted_find k [] = none
  sorted_find k (x ∷ xs) =
      let rest = sorted_find k xs in
      if key x == k then some x else if ltb k (key x) then none else rest

  -- a new record goes behind all records with a smaller key
  unfoldable pub insert : A → List A → List A
  insert x [] = x ∷ []
  insert x (y ∷ ys) = let rest = insert x ys in if ltb (key y) (key x) then y ∷ rest else x ∷ y ∷ ys

  -- the first record with the key is changed in place
  unfoldable pub modify : ℕ → (A → A) → List A → List A
  modify k f [] = []
  modify k f (x ∷ xs) = let rest = modify k f xs in if key x == k then f x ∷ xs else x ∷ rest

  pub AllAbove-mono : (j k : ℕ) (xs : List A) → j ≤ k → AllAbove k xs → AllAbove j xs
  AllAbove-mono j k [] le h = tt
  AllAbove-mono j k (x ∷ xs) le h = (omega arith, AllAbove-mono j k xs le h.1)

  pub find_of_AllAbove : (j k : ℕ) (xs : List A) → j ≤ k → AllAbove k xs → find j xs ≡ none
  unfolding find
  find_of_AllAbove j k [] le h = refl
  find_of_AllAbove j k (x ∷ xs) le h = ground (arith, find_of_AllAbove j k xs le h.1)

  pub find-without :
      (j k : ℕ) (xs : List A) → find j (without k xs) ≡ (if k == j then none else find j xs)
  unfolding find without
  find-without j k [] = ground arith
  find-without j k (x ∷ xs) = ground (arith, find-without j k xs)

  pub AllAbove-without : (j k : ℕ) (xs : List A) → AllAbove j xs → AllAbove j (without k xs)
  unfolding without
  AllAbove-without j k [] h = tt
  AllAbove-without j k (x ∷ xs) h = elim (Bool-cases (key x == k)) [
    | inl e ↦ rw e (AllAbove-without j k xs h.1)
    | inr e ↦ rw e (h.0, AllAbove-without j k xs h.1)
  ]

  pub without-IsAscending : (k : ℕ) (xs : List A) → IsAscending xs → IsAscending (without k xs)
  unfolding without
  without-IsAscending k [] h = tt
  without-IsAscending k (x ∷ xs) h = elim (Bool-cases (key x == k)) [
    | inl e ↦ rw e (without-IsAscending k xs h.1)
    | inr e ↦ rw e (AllAbove-without (key x) k xs h.0, without-IsAscending k xs h.1)
  ]

  pub sorted_find-find : (k : ℕ) (xs : List A) → IsAscending xs → sorted_find k xs ≡ find k xs
  unfolding sorted_find find
  sorted_find-find k [] h = refl
  sorted_find-find k (x ∷ xs) h =
      ground
        (arith, sorted_find-find k xs h.1, λ (le : k ≤ key x). find_of_AllAbove k (key x) xs le h.0)

  pub find-insert :
      (j : ℕ) (x : A) (xs : List A)
      → find (key x) xs ≡ none
      → find j (insert x xs) ≡ (if key x == j then some x else find j xs)
  unfolding find insert
  find-insert j x [] e = refl
  find-insert j x (y ∷ ys) e = ground (arith, find-insert j x ys)

  pub AllAbove-insert :
      (k : ℕ) (x : A) (xs : List A) → k < key x → AllAbove k xs → AllAbove k (insert x xs)
  unfolding insert
  AllAbove-insert k x [] lt h = (lt, tt)
  AllAbove-insert k x (y ∷ ys) lt h = elim (Bool-cases (ltb (key y) (key x))) [
    | inl e ↦ rw e (h.0, AllAbove-insert k x ys lt h.1)
    | inr e ↦ rw e (lt, h)
  ]

  pub insert-IsAscending :
      (x : A) (xs : List A) → IsAscending xs → find (key x) xs ≡ none → IsAscending (insert x xs)
  unfolding insert find
  insert-IsAscending x [] h e = (tt, tt)
  insert-IsAscending x (y ∷ ys) h e = elim (Bool-cases (ltb (key y) (key x))) [
    | inl lt ↦ rw lt (
      AllAbove-insert (key y) x ys (ground arith) h.0,
      insert-IsAscending x ys h.1 (ground arith),
    )
    | inr ge ↦
        let lt : key x < key y = ground arith in
        rw ge ((lt, AllAbove-mono (key x) (key y) ys (omega arith) h.0), h)
  ]

  pub length-insert : (x : A) (xs : List A) → length (insert x xs) ≡ suc (length xs)
  unfolding insert
  length-insert x [] = refl
  length-insert x (y ∷ ys) = ground (arith, length-insert x ys)

  pub length-modify : (k : ℕ) (f : A → A) (xs : List A) → length (modify k f xs) ≡ length xs
  unfolding modify
  length-modify k f [] = refl
  length-modify k f (x ∷ xs) = ground (arith, length-modify k f xs)

  module _ (f : A → A) (keeps : (x : A) → key (f x) ≡ key x) where
    pub find-modify_self :
        (k : ℕ) (x : A) (xs : List A) → find k xs ≡ some x → find k (modify k f xs) ≡ some (f x)
    unfolding find modify
    find-modify_self k x [] e = ground arith
    find-modify_self k x (y ∷ ys) e = ground (arith, find-modify_self k x ys, keeps y)

    pub find-modify_ne : (j k : ℕ) (xs : List A) → k ≢ j → find j (modify k f xs) ≡ find j xs
    unfolding find modify
    find-modify_ne j k [] h = refl
    find-modify_ne j k (y ∷ ys) h = ground (arith, find-modify_ne j k ys h, keeps y)

    pub AllAbove-modify : (j k : ℕ) (xs : List A) → AllAbove j xs → AllAbove j (modify k f xs)
    unfolding modify
    AllAbove-modify j k [] h = tt
    AllAbove-modify j k (y ∷ ys) h = elim (Bool-cases (key y == k)) [
      | inl e ↦ rw e (omega (arith, keeps y), h.1)
      | inr e ↦ rw e (h.0, AllAbove-modify j k ys h.1)
    ]

    pub modify-IsAscending : (k : ℕ) (xs : List A) → IsAscending xs → IsAscending (modify k f xs)
    unfolding modify
    modify-IsAscending k [] h = tt
    modify-IsAscending k (y ∷ ys) h = elim (Bool-cases (key y == k)) [
      | inl e ↦ rw e (rw (keeps y) h)
      | inr e ↦ rw e (AllAbove-modify (key y) k ys h.0, modify-IsAscending k ys h.1)
    ]

  pub find-append :
      (k : ℕ) (xs ys : List A)
      → find k (xs ++ ys) ≡ elim (find k xs) [ none ↦ find k ys | some x ↦ some x ]
  unfolding find
  find-append k [] ys = refl
  find-append k (x ∷ xs) ys = elim (Bool-cases (key x == k)) [
    | inl e ↦ rw e
    | inr e ↦ rw e (find-append k xs ys)
  ]

  pub AllAbove-append_right : (k : ℕ) (xs ys : List A) → AllAbove k (xs ++ ys) → AllAbove k ys
  AllAbove-append_right k [] ys h = h
  AllAbove-append_right k (x ∷ xs) ys h = AllAbove-append_right k xs ys h.1

  pub AllAbove-append_left : (k : ℕ) (xs ys : List A) → AllAbove k (xs ++ ys) → AllAbove k xs
  AllAbove-append_left k [] ys h = tt
  AllAbove-append_left k (x ∷ xs) ys h = (h.0, AllAbove-append_left k xs ys h.1)

  pub IsAscending-append_right : (xs ys : List A) → IsAscending (xs ++ ys) → IsAscending ys
  IsAscending-append_right [] ys h = h
  IsAscending-append_right (x ∷ xs) ys h = IsAscending-append_right xs ys h.1

  pub IsAscending-append_left : (xs ys : List A) → IsAscending (xs ++ ys) → IsAscending xs
  IsAscending-append_left [] ys h = tt
  IsAscending-append_left (x ∷ xs) ys h =
      (AllAbove-append_left (key x) xs ys h.0, IsAscending-append_left xs ys h.1)

  -- left of a record stand only smaller keys
  pub find_left :
      (k : ℕ) (xs : List A) (y : A) (ys : List A)
      → IsAscending (xs ++ y ∷ ys)
      → key y ≤ k
      → find k xs ≡ none
  unfolding find
  find_left k [] y ys h le = refl
  find_left k (x ∷ xs) y ys h le =
      let above = AllAbove-append_right (key x) xs (y ∷ ys) h.0 in
      ground (arith, above.0, find_left k xs y ys h.1 le)

  pub insert-append_left :
      (x : A) (xs : List A) (y : A) (ys : List A)
      → key x ≤ key y
      → insert x (xs ++ y ∷ ys) ≡ insert x xs ++ y ∷ ys
  unfolding insert
  insert-append_left x [] y ys le = ground arith
  insert-append_left x (z ∷ xs) y ys le = elim (Bool-cases (ltb (key z) (key x))) [
    | inl e ↦ rw e (rw (insert-append_left x xs y ys le))
    | inr e ↦ rw e
  ]

  pub insert-append_right :
      (x : A) (xs : List A) (y : A) (ys : List A)
      → IsAscending (xs ++ y ∷ ys)
      → key y < key x
      → insert x (xs ++ y ∷ ys) ≡ xs ++ y ∷ insert x ys
  unfolding insert
  insert-append_right x [] y ys h lt = ground arith
  insert-append_right x (z ∷ xs) y ys h lt =
      let above = AllAbove-append_right (key z) xs (y ∷ ys) h.0 in
      let e : ltb (key z) (key x) ≡ true = ground (arith, above.0) in
      rw e (rw (insert-append_right x xs y ys h.1 lt))

  pub modify-append_left :
      (k : ℕ) (f : A → A) (xs : List A) (x : A) (ys : List A)
      → find k xs ≡ some x
      → modify k f (xs ++ ys) ≡ modify k f xs ++ ys
  unfolding modify find
  modify-append_left k f [] x ys e = ground arith
  modify-append_left k f (z ∷ xs) x ys e = elim (Bool-cases (key z == k)) [
    | inl t ↦ rw t
    | inr t ↦ rw t (rw (modify-append_left k f xs x ys (ground arith)))
  ]

  pub modify-append_right :
      (k : ℕ) (f : A → A) (xs ys : List A)
      → find k xs ≡ none
      → modify k f (xs ++ ys) ≡ xs ++ modify k f ys
  unfolding modify find
  modify-append_right k f [] ys e = refl
  modify-append_right k f (z ∷ xs) ys e = elim (Bool-cases (key z == k)) [
    | inl t ↦ absurd (ground arith)
    | inr t ↦ rw t (rw (modify-append_right k f xs ys (ground arith)))
  ]

  -- 1 if the key is there
  abbrev pub occurs : ℕ → List A → ℕ
  occurs k xs = elim (find k xs) [ none ↦ 0 | some _ ↦ 1 ]

  pub without_absent : (k : ℕ) (xs : List A) → find k xs ≡ none → without k xs ≡ xs
  unfolding find without
  without_absent k [] e = refl
  without_absent k (x ∷ xs) e = ground (arith, without_absent k xs)

  pub length-without :
      (k : ℕ) (xs : List A) → IsAscending xs → length (without k xs) + occurs k xs ≡ length xs
  unfolding find without
  length-without k [] h = omega arith
  length-without k (x ∷ xs) h = ground (
    arith,
    length-without k xs h.1,
    λ (le : k ≤ key x). find_of_AllAbove k (key x) xs le h.0,
    without_absent k xs,
  )

  pub find-key : (k : ℕ) (xs : List A) (x : A) → find k xs ≡ some x → key x ≡ k
  unfolding find
  find-key k [] x e = ground arith
  find-key k (y ∷ ys) x e = ground (arith, find-key k ys x)
