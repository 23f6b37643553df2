-- ===== src/ReadTree/Lru.antt =====
-- The LRU list, against the nodes of the tree: each key once.
use imr_lsm.Prelude.{
  ℕ, ◌+◌, ◌<◌, ◌≤◌, ◌≡◌, List, [], ◌∷◌, ◌++◌, ltb, ◌==◌, if◌then◌else◌, arith, length,
  length-append,
}
use imr_lsm.ReadTree.Defs.{list_del, list_move_tail}

unfoldable pub count : ℕ → List ℕ → ℕ
count k [] = 0
count k (x ∷ xs) = (if x == k then 1 else 0) + count k xs

pub count-append : (k : ℕ) (xs ys : List ℕ) → count k (xs ++ ys) ≡ count k xs + count k ys
unfolding count
count-append k [] ys = omega arith
count-append k (x ∷ xs) ys = ground (arith, count-append k xs ys)

pub count-list_del :
    (j k : ℕ) (xs : List ℕ) → count j (list_del k xs) ≡ (if k == j then 0 else count j xs)
unfolding count list_del
count-list_del j k [] = ground arith
count-list_del j k (x ∷ xs) = ground (arith, count-list_del j k xs)

pub length-list_del : (k : ℕ) (xs : List ℕ) → length (list_del k xs) + count k xs ≡ length xs
unfolding count list_del
length-list_del k [] = omega arith
length-list_del k (x ∷ xs) = ground (arith, length-list_del k xs)

pub count-le-length : (k : ℕ) (xs : List ℕ) → count k xs ≤ length xs
unfolding count
count-le-length k [] = omega arith
count-le-length k (x ∷ xs) = ground (arith, count-le-length k xs)

-- A move to the tail keeps a list that has the key once, but for the order.
pub count-list_move_tail :
    (j k : ℕ) (xs : List ℕ) → count k xs ≡ 1 → count j (list_move_tail k xs) ≡ count j xs
unfolding count list_move_tail
count-list_move_tail j k xs e =
    ground (arith, count-append j (list_del k xs) (k ∷ []), count-list_del j k xs)

pub length-list_move_tail :
    (k : ℕ) (xs : List ℕ) → count k xs ≡ 1 → length (list_move_tail k xs) ≡ length xs
unfolding list_move_tail
length-list_move_tail k xs e =
    omega (arith, length-append (list_del k xs) (k ∷ []), length-list_del k xs)

-- the list without its first keys, down to the limit
unfoldable pub drop_to : ℕ → List ℕ → List ℕ
drop_to limit [] = []
drop_to limit (k ∷ ks) =
    let rest = drop_to limit ks in if ltb limit (length (k ∷ ks)) then rest else k ∷ ks

pub count-drop_to : (j limit : ℕ) (ks : List ℕ) → count j (drop_to limit ks) ≤ count j ks
unfolding count drop_to
count-drop_to j limit [] = omega arith
count-drop_to j limit (k ∷ ks) = ground (arith, count-drop_to j limit ks)

-- the last key stays
pub drop_to_last :
    (limit k : ℕ) (ks : List ℕ) → 0 < limit → 0 < count k (drop_to limit (ks ++ (k ∷ [])))
unfolding count drop_to
drop_to_last limit k [] pos = ground arith
drop_to_last limit k (x ∷ ks) pos =
    ground (arith, drop_to_last limit k ks pos, count-append k ks (k ∷ []))
