-- ===== src/ReadTree/Invariant.antt =====
-- The invariant of the read tree: the tree is ordered, and the LRU list names its nodes.
use imr_lsm.Prelude.{
  ℕ, ◌≤◌, ◌≡◌, refl, true, false, inl, inr, Option, none, List, [], ◌∷◌, ap, ltb, ◌==◌,
  if◌then◌else◌, arith, Bool-cases, length,
}
use imr_lsm.Prelude.Keyed.{find, occurs, find-without, length-without, without-IsAscending}
use imr_lsm.ReadTree.Defs.{
  TreeNode, RbTree, ReadTree, node_key, nodes, read_tree_limit, evict_step, evict_loop, tree_evict,
}
use imr_lsm.ReadTree.Search.{IsOrdered}
use imr_lsm.ReadTree.Lru.{count, drop_to, count-drop_to}

pub record IsConsistent (t : ReadTree) : Type 0 where
  pub ordered : IsOrdered t.root
  pub sized : t.size ≡ length (nodes t.root)
  pub as_long : length t.lru ≡ length (nodes t.root)
  pub listed : (k : ℕ) → count k t.lru ≡ occurs node_key k (nodes t.root)

-- what the tree holds for a key
abbrev pub cached : ℕ → ReadTree → Option TreeNode
cached k t = find node_key k (nodes t.root)

-- what stays cached after the loop: the records whose keys are still listed, unchanged
abbrev pub Keeps : ReadTree → ReadTree → Type 0
Keeps t t' = (j : ℕ) → cached j t' ≡ (if count j t'.lru == 0 then none else cached j t)

module _ (rb : RbTree) where
  -- The loop drops the least recently used node, and no other.
  evict_step-IsConsistent :
      (k : ℕ) (ks : List ℕ) (t : ReadTree)
      → t.lru ≡ k ∷ ks
      → IsConsistent t
      → IsConsistent (evict_step rb k ks t)
  unfolding count
  evict_step-IsConsistent k ks t e c =
      let erased = rb.nodes-erase k t.root c.ordered in
      let shorter = length-without node_key k (nodes t.root) c.ordered in
      let k_listed : count k (k ∷ ks) ≡ occurs node_key k (nodes t.root) = rw e at (c.listed k) in
      let lengths : length (k ∷ ks) ≡ length (nodes t.root) = rw e at c.as_long in
      let once : occurs node_key k (nodes t.root) ≡ 1 = ground arith in
      record {
        ordered = rw erased (without-IsAscending node_key k (nodes t.root) c.ordered);
        sized = rw erased (omega (arith, c.sized));
        as_long = rw erased (omega arith);
        listed = λ j.
            let j_listed : count j (k ∷ ks) ≡ occurs node_key j (nodes t.root) =
              rw e at (c.listed j) in
            rw erased (ground (arith, find-without node_key j k (nodes t.root)));
      }

  once_listed :
      (k : ℕ) (ks : List ℕ) (t : ReadTree) → t.lru ≡ k ∷ ks → IsConsistent t → count k ks ≡ 0
  unfolding count
  once_listed k ks t e c =
      let k_listed : count k (k ∷ ks) ≡ occurs node_key k (nodes t.root) = rw e at (c.listed k) in
      ground arith

  evict_step-cached :
      (k : ℕ) (ks : List ℕ) (t : ReadTree) (j : ℕ)
      → t.lru ≡ k ∷ ks
      → IsConsistent t
      → cached j (evict_step rb k ks t) ≡ (if k == j then none else cached j t)
  evict_step-cached k ks t j e c =
      rw (rb.nodes-erase k t.root c.ordered) (find-without node_key j k (nodes t.root))

  evict_loop_lem :
      (ks : List ℕ) (limit : ℕ) (t : ReadTree)
      → t.lru ≡ ks
      → IsConsistent t
      → IsConsistent (evict_loop rb ks limit t)
        × ((evict_loop rb ks limit t).size ≤ limit)
        × ((evict_loop rb ks limit t).lru ≡ drop_to limit ks)
        × Keeps t (evict_loop rb ks limit t)
  unfolding evict_loop drop_to count
  evict_loop_lem [] limit t e c =
      let empty : 0 ≡ length (nodes t.root) = rw e at c.as_long in
      (c, omega (arith, c.sized), e, λ j. ground (arith, c.listed j))
  evict_loop_lem (k ∷ ks) limit t e c =
      let shorter : length (k ∷ ks) ≡ length (nodes t.root) = rw e at c.as_long in
      let (c', le, kept, keeps) =
        evict_loop_lem ks limit (evict_step rb k ks t) refl (evict_step-IsConsistent k ks t e c) in
      elim (Bool-cases (ltb limit t.size)) [
        | inl more ↦
            let more' : ltb limit (length (k ∷ ks)) ≡ true = ground (arith, c.sized) in
            rw (more, more')
              (
                c',
                le,
                kept,
                λ j. ground (
                  arith,
                  keeps j,
                  evict_step-cached k ks t j e c,
                  once_listed k ks t e c,
                  count-drop_to j limit ks,
                  ap (count j) kept,
                ),
              )
        | inr done ↦
            let done' : ltb limit (length (k ∷ ks)) ≡ false = ground (arith, c.sized) in
            rw (done, done') (c, ground arith, e, λ j. ground (arith, c.listed j))
      ]

  -- An eviction from a consistent tree keeps it consistent and brings it within the limit; the keys
  -- that stay are the last of the LRU list, as many as the limit allows, each with its record unchanged,
  -- and nothing else stays cached.
  pub tree_evict_lem :
      (t : ReadTree)
      → IsConsistent t
      → IsConsistent (tree_evict rb t)
        × ((tree_evict rb t).size ≤ read_tree_limit t)
        × ((tree_evict rb t).lru ≡ drop_to (read_tree_limit t) t.lru)
        × Keeps t (tree_evict rb t)
  unfolding tree_evict
  tree_evict_lem t c = evict_loop_lem t.lru (read_tree_limit t) t refl c

  evict_loop-limit :
      (ks : List ℕ) (limit : ℕ) (t : ReadTree) → (evict_loop rb ks limit t).limit ≡ t.limit
  unfolding evict_loop
  evict_loop-limit [] limit t = refl
  evict_loop-limit (k ∷ ks) limit t =
      ground (arith, evict_loop-limit ks limit (evict_step rb k ks t))

  pub tree_evict-limit : (t : ReadTree) → (tree_evict rb t).limit ≡ t.limit
  unfolding tree_evict
  tree_evict-limit t = evict_loop-limit t.lru (read_tree_limit t) t
