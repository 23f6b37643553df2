-- ===== src/ReadTree/Clear.antt =====
-- The read tree from outside: how it is cleared and how its limit is set
-- (imrsim_kmod/dm-imrsim.c, `imr_lsm_clear_read_tree_locked`,
-- `imr_lsm_debugfs_clear_read_tree_write`, `imr_lsm_debugfs_read_tree_limit_write`). The number that
-- the user writes is an argument: its copy from the user and its parse are the kernel's.
use mathlib.Core.List.{head?}
use imr_lsm.Prelude.{
  ℕ, zero, suc, ◌+◌, ◌<◌, ◌≤◌, ◌≡◌, ◌⊎◌, ◌∙◌, refl, ap, inl, inr, false, none, some, List, [], ◌∷◌,
  ltb, ◌==◌, if◌then◌else◌, arith, inc32, u32_mod, Bool-cases, length,
}
use imr_lsm.Prelude.Keyed.{IsAscending, find, occurs, without, without_absent, find_of_AllAbove}
use imr_lsm.Metadata.{Code, success, einval}
use imr_lsm.ReadTree.Defs.{
  Tree, leaf, TreeNode, RbTree, ReadTree, node_key, nodes, read_tree_limit, read_tree_limit_default,
  list_del, tree_evict,
}
use imr_lsm.ReadTree.Search.{IsOrdered}
use imr_lsm.ReadTree.Lru.{count, count-list_del, length-list_del}
use imr_lsm.ReadTree.Invariant.{cached, tree_evict_lem, tree_evict-limit}
use imr_lsm.ReadTree.Operations.{IsWell}
use imr_lsm.State.{State}
use imr_lsm.State.Setup.{ensure_initialized, initialize_metadata, release_metadata}

-- zero stands for the largest limit
abbrev pub limit_or_default : ℕ → ℕ
limit_or_default limit = if limit == 0 then read_tree_limit_default else limit

-- the store to `read_tree_limit`
abbrev relimited : ℕ → ReadTree → ReadTree
relimited limit t = record t { limit = limit_or_default limit }

module _ (rb : RbTree) where
  -- the loop of `imr_lsm_clear_read_tree_locked` over the nodes, the first one first: what is left of
  -- the tree and of the LRU list, and the nodes that were freed
  unfoldable pub clear_loop : ℕ → Tree → List ℕ → ℕ → Tree × List ℕ × ℕ
  clear_loop zero t lru cleared = (t, lru, cleared)
  clear_loop (suc fuel) t lru cleared = elim (rb.first t) [
    | none ↦ (t, lru, cleared)
    | some n ↦ clear_loop fuel (rb.erase n.key t) (list_del n.key lru) (inc32 cleared)
  ]

  -- `imr_lsm_clear_read_tree_locked`
  unfoldable clear_read_tree : ReadTree → ReadTree × ℕ
  unfolding clear_loop
  clear_read_tree t =
      let (_, _, cleared) = clear_loop (length (nodes t.root)) t.root t.lru 0 in
      (record t { root = leaf; lru = []; size = 0 }, cleared)

  -- `imr_lsm_debugfs_clear_read_tree_write`
  unfoldable write_clear : ℕ → State → State × Code
  unfolding clear_read_tree
  write_clear run s =
      if run == 0
      then (s, einval)
      else if s.meta.initialized
      then (record s { meta = record (s.meta) { tree = (clear_read_tree s.meta.tree).0 } }, success)
      else (s, success)

  -- `imr_lsm_debugfs_read_tree_limit_write`
  unfoldable pub write_limit : ℕ → State → State × Code
  unfolding tree_evict ensure_initialized
  write_limit limit s =
      if ltb read_tree_limit_default limit
      then (s, einval)
      else (let s' = ensure_initialized s in
          (
            record s' {
              meta = record (s'.meta) { tree = tree_evict rb (relimited limit s'.meta.tree) };
            },
            success,
          ))

  empty_first : (t : Tree) → nodes t ≡ [] → rb.first t ≡ none
  empty_first t e = rb.first-head? t ∙ ap head? e

  full_first :
      (t : Tree) (n : TreeNode) (ns : List TreeNode) → nodes t ≡ n ∷ ns → rb.first t ≡ some n
  full_first t n ns e = rb.first-head? t ∙ ap head? e

  without_head :
      (n : TreeNode) (ns : List TreeNode)
      → find node_key n.key ns ≡ none
      → without node_key n.key (n ∷ ns) ≡ ns
  unfolding without
  without_head n ns gone = ground (arith, without_absent node_key n.key ns gone)

  -- The loop ends with no node left and nothing listed, after one round for each node.
  clear_loop_lem :
      (ns : List TreeNode) (fuel : ℕ) (t : Tree) (lru : List ℕ) (cleared : ℕ)
      → nodes t ≡ ns
      → IsOrdered t
      → length lru ≡ length ns
      → ((k : ℕ) → count k lru ≡ occurs node_key k ns)
      → length ns ≤ fuel
      → cleared + length ns < u32_mod
      → (rb.first (clear_loop fuel t lru cleared).0 ≡ none)
        × ((clear_loop fuel t lru cleared).1 ≡ [])
        × ((clear_loop fuel t lru cleared).2 ≡ cleared + length ns)
  unfolding clear_loop find
  clear_loop_lem [] zero t [] cleared e o len listed enough small =
      (empty_first t e, refl, omega arith)
  clear_loop_lem [] (suc fuel) t [] cleared e o len listed enough small =
      rw (empty_first t e, clear_loop) (empty_first t e, refl, omega arith)
  clear_loop_lem [] zero t (_ ∷ _) cleared e o len listed enough small = absurd (omega (arith, len))
  clear_loop_lem [] (suc fuel) t (_ ∷ _) cleared e o len listed enough small =
      absurd (omega (arith, len))
  clear_loop_lem (n ∷ ns) zero t lru cleared e o len listed enough small = absurd (omega arith)
  clear_loop_lem (n ∷ ns) (suc fuel) t lru cleared e o len listed enough small =
      let ascending : IsAscending node_key (n ∷ ns) = rw e at o in
      let gone : find node_key n.key ns ≡ none =
        find_of_AllAbove node_key n.key n.key ns (omega arith) ascending.0 in
      let left : nodes (rb.erase n.key t) ≡ ns =
        rb.nodes-erase n.key t o ∙ ap (without node_key n.key) e ∙ without_head n ns gone in
      rw (full_first t n ns e, clear_loop)
        (let (ended, emptied, counted) =
            clear_loop_lem ns fuel (rb.erase n.key t) (list_del n.key lru) (inc32 cleared) left
              (rw left ascending.1) (ground (arith, len, length-list_del n.key lru, listed n.key))
              (λ k. ground (arith, listed k, count-list_del k n.key lru, gone)) (omega arith)
              (ground (arith, small)) in
          (ended, emptied, ground (arith, counted, small)))

  size-lt : (t : ReadTree) → IsWell t → 0 + length (nodes t.root) < u32_mod
  unfolding read_tree_limit
  size-lt t w = ground (arith, w.bounded, w.limited, w.consistent.sized)

  -- Clearing a well-formed tree ends: with as many rounds as the tree has nodes, or more, the loop
  -- leaves no first node and an empty LRU list, and it has freed as many nodes as the size says.
  pub clear_loop_ends :
      (t : ReadTree) (fuel : ℕ)
      → IsWell t
      → length (nodes t.root) ≤ fuel
      → (rb.first (clear_loop fuel t.root t.lru 0).0 ≡ none)
        × ((clear_loop fuel t.root t.lru 0).1 ≡ [])
        × ((clear_loop fuel t.root t.lru 0).2 ≡ t.size)
  clear_loop_ends t fuel w enough =
      let c = w.consistent in
      let (ended, emptied, counted) =
        clear_loop_lem (nodes t.root) fuel t.root t.lru 0 refl c.ordered c.as_long c.listed enough
          (size-lt t w) in
      (ended, emptied, omega (arith, counted, c.sized))

  -- Clearing a well-formed tree leaves it well-formed, with nothing cached.
  clear_read_tree-IsWell :
      (t : ReadTree)
      → IsWell t
      → IsWell (clear_read_tree t).0 × ((k : ℕ) → cached k (clear_read_tree t).0 ≡ none)
  unfolding clear_read_tree read_tree_limit count find
  clear_read_tree-IsWell t w = (
    record {
      consistent = record { ordered = tt; sized = refl; as_long = refl; listed = λ k. refl };
      bounded = ground arith;
      limited = w.limited;
    },
    λ k. refl,
  )

  relimited-IsWell :
      (limit : ℕ) (t : ReadTree)
      → ltb read_tree_limit_default limit ≡ false
      → IsWell t
      → IsWell (tree_evict rb (relimited limit t))
        × ((tree_evict rb (relimited limit t)).size ≤ limit_or_default limit)
  unfolding read_tree_limit
  relimited-IsWell limit t e w =
      let c = w.consistent in
      let (c', le, _, _) =
        tree_evict_lem rb (relimited limit t) (record {
          ordered = c.ordered;
          sized = c.sized;
          as_long = c.as_long;
          listed = c.listed;
        }) in
      let same = tree_evict-limit rb (relimited limit t) in
      (
        record {
          consistent = c';
          bounded = ground (arith, le, same);
          limited = ground (arith, same);
        },
        ground (arith, le),
      )

  initial-IsWell : (s : State) → IsWell s.meta.tree → IsWell (ensure_initialized s).meta.tree
  unfolding ensure_initialized initialize_metadata release_metadata read_tree_limit count find
  initial-IsWell s w = elim (Bool-cases s.meta.initialized) [
    | inl e ↦ rw e w
    | inr e ↦ rw e (record {
      consistent = record { ordered = tt; sized = refl; as_long = refl; listed = λ k. refl };
      bounded = ground arith;
      limited = ground arith;
    })
  ]

  -- A limit above the largest one is refused and changes nothing. Any other limit, zero for the
  -- largest, is set: of a well-formed tree no more nodes than the limit stay, and it stays well-formed.
  pub write_limit_lem :
      (limit : ℕ) (s : State)
      → IsWell s.meta.tree
      → ((read_tree_limit_default < limit) × (write_limit limit s ≡ (s, einval)))
        ⊎ ((limit ≤ read_tree_limit_default)
            × ((write_limit limit s).1 ≡ success)
            × IsWell (write_limit limit s).0.meta.tree
            × ((write_limit limit s).0.meta.tree.limit ≡ limit_or_default limit)
            × ((write_limit limit s).0.meta.tree.size ≤ limit_or_default limit))
  unfolding write_limit
  write_limit_lem limit s w = elim (Bool-cases (ltb read_tree_limit_default limit)) [
    | inl e ↦ inl (ground (arith, e), rw e refl)
    | inr e ↦
        let tree = (ensure_initialized s).meta.tree in
        let (well, le) = relimited-IsWell limit tree e (initial-IsWell s w) in
        inr (rw e (ground (arith, e), refl, well, tree_evict-limit rb (relimited limit tree), le))
  ]
