-- ===== src/ReadTree/Removal.antt =====
-- Lookups and removals in the read tree.
use imr_lsm.Prelude.{
  ℕ, ◌≡◌, ◌∙◌, refl, sym, inl, inr, none, some, ap, ◌==◌, if◌then◌else◌, arith, Option-cases,
}
use imr_lsm.Prelude.Keyed.{find-without, length-without, without-IsAscending, find-key}
use imr_lsm.ReadTree.Defs.{
  TreeNode, RbTree, ReadTree, node_key, nodes, read_tree_limit, tree_remove, tree_remove_node,
  find_node, tree_lookup,
}
use imr_lsm.ReadTree.Lru.{
  count, count-list_del, length-list_del, count-list_move_tail, length-list_move_tail,
}
use imr_lsm.ReadTree.Invariant.{cached}
use imr_lsm.ReadTree.Operations.{IsWell, find_node-cached}

-- A lookup in a well-formed tree returns what is cached for the key, leaves the tree itself unchanged,
-- and keeps it well-formed.
pub tree_lookup_lem :
    (k : ℕ) (t : ReadTree)
    → IsWell t
    → ((tree_lookup k t).1 ≡ cached k t)
      × ((tree_lookup k t).0.root ≡ t.root)
      × IsWell (tree_lookup k t).0
unfolding tree_lookup read_tree_limit
tree_lookup_lem k t w = elim (Option-cases (find_node k t.root)) [
  | inl e ↦
      let absent = sym (find_node-cached k t w.consistent) ∙ e in
      rw (e, tree_lookup)
        (
          sym absent,
          refl,
          record {
            consistent = record {
              ordered = c.ordered;
              sized = c.sized;
              as_long = c.as_long;
              listed = c.listed;
            };
            bounded = w.bounded;
            limited = w.limited;
          },
        )
  | inr (n, e) ↦
      let present = sym (find_node-cached k t w.consistent) ∙ e in
      let same : n.key ≡ k = find-key node_key k (nodes t.root) n present in
      let once : count n.key t.lru ≡ 1 = rw same (ground (arith, c.listed k)) in
      rw (e, tree_lookup)
        (
          sym present,
          refl,
          record {
            consistent = record {
              ordered = c.ordered;
              sized = c.sized;
              as_long = omega (arith, c.as_long, length-list_move_tail n.key t.lru once);
              listed = λ j. count-list_move_tail j n.key t.lru once ∙ c.listed j;
            };
            bounded = w.bounded;
            limited = w.limited;
          },
        )
]
  where
    open w use {consistent as c}

module _ (rb : RbTree) (key : ℕ) (t : ReadTree) (w : IsWell t) where
  module _ (n : TreeNode) (same : n.key ≡ key) (present : cached key t ≡ some n) where
    node_removed-cached :
        (j : ℕ) → cached j (tree_remove_node rb n.key t) ≡ (if key == j then none else cached j t)
    unfolding tree_remove_node
    node_removed-cached j =
        rw (rb.nodes-erase n.key t.root w.consistent.ordered, same)
          (find-without node_key j key (nodes t.root))

    node_removed-IsWell : IsWell (tree_remove_node rb n.key t)
    unfolding tree_remove_node read_tree_limit
    node_removed-IsWell =
        let c = w.consistent in
        let erased = rb.nodes-erase n.key t.root c.ordered in
        let shorter = length-without node_key n.key (nodes t.root) c.ordered in
        let found : cached n.key t ≡ some n = ap (λ k. cached k t) same ∙ present in
        let once : count n.key t.lru ≡ 1 = ground (arith, c.listed n.key) in
        let long = length-list_del n.key t.lru in
        record {
          consistent = record {
            ordered = rw erased (without-IsAscending node_key n.key (nodes t.root) c.ordered);
            sized = rw erased (ground (arith, c.sized));
            as_long = rw erased (omega (arith, c.as_long, c.listed n.key));
            listed = λ j.
                ground (arith, c.listed j, node_removed-cached j, count-list_del j n.key t.lru);
          };
          bounded = ground (arith, w.bounded);
          limited = w.limited;
        }

  -- A removal from a well-formed tree drops the record of the key and keeps every other.
  pub cached-tree_remove :
      (j : ℕ) → cached j (tree_remove rb key t) ≡ (if key == j then none else cached j t)
  unfolding tree_remove
  cached-tree_remove j = elim (Option-cases (find_node key t.root)) [
    | inl e ↦
        let absent = sym (find_node-cached key t w.consistent) ∙ e in
        rw (e, tree_remove) (ground (arith, absent))
    | inr (n, e) ↦
        let present = sym (find_node-cached key t w.consistent) ∙ e in
        rw (e, tree_remove)
          (node_removed-cached n (find-key node_key key (nodes t.root) n present) present j)
  ]

  -- A removal keeps a well-formed tree well-formed.
  pub tree_remove-IsWell : IsWell (tree_remove rb key t)
  unfolding tree_remove
  tree_remove-IsWell = elim (Option-cases (find_node key t.root)) [
    | inl e ↦ rw (e, tree_remove) w
    | inr (n, e) ↦
        let present = sym (find_node-cached key t w.consistent) ∙ e in
        rw (e, tree_remove)
          (node_removed-IsWell n (find-key node_key key (nodes t.root) n present) present)
  ]
