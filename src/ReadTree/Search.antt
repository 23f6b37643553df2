-- ===== src/ReadTree/Search.antt =====
-- The descents of the read tree, against the list of its nodes in order.
use imr_lsm.Prelude.{ℕ, ◌<◌, ◌≤◌, ◌≡◌, refl, none, some, ◌∷◌, arith}
use imr_lsm.Prelude.Keyed.{
  IsAscending, find, insert, modify, find-append, find_left, find_of_AllAbove, insert-append_left,
  insert-append_right, modify-append_left, modify-append_right, IsAscending-append_left,
  IsAscending-append_right,
}
use imr_lsm.ReadTree.Defs.{
  TreeNode, Tree, leaf, branch, node_key, nodes, find_node, modify_node, link_node,
}

abbrev pub IsOrdered : Tree → Type 0
IsOrdered t = IsAscending node_key (nodes t)

module _ (l : Tree) (n : TreeNode) (r : Tree) (h : IsOrdered (branch l n r)) where
  left_IsOrdered : IsOrdered l
  left_IsOrdered = IsAscending-append_left node_key (nodes l) (n ∷ nodes r) h

  right_part : IsAscending node_key (n ∷ nodes r)
  right_part = IsAscending-append_right node_key (nodes l) (n ∷ nodes r) h

-- On an ordered tree the descent finds the node with the key, and none if there is none.
pub find_node-find : (k : ℕ) (t : Tree) → IsOrdered t → find_node k t ≡ find node_key k (nodes t)
unfolding find_node find
find_node-find k leaf h = refl
find_node-find k (branch l n r) h =
    let ordered = right_part l n r h in
    ground (
      arith,
      find_node-find k l (left_IsOrdered l n r h),
      find_node-find k r ordered.1,
      find-append node_key k (nodes l) (n ∷ nodes r),
      λ (le : n.key ≤ k). find_left node_key k (nodes l) n (nodes r) h le,
      λ (le : k ≤ n.key). find_of_AllAbove node_key k n.key (nodes r) le ordered.0,
    )

-- A new node is linked where the order wants it.
pub nodes-link_node :
    (m : TreeNode) (t : Tree)
    → IsOrdered t
    → find node_key m.key (nodes t) ≡ none
    → nodes (link_node m t) ≡ insert node_key m (nodes t)
unfolding link_node insert find
nodes-link_node m leaf h e = refl
nodes-link_node m (branch l n r) h e =
    let ordered = right_part l n r h in
    let apart = find-append node_key m.key (nodes l) (n ∷ nodes r) in
    ground (
      arith,
      apart,
      nodes-link_node m l (left_IsOrdered l n r h),
      nodes-link_node m r ordered.1,
      λ (le : m.key ≤ n.key). insert-append_left node_key m (nodes l) n (nodes r) le,
      λ (lt : n.key < m.key). insert-append_right node_key m (nodes l) n (nodes r) h lt,
    )

-- The write through the pointer changes that node and no other.
pub nodes-modify_node :
    (k : ℕ) (f : TreeNode → TreeNode) (t : Tree)
    → IsOrdered t
    → (m : TreeNode) → find_node k t ≡ some m
    → nodes (modify_node k f t) ≡ modify node_key k f (nodes t)
unfolding find_node modify_node modify
nodes-modify_node k f leaf h m e = refl
nodes-modify_node k f (branch l n r) h m e =
    let ordered = right_part l n r h in
    ground (
      arith,
      nodes-modify_node k f l (left_IsOrdered l n r h) m,
      nodes-modify_node k f r ordered.1 m,
      find_node-find k l (left_IsOrdered l n r h),
      modify-append_left node_key k f (nodes l) m (n ∷ nodes r),
      λ (le : n.key ≤ k).
          modify-append_right node_key k f (nodes l) (n ∷ nodes r)
            (find_left node_key k (nodes l) n (nodes r) h le),
    )
