-- ===== src/ReadTree/Operations.antt =====
-- Lookup, update and removal in the read cache, and its invariant.
use imr_lsm.Prelude.{
  leb, ℕ, ◌≤◌, ◌≡◌, ◌∙◌, ◌≢◌, ◌⊎◌, refl, sym, Bool, true, false, inl, inr, Option, none, some, [],
  ◌∷◌, ◌++◌, ap, ◌==◌, if◌then◌else◌, arith, Bool-cases, Option-cases, length-append, inc32,
}
use imr_lsm.Prelude.Keyed.{
  insert, length-insert, insert-IsAscending, find-insert, modify-IsAscending, length-modify,
  find-modify_self, find-modify_ne,
}
use imr_lsm.ReadTree.Defs.{
  TreeNode, TreeStats, RbTree, ReadTree, node_key, nodes, list_move_tail, read_tree_limit,
  read_tree_limit_default, tree_evict, tree_update, refresh, find_node, link_node, modify_node,
}
use imr_lsm.ReadTree.Search.{find_node-find, nodes-link_node, nodes-modify_node}
use imr_lsm.ReadTree.Lru.{
  count, count-append, drop_to_last, count-list_move_tail, length-list_move_tail,
}
use imr_lsm.ReadTree.Invariant.{IsConsistent, cached, tree_evict_lem, tree_evict-limit}

-- consistent, and within the limit, which the program keeps at 4096 or less
pub record IsWell (t : ReadTree) : Type 0 where
  pub consistent : IsConsistent t
  pub bounded : t.size ≤ read_tree_limit t
  pub limited : t.limit ≤ read_tree_limit_default

restat : (t : ReadTree) (s : TreeStats) → IsWell t → IsWell (record t { stats = s })
unfolding read_tree_limit
restat t s w = record {
  consistent = record {
    ordered = w.consistent.ordered;
    sized = w.consistent.sized;
    as_long = w.consistent.as_long;
    listed = w.consistent.listed;
  };
  bounded = w.bounded;
  limited = w.limited;
}

pub find_node-cached : (k : ℕ) (t : ReadTree) → IsConsistent t → find_node k t.root ≡ cached k t
find_node-cached k t c = find_node-find k t.root c.ordered

module _ (t : ReadTree) (key pba : ℕ) (valid : Bool) (timestamp : ℕ) (s : TreeStats) where
  abbrev fresh_node : TreeNode
  fresh_node = record { key = key; pba = pba; valid = valid; timestamp = timestamp }

  modified : TreeNode → ReadTree
  modified n = record t {
    root = modify_node key (refresh pba valid timestamp) t.root;
    lru = list_move_tail key t.lru;
    stats = s;
  }

  refresh-key : (n : TreeNode) → (refresh pba valid timestamp n).key ≡ n.key
  refresh-key n = ground arith

  modified-cached_ne :
      (n : TreeNode)
      → IsConsistent t
      → cached key t ≡ some n
      → (j : ℕ) → key ≢ j
      → cached j (modified n) ≡ cached j t
  unfolding modified
  modified-cached_ne n c e j ne =
      rw
        (nodes-modify_node key (refresh pba valid timestamp) t.root c.ordered n
          (find_node-cached key t c ∙ e))
        (find-modify_ne node_key (refresh pba valid timestamp) refresh-key j key (nodes t.root) ne)

  modified-cached_self :
      (n : TreeNode)
      → IsConsistent t
      → cached key t ≡ some n
      → cached key (modified n) ≡ some (refresh pba valid timestamp n)
  unfolding modified
  modified-cached_self n c e =
      rw
        (nodes-modify_node key (refresh pba valid timestamp) t.root c.ordered n
          (find_node-cached key t c ∙ e))
        (find-modify_self node_key (refresh pba valid timestamp) refresh-key key n (nodes t.root) e)

  modified-IsConsistent :
      (n : TreeNode) → IsConsistent t → cached key t ≡ some n → IsConsistent (modified n)
  unfolding modified
  modified-IsConsistent n c e =
      let f = refresh pba valid timestamp in
      let shape = nodes-modify_node key f t.root c.ordered n (find_node-cached key t c ∙ e) in
      let once : count key t.lru ≡ 1 = ground (arith, c.listed key) in
      let long = length-modify node_key key f (nodes t.root) in
      record {
        ordered = rw shape (modify-IsAscending node_key f refresh-key key (nodes t.root) c.ordered);
        sized = rw shape (omega (arith, long, c.sized));
        as_long = rw shape (omega (arith, long, c.as_long, length-list_move_tail key t.lru once));
        listed = λ j. elim (Bool-cases (key == j)) [
          | inl same ↦
              ground (
                arith,
                c.listed j,
                count-list_move_tail j key t.lru once,
                modified-cached_self n c e,
              )
          | inr other ↦
              ground (
                arith,
                c.listed j,
                count-list_move_tail j key t.lru once,
                modified-cached_ne n c e j,
              )
        ];
      }

  module _ (rb : RbTree) where
    inserted : ReadTree
    inserted = record t {
      root = rb.insert_color key (link_node fresh_node t.root);
      lru = t.lru ++ (key ∷ []);
      size = inc32 t.size;
      stats = s;
    }

    inserted_shape :
        IsConsistent t
        → cached key t ≡ none
        → nodes inserted.root ≡ insert node_key fresh_node (nodes t.root)
    unfolding inserted
    inserted_shape c e =
        let m = fresh_node in
        rb.nodes-insert_color key (link_node m t.root) ∙ nodes-link_node m t.root c.ordered e

    inserted-cached :
        IsConsistent t
        → cached key t ≡ none
        → (j : ℕ) → cached j inserted ≡ (if key == j then some fresh_node else cached j t)
    inserted-cached c e j =
        let m = fresh_node in rw (inserted_shape c e) (find-insert node_key j m (nodes t.root) e)

    inserted-IsConsistent : IsWell t → cached key t ≡ none → IsConsistent inserted
    unfolding inserted count read_tree_limit
    inserted-IsConsistent w e =
        let c = w.consistent in
        let m = fresh_node in
        let shape = inserted_shape c e in
        let long = length-insert node_key m (nodes t.root) in
        record {
          ordered = rw shape (insert-IsAscending node_key m (nodes t.root) c.ordered e);
          sized = rw shape (rw long (ground (arith, c.sized, w.bounded, w.limited)));
          as_long = rw shape (omega (arith, long, c.as_long, length-append t.lru (key ∷ [])));
          listed = λ j.
              ground (arith, c.listed j, inserted-cached c e j, count-append j t.lru (key ∷ []));
        }

module _ (rb : RbTree) (t : ReadTree) (key pba : ℕ) (valid : Bool) (timestamp : ℕ) where
  -- the record that the tree holds for the key after the update
  abbrev pub updated : Option TreeNode → TreeNode
  updated none = record { key = key; pba = pba; valid = valid; timestamp = timestamp }
  updated (some n) =
      if leb n.timestamp timestamp
      then record n { pba = pba; valid = valid; timestamp = timestamp }
      else n

  module _ (s : TreeStats) (w : IsWell t) (absent : cached key t ≡ none) where
    abbrev full : ReadTree
    full = inserted t key pba valid timestamp s rb

    full-IsConsistent : IsConsistent full
    full-IsConsistent = inserted-IsConsistent t key pba valid timestamp s rb w absent

    evicted-IsWell : IsWell (tree_evict rb full)
    unfolding inserted read_tree_limit
    evicted-IsWell =
        let (c, le, _, _) = tree_evict_lem rb full full-IsConsistent in
        let same = tree_evict-limit rb full in
        record {
          consistent = c;
          bounded = ground (arith, le, same);
          limited = omega (arith, same, w.limited);
        }

    evicted_self : cached key (tree_evict rb full) ≡ some (updated none)
    unfolding inserted read_tree_limit
    evicted_self =
        let (c, _, lru, keeps) = tree_evict_lem rb full full-IsConsistent in
        ground (
          arith,
          keeps key,
          ap (count key) lru,
          drop_to_last (read_tree_limit full) key t.lru,
          inserted-cached t key pba valid timestamp s rb w.consistent absent key,
        )

    evicted_ne :
        (j : ℕ)
        → key ≢ j
        → (cached j (tree_evict rb full) ≡ cached j t) ⊎ (cached j (tree_evict rb full) ≡ none)
    evicted_ne j ne =
        let (c, _, lru, keeps) = tree_evict_lem rb full full-IsConsistent in
        ground
          (arith, keeps j, inserted-cached t key pba valid timestamp s rb w.consistent absent j)

  -- An update keeps a tree well-formed and within its limit, whether or not the allocation of a node
  -- succeeds.
  pub tree_update-IsWell :
      (allocated : Bool) → IsWell t → IsWell (tree_update rb allocated key pba valid timestamp t)
  unfolding tree_update inserted modified read_tree_limit
  tree_update-IsWell allocated w = elim (Option-cases (find_node key t.root)) [
    | inl e ↦
        let absent = sym (find_node-cached key t w.consistent) ∙ e in
        (elim allocated as (λ a. IsWell (tree_update rb a key pba valid timestamp t)) [
          | true ↦ rw (e, tree_update) (evicted-IsWell _ w absent)
          | false ↦ rw (e, tree_update) (restat t _ w)
        ])
    | inr (n, e) ↦
        let present = sym (find_node-cached key t w.consistent) ∙ e in
        rw (e, tree_update)
          (record {
            consistent = modified-IsConsistent t key pba valid timestamp _ n w.consistent present;
            bounded = w.bounded;
            limited = w.limited;
          })
  ]

  -- After an update of a well-formed tree whose allocation succeeds, the tree holds for the key what
  -- `updated` says: the new record, unless the one that it held has a later timestamp, as the code
  -- compares them. In particular the eviction at the end does not drop the key.
  pub tree_update_self :
      IsWell t
      → cached key (tree_update rb true key pba valid timestamp t) ≡ some (updated (cached key t))
  unfolding tree_update inserted modified
  tree_update_self w = elim (Option-cases (find_node key t.root)) [
    | inl e ↦
        let absent = sym (find_node-cached key t w.consistent) ∙ e in
        rw (e, tree_update) (evicted_self _ w absent ∙ ap (λ o. some (updated o)) (sym absent))
    | inr (n, e) ↦
        let present = sym (find_node-cached key t w.consistent) ∙ e in
        rw (e, tree_update)
          (modified-cached_self t key pba valid timestamp t.stats n w.consistent present
            ∙ ap (λ o. some (updated o)) (sym present))
  ]

  -- An update of a well-formed tree leaves the cached record of any other key as it was, or evicts it.
  pub tree_update_ne :
      (allocated : Bool) (j : ℕ)
      → IsWell t
      → key ≢ j
      → (cached j (tree_update rb allocated key pba valid timestamp t) ≡ cached j t)
        ⊎ (cached j (tree_update rb allocated key pba valid timestamp t) ≡ none)
  unfolding tree_update inserted modified
  tree_update_ne allocated j w ne = elim (Option-cases (find_node key t.root)) [
    | inl e ↦
        let absent = sym (find_node-cached key t w.consistent) ∙ e in
        (elim allocated
          as (λ a.
            (cached j (tree_update rb a key pba valid timestamp t) ≡ cached j t)
            ⊎ (cached j (tree_update rb a key pba valid timestamp t) ≡ none)) [
              | true ↦ rw (e, tree_update) (evicted_ne _ w absent j ne)
              | false ↦ rw (e, tree_update) (inl refl)
            ])
    | inr (n, e) ↦
        let present = sym (find_node-cached key t w.consistent) ∙ e in
        rw (e, tree_update)
          (inl (modified-cached_ne t key pba valid timestamp t.stats n w.consistent present j ne))
  ]
