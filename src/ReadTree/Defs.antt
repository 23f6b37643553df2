-- ===== src/ReadTree/Defs.antt =====
-- The read tree (imrsim_kmod/dm-imrsim.c, `imr_lsm_tree_*` and `imr_lsm_*_read_tree_*`).
-- A node stands in a red-black tree by its key and in the LRU list; the list names it by the key,
-- which is unique. The kernel's list operations are those on sequences. The kernel's red-black
-- trees are a parameter: what rebalancing does to the shape is not known, only that it keeps the
-- nodes in order.
use mathlib.Core.List.{head?}
use imr_lsm.Prelude.{
  ℕ, ◌-◌, ◌≡◌, Bool, true, false, Option, none, some, List, [], ◌∷◌, ◌++◌, ltb, leb, ◌==◌,
  if◌then◌else◌, inc32, inc64,
}
use imr_lsm.Prelude.Keyed.{IsAscending, without}

-- `imr_lsm_read_tree_node`
pub record TreeNode : Type 0 where
  pub key : ℕ
  pub pba : ℕ
  pub valid : Bool
  pub timestamp : ℕ

pub data Tree : Type 0 where
  leaf : Tree
  branch : Tree → TreeNode → Tree → Tree

abbrev pub node_key : TreeNode → ℕ
node_key n = n.key

-- the nodes from left to right
abbrev pub nodes : Tree → List TreeNode
nodes leaf = []
nodes (branch l n r) = nodes l ++ (n ∷ nodes r)

-- The kernel's <linux/rbtree.h>: `rb_insert_color` rebalances after a node was linked,
-- `rb_erase` takes a node out, `rb_first` is the leftmost node.
pub record RbTree : Type 0 where
  pub insert_color : ℕ → Tree → Tree
  pub erase : ℕ → Tree → Tree
  pub first : Tree → Option TreeNode
  pub nodes-insert_color : (k : ℕ) (t : Tree) → nodes (insert_color k t) ≡ nodes t
  pub nodes-erase :
      (k : ℕ) (t : Tree)
      → IsAscending node_key (nodes t)
      → nodes (erase k t) ≡ without node_key k (nodes t)
  pub first-head? : (t : Tree) → first t ≡ head? (nodes t)

-- the counters `read_tree_*` and `last_read_tree_*` of `imr_lsm_stats`
pub record TreeStats : Type 0 where
  pub lookup_count : ℕ
  pub hit_count : ℕ
  pub miss_count : ℕ
  pub update_count : ℕ
  pub update_fail_count : ℕ
  pub remove_count : ℕ
  pub evict_count : ℕ
  pub last_key : ℕ
  pub last_pba : ℕ
  pub last_timestamp : ℕ
  pub last_valid : Bool
  pub last_hit : Bool

abbrev pub no_tree_stats : TreeStats
no_tree_stats = record {
  lookup_count = 0;
  hit_count = 0;
  miss_count = 0;
  update_count = 0;
  update_fail_count = 0;
  remove_count = 0;
  evict_count = 0;
  last_key = 0;
  last_pba = 0;
  last_timestamp = 0;
  last_valid = false;
  last_hit = false;
}

-- `read_tree`, `read_lru` (least recently used first), `read_tree_limit`, `read_tree_size`
pub record ReadTree : Type 0 where
  pub root : Tree
  pub lru : List ℕ
  pub limit : ℕ
  pub size : ℕ
  pub stats : TreeStats

abbrev pub read_tree_limit_default : ℕ
read_tree_limit_default = 4096

-- `imr_lsm_init_read_tree_locked`
abbrev pub init_read_tree : ReadTree → ReadTree
init_read_tree t = record t { root = leaf; lru = []; limit = read_tree_limit_default; size = 0 }

-- `imr_lsm_read_tree_limit_locked`
unfoldable pub read_tree_limit : ReadTree → ℕ
read_tree_limit t = if t.limit == 0 then read_tree_limit_default else t.limit

-- `list_del`, and `list_move_tail` or `list_add_tail`
unfoldable pub list_del : ℕ → List ℕ → List ℕ
list_del k [] = []
list_del k (x ∷ xs) = let rest = list_del k xs in if x == k then rest else x ∷ rest

unfoldable pub list_move_tail : ℕ → List ℕ → List ℕ
unfolding list_del
list_move_tail k xs = list_del k xs ++ (k ∷ [])

-- `imr_lsm_tree_find_node_locked`: the descent by the key
unfoldable pub find_node : ℕ → Tree → Option TreeNode
find_node k leaf = none
find_node k (branch l n r) =
    let left = find_node k l in
    let right = find_node k r in if ltb k n.key then left else if ltb n.key k then right else some n

-- a write through the pointer to the node found
unfoldable pub modify_node : ℕ → (TreeNode → TreeNode) → Tree → Tree
modify_node k f leaf = leaf
modify_node k f (branch l n r) =
    let left = modify_node k f l in
    let right = modify_node k f r in
    if ltb k n.key
    then branch left n r
    else if ltb n.key k
    then branch l n right
    else branch l (f n) r

-- `rb_link_node` at the link where the descent ends
unfoldable pub link_node : TreeNode → Tree → Tree
link_node m leaf = branch leaf m leaf
link_node m (branch l n r) =
    let left = link_node m l in
    let right = link_node m r in
    if ltb m.key n.key
    then branch left n r
    else if ltb n.key m.key
    then branch l n right
    else branch l n r

-- `imr_lsm_tree_record_last_locked`
abbrev pub tree_record_last : ℕ → ℕ → Bool → ℕ → Bool → TreeStats → TreeStats
tree_record_last key pba valid timestamp hit s = record s {
  last_key = key;
  last_pba = pba;
  last_timestamp = timestamp;
  last_valid = valid;
  last_hit = hit;
}

-- `imr_lsm_tree_lookup_locked`: the node found, if any, and the tree with the node made the most
-- recently used. The caller reads `valid` and `pba` of the node.
unfoldable pub tree_lookup : ℕ → ReadTree → ReadTree × Option TreeNode
unfolding find_node list_move_tail
tree_lookup k t =
    let counted = record (t.stats) { lookup_count = inc64 t.stats.lookup_count } in
    elim (find_node k t.root) [
      | none ↦
          let missed = record counted { miss_count = inc64 counted.miss_count } in
          (record t { stats = tree_record_last k 0 false 0 false missed }, none)
      | some n ↦
          let hit = record counted { hit_count = inc64 counted.hit_count } in
          (
            record t {
              lru = list_move_tail n.key t.lru;
              stats = tree_record_last n.key n.pba n.valid n.timestamp true hit;
            },
            some n,
          )
    ]

-- the write to a node that is there already, if the new record is not older
abbrev pub refresh : ℕ → Bool → ℕ → TreeNode → TreeNode
refresh pba valid timestamp n =
    if leb n.timestamp timestamp
    then record n { pba = pba; valid = valid; timestamp = timestamp }
    else n

module _ (rb : RbTree) where
  -- `imr_lsm_tree_remove_node_locked`
  unfoldable pub tree_remove_node : ℕ → ReadTree → ReadTree
  tree_remove_node k t = record t {
    root = rb.erase k t.root;
    lru = list_del k t.lru;
    size = if t.size == 0 then 0 else t.size - 1;
    stats = record (t.stats) { remove_count = inc64 t.stats.remove_count };
  }

  -- `imr_lsm_tree_remove_locked`
  unfoldable pub tree_remove : ℕ → ReadTree → ReadTree
  unfolding find_node tree_remove_node
  tree_remove k t = elim (find_node k t.root) [ none ↦ t | some n ↦ tree_remove_node n.key t ]

  -- one round of the loop of `imr_lsm_tree_evict_locked`, on the first node of the list
  abbrev pub evict_step : ℕ → List ℕ → ReadTree → ReadTree
  evict_step k ks t = record t {
    root = rb.erase k t.root;
    lru = ks;
    size = t.size - 1;
    stats = record (t.stats) { evict_count = inc64 t.stats.evict_count };
  }

  -- the loop: the first argument is the list `read_lru` of the tree
  unfoldable pub evict_loop : List ℕ → ℕ → ReadTree → ReadTree
  evict_loop [] limit t = t
  evict_loop (k ∷ ks) limit t =
      let rest = evict_loop ks limit (evict_step k ks t) in if ltb limit t.size then rest else t

  -- `imr_lsm_tree_evict_locked`
  unfoldable pub tree_evict : ReadTree → ReadTree
  unfolding evict_loop read_tree_limit
  tree_evict t = evict_loop t.lru (read_tree_limit t) t

  -- `imr_lsm_tree_update_locked`; `allocated` says whether its `kzalloc` succeeds
  unfoldable pub tree_update : Bool → ℕ → ℕ → Bool → ℕ → ReadTree → ReadTree
  unfolding find_node modify_node link_node list_move_tail tree_evict
  tree_update allocated key pba valid timestamp t = elim (find_node key t.root) [
    | some n ↦ record t {
      root = modify_node key (refresh pba valid timestamp) t.root;
      lru = list_move_tail key t.lru;
      stats =
          if leb n.timestamp timestamp
          then record (t.stats) { update_count = inc64 t.stats.update_count }
          else t.stats;
    }
    | none ↦
        if allocated
        then (let m : TreeNode = record {
          key = key;
          pba = pba;
          valid = valid;
          timestamp = timestamp;
        } in
            tree_evict (record t {
              root = rb.insert_color key (link_node m t.root);
              lru = t.lru ++ (key ∷ []);
              size = inc32 t.size;
              stats = record (t.stats) { update_count = inc64 t.stats.update_count };
            }))
        else record t {
          stats = record (t.stats) { update_fail_count = inc64 t.stats.update_fail_count };
        }
  ]
