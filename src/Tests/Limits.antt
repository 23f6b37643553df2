-- ===== src/Tests/Limits.antt =====
-- Concrete inputs for the theorems on the limit of the read tree.
use imr_lsm.Prelude.{◌≡◌, ◌⊎◌, ◌<◌, ◌≤◌, none, [], arith}
use imr_lsm.Metadata.{success, einval}
use imr_lsm.ReadTree.Defs.{read_tree_limit_default}
use imr_lsm.ReadTree.Operations.{IsWell}
use imr_lsm.ReadTree.Clear.{
  clear_loop, write_limit, limit_or_default, clear_loop_ends, write_limit_lem,
}
use imr_lsm.Tests.{rb_spine, tree_two, tree_two-IsWell, two_cached}

clear_loop_ends_example :
    (rb_spine.first (clear_loop rb_spine 2 tree_two.root tree_two.lru 0).0 ≡ none)
    × ((clear_loop rb_spine 2 tree_two.root tree_two.lru 0).1 ≡ [])
    × ((clear_loop rb_spine 2 tree_two.root tree_two.lru 0).2 ≡ 2)
clear_loop_ends_example = clear_loop_ends rb_spine tree_two 2 tree_two-IsWell (omega arith)

write_limit_lem_example :
    ((read_tree_limit_default < 1) × (write_limit rb_spine 1 two_cached ≡ (two_cached, einval)))
    ⊎ ((1 ≤ read_tree_limit_default)
        × ((write_limit rb_spine 1 two_cached).1 ≡ success)
        × IsWell (write_limit rb_spine 1 two_cached).0.meta.tree
        × ((write_limit rb_spine 1 two_cached).0.meta.tree.limit ≡ limit_or_default 1)
        × ((write_limit rb_spine 1 two_cached).0.meta.tree.size ≤ limit_or_default 1))
write_limit_lem_example = write_limit_lem rb_spine 1 two_cached tree_two-IsWell
