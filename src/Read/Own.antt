-- ===== src/Read/Own.antt =====
-- A read finds what was written last: the write puts its record into the read tree, and the read asks
-- the tree first.
use mathlib.Core.Path.{subst}
use imr_lsm.Prelude.{
  ℕ, suc, ◌+◌, ◌≤◌, ◌<◌, ◌≡◌, ◌∙◌, refl, sym, ap, inl, inr, Bool, true, Option, some, leb,
  if◌then◌else◌, arith, Bool-cases, Option-cases, u64_mod, inc64,
}
use imr_lsm.ReadTree.Defs.{TreeNode, tree_lookup, tree_update}
use imr_lsm.ReadTree.Invariant.{cached}
use imr_lsm.ReadTree.Operations.{IsWell, updated, tree_update_self, tree_update-IsWell}
use imr_lsm.ReadTree.Removal.{tree_lookup_lem}
use imr_lsm.Metadata.{Lookup, valid, deleted, Code, success, enomem}
use imr_lsm.Levels.{level_capacity}
use imr_lsm.Compaction.{compact_level, run_compactions}
use imr_lsm.Compaction.Cache.{
  cache, cache-compact_level, cache-run_compactions, cache-recalculate_invalid_stats,
}
use imr_lsm.State.{Meta, State, Env}
use imr_lsm.Write.{push_node, append_unsorted_node, then_run, recalculated}
use imr_lsm.Read.{read}

-- the answer for a record
abbrev pub answer : Bool → ℕ → Lookup
answer is_valid pba = if is_valid then valid pba else deleted

-- no cached record of the key is later than the clock
abbrev pub IsPast : ℕ → Meta → Type 0
IsPast key m = (n : TreeNode) → cached key m.tree ≡ some n → n.timestamp ≤ m.timestamp

-- A read of a key that the tree holds returns its record.
pub read_cached :
    (env : Env) (key : ℕ) (n : TreeNode) (s : State)
    → s.meta.initialized ≡ true
    → IsWell s.meta.tree
    → cached key s.meta.tree ≡ some n
    → (read env key s).1 ≡ answer n.valid n.pba
unfolding read
read_cached env key n s on well present =
    let looked : (tree_lookup key s.meta.tree).1 ≡ some n =
      (tree_lookup_lem key s.meta.tree well).0 ∙ present in
    elim (Bool-cases n.valid) [
      | inl live ↦ rw (on, looked, live) refl
      | inr dead ↦ rw (on, looked, dead) refl
    ]

-- the tree is in order and holds a record of the key with this address and validity
abbrev pub Holds : ℕ → Bool → ℕ → Meta → Type 0
Holds key is_valid pba m =
    (m.initialized ≡ true)
    × IsWell m.tree
    × (n : TreeNode) × (n.valid ≡ is_valid)
    × (n.pba ≡ pba)
    × (cached key m.tree ≡ some n)

pub Holds-cache :
    (key : ℕ) (is_valid : Bool) (pba : ℕ) (m m' : Meta)
    → cache m ≡ cache m'
    → Holds key is_valid pba m'
    → Holds key is_valid pba m
Holds-cache key is_valid pba m m' same (on, well, n, live, place, here) =
    let same_tree : m.tree ≡ m'.tree = ap (λ c. c.0) same in
    let same_flag : m.initialized ≡ m'.initialized = ap (λ c. c.1) same in
    (
      same_flag ∙ on,
      subst IsWell (sym same_tree) well,
      n,
      live,
      place,
      ap (cached key) same_tree ∙ here,
    )

pub read-Holds :
    (env : Env) (key : ℕ) (is_valid : Bool) (pba : ℕ) (s : State)
    → Holds key is_valid pba s.meta
    → (read env key s).1 ≡ answer is_valid pba
read-Holds env key is_valid pba s (on, well, n, live, place, here) =
    let found = read_cached env key n s on well here in rw (live, place) at found

-- what the tree holds for the key after a push
pushed_cached :
    (env : Env) (level key pba zone_idx : ℕ) (is_valid : Bool) (s : State)
    → env.alloc s.allocs ≡ true
    → IsWell s.meta.tree
    → IsPast key s.meta
    → s.meta.timestamp + 1 < u64_mod
    → (n : TreeNode) × (n.valid ≡ is_valid)
      × (n.pba ≡ pba)
      × (cached key (push_node env level key pba zone_idx is_valid s).meta.tree ≡ some n)
unfolding push_node
pushed_cached env level key pba zone_idx is_valid s got well past room =
    let timestamp = inc64 s.meta.timestamp in
    let after : Option TreeNode → TreeNode =
      updated env.rb s.meta.tree key pba is_valid timestamp in
    let self : cached key
          (tree_update env.rb (env.alloc s.allocs) key pba is_valid timestamp s.meta.tree)
        ≡ some (after (cached key s.meta.tree)) =
      rw got (tree_update_self env.rb s.meta.tree key pba is_valid timestamp well) in
    elim (Option-cases (cached key s.meta.tree)) [
      | inl absent ↦ (_, refl, refl, rw absent at self)
      | inr (n, present) ↦
          let later : leb n.timestamp timestamp ≡ true = ground (arith, past n present) in
          (
            record n { pba = pba; valid = is_valid; timestamp = timestamp },
            refl,
            refl,
            rw (present, later) at self,
          )
    ]

pushed_IsWell :
    (env : Env) (level key pba zone_idx : ℕ) (is_valid : Bool) (s : State)
    → IsWell s.meta.tree
    → IsWell (push_node env level key pba zone_idx is_valid s).meta.tree
unfolding push_node
pushed_IsWell env level key pba zone_idx is_valid s well =
    tree_update-IsWell env.rb s.meta.tree key pba is_valid _ (env.alloc s.allocs) well

pushed_initialized :
    (env : Env) (level key pba zone_idx : ℕ) (is_valid : Bool) (s : State)
    → (push_node env level key pba zone_idx is_valid s).meta.initialized ≡ s.meta.initialized
unfolding push_node
pushed_initialized env level key pba zone_idx is_valid s = refl

cache-recalculated :
    (env : Env) (r : State × Code) → cache (recalculated env r).0.meta ≡ cache r.0.meta
cache-recalculated env (s, success) = cache-recalculate_invalid_stats env.geometry s.zones s.meta
cache-recalculated env (s, enomem) = refl
cache-recalculated env (s, code) = refl

cache-then_run : (env : Env) (r : State × Code) → cache (then_run env r).0.meta ≡ cache r.0.meta
cache-then_run env (s, success) =
    cache-recalculated env (run_compactions env s) ∙ cache-run_compactions env s
cache-then_run env (s, enomem) = refl
cache-then_run env (s, code) = refl

-- what follows the push leaves the tree alone
cache-append_unsorted_node :
    (env : Env) (level key pba zone_idx : ℕ) (is_valid : Bool) (s : State)
    → env.alloc s.allocs ≡ true
    → cache (append_unsorted_node env level key pba zone_idx is_valid s).0.meta
      ≡ cache
          (push_node env level key pba zone_idx is_valid (record s { allocs = suc s.allocs })).meta
unfolding append_unsorted_node
cache-append_unsorted_node env level key pba zone_idx is_valid s got =
    let pushed =
      push_node env level key pba zone_idx is_valid (record s { allocs = suc s.allocs }) in
    let m = pushed.meta in
    let full =
      leb (level_capacity env.compaction_threshold m.level_max_entries level)
        (m.levels level).unsorted_count in
    elim (Bool-cases full) [
      | inl overflow ↦
          rw (got, overflow)
            (cache-then_run env (compact_level env level pushed)
              ∙ cache-compact_level env level pushed)
      | inr room ↦ rw (got, room) (cache-then_run env (pushed, success))
    ]

pub append_unsorted_node-Holds :
    (env : Env) (level key pba zone_idx : ℕ) (is_valid : Bool) (s : State)
    → s.meta.initialized ≡ true
    → env.alloc s.allocs ≡ true
    → env.alloc (suc s.allocs) ≡ true
    → IsWell s.meta.tree
    → IsPast key s.meta
    → s.meta.timestamp + 1 < u64_mod
    → Holds key is_valid pba (append_unsorted_node env level key pba zone_idx is_valid s).0.meta
append_unsorted_node-Holds env level key pba zone_idx is_valid s on got got' well past room =
    let s' : State = record s { allocs = suc s.allocs } in
    let pushed = push_node env level key pba zone_idx is_valid s' in
    let (n, live, place, here) =
      pushed_cached env level key pba zone_idx is_valid s' got' well past room in
    Holds-cache key is_valid pba (append_unsorted_node env level key pba zone_idx is_valid s).0.meta
      pushed.meta (cache-append_unsorted_node env level key pba zone_idx is_valid s got)
      (
        pushed_initialized env level key pba zone_idx is_valid s' ∙ on,
        pushed_IsWell env level key pba zone_idx is_valid s' well,
        n,
        live,
        place,
        here,
      )

-- After `imr_lsm_append_unsorted_node_locked` whose two allocations, of the node and of its tree node,
-- succeed, a read of the key answers with the address that was written, or with a deletion for a
-- tombstone, whatever compactions ran in between and whether or not they failed. The index is
-- initialized, its tree well-formed, no cached record of the key later than the clock, and the clock
-- not at its end.
pub read-append_unsorted_node :
    (env : Env) (level key pba zone_idx : ℕ) (is_valid : Bool) (s : State)
    → s.meta.initialized ≡ true
    → env.alloc s.allocs ≡ true
    → env.alloc (suc s.allocs) ≡ true
    → IsWell s.meta.tree
    → IsPast key s.meta
    → s.meta.timestamp + 1 < u64_mod
    → (read env key (append_unsorted_node env level key pba zone_idx is_valid s).0).1
      ≡ answer is_valid pba
read-append_unsorted_node env level key pba zone_idx is_valid s on got got' well past room =
    read-Holds env key is_valid pba (append_unsorted_node env level key pba zone_idx is_valid s).0
      (append_unsorted_node-Holds env level key pba zone_idx is_valid s on got got' well past room)
