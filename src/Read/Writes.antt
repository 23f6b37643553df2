-- ===== src/Read/Writes.antt =====
-- A read after an insertion or a deletion of the key.
use mathlib.Core.Path.{subst}
use imr_lsm.Prelude.{
  ℕ, suc, ◌+◌, ◌<◌, ◌≡◌, ◌∙◌, refl, sym, ap, true, false, none, leb, ◌==◌, if◌then◌else◌, arith,
  u64_mod,
}
use imr_lsm.ReadTree.Defs.{tree_remove}
use imr_lsm.ReadTree.Invariant.{cached}
use imr_lsm.ReadTree.Operations.{IsWell}
use imr_lsm.ReadTree.Removal.{cached-tree_remove, tree_remove-IsWell}
use imr_lsm.Metadata.{valid, deleted, Code, success, enomem, levels_total, default_unsorted_level}
use imr_lsm.Levels.{calculate_dynamic_levels}
use imr_lsm.Compaction.Cache.{cache, cache-calculate_dynamic_levels, cache-flush_bottom_unsorted}
use imr_lsm.State.{State, Env}
use imr_lsm.State.Setup.{ensure_initialized}
use imr_lsm.Write.{append_unsorted_node, prepare, insert, delete, count_write, count_delete}
use imr_lsm.Read.{read}
use imr_lsm.Read.Own.{Holds, IsPast, Holds-cache, read-Holds, append_unsorted_node-Holds}

pub ensured : (s : State) → s.meta.initialized ≡ true → ensure_initialized s ≡ s
unfolding ensure_initialized
ensured s on = ground arith

cache-prepare :
    (env : Env) (s : State)
    → s.meta.initialized ≡ true
    → cache (prepare env s).0.meta ≡ cache s.meta
unfolding prepare
cache-prepare env s on =
    let s' = ensure_initialized s in
    cache-flush_bottom_unsorted env
      (record s' { meta = calculate_dynamic_levels env.compaction_threshold s'.meta })
    ∙ cache-calculate_dynamic_levels env.compaction_threshold s'.meta
    ∙ ap (λ (x : State). cache x.meta) (ensured s on)

cache-count_write :
    (env : Env) (r : State × Code) → cache (count_write env r).0.meta ≡ cache r.0.meta
cache-count_write env (s, success) = refl
cache-count_write env (s, enomem) = refl
cache-count_write env (s, code) = refl

cache-count_delete :
    (env : Env) (r : State × Code) → cache (count_delete env r).0.meta ≡ cache r.0.meta
cache-count_delete env (s, success) = refl
cache-count_delete env (s, enomem) = refl
cache-count_delete env (s, code) = refl

module _ (env : Env) (key : ℕ) (s : State) (on : s.meta.initialized ≡ true)
    (well : IsWell s.meta.tree) where
  prepared_IsWell : IsWell (prepare env s).0.meta.tree
  prepared_IsWell = subst IsWell (sym (ap (λ c. c.0) (cache-prepare env s on))) well

  prepared_initialized : (prepare env s).0.meta.initialized ≡ true
  prepared_initialized = ap (λ c. c.1) (cache-prepare env s on) ∙ on

  module _ (ready : (prepare env s).1 ≡ success) (got : env.alloc (prepare env s).0.allocs ≡ true)
      (got' : env.alloc (suc (prepare env s).0.allocs) ≡ true)
      (room : s.meta.timestamp + 1 < u64_mod) where
    prepared_room : (prepare env s).0.meta.timestamp + 1 < u64_mod
    prepared_room = rw (ap (λ c. c.2) (cache-prepare env s on)) room

    pub insert-Holds :
        (level pba zone_idx : ℕ)
        → level < levels_total
        → IsPast key s.meta
        → Holds key true pba (insert env level key pba zone_idx s).0.meta
    unfolding insert
    insert-Holds level pba zone_idx inside past =
        let p = (prepare env s).0 in
        let target = if level == default_unsorted_level then p.meta.active_write_level else level in
        let appended = append_unsorted_node env target key pba zone_idx true p in
        let past' : IsPast key p.meta = λ n here.
          rw (ap (λ c. c.2) (cache-prepare env s on))
            (past n (ap (cached key) (sym (ap (λ c. c.0) (cache-prepare env s on))) ∙ here)) in
        let held =
          append_unsorted_node-Holds env target key pba zone_idx true p prepared_initialized got
            got' prepared_IsWell past' prepared_room in
        let below : leb levels_total level ≡ false = ground arith in
        rw (below, ready)
          (Holds-cache key true pba (count_write env appended).0.meta appended.0.meta
            (cache-count_write env appended) held)

    -- The first steps of an insertion succeeded, the flush of the bottom level among them, and so did
    -- the allocations of the node and of its tree node. Then, whatever compactions the insertion ran
    -- and whether or not they failed, a read of the key answers with the address that was inserted.
    -- The level is one of the index, the index is initialized, its tree well-formed, no cached record
    -- of the key later than the clock, and the clock not at its end.
    pub read-insert :
        (level pba zone_idx : ℕ)
        → level < levels_total
        → IsPast key s.meta
        → (read env key (insert env level key pba zone_idx s).0).1 ≡ valid pba
    read-insert level pba zone_idx inside past =
        read-Holds env key true pba (insert env level key pba zone_idx s).0
          (insert-Holds level pba zone_idx inside past)

    -- The first steps of a deletion succeeded, the flush of the bottom level among them, and so did the
    -- allocations of the tombstone and of its tree node. Then, whatever compactions the deletion ran and
    -- whether or not they failed, a read of the key answers that it is deleted. The index is
    -- initialized, its tree well-formed, and the clock not at its end.
    pub read-delete : (read env key (delete env key s).0).1 ≡ deleted
    unfolding delete
    read-delete =
        let p = (prepare env s).0 in
        let m = p.meta in
        let removed : State = record p {
          meta = record m { tree = tree_remove env.rb key m.tree };
        } in
        let gone : cached key removed.meta.tree ≡ none =
          cached-tree_remove env.rb key m.tree prepared_IsWell key ∙ ground arith in
        let past' : IsPast key removed.meta = λ n here. absurd (ground (arith)) in
        let appended = append_unsorted_node env m.active_write_level key 0 0 false removed in
        let held =
          append_unsorted_node-Holds env m.active_write_level key 0 0 false removed
            prepared_initialized got got' (tree_remove-IsWell env.rb key m.tree prepared_IsWell)
            past' prepared_room in
        rw ready (
          read-Holds env key false 0 (count_delete env appended).0 (
            Holds-cache key false 0 (count_delete env appended).0.meta appended.0.meta
              (cache-count_delete env appended) held))
