-- ===== src/Write/Sound.antt =====
-- The index in writes and deletes.
use imr_lsm.Prelude.{
  ℕ, suc, ◌+◌, ◌≤◌, ◌<◌, ◌≡◌, refl, ap, inl, inr, Bool, true, false, ◌∷◌, leb, ◌==◌, if◌then◌else◌,
  arith, Bool-cases, u32_max, inc32, inc64,
}
use imr_lsm.Metadata.{Node, Code, success, enomem, levels_total, max_level, default_unsorted_level}
use imr_lsm.SortedLevel.Upsert.{IsSortedLevel}
use imr_lsm.Levels.{level_capacity, calculate_dynamic_levels}
use imr_lsm.Levels.Bounds.{calculate_dynamic_levels-active}
use imr_lsm.Validity.{recalculate_invalid_stats, update_selection}
use imr_lsm.ReadTree.Defs.{tree_remove}
use imr_lsm.State.{State, Env}
use imr_lsm.State.Setup.{release_metadata, initialize_metadata, ensure_initialized}
use imr_lsm.Compaction.{run_compactions}
use imr_lsm.Compaction.Filters.{recalculate_invalid_stats-IsFiltered}
use imr_lsm.Compaction.Sound.{
  IsSound, IsSound-index, index-calculate_dynamic_levels, population, population-update,
  update-IsSortedLevel,
}
use imr_lsm.Compaction.Runs.{
  After, compact_level-After, flush_bottom_unsorted-After, run_compactions-IsSound,
}
use imr_lsm.Write.{
  push_node, recalculated, then_run, append_unsorted_node, prepare, count_write, then_append,
  insert, count_delete, then_tombstone, delete,
}

module _ (env : Env) where
  push_node-Sound :
      (level key pba zone_idx : ℕ) (valid : Bool) (s : State)
      → level ≤ max_level
      → IsSound s.meta
      → IsSound (push_node env level key pba zone_idx valid s).meta
        × (population (push_node env level key pba zone_idx valid s).meta.levels
            ≤ population s.meta.levels + 1)
  unfolding push_node
  push_node-Sound level key pba zone_idx valid s inside h =
      let m = s.meta in
      let l = m.levels level in
      let n : Node = record {
        key = key;
        pba = pba;
        zone_idx = zone_idx;
        valid = valid;
        timestamp = inc64 m.timestamp;
      } in
      let l' = record l { unsorted = n ∷ l.unsorted; unsorted_count = inc32 l.unsorted_count } in
      let s' : IsSortedLevel l' = record {
        ascending = (h.levels level).ascending;
        counted = (h.levels level).counted;
      } in
      (
        record {
          levels = update-IsSortedLevel m.levels level l' h.levels s';
          segments = h.segments;
          active = h.active;
        },
        omega (arith, population-update m.levels level l' (omega arith)),
      )

  recalculated-IsSound : (r : State × Code) → IsSound r.0.meta → IsSound (recalculated env r).0.meta
  unfolding recalculate_invalid_stats update_selection
  recalculated-IsSound (s, success) h = record {
    levels = h.levels;
    segments = recalculate_invalid_stats-IsFiltered env.geometry s.zones s.meta h.segments;
    active = h.active;
  }
  recalculated-IsSound (s, enomem) h = h
  recalculated-IsSound (s, code) h = h

  then_run-IsSound :
      (s : State) (r : State × Code)
      → population s.meta.levels < u32_max
      → After s r
      → IsSound (then_run env r).0.meta
  then_run-IsSound s (s', success) small after =
      recalculated-IsSound (run_compactions env s')
        (run_compactions-IsSound env s' after.sound (omega (arith, small, after.fewer refl)))
  then_run-IsSound s (s', enomem) small after = after.sound
  then_run-IsSound s (s', code) small after = after.sound

  append_unsorted_node-IsSound :
      (level key pba zone_idx : ℕ) (valid : Bool) (s : State)
      → level ≤ max_level
      → IsSound s.meta
      → population s.meta.levels + 1 < u32_max
      → IsSound (append_unsorted_node env level key pba zone_idx valid s).0.meta
  unfolding append_unsorted_node
  append_unsorted_node-IsSound level key pba zone_idx valid s inside h small =
      let pushed =
        push_node env level key pba zone_idx valid (record s { allocs = suc s.allocs }) in
      let m = pushed.meta in
      let full =
        leb (level_capacity env.compaction_threshold m.level_max_entries level)
          (m.levels level).unsorted_count in
      let after =
        push_node-Sound level key pba zone_idx valid (record s { allocs = suc s.allocs }) inside
          h in
      let small' : population m.levels < u32_max = omega (arith, small, after.1) in
      elim (Bool-cases (env.alloc s.allocs)) [
        | inr failed ↦ rw failed h
        | inl got ↦ elim (Bool-cases full) [
          | inl too_many ↦
              rw (got, too_many)
                (then_run-IsSound pushed _ small'
                  (compact_level-After env level pushed inside after.0 small'))
          | inr room ↦
              rw (got, room)
                (then_run-IsSound pushed (pushed, success) small'
                  (record { sound = after.0; fewer = λ ok. omega arith }))
        ]
      ]

  chosen-Sound :
      (ready : Bool) (s : State)
      → IsSound s.meta
      → (let r : State = elim ready [ true ↦ s | false ↦ initialize_metadata s ] in
          IsSound r.meta × (population r.meta.levels ≤ population s.meta.levels))
  unfolding initialize_metadata release_metadata population
  chosen-Sound true s h = (h, omega arith)
  chosen-Sound false s h = (
    record {
      levels = λ level. record { ascending = tt; counted = refl };
      segments = tt;
      active = omega arith;
    },
    omega arith,
  )

  ensure_initialized-Sound :
      (s : State)
      → IsSound s.meta
      → IsSound (ensure_initialized s).meta
        × (population (ensure_initialized s).meta.levels ≤ population s.meta.levels)
  unfolding ensure_initialized
  ensure_initialized-Sound s h = chosen-Sound s.meta.initialized s h

  prepare-Sound :
      (s : State)
      → IsSound s.meta
      → population s.meta.levels + 1 < u32_max
      → IsSound (prepare env s).0.meta
        × ((prepare env s).1 ≡ success → population (prepare env s).0.meta.levels + 1 < u32_max)
  unfolding prepare
  prepare-Sound s h small =
      let fresh = ensure_initialized-Sound s h in
      let m = (ensure_initialized s).meta in
      let m' = calculate_dynamic_levels env.compaction_threshold m in
      let s' = record (ensure_initialized s) { meta = m' } in
      let same = index-calculate_dynamic_levels env.compaction_threshold m in
      let h' =
        IsSound-index m m' same (calculate_dynamic_levels-active env.compaction_threshold m)
          fresh.0 in
      let small' : population m'.levels + 1 < u32_max =
        omega (arith, ap (λ x. population x.0) same, fresh.1, small) in
      let after = flush_bottom_unsorted-After env s' h' (omega (arith, small')) in
      (after.sound, λ ok. omega (arith, after.fewer ok, small'))

  count_write-IsSound : (r : State × Code) → IsSound r.0.meta → IsSound (count_write env r).0.meta
  count_write-IsSound (s, success) h = record {
    levels = h.levels;
    segments = h.segments;
    active = h.active;
  }
  count_write-IsSound (s, enomem) h = h
  count_write-IsSound (s, code) h = h

  count_delete-IsSound : (r : State × Code) → IsSound r.0.meta → IsSound (count_delete env r).0.meta
  count_delete-IsSound (s, success) h = record {
    levels = h.levels;
    segments = h.segments;
    active = h.active;
  }
  count_delete-IsSound (s, enomem) h = h
  count_delete-IsSound (s, code) h = h

  then_append-IsSound :
      (level key pba zone_idx : ℕ) (r : State × Code)
      → level ≤ max_level
      → IsSound r.0.meta
      → (r.1 ≡ success → population r.0.meta.levels + 1 < u32_max)
      → IsSound (then_append env level key pba zone_idx r).0.meta
  then_append-IsSound level key pba zone_idx (s, success) inside h small =
      let target = if level == default_unsorted_level then s.meta.active_write_level else level in
      let inside' : target ≤ max_level = ground (arith, inside, h.active) in
      count_write-IsSound (append_unsorted_node env target key pba zone_idx true s)
        (append_unsorted_node-IsSound target key pba zone_idx true s inside' h (small refl))
  then_append-IsSound level key pba zone_idx (s, enomem) inside h small = h
  then_append-IsSound level key pba zone_idx (s, code) inside h small = h

  -- A write, whether it succeeds or not, keeps the index sound while the levels hold fewer than
  -- 2^32 - 2 nodes.
  pub insert-IsSound :
      (level key pba zone_idx : ℕ) (s : State)
      → IsSound s.meta
      → population s.meta.levels + 1 < u32_max
      → IsSound (insert env level key pba zone_idx s).0.meta
  unfolding insert
  insert-IsSound level key pba zone_idx s h small =
      let ready = prepare-Sound s h small in
      elim (Bool-cases (leb levels_total level)) [
        | inl outside ↦ rw outside h
        | inr inside ↦ rw inside (
            then_append-IsSound level key pba zone_idx (prepare env s) (ground arith) ready.0
              ready.1)
      ]

  then_tombstone-IsSound :
      (key : ℕ) (r : State × Code)
      → IsSound r.0.meta
      → (r.1 ≡ success → population r.0.meta.levels + 1 < u32_max)
      → IsSound (then_tombstone env key r).0.meta
  then_tombstone-IsSound key (s, success) h small =
      let m = s.meta in
      let removed = record s { meta = record m { tree = tree_remove env.rb key m.tree } } in
      count_delete-IsSound (append_unsorted_node env m.active_write_level key 0 0 false removed) (
        append_unsorted_node-IsSound m.active_write_level key 0 0 false removed h.active
          (record { levels = h.levels; segments = h.segments; active = h.active }) (small refl))
  then_tombstone-IsSound key (s, enomem) h small = h
  then_tombstone-IsSound key (s, code) h small = h

  -- A deletion, whether it succeeds or not, keeps the index sound while the levels hold fewer than
  -- 2^32 - 2 nodes.
  pub delete-IsSound :
      (key : ℕ) (s : State)
      → IsSound s.meta
      → population s.meta.levels + 1 < u32_max
      → IsSound (delete env key s).0.meta
  unfolding delete
  delete-IsSound key s h small =
      let ready = prepare-Sound s h small in
      then_tombstone-IsSound key (prepare env s) ready.0 ready.1
