-- ===== src/Compaction/Runs.antt =====
-- The index in level compactions, round after round.
use mathlib.Core.Path.{subst}
use imr_lsm.Prelude.{
  ℕ, zero, suc, ◌+◌, ◌%◌, ◌≤◌, ◌<◌, ◌≡◌, ◌≢◌, refl, sym, ap, inl, inr, true, false, ◌||◌, ◌&&◌,
  List, [], leb, ltb, ◌==◌, if◌then◌else◌, length, arith, Bool-cases, u32_max, u32_mod,
}
use imr_lsm.Metadata.{Node, Level, Code, success, enomem, levels_total, max_level, track_bottom}
use imr_lsm.BlockTable.{empty_builder}
use imr_lsm.BlockTable.Range.{empty-IsRanged}
use imr_lsm.Levels.{calculate_dynamic_levels, compaction_dst_level, pick_compaction_level}
use imr_lsm.Levels.Bounds.{
  compaction_dst_level_lem, pick_compaction_level_lem, calculate_dynamic_levels-active,
  compaction_dst_level-active, pick_compaction_level-active,
}
use imr_lsm.State.{Meta, State, Env, update}
use imr_lsm.Compaction.{
  Merge, merge_nodes, flush_bottom_unsorted, compact_level, compaction_rounds, run_compactions,
  with_meta, then_flush, then_compact, then_merge,
}
use imr_lsm.Compaction.Merges.{Merged, then_merge-Merged}
use imr_lsm.Compaction.Sound.{
  IsSound, IsSound-index, index, index-calculate_dynamic_levels, index-compaction_dst_level,
  index-pick_compaction_level, size, population, population-update, update-IsSortedLevel,
  close-IsSound, moved, moved-IsSortedLevel, population-moved,
}

-- what a call keeps: the index stays sound, and if the call succeeds no nodes were created
pub record After (s : State) (r : State × Code) : Type 0 where
  pub sound : IsSound r.0.meta
  pub fewer : r.1 ≡ success → population r.0.meta.levels ≤ population s.meta.levels

module _ (env : Env) where
  then_compact-After :
      (from to input k : ℕ) (w : Merge) (code : Code) (s : State)
      → from < levels_total
      → to < levels_total
      → k ≤ (if to == from then length (s.meta.levels to).unsorted else size (s.meta.levels from))
      → Merged k (record { dst = s.meta.levels to; builder = empty_builder; allocs = s.allocs }) w
      → IsSound s.meta
      → After s (then_compact env from to input (w, code) s)
  then_compact-After from to input k w success s inside inside' fits m h =
      let levels' = moved env from to w.dst s.meta.levels in
      let emptied = record s { meta = record (s.meta) { levels = levels' }; allocs = w.allocs } in
      let before : IsSound emptied.meta = record {
        levels = moved-IsSortedLevel env from to w.dst s.meta.levels h.levels m.sorted;
        segments = h.segments;
        active = h.active;
      } in
      let closed = close-IsSound env from to input track_bottom w.builder emptied m.ranged before in
      record {
        sound = closed.0;
        fewer = λ ok.
            let fits' =
              subst
                (λ (u : List Node).
                  k ≤ (if to == from then length u else size (s.meta.levels from)))
                (sym m.unsorted) fits in
            let same = ap (λ (u : List Node). length u) m.unsorted in
            subst (λ (f : ℕ → Level). population f ≤ population s.meta.levels) (sym closed.1)
              (population-moved env from to k w.dst s.meta.levels inside inside'
                (omega (arith, m.grows, same)) fits');
      }
  then_compact-After from to input k w enomem s inside inside' fits m h = record {
    sound = record {
      levels = update-IsSortedLevel s.meta.levels to w.dst h.levels m.sorted;
      segments = h.segments;
      active = h.active;
    };
    fewer = λ ok. absurd (ground (arith, ok));
  }
  then_compact-After from to input k w code s inside inside' fits m h = record {
    sound = record {
      levels = update-IsSortedLevel s.meta.levels to w.dst h.levels m.sorted;
      segments = h.segments;
      active = h.active;
    };
    fewer = λ ok. absurd (ground (arith, ok));
  }

  -- a compaction of the unsorted nodes of a level and of further ones
  merge-After :
      (from to input : ℕ) (ns ms : List Node) (s : State)
      → from < levels_total
      → to < levels_total
      → length ns + length ms
        ≤ (if to == from then length (s.meta.levels to).unsorted else size (s.meta.levels from))
      → IsSound s.meta
      → length (s.meta.levels to).sorted + length ns + length ms < u32_max
      → (let start : Merge = record {
        dst = s.meta.levels to;
        builder = empty_builder;
        allocs = s.allocs;
      } in
          After s (then_compact env from to input (then_merge env ms (merge_nodes env ns start)) s))
  merge-After from to input ns ms s inside inside' fits h small =
      let start : Merge = record {
        dst = s.meta.levels to;
        builder = empty_builder;
        allocs = s.allocs;
      } in
      let m =
        then_merge-Merged env ns ms start (h.levels to) small empty-IsRanged
          (omega (arith, small)) in
      let (w, code) = then_merge env ms (merge_nodes env ns start) in
      then_compact-After from to input (length ns + length ms) w code s inside inside' fits m h

  population-le :
      (f : ℕ → Level) (i j : ℕ)
      → i < levels_total
      → j < levels_total
      → i ≢ j
      → size (f i) + size (f j) ≤ population f
  population-le f i j inside inside' apart =
      let e : Level = record { unsorted = []; sorted = []; unsorted_count = 0; sorted_count = 0 } in
      let first = population-update f i e inside in
      let second = population-update (update f i e) j e inside' in
      let other : update f i e j ≡ f j = ground (arith, apart) in
      let same = ap size other in omega (arith, first, second, same)

  size-le : (f : ℕ → Level) (i : ℕ) → i < levels_total → size (f i) ≤ population f
  size-le f i inside =
      let e : Level = record { unsorted = []; sorted = []; unsorted_count = 0; sorted_count = 0 } in
      omega (arith, population-update f i e inside)

  flush_compact :
      (input : ℕ) (r : Merge × Code) (s : State)
      → then_compact env max_level max_level input (then_merge env [] r) s
        ≡ then_flush env input r s
  unfolding merge_nodes
  flush_compact input (w, success) s = refl
  flush_compact input (w, enomem) s = refl
  flush_compact input (w, code) s = refl

  pub flush_bottom_unsorted-After :
      (s : State)
      → IsSound s.meta
      → population s.meta.levels < u32_max
      → After s (flush_bottom_unsorted env s)
  unfolding flush_bottom_unsorted
  flush_bottom_unsorted-After s h small =
      let bottom = s.meta.levels max_level in
      let start : Merge = record { dst = bottom; builder = empty_builder; allocs = s.allocs } in
      let room = size-le s.meta.levels max_level (omega arith) in
      elim (Bool-cases (leb max_level s.meta.base_level || (bottom.unsorted_count == 0))) [
        | inl nothing ↦ rw nothing (record { sound = h; fewer = λ ok. omega arith })
        | inr some_nodes ↦ rw some_nodes (
            subst (After s)
              (flush_compact bottom.unsorted_count (merge_nodes env bottom.unsorted start) s)
              (merge-After max_level max_level bottom.unsorted_count bottom.unsorted [] s
                (omega arith) (omega arith) (omega arith) h (omega (arith, room, small))))
      ]

  with_meta-After :
      (s : State) (m : Meta) (r : State × Code)
      → index m ≡ index s.meta
      → After (with_meta env s m) r
      → After s r
  with_meta-After s m r same after = record {
    sound = after.sound;
    fewer = λ ok.
        subst (λ (f : ℕ → Level). population r.0.meta.levels ≤ population f) (ap (λ x. x.0) same)
          (after.fewer ok);
  }

  upper_level-After :
      (level : ℕ) (s : State)
      → level < max_level
      → IsSound s.meta
      → population s.meta.levels < u32_max
      → After s (compact_level env level s)
  unfolding compact_level
  upper_level-After level s above h small =
      let tunable = env.compaction_threshold in
      let (to, m) = compaction_dst_level tunable level s.meta in
      let s' = with_meta env s m in
      let below = compaction_dst_level_lem tunable level s.meta above in
      let same = index-compaction_dst_level tunable level s.meta in
      let active = compaction_dst_level-active tunable level s.meta h.active in
      let h' = IsSound-index s.meta m same active h in
      let kept = ap (λ x. x.0) same in
      let apart : (to == level) ≡ false = ground (arith, below.0) in
      let source = s.meta.levels level in
      let input = (source.unsorted_count + source.sorted_count) % u32_mod in
      let same_size = ap (λ (f : ℕ → Level). size (f level)) kept in
      let same_to = ap (λ (f : ℕ → Level). size (f to)) kept in
      let room =
        population-le s.meta.levels level to (omega (arith, above)) (omega (arith, below.1))
          (ground (arith, below.0)) in
      elim (Bool-cases
        ((source.unsorted_count == 0) && ((source.sorted_count == 0) || (to == level)))) [
          | inl nothing ↦ rw nothing (
              with_meta-After s m (s', success) same
                (record { sound = h'; fewer = λ ok. omega arith }))
          | inr some_nodes ↦
              rw (some_nodes, apart)
                (with_meta-After s m _ same (
                  merge-After level to input source.unsorted source.sorted s' (omega (arith, above))
                    (omega (arith, below.1)) (rw apart (omega (arith, same_size))) h'
                    (omega (arith, room, same_to, small))))
        ]

  bottom_level-After :
      (s : State)
      → IsSound s.meta
      → population s.meta.levels < u32_max
      → After s (compact_level env max_level s)
  unfolding compact_level compaction_dst_level
  bottom_level-After s h small =
      let source = s.meta.levels max_level in
      let input = (source.unsorted_count + source.sorted_count) % u32_mod in
      let room = size-le s.meta.levels max_level (omega arith) in
      elim (Bool-cases ((source.unsorted_count == 0) && ((source.sorted_count == 0) || true))) [
        | inl nothing ↦ rw nothing (record { sound = h; fewer = λ ok. omega arith })
        | inr some_nodes ↦ rw some_nodes (
            merge-After max_level max_level input source.unsorted [] s (omega arith) (omega arith)
              (omega arith) h (omega (arith, room, small)))
      ]

  pub compact_level-After :
      (level : ℕ) (s : State)
      → level ≤ max_level
      → IsSound s.meta
      → population s.meta.levels < u32_max
      → After s (compact_level env level s)
  compact_level-After level s inside h small = elim (Bool-cases (ltb level max_level)) [
    | inl above ↦ upper_level-After level s (ground arith) h small
    | inr bottom ↦
        let last : max_level ≡ level = ground arith in
        subst (λ (i : ℕ). After s (compact_level env i s)) last (bottom_level-After s h small)
  ]

  then_rounds :
      (rounds : ℕ) (s : State) (r : State × Code)
      → (IsSound r.0.meta
          → population r.0.meta.levels < u32_max
          → After r.0 (compaction_rounds env rounds r.0))
      → population s.meta.levels < u32_max
      → After s r
      → (let rest : State × Code = elim r.1 [
        | success ↦ compaction_rounds env rounds r.0
        | failed ↦ (r.0, failed)
      ] in
          After s rest)
  then_rounds rounds s (s', success) next small after =
      let le = after.fewer refl in
      let more = next after.sound (omega (arith, le, small)) in
      record { sound = more.sound; fewer = λ ok. omega (arith, more.fewer ok, le) }
  then_rounds rounds s (s', enomem) next small after = after
  then_rounds rounds s (s', code) next small after = after

  compaction_rounds-After :
      (rounds : ℕ) (s : State)
      → IsSound s.meta
      → population s.meta.levels < u32_max
      → After s (compaction_rounds env rounds s)
  unfolding compaction_rounds
  compaction_rounds-After zero s h small = record { sound = h; fewer = λ ok. omega arith }
  compaction_rounds-After (suc rounds) s h small =
      let (level, m) = pick_compaction_level env.compaction_threshold s.meta in
      let s' = with_meta env s m in
      let same = index-pick_compaction_level env.compaction_threshold s.meta in
      let active = pick_compaction_level-active env.compaction_threshold s.meta in
      let h' = IsSound-index s.meta m same active h in
      let kept = ap (λ x. population x.0) same in
      elim (Bool-cases (leb levels_total level)) [
        | inl none_left ↦ rw none_left (
            with_meta-After s m (s', success) same
              (record { sound = h'; fewer = λ ok. omega arith }))
        | inr picked ↦
            let above : level < max_level =
              ground (arith, pick_compaction_level_lem env.compaction_threshold s.meta) in
            rw picked (
              with_meta-After s m _ same (
                then_rounds rounds s' (compact_level env level s')
                  (compaction_rounds-After rounds _) (omega (arith, kept, small))
                  (upper_level-After level s' above h' (omega (arith, kept, small)))))
      ]

  -- Compactions, whether or not memory is found, leave the levels sorted and the filters true to their tables.
  pub run_compactions-IsSound :
      (s : State)
      → IsSound s.meta
      → population s.meta.levels < u32_max
      → IsSound (run_compactions env s).0.meta
  unfolding run_compactions
  run_compactions-IsSound s h small =
      let sized = with_meta env s (calculate_dynamic_levels env.compaction_threshold s.meta) in
      let same = index-calculate_dynamic_levels env.compaction_threshold s.meta in
      let h' =
        IsSound-index s.meta sized.meta same
          (calculate_dynamic_levels-active env.compaction_threshold s.meta) h in
      let small' : population sized.meta.levels < u32_max =
        omega (arith, ap (λ x. population x.0) same, small) in
      (then_rounds levels_total sized (flush_bottom_unsorted env sized)
        (compaction_rounds-After levels_total _) small'
        (flush_bottom_unsorted-After sized h' small')).sound
