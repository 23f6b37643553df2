-- ===== src/Compaction/Cache.antt =====
-- The read tree and the clock in level compactions.
use imr_lsm.Prelude.{
  ℕ, zero, suc, ◌≡◌, ◌∙◌, refl, inl, inr, Bool, Option, [], ◌+◌, ◌%◌, u32_mod, leb, ◌==◌,
  if◌then◌else◌, arith, Bool-cases, ◌||◌, ◌&&◌,
}
use imr_lsm.Geometry.{Geometry}
use imr_lsm.ReadTree.Defs.{ReadTree}
use imr_lsm.Metadata.{Code, success, enomem, levels_total, max_level, track_bottom}
use imr_lsm.BlockTable.{Builder, empty_builder}
use imr_lsm.Levels.{
  calculate_dynamic_levels, size_levels, compaction_dst_level, pick_compaction_level,
}
use imr_lsm.Validity.{recalculate_invalid_stats, update_selection}
use imr_lsm.State.{Meta, State, Env, Zone, update}
use imr_lsm.Compaction.{
  link_segment, append_segment, Merge, merge_nodes, flush_bottom_unsorted, compact_level,
  compaction_rounds, run_compactions, finish, then_flush, then_compact, then_merge, merged,
  free_unsorted, free_sorted,
}

-- what a compaction leaves alone
abbrev pub cache : Meta → ReadTree × Bool × ℕ
cache m = (m.tree, m.initialized, m.timestamp)

pub cache-calculate_dynamic_levels :
    (tunable : ℕ) (m : Meta) → cache (calculate_dynamic_levels tunable m) ≡ cache m
unfolding calculate_dynamic_levels size_levels
cache-calculate_dynamic_levels tunable m = ground arith

pub cache-recalculate_invalid_stats :
    (g : Geometry) (zones : Option (ℕ → Zone)) (m : Meta)
    → cache (recalculate_invalid_stats g zones m) ≡ cache m
unfolding recalculate_invalid_stats update_selection
cache-recalculate_invalid_stats g zones m = refl

cache-compaction_dst_level :
    (tunable level : ℕ) (m : Meta) → cache (compaction_dst_level tunable level m).1 ≡ cache m
unfolding compaction_dst_level
cache-compaction_dst_level tunable level m = elim (Bool-cases (leb max_level level)) [
  | inl bottom ↦ rw bottom refl
  | inr above ↦ rw above (cache-calculate_dynamic_levels tunable m)
]

cache-pick_compaction_level :
    (tunable : ℕ) (m : Meta) → cache (pick_compaction_level tunable m).1 ≡ cache m
unfolding pick_compaction_level
cache-pick_compaction_level tunable m = cache-calculate_dynamic_levels tunable m

module _ (env : Env) where
  cache-link_segment :
      (level track : ℕ) (b : Builder) (s : State)
      → cache (link_segment env level track b s).meta ≡ cache s.meta
  unfolding link_segment
  cache-link_segment level track b s = cache-recalculate_invalid_stats env.geometry s.zones _

  cache-append_segment :
      (level track : ℕ) (b : Builder) (s : State)
      → cache (append_segment env level track b s).0.meta ≡ cache s.meta
  unfolding append_segment
  cache-append_segment level track b s = elim (Bool-cases (b.node_count == 0)) [
    | inl empty ↦ rw empty refl
    | inr some_nodes ↦ elim (Bool-cases (env.alloc s.allocs)) [
      | inr failed ↦ rw (some_nodes, failed) refl
      | inl got ↦ elim (Bool-cases (env.alloc (suc s.allocs))) [
        | inr failed ↦ rw (some_nodes, got, failed) refl
        | inl both ↦ rw (some_nodes, got, both) (cache-link_segment level track b _)
      ]
    ]
  ]

  cache-finish :
      (from to input : ℕ) (r : State × Code)
      → cache (finish env from to input r).0.meta ≡ cache r.0.meta
  cache-finish from to input (s, success) =
      cache-calculate_dynamic_levels env.compaction_threshold _
  cache-finish from to input (s, enomem) = refl
  cache-finish from to input (s, code) = refl

  -- the end of both compactions: a segment, then the counters
  cache-close :
      (from to input track : ℕ) (b : Builder) (s : State)
      → cache (finish env from to input (append_segment env to track b s)).0.meta ≡ cache s.meta
  cache-close from to input track b s =
      cache-finish from to input (append_segment env to track b s)
      ∙ cache-append_segment to track b s

  cache-then_flush :
      (input : ℕ) (r : Merge × Code) (s : State)
      → cache (then_flush env input r s).0.meta ≡ cache s.meta
  cache-then_flush input (w, success) s =
      let s' = merged env max_level w s in
      let m = s'.meta in
      cache-close max_level max_level input track_bottom w.builder (record s' {
        meta = record m {
          levels = update m.levels max_level (free_unsorted env (m.levels max_level));
        };
      })
  cache-then_flush input (w, enomem) s = refl
  cache-then_flush input (w, code) s = refl

  pub cache-flush_bottom_unsorted :
      (s : State) → cache (flush_bottom_unsorted env s).0.meta ≡ cache s.meta
  unfolding flush_bottom_unsorted
  cache-flush_bottom_unsorted s =
      let bottom = s.meta.levels max_level in
      let start : Merge = record { dst = bottom; builder = empty_builder; allocs = s.allocs } in
      elim (Bool-cases (leb max_level s.meta.base_level || (bottom.unsorted_count == 0))) [
        | inl nothing ↦ rw nothing refl
        | inr some_nodes ↦
            rw some_nodes
              (cache-then_flush bottom.unsorted_count (merge_nodes env bottom.unsorted start) s)
      ]

  cache-then_compact :
      (level dst_level input : ℕ) (r : Merge × Code) (s : State)
      → cache (then_compact env level dst_level input r s).0.meta ≡ cache s.meta
  cache-then_compact level dst_level input (w, success) s =
      let s' = merged env dst_level w s in
      let m = s'.meta in
      let emptied =
        if dst_level == level
        then free_unsorted env (m.levels level)
        else free_sorted env (free_unsorted env (m.levels level)) in
      cache-close level dst_level input track_bottom w.builder
        (record s' { meta = record m { levels = update m.levels level emptied } })
  cache-then_compact level dst_level input (w, enomem) s = refl
  cache-then_compact level dst_level input (w, code) s = refl

  pub cache-compact_level :
      (level : ℕ) (s : State) → cache (compact_level env level s).0.meta ≡ cache s.meta
  unfolding compact_level
  cache-compact_level level s =
      let source = s.meta.levels level in
      let (dst_level, m) = compaction_dst_level env.compaction_threshold level s.meta in
      let start : Merge = record {
        dst = m.levels dst_level;
        builder = empty_builder;
        allocs = s.allocs;
      } in
      let input = (source.unsorted_count + source.sorted_count) % u32_mod in
      let sorted_nodes = if dst_level == level then [] else source.sorted in
      let same = cache-compaction_dst_level env.compaction_threshold level s.meta in
      elim (Bool-cases
        ((source.unsorted_count == 0) && ((source.sorted_count == 0) || (dst_level == level)))) [
          | inl nothing ↦ rw nothing same
          | inr some_nodes ↦ rw some_nodes (
              cache-then_compact level dst_level input
                (then_merge env sorted_nodes (merge_nodes env source.unsorted start))
                (record s { meta = m })
              ∙ same)
        ]

  cache-compaction_rounds :
      (rounds : ℕ) (s : State) → cache (compaction_rounds env rounds s).0.meta ≡ cache s.meta
  unfolding compaction_rounds
  cache-compaction_rounds zero s = refl
  cache-compaction_rounds (suc rounds) s =
      let picked = pick_compaction_level env.compaction_threshold s.meta in
      let chosen = record s { meta = picked.1 } in
      let same = cache-pick_compaction_level env.compaction_threshold s.meta in
      let compacted = compact_level env picked.0 chosen in
      let once : cache compacted.0.meta ≡ cache s.meta =
        cache-compact_level picked.0 chosen ∙ same in
      elim (Bool-cases (leb levels_total picked.0)) [
        | inl finished ↦ rw finished same
        | inr more ↦
            rw more
              (elim (compacted.1)
                as (λ c.
                  let r : State × Code = elim c [
                    | success ↦ compaction_rounds env rounds compacted.0
                    | failed ↦ (compacted.0, failed)
                  ] in
                  cache r.0.meta ≡ cache s.meta) [
                    | success ↦ cache-compaction_rounds rounds compacted.0 ∙ once
                    | failed ↦ once
                  ])
      ]

  -- The whole of `imr_lsm_run_compactions_locked` leaves the read tree, the flag `initialized` and the
  -- clock as they were, whatever it returns.
  pub cache-run_compactions : (s : State) → cache (run_compactions env s).0.meta ≡ cache s.meta
  unfolding run_compactions
  cache-run_compactions s =
      let sized : State = record s {
        meta = calculate_dynamic_levels env.compaction_threshold s.meta;
      } in
      let flushed = flush_bottom_unsorted env sized in
      let once : cache flushed.0.meta ≡ cache s.meta =
        cache-flush_bottom_unsorted sized
        ∙ cache-calculate_dynamic_levels env.compaction_threshold s.meta in
      elim (flushed.1)
        as (λ c.
          let r : State × Code = elim c [
            | success ↦ compaction_rounds env levels_total flushed.0
            | failed ↦ (flushed.0, failed)
          ] in
          cache r.0.meta ≡ cache s.meta) [
            | success ↦ cache-compaction_rounds levels_total flushed.0 ∙ once
            | failed ↦ once
          ]
