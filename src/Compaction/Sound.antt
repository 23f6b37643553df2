-- ===== src/Compaction/Sound.antt =====
-- The index in one round of level compaction, and its nodes.
use mathlib.Core.Path.{subst}
use imr_lsm.Prelude.{
  ℕ, zero, suc, ◌+◌, ◌≤◌, ◌<◌, ◌≡◌, ◌∙◌, refl, sym, ap, inl, inr, List, leb, ◌==◌, if◌then◌else◌,
  length, arith, All, Bool-cases,
}
use imr_lsm.Metadata.{Level, Segment, Code, success, enomem, levels_total, max_level}
use imr_lsm.BlockTable.{Builder}
use imr_lsm.BlockTable.Range.{IsRanged}
use imr_lsm.SortedLevel.Upsert.{IsSortedLevel}
use imr_lsm.Levels.{
  calculate_dynamic_levels, size_levels, compaction_dst_level, pick_compaction_level,
}
use imr_lsm.Levels.Bounds.{calculate_dynamic_levels-active}
use imr_lsm.Validity.{recalculate_invalid_stats, update_selection}
use imr_lsm.State.{Meta, State, Env, update}
use imr_lsm.Compaction.{link_segment, append_segment, finish, free_unsorted, free_sorted}
use imr_lsm.Compaction.Filters.{IsFiltered, append_segment-IsFiltered}

pub record IsSound (m : Meta) : Type 0 where
  pub levels : (level : ℕ) → IsSortedLevel (m.levels level)
  pub segments : All IsFiltered m.segments
  pub active : m.active_write_level ≤ max_level

-- the parts of the metadata that hold records
abbrev pub index : Meta → (ℕ → Level) × List Segment
index m = (m.levels, m.segments)

pub IsSound-index :
    (m m' : Meta) → index m' ≡ index m → m'.active_write_level ≤ max_level → IsSound m → IsSound m'
IsSound-index m m' same active h = record {
  active = active;
  levels =
      subst (λ (f : ℕ → Level). (level : ℕ) → IsSortedLevel (f level)) (sym (ap (λ x. x.0) same))
        h.levels;
  segments = subst (All IsFiltered) (sym (ap (λ x. x.1) same)) h.segments;
}

-- the parts that appending a segment leaves alone
abbrev pub held : Meta → (ℕ → Level) × ℕ
held m = (m.levels, m.active_write_level)

pub index-calculate_dynamic_levels :
    (tunable : ℕ) (m : Meta) → index (calculate_dynamic_levels tunable m) ≡ index m
unfolding calculate_dynamic_levels size_levels
index-calculate_dynamic_levels tunable m = ground arith

pub index-compaction_dst_level :
    (tunable level : ℕ) (m : Meta) → index (compaction_dst_level tunable level m).1 ≡ index m
unfolding compaction_dst_level
index-compaction_dst_level tunable level m = elim (Bool-cases (leb max_level level)) [
  | inl bottom ↦ rw bottom refl
  | inr above ↦ rw above (index-calculate_dynamic_levels tunable m)
]

pub index-pick_compaction_level :
    (tunable : ℕ) (m : Meta) → index (pick_compaction_level tunable m).1 ≡ index m
unfolding pick_compaction_level
index-pick_compaction_level tunable m = index-calculate_dynamic_levels tunable m

-- the nodes of a level, and of all
abbrev pub size : Level → ℕ
size l = length l.unsorted + length l.sorted

unfoldable pub population : (ℕ → Level) → ℕ
population f =
    size (f 0) + size (f 1) + size (f 2) + size (f 3) + size (f 4) + size (f 5) + size (f 6)

pub population-update :
    (f : ℕ → Level) (i : ℕ) (l : Level)
    → i < levels_total
    → population (update f i l) + size (f i) ≡ population f + size l
unfolding population
population-update f zero l h = omega arith
population-update f (suc zero) l h = omega arith
population-update f (suc (suc zero)) l h = omega arith
population-update f (suc (suc (suc zero))) l h = omega arith
population-update f (suc (suc (suc (suc zero)))) l h = omega arith
population-update f (suc (suc (suc (suc (suc zero))))) l h = omega arith
population-update f (suc (suc (suc (suc (suc (suc zero)))))) l h = omega arith
population-update f (suc (suc (suc (suc (suc (suc (suc i))))))) l h = absurd (omega arith)

pub update-IsSortedLevel :
    (f : ℕ → Level) (i : ℕ) (l : Level)
    → ((j : ℕ) → IsSortedLevel (f j))
    → IsSortedLevel l
    → (j : ℕ) → IsSortedLevel (update f i l j)
update-IsSortedLevel f i l h k j = elim (Bool-cases (i == j)) [
  | inl here ↦ rw here k
  | inr there ↦ rw there (h j)
]

moved_le :
    (from to k : ℕ) (e dst : Level) (f : ℕ → Level)
    → from < levels_total
    → to < levels_total
    → size dst ≤ size (f to) + k
    → k + size e ≤ size (update f to dst from)
    → population (update (update f to dst) from e) ≤ population f
moved_le from to k e dst f inside inside' grows enough =
    let first = population-update f to dst inside' in
    let second = population-update (update f to dst) from e inside in
    omega (arith, first, second, grows, enough)

module _ (env : Env) where
  pub kept-append_segment :
      (level track : ℕ) (b : Builder) (s : State)
      → held (append_segment env level track b s).0.meta ≡ held s.meta
  unfolding append_segment link_segment recalculate_invalid_stats update_selection
  kept-append_segment level track b s = elim (Bool-cases (b.node_count == 0)) [
    | inl empty ↦ rw empty refl
    | inr some_nodes ↦ elim (Bool-cases (env.alloc s.allocs)) [
      | inr failed ↦ rw (some_nodes, failed) refl
      | inl got ↦ elim (Bool-cases (env.alloc (suc s.allocs))) [
        | inr failed ↦ rw (some_nodes, got, failed) refl
        | inl both ↦ rw (some_nodes, got, both) refl
      ]
    ]
  ]

  finish-kept :
      (from to input : ℕ) (r : State × Code)
      → r.0.meta.active_write_level ≤ max_level
      → (index (finish env from to input r).0.meta ≡ index r.0.meta)
        × ((finish env from to input r).0.meta.active_write_level ≤ max_level)
  finish-kept from to input (s, success) h = (
    index-calculate_dynamic_levels env.compaction_threshold _,
    calculate_dynamic_levels-active env.compaction_threshold _,
  )
  finish-kept from to input (s, enomem) h = (refl, h)
  finish-kept from to input (s, code) h = (refl, h)

  pub close-IsSound :
      (from to input track : ℕ) (b : Builder) (s : State)
      → IsRanged b
      → IsSound s.meta
      → IsSound (finish env from to input (append_segment env to track b s)).0.meta
        × ((finish env from to input (append_segment env to track b s)).0.meta.levels
            ≡ s.meta.levels)
  close-IsSound from to input track b s ranged h =
      let r = append_segment env to track b s in
      let kept = kept-append_segment to track b s in
      let active = subst (λ (n : ℕ). n ≤ max_level) (sym (ap (λ x. x.1) kept)) h.active in
      let (same, active') = finish-kept from to input r active in
      (
        IsSound-index r.0.meta (finish env from to input r).0.meta same active' (record {
          levels =
              subst (λ (f : ℕ → Level). (level : ℕ) → IsSortedLevel (f level))
                (sym (ap (λ x. x.0) kept)) h.levels;
          segments = append_segment-IsFiltered env to track b s ranged h.segments;
          active = active;
        }),
        ap (λ x. x.0) same ∙ ap (λ x. x.0) kept,
      )

  -- the levels after a merge into level `to` and the emptying of level `from`
  abbrev pub moved : ℕ → ℕ → Level → (ℕ → Level) → ℕ → Level
  moved from to dst f =
      let g = update f to dst in
      update g from (
        if to == from
        then free_unsorted env (g from)
        else free_sorted env (free_unsorted env (g from)))

  pub moved-IsSortedLevel :
      (from to : ℕ) (dst : Level) (f : ℕ → Level)
      → ((j : ℕ) → IsSortedLevel (f j))
      → IsSortedLevel dst
      → (j : ℕ) → IsSortedLevel (moved from to dst f j)
  moved-IsSortedLevel from to dst f h k =
      let g = update f to dst in
      let sorted = update-IsSortedLevel f to dst h k in
      let left : IsSortedLevel (
          if to == from
          then free_unsorted env (g from)
          else free_sorted env (free_unsorted env (g from))) =
        elim (Bool-cases (to == from)) [
          | inl same ↦ rw same (record { ascending = k.ascending; counted = k.counted })
          | inr other ↦ rw other (record { ascending = tt; counted = refl })
        ] in
      update-IsSortedLevel g from _ sorted left

  pub population-moved :
      (from to k : ℕ) (dst : Level) (f : ℕ → Level)
      → from < levels_total
      → to < levels_total
      → size dst ≤ size (f to) + k
      → k ≤ (if to == from then length dst.unsorted else size (f from))
      → population (moved from to dst f) ≤ population f
  population-moved from to k dst f inside inside' grows fits = elim (Bool-cases (to == from)) [
    | inl here ↦
        let fits' : k ≤ length dst.unsorted = rw here at fits in
        rw here (
          moved_le from to k (free_unsorted env dst) dst f inside inside' grows
            (rw here (omega (arith, fits'))))
    | inr there ↦
        let fits' : k ≤ size (f from) = rw there at fits in
        rw there (
          moved_le from to k (free_sorted env (free_unsorted env (f from))) dst f inside inside'
            grows (rw there (omega (arith, fits'))))
  ]
