-- ===== src/Levels/Bounds.antt =====
-- Where a compaction goes, and which level is compacted.
use imr_lsm.Prelude.{
  ℕ, zero, suc, Bool, true, Option, none, some, u32_max, ◌/◌, ◌==◌, ◌+◌, ◌-◌, ◌%◌, ◌<◌, ◌≤◌, ◌≡◌,
  ◌⊎◌, refl, inl, inr, false, leb, ltb, if◌then◌else◌, arith, Bool-cases, u64_mod,
}
use imr_lsm.Metadata.{Level, levels_total, max_level, level_ratio}
use imr_lsm.State.{Meta, update}
use imr_lsm.Levels.{
  compaction_threshold, lower_base, base_of, survey, shrink, size_levels, with_levels, next_sized,
  compaction_dst_level, calculate_dynamic_levels, compaction_score, pick_loop,
  pick_compaction_level, level_total_count, level_capacity, unnecessary,
}

next_sized_bounds :
    (left dst : ℕ) (max_entries : ℕ → ℕ)
    → dst + left ≡ levels_total
    → (next_sized left dst max_entries ≤ max_level)
      × ((dst ≤ next_sized left dst max_entries) ⊎ (next_sized left dst max_entries ≡ max_level))
unfolding next_sized
next_sized_bounds zero dst max_entries e = (omega arith, inr refl)
next_sized_bounds (suc left) dst max_entries e =
    let ih = next_sized_bounds left (dst + 1) max_entries (omega arith) in
    ground (arith, ih.0, ih.1)

-- A compaction of a level above the last goes to a deeper level of the index.
pub compaction_dst_level_lem :
    (tunable level : ℕ) (m : Meta)
    → level < max_level
    → (level < (compaction_dst_level tunable level m).0)
      × ((compaction_dst_level tunable level m).0 ≤ max_level)
unfolding compaction_dst_level
compaction_dst_level_lem tunable level m above =
    let b =
      next_sized_bounds (levels_total - suc level) (level + 1)
        (calculate_dynamic_levels tunable m).level_max_entries (omega arith) in
    let high : leb max_level level ≡ false = ground arith in rw high (ground (arith, b.0, b.1))

score-empty :
    (tunable : ℕ) (m : Meta) (level down : ℕ)
    → 0 < compaction_score tunable m level down
    → 0 < level_total_count m.levels level
unfolding compaction_score
score-empty tunable m level down pos = ground arith

pick_loop_lem :
    (tunable : ℕ) (m : Meta) (left level best best_score down : ℕ)
    → ((pick_loop tunable m left level best best_score down).0 ≡ best)
      ⊎ ((level ≤ (pick_loop tunable m left level best best_score down).0)
          × ((pick_loop tunable m left level best best_score down).0 < level + left)
          × (0
              < level_total_count m.levels (pick_loop tunable m left level best best_score down).0))
unfolding pick_loop
pick_loop_lem tunable m zero level best best_score down = inl refl
pick_loop_lem tunable m (suc left) level best best_score down =
    let score = compaction_score tunable m level down in
    let entries = level_total_count m.levels level in
    let target = level_capacity tunable m.level_max_entries level in
    let better = ltb best_score score in
    let best' = if better then level else best in
    let best_score' = if better then score else best_score in
    let down' =
      if unnecessary m level
      then (down + entries) % u64_mod
      else if ltb target entries
      then (down + (entries - target)) % u64_mod
      else down in
    let picked = (pick_loop tunable m left (level + 1) best' best_score' down').0 in
    elim (pick_loop_lem tunable m left (level + 1) best' best_score' down') [
      | inl same ↦ elim (Bool-cases better) [
        | inl higher ↦
            let here : picked ≡ level = ground (arith, same) in
            let some_left : 0 < entries = score-empty tunable m level down (ground arith) in
            inr (omega arith, omega arith, rw here some_left)
        | inr lower ↦ inl (ground (arith, same))
      ]
      | inr (low, high, some_left) ↦ inr (omega arith, omega arith, some_left)
    ]

-- The level that is picked for a compaction is none, which the code writes as the number of levels, or
-- one above the last that has nodes.
pub pick_compaction_level_lem :
    (tunable : ℕ) (m : Meta)
    → ((pick_compaction_level tunable m).0 ≡ levels_total)
      ⊎ (((pick_compaction_level tunable m).0 < max_level)
          × (0
              < level_total_count
                  (pick_compaction_level tunable m).1.levels
                  (pick_compaction_level tunable m).0))
unfolding pick_compaction_level
pick_compaction_level_lem tunable m =
    let m' = calculate_dynamic_levels tunable m in
    ground (arith, pick_loop_lem tunable m' (levels_total - 1) 0 levels_total 0 0)

lower_base-le : (base bytes_max size : ℕ) → (lower_base base bytes_max size).0 ≤ base
unfolding lower_base
lower_base-le zero bytes_max size = omega arith
lower_base-le (suc base) bytes_max size =
    ground (arith, lower_base-le base bytes_max (size / level_ratio))

base_of-le :
    (bytes_max bytes_min first size : ℕ) → (base_of bytes_max bytes_min first size).0 ≤ first
unfolding base_of
base_of-le bytes_max bytes_min first size = ground (arith, lower_base-le first bytes_max size)

-- the level, if there is one, is in the array
abbrev AtMost : Option ℕ → Type 0
AtMost none = Unit
AtMost (some f) = f ≤ max_level

AtMost-if :
    (found : Bool) (level : ℕ) → level ≤ max_level → AtMost (if found then some level else none)
AtMost-if true level h = h
AtMost-if false level h = tt

survey-le :
    (left level : ℕ) (levels : ℕ → Level) (first : Option ℕ) (largest : ℕ)
    → level + left ≤ levels_total
    → AtMost first
    → AtMost (survey left level levels first largest).0
unfolding survey
survey-le zero level levels first largest room h = h
survey-le (suc left) level levels (some f) largest room h =
    survey-le left (level + 1) levels (some f) _ (omega arith) h
survey-le (suc left) level levels none largest room h =
    let total = level_total_count levels level in
    survey-le left (level + 1) levels (if ltb 0 total then some level else none) _ (omega arith)
      (AtMost-if (ltb 0 total) level (omega arith))

sized-active :
    (bytes_max bytes_min : ℕ) (r : Option ℕ × ℕ) (m : Meta)
    → AtMost r.0
    → (let m' : Meta = elim (r.0) [
      | none ↦ with_levels m none max_level (update (λ _. u32_max) max_level bytes_max)
      | some f ↦ size_levels bytes_max bytes_min f r.1 m
    ] in
        m'.active_write_level ≤ max_level)
unfolding size_levels
sized-active bytes_max bytes_min (none, largest) m h = omega arith
sized-active bytes_max bytes_min (some f, largest) m h =
    let size = (shrink (max_level - f) (max_level - 1) bytes_min largest none).0 in
    omega (arith, base_of-le bytes_max bytes_min f size, h)

-- Whatever the levels hold, the level that writes go to is in the array.
pub calculate_dynamic_levels-active :
    (tunable : ℕ) (m : Meta) → (calculate_dynamic_levels tunable m).active_write_level ≤ max_level
unfolding calculate_dynamic_levels
calculate_dynamic_levels-active tunable m =
    let bytes_max = compaction_threshold tunable in
    let halved = bytes_max / level_ratio in
    sized-active bytes_max (if halved == 0 then 1 else halved) (survey max_level 1 m.levels none 0)
      m (survey-le max_level 1 m.levels none 0 (omega arith) tt)

pub compaction_dst_level-active :
    (tunable level : ℕ) (m : Meta)
    → m.active_write_level ≤ max_level
    → (compaction_dst_level tunable level m).1.active_write_level ≤ max_level
unfolding compaction_dst_level
compaction_dst_level-active tunable level m h = elim (Bool-cases (leb max_level level)) [
  | inl bottom ↦ rw bottom h
  | inr above ↦ rw above (calculate_dynamic_levels-active tunable m)
]

pub pick_compaction_level-active :
    (tunable : ℕ) (m : Meta) → (pick_compaction_level tunable m).1.active_write_level ≤ max_level
unfolding pick_compaction_level
pick_compaction_level-active tunable m = calculate_dynamic_levels-active tunable m
