-- ===== src/Levels.antt =====
-- The capacities of the levels, as in RocksDB's dynamic level sizes (imrsim_kmod/dm-imrsim.c,
-- `imr_lsm_level_capacity`, `imr_lsm_calculate_dynamic_levels_locked` and the functions of the
-- choice of a level to compact).
pub mod Bounds
use imr_lsm.Prelude.{
  ℕ, zero, suc, ◌+◌, ◌-◌, ◌*◌, ◌/◌, ◌%◌, Bool, false, ◌&&◌, ◌||◌, Option, none, some, ltb, leb,
  ◌==◌, if◌then◌else◌, max, u32_max, u32_mod, u64_mod,
}
use imr_lsm.Metadata.{Level, levels_total, max_level, level_ratio}
use imr_lsm.BlockTable.{compaction_threshold}
use imr_lsm.State.{Meta, update}

-- IMR_LSM_SCORE_SCALE and IMR_LSM_SCORE_BOOST
abbrev pub score_scale : ℕ
score_scale = 1000

abbrev pub score_boost : ℕ
score_boost = 10

unfoldable pub level_capacity : ℕ → (ℕ → ℕ) → ℕ → ℕ
level_capacity tunable max_entries level =
    if leb levels_total level
    then compaction_threshold tunable
    else if (max_entries level == 0) || (max_entries level == u32_max)
    then compaction_threshold tunable
    else max_entries level

unfoldable pub level_total_count : (ℕ → Level) → ℕ → ℕ
level_total_count levels level =
    ((levels level).unsorted_count + (levels level).sorted_count) % u32_mod

unfoldable pub mul_clamp : ℕ → ℕ → ℕ
mul_clamp value multiplier =
    let result = value * multiplier in if ltb u32_max result then u32_max else result

-- The loop over the levels 1 to 6: the first that is not empty, and the largest total. It starts
-- at `level` with `left` levels to go.
unfoldable pub survey : ℕ → ℕ → (ℕ → Level) → Option ℕ → ℕ → Option ℕ × ℕ
survey zero level levels first largest = (first, largest)
survey (suc left) level levels first largest =
    let total = level_total_count levels level in
    let first' : Option ℕ = elim first [
      | none ↦ if ltb 0 total then some level else none
      | some l ↦ some l
    ] in
    survey left (level + 1) levels first' (if ltb largest total then total else largest)

-- The loop from level 5 down to the first that is not empty, which halves the size at each level.
-- It starts at `level` with `left` levels to go.
unfoldable pub shrink : ℕ → ℕ → ℕ → ℕ → Option ℕ → ℕ × Option ℕ
shrink zero level bytes_min size lowest = (size, lowest)
shrink (suc left) level bytes_min size lowest =
    let size' = size / level_ratio in
    let lowest' : Option ℕ = elim lowest [
      | none ↦ if leb size' bytes_min && ltb level (max_level - 1) then some level else none
      | some l ↦ some l
    ] in
    shrink left (level - 1) bytes_min size' lowest'

-- `while(base_level > 1 && cur_level_size > base_bytes_max)`, on the base level
unfoldable pub lower_base : ℕ → ℕ → ℕ → ℕ × ℕ
lower_base zero bytes_max size = (zero, size)
lower_base (suc base) bytes_max size =
    let rest = lower_base base bytes_max (size / level_ratio) in
    if ltb 0 base && ltb bytes_max size then rest else (suc base, size)

-- The loop from the base level up, which doubles the size at each level. It starts at `level` with
-- `left` levels to go, and `size` is the size of this level.
unfoldable pub assign : ℕ → ℕ → ℕ → ℕ → (ℕ → ℕ) → ℕ → ℕ
assign zero level bytes_max size max_entries = max_entries
assign (suc left) level bytes_max size max_entries =
    assign left (level + 1) bytes_max (mul_clamp size level_ratio)
      (update max_entries level (max size bytes_max))

-- the base level and its size
unfoldable pub base_of : ℕ → ℕ → ℕ → ℕ → ℕ × ℕ
base_of bytes_max bytes_min first size =
    if leb size bytes_min
    then (first, bytes_min + 1)
    else (let (base, size') = lower_base first bytes_max size in
        (base, if ltb bytes_max size' then bytes_max else max 1 size'))

abbrev pub with_levels : Meta → Option ℕ → ℕ → (ℕ → ℕ) → Meta
with_levels m lowest base max_entries = record m {
  lowest_unnecessary = lowest;
  base_level = base;
  active_write_level = base;
  level_max_entries = max_entries;
}

-- the sizes when level `first` is the first that is not empty and `largest` the largest total
unfoldable pub size_levels : ℕ → ℕ → ℕ → ℕ → Meta → Meta
size_levels bytes_max bytes_min first largest m =
    let (size, lowest) = shrink (max_level - first) (max_level - 1) bytes_min largest none in
    let (base, base_size) = base_of bytes_max bytes_min first size in
    with_levels m lowest base (assign (levels_total - base) base bytes_max base_size (λ _. u32_max))

-- `imr_lsm_calculate_dynamic_levels_locked`. No level is the first exactly when the largest total,
-- which the source tests, is 0.
unfoldable pub calculate_dynamic_levels : ℕ → Meta → Meta
calculate_dynamic_levels tunable m =
    let bytes_max = compaction_threshold tunable in
    let halved = bytes_max / level_ratio in
    let bytes_min = if halved == 0 then 1 else halved in
    let (first, largest) = survey max_level 1 m.levels none 0 in
    elim first [
      | none ↦ with_levels m none max_level (update (λ _. u32_max) max_level bytes_max)
      | some f ↦ size_levels bytes_max bytes_min f largest m
    ]

-- `imr_lsm_compaction_dst_level_locked`, after its recalculation of the levels: the next level that
-- has a capacity. It starts at `dst` with `left` levels to go.
unfoldable pub next_sized : ℕ → ℕ → (ℕ → ℕ) → ℕ
next_sized zero dst max_entries = max_level
next_sized (suc left) dst max_entries =
    let rest = next_sized left (dst + 1) max_entries in
    if max_entries dst == u32_max then rest else dst

unfoldable pub compaction_dst_level : ℕ → ℕ → Meta → ℕ × Meta
compaction_dst_level tunable level m =
    if leb max_level level
    then (max_level, m)
    else (let m' = calculate_dynamic_levels tunable m in
        (next_sized (levels_total - suc level) (level + 1) m'.level_max_entries, m'))

abbrev pub unnecessary : Meta → ℕ → Bool
unnecessary m level = elim (m.lowest_unnecessary) [ none ↦ false | some l ↦ leb level l ]

-- `imr_lsm_compaction_score_locked`
unfoldable pub compaction_score : ℕ → Meta → ℕ → ℕ → ℕ
compaction_score tunable m level total_down =
    let level_entries = level_total_count m.levels level in
    let capacity = level_capacity tunable m.level_max_entries level in
    let target = if capacity == 0 then 1 else capacity in
    if leb (levels_total - 1) level
    then 0
    else if level_entries == 0
    then 0
    else elim (m.lowest_unnecessary) [
      | some l ↦
          if leb level l
          then score_scale * score_boost + 1 + (l - level)
          else if ltb level_entries target
          then level_entries * score_scale / target
          else level_entries
            * score_scale
            * score_boost
            % u64_mod
            / ((target + total_down) % u64_mod)
      | none ↦
          if ltb level_entries target
          then level_entries * score_scale / target
          else level_entries
            * score_scale
            * score_boost
            % u64_mod
            / ((target + total_down) % u64_mod)
    ]

-- The loop of `imr_lsm_pick_compaction_level_locked`: the best level so far, its score, and the
-- entries that higher levels will push down.
unfoldable pub pick_loop : ℕ → Meta → ℕ → ℕ → ℕ → ℕ → ℕ → ℕ × ℕ
pick_loop tunable m zero level best best_score down = (best, best_score)
pick_loop tunable m (suc left) level best best_score down =
    let score = compaction_score tunable m level down in
    let entries = level_total_count m.levels level in
    let target = level_capacity tunable m.level_max_entries level in
    let better = ltb best_score score in
    let down' =
      if unnecessary m level
      then (down + entries) % u64_mod
      else if ltb target entries
      then (down + (entries - target)) % u64_mod
      else down in
    pick_loop tunable m left (level + 1) (if better then level else best)
      (if better then score else best_score) down'

unfoldable pub pick_compaction_level : ℕ → Meta → ℕ × Meta
pick_compaction_level tunable m =
    let m' = calculate_dynamic_levels tunable m in
    let (best, best_score) = pick_loop tunable m' (levels_total - 1) 0 levels_total 0 0 in
    (if leb score_scale best_score then best else levels_total, m')
