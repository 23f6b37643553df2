-- ===== src/Placement.antt =====
-- Where a new segment is placed, and where its output goes (imrsim_kmod/dm-imrsim.c,
-- `imr_lsm_apply_segment_placement_locked`, `imr_lsm_allocate_segment_output_locked`,
-- `imr_lsm_map_segment_output_entries_locked`). Both run on a segment that is not yet linked, so every
-- segment of the list is another one.
pub mod Allocate
pub mod Mapping
use imr_lsm.Prelude.{
  ℕ, zero, suc, ◌+◌, ◌-◌, ◌*◌, ◌/◌, ◌%◌, ◌^◌, Bool, true, false, ◌&&◌, ◌||◌, not, Option, none,
  some, List, [], ◌∷◌, ltb, leb, ◌==◌, if◌then◌else◌, length, inc64, add64, inc32, u32_mod, u64_mod,
  sub64,
}
use imr_lsm.Geometry.{
  Geometry, zone_idx_lba, zone_key_start, bottom_range_blocks, track_group_blocks, top_track_size,
  bottom_track_size, top_track_num_total,
}
use imr_lsm.Metadata.{
  Entry, Segment, Placement, Output, no_copy, no_output, track_top, placement_none,
  placement_bottom_to_top, zone_mixed,
}
use imr_lsm.State.{PlacementStats}

-- `block_table_count`, or `node_count` if there is no table
abbrev pub output_blocks : Segment → ℕ
output_blocks s = if length s.block_table == 0 then s.node_count else length s.block_table

-- `imr_lsm_segment_output_sector_count`
abbrev pub output_sector_count : Geometry → Segment → ℕ
output_sector_count g s = output_blocks s * 2 ^ g.block_shift

-- `imr_lsm_pba_ranges_overlap`
unfoldable pub pba_ranges_overlap : ℕ → ℕ → ℕ → ℕ → Bool
pba_ranges_overlap a_start a_end b_start b_end =
    if ltb a_end a_start || ltb b_end b_start then false else leb a_start b_end && leb b_start a_end

-- `imr_lsm_find_output_overlap_locked`: the output of the first active segment that overlaps
unfoldable pub find_output_overlap : List Segment → ℕ → ℕ → Option Output
find_output_overlap [] pba_start pba_end = none
find_output_overlap (s ∷ ss) pba_start pba_end =
    let o = s.output in
    let rest = find_output_overlap ss pba_start pba_end in
    if not s.retired && (o.allocated && pba_ranges_overlap pba_start pba_end o.pba_start o.pba_end)
    then some o
    else rest

-- The loop of `imr_lsm_allocate_segment_output_locked`: the first start of `sectors` free sectors from
-- `cursor` to `last`. The addresses stay below 2 ^ 64, so the test for a wrap is left out. The cursor
-- grows in each round, so that the width of the range is enough fuel.
unfoldable pub allocate_loop : ℕ → List Segment → ℕ → ℕ → ℕ → Option ℕ
allocate_loop zero segments sectors cursor last = none
allocate_loop (suc fuel) segments sectors cursor last =
    let candidate_end = cursor + sectors - 1 in
    if leb cursor last && leb candidate_end last
    then elim (find_output_overlap segments cursor candidate_end) [
      | none ↦ some cursor
      | some o ↦
          let rest = allocate_loop fuel segments sectors (o.pba_end + 1) last in
          if leb last o.pba_end then none else rest
    ]
    else none

-- what the allocation did: its counter, and the start of the output
pub data Allocation : Type 0 where
  no_target no_space : Allocation
  allocated_at : ℕ → Allocation

unfoldable pub allocate_output : Geometry → List Segment → Segment → Allocation
allocate_output g segments s =
    let p = s.placement in
    let sectors = output_sector_count g s in
    let found : Allocation =
      elim (allocate_loop (suc (p.top_pba_end - p.top_pba_start)) segments sectors p.top_pba_start
        p.top_pba_end) [ none ↦ no_space | some cursor ↦ allocated_at cursor ] in
    if not (p.policy == placement_bottom_to_top)
      || (not (p.target_track_type == track_top) || ltb p.top_pba_end p.top_pba_start)
    then no_target
    else if sectors == 0
    then no_target
    else if ltb (p.top_pba_end - p.top_pba_start + 1) sectors
    then no_space
    else found

-- the output fields and the counters after `imr_lsm_allocate_segment_output_locked`
unfoldable pub allocate_segment_output :
    Geometry → List Segment → Segment → PlacementStats → Segment × PlacementStats
allocate_segment_output g segments s stats =
    let cleared = record s { output = no_output } in
    elim (allocate_output g segments s) [
      | no_target ↦
          (cleared, record stats { output_no_target_count = inc64 stats.output_no_target_count })
      | no_space ↦
          (cleared, record stats { output_no_space_count = inc64 stats.output_no_space_count })
      | allocated_at cursor ↦ (
        record s {
          output = record {
            allocated = true;
            track_type = s.placement.target_track_type;
            block_count = output_blocks s;
            pba_start = cursor;
            pba_end = cursor + output_sector_count g s - 1;
          };
        },
        record stats { output_alloc_count = inc64 stats.output_alloc_count },
      )
    ]

-- the first and last key of the segment inside its zone, if they fall on the bottom tracks
unfoldable pub bottom_keys : Geometry → Segment → Option (ℕ × ℕ)
bottom_keys g s =
    let zone_start = zone_key_start g s.zone_idx in
    let zone_end = zone_start + 2 ^ g.zone_shift - 1 in
    let zone_min = if ltb zone_start s.min_key then s.min_key - zone_start else 0 in
    let zone_max =
      if ltb s.max_key zone_end then s.max_key - zone_start else zone_end - zone_start in
    let blocks = bottom_range_blocks g in
    if ltb s.max_key zone_start || ltb zone_end s.min_key
    then none
    else if leb blocks zone_min
    then none
    else some (zone_min, if leb blocks zone_max then blocks - 1 else zone_max)

-- the placement of the keys onto the top tracks that lie over their bottom tracks
unfoldable pub place_bottom_to_top : Geometry → ℕ → ℕ → ℕ → Placement
place_bottom_to_top g zone_idx zone_min zone_max =
    let zone_start = zone_key_start g zone_idx in
    let group = track_group_blocks g in
    let first = zone_min / bottom_track_size % u32_mod in
    let last = zone_max / bottom_track_size % u32_mod in
    let track_start = if leb top_track_num_total first then top_track_num_total - 1 else first in
    let track_end = if leb top_track_num_total last then top_track_num_total - 1 else last in
    let top_block_start = track_start * group % u32_mod in
    let top_block_end = (track_end * group + top_track_size - 1) % u32_mod in
    record {
      policy = placement_bottom_to_top;
      target_track_type = track_top;
      bottom_key_start = zone_start + zone_min;
      bottom_key_end = zone_start + zone_max;
      bottom_track_start = track_start;
      bottom_track_end = track_end;
      top_track_start = track_start;
      top_track_end = track_end;
      top_pba_start = zone_idx_lba g zone_idx + top_block_start * 2 ^ g.block_shift;
      top_pba_end =
          zone_idx_lba g zone_idx + top_block_end * 2 ^ g.block_shift + (2 ^ g.block_shift - 1);
    }

-- a segment that gets no target, and the counters
abbrev no_placement : Segment → PlacementStats → Segment × PlacementStats
no_placement s stats = (
  record s {
    placement = record (s.placement) { policy = placement_none; target_track_type = 0 };
    output = no_output;
  },
  record stats {
    no_target_count = inc64 stats.no_target_count;
    output_no_target_count = inc64 stats.output_no_target_count;
  },
)

-- `imr_lsm_apply_segment_placement_locked`
unfoldable pub apply_segment_placement :
    Geometry → List Segment → Segment → PlacementStats → Segment × PlacementStats
apply_segment_placement g segments s stats =
    let counted = record stats { policy_count = inc64 stats.policy_count } in
    if s.zone_idx == zone_mixed
    then no_placement s (record counted { mixed_zone_count = inc64 counted.mixed_zone_count })
    else elim (bottom_keys g s) [
      | none ↦ no_placement s counted
      | some (zone_min, zone_max) ↦
          allocate_segment_output g segments
            (record s { placement = place_bottom_to_top g s.zone_idx zone_min zone_max })
            (record counted { bottom_to_top_count = inc64 counted.bottom_to_top_count })
    ]

-- The loop of `imr_lsm_map_segment_output_entries_locked`: the valid entries get the blocks of the
-- output in turn, until they run out. It returns the entries and how many were mapped.
unfoldable pub map_loop : Geometry → ℕ → ℕ → List Entry → List Entry × ℕ
map_loop g cursor last [] = ([], 0)
map_loop g cursor last (e ∷ es) =
    let cleared = record e { copy = no_copy } in
    let skipped = map_loop g cursor last es in
    let mapped = map_loop g (cursor + 2 ^ g.block_shift) last es in
    if not e.valid
    then (cleared ∷ skipped.0, skipped.1)
    else if ltb last cursor
    then (cleared ∷ es, 0)
    else (
      record e { copy = record no_copy { output_pba = cursor; output_mapped = true } } ∷ mapped.0,
      suc mapped.1,
    )

-- `imr_lsm_map_segment_output_entries_locked`
unfoldable pub map_segment_output : Geometry → Segment → PlacementStats → Segment × PlacementStats
map_segment_output g s stats =
    let (entries, mapped) = map_loop g s.output.pba_start s.output.pba_end s.block_table in
    if not s.output.allocated || (length s.block_table == 0)
    then (s, record stats { mapping_no_output_count = inc64 stats.mapping_no_output_count })
    else (
      record s { block_table = entries },
      record stats {
        mapping_count = inc64 stats.mapping_count;
        mapping_entry_count = add64 stats.mapping_entry_count mapped;
      },
    )
