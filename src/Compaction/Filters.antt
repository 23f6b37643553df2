-- ===== src/Compaction/Filters.antt =====
-- The filters of a segment, its key range and its Bloom filter, and its block table.
use mathlib.Core.Path.{subst}
use imr_lsm.Prelude.{
  ℕ, suc, ◌+◌, ◌^◌, ◌≤◌, ◌<◌, ◌≡◌, refl, sym, inl, inr, true, not, ◌||◌, Option, List, [], ◌∷◌, map,
  ltb, ◌==◌, length, arith, Bool-cases, Option-cases, All, inc64,
}
use imr_lsm.Prelude.Keyed.{IsAscending}
use imr_lsm.Prelude.Members.{All-of-get, All-append, All-map, get_elem?-map, All_get_elem?}
use imr_lsm.Geometry.{Geometry}
use imr_lsm.Metadata.{Entry, Segment, Bloom, zone_mixed}
use imr_lsm.Bloom.{bloom_may_contain}
use imr_lsm.Bloom.Membership.{build_bloom-bloom_may_contain}
use imr_lsm.BlockTable.{entry_key, Builder}
use imr_lsm.BlockTable.Range.{IsRanged}
use imr_lsm.Placement.{
  map_loop, map_segment_output, apply_segment_placement, allocate_segment_output, bottom_keys,
  place_bottom_to_top,
}
use imr_lsm.Validity.{recalculate_invalid_stats, update_selection, recalculate_segment, scored}
use imr_lsm.State.{PlacementStats, Meta, State, Env, Zone}
use imr_lsm.Compaction.{new_segment, link_segment, append_segment}

-- a key that a lookup takes on to the block table
abbrev pub Admits : Segment → ℕ → Type 0
Admits s k = (s.min_key ≤ k) × (k ≤ s.max_key) × (bloom_may_contain s.bloom k ≡ true)

pub record IsFiltered (s : Segment) : Type 0 where
  pub ascending : IsAscending entry_key s.block_table
  pub admitted : All (λ (e : Entry). Admits s e.key) s.block_table
  pub filled : 0 < length s.block_table

abbrev FiltersOf : ℕ × ℕ × Bloom × List Entry → Type 0
FiltersOf (low, high, bloom, table) =
    IsAscending entry_key table
    × All (λ (e : Entry). (low ≤ e.key) × (e.key ≤ high) × (bloom_may_contain bloom e.key ≡ true))
        table
    × (0 < length table)

-- the fields that the filters are made of
abbrev pub core : Segment → ℕ × ℕ × Bloom × List Entry
core s = (s.min_key, s.max_key, s.bloom, s.block_table)

pub IsFiltered-core : (s s' : Segment) → core s' ≡ core s → IsFiltered s → IsFiltered s'
IsFiltered-core s s' same h =
    let parts = subst FiltersOf (sym same) (h.ascending, h.admitted, h.filled) in
    record { ascending = parts.0; admitted = parts.1; filled = parts.2 }

pub new_segment-IsFiltered :
    (bits_per_key id level track : ℕ) (b : Builder)
    → IsRanged b
    → 0 < b.node_count
    → IsFiltered (new_segment bits_per_key id level track b)
unfolding new_segment
new_segment-IsFiltered bits_per_key id level track b ranged some_nodes = record {
  filled = ranged.filled some_nodes;
  ascending = ranged.built.ascending;
  admitted = All-of-get _ b.block_table (λ i e at.
      let bounds =
        All_get_elem? (λ (x : Entry). (b.min_key ≤ x.key) × (x.key ≤ b.max_key)) b.block_table i e
          ranged.within at in
      (
        bounds.0,
        bounds.1,
        build_bloom-bloom_may_contain bits_per_key (map entry_key b.block_table) i e.key
            (get_elem?-map entry_key b.block_table i e at),
      ));
}

map_loop-All :
    (P : ℕ → Type 0) (g : Geometry) (cursor last : ℕ) (es : List Entry)
    → All (λ (e : Entry). P e.key) es
    → All (λ (e : Entry). P e.key) (map_loop g cursor last es).0
unfolding map_loop
map_loop-All P g cursor last [] h = tt
map_loop-All P g cursor last (e ∷ es) h = elim (Bool-cases (not e.valid)) [
  | inl dead ↦ rw dead (h.0, map_loop-All P g cursor last es h.1)
  | inr live ↦ elim (Bool-cases (ltb last cursor)) [
    | inl full ↦ rw (live, full) h
    | inr room ↦ rw (live, room) (h.0, map_loop-All P g (cursor + 2 ^ g.block_shift) last es h.1)
  ]
]

length-map_loop :
    (g : Geometry) (cursor last : ℕ) (es : List Entry)
    → length (map_loop g cursor last es).0 ≡ length es
unfolding map_loop
length-map_loop g cursor last [] = refl
length-map_loop g cursor last (e ∷ es) = ground (
  arith,
  length-map_loop g cursor last es,
  length-map_loop g (cursor + 2 ^ g.block_shift) last es,
)

map_loop-IsAscending :
    (g : Geometry) (cursor last : ℕ) (es : List Entry)
    → IsAscending entry_key es
    → IsAscending entry_key (map_loop g cursor last es).0
unfolding map_loop
map_loop-IsAscending g cursor last [] h = tt
map_loop-IsAscending g cursor last (e ∷ es) h = elim (Bool-cases (not e.valid)) [
  | inl dead ↦ rw dead (
    map_loop-All (λ k. e.key < k) g cursor last es h.0,
    map_loop-IsAscending g cursor last es h.1,
  )
  | inr live ↦ elim (Bool-cases (ltb last cursor)) [
    | inl full ↦ rw (live, full) h
    | inr room ↦
        rw (live, room)
          (
            map_loop-All (λ k. e.key < k) g (cursor + 2 ^ g.block_shift) last es h.0,
            map_loop-IsAscending g (cursor + 2 ^ g.block_shift) last es h.1,
          )
  ]
]

module _ (g : Geometry) where
  map_segment_output-IsFiltered :
      (s : Segment) (stats : PlacementStats)
      → IsFiltered s
      → IsFiltered (map_segment_output g s stats).0
  unfolding map_segment_output
  map_segment_output-IsFiltered s stats h =
      elim (Bool-cases (not s.output.allocated || (length s.block_table == 0))) [
        | inl nothing ↦ rw nothing h
        | inr mapped ↦ rw mapped (record {
          ascending =
              map_loop-IsAscending g s.output.pba_start s.output.pba_end s.block_table h.ascending;
          filled = omega (
            arith,
            length-map_loop g s.output.pba_start s.output.pba_end s.block_table,
            h.filled,
          );
          admitted =
              map_loop-All (Admits s) g s.output.pba_start s.output.pba_end s.block_table
                h.admitted;
        })
      ]

  core-allocate_segment_output :
      (ss : List Segment) (s : Segment) (stats : PlacementStats)
      → core (allocate_segment_output g ss s stats).0 ≡ core s
  unfolding allocate_segment_output
  core-allocate_segment_output ss s stats = ground arith

  core-apply_segment_placement :
      (ss : List Segment) (s : Segment) (stats : PlacementStats)
      → core (apply_segment_placement g ss s stats).0 ≡ core s
  unfolding apply_segment_placement
  core-apply_segment_placement ss s stats = elim (Bool-cases (s.zone_idx == zone_mixed)) [
    | inl mixed ↦ rw mixed refl
    | inr one ↦ elim (Option-cases (bottom_keys g s)) [
      | inl outside ↦ ground arith
      | inr ((low, high), inside) ↦
          let target : Segment = record s {
            placement = place_bottom_to_top g s.zone_idx low high;
          } in
          let counted = record stats { policy_count = inc64 stats.policy_count } in
          let placed = record counted { bottom_to_top_count = inc64 counted.bottom_to_top_count } in
          rw (one, inside, apply_segment_placement) (core-allocate_segment_output ss target placed)
    ]
  ]

pub recalculate_segment-core :
    (g : Geometry) (zones : Option (ℕ → Zone)) (m : Meta) (s : Segment)
    → core (recalculate_segment g zones m s) ≡ core s
unfolding recalculate_segment
recalculate_segment-core g zones m s = elim (Bool-cases s.retired) [
  | inl old ↦ ground arith
  | inr live ↦ ground arith
]

pub recalculate_invalid_stats-IsFiltered :
    (g : Geometry) (zones : Option (ℕ → Zone)) (m : Meta)
    → All IsFiltered m.segments
    → All IsFiltered (recalculate_invalid_stats g zones m).segments
unfolding recalculate_invalid_stats update_selection
recalculate_invalid_stats-IsFiltered g zones m h =
    All-map IsFiltered scored _ (λ s k. IsFiltered-core s (scored s) refl k)
      (All-map IsFiltered (recalculate_segment g zones m) m.segments
        (λ s k.
          IsFiltered-core s (recalculate_segment g zones m s) (recalculate_segment-core g zones m s)
            k)
        h)

module _ (env : Env) (level track : ℕ) (b : Builder) where
  link_segment-IsFiltered :
      (s : State)
      → IsRanged b
      → 0 < b.node_count
      → All IsFiltered s.meta.segments
      → All IsFiltered (link_segment env level track b s).meta.segments
  unfolding link_segment
  link_segment-IsFiltered s ranged some_nodes h =
      let m = s.meta in
      let fresh = new_segment env.bloom_bits_per_key m.next_segment_id level track b in
      let (placed, stats) =
        apply_segment_placement env.geometry m.segments fresh m.stats.placement in
      let kept =
        IsFiltered-core fresh placed
          (core-apply_segment_placement env.geometry m.segments fresh m.stats.placement)
          (new_segment-IsFiltered env.bloom_bits_per_key m.next_segment_id level track b ranged
            some_nodes) in
      recalculate_invalid_stats-IsFiltered env.geometry s.zones _ (
        All-append IsFiltered m.segments _ h
          (map_segment_output-IsFiltered env.geometry placed stats kept, tt))

  -- Whether or not memory is found, a segment that is appended has filters that admit its keys.
  pub append_segment-IsFiltered :
      (s : State)
      → IsRanged b
      → All IsFiltered s.meta.segments
      → All IsFiltered (append_segment env level track b s).0.meta.segments
  unfolding append_segment
  append_segment-IsFiltered s ranged h = elim (Bool-cases (b.node_count == 0)) [
    | inl empty ↦ rw empty h
    | inr some_nodes ↦ elim (Bool-cases (env.alloc s.allocs)) [
      | inr failed ↦ rw (some_nodes, failed) h
      | inl got ↦ elim (Bool-cases (env.alloc (suc s.allocs))) [
        | inr failed ↦ rw (some_nodes, got, failed) h
        | inl both ↦ rw (some_nodes, got, both) (link_segment-IsFiltered _ ranged (ground arith) h)
      ]
    ]
  ]
