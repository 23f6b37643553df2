-- ===== src/Validity.antt =====
-- Which entries of the segments are still live, and which segment to compact next
-- (imrsim_kmod/dm-imrsim.c, `imr_lsm_recalculate_segment_invalid_stats_locked`,
-- `imr_lsm_update_segment_compaction_selection_locked` and the scores that they use).
-- The totals over all segments are the sums of the counts of the segments, which the source counts at
-- the same places.
pub mod Counts
use imr_lsm.Prelude.{
  ℕ, ◌+◌, ◌-◌, ◌*◌, ◌/◌, ◌%◌, ◌^◌, Bool, ◌&&◌, ◌||◌, not, Option, none, some, List, [], ◌∷◌, map,
  ltb, leb, ◌==◌, if◌then◌else◌, length, inc32, inc64, add64, u32_mod, u64_mod,
}
use imr_lsm.Geometry.{Geometry, total_items}
use imr_lsm.Metadata.{
  Entry, Segment, Validity, no_validity, levels_total, placement_bottom_to_top, track_top,
  track_bottom, zone_mixed,
}
use imr_lsm.Records.{find_newer_record, tombstone_should_keep}
use imr_lsm.State.{Meta, Zone, InvalidStats, CandidateStats}

-- IMR_LSM_COMPACTION_MIN_OBSOLETE_RATIO, _MIN_INVALID, _DELETE_BOOST, _TOMBSTONE_BOOST
abbrev pub min_obsolete_ratio : ℕ
min_obsolete_ratio = 250

abbrev pub min_invalid : ℕ
min_invalid = 1

abbrev pub delete_boost : ℕ
delete_boost = 1000

abbrev pub tombstone_boost : ℕ
tombstone_boost = 500

module _ (g : Geometry) (zones : Option (ℕ → Zone)) (m : Meta) where
  -- no longer needed: a newer version exists, or a tombstone hides nothing
  unfoldable pub entry_invalid : Entry → Bool
  entry_invalid e =
      (not e.valid && not (tombstone_should_keep g zones m e))
      || (find_newer_record e.key e.timestamp m).found

  -- the body of the loop over the entries of a segment
  unfoldable pub count_entry : Entry → Validity → Validity
  count_entry e v =
      let newer = find_newer_record e.key e.timestamp m in
      let deleted = newer.found && (e.valid && not newer.valid) in
      let invalid = entry_invalid e in
      record v {
        tombstone_count = if e.valid then v.tombstone_count else inc32 v.tombstone_count;
        obsolete_count = if newer.found then inc32 v.obsolete_count else v.obsolete_count;
        delete_invalid_count =
            if deleted then inc32 v.delete_invalid_count else v.delete_invalid_count;
        invalid_count = if invalid then inc32 v.invalid_count else v.invalid_count;
        live_count = if invalid then v.live_count else inc32 v.live_count;
      }

  unfoldable pub count_entries : List Entry → Validity → Validity
  count_entries [] v = v
  count_entries (e ∷ es) v = count_entries es (count_entry e v)

  unfoldable pub segment_validity : Segment → Validity
  segment_validity s =
      let v = count_entries s.block_table no_validity in
      let count = length s.block_table in
      if count == 0
      then v
      else record v { obsolete_ratio_permille = v.invalid_count * 1000 / count % u32_mod }

  unfoldable pub recalculate_segment : Segment → Segment
  recalculate_segment s = if s.retired then s else record s { validity = segment_validity s }

-- the totals, over the segments with their new counts
unfoldable pub tally : List Segment → InvalidStats → InvalidStats
tally [] t = t
tally (s ∷ ss) t =
    let v = s.validity in
    let counted = record t { last_segments = inc32 t.last_segments } in
    let added = record counted {
      last_entries = (t.last_entries + length s.block_table) % u32_mod;
      tombstone_count = add64 t.tombstone_count v.tombstone_count;
      obsolete_count = add64 t.obsolete_count v.obsolete_count;
      delete_invalid_count = add64 t.delete_invalid_count v.delete_invalid_count;
      entry_count = add64 t.entry_count v.invalid_count;
      segment_count = if v.invalid_count == 0 then t.segment_count else inc64 t.segment_count;
      max_ratio_permille =
          if ltb t.max_ratio_permille v.obsolete_ratio_permille
          then v.obsolete_ratio_permille
          else t.max_ratio_permille;
      max_segment_id =
          if ltb t.max_ratio_permille v.obsolete_ratio_permille then s.id else t.max_segment_id;
    } in
    tally ss (if s.retired then counted else added)

-- `imr_lsm_segment_compaction_score`
unfoldable pub segment_compaction_score : Segment → ℕ
segment_compaction_score s =
    let v = s.validity in
    if s.retired
    then 0
    else if ltb v.invalid_count min_invalid
    then 0
    else if ltb v.obsolete_ratio_permille min_obsolete_ratio
    then 0
    else (v.obsolete_ratio_permille * v.invalid_count
        + v.delete_invalid_count * delete_boost
        + v.tombstone_count * tombstone_boost)
      % u64_mod

-- `imr_lsm_segment_age_locked`
unfoldable pub segment_age : ℕ → Segment → ℕ
segment_age now s = if leb now s.max_timestamp then 0 else now - s.max_timestamp

-- `imr_lsm_segment_placement_cost_permille`
unfoldable pub placement_cost : Segment → ℕ
placement_cost s =
    let p = s.placement in
    let o = s.output in
    let target_sectors = p.top_pba_end - p.top_pba_start + 1 in
    let output_sectors = o.pba_end - o.pba_start + 1 in
    let cost = output_sectors * 1000 % u64_mod / target_sectors in
    if not (p.policy == placement_bottom_to_top)
      || (not (p.target_track_type == track_top) || ltb p.top_pba_end p.top_pba_start)
    then 1000
    else if not o.allocated || ltb o.pba_end o.pba_start
    then 1000
    else if ltb 1000 cost
    then 1000
    else cost

-- `imr_lsm_segment_rmw_cost_permille`
unfoldable pub rmw_cost : Segment → ℕ
rmw_cost s =
    let entries = if length s.block_table == 0 then s.node_count else length s.block_table in
    if entries == 0
    then 0
    else if s.track_type == track_top
    then 0
    else if s.track_type == track_bottom
    then s.validity.live_count * 1000 / entries % u32_mod
    else 500

-- `imr_lsm_segment_zone_fullness_permille`
unfoldable pub zone_fullness : Geometry → Option (ℕ → Zone) → Segment → ℕ
zone_fullness g none s = 0
zone_fullness g (some zones) s =
    let z = zones s.zone_idx in
    let blocks = z.z_length / 2 ^ g.block_shift in
    let zone_blocks = if blocks == 0 then total_items else blocks in
    let fullness = z.z_map_size * 1000 / zone_blocks in
    if (s.zone_idx == zone_mixed) || leb g.num_zones s.zone_idx
    then 0
    else if ltb 1000 fullness
    then 1000
    else fullness

-- `__s64` numbers stand for themselves modulo 2^64
abbrev pub signed_lt : ℕ → ℕ → Bool
signed_lt a b = ltb ((a + 2 ^ 63) % u64_mod) ((b + 2 ^ 63) % u64_mod)

-- `imr_lsm_segment_policy_score_locked`, with the weights of IMR_LSM_COMPACTION_POLICY_*
unfoldable pub policy_score : Geometry → Option (ℕ → Zone) → ℕ → Segment → ℕ
policy_score g zones now s =
    let gain = s.compaction_score + segment_age now s + zone_fullness g zones s in
    let cost = s.read_hit_count * 100 + placement_cost s + rmw_cost s in
    (gain + (u64_mod - cost % u64_mod)) % u64_mod

-- the order in which a candidate replaces the best one so far
unfoldable pub better : Segment × ℕ → Segment × ℕ → Bool
better (s, a) (best, b) =
    signed_lt b a
    || ((a == b) && ltb best.compaction_score s.compaction_score)
    || ((a == b)
        && ((s.compaction_score == best.compaction_score)
            && ltb best.validity.obsolete_ratio_permille s.validity.obsolete_ratio_permille))
    || ((a == b)
        && ((s.compaction_score == best.compaction_score)
            && ((s.validity.obsolete_ratio_permille == best.validity.obsolete_ratio_permille)
                && ltb best.validity.invalid_count s.validity.invalid_count)))

-- the score and the mark of one segment
abbrev pub scored : Segment → Segment
scored s =
    let score = segment_compaction_score s in
    record s { compaction_score = score; compaction_candidate = not (score == 0) }

-- the loop over the segments: the best candidate and how many there are
unfoldable pub select_loop :
    Geometry
    → Option (ℕ → Zone)
    → ℕ
    → List Segment
    → Option (Segment × ℕ)
    → ℕ
    → Option (Segment × ℕ) × ℕ
select_loop g zones now [] best count = (best, count)
select_loop g zones now (s ∷ ss) best count =
    let new : Segment × ℕ = (s, policy_score g zones now s) in
    let best' : Option (Segment × ℕ) = elim best [
      | none ↦ some new
      | some old ↦ if better new old then some new else some old
    ] in
    select_loop g zones now ss (if s.compaction_candidate then best' else best)
      (if s.compaction_candidate then inc64 count else count)

-- the counters of the selection
abbrev candidate_stats : Option (Segment × ℕ) × ℕ → CandidateStats → CandidateStats
candidate_stats (some (s, _), count) c = record c {
  selection_count = inc64 c.selection_count;
  candidate_count = count;
  segment_id = s.id;
  level = s.level;
  score = s.compaction_score;
  ratio_permille = s.validity.obsolete_ratio_permille;
  invalid_count = s.validity.invalid_count;
  delete_invalid_count = s.validity.delete_invalid_count;
  tombstone_count = s.validity.tombstone_count;
}
candidate_stats (none, count) c = record c {
  selection_count = inc64 c.selection_count;
  candidate_count = count;
  no_candidate_count = inc64 c.no_candidate_count;
  segment_id = 0;
  level = levels_total;
  score = 0;
  ratio_permille = 0;
  invalid_count = 0;
  delete_invalid_count = 0;
  tombstone_count = 0;
}

-- `imr_lsm_update_segment_compaction_selection_locked`
unfoldable pub update_selection : Geometry → Option (ℕ → Zone) → Meta → Meta
update_selection g zones m =
    let segments = map scored m.segments in
    let selected = select_loop g zones m.timestamp segments none 0 in
    record m {
      segments = segments;
      stats = record (m.stats) { candidate = candidate_stats selected m.stats.candidate };
    }

-- `imr_lsm_recalculate_segment_invalid_stats_locked`
unfoldable pub recalculate_invalid_stats : Geometry → Option (ℕ → Zone) → Meta → Meta
recalculate_invalid_stats g zones m =
    let segments = map (recalculate_segment g zones m) m.segments in
    let cleared : InvalidStats = record {
      recalc_count = inc64 m.stats.invalid.recalc_count;
      segment_count = 0;
      entry_count = 0;
      obsolete_count = 0;
      tombstone_count = 0;
      delete_invalid_count = 0;
      max_ratio_permille = 0;
      max_segment_id = 0;
      last_segments = 0;
      last_entries = 0;
    } in
    update_selection g zones (record m {
      segments = segments;
      stats = record (m.stats) { invalid = tally segments cleared };
    })
