-- ===== src/Device/Rules.antt =====
-- The rules for a write and for a read (imrsim_kmod/dm-imrsim.c, `imrsim_write_rule_check` and
-- `imrsim_read_rule_check`), in the kernels whose bio has an iterator. What is printed and the last error
-- that is kept for the debugger are left out.
use imr_lsm.Prelude.{
  ℕ, ◌+◌, ◌-◌, ◌*◌, ◌/◌, ◌%◌, ◌^◌, Bool, true, false, ◌&&◌, ◌||◌, Option, none, some, [], ◌∷◌, ◌++◌,
  ltb, leb, ◌==◌, if◌then◌else◌, inc32, inc64, u32_mod, u64_mod,
}
use imr_lsm.Geometry.{
  Geometry, top_track_num_total, top_track_size, bottom_track_size, zone_idx_lba, lba_zone_idx,
  num_sectors_zone,
}
use imr_lsm.Metadata.{miss, valid, deleted}
use imr_lsm.State.{State, Env, Zone, update}
use imr_lsm.Read.{read}
use imr_lsm.Write.{record_logical_write}
use imr_lsm.Device.{
  Device, Phase, Cond, cond_closed, cond_full, Verdict, accepted, rewrite, write_out_range,
  write_across, read_across, out_of_policy, cleared,
}
use imr_lsm.Device.Relocate.{Moved, relocate}

-- `IMR_BOTTOM_TRACK_SIZE * 10000 / IMR_TOP_TRACK_SIZE`
abbrev pub track_rate : ℕ
track_rate = bottom_track_size * 10000 / top_track_size

-- the sectors of a top track with the bottom track after it
abbrev pub group_sectors : Geometry → ℕ
group_sectors g = (top_track_size + bottom_track_size) * 2 ^ g.block_shift

-- a write counted once, and the statistics of one zone changed
abbrev count_checked : ℕ → Device → Device
count_checked zone_idx d =
    let st = d.zone_stats zone_idx in
    record d {
      zone_stats =
          update d.zone_stats zone_idx (record st { z_write_total = inc32 st.z_write_total });
      write_total = inc64 d.write_total;
    }

-- The block of a top track that a bottom track covers has data, so it is written again: the extra
-- write is counted and its sector noted for the rewrite.
abbrev note_rewrite : ℕ → ℕ → Device → Device
note_rewrite zone_idx sector d =
    let st = d.zone_stats zone_idx in
    record d {
      zone_stats = update d.zone_stats zone_idx (record st {
        z_extra_write_total = inc32 st.z_extra_write_total;
        z_write_total = inc32 st.z_write_total;
      });
      extra_write_total = inc64 d.extra_write_total;
      write_total = inc64 d.write_total;
      rmw_lba = d.rmw_lba ++ (sector ∷ []);
    }

module _ (g : Geometry) (zone_idx : ℕ) where
  abbrev pub block_on_top : ℕ → ℕ → ℕ
  block_on_top track block =
      (zone_idx_lba g zone_idx + track * group_sectors g + block * 2 ^ g.block_shift) % u64_mod

  -- a write to block `block` of top track `track`
  unfoldable pub write_top : ℕ → ℕ → Device → Device × Verdict
  write_top track block d = (
    record d {
      used_blocks = update d.used_blocks zone_idx (
          update (d.used_blocks zone_idx) track (update (d.used_blocks zone_idx track) block true));
    },
    accepted,
  )

  -- a write to block `block` of bottom track `track`, which lies under the top tracks `track` and
  -- `track + 1`
  unfoldable pub write_bottom : ℕ → ℕ → Device → Device × Verdict
  write_bottom track block d =
      let above = block * 10000 / track_rate in
      let first = d.used_blocks zone_idx track above in
      let second =
        ltb (track + 1) top_track_num_total && d.used_blocks zone_idx (track + 1) above in
      let start = record d { rmw_lba = [] } in
      let one = if first then note_rewrite zone_idx (block_on_top track above) start else start in
      let two =
        if second then note_rewrite zone_idx (block_on_top (track + 1) above) one else one in
      (two, if first || second then rewrite else accepted)

  -- the tracks: a write at `lba` of the zone, to a top or a bottom track
  unfoldable pub write_track : ℕ → Option Bool → Device → Device × Verdict
  write_track lba top d =
      let zlba = zone_idx_lba g zone_idx in
      let track = (lba - zlba) / group_sectors g in
      let within = lba - zlba - track * group_sectors g in
      let is_top : Bool = elim top [
        | some t ↦ t
        | none ↦ ltb within (top_track_size * 2 ^ g.block_shift)
      ] in
      let block = within / 2 ^ g.block_shift in
      let counted = count_checked zone_idx d in
      if leb top_track_num_total track
      then (d, write_across)
      else if is_top
      then write_top track block counted
      else write_bottom track (block - top_track_size) counted

-- the policy for a write of `bio_sectors` sectors at `lba`, which is in the zone `zone_idx`
unfoldable pub write_policy : Geometry → ℕ → ℕ → ℕ → ℕ → Option Bool → Device → Device × Verdict
write_policy g zone_idx lba bio_sectors flag top d =
    let cond : Cond = elim (d.conds zone_idx) [ cond_full ↦ cond_closed | c ↦ c ] in
    let opened = if flag == 1 then record d { conds = update d.conds zone_idx cond } else d in
    let st = opened.zone_stats zone_idx in
    let spanned = record opened {
      zone_stats =
          update opened.zone_stats zone_idx
            (record st { write_span_zones = inc32 st.write_span_zones });
    } in
    let across =
      ltb ((zone_idx_lba g zone_idx + num_sectors_zone g) % u64_mod)
        ((lba + bio_sectors) % u64_mod) in
    if across && (flag == 0)
    then (spanned, write_across)
    else if across && (flag == 1)
    then (spanned, out_of_policy)
    else write_track g zone_idx lba top (if across then spanned else opened)

module _ (env : Env) where
  -- after the relocation, at the sector where the write is to go
  unfoldable pub check_moved : ℕ → ℕ → ℕ → Option Bool → Device → Device × Verdict
  check_moved flag sector bio_sectors top d =
      let g = env.geometry in
      let zone_idx = lba_zone_idx g sector in
      if leb g.num_zones zone_idx
      then (d, write_out_range)
      else write_policy g zone_idx sector bio_sectors flag top d

  -- a relocation that went well is checked
  abbrev pub then_check : ℕ → ℕ → Moved → Device × Verdict × ℕ
  then_check flag bio_sectors m = elim (m.verdict) [
    | accepted ↦
        let (d, v) = check_moved flag m.sector bio_sectors m.top m.device in (d, v, m.sector)
    | failed ↦ (m.device, failed, m.sector)
  ]

  -- `imrsim_write_rule_check`: the device, the answer, and the sector of the bio. A bio of the rewrite
  -- itself is `direct`.
  unfoldable pub write_rule_check :
      Phase → Bool → ℕ → ℕ → ℕ → ℕ → (ℕ → Zone) → Device → Device × Verdict × ℕ
  write_rule_check phase direct zone_idx lba bio_sectors flag zones d =
      let counted = record d {
        index = record_logical_write env d.index;
        compaction = cleared d.index d.compaction;
      } in
      if direct
      then then_check flag bio_sectors
          (record { device = d; verdict = accepted; sector = lba; top = none })
      else then_check flag bio_sectors (relocate env phase zone_idx lba bio_sectors zones counted)

  -- `imr_lsm_record_fallback`
  unfoldable pub record_fallback : State → State
  record_fallback s =
      let m = s.meta in
      let r = record (m.stats.read) { fallback_count = inc64 m.stats.read.fallback_count } in
      if m.initialized
      then record s { meta = record m { stats = record (m.stats) { read = r } } }
      else s

  -- where a read goes: by the index, by the zone map, or nowhere
  unfoldable pub locate : ℕ → ℕ → (ℕ → Zone) → Device → Device × Option ℕ
  locate zone_idx lba zones d =
      let g = env.geometry in
      let step = 2 ^ g.block_shift in
      let zlba = zone_idx_lba g zone_idx in
      let within = (lba - zlba) % step in
      let (s, found) = read env (lba / step) d.index in
      let looked = record d { index = s } in
      elim found [
        | valid pba ↦ (looked, some ((pba + within) % u64_mod))
        | deleted ↦ (looked, none)
        | miss ↦ elim ((zones zone_idx).z_pba_map ((lba - zlba) / step % u32_mod)) [
          | none ↦ (looked, none)
          | some e ↦
              (record d { index = record_fallback s }, some ((zlba + e * step + within) % u64_mod))
        ]
      ]

  -- the check of the sector that is read; a read that found nothing goes on with its own sector
  unfoldable pub read_policy : ℕ → ℕ → ℕ → Bool → Device → Device × Verdict
  read_policy flag sector bio_sectors nothing d =
      let g = env.geometry in
      let zone_idx = lba_zone_idx g sector in
      let st = d.zone_stats zone_idx in
      let spanned = record d {
        zone_stats =
            update d.zone_stats zone_idx (record st { read_span_zones = inc32 st.read_span_zones });
      } in
      let across =
        ltb ((zone_idx_lba g zone_idx + num_sectors_zone g) % u64_mod)
          ((sector + bio_sectors) % u64_mod) in
      if leb g.num_zones zone_idx
      then (d, write_out_range)
      else if across && (flag == 0)
      then (spanned, read_across)
      else if across
      then (spanned, out_of_policy)
      else if nothing
      then (d, out_of_policy)
      else (d, accepted)

  -- `imrsim_read_rule_check`: the device, the answer, and the sector of the bio
  unfoldable pub read_rule_check : Bool → ℕ → ℕ → ℕ → ℕ → (ℕ → Zone) → Device → Device × Verdict × ℕ
  read_rule_check direct zone_idx lba bio_sectors flag zones d =
      let (looked, found) = locate zone_idx lba zones d in
      let target : ℕ = elim found [ none ↦ lba | some sector ↦ sector ] in
      let nothing : Bool = elim found [ none ↦ true | some sector ↦ false ] in
      let (d', v) = read_policy flag target bio_sectors nothing looked in
      let (d'', v') = read_policy flag lba bio_sectors false d in
      if direct then (d'', v', lba) else (d', v, target)
