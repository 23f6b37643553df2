-- ===== src/Device/Request.antt =====
-- A request of the device mapper (imrsim_kmod/dm-imrsim.c, `imrsim_map`): its checks, its rule, and what
-- the persistence task is told. The idle statistics and the last error that are kept for the debugger, the
-- penalties, which only wait, and what is printed are left out, in refused requests too; where a rewrite is due, the task that reads and writes the blocks starts with the list of
-- sectors that the device holds.
use imr_lsm.Prelude.{
  ℕ, ◌+◌, ◌-◌, ◌*◌, ◌/◌, ◌%◌, ◌^◌, Bool, true, false, not, ◌&&◌, none, some, List, [], ◌∷◌, ◌++◌,
  length, ltb, leb, ◌==◌, if◌then◌else◌, u32_mod, u64_mod,
}
use imr_lsm.Geometry.{zone_idx_lba, num_sectors_zone}
use imr_lsm.Metadata.{Code, success}
use imr_lsm.State.{Env}
use imr_lsm.Write.{record_discard_bio, delete_lba_range, record_discard_result}
use imr_lsm.Device.{
  Device, Phase, cond_read_only, cond_full, cond_offline, Verdict, accepted, rewrite, cleared,
}
use imr_lsm.Device.Rules.{write_rule_check, read_rule_check}

-- what a bio asks for
pub data Kind : Type 0 where
  read_bio write_bio discard_bio : Kind

-- a bio: `direct` marks those of the rewrite task itself
pub record Bio : Type 0 where
  pub kind : Kind
  pub direct : Bool
  pub lba : ℕ
  pub sectors : ℕ

-- DM_MAPIO_REMAPPED with the sector of the bio, DM_MAPIO_SUBMITTED after a discard and with a rewrite
-- to be run, and IMR_DM_IO_ERR
pub data Response : Type 0 where
  remapped : ℕ → Response
  discarded rewriting io_error : Response

-- `imrsim_ptask`: what has changed and the zones to be stored, at most IMR_PSTORE_QDEPTH of them
pub record Task : Type 0 where
  pub status_change : Bool
  pub stats_change : Bool
  pub stu_zone_idx : List ℕ
  pub stu_zone_idx_gap : ℕ
  pub sts_zone_idx : ℕ

abbrev pub queue_depth : ℕ
queue_depth = 128

abbrev pub page_edge : ℕ
page_edge = 92

abbrev pub page_gap : ℕ
page_gap = 2

-- `abs` of a difference of two numbers of zones, which are below 2^31
abbrev distance : ℕ → ℕ → ℕ
distance a b = (a - b) + (b - a)

-- whether a zone lies within `edge` of one in the list
unfoldable pub is_near : ℕ → ℕ → List ℕ → Bool
is_near edge idx [] = false
is_near edge idx (z ∷ zs) = if leb (distance idx z) edge then true else is_near edge idx zs

-- `imrsim_ptask_queue_ok` and `imrsim_ptask_gap_ok`
abbrev pub queue_ok : ℕ → List ℕ → Bool
queue_ok idx zs = not (is_near page_edge idx zs)

abbrev pub gap_ok : ℕ → List ℕ → Bool
gap_ok idx zs = is_near (page_gap * page_edge) idx zs

-- the zone of a write that was accepted is put on the list
unfoldable pub queue_zone : ℕ → Task → Task
queue_zone zone_idx t =
    let told = record t { status_change = true } in
    let zs = t.stu_zone_idx ++ (zone_idx ∷ []) in
    if length t.stu_zone_idx == queue_depth
    then record told { stu_zone_idx_gap = page_gap }
    else if queue_ok zone_idx t.stu_zone_idx
    then record told {
      stu_zone_idx = zs;
      stu_zone_idx_gap =
          if gap_ok zone_idx zs then t.stu_zone_idx_gap else (t.stu_zone_idx_gap + 1) % 256;
    }
    else told

-- `imrsim_map_sector`, where `dm_target_offset` is the kernel's
abbrev pub map_sector : ℕ → (ℕ → ℕ) → ℕ → ℕ
map_sector start target_offset sector = (start + target_offset sector) % u64_mod

-- the labels of `imrsim_map`
abbrev pub nomap : ℕ → Device → Task → Device × Task × Response
nomap zone_idx d t = (d, record t { stats_change = true; sts_zone_idx = zone_idx }, io_error)

module _ (env : Env) (phase : Phase) (start : ℕ) (target_offset : ℕ → ℕ) where
  abbrev mapped : Bio → ℕ → Device → Task → Device × Task × Response
  mapped bio sector d t =
      (d, t, remapped (if bio.sectors == 0 then sector else map_sector start target_offset sector))

  -- after the rule check of a write
  unfoldable pub after_write : Bio → ℕ → Task → Device × Verdict × ℕ → Device × Task × Response
  after_write bio zone_idx t (d, accepted, sector) = mapped bio sector d (queue_zone zone_idx t)
  after_write bio zone_idx t (d, rewrite, sector) = (d, t, rewriting)
  after_write bio zone_idx t (d, v, sector) =
      if (d.write_flag == 1) && (d.read_flag == 1)
      then mapped bio sector d t
      else if d.write_flag == 1
      then mapped bio sector d (queue_zone zone_idx t)
      else nomap zone_idx d t

  -- after the rule check of a read
  unfoldable pub after_read : Bio → ℕ → Task → Device × Verdict × ℕ → Device × Task × Response
  after_read bio zone_idx t (d, accepted, sector) = mapped bio sector d t
  after_read bio zone_idx t (d, v, sector) =
      if d.read_flag == 1 then mapped bio sector d t else nomap zone_idx d t

  abbrev pub after_discard : ℕ → Task → Device × Code → Device × Task × Response
  after_discard zone_idx t (d, success) = (d, record t { status_change = true }, discarded)
  after_discard zone_idx t (d, code) = nomap zone_idx d t

  -- a discard: the deletions, between the two records of the statistics
  unfoldable pub discard_range : Bio → Device → Device × Code
  discard_range bio d =
      let (s, code) =
        delete_lba_range env bio.lba bio.sectors
          (record_discard_bio env bio.lba bio.sectors d.index) in
      (
        record d {
          index = record_discard_result env code s;
          compaction = cleared d.index d.compaction;
        },
        code,
      )

  -- a write that the condition of its zone allows
  abbrev pub is_barred : ℕ → Bio → Device → Bool
  is_barred zone_idx bio d = elim (d.conds zone_idx) [
    | cond_read_only ↦ d.write_flag == 0
    | cond_full ↦ not (bio.lba == zone_idx_lba env.geometry zone_idx) && (d.write_flag == 0)
    | _ ↦ false
  ]

  abbrev pub is_offline : ℕ → Device → Bool
  is_offline zone_idx d = elim (d.conds zone_idx) [ cond_offline ↦ true | _ ↦ false ]

  -- `imrsim_map`. The target is created with the array of its zones; without it there is no answer to
  -- model, and the request is refused.
  unfoldable pub map_request : Bio → Device → Task → Device × Task × Response
  map_request bio d t =
      let g = env.geometry in
      let zone_idx = bio.lba / 2 ^ g.block_shift / 2 ^ g.zone_shift % u32_mod in
      let furthest = (zone_idx_lba g zone_idx + 2 * num_sectors_zone g % u32_mod) % u64_mod in
      if leb g.num_zones zone_idx
      then nomap zone_idx d t
      else if ltb furthest ((bio.lba + bio.sectors) % u64_mod)
      then nomap zone_idx d t
      else if is_offline zone_idx d
      then nomap zone_idx d t
      else elim (d.index.zones) [
        | none ↦ nomap zone_idx d t
        | some zones ↦ elim (bio.kind) [
          | discard_bio ↦ after_discard zone_idx t (discard_range bio d)
          | write_bio ↦
              if is_barred zone_idx bio d
              then nomap zone_idx d t
              else after_write bio zone_idx t (
                  write_rule_check env phase bio.direct zone_idx bio.lba bio.sectors d.write_flag
                    zones d)
          | read_bio ↦
              after_read bio zone_idx t
                (read_rule_check env bio.direct zone_idx bio.lba bio.sectors d.read_flag zones d)
        ]
      ]
