-- ===== src/Device/Failures.antt =====
-- A compaction of a zone that fails.
use imr_lsm.Prelude.{
  ℕ, zero, suc, ◌*◌, ◌≤◌, ◌≢◌, inl, inr, leb, arith, Bool-cases, ◌≡◌, refl, ap, ◌∙◌, Bool, true,
  false, not, Option, none, some, List, ◌==◌, if◌then◌else◌, inc64,
}
use imr_lsm.Geometry.{total_items}
use imr_lsm.ReadTree.Defs.{ReadTree}
use imr_lsm.Metadata.{
  Level, Segment, Code, success, enomem, einval, out_range, write_border, max_level, track_bottom,
}
use imr_lsm.BlockTable.{Builder}
use imr_lsm.Device.Relocate.{bottom_blocks}
use imr_lsm.State.{Meta, State, Env, Zone}
use imr_lsm.Compaction.{append_segment}
use imr_lsm.Device.{
  Device, Errno, e_invalid, e_no_space, e_no_data, e_index, ZoneCompaction, no_result,
}
use imr_lsm.Device.Compact.{
  Disk, Copying, failed_with, then_append_segment, then_finish, compact_zone, compact_refusal,
  start_copying, copy_block, then_count, then_add, compact_block, live_pba, dest_pba,
  compact_blocks, used_up, finish_zone,
}

-- the zone compaction but for its count of failures and its last result
abbrev pub settled : ZoneCompaction → ZoneCompaction
settled c = record c { failed_count = 0; last_result = no_result }

abbrev pub Metadata : Type 0
Metadata =
    Option (ℕ → Zone)
    × (ℕ → ℕ → ℕ → Bool)
    × (ℕ → Level)
    × List Segment
    × ReadTree
    × Bool
    × ZoneCompaction

-- of what the driver keeps in memory: the zones, the blocks in use, the levels, the segments, the read tree,
-- whether the index is initialized, and the zone compaction. What the disk holds is no part of it.
abbrev pub metadata : Device → Metadata
metadata d = (
  d.index.zones,
  d.used_blocks,
  d.index.meta.levels,
  d.index.meta.segments,
  d.index.meta.tree,
  d.index.meta.initialized,
  settled d.compaction,
)

-- the disk is the same but at the first output blocks of the compaction of a zone, up to the n-th
abbrev pub SameBut : Env → ℕ → ℕ → Disk → Disk → Type 0
SameBut env source_zone n disk disk' =
    (sector : ℕ)
    → ((k : ℕ) → k ≤ n → dest_pba env source_zone k ≢ sector)
    → disk'.blocks sector ≡ disk.blocks sector

-- A call that fails leaves the metadata as they were. Of the disk it may have overwritten output blocks, of the
-- entries that its result counts as live and of one more.
abbrev pub KeepsOnError : Env → ℕ → Disk → Device → Device × Disk × Option Errno → Type 0
KeepsOnError env source_zone disk d (d', disk', none) = Unit
KeepsOnError env source_zone disk d (d', disk', some e) =
    (metadata d' ≡ metadata d)
    × (d'.compaction.last_result.error ≡ some e)
    × SameBut env source_zone d'.compaction.last_result.live_entries disk disk'

-- the part of the index in it
abbrev shown : State → Option (ℕ → Zone) × (ℕ → Level) × List Segment × ReadTree × Bool
shown s = (s.zones, s.meta.levels, s.meta.segments, s.meta.tree, s.meta.initialized)

-- an index that did not take the segment
abbrev Refused : State → State × Code → Type 0
Refused s (s', success) = Unit
Refused s (s', code) = shown s' ≡ shown s

either_Refused :
    (s : State) (b : Bool) (x y : State × Code)
    → Refused s x
    → Refused s y
    → Refused s (if b then x else y)
either_Refused s true x y h k = h
either_Refused s false x y h k = k

append_segment-Refused :
    (env : Env) (level track : ℕ) (b : Builder) (s : State)
    → Refused s (append_segment env level track b s)
unfolding append_segment
append_segment-Refused env level track b s = either_Refused s (b.node_count == 0) _ _ tt (
    either_Refused s (not (env.alloc s.allocs)) _ _ refl
      (either_Refused s (not (env.alloc (suc s.allocs))) _ _ refl tt))

module _ (env : Env) (source_zone : ℕ) where
  -- a step of the copy: it counts no fewer live blocks, and it changes the disk only at output blocks
  abbrev Copies : Copying → Copying → Type 0
  Copies c c' = (c.live ≤ c'.live) × SameBut env source_zone c'.live c.disk c'.disk

  copy_block-same :
      (source dest : ℕ) (disk : Disk) (sector : ℕ)
      → dest ≢ sector
      → (copy_block source dest disk).0.blocks sector ≡ disk.blocks sector
  unfolding copy_block
  copy_block-same source dest disk sector ne = ground arith

  then_count-Copies :
      (c c' : Copying) (dest : ℕ) (r : Builder × Code)
      → c.live ≤ c'.live
      → SameBut env source_zone c'.live c.disk c'.disk
      → Copies c (then_count env source_zone dest c' r).0
  then_count-Copies c c' dest (b, success) le same =
      (omega (arith, le), λ sector away. same sector (λ k h. away k (omega (arith, h))))
  then_count-Copies c c' dest (b, enomem) le same = (le, same)
  then_count-Copies c c' dest (b, code) le same = (le, same)

  copied_Copies :
      (offset : ℕ) (c : Copying) (r : Disk × Bool × Option Errno)
      → SameBut env source_zone c.live c.disk r.0
      → Copies c (then_add env source_zone offset (dest_pba env source_zone c.live) c r).0
  copied_Copies offset c (disk, copied, some e) same = (omega arith, same)
  copied_Copies offset c (disk, copied, none) same =
      then_count-Copies c
        (record c {
          disk = disk;
          copied = if copied then suc c.copied else c.copied;
          timestamp = inc64 c.timestamp;
          allocs = suc c.allocs;
        })
        (dest_pba env source_zone c.live) _ (omega arith) same

  found_Copies :
      (offset : ℕ) (c : Copying) (found : Option ℕ)
      → (let r : Copying × Option Errno = elim found [
        | none ↦ (record c { skipped = suc c.skipped }, none)
        | some pba ↦
            if leb (2 * bottom_blocks) c.live
            then (c, some e_no_space)
            else then_add env source_zone offset
                (dest_pba env source_zone c.live)
                c
                (copy_block pba (dest_pba env source_zone c.live) c.disk)
      ] in
          Copies c r.0)
  found_Copies offset c none = (omega arith, λ sector away. refl)
  found_Copies offset c (some pba) = elim (Bool-cases (leb (2 * bottom_blocks) c.live)) [
    | inl none_left ↦ rw none_left (omega arith, λ sector away. refl)
    | inr room ↦ rw room (
        copied_Copies offset c (copy_block pba (dest_pba env source_zone c.live) c.disk)
          (λ sector away. copy_block-same pba _ c.disk sector (away c.live (omega arith))))
  ]

  then_Copies :
      (c c' : Copying) (error : Option Errno) (rest : Copying × Option Errno)
      → Copies c c'
      → Copies c' rest.0
      → (let r : Copying × Option Errno = elim error [ none ↦ rest | some e ↦ (c', some e) ] in
          Copies c r.0)
  then_Copies c c' (some e) rest one more = one
  then_Copies c c' none rest (le, same) (le', same') = (
    omega (arith, le, le'),
    λ sector away. same' sector away ∙ same sector (λ k h. away k (omega (arith, h, le'))),
  )

  compact_blocks-Copies :
      (left : ℕ) (m : Meta) (z : Zone) (offset : ℕ) (c : Copying)
      → Copies c (compact_blocks env source_zone left m z offset c).0
  unfolding compact_blocks compact_block
  compact_blocks-Copies zero m z offset c = (omega arith, λ sector away. refl)
  compact_blocks-Copies (suc left) m z offset c =
      let (c', error) = compact_block env source_zone m z offset c in
      then_Copies c c' error (compact_blocks env source_zone left m z (suc offset) c')
        (found_Copies offset c (live_pba env source_zone m z offset))
        (compact_blocks-Copies left m z (suc offset) c')

  module _ (disk : Disk) where
    abbrev Fails : Device → Device × Disk × Option Errno → Type 0
    Fails d r = KeepsOnError env source_zone disk d r

    either_Fails :
        (d : Device) (b : Bool) (x y : Device × Disk × Option Errno)
        → Fails d x
        → Fails d y
        → Fails d (if b then x else y)
    either_Fails d true x y h k = h
    either_Fails d false x y h k = k

    module _ (c : Copying) (same : SameBut env source_zone c.live disk c.disk) where
      failed_Fails : (e : Errno) (d : Device) → Fails d (failed_with env source_zone e c d)
      failed_Fails e d = (refl, refl, same)

      refused_Fails :
          (d : Device) (s s' : State) (code : Code)
          → shown s ≡ shown d.index
          → shown s' ≡ shown s
          → Fails d (
              failed_with env source_zone
                (e_index code)
                (record c { timestamp = s'.meta.timestamp; allocs = s'.allocs })
                (record d { index = s' }))
      refused_Fails d s s' code given h = (
        ap {B = Metadata} (λ x. (x.0, d.used_blocks, x.1, x.2, x.3, x.4, settled d.compaction))
            (h ∙ given),
        refl,
        same,
      )

      then_finish-Fails :
          (zones : ℕ → Zone) (d : Device) (s : State) (r : State × Code)
          → shown s ≡ shown d.index
          → Refused s r
          → Fails d (then_finish env source_zone c zones d r)
      unfolding finish_zone
      then_finish-Fails zones d s (s', success) given h = tt
      then_finish-Fails zones d s (s', enomem) given h = refused_Fails d s s' enomem given h
      then_finish-Fails zones d s (s', einval) given h = refused_Fails d s s' einval given h
      then_finish-Fails zones d s (s', out_range) given h = refused_Fails d s s' out_range given h
      then_finish-Fails zones d s (s', write_border) given h =
          refused_Fails d s s' write_border given h

      then_append_segment-Fails :
          (zones : ℕ → Zone) (d : Device) (error : Option Errno)
          → Fails d (then_append_segment env source_zone zones d (c, error))
      then_append_segment-Fails zones d (some e) = failed_Fails e d
      then_append_segment-Fails zones d none =
          let s = used_up env source_zone c d.index in
          either_Fails d (c.live == 0) _ _ (failed_Fails e_no_data d) (
            then_finish-Fails zones d s _ refl
              (append_segment-Refused env max_level track_bottom c.builder s))

    started-Fails :
        (zones : ℕ → Zone) (d : Device) (start : Copying) (refusal : Option Errno)
        (r : Copying × Option Errno)
        → SameBut env source_zone start.live disk start.disk
        → SameBut env source_zone r.0.live disk r.0.disk
        → (let answer : Device × Disk × Option Errno = elim refusal [
          | some e ↦ failed_with env source_zone e start d
          | none ↦ then_append_segment env source_zone zones d r
        ] in
            Fails d answer)
    started-Fails zones d start (some e) r same same' = failed_Fails start same e d
    started-Fails zones d start none r same same' = then_append_segment-Fails r.0 same' zones d r.1

    zones-Fails :
        (zones : Option (ℕ → Zone)) (d : Device) (start : Copying)
        (refusal : (ℕ → Zone) → Option Errno) (r : (ℕ → Zone) → Copying × Option Errno)
        → SameBut env source_zone start.live disk start.disk
        → ((zs : ℕ → Zone) → SameBut env source_zone (r zs).0.live disk (r zs).0.disk)
        → (let answer : Device × Disk × Option Errno = elim zones [
          | none ↦ failed_with env source_zone e_invalid start d
          | some zs ↦ elim (refusal zs) [
            | some e ↦ failed_with env source_zone e start d
            | none ↦ then_append_segment env source_zone zs d (r zs)
          ]
        ] in
            Fails d answer)
    zones-Fails none d start refusal r same same' = failed_Fails start same e_invalid d
    zones-Fails (some zs) d start refusal r same same' =
        started-Fails zs d start (refusal zs) (r zs) same (same' zs)

    -- A compaction of a zone that fails, for whatever reason and however far it got, leaves the zones, the
    -- blocks in use, the levels, the segments, the read tree and the initialization of the index as they were,
    -- and of the zone compaction all but the count of failures and the last result, which holds the
    -- error. The disk may have changed, but only at the output blocks of the entries counted as live
    -- in that result, and of one more.
    pub compact_zone-KeepsOnError :
        (d : Device) → KeepsOnError env source_zone disk d (compact_zone env source_zone disk d)
    unfolding compact_zone
    compact_zone-KeepsOnError d =
        let start = start_copying env source_zone disk d in
        zones-Fails d.index.zones d start (λ zs. compact_refusal env source_zone zs disk)
          (λ zs. compact_blocks env source_zone total_items d.index.meta (zs source_zone) 0 start)
          (λ sector away. refl)
          (λ zs. (compact_blocks-Copies total_items d.index.meta (zs source_zone) 0 start).1)
