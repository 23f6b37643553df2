-- ===== src/Device/Output.antt =====
-- The copy of segments to their outputs and its commit (imrsim_kmod/dm-imrsim.c,
-- `imr_lsm_plan_output_copy_locked`, `imr_lsm_copy_output_payload_locked`,
-- `imr_lsm_commit_output_metadata_locked`, `imr_lsm_commit_output_locked`). The index stands in the state;
-- what these functions count stands in `OutputStats`.
use imr_lsm.Prelude.{
  ℕ, suc, ◌+◌, ◌-◌, ◌*◌, ◌%◌, ◌^◌, Bool, true, false, not, ◌&&◌, ◌||◌, Option, none, some, List, [],
  ◌∷◌, ltb, ◌==◌, min, max, if◌then◌else◌, inc64, add64, u32_mod, u64_mod,
}
use imr_lsm.Geometry.{Geometry}
use imr_lsm.ReadTree.Defs.{ReadTree, tree_update}
use imr_lsm.Metadata.{Entry, Segment}
use imr_lsm.Records.{find_newer_record}
use imr_lsm.State.{Meta, State, Env, update}
use imr_lsm.Device.{Errno, e_invalid, e_unsupported, e_no_memory, e_no_device, e_io}
use imr_lsm.Device.Compact.{Disk}

-- the lowest and the highest sectors that a segment's entries are copied from and to
pub record Span : Type 0 where
  pub source_start : ℕ
  pub source_end : ℕ
  pub output_start : ℕ
  pub output_end : ℕ

abbrev pub no_span : Span
no_span = record { source_start = 0; source_end = 0; output_start = 0; output_end = 0 }

-- what one pass over the segments counts: the segments with entries, their entries, those without a
-- mapping or a plan, those already committed, and the last segment with entries
pub record Pass : Type 0 where
  pub segments : ℕ
  pub entries : ℕ
  pub missing : ℕ
  pub already : ℕ
  pub failed : ℕ
  pub segment_entries : ℕ
  pub segment_span : Span
  pub last_segment_id : Option ℕ
  pub last_segment_entries : ℕ
  pub last_span : Span

abbrev pub no_pass : Pass
no_pass = record {
  segments = 0;
  entries = 0;
  missing = 0;
  already = 0;
  failed = 0;
  segment_entries = 0;
  segment_span = no_span;
  last_segment_id = none;
  last_segment_entries = 0;
  last_span = no_span;
}

-- the statistics of the three passes
pub record OutputStats : Type 0 where
  pub plan_count : ℕ
  pub plan_entry_count : ℕ
  pub plan_missing_count : ℕ
  pub last_plan : Pass
  pub commit_count : ℕ
  pub commit_entry_count : ℕ
  pub commit_already_count : ℕ
  pub commit_missing_count : ℕ
  pub last_commit : Pass
  pub copy_count : ℕ
  pub copy_entry_count : ℕ
  pub copy_failed_count : ℕ
  pub last_copy : Pass
  pub last_copy_error : Option Errno

module _ (g : Geometry) where
  -- the last sector of the block at `pba`
  abbrev block_end : ℕ → ℕ
  block_end pba = (pba + (2 ^ g.block_shift - 1)) % u64_mod

  -- one more entry of the segment, copied from `source` to `output`
  unfoldable pub note_entry : ℕ → ℕ → Pass → Pass
  note_entry source output p =
      let s = p.segment_span in
      let span : Span =
        if p.segment_entries == 0
        then record {
          source_start = source;
          source_end = block_end source;
          output_start = output;
          output_end = block_end output;
        }
        else record {
          source_start = min source s.source_start;
          source_end = max (block_end source) s.source_end;
          output_start = min output s.output_start;
          output_end = max (block_end output) s.output_end;
        } in
      record p {
        entries = suc p.entries;
        segment_entries = suc p.segment_entries;
        segment_span = span;
      }

  -- before and after the entries of a segment
  abbrev pub open_segment : Pass → Pass
  open_segment p = record p { segment_entries = 0; segment_span = no_span }

  unfoldable pub close_segment : ℕ → Pass → Pass
  close_segment id p = if p.segment_entries == 0 then p else record p {
    segments = suc p.segments;
    last_segment_id = some id;
    last_segment_entries = p.segment_entries;
    last_span = p.segment_span;
  }

  -- the entries that are valid and mapped are planned
  unfoldable pub plan_entry : Entry → Pass → Entry × Pass
  plan_entry e p =
      let with_plan =
        λ (planned : Bool). record e { copy = record (e.copy) { output_copy_planned = planned } } in
      if not e.valid
      then (with_plan false, p)
      else if not e.copy.output_mapped
      then (with_plan false, record p { missing = suc p.missing })
      else (with_plan true, note_entry e.pba e.copy.output_pba p)

  unfoldable pub plan_entries : List Entry → Pass → List Entry × Pass
  plan_entries [] p = ([], p)
  plan_entries (e ∷ es) p =
      let (e', p') = plan_entry e p in let (es', p'') = plan_entries es p' in (e' ∷ es', p'')

  unfoldable pub plan_segments : List Segment → Pass → List Segment × Pass
  plan_segments [] p = ([], p)
  plan_segments (s ∷ ss) p =
      let (es, p') = plan_entries s.block_table (open_segment p) in
      let planned = plan_segments ss (close_segment s.id p') in
      let passed = plan_segments ss p in
      if s.retired
      then (s ∷ passed.0, passed.1)
      else (record s { block_table = es } ∷ planned.0, planned.1)

  -- `imr_lsm_plan_output_copy_locked`
  unfoldable pub plan_output_copy : Meta → OutputStats → Meta × OutputStats
  plan_output_copy m o =
      let (ss, p) = plan_segments m.segments no_pass in
      (
        record m { segments = ss },
        record o {
          plan_count = inc64 o.plan_count;
          plan_entry_count = add64 o.plan_entry_count p.entries;
          plan_missing_count = add64 o.plan_missing_count p.missing;
          last_plan = p;
        },
      )

  -- Whether an entry is to be copied: valid, planned, and neither copied nor committed.
  abbrev pub to_copy : Entry → Bool
  to_copy e =
      e.valid
      && (not e.copy.output_committed
          && (not e.copy.output_copied && (e.copy.output_mapped && e.copy.output_copy_planned)))

  abbrev source_of : Entry → ℕ
  source_of e = if e.copy.source_pba_valid then e.copy.source_pba else e.pba

  -- the copy of the block of one entry; a read or a write that fails ends the pass
  unfoldable pub copy_entry : Entry → Disk → Pass → Entry × Disk × Pass × Option Errno
  copy_entry e disk p =
      let source = source_of e in
      let output = e.copy.output_pba in
      let done = record e {
        copy = record (e.copy) {
          source_pba = source;
          source_pba_valid = true;
          output_copied = true;
        };
      } in
      let written = record disk { blocks = update disk.blocks output (disk.blocks source) } in
      if not (to_copy e)
      then (e, disk, p, none)
      else if not (disk.read_ok source)
      then (e, disk, record p { failed = suc p.failed }, some e_io)
      else if not (disk.write_ok output)
      then (e, disk, record p { failed = suc p.failed }, some e_io)
      else (done, written, note_entry source output p, none)

  unfoldable pub copy_entries : List Entry → Disk → Pass → List Entry × Disk × Pass × Option Errno
  copy_entries [] disk p = ([], disk, p, none)
  copy_entries (e ∷ es) disk p =
      let (e', disk', p', error) = copy_entry e disk p in
      let (es', disk'', p'', error') = copy_entries es disk' p' in
      elim error [ none ↦ (e' ∷ es', disk'', p'', error') | some x ↦ (e' ∷ es, disk', p', some x) ]

  unfoldable pub copy_segments :
      List Segment → Disk → Pass → List Segment × Disk × Pass × Option Errno
  copy_segments [] disk p = ([], disk, p, none)
  copy_segments (s ∷ ss) disk p =
      let (es, disk', p', error) = copy_entries s.block_table disk (open_segment p) in
      let s' = record s { block_table = es } in
      let (ss', disk'', p'', error') = copy_segments ss disk' (close_segment s.id p') in
      let passed = copy_segments ss disk p in
      if s.retired then (s ∷ passed.0, passed.1, passed.2, passed.3) else elim error [
        | none ↦ (s' ∷ ss', disk'', p'', error')
        | some x ↦ (s' ∷ ss, disk', p', some x)
      ]

  -- why nothing is copied
  unfoldable pub copy_refusal : Disk → Option Errno
  copy_refusal disk =
      if not disk.attached
      then some e_no_device
      else if ltb disk.page_size (2 ^ g.block_shift * 2 ^ 9 % u32_mod)
      then some e_unsupported
      else if not disk.page_given
      then some e_no_memory
      else none

  abbrev pub record_copy : Option Errno → Pass → OutputStats → OutputStats
  record_copy error p o = record o {
    copy_count = inc64 o.copy_count;
    copy_entry_count = add64 o.copy_entry_count p.entries;
    copy_failed_count = add64 o.copy_failed_count p.failed;
    last_copy = p;
    last_copy_error = error;
  }

  -- `imr_lsm_copy_output_payload_locked`
  unfoldable pub copy_output_payload :
      Disk → Meta → OutputStats → Meta × OutputStats × Disk × Option Errno
  copy_output_payload disk m o =
      let (ss, disk', p, error) = copy_segments m.segments disk no_pass in
      elim (copy_refusal disk) [
        | some e ↦ (m, record_copy (some e) no_pass o, disk, some e)
        | none ↦ (record m { segments = ss }, record_copy error p o, disk', error)
      ]

-- what the commit carries: the read tree, the allocations, the counts
pub record Commit : Type 0 where
  pub tree : ReadTree
  pub allocs : ℕ
  pub pass : Pass

-- the pass of the output, and its result: the index, the statistics, the disk, the error
pub record OutputRun : Type 0 where
  pub index : State
  pub stats : OutputStats
  pub disk : Disk
  pub error : Option Errno

module _ (env : Env) where
  -- One entry: what was planned becomes its address, and the read tree's, unless the index holds a newer
  -- record of the key. The scan for one reads keys, timestamps and validity, which a commit leaves, so
  -- `m` is the metadata before the pass.
  unfoldable pub commit_entry : Meta → Entry → Commit → Entry × Commit
  commit_entry m e c =
      let g = env.geometry in
      let source = e.pba in
      let output = e.copy.output_pba in
      let p = c.pass in
      let done = record e {
        pba = output;
        copy = record (e.copy) {
          source_pba = source;
          source_pba_valid = true;
          output_committed = true;
        };
      } in
      let noted = record c { pass = note_entry g source output p } in
      let cached = record noted {
        tree = tree_update env.rb (env.alloc c.allocs) e.key output e.valid e.timestamp c.tree;
        allocs = suc c.allocs;
      } in
      if not e.valid
      then (e, c)
      else if e.copy.output_committed
      then (e, record c { pass = record p { already = suc p.already } })
      else if not e.copy.output_mapped || not e.copy.output_copy_planned
      then (e, record c { pass = record p { missing = suc p.missing } })
      else (done, if (find_newer_record e.key e.timestamp m).found then noted else cached)

  unfoldable pub commit_entries : Meta → List Entry → Commit → List Entry × Commit
  commit_entries m [] c = ([], c)
  commit_entries m (e ∷ es) c =
      let (e', c') = commit_entry m e c in
      let (es', c'') = commit_entries m es c' in (e' ∷ es', c'')

  unfoldable pub commit_segments : Meta → List Segment → Commit → List Segment × Commit
  commit_segments m [] c = ([], c)
  commit_segments m (s ∷ ss) c =
      let (es, c') =
        commit_entries m s.block_table (record c { pass = open_segment env.geometry c.pass }) in
      let committed =
        commit_segments m ss (record c' { pass = close_segment env.geometry s.id c'.pass }) in
      let passed = commit_segments m ss c in
      if s.retired
      then (s ∷ passed.0, passed.1)
      else (record s { block_table = es } ∷ committed.0, committed.1)

  -- `imr_lsm_commit_output_metadata_locked`
  unfoldable pub commit_output_metadata : State → OutputStats → State × OutputStats
  commit_output_metadata s o =
      let m = s.meta in
      let (ss, c) =
        commit_segments m m.segments
          (record { tree = m.tree; allocs = s.allocs; pass = no_pass }) in
      (
        record s { meta = record m { segments = ss; tree = c.tree }; allocs = c.allocs },
        record o {
          commit_count = inc64 o.commit_count;
          commit_entry_count = add64 o.commit_entry_count c.pass.entries;
          commit_already_count = add64 o.commit_already_count c.pass.already;
          commit_missing_count = add64 o.commit_missing_count c.pass.missing;
          last_commit = c.pass;
        },
      )

  -- the third step of `imr_lsm_commit_output_locked`
  abbrev pub committed : OutputRun → OutputRun
  committed r =
      let (s, o) = commit_output_metadata r.index r.stats in record r { index = s; stats = o }

  -- `imr_lsm_commit_output_locked`: the plan; with 3 the copy, whose error ends the run; with 2 or 3 the
  -- commit
  unfoldable pub commit_output : ℕ → Disk → State → OutputStats → OutputRun
  commit_output run disk s o =
      let (m, o') = plan_output_copy env.geometry s.meta o in
      let planned : OutputRun = record {
        index = record s { meta = m };
        stats = o';
        disk = disk;
        error = none;
      } in
      let (m', o'', disk', error) = copy_output_payload env.geometry disk m o' in
      let copied : OutputRun = record {
        index = record s { meta = m' };
        stats = o'';
        disk = disk';
        error = error;
      } in
      if (run == 0) || ltb 3 run
      then record { index = s; stats = o; disk = disk; error = some e_invalid }
      else if run == 1
      then planned
      else if run == 2
      then committed planned
      else elim error [ none ↦ committed copied | some e ↦ copied ]
