-- ===== src/Device.antt =====
-- The emulated device: the zones with their conditions, their tracks and their statistics, the policy,
-- and the zone compaction that a full zone asks for (imrsim_kmod/dm-imrsim.c and
-- imrsim_kmod/imrsim_types.h: `struct imrsim_zone_status`, `struct imrsim_zone_stats`,
-- `struct imrsim_dev_config`, and the `zone_compaction` fields of `struct imr_lsm_metadata`).
-- The lengths, the maps and the sizes of the zones stand in the state of the index, which writes them too.
-- The caller holds `imrsim_zone_lock`.
pub mod Candidate
pub mod Relocate
pub mod Rules
pub mod Request
pub mod Places
pub mod Pending
pub mod Reached
pub mod Rewrites
pub mod Queue
pub mod RoundTrip
pub mod Compact
pub mod Failures
pub mod Output
pub mod Segments
pub mod Commits
pub mod Addresses
pub mod Kept
pub mod Retained
use imr_lsm.Prelude.{
  ℕ, ◌+◌, ◌-◌, ◌%◌, Bool, true, false, Option, none, some, List, ◌==◌, if◌then◌else◌, u32_max,
  u32_mod, u64_mod,
}
use imr_lsm.Metadata.{Code}
use imr_lsm.State.{State}

-- `enum imrsim_zone_conditions`
pub data Cond : Type 0 where
  cond_no_wp cond_empty cond_closed cond_read_only cond_full cond_offline : Cond

-- IMR_ALLOCATION_PHASE, a constant of the build; the source supports three values
pub data Phase : Type 0 where
  phase_one phase_two phase_three : Phase

-- what a rule check answers: 0, 1 when the write has to be preceded by a rewrite, the error of the
-- index, or an error of its own
pub data Verdict : Type 0 where
  accepted rewrite write_out_range write_across read_across out_of_policy : Verdict
  refused : Code → Verdict

-- `imrsim_zone_stats`
pub record ZoneStats : Type 0 where
  pub z_write_total : ℕ
  pub z_extra_write_total : ℕ
  pub write_span_zones : ℕ
  pub read_span_zones : ℕ

-- the errors of a compaction of a zone; those of the index are passed on
pub data Errno : Type 0 where
  e_invalid e_no_space e_busy e_unsupported e_no_memory e_no_device e_io e_no_data : Errno
  e_index : Code → Errno

-- what `imr_lsm_record_zone_compaction_result` keeps
pub record Result : Type 0 where
  pub source_zone : Option ℕ
  pub dest_zone0 : Option ℕ
  pub dest_zone1 : Option ℕ
  pub input_entries : ℕ
  pub live_entries : ℕ
  pub skipped_entries : ℕ
  pub copied_entries : ℕ
  pub failed_entries : ℕ
  pub output_pba_start : ℕ
  pub output_pba_end : ℕ
  pub error : Option Errno

abbrev pub no_result : Result
no_result = record {
  source_zone = none;
  dest_zone0 = none;
  dest_zone1 = none;
  input_entries = 0;
  live_entries = 0;
  skipped_entries = 0;
  copied_entries = 0;
  failed_entries = 0;
  output_pba_start = 0;
  output_pba_end = 0;
  error = none;
}

-- the zone compaction that waits, its candidate and the counters; `none` is
-- IMR_LSM_ZONE_COMPACTION_NONE
pub record ZoneCompaction : Type 0 where
  pub auto_run : Bool
  pub auto_running : Bool
  pub auto_pending : Bool
  pub auto_pending_zone : Option ℕ
  pub candidate_zone : Option ℕ
  pub candidate_dest_zone : Option ℕ
  pub candidate_map_size : ℕ
  pub candidate_ready : Bool
  pub candidate_count : ℕ
  pub last_candidate_zone : Option ℕ
  pub last_candidate_dest_zone : Option ℕ
  pub last_candidate_map_size : ℕ
  pub last_candidate_ready : Bool
  pub auto_pending_count : ℕ
  pub last_auto_pending_zone : Option ℕ
  pub auto_run_count : ℕ
  pub auto_run_failed_count : ℕ
  pub last_auto_run_zone : Option ℕ
  pub last_auto_run_error : Option Errno
  pub compaction_count : ℕ
  pub failed_count : ℕ
  pub last_result : Result

-- after `memset` and `imr_lsm_initialize_metadata_locked`
abbrev pub no_compaction : ZoneCompaction
no_compaction = record {
  auto_run = false;
  auto_running = false;
  auto_pending = false;
  auto_pending_zone = none;
  candidate_zone = none;
  candidate_dest_zone = none;
  candidate_map_size = 0;
  candidate_ready = false;
  candidate_count = 0;
  last_candidate_zone = none;
  last_candidate_dest_zone = none;
  last_candidate_map_size = 0;
  last_candidate_ready = false;
  auto_pending_count = 0;
  last_auto_pending_zone = none;
  auto_run_count = 0;
  auto_run_failed_count = 0;
  last_auto_run_zone = none;
  last_auto_run_error = none;
  compaction_count = 0;
  failed_count = 0;
  last_result = no_result;
}

pub record Device : Type 0 where
  pub index : State
  pub compaction : ZoneCompaction
  pub conds : ℕ → Cond
  pub used_blocks : ℕ → ℕ → ℕ → Bool
  pub zone_stats : ℕ → ZoneStats
  pub write_total : ℕ
  pub extra_write_total : ℕ
  pub read_flag : ℕ
  pub write_flag : ℕ
  pub rmw_lba : List ℕ

-- an `int` of `z_pba_map`: -1 is `none`
abbrev pub as_entry : ℕ → Option ℕ
as_entry n = let m = n % u32_mod in if m == u32_max then none else some m

-- The initialization of the index, which its operations do first, also clears what waits.
unfoldable pub cleared : State → ZoneCompaction → ZoneCompaction
cleared s c = if s.meta.initialized then c else no_compaction
