-- ===== src/Lib.antt =====
-- IMR-LSM: the log-structured merge index of the device mapper target `imrsim`, which simulates an
-- interlaced magnetic recording disk (imrsim_kmod/dm-imrsim.c, imrsim_kmod/imrsim_types.h).
--
-- The program maps a logical block, the key, to a physical address. A write puts a record with a
-- fresh timestamp into the unsorted list of the active level; full levels are merged into the sorted
-- list of the next level, and each merge leaves a segment: a block table in the order of the keys, a
-- Bloom filter, and a placement on the tracks of a zone. A delete writes a tombstone. A read tree
-- caches the newest records. Segments whose entries are obsolete are chosen for compaction.
--
-- The parts, and the code that each one models:
--   * Prelude (Tests, Lists, Keyed, Members, Positions, Bits): no code; the shared tests, lists of
--     records in order of a key, members, positions, and bits of words. Machine integers are native numbers with their
--     wrap-around written out (`inc32`, `add64`, `% u32_mod`).
--   * Geometry: zones, blocks and tracks (`num_sectors_zone`, `zone_idx_lba`,
--     `imrsim_lba_zone_idx`, `imr_lsm_zone_*`, `imrsim_write_block_count`).
--     Geometry.Zones and Geometry.Tracks hold its proofs.
--   * ReadTree: the cache (`imr_lsm_tree_*`). ReadTree.Defs has the operations; ReadTree.Clear clears the
--     cache and sets its limit, from debugfs (`imr_lsm_debugfs_clear_read_tree_write`,
--     `imr_lsm_debugfs_read_tree_limit_write`), with its proofs; Search, Lru, Invariant, Operations and
--     Removal have the others.
--   * Metadata, State, State.Setup: the structures (`imr_lsm_metadata`, `imr_lsm_segment`,
--     `imr_lsm_stats`), their release and initialization. `State` is the whole state; what the module
--     does not decide is in `Env`.
--   * Bloom: the filters (`imr_lsm_bloom_*`); proofs in Bloom.Sizes and Bloom.Membership.
--   * BlockTable: the builder of a segment and the search of its table
--     (`imr_lsm_segment_builder_*`, `imr_lsm_segment_block_table_find`); proofs in BlockTable.Find,
--     BlockTable.Build and BlockTable.Range.
--   * Levels: the dynamic sizes of the levels and the choice of a level to compact
--     (`imr_lsm_calculate_dynamic_levels_locked`, `imr_lsm_compaction_dst_level_locked`,
--     `imr_lsm_pick_compaction_level_locked`); proofs in Levels.Bounds.
--   * SortedLevel: `imr_lsm_sorted_upsert_value_locked`; proofs in SortedLevel.Upsert.
--   * Records: the scans for versions of a key, and which entries a segment compaction keeps
--     (`imr_lsm_find_*_record_locked`, `imr_lsm_*_should_keep_locked`); Records.Versions lists the
--     versions of a key, Records.Scans and Records.Older have the proofs.
--   * Placement: where a segment goes (`imr_lsm_apply_segment_placement_locked`,
--     `imr_lsm_allocate_segment_output_locked`, `imr_lsm_map_segment_output_entries_locked`);
--     proofs in Placement.Allocate and Placement.Mapping.
--   * Validity: live and invalid entries, and the segment to compact
--     (`imr_lsm_recalculate_segment_invalid_stats_locked`,
--     `imr_lsm_update_segment_compaction_selection_locked`); proofs in Validity.Counts.
--   * Compaction: segments and merges of levels (`imr_lsm_append_segment_locked`,
--     `imr_lsm_flush_bottom_unsorted_locked`, `imr_lsm_compact_level_locked`,
--     `imr_lsm_run_compactions_locked`); proofs in Compaction.Cache (the read tree), Filters (the filters of
--     segments), Merges, Sound and Runs (the whole index).
--   * Write: insertions, deletions and discards (`imr_lsm_append_unsorted_node_locked` to
--     `imrsim_lsm_delete_lba_range_locked`); proofs in Write.Sound.
--   * Read: the lookup in the segments of a level and the read of a key
--     (`imr_lsm_segment_lookup_level_locked`, `imr_lsm_read`); proofs in Read.Own, Read.Writes,
--     Read.Hits and Read.Latest.
--   * Device: the emulated device around the index. Device.Candidate and Device.Compact: the zone that waits
--     for a compaction, and its compaction (`imr_lsm_record_zone_compaction_candidate_locked` to
--     `imr_lsm_zone_compaction_auto_work`, `imr_lsm_compact_zone_locked`). Device.Relocate: where a write
--     goes and how it is recorded (`imrsim_record_write_mapping_range`, the first half of
--     `imrsim_write_rule_check`). Device.Rules: the rest of that function and `imrsim_read_rule_check`.
--     Device.Request: `imrsim_map`. Device.Output: the copy of segments to their outputs and its commit
--     (`imr_lsm_plan_output_copy_locked` to `imr_lsm_commit_output_locked`). Device.Segments: the compaction of
--     the selected segment (`imr_lsm_compact_selected_segment_locked`). Proofs in Device.Places, Pending,
--     Reached, Rewrites, Queue, RoundTrip, Failures, Commits, Addresses, Kept and Retained.
--   * Tests (Soundness, Requests, Limits): concrete inputs.
--
-- Conventions. A linked list is a list, head first. An operation takes the state and returns the new
-- one, with a `Code` where the source returns an `int`; what was changed before an error stays
-- changed. Whether a call of `kzalloc` succeeds is an argument (`allocated`), or, where several
-- follow each other, the function `alloc` of `Env`, asked with the number of the call. The red-black
-- trees of the kernel are the parameter `RbTree`: rebalancing keeps the nodes in order, erasing takes
-- out the node with the key, and the first node is the leftmost. All of an operation holds
-- `imr_lsm_lock`, so operations do not interleave.
--
-- Fuel. The binary search has the width of its range plus one; the doubling of
-- `imr_lsm_next_power_of_two_u32` has 32 steps, for 32-bit values; the search for an output has the
-- number of sectors of its range plus one, and advances at each step; `index_power_of_2` has its
-- argument, which each step halves; the clearing of the cache has the number of its nodes. The proofs of these routines show that the fuel is enough.
-- The rounds of compaction are bounded by the number of levels, as in the source.
--
-- The disk below the target is the parameter `Disk` of Device.Compact: whether it is attached, whether a page
-- is given, which reads and writes succeed, and what each block holds. Of the two variants of the rules in the
-- source the one for kernels whose bio has an iterator is modelled; `Phase` is the constant
-- IMR_ALLOCATION_PHASE.
--
-- Not modelled: zone configuration,
-- persistence, the task that rewrites blocks, the rest of debugfs, and ioctls, which are the kernel's input and output
-- for the most part; the user-space tool imrsim_util. The counters `last_placement_*` are left out of
-- Placement, the idle statistics, the last error for the debugger and the penalties, which only wait, out of
-- Device.Request, and messages to
-- the log everywhere.
pub mod Prelude
pub mod Geometry
pub mod ReadTree
pub mod Metadata
pub mod Bloom
pub mod BlockTable
pub mod State
pub mod Levels
pub mod SortedLevel
pub mod Records
pub mod Placement
pub mod Validity
pub mod Compaction
pub mod Device
pub mod Write
pub mod Read
pub mod Tests
