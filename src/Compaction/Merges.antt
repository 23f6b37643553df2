-- ===== src/Compaction/Merges.antt =====
-- The merge of nodes: the destination level and the builder.
use mathlib.Core.Path.{subst}
use imr_lsm.Prelude.{
  ℕ, suc, ◌+◌, ◌≤◌, ◌<◌, ◌≡◌, ◌∙◌, refl, sym, ap, Bool, List, [], ◌∷◌, length, arith, u32_max,
  u32_mod,
}
use imr_lsm.Prelude.Keyed.{length-insert, length-modify}
use imr_lsm.Metadata.{Node, Level, Code, success, enomem}
use imr_lsm.BlockTable.{Builder, builder_add_node}
use imr_lsm.BlockTable.Range.{IsRanged, builder_add-IsRanged}
use imr_lsm.SortedLevel.{node_key, overwrite, sorted_upsert}
use imr_lsm.SortedLevel.Upsert.{IsSortedLevel, Upserts, sorted_upsert-Upserts}
use imr_lsm.State.{Env}
use imr_lsm.Compaction.{Merge, merge_node, merge_nodes, then_upsert, then_merge}

length-sorted_upsert :
    (allocated : Bool) (new : Node) (l : Level)
    → length (sorted_upsert allocated new l).0.sorted ≤ length l.sorted + 1
unfolding sorted_upsert
length-sorted_upsert allocated new l = ground (
  arith,
  length-insert node_key new l.sorted,
  length-modify node_key new.key (overwrite new) l.sorted,
)

-- what a merge of at most `k` nodes leaves, whatever its code
pub record Merged (k : ℕ) (w w' : Merge) : Type 0 where
  pub sorted : IsSortedLevel w'.dst
  pub unsorted : w'.dst.unsorted ≡ w.dst.unsorted
  pub grows : length w'.dst.sorted ≤ length w.dst.sorted + k
  pub ranged : IsRanged w'.builder
  pub counts : w'.builder.node_count ≤ w.builder.node_count + k

upsert_kept :
    (new : Node) (l : Level) (r : Level × Code)
    → IsSortedLevel l
    → Upserts new l r
    → IsSortedLevel r.0 × (r.0.unsorted ≡ l.unsorted)
upsert_kept new l (l', success) h u = (u.0, u.1)
upsert_kept new l (l', enomem) h u =
    (subst IsSortedLevel (sym u) h, ap (λ (x : Level). x.unsorted) u)
upsert_kept new l (l', code) h u = (subst IsSortedLevel (sym u) h, ap (λ (x : Level). x.unsorted) u)

module _ (env : Env) where
  then_upsert-Merged :
      (n : Node) (w : Merge) (r : Builder × Code)
      → IsSortedLevel w.dst
      → length w.dst.sorted < u32_max
      → IsRanged r.0
      → r.0.node_count ≤ w.builder.node_count + 1
      → Merged 1 w (then_upsert env n w r).0
  then_upsert-Merged n w (b, success) h small ranged counts =
      let allocated = env.alloc (suc w.allocs) in
      let kept =
        upsert_kept n w.dst (sorted_upsert allocated n w.dst) h
          (sorted_upsert-Upserts allocated n w.dst h small) in
      record {
        sorted = kept.0;
        unsorted = kept.1;
        grows = length-sorted_upsert allocated n w.dst;
        ranged = ranged;
        counts = counts;
      }
  then_upsert-Merged n w (b, enomem) h small ranged counts = record {
    sorted = h;
    unsorted = refl;
    grows = omega arith;
    ranged = ranged;
    counts = counts;
  }
  then_upsert-Merged n w (b, code) h small ranged counts = record {
    sorted = h;
    unsorted = refl;
    grows = omega arith;
    ranged = ranged;
    counts = counts;
  }

  merge_node-Merged :
      (n : Node) (w : Merge)
      → IsSortedLevel w.dst
      → length w.dst.sorted < u32_max
      → IsRanged w.builder
      → w.builder.node_count + 1 < u32_mod
      → Merged 1 w (merge_node env n w).0
  unfolding merge_node
  merge_node-Merged n w h small ranged room =
      let added =
        builder_add-IsRanged env.compaction_threshold (env.alloc w.allocs) n.key n.pba n.zone_idx
          n.valid n.timestamp w.builder ranged room in
      then_upsert-Merged n w
        (builder_add_node env.compaction_threshold (env.alloc w.allocs) n w.builder) h small added.0
        added.1

  Merged-trans :
      (j k total : ℕ) (w w' w'' : Merge)
      → j + k ≡ total
      → Merged j w w'
      → Merged k w' w''
      → Merged total w w''
  Merged-trans j k total w w' w'' e first second = record {
    sorted = second.sorted;
    unsorted = second.unsorted ∙ first.unsorted;
    grows = omega (arith, first.grows, second.grows);
    ranged = second.ranged;
    counts = omega (arith, first.counts, second.counts);
  }

  -- A merge of nodes, as far as it gets, keeps the destination sorted and the builder in range.
  pub merge_nodes-Merged :
      (ns : List Node) (w : Merge)
      → IsSortedLevel w.dst
      → length w.dst.sorted + length ns < u32_max
      → IsRanged w.builder
      → w.builder.node_count + length ns < u32_max
      → Merged (length ns) w (merge_nodes env ns w).0
  unfolding merge_nodes
  merge_nodes-Merged [] w h small ranged room = record {
    sorted = h;
    unsorted = refl;
    grows = omega arith;
    ranged = ranged;
    counts = omega arith;
  }
  merge_nodes-Merged (n ∷ ns) w h small ranged room =
      let one = merge_node-Merged n w h (omega arith) ranged (omega arith) in
      let (w', code) = merge_node env n w in
      (elim code
        as (λ c.
          let r : Merge × Code = elim c [
            | success ↦ merge_nodes env ns w'
            | failed ↦ (w', failed)
          ] in
          Merged (suc (length ns)) w r.0) [
            | success ↦
                Merged-trans 1 (length ns) (suc (length ns)) w w' (merge_nodes env ns w').0
                  (omega arith) one
                  (merge_nodes-Merged ns w' one.sorted (omega (arith, one.grows)) one.ranged
                    (omega (arith, one.counts)))
            | failed ↦ record {
              sorted = one.sorted;
              unsorted = one.unsorted;
              grows = omega (arith, one.grows);
              ranged = one.ranged;
              counts = omega (arith, one.counts);
            }
          ])

  Merged-le : (j k : ℕ) (w w' : Merge) → j ≤ k → Merged j w w' → Merged k w w'
  Merged-le j k w w' le m = record {
    sorted = m.sorted;
    unsorted = m.unsorted;
    grows = omega (arith, m.grows);
    ranged = m.ranged;
    counts = omega (arith, m.counts);
  }

  then_merge_cases :
      (ms : List Node) (w : Merge) (j k : ℕ) (r : Merge × Code)
      → j ≤ k
      → Merged j w r.0
      → Merged k w (merge_nodes env ms r.0).0
      → Merged k w (then_merge env ms r).0
  then_merge_cases ms w j k (w', success) le first both = both
  then_merge_cases ms w j k (w', enomem) le first both = Merged-le j k w w' le first
  then_merge_cases ms w j k (w', code) le first both = Merged-le j k w w' le first

  -- the two merges of a compaction
  pub then_merge-Merged :
      (ns ms : List Node) (w : Merge)
      → IsSortedLevel w.dst
      → length w.dst.sorted + length ns + length ms < u32_max
      → IsRanged w.builder
      → w.builder.node_count + length ns + length ms < u32_max
      → Merged (length ns + length ms) w (then_merge env ms (merge_nodes env ns w)).0
  then_merge-Merged ns ms w h small ranged room =
      let first = merge_nodes-Merged ns w h (omega arith) ranged (omega arith) in
      let second = λ (w' : Merge) (m : Merged (length ns) w w').
        Merged-trans (length ns) (length ms) (length ns + length ms) w w' (merge_nodes env ms w').0
          refl m
          (merge_nodes-Merged ms w' m.sorted (omega (arith, m.grows)) m.ranged
            (omega (arith, m.counts))) in
      then_merge_cases ms w (length ns) (length ns + length ms) (merge_nodes env ns w) (omega arith)
        first (second (merge_nodes env ns w).0 first)
