-- ===== src/Validity/Counts.antt =====
-- The counts of a segment.
use imr_lsm.Prelude.{
  ℕ, ◌+◌, ◌*◌, ◌/◌, ◌%◌, ◌<◌, ◌≡◌, refl, inl, inr, Bool, not, Option, List, [], ◌∷◌, arith,
  Bool-cases, length, u32_mod, if◌then◌else◌, ◌==◌,
}
use imr_lsm.Geometry.{Geometry}
use imr_lsm.Metadata.{Entry, Segment, Validity, no_validity}
use imr_lsm.Records.{find_newer_record, entry_should_keep}
use imr_lsm.State.{Meta, Zone}
use imr_lsm.Validity.{entry_invalid, count_entry, count_entries, segment_validity}

-- how many entries of a table pass a test
unfoldable pub number : (Entry → Bool) → List Entry → ℕ
number test [] = 0
number test (e ∷ es) = (if test e then 1 else 0) + number test es

module _ (g : Geometry) (zones : Option (ℕ → Zone)) (m : Meta) where
  abbrev pub kept : Entry → Bool
  kept e = entry_should_keep g zones m e

  abbrev pub superseded : Entry → Bool
  superseded e = (find_newer_record e.key e.timestamp m).found

  invalid-kept : (e : Entry) → entry_invalid g zones m e ≡ not (kept e)
  unfolding entry_invalid entry_should_keep
  invalid-kept e = ground arith

  -- what the counts of a segment say of its table
  pub record Counts (es : List Entry) (v v' : Validity) : Type 0 where
    pub live : v'.live_count ≡ v.live_count + number kept es
    pub invalid : v'.invalid_count ≡ v.invalid_count + number (λ e. not (kept e)) es
    pub tombstones : v'.tombstone_count ≡ v.tombstone_count + number (λ e. not e.valid) es
    pub obsolete : v'.obsolete_count ≡ v.obsolete_count + number superseded es

  -- room for `n` more entries in each count
  record Fits (n : ℕ) (v : Validity) : Type 0 where
    live_fits : v.live_count + n < u32_mod
    invalid_fits : v.invalid_count + n < u32_mod
    tombstones_fit : v.tombstone_count + n < u32_mod
    obsolete_fits : v.obsolete_count + n < u32_mod

  count_entry_lem :
      (e : Entry) (n : ℕ) (v : Validity)
      → Fits (n + 1) v
      → Counts (e ∷ []) v (count_entry g zones m e v)
  unfolding count_entry number
  count_entry_lem e n v fits = record {
    live = ground (arith, invalid-kept e, fits.live_fits);
    invalid = ground (arith, invalid-kept e, fits.invalid_fits);
    tombstones = ground (arith, fits.tombstones_fit);
    obsolete = ground (arith, fits.obsolete_fits);
  }

  count_entry-Fits :
      (e : Entry) (n : ℕ) (v : Validity) → Fits (n + 1) v → Fits n (count_entry g zones m e v)
  unfolding count_entry number
  count_entry-Fits e n v fits = record {
    live_fits = ground (arith, fits.live_fits);
    invalid_fits = ground (arith, fits.invalid_fits);
    tombstones_fit = ground (arith, fits.tombstones_fit);
    obsolete_fits = ground (arith, fits.obsolete_fits);
  }

  count_entries_lem :
      (es : List Entry) (v : Validity)
      → Fits (length es) v
      → Counts es v (count_entries g zones m es v)
  unfolding count_entries number
  count_entries_lem [] v fits = record {
    live = omega arith;
    invalid = omega arith;
    tombstones = omega arith;
    obsolete = omega arith;
  }
  count_entries_lem (e ∷ es) v fits =
      let more : Fits (length es + 1) v = record {
        live_fits = omega (arith, fits.live_fits);
        invalid_fits = omega (arith, fits.invalid_fits);
        tombstones_fit = omega (arith, fits.tombstones_fit);
        obsolete_fits = omega (arith, fits.obsolete_fits);
      } in
      let one = count_entry_lem e (length es) v more in
      let rest =
        count_entries_lem es (count_entry g zones m e v) (count_entry-Fits e (length es) v more) in
      record {
        live = omega (arith, one.live, rest.live);
        invalid = omega (arith, one.invalid, rest.invalid);
        tombstones = omega (arith, one.tombstones, rest.tombstones);
        obsolete = omega (arith, one.obsolete, rest.obsolete);
      }

  count_entries-ratio :
      (es : List Entry) (v : Validity)
      → (count_entries g zones m es v).obsolete_ratio_permille ≡ v.obsolete_ratio_permille
  unfolding count_entries count_entry
  count_entries-ratio [] v = refl
  count_entries-ratio (e ∷ es) v = count_entries-ratio es (count_entry g zones m e v)

  -- In a table of fewer than 2^32 entries, the live count of a segment is the number of entries that
  -- the compaction of a segment would keep, and the invalid count the number of all others; the tombstones
  -- and the entries with a newer version are counted as often as the table has them; and the ratio is
  -- the share of the others, in thousandths of the table.
  pub segment_validity_lem :
      (s : Segment)
      → length s.block_table < u32_mod
      → Counts s.block_table no_validity (segment_validity g zones m s)
        × ((segment_validity g zones m s).obsolete_ratio_permille ≡ (
            if length s.block_table == 0
            then 0
            else number (λ e. not (kept e)) s.block_table * 1000 / length s.block_table % u32_mod))
  unfolding segment_validity
  segment_validity_lem s fits =
      let table = s.block_table in
      let counts = count_entries_lem table no_validity (record {
        live_fits = omega (arith, fits);
        invalid_fits = omega (arith, fits);
        tombstones_fit = omega (arith, fits);
        obsolete_fits = omega (arith, fits);
      }) in
      let none_left : (count_entries g zones m table no_validity).obsolete_ratio_permille ≡ 0 =
        count_entries-ratio table no_validity in
      let dropped : (count_entries g zones m table no_validity).invalid_count
          ≡ number (λ e. not (kept e)) table =
        omega (arith, counts.invalid) in
      elim (Bool-cases (length table == 0)) [
        | inl empty ↦ rw empty (counts, none_left)
        | inr filled ↦ rw filled (
          record {
            live = counts.live;
            invalid = counts.invalid;
            tombstones = counts.tombstones;
            obsolete = counts.obsolete;
          },
          rw dropped refl,
        )
      ]
