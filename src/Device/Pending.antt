-- ===== src/Device/Pending.antt =====
-- The zone that waits for its compaction, in all operations of the device.
use imr_lsm.Prelude.{
  ℕ, ◌≡◌, ◌≢◌, refl, inl, inr, true, false, not, ◌&&◌, ◌||◌, Option, none, some, ltb, leb, ◌==◌,
  arith, Bool-cases,
}
use imr_lsm.Geometry.{Geometry, total_items}
use imr_lsm.State.{State, Zone}
use imr_lsm.Device.{Device, ZoneCompaction, no_compaction, cleared}
use imr_lsm.Device.Candidate.{
  is_zone, clear_auto_pending, clear_candidate, dest_zone, is_ready, record_candidate,
  defer_auto_run, write_auto_run, record_zone_candidate,
}

-- what holds of the pending zone and of the candidate: a pending zone is named, and it is named only
-- while it is pending; a zone is pending only while the automatic runs are on; a candidate that is ready has a destination on the device
pub record IsConsistent (g : Geometry) (c : ZoneCompaction) : Type 0 where
  pub named : c.auto_pending ≡ true → c.auto_pending_zone ≢ none
  pub idle : c.auto_pending ≡ false → c.auto_pending_zone ≡ none
  pub on : c.auto_pending ≡ true → c.auto_run ≡ true
  pub ready : c.candidate_ready ≡ true → c.candidate_dest_zone ≢ none

module _ (g : Geometry) where
  pub clear_auto_pending-IsConsistent :
      (zone : Option ℕ) (c : ZoneCompaction)
      → IsConsistent g c
      → IsConsistent g (clear_auto_pending zone c)
  unfolding clear_auto_pending
  clear_auto_pending-IsConsistent none c h = record {
    named = λ e. absurd (ground (arith, e));
    idle = λ e. refl;
    on = λ e. absurd (ground (arith, e));
    ready = h.ready;
  }
  clear_auto_pending-IsConsistent (some zone_idx) c h =
      elim (Bool-cases (is_zone zone_idx c.auto_pending_zone)) [
        | inl same ↦ rw same (record {
          named = λ e. absurd (ground (arith, e));
          idle = λ e. refl;
          on = λ e. absurd (ground (arith, e));
          ready = h.ready;
        })
        | inr other ↦ rw other h
      ]

  pub clear_candidate-IsConsistent :
      (zone_idx : ℕ) (c : ZoneCompaction)
      → IsConsistent g c
      → IsConsistent g (clear_candidate zone_idx c)
  unfolding clear_candidate
  clear_candidate-IsConsistent zone_idx c h =
      elim (Bool-cases (is_zone zone_idx c.candidate_zone)) [
        | inl same ↦ rw same (
            clear_auto_pending-IsConsistent (some zone_idx) _ (record {
              named = h.named;
              idle = h.idle;
              on = h.on;
              ready = λ e. absurd (ground (arith, e));
            }))
        | inr other ↦ rw other h
      ]

  ready_dest :
      (zones : ℕ → Zone) (zone_idx : ℕ)
      → is_ready g zones zone_idx ≡ true
      → dest_zone g zone_idx ≢ none
  unfolding is_ready
  ready_dest zones zone_idx ready none_left = ground (arith, ready, none_left)

  pub record_candidate-IsConsistent :
      (zones : Option (ℕ → Zone)) (zone_idx : ℕ) (c : ZoneCompaction)
      → IsConsistent g c
      → IsConsistent g (record_candidate g zones zone_idx c)
  unfolding record_candidate
  record_candidate-IsConsistent none zone_idx c h = h
  record_candidate-IsConsistent (some zones) zone_idx c h =
      elim (Bool-cases (leb g.num_zones zone_idx)) [
        | inl outside ↦ rw outside h
        | inr inside ↦ elim (Bool-cases (ltb (zones zone_idx).z_map_size total_items)) [
          | inl room ↦ rw (inside, room) h
          | inr full ↦
              rw (inside, full)
                (record {
                  named = h.named;
                  idle = h.idle;
                  on = h.on;
                  ready = ready_dest zones zone_idx;
                })
        ]
      ]

  defer_auto_run-IsConsistent :
      (zone_idx : ℕ) (c : ZoneCompaction)
      → IsConsistent g c
      → IsConsistent g (defer_auto_run zone_idx c)
  unfolding defer_auto_run
  defer_auto_run-IsConsistent zone_idx c h = elim (Bool-cases (not c.auto_run || c.auto_running)) [
    | inl off ↦ rw off h
    | inr on ↦
        elim (Bool-cases (not (is_zone zone_idx c.candidate_zone) || not c.candidate_ready)) [
          | inl early ↦ rw (on, early) h
          | inr ready ↦ elim (Bool-cases (c.auto_pending && is_zone zone_idx c.auto_pending_zone)) [
            | inl pending ↦ rw (on, ready, pending) h
            | inr fresh ↦
                rw (on, ready, fresh)
                  (record {
                    named = λ e e'. ground (arith, e');
                    idle = λ e. absurd (ground (arith, e));
                    on = λ e'. ground (arith, on);
                    ready = h.ready;
                  })
          ]
        ]
  ]

  pub no_compaction-IsConsistent : IsConsistent g no_compaction
  no_compaction-IsConsistent = record {
    named = λ e. absurd (ground (arith, e));
    idle = λ e. refl;
    on = λ e. absurd (ground (arith, e));
    ready = λ e. absurd (ground (arith, e));
  }

  pub cleared-IsConsistent :
      (s : State) (c : ZoneCompaction) → IsConsistent g c → IsConsistent g (cleared s c)
  unfolding cleared
  cleared-IsConsistent s c h = elim (Bool-cases s.meta.initialized) [
    | inl here ↦ rw here h
    | inr fresh ↦ rw fresh no_compaction-IsConsistent
  ]

  candidate_IsConsistent :
      (candidate : Option ℕ) (c : ZoneCompaction)
      → IsConsistent g c
      → (let c' : ZoneCompaction = elim candidate [
        | none ↦ c
        | some zone_idx ↦ defer_auto_run zone_idx c
      ] in
          IsConsistent g c')
  candidate_IsConsistent none c h = h
  candidate_IsConsistent (some zone_idx) c h = defer_auto_run-IsConsistent zone_idx c h

  pub write_auto_run-IsConsistent :
      (enabled : ℕ) (d : Device)
      → IsConsistent g d.compaction
      → IsConsistent g (write_auto_run enabled d).compaction
  unfolding write_auto_run clear_auto_pending
  write_auto_run-IsConsistent enabled d h =
      let c = cleared d.index d.compaction in
      let given = cleared-IsConsistent d.index d.compaction h in
      elim (Bool-cases (ltb 1 enabled)) [
        | inl wrong ↦ rw wrong h
        | inr right ↦ elim (Bool-cases (enabled == 0)) [
          | inl off ↦
              rw (right, off)
                (record {
                  named = λ e. absurd (ground (arith, e));
                  idle = λ e. refl;
                  on = λ e. absurd (ground (arith, e));
                  ready = given.ready;
                })
          | inr on ↦
              let base : IsConsistent g (record c { auto_run = true }) = record {
                named = given.named;
                idle = given.idle;
                on = λ e. refl;
                ready = given.ready;
              } in
              rw (right, on)
                (candidate_IsConsistent c.candidate_zone (record c { auto_run = true }) base)
        ]
      ]

  pub record_zone_candidate-IsConsistent :
      (zone_idx : ℕ) (d : Device)
      → IsConsistent g d.compaction
      → IsConsistent g (record_zone_candidate g zone_idx d).compaction
  unfolding record_zone_candidate
  record_zone_candidate-IsConsistent zone_idx d h = defer_auto_run-IsConsistent zone_idx _ (
      record_candidate-IsConsistent d.index.zones zone_idx _
        (cleared-IsConsistent d.index d.compaction h))
