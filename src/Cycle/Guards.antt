-- ===== src/Cycle/Guards.antt =====
-- The guards of `DecideRenewalCycle`: what a decision to act tells of the snapshot.
use rootwell.Prelude.{
  or_parts, not_parts, ltb-false, ℕ, zero, suc, ◌≤◌, ◌≡◌, refl, sym, subst, ◌∙◌, ◌⊎◌, inl, inr,
  Bool, true, false, not, ◌&&◌, ◌||◌, none, some, List, arith, ltb, ◌==◌, if◌then◌else◌, get_elem?,
  all,
}
use rootwell.Prelude.Bytes.{Bytes, bytes_eq}
use rootwell.Clock.{Instant, years}
use rootwell.Fingerprint.{valid_fingerprint}
use rootwell.Dns.{is_empty}
use rootwell.Cycle.{Action, Reason, Decision, RowStatus, Snapshot}
use rootwell.Cycle.Rows.{choose, Scan, stopped, scanned, scan, row_step, skip}
use rootwell.Cycle.Rows.Held.{Clear, scan-Clear}
use rootwell.Cycle.Rows.Named.{Picked, scan-Picked, scan-skip, scan-stopped}
use rootwell.Cycle.Decide.{
  in_order, before_order, in_order, before_order, pause_if, in_zone, saved, bound, after_rows,
  by_rows, finish, unsaved, decide, cycle_events, cycle_bytes,
}

-- Every action but the pause and the wait.
abbrev pub acts : Action → Bool
acts Action.pause = false
acts Action.wait = false
acts _ = true

pub pause_if-acts :
    (test : Bool) (reason : Reason) (rest : Decision)
    → acts (pause_if test reason rest).action ≡ true
    → (test ≡ false) × (pause_if test reason rest ≡ rest) × (acts rest.action ≡ true)
unfolding pause_if
pause_if-acts true reason rest h = cc
pause_if-acts false reason rest h = (refl, refl, h)

-- What every action needs of the snapshot, the clock and the budget.
pub record Admitted (canonical : List Bytes → Bool) (s : Snapshot) (events bytes : ℕ)
    (now : Instant) : Type 0 where
  clock : years 2020 2100 now ≡ true
  saved_once : (s.generation == 0) ≡ false
  budget : (1 ≤ events) × (events ≤ cycle_events) × (1 ≤ bytes) × (bytes ≤ cycle_bytes)
  source : valid_fingerprint s.fingerprint ≡ true
  same_source : bytes_eq s.timing.fingerprint s.fingerprint ≡ true
  names : canonical s.domains ≡ true
  account : s.account_ready ≡ true
  alone : s.other_pending ≡ false
  configured : ((s.config_generation == 0) ≡ false) × (is_empty s.zone ≡ false)
  zone : all (in_zone s.zone) s.domains ≡ true

pub decide-Admitted :
    (canonical : List Bytes → Bool) (s : Snapshot) (events bytes : ℕ) (now : Instant)
    → acts (decide canonical s events bytes now).action ≡ true
    → Admitted canonical s events bytes now
      × (decide canonical s events bytes now
          ≡ (if saved s then by_rows s true now else unsaved s events bytes now))
unfolding decide
decide-Admitted canonical s events bytes now h =
    let tail = if saved s then by_rows s true now else unsaved s events bytes now in
    let foreign = not (all (in_zone s.zone) s.domains) in
    let r5 = pause_if foreign Reason.dns_zone_mismatch tail in
    let bare = s.config_generation == 0 || is_empty s.zone in
    let r4 = pause_if bare Reason.dns_configuration r5 in
    let r3 = pause_if s.other_pending Reason.other_work_pending r4 in
    let r2 = pause_if (not s.account_ready) Reason.account_unavailable r3 in
    let odd =
      not (valid_fingerprint s.fingerprint)
      || not (bytes_eq s.timing.fingerprint s.fingerprint)
      || not (canonical s.domains) in
    let r1 = pause_if odd Reason.invalid_state r2 in
    let out =
      not (years 2020 2100 now)
      || s.generation == 0
      || ltb events 1
      || ltb cycle_events events
      || ltb bytes 1
      || ltb cycle_bytes bytes in
    let (a, p, h1) = pause_if-acts out Reason.invalid_state r1 h in
    let (b, q, h2) = pause_if-acts odd Reason.invalid_state r2 h1 in
    let (c, r, h3) = pause_if-acts (not s.account_ready) Reason.account_unavailable r3 h2 in
    let (d, t, h4) = pause_if-acts s.other_pending Reason.other_work_pending r4 h3 in
    let (e, u, h5) = pause_if-acts bare Reason.dns_configuration r5 h4 in
    let (f, v, h6) = pause_if-acts foreign Reason.dns_zone_mismatch tail h5 in
    let (a1, most) = or_parts _ _ a in
    let (a2, least) = or_parts _ _ a1 in
    let (a3, high) = or_parts _ _ a2 in
    let (a4, low) = or_parts _ _ a3 in
    let (clock, begun) = or_parts _ _ a4 in
    let (b1, names) = or_parts _ _ b in
    let (source, same) = or_parts _ _ b1 in
    (
      record {
        clock = not_parts _ clock;
        saved_once = begun;
        budget = (
          ltb-false events 1 low,
          ltb-false cycle_events events high,
          ltb-false bytes 1 least,
          ltb-false cycle_bytes bytes most,
        );
        source = not_parts _ source;
        same_source = not_parts _ same;
        names = not_parts _ names;
        account = not_parts _ c;
        alone = d;
        configured = or_parts _ _ e;
        zone = not_parts _ f;
      },
      p ∙ q ∙ r ∙ t ∙ u ∙ v,
    )

-- What an action for a certificate that is not saved needs.
pub record Roomy (s : Snapshot) (events bytes : ℕ) : Type 0 where
  room_events : events ≤ s.events_left
  room_generations : events ≤ s.generations_left
  room_bytes : bytes ≤ s.bytes_left
  room_records : 1 ≤ s.records_left
  settled_timing : s.timing.pending ≡ false
  open_provider : s.timing.blocked ≡ false
  living : (not (bound s) && (s.timing.expired || s.timing.superseded)) ≡ false

pub unsaved-Roomy :
    (s : Snapshot) (events bytes : ℕ) (now : Instant)
    → acts (unsaved s events bytes now).action ≡ true
    → Roomy s events bytes
      × (unsaved s events bytes now ≡ (if bound s then in_order s now else before_order s now))
unfolding unsaved
unsaved-Roomy s events bytes now h =
    let tail = if bound s then in_order s now else before_order s now in
    let r3 = pause_if s.timing.blocked Reason.provider_maintenance tail in
    let r2 = pause_if s.timing.pending Reason.timing_interrupted r3 in
    let ended = not (bound s) && (s.timing.expired || s.timing.superseded) in
    let full =
      ltb s.events_left events
      || ltb s.generations_left events
      || ltb s.bytes_left bytes
      || ltb s.records_left 1 in
    let r1 = pause_if ended Reason.source_ended r2 in
    let (a, p, h1) = pause_if-acts full Reason.storage_capacity r1 h in
    let (b, q, h2) = pause_if-acts ended Reason.source_ended r2 h1 in
    let (c, r, h3) = pause_if-acts s.timing.pending Reason.timing_interrupted r3 h2 in
    let (d, t, h4) = pause_if-acts s.timing.blocked Reason.provider_maintenance tail h3 in
    let (a1, a5) = or_parts _ _ a in
    let (a2, a4) = or_parts _ _ a1 in
    let (a0, a3) = or_parts _ _ a2 in
    (
      record {
        room_events = ltb-false s.events_left events a0;
        room_generations = ltb-false s.generations_left events a3;
        room_bytes = ltb-false s.bytes_left bytes a4;
        room_records = ltb-false s.records_left 1 a5;
        settled_timing = c;
        open_provider = d;
        living = b;
      },
      p ∙ q ∙ r ∙ t,
    )

-- Every row of the plan in turn.
abbrev pub Rows : Snapshot → (RowStatus → Type 0) → Type 0
Rows s P = (j : ℕ) (r : RowStatus) → get_elem? s.rows j ≡ some r → P r

pausing : (d : Decision) → d.action ≡ Action.pause → acts d.action ≡ true → ⊥
pausing d e h = cc

decision_absurd : {d : Decision} → none ≡ some d → ⊥
decision_absurd e = cc

after_rows-acts :
    (s : Snapshot) (done : Bool) (x : Scan)
    → acts (after_rows s done x).action ≡ true
    → ((d : Decision) × (x ≡ stopped d) × (acts d.action ≡ true))
      ⊎ ((d : Decision) × (x ≡ scanned (some d) 0) × (after_rows s done x ≡ d))
      ⊎ ((x ≡ scanned none 0)
          × (after_rows s done x
              ≡ (if done then choose Action.complete else finish s s.order_state)))
unfolding after_rows
after_rows-acts s done (stopped d) h = inl (d, refl, h)
after_rows-acts s done (scanned none zero) h = inr (inr (refl, refl))
after_rows-acts s done (scanned (some d) zero) h = inr (inl (d, refl, refl))
after_rows-acts s done (scanned sel (suc n)) h = absurd (waiting h)
  where
    waiting : acts (after_rows s done (scanned sel (suc n))).action ≡ true → ⊥
    waiting e = ground arith

-- The ends of an action that the rows decide: a row of its own, or the step of the order where
-- no row asks for anything.
pub by_rows-cases :
    (s : Snapshot) (done : Bool) (now : Instant)
    → acts (by_rows s done now).action ≡ true
    → Rows s (λ r. Clear now r (row_step done s.order_state r))
      × (Picked done s.order_state now 0 s.rows (by_rows s done now)
          ⊎ ((by_rows s done now
                ≡ (if done then choose Action.complete else finish s s.order_state))
              × Rows s (λ r. row_step done s.order_state r ≡ skip)))
unfolding by_rows
by_rows-cases s done now h =
    let x = scan done s.order_state now 0 s.rows none 0 in
    elim (after_rows-acts s done x h) [
      | inl (d, p, a) ↦
          absurd (pausing d (scan-stopped done s.order_state now 0 s.rows none 0 d p) a)
      | inr (inl (d, p, q)) ↦ (
        scan-Clear done s.order_state now 0 s.rows none (some d) 0 0 p refl,
        inl (
            subst (Picked done s.order_state now 0 s.rows) (sym q)
              (picked_new (scan-Picked done s.order_state now 0 s.rows none d 0 0 p))),
      )
      | inr (inr (p, q)) ↦ (
        scan-Clear done s.order_state now 0 s.rows none none 0 0 p refl,
        inr (q, scan-skip done s.order_state now 0 s.rows none 0 0 p refl),
      )
    ]
  where
    picked_new :
        {d : Decision}
        → (none ≡ some d) ⊎ Picked done s.order_state now 0 s.rows d
        → Picked done s.order_state now 0 s.rows d
    picked_new (inl e) = absurd (decision_absurd e)
    picked_new (inr p) = p
