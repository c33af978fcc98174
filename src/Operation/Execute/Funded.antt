-- ===== src/Operation/Execute/Funded.antt =====
-- Why a begun DNS attempt of internal/inventorystore can save its outcome, after the lemmas of
-- Sealing on one write.
use rootwell.Prelude.{
  ℕ, ◌<◌, ◌≡◌, refl, ap, subst, inl, inr, true, false, not, some, [], ◌∷◌, arith, get_elem?,
  get_elem?-set_self, set, length-append,
}
use rootwell.Dns.{Plan, Row, Row}
use rootwell.Image.{
  Image, max_records, refuse_if, err, err, limit, limit, refuse_if-eq-err, >>=-eq-err, invalid,
  invalid, ok,
}
use rootwell.Image.Reserve.{total_reserve}
use rootwell.Image.History.{event_of, event_refused_limits, total_reserve-with_event}
use rootwell.Operation.{
  Mode, action_of, Codec, seal_plan, Instant, Lease, lease_for, lease_for, begin_operation,
}
use rootwell.Operation.Settle.Frees.{Due, wait_row-frees, settle_row-frees}
use rootwell.Operation.Settle.{wait_row, settle_row}
use rootwell.Operation.Execute.{
  wait_action, World, Reply, failed, returned, executable, allowed, checkpoints, conclude,
  execute_at, execute_on, execute, result_action,
}
use rootwell.Operation.Begin.Change.{begin_row-Pending}
use rootwell.Operation.Begin.{planned, Begun, begin_operation-Begun}
use rootwell.Operation.Execute.Sealing.{
  Roomy, written, TooLong, seal_limit, strip, settle_row_not_limited, plan_frees,
}

module _ (codec : Codec) (m : Image) (p : Plan) (r : Row) (l : Lease) (w : World) (roomy : Roomy m)
    (has_plan : m.plan ≡ some p) (has_row : get_elem? p.rows l.index ≡ some r) (due : Due l r) where
  conclude_limit :
      (reply : Reply)
      → w.reply ≡ reply
      → executable l r ≡ true
      → conclude codec m p r l w reply ≡ err limit
      → TooLong codec m l w
  unfolding conclude
  conclude_limit (failed hint) e ex h = record {
    plan = p;
    row = r;
    next =
        written m (record p { rows = set p.rows l.index (wait_row l r hint w.saved_at) })
          (wait_action l) w.saved_at;
    has_plan = has_plan;
    has_row = has_row;
    outcome = inl (hint, e, refl);
    long =
        seal_limit codec m p _ _ _ roomy has_plan
          (plan_frees p l.index r _ has_row (wait_row-frees l r hint w.saved_at ex due)) h;
  }
  conclude_limit (returned seen) e ex h =
      let passed = checkpoints l r p m.order false w.asked in
      elim (>>=-eq-err (settle_row l r seen passed w.seen_at w.saved_at)
        (λ r'. refuse_if (not (allowed l r p m.order w.saving)) invalid (
          seal_plan codec m (record p { rows = set p.rows l.index r' }) (result_action l)
            w.saved_at))
        h) [
          | inl wrong ↦ absurd (settle_row_not_limited l r seen passed w.seen_at w.saved_at wrong)
          | inr (r', done, h1) ↦
              let (_, h2) = strip _ _ h1 in
              record {
                plan = p;
                row = r;
                next =
                    written m (record p { rows = set p.rows l.index r' }) (result_action l)
                      w.saved_at;
                has_plan = has_plan;
                has_row = has_row;
                outcome = inr (seen, r', e, done, refl);
                long =
                    seal_limit codec m p _ _ _ roomy has_plan
                      (plan_frees p l.index r r' has_row
                        (settle_row-frees l r r' seen passed w.seen_at w.saved_at done due))
                      h2;
              }
        ]

  execute_at_limit : execute_at codec m p (some r) l w ≡ err limit → TooLong codec m l w
  unfolding execute_at
  execute_at_limit h =
      let (ex, h1) = strip _ _ h in
      let (_, h2) = strip _ _ h1 in
      let (_, h3) = strip _ _ h2 in
      let (_, h4) = strip _ _ h3 in
      let (_, h5) = strip _ _ h4 in conclude_limit w.reply refl (ground (arith, ex)) h5

  pub execute_limit : (execute codec m l w).1 ≡ err limit → TooLong codec m l w
  unfolding execute execute_on
  execute_limit h =
      let (_, h1) = strip _ _ h in
      elim (refuse_if-eq-err _ _ _ limit h1) [
        | inl (_, wrong) ↦ absurd (cc wrong)
        | inr (_, h2) ↦
            let (_, h3) = strip _ _ h2 in
            execute_at_limit (
              subst (λ o. execute_at codec m p o l w ≡ err limit) has_row
                (subst (λ o. execute_on codec m o l w ≡ err limit) has_plan h3))
      ]

total_reserve-planned :
    (m : Image) (p : Plan)
    → total_reserve (planned m p) ≡ total_reserve (record m { plan = some p })
unfolding total_reserve
total_reserve-planned m p = refl

-- The image that a begin leaves is roomy, and its leased row waits for its outcome.
Begun-Roomy :
    (codec : Codec) (m m' : Image) (expected index : ℕ) (mode : Mode) (now : Instant) (jitter : ℕ)
    (l : Lease)
    → (m.issuance_pending ≡ true → m.records < max_records)
    → Begun codec m expected index mode now jitter m' l
    → Roomy m'
Begun-Roomy codec m m' expected index mode now jitter l certificates b =
    let p' = record b.plan { rows = set b.plan.rows index b.row' } in
    let e = event_of (planned m p') (action_of mode) (p'.account ∷ []) now in
    let (_, _, bounded, _) = event_refused_limits (planned m p') b.sealed.room in
    let same = total_reserve-planned m p' in
    rw b.sealed.image (record {
      generations = rw (total_reserve-with_event (planned m p') e) (omega (arith, b.room, same));
      events =
          rw (total_reserve-with_event (planned m p') e)
            (omega (arith, b.room, same, length-append m.history (e ∷ [])));
      bounded = rw (total_reserve-with_event (planned m p') e) bounded;
      certificates = certificates;
    })

Begun-Due :
    (codec : Codec) (m m' : Image) (expected index : ℕ) (mode : Mode) (now : Instant) (jitter : ℕ)
    (l : Lease) (b : Begun codec m expected index mode now jitter m' l)
    → Due l b.row'
unfolding lease_for
Begun-Due codec m m' expected index mode now jitter l b =
    let c = begin_row-Pending b.row b.row' mode now jitter b.mode_ok b.changed in
    rw b.lease (record { phase = c.phase; open_outcome = c.outcome })

Begun-row :
    (codec : Codec) (m m' : Image) (expected index : ℕ) (mode : Mode) (now : Instant) (jitter : ℕ)
    (l : Lease) (b : Begun codec m expected index mode now jitter m' l)
    → get_elem? (set b.plan.rows index b.row') l.index ≡ some b.row'
unfolding lease_for
Begun-row codec m m' expected index mode now jitter l b =
    rw b.lease (get_elem?-set_self b.plan.rows index b.row b.row' b.has_row)

-- When an attempt has been begun, its execution is never refused for want of events, generations or
-- record slots, whatever the provider, the clock and the caller do: if it is refused for a limit,
-- then the very image that it would write, with the row that the answers lead to and its event, is
-- too long. A pending issuance must have kept a record slot.
pub begun_can_save :
    (codec : Codec) (m m' : Image) (expected index : ℕ) (mode : Mode) (now : Instant) (jitter : ℕ)
    (l : Lease) (w : World)
    → begin_operation codec m expected index mode now jitter ≡ ok (m', l)
    → (m.issuance_pending ≡ true → m.records < max_records)
    → (execute codec m' l w).1 ≡ err limit
    → TooLong codec m' l w
begun_can_save codec m m' expected index mode now jitter l w h certificates refused =
    let b = begin_operation-Begun codec m expected index mode now jitter m' l h in
    let p' = record b.plan { rows = set b.plan.rows index b.row' } in
    execute_limit codec m' p' b.row' l w
      (Begun-Roomy codec m m' expected index mode now jitter l certificates b)
      (ap (λ (x : Image). x.plan) b.sealed.image)
      (Begun-row codec m m' expected index mode now jitter l b)
      (Begun-Due codec m m' expected index mode now jitter l b) refused
