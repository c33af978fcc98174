-- ===== src/Cycle/Before.antt =====
-- The stage of `DecideRenewalCycle` before the source has an order of its own.
use rootwell.Prelude.{
  ltb-false, not_parts, ◌≤◌, ◌≡◌, refl, sym, subst, ◌∙◌, ◌⊎◌, inl, inr, Bool, true, false, not,
  ◌&&◌, none, ltb, if◌then◌else◌, Bool-cases, all, if-true, if-false, str_eq,
}
use rootwell.Clock.{Instant}
use rootwell.Cycle.{Moment, unset, due, garbled, Action, Reason, Decision, Snapshot}
use rootwell.Cycle.Rows.{wait_until, choose, wait}
use rootwell.Cycle.Decide.{
  is_unset, earlier_check, pause_if, unless_waiting, not_begun, before_order, renewal_hold,
  settled_row,
}
use rootwell.Cycle.Guards.{acts, pause_if-acts}
use rootwell.Cycle.Stages.{unless_waiting-acts}

-- The last tests of `before_order`.
abbrev timing_choice : Snapshot → Instant → Decision
timing_choice s now =
    if not s.timing.prepared
    then choose Action.timing
    else pause_if (not (str_eq s.timing.state "ari") && not (str_eq s.timing.state "unsupported"))
        Reason.timing_unconfirmed
        (pause_if (is_unset s.timing.effective_at) Reason.timing_unconfirmed
          (renewal_hold s now (wait s.timing.effective_at now)))

-- What the actions before an order need: no DNS record of an earlier one is left, the provider may
-- be asked, the order of another source can be closed, and slots for closing are free.
pub record Idle (s : Snapshot) (now : Instant) : Type 0 where
  closable : (if not (not_begun s.order_state) then 2 else 1) ≤ s.closures_left
  closed : (not (not_begun s.order_state) && not s.close_available) ≡ false
  clean : all settled_row s.rows ≡ true
  provider : wait s.timing.provider_not_before now ≡ none

-- The window of the source has begun.
pub record Ripe (s : Snapshot) (now : Instant) : Type 0 where
  prepared : s.timing.prepared ≡ true
  confirmed : (str_eq s.timing.state "ari" ≡ true) ⊎ (str_eq s.timing.state "unsupported" ≡ true)
  begun : (t : Instant) × (s.timing.effective_at ≡ due t) × (t ≤ now)

waiting-acts : (reason : Reason) (m : Moment) → acts (wait_until reason m).action ≡ true → ⊥
waiting-acts reason m h = cc

renewal_hold-cases :
    (s : Snapshot) (now : Instant) (m : Moment)
    → is_unset m ≡ false
    → acts (renewal_hold s now (wait m now)).action ≡ true
    → (renewal_hold s now (wait m now) ≡ choose Action.timing)
      ⊎ (((t : Instant) × (m ≡ due t) × (t ≤ now))
          × (renewal_hold s now (wait m now) ≡ (
              if not (not_begun s.order_state) then choose Action.close else choose Action.order)))
unfolding renewal_hold
renewal_hold-cases s now unset u h = cc
renewal_hold-cases s now garbled u h = cc
renewal_hold-cases s now (due t) u h = elim (Bool-cases (ltb now t)) [
  | inr e ↦ inr ((t, refl, ltb-false now t e), rw e refl)
  | inl e ↦ elim (Bool-cases s.timing.can_read) [
    | inl c ↦ inl (rw e (if-true s.timing.can_read _ _ c))
    | inr c ↦
        let stamp = earlier_check s.timing.next_check now (due t) in
        let held = wait_until Reason.renewal_wait stamp in
        absurd (
          waiting-acts Reason.renewal_wait stamp (
            subst (λ (d : Decision). acts d.action ≡ true)
              (if-false s.timing.can_read (choose Action.timing) held c) (rw e at h)))
  ]
]

-- The two actions once the source is ripe.
abbrev Ripened : Snapshot → Instant → Decision → Type 0
Ripened s now d =
    Ripe s now
    × (((not_begun s.order_state ≡ true) × (d ≡ choose Action.order))
        ⊎ ((not_begun s.order_state ≡ false) × (d ≡ choose Action.close)))

Ripe-choice :
    (s : Snapshot) (now : Instant) (d : Decision)
    → Ripe s now
    → d ≡ (if not (not_begun s.order_state) then choose Action.close else choose Action.order)
    → Ripened s now d
Ripe-choice s now d ripe e = elim (Bool-cases (not_begun s.order_state)) [
  | inl b ↦ (ripe, inl (b, e ∙ rw b refl))
  | inr b ↦ (ripe, inr (b, e ∙ rw b refl))
]

one_of : (a b : Bool) → (not a && not b) ≡ false → (a ≡ true) ⊎ (b ≡ true)
one_of true b h = inl refl
one_of false true h = inr refl
one_of false false h = cc

timing_choice-cases :
    (s : Snapshot) (now : Instant)
    → acts (timing_choice s now).action ≡ true
    → (timing_choice s now ≡ choose Action.timing) ⊎ Ripened s now (timing_choice s now)
timing_choice-cases s now h = elim (Bool-cases s.timing.prepared) [
  | inr u ↦ inl (if-true (not s.timing.prepared) _ _ (rw u refl))
  | inl u ↦
      let odd = not (str_eq s.timing.state "ari") && not (str_eq s.timing.state "unsupported") in
      let c3 = renewal_hold s now (wait s.timing.effective_at now) in
      let c2 = pause_if (is_unset s.timing.effective_at) Reason.timing_unconfirmed c3 in
      let c1 = pause_if odd Reason.timing_unconfirmed c2 in
      let p0 = if-false (not s.timing.prepared) (choose Action.timing) c1 (rw u refl) in
      let h0 = subst (λ (d : Decision). acts d.action ≡ true) p0 h in
      let (a1, p1, h1) = pause_if-acts odd Reason.timing_unconfirmed c2 h0 in
      let (a2, p2, h2) =
        pause_if-acts (is_unset s.timing.effective_at) Reason.timing_unconfirmed c3 h1 in
      elim (renewal_hold-cases s now s.timing.effective_at a2 h2) [
        | inl q ↦ inl (p0 ∙ p1 ∙ p2 ∙ q)
        | inr (t, q) ↦ inr (
            Ripe-choice s now (timing_choice s now)
              (record { prepared = u; confirmed = one_of _ _ a1; begun = t }) (p0 ∙ p1 ∙ p2 ∙ q))
      ]
]

pub before_order-cases :
    (s : Snapshot) (now : Instant)
    → acts (before_order s now).action ≡ true
    → Idle s now
      × ((before_order s now ≡ choose Action.timing) ⊎ Ripened s now (before_order s now))
unfolding before_order
before_order-cases s now h =
    let begun = not (not_begun s.order_state) in
    let c4 = timing_choice s now in
    let c3 = unless_waiting (wait s.timing.provider_not_before now) c4 in
    let c2 = pause_if (not (all settled_row s.rows)) Reason.dns_cleanup_due c3 in
    let c1 = pause_if (begun && not s.close_available) Reason.request_active c2 in
    let few = ltb s.closures_left (if begun then 2 else 1) in
    let (a1, p1, h1) = pause_if-acts few Reason.request_capacity c1 h in
    let (a2, p2, h2) = pause_if-acts (begun && not s.close_available) Reason.request_active c2 h1 in
    let (a3, p3, h3) = pause_if-acts (not (all settled_row s.rows)) Reason.dns_cleanup_due c3 h2 in
    let (a4, p4, h4) = unless_waiting-acts s.timing.provider_not_before now c4 h3 in
    let p = p1 ∙ p2 ∙ p3 ∙ p4 in
    (
      record {
        closable = ltb-false s.closures_left (if begun then 2 else 1) a1;
        closed = a2;
        clean = not_parts _ a3;
        provider = a4;
      },
      elim (timing_choice-cases s now h4) [
        | inl q ↦ inl (p ∙ q)
        | inr r ↦ inr (subst (Ripened s now) (sym p) r)
      ],
    )
