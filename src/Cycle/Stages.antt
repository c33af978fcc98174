-- ===== src/Cycle/Stages.antt =====
-- The stage of `DecideRenewalCycle` within the order of the source.
use rootwell.Prelude.{
  leb-false, ltb-false, ◌≤◌, ◌<◌, ◌≡◌, refl, ◌∙◌, ◌⊎◌, inl, inr, true, false, not, ◌&&◌, none, ltb,
  leb, if◌then◌else◌, Bool-cases, if-true, if-false, str_eq,
}
use rootwell.Clock.{Instant}
use rootwell.Image.{OrderState}
use rootwell.Cycle.{Moment, unset, due, garbled, Action, Reason, Decision, Snapshot}
use rootwell.Cycle.Rows.{choose, wait, takes_dns}
use rootwell.Cycle.Decide.{
  is_known, unconfirmed, is_known, unconfirmed, pause_if, unless_waiting, until, order_step,
  by_rows, in_order,
}
use rootwell.Cycle.Guards.{acts, pause_if-acts}

-- A deadline that is not set, or still ahead.
Ahead : Moment → Instant → Type 0
Ahead m now = (m ≡ unset) ⊎ ((t : Instant) × (m ≡ due t) × (now < t))

until-acts :
    (m : Moment) (now : Instant) (rest : Decision)
    → acts (until m now rest).action ≡ true
    → Ahead m now × (until m now rest ≡ rest) × (acts rest.action ≡ true)
unfolding until Ahead
until-acts unset now rest h = (inl refl, refl, h)
until-acts garbled now rest h = cc
until-acts (due t) now rest h =
    let (late, p, h1) = pause_if-acts (leb t now) Reason.request_expired rest h in
    (inr (t, refl, leb-false t now late), p, h1)

order_step-acts :
    (state : OrderState) (rest : Decision)
    → acts (order_step state rest).action ≡ true
    → (order_step state rest ≡ rest) × (acts rest.action ≡ true)
unfolding order_step
order_step-acts OrderState.not_started rest h = cc
order_step-acts OrderState.request_pending rest h = cc
order_step-acts OrderState.order_known rest h = (refl, h)
order_step-acts OrderState.dns_ready rest h = (refl, h)
order_step-acts OrderState.dns_acknowledged rest h = (refl, h)
order_step-acts OrderState.validation_pending rest h = (refl, h)
order_step-acts OrderState.validation_waiting rest h = (refl, h)
order_step-acts OrderState.validation_failed rest h = cc
order_step-acts OrderState.domain_verified rest h = (refl, h)

pub unless_waiting-acts :
    (m : Moment) (now : Instant) (rest : Decision)
    → acts (unless_waiting (wait m now) rest).action ≡ true
    → (wait m now ≡ none) × (unless_waiting (wait m now) rest ≡ rest) × (acts rest.action ≡ true)
unfolding unless_waiting
unless_waiting-acts unset now rest h = (refl, refl, h)
unless_waiting-acts garbled now rest h = cc
unless_waiting-acts (due t) now rest h = elim (Bool-cases (ltb now t)) [
  | inl e ↦ absurd (held (rw e at h))
  | inr e ↦ (rw e refl, rw e refl, rw e at h)
]
  where
    held : false ≡ true → ⊥
    held e = cc

-- What an action within the order needs of it.
pub record Current (s : Snapshot) (now : Instant) : Type 0 where
  closable : 1 ≤ s.closures_left
  order_ahead : Ahead s.order_expires now
  issuance_ahead : Ahead s.issuance_expires now
  provider : wait s.timing.provider_not_before now ≡ none

-- The last test of `in_order`.
abbrev order_choice : Snapshot → Instant → Decision
order_choice s now =
    if is_known s.order_state
    then choose Action.order_read
    else if s.required_dns && not s.dns_prepared && takes_dns s.order_state
    then choose Action.dns_plan
    else by_rows s false now

in_order-choice :
    (s : Snapshot) (now : Instant)
    → acts (in_order s now).action ≡ true
    → Current s now × (in_order s now ≡ order_choice s now)
unfolding in_order
in_order-choice s now h =
    let c7 = order_choice s now in
    let c6 = unless_waiting (wait s.timing.provider_not_before now) c7 in
    let c5 = pause_if (unconfirmed s.issuance) Reason.certificate_unconfirmed c6 in
    let c4 = order_step s.order_state c5 in
    let c3 = until s.issuance_expires now c4 in
    let c2 = until s.order_expires now c3 in
    let c1 = pause_if (str_eq s.close_reason "expired") Reason.request_expired c2 in
    let (a1, p1, h1) = pause_if-acts (ltb s.closures_left 1) Reason.request_capacity c1 h in
    let (a2, p2, h2) =
      pause_if-acts (str_eq s.close_reason "expired") Reason.request_expired c2 h1 in
    let (a3, p3, h3) = until-acts s.order_expires now c3 h2 in
    let (a4, p4, h4) = until-acts s.issuance_expires now c4 h3 in
    let (p5, h5) = order_step-acts s.order_state c5 h4 in
    let (a6, p6, h6) =
      pause_if-acts (unconfirmed s.issuance) Reason.certificate_unconfirmed c6 h5 in
    let (a7, p7, h7) = unless_waiting-acts s.timing.provider_not_before now c7 h6 in
    (
      record {
        closable = ltb-false s.closures_left 1 a1;
        order_ahead = a3;
        issuance_ahead = a4;
        provider = a7;
      },
      p1 ∙ p2 ∙ p3 ∙ p4 ∙ p5 ∙ p6 ∙ p7,
    )

pub in_order-cases :
    (s : Snapshot) (now : Instant)
    → acts (in_order s now).action ≡ true
    → Current s now
      × ((in_order s now ≡ choose Action.order_read)
          ⊎ (in_order s now ≡ choose Action.dns_plan)
          ⊎ (in_order s now ≡ by_rows s false now))
in_order-cases s now h =
    let (current, p) = in_order-choice s now h in
    (
      current,
      elim (Bool-cases (is_known s.order_state)) [
        | inl e ↦ inl (p ∙ if-true (is_known s.order_state) _ _ e)
        | inr e ↦
            let q = p ∙ if-false (is_known s.order_state) _ _ e in
            elim (Bool-cases (s.required_dns && not s.dns_prepared && takes_dns s.order_state)) [
              | inl d ↦ inr (
                  inl (
                    q
                    ∙ if-true (s.required_dns && not s.dns_prepared && takes_dns s.order_state) _ _
                        d))
              | inr d ↦ inr (
                  inr (
                    q
                    ∙ if-false (s.required_dns && not s.dns_prepared && takes_dns s.order_state) _ _
                        d))
            ]
      ],
    )
