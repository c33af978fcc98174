-- ===== src/Cycle/Choices.antt =====
-- `DecideRenewalCycle`: the conditions of its actions.
use rootwell.Prelude.{
  ℕ, ◌<◌, ◌≡◌, ap, subst, ◌∙◌, ◌⊎◌, inl, inr, Bool, true, false, none, some, List, arith,
  if◌then◌else◌, Bool-cases, get_elem?, if-true, if-false,
}
use rootwell.Prelude.Bytes.{Bytes}
use rootwell.Clock.{Instant}
use rootwell.Dns.{RowState, new, creating, created, borrowed}
use rootwell.Image.{OrderState}
use rootwell.Cycle.{Moment, Action, Decision, IssuanceState, RowStatus, Snapshot}
use rootwell.Cycle.Rows.{wait, wait, wait, takes_dns, skip, act, cleanup_step, setup_step, row_step}
use rootwell.Cycle.Decide.{
  saved, bound, decide, by_rows, in_order, before_order, unsaved, finish, issue, settled_row,
}
use rootwell.Cycle.Guards.{
  acts, Admitted, Roomy, Rows, decide-Admitted, unsaved-Roomy, by_rows-cases,
}

-- The stage that an action comes from.
abbrev Staged : Snapshot → ℕ → ℕ → Instant → Decision → Type 0
Staged s events bytes now d =
    ((saved s ≡ true) × (d ≡ by_rows s true now))
    ⊎ ((saved s ≡ false)
        × Roomy s events bytes
        × (((bound s ≡ true) × (d ≡ in_order s now))
            ⊎ ((bound s ≡ false) × (d ≡ before_order s now))))

stage-saved :
    (s : Snapshot) (events bytes : ℕ) (now : Instant) (d : Decision)
    → acts d.action ≡ true
    → d ≡ (if saved s then by_rows s true now else unsaved s events bytes now)
    → Staged s events bytes now d
stage-saved s events bytes now d h p = elim (Bool-cases (saved s)) [
  | inl e ↦ inl (e, p ∙ if-true (saved s) _ _ e)
  | inr e ↦
      let q = p ∙ if-false (saved s) _ _ e in
      let (roomy, r) =
        unsaved-Roomy s events bytes now (subst (λ (d : Decision). acts d.action ≡ true) q h) in
      elim (Bool-cases (bound s)) [
        | inl b ↦ inr (e, roomy, inl (b, q ∙ r ∙ if-true (bound s) _ _ b))
        | inr b ↦ inr (e, roomy, inr (b, q ∙ r ∙ if-false (bound s) _ _ b))
      ]
]

pub decide-Staged :
    (canonical : List Bytes → Bool) (s : Snapshot) (events bytes : ℕ) (now : Instant)
    → acts (decide canonical s events bytes now).action ≡ true
    → Admitted canonical s events bytes now
      × Staged s events bytes now (decide canonical s events bytes now)
decide-Staged canonical s events bytes now h =
    let (admitted, p) = decide-Admitted canonical s events bytes now h in
    (admitted, stage-saved s events bytes now (decide canonical s events bytes now) h p)

-- The actions that call no certificate authority.
abbrev pub cleans_up : Action → Bool
cleans_up Action.pause = true
cleans_up Action.wait = true
cleans_up Action.dns_check = true
cleans_up Action.dns_cleanup = true
cleans_up Action.complete = true
cleans_up _ = false

-- The actions of `setup_step`, and those of `finish`.
abbrev pub sets_up : Action → Bool
sets_up Action.dns_add = true
sets_up Action.dns_check = true
sets_up _ = false

abbrev pub finishes : Action → Bool
finishes Action.pause = true
finishes Action.ack = true
finishes Action.validate = true
finishes Action.validation_read = true
finishes Action.key = true
finishes Action.certificate = true
finishes Action.certificate_read = true
finishes _ = false

cleanup_step-cleans :
    (r : RowStatus) (state : RowState) (action : Action) (stamp : Moment) (n : ℕ)
    → cleanup_step r state ≡ act action stamp n false
    → (action ≡ Action.dns_cleanup) ⊎ (action ≡ Action.dns_check)
unfolding cleanup_step
cleanup_step-cleans r state action stamp n e = ground arith

setup_step-sets :
    (r : RowStatus) (order : OrderState) (state : RowState) (action : Action) (stamp : Moment)
    (n : ℕ)
    → setup_step r order state ≡ act action stamp n false
    → ((action ≡ Action.dns_add)
        × (state ≡ new)
        × (takes_dns order ≡ true)
        × (stamp ≡ r.not_before)
        × (n ≡ r.attempts)
        × (r.blocked ≡ false))
      ⊎ ((action ≡ Action.dns_check) × (state ≡ creating))
unfolding setup_step
setup_step-sets r order state action stamp n e = ground arith

setup_step-skip :
    (r : RowStatus) (order : OrderState) (state : RowState)
    → setup_step r order state ≡ skip
    → (state ≡ created) ⊎ (state ≡ borrowed)
unfolding setup_step
setup_step-skip r order state e = ground arith

cleanup_step-skip : (r : RowStatus) → cleanup_step r r.state ≡ skip → settled_row r ≡ true
unfolding cleanup_step
cleanup_step-skip r e = ground arith

issue-finishes : (state : IssuanceState) → finishes (issue state).action ≡ true
issue-finishes state = ground arith

pub finish-finishes : (s : Snapshot) (order : OrderState) → finishes (finish s order).action ≡ true
unfolding finish
finish-finishes s order = ground (arith, issue-finishes s.issuance)

-- The ends of an action on a saved certificate.
pub by_rows-done :
    (s : Snapshot) (now : Instant)
    → acts (by_rows s true now).action ≡ true
    → ((by_rows s true now).action ≡ Action.dns_cleanup)
      ⊎ ((by_rows s true now).action ≡ Action.dns_check)
      ⊎ (((by_rows s true now).action ≡ Action.complete) × Rows s (λ r. settled_row r ≡ true))
unfolding row_step
by_rows-done s now h =
    let (clear, ends) = by_rows-cases s true now h in
    elim ends [
      | inl p ↦
          elim (cleanup_step-cleans p.row p.row.state (by_rows s true now).action p.free.stamp
            p.free.count p.free.asks) [ inl a ↦ inl a | inr a ↦ inr (inl a) ]
      | inr (e, skips) ↦
          inr (inr (ap Decision.action e, λ j r g. cleanup_step-skip r (skips j r g)))
    ]

-- A row that a new DNS record is due at, under the first attempts and with nothing pending.
pub record Addable (s : Snapshot) (now : Instant) (d : Decision) : Type 0 where
  place : ℕ
  row : RowStatus
  named : d.index ≡ some place
  found : get_elem? s.rows place ≡ some row
  fresh : row.state ≡ new
  open_row : (row.attempts < 6) × (row.blocked ≡ false)
  undisputed : (row.recovery ≡ false) × (row.maintenance ≡ false)
  unheld : wait row.not_before now ≡ none
  takes : takes_dns s.order_state ≡ true

-- The ends of an action within the order.
pub by_rows-setup :
    (s : Snapshot) (now : Instant)
    → acts (by_rows s false now).action ≡ true
    → (((by_rows s false now).action ≡ Action.dns_add) × Addable s now (by_rows s false now))
      ⊎ ((by_rows s false now).action ≡ Action.dns_check)
      ⊎ ((by_rows s false now ≡ finish s s.order_state)
          × Rows s (λ r. (r.state ≡ created) ⊎ (r.state ≡ borrowed)))
unfolding row_step
by_rows-setup s now h =
    let (clear, ends) = by_rows-cases s false now h in
    let d = by_rows s false now in
    elim ends [
      | inl p ↦
          elim (setup_step-sets p.row s.order_state p.row.state d.action p.free.stamp p.free.count
            p.free.asks) [
              | inl (a, fresh, takes, stamp, count, blocked) ↦ inl (
                a,
                record {
                  place = p.place;
                  row = p.row;
                  named = p.named ∙ ap some (omega arith);
                  found = p.found;
                  fresh = fresh;
                  open_row = (subst (λ (n : ℕ). n < 6) count p.free.few, blocked);
                  undisputed = p.free.undisputed;
                  unheld = subst (λ (m : Moment). wait m now ≡ none) stamp p.free.unheld;
                  takes = takes;
                },
              )
              | inr (a, e) ↦ inr (inl a)
            ]
      | inr (e, skips) ↦
          inr (inr (e, λ j r g. setup_step-skip r s.order_state r.state (skips j r g)))
    ]
