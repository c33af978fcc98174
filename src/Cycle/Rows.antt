-- ===== src/Cycle/Rows.antt =====
-- The loop of `DecideRenewalCycle` over the rows of the saved plan.
pub mod Held
pub mod Named
use rootwell.Prelude.{
  ℕ, ◌+◌, max, Bool, true, false, ◌||◌, Option, none, some, List, [], ◌∷◌, ltb, leb, if◌then◌else◌,
}
use rootwell.Clock.{Instant}
use rootwell.Dns.{RowState, new, creating, created, borrowed, deleting, deleted}
use rootwell.Image.{OrderState, dns_ready, dns_acknowledged}
use rootwell.Cycle.{Moment, unset, due, garbled, Action, Reason, Decision, RowStatus}

-- `cycleDecision`
abbrev cycle_decision : Action → Reason → Decision
cycle_decision action reason = record {
  action = action;
  reason = reason;
  next = unset;
  index = none;
}

-- The closures `pause` and `choose`.
abbrev pub pause : Reason → Decision
pause reason = cycle_decision Action.pause reason

abbrev pub choose : Action → Decision
choose action = cycle_decision action Reason.chosen

abbrev pub wait_until : Reason → Moment → Decision
wait_until reason stamp = record {
  action = Action.wait;
  reason = reason;
  next = stamp;
  index = none;
}

-- The closure `wait`: `none` where it reports that nothing holds the caller.
abbrev pub wait : Moment → Instant → Option Decision
wait unset now = none
wait garbled now = some (pause Reason.clock_unavailable)
wait (due next) now =
    if ltb now next then some (wait_until Reason.provider_wait (due next)) else none

abbrev pub is_wait : Action → Bool
is_wait Action.wait = true
is_wait _ = false

-- `next, _ := time.Parse(…)`
abbrev pub instant_of : Moment → Instant
instant_of (due t) = t
instant_of _ = 0

abbrev pub takes_dns : OrderState → Bool
takes_dns dns_ready = true
takes_dns dns_acknowledged = true
takes_dns _ = false

-- What a row asks for: nothing, a pause, or an action with its bounds.
pub data RowStep : Type 0 where
  skip : RowStep
  halt : Reason → RowStep
  act : Action → Moment → ℕ → Bool → RowStep

-- The switch on the state of a row once the certificate is saved, and before that.
unfoldable pub cleanup_step : RowStatus → RowState → RowStep
cleanup_step r created =
    act Action.dns_cleanup r.cleanup_not_before r.cleanup_attempts r.cleanup_blocked
cleanup_step r deleting =
    act Action.dns_check r.cleanup_not_before r.cleanup_attempts r.cleanup_blocked
cleanup_step r borrowed = skip
cleanup_step r deleted = skip
cleanup_step r _ = halt Reason.dns_unconfirmed

unfoldable pub setup_step : RowStatus → OrderState → RowState → RowStep
setup_step r order new =
    if takes_dns order
    then act Action.dns_add r.not_before r.attempts r.blocked
    else halt Reason.dns_unconfirmed
setup_step r order creating = act Action.dns_check r.not_before r.attempts r.blocked
setup_step r order created = skip
setup_step r order borrowed = skip
setup_step r order _ = halt Reason.dns_unconfirmed

unfoldable pub row_step : Bool → OrderState → RowStatus → RowStep
unfolding cleanup_step setup_step
row_step saved order r = if saved then cleanup_step r r.state else setup_step r order r.state

-- The loop's state: a decision that it returned, or `selected` and `hold`.
pub data Scan : Type 0 where
  stopped : Decision → Scan
  scanned : Option Decision → Instant → Scan

abbrev pub select_first : Option Decision → Decision → Option Decision
select_first none d = some d
select_first (some first) d = some first

unfoldable pub held_step : ℕ → Action → Option Decision → Instant → Option Decision → Scan
held_step i action selected hold none =
    scanned (select_first selected (record (choose action) { index = some i })) hold
held_step i action selected hold (some d) =
    if is_wait d.action then scanned selected (max hold (instant_of d.next)) else stopped d

-- One round.
unfoldable pub scan_step : Instant → ℕ → RowStatus → Option Decision → Instant → RowStep → Scan
unfolding held_step
scan_step now i r selected hold skip = scanned selected hold
scan_step now i r selected hold (halt reason) = stopped (pause reason)
scan_step now i r selected hold (act action stamp count refused) =
    if refused || leb 6 count || r.recovery || r.maintenance
    then stopped (pause Reason.dns_maintenance)
    else held_step i action selected hold (wait stamp now)

unfoldable pub scan :
    Bool → OrderState → Instant → ℕ → List RowStatus → Option Decision → Instant → Scan
unfolding row_step scan_step
scan saved order now i [] selected hold = scanned selected hold
scan saved order now i (r ∷ rest) selected hold =
    elim (scan_step now i r selected hold (row_step saved order r)) [
      | stopped d ↦ stopped d
      | scanned selected' hold' ↦ scan saved order now (i + 1) rest selected' hold'
    ]
