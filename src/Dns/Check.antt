-- ===== src/Dns/Check.antt =====
-- `validDNSPlanRecord` of internal/inventorystore/dns_operation.go: which saved rows are accepted.
use rootwell.Prelude.{
  Bool, true, false, not, ◌&&◌, ◌||◌, Option, none, some, leb, ◌==◌, if◌then◌else◌,
}
use rootwell.Clock.{year_at_least}
use rootwell.Clock.Stamp.{Stamp, before, later, is_blank}
use rootwell.Retry.{State, valid, max_attempts}
use rootwell.Dns.{
  RowState, new, creating, borrowed, created, deleting, deleted, other, Recovery, Maintenance, Row,
  is_creating, is_deleting, is_deleted, is_new, is_borrowed, is_some, is_empty, dns_plan_hex,
  must_time, order_time,
}
use rootwell.Dns.Maintain.{maintenance_resolved, valid_maintenance}

-- One round of the loop over the two recovery policies, with the phase's own policy at hand.
unfoldable pub valid_recovery : Row → Bool → Option State → Option Recovery → Bool
valid_recovery r cleanup prior none = true
valid_recovery r cleanup none (some rec) = false
valid_recovery r cleanup (some prior) (some rec) =
    let pending = if cleanup then is_deleting r.state else is_creating r.state in
    (not cleanup || is_deleting r.state || is_deleted r.state)
    && not (is_new r.state || is_borrowed r.state)
    && valid rec.retry
    && leb 1 rec.retry.attempts
    && prior.attempts == max_attempts
    && not (before rec.retry.last_at prior.not_before)
    && not (if cleanup then r.cleanup_blocked else r.blocked)
    && (pending
        || not (rec.blocked && not (maintenance_resolved r cleanup))
          && not (before r.checked_at rec.retry.last_at))

-- `last = max(last, …)` over an optional policy.
abbrev later_if {ℓ} : {A : Type ℓ} → (A → Stamp) → Option A → Stamp → Stamp
later_if f none last = last
later_if f (some a) last = later last (f a)

cleanup_or : Option State → State → Stamp
cleanup_or none retry = retry.last_at
cleanup_or (some c) retry = c.last_at

-- `last`: the latest text at which an attempt of the row was started.
unfoldable pub last_start : Row → Stamp
unfolding cleanup_or
last_start r =
    let start = cleanup_or r.cleanup r.retry in
    let read = later_if (λ (x : Recovery). x.retry.last_at) r.recovery start in
    let read' = later_if (λ (x : Recovery). x.retry.last_at) r.cleanup_recovery read in
    let kept = later_if (λ (m : Maintenance). m.last_at) r.maintenance read' in
    later_if (λ (m : Maintenance). m.last_at) r.cleanup_maintenance kept

-- The test on `OutcomeAt`.
unfoldable pub valid_outcome : Row → Bool
valid_outcome r =
    is_blank r.outcome_at
    || order_time r.outcome_at
      && not (year_at_least 2101 (must_time r.outcome_at))
      && not (before r.outcome_at (last_start r))

-- `checked`
unfoldable pub checked : Row → Bool
checked r =
    order_time r.checked_at
    && not (before r.checked_at r.retry.last_at)
    && not (year_at_least 2101 (must_time r.checked_at))

-- The shared tests of the states `deleting` and `deleted`.
unfoldable pub valid_removal : Row → Stamp → Option State → Bool
valid_removal r prepared none = false
valid_removal r prepared (some c) =
    checked r
    && (not r.blocked || maintenance_resolved r false)
    && dns_plan_hex r.id
    && valid c
    && leb 1 c.attempts
    && not (before c.last_at r.retry.last_at)
    && not (before c.last_at prepared)

unfoldable pub removal_end : Row → Bool → Option State → Bool
removal_end r historical none = false
removal_end r historical (some c) =
    if is_deleting r.state
    then not historical && not (before c.last_at r.checked_at)
    else (not r.cleanup_blocked || maintenance_resolved r true)
      && not (before r.checked_at c.last_at)
      && not (before r.outcome_at r.checked_at)

-- The tests of the `switch` on the state.
unfoldable pub valid_state : RowState → Row → Stamp → Bool → Bool
valid_state new r prepared historical =
    r.retry.attempts == 0
    && not r.blocked
    && is_empty r.id
    && not (is_some r.cleanup)
    && not r.cleanup_blocked
    && is_blank r.checked_at
    && is_blank r.outcome_at
valid_state creating r prepared historical =
    not historical
    && is_empty r.id
    && not (is_some r.cleanup)
    && not r.cleanup_blocked
    && is_blank r.checked_at
valid_state borrowed r prepared historical =
    checked r
    && not (before r.outcome_at r.checked_at)
    && not r.blocked
    && is_empty r.id
    && not (is_some r.cleanup)
    && not r.cleanup_blocked
valid_state created r prepared historical =
    not historical
    && checked r
    && not (before r.outcome_at r.checked_at)
    && (not r.blocked || maintenance_resolved r false)
    && dns_plan_hex r.id
    && not (is_some r.cleanup)
    && not r.cleanup_blocked
valid_state deleting r prepared historical =
    valid_removal r prepared r.cleanup && removal_end r historical r.cleanup
valid_state deleted r prepared historical =
    valid_removal r prepared r.cleanup && removal_end r historical r.cleanup
valid_state other r prepared historical = false

-- Every started row has at least one attempt, none of them before the plan was prepared.
unfoldable pub valid_started : Row → Stamp → Bool
valid_started r prepared =
    is_new r.state || leb 1 r.retry.attempts && not (before r.retry.last_at prepared)

-- `validDNSPlanRecord`
unfoldable pub valid_record : Row → Stamp → Bool → Bool
valid_record r prepared historical =
    valid_maintenance r
    && valid_recovery r false (some r.retry) r.recovery
    && valid_recovery r true r.cleanup r.cleanup_recovery
    && valid_outcome r
    && valid_started r prepared
    && valid_state r.state r prepared historical
