-- ===== src/Dns/Reserve.antt =====
-- The reservations of internal/inventorystore/dns_plan.go: how many events and generations the
-- saved plan still has to pay for.
use rootwell.Prelude.{
  ℕ, zero, suc, ◌+◌, ◌-◌, ◌*◌, ◌≡◌, Option, none, some, List, [], ◌∷◌, arith, if◌then◌else◌,
  get_elem?, set,
}
use rootwell.Clock.Stamp.{is_blank}
use rootwell.Retry.{State, max_attempts}
use rootwell.Dns.{RowState, creating, created, deleting, Recovery, Row}

recovery_reads : Option Recovery → ℕ
recovery_reads none = 0
recovery_reads (some r) = 2 * (max_attempts - r.retry.attempts)

cleanup_attempts : Option State → ℕ
cleanup_attempts none = 0
cleanup_attempts (some s) = s.attempts

-- The outcome of an attempt that is not saved yet.
abbrev outcome_due : Row → ℕ
outcome_due r = if is_blank r.outcome_at then 1 else 0

state_reserve : RowState → Row → ℕ
state_reserve creating r =
    outcome_due r
    + 2 * (max_attempts - r.retry.attempts)
    + 2 * max_attempts
    + 1
    + recovery_reads r.recovery
state_reserve created r = 2 * max_attempts + 1
state_reserve deleting r =
    outcome_due r
    + 2 * (max_attempts - cleanup_attempts r.cleanup)
    + 1
    + recovery_reads r.cleanup_recovery
state_reserve _ r = 0

-- One round of the loop of `dnsPlanReserve`.
unfoldable pub row_reserve : Row → ℕ
unfolding state_reserve recovery_reads cleanup_attempts
row_reserve r = state_reserve r.state r

-- `dnsPlanReserve`
unfoldable pub dns_plan_reserve : List Row → ℕ
dns_plan_reserve [] = 0
dns_plan_reserve (r ∷ rows) = row_reserve r + dns_plan_reserve rows

-- A row that changes moves the plan's reserve by what its own changes.
pub dns_plan_reserve-set :
    (rows : List Row) (i : ℕ) (old r : Row)
    → get_elem? rows i ≡ some old
    → dns_plan_reserve (set rows i r) + row_reserve old ≡ dns_plan_reserve rows + row_reserve r
unfolding dns_plan_reserve
dns_plan_reserve-set [] i old r h = cc
dns_plan_reserve-set (x ∷ rows) zero old r h = ground arith
dns_plan_reserve-set (x ∷ rows) (suc i) old r h = omega (arith, dns_plan_reserve-set rows i old r h)
