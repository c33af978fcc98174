-- ===== src/Dns/Maintain.antt =====
-- internal/inventorystore/dns_maintenance.go: the daily read that is left to the operator once the
-- attempts and the recovery of a phase are used up.
use rootwell.Prelude.{
  ℕ, ◌+◌, ◌-◌, ◌*◌, Bool, true, false, not, ◌&&◌, ◌||◌, Option, none, some, ltb, leb, ◌==◌,
  if◌then◌else◌,
}
use rootwell.Clock.{Instant, hour, years, truncate, is_zero, round_up, year_at_least}
use rootwell.Clock.Stamp.{Stamp, blank, format, before, later, is_blank, same_stamp}
use rootwell.Retry.{State, Hint, max_attempts, max_provider_wait}
use rootwell.Dns.{
  Recovery, Maintenance, Row, is_creating, is_deleting, must_time, order_time, is_created,
  is_deleted,
}

abbrev max_dns_maintenance : ℕ
max_dns_maintenance = 65535

-- `maintenanceState`
abbrev pub maintenance_state : Row → Bool → Option Maintenance
maintenance_state r cleanup = if cleanup then r.cleanup_maintenance else r.maintenance

resolved_by : Option Maintenance → Stamp → Bool
resolved_by none checked_at = false
resolved_by (some m) checked_at =
    m.resolved && not (is_blank m.outcome_at) && not (before checked_at m.last_at)

-- `maintenanceResolved`
pub maintenance_resolved : Row → Bool → Bool
unfolding resolved_by
maintenance_resolved r cleanup = resolved_by (maintenance_state r cleanup) r.checked_at

-- What `maintenanceFloor` returns: the text, whether the phase has ended, whether it is blocked.
pub record Floor : Type 0 where
  pub stamp : Stamp
  pub terminal : Bool
  pub blocked : Bool

abbrev no_floor : Bool → Floor
no_floor blocked = record { stamp = blank; terminal = false; blocked = blocked }

-- The end of `maintenanceFloor`: `last` and `wait` are the latest texts of the phase.
floor_at : Stamp → Stamp → Bool → Floor
floor_at last wait blocked =
    let floor = must_time last + (if blocked then max_provider_wait else 24 * hour) in
    if year_at_least 2101 floor
    then no_floor blocked
    else record { stamp = later wait (format floor); terminal = true; blocked = blocked }

-- `maintenanceFloor` on the policy of one phase.
phase_floor : Option State → Bool → Option Recovery → Floor
unfolding floor_at
phase_floor none blocked recovery = no_floor false
phase_floor (some prior) blocked none =
    if blocked then floor_at prior.last_at prior.not_before true else no_floor false
phase_floor (some prior) blocked (some r) =
    if blocked || prior.attempts == max_attempts && (r.blocked || r.retry.attempts == max_attempts)
    then floor_at (later prior.last_at r.retry.last_at) (later prior.not_before r.retry.not_before)
        (blocked || r.blocked)
    else no_floor false

-- `maintenanceFloor`
unfoldable pub maintenance_floor : Row → Bool → Floor
unfolding phase_floor
maintenance_floor r cleanup =
    if cleanup
    then phase_floor r.cleanup r.cleanup_blocked r.cleanup_recovery
    else phase_floor (some r.retry) r.blocked r.recovery

-- `DNSMaintenanceStatus`
pub record MaintenanceStatus : Type 0 where
  pub attempts : ℕ
  pub not_before : Stamp
  pub blocked : Bool

status_of : Floor → Option Maintenance → Option MaintenanceStatus
status_of f none =
    if f.terminal
    then some (record { attempts = 0; not_before = f.stamp; blocked = f.blocked })
    else none
status_of f (some m) =
    if f.terminal
    then some (record {
      attempts = m.attempts;
      not_before = later f.stamp m.not_before;
      blocked = m.blocked;
    })
    else none

-- `publicDNSMaintenance`
unfoldable pub public_maintenance : Row → Option MaintenanceStatus
unfolding status_of
public_maintenance r =
    let cleanup = is_deleting r.state in
    if is_creating r.state || is_deleting r.state
    then status_of (maintenance_floor r cleanup) (maintenance_state r cleanup)
    else none

-- One round of the loop of `validDNSMaintenance`.
valid_phase : Row → Bool → Option Maintenance → Bool
valid_phase r cleanup none = true
valid_phase r cleanup (some m) =
    let f = maintenance_floor r cleanup in
    let gap = must_time m.not_before - must_time m.last_at in
    let pending = is_creating r.state && not cleanup || is_deleting r.state && cleanup in
    let settled =
      not pending
      && not m.blocked
      && not (is_blank m.outcome_at)
      && not (before r.checked_at m.outcome_at)
      && (if cleanup
          then is_deleted r.state
          else is_created r.state || is_deleting r.state || is_deleted r.state) in
    f.terminal
    && leb 1 m.attempts
    && leb m.attempts max_dns_maintenance
    && order_time m.last_at
    && order_time m.not_before
    && not (before m.last_at f.stamp)
    && not (year_at_least 2101 (must_time m.last_at))
    && not (year_at_least 2101 (must_time m.not_before))
    && leb (24 * hour) gap
    && leb gap max_provider_wait
    && (not m.blocked || leb max_provider_wait gap)
    && (is_blank m.outcome_at
        || order_time m.outcome_at
          && not (before m.outcome_at m.last_at)
          && not (year_at_least 2101 (must_time m.outcome_at)))
    && (if m.resolved then settled else pending && same_stamp m.outcome_at r.outcome_at)

-- `validDNSMaintenance`
unfoldable pub valid_maintenance : Row → Bool
unfolding valid_phase
valid_maintenance r = valid_phase r false r.maintenance && valid_phase r true r.cleanup_maintenance

-- The tests and the update of `beginDNSMaintenance`, with the public status at hand.
begin_from : Row → Option MaintenanceStatus → Instant → Option Row
begin_from r none now = none
begin_from r (some s) now =
    let start = truncate now in
    let next = start + 24 * hour in
    let m : Maintenance = record {
      attempts = s.attempts + 1;
      last_at = format start;
      not_before = format next;
      outcome_at = blank;
      blocked = false;
      resolved = false;
    } in
    if leb max_dns_maintenance s.attempts
      || not (years 2020 2100 now)
      || ltb start (must_time s.not_before)
      || before (format start) (later r.outcome_at r.checked_at)
      || year_at_least 2101 next
    then none
    else if is_deleting r.state
    then some (record r { cleanup_maintenance = some m; outcome_at = blank })
    else some (record r { maintenance = some m; outcome_at = blank })

-- `beginDNSMaintenance`
unfoldable pub begin_maintenance : Row → Instant → Option Row
unfolding begin_from
begin_maintenance r now =
    if is_creating r.state || is_deleting r.state
    then begin_from r (public_maintenance r) now
    else none

-- `deferDNSMaintenance`
unfoldable pub defer_maintenance : Maintenance → Hint → Instant → Maintenance
defer_maintenance m h now =
    let last = must_time m.last_at in
    let bound = round_up h.not_before in
    let refused =
      h.blocked
      || not (is_zero h.not_before)
        && (not (years 2020 2100 bound) || ltb max_provider_wait (bound - last)) in
    if refused
    then record m {
      blocked = true;
      not_before = format (last + max_provider_wait);
      outcome_at = format now;
    }
    else if is_zero h.not_before
    then record m { outcome_at = format now }
    else record m { not_before = later m.not_before (format bound); outcome_at = format now }
