-- ===== src/Operation/Settle.antt =====
-- The outcome of a begun attempt: the part of `executeStagingDNSAttemptAt` of
-- internal/inventorystore/dns_operation.go that changes the row.
pub mod Frees
pub mod Keeps
use rootwell.Prelude.{
  Bool, true, false, not, ◌&&◌, ◌||◌, Option, none, some, [], ltb, if◌then◌else◌,
}
use rootwell.Prelude.Bytes.{Bytes, bytes_eq}
use rootwell.Clock.{Instant}
use rootwell.Clock.Stamp.{Stamp, format}
use rootwell.Retry.{State, Hint, apply}
use rootwell.Dns.{
  Row, RowState, new, creating, created, deleting, deleted, borrowed, other, Recovery, Maintenance,
  is_empty, is_creating, is_deleting, is_created, is_deleted, is_borrowed, dns_plan_hex,
}
use rootwell.Dns.Maintain.{maintenance_state, defer_maintenance}
use rootwell.Image.{Result, ok, err, invalid, ◌>>=◌}
use rootwell.Operation.{Lease, phase_policy}

-- `dnsrecord.State`
pub record Observed : Type 0 where
  pub state : RowState
  pub id : Bytes

abbrev same_state : RowState → RowState → Bool
same_state new new = true
same_state creating creating = true
same_state borrowed borrowed = true
same_state created created = true
same_state deleting deleting = true
same_state deleted deleted = true
same_state other other = true
same_state _ _ = false

abbrev pub same_observed : Observed → Observed → Bool
same_observed a b = same_state a.state b.state && bytes_eq a.id b.id

-- `prior`: what the provider is told that the record is.
unfoldable pub prior_observed : Lease → Row → Observed
prior_observed l r =
    if l.cleanup
    then record { state = if l.read_only then deleting else created; id = r.id }
    else record { state = if l.read_only then creating else new; id = [] }

abbrev pub same_bool : Bool → Bool → Bool
same_bool a b = if a then b else not b

abbrev has_policy : Option State → Bool
has_policy none = false
has_policy (some s) = true

-- `r.Cleanup == nil` on a removal, and the count of attempts against the lease.
unfoldable pub lease_fits : Lease → Row → Bool
lease_fits l r =
    let attempts = (phase_policy r l.cleanup).attempts in
    let counted = l.recovery || l.maintenance || same_bool l.read_only (ltb 1 attempts) in
    counted
    && (if l.cleanup then is_deleting r.state && has_policy r.cleanup else is_creating r.state)

-- The end of the failed call on the phase's own policy.
waited : Row → Bool → Option State → Row
waited r clean none =
    if clean then record r { cleanup_blocked = true } else record r { blocked = true }
waited r clean (some t) = if clean then record r { cleanup = some t } else record r { retry = t }

-- The end of the failed call on a recovery; `rec` is the one that the lease was made for.
recovery_waited : Row → Bool → Recovery → Option State → Row
recovery_waited r clean rec none =
    let stopped = record rec { blocked = true } in
    if clean
    then record r { cleanup_recovery = some stopped }
    else record r { recovery = some stopped }
recovery_waited r clean rec (some t) =
    let kept = record rec { retry = t } in
    if clean then record r { cleanup_recovery = some kept } else record r { recovery = some kept }

set_maintenance : Row → Bool → Maintenance → Row
set_maintenance r clean m =
    if clean then record r { cleanup_maintenance = some m } else record r { maintenance = some m }

-- `callErr != nil` on a maintenance read.
wait_maintenance : Row → Bool → Option Maintenance → Hint → Instant → Row
unfolding set_maintenance
wait_maintenance r clean none hint now = r
wait_maintenance r clean (some m) hint now =
    let m' = defer_maintenance m hint now in
    record (set_maintenance r clean m') { outcome_at = m'.outcome_at }

wait_recovery : Row → Bool → Option Recovery → Hint → Row
unfolding recovery_waited
wait_recovery r clean none hint = r
wait_recovery r clean (some rec) hint = recovery_waited r clean rec (apply rec.retry hint)

-- `callErr != nil`: the row after a failed call, with the provider's hint.
pub wait_row : Lease → Row → Hint → Instant → Row
unfolding wait_maintenance wait_recovery waited
wait_row l r hint now =
    if l.maintenance
    then wait_maintenance r l.cleanup (maintenance_state r l.cleanup) hint now
    else if l.recovery
    then record (wait_recovery r l.cleanup (if l.cleanup then r.cleanup_recovery else r.recovery)
        hint) { outcome_at = format now }
    else record (waited r l.cleanup (apply (phase_policy r l.cleanup) hint)) {
      outcome_at = format now;
    }

-- The observation of a removal.
removed : Lease → Row → Observed → Stamp → Result Row
removed l r seen stamp =
    if not (is_empty seen.id) && not (bytes_eq seen.id r.id)
    then err invalid
    else if is_deleted seen.state && is_empty seen.id
    then ok (record r { state = deleted; checked_at = stamp })
    else if l.read_only && same_observed seen (prior_observed l r)
    then ok r
    else err invalid

-- The observation of a creation; `checkpointed` says whether the call passed its checkpoint.
established : Lease → Row → Observed → Bool → Stamp → Result Row
established l r seen checkpointed stamp =
    if is_borrowed seen.state && is_empty seen.id && not l.read_only && not checkpointed
    then ok (record r { state = borrowed; checked_at = stamp })
    else if is_created seen.state && dns_plan_hex seen.id && (l.read_only || checkpointed)
    then ok (record r { state = created; id = seen.id; checked_at = stamp })
    else if l.read_only && same_observed seen (prior_observed l r)
    then ok r
    else err invalid

-- The receipt of a maintenance read.
receipt : Row → Bool → Option Maintenance → Row
unfolding set_maintenance
receipt r clean none = r
receipt r clean (some m) =
    let resolved = if clean then is_deleted r.state else is_created r.state in
    set_maintenance r clean (record m {
      resolved = resolved;
      outcome_at = if resolved then r.checked_at else r.outcome_at;
    })

settled : Lease → Row → Stamp → Row
unfolding receipt
settled l r stamp =
    let r' = record r { outcome_at = stamp } in
    if l.maintenance then receipt r' l.cleanup (maintenance_state r' l.cleanup) else r'

-- The row after a call that returned; `seen_at` and `saved_at` are the two clock readings.
unfoldable pub settle_row : Lease → Row → Observed → Bool → Instant → Instant → Result Row
unfolding removed established settled
settle_row l r seen checkpointed seen_at saved_at =
    (if l.cleanup
      then removed l r seen (format seen_at)
      else established l r seen checkpointed (format seen_at))
    >>= λ r'. ok (settled l r' (format saved_at))
