-- ===== src/Operation/Begin/Change.antt =====
-- What `beginDNSOperationAt` of internal/inventorystore/dns_plan.go does to the row.
use rootwell.Prelude.{
  ℕ, ◌+◌, ◌<◌, ◌≡◌, refl, subst, true, false, Option, none, some, arith, if◌then◌else◌,
}
use rootwell.Clock.{Instant}
use rootwell.Clock.Stamp.{blank}
use rootwell.Retry.{State, begin}
use rootwell.Dns.{Row, creating, deleting}
use rootwell.Dns.Maintain.{begin_maintenance}
use rootwell.Image.{ok, >>=-eq-ok}
use rootwell.Operation.Settle.Keeps.{attempts_of, Bounded}
use rootwell.Retry.Begin.{begin-Reserved, ready_facts}
use rootwell.Operation.{
  phase_policy, Mode, maintenance, cleanup_phase, mode_allowed, prior_of, with_attempt, begin_row,
  is_recover, is_maintenance, begun,
}

-- A row on which an attempt is begun, in the phase of the attempt.
pub record Pending (mode : Mode) (r r' : Row) : Type 0 where
  pub outcome : r'.outcome_at ≡ blank
  pub phase :
      (cleanup_phase mode r.state ≡ true → r'.state ≡ deleting)
      × (cleanup_phase mode r.state ≡ false → r'.state ≡ creating)
  pub same_domain : r'.domain ≡ r.domain
  pub same_name : r'.name ≡ r.name
  pub same_value : r'.value ≡ r.value
  pub same_owner : r'.owner ≡ r.owner
  pub same_id : r'.id ≡ r.id
  pub same_checked : r'.checked_at ≡ r.checked_at

maintenance_Pending :
    (r r' : Row) (now : Instant)
    → mode_allowed maintenance r.state ≡ true
    → begin_maintenance r now ≡ some r'
    → Pending maintenance r r'
unfolding begin_maintenance mode_allowed cleanup_phase
maintenance_Pending r r' now a h = ground arith

attempt_Pending :
    (r : Row) (mode : Mode) (t : State)
    → mode_allowed mode r.state ≡ true
    → is_maintenance mode ≡ false
    → Pending mode r (with_attempt r (cleanup_phase mode r.state) (is_recover mode) t)
unfolding mode_allowed cleanup_phase with_attempt
attempt_Pending r mode t a m = ground arith

begun_Pending :
    (r r' : Row) (mode : Mode) (o : Option State)
    → mode_allowed mode r.state ≡ true
    → is_maintenance mode ≡ false
    → begun r (cleanup_phase mode r.state) (is_recover mode) o ≡ ok r'
    → Pending mode r r'
unfolding begun
begun_Pending r r' mode none a m h = absurd (ground arith)
begun_Pending r r' mode (some t) a m h =
    let e : with_attempt r (cleanup_phase mode r.state) (is_recover mode) t ≡ r' = cc h in
    subst (Pending mode r) e (attempt_Pending r mode t a m)

pub begin_row-Pending :
    (r r' : Row) (mode : Mode) (now : Instant) (jitter : ℕ)
    → mode_allowed mode r.state ≡ true
    → begin_row r mode now jitter ≡ ok r'
    → Pending mode r r'
unfolding begin_row
begin_row-Pending r r' maintenance now jitter a h = maintenance_Pending r r' now a (ground arith)
begin_row-Pending r r' mode now jitter a h =
    let clean = cleanup_phase mode r.state in
    let (prior, _, h1) =
      >>=-eq-ok (prior_of r clean (is_recover mode) now)
        (λ prior. begun r clean (is_recover mode) (begin prior now jitter)) h in
    begun_Pending r r' mode (begin prior now jitter) a refl h1

-- The counts of a row after an attempt: one more in one policy, none of them above six.
pub record Counted (mode : Mode) (r r' : Row) : Type 0 where
  pub total : attempts_of r' ≡ attempts_of r + (if is_maintenance mode then 0 else 1)
  pub bounded : Bounded r → Bounded r'

maintenance_Counted :
    (r r' : Row) (now : Instant) → begin_maintenance r now ≡ some r' → Counted maintenance r r'
unfolding begin_maintenance
maintenance_Counted r r' now h = ground arith

attempt_Counted :
    (r : Row) (mode : Mode) (prior t : State) (now : Instant)
    → is_maintenance mode ≡ false
    → prior_of r (cleanup_phase mode r.state) (is_recover mode) now ≡ ok prior
    → t.attempts ≡ prior.attempts + 1
    → prior.attempts < 6
    → Counted mode r (with_attempt r (cleanup_phase mode r.state) (is_recover mode) t)
unfolding prior_of with_attempt phase_policy
attempt_Counted r mode prior t now m p c few = ground arith

begun_Counted :
    (r r' : Row) (mode : Mode) (prior : State) (now : Instant) (jitter : ℕ) (o : Option State)
    → is_maintenance mode ≡ false
    → prior_of r (cleanup_phase mode r.state) (is_recover mode) now ≡ ok prior
    → begin prior now jitter ≡ o
    → begun r (cleanup_phase mode r.state) (is_recover mode) o ≡ ok r'
    → Counted mode r r'
unfolding begun
begun_Counted r r' mode prior now jitter none m p e h = absurd (ground arith)
begun_Counted r r' mode prior now jitter (some t) m p e h =
    let same : with_attempt r (cleanup_phase mode r.state) (is_recover mode) t ≡ r' = cc h in
    let b = begin-Reserved prior t now jitter e in
    let (_, _, few) = ready_facts prior now b.was_ready in
    subst (Counted mode r) same (attempt_Counted r mode prior t now m p b.counted few)

pub begin_row-Counted :
    (r r' : Row) (mode : Mode) (now : Instant) (jitter : ℕ)
    → begin_row r mode now jitter ≡ ok r'
    → Counted mode r r'
unfolding begin_row
begin_row-Counted r r' maintenance now jitter h = maintenance_Counted r r' now (ground arith)
begin_row-Counted r r' mode now jitter h =
    let clean = cleanup_phase mode r.state in
    let (prior, p, h1) =
      >>=-eq-ok (prior_of r clean (is_recover mode) now)
        (λ prior. begun r clean (is_recover mode) (begin prior now jitter)) h in
    begun_Counted r r' mode prior now jitter (begin prior now jitter) refl p refl h1
