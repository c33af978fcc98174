-- ===== src/Operation/Begin/Usable.antt =====
-- The lease of `beginDNSOperationAt` on a row that `validDNSPlanRecord` accepts, against the tests of
-- `executeStagingDNSAttemptAt`.
use rootwell.Prelude.{
  and_parts, ℕ, ◌+◌, ◌≤◌, ◌≡◌, refl, subst, Bool, true, false, Option, none, some, arith,
}
use rootwell.Retry.{State, begin}
use rootwell.Retry.Begin.{begin-Reserved}
use rootwell.Image.{Image, ok, >>=-eq-ok}
use rootwell.Operation.{
  Codec, Mode, add, check, cleanup, recover, maintenance, lease_for, mode_allowed, cleanup_phase,
  begin_row, begun, prior_of, with_attempt, phase_policy, is_recover, is_maintenance,
}
use rootwell.Dns.Check.{valid_record, valid_state, valid_started, valid_removal}
use rootwell.Clock.{Instant}
use rootwell.Clock.Stamp.{Stamp}
use rootwell.Dns.{Row, RowState, new, creating, created, borrowed, deleting, deleted, other}
use rootwell.Dns.Maintain.{maintenance_state, begin_maintenance, maintenance_state}
use rootwell.Operation.Settle.{lease_fits}
use rootwell.Operation.Execute.{executable}

-- The counts of a valid row.
abbrev Steps : RowState → Row → Type 0
Steps new r = r.retry.attempts ≡ 0
Steps creating r = 1 ≤ r.retry.attempts
Steps created r = r.cleanup ≡ none
Steps deleting r = (c : State) × (r.cleanup ≡ some c) × (1 ≤ c.attempts)
Steps _ r = Unit {0}

removal_count :
    (r : Row) (prepared : Stamp) (o : Option State)
    → valid_removal r prepared o ≡ true
    → (c : State) × (o ≡ some c) × (1 ≤ c.attempts)
unfolding valid_removal
removal_count r prepared none h = cc
removal_count r prepared (some c) h = (c, refl, ground arith)

state_Steps :
    (st : RowState) (r : Row) (prepared : Stamp) (historical : Bool)
    → r.state ≡ st
    → valid_started r prepared ≡ true
    → valid_state st r prepared historical ≡ true
    → Steps st r
unfolding valid_state valid_started
state_Steps new r prepared historical e s h = ground arith
state_Steps creating r prepared historical e s h = ground arith
state_Steps created r prepared historical e s h = ground arith
state_Steps deleting r prepared historical e s h =
    removal_count r prepared r.cleanup (and_parts _ _ h).0
state_Steps borrowed r prepared historical e s h = tt
state_Steps deleted r prepared historical e s h = tt
state_Steps other r prepared historical e s h = tt

valid_record-Steps :
    (r : Row) (prepared : Stamp) (historical : Bool)
    → valid_record r prepared historical ≡ true
    → Steps r.state r
unfolding valid_record
valid_record-Steps r prepared historical h =
    let (h2, state_ok) = and_parts _ _ h in
    let (h3, started_ok) = and_parts _ _ h2 in
    state_Steps r.state r prepared historical refl started_ok state_ok

attempt_executable :
    (codec : Codec) (m : Image) (index : ℕ) (r : Row) (mode : Mode) (st : RowState)
    (prior t : State) (now : Instant)
    → r.state ≡ st
    → Steps st r
    → mode_allowed mode st ≡ true
    → is_maintenance mode ≡ false
    → prior_of r (cleanup_phase mode st) (is_recover mode) now ≡ ok prior
    → t.attempts ≡ prior.attempts + 1
    → executable
        (lease_for codec m index mode st)
        (with_attempt r (cleanup_phase mode st) (is_recover mode) t)
      ≡ true
unfolding mode_allowed cleanup_phase prior_of with_attempt phase_policy executable lease_for
    lease_fits
attempt_executable codec m index r add new prior t now e s a k p c = ground arith
attempt_executable codec m index r add creating prior t now e s a k p c = ground arith
attempt_executable codec m index r check creating prior t now e s a k p c = ground arith
attempt_executable codec m index r check deleting prior t now e (old, q, n) a k p c = ground arith
attempt_executable codec m index r recover creating prior t now e s a k p c = ground arith
attempt_executable codec m index r recover deleting prior t now e (old, q, n) a k p c = ground arith
attempt_executable codec m index r cleanup created prior t now e s a k p c = ground arith
attempt_executable codec m index r mode st prior t now e s a k p c = absurd (ground arith)

maintenance_executable :
    (codec : Codec) (m : Image) (index : ℕ) (r r' : Row) (st : RowState) (now : Instant)
    → r.state ≡ st
    → Steps st r
    → mode_allowed maintenance st ≡ true
    → begin_maintenance r now ≡ some r'
    → executable (lease_for codec m index maintenance st) r' ≡ true
unfolding mode_allowed cleanup_phase begin_maintenance phase_policy executable lease_for lease_fits
    maintenance_state
maintenance_executable codec m index r r' creating now e s a h = ground arith
maintenance_executable codec m index r r' deleting now e (old, q, n) a h = ground arith
maintenance_executable codec m index r r' st now e s a h = absurd (ground arith)

begun_executable :
    (codec : Codec) (m : Image) (index : ℕ) (r r' : Row) (mode : Mode) (prior : State)
    (now : Instant) (jitter : ℕ) (o : Option State)
    → Steps r.state r
    → mode_allowed mode r.state ≡ true
    → is_maintenance mode ≡ false
    → prior_of r (cleanup_phase mode r.state) (is_recover mode) now ≡ ok prior
    → begin prior now jitter ≡ o
    → begun r (cleanup_phase mode r.state) (is_recover mode) o ≡ ok r'
    → executable (lease_for codec m index mode r.state) r' ≡ true
unfolding begun
begun_executable codec m index r r' mode prior now jitter none s a k p e h = absurd (ground arith)
begun_executable codec m index r r' mode prior now jitter (some t) s a k p e h =
    let same : with_attempt r (cleanup_phase mode r.state) (is_recover mode) t ≡ r' = cc h in
    let b = begin-Reserved prior t now jitter e in
    subst (λ (x : Row). executable (lease_for codec m index mode r.state) x ≡ true) same
      (attempt_executable codec m index r mode r.state prior t now refl s a k p b.counted)

-- An attempt that is begun on a row that the record check accepts can be executed: the row passes every test that the
-- execution makes of the lease against it.
pub begin_row-executable :
    (codec : Codec) (m : Image) (index : ℕ) (r r' : Row) (mode : Mode) (now : Instant) (jitter : ℕ)
    (prepared : Stamp) (historical : Bool)
    → valid_record r prepared historical ≡ true
    → mode_allowed mode r.state ≡ true
    → begin_row r mode now jitter ≡ ok r'
    → executable (lease_for codec m index mode r.state) r' ≡ true
unfolding begin_row
begin_row-executable codec m index r r' maintenance now jitter prepared historical v a h =
    maintenance_executable codec m index r r' r.state now refl
      (valid_record-Steps r prepared historical v) a (ground arith)
begin_row-executable codec m index r r' mode now jitter prepared historical v a h =
    let clean = cleanup_phase mode r.state in
    let (prior, p, h1) =
      >>=-eq-ok (prior_of r clean (is_recover mode) now)
        (λ prior. begun r clean (is_recover mode) (begin prior now jitter)) h in
    begun_executable codec m index r r' mode prior now jitter (begin prior now jitter)
      (valid_record-Steps r prepared historical v) a refl p refl h1
