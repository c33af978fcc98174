-- ===== src/Operation/Settle/Keeps.antt =====
-- What the outcome of an attempt leaves of the row, from `executeStagingDNSAttemptAt` of
-- internal/inventorystore/dns_operation.go: the attempts counted, and the state or its next one.
use rootwell.Prelude.{
  ℕ, ◌+◌, ◌≤◌, ◌≡◌, refl, sym, subst, ◌∙◌, ◌≢◌, ◌⊎◌, inl, inr, Bool, true, false, Option, none,
  some, arith, if◌then◌else◌, Bool-cases, if-true, if-false,
}
use rootwell.Clock.{Instant}
use rootwell.Clock.Stamp.{Stamp, format}
use rootwell.Retry.{State, Hint, apply}
use rootwell.Retry.Apply.{apply_extends}
use rootwell.Dns.{Row, created, deleted, borrowed, Recovery, Maintenance, deleting, creating}
use rootwell.Dns.Maintain.{maintenance_state}
use rootwell.Image.{ok, >>=-eq-ok}
use rootwell.Operation.{Lease, phase_policy, phase_recovery}
use rootwell.Operation.Settle.{
  Observed, lease_fits, wait_row, settle_row, removed, established, settled, waited,
  recovery_waited, wait_recovery, wait_maintenance,
}

abbrev cleanup_count : Option State → ℕ
cleanup_count none = 0
cleanup_count (some s) = s.attempts

abbrev recovery_count : Option Recovery → ℕ
recovery_count none = 0
recovery_count (some rec) = rec.retry.attempts

-- The attempts of the four policies of a row.
abbrev pub attempts_of : Row → ℕ
attempts_of r =
    r.retry.attempts
    + cleanup_count r.cleanup
    + recovery_count r.recovery
    + recovery_count r.cleanup_recovery

-- Each policy's attempts are at most six.
pub record Bounded (r : Row) : Type 0 where
  pub first : r.retry.attempts ≤ 6
  pub second : cleanup_count r.cleanup ≤ 6
  pub third : recovery_count r.recovery ≤ 6
  pub fourth : recovery_count r.cleanup_recovery ≤ 6

-- The same state and the same counts.
pub record Kept (r r' : Row) : Type 0 where
  pub state : r'.state ≡ r.state
  pub retry : r'.retry.attempts ≡ r.retry.attempts
  pub cleanup : cleanup_count r'.cleanup ≡ cleanup_count r.cleanup
  pub recovery : recovery_count r'.recovery ≡ recovery_count r.recovery
  pub cleanup_recovery : recovery_count r'.cleanup_recovery ≡ recovery_count r.cleanup_recovery

waited-Kept :
    (l : Lease) (r : Row) (hint : Hint) (o : Option State)
    → apply (phase_policy r l.cleanup) hint ≡ o
    → (l.cleanup ≡ true → r.cleanup ≢ none)
    → (now : Instant) → Kept r (record (waited r l.cleanup o) { outcome_at = format now })
unfolding waited phase_policy
waited-Kept l r hint none e has now = ground arith
waited-Kept l r hint (some t) e has now =
    ground (arith, apply_extends (phase_policy r l.cleanup) hint t e)

recovery_waited-Kept :
    (l : Lease) (r : Row) (hint : Hint) (rec : Recovery) (o : Option State)
    → (if l.cleanup then r.cleanup_recovery else r.recovery) ≡ some rec
    → apply rec.retry hint ≡ o
    → (now : Instant)
    → Kept r (record (recovery_waited r l.cleanup rec o) { outcome_at = format now })
unfolding recovery_waited
recovery_waited-Kept l r hint rec none p e now = ground arith
recovery_waited-Kept l r hint rec (some t) p e now =
    ground (arith, apply_extends rec.retry hint t e)

wait_recovery-Kept :
    (l : Lease) (r : Row) (hint : Hint) (o : Option Recovery)
    → (if l.cleanup then r.cleanup_recovery else r.recovery) ≡ o
    → (now : Instant)
    → Kept r (record (wait_recovery r l.cleanup o hint) { outcome_at = format now })
unfolding wait_recovery
wait_recovery-Kept l r hint none p now = ground arith
wait_recovery-Kept l r hint (some rec) p now =
    recovery_waited-Kept l r hint rec (apply rec.retry hint) p refl now

wait_maintenance-Kept :
    (l : Lease) (r : Row) (hint : Hint) (o : Option Maintenance) (now : Instant)
    → Kept r (wait_maintenance r l.cleanup o hint now)
unfolding wait_maintenance
wait_maintenance-Kept l r hint none now = ground arith
wait_maintenance-Kept l r hint (some m) now = ground arith

lease_fits_cleanup :
    (l : Lease) (r : Row) → lease_fits l r ≡ true → l.cleanup ≡ true → r.cleanup ≢ none
unfolding lease_fits
lease_fits_cleanup l r h c = ground arith

pub wait_row-Kept :
    (l : Lease) (r : Row) (hint : Hint) (now : Instant)
    → lease_fits l r ≡ true
    → Kept r (wait_row l r hint now)
unfolding wait_row
wait_row-Kept l r hint now fits = elim (Bool-cases l.maintenance) [
  | inl yes_m ↦ rw yes_m (wait_maintenance-Kept l r hint (maintenance_state r l.cleanup) now)
  | inr no_m ↦ rw no_m (elim (Bool-cases l.recovery) [
    | inl yes_r ↦ rw yes_r (wait_recovery-Kept l r hint (phase_recovery r l.cleanup) refl now)
    | inr no_r ↦ rw no_r (
        waited-Kept l r hint (apply (phase_policy r l.cleanup) hint) refl
          (lease_fits_cleanup l r fits) now)
  ])
]

-- The state after a call that returned: the same, or the end of the lease's phase.
pub record Moved (l : Lease) (r r' : Row) : Type 0 where
  pub retry : r'.retry ≡ r.retry
  pub cleanup : r'.cleanup ≡ r.cleanup
  pub recovery : r'.recovery ≡ r.recovery
  pub cleanup_recovery : r'.cleanup_recovery ≡ r.cleanup_recovery
  pub ended :
      (r'.state ≡ r.state)
      ⊎ (l.cleanup ≡ true × (r'.state ≡ deleted))
      ⊎ (l.cleanup ≡ false × ((r'.state ≡ borrowed) ⊎ (r'.state ≡ created)))

removed-Moved :
    (l : Lease) (r r' : Row) (seen : Observed) (stamp : Stamp)
    → l.cleanup ≡ true
    → removed l r seen stamp ≡ ok r'
    → Moved l r r'
unfolding removed
removed-Moved l r r' seen stamp c h = ground arith

established-Moved :
    (l : Lease) (r r' : Row) (seen : Observed) (checkpointed : Bool) (stamp : Stamp)
    → l.cleanup ≡ false
    → established l r seen checkpointed stamp ≡ ok r'
    → Moved l r r'
unfolding established
established-Moved l r r' seen checkpointed stamp c h = ground arith

settled-Moved :
    (l : Lease) (r r' : Row) (stamp : Stamp) → Moved l r r' → Moved l r (settled l r' stamp)
unfolding settled
settled-Moved l r r' stamp m = ground arith

observe_Moved :
    (l : Lease) (r r' : Row) (seen : Observed) (checkpointed : Bool) (stamp : Stamp)
    → (if l.cleanup then removed l r seen stamp else established l r seen checkpointed stamp)
      ≡ ok r'
    → Moved l r r'
observe_Moved l r r' seen checkpointed stamp h = elim (Bool-cases l.cleanup) [
  | inl yes_c ↦ removed-Moved l r r' seen stamp yes_c (sym (if-true l.cleanup _ _ yes_c) ∙ h)
  | inr no_c ↦
      established-Moved l r r' seen checkpointed stamp no_c (sym (if-false l.cleanup _ _ no_c) ∙ h)
]

pub settle_row-Moved :
    (l : Lease) (r r' : Row) (seen : Observed) (checkpointed : Bool) (seen_at saved_at : Instant)
    → settle_row l r seen checkpointed seen_at saved_at ≡ ok r'
    → Moved l r r'
unfolding settle_row
settle_row-Moved l r r' seen checkpointed seen_at saved_at h =
    let (r1, e1, e2) =
      >>=-eq-ok
        (if l.cleanup
          then removed l r seen (format seen_at)
          else established l r seen checkpointed (format seen_at))
        (λ x. ok (settled l x (format saved_at))) h in
    let same : settled l r1 (format saved_at) ≡ r' = cc e2 in
    subst (Moved l r) same (
      settled-Moved l r r1 (format saved_at)
        (observe_Moved l r r1 seen checkpointed (format seen_at) e1))

-- A lease fits only a row of its own phase.
pub lease_fits_state :
    (l : Lease) (r : Row)
    → lease_fits l r ≡ true
    → (l.cleanup ≡ true → r.state ≡ deleting) × (l.cleanup ≡ false → r.state ≡ creating)
unfolding lease_fits
lease_fits_state l r h = ground arith
