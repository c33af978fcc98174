-- ===== src/Operation/Settle/Frees.antt =====
-- The reservations of internal/inventorystore pay for what a begun attempt still has to save: each
-- outcome frees at least the event and the generation that it takes.
use rootwell.Prelude.{
  ◌+◌, ◌≤◌, ◌≡◌, refl, sym, ◌∙◌, ◌≢◌, inl, inr, Bool, true, false, Option, none, some, arith,
  if◌then◌else◌, Bool-cases, if-true, if-false,
}
use rootwell.Clock.{Instant}
use rootwell.Clock.Stamp.{Stamp, blank, format}
use rootwell.Retry.{State, Hint, apply}
use rootwell.Retry.Apply.{apply_extends}
use rootwell.Dns.{Row, creating, deleting, Recovery, Maintenance}
use rootwell.Dns.Maintain.{defer_maintenance, maintenance_state}
use rootwell.Dns.Reserve.{row_reserve}
use rootwell.Image.{ok, >>=-eq-ok}
use rootwell.Operation.{Lease, phase_policy, phase_recovery}
use rootwell.Operation.Settle.{
  Observed, lease_fits, wait_row, settle_row, removed, established, settled, waited,
  recovery_waited, wait_recovery, wait_maintenance,
}
use rootwell.Operation.Execute.{executable}

-- A row whose attempt is on its way: the state of the lease's phase, and no outcome yet.
pub record Due (l : Lease) (r : Row) : Type 0 where
  pub phase : (l.cleanup ≡ true → r.state ≡ deleting) × (l.cleanup ≡ false → r.state ≡ creating)
  pub open_outcome : r.outcome_at ≡ blank

defer_outcome :
    (m : Maintenance) (h : Hint) (now : Instant)
    → (defer_maintenance m h now).outcome_at ≡ format now
unfolding defer_maintenance
defer_outcome m h now = ground arith

executable_fits : (l : Lease) (r : Row) → executable l r ≡ true → lease_fits l r ≡ true
unfolding executable
executable_fits l r h = ground arith

waited_reserve :
    (l : Lease) (r : Row) (hint : Hint) (o : Option State)
    → apply (phase_policy r l.cleanup) hint ≡ o
    → Due l r
    → (now : Instant)
    → row_reserve (record (waited r l.cleanup o) { outcome_at = format now }) + 1 ≤ row_reserve r
unfolding waited row_reserve phase_policy
waited_reserve l r hint none e d now = ground arith
waited_reserve l r hint (some t) e d now =
    ground (arith, apply_extends (phase_policy r l.cleanup) hint t e)

recovery_waited_reserve :
    (l : Lease) (r : Row) (hint : Hint) (rec : Recovery) (o : Option State)
    → (if l.cleanup then r.cleanup_recovery else r.recovery) ≡ some rec
    → apply rec.retry hint ≡ o
    → Due l r
    → (now : Instant)
    → row_reserve (record (recovery_waited r l.cleanup rec o) { outcome_at = format now }) + 1
      ≤ row_reserve r
unfolding recovery_waited row_reserve
recovery_waited_reserve l r hint rec none p e d now = ground arith
recovery_waited_reserve l r hint rec (some t) p e d now =
    ground (arith, apply_extends rec.retry hint t e)

wait_recovery_reserve :
    (l : Lease) (r : Row) (hint : Hint) (o : Option Recovery)
    → (if l.cleanup then r.cleanup_recovery else r.recovery) ≡ o
    → Due l r
    → (now : Instant)
    → row_reserve (record (wait_recovery r l.cleanup o hint) { outcome_at = format now }) + 1
      ≤ row_reserve r
unfolding wait_recovery
wait_recovery_reserve l r hint none p d now = unfold row_reserve in ground arith
wait_recovery_reserve l r hint (some rec) p d now =
    recovery_waited_reserve l r hint rec (apply rec.retry hint) p refl d now

wait_maintenance_reserve :
    (l : Lease) (r : Row) (hint : Hint) (o : Option Maintenance)
    → o ≢ none
    → Due l r
    → (now : Instant) → row_reserve (wait_maintenance r l.cleanup o hint now) + 1 ≤ row_reserve r
unfolding wait_maintenance
wait_maintenance_reserve l r hint none h d now = absurd (h refl)
wait_maintenance_reserve l r hint (some m) h d now =
    unfold row_reserve in ground (arith, defer_outcome m hint now)

executable_maintenance :
    (l : Lease) (r : Row)
    → executable l r ≡ true
    → l.maintenance ≡ true
    → maintenance_state r l.cleanup ≢ none
unfolding executable
executable_maintenance l r h m = ground arith

-- After a failed call the row keeps less for the future than it did before the call.
pub wait_row-frees :
    (l : Lease) (r : Row) (hint : Hint) (now : Instant)
    → executable l r ≡ true
    → Due l r
    → row_reserve (wait_row l r hint now) + 1 ≤ row_reserve r
unfolding wait_row
wait_row-frees l r hint now ex d = elim (Bool-cases l.maintenance) [
  | inl yes_m ↦ rw yes_m (
      wait_maintenance_reserve l r hint (maintenance_state r l.cleanup)
        (executable_maintenance l r ex yes_m) d now)
  | inr no_m ↦ rw no_m (elim (Bool-cases l.recovery) [
    | inl yes_r ↦ rw yes_r (wait_recovery_reserve l r hint (phase_recovery r l.cleanup) refl d now)
    | inr no_r ↦
        rw no_r (waited_reserve l r hint (apply (phase_policy r l.cleanup) hint) refl d now)
  ])
]

settled_reserve :
    (l : Lease) (r : Row) (stamp : Stamp)
    → row_reserve (settled l r stamp) ≡ row_reserve (record r { outcome_at = stamp })
unfolding settled row_reserve
settled_reserve l r stamp = ground arith

removed_reserve :
    (l : Lease) (r r' : Row) (seen : Observed) (stamp : Stamp) (now : Instant)
    → l.cleanup ≡ true
    → Due l r
    → removed l r seen stamp ≡ ok r'
    → row_reserve (record r' { outcome_at = format now }) + 1 ≤ row_reserve r
unfolding removed row_reserve
removed_reserve l r r' seen stamp now c d h = ground arith

established_reserve :
    (l : Lease) (r r' : Row) (seen : Observed) (checkpointed : Bool) (stamp : Stamp) (now : Instant)
    → l.cleanup ≡ false
    → Due l r
    → established l r seen checkpointed stamp ≡ ok r'
    → row_reserve (record r' { outcome_at = format now }) + 1 ≤ row_reserve r
unfolding established row_reserve
established_reserve l r r' seen checkpointed stamp now c d h = ground arith

observe_reserve :
    (l : Lease) (r r' : Row) (seen : Observed) (checkpointed : Bool) (stamp : Stamp) (now : Instant)
    → (if l.cleanup then removed l r seen stamp else established l r seen checkpointed stamp)
      ≡ ok r'
    → Due l r
    → row_reserve (record r' { outcome_at = format now }) + 1 ≤ row_reserve r
observe_reserve l r r' seen checkpointed stamp now h d = elim (Bool-cases l.cleanup) [
  | inl yes_c ↦
      removed_reserve l r r' seen stamp now yes_c d (sym (if-true l.cleanup _ _ yes_c) ∙ h)
  | inr no_c ↦
      established_reserve l r r' seen checkpointed stamp now no_c d
        (sym (if-false l.cleanup _ _ no_c) ∙ h)
]

-- So it is after a call that returned.
pub settle_row-frees :
    (l : Lease) (r r' : Row) (seen : Observed) (checkpointed : Bool) (seen_at saved_at : Instant)
    → settle_row l r seen checkpointed seen_at saved_at ≡ ok r'
    → Due l r
    → row_reserve r' + 1 ≤ row_reserve r
unfolding settle_row
settle_row-frees l r r' seen checkpointed seen_at saved_at h d =
    let (r1, e1, e2) =
      >>=-eq-ok
        (if l.cleanup
          then removed l r seen (format seen_at)
          else established l r seen checkpointed (format seen_at))
        (λ x. ok (settled l x (format saved_at))) h in
    let same : settled l r1 (format saved_at) ≡ r' = cc e2 in
    rw (← same) (
      rw (settled_reserve l r1 (format saved_at))
        (observe_reserve l r r1 seen checkpointed (format seen_at) saved_at e1 d))
