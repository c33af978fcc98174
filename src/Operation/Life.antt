-- ===== src/Operation/Life.antt =====
-- The whole life of a row of the saved DNS plan, over the operations of internal/inventorystore:
-- begun attempts, failed calls and calls that returned, in any order and with any answers.
use rootwell.Prelude.{ℕ, ◌+◌, ◌≤◌, ◌≡◌, ◌⊎◌, Bool, true, false, ◌||◌, none, arith, if◌then◌else◌}
use rootwell.Clock.{Instant}
use rootwell.Retry.{Hint, fresh}
use rootwell.Dns.{Row, RowState, new, creating, deleting, deleted, is_creating, is_deleting}
use rootwell.Image.{ok}
use rootwell.Operation.{Mode, add, Lease, cleanup_phase, mode_allowed, begin_row, is_maintenance}
use rootwell.Operation.Begin.Change.{begin_row-Pending, begin_row-Counted}
use rootwell.Operation.Settle.{Observed, lease_fits, wait_row, settle_row}
use rootwell.Operation.Settle.Keeps.{
  lease_fits_state, attempts_of, Bounded, wait_row-Kept, Moved, settle_row-Moved,
}

-- A lease that is not for reading alone lets the provider create, or remove, the record.
abbrev sends : Bool → Mode → RowState → ℕ
sends removal mode st =
    if is_creating st || is_deleting st
    then 0
    else if removal
    then (if cleanup_phase mode st then 1 else 0)
    else if cleanup_phase mode st
    then 0
    else 1

abbrev counts : Mode → ℕ
counts mode = if is_maintenance mode then 0 else 1

-- The rows that a prepared one becomes, with the leases minted so far to create and to remove the
-- record, and the attempts begun other than maintenance reads.
pub data Life : Row → ℕ → ℕ → ℕ → Type 0 where
  prepared :
      {r : Row}
      → r.state ≡ new
      → r.retry ≡ fresh
      → r.cleanup ≡ none
      → r.recovery ≡ none
      → r.cleanup_recovery ≡ none
      → Life r 0 0 0
  begun :
      {r r' : Row} {c d n c' d' n' : ℕ} (mode : Mode) (now : Instant) (jitter : ℕ)
      → Life r c d n
      → mode_allowed mode r.state ≡ true
      → begin_row r mode now jitter ≡ ok r'
      → c' ≡ c + sends false mode r.state
      → d' ≡ d + sends true mode r.state
      → n' ≡ n + counts mode
      → Life r' c' d' n'
  failed :
      {r r' : Row} {c d n : ℕ} (l : Lease) (hint : Hint) (now : Instant)
      → Life r c d n
      → lease_fits l r ≡ true
      → r' ≡ wait_row l r hint now
      → Life r' c d n
  returned :
      {r r' : Row} {c d n : ℕ} (l : Lease) (seen : Observed) (checkpointed : Bool)
      (seen_at saved_at : Instant)
      → Life r c d n
      → lease_fits l r ≡ true
      → settle_row l r seen checkpointed seen_at saved_at ≡ ok r'
      → Life r' c d n

-- The leases minted so far against the state: none to create before the first attempt, none to
-- remove before the removal, and never two of a kind.
record Staged (st : RowState) (c d : ℕ) : Type 0 where
  creates : c ≤ 1
  deletes : d ≤ 1
  none_yet : st ≡ new → c ≡ 0
  no_removal : (st ≡ deleting) ⊎ (st ≡ deleted) ⊎ (d ≡ 0)

-- What every row of a life keeps.
record Alive (r : Row) (c d n : ℕ) : Type 0 where
  staged : Staged r.state c d
  total : n ≡ attempts_of r
  bounded : Bounded r

Staged-begun :
    (st st' : RowState) (c d : ℕ) (mode : Mode)
    → Staged st c d
    → mode_allowed mode st ≡ true
    → (cleanup_phase mode st ≡ true → st' ≡ deleting)
      × (cleanup_phase mode st ≡ false → st' ≡ creating)
    → Staged st' (c + sends false mode st) (d + sends true mode st)
unfolding mode_allowed cleanup_phase
Staged-begun st st' c d add s h p = ground arith
Staged-begun st st' c d _ s h p = ground arith

Staged-Moved :
    (l : Lease) (r r' : Row) (c d : ℕ)
    → Staged r.state c d
    → lease_fits l r ≡ true
    → Moved l r r'
    → Staged r'.state c d
Staged-Moved l r r' c d s h m = ground (arith, lease_fits_state l r h)

Life-Alive : {r : Row} (c d n : ℕ) → Life r c d n → Alive r c d n
Life-Alive c d n (prepared st a b e f) = record {
  staged = ground arith;
  total = ground arith;
  bounded = ground arith;
}
Life-Alive c d n (begun {r} {r'} {c = c0} {d = d0} {n = n0} mode now jitter life h e p q t) =
    let a = Life-Alive c0 d0 n0 life in
    let k = begin_row-Counted r r' mode now jitter e in
    rw (p, q, t)
      (record {
        staged =
            Staged-begun r.state r'.state c0 d0 mode a.staged h
              (begin_row-Pending r r' mode now jitter h e).phase;
        total = omega (arith, a.total, k.total);
        bounded = k.bounded a.bounded;
      })
Life-Alive c d n (failed {r} {r'} l hint now life h e) =
    let a = Life-Alive c d n life in
    let k = wait_row-Kept l r hint now h in
    rw e (record {
      staged = rw k.state a.staged;
      total = omega (arith, a.total, k.retry, k.cleanup, k.recovery, k.cleanup_recovery);
      bounded = omega (arith, a.bounded, k.retry, k.cleanup, k.recovery, k.cleanup_recovery);
    })
Life-Alive c d n (returned {r} {r'} l seen checkpointed seen_at saved_at life h e) =
    let a = Life-Alive c d n life in
    let m = settle_row-Moved l r r' seen checkpointed seen_at saved_at e in
    record {
      staged = Staged-Moved l r r' c d a.staged h m;
      total = ground (arith, a.total, m.retry, m.cleanup, m.recovery, m.cleanup_recovery);
      bounded = ground (arith, a.bounded, m.retry, m.cleanup, m.recovery, m.cleanup_recovery);
    }

-- In the whole life of a row at most one begun lease is for creating its record rather than for
-- reading, and at most one is for removing it. Attempts other than maintenance reads are at most 24.
pub Life_bounds :
    {r : Row} (creates deletes begun : ℕ)
    → Life r creates deletes begun
    → (creates ≤ 1) × (deletes ≤ 1) × (begun ≤ 24)
Life_bounds c d n life =
    let a = Life-Alive c d n life in
    (a.staged.creates, a.staged.deletes, omega (arith, a.total, a.bounded))
