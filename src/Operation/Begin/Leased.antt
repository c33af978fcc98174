-- ===== src/Operation/Begin/Leased.antt =====
-- `beginDNSOperationAt`: the image and the lease that it returns.
use rootwell.Prelude.{
  ℕ, ◌+◌, ◌≡◌, refl, ap, ◌∙◌, Bool, true, false, ◌||◌, some, arith, if◌then◌else◌, length,
  get_elem?, set, length-append,
}
use rootwell.Clock.{Instant}
use rootwell.Clock.Stamp.{blank}
use rootwell.Dns.{Plan, Row, RowState, creating, deleting, is_creating, is_deleting}
use rootwell.Image.{Image, ok}
use rootwell.Operation.{Codec, Mode, Lease, lease_for, cleanup_phase, begin_operation}
use rootwell.Operation.Begin.{begin_operation-Begun}
use rootwell.Operation.Begin.Change.{begin_row-Pending}

phase_state :
    (clean : Bool) (st : RowState)
    → (clean ≡ true → st ≡ deleting) × (clean ≡ false → st ≡ creating)
    → st ≡ (if clean then deleting else creating)
phase_state true st (a, b) = a refl
phase_state false st (a, b) = b refl

-- A begun operation changes one row of the plan, which then waits for an outcome in the phase of the
-- lease, takes the next generation and one event, and leases just this image; the lease is for
-- reading alone exactly when the row was already waiting.
pub begin_operation_leases :
    (codec : Codec) (m m' : Image) (expected index : ℕ) (mode : Mode) (now : Instant) (jitter : ℕ)
    (l : Lease)
    → begin_operation codec m expected index mode now jitter ≡ ok (m', l)
    → (p : Plan) × (r : Row) × (r' : Row) × (m.plan ≡ some p)
      × (get_elem? p.rows index ≡ some r)
      × (m'.plan ≡ some (record p { rows = set p.rows index r' }))
      × (r'.state ≡ (if l.cleanup then deleting else creating))
      × (r'.outcome_at ≡ blank)
      × (m'.generation ≡ expected + 1)
      × (length m'.history ≡ length m.history + 1)
      × (l.generation ≡ m'.generation)
      × (l.image_hash ≡ codec.digest m')
      × (l.index ≡ index)
      × (l.read_only ≡ (is_creating r.state || is_deleting r.state))
      × (l.used ≡ false)
unfolding lease_for
begin_operation_leases codec m m' expected index mode now jitter l h =
    let b = begin_operation-Begun codec m expected index mode now jitter m' l h in
    let c = begin_row-Pending b.row b.row' mode now jitter b.mode_ok b.changed in
    let image = b.sealed.image in
    (
      b.plan,
      b.row,
      b.row',
      b.has_plan,
      b.has_row,
      ap (λ (x : Image). x.plan) image,
      phase_state (cleanup_phase mode b.row.state) b.row'.state c.phase ∙ rw b.lease refl,
      c.outcome,
      ap (λ (x : Image). x.generation) image ∙ omega (arith, b.current),
      ap (λ (x : Image). length x.history) image ∙ omega (arith, length-append m.history),
      ap (λ (x : Lease). x.generation) b.lease,
      ap (λ (x : Lease). x.image_hash) b.lease,
      ap (λ (x : Lease). x.index) b.lease,
      ap (λ (x : Lease). x.read_only) b.lease,
      ap (λ (x : Lease). x.used) b.lease,
    )
