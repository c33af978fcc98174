-- ===== src/Operation.antt =====
-- `beginDNSOperationAt` and `sealDNSPlan` of internal/inventorystore/dns_plan.go: an attempt on one
-- row of the saved plan is written into the image before the provider is called.
mod Tests
pub mod Settle
pub mod Execute
pub mod Life
pub mod Begin
use rootwell.Prelude.{
  ℕ, zero, suc, ◌+◌, ◌-◌, ◌*◌, ◌/◌, ◌%◌, ◌^◌, ◌≤◌, ◌<◌, min, max, String, ◌≡◌, refl, sym, ap, subst,
  ◌∙◌, ◌≢◌, ◌↔◌, ◌⊎◌, inl, inr, Bool, true, false, not, ◌&&◌, ◌||◌, Option, none, some, List, [],
  ◌∷◌, ◌++◌, map, arith, ltb, leb, ◌==◌, if◌then◌else◌, Bool-cases, Option-cases, length, get_elem?,
  set, all, length-append, str_eq, eq_iff, eq_refl, tests,
}
use rootwell.Prelude.Bytes.{Bytes, bytes_eq}
use rootwell.Clock.{Instant, years}
use rootwell.Clock.Stamp.{Stamp, blank, at, malformed, format, before, later, earlier}
use rootwell.Retry.{State, begin, fresh, max_attempts}
use rootwell.Dns.{
  Row, RowState, new, creating, created, deleting, deleted, borrowed, other, Recovery, Plan, is_new,
  is_creating, is_deleting, must_time,
}
use rootwell.Dns.Maintain.{begin_maintenance}
use rootwell.Image.{
  Image, Order, OrderState, dns_ready, dns_acknowledged, Txt, Result, ok, err, ◌>>=◌, refuse_if,
  invalid, limit, stale_generation, retry_unavailable, max_generation, max_history, max_image,
}
use rootwell.Image.Reserve.{
  total_reserve, reserve_refused, reserved_image_bytes, admitted, dns_plan_byte_reserve,
}
use rootwell.Image.History.{add_event}

-- What the JSON encoder, the cipher and SHA-256 make of an image and of a plan, as numbers.
pub record Codec : Type 0 where
  pub size : Image → ℕ
  pub plan_size : Plan → ℕ
  pub digest : Image → ℕ

-- The texts of `mode`.
pub data Mode : Type 0 where
  add check cleanup recover maintenance unknown : Mode

-- `dnsAttemptLease`
pub record Lease : Type 0 where
  pub image_hash : ℕ
  pub generation : ℕ
  pub index : ℕ
  pub read_only : Bool
  pub cleanup : Bool
  pub recovery : Bool
  pub maintenance : Bool
  pub used : Bool

abbrev pub is_recover : Mode → Bool
is_recover recover = true
is_recover _ = false

abbrev pub is_maintenance : Mode → Bool
is_maintenance maintenance = true
is_maintenance _ = false

-- `cleanup`: whether the attempt is on the removal of the record.
pub cleanup_phase : Mode → RowState → Bool
cleanup_phase cleanup st = true
cleanup_phase add st = false
cleanup_phase _ st = is_deleting st

-- The test of the mode against the state.
pub mode_allowed : Mode → RowState → Bool
mode_allowed add new = true
mode_allowed add creating = true
mode_allowed check creating = true
mode_allowed check deleting = true
mode_allowed recover creating = true
mode_allowed recover deleting = true
mode_allowed maintenance creating = true
mode_allowed maintenance deleting = true
mode_allowed cleanup created = true
mode_allowed _ _ = false

abbrev dns_open : OrderState → Bool
dns_open dns_ready = true
dns_open dns_acknowledged = true
dns_open _ = false

-- The test on the instant.
pub time_allowed : Row → Plan → Order → Instant → Bool
time_allowed r p order now =
    years 2020 2100 now
    && not (before (format now) (later p.prepared_at (later r.checked_at r.outcome_at)))
    && (not (is_new r.state)
        || ltb now (must_time (earlier p.expires order.expires)) && dns_open order.state)

-- The loop over the order's records for a row that is new.
pub required_by : List Txt → Row → Bool
required_by [] r = false
required_by (t ∷ ts) r =
    bytes_eq t.domain r.domain && bytes_eq t.name r.name && bytes_eq t.value r.value && t.required
    || required_by ts r

state_or_fresh : Option State → State
state_or_fresh none = fresh
state_or_fresh (some s) = s

-- The policy of the phase: `prior` and `blocked`.
pub phase_policy : Row → Bool → State
unfolding state_or_fresh
phase_policy r clean = if clean then state_or_fresh r.cleanup else r.retry

abbrev phase_blocked : Row → Bool → Bool
phase_blocked r clean = if clean then r.cleanup_blocked else r.blocked

abbrev pub phase_recovery : Row → Bool → Option Recovery
phase_recovery r clean = if clean then r.cleanup_recovery else r.recovery

-- The retry state that a recovery continues.
recovery_prior : Option Recovery → Result State
recovery_prior none = ok fresh
recovery_prior (some rec) = if rec.blocked then err invalid else ok rec.retry

-- The retry state that the attempt is counted in.
pub prior_of : Row → Bool → Bool → Instant → Result State
unfolding recovery_prior
prior_of r clean recovering now =
    let prior = phase_policy r clean in
    if phase_blocked r clean
    then err invalid
    else if not recovering
    then ok prior
    else if not (prior.attempts == max_attempts) || before (format now) prior.not_before
    then err invalid
    else recovery_prior (phase_recovery r clean)

-- The row with the reserved attempt.
pub with_attempt : Row → Bool → Bool → State → Row
with_attempt r clean recovering t =
    let rec : Recovery = record { retry = t; blocked = false } in
    if recovering
    then (if clean
        then record r { cleanup_recovery = some rec; outcome_at = blank }
        else record r { recovery = some rec; outcome_at = blank })
    else if clean
    then record r { state = deleting; cleanup = some t; outcome_at = blank }
    else record r { state = creating; retry = t; outcome_at = blank }

begun : Row → Bool → Bool → Option State → Result Row
begun r clean recovering none = err retry_unavailable
begun r clean recovering (some t) = ok (with_attempt r clean recovering t)

maintained : Option Row → Result Row
maintained none = err invalid
maintained (some r) = ok r

-- The part of `beginDNSOperationAt` that changes the row; `jitter` is the drawn number.
pub begin_row : Row → Mode → Instant → ℕ → Result Row
unfolding begun maintained
begin_row r mode now jitter =
    let clean = cleanup_phase mode r.state in
    if is_maintenance mode
    then maintained (begin_maintenance r now)
    else (prior_of r clean (is_recover mode) now >>= λ prior.
        begun r clean (is_recover mode) (begin prior now jitter))

abbrev pub action_of : Mode → String
action_of recover = "acme-dns-recovery-started"
action_of maintenance = "acme-dns-maintenance-started"
action_of _ = "acme-dns-attempt-started"

module _ (codec : Codec) where
  -- `encode`, and of the reading back of what was encoded the tests on counters and limits; the rows
  -- of the plan are not opened again.
  unfoldable pub encoded : Image → Result Image
  encoded m =
      refuse_if (ltb (max_image - reserved_image_bytes m) (codec.size m)) limit
        (refuse_if (not (admitted codec.size m)) invalid (ok m))

  -- `sealDNSPlan`
  unfoldable pub seal_plan : Image → Plan → String → Instant → Result Image
  unfolding encoded
  seal_plan m p action now =
      refuse_if (leb max_generation m.generation || leb max_history (length m.history)) limit (
        refuse_if (ltb (16384 - 64) (codec.plan_size p)) invalid (
          add_event (record m { generation = m.generation + 1; plan = some p }) action
            (p.account ∷ []) now
          >>= encoded))

  pub lease_for : Image → ℕ → Mode → RowState → Lease
  lease_for m index mode st = record {
    image_hash = codec.digest m;
    generation = m.generation;
    index = index;
    read_only = is_creating st || is_deleting st;
    cleanup = cleanup_phase mode st;
    recovery = is_recover mode;
    maintenance = is_maintenance mode;
    used = false;
  }

  -- The end of `beginDNSOperationAt`: the reservation, the sealing and the lease.
  seal_begun : Image → Plan → ℕ → Mode → RowState → Row → Instant → Result (Image × Lease)
  unfolding lease_for
  seal_begun m p index mode st r now =
      let p' = record p { rows = set p.rows index r } in
      let m' = record m { plan = some p' } in
      let reserve = total_reserve m' in
      refuse_if (reserve_refused m') limit (
        refuse_if
          (ltb (max_generation - reserve - 1) m.generation
            || ltb (max_history - reserve - 1) (length m.history)
            || ltb (max_image - dns_plan_byte_reserve) (codec.size m))
          limit
          (seal_plan m p' (action_of mode) now >>= λ next. ok (next, lease_for next index mode st)))

  begin_at : Image → Plan → ℕ → Option Row → Mode → Instant → ℕ → Result (Image × Lease)
  unfolding seal_begun
  begin_at m p index none mode now jitter = err invalid
  begin_at m p index (some r) mode now jitter =
      refuse_if (not (mode_allowed mode r.state)) invalid (
        refuse_if (not (time_allowed r p m.order now)) invalid (
          refuse_if (is_new r.state && not (required_by m.order.records r)) invalid
            (begin_row r mode now jitter >>= λ r'. seal_begun m p index mode r.state r' now)))

  begin_on : Image → Option Plan → ℕ → Mode → Instant → ℕ → Result (Image × Lease)
  unfolding begin_at
  begin_on m none index mode now jitter = err invalid
  begin_on m (some p) index mode now jitter =
      refuse_if m.historical invalid (begin_at m p index (get_elem? p.rows index) mode now jitter)

  -- `beginDNSOperationAt` on an authenticated image.
  pub begin_operation : Image → ℕ → ℕ → Mode → Instant → ℕ → Result (Image × Lease)
  unfolding begin_on
  begin_operation m expected index mode now jitter =
      refuse_if (expected == 0 || not (expected == m.generation)) stale_generation
        (begin_on m m.plan index mode now jitter)
