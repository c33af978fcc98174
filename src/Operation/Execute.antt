-- ===== src/Operation/Execute.antt =====
-- `executeStagingDNSAttemptAt` of internal/inventorystore/dns_operation.go and
-- `deferStagingDNSAttemptAt` of dns_plan.go: the leased attempt against the provider.
pub mod Funded
pub mod Sealing
use rootwell.Prelude.{
  ℕ, String, Bool, true, false, not, ◌&&◌, ◌||◌, Option, none, some, List, [], ◌∷◌, ltb, ◌==◌,
  if◌then◌else◌, get_elem?, set,
}
use rootwell.Clock.{Instant, years}
use rootwell.Clock.Stamp.{Stamp, format, before, earlier, is_blank}
use rootwell.Retry.{State, Hint, max_attempts}
use rootwell.Dns.{Row, creating, deleting, Recovery, Maintenance, Plan, is_creating}
use rootwell.Dns.Maintain.{maintenance_state}
use rootwell.Image.{Image, Order, Result, err, refuse_if, invalid, stale_generation, ◌>>=◌}
use rootwell.Operation.{Codec, Lease, phase_policy, phase_recovery, seal_plan}
use rootwell.Operation.Settle.{Observed, same_observed, same_bool, lease_fits, wait_row, settle_row}

-- A reading of the clock with the answer of the caller's `permit`.
pub record Tick : Type 0 where
  pub now : Instant
  pub permit : Bool

-- What the provider's callback returns.
pub data Reply : Type 0 where
  failed : Hint → Reply
  returned : Observed → Reply

-- What the world answers during one execution: the calls of `allowed` before the configuration is
-- opened, before and after the call and before the saving, the calls that the provider's callback
-- makes of `checkpoint`, its reply, and the readings of the clock for the two saved texts.
pub record World : Type 0 where
  pub opening : Tick
  pub calling : Tick
  pub asked : List (Observed × Tick)
  pub reply : Reply
  pub returning : Tick
  pub saving : Tick
  pub seen_at : Instant
  pub saved_at : Instant

-- `retry.LastAt` as the lease reads it.
recovery_last : Option Recovery → State → Stamp
recovery_last none s = s.last_at
recovery_last (some rec) s = rec.retry.last_at

maintenance_last : Option Maintenance → Stamp → Stamp
maintenance_last none last = last
maintenance_last (some m) last = m.last_at

unfoldable pub lease_last : Lease → Row → Stamp
unfolding recovery_last maintenance_last
lease_last l r =
    let prior = phase_policy r l.cleanup in
    let last =
      if l.recovery then recovery_last (phase_recovery r l.cleanup) prior else prior.last_at in
    if l.maintenance then maintenance_last (maintenance_state r l.cleanup) last else last

-- `allowed`
unfoldable pub allowed : Lease → Row → Plan → Order → Tick → Bool
allowed l r p order t =
    years 2020 2100 t.now
    && not (before (format t.now) (lease_last l r))
    && t.permit
    && (l.cleanup || l.read_only || before (format t.now) (earlier p.expires order.expires))

usable_recovery : Option Recovery → Bool
usable_recovery none = false
usable_recovery (some rec) = not rec.blocked

usable_maintenance : Option Maintenance → Bool
usable_maintenance none = false
usable_maintenance (some m) = not m.resolved && is_blank m.outcome_at

-- The tests on the lease against the row.
unfoldable pub executable : Lease → Row → Bool
unfolding usable_recovery usable_maintenance
executable l r =
    lease_fits l r
    && (not l.recovery
        || l.read_only
          && (phase_policy r l.cleanup).attempts == max_attempts
          && usable_recovery (phase_recovery r l.cleanup))
    && (not l.maintenance
        || l.read_only
          && not l.recovery
          && usable_maintenance (maintenance_state r l.cleanup)
          && is_blank r.outcome_at)

-- `wanted` of `checkpoint`
abbrev wanted : Lease → Row → Observed
wanted l r =
    if l.cleanup
    then record { state = deleting; id = r.id }
    else record { state = creating; id = [] }

-- The calls of `checkpoint` in their order, with its flag.
unfoldable pub checkpoints : Lease → Row → Plan → Order → Bool → List (Observed × Tick) → Bool
checkpoints l r p order passed [] = passed
checkpoints l r p order passed ((seen, t) ∷ rest) =
    checkpoints l r p order
      (passed || not l.read_only && same_observed seen (wanted l r) && allowed l r p order t) rest

abbrev pub wait_action : Lease → String
wait_action l =
    if l.maintenance
    then "acme-dns-maintenance-wait"
    else if l.recovery
    then "acme-dns-recovery-wait"
    else "acme-dns-wait-saved"

abbrev pub result_action : Lease → String
result_action l =
    if l.maintenance
    then "acme-dns-maintenance-result"
    else if l.recovery
    then "acme-dns-recovery-result"
    else "acme-dns-result-saved"

config_matches : Option ℕ → Plan → Bool
config_matches none p = false
config_matches (some g) p = p.config_generation == g

module _ (codec : Codec) where
  -- The saving of what the provider answered.
  conclude : Image → Plan → Row → Lease → World → Reply → Result Image
  conclude m p r l w (failed hint) =
      seal_plan codec m (record p { rows = set p.rows l.index (wait_row l r hint w.saved_at) })
        (wait_action l) w.saved_at
  conclude m p r l w (returned seen) =
      settle_row l r seen (checkpoints l r p m.order false w.asked) w.seen_at w.saved_at >>= λ r'.
      refuse_if (not (allowed l r p m.order w.saving)) invalid
        (seal_plan codec m (record p { rows = set p.rows l.index r' }) (result_action l) w.saved_at)

  execute_at : Image → Plan → Option Row → Lease → World → Result Image
  unfolding conclude config_matches
  execute_at m p none l w = err invalid
  execute_at m p (some r) l w = refuse_if (not (executable l r)) invalid (
      refuse_if (not (allowed l r p m.order w.opening)) invalid (
        refuse_if (not (config_matches m.config p)) invalid (
          refuse_if (not (allowed l r p m.order w.calling)) invalid (
            refuse_if (not (allowed l r p m.order w.returning)) invalid
              (conclude m p r l w w.reply)))))

  execute_on : Image → Option Plan → Lease → World → Result Image
  unfolding execute_at
  execute_on m none l w = err invalid
  execute_on m (some p) l w = execute_at m p (get_elem? p.rows l.index) l w

  -- `executeStagingDNSAttemptAt`: the lease comes back consumed, whatever happens after that.
  unfoldable pub execute : Image → Lease → World → Lease × Result Image
  unfolding execute_on
  execute m l w = (
    record l { used = true },
    refuse_if l.used invalid (
        refuse_if (not (l.image_hash == codec.digest m)) stale_generation (
          refuse_if (m.historical || not (l.generation == m.generation)) invalid
            (execute_on m m.plan l w))),
  )

  defer_at : Image → Plan → Option Row → Lease → Hint → Instant → Result Image
  defer_at m p none l hint now = err invalid
  defer_at m p (some r) l hint now =
      refuse_if
        (l.cleanup
          || l.recovery
          || l.maintenance
          || not (is_creating r.state)
          || not (same_bool l.read_only (ltb 1 r.retry.attempts)))
        invalid
        (seal_plan codec m (record p { rows = set p.rows l.index (wait_row l r hint now) })
          "acme-dns-wait-saved" now)

  defer_on : Image → Option Plan → Lease → Hint → Instant → Result Image
  unfolding defer_at
  defer_on m none l hint now = err invalid
  defer_on m (some p) l hint now = defer_at m p (get_elem? p.rows l.index) l hint now

  -- `deferStagingDNSAttemptAt`
  defer_attempt : Image → Lease → Hint → Instant → Lease × Result Image
  unfolding defer_on
  defer_attempt m l hint now = (
    record l { used = true },
    refuse_if l.used invalid (
        refuse_if (not (l.image_hash == codec.digest m)) stale_generation (
          refuse_if (not (l.generation == m.generation) || m.historical) stale_generation
            (defer_on m m.plan l hint now))),
  )
