-- ===== src/Cycle/Decide.antt =====
-- `DecideRenewalCycle` of internal/inventorystore/renewal_cycle.go.
use rootwell.Prelude.{
  ℕ, ◌*◌, ◌^◌, Bool, true, false, not, ◌&&◌, ◌||◌, Option, none, some, List, [], ◌∷◌, ltb, leb,
  ◌==◌, if◌then◌else◌, all, str_eq,
}
use rootwell.Prelude.Bytes.{Bytes, bytes_eq}
use rootwell.Clock.{Instant, is_zero, years}
use rootwell.Fingerprint.{valid_fingerprint}
use rootwell.Dns.{is_borrowed, is_deleted, is_empty}
use rootwell.Image.{OrderState}
use rootwell.Cycle.{
  Moment, unset, due, garbled, Action, Reason, Decision, IssuanceState, RowStatus, Snapshot,
}
use rootwell.Cycle.Rows.{
  pause, choose, wait_until, wait, is_wait, instant_of, takes_dns, Scan, stopped, scanned, scan,
}

abbrev pub cycle_events : ℕ
cycle_events = 320

abbrev pub cycle_bytes : ℕ
cycle_bytes = 4 * 2 ^ 20

-- `if test { return pause(reason) }`, and `if d, ok := wait(…); ok { return d }`.
unfoldable pub pause_if : Bool → Reason → Decision → Decision
pause_if test reason rest = if test then pause reason else rest

unfoldable pub unless_waiting : Option Decision → Decision → Decision
unless_waiting none rest = rest
unless_waiting (some d) rest = d

-- `strings.HasPrefix`, `strings.HasSuffix` and `strings.TrimPrefix(domain, "*.")`.
abbrev has_prefix : Bytes → Bytes → Bool
has_prefix s [] = true
has_prefix [] (c ∷ cs) = false
has_prefix (x ∷ xs) (c ∷ cs) = x == c && has_prefix xs cs

abbrev has_suffix : Bytes → Bytes → Bool
has_suffix [] end = bytes_eq [] end
has_suffix (x ∷ xs) end = bytes_eq (x ∷ xs) end || has_suffix xs end

abbrev trim_wildcard : Bytes → Bytes
trim_wildcard [] = []
trim_wildcard (a ∷ []) = a ∷ []
trim_wildcard (a ∷ b ∷ rest) = if a == b'*' && b == b'.' then rest else a ∷ b ∷ rest

unfoldable pub in_zone : Bytes → Bytes → Bool
in_zone zone domain =
    let base = trim_wildcard domain in bytes_eq base zone || has_suffix base (b'.' ∷ zone)

abbrev pub not_begun : OrderState → Bool
not_begun OrderState.not_started = true
not_begun _ = false

abbrev is_saved_state : IssuanceState → Bool
is_saved_state IssuanceState.certificate_saved = true
is_saved_state _ = false

unfoldable pub bound : Snapshot → Bool
bound s = bytes_eq s.order_source s.fingerprint && not (not_begun s.order_state)

unfoldable pub saved : Snapshot → Bool
unfolding bound
saved s = bound s && not (is_empty s.saved_fingerprint) && is_saved_state s.issuance

-- The last switches.
abbrev pub issue : IssuanceState → Decision
issue IssuanceState.not_started = choose Action.certificate
issue IssuanceState.issuance_pending = choose Action.certificate_read
issue IssuanceState.not_issued = choose Action.certificate_read
issue IssuanceState.awaiting_certificate = choose Action.certificate_read
issue _ = pause Reason.certificate_unconfirmed

unfoldable pub finish : Snapshot → OrderState → Decision
finish s OrderState.dns_ready = choose Action.ack
finish s OrderState.dns_acknowledged = choose Action.validate
finish s OrderState.validation_pending = choose Action.validation_read
finish s OrderState.validation_waiting = choose Action.validation_read
finish s OrderState.domain_verified =
    if not s.key_prepared then choose Action.key else issue s.issuance
finish s _ = pause Reason.invalid_state

-- The end of the loop over the rows: a hold, a selected row, or the step of the order.
unfoldable pub after_rows : Snapshot → Bool → Scan → Decision
unfolding finish
after_rows s done (stopped d) = d
after_rows s done (scanned selected hold) =
    if not (is_zero hold) then wait_until Reason.dns_wait (due hold) else elim selected [
      | some d ↦ d
      | none ↦ if done then choose Action.complete else finish s s.order_state
    ]

unfoldable pub by_rows : Snapshot → Bool → Instant → Decision
unfolding after_rows
by_rows s done now = after_rows s done (scan done s.order_state now 0 s.rows none 0)

-- One deadline of the request: the order's, and the one that the issuance has narrowed.
unfoldable pub until : Moment → Instant → Decision → Decision
unfolding pause_if
until unset now rest = rest
until garbled now rest = pause Reason.clock_unavailable
until (due t) now rest = pause_if (leb t now) Reason.request_expired rest

-- The switch on the state of an order that is bound to the source.
unfoldable pub order_step : OrderState → Decision → Decision
order_step OrderState.request_pending rest = pause Reason.order_unconfirmed
order_step OrderState.validation_failed rest = pause Reason.validation_failed
order_step OrderState.not_started rest = pause Reason.invalid_state
order_step _ rest = rest

abbrev pub is_known : OrderState → Bool
is_known OrderState.order_known = true
is_known _ = false

abbrev pub unconfirmed : IssuanceState → Bool
unconfirmed IssuanceState.issuance_failed = true
unconfirmed IssuanceState.saved_certificate_deleted = true
unconfirmed _ = false

-- `bound` and not `saved`.
unfoldable pub in_order : Snapshot → Instant → Decision
unfolding pause_if unless_waiting by_rows until order_step
in_order s now = pause_if (ltb s.closures_left 1) Reason.request_capacity (
    pause_if (str_eq s.close_reason "expired") Reason.request_expired (
      until s.order_expires now (
        until s.issuance_expires now (
          order_step s.order_state (
            pause_if (unconfirmed s.issuance) Reason.certificate_unconfirmed (
              unless_waiting (wait s.timing.provider_not_before now) (
                if is_known s.order_state
                then choose Action.order_read
                else if s.required_dns && not s.dns_prepared && takes_dns s.order_state
                then choose Action.dns_plan
                else by_rows s false now)))))))

-- The answer while the effective instant is ahead: `check` is `NextCheck`.
abbrev pub earlier_check : Moment → Instant → Moment → Moment
earlier_check (due check) now stamp =
    if ltb now check && ltb check (instant_of stamp) then due check else stamp
earlier_check _ now stamp = stamp

unfoldable pub renewal_hold : Snapshot → Instant → Option Decision → Decision
renewal_hold s now none =
    if not (not_begun s.order_state) then choose Action.close else choose Action.order
renewal_hold s now (some d) =
    if not (is_wait d.action)
    then d
    else if s.timing.can_read
    then choose Action.timing
    else wait_until Reason.renewal_wait (earlier_check s.timing.next_check now d.next)

abbrev pub settled_row : RowStatus → Bool
settled_row r = is_borrowed r.state || is_deleted r.state

abbrev pub is_unset : Moment → Bool
is_unset unset = true
is_unset _ = false

-- Not `bound`: the source has no order of its own.
unfoldable pub before_order : Snapshot → Instant → Decision
unfolding pause_if unless_waiting renewal_hold
before_order s now =
    let begun = not (not_begun s.order_state) in
    pause_if (ltb s.closures_left (if begun then 2 else 1)) Reason.request_capacity (
      pause_if (begun && not s.close_available) Reason.request_active (
        pause_if (not (all settled_row s.rows)) Reason.dns_cleanup_due (
          unless_waiting (wait s.timing.provider_not_before now) (
            if not s.timing.prepared
            then choose Action.timing
            else pause_if
                (not (str_eq s.timing.state "ari") && not (str_eq s.timing.state "unsupported"))
                Reason.timing_unconfirmed
                (pause_if (is_unset s.timing.effective_at) Reason.timing_unconfirmed
                  (renewal_hold s now (wait s.timing.effective_at now)))))))

unfoldable pub unsaved : Snapshot → ℕ → ℕ → Instant → Decision
unfolding pause_if bound in_order before_order
unsaved s events bytes now =
    pause_if
      (ltb s.events_left events
        || ltb s.generations_left events
        || ltb s.bytes_left bytes
        || ltb s.records_left 1)
      Reason.storage_capacity
      (pause_if (not (bound s) && (s.timing.expired || s.timing.superseded)) Reason.source_ended (
        pause_if s.timing.pending Reason.timing_interrupted (
          pause_if s.timing.blocked Reason.provider_maintenance
            (if bound s then in_order s now else before_order s now))))

-- `canonical` is `acmeorder.CanonicalNames`.
unfoldable pub decide : (List Bytes → Bool) → Snapshot → ℕ → ℕ → Instant → Decision
unfolding pause_if saved by_rows unsaved in_zone
decide canonical s events bytes now =
    pause_if
      (not (years 2020 2100 now)
        || s.generation == 0
        || ltb events 1
        || ltb cycle_events events
        || ltb bytes 1
        || ltb cycle_bytes bytes)
      Reason.invalid_state
      (pause_if
        (not (valid_fingerprint s.fingerprint)
          || not (bytes_eq s.timing.fingerprint s.fingerprint)
          || not (canonical s.domains))
        Reason.invalid_state
        (pause_if (not s.account_ready) Reason.account_unavailable (
          pause_if s.other_pending Reason.other_work_pending (
            pause_if (s.config_generation == 0 || is_empty s.zone) Reason.dns_configuration (
              pause_if (not (all (in_zone s.zone) s.domains)) Reason.dns_zone_mismatch
                (if saved s then by_rows s true now else unsaved s events bytes now))))))
