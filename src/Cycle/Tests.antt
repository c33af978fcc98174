-- ===== src/Cycle/Tests.antt =====
-- The renewal cycle at concrete snapshots of one certificate.
use rootwell.Prelude.{ℕ, zero, suc, ◌+◌, ◌-◌, ◌*◌, ◌≡◌, refl, Bool, true, false, List, [], ◌∷◌, all}
use rootwell.Cycle.Rows.{scan, scan_step, held_step, row_step, cleanup_step, setup_step}
use rootwell.Cycle.Decide.{
  decide, pause_if, unless_waiting, in_zone, bound, saved, finish, after_rows, by_rows, until,
  order_step, in_order, renewal_hold, before_order, unsaved, settled_row, not_begun,
}
use rootwell.Cycle.Guards.{Admitted, Roomy}
use rootwell.Cycle.Stages.{Current}
use rootwell.Cycle.Before.{Idle, Ripe}
use rootwell.Cycle.Choices.{cleans_up, Addable}
use rootwell.Cycle.Actions.{
  decide-saved, decide_complete, decide_order, decide_dns_add, decide_certificate, placed_row,
}
use rootwell.Prelude.Bytes.{Bytes, codes, bytes_eq}
use rootwell.Clock.{Instant, day, year_at_least, year_start}
use rootwell.Fingerprint.{valid_fingerprint}
use rootwell.Dns.{RowState, new, created, borrowed, deleted}
use rootwell.Image.{OrderState}
use rootwell.Cycle.{unset, due, Action, IssuanceState, Timing, RowStatus, Snapshot}

abbrev noon : Instant
noon = 737_500 * day

abbrev pairs_of : ℕ → Bytes
pairs_of zero = []
pairs_of (suc n) = b':' ∷ b'A' ∷ b'0' ∷ pairs_of n

abbrev fingerprint : Bytes
fingerprint = b'A' ∷ b'0' ∷ pairs_of 31

abbrev canonical : List Bytes → Bool
canonical names = true

abbrev timing : Timing
timing = record {
  fingerprint = fingerprint;
  prepared = true;
  state = "ari";
  pending = false;
  can_read = false;
  effective_at = due (noon - day);
  next_check = unset;
  provider_not_before = unset;
  blocked = false;
  expired = false;
  superseded = false;
}

abbrev row : RowState → RowStatus
row state = record {
  state = state;
  attempts = 1;
  not_before = unset;
  blocked = false;
  cleanup_attempts = 1;
  cleanup_not_before = due (noon - day);
  cleanup_blocked = false;
  recovery = false;
  maintenance = false;
}

abbrev snapshot : OrderState → Bytes → IssuanceState → Bytes → List RowStatus → Snapshot
snapshot state source issuance kept rows = record {
  generation = 40;
  fingerprint = fingerprint;
  domains = codes "*.rootwell.org" ∷ codes "www.rootwell.org" ∷ [];
  config_generation = 3;
  zone = codes "rootwell.org";
  account_ready = true;
  other_pending = false;
  timing = timing;
  order_state = state;
  order_source = source;
  order_expires = due (noon + 7 * day);
  required_dns = true;
  close_available = true;
  close_reason = "ready";
  key_prepared = true;
  issuance = issuance;
  issuance_expires = unset;
  saved_fingerprint = kept;
  dns_prepared = true;
  rows = rows;
  events_left = 900;
  generations_left = 90_000;
  bytes_left = 90_000_000;
  records_left = 400;
  closures_left = 20;
}

abbrev idle : Snapshot
idle =
    snapshot OrderState.not_started [] IssuanceState.not_started []
      (row deleted ∷ row borrowed ∷ [])

abbrev adding : Snapshot
adding =
    snapshot OrderState.dns_ready fingerprint IssuanceState.not_started []
      (row created ∷ row new ∷ [])

abbrev verified : Snapshot
verified =
    snapshot OrderState.domain_verified fingerprint IssuanceState.not_started []
      (row created ∷ row borrowed ∷ [])

abbrev finished : Snapshot
finished =
    snapshot OrderState.domain_verified fingerprint IssuanceState.certificate_saved fingerprint
      (row deleted ∷ row borrowed ∷ [])

finished-saved : saved finished ≡ true
unfolding saved bound bytes_eq
finished-saved = refl

order_decided : (decide canonical idle 320 4_000_000 noon).action ≡ Action.order
unfolding decide pause_if unless_waiting in_zone bound saved before_order renewal_hold unsaved
    bytes_eq valid_fingerprint year_at_least year_start
order_decided = refl

dns_add_decided : (decide canonical adding 320 4_000_000 noon).action ≡ Action.dns_add
unfolding decide pause_if unless_waiting in_zone bound saved unsaved in_order until order_step
    by_rows after_rows scan scan_step held_step row_step setup_step bytes_eq valid_fingerprint
    year_at_least year_start
dns_add_decided = refl

certificate_decided : (decide canonical verified 320 4_000_000 noon).action ≡ Action.certificate
unfolding decide pause_if unless_waiting in_zone bound saved unsaved in_order until order_step
    by_rows after_rows finish scan scan_step held_step row_step setup_step bytes_eq
    valid_fingerprint year_at_least year_start
certificate_decided = refl

complete_decided : (decide canonical finished 320 4_000_000 noon).action ≡ Action.complete
unfolding decide pause_if in_zone bound saved by_rows after_rows scan scan_step held_step row_step
    cleanup_step bytes_eq valid_fingerprint year_at_least year_start
complete_decided = refl

decide-saved_example : cleans_up (decide canonical finished 320 4_000_000 noon).action ≡ true
decide-saved_example = decide-saved canonical finished 320 4_000_000 noon finished-saved

decide_complete_example : (saved finished ≡ true) × (all settled_row finished.rows ≡ true)
decide_complete_example = decide_complete canonical finished 320 4_000_000 noon complete_decided

decide_order_example :
    Admitted canonical idle 320 4_000_000 noon
    × Roomy idle 320 4_000_000
    × (not_begun idle.order_state ≡ true)
    × Idle idle noon
    × Ripe idle noon
decide_order_example = decide_order canonical idle 320 4_000_000 noon order_decided

decide_dns_add_example :
    (saved adding ≡ false)
    × Roomy adding 320 4_000_000
    × Current adding noon
    × Addable adding noon (decide canonical adding 320 4_000_000 noon)
decide_dns_add_example = decide_dns_add canonical adding 320 4_000_000 noon dns_add_decided

decide_certificate_example :
    Roomy verified 320 4_000_000
    × (bound verified ≡ true)
    × Current verified noon
    × (verified.order_state ≡ OrderState.domain_verified)
    × (verified.key_prepared ≡ true)
    × (verified.issuance ≡ IssuanceState.not_started)
    × (all placed_row verified.rows ≡ true)
decide_certificate_example =
    decide_certificate canonical verified 320 4_000_000 noon certificate_decided
