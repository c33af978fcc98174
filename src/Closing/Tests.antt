-- ===== src/Closing/Tests.antt =====
-- An order that expired before its certificate was asked for, which is closed.
use rootwell.Closing.Settled.{Finished, close_request-Finished}
use rootwell.Archive.{flatten}
use rootwell.Prelude.{ℕ, ◌*◌, ◌≡◌, refl, false, true, none, [], ◌∷◌, ◌++◌, arith, ◌+◌}
use rootwell.Prelude.Bytes.{Bytes, codes}
use rootwell.Clock.{Instant, day, year_at_least}
use rootwell.Clock.Stamp.{blank, format}
use rootwell.Outcome.{ok, err, refuse_if, invalid}
use rootwell.Fingerprint.{valid_fingerprint}
use rootwell.Image.{Image, dns_ready}
use rootwell.Image.History.{
  add_event, event_refused, valid_event, known_action, distinct, with_event, event_of,
}
use rootwell.Image.Reserve.{total_reserve, order_reserve, reserved_image_bytes}
use rootwell.Dns.Reserve.{dns_plan_reserve}
use rootwell.Records.{encode}
use rootwell.Closing.{
  Closed, Ledger, Placed, request_status, status_of, reason_at, close_eligibility, eligibility_of,
  any_later, closed_as, with_image, close_request, close_request, chronicle, ledger_ok, no_issuance,
  all_closed, expired, active, outcome, plan_reserve, no_order,
}
use rootwell.Closing.Eligible.{IsSealed}
use rootwell.Closing.Runs.{run-ledger_ok, close, added}

abbrev noon : Instant
noon = 737_500 * day

abbrev id : Bytes
id =
    codes
      "00:11:22:33:44:55:66:77:88:99:AA:BB:CC:DD:EE:FF:00:11:22:33:44:55:66:77:88:99:AA:BB:CC:DD:EE:FF"

abbrev image : Image
image = record {
  generation = 4;
  records = 1;
  history = [];
  archives = [];
  archive_start = 0;
  registration_pending = false;
  order = record { state = dns_ready; fingerprint = id; expires = blank; records = [] };
  issuance_pending = false;
  config = none;
  plan = none;
  pending_timings = 0;
  historical = false;
}

abbrev placed : Placed
placed = record {
  state = dns_ready;
  url = codes "https://ca/order/7";
  fingerprint = id;
  started = format (737_430 * day);
  expires = format (737_437 * day);
  checked_at = blank;
  sealed_at = 3;
}

abbrev ledger : Ledger
ledger = record {
  image = image;
  order = placed;
  issuance = no_issuance;
  closed = [];
  pages = [];
  archived = 0;
  account = id;
}

abbrev size : Image → ℕ
size m = 1000

abbrev payload : Closed → ℕ
payload c = 500

abbrev next : Image
next = with_event (closed_as size ledger (format noon) expired).image (
    event_of (closed_as size ledger (format noon) expired).image "acme-request-closed" (id ∷ [])
      noon)

abbrev after : Ledger
after = with_image size (closed_as size ledger (format noon) expired) next

well : ledger_ok ledger ≡ true
unfolding ledger_ok chronicle flatten year_at_least
well = refl

expired_now : request_status ledger (format noon) ≡ (true, expired)
unfolding request_status status_of reason_at any_later close_eligibility eligibility_of outcome
    flatten year_at_least
expired_now = refl

active_before : request_status ledger (format (737_436 * day)) ≡ (false, active)
unfolding request_status status_of reason_at any_later close_eligibility eligibility_of outcome
    flatten year_at_least
active_before = refl

closed_now : close_request size payload ledger 4 noon ≡ ok after
unfolding close_request closed_as with_image request_status status_of reason_at any_later
    close_eligibility eligibility_of outcome encode add_event event_refused valid_event known_action
    distinct total_reserve order_reserve reserved_image_bytes dns_plan_reserve valid_fingerprint
    refuse_if flatten year_at_least
closed_now = refl

closed_twice : close_request size payload after 5 noon ≡ err invalid
unfolding close_request closed_as with_image request_status status_of reason_at any_later
    close_eligibility eligibility_of outcome refuse_if flatten year_at_least
closed_twice = refl

is_sealed : IsSealed ledger
is_sealed = (omega arith, omega arith, omega arith)

run-ledger_ok_example :
    (ledger_ok after ≡ true)
    × (after.image.generation ≡ ledger.image.generation + 1)
    × (all_closed after ≡ all_closed ledger ++ added close ledger (format noon))
run-ledger_ok_example =
    run-ledger_ok size payload close ledger after 4 noon well is_sealed closed_now

close_request-Finished_example :
    (ledger.image.generation ≡ 4)
    × (plan_reserve ledger.image ≡ 0)
    × Finished ledger.order ledger.issuance (format noon)
    × (after.order ≡ no_order)
    × (after.issuance ≡ no_issuance)
close_request-Finished_example =
    close_request-Finished size payload ledger after 4 noon refl closed_now
