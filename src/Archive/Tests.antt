-- ===== src/Archive/Tests.antt =====
-- The archiving of an image with 512 active events.
use rootwell.Prelude.{ℕ, zero, suc, ◌+◌, ◌*◌, ◌≡◌, refl, false, none, List, [], ◌∷◌, ◌++◌}
use rootwell.Image.Reserve.{total_reserve, order_reserve, reserved_image_bytes, admitted}
use rootwell.Image.History.{
  event_of, with_event, valid_event, known_action, distinct, event_refused, add_event,
}
use rootwell.Dns.Reserve.{dns_plan_reserve}
use rootwell.Operation.{seal_plan, Codec, encoded}
use rootwell.Archive.{
  flatten, all_events, start_fits, contiguous, last_generation, open_history, can_archive, paged,
  archive_events, archive_history,
}
use rootwell.Archive.Writes.{seal_plan_opens}
use rootwell.Dns.{Plan}
use rootwell.Operation.Begin.{planned}
use rootwell.Archive.Keeps.{archive_history_keeps}
use rootwell.Clock.{Instant, day, year_at_least, year_start}
use rootwell.Clock.Stamp.{blank, at}
use rootwell.Prelude.Bytes.{Bytes, bytes_eq}
use rootwell.Fingerprint.{valid_fingerprint}
use rootwell.Image.{Image, Event, OrderState, ok, refuse_if}

abbrev noon : Instant
noon = 737_500 * day

pairs_of : ℕ → Bytes
pairs_of zero = []
pairs_of (suc n) = b':' ∷ b'A' ∷ b'0' ∷ pairs_of n

fingerprint : Bytes
unfolding pairs_of
fingerprint = b'A' ∷ b'0' ∷ pairs_of 31

-- `n` events from a generation on.
events : ℕ → ℕ → List Event
unfolding fingerprint
events zero first = []
events (suc n) first =
    record {
      generation = first;
      at = at 63_720_000_000;
      action = "import";
      fingerprints = fingerprint ∷ [];
    }
    ∷ events n (first + 1)

codec : Codec
codec = record { size = λ m. 1_000_000; plan_size = λ p. 100; digest = λ m. m.generation }

image : Image
unfolding events
image = record {
  generation = 513;
  records = 1;
  history = events 512 2;
  archives = [];
  archive_start = 0;
  registration_pending = false;
  order = record {
    state = OrderState.not_started;
    fingerprint = [];
    expires = blank;
    records = [];
  };
  issuance_pending = false;
  config = none;
  plan = none;
  pending_timings = 0;
  historical = false;
}

opens : open_history image ≡ ok (all_events image)
unfolding image codec events fingerprint pairs_of open_history refuse_if contiguous last_generation
    start_fits flatten valid_event known_action distinct valid_fingerprint bytes_eq
opens = refl

-- The event of the archiving, and the image that is published.
event : Event
unfolding fingerprint
event = record {
  generation = 514;
  at = at 63_720_000_000;
  action = "history-archived";
  fingerprints = fingerprint ∷ [];
}

published : Image
unfolding image event
published = record image {
  generation = 514;
  archive_start = 2;
  archives = image.history ∷ [];
  history = event ∷ [];
}

archived : archive_history codec image 513 noon ≡ ok published
unfolding published image event codec events fingerprint pairs_of archive_history archive_events
    open_history can_archive paged refuse_if contiguous last_generation start_fits flatten
    valid_event known_action distinct valid_fingerprint bytes_eq add_event event_refused encoded
    total_reserve order_reserve reserved_image_bytes admitted dns_plan_reserve year_at_least
    year_start
archived = refl

archive_history_keeps_example :
    (e : Event) × (all_events published ≡ all_events image ++ e ∷ [])
    × (open_history published ≡ ok (all_events image ++ e ∷ []))
    × (published.generation ≡ 513 + 1)
    × (published.history ≡ e ∷ [])
archive_history_keeps_example = archive_history_keeps codec image published 513 noon archived

-- A plan with no rows, and the image after it is written.
plan : Plan
unfolding fingerprint
plan = record {
  account = fingerprint;
  config_generation = 1;
  prepared_at = at 63_720_000_000;
  expires = at 63_720_600_000;
  rows = [];
}

written : Image
unfolding image plan
written =
    with_event (planned image plan)
      (event_of (planned image plan) "acme-dns-plan-prepared" (plan.account ∷ []) noon)

plan_written : seal_plan codec image plan "acme-dns-plan-prepared" noon ≡ ok written
unfolding written image plan codec events fingerprint pairs_of seal_plan refuse_if valid_event
    known_action distinct valid_fingerprint bytes_eq add_event event_refused encoded total_reserve
    order_reserve reserved_image_bytes admitted dns_plan_reserve
plan_written = refl

seal_plan_opens_example :
    open_history written
    ≡ ok (
        all_events image
        ++ event_of (planned image plan) "acme-dns-plan-prepared" (plan.account ∷ []) noon ∷ [])
seal_plan_opens_example =
    seal_plan_opens codec image written plan "acme-dns-plan-prepared" noon (all_events image) opens
      plan_written
