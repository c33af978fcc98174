-- ===== src/Operation/Tests.antt =====
-- One DNS attempt at a concrete image: its begin, its execution and the life of its row.
use rootwell.Prelude.{
  ℕ, zero, suc, ◌+◌, ◌*◌, ◌≤◌, ◌≡◌, refl, true, false, ◌||◌, none, some, [], ◌∷◌, arith, leb,
  if◌then◌else◌, length, get_elem?, set,
}
use rootwell.Prelude.Bytes.{Bytes, bytes_eq, codes}
use rootwell.Clock.{Instant, second, day, year_at_least, year_start, round_up}
use rootwell.Clock.Stamp.{blank, at}
use rootwell.Fingerprint.{valid_fingerprint}
use rootwell.Retry.{State, fresh, begin, ready, valid}
use rootwell.Dns.{
  new, creating, created, deleting, Row, Plan, is_creating, is_deleting, dns_plan_hex,
}
use rootwell.Dns.Maintain.{valid_maintenance}
use rootwell.Dns.Check.{
  valid_record, valid_recovery, valid_outcome, last_start, valid_started, valid_state,
}
use rootwell.Dns.Reserve.{row_reserve, dns_plan_reserve}
use rootwell.Image.{Image, Event, Txt, OrderState, ok, err, limit, refuse_if, max_image}
use rootwell.Image.Reserve.{total_reserve, order_reserve, reserved_image_bytes, admitted}
use rootwell.Image.History.{valid_event, known_action, distinct, event_refused, add_event}
use rootwell.Operation.{
  Codec, add, Lease, begin_operation, begin_row, mode_allowed, cleanup_phase, time_allowed,
  required_by, phase_policy, prior_of, with_attempt, seal_plan, encoded, lease_for,
}
use rootwell.Operation.Settle.{Observed, settle_row, lease_fits, prior_observed}
use rootwell.Operation.Execute.{
  Tick, Reply, World, lease_last, allowed, executable, checkpoints, execute,
}
use rootwell.Operation.Execute.Funded.{begun_can_save}
use rootwell.Operation.Execute.Sealing.{TooLong}
use rootwell.Operation.Begin.Usable.{begin_row-executable}
use rootwell.Operation.Begin.Leased.{begin_operation_leases}
use rootwell.Operation.Life.{Life, Life_bounds}

abbrev noon : Instant
noon = 737_500 * day

abbrev pairs_of : ℕ → Bytes
pairs_of zero = []
pairs_of (suc n) = b':' ∷ b'A' ∷ b'0' ∷ pairs_of n

abbrev account : Bytes
account = b'A' ∷ b'0' ∷ pairs_of 31

abbrev hex_of : ℕ → Bytes
hex_of zero = []
hex_of (suc n) = b'a' ∷ hex_of n

abbrev row : Row
row = record {
  domain = codes "rootwell.org";
  name = codes "_acme-challenge.rootwell.org";
  value = codes "token";
  owner = codes "owner";
  state = new;
  retry = fresh;
  blocked = false;
  id = [];
  cleanup = none;
  cleanup_blocked = false;
  checked_at = blank;
  outcome_at = blank;
  recovery = none;
  cleanup_recovery = none;
  maintenance = none;
  cleanup_maintenance = none;
}

abbrev once : State
once = record { attempts = 1; last_at = at 63_720_000_000; not_before = at 63_720_000_035 }

abbrev waiting : Row
waiting = record row { state = creating; retry = once }

abbrev plan : Plan
plan = record {
  account = account;
  config_generation = 3;
  prepared_at = at 63_719_999_000;
  expires = at 63_720_600_000;
  rows = row ∷ [];
}

abbrev txt : Txt
txt = record {
  domain = codes "rootwell.org";
  name = codes "_acme-challenge.rootwell.org";
  value = codes "token";
  required = true;
}

abbrev image : Image
image = record {
  generation = 40;
  records = 1;
  history = [];
  archives = [];
  archive_start = 0;
  registration_pending = false;
  order = record {
    state = OrderState.dns_ready;
    fingerprint = account;
    expires = at 63_720_600_000;
    records = txt ∷ [];
  };
  issuance_pending = false;
  config = some 3;
  plan = some plan;
  pending_timings = 0;
  historical = false;
}

abbrev event : Event
event = record {
  generation = 41;
  at = at 63_720_000_000;
  action = "acme-dns-attempt-started";
  fingerprints = account ∷ [];
}

abbrev begun : Image
begun = record image {
  generation = 41;
  history = event ∷ [];
  plan = some (record plan { rows = waiting ∷ [] });
}

-- An encoding that has no room for a generation after 41.
abbrev codec : Codec
codec = record {
  size = λ m. if leb 42 m.generation then max_image else 1000;
  plan_size = λ p. 900;
  digest = λ m. m.generation;
}

abbrev lease : Lease
lease = record {
  image_hash = 41;
  generation = 41;
  index = 0;
  read_only = false;
  cleanup = false;
  recovery = false;
  maintenance = false;
  used = false;
}

abbrev tick : Tick
tick = record { now = noon + 10 * second; permit = true }

abbrev seen : Observed
seen = record { state = created; id = hex_of 32 }

abbrev intent : Observed
intent = record { state = creating; id = [] }

abbrev world : World
world = record {
  opening = tick;
  calling = tick;
  asked = (intent, tick) ∷ [];
  reply = Reply.returned seen;
  returning = tick;
  saving = tick;
  seen_at = noon + 10 * second;
  saved_at = noon + 10 * second;
}

row_begun : begin_row row add noon 5 ≡ ok waiting
unfolding begin_row prior_of with_attempt phase_policy cleanup_phase begin ready valid round_up
    year_at_least year_start
row_begun = refl

operation_begun : begin_operation codec image 40 0 add noon 5 ≡ ok (begun, lease)
unfolding begin_operation begin_row prior_of with_attempt phase_policy cleanup_phase begin ready
    valid round_up year_at_least year_start refuse_if mode_allowed time_allowed required_by bytes_eq
    seal_plan encoded lease_for add_event event_refused valid_event known_action distinct
    valid_fingerprint total_reserve order_reserve reserved_image_bytes admitted dns_plan_reserve
    row_reserve
operation_begun = refl

refused : (execute codec begun lease world).1 ≡ err limit
unfolding execute refuse_if allowed lease_last executable lease_fits checkpoints phase_policy
    settle_row prior_observed dns_plan_hex year_at_least year_start bytes_eq seal_plan encoded
    add_event event_refused valid_event known_action distinct valid_fingerprint total_reserve
    order_reserve reserved_image_bytes admitted dns_plan_reserve row_reserve
refused = refl

begun_can_save_example : TooLong codec begun lease world
begun_can_save_example =
    begun_can_save codec image begun 40 0 add noon 5 lease world operation_begun
      (λ (h : false ≡ true). omega arith) refused

row_valid : valid_record row (at 63_719_999_000) false ≡ true
unfolding valid_record valid valid_maintenance valid_recovery valid_outcome last_start valid_started
    valid_state
row_valid = refl

add_allowed : mode_allowed add row.state ≡ true
unfolding mode_allowed
add_allowed = refl

begin_row-executable_example : executable (lease_for codec begun 0 add row.state) waiting ≡ true
begin_row-executable_example =
    begin_row-executable codec begun 0 row waiting add noon 5 (at 63_719_999_000) false row_valid
      add_allowed row_begun

begin_operation_leases_example :
    (p : Plan) × (r : Row) × (r' : Row) × (image.plan ≡ some p)
    × (get_elem? p.rows 0 ≡ some r)
    × (begun.plan ≡ some (record p { rows = set p.rows 0 r' }))
    × (r'.state ≡ (if lease.cleanup then deleting else creating))
    × (r'.outcome_at ≡ blank)
    × (begun.generation ≡ 40 + 1)
    × (length begun.history ≡ length image.history + 1)
    × (lease.generation ≡ begun.generation)
    × (lease.image_hash ≡ codec.digest begun)
    × (lease.index ≡ 0)
    × (lease.read_only ≡ (is_creating r.state || is_deleting r.state))
    × (lease.used ≡ false)
begin_operation_leases_example =
    begin_operation_leases codec image begun 40 0 add noon 5 lease operation_begun

-- The row after the provider has returned the record.
abbrev placed : Row
placed = record waiting {
  state = created;
  id = hex_of 32;
  checked_at = at 63_720_000_010;
  outcome_at = at 63_720_000_010;
}

row_settled :
    settle_row lease waiting seen true (noon + 10 * second) (noon + 10 * second) ≡ ok placed
unfolding settle_row dns_plan_hex
row_settled = refl

lease_accepted : lease_fits lease waiting ≡ true
unfolding lease_fits phase_policy
lease_accepted = refl

life : Life placed 1 0 1
unfolding cleanup_phase
life =
    Life.returned lease seen true (noon + 10 * second) (noon + 10 * second)
      (Life.begun add noon 5 (Life.prepared refl refl refl refl refl) add_allowed row_begun refl
        refl refl)
      lease_accepted row_settled

Life_bounds_example : (1 ≤ 1) × (0 ≤ 1) × (1 ≤ 24)
Life_bounds_example = Life_bounds 1 0 1 life
