-- ===== src/Image/History.antt =====
-- internal/inventorystore/history.go: the events of an image, one for each generation.
use rootwell.Prelude.{
  ◌+◌, ◌-◌, ◌≤◌, ◌<◌, String, ◌≡◌, refl, Bool, true, false, not, ◌&&◌, ◌||◌, List, [], ◌∷◌, ◌++◌,
  arith, ltb, leb, ◌==◌, length, str_eq,
}
use rootwell.Prelude.Bytes.{Bytes, bytes_eq}
use rootwell.Fingerprint.{valid_fingerprint}
use rootwell.Clock.{Instant}
use rootwell.Clock.Stamp.{Stamp, at, format}
use rootwell.Image.{
  Image, Event, Result, ok, invalid, limit, refuse_if, max_history, max_generation, max_records,
}
use rootwell.Image.Reserve.{total_reserve, reserve_refused, order_reserve}

abbrev actions : List String
actions =
    "acme-timing-read-started" ∷ "acme-timing-observed" ∷ "acme-timing-wait-saved"
    ∷ "acme-timing-interrupted" ∷ "acme-provider-wait-saved" ∷ "acme-production-key-prepared"
    ∷ "acme-dns-plan-prepared" ∷ "acme-dns-attempt-started" ∷ "acme-dns-wait-saved"
    ∷ "acme-dns-result-saved" ∷ "acme-dns-recovery-started" ∷ "acme-dns-recovery-wait"
    ∷ "acme-dns-recovery-result" ∷ "acme-dns-maintenance-started" ∷ "acme-dns-maintenance-wait"
    ∷ "acme-dns-maintenance-result" ∷ "history-archived" ∷ "acme-request-history-archived"
    ∷ "dns-cloudflare-saved" ∷ "dns-cloudflare-removed" ∷ "import" ∷ "owner-changed"
    ∷ "location-added" ∷ "location-renamed" ∷ "location-removed" ∷ "record-deleted" ∷ "key-added"
    ∷ "acme-key-prepared" ∷ "acme-registration-started" ∷ "acme-account-registered"
    ∷ "acme-account-absent" ∷ "acme-order-started" ∷ "acme-order-located" ∷ "acme-dns-prepared"
    ∷ "acme-dns-acknowledged" ∷ "acme-validation-started" ∷ "acme-validation-observed"
    ∷ "acme-certificate-key-prepared" ∷ "acme-issuance-started" ∷ "acme-issuance-observed"
    ∷ "acme-certificate-saved" ∷ "acme-request-closed" ∷ "acme-renewal-started" ∷ []

known_in : List String → String → Bool
known_in [] action = false
known_in (a ∷ rest) action = str_eq a action || known_in rest action

-- The `switch` on the action.
unfoldable pub known_action : String → Bool
unfolding known_in
known_action = known_in actions

listed : Bytes → List Bytes → Bool
listed id [] = false
listed id (x ∷ xs) = bytes_eq x id || listed id xs

-- The loop over the fingerprints with its set of those seen.
unfoldable pub distinct : List Bytes → List Bytes → Bool
unfolding listed
distinct seen [] = true
distinct seen (id ∷ ids) = valid_fingerprint id && not (listed id seen) && distinct (id ∷ seen) ids

abbrev is_text : Stamp → Bool
is_text (at s) = true
is_text _ = false

-- `validEvent`
unfoldable pub valid_event : Event → Bool
valid_event e =
    leb 2 e.generation
    && leb e.generation max_generation
    && leb 1 (length e.fingerprints)
    && leb (length e.fingerprints) 64
    && known_action e.action
    && (str_eq e.action "import" || length e.fingerprints == 1)
    && is_text e.at
    && distinct [] e.fingerprints

-- The limits of `addEvent`, in its order.
unfoldable pub event_refused : Image → Bool
event_refused m =
    let used = length m.history in
    let ordered = order_reserve m.order.state in
    let total = total_reserve m in
    leb max_history used
    || m.registration_pending && (leb (max_history - 1) used || leb max_generation m.generation)
    || ltb 0 ordered
      && (leb (max_history - ordered) used || ltb (max_generation - ordered) m.generation)
    || m.issuance_pending
      && (leb (max_history - 1) used
          || leb max_generation m.generation
          || leb max_records m.records)
    || reserve_refused m
    || ltb 0 total && (leb (max_history - total) used || ltb (max_generation - total) m.generation)

-- `addEvent`; `now` is the clock that it reads.
unfoldable pub add_event : Image → String → List Bytes → Instant → Result Image
add_event m action ids now =
    let event : Event = record {
      generation = m.generation;
      at = format now;
      action = action;
      fingerprints = ids;
    } in
    refuse_if (event_refused m) limit (
      refuse_if (not (valid_event event)) invalid
        (ok (record m { history = m.history ++ event ∷ [] })))

-- The event that `add_event` writes.
abbrev pub event_of : Image → String → List Bytes → Instant → Event
event_of m action ids now = record {
  generation = m.generation;
  at = format now;
  action = action;
  fingerprints = ids;
}

abbrev pub with_event : Image → Event → Image
with_event m e = record m { history = m.history ++ e ∷ [] }

pub add_event-eq-ok :
    (m m' : Image) (action : String) (ids : List Bytes) (now : Instant)
    → add_event m action ids now ≡ ok m'
    → (event_refused m ≡ false)
      × (valid_event (event_of m action ids now) ≡ true)
      × (m' ≡ with_event m (event_of m action ids now))
unfolding add_event refuse_if
add_event-eq-ok m m' action ids now h = ground arith

add_event_accepts :
    (m : Image) (action : String) (ids : List Bytes) (now : Instant)
    → event_refused m ≡ false
    → valid_event (event_of m action ids now) ≡ true
    → add_event m action ids now ≡ ok (with_event m (event_of m action ids now))
unfolding add_event refuse_if
add_event_accepts m action ids now a b = ground arith

-- The limits leave the reserved slots and generations free after the event.
pub event_refused_limits :
    (m : Image)
    → event_refused m ≡ false
    → (length m.history < max_history)
      × (length m.history + 1 + total_reserve m ≤ max_history)
      × (total_reserve m ≤ 256)
      × (0 < total_reserve m → m.generation + total_reserve m ≤ max_generation)
unfolding event_refused
event_refused_limits m h = ground arith

pub total_reserve-with_event :
    (m : Image) (e : Event) → total_reserve (with_event m e) ≡ total_reserve m
unfolding total_reserve
total_reserve-with_event m e = refl
