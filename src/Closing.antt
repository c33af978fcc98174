-- ===== src/Closing.antt =====
-- internal/inventorystore/closed_requests.go and request_archive.go: the closing of a request for a
-- certificate and the pages of closed requests. The encrypted items of a request are their payloads,
-- with the generation at which each was sealed.
pub mod Chronicle
pub mod Eligible
pub mod Kept
pub mod Runs
pub mod Settled
mod Tests
use rootwell.Prelude.{
  ltb→lt, leb→le, lt→ltb, le→leb, ltb-false, leb-false, not_parts, or_parts, and_parts, all-each,
  ==_iff, ℕ, zero, suc, ◌+◌, ◌-◌, ◌*◌, ◌/◌, ◌%◌, ◌^◌, ◌≤◌, ◌<◌, min, max, String, ◌≡◌, refl, sym,
  ap, subst, ◌∙◌, ◌≢◌, ◌↔◌, ◌⊎◌, inl, inr, Bool, true, false, not, ◌&&◌, ◌||◌, Option, none, some,
  List, [], ◌∷◌, ◌++◌, map, arith, ltb, leb, ◌==◌, if◌then◌else◌, Bool-cases, Option-cases, length,
  get_elem?, get_elem?-set_self, set, all, length-append, if-true, if-false, str_eq, eq_iff,
  eq_refl, tests,
}
use rootwell.Prelude.Bytes.{Bytes, bytes_eq}
use rootwell.Clock.{Instant, years}
use rootwell.Clock.Stamp.{Stamp, format, before, is_blank, earlier}
use rootwell.Dns.{order_time}
use rootwell.Dns.Reserve.{dns_plan_reserve}
use rootwell.Outcome.{Result, ok, err, invalid, limit, stale_generation, refuse_if, ◌>>=◌}
use rootwell.Image.{Image, OrderState, not_started, max_generation, max_history, Event, Order}
use rootwell.Image.History.{add_event}
use rootwell.Archive.{flatten, open_history}
use rootwell.Records.{encode, stale}
use rootwell.Catalog.{member}

abbrev pub max_closed : ℕ
max_closed = 32

abbrev pub max_pages : ℕ
max_pages = 4

abbrev pub min_page : ℕ
min_page = 16

abbrev pub max_payload : ℕ
max_payload = 64 * 1024 - 64

-- `orderPayload`, as far as closing reads it; `sealed_at` is the generation of its item.
pub record Placed : Type 0 where
  pub state : OrderState
  pub url : Bytes
  pub fingerprint : Bytes
  pub started : Stamp
  pub expires : Stamp
  pub checked_at : Stamp
  pub sealed_at : ℕ

-- `completionPayload`, as far as closing reads it.
pub record Completion : Type 0 where
  pub saved_at : Stamp
  pub deleted_at : Stamp

-- `issuancePayload`, as far as closing reads it; a blank text where there is none.
pub record Issuance : Type 0 where
  pub started_at : Stamp
  pub checked_at : Stamp
  pub expires : Stamp
  pub completion : Option Completion
  pub sealed_at : ℕ

-- The texts of `Reason`.
pub data Reason : Type 0 where
  dns_cleanup_needed clock_unavailable nothing_started unknown_order complete expired active :
      Reason
  capacity : Reason

-- `closedRequest`, with the generation of its item.
pub record Closed : Type 0 where
  pub closed_at : Stamp
  pub closed_generation : ℕ
  pub reason : Reason
  pub order : Placed
  pub issuance : Issuance
  pub sealed_at : ℕ

-- The part of `manifest` that closing reads and writes. `account` is the account's fingerprint.
pub record Ledger : Type 0 where
  pub image : Image
  pub order : Placed
  pub issuance : Issuance
  pub closed : List Closed
  pub pages : List (List Closed)
  pub archived : ℕ
  pub account : Bytes

-- The image's own view of a request that is cleared.
abbrev nothing_ordered : Order
nothing_ordered = record {
  state = not_started;
  fingerprint = [];
  expires = Stamp.blank;
  records = [];
}

abbrev pub no_order : Placed
no_order = record {
  state = not_started;
  url = [];
  fingerprint = [];
  started = Stamp.blank;
  expires = Stamp.blank;
  checked_at = Stamp.blank;
  sealed_at = 0;
}

abbrev pub no_issuance : Issuance
no_issuance = record {
  started_at = Stamp.blank;
  checked_at = Stamp.blank;
  expires = Stamp.blank;
  completion = none;
  sealed_at = 0;
}

abbrev pub is_not_started : OrderState → Bool
is_not_started OrderState.not_started = true
is_not_started _ = false

completed_at : Completion → Stamp → Reason
completed_at c t =
    if before t c.saved_at || before t c.deleted_at then clock_unavailable else complete

abbrev pub deadline : Placed → Issuance → Stamp
deadline o p = if is_blank p.expires then o.expires else earlier o.expires p.expires

outcome : Placed → Issuance → Stamp → Option Completion → Reason
outcome o p t (some c) = completed_at c t
outcome o p t none = if before t (deadline o p) then active else expired

-- `closeEligibility` after its look at the DNS plan.
unfoldable pub eligibility_of : Placed → Issuance → Stamp → Reason
unfolding outcome completed_at
eligibility_of o p t =
    if not (order_time t) || before t o.started
    then clock_unavailable
    else if is_not_started o.state
    then nothing_started
    else if length o.url == 0 || is_blank o.expires
    then unknown_order
    else if before t p.started_at
        || before t p.checked_at
        || not (is_blank o.checked_at) && before t o.checked_at
    then clock_unavailable
    else outcome o p t p.completion

abbrev pub plan_reserve : Image → ℕ
plan_reserve m = elim m.plan [ none ↦ 0 | some p ↦ dns_plan_reserve p.rows ]

-- `closeEligibility`
unfoldable pub close_eligibility : Ledger → Stamp → Reason
close_eligibility l t =
    if not l.image.historical && ltb 0 (plan_reserve l.image)
    then dns_cleanup_needed
    else eligibility_of l.order l.issuance t

-- `allClosedRequests`
abbrev pub all_closed : Ledger → List Closed
all_closed l = flatten l.pages ++ l.closed

-- `at < p.ClosedAt` for some closed request.
unfoldable pub any_later : Stamp → List Closed → Bool
any_later t [] = false
any_later t (c ∷ cs) = before t c.closed_at || any_later t cs

-- The reason by which a request may be closed.
abbrev pub can_close : Reason → Bool
can_close complete = true
can_close expired = true
can_close _ = false

-- `Available` and `Reason`: `full` says that no more closed request fits, `spent` that the image has
-- no generation or event left.
pub status_of : Reason → Bool → Bool → Bool × Reason
status_of complete full spent = if full || spent then (false, capacity) else (true, complete)
status_of expired full spent = if full || spent then (false, capacity) else (true, expired)
status_of nothing_started full spent = (false, if full then capacity else nothing_started)
status_of other full spent = (false, other)

pub reason_at : Ledger → Stamp → Reason
reason_at l t = if any_later t (all_closed l) then clock_unavailable else close_eligibility l t

-- `newRequestStatus`, without the count.
unfoldable pub request_status : Ledger → Stamp → Bool × Reason
unfolding status_of reason_at
request_status l t =
    status_of (reason_at l t) (leb max_closed (length l.closed))
      (leb max_generation l.image.generation || leb max_history (length l.image.history))

-- A page of the archive.
abbrev page_ok : List Closed → Bool
page_ok page = leb min_page (length page) && leb (length page) max_closed

abbrev count_pages : List (List Closed) → ℕ
count_pages [] = 0
count_pages (page ∷ pages) = length page + count_pages pages

is_complete : Reason → Bool
is_complete complete = true
is_complete _ = false

is_expired : Reason → Bool
is_expired expired = true
is_expired _ = false

-- A completion whose deletion was saved after the closing, by resealing the item.
deleted_later : Closed → Option Completion → Bool
unfolding is_complete
deleted_later c none = false
deleted_later c (some p) =
    is_complete c.reason
    && c.issuance.sealed_at == c.sealed_at
    && ltb c.closed_generation c.sealed_at
    && not (is_blank p.deleted_at)
    && not (before p.deleted_at c.closed_at)

completed_by : Closed → Option Completion → Bool
completed_by c none = false
completed_by c (some p) =
    not (before c.closed_at p.saved_at)
    && not (ltb c.issuance.sealed_at c.closed_generation && before c.closed_at p.deleted_at)

-- The tests of `openClosedRequest` on the payload of an item.
unfoldable pub item_ok : ℕ → Closed → Bool
unfolding is_complete is_expired deleted_later completed_by
item_ok generation c =
    leb 4 c.sealed_at
    && leb c.sealed_at generation
    && order_time c.closed_at
    && leb 4 c.closed_generation
    && leb c.closed_generation c.sealed_at
    && ltb c.order.sealed_at c.closed_generation
    && (ltb c.issuance.sealed_at c.closed_generation || deleted_later c c.issuance.completion)
    && (if is_complete c.reason
        then completed_by c c.issuance.completion
        else is_expired (eligibility_of c.order c.issuance c.closed_at) && is_expired c.reason)

-- The loop of `authenticateClosedRequests`: the items in their order, after the generation, the time
-- and the addresses of those before.
unfoldable pub chronicle : ℕ → ℕ → Stamp → List Bytes → List Closed → Bool
chronicle generation last_generation last_at seen [] = true
chronicle generation last_generation last_at seen (c ∷ cs) =
    item_ok generation c
    && not (member c.order.url seen)
    && ltb last_generation c.closed_generation
    && not (before c.closed_at last_at)
    && chronicle generation c.closed_generation c.closed_at (c.order.url ∷ seen) cs

-- The generation and the time of the last item.
unfoldable pub last_closed : ℕ → Stamp → List Closed → ℕ × Stamp
last_closed generation t [] = (generation, t)
last_closed generation t (c ∷ cs) = last_closed c.closed_generation c.closed_at cs

abbrev seen_first : Placed → List Bytes
seen_first o = if length o.url == 0 then [] else o.url ∷ []

-- The order at hand begins after the requests that are closed.
abbrev order_follows : Placed → List Closed → Bool
order_follows o cs =
    is_not_started o.state
    || length cs == 0
    || ltb (last_closed 0 Stamp.blank cs).0 o.sealed_at
      && not (before o.started (last_closed 0 Stamp.blank cs).1)

-- The tests of `authenticateClosedRequests` on counts, generations, times and addresses. The binding
-- of a renewal to an earlier certificate, and the fingerprints of completions, are not read.
unfoldable pub ledger_ok : Ledger → Bool
ledger_ok l =
    leb (length l.closed) max_closed
    && leb (length l.pages) max_pages
    && all page_ok l.pages
    && count_pages l.pages == l.archived
    && chronicle l.image.generation 0 Stamp.blank (seen_first l.order) (all_closed l)
    && order_follows l.order (all_closed l)

-- The request as it is closed.
abbrev pub item_of : Ledger → Stamp → Reason → Closed
item_of l t reason = record {
  closed_at = t;
  closed_generation = l.image.generation + 1;
  reason = reason;
  order = l.order;
  issuance = l.issuance;
  sealed_at = l.image.generation + 1;
}

module _ (size : Image → ℕ) where
  -- The closed request and what it leaves.
  closed_as : Ledger → Stamp → Reason → Ledger
  closed_as l t reason = record l {
    image = record l.image {
      generation = l.image.generation + 1;
      plan = none;
      order = nothing_ordered;
      issuance_pending = false;
    };
    order = no_order;
    issuance = no_issuance;
    closed = l.closed ++ item_of l t reason ∷ [];
  }

  with_image : Ledger → Image → Ledger
  with_image l m = record l { image = m }

  -- `closeStagingRequestAt` up to the image that it writes, before that is read again; `payload` is
  -- the length of a closed request's JSON text.
  unfoldable pub close_request : (Closed → ℕ) → Ledger → ℕ → Instant → Result Ledger
  unfolding closed_as with_image
  close_request payload l expected now =
      let (available, reason) = request_status l (format now) in
      refuse_if (stale l.image expected) stale_generation (
        refuse_if (not available) invalid (
          refuse_if (ltb max_payload (payload (item_of l (format now) reason))) limit (
            let next = closed_as l (format now) reason in
            add_event next.image "acme-request-closed" (l.order.fingerprint ∷ []) now
            >>= encode size
            >>= (λ (m : Image). ok (with_image next m)))))

  -- `requestArchiveStatus`
  unfoldable pub can_archive : Ledger → Bool
  can_archive l =
      not (ltb (length l.closed) min_page)
      && not (max_pages - length l.pages == 0)
      && not (leb max_generation l.image.generation)

  any_event_after : Stamp → List Event → Bool
  any_event_after t [] = false
  any_event_after t (e ∷ es) = before t e.at || any_event_after t es

  archived_as : Ledger → Ledger
  archived_as l = record l {
    image = record l.image { generation = l.image.generation + 1 };
    pages = l.pages ++ l.closed ∷ [];
    archived = l.archived + length l.closed;
    closed = [];
  }

  -- `archiveClosedRequestsAt` up to the image that it writes, before that is read again.
  unfoldable pub archive_requests : Ledger → ℕ → Instant → Result Ledger
  unfolding any_event_after archived_as with_image
  archive_requests l expected now =
      let t = format now in
      refuse_if (stale l.image expected) stale_generation (
        refuse_if (not (can_archive l)) limit (
          refuse_if (not (years 2020 2100 now)) invalid (
            open_history l.image >>= (λ (events : List Event).
              refuse_if (any_event_after t events) invalid (
                refuse_if (any_later t (all_closed l)) invalid (
                  let next = archived_as l in
                  add_event next.image "acme-request-history-archived" (l.account ∷ []) now
                  >>= encode size
                  >>= (λ (m : Image). ok (with_image next m))))))))
