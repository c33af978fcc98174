-- ===== src/Closing/Runs.antt =====
-- The closing of a request and the archiving of closed ones: what they write passes the tests on
-- closed requests again.
use rootwell.Closing.Kept.{
  Kept, ledger_ok-Kept, Kept-ledger_ok, closed-Kept, archived-Kept, archived_all, flatten-last,
}
use mathlib.Core.List.{append-nil}
use rootwell.Archive.{open_history}
use rootwell.Clock.{Instant, years}
use rootwell.Outcome.{
  ok, refuse_if, refuse_if-eq-ok, >>=-eq-ok, ◌>>=◌, stale_generation, invalid, limit, Result,
}
use rootwell.Image.History.{add_event, add_event-eq-ok}
use rootwell.Records.Keeps.{encode-same}
use rootwell.Records.{encode, stale}
use rootwell.Prelude.Bytes.{Bytes}
use rootwell.Closing.Eligible.{IsSealed, closing, request_status-parts}
use rootwell.Prelude.{
  not_parts, ℕ, String, ◌≡◌, sym, ap, subst, ◌∙◌, true, not, List, [], ◌∷◌, ◌++◌, ltb, ◌+◌,
}
use rootwell.Clock.Stamp.{Stamp, format}
use rootwell.Image.{Image, Event}
use rootwell.Closing.{
  Reason, Ledger, any_later, request_status, all_closed, Closed, ledger_ok, no_order, no_issuance,
  Bytes, Image, closed_as, with_image, close_request, archive_requests, archived_as, can_archive,
  any_event_after, max_payload, item_of,
}

-- The ledger that a closing makes.
abbrev closed_ledger : Ledger → Stamp → Image → Ledger
closed_ledger l t m = record {
  image = m;
  order = no_order;
  issuance = no_issuance;
  closed = l.closed ++ closing l t ∷ [];
  pages = l.pages;
  archived = l.archived;
  account = l.account;
}

module _ (size : Image → ℕ) where
  event_generation :
      (m m1 m2 : Image) (action : String) (ids : List Bytes) (now : Instant)
      → add_event m action ids now ≡ ok m1
      → encode size m1 ≡ ok m2
      → m2.generation ≡ m.generation
  event_generation m m1 m2 action ids now h e =
      let (a, b, made) = add_event-eq-ok m m1 action ids now h in
      ap (λ (x : Image). x.generation) (sym (encode-same size m1 m2 e) ∙ made)

  close_request-Kept :
      (payload : Closed → ℕ) (l l' : Ledger) (expected : ℕ) (now : Instant)
      → Kept l
      → IsSealed l
      → close_request size payload l expected now ≡ ok l'
      → Kept l'
        × (l'.image.generation ≡ l.image.generation + 1)
        × (all_closed l' ≡ all_closed l ++ closing l (format now) ∷ [])
  unfolding close_request closed_as with_image
  close_request-Kept payload l l' expected now k sealed h =
      let t = format now in
      let status = request_status l t in
      let next = closed_as size l t (status.1) in
      let event = add_event next.image "acme-request-closed" (l.order.fingerprint ∷ []) now in
      let finish = λ (m : Image). ok (with_image size next m) in
      let write = event >>= encode size >>= finish in
      let big = ltb max_payload (payload (item_of l t (status.1))) in
      let (a, h1) =
        refuse_if-eq-ok (stale l.image expected) stale_generation
          (refuse_if (not (status.0)) invalid (refuse_if big limit write)) l' h in
      let (b, h2) = refuse_if-eq-ok (not (status.0)) invalid (refuse_if big limit write) l' h1 in
      let (c, h7) = refuse_if-eq-ok big limit write l' h2 in
      let (m, h3, h4) = >>=-eq-ok (event >>= encode size) finish h7 in
      let (m1, h5, h6) = >>=-eq-ok event (encode size) h3 in
      let g = event_generation next.image m1 m "acme-request-closed" _ now h5 h6 in
      let (early, why, may, room) = request_status-parts l t (not_parts _ b) in
      let same : with_image size next m ≡ closed_ledger l t m =
        ap (λ (r : Reason). with_image size (closed_as size l t r) m) (sym why) in
      let whole : closed_ledger l t m ≡ l' = sym same ∙ ok_same h4 in
      subst
        (λ (x : Ledger).
          Kept x
          × (x.image.generation ≡ l.image.generation + 1)
          × (all_closed x ≡ all_closed l ++ closing l t ∷ []))
        whole
        (
          closed-Kept l t m k sealed may early room g,
          g,
          flatten-last l.pages l.closed (closing l t),
        )
    where
      ok_same : {x : Ledger} → ok x ≡ ok l' → x ≡ l'
      ok_same e = cc

  archive_requests-Kept :
      (l l' : Ledger) (expected : ℕ) (now : Instant)
      → Kept l
      → archive_requests size l expected now ≡ ok l'
      → Kept l' × (l'.image.generation ≡ l.image.generation + 1) × (all_closed l' ≡ all_closed l)
  unfolding archive_requests archived_as with_image
  archive_requests-Kept l l' expected now k h =
      let t = format now in
      let next = archived_as size l in
      let event = add_event next.image "acme-request-history-archived" (l.account ∷ []) now in
      let finish = λ (m : Image). ok (with_image size next m) in
      let write = event >>= encode size >>= finish in
      let checked = λ (events : List Event).
        refuse_if (any_event_after size t events) invalid
          (refuse_if (any_later t (all_closed l)) invalid write) in
      let dated =
        refuse_if (not (years 2020 2100 now)) invalid (open_history l.image >>= checked) in
      let (a, h1) =
        refuse_if-eq-ok (stale l.image expected) stale_generation
          (refuse_if (not (can_archive size l)) limit dated) l' h in
      let (b, h2) = refuse_if-eq-ok (not (can_archive size l)) limit dated l' h1 in
      let (c, h3) =
        refuse_if-eq-ok (not (years 2020 2100 now)) invalid (open_history l.image >>= checked) l'
          h2 in
      let (events, h4, h5) = >>=-eq-ok (open_history l.image) checked h3 in
      let (d, h6) =
        refuse_if-eq-ok (any_event_after size t events) invalid
          (refuse_if (any_later t (all_closed l)) invalid write) l' h5 in
      let (e, h7) = refuse_if-eq-ok (any_later t (all_closed l)) invalid write l' h6 in
      let (m, h8, h9) = >>=-eq-ok (event >>= encode size) finish h7 in
      let (m1, h10, h11) = >>=-eq-ok event (encode size) h8 in
      let g = event_generation next.image m1 m "acme-request-history-archived" _ now h10 h11 in
      subst
        (λ (x : Ledger).
          Kept x × (x.image.generation ≡ l.image.generation + 1) × (all_closed x ≡ all_closed l))
        (ok_same h9) (archived-Kept size l m k (not_parts _ b) g, g, archived_all l)
    where
      ok_same : {x : Ledger} → ok x ≡ ok l' → x ≡ l'
      ok_same e = cc

-- Closing a request, or archiving the closed ones.
pub data Action : Type 0 where
  close archive : Action

abbrev pub run : (Image → ℕ) → (Closed → ℕ) → Action → Ledger → ℕ → Instant → Result Ledger
run size payload close = close_request size payload
run size payload archive = archive_requests size

-- The closed requests that an action adds.
abbrev pub added : Action → Ledger → Stamp → List Closed
added close l t = closing l t ∷ []
added archive l t = []

-- On a ledger that passes the tests of the reading on closed requests (their counts, pages,
-- generations, times and addresses, and the order at hand after them), whose order and issuance are
-- sealed within the image's history, a closing and an archiving that come to be written leave a ledger
-- that passes these tests again, one generation later. The closed requests are those before, in their
-- order, with the one that was closed last.
pub run-ledger_ok :
    (size : Image → ℕ) (payload : Closed → ℕ) (a : Action) (l l' : Ledger) (expected : ℕ)
    (now : Instant)
    → ledger_ok l ≡ true
    → IsSealed l
    → run size payload a l expected now ≡ ok l'
    → (ledger_ok l' ≡ true)
      × (l'.image.generation ≡ l.image.generation + 1)
      × (all_closed l' ≡ all_closed l ++ added a l (format now))
run-ledger_ok size payload close l l' expected now h sealed m =
    let (k, g, whole) =
      close_request-Kept size payload l l' expected now (ledger_ok-Kept l h) sealed m in
    (Kept-ledger_ok l' k, g, whole)
run-ledger_ok size payload archive l l' expected now h sealed m =
    let (k, g, whole) = archive_requests-Kept size l l' expected now (ledger_ok-Kept l h) m in
    (Kept-ledger_ok l' k, g, whole ∙ sym (append-nil (all_closed l)))
