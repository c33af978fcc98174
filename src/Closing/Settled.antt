-- ===== src/Closing/Settled.antt =====
-- What a closed request had come to: no active, unknown or unfinished request is closed.
use rootwell.Prelude.{
  ℕ, ◌≡◌, refl, sym, ap, ◌⊎◌, inl, inr, Bool, true, false, not, ◌&&◌, ◌||◌, Option, none, some, [],
  ◌∷◌, ltb, leb, ◌==◌, if◌then◌else◌, length, or_parts, not_parts, arith, ==_iff,
}
use rootwell.Clock.{Instant}
use rootwell.Clock.Stamp.{Stamp, before, is_blank, format}
use rootwell.Dns.{order_time}
use rootwell.Outcome.{
  ok, refuse_if, refuse_if-eq-ok, >>=-eq-ok, ◌>>=◌, stale_generation, invalid, limit,
}
use rootwell.Image.{Image, max_generation, max_history}
use rootwell.Image.History.{add_event}
use rootwell.Records.{stale, encode}
use rootwell.Closing.{
  Placed, Issuance, Completion, Reason, Ledger, Closed, complete, expired, clock_unavailable,
  eligibility_of, close_eligibility, outcome, completed_at, deadline, plan_reserve, is_not_started,
  can_close, reason_at, any_later, all_closed, request_status, max_closed, close_request,
  close_request, closed_as, with_image, item_of, max_payload, no_order, no_issuance,
}
use rootwell.Closing.Eligible.{status_of-closes}

-- A request whose certificate was saved and, if its key was deleted, deleted by then, or whose time
-- to be completed is over.
abbrev pub Ended : Placed → Issuance → Stamp → Type 0
Ended o p t =
    ((c : Completion) × (p.completion ≡ some c)
      × (before t c.saved_at ≡ false)
      × (before t c.deleted_at ≡ false))
    ⊎ ((p.completion ≡ none) × (before t (deadline o p) ≡ false))

-- A request that the certificate authority knows by its address, and that has ended.
pub record Finished (o : Placed) (p : Issuance) (t : Stamp) : Type 0 where
  dated : order_time t ≡ true
  begun : is_not_started o.state ≡ false
  started : before t o.started ≡ false
  known : (length o.url == 0) ≡ false
  limited : is_blank o.expires ≡ false
  checked : (before t p.started_at ≡ false) × (before t p.checked_at ≡ false)
  seen : (not (is_blank o.checked_at) && before t o.checked_at) ≡ false
  ended : Ended o p t

outcome-Ended :
    (o : Placed) (p : Issuance) (t : Stamp) (q : Option Completion)
    → p.completion ≡ q
    → can_close (outcome o p t q) ≡ true
    → Ended o p t
unfolding outcome completed_at
outcome-Ended o p t none e h = inr (e, over (before t (deadline o p)) h)
  where
    over : (b : Bool) → can_close (if b then Reason.active else expired) ≡ true → b ≡ false
    over true k = cc
    over false k = refl
outcome-Ended o p t (some c) e h =
    let (x, y) = or_parts _ _ (timely (before t c.saved_at || before t c.deleted_at) h) in
    inl (c, e, x, y)
  where
    timely : (b : Bool) → can_close (if b then clock_unavailable else complete) ≡ true → b ≡ false
    timely true k = cc
    timely false k = refl

eligibility_of-Finished :
    (o : Placed) (p : Issuance) (t : Stamp)
    → can_close (eligibility_of o p t) ≡ true
    → Finished o p t
unfolding eligibility_of
eligibility_of-Finished o p t h =
    let (a, b, c, d, last) = passed _ _ _ _ (outcome o p t p.completion) h in
    let (a1, a2) = or_parts _ _ a in
    let (c1, c2) = or_parts _ _ c in
    let (d1, d2) = or_parts _ _ d in
    let (d3, d4) = or_parts _ _ d1 in
    record {
      dated = not_parts _ a1;
      begun = b;
      started = a2;
      known = c1;
      limited = c2;
      checked = (d3, d4);
      seen = d2;
      ended = outcome-Ended o p t p.completion refl last;
    }
  where
    passed :
        (a b c d : Bool) (r : Reason)
        → can_close (
            if a
            then clock_unavailable
            else if b
            then Reason.nothing_started
            else if c
            then Reason.unknown_order
            else if d
            then clock_unavailable
            else r)
          ≡ true
        → (a ≡ false) × (b ≡ false) × (c ≡ false) × (d ≡ false) × (can_close r ≡ true)
    passed true b c d r k = cc
    passed false true c d r k = cc
    passed false false true d r k = cc
    passed false false false true r k = cc
    passed false false false false r k = (refl, refl, refl, refl, k)

-- A request that may be closed has no DNS record left to remove, if the image is not one of the past.
reason_at-Finished :
    (l : Ledger) (t : Stamp)
    → can_close (reason_at l t) ≡ true
    → ((not l.image.historical && ltb 0 (plan_reserve l.image)) ≡ false)
      × Finished l.order l.issuance t
unfolding reason_at close_eligibility
reason_at-Finished l t h =
    let (a, b) =
      free (any_later t (all_closed l)) (not l.image.historical && ltb 0 (plan_reserve l.image)) _
        h in
    (a, eligibility_of-Finished l.order l.issuance t b)
  where
    free :
        (a b : Bool) (r : Reason)
        → can_close (if a then clock_unavailable else if b then Reason.dns_cleanup_needed else r)
          ≡ true
        → (b ≡ false) × (can_close r ≡ true)
    free true b r k = cc
    free false true r k = cc
    free false false r k = (refl, k)

request_status-Finished :
    (l : Ledger) (t : Stamp)
    → (request_status l t).0 ≡ true
    → ((not l.image.historical && ltb 0 (plan_reserve l.image)) ≡ false)
      × Finished l.order l.issuance t
unfolding request_status
request_status-Finished l t h =
    let (same, may, room) =
      status_of-closes (reason_at l t) (leb max_closed (length l.closed))
        (leb max_generation l.image.generation || leb max_history (length l.image.history)) h in
    reason_at-Finished l t may

no_plan :
    (m : Image)
    → m.historical ≡ false
    → (not m.historical && ltb 0 (plan_reserve m)) ≡ false
    → plan_reserve m ≡ 0
no_plan m h e = zero_left (plan_reserve m) (later m.historical (ltb 0 (plan_reserve m)) h e)
  where
    later : (a b : Bool) → a ≡ false → (not a && b) ≡ false → b ≡ false
    later a b h e = ground arith

    zero_left : (n : ℕ) → ltb 0 n ≡ false → n ≡ 0
    zero_left n h = ground arith

module _ (size : Image → ℕ) (payload : Closed → ℕ) where
  -- The order and the issuance after a closing, and the test that it has passed.
  close_request-parts :
      (l made : Ledger) (expected : ℕ) (now : Instant)
      → close_request size payload l expected now ≡ ok made
      → (stale l.image expected ≡ false)
        × ((request_status l (format now)).0 ≡ true)
        × (made.order ≡ no_order)
        × (made.issuance ≡ no_issuance)
  unfolding close_request closed_as with_image
  close_request-parts l made expected now h =
      let t = format now in
      let status = request_status l t in
      let next = closed_as size l t (status.1) in
      let event = add_event next.image "acme-request-closed" (l.order.fingerprint ∷ []) now in
      let finish = λ (m : Image). ok (with_image size next m) in
      let write = event >>= encode size >>= finish in
      let big = ltb max_payload (payload (item_of l t (status.1))) in
      let (a, h1) =
        refuse_if-eq-ok (stale l.image expected) stale_generation
          (refuse_if (not (status.0)) invalid (refuse_if big limit write)) made h in
      let (b, h2) = refuse_if-eq-ok (not (status.0)) invalid (refuse_if big limit write) made h1 in
      let (c, h3) = refuse_if-eq-ok big limit write made h2 in
      let (m, h4, h5) = >>=-eq-ok (event >>= encode size) finish h3 in
      let same = ok_same h5 in
      (
        a,
        not_parts _ b,
        ap (λ (x : Ledger). x.order) (sym same),
        ap (λ (x : Ledger). x.issuance) (sym same),
      )
    where
      ok_same : {x : Ledger} → ok x ≡ ok made → x ≡ made
      ok_same e = cc

  -- A closing that comes to be written was asked for the image at hand. No DNS record was left to
  -- remove, and the order had begun, was known by its address, and had ended: its certificate was
  -- saved, or its time was over without one. The clock was not behind any instant that was saved with
  -- it. No order and no issuance are left.
  pub close_request-Finished :
      (l l' : Ledger) (expected : ℕ) (now : Instant)
      → l.image.historical ≡ false
      → close_request size payload l expected now ≡ ok l'
      → (l.image.generation ≡ expected)
        × (plan_reserve l.image ≡ 0)
        × Finished l.order l.issuance (format now)
        × (l'.order ≡ no_order)
        × (l'.issuance ≡ no_issuance)
  close_request-Finished l l' expected now present h =
      let (a, b, order, issuance) = close_request-parts l l' expected now h in
      let (free, done) = request_status-Finished l (format now) b in
      let (x, y) = or_parts _ _ a in
      (
        (==_iff l.image.generation expected).0 (not_parts _ y),
        no_plan l.image present free,
        done,
        order,
        issuance,
      )
