-- ===== src/Closing/Eligible.antt =====
-- Which requests may be closed, and the item that closing one makes.

use rootwell.Prelude.{
  lt→ltb, le→leb, leb-false, not_parts, or_parts, ◌+◌, ◌≤◌, ◌<◌, ◌≡◌, refl, sym, subst, ◌∙◌, Bool,
  true, false, not, ◌&&◌, ◌||◌, Option, none, some, arith, ltb, leb, ◌==◌, if◌then◌else◌, length,
}
use rootwell.Clock.Stamp.{Stamp, before, is_blank}
use rootwell.Dns.{order_time}
use rootwell.Image.{max_generation, max_history}
use rootwell.Closing.{
  Placed, Issuance, Completion, Reason, Ledger, complete, expired, any_later, eligibility_of,
  close_eligibility, completed_at, outcome, clock_unavailable, is_not_started, request_status,
  can_close, all_closed, max_closed, status_of, reason_at, plan_reserve, deadline, Closed,
  is_complete, item_ok, is_expired, completed_by,
}

-- What a request that may be closed has passed.
pub eligibility_of-guards :
    (o : Placed) (p : Issuance) (t : Stamp)
    → can_close (eligibility_of o p t) ≡ true
    → (order_time t ≡ true) × (is_not_started o.state ≡ false) × ((length o.url == 0) ≡ false)
unfolding eligibility_of
eligibility_of-guards o p t h =
    first (not (order_time t) || before t o.started) refl (is_not_started o.state) refl
      (length o.url == 0 || is_blank o.expires) refl h
  where
    rest : Reason
    rest =
        if before t p.started_at
          || before t p.checked_at
          || not (is_blank o.checked_at) && before t o.checked_at
        then clock_unavailable
        else outcome o p t p.completion

    first :
        (a : Bool)
        → (not (order_time t) || before t o.started) ≡ a
        → (b : Bool) → is_not_started o.state ≡ b
        → (c : Bool) → (length o.url == 0 || is_blank o.expires) ≡ c
        → can_close (
            if a
            then clock_unavailable
            else if b
            then Reason.nothing_started
            else if c
            then Reason.unknown_order
            else rest)
          ≡ true
        → (order_time t ≡ true) × (is_not_started o.state ≡ false) × ((length o.url == 0) ≡ false)
    first true x b y c z k = cc
    first false x true y c z k = cc
    first false x false y true z k = cc
    first false x false y false z k =
        let (x1, x2) = or_parts _ _ x in let (z1, z2) = or_parts _ _ z in (not_parts _ x1, y, z1)

-- The completion of a request that is closed as complete.
eligibility_of-completed :
    (o : Placed) (p : Issuance) (t : Stamp)
    → eligibility_of o p t ≡ complete
    → (c : Completion) × (p.completion ≡ some c)
      × (before t c.saved_at ≡ false)
      × (before t c.deleted_at ≡ false)
unfolding eligibility_of outcome completed_at
eligibility_of-completed o p t h =
    late (not (order_time t) || before t o.started) (is_not_started o.state)
      (length o.url == 0 || is_blank o.expires)
      (before t p.started_at
        || before t p.checked_at
        || not (is_blank o.checked_at) && before t o.checked_at)
      h
  where
    settled :
        (q : Option Completion)
        → outcome o p t q ≡ complete
        → (c : Completion) × (q ≡ some c)
          × (before t c.saved_at ≡ false)
          × (before t c.deleted_at ≡ false)
    settled none k = open_end (before t (deadline o p)) k
      where
        open_end :
            (b : Bool)
            → (if b then Reason.active else expired) ≡ complete
            → (c : Completion) × (none ≡ some c)
              × (before t c.saved_at ≡ false)
              × (before t c.deleted_at ≡ false)
        open_end true k = cc
        open_end false k = cc
    settled (some c) k = timed (before t c.saved_at || before t c.deleted_at) refl k
      where
        timed :
            (b : Bool)
            → (before t c.saved_at || before t c.deleted_at) ≡ b
            → (if b then clock_unavailable else complete) ≡ complete
            → (x : Completion) × (some c ≡ some x)
              × (before t x.saved_at ≡ false)
              × (before t x.deleted_at ≡ false)
        timed true e k = cc
        timed false e k = let (e1, e2) = or_parts _ _ e in (c, refl, e1, e2)

    late :
        (a b e f : Bool)
        → (if a
            then clock_unavailable
            else if b
            then Reason.nothing_started
            else if e
            then Reason.unknown_order
            else if f
            then clock_unavailable
            else outcome o p t p.completion)
          ≡ complete
        → (c : Completion) × (p.completion ≡ some c)
          × (before t c.saved_at ≡ false)
          × (before t c.deleted_at ≡ false)
    late true b e f k = cc
    late false true e f k = cc
    late false false true f k = cc
    late false false false true k = cc
    late false false false false k = settled p.completion k

pub status_of-closes :
    (r : Reason) (full spent : Bool)
    → (status_of r full spent).0 ≡ true
    → ((status_of r full spent).1 ≡ r) × (can_close r ≡ true) × (full ≡ false)
unfolding status_of
status_of-closes complete true spent h = cc
status_of-closes complete false true h = cc
status_of-closes complete false false h = (refl, refl, refl)
status_of-closes expired true spent h = cc
status_of-closes expired false true h = cc
status_of-closes expired false false h = (refl, refl, refl)
status_of-closes Reason.nothing_started full spent h = cc
status_of-closes Reason.dns_cleanup_needed full spent h = cc
status_of-closes clock_unavailable full spent h = cc
status_of-closes Reason.unknown_order full spent h = cc
status_of-closes Reason.active full spent h = cc
status_of-closes Reason.capacity full spent h = cc

reason_at-closes :
    (l : Ledger) (t : Stamp)
    → can_close (reason_at l t) ≡ true
    → (any_later t (all_closed l) ≡ false) × (eligibility_of l.order l.issuance t ≡ reason_at l t)
unfolding reason_at close_eligibility
reason_at-closes l t h =
    guarded (any_later t (all_closed l)) refl
      (not l.image.historical && ltb 0 (plan_reserve l.image)) h
  where
    by : Bool → Bool → Reason
    by a b =
        if a
        then clock_unavailable
        else if b
        then Reason.dns_cleanup_needed
        else eligibility_of l.order l.issuance t

    guarded :
        (a : Bool)
        → any_later t (all_closed l) ≡ a
        → (b : Bool) → can_close (by a b) ≡ true
        → (any_later t (all_closed l) ≡ false) × (eligibility_of l.order l.issuance t ≡ by a b)
    guarded true e b k = cc
    guarded false e true k = cc
    guarded false e false k = (e, refl)

pub request_status-parts :
    (l : Ledger) (t : Stamp)
    → (request_status l t).0 ≡ true
    → (any_later t (all_closed l) ≡ false)
      × (eligibility_of l.order l.issuance t ≡ (request_status l t).1)
      × (can_close (eligibility_of l.order l.issuance t) ≡ true)
      × (length l.closed < max_closed)
unfolding request_status
request_status-parts l t h =
    let (same, may, room) =
      status_of-closes (reason_at l t) (leb max_closed (length l.closed))
        (leb max_generation l.image.generation || leb max_history (length l.image.history)) h in
    let (early, why) = reason_at-closes l t may in
    (
      early,
      why ∙ sym same,
      subst (λ (r : Reason). can_close r ≡ true) (sym why) may,
      leb-false max_closed (length l.closed) room,
    )

-- The request that is closed at a generation, by its own eligibility.
abbrev pub closing : Ledger → Stamp → Closed
closing l t = record {
  closed_at = t;
  closed_generation = l.image.generation + 1;
  reason = eligibility_of l.order l.issuance t;
  order = l.order;
  issuance = l.issuance;
  sealed_at = l.image.generation + 1;
}

-- The items at hand are sealed in the image's own history.
abbrev pub IsSealed : Ledger → Type 0
IsSealed l =
    (3 ≤ l.order.sealed_at)
    × (l.order.sealed_at ≤ l.image.generation)
    × (l.issuance.sealed_at ≤ l.image.generation)

closing-reason :
    (l : Ledger) (t : Stamp)
    → can_close (eligibility_of l.order l.issuance t) ≡ true
    → (if is_complete (eligibility_of l.order l.issuance t)
        then completed_by (closing l t) l.issuance.completion
        else is_expired (eligibility_of l.order l.issuance t)
          && is_expired (eligibility_of l.order l.issuance t))
      ≡ true
unfolding is_complete is_expired completed_by
closing-reason l t may =
    by (eligibility_of l.order l.issuance t) may (eligibility_of-completed l.order l.issuance t)
  where
    by :
        (r : Reason)
        → can_close r ≡ true
        → (r ≡ complete
            → (c : Completion) × (l.issuance.completion ≡ some c)
              × (before t c.saved_at ≡ false)
              × (before t c.deleted_at ≡ false))
        → (if is_complete r
            then completed_by (closing l t) l.issuance.completion
            else is_expired r && is_expired r)
          ≡ true
    by complete m f = done (f refl)
      where
        done :
            (c : Completion) × (l.issuance.completion ≡ some c)
              × (before t c.saved_at ≡ false)
              × (before t c.deleted_at ≡ false)
            → completed_by (closing l t) l.issuance.completion ≡ true
        done (c, e, s, d) =
            subst (λ (o : Option Completion). completed_by (closing l t) o ≡ true) (sym e)
              (ground arith)
    by expired m f = refl
    by Reason.nothing_started m f = cc
    by Reason.dns_cleanup_needed m f = cc
    by clock_unavailable m f = cc
    by Reason.unknown_order m f = cc
    by Reason.active m f = cc
    by Reason.capacity m f = cc

pub closing-item_ok :
    (l : Ledger) (t : Stamp)
    → IsSealed l
    → can_close (eligibility_of l.order l.issuance t) ≡ true
    → item_ok (l.image.generation + 1) (closing l t) ≡ true
unfolding item_ok
closing-item_ok l t (low, order, issuance) may =
    let (time, started, url) = eligibility_of-guards l.order l.issuance t may in
    let reason = closing-reason l t may in
    eight _ _ _ _ _ _ _ _ (le→leb 4 (l.image.generation + 1) (omega (arith, low, order)))
      (le→leb (l.image.generation + 1) (l.image.generation + 1) (omega arith)) time
      (le→leb 4 (l.image.generation + 1) (omega (arith, low, order)))
      (le→leb (l.image.generation + 1) (l.image.generation + 1) (omega arith))
      (lt→ltb l.order.sealed_at (l.image.generation + 1) (omega (arith, order)))
      (left _ _ (lt→ltb l.issuance.sealed_at (l.image.generation + 1) (omega (arith, issuance))))
      reason
  where
    left : (a b : Bool) → a ≡ true → (a || b) ≡ true
    left a b h = ground arith

    eight :
        (a b c d e f g k : Bool)
        → a ≡ true
        → b ≡ true
        → c ≡ true
        → d ≡ true
        → e ≡ true
        → f ≡ true
        → g ≡ true
        → k ≡ true
        → (a && b && c && d && e && f && g && k) ≡ true
    eight a b c d e f g k ha hb hc hd he hf hg hk = ground arith
