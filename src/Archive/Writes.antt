-- ===== src/Archive/Writes.antt =====
-- `sealDNSPlan`, and with it each DNS operation, over the retained events of `openHistory`.
use rootwell.Clock.{Instant}
use rootwell.Image.{Image, Event, ok, max_history}
use rootwell.Image.History.{valid_event, event_of, with_event, event_refused_limits}
use rootwell.Operation.{Codec, seal_plan}
use rootwell.Operation.Begin.{planned, seal_plan-Sealed}
use rootwell.Archive.{flatten, all_events, open_history, contiguous, last_generation, is_nil}
use rootwell.Archive.Pages.{
  Opened, open_history-Opened, Opened-open_history, contiguous-append, last_generation-append,
  append_assoc,
}
use rootwell.Prelude.{
  ℕ, suc, ◌≤◌, ◌<◌, String, ◌≡◌, refl, sym, ap, subst, ◌∙◌, ◌⊎◌, inl, inr, Bool, true, false, not,
  ◌&&◌, List, [], ◌∷◌, ◌++◌, arith, ◌==◌, length, length-append,
}
use rootwell.Dns.{Plan}

-- The image with the next generation's event.
with_event-events :
    (m : Image) (p : Plan) (e : Event)
    → all_events (with_event (planned m p) e) ≡ all_events m ++ e ∷ []
with_event-events m p e = sym (append_assoc (flatten m.archives) m.history (e ∷ []))

contiguous-positive :
    (top : ℕ) (es : List Event) → contiguous top 0 es ≡ true → (es ≡ []) ⊎ (1 ≤ top)
unfolding contiguous
contiguous-positive top [] h = inl refl
contiguous-positive top (e ∷ es) h = inr (ground arith)

-- The checks of the loop with the event of the next generation, on an image with or without events.
appended :
    (top : ℕ) (es : List Event) (e : Event)
    → contiguous top 0 es ≡ true
    → (not (is_nil es) && not (last_generation 0 es == top)) ≡ false
    → e.generation ≡ suc top
    → valid_event e ≡ true
    → contiguous (suc top) 0 (es ++ e ∷ []) ≡ true
unfolding contiguous valid_event
appended top [] e h k g v = ground arith
appended top (x ∷ es) e h k g v =
    contiguous-append top 0 (x ∷ es) e h (ground arith) g (ground arith) v

ends_with :
    (top : ℕ) (es : List Event) (e : Event)
    → e.generation ≡ suc top
    → (not (is_nil (es ++ e ∷ [])) && not (last_generation 0 (es ++ e ∷ []) == suc top)) ≡ false
ends_with top es e g = ground (arith, last_generation-append 0 es e)

some_active :
    (archived : Bool) (es : List Event) (e : Event) → (archived && is_nil (es ++ e ∷ [])) ≡ false
some_active true [] e = refl
some_active true (x ∷ es) e = refl
some_active false es e = refl

next_generation : (m : Image) (p : Plan) → (planned m p).generation ≡ suc m.generation
next_generation m p = omega arith

Opened-planned :
    (m : Image) (p : Plan) (events : List Event) (e : Event)
    → Opened m events
    → length m.history < max_history
    → e.generation ≡ suc m.generation
    → valid_event e ≡ true
    → Opened (with_event (planned m p) e) (events ++ e ∷ [])
Opened-planned m p events e o room g v =
    let same = sym (with_event-events m p e) in
    let next = sym (next_generation m p) in
    record {
      active = omega (arith, length-append m.history (e ∷ []));
      pages = o.pages;
      present = some_active (not (is_nil m.archives)) m.history e;
      start = o.start;
      fits = o.fits;
      follow =
          subst (λ (l : List Event). contiguous (planned m p).generation 0 l ≡ true) same
            (subst (λ (k : ℕ). contiguous k 0 (all_events m ++ e ∷ []) ≡ true) next
              (appended m.generation (all_events m) e o.follow o.ends g v));
      ends =
          subst
            (λ (l : List Event).
              (not (is_nil l) && not (last_generation 0 l == (planned m p).generation)) ≡ false)
            same
            (subst
              (λ (k : ℕ).
                (not (is_nil (all_events m ++ e ∷ []))
                  && not (last_generation 0 (all_events m ++ e ∷ []) == k))
                ≡ false)
              next (ends_with m.generation (all_events m) e g));
      whole = ap (λ (l : List Event). l ++ e ∷ []) o.whole ∙ same;
    }

-- A write of the DNS plan that succeeds on an image whose history opens leaves a history that opens
-- again: every event that was retained, in the same order, and then the event of the write.
pub seal_plan_opens :
    (codec : Codec) (m m' : Image) (p : Plan) (action : String) (now : Instant)
    (events : List Event)
    → open_history m ≡ ok events
    → seal_plan codec m p action now ≡ ok m'
    → open_history m' ≡ ok (events ++ event_of (planned m p) action (p.account ∷ []) now ∷ [])
seal_plan_opens codec m m' p action now events o h =
    let s = seal_plan-Sealed codec m m' p action now h in
    let e = event_of (planned m p) action (p.account ∷ []) now in
    let (room, _, _, _) = event_refused_limits (planned m p) s.room in
    ap open_history s.image
    ∙ Opened-open_history (with_event (planned m p) e) (events ++ e ∷ []) (
        Opened-planned m p events e (open_history-Opened m events o) room (next_generation m p)
          s.valid)
