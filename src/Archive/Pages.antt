-- ===== src/Archive/Pages.antt =====
-- The pages of retained events: what appending a page and an event does to the checks of
-- `openHistory`.
use rootwell.Prelude.{
  or_parts, not_parts, ltb-false, ℕ, suc, ◌≤◌, ◌≡◌, refl, sym, ap, ◌∙◌, Bool, true, false, not,
  ◌&&◌, ◌||◌, List, [], ◌∷◌, ◌++◌, arith, ltb, ◌==◌, length, all, if-false,
}
use rootwell.Image.{
  Error, Result, err, refuse_if, Image, Event, ok, invalid, refuse_if-eq-ok, max_history,
}
use rootwell.Image.History.{valid_event}
use rootwell.Archive.{
  flatten, all_events, page_fits, start_fits, contiguous, last_generation, open_history, is_nil,
  max_history_archives, refuse_if,
}

pub append_assoc {ℓ} : {A : Type ℓ} (xs ys zs : List A) → (xs ++ ys) ++ zs ≡ xs ++ (ys ++ zs)
append_assoc [] ys zs = refl
append_assoc (x ∷ xs) ys zs = ap (λ l. x ∷ l) (append_assoc xs ys zs)

pub flatten-page {ℓ} :
    {A : Type ℓ} (pages : List (List A)) (page rest : List A)
    → flatten (pages ++ page ∷ []) ++ rest ≡ (flatten pages ++ page) ++ rest
unfolding flatten
flatten-page [] page rest = append_assoc page [] rest
flatten-page (p ∷ pages) page rest =
    append_assoc p (flatten (pages ++ page ∷ [])) rest
    ∙ ap (λ l. p ++ l) (flatten-page pages page rest)
    ∙ ap (λ l. p ++ l) (append_assoc (flatten pages) page rest)
    ∙ sym (append_assoc p (flatten pages) (page ++ rest))
    ∙ sym (append_assoc (p ++ flatten pages) page rest)

pub all-page :
    (pages : List (List Event)) (page : List Event)
    → all page_fits pages ≡ true
    → page_fits page ≡ true
    → all page_fits (pages ++ page ∷ []) ≡ true
all-page [] page h p = ground arith
all-page (q ∷ pages) page h p = ground (arith, all-page pages page)

-- The events under one generation more, with the event of that generation.
pub contiguous-append :
    (top previous : ℕ) (es : List Event) (e : Event)
    → contiguous top previous es ≡ true
    → last_generation previous es ≡ top
    → e.generation ≡ suc top
    → 1 ≤ top
    → valid_event e ≡ true
    → contiguous (suc top) previous (es ++ e ∷ []) ≡ true
unfolding contiguous last_generation
contiguous-append top previous [] e h l g n v = ground arith
contiguous-append top previous (x ∷ es) e h l g n v =
    ground (arith, contiguous-append top x.generation es e)

pub last_generation-append :
    (previous : ℕ) (es : List Event) (e : Event)
    → last_generation previous (es ++ e ∷ []) ≡ e.generation
unfolding last_generation
last_generation-append previous [] e = refl
last_generation-append previous (x ∷ es) e = last_generation-append x.generation es e

-- What `openHistory` has tested of an image that it opens.
pub record Opened (m : Image) (events : List Event) : Type 0 where
  pub active : length m.history ≤ max_history
  pub pages : length m.archives ≤ max_history_archives
  pub present : (not (is_nil m.archives) && is_nil m.history) ≡ false
  pub start : start_fits m.archives m.archive_start ≡ true
  pub fits : all page_fits m.archives ≡ true
  pub follow : contiguous m.generation 0 (all_events m) ≡ true
  pub ends :
      (not (is_nil (all_events m)) && not (last_generation 0 (all_events m) == m.generation))
      ≡ false
  pub whole : events ≡ all_events m

pub open_history-Opened :
    (m : Image) (events : List Event) → open_history m ≡ ok events → Opened m events
unfolding open_history
open_history-Opened m events h =
    let (a, h1) =
      refuse_if-eq-ok
        (ltb max_history (length m.history)
          || ltb max_history_archives (length m.archives)
          || not (is_nil m.archives) && is_nil m.history)
        invalid _ events h in
    let (b, h2) =
      refuse_if-eq-ok (not (start_fits m.archives m.archive_start)) invalid _ events h1 in
    let (c, h3) = refuse_if-eq-ok (not (all page_fits m.archives)) invalid _ events h2 in
    let (d, h4) =
      refuse_if-eq-ok (not (contiguous m.generation 0 (all_events m))) invalid _ events h3 in
    let (e, h5) =
      refuse_if-eq-ok
        (not (is_nil (all_events m)) && not (last_generation 0 (all_events m) == m.generation))
        invalid _ events h4 in
    let (a1, a2) = or_parts _ _ a in
    let (a3, a4) = or_parts _ _ a1 in
    record {
      active = ltb-false max_history (length m.history) a3;
      pages = ltb-false max_history_archives (length m.archives) a4;
      present = a2;
      start = not_parts _ b;
      fits = not_parts _ c;
      follow = not_parts _ d;
      ends = e;
      whole = ok_parts h5;
    }
  where
    ok_parts : ok (all_events m) ≡ ok events → events ≡ all_events m
    ok_parts p = cc

passed {ℓ} :
    {A : Type ℓ} (test : Bool) (e : Error) (rest : Result A)
    → test ≡ false
    → refuse_if test e rest ≡ rest
unfolding refuse_if
passed test e rest h = if-false test (err e) rest h

pub Opened-open_history :
    (m : Image) (events : List Event) → Opened m events → open_history m ≡ ok events
unfolding open_history
Opened-open_history m events o =
    passed
      (ltb max_history (length m.history)
        || ltb max_history_archives (length m.archives)
        || not (is_nil m.archives) && is_nil m.history)
      invalid _ (few (length m.history) (length m.archives) _ o.active o.pages o.present)
    ∙ passed (not (start_fits m.archives m.archive_start)) invalid _ (ap not o.start)
    ∙ passed (not (all page_fits m.archives)) invalid _ (ap not o.fits)
    ∙ passed (not (contiguous m.generation 0 (all_events m))) invalid _ (ap not o.follow)
    ∙ passed (not (is_nil (all_events m)) && not (last_generation 0 (all_events m) == m.generation))
        invalid _ o.ends
    ∙ ap ok (sym o.whole)
  where
    few :
        (a b : ℕ) (c : Bool)
        → a ≤ max_history
        → b ≤ max_history_archives
        → c ≡ false
        → (ltb max_history a || ltb max_history_archives b || c) ≡ false
    few a b c h k l = ground arith
