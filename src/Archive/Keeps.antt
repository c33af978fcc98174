-- ===== src/Archive/Keeps.antt =====
-- `ArchiveHistory`: the retained events before and after it.
use rootwell.Prelude.{
  not_parts, ℕ, suc, ◌+◌, ◌≤◌, ◌<◌, ◌≡◌, refl, sym, ap, subst, ◌∙◌, Bool, true, false, not, ◌&&◌,
  ◌||◌, List, [], ◌∷◌, ◌++◌, arith, ◌==◌, if◌then◌else◌, length, all, length-append,
}
use rootwell.Clock.{Instant, years}
use rootwell.Clock.Stamp.{format}
use rootwell.Image.{
  refuse_if, limit, invalid, stale_generation, refuse_if-eq-ok, >>=-eq-ok, ◌>>=◌, refuse_if, limit,
  invalid, stale_generation, refuse_if-eq-ok, >>=-eq-ok, ◌>>=◌, Image, Event, ok, invalid, limit,
  stale_generation, refuse_if, refuse_if-eq-ok, >>=-eq-ok, ◌>>=◌, max_generation,
}
use rootwell.Image.History.{valid_event, add_event, add_event-eq-ok, event_of, with_event}
use rootwell.Operation.{Codec, encoded}
use rootwell.Archive.{
  flatten, all_events, start_fits, contiguous, last_generation, open_history, can_archive, paged,
  is_nil, max_history_archives, archive_events, archive_history, not_later, last_fingerprint,
  first_generation, min_archive_events,
}
use rootwell.Archive.Pages.{
  Opened-open_history, Opened, open_history-Opened, flatten-page, all-page, contiguous-append,
  last_generation-append,
}

-- What `CanArchive` tells.
record Archivable (m : Image) : Type 0 where
  enough : min_archive_events ≤ length m.history
  page : length m.archives < max_history_archives
  room : m.generation < max_generation

can_archive-Archivable : (m : Image) → can_archive m ≡ true → Archivable m
unfolding can_archive
can_archive-Archivable m h = record {
  enough = ground arith;
  page = ground arith;
  room = ground arith;
}

-- The image that `ArchiveHistory` publishes, for the event that it adds.
abbrev archived : Image → Event → Image
archived m e = with_event (paged m) e

archived-events : (m : Image) (e : Event) → all_events (archived m e) ≡ all_events m ++ e ∷ []
unfolding paged
archived-events m e = flatten-page m.archives m.history (e ∷ [])

start_fits-page :
    (pages : List (List Event)) (page : List Event) (start : ℕ) (top : ℕ)
    → start_fits pages start ≡ true
    → contiguous top 0 (flatten pages ++ page) ≡ true
    → 512 ≤ length page
    → start_fits (pages ++ page ∷ []) (if is_nil pages then first_generation page else start) ≡ true
unfolding start_fits contiguous flatten first_generation
start_fits-page [] [] start top h c n = absurd (omega (arith, n))
start_fits-page [] (e ∷ es) start top h c n = ground arith
start_fits-page ([] ∷ pages) page start top h c n = cc
start_fits-page ((e ∷ es) ∷ pages) page start top h c n = h

not_nil : (xs : List Event) (e : Event) → is_nil (xs ++ e ∷ []) ≡ false
not_nil [] e = refl
not_nil (x ∷ xs) e = refl

ends_at :
    (xs : List Event) (top : ℕ)
    → (not (is_nil xs) && not (last_generation 0 xs == top)) ≡ false
    → 1 ≤ length xs
    → last_generation 0 xs ≡ top
ends_at [] top h n = omega (arith, n)
ends_at (x ∷ xs) top h n = ground arith

length-page :
    (pages : List (List Event)) (page : List Event)
    → length (pages ++ page ∷ []) ≡ suc (length pages)
length-page pages page = omega (arith, length-append pages (page ∷ []))

last_nil :
    (xs : List Event) (e : Event) (top : ℕ)
    → e.generation ≡ top
    → (not (is_nil (xs ++ e ∷ [])) && not (last_generation 0 (xs ++ e ∷ []) == top)) ≡ false
last_nil xs e top g = ground (arith, last_generation-append 0 xs e)

least : (es : List Event) (top : ℕ) → contiguous top 0 es ≡ true → 1 ≤ length es → 1 ≤ top
unfolding contiguous
least [] top h n = absurd (omega (arith, n))
least (e ∷ es) top h n = ground arith

-- The published image passes every test of `openHistory`.
archived-Opened :
    (m : Image) (events : List Event) (e : Event)
    → Opened m events
    → Archivable m
    → valid_event e ≡ true
    → e.generation ≡ suc m.generation
    → Opened (archived m e) (all_events m ++ e ∷ [])
unfolding paged
archived-Opened m events e o a v g =
    let n = length-append (flatten m.archives) m.history in
    let last = ends_at (all_events m) m.generation o.ends (omega (arith, a.enough, n)) in
    record {
      active = omega arith;
      pages = omega (arith, length-page m.archives m.history, a.page);
      present = present (is_nil (m.archives ++ m.history ∷ []));
      start =
          start_fits-page m.archives m.history m.archive_start m.generation o.start o.follow
            a.enough;
      fits = all-page m.archives m.history o.fits (ground (arith, a.enough, o.active));
      follow =
          subst (λ l. contiguous (m.generation + 1) 0 l ≡ true) (sym (archived-events m e))
            (subst (λ k. contiguous k 0 (all_events m ++ e ∷ []) ≡ true) (omega arith)
              (contiguous-append m.generation 0 (all_events m) e o.follow last g
                (least (all_events m) m.generation o.follow (omega (arith, a.enough, n))) v));
      ends =
          subst (λ l. (not (is_nil l) && not (last_generation 0 l == m.generation + 1)) ≡ false)
            (sym (archived-events m e))
            (last_nil (all_events m) e (m.generation + 1) (omega (arith, g)));
      whole = sym (archived-events m e);
    }
  where
    present : (b : Bool) → (not b && false) ≡ false
    present true = refl
    present false = refl

encoded-eq-ok : (codec : Codec) (m m' : Image) → encoded codec m ≡ ok m' → m' ≡ m
unfolding encoded refuse_if
encoded-eq-ok codec m m' h = ground arith

paged-generation : (m : Image) → (paged m).generation ≡ suc m.generation
unfolding paged
paged-generation m = omega arith

paged-expected :
    (m : Image) (expected : ℕ)
    → (expected == 0 || not (m.generation == expected)) ≡ false
    → (paged m).generation ≡ expected + 1
unfolding paged
paged-expected m expected a = ground arith

paged-history : (m : Image) (e : Event) → (archived m e).history ≡ e ∷ []
unfolding paged
paged-history m e = refl

-- The chain of `archive_events`: the published image is the paged one with a valid event.
archive_events-archived :
    (codec : Codec) (m m' : Image) (events : List Event) (now : Instant)
    → archive_events codec m events now ≡ ok m'
    → (e : Event) × (valid_event e ≡ true) × (e.generation ≡ suc m.generation) × (m' ≡ archived m e)
unfolding archive_events
archive_events-archived codec m m' events now h =
    let (c, h1) = refuse_if-eq-ok (not (years 2020 2100 now)) invalid _ m' h in
    let (d, h2) = refuse_if-eq-ok (not (all (not_later (format now)) events)) invalid _ m' h1 in
    let ids = last_fingerprint events ∷ [] in
    let (p, added, h3) =
      >>=-eq-ok (add_event (paged m) "history-archived" ids now)
        (λ p. encoded codec p >>= λ next. open_history next >>= λ _. ok next) h2 in
    let (next, enc, h4) =
      >>=-eq-ok (encoded codec p) (λ next. open_history next >>= λ _. ok next) h3 in
    let (es, opened, h5) = >>=-eq-ok (open_history next) (λ _. ok next) h4 in
    let (room, v, q) = add_event-eq-ok (paged m) p "history-archived" ids now added in
    (
      event_of (paged m) "history-archived" ids now,
      v,
      paged-generation m,
      ok_same h5 ∙ encoded-eq-ok codec p next enc ∙ q,
    )
  where
    ok_same : {next : Image} → ok next ≡ ok m' → m' ≡ next
    ok_same e = cc

-- An archive that is published holds every retained event in its old order and then the event of
-- the archiving, it opens again to just these, its generation is the next one, and only that new
-- event takes an active slot.
pub archive_history_keeps :
    (codec : Codec) (m m' : Image) (expected : ℕ) (now : Instant)
    → archive_history codec m expected now ≡ ok m'
    → (e : Event) × (all_events m' ≡ all_events m ++ e ∷ [])
      × (open_history m' ≡ ok (all_events m ++ e ∷ []))
      × (m'.generation ≡ expected + 1)
      × (m'.history ≡ e ∷ [])
unfolding archive_history
archive_history_keeps codec m m' expected now h =
    let stale = expected == 0 || not (m.generation == expected) in
    let (a, h1) = refuse_if-eq-ok stale stale_generation _ m' h in
    let (b, h2) = refuse_if-eq-ok (not (can_archive m)) limit _ m' h1 in
    let (events, o, h3) =
      >>=-eq-ok (open_history m) (λ events. archive_events codec m events now) h2 in
    let (e, v, g, q) = archive_events-archived codec m m' events now h3 in
    let opened =
      archived-Opened m events e (open_history-Opened m events o)
        (can_archive-Archivable m (not_parts _ b)) v g in
    let opens = Opened-open_history (archived m e) (all_events m ++ e ∷ []) opened in
    (
      e,
      ap all_events q ∙ archived-events m e,
      ap open_history q ∙ opens,
      ap Image.generation q ∙ paged-expected m expected a,
      ap Image.history q ∙ paged-history m e,
    )
