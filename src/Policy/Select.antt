-- ===== src/Policy/Select.antt =====
-- `selectAt` of internal/renewalpolicy/selection.go: the chosen instant.
use rootwell.Prelude.{
  ℕ, ◌+◌, ◌-◌, ◌≤◌, ◌<◌, max, ◌≡◌, refl, subst, inl, inr, Bool, true, Option, none, some, arith,
  Bool-cases,
}
use rootwell.Clock.{Instant, second}
use rootwell.Policy.{
  Window, Information, Source, fallback, ari, Selection, usable, startable, fallback_window, choose,
  select_in, select_at, valid_window,
}
use rootwell.Policy.Fallback.{fallback_window_within, fallback_window_exists}

abbrev pub source_of : Option Information → Source
source_of none = fallback
source_of (some i) = ari

-- The window that the instant is drawn from.
abbrev pub window_of : Window → Option Information → Option Window
window_of life none = fallback_window life
window_of life (some i) = some i.window

-- The provider's information, where there is any, passes its tests.
abbrev pub informed : Window → Option Information → Instant → Bool
informed life none now = true
informed life (some i) now = usable i life now

some_absurd : {A : Type 0} {a : A} → none ≡ some a → ⊥
some_absurd h = cc

choose_parts :
    (source : Source) (w life : Window) (now not_before : Instant) (drawn : Option ℕ)
    (sel : Selection)
    → choose source w life now not_before drawn ≡ some sel
    → (sel.source ≡ source)
      × (n : ℕ) × (drawn ≡ some n)
      × (n < w.end - w.start)
      × (sel.at ≡ max (max (w.start + n) now) not_before)
      × (sel.at < life.end)
unfolding choose
choose_parts source w life now not_before none sel h = absurd (some_absurd h)
choose_parts source w life now not_before (some n) sel h =
    (ground arith, n, refl, ground arith, ground arith, ground arith)

-- What the switch has chosen from.
abbrev Drawn : Window → Option Information → Instant → Instant → (ℕ → Option ℕ) → Selection → Type 0
Drawn life information now not_before pick sel =
    (sel.source ≡ source_of information)
    × (informed life information now ≡ true)
    × (w : Window) × (n : ℕ) × (window_of life information ≡ some w)
    × (pick (w.end - w.start) ≡ some n)
    × (n < w.end - w.start)
    × (sel.at ≡ max (max (w.start + n) now) not_before)
    × (sel.at < life.end)

select_in-Drawn :
    (life : Window) (information : Option Information) (fb : Option Window)
    (now not_before : Instant) (pick : ℕ → Option ℕ) (sel : Selection)
    → fallback_window life ≡ fb
    → select_in fb life information now not_before pick ≡ some sel
    → Drawn life information now not_before pick sel
unfolding select_in
select_in-Drawn life information none now not_before pick sel e h = absurd (some_absurd h)
select_in-Drawn life none (some w) now not_before pick sel e h =
    let (s, n, p, less, at, end) =
      choose_parts fallback w life now not_before (pick (w.end - w.start)) sel h in
    (s, refl, w, n, e, p, less, at, end)
select_in-Drawn life (some i) (some w) now not_before pick sel e h =
    elim (Bool-cases (usable i life now)) [
      | inl ok ↦
          let (s, n, p, less, at, end) =
            choose_parts ari i.window life now not_before (pick (i.window.end - i.window.start)) sel
              (rw ok at h) in
          (s, ok, i.window, n, refl, p, less, at, end)
      | inr bad ↦ absurd (some_absurd (rw bad at h))
    ]

-- A chosen instant is drawn from the window that its source names: the provider's where there is
-- provider information, which then passed its tests, and the fallback window of the lifetime
-- otherwise. The draw is below the window's width, and the instant is moved up to the present and to
-- the caller's bound, never past the end of the lifetime.
pub select_at_sound :
    (life : Window) (information : Option Information) (now not_before : Instant)
    (pick : ℕ → Option ℕ) (sel : Selection)
    → select_at life information now not_before pick ≡ some sel
    → (life.start ≤ now)
      × (now ≤ sel.at)
      × (not_before ≤ sel.at)
      × (sel.source ≡ source_of information)
      × (informed life information now ≡ true)
      × (w : Window) × (n : ℕ) × (window_of life information ≡ some w)
      × (pick (w.end - w.start) ≡ some n)
      × (n < w.end - w.start)
      × (sel.at ≡ max (max (w.start + n) now) not_before)
      × (sel.at < life.end)
unfolding select_at
select_at_sound life information now not_before pick sel h =
    elim (Bool-cases (startable life now not_before)) [
      | inl ok ↦
          let (s, u, w, n, e, p, less, at, end) =
            select_in-Drawn life information (fallback_window life) now not_before pick sel refl
              (rw ok at h) in
          (ground (arith), omega (arith, at), omega (arith, at), s, u, w, n, e, p, less, at, end)
      | inr bad ↦ absurd (some_absurd (rw bad at h))
    ]

choose-some :
    (source : Source) (w life : Window) (now not_before : Instant) (drawn : Option ℕ) (n : ℕ)
    → drawn ≡ some n
    → n < w.end - w.start
    → w.end ≤ life.end
    → now < life.end
    → not_before < life.end
    → choose source w life now not_before drawn
      ≡ some (record { source = source; at = max (max (w.start + n) now) not_before })
unfolding choose
choose-some source w life now not_before drawn n e less inside present late = rw e (ground arith)

startable-now :
    (life : Window) (now not_before : Instant)
    → startable life now not_before ≡ true
    → (valid_window life ≡ true) × (now < life.end)
startable-now life now not_before h = (ground arith, ground arith)

usable-end :
    (i : Information) (life : Window) (now : Instant)
    → usable i life now ≡ true
    → i.window.end ≤ life.end
usable-end i life now h = ground arith

some_same : {A : Type 0} {a b : A} → some a ≡ some b → a ≡ b
some_same e = cc

-- The choice succeeds at an instant within a lifetime of a second at least: whatever number below the
-- width of the window is drawn, from the provider's window where its information passes its tests and
-- from the fallback window otherwise, the drawn instant, moved up to the present and to a bound within
-- the lifetime, is chosen.
pub select_at_succeeds :
    (life w : Window) (information : Option Information) (now not_before : Instant)
    (pick : ℕ → Option ℕ) (n : ℕ)
    → startable life now not_before ≡ true
    → life.start + second ≤ life.end
    → informed life information now ≡ true
    → window_of life information ≡ some w
    → pick (w.end - w.start) ≡ some n
    → n < w.end - w.start
    → not_before < life.end
    → select_at life information now not_before pick
      ≡ some
          (record { source = source_of information; at = max (max (w.start + n) now) not_before })
unfolding select_at select_in
select_at_succeeds life w none now not_before pick n ok long u e p less late =
    let (start, width, inside, third, part) = fallback_window_within life w e in
    let (valid, present) = startable-now life now not_before ok in
    rw (ok, e)
      (choose-some fallback w life now not_before (pick (w.end - w.start)) n p less (omega arith)
        present late)
select_at_succeeds life w (some i) now not_before pick n ok long u e p less late =
    let (valid, present) = startable-now life now not_before ok in
    let (fb, found) = fallback_window_exists life valid long in
    let same : i.window ≡ w = some_same e in
    rw (ok, found, u, same)
      (choose-some ari w life now not_before (pick (w.end - w.start)) n p less
        (subst (λ (x : Window). x.end ≤ life.end) same (usable-end i life now u)) present late)
