-- ===== src/Archive.antt =====
-- internal/inventorystore/history_archive.go and `openHistory` of history.go: the pages of retained
-- events, their reading and the moving of the active events to a page.
mod Tests
pub mod Pages
pub mod Keeps
pub mod Writes
use rootwell.Prelude.{
  ℕ, zero, suc, ◌+◌, ◌-◌, ◌*◌, ◌/◌, ◌%◌, ◌^◌, ◌≤◌, ◌<◌, min, max, String, ◌≡◌, refl, sym, ap, subst,
  ◌∙◌, ◌≢◌, ◌↔◌, ◌⊎◌, inl, inr, Bool, true, false, not, ◌&&◌, ◌||◌, Option, none, some, List, [],
  ◌∷◌, ◌++◌, map, arith, ltb, leb, ◌==◌, if◌then◌else◌, Bool-cases, Option-cases, length, get_elem?,
  get_elem?-set_self, set, all, length-append, if-true, if-false, str_eq, eq_iff, eq_refl, tests,
}
use rootwell.Prelude.Bytes.{Bytes}
use rootwell.Clock.{Instant, years}
use rootwell.Clock.Stamp.{Stamp, format, before}
use rootwell.Image.{
  Image, Event, Result, ok, err, invalid, limit, stale_generation, refuse_if, ◌>>=◌, max_history,
  max_generation,
}
use rootwell.Image.History.{valid_event, add_event}
use rootwell.Operation.{Codec, encoded}

abbrev pub max_history_archives : ℕ
max_history_archives = 4

abbrev pub min_archive_events : ℕ
min_archive_events = 512

abbrev pub is_nil {ℓ} : {A : Type ℓ} → List A → Bool
is_nil [] = true
is_nil (x ∷ xs) = false

unfoldable pub flatten {ℓ} : {A : Type ℓ} → List (List A) → List A
flatten [] = []
flatten (page ∷ pages) = page ++ flatten pages

-- The events of an image, the archived pages before the active ones.
abbrev pub all_events : Image → List Event
all_events m = flatten m.archives ++ m.history

abbrev pub page_fits : List Event → Bool
page_fits page = leb min_archive_events (length page) && leb (length page) max_history

-- The tests on the first archived page and `HistoryArchiveStart`.
pub start_fits : List (List Event) → ℕ → Bool
start_fits [] start = start == 0
start_fits ([] ∷ pages) start = false
start_fits ((e ∷ es) ∷ pages) start = leb 2 start && e.generation == start

-- The loop over the events: `top` is the image's generation and `previous` the last event's, 0 at
-- first.
pub contiguous : ℕ → ℕ → List Event → Bool
contiguous top previous [] = true
contiguous top previous (e ∷ es) =
    leb 2 e.generation
    && leb e.generation top
    && (previous == 0 || e.generation == previous + 1)
    && valid_event e
    && contiguous top e.generation es

pub last_generation : ℕ → List Event → ℕ
last_generation previous [] = previous
last_generation previous (e ∷ es) = last_generation e.generation es

-- `openHistory`
pub open_history : Image → Result (List Event)
open_history m =
    refuse_if
      (ltb max_history (length m.history)
        || ltb max_history_archives (length m.archives)
        || not (is_nil m.archives) && is_nil m.history)
      invalid
      (refuse_if (not (start_fits m.archives m.archive_start)) invalid (
        refuse_if (not (all page_fits m.archives)) invalid (
          refuse_if (not (contiguous m.generation 0 (all_events m))) invalid (
            refuse_if
              (not (is_nil (all_events m))
                && not (last_generation 0 (all_events m) == m.generation))
              invalid (ok (all_events m))))))

-- `CanArchive` of `archiveStatus`
pub can_archive : Image → Bool
can_archive m =
    not (ltb (length m.history) min_archive_events)
    && not (max_history_archives - length m.archives == 0)
    && not (leb max_generation m.generation)

first_generation : List Event → ℕ
first_generation [] = 0
first_generation (e ∷ es) = e.generation

-- The last event's first fingerprint; `openHistory` has seen that there is one.
last_fingerprint : List Event → Bytes
last_fingerprint [] = []
last_fingerprint (e ∷ []) = first_of e.fingerprints
  where
    first_of : List Bytes → Bytes
    first_of [] = []
    first_of (f ∷ fs) = f
last_fingerprint (e ∷ e' ∷ es) = last_fingerprint (e' ∷ es)

-- The image with its active events moved to a page of their own.
pub paged : Image → Image
unfolding first_generation
paged m = record m {
  archive_start = if is_nil m.archives then first_generation m.history else m.archive_start;
  archives = m.archives ++ m.history ∷ [];
  history = [];
  generation = m.generation + 1;
}

abbrev pub not_later : Stamp → Event → Bool
not_later now e = not (before now e.at)

module _ (codec : Codec) where
  -- `ArchiveHistory` after the guards, with the events that `openHistory` returned.
  pub archive_events : Image → List Event → Instant → Result Image
  unfolding last_fingerprint
  archive_events m events now = refuse_if (not (years 2020 2100 now)) invalid (
      refuse_if (not (all (not_later (format now)) events)) invalid (
        add_event (paged m) "history-archived" (last_fingerprint events ∷ []) now >>= λ m'.
        encoded codec m' >>= λ next. open_history next >>= λ _. ok next))

  -- `ArchiveHistory`
  pub archive_history : Image → ℕ → Instant → Result Image
  unfolding archive_events
  archive_history m expected now =
      refuse_if (expected == 0 || not (m.generation == expected)) stale_generation (
        refuse_if (not (can_archive m)) limit
          (open_history m >>= λ events. archive_events m events now))
