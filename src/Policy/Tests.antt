-- ===== src/Policy/Tests.antt =====
-- The renewal policy at a certificate of ninety days.
use rootwell.Prelude.{
  ℕ, ◌+◌, ◌-◌, ◌*◌, ◌/◌, ◌≤◌, ◌<◌, max, ◌≡◌, refl, true, false, Option, none, some, [], ◌∷◌, arith,
}
use rootwell.Prelude.Bytes.{Bytes, codes}
use rootwell.Clock.{Instant, minute, hour, day, year_at_least, year_start}
use rootwell.Policy.{
  Window, fallback, Selection, valid_time, backstop, fallback_window, startable, select_at,
  next_check, error_delay, Information, ari,
}
use rootwell.Policy.Fallback.{fallback_window_within}
use rootwell.Policy.Select.{source_of, select_at_sound, select_at_succeeds, window_of, informed}
use rootwell.Policy.Checks.{next_check_bounds, error_delay_mono}
use rootwell.Retry.{parse_uint}

abbrev issued : Instant
issued = 737_500 * day

abbrev lifetime : Window
lifetime = record { start = issued; end = issued + 90 * day }

-- Two thirds of ninety days are sixty days, and the window is a twenty-fourth of ninety days wide.
abbrev window : Window
window = record { start = issued + 60 * day - 90 * hour; end = issued + 60 * day }

abbrev draw : ℕ → Option ℕ
draw width = some (width / 2)

window_found : fallback_window lifetime ≡ some window
unfolding fallback_window backstop year_at_least year_start
window_found = refl

abbrev noon : Instant
noon = issued + 10 * day

abbrev selected : Selection
selected = record { source = fallback; at = issued + 60 * day - 45 * hour }

selected_at : select_at lifetime none noon 0 draw ≡ some selected
unfolding select_at fallback_window backstop year_at_least year_start
selected_at = refl

lifetime-startable : startable lifetime noon 0 ≡ true
unfolding year_at_least year_start
lifetime-startable = refl

fallback_window_within_example :
    (lifetime.start ≤ window.start)
    × (window.start < window.end)
    × (window.end < lifetime.end)
    × (3 * (window.end - lifetime.start) ≤ 2 * (lifetime.end - lifetime.start))
    × (window.end - window.start ≡ (lifetime.end - lifetime.start) / 24)
fallback_window_within_example = fallback_window_within lifetime window window_found

select_at_sound_example :
    (lifetime.start ≤ noon)
    × (noon ≤ selected.at)
    × (0 ≤ selected.at)
    × (selected.source ≡ source_of none)
    × (informed lifetime none noon ≡ true)
    × (w : Window) × (n : ℕ) × (window_of lifetime none ≡ some w)
    × (draw (w.end - w.start) ≡ some n)
    × (n < w.end - w.start)
    × (selected.at ≡ max (max (w.start + n) noon) 0)
    × (selected.at < lifetime.end)
select_at_sound_example = select_at_sound lifetime none noon 0 draw selected selected_at

-- A window of two days that the provider has named, read an hour ago.
abbrev advice : Information
advice = record {
  window = record { start = issued + 20 * day; end = issued + 22 * day };
  checked_at = noon - hour;
  check_after = noon + 5 * hour;
}

advised : informed lifetime (some advice) noon ≡ true
unfolding year_at_least year_start
advised = refl

select_at_succeeds_example :
    select_at lifetime (some advice) noon 0 draw
    ≡ some (record { source = ari; at = max (max (issued + 20 * day + 1 * day) noon) 0 })
select_at_succeeds_example =
    select_at_succeeds lifetime advice.window (some advice) noon 0 draw (1 * day) lifetime-startable
      (omega arith) advised refl refl (omega arith) (omega arith)

abbrev no_date : Bytes → Option Instant
no_date value = none

next_found : next_check no_date (codes "7200" ∷ []) noon ≡ some (noon + 2 * hour)
unfolding next_check parse_uint year_at_least year_start
next_found = refl

next_check_bounds_example :
    (noon + minute ≤ noon + 2 * hour)
    × (noon + 2 * hour ≤ noon + 24 * hour)
    × (valid_time (noon + 2 * hour) ≡ true)
next_check_bounds_example =
    next_check_bounds no_date (codes "7200" ∷ []) noon (noon + 2 * hour) next_found

delay_grows :
    (error_delay true 2 ≤ error_delay true (2 + 1))
    × (minute ≤ error_delay true 2)
    × (error_delay true 2 ≤ error_delay false 2)
delay_grows = error_delay_mono true 2 (omega arith) (omega arith)
