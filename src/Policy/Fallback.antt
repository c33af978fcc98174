-- ===== src/Policy/Fallback.antt =====
-- `FallbackWindow` of internal/renewalpolicy/selection.go.
use rootwell.Prelude.{◌+◌, ◌-◌, ◌*◌, ◌/◌, ◌≤◌, ◌<◌, ◌≡◌, true, some, arith}
use rootwell.Clock.{second}
use rootwell.Policy.{Window, valid_window, fallback_window, backstop}

-- The fallback window is not empty, starts no earlier than the lifetime and ends before it does,
-- at the latest two thirds into the lifetime, and lasts a twenty-fourth of the lifetime.
pub fallback_window_within :
    (life w : Window)
    → fallback_window life ≡ some w
    → (life.start ≤ w.start)
      × (w.start < w.end)
      × (w.end < life.end)
      × (3 * (w.end - life.start) ≤ 2 * (life.end - life.start))
      × (w.end - w.start ≡ (life.end - life.start) / 24)
unfolding fallback_window backstop
fallback_window_within life w h = ground arith

pub fallback_window_exists :
    (life : Window)
    → valid_window life ≡ true
    → life.start + second ≤ life.end
    → (w : Window) × (fallback_window life ≡ some w)
unfolding fallback_window
fallback_window_exists life v h =
    let span = life.end - life.start in
    let end = life.start + backstop span in
    (record { start = end - span / 24; end = end }, ground arith)
