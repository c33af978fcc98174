-- ===== src/Retry/Tests.antt =====
-- The retry policy at concrete states: instants of the year 2020.
use rootwell.Prelude.{
  ℕ, ◌+◌, ◌*◌, ◌≤◌, ◌<◌, ◌≡◌, refl, ◌⊎◌, inr, true, false, Option, none, some, [], ◌∷◌, arith,
  length,
}
use rootwell.Prelude.Bytes.{Bytes, codes}
use rootwell.Clock.{Instant, second, day, round_up, year_at_least, year_start, years}
use rootwell.Clock.Stamp.{at, format}
use rootwell.Retry.{
  State, Hint, fresh, begin, apply, valid, ready, delay, max_attempts, max_provider_wait,
  parse_uint, no_hint,
}
use rootwell.Retry.Begin.{begin_reserves, begin_succeeds, begin_waits}
use rootwell.Retry.Apply.{apply_extends, apply_refuses}
use rootwell.Retry.Header.{retry_after, retry_after_bounds, retry_after_seconds}
use rootwell.Retry.Runs.{Reach, Spaced, Reach_bounds}

abbrev morning : Instant
morning = 737_500 * day

-- The state after one attempt with a jitter of five seconds.
abbrev once : State
once = record { attempts = 1; last_at = at 63_720_000_000; not_before = at 63_720_000_035 }

abbrev hour_hint : Hint
hour_hint = record { not_before = morning + 3600 * second; blocked = false }

abbrev held : State
held = record { attempts = 1; last_at = at 63_720_000_000; not_before = at 63_720_003_600 }

once_begun : begin fresh morning 5 ≡ some once
unfolding begin ready valid round_up year_at_least year_start
once_begun = refl

held_applied : apply once hour_hint ≡ some held
unfolding apply valid round_up year_at_least year_start
held_applied = refl

begin_reserves_example :
    (valid once ≡ true)
    × (once.attempts ≡ fresh.attempts + 1)
    × (once.last_at ≡ format morning)
    × ((next : ℕ) × (once.not_before ≡ at next)
        × (morning + delay fresh.attempts 5 ≤ next * second)
        × (next * second < morning + delay fresh.attempts 5 + second))
begin_reserves_example = begin_reserves fresh once morning 5 once_begun

fresh_ready : ready fresh morning ≡ true
unfolding ready valid year_at_least year_start
fresh_ready = refl

calendar : years 2020 2100 (round_up (morning + delay fresh.attempts 5)) ≡ true
unfolding round_up year_at_least year_start
calendar = refl

begin_succeeds_example : (t : State) × (begin fresh morning 5 ≡ some t)
begin_succeeds_example = begin_succeeds fresh morning 5 fresh_ready (omega arith) calendar

begin_waits_example : begin once (morning + 30 * second) 0 ≡ none
begin_waits_example =
    begin_waits once 63_720_000_035 (morning + 30 * second) 0 (omega arith) refl (omega arith)

apply_extends_example :
    (valid held ≡ true)
    × (held.attempts ≡ once.attempts)
    × (held.last_at ≡ once.last_at)
    × ((n : ℕ) × (m : ℕ) × (once.not_before ≡ at n)
        × (held.not_before ≡ at m)
        × (n ≤ m)
        × (hour_hint.not_before ≤ m * second))
apply_extends_example = apply_extends once hour_hint held held_applied

apply_refuses_example :
    apply once (record { not_before = morning + 8 * day; blocked = false }) ≡ none
apply_refuses_example =
    apply_refuses once (record { not_before = morning + 8 * day; blocked = false }) 63_720_000_000
      refl (inr (inr (omega arith)))

-- A parser of dates that knows none.
abbrev no_date : Bytes → Option Instant
no_date value = none

retry_after_bounds_example :
    (retry_after no_date [] morning ≡ no_hint)
    × ((retry_after no_date (codes "120" ∷ []) morning).not_before ≤ morning + max_provider_wait)
    × (((retry_after no_date (codes "120" ∷ []) morning).blocked ≡ false)
        ⊎ ((retry_after no_date (codes "120" ∷ []) morning).not_before ≡ 0))
retry_after_bounds_example = retry_after_bounds no_date (codes "120" ∷ []) morning

two_minutes :
    retry_after no_date (codes "120" ∷ []) morning
    ≡ record { not_before = morning + 120 * second; blocked = false }
unfolding parse_uint year_at_least year_start
two_minutes =
    retry_after_seconds no_date (codes "120") 120 morning (omega arith) (omega arith) refl refl refl
      (omega arith)

Reach_bounds_example :
    (valid held ≡ true)
    × (length (morning ∷ []) ≡ held.attempts)
    × (length (morning ∷ []) ≤ max_attempts)
    × Spaced (morning ∷ [])
Reach_bounds_example =
    Reach_bounds (morning ∷ [])
      (Reach.wait hour_hint (Reach.reserve morning 5 Reach.start once_begun) held_applied)
