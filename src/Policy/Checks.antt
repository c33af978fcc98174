-- ===== src/Policy/Checks.antt =====
-- `NextCheck` and `ErrorCheckAt` of internal/renewalpolicy/information.go.
use rootwell.Prelude.{
  ℕ, zero, suc, ◌+◌, ◌*◌, ◌≤◌, ◌<◌, ◌≡◌, Bool, true, false, Option, some, List, [], ◌∷◌, arith,
}
use rootwell.Prelude.Bytes.{Bytes}
use rootwell.Clock.{Instant, minute, hour}
use rootwell.Policy.{valid_time, next_check, error_delay}

-- The next check lies between a minute and a day ahead, whatever the header holds.
pub next_check_bounds :
    (http_date : Bytes → Option Instant) (values : List Bytes) (now next : Instant)
    → next_check http_date values now ≡ some next
    → (now + minute ≤ next) × (next ≤ now + 24 * hour) × (valid_time next ≡ true)
unfolding next_check
next_check_bounds http_date [] now next h = ground arith
next_check_bounds http_date (value ∷ []) now next h = ground arith
next_check_bounds http_date (_ ∷ _ ∷ _) now next h = ground arith

-- One temporary failure more never shortens the delay, and no delay passes that of a lasting error.
pub error_delay_mono :
    (temporary : Bool) (failures : ℕ)
    → 1 ≤ failures
    → failures < 6
    → (error_delay temporary failures ≤ error_delay temporary (failures + 1))
      × (minute ≤ error_delay temporary failures)
      × (error_delay temporary failures ≤ error_delay false failures)
unfolding error_delay
error_delay_mono t zero a b = absurd (omega arith)
error_delay_mono t (suc zero) a b = ground arith
error_delay_mono t (suc (suc zero)) a b = ground arith
error_delay_mono t (suc (suc (suc zero))) a b = ground arith
error_delay_mono t (suc (suc (suc (suc zero)))) a b = ground arith
error_delay_mono t (suc (suc (suc (suc (suc zero))))) a b = ground arith
error_delay_mono t (suc (suc (suc (suc (suc (suc n)))))) a b = absurd (omega arith)
