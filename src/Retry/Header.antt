-- ===== src/Retry/Header.antt =====
-- `RetryAfter` of internal/providerretry/policy.go: the provider's header as a hint.
use rootwell.Prelude.{
  ℕ, ◌+◌, ◌-◌, ◌*◌, ◌/◌, ◌≤◌, ◌≡◌, ◌⊎◌, true, false, not, ◌||◌, Option, none, some, List, [], ◌∷◌,
  arith, ltb, if◌then◌else◌, length, all,
}
use rootwell.Prelude.Bytes.{Bytes, is_digit}
use rootwell.Clock.{Instant, second, years}
use rootwell.Retry.{Hint, no_hint, blocked_hint, max_provider_wait, parse_uint}

-- `http_date` is the `time` package on the layout Mon, 02 Jan 2006 15:04:05 GMT: the instant of a
-- text that this layout writes.
module _ (http_date : Bytes → Option Instant) where
  -- The date branch, on the parsed text.
  from_date : Option Instant → Instant → Hint
  from_date none now = blocked_hint
  from_date (some t) now =
      if not (years 2020 2100 t) || ltb max_provider_wait (t - now)
      then blocked_hint
      else record { not_before = t; blocked = false }

  -- The seconds branch, on the parsed number.
  from_seconds : Option ℕ → Instant → Hint
  from_seconds none now = blocked_hint
  from_seconds (some n) now =
      if ltb (max_provider_wait / second) n
      then blocked_hint
      else record { not_before = now + n * second; blocked = false }

  -- `strings.TrimSpace(value) != value` refuses a text that the layout never writes.
  pub retry_after : List Bytes → Instant → Hint
  unfolding from_date from_seconds
  retry_after [] now = no_hint
  retry_after (value ∷ []) now =
      if ltb (length value) 1 || ltb 64 (length value) || not (years 2020 2100 now)
      then blocked_hint
      else if all is_digit value
      then from_seconds (parse_uint 32 0 value) now
      else from_date (http_date value) now
  retry_after (_ ∷ _ ∷ _) now = blocked_hint

  -- No header asks for nothing; any header asks for an instant at most seven days ahead, and one
  -- that blocks names no instant.
  pub retry_after_bounds :
      (values : List Bytes) (now : Instant)
      → (retry_after [] now ≡ no_hint)
        × ((retry_after values now).not_before ≤ now + max_provider_wait)
        × (((retry_after values now).blocked ≡ false) ⊎ ((retry_after values now).not_before ≡ 0))
  unfolding retry_after
  retry_after_bounds [] now = ground arith
  retry_after_bounds (value ∷ []) now = ground arith
  retry_after_bounds (_ ∷ _ ∷ _) now = ground arith

  -- A text of digits with a value of at most 604,800 asks for that many seconds.
  pub retry_after_seconds :
      (value : Bytes) (n : ℕ) (now : Instant)
      → 1 ≤ length value
      → length value ≤ 64
      → years 2020 2100 now ≡ true
      → all is_digit value ≡ true
      → parse_uint 32 0 value ≡ some n
      → n ≤ 604_800
      → retry_after (value ∷ []) now ≡ record { not_before = now + n * second; blocked = false }
  unfolding retry_after
  retry_after_seconds value n now a b y d e h = ground arith
