-- ===== src/Retry.antt =====
-- internal/providerretry/policy.go: the bounded retry policy of a provider operation.
mod Tests
pub mod Begin
pub mod Apply
pub mod Header
pub mod Runs
use rootwell.Prelude.{
  ℕ, suc, ◌+◌, ◌-◌, ◌*◌, ◌/◌, ◌^◌, ◌≤◌, ◌<◌, ◌≡◌, Bool, true, false, not, ◌&&◌, ◌||◌, Option, none,
  some, List, [], ◌∷◌, arith, leb, ltb, ◌==◌, if◌then◌else◌,
}
use rootwell.Prelude.Bytes.{Bytes, is_digit}
use rootwell.Clock.{Instant, second, day, years, is_zero, truncate, round_up}
use rootwell.Clock.Stamp.{Stamp, blank, at, malformed, format, is_blank}

abbrev pub max_attempts : ℕ
max_attempts = 6

abbrev pub max_provider_wait : ℕ
max_provider_wait = 7 * day

-- A count below zero, which `Valid` refuses, is not represented.
pub record State : Type 0 where
  pub attempts : ℕ
  pub last_at : Stamp
  pub not_before : Stamp

abbrev pub fresh : State
fresh = record { attempts = 0; last_at = blank; not_before = blank }

-- `not_before` is Go's zero time where the provider gave no hint.
pub record Hint : Type 0 where
  pub not_before : Instant
  pub blocked : Bool

-- `canonical`: the instant of a canonical text of the years 2020 to 2100.
abbrev canonical : Stamp → Option Instant
canonical (at s) = if years 2020 2100 (s * second) then some (s * second) else none
canonical _ = none

-- The comparison that ends `Valid`, on the two parsed texts.
abbrev spaced : Option Instant → Option Instant → Bool
spaced (some last) (some next) = ltb last next && leb (next - last) max_provider_wait
spaced _ _ = false

unfoldable pub valid : State → Bool
valid s =
    if s.attempts == 0
    then is_blank s.last_at && is_blank s.not_before
    else leb s.attempts max_attempts && spaced (canonical s.last_at) (canonical s.not_before)

-- The comparison that ends `Ready`, on the two parsed texts.
abbrev reached : Option Instant → Option Instant → Instant → Bool
reached (some last) (some next) now = leb last now && leb next now
reached _ _ now = false

unfoldable pub ready : State → Instant → Bool
ready s now =
    if not (valid s) || not (years 2020 2100 now) || leb max_attempts s.attempts
    then false
    else if s.attempts == 0
    then true
    else reached (canonical s.last_at) (canonical s.not_before) now

-- The delay before the next attempt, with the caller's jitter in seconds.
abbrev pub delay : ℕ → ℕ → ℕ
delay attempts jitter = 30 * second * 2 ^ attempts + jitter * second

unfoldable pub begin : State → Instant → ℕ → Option State
begin s now jitter =
    let next : State = record {
      attempts = s.attempts + 1;
      last_at = format now;
      not_before = format (round_up (now + delay s.attempts jitter));
    } in
    if not (ready s now) || ltb 30 jitter
    then none
    else if not (valid next)
    then none
    else some next

-- The end of `Apply`: `last` and `next` are the parsed texts and `bound` the rounded hint.
abbrev extended : State → Option Instant → Option Instant → Instant → Option State
extended s (some last) (some next) bound =
    if not (years 2020 2100 bound) || ltb max_provider_wait (bound - last)
    then none
    else if ltb next bound
    then some (record s { not_before = format bound })
    else some s
extended s _ _ bound = none

pub apply : State → Hint → Option State
apply s h =
    if not (valid s) || s.attempts == 0 || h.blocked
    then none
    else if is_zero h.not_before
    then some s
    else extended s (canonical s.last_at) (canonical s.not_before) (round_up h.not_before)

abbrev pub no_hint : Hint
no_hint = record { not_before = 0; blocked = false }

abbrev pub blocked_hint : Hint
blocked_hint = record { not_before = 0; blocked = true }

-- `strconv.ParseUint(value, 10, bits)` on a text of digits: none where the value is out of range.
unfoldable pub parse_uint : ℕ → ℕ → Bytes → Option ℕ
parse_uint bits n [] = if ltb n (2 ^ bits) then some n else none
parse_uint bits n (c ∷ cs) = parse_uint bits (n * 10 + (c - b'0')) cs
