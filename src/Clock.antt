-- ===== src/Clock.antt =====
-- Go's `time` as the code uses it. An instant is the number of nanoseconds since Go's zero time,
-- 0001-01-01T00:00:00Z, and a positive duration is a number of nanoseconds. Every instant of the
-- model is in UTC.
pub mod Stamp
use rootwell.Prelude.{
  ℕ, suc, ◌+◌, ◌-◌, ◌*◌, ◌/◌, ◌%◌, ◌≤◌, ◌<◌, ◌≡◌, refl, Bool, true, false, not, ◌&&◌, arith, leb,
  ltb, ◌==◌, if◌then◌else◌, le→leb, leb→le,
}

abbrev pub Instant : Type 0
Instant = ℕ

abbrev pub second : ℕ
second = 1_000_000_000

abbrev pub minute : ℕ
minute = 60_000_000_000

abbrev pub hour : ℕ
hour = 3_600_000_000_000

abbrev pub day : ℕ
day = 86_400_000_000_000

-- The days before the first of January of a year, from the leap year rule.
unfoldable pub year_start : ℕ → ℕ
year_start y = let n = y - 1 in 365 * n + n / 4 - n / 100 + n / 400

-- `t.Year() >= y`.
unfoldable pub year_at_least : ℕ → Instant → Bool
unfolding year_start
year_at_least y t = leb (year_start y * day) t

-- `t.Year() >= lo && t.Year() <= hi`.
abbrev pub years : ℕ → ℕ → Instant → Bool
years lo hi t = year_at_least lo t && not (year_at_least (hi + 1) t)

-- `t.IsZero()`.
abbrev pub is_zero : Instant → Bool
is_zero t = t == 0

-- `t.Truncate(time.Second)`.
abbrev pub truncate : Instant → Instant
truncate t = t / second * second

-- The rounding of a deadline to whole seconds, upwards: `Nanosecond() != 0` is a test of the
-- remainder.
unfoldable pub round_up : Instant → Instant
round_up t = if t % second == 0 then t else truncate t + second

pub le-round_up : (t : Instant) → t ≤ round_up t
unfolding round_up
le-round_up t = ground arith

pub round_up-lt : (t : Instant) → round_up t < t + second
unfolding round_up
round_up-lt t = ground arith

pub round_up-whole : (t : Instant) → round_up t / second * second ≡ round_up t
unfolding round_up
round_up-whole t = ground arith

year_at_least_mono :
    (y : ℕ) (s t : Instant) → s ≤ t → year_at_least y s ≡ true → year_at_least y t ≡ true
unfolding year_at_least
year_at_least_mono y s t h = ground (arith, leb→le (year_start y * day) s)

-- An instant between two of the same span of years lies in it.
years_between :
    (lo hi : ℕ) (a b t : Instant)
    → years lo hi a ≡ true
    → years lo hi b ≡ true
    → a ≤ t
    → t ≤ b
    → years lo hi t ≡ true
years_between lo hi a b t ha hb at tb =
    ground (arith, year_at_least_mono lo a t at, year_at_least_mono (hi + 1) t b tb)

-- A span of years holds the whole second that an instant of it lies in.
pub years-truncate :
    (lo hi : ℕ) (t : Instant) → years lo hi t ≡ true → years lo hi (truncate t) ≡ true
unfolding year_at_least
years-truncate lo hi t h = ground arith
