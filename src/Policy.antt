-- ===== src/Policy.antt =====
-- internal/renewalpolicy/selection.go and information.go: the window in which a certificate is
-- renewed, the choice of an instant in it, and the instants of the next checks.
mod Tests
pub mod Fallback
pub mod Select
pub mod Checks
use rootwell.Prelude.{
  ℕ, zero, suc, ◌+◌, ◌-◌, ◌*◌, ◌/◌, ◌%◌, ◌^◌, ◌≤◌, ◌<◌, min, max, String, ◌≡◌, refl, sym, ap, subst,
  ◌∙◌, ◌≢◌, ◌↔◌, ◌⊎◌, inl, inr, Bool, true, false, not, ◌&&◌, ◌||◌, Option, none, some, List, [],
  ◌∷◌, ◌++◌, map, arith, ltb, leb, ◌==◌, if◌then◌else◌, Bool-cases, Option-cases, length, get_elem?,
  set, all, str_eq, eq_iff, eq_refl, tests,
}
use rootwell.Prelude.Bytes.{Bytes, is_digit}
use rootwell.Clock.{Instant, second, minute, hour, day, years, is_zero}
use rootwell.Retry.{parse_uint}

pub record Window : Type 0 where
  pub start : Instant
  pub end : Instant

pub record Information : Type 0 where
  pub window : Window
  pub checked_at : Instant
  pub check_after : Instant

pub data Source : Type 0 where
  fallback ari : Source

pub record Selection : Type 0 where
  pub source : Source
  pub at : Instant

-- `validTime`
abbrev pub valid_time : Instant → Bool
valid_time t = not (is_zero t) && years 2020 2100 t

-- `validWindow`
abbrev pub valid_window : Window → Bool
valid_window w = valid_time w.start && valid_time w.end && ltb w.start w.end

-- `backstop` of `FallbackWindow`
pub backstop : ℕ → ℕ
backstop span = if ltb span (10 * day) then span / 2 else span / 3 * 2

pub fallback_window : Window → Option Window
fallback_window lifetime =
    let span = lifetime.end - lifetime.start in
    let end = lifetime.start + backstop span in
    if not (valid_window lifetime) || ltb span second
    then none
    else some (record { start = end - span / 24; end = end })

-- The tests of `selectAt` on the provider's information.
abbrev pub usable : Information → Window → Instant → Bool
usable i lifetime now =
    valid_window i.window
    && valid_time i.checked_at
    && leb i.checked_at now
    && ltb i.checked_at lifetime.end
    && valid_time i.check_after
    && ltb now i.check_after
    && ltb i.checked_at i.check_after
    && leb minute (i.check_after - i.checked_at)
    && leb (i.check_after - i.checked_at) (24 * hour)
    && leb i.window.end lifetime.end

-- The tests of `selectAt` on the instants.
abbrev pub startable : Window → Instant → Instant → Bool
startable lifetime now not_before =
    valid_window lifetime
    && valid_time now
    && leb lifetime.start now
    && ltb now lifetime.end
    && (is_zero not_before || valid_time not_before)

-- The end of `selectAt`: `n` is what `pick` drew below the window's width.
choose : Source → Window → Window → Instant → Instant → Option ℕ → Option Selection
choose source window lifetime now not_before none = none
choose source window lifetime now not_before (some n) =
    let drawn = window.start + n in
    let current = if ltb drawn now then now else drawn in
    let at = if ltb current not_before then not_before else current in
    if leb (window.end - window.start) n
    then none
    else if leb lifetime.end at
    then none
    else some (record { source = source; at = at })

-- The switch of `selectAt` between the fallback window and the provider's.
select_in :
    Option Window
    → Window
    → Option Information
    → Instant
    → Instant
    → (ℕ → Option ℕ)
    → Option Selection
unfolding choose
select_in none lifetime information now not_before pick = none
select_in (some w) lifetime none now not_before pick =
    choose fallback w lifetime now not_before (pick (w.end - w.start))
select_in (some w) lifetime (some i) now not_before pick =
    if not (usable i lifetime now)
    then none
    else choose ari i.window lifetime now not_before (pick (i.window.end - i.window.start))

-- `pick` draws a number below its argument, or fails; `now` and `not_before` are the caller's.
pub select_at : Window → Option Information → Instant → Instant → (ℕ → Option ℕ) → Option Selection
unfolding select_in
select_at lifetime information now not_before pick =
    if not (startable lifetime now not_before)
    then none
    else select_in (fallback_window lifetime) lifetime information now not_before pick

-- The clamp of `NextCheck` to one minute and one day, and the instant that it leads to.
abbrev check_in : ℕ → Instant → Option Instant
check_in delay now =
    let next = now + max minute (min (24 * hour) delay) in
    if valid_time next then some next else none

-- The number of seconds of a text of digits; one out of range counts as a day.
abbrev seconds_delay : Option ℕ → ℕ
seconds_delay none = 24 * hour
seconds_delay (some n) = if leb 86400 n then 24 * hour else n * second

-- The date branch of `NextCheck`; a date in the past is a delay of less than a minute.
abbrev date_check : Option Instant → Instant → Option Instant
date_check none now = none
date_check (some stamp) now = if valid_time stamp then check_in (stamp - now) now else none

-- `http_date` is the `time` package on the layout Mon, 02 Jan 2006 15:04:05 GMT.
pub next_check : (Bytes → Option Instant) → List Bytes → Instant → Option Instant
next_check http_date (value ∷ []) now =
    if not (valid_time now) || ltb (length value) 1 || ltb 64 (length value)
    then none
    else if all is_digit value
    then check_in (seconds_delay (parse_uint 64 0 value)) now
    else date_check (http_date value) now
next_check http_date _ now = none

-- The delay of `ErrorCheckAt`.
pub error_delay : Bool → ℕ → ℕ
error_delay temporary failures =
    if temporary && ltb failures 6 then minute * 2 ^ (failures - 1) else 6 * hour

error_check_at : Instant → Bool → ℕ → Option Instant
error_check_at now temporary failures =
    let next = now + error_delay temporary failures in
    if not (valid_time now) || ltb failures 1 || ltb 6 failures
    then none
    else if valid_time next
    then some next
    else none
