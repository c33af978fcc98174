-- ===== src/Retry/Begin.antt =====
-- `Begin` of internal/providerretry/policy.go: what a reserved attempt looks like and when the next
-- one may follow.
use rootwell.Prelude.{
  ℕ, suc, ◌+◌, ◌-◌, ◌*◌, ◌/◌, ◌^◌, ◌≤◌, ◌<◌, ◌≡◌, ◌≢◌, refl, true, some, arith, zero, none,
}
use rootwell.Clock.{
  Instant, second, years, round_up, le-round_up, round_up-lt, round_up-whole, years-truncate,
}
use rootwell.Clock.Stamp.{Stamp, blank, at, malformed, format}
use rootwell.Retry.{State, valid, ready, begin, delay, max_provider_wait, max_attempts}

-- `1 << attempts` while attempts are left.
pow_small : (n : ℕ) → n < 6 → (1 ≤ 2 ^ n) × (2 ^ n ≤ 32)
pow_small zero h = omega arith
pow_small (suc zero) h = omega arith
pow_small (suc (suc zero)) h = omega arith
pow_small (suc (suc (suc zero))) h = omega arith
pow_small (suc (suc (suc (suc zero)))) h = omega arith
pow_small (suc (suc (suc (suc (suc zero))))) h = omega arith
pow_small (suc (suc (suc (suc (suc (suc n)))))) h = absurd (omega arith)

-- The stored texts of a reserved attempt, written out.
pub record Reserved (s t : State) (now : Instant) (jitter : ℕ) : Type 0 where
  pub counted : t.attempts ≡ s.attempts + 1
  pub last : t.last_at ≡ format now
  pub next : t.not_before ≡ format (round_up (now + delay s.attempts jitter))
  pub was_ready : ready s now ≡ true
  pub is_valid : valid t ≡ true
  pub jitter_small : jitter ≤ 30

pub begin-Reserved :
    (s t : State) (now : Instant) (jitter : ℕ)
    → begin s now jitter ≡ some t
    → Reserved s t now jitter
unfolding begin
begin-Reserved s t now jitter h = ground arith

-- The texts of a valid state with attempts, as instants.
pub record Dated (s : State) : Type 0 where
  pub some_attempts : 0 < s.attempts
  pub few_attempts : s.attempts ≤ 6
  pub last : ℕ
  pub next : ℕ
  pub last_text : s.last_at ≡ at last
  pub next_text : s.not_before ≡ at next
  pub last_years : years 2020 2100 (last * second) ≡ true
  pub next_years : years 2020 2100 (next * second) ≡ true
  pub ordered : last < next
  pub near : next * second - last * second ≤ max_provider_wait

pub valid-Dated : (s : State) → valid s ≡ true → s.attempts ≢ 0 → Dated s
unfolding valid
valid-Dated s h n = go s.last_at s.not_before refl refl
  where
    go : (a b : Stamp) → s.last_at ≡ a → s.not_before ≡ b → Dated s
    go (at a) (at b) p q = record {
      some_attempts = omega arith;
      few_attempts = ground arith;
      last = a;
      next = b;
      last_text = p;
      next_text = q;
      last_years = ground arith;
      next_years = ground arith;
      ordered = ground arith;
      near = ground arith;
    }
    go blank b p q = absurd (ground arith)
    go malformed b p q = absurd (ground arith)
    go (at a) blank p q = absurd (ground arith)
    go (at a) malformed p q = absurd (ground arith)

-- A reserved attempt counts one attempt more, stays valid, and puts the next attempt at least the
-- delay of its count after the present instant, and less than a second more.
pub begin_reserves :
    (s t : State) (now : Instant) (jitter : ℕ)
    → begin s now jitter ≡ some t
    → (valid t ≡ true)
      × (t.attempts ≡ s.attempts + 1)
      × (t.last_at ≡ format now)
      × ((next : ℕ) × (t.not_before ≡ at next)
          × (now + delay s.attempts jitter ≤ next * second)
          × (next * second < now + delay s.attempts jitter + second))
begin_reserves s t now jitter h =
    let r = begin-Reserved s t now jitter h in
    let wait = now + delay s.attempts jitter in
    (
      r.is_valid,
      r.counted,
      r.last,
      (
        round_up wait / second,
        r.next,
        omega (arith, le-round_up wait, round_up-whole wait),
        omega (arith, round_up-lt wait, round_up-whole wait),
      ),
    )

pub ready_facts :
    (s : State) (now : Instant)
    → ready s now ≡ true
    → (valid s ≡ true) × (years 2020 2100 now ≡ true) × (s.attempts < 6)
unfolding ready
ready_facts s now h = ground arith

-- The state that a ready one reserves is valid, unless the calendar ends within the delay.
next_valid :
    (t : State) (n jitter : ℕ) (now : Instant)
    → n < 6
    → jitter ≤ 30
    → years 2020 2100 now ≡ true
    → years 2020 2100 (round_up (now + delay n jitter)) ≡ true
    → t ≡ record {
      attempts = n + 1;
      last_at = format now;
      not_before = format (round_up (now + delay n jitter));
    }
    → valid t ≡ true
unfolding valid
next_valid t n jitter now few small hn hw e =
    let wait = now + delay n jitter in
    let low = years-truncate 2020 2100 now hn in
    rw e (
      ground
        (arith, low, hw, pow_small n few, le-round_up wait, round_up-lt wait, round_up-whole wait))

-- A ready state reserves its next attempt for every allowed jitter, while the calendar lasts.
pub begin_succeeds :
    (s : State) (now : Instant) (jitter : ℕ)
    → ready s now ≡ true
    → jitter ≤ 30
    → years 2020 2100 (round_up (now + delay s.attempts jitter)) ≡ true
    → (t : State) × (begin s now jitter ≡ some t)
unfolding begin
begin_succeeds s now jitter ok small cal =
    let (v, y, few) = ready_facts s now ok in
    let n = s.attempts in
    let t : State = record {
      attempts = n + 1;
      last_at = format now;
      not_before = format (round_up (now + delay n jitter));
    } in
    (t, ground (arith, next_valid t n jitter now few small y cal refl))

-- Before its deadline a state with attempts is refused, whatever the jitter.
pub begin_waits :
    (s : State) (next : ℕ) (now : Instant) (jitter : ℕ)
    → s.attempts ≢ 0
    → s.not_before ≡ at next
    → now < next * second
    → begin s now jitter ≡ none
unfolding begin ready
begin_waits s next now jitter n e h = ground arith

-- A state that has used its attempts is refused for good.
begin_exhausted :
    (s : State) (now : Instant) (jitter : ℕ) → max_attempts ≤ s.attempts → begin s now jitter ≡ none
unfolding begin ready
begin_exhausted s now jitter h = ground arith

pub begin_after :
    (s t : State) (now : Instant) (jitter n : ℕ)
    → begin s now jitter ≡ some t
    → s.attempts ≢ 0
    → s.not_before ≡ at n
    → n * second ≤ now
unfolding begin ready
begin_after s t now jitter n h a e = ground arith

pub valid_few : (s : State) → valid s ≡ true → s.attempts ≤ 6
unfolding valid
valid_few s h = ground arith
