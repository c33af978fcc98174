-- ===== src/Retry/Runs.antt =====
-- Every life of a retry state of internal/providerretry/policy.go: attempts that `Begin` reserved
-- and waits that `Apply` carried over, in any order.
use rootwell.Prelude.{
  ℕ, ◌+◌, ◌*◌, ◌^◌, ◌≤◌, ◌≡◌, refl, sym, ◌∙◌, true, some, List, [], ◌∷◌, arith, length,
}
use rootwell.Clock.{Instant, second}
use rootwell.Clock.Stamp.{at}
use rootwell.Retry.{State, Hint, valid, fresh, begin, apply, max_attempts}
use rootwell.Retry.Begin.{begin_reserves, begin_after, valid_few}
use rootwell.Retry.Apply.{apply_extends}

-- The states that a fresh one reaches, with the instants of the reserved attempts, latest first.
pub data Reach : State → List Instant → Type 0 where
  start : Reach fresh []
  reserve :
      {s t : State} {sent : List Instant} (now : Instant) (jitter : ℕ)
      → Reach s sent
      → begin s now jitter ≡ some t
      → Reach t (now ∷ sent)
  wait :
      {s t : State} {sent : List Instant} (hint : Hint)
      → Reach s sent
      → apply s hint ≡ some t
      → Reach t sent

-- Each attempt follows the one before it by half a minute at least, doubled for each attempt made.
abbrev pub Spaced : List Instant → Type 0
Spaced [] = Unit
Spaced (now ∷ []) = Unit
Spaced (now ∷ last ∷ sent) = (last + 30 * second * 2 ^ length sent ≤ now) × Spaced (last ∷ sent)

-- The deadline of a state lies behind the last attempt by the delay of its count.
abbrev Held : State → List Instant → Type 0
Held s [] = Unit
Held s (last ∷ sent) =
    (n : ℕ) × (s.not_before ≡ at n) × (last + 30 * second * 2 ^ length sent ≤ n * second)

record Kept (s : State) (sent : List Instant) : Type 0 where
  is_valid : valid s ≡ true
  counted : length sent ≡ s.attempts
  held : Held s sent
  spaced : Spaced sent

spaced_next :
    {s t : State} (sent : List Instant) (now : Instant) (jitter : ℕ)
    → Kept s sent
    → begin s now jitter ≡ some t
    → Spaced (now ∷ sent)
spaced_next [] now jitter k e = tt
spaced_next {s} {t} (last ∷ sent) now jitter k e =
    let (n, text, bound) = k.held in
    (omega (arith, begin_after s t now jitter n e (omega (arith, k.counted)) text), k.spaced)

Kept-reserve :
    {s t : State} (sent : List Instant) (now : Instant) (jitter : ℕ)
    → Kept s sent
    → begin s now jitter ≡ some t
    → Kept t (now ∷ sent)
Kept-reserve {s} {t} sent now jitter k e =
    let (v, counted, last, (next, text, low, high)) = begin_reserves s t now jitter e in
    record {
      is_valid = v;
      counted = omega (arith, k.counted);
      held = (next, text, rw k.counted (omega arith));
      spaced = spaced_next sent now jitter k e;
    }

Held-wait :
    (s t : State) (sent : List Instant) (n m : ℕ)
    → s.not_before ≡ at n
    → t.not_before ≡ at m
    → n ≤ m
    → Held s sent
    → Held t sent
Held-wait s t [] n m p q le h = tt
Held-wait s t (last ∷ sent) n m p q le (n', text, bound) = (m, q, ground arith)

Kept-wait :
    {s t : State} (sent : List Instant) (hint : Hint)
    → Kept s sent
    → apply s hint ≡ some t
    → Kept t sent
Kept-wait {s} {t} sent hint k e =
    let (v, counted, last, (n, m, p, q, later, heeds)) = apply_extends s hint t e in
    record {
      is_valid = v;
      counted = k.counted ∙ sym counted;
      held = Held-wait s t sent n m p q later k.held;
      spaced = k.spaced;
    }

Reach-Kept : {s : State} (sent : List Instant) → Reach s sent → Kept s sent
unfolding valid
Reach-Kept sent start = record { is_valid = refl; counted = refl; held = tt; spaced = tt }
Reach-Kept sent (reserve {sent = before} now jitter r e) =
    Kept-reserve before now jitter (Reach-Kept before r) e
Reach-Kept sent (wait hint r e) = Kept-wait sent hint (Reach-Kept sent r) e

-- In every life of a state the attempts are counted, at most six, and each follows the one before
-- it by half a minute at least, doubled for each attempt before that one. The state stays valid.
pub Reach_bounds :
    {s : State} (sent : List Instant)
    → Reach s sent
    → (valid s ≡ true) × (length sent ≡ s.attempts) × (length sent ≤ max_attempts) × Spaced sent
Reach_bounds {s} sent r =
    let k = Reach-Kept sent r in
    (k.is_valid, k.counted, rw k.counted (valid_few s k.is_valid), k.spaced)
