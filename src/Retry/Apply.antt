-- ===== src/Retry/Apply.antt =====
-- `Apply` of internal/providerretry/policy.go: a provider's wait carried into the same state.
use rootwell.Prelude.{
  ℕ, ◌+◌, ◌*◌, ◌≤◌, ◌<◌, ◌≡◌, ◌≢◌, arith, some, some, some, true, true, ◌⊎◌, sym, ◌∙◌, none,
}
use rootwell.Clock.{second, le-round_up, round_up-whole}
use rootwell.Clock.Stamp.{at}
use rootwell.Retry.{State, Hint, valid, apply, max_provider_wait}
use rootwell.Retry.Begin.{Dated, valid-Dated}

apply-valid : (s : State) (h : Hint) (t : State) → apply s h ≡ some t → valid s ≡ true
unfolding apply
apply-valid s h t e = ground arith

apply_started : (s : State) (h : Hint) (t : State) → apply s h ≡ some t → s.attempts ≢ 0
unfolding apply
apply_started s h t e = ground arith

-- What a hint changes, over the parsed texts of the state.
changes :
    (s t : State) (h : Hint)
    → Dated s
    → apply s h ≡ some t
    → (valid t ≡ true) × (t.attempts ≡ s.attempts) × (t.last_at ≡ s.last_at)
unfolding apply valid
changes s t h d e = ground (arith, le-round_up h.not_before, round_up-whole h.not_before)

deadlines :
    (s t : State) (h : Hint) (n m : ℕ)
    → apply s h ≡ some t
    → s.not_before ≡ at n
    → t.not_before ≡ at m
    → (n ≤ m) × (h.not_before ≤ m * second)
unfolding apply
deadlines s t h n m e p q = ground (arith, le-round_up h.not_before, round_up-whole h.not_before)

-- A wait that is carried over keeps the state valid, spends no attempt and changes no instant of
-- the past. The new deadline is at or after the old one and at or after the provider's instant.
pub apply_extends :
    (s : State) (h : Hint) (t : State)
    → apply s h ≡ some t
    → (valid t ≡ true)
      × (t.attempts ≡ s.attempts)
      × (t.last_at ≡ s.last_at)
      × ((n : ℕ) × (m : ℕ) × (s.not_before ≡ at n)
          × (t.not_before ≡ at m)
          × (n ≤ m)
          × (h.not_before ≤ m * second))
apply_extends s h t e =
    let d = valid-Dated s (apply-valid s h t e) (apply_started s h t e) in
    let (v, counted, last) = changes s t h d e in
    let d' = valid-Dated t v (λ z. apply_started s h t e (sym counted ∙ z)) in
    let (later, heeds) = deadlines s t h d.next d'.next e d.next_text d'.next_text in
    (v, counted, last, (d.next, d'.next, d.next_text, d'.next_text, later, heeds))

-- A blocked hint, a state with no attempt and a wait past the bound are refused, never shortened.
pub apply_refuses :
    (s : State) (h : Hint) (last : ℕ)
    → s.last_at ≡ at last
    → (h.blocked ≡ true) ⊎ (s.attempts ≡ 0) ⊎ (last * second + max_provider_wait < h.not_before)
    → apply s h ≡ none
unfolding apply
apply_refuses s h last e c = ground (arith, le-round_up h.not_before)
