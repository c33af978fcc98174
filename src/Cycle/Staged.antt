-- ===== src/Cycle/Staged.antt =====
-- The stage of `DecideRenewalCycle` that an action comes from.
use rootwell.Prelude.{
  ℕ, ◌≡◌, refl, sym, ap, subst, ◌∙◌, ◌⊎◌, inl, inr, Bool, true, false, ◌||◌, List, arith,
}
use rootwell.Prelude.Bytes.{Bytes}
use rootwell.Clock.{Instant}
use rootwell.Cycle.{Action, Decision, Snapshot}
use rootwell.Cycle.Decide.{saved, bound, decide, by_rows, in_order, before_order}
use rootwell.Cycle.Guards.{acts, Admitted, Roomy}
use rootwell.Cycle.Stages.{in_order-cases}
use rootwell.Cycle.Before.{before_order-cases}
use rootwell.Cycle.Choices.{
  sets_up, sets_up, sets_up, decide-Staged, cleans_up, by_rows-done, by_rows-setup, finish-finishes,
  finishes,
}

pub acting : (a b : Action) → a ≡ b → acts b ≡ true → acts a ≡ true
acting a b e h = rw e h

pub clash : (f : Action → Bool) (a b : Action) → a ≡ b → f a ≡ true → f b ≡ false → ⊥
clash f a b e p q = cc

abbrev pub is_complete : Action → Bool
is_complete Action.complete = true
is_complete _ = false

abbrev pub is_order : Action → Bool
is_order Action.order = true
is_order _ = false

abbrev pub is_dns_add : Action → Bool
is_dns_add Action.dns_add = true
is_dns_add _ = false

pub never : false ≡ true → ⊥
never e = cc

-- The actions within an order, and those before it.
abbrev pub within : Action → Bool
within Action.order_read = true
within Action.dns_plan = true
within a = sets_up a || finishes a

abbrev pub ahead : Action → Bool
ahead Action.timing = true
ahead Action.order = true
ahead Action.close = true
ahead _ = false

finishes-within : (a : Action) → finishes a ≡ true → within a ≡ true
finishes-within a h = ground arith

in_order-within :
    (s : Snapshot) (now : Instant)
    → acts (in_order s now).action ≡ true
    → within (in_order s now).action ≡ true
in_order-within s now h = elim (in_order-cases s now h).1 [
  | inl p ↦ rw p refl
  | inr (inl p) ↦ rw p refl
  | inr (inr p) ↦ elim (by_rows-setup s now (acting _ _ (ap Decision.action (sym p)) h)) [
    | inl (a, add) ↦ rw (ap Decision.action p ∙ a) refl
    | inr (inl a) ↦ rw (ap Decision.action p ∙ a) refl
    | inr (inr (q, rows)) ↦ rw (p ∙ q) (finishes-within _ (finish-finishes s s.order_state))
  ]
]

before_order-ahead :
    (s : Snapshot) (now : Instant)
    → acts (before_order s now).action ≡ true
    → ahead (before_order s now).action ≡ true
before_order-ahead s now h = elim (before_order-cases s now h).1 [
  | inl p ↦ rw p refl
  | inr (ripe, inl (b, p)) ↦ rw p refl
  | inr (ripe, inr (b, p)) ↦ rw p refl
]

by_rows-cleans :
    (s : Snapshot) (now : Instant)
    → acts (by_rows s true now).action ≡ true
    → cleans_up (by_rows s true now).action ≡ true
by_rows-cleans s now h = elim (by_rows-done s now h) [
  | inl a ↦ rw a refl
  | inr (inl a) ↦ rw a refl
  | inr (inr (a, rows)) ↦ rw a refl
]

-- The stage of an action, with the action.
module _ (canonical : List Bytes → Bool) (s : Snapshot) (events bytes : ℕ) (now : Instant)
    (a : Action) where
  pub staged :
      (decide canonical s events bytes now).action ≡ a
      → acts a ≡ true
      → Admitted canonical s events bytes now
        × (((saved s ≡ true)
              × (by_rows s true now ≡ decide canonical s events bytes now)
              × ((by_rows s true now).action ≡ a)
              × (cleans_up a ≡ true))
            ⊎ ((saved s ≡ false)
                × Roomy s events bytes
                × (bound s ≡ true)
                × (in_order s now ≡ decide canonical s events bytes now)
                × ((in_order s now).action ≡ a)
                × (within a ≡ true))
            ⊎ ((saved s ≡ false)
                × Roomy s events bytes
                × (bound s ≡ false)
                × (before_order s now ≡ decide canonical s events bytes now)
                × ((before_order s now).action ≡ a)
                × (ahead a ≡ true)))
  staged e h =
      let (admitted, stage) = decide-Staged canonical s events bytes now (acting _ _ e h) in
      (
        admitted,
        elim stage [
          | inl (f, p) ↦
              let q = ap Decision.action (sym p) ∙ e in
              inl (
                f,
                sym p,
                q,
                subst (λ x. cleans_up x ≡ true) q (by_rows-cleans s now (acting _ _ q h)),
              )
          | inr (f, roomy, inl (b, p)) ↦
              let q = ap Decision.action (sym p) ∙ e in
              inr (
                inl (
                  f,
                  roomy,
                  b,
                  sym p,
                  q,
                  subst (λ x. within x ≡ true) q (in_order-within s now (acting _ _ q h)),
                ))
          | inr (f, roomy, inr (b, p)) ↦
              let q = ap Decision.action (sym p) ∙ e in
              inr (
                inr (
                  f,
                  roomy,
                  b,
                  sym p,
                  q,
                  subst (λ x. ahead x ≡ true) q (before_order-ahead s now (acting _ _ q h)),
                ))
        ],
      )
