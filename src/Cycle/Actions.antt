-- ===== src/Cycle/Actions.antt =====
-- The conditions of the actions of `DecideRenewalCycle`.
use rootwell.Prelude.{
  all-each, ℕ, ◌≡◌, refl, sym, ap, subst, ◌∙◌, ◌⊎◌, inl, inr, Bool, true, false, ◌||◌, List, arith,
  Bool-cases, all,
}
use rootwell.Prelude.Bytes.{Bytes}
use rootwell.Clock.{Instant}
use rootwell.Dns.{is_created, is_borrowed, created, borrowed}
use rootwell.Image.{OrderState}
use rootwell.Cycle.{Action, Decision, IssuanceState, RowStatus, Snapshot}
use rootwell.Cycle.Decide.{issue, issue, saved, bound, decide, finish, settled_row, not_begun}
use rootwell.Cycle.Guards.{acts, Admitted, Roomy}
use rootwell.Cycle.Stages.{Current, in_order-cases}
use rootwell.Cycle.Before.{Idle, Ripe, before_order-cases}
use rootwell.Cycle.Choices.{
  decide-Staged, cleans_up, by_rows-done, by_rows-setup, Addable, finish-finishes, finishes,
}
use rootwell.Cycle.Staged.{staged, acting, clash, is_complete, is_order, is_dns_add, never}

-- Once the certificate is saved, a decision is to pause, to wait, to check or to clean up a DNS
-- record or to complete: the certificate authority is not called again.
pub decide-saved :
    (canonical : List Bytes → Bool) (s : Snapshot) (events bytes : ℕ) (now : Instant)
    → saved s ≡ true
    → cleans_up (decide canonical s events bytes now).action ≡ true
decide-saved canonical s events bytes now e =
    let d = decide canonical s events bytes now in
    elim (Bool-cases (acts d.action)) [
      | inr f ↦ idle d.action f
      | inl h ↦ elim (decide-Staged canonical s events bytes now h).1 [
        | inr (f, roomy, rest) ↦ absurd (both e f)
        | inl (f, p) ↦
            let g = subst (λ (x : Decision). acts x.action ≡ true) p h in
            let k = ap Decision.action p in
            elim (by_rows-done s now g) [
              | inl a ↦ rw (k ∙ a) refl
              | inr (inl a) ↦ rw (k ∙ a) refl
              | inr (inr (a, rows)) ↦ rw (k ∙ a) refl
            ]
      ]
    ]
  where
    idle : (action : Action) → acts action ≡ false → cleans_up action ≡ true
    idle action f = ground arith

    both : {b : Bool} → b ≡ true → b ≡ false → ⊥
    both p q = cc

-- A decision to complete is made for a saved certificate only, once each DNS record of its plan was
-- borrowed or is deleted.
pub decide_complete :
    (canonical : List Bytes → Bool) (s : Snapshot) (events bytes : ℕ) (now : Instant)
    → (decide canonical s events bytes now).action ≡ Action.complete
    → (saved s ≡ true) × (all settled_row s.rows ≡ true)
decide_complete canonical s events bytes now e =
    elim (staged canonical s events bytes now Action.complete e refl).1 [
      | inl (f, p, q, k) ↦ elim (by_rows-done s now (acting _ _ q refl)) [
        | inl a ↦ absurd (clash is_complete _ _ (sym q ∙ a) refl refl)
        | inr (inl a) ↦ absurd (clash is_complete _ _ (sym q ∙ a) refl refl)
        | inr (inr (a, rows)) ↦ (f, all-each settled_row s.rows rows)
      ]
      | inr (inl (f, roomy, b, p, q, k)) ↦ absurd (never k)
      | inr (inr (f, roomy, b, p, q, k)) ↦ absurd (never k)
    ]

-- A decision to order is made only where every guard that comes before the switches holds: the
-- clock's year, a generation, the budget's bounds, a fingerprint that the timing has too, canonical
-- names, an account, no other work, a DNS configuration with a zone, and all names in the zone. No
-- order is begun, no DNS record is left, slots for closing are free, the timing is prepared in
-- one of its two confirmed states and its instant has come, the provider's wait is over, and there is
-- room for the events and bytes of the budget and for the new certificate.
pub decide_order :
    (canonical : List Bytes → Bool) (s : Snapshot) (events bytes : ℕ) (now : Instant)
    → (decide canonical s events bytes now).action ≡ Action.order
    → Admitted canonical s events bytes now
      × Roomy s events bytes
      × (not_begun s.order_state ≡ true)
      × Idle s now
      × Ripe s now
decide_order canonical s events bytes now e =
    let (admitted, stage) = staged canonical s events bytes now Action.order e refl in
    elim stage [
      | inl (f, p, q, k) ↦ absurd (never k)
      | inr (inl (f, roomy, b, p, q, k)) ↦ absurd (never k)
      | inr (inr (f, roomy, b, p, q, k)) ↦
          let (idle, ends) = before_order-cases s now (acting _ _ q refl) in
          elim ends [
            | inl c ↦ absurd (clash is_order _ _ (sym q ∙ ap Decision.action c) refl refl)
            | inr (ripe, inl (n, c)) ↦ (admitted, roomy, n, idle, ripe)
            | inr (ripe, inr (n, c)) ↦
                absurd (clash is_order _ _ (sym q ∙ ap Decision.action c) refl refl)
          ]
    ]

-- A decision to add a DNS record names a row of the plan that is new, with less than six attempts,
-- not blocked, with no recovery and no maintenance, and no longer held; the certificate is not
-- saved and the order waits for its DNS records.
pub decide_dns_add :
    (canonical : List Bytes → Bool) (s : Snapshot) (events bytes : ℕ) (now : Instant)
    → (decide canonical s events bytes now).action ≡ Action.dns_add
    → (saved s ≡ false)
      × Roomy s events bytes
      × Current s now
      × Addable s now (decide canonical s events bytes now)
decide_dns_add canonical s events bytes now e =
    elim (staged canonical s events bytes now Action.dns_add e refl).1 [
      | inl (f, p, q, k) ↦ absurd (never k)
      | inr (inr (f, roomy, b, p, q, k)) ↦ absurd (never k)
      | inr (inl (f, roomy, b, p, q, k)) ↦
          let (current, ends) = in_order-cases s now (acting _ _ q refl) in
          elim ends [
            | inl c ↦ absurd (clash is_dns_add _ _ (sym q ∙ ap Decision.action c) refl refl)
            | inr (inl c) ↦ absurd (clash is_dns_add _ _ (sym q ∙ ap Decision.action c) refl refl)
            | inr (inr c) ↦
                let r = ap Decision.action (sym c) ∙ q in
                elim (by_rows-setup s now (acting _ _ r refl)) [
                  | inl (a, add) ↦ (f, roomy, current, subst (Addable s now) (sym c ∙ p) add)
                  | inr (inl a) ↦ absurd (clash is_dns_add _ _ (sym r ∙ a) refl refl)
                  | inr (inr (d, rows)) ↦ absurd (
                      clash finishes _ _ (sym (ap Decision.action d) ∙ r)
                        (finish-finishes s s.order_state) refl)
                ]
          ]
    ]

abbrev pub placed_row : RowStatus → Bool
placed_row r = is_created r.state || is_borrowed r.state

placed : (r : RowStatus) → (r.state ≡ created) ⊎ (r.state ≡ borrowed) → placed_row r ≡ true
placed r (inl e) = rw e refl
placed r (inr e) = rw e refl

issue-certificate :
    (state : IssuanceState)
    → (issue state).action ≡ Action.certificate
    → state ≡ IssuanceState.not_started
issue-certificate state e = ground arith

finish-certificate :
    (s : Snapshot) (order : OrderState)
    → (finish s order).action ≡ Action.certificate
    → (order ≡ OrderState.domain_verified)
      × (s.key_prepared ≡ true)
      × (s.issuance ≡ IssuanceState.not_started)
unfolding finish
finish-certificate s order e = ground (arith, issue-certificate s.issuance)

-- A decision to ask for a certificate is made only within the order of the source, with the domains
-- verified and the key prepared, where no issuance has begun, both deadlines are ahead, the
-- provider's wait is over, and each DNS record of the plan is created or borrowed.
pub decide_certificate :
    (canonical : List Bytes → Bool) (s : Snapshot) (events bytes : ℕ) (now : Instant)
    → (decide canonical s events bytes now).action ≡ Action.certificate
    → Roomy s events bytes
      × (bound s ≡ true)
      × Current s now
      × (s.order_state ≡ OrderState.domain_verified)
      × (s.key_prepared ≡ true)
      × (s.issuance ≡ IssuanceState.not_started)
      × (all placed_row s.rows ≡ true)
decide_certificate canonical s events bytes now e =
    elim (staged canonical s events bytes now Action.certificate e refl).1 [
      | inl (f, p, q, k) ↦ absurd (never k)
      | inr (inr (f, roomy, b, p, q, k)) ↦ absurd (never k)
      | inr (inl (f, roomy, b, p, q, k)) ↦
          let (current, ends) = in_order-cases s now (acting _ _ q refl) in
          elim ends [
            | inl c ↦ absurd (clash finishes _ _ (sym q ∙ ap Decision.action c) refl refl)
            | inr (inl c) ↦ absurd (clash finishes _ _ (sym q ∙ ap Decision.action c) refl refl)
            | inr (inr c) ↦
                let r = ap Decision.action (sym c) ∙ q in
                elim (by_rows-setup s now (acting _ _ r refl)) [
                  | inl (a, add) ↦ absurd (clash finishes _ _ (sym r ∙ a) refl refl)
                  | inr (inl a) ↦ absurd (clash finishes _ _ (sym r ∙ a) refl refl)
                  | inr (inr (d, rows)) ↦
                      let (v, key, fresh) =
                        finish-certificate s s.order_state (sym (ap Decision.action d) ∙ r) in
                      (
                        roomy,
                        b,
                        current,
                        v,
                        key,
                        fresh,
                        all-each placed_row s.rows (λ j r g. placed r (rows j r g)),
                      )
                ]
          ]
    ]
