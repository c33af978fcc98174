-- ===== src/Cycle/Rows/Held.antt =====
-- The loop of `DecideRenewalCycle` over the rows: what its ends say of every row.
use rootwell.Prelude.{
  ltb→lt, ℕ, zero, suc, ◌+◌, ◌≤◌, ◌<◌, ◌≡◌, refl, sym, subst, ◌∙◌, ◌⊎◌, inl, inr, Bool, false, ◌||◌,
  Option, none, some, List, [], ◌∷◌, arith, ltb, leb, Bool-cases, get_elem?, if-true, if-false,
}
use rootwell.Clock.{Instant}
use rootwell.Image.{OrderState}
use rootwell.Cycle.{Moment, unset, due, garbled, Action, Decision, RowStatus}
use rootwell.Cycle.Rows.{
  choose, wait, instant_of, RowStep, skip, halt, act, row_step, Scan, stopped, scanned,
  select_first, held_step, scan_step, scan,
}

-- A row that asks for an action which nothing holds back.
pub record Free (now : Instant) (r : RowStatus) (step : RowStep) (action : Action) : Type 0 where
  pub stamp : Moment
  pub count : ℕ
  pub asks : step ≡ act action stamp count false
  pub few : count < 6
  pub undisputed : (r.recovery ≡ false) × (r.maintenance ≡ false)
  pub unheld : wait stamp now ≡ none

abbrev pub Clear : Instant → RowStatus → RowStep → Type 0
Clear now r step = (step ≡ skip) ⊎ ((action : Action) × Free now r step action)

pub Scan-cases :
    (x : Scan)
    → ((d : Decision) × (x ≡ stopped d))
      ⊎ ((s : Option Decision) × (h : Instant) × (x ≡ scanned s h))
Scan-cases (stopped d) = inl (d, refl)
Scan-cases (scanned s h) = inr (s, h, refl)

pub scanned_parts :
    {s t : Option Decision} {h k : Instant} → scanned s h ≡ scanned t k → (s ≡ t) × (h ≡ k)
scanned_parts e = (cc, cc)

wait-cases :
    (stamp : Moment) (now : Instant)
    → (wait stamp now ≡ none)
      ⊎ ((d : Decision) × (wait stamp now ≡ some d) × (d.action ≡ Action.pause))
      ⊎ ((d : Decision) × (wait stamp now ≡ some d)
          × (d.action ≡ Action.wait)
          × (now < instant_of d.next))
wait-cases unset now = inl refl
wait-cases garbled now = inr (inl (_, refl, refl))
wait-cases (due t) now = elim (Bool-cases (ltb now t)) [
  | inl e ↦ inr (inr (_, if-true (ltb now t) _ _ e, refl, ltb→lt now t e))
  | inr e ↦ inl (if-false (ltb now t) _ _ e)
]

-- One round that went on: the row is clear, or the hold has grown past the present.
abbrev pub Round :
    Instant
    → ℕ
    → RowStatus
    → RowStep
    → Option Decision
    → Instant
    → Option Decision
    → Instant
    → Type 0
Round now i r step s h t k =
    ((t ≡ s) × ((k ≡ h) × (step ≡ skip) ⊎ (now < k) × (h ≤ k)))
    ⊎ ((k ≡ h)
        × ((action : Action) × Free now r step action
            × (t ≡ select_first s (record (choose action) { index = some i }))))

stopped_scanned : {d : Decision} {t : Option Decision} {k : Instant} → stopped d ≡ scanned t k → ⊥
stopped_scanned e = cc

held_step-Round :
    (now : Instant) (i : ℕ) (action : Action) (stamp : Moment) (s t : Option Decision)
    (h k : Instant)
    → held_step i action s h (wait stamp now) ≡ scanned t k
    → ((t ≡ s) × (now < k) × (h ≤ k))
      ⊎ ((k ≡ h)
          × (wait stamp now ≡ none)
          × (t ≡ select_first s (record (choose action) { index = some i })))
unfolding held_step
held_step-Round now i action stamp s t h k e = elim (wait-cases stamp now) [
  | inl w ↦ let (p, q) = scanned_parts (rw w at e) in inr (sym q, w, sym p)
  | inr (inl (d, w, a)) ↦ absurd (stopped_scanned (rw a at (rw w at e)))
  | inr (inr (d, w, a, late)) ↦
      let (p, q) = scanned_parts (rw a at (rw w at e)) in
      inl (sym p, omega (arith, q, late), omega (arith, q))
]

scan_step-Round :
    (now : Instant) (i : ℕ) (r : RowStatus) (s t : Option Decision) (h k : Instant) (step : RowStep)
    → scan_step now i r s h step ≡ scanned t k
    → Round now i r step s h t k
unfolding scan_step
scan_step-Round now i r s t h k skip e =
    let (p, q) = scanned_parts e in inl (sym p, inl (sym q, refl))
scan_step-Round now i r s t h k (halt reason) e = absurd (stopped_scanned e)
scan_step-Round now i r s t h k (act action stamp count refused) e =
    elim (Bool-cases (refused || leb 6 count || r.recovery || r.maintenance)) [
      | inl bad ↦ absurd (
          stopped_scanned
            (sym (if-true (refused || leb 6 count || r.recovery || r.maintenance) _ _ bad) ∙ e))
      | inr good ↦
          elim (held_step-Round now i action stamp s t h k
            (sym (if-false (refused || leb 6 count || r.recovery || r.maintenance) _ _ good) ∙ e)) [
              | inl (p, late, up) ↦ inl (p, inr (late, up))
              | inr (q, w, p) ↦ inr (
                q,
                (
                  action,
                  record {
                    stamp = stamp;
                    count = count;
                    asks = ground arith;
                    few = ground arith;
                    undisputed = (ground arith, ground arith);
                    unheld = w;
                  },
                  p,
                ),
              )
            ]
    ]

pub scan-cons :
    (saved : Bool) (order : OrderState) (now : Instant) (i : ℕ) (x : RowStatus)
    (rest : List RowStatus) (s t : Option Decision) (h k : Instant)
    → scan saved order now i (x ∷ rest) s h ≡ scanned t k
    → (s' : Option Decision) × (h' : Instant) × Round now i x (row_step saved order x) s h s' h'
      × (scan saved order now (i + 1) rest s' h' ≡ scanned t k)
unfolding scan
scan-cons saved order now i x rest s t h k e =
    elim (Scan-cases (scan_step now i x s h (row_step saved order x))) [
      | inl (d, p) ↦ absurd (stopped_scanned (rw (p, scan) at e))
      | inr (s', h', p) ↦
          (s', h', scan_step-Round now i x s s' h h' (row_step saved order x) p, rw (p, scan) at e)
    ]

pub row_absurd : {r : RowStatus} → none ≡ some r → ⊥
row_absurd e = cc

Round-grows :
    (now : Instant) (i : ℕ) (r : RowStatus) (step : RowStep) (s t : Option Decision) (h k : Instant)
    → Round now i r step s h t k
    → h ≤ k
Round-grows now i r step s t h k (inl (p, inl (q, e))) = omega (arith, q)
Round-grows now i r step s t h k (inl (p, inr (late, up))) = up
Round-grows now i r step s t h k (inr (q, f)) = omega (arith, q)

Round-Clear :
    (now : Instant) (i : ℕ) (r : RowStatus) (step : RowStep) (s t : Option Decision) (h k : Instant)
    → Round now i r step s h t k
    → k ≡ 0
    → Clear now r step
Round-Clear now i r step s t h k (inl (p, inl (q, e))) z = inl e
Round-Clear now i r step s t h k (inl (p, inr (late, up))) z = absurd (omega (arith, late, z))
Round-Clear now i r step s t h k (inr (q, (action, free, p))) z = inr (action, free)

-- The hold only grows.
pub scan-grows :
    (saved : Bool) (order : OrderState) (now : Instant) (i : ℕ) (rows : List RowStatus)
    (s t : Option Decision) (h k : Instant)
    → scan saved order now i rows s h ≡ scanned t k
    → h ≤ k
unfolding scan
scan-grows saved order now i [] s t h k e = omega (arith, (scanned_parts e).1)
scan-grows saved order now i (x ∷ rest) s t h k e =
    let (s', h', round, next) = scan-cons saved order now i x rest s t h k e in
    omega (
      arith,
      Round-grows now i x (row_step saved order x) s s' h h' round,
      scan-grows saved order now (i + 1) rest s' t h' k next,
    )

-- A scan that ends with no hold has found every row clear.
pub scan-Clear :
    (saved : Bool) (order : OrderState) (now : Instant) (i : ℕ) (rows : List RowStatus)
    (s t : Option Decision) (h k : Instant)
    → scan saved order now i rows s h ≡ scanned t k
    → k ≡ 0
    → (j : ℕ) (r : RowStatus) → get_elem? rows j ≡ some r
    → Clear now r (row_step saved order r)
scan-Clear saved order now i [] s t h k e z j r g = absurd (row_absurd g)
scan-Clear saved order now i (x ∷ rest) s t h k e z zero r g =
    let (s', h', round, next) = scan-cons saved order now i x rest s t h k e in
    let up = scan-grows saved order now (i + 1) rest s' t h' k next in
    subst (λ y. Clear now y (row_step saved order y)) (cc)
      (Round-Clear now i x (row_step saved order x) s s' h h' round (omega (arith, up, z)))
scan-Clear saved order now i (x ∷ rest) s t h k e z (suc j) r g =
    let (s', h', round, next) = scan-cons saved order now i x rest s t h k e in
    scan-Clear saved order now (i + 1) rest s' t h' k next z j r g
