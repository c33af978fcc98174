-- ===== src/Cycle/Rows/Named.antt =====
-- The loop of `DecideRenewalCycle` over the rows: the row that a selected decision names.
use rootwell.Prelude.{
  ℕ, zero, suc, ◌+◌, ◌≡◌, refl, sym, ap, subst, ◌∙◌, ◌⊎◌, inl, inr, Bool, Option, none, some, List,
  [], ◌∷◌, arith, get_elem?,
}
use rootwell.Clock.{Instant}
use rootwell.Image.{OrderState}
use rootwell.Cycle.{Moment, unset, due, garbled, Action, Decision, RowStatus}
use rootwell.Cycle.Rows.{
  choose, wait, RowStep, skip, halt, act, row_step, stopped, scanned, select_first, held_step,
  scan_step, scan,
}
use rootwell.Cycle.Rows.Held.{
  Free, Round, scanned_parts, scan-cons, scan-grows, Scan-cases, row_absurd,
}

-- A row of the list that the decision `d` names, with nothing that holds it back.
pub record Picked (saved : Bool) (order : OrderState) (now : Instant) (i : ℕ)
    (rows : List RowStatus) (d : Decision) : Type 0 where
  pub place : ℕ
  pub row : RowStatus
  pub found : get_elem? rows place ≡ some row
  pub free : Free now row (row_step saved order row) d.action
  pub named : d.index ≡ some (i + place)

some_first :
    (s : Option Decision) (a d : Decision) → some d ≡ select_first s a → (s ≡ some d) ⊎ (d ≡ a)
some_first none a d e = inr cc
some_first (some b) a d e = inl cc

Picked-later :
    (saved : Bool) (order : OrderState) (now : Instant) (i : ℕ) (x : RowStatus)
    (rest : List RowStatus) (d : Decision)
    → Picked saved order now (i + 1) rest d
    → Picked saved order now i (x ∷ rest) d
Picked-later saved order now i x rest d p = record {
  place = suc p.place;
  row = p.row;
  found = p.found;
  free = p.free;
  named = p.named ∙ ap some (omega arith);
}

Picked-Round :
    (saved : Bool) (order : OrderState) (now : Instant) (i : ℕ) (x : RowStatus)
    (rest : List RowStatus) (s t : Option Decision) (h k : Instant) (d : Decision)
    → Round now i x (row_step saved order x) s h t k
    → t ≡ some d
    → (s ≡ some d) ⊎ Picked saved order now i (x ∷ rest) d
Picked-Round saved order now i x rest s t h k d (inl (p, q)) e = inl (sym p ∙ e)
Picked-Round saved order now i x rest s t h k d (inr (q, (action, free, p))) e =
    elim (some_first s (record (choose action) { index = some i }) d (sym e ∙ p)) [
      | inl old ↦ inl old
      | inr new ↦ inr (record {
        place = 0;
        row = x;
        found = refl;
        free = subst (Free now x (row_step saved order x)) (sym (ap Decision.action new)) free;
        named = ap Decision.index new ∙ ap some (omega arith);
      })
    ]

-- A selected decision is the one that was selected before, or names a free row of the list.
pub scan-Picked :
    (saved : Bool) (order : OrderState) (now : Instant) (i : ℕ) (rows : List RowStatus)
    (s : Option Decision) (d : Decision) (h k : Instant)
    → scan saved order now i rows s h ≡ scanned (some d) k
    → (s ≡ some d) ⊎ Picked saved order now i rows d
unfolding scan
scan-Picked saved order now i [] s d h k e = inl (scanned_parts e).0
scan-Picked saved order now i (x ∷ rest) s d h k e =
    let (s', h', round, next) = scan-cons saved order now i x rest s (some d) h k e in
    elim (scan-Picked saved order now (i + 1) rest s' d h' k next) [
      | inr p ↦ inr (Picked-later saved order now i x rest d p)
      | inl p ↦ Picked-Round saved order now i x rest s s' h h' d round p
    ]

none_first : (s : Option Decision) (a : Decision) → none ≡ select_first s a → ⊥
none_first none a e = cc
none_first (some b) a e = cc

Round-skip :
    (now : Instant) (i : ℕ) (r : RowStatus) (step : RowStep) (s t : Option Decision) (h k : Instant)
    → Round now i r step s h t k
    → t ≡ none
    → k ≡ 0
    → (s ≡ none) × (step ≡ skip)
Round-skip now i r step s t h k (inl (p, inl (q, e))) n z = (sym p ∙ n, e)
Round-skip now i r step s t h k (inl (p, inr (late, up))) n z = absurd (omega (arith, late, z))
Round-skip now i r step s t h k (inr (q, (action, free, p))) n z =
    absurd (none_first s (record (choose action) { index = some i }) (sym n ∙ p))

scan-start :
    (saved : Bool) (order : OrderState) (now : Instant) (i : ℕ) (rows : List RowStatus)
    (s : Option Decision) (h k : Instant)
    → scan saved order now i rows s h ≡ scanned none k
    → k ≡ 0
    → s ≡ none
unfolding scan
scan-start saved order now i [] s h k e z = (scanned_parts e).0
scan-start saved order now i (x ∷ rest) s h k e z =
    let (s', h', round, next) = scan-cons saved order now i x rest s none h k e in
    let up = scan-grows saved order now (i + 1) rest s' none h' k next in
    (Round-skip now i x (row_step saved order x) s s' h h' round
      (scan-start saved order now (i + 1) rest s' h' k next z) (omega (arith, up, z))).0

-- A scan that ends with no hold and no selected decision has found nothing to do at any row.
pub scan-skip :
    (saved : Bool) (order : OrderState) (now : Instant) (i : ℕ) (rows : List RowStatus)
    (s : Option Decision) (h k : Instant)
    → scan saved order now i rows s h ≡ scanned none k
    → k ≡ 0
    → (j : ℕ) (r : RowStatus) → get_elem? rows j ≡ some r
    → row_step saved order r ≡ skip
scan-skip saved order now i [] s h k e z j r g = absurd (row_absurd g)
scan-skip saved order now i (x ∷ rest) s h k e z zero r g =
    let (s', h', round, next) = scan-cons saved order now i x rest s none h k e in
    let up = scan-grows saved order now (i + 1) rest s' none h' k next in
    subst (λ y. row_step saved order y ≡ skip) (cc)
      (Round-skip now i x (row_step saved order x) s s' h h' round
        (scan-start saved order now (i + 1) rest s' h' k next z) (omega (arith, up, z))).1
scan-skip saved order now i (x ∷ rest) s h k e z (suc j) r g =
    let (s', h', round, next) = scan-cons saved order now i x rest s none h k e in
    scan-skip saved order now (i + 1) rest s' h' k next z j r g

held_step-stopped :
    (now : Instant) (i : ℕ) (action : Action) (stamp : Moment) (s : Option Decision) (h : Instant)
    (d : Decision)
    → held_step i action s h (wait stamp now) ≡ stopped d
    → d.action ≡ Action.pause
unfolding held_step
held_step-stopped now i action unset s h d e = cc
held_step-stopped now i action garbled s h d e = cc
held_step-stopped now i action (due t) s h d e = ground arith

scan_step-stopped :
    (now : Instant) (i : ℕ) (r : RowStatus) (s : Option Decision) (h : Instant) (step : RowStep)
    (d : Decision)
    → scan_step now i r s h step ≡ stopped d
    → d.action ≡ Action.pause
unfolding scan_step
scan_step-stopped now i r s h skip d e = cc
scan_step-stopped now i r s h (halt reason) d e = cc
scan_step-stopped now i r s h (act action stamp count refused) d e =
    ground (arith, held_step-stopped now i action stamp s h d)

-- What the loop returns by itself is a pause.
pub scan-stopped :
    (saved : Bool) (order : OrderState) (now : Instant) (i : ℕ) (rows : List RowStatus)
    (s : Option Decision) (h : Instant) (d : Decision)
    → scan saved order now i rows s h ≡ stopped d
    → d.action ≡ Action.pause
unfolding scan
scan-stopped saved order now i [] s h d e = cc
scan-stopped saved order now i (x ∷ rest) s h d e =
    elim (Scan-cases (scan_step now i x s h (row_step saved order x))) [
      | inl (c, p) ↦
          scan_step-stopped now i x s h (row_step saved order x) d (p ∙ rw (p, scan) at e)
      | inr (s', h', p) ↦ scan-stopped saved order now (i + 1) rest s' h' d (rw (p, scan) at e)
    ]
