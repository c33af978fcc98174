-- ===== src/Gate/Attempts.antt =====
-- `allowAttempt` of cmd/rootwelld/gate.go: every run of password attempts.
use rootwell.Prelude.{
  leb-false, ◌≤◌, ◌<◌, ◌≡◌, refl, sym, ap, ◌∙◌, inl, inr, Bool, true, false, List, [], ◌∷◌, ◌++◌,
  arith, leb, Bool-cases, length, length-append, if-true, if-false,
}
use rootwell.Clock.{Instant}
use rootwell.Gate.{Gate, recent, allow_attempt}

-- The gates that calls of `allow_attempt` lead to, with the instants of the attempts that were
-- allowed, latest first, and the instant of the last call. The clock does not go back; what else
-- the gate does leaves the record of attempts alone.
pub data Tries : Gate → List Instant → Instant → Type 0 where
  start : {g : Gate} → g.attempts ≡ [] → Tries g [] 0
  allowed :
      {g g' : Gate} {past : List Instant} {last : Instant} (now : Instant)
      → Tries g past last
      → last ≤ now
      → allow_attempt g now ≡ (true, g')
      → Tries g' (now ∷ past) now
  refused :
      {g g' : Gate} {past : List Instant} {last : Instant} (now : Instant)
      → Tries g past last
      → last ≤ now
      → allow_attempt g now ≡ (false, g')
      → Tries g' past now
  elsewhere :
      {g g' : Gate} {past : List Instant} {last : Instant}
      → Tries g past last
      → g'.attempts ≡ g.attempts
      → Tries g' past last

length-recent : (now : Instant) (xs : List Instant) → length (recent now xs) ≤ length xs
unfolding recent
length-recent now [] = omega arith
length-recent now (x ∷ xs) = ground (arith, length-recent now xs)

-- What was no longer recent stays so.
recent-recent :
    (now last : Instant) (xs : List Instant)
    → last ≤ now
    → length (recent now (recent last xs)) ≡ length (recent now xs)
unfolding recent
recent-recent now last [] h = refl
recent-recent now last (x ∷ xs) h = ground (arith, recent-recent now last xs)

recent-append :
    (now x : Instant) (xs : List Instant)
    → length (recent now (xs ++ x ∷ [])) ≡ length (recent now (x ∷ xs))
unfolding recent
recent-append now x [] = refl
recent-append now x (y ∷ ys) = ground (arith, recent-append now x ys)

-- The gate's record counts the allowed attempts of any later minute, and holds five at most.
record Recorded (g : Gate) (past : List Instant) (last : Instant) : Type 0 where
  few : length g.attempts ≤ 5
  counted : (now : Instant) → last ≤ now → length (recent now g.attempts) ≡ length (recent now past)

recent-cons :
    (now x : Instant) (xs ys : List Instant)
    → length (recent now xs) ≡ length (recent now ys)
    → length (recent now (x ∷ xs)) ≡ length (recent now (x ∷ ys))
unfolding recent
recent-cons now x xs ys h = ground arith

allow_attempt-allowed :
    (g g' : Gate) (now : Instant)
    → allow_attempt g now ≡ (true, g')
    → (length (recent now g.attempts) < 5) × (g'.attempts ≡ recent now g.attempts ++ now ∷ [])
unfolding allow_attempt
allow_attempt-allowed g g' now h = elim (Bool-cases (leb 5 (length (recent now g.attempts)))) [
  | inl e ↦ absurd (
      mixed (
        ap (λ (x : Bool × Gate). x.0)
          (sym (if-true (leb 5 (length (recent now g.attempts))) _ _ e) ∙ h)))
  | inr e ↦ (
    leb-false 5 (length (recent now g.attempts)) e,
    ap Gate.attempts (
        ap (λ (x : Bool × Gate). x.1)
          (sym h ∙ if-false (leb 5 (length (recent now g.attempts))) _ _ e)),
  )
]
  where
    mixed : false ≡ true → ⊥
    mixed e = cc

allow_attempt-refused :
    (g g' : Gate) (now : Instant)
    → allow_attempt g now ≡ (false, g')
    → g'.attempts ≡ recent now g.attempts
unfolding allow_attempt
allow_attempt-refused g g' now h = elim (Bool-cases (leb 5 (length (recent now g.attempts)))) [
  | inl e ↦ ap Gate.attempts (
      ap (λ (x : Bool × Gate). x.1)
        (sym h ∙ if-true (leb 5 (length (recent now g.attempts))) _ _ e))
  | inr e ↦ absurd (
      mixed (
        ap (λ (x : Bool × Gate). x.0)
          (sym (if-false (leb 5 (length (recent now g.attempts))) _ _ e) ∙ h)))
]
  where
    mixed : true ≡ false → ⊥
    mixed e = cc

Tries-Recorded :
    {g : Gate} (past : List Instant) (last : Instant) → Tries g past last → Recorded g past last
Tries-Recorded past last (start e) = record {
  few = rw e (omega arith);
  counted = λ now h. ap (λ (l : List Instant). length (recent now l)) e;
}
Tries-Recorded past last (allowed {g} {g'} {past = before} {last = old} now tries later e) =
    let r = Tries-Recorded before old tries in
    let (room, a) = allow_attempt-allowed g g' now e in
    record {
      few = omega (arith, room, ap length a, length-append (recent now g.attempts) (now ∷ []));
      counted = λ when h.
          ap (λ (l : List Instant). length (recent when l)) a
          ∙ recent-append when now (recent now g.attempts)
          ∙ recent-cons when now (recent now g.attempts) before
              (recent-recent when now g.attempts h ∙ r.counted when (omega (arith, later, h)));
    }
Tries-Recorded past last (refused {g} {g'} {last = old} now tries later e) =
    let r = Tries-Recorded past old tries in
    let a = allow_attempt-refused g g' now e in
    record {
      few = omega (arith, r.few, ap length a, length-recent now g.attempts);
      counted = λ when h.
          ap (λ (l : List Instant). length (recent when l)) a
          ∙ recent-recent when now g.attempts h
          ∙ r.counted when (omega (arith, later, h));
    }
Tries-Recorded past last (elsewhere {g} {g'} tries e) =
    let r = Tries-Recorded past last tries in
    record {
      few = omega (arith, r.few, ap length e);
      counted = λ now h. ap (λ (l : List Instant). length (recent now l)) e ∙ r.counted now h;
    }

-- In every run, at any instant from the last call on, at most five of the attempts that were ever
-- allowed lie less than a minute back.
pub Tries_bounds :
    {g : Gate} (past : List Instant) (last now : Instant)
    → Tries g past last
    → last ≤ now
    → length (recent now past) ≤ 5
Tries_bounds {g} past last now tries h =
    let r = Tries-Recorded past last tries in
    omega (arith, r.few, length-recent now g.attempts, r.counted now h)
