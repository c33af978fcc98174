-- ===== src/Gate/Evicts.antt =====
-- cmd/rootwelld/gate.go: the loop of issueSession that makes room for a session, as it is written,
-- without a count of its rounds.
use rootwell.Clock.{Instant}
use rootwell.Prelude.Bytes.{Bytes}
use rootwell.Prelude.{
  ℕ, zero, suc, ◌≤◌, ◌≡◌, refl, sym, ◌∙◌, inl, inr, leb→le, arith, leb, Bool, true, false,
  Bool-cases, length, if-true, if-false, if◌then◌else◌, ◌∷◌, subst, ◌<◌,
}
use rootwell.Gate.{
  Gate, forget_session, oldest, max_sessions, make_room, new_session, issue_session, remove, ap,
}
use rootwell.Gate.Issued.{forget_oldest, make_room_rounds}

-- A run of the loop from a gate to the gate that it leaves.
pub data Evicts : Gate → Gate → Type 0 where
  ends : (g : Gate) → leb max_sessions (length g.sessions) ≡ false → Evicts g g
  round :
      (g g' : Gate)
      → leb max_sessions (length g.sessions) ≡ true
      → Evicts (forget_session g (oldest 0 0 g.sessions)) g'
      → Evicts g g'

-- One round and the rounds after it.
make_room-suc :
    (n : ℕ) (g : Gate)
    → make_room (suc n) g ≡ (
        if leb max_sessions (length g.sessions)
        then make_room n (forget_session g (oldest 0 0 g.sessions))
        else g)
unfolding make_room
make_room-suc n g = refl

-- The number of sessions after a round of the loop.
round_shorter :
    (n : ℕ) (g : Gate)
    → leb max_sessions (length g.sessions) ≡ true
    → length g.sessions ≤ suc n
    → length (forget_session g (oldest 0 0 g.sessions)).sessions ≤ n
unfolding forget_session
round_shorter n g e h =
    let full = leb→le max_sessions (length g.sessions) e in
    let less = forget_oldest g.sessions (omega (arith, full)) in omega (arith, less, h)

make_room-Evicts : (n : ℕ) (g : Gate) → length g.sessions ≤ n → Evicts g (make_room n g)
unfolding make_room
make_room-Evicts zero g h = ends g (few (length g.sessions) h)
  where
    few : (n : ℕ) → n ≤ 0 → leb max_sessions n ≡ false
    few n h = ground arith
make_room-Evicts (suc n) g h = elim (Bool-cases (leb max_sessions (length g.sessions))) [
  | inr e ↦ subst (Evicts g) (sym (make_room-suc n g ∙ if-false _ _ _ e)) (ends g e)
  | inl e ↦ subst (Evicts g) (sym (make_room-suc n g ∙ if-true _ _ _ e)) (
      round g _ e
        (make_room-Evicts n (forget_session g (oldest 0 0 g.sessions)) (round_shorter n g e h)))
]

Evicts-make_room : (n : ℕ) (g g' : Gate) → length g.sessions ≤ n → Evicts g g' → g' ≡ make_room n g
unfolding make_room
Evicts-make_room zero g g' h (ends _ e) = refl
Evicts-make_room (suc n) g g' h (ends _ e) = sym (make_room-suc n g ∙ if-false _ _ _ e)
Evicts-make_room zero g g' h (round _ _ e r) = absurd (never (length g.sessions) h e)
  where
    never : (n : ℕ) → n ≤ 0 → leb max_sessions n ≡ true → ⊥
    never n h e = ground arith
Evicts-make_room (suc n) g g' h (round _ _ e r) =
    Evicts-make_room n (forget_session g (oldest 0 0 g.sessions)) g' (round_shorter n g e h) r
    ∙ sym (make_room-suc n g ∙ if-true _ _ _ e)

-- The loop has no other end than the one that the session is stored in.
pub Evicts-issue_session :
    (g g' : Gate) (id : ℕ) (setup : Bool) (revision : ℕ) (key install : Bytes) (now : Instant)
    → Evicts g g'
    → issue_session g id setup revision key install now ≡ record g' {
      sessions = (id, new_session setup revision key install now) ∷ remove id g'.sessions;
    }
unfolding issue_session
Evicts-issue_session g g' id setup revision key install now r =
    ap
      (λ (x : Gate). record x {
        sessions = (id, new_session setup revision key install now) ∷ remove id x.sessions;
      })
      (sym (Evicts-make_room (length g.sessions) g g' (omega arith) r))

-- Before a session is stored, the loop that forgets the oldest session while there are 32 or more
-- comes to its end from every gate, with fewer than 32. The session is stored in the gate that the
-- loop leaves, in place of one under its digest.
pub issue_session_terminates :
    (g : Gate) (id : ℕ) (setup : Bool) (revision : ℕ) (key install : Bytes) (now : Instant)
    → (roomy : Gate) × Evicts g roomy
      × (length roomy.sessions < max_sessions)
      × (issue_session g id setup revision key install now ≡ record roomy {
        sessions = (id, new_session setup revision key install now) ∷ remove id roomy.sessions;
      })
unfolding issue_session
issue_session_terminates g id setup revision key install now =
    let n = length g.sessions in
    (make_room n g, make_room-Evicts n g (omega arith), make_room_rounds n g (omega arith), refl)
