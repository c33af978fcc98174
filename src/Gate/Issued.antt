-- ===== src/Gate/Issued.antt =====
-- cmd/rootwelld/gate.go: the sessions that are issued, and the room that is made for them.
use rootwell.Prelude.{
  leb-false, leb→le, ℕ, zero, suc, ◌+◌, ◌*◌, ◌≤◌, ◌<◌, ◌≡◌, refl, ◌∙◌, ◌⊎◌, inl, inr, Bool, not,
  ◌&&◌, ◌||◌, some, List, [], ◌∷◌, arith, ltb, leb, ◌==◌, if◌then◌else◌, Bool-cases, length,
  if-true, if-false,
}
use rootwell.Prelude.Bytes.{Bytes}
use rootwell.Gate.{
  Session, Gate, find, remove, forget_session, oldest, max_sessions, make_room, new_session,
  issue_session,
}
use rootwell.Clock.{minute, hour, minute, hour, Instant}
use rootwell.Gate.Sessions.{}

length-remove : (id : ℕ) (xs : List (ℕ × Session)) → length (remove id xs) ≤ length xs
unfolding remove
length-remove id [] = omega arith
length-remove id ((k, s) ∷ rest) = ground (arith, length-remove id rest)

length-remove_found :
    (id : ℕ) (xs : List (ℕ × Session)) (s : Session)
    → find id xs ≡ some s
    → length (remove id xs) < length xs
unfolding remove find
length-remove_found id [] s h = cc
length-remove_found id ((k, t) ∷ rest) s h =
    ground (arith, length-remove id rest, length-remove_found id rest s)

found_later :
    (id k : ℕ) (t : Session) (rest : List (ℕ × Session)) (s : Session)
    → find id rest ≡ some s
    → (s' : Session) × (find id ((k, t) ∷ rest) ≡ some s')
unfolding find
found_later id k t rest s h = elim (Bool-cases (k == id)) [
  | inl e ↦ (t, if-true (k == id) _ _ e)
  | inr e ↦ (s, if-false (k == id) _ _ e ∙ h)
]

found_first :
    (id k : ℕ) (t : Session) (rest : List (ℕ × Session)) → id ≡ k → find id ((k, t) ∷ rest) ≡ some t
unfolding find
found_first id k t rest h = if-true (k == id) _ _ (ground arith)

-- The oldest session is one of the list, or the one that the search began with.
oldest_found :
    (id : ℕ) (earliest : Instant) (xs : List (ℕ × Session))
    → (oldest id earliest xs ≡ id) ⊎ ((s : Session) × (find (oldest id earliest xs) xs ≡ some s))
unfolding oldest
oldest_found id earliest [] = inl refl
oldest_found id earliest ((k, t) ∷ rest) =
    elim (Bool-cases (earliest == 0 || ltb t.expires earliest)) [
      | inl e ↦ elim (oldest_found k t.expires rest) [
        | inl p ↦ inr (t, rw e (found_first (oldest k t.expires rest) k t rest p))
        | inr (s, p) ↦ inr (rw e (found_later (oldest k t.expires rest) k t rest s p))
      ]
      | inr e ↦ elim (oldest_found id earliest rest) [
        | inl p ↦ inl (rw e p)
        | inr (s, p) ↦ inr (rw e (found_later (oldest id earliest rest) k t rest s p))
      ]
    ]

oldest_starts :
    (k : ℕ) (t : Session) (rest : List (ℕ × Session))
    → (s : Session) × (find (oldest 0 0 ((k, t) ∷ rest)) ((k, t) ∷ rest) ≡ some s)
unfolding oldest
oldest_starts k t rest = elim (oldest_found k t.expires rest) [
  | inl p ↦ (t, found_first (oldest k t.expires rest) k t rest p)
  | inr (s, p) ↦ found_later (oldest k t.expires rest) k t rest s p
]

pub forget_oldest :
    (xs : List (ℕ × Session)) → 1 ≤ length xs → length (remove (oldest 0 0 xs) xs) < length xs
forget_oldest [] h = absurd (omega (arith, h))
forget_oldest ((k, t) ∷ rest) h =
    let (s, p) = oldest_starts k t rest in
    length-remove_found (oldest 0 0 ((k, t) ∷ rest)) ((k, t) ∷ rest) s p

-- As many rounds as there are sessions leave less than the bound.
pub make_room_rounds :
    (n : ℕ) (g : Gate) → length g.sessions ≤ n → length (make_room n g).sessions < max_sessions
unfolding make_room forget_session
make_room_rounds zero g h = omega (arith, h)
make_room_rounds (suc n) g h = elim (Bool-cases (leb max_sessions (length g.sessions))) [
  | inr e ↦ rw e (leb-false max_sessions (length g.sessions) e)
  | inl e ↦
      let full = leb→le max_sessions (length g.sessions) e in
      let less = forget_oldest g.sessions (omega (arith, full)) in
      rw e (make_room_rounds n (forget_session g (oldest 0 0 g.sessions)) (omega (arith, less, h)))
]

-- After a session is issued there are at most 32 sessions; the new one is found under its digest,
-- expires after a quarter of an hour for a setup and after twelve hours otherwise, and is ready for
-- the inventory exactly if it is not for a setup and the key and the id have their lengths.
pub issue_session_bounds :
    (g : Gate) (id : ℕ) (setup : Bool) (revision : ℕ) (key install : Bytes) (now : Instant)
    → (length (issue_session g id setup revision key install now).sessions ≤ max_sessions)
      × (find id (issue_session g id setup revision key install now).sessions
          ≡ some (new_session setup revision key install now))
      × ((new_session setup revision key install now).expires
          ≡ now + (if setup then 15 * minute else 12 * hour))
      × ((new_session setup revision key install now).inventory_ready
          ≡ (not setup && length key == 32 && length install == 16))
unfolding issue_session new_session
issue_session_bounds g id setup revision key install now =
    let roomy = make_room (length g.sessions) g in
    (
      omega (arith, make_room_rounds (length g.sessions) g, length-remove id roomy.sessions),
      found_first id id (new_session setup revision key install now) (remove id roomy.sessions)
          refl,
      refl,
      refl,
    )
