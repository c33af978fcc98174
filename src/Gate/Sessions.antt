-- ===== src/Gate/Sessions.antt =====
-- cmd/rootwelld/gate.go: the sessions that are admitted, forgotten and issued.
use rootwell.Prelude.{
  and_parts, ltb→lt, ℕ, ◌<◌, ◌≡◌, refl, sym, ap, subst, ◌∙◌, ◌≢◌, inl, inr, Bool, true, not, ◌&&◌,
  ◌||◌, Option, none, some, List, [], ◌∷◌, arith, ltb, ◌==◌, Bool-cases, if-true, if-false, str_eq,
}
use rootwell.Gate.{
  Session, Job, Watch, Gate, find, remove, end_renewal, end_watch, end_preview, forget_session,
  same_revision, admit, current_session,
}
use rootwell.Clock.{Instant}

find-remove_self : (id : ℕ) (xs : List (ℕ × Session)) → find id (remove id xs) ≡ none
unfolding find remove
find-remove_self id [] = refl
find-remove_self id ((k, s) ∷ rest) = elim (Bool-cases (k == id)) [
  | inl e ↦ rw e (find-remove_self id rest)
  | inr e ↦ rw e (rw e (find-remove_self id rest))
]

find-remove :
    (id other : ℕ) (xs : List (ℕ × Session))
    → other ≢ id
    → find other (remove id xs) ≡ find other xs
unfolding find remove
find-remove id other [] n = refl
find-remove id other ((k, s) ∷ rest) n = ground (arith, find-remove id other rest n)

same_revision-some :
    (revision : Option ℕ) (s : Session)
    → same_revision revision s ≡ true
    → revision ≡ some s.revision
unfolding same_revision
same_revision-some none s h = cc
same_revision-some (some n) s h = ap some (ground arith)

no_session :
    {g g' : Gate} {s : Session} → ◌≡◌ {A = Option Session × Gate} (none, g) (some s, g') → ⊥
no_session h = some_none (ap (λ (x : Option Session × Gate). x.0) h)
  where
    some_none : {s : Session} → none ≡ some s → ⊥
    some_none e = cc

some_same : {a b : Session} → some a ≡ some b → a ≡ b
some_same e = cc

admit_sound :
    (g g' : Gate) (id : ℕ) (revision : Option ℕ) (now : Instant) (o : Option Session) (s : Session)
    → admit g id revision now o ≡ (some s, g')
    → (o ≡ some s) × (revision ≡ some s.revision) × (now < s.expires) × (g' ≡ g)
unfolding admit
admit_sound g g' id revision now none s h = absurd (no_session h)
admit_sound g g' id revision now (some t) s h =
    let passed = same_revision revision t && ltb now t.expires in
    elim (Bool-cases passed) [
      | inr e ↦ absurd (no_session (sym (if-false passed _ _ e) ∙ h))
      | inl e ↦
          let p = sym (if-true passed (some t, g) (none, forget_session g id) e) ∙ h in
          let same = some_same (ap (λ (x : Option Session × Gate). x.0) p) in
          let (a, b) = and_parts _ _ e in
          (
            ap some same,
            same_revision-some revision t a ∙ ap (λ (x : Session). some x.revision) same,
            subst (λ (x : Session). now < x.expires) same (ltb→lt now t.expires b),
            sym (ap (λ (x : Option Session × Gate). x.1) p),
          )
    ]

-- An admitted session is the one that is kept under the digest of the cookie's token, it was issued
-- for the access file as it now stands, it has not expired, and nothing is changed.
pub current_session_sound :
    (g g' : Gate) (cookie revision : Option ℕ) (now : Instant) (s : Session)
    → current_session g cookie revision now ≡ (some s, g')
    → (id : ℕ) × (cookie ≡ some id)
      × (find id g.sessions ≡ some s)
      × (revision ≡ some s.revision)
      × (now < s.expires)
      × (g' ≡ g)
unfolding current_session
current_session_sound g g' none revision now s h = absurd (no_session h)
current_session_sound g g' (some id) revision now s h =
    let (kept, current, alive, same) = admit_sound g g' id revision now (find id g.sessions) s h in
    (id, refl, kept, current, alive, same)

refused_gate :
    (g g' : Gate) (id : ℕ) (revision : Option ℕ) (now : Instant) (o : Option Session)
    → admit g id revision now o ≡ (none, g')
    → forget_session g id ≡ g'
unfolding admit
refused_gate g g' id revision now none h = ap (λ (x : Option Session × Gate). x.1) h
refused_gate g g' id revision now (some t) h =
    let passed = same_revision revision t && ltb now t.expires in
    elim (Bool-cases passed) [
      | inl e ↦
          absurd (no_session (sym h ∙ if-true passed (some t, g) (none, forget_session g id) e))
      | inr e ↦
          ap (λ (x : Option Session × Gate). x.1)
            (sym (if-false passed (some t, g) (none, forget_session g id) e) ∙ h)
    ]

-- A token that is refused is gone: no later request finds a session under its digest, and every
-- other session is found as before.
pub current_session_refuses :
    (g g' : Gate) (id other : ℕ) (revision : Option ℕ) (now : Instant)
    → current_session g (some id) revision now ≡ (none, g')
    → other ≢ id
    → (find id g'.sessions ≡ none) × (find other g'.sessions ≡ find other g.sessions)
unfolding current_session forget_session
current_session_refuses g g' id other revision now h n =
    let same = ap Gate.sessions (refused_gate g g' id revision now (find id g.sessions) h) in
    (
      ap (find id) (sym same) ∙ find-remove_self id g.sessions,
      ap (find other) (sym same) ∙ find-remove id other g.sessions n,
    )

-- What a forgotten session owned is over: its renewal job is complete or cancelled, its watch is
-- cancelled and its preview is gone.
abbrev pub renewal_over : ℕ → Option Job → Bool
renewal_over id none = true
renewal_over id (some j) = not (j.owner == id) || str_eq j.state "complete" || j.cancelled

abbrev pub watch_over : ℕ → Option Watch → Bool
watch_over id none = true
watch_over id (some w) = not (w.owner == id) || w.cancelled

abbrev pub preview_over : ℕ → Option ℕ → Bool
preview_over id none = true
preview_over id (some owner) = not (owner == id)

renewal_ends : (id : ℕ) (o : Option Job) → renewal_over id (end_renewal id o) ≡ true
unfolding end_renewal
renewal_ends id none = refl
renewal_ends id (some j) = ground arith

watch_ends : (id : ℕ) (o : Option Watch) → watch_over id (end_watch id o) ≡ true
unfolding end_watch
watch_ends id none = refl
watch_ends id (some w) = ground arith

preview_ends : (id : ℕ) (o : Option ℕ) → preview_over id (end_preview id o) ≡ true
unfolding end_preview
preview_ends id none = refl
preview_ends id (some owner) = ground arith

-- A session that is forgotten is no longer found, every other one is found as before, and the work
-- that it owned is over: its renewal job is complete or cancelled, its watch is cancelled and its
-- preview is gone.
pub forget_session_ends :
    (g : Gate) (id other : ℕ)
    → other ≢ id
    → (find id (forget_session g id).sessions ≡ none)
      × (find other (forget_session g id).sessions ≡ find other g.sessions)
      × (renewal_over id (forget_session g id).renewal ≡ true)
      × (watch_over id (forget_session g id).watch ≡ true)
      × (preview_over id (forget_session g id).preview ≡ true)
unfolding forget_session
forget_session_ends g id other n = (
  find-remove_self id g.sessions,
  find-remove id other g.sessions n,
  renewal_ends id g.renewal,
  watch_ends id g.watch,
  preview_ends id g.preview,
)
