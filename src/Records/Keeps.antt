-- ===== src/Records/Keeps.antt =====
-- What a change of notes keeps: the certificate, its import, the other records and the history.
use rootwell.Image.Reserve.{reserved_image_bytes}
use mathlib.Core.Path.{ap₂}
use rootwell.Prelude.{
  ℕ, suc, ◌+◌, ◌-◌, String, ◌≡◌, refl, sym, ap, subst, ◌∙◌, Bool, true, false, not, ◌||◌, Option,
  none, some, List, [], ◌∷◌, arith, ltb, leb, ◌==◌, get_elem?, set,
}
use rootwell.Prelude.Bytes.{Bytes, bytes_eq, bytes_eq→≡}
use rootwell.Clock.{Instant}
use rootwell.Outcome.{
  ok, err, limit, not_found, stale_generation, label, owner_unchanged, refuse_if-eq-ok, >>=-eq-ok,
  ◌>>=◌,
}
use rootwell.Image.{Image, max_image, max_generation}
use rootwell.Image.History.{add_event, add_event-eq-ok, with_event, event_of}
use rootwell.Catalog.{Record, update_owner, valid_label, valid_location_state}
use rootwell.Catalog.Notes.{IsTidy}
use rootwell.Catalog.Refine.{NoteOp, associate, rename, remove, apply_note, apply_note_refines}
use rootwell.Records.{
  Store, NoteChange, add_location, set_owner, change_location, location_rename, location_remove,
  other, changed, action_of, index_of, change_note, reseal_record, encode, at_index, sealed,
  arguments_refused, stale, reserved_image_bytes,
}

index_of-found :
    (id : Bytes) (rs : List Record) (i : ℕ)
    → index_of id rs ≡ some i
    → (r : Record) × (get_elem? rs i ≡ some r) × (r.fingerprint ≡ id)
unfolding index_of
index_of-found id [] i h = cc
index_of-found id (r ∷ rs) i h =
    at_head (λ (p : ℕ). index_of-found id rs p) (bytes_eq r.fingerprint id) refl (index_of id rs)
      refl h
  where
    at_head :
        ((p : ℕ)
          → index_of id rs ≡ some p
          → (x : Record) × (get_elem? rs p ≡ some x) × (x.fingerprint ≡ id))
        → (b : Bool) → bytes_eq r.fingerprint id ≡ b
        → (o : Option ℕ) → index_of id rs ≡ o
        → (elim b [ true ↦ some 0 | false ↦ elim o [ none ↦ none | some i ↦ some (suc i) ] ])
          ≡ some i
        → (x : Record) × (get_elem? (r ∷ rs) i ≡ some x) × (x.fingerprint ≡ id)
    at_head ih true e o f k =
        let zero_i : 0 ≡ i = cc in
        (
          r,
          subst (λ (n : ℕ). get_elem? (r ∷ rs) n ≡ some r) zero_i refl,
          bytes_eq→≡ r.fingerprint id e,
        )
    at_head ih false e none f k = cc
    at_head ih false e (some p) f k =
        let suc_i : suc p ≡ i = cc in
        let (x, g, same) = ih p f in
        (x, subst (λ (n : ℕ). get_elem? (r ∷ rs) n ≡ some x) suc_i g, same)

-- The certificate and its import, without the operator's notes.
abbrev pub without_labels : Record → Record
without_labels r = record r { owner = []; location = []; locations = [] }

update_owner-kept :
    (r r' : Record) (holder : Bytes)
    → IsTidy r
    → update_owner r holder ≡ ok r'
    → IsTidy r' × (without_labels r' ≡ without_labels r)
unfolding update_owner valid_location_state
update_owner-kept r r' holder t h =
    let (a, h1) = refuse_if-eq-ok (not (valid_label holder)) label _ r' h in
    let (b, h2) = refuse_if-eq-ok (bytes_eq holder r.owner) owner_unchanged _ r' h1 in
    subst (λ (x : Record). IsTidy x × (without_labels x ≡ without_labels r)) (ok_same h2) (t, refl)
  where
    ok_same : {q : Record} → ok q ≡ ok r' → q ≡ r'
    ok_same e = cc

note-kept :
    (op : NoteOp) (r r' : Record)
    → IsTidy r
    → apply_note op r ≡ ok r'
    → IsTidy r' × (without_labels r' ≡ without_labels r)
note-kept op r r' t h =
    let (tidy, labels, rest) = apply_note_refines op r r' t h in
    (tidy, ap (λ (x : Record). record x { owner = [] }) rest)

changed-kept :
    (change : NoteChange) (r r' : Record)
    → IsTidy r
    → changed change r ≡ ok r'
    → IsTidy r' × (without_labels r' ≡ without_labels r)
unfolding changed
changed-kept (add_location place) r r' t h = note-kept (associate place) r r' t h
changed-kept (set_owner holder) r r' t h = update_owner-kept r r' holder t h
changed-kept (change_location old new location_rename) r r' t h =
    note-kept (rename old new) r r' t h
changed-kept (change_location old new location_remove) r r' t h = note-kept (remove old) r r' t h
changed-kept (change_location old new other) r r' t h = note-kept (remove old) r r' t h

module _ (size : Image → ℕ) where
  pub encode-same : (m m' : Image) → encode size m ≡ ok m' → m ≡ m'
  unfolding encode
  encode-same m m' h =
      let (a, b) =
        refuse_if-eq-ok (ltb (max_image - reserved_image_bytes m) (size m)) limit (ok m) m' h in
      ok_same b
    where
      ok_same : ok m ≡ ok m' → m ≡ m'
      ok_same e = cc

  -- The record that is resealed, and the image with its event.
  reseal_record-eq-ok :
      (s s' : Store) (i : ℕ) (action : String) (now : Instant) (r r' : Record)
      → reseal_record size s i action now r ≡ ok (s', r')
      → (s'.image
          ≡ with_event
              (record s.image { generation = s.image.generation + 1 })
              (event_of
                (record s.image { generation = s.image.generation + 1 })
                action
                (r.fingerprint ∷ [])
                now))
        × (s'.saved ≡ set s.saved i r)
        × (r ≡ r')
  unfolding reseal_record sealed
  reseal_record-eq-ok s s' i action now r r' h =
      let m0 = record s.image { generation = s.image.generation + 1 } in
      let event = add_event m0 action (r.fingerprint ∷ []) now in
      let finish = λ (m : Image). ok (sealed size s i r m) in
      let (m2, h1, h2) = >>=-eq-ok (event >>= encode size) finish h in
      let (m1, h3, h4) = >>=-eq-ok event (encode size) h1 in
      let (refused, fits, made) = add_event-eq-ok m0 m1 action (r.fingerprint ∷ []) now h3 in
      let same : (s', r') ≡ sealed size s i r m2 = cc in
      (
        ap (λ (p : Store × Record). p.0.image) same ∙ sym (encode-same m1 m2 h4) ∙ made,
        ap (λ (p : Store × Record). p.0.saved) same,
        sym (ap (λ (p : Store × Record). p.1) same),
      )

  -- The record that a change is made on.
  located :
      (s s' : Store) (change : NoteChange) (now : Instant) (r' : Record) (o : Option ℕ)
      → at_index size s change now o ≡ ok (s', r')
      → (i : ℕ) × (r : Record) × (o ≡ some i)
        × (get_elem? s.saved i ≡ some r)
        × ((changed change r >>= reseal_record size s i (action_of change) now) ≡ ok (s', r'))
  unfolding at_index
  located s s' change now r' none k = cc
  located s s' change now r' (some i) k = present (get_elem? s.saved i) refl k
    where
      present :
          (o : Option Record)
          → get_elem? s.saved i ≡ o
          → (elim o [
            | none ↦ err not_found
            | some r ↦ changed change r >>= reseal_record size s i (action_of change) now
          ])
            ≡ ok (s', r')
          → (j : ℕ) × (r : Record) × (some i ≡ some j)
            × (get_elem? s.saved j ≡ some r)
            × ((changed change r >>= reseal_record size s j (action_of change) now) ≡ ok (s', r'))
      present none g k = cc
      present (some r) g k = (i, r, refl, g, k)

  -- The change of one record, sealed.
  written :
      (s s' : Store) (change : NoteChange) (now : Instant) (i : ℕ) (r r' : Record)
      → IsTidy r
      → (changed change r >>= reseal_record size s i (action_of change) now) ≡ ok (s', r')
      → (s'.saved ≡ set s.saved i r')
        × IsTidy r'
        × (without_labels r' ≡ without_labels r)
        × (s'.image
            ≡ with_event
                (record s.image { generation = s.image.generation + 1 })
                (event_of
                  (record s.image { generation = s.image.generation + 1 })
                  (action_of change)
                  (r.fingerprint ∷ [])
                  now))
  written s s' change now i r r' tidy h =
      let (q, made, sealed_it) =
        >>=-eq-ok (changed change r) (reseal_record size s i (action_of change) now) h in
      let (image, saved, out) = reseal_record-eq-ok s s' i (action_of change) now q r' sealed_it in
      let (good, kept) = changed-kept change r q tidy made in whole q out image saved good kept
    where
      m0 : Image
      m0 = record s.image { generation = s.image.generation + 1 }

      whole :
          (q : Record)
          → q ≡ r'
          → s'.image ≡ with_event m0 (event_of m0 (action_of change) (q.fingerprint ∷ []) now)
          → s'.saved ≡ set s.saved i q
          → IsTidy q
          → without_labels q ≡ without_labels r
          → (s'.saved ≡ set s.saved i r')
            × IsTidy r'
            × (without_labels r' ≡ without_labels r)
            × (s'.image ≡ with_event m0 (event_of m0 (action_of change) (r.fingerprint ∷ []) now))
      whole q out image saved good kept = (
        saved ∙ ap (λ (x : Record). set s.saved i x) out,
        subst (λ (x : Record). IsTidy x) out good,
        ap without_labels (sym out) ∙ kept,
        image
            ∙ ap
                (λ (x : Record).
                  with_event m0 (event_of m0 (action_of change) (x.fingerprint ∷ []) now))
                kept,
      )

  stale-current : (m : Image) (expected : ℕ) → stale m expected ≡ false → m.generation ≡ expected
  stale-current m expected h = fresh (m.generation) h
    where
      fresh : (g : ℕ) → (expected == 0 || not (g == expected)) ≡ false → g ≡ expected
      fresh g h = ground arith

  -- A change of notes that is saved was asked for at the generation of the image, and makes the next
  -- one with one event. It writes one record, that of the fingerprint asked for, whose certificate
  -- and import stay as they were and whose notes are tidy; every other record stays.
  pub change_note_keeps :
      (s s' : Store) (id : Bytes) (change : NoteChange) (expected : ℕ) (now : Instant) (r' : Record)
      → ((j : ℕ) (x : Record) → get_elem? s.saved j ≡ some x → IsTidy x)
      → change_note size s id change expected now ≡ ok (s', r')
      → (s.image.generation ≡ expected)
        × (i : ℕ) × (r : Record) × (get_elem? s.saved i ≡ some r)
        × (r.fingerprint ≡ id)
        × (s'.saved ≡ set s.saved i r')
        × IsTidy r'
        × (without_labels r' ≡ without_labels r)
        × (s'.image
            ≡ with_event
                (record s.image { generation = expected + 1 })
                (event_of
                  (record s.image { generation = expected + 1 })
                  (action_of change)
                  (id ∷ [])
                  now))
  unfolding change_note
  change_note_keeps s s' id change expected now r' tidy h =
      let found = at_index size s change now (index_of id s.saved) in
      let (a, h1) = refuse_if-eq-ok (stale s.image expected) stale_generation _ (s', r') h in
      let (b, h2) = refuse_if-eq-ok (leb max_generation s.image.generation) limit _ (s', r') h1 in
      let (c, h3) = refuse_if-eq-ok (arguments_refused change) label found (s', r') h2 in
      let (i, r, at, g, h4) = located s s' change now r' (index_of id s.saved) h3 in
      ended (stale-current s.image expected a) i r at g
        (written s s' change now i r r' (tidy i r g) h4)
    where
      image_at : ℕ → Bytes → Image
      image_at n f =
          with_event (record s.image { generation = n + 1 })
            (event_of (record s.image { generation = n + 1 }) (action_of change) (f ∷ []) now)

      ended :
          s.image.generation ≡ expected
          → (i : ℕ) (r : Record) → index_of id s.saved ≡ some i
          → get_elem? s.saved i ≡ some r
          → (s'.saved ≡ set s.saved i r')
            × IsTidy r'
            × (without_labels r' ≡ without_labels r)
            × (s'.image ≡ image_at s.image.generation r.fingerprint)
          → (s.image.generation ≡ expected)
            × (i : ℕ) × (r : Record) × (get_elem? s.saved i ≡ some r)
            × (r.fingerprint ≡ id)
            × (s'.saved ≡ set s.saved i r')
            × IsTidy r'
            × (without_labels r' ≡ without_labels r)
            × (s'.image ≡ image_at expected id)
      ended current i r at g (saved, good, kept, image) =
          let (x, gx, same) = index_of-found id s.saved i at in
          let own : r.fingerprint ≡ id = ap (λ (y : Record). y.fingerprint) (one g gx) ∙ same in
          (current, i, r, g, own, saved, good, kept, image ∙ ap₂ image_at current own)
        where
          one : {o : Option Record} {x y : Record} → o ≡ some x → o ≡ some y → x ≡ y
          one a b = cc
