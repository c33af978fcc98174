-- ===== src/Catalog/Remove.antt =====
-- Removing a label: deletion from the set of labels, and the inverse of adding one.
use mathlib.Core.Path.{fun_ext}
use rootwell.Outcome.{refuse_if-passed, refuse_if-eq-ok}
use rootwell.Prelude.{
  or_parts, and_parts, ◌≤◌, ◌≡◌, refl, sym, ap, subst, ◌∙◌, ◌⊎◌, inl, inr, Bool, true, false, not,
  ◌&&◌, ◌||◌, Option, none, some, List, [], ◌∷◌, ◌++◌, arith, Bool-cases, length, all,
}
use rootwell.Prelude.Bytes.{Bytes, bytes_eq, bytes_eq→≡, bytes_eq_comm, bytes_eq_refl}
use rootwell.Catalog.{
  without_first, valid_location, member, Record, remove_location, Record, remove_location,
  first_or_empty, ok, removed, associate_location, valid_location_state, label,
}
use rootwell.Catalog.Notes.{
  distinct_labels, associate_location_refines, associated, IsTidy, labels_of, delete_label,
  associate_location-Associable, without_notes, valid_location_state-first,
  first-valid_location_state,
}

-- Where the first label of that text stands.
without_first-cases :
    (place m : Bytes) (ls rest : List Bytes)
    → without_first place (m ∷ ls) ≡ some rest
    → ((bytes_eq m place ≡ true) × (ls ≡ rest))
      ⊎ ((rest' : List Bytes) × (bytes_eq m place ≡ false)
          × (without_first place ls ≡ some rest')
          × (m ∷ rest' ≡ rest))
unfolding without_first
without_first-cases place m ls rest h =
    at_head (bytes_eq m place) refl (without_first place ls) refl h
  where
    at_head :
        (found : Bool)
        → bytes_eq m place ≡ found
        → (deeper : Option (List Bytes)) → without_first place ls ≡ deeper
        → (elim found [
          | true ↦ some ls
          | false ↦ elim deeper [ none ↦ none | some rest ↦ some (m ∷ rest) ]
        ])
          ≡ some rest
        → ((bytes_eq m place ≡ true) × (ls ≡ rest))
          ⊎ ((rest' : List Bytes) × (bytes_eq m place ≡ false)
              × (without_first place ls ≡ some rest')
              × (m ∷ rest' ≡ rest))
    at_head true e deeper d h = inl (e, cc)
    at_head false e none d h = cc
    at_head false e (some rest') d h = inr (rest', e, d, cc)

without_first-length :
    (place : Bytes) (ls rest : List Bytes)
    → without_first place ls ≡ some rest
    → length rest ≤ length ls
unfolding without_first
without_first-length place [] rest h = cc
without_first-length place (m ∷ ls) rest h = elim (without_first-cases place m ls rest h) [
  | inl (e, same) ↦ omega (arith, ap length same)
  | inr (rest', e, d, same) ↦ omega (arith, without_first-length place ls rest' d, ap length same)
]

without_first-valid :
    (place : Bytes) (ls rest : List Bytes)
    → all valid_location ls ≡ true
    → without_first place ls ≡ some rest
    → all valid_location rest ≡ true
unfolding without_first
without_first-valid place [] rest v h = cc
without_first-valid place (m ∷ ls) rest v h =
    let (a, b) = and_parts _ _ v in
    elim (without_first-cases place m ls rest h) [
      | inl (e, same) ↦ subst (λ (xs : List Bytes). all valid_location xs ≡ true) same b
      | inr (rest', e, d, same) ↦
          subst (λ (xs : List Bytes). all valid_location xs ≡ true) same
            (both _ _ a (without_first-valid place ls rest' b d))
    ]
  where
    both : (x y : Bool) → x ≡ true → y ≡ true → (x && y) ≡ true
    both x y a b = ground arith

-- In a list that holds a label once, the label is gone and every other label stays.
without_first-member :
    (place : Bytes) (ls rest : List Bytes) (l : Bytes)
    → distinct_labels ls ≡ true
    → without_first place ls ≡ some rest
    → member l rest ≡ (member l ls && not (bytes_eq place l))
unfolding without_first distinct_labels member
without_first-member place [] rest l v h = cc
without_first-member place (m ∷ ls) rest l v h =
    let (a, b) = and_parts _ _ v in
    elim (without_first-cases place m ls rest h) [
      | inl (e, same) ↦
          subst
            (λ (xs : List Bytes).
              member l xs ≡ ((bytes_eq m l || member l ls) && not (bytes_eq place l)))
            same (gone a (bytes_eq→≡ m place e))
      | inr (rest', e, d, same) ↦
          subst
            (λ (xs : List Bytes).
              member l xs ≡ ((bytes_eq m l || member l ls) && not (bytes_eq place l)))
            same (kept e rest' (without_first-member place ls rest' l b d))
    ]
  where
    gone :
        not (member m ls) ≡ true
        → m ≡ place
        → member l ls ≡ ((bytes_eq m l || member l ls) && not (bytes_eq place l))
    gone a e = elim (Bool-cases (bytes_eq m l)) [
      | inl t ↦
          let absent : member l ls ≡ false =
            subst (λ (x : Bytes). member x ls ≡ false) (bytes_eq→≡ m l t) (ground arith) in
          let hit : bytes_eq place l ≡ true = subst (λ (x : Bytes). bytes_eq x l ≡ true) e t in
          ground arith
      | inr f ↦
          let miss : bytes_eq place l ≡ false = subst (λ (x : Bytes). bytes_eq x l ≡ false) e f in
          ground arith
    ]

    kept :
        bytes_eq m place ≡ false
        → (rest' : List Bytes) → member l rest' ≡ (member l ls && not (bytes_eq place l))
        → (bytes_eq m l || member l rest')
          ≡ ((bytes_eq m l || member l ls) && not (bytes_eq place l))
    kept e rest' ih = elim (Bool-cases (bytes_eq m l)) [
      | inl t ↦
          let miss : bytes_eq place l ≡ false =
            subst (λ (x : Bytes). bytes_eq place x ≡ false) (bytes_eq→≡ m l t)
              (bytes_eq_comm place m ∙ e) in
          ground arith
      | inr f ↦ ground arith
    ]

without_first-distinct :
    (place : Bytes) (ls rest : List Bytes)
    → distinct_labels ls ≡ true
    → without_first place ls ≡ some rest
    → distinct_labels rest ≡ true
unfolding without_first distinct_labels
without_first-distinct place [] rest v h = cc
without_first-distinct place (m ∷ ls) rest v h =
    let (a, b) = and_parts _ _ v in
    elim (without_first-cases place m ls rest h) [
      | inl (e, same) ↦ subst (λ (xs : List Bytes). distinct_labels xs ≡ true) same b
      | inr (rest', e, d, same) ↦
          let absent = without_first-member place ls rest' m b d in
          let ih = without_first-distinct place ls rest' b d in
          subst (λ (xs : List Bytes). distinct_labels xs ≡ true) same (ground arith)
    ]

abbrev pub unlisted : Record → List Bytes → Record
unlisted r rest = record r { locations = rest; location = first_or_empty rest }

remove_location-eq-ok :
    (r r' : Record) (place : Bytes)
    → remove_location r place ≡ ok r'
    → (rest : List Bytes) × (without_first place r.locations ≡ some rest) × (unlisted r rest ≡ r')
unfolding remove_location
remove_location-eq-ok r r' place h =
    let (a, h1) =
      refuse_if-eq-ok (not (valid_location place) || not (valid_location_state r)) label
        (removed r (without_first place r.locations)) r' h in
    taken (without_first place r.locations) refl h1
  where
    taken :
        (o : Option (List Bytes))
        → without_first place r.locations ≡ o
        → removed r o ≡ ok r'
        → (rest : List Bytes) × (without_first place r.locations ≡ some rest)
          × (unlisted r rest ≡ r')
    taken none e k = cc
    taken (some rest) e k = (rest, e, cc)

-- On a tidy record the removal of a location deletes it from the set of its labels, the record stays
-- tidy, and nothing but the notes changes.
pub remove_location_refines :
    (r r' : Record) (place : Bytes)
    → IsTidy r
    → remove_location r place ≡ ok r'
    → IsTidy r'
      × (labels_of r' ≡ delete_label place (labels_of r))
      × (without_notes r' ≡ without_notes r)
remove_location_refines r r' place (state, once, valids) h =
    let (rest, e, whole) = remove_location-eq-ok r r' place h in
    let (first, few) = valid_location_state-first r state in
    let shorter = without_first-length place r.locations rest e in
    subst
      (λ (x : Record).
        IsTidy x
        × (labels_of x ≡ delete_label place (labels_of r))
        × (without_notes x ≡ without_notes r))
      whole
      (
        (
          first-valid_location_state (unlisted r rest) refl (omega (arith, few, shorter)),
          without_first-distinct place r.locations rest once e,
          without_first-valid place r.locations rest valids e,
        ),
        fun_ext (λ (l : Bytes). without_first-member place r.locations rest l once e),
        refl,
      )

without_first-append :
    (place : Bytes) (ls : List Bytes)
    → member place ls ≡ false
    → without_first place (ls ++ place ∷ []) ≡ some ls
unfolding without_first member
without_first-append place [] h = ground (arith, bytes_eq_refl place)
without_first-append place (m ∷ ls) h =
    let (a, b) = or_parts _ _ h in ground (arith, without_first-append place ls b)

-- A location that was added to a record with tidy notes (at most 32 distinct valid labels, the location
-- the first of them, or empty where there is none) is removed again without a trace: the record is the one before.
pub remove_location-associate_location :
    (r r' : Record) (place : Bytes)
    → IsTidy r
    → associate_location r place ≡ ok r'
    → remove_location r' place ≡ ok r
unfolding remove_location removed
remove_location-associate_location r r' place tidy h =
    let a = associate_location-Associable r r' place h in
    let (first, few) = valid_location_state-first r tidy.0 in
    let tidy' = (associate_location_refines r r' place tidy h).0 in
    let q = associated r place in
    let fits : valid_location_state q ≡ true =
      subst (λ (x : Record). valid_location_state x ≡ true) (sym a.whole) tidy'.0 in
    let found = without_first-append place r.locations a.fresh in
    let here : remove_location q place ≡ ok r =
      refuse_if-passed (not (valid_location place) || not (valid_location_state q)) label
        (removed q (without_first place q.locations)) (both _ _ a.place_valid fits)
      ∙ ap (removed q) found
      ∙ ap (λ (l : Bytes). ok (record r { location = l })) first in
    subst (λ (x : Record). remove_location x place ≡ ok r) a.whole here
  where
    both : (x y : Bool) → x ≡ true → y ≡ true → (not x || not y) ≡ false
    both x y a b = ground arith
