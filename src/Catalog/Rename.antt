-- ===== src/Catalog/Rename.antt =====
-- Renaming a label: in the set of labels the old one is deleted and the new one inserted.
use rootwell.Prelude.{
  not_parts, or_parts, and_parts, ℕ, suc, ◌+◌, ◌≡◌, refl, sym, ap, subst, ◌∙◌, ◌⊎◌, inl, inr, Bool,
  true, false, not, ◌&&◌, ◌||◌, Option, none, some, List, [], ◌∷◌, arith, Bool-cases, length, set,
  all,
}
use rootwell.Prelude.Bytes.{Bytes, bytes_eq, bytes_eq→≡, bytes_eq_comm}
use mathlib.Core.Path.{fun_ext}
use rootwell.Outcome.{
  ok, err, refuse_if, refuse_if-eq-ok, >>=-eq-ok, label, location_unchanged, location_duplicate,
  ◌>>=◌,
}
use rootwell.Catalog.{
  Record, rename_location, renamed, rename_index, valid_location_state, valid_location, member,
  first_or_empty, location_duplicate,
}
use rootwell.Catalog.Notes.{
  IsTidy, distinct_labels, labels_of, delete_label, insert_label, without_notes,
  valid_location_state-first, first-valid_location_state,
}

-- The step of the loop at a label that is the old one, and at one that is not.
rename_index-cases :
    (old new m : Bytes) (ls : List Bytes) (i : ℕ) (index : Option ℕ) (o : Option ℕ)
    → rename_index old new (m ∷ ls) i index ≡ ok o
    → ((bytes_eq m old ≡ true) × (rename_index old new ls (i + 1) (some i) ≡ ok o))
      ⊎ ((bytes_eq m old ≡ false)
          × (bytes_eq m new ≡ false)
          × (rename_index old new ls (i + 1) index ≡ ok o))
unfolding rename_index
rename_index-cases old new m ls i index o h = at_head (bytes_eq m old) refl (bytes_eq m new) refl h
  where
    at_head :
        (a : Bool)
        → bytes_eq m old ≡ a
        → (b : Bool) → bytes_eq m new ≡ b
        → (elim a [
          | true ↦ rename_index old new ls (i + 1) (some i)
          | false ↦ elim b [
            | true ↦ err location_duplicate
            | false ↦ rename_index old new ls (i + 1) index
          ]
        ])
          ≡ ok o
        → ((bytes_eq m old ≡ true) × (rename_index old new ls (i + 1) (some i) ≡ ok o))
          ⊎ ((bytes_eq m old ≡ false)
              × (bytes_eq m new ≡ false)
              × (rename_index old new ls (i + 1) index ≡ ok o))
    at_head true e b f h = inl (e, h)
    at_head false e true f h = cc
    at_head false e false f h = inr (e, f, h)

-- Past the old label the loop keeps its index, and meets no new label.
rename_index-past :
    (old new : Bytes) (ls : List Bytes) (i : ℕ) (index : Option ℕ) (o : Option ℕ)
    → member old ls ≡ false
    → rename_index old new ls i index ≡ ok o
    → (index ≡ o) × (member new ls ≡ false)
unfolding rename_index member
rename_index-past old new [] i index o f h = (cc, refl)
rename_index-past old new (m ∷ ls) i index o f h =
    let (a, b) = or_parts _ _ f in
    elim (rename_index-cases old new m ls i index o h) [
      | inl (e, k) ↦ cc
      | inr (e, n, k) ↦
          let (same, absent) = rename_index-past old new ls (i + 1) index o b k in
          (same, ground arith)
    ]

-- The list with the new label in the place of the old one.
unfoldable substituted : Bytes → Bytes → List Bytes → List Bytes
substituted old new [] = []
substituted old new (m ∷ ls) = elim (bytes_eq m old) [
  | true ↦ new ∷ ls
  | false ↦ m ∷ substituted old new ls
]

substituted-old :
    (old new m : Bytes) (ls : List Bytes)
    → bytes_eq m old ≡ true
    → substituted old new (m ∷ ls) ≡ new ∷ ls
unfolding substituted
substituted-old old new m ls e = rw (e, substituted) refl

substituted-other :
    (old new m : Bytes) (ls : List Bytes)
    → bytes_eq m old ≡ false
    → substituted old new (m ∷ ls) ≡ m ∷ substituted old new ls
unfolding substituted
substituted-other old new m ls e = ground arith

-- The loop finds the place where the old label stands once, and has seen no new label.
rename_index-found :
    (old new : Bytes) (ls : List Bytes) (i k : ℕ)
    → distinct_labels ls ≡ true
    → bytes_eq old new ≡ false
    → rename_index old new ls i none ≡ ok (some k)
    → (p : ℕ) × (k ≡ i + p)
      × (set ls p new ≡ substituted old new ls)
      × (member old ls ≡ true)
      × (member new ls ≡ false)
unfolding rename_index member distinct_labels
rename_index-found old new [] i k v ne h = cc
rename_index-found old new (m ∷ ls) i k v ne h =
    let (a, b) = and_parts _ _ v in
    let deep = rename_index-found old new ls (i + 1) k b ne in
    elim (rename_index-cases old new m ls i none (some k) h) [
      | inl (e, rest) ↦ at_old a e rest
      | inr (e, n, rest) ↦
          let (p, kp, sp, mo, mn) = deep rest in
          (suc p, omega (arith, kp), further e p sp, ground arith, ground arith)
    ]
  where
    at_old :
        not (member m ls) ≡ true
        → bytes_eq m old ≡ true
        → rename_index old new ls (i + 1) (some i) ≡ ok (some k)
        → (p : ℕ) × (k ≡ i + p)
          × (set (m ∷ ls) p new ≡ substituted old new (m ∷ ls))
          × ((bytes_eq m old || member old ls) ≡ true)
          × ((bytes_eq m new || member new ls) ≡ false)
    at_old a e rest =
        let absent : member old ls ≡ false =
          subst (λ (x : Bytes). member x ls ≡ false) (bytes_eq→≡ m old e) (ground arith) in
        let (same, fresh) = rename_index-past old new ls (i + 1) (some i) (some k) absent rest in
        let other : bytes_eq m new ≡ false =
          subst (λ (x : Bytes). bytes_eq x new ≡ false) (sym (bytes_eq→≡ m old e)) ne in
        let here : i ≡ k = cc in
        (0, omega (arith, here), sym (substituted-old old new m ls e), ground arith, ground arith)

    further :
        bytes_eq m old ≡ false
        → (p : ℕ) → set ls p new ≡ substituted old new ls
        → m ∷ set ls p new ≡ substituted old new (m ∷ ls)
    further e p s = rw (substituted-other old new m ls e) (ap (λ (xs : List Bytes). m ∷ xs) s)

substituted-length :
    (old new : Bytes) (ls : List Bytes) → length (substituted old new ls) ≡ length ls
unfolding substituted
substituted-length old new [] = refl
substituted-length old new (m ∷ ls) = elim (Bool-cases (bytes_eq m old)) [
  | inl e ↦ rw (substituted-old old new m ls e) refl
  | inr e ↦ rw (substituted-other old new m ls e) (ap suc (substituted-length old new ls))
]

substituted-valid :
    (old new : Bytes) (ls : List Bytes)
    → valid_location new ≡ true
    → all valid_location ls ≡ true
    → all valid_location (substituted old new ls) ≡ true
unfolding substituted
substituted-valid old new [] n v = refl
substituted-valid old new (m ∷ ls) n v =
    let (a, b) = and_parts _ _ v in
    elim (Bool-cases (bytes_eq m old)) [
      | inl e ↦ rw (substituted-old old new m ls e) (both _ _ n b)
      | inr e ↦
          rw (substituted-other old new m ls e) (both _ _ a (substituted-valid old new ls n b))
    ]
  where
    both : (x y : Bool) → x ≡ true → y ≡ true → (x && y) ≡ true
    both x y a b = ground arith

substituted-member :
    (old new : Bytes) (ls : List Bytes) (l : Bytes)
    → distinct_labels ls ≡ true
    → member old ls ≡ true
    → member l (substituted old new ls) ≡ ((member l ls && not (bytes_eq old l)) || bytes_eq new l)
unfolding distinct_labels member
substituted-member old new [] l v h = cc
substituted-member old new (m ∷ ls) l v h =
    let (a, b) = and_parts _ _ v in
    elim (Bool-cases (bytes_eq m old)) [
      | inl e ↦ rw (substituted-old old new m ls e) (at_old a (bytes_eq→≡ m old e))
      | inr e ↦
          rw (substituted-other old new m ls e)
            (other e (substituted-member old new ls l b (ground arith)))
    ]
  where
    at_old :
        not (member m ls) ≡ true
        → m ≡ old
        → (bytes_eq new l || member l ls)
          ≡ (((bytes_eq m l || member l ls) && not (bytes_eq old l)) || bytes_eq new l)
    at_old a e = elim (Bool-cases (bytes_eq m l)) [
      | inl t ↦
          let absent : member l ls ≡ false =
            subst (λ (x : Bytes). member x ls ≡ false) (bytes_eq→≡ m l t) (ground arith) in
          let hit : bytes_eq old l ≡ true = subst (λ (x : Bytes). bytes_eq x l ≡ true) e t in
          ground arith
      | inr f ↦
          let miss : bytes_eq old l ≡ false = subst (λ (x : Bytes). bytes_eq x l ≡ false) e f in
          ground arith
    ]

    other :
        bytes_eq m old ≡ false
        → member l (substituted old new ls)
          ≡ ((member l ls && not (bytes_eq old l)) || bytes_eq new l)
        → (bytes_eq m l || member l (substituted old new ls))
          ≡ (((bytes_eq m l || member l ls) && not (bytes_eq old l)) || bytes_eq new l)
    other e ih = elim (Bool-cases (bytes_eq m l)) [
      | inl t ↦
          let miss : bytes_eq old l ≡ false =
            subst (λ (x : Bytes). bytes_eq old x ≡ false) (bytes_eq→≡ m l t)
              (bytes_eq_comm old m ∙ e) in
          ground arith
      | inr f ↦ ground arith
    ]

substituted-distinct :
    (old new : Bytes) (ls : List Bytes)
    → distinct_labels ls ≡ true
    → member old ls ≡ true
    → member new ls ≡ false
    → distinct_labels (substituted old new ls) ≡ true
unfolding distinct_labels member
substituted-distinct old new [] v h n = cc
substituted-distinct old new (m ∷ ls) v h n =
    let (a, b) = and_parts _ _ v in
    let (n1, n2) = or_parts _ _ n in
    elim (Bool-cases (bytes_eq m old)) [
      | inl e ↦ rw (substituted-old old new m ls e) (ground arith)
      | inr e ↦
          let there : member old ls ≡ true = ground arith in
          let spread = substituted-member old new ls m b there in
          let back = bytes_eq_comm new m in
          let ih = substituted-distinct old new ls b there n2 in
          rw (substituted-other old new m ls e) (ground arith)
    ]

abbrev relabelled : Record → List Bytes → Record
relabelled r labels = record r { locations = labels; location = first_or_empty labels }

rename_location-eq-ok :
    (r r' : Record) (old new : Bytes)
    → rename_location r old new ≡ ok r'
    → (k : ℕ) × (valid_location new ≡ true)
      × (bytes_eq old new ≡ false)
      × (rename_index old new r.locations 0 none ≡ ok (some k))
      × (relabelled r (set r.locations k new) ≡ r')
unfolding rename_location renamed
rename_location-eq-ok r r' old new h =
    let (a, h1) =
      refuse_if-eq-ok
        (not (valid_location old) || not (valid_location new) || not (valid_location_state r)) label
        (refuse_if (bytes_eq old new) location_unchanged
          (rename_index old new r.locations 0 none >>= renamed r new))
        r' h in
    let (ne, h2) =
      refuse_if-eq-ok (bytes_eq old new) location_unchanged
        (rename_index old new r.locations 0 none >>= renamed r new) r' h1 in
    let (o, found, k) = >>=-eq-ok (rename_index old new r.locations 0 none) (renamed r new) h2 in
    let (a1, a2) = or_parts _ _ a in
    let (a3, a4) = or_parts _ _ a1 in placed o found k (not_parts _ a4) ne
  where
    placed :
        (o : Option ℕ)
        → rename_index old new r.locations 0 none ≡ ok o
        → renamed r new o ≡ ok r'
        → valid_location new ≡ true
        → bytes_eq old new ≡ false
        → (k : ℕ) × (valid_location new ≡ true)
          × (bytes_eq old new ≡ false)
          × (rename_index old new r.locations 0 none ≡ ok (some k))
          × (relabelled r (set r.locations k new) ≡ r')
    placed none found h v ne = cc
    placed (some k) found h v ne = (k, v, ne, found, cc)

-- On a tidy record a rename deletes the old label from the set of its labels and inserts the new
-- one, the record stays tidy, and nothing but the notes changes.
pub rename_location_refines :
    (r r' : Record) (old new : Bytes)
    → IsTidy r
    → rename_location r old new ≡ ok r'
    → IsTidy r'
      × (labels_of r' ≡ insert_label new (delete_label old (labels_of r)))
      × (without_notes r' ≡ without_notes r)
rename_location_refines r r' old new (state, once, valids) h =
    let (k, v, ne, found, whole) = rename_location-eq-ok r r' old new h in
    let (p, kp, written, there, fresh) = rename_index-found old new r.locations 0 k once ne found in
    let (first, few) = valid_location_state-first r state in
    let size = substituted-length old new r.locations in
    let here : set r.locations k new ≡ substituted old new r.locations =
      ap (λ (n : ℕ). set r.locations n new) (omega (arith, kp)) ∙ written in
    subst
      (λ (x : Record).
        IsTidy x
        × (labels_of x ≡ insert_label new (delete_label old (labels_of r)))
        × (without_notes x ≡ without_notes r))
      (ap (relabelled r) (sym here) ∙ whole)
      (
        (
          first-valid_location_state (relabelled r (substituted old new r.locations)) refl
              (omega (arith, few, size)),
          substituted-distinct old new r.locations once there fresh,
          substituted-valid old new r.locations v valids,
        ),
        fun_ext (λ (l : Bytes). substituted-member old new r.locations l once there),
        refl,
      )
