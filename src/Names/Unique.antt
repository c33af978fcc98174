-- ===== src/Names/Unique.antt =====
-- The loop over the names of a template: distinct folded names, and a list of them is given back.

use rootwell.Prelude.{
  leb→le, and_parts, suc, ◌≡◌, refl, ap, subst, ◌∙◌, Bool, true, false, not, ◌&&◌, Option, none,
  some, List, [], ◌∷◌, arith, leb, length, all,
}
use rootwell.Prelude.Bytes.{Bytes, bytes_eq_comm}
use rootwell.Catalog.{member}
use rootwell.Catalog.Notes.{distinct_labels}
use rootwell.Names.{dns, dns_ok, unique_names}
use rootwell.Names.Fold.{dns-eq-some, dns-fixed}

is_not : (b : Bool) → not b ≡ true → b ≡ false
is_not b h = ground arith

-- None of the names was seen.
abbrev pub unseen : List Bytes → List Bytes → Bool
unseen seen = all (λ (n : Bytes). not (member n seen))

abbrev pub folded : Bytes → Bool
folded name = leb (length name) 253 && dns_ok name

unseen-cons :
    (n : Bytes) (seen ns : List Bytes)
    → unseen (n ∷ seen) ns ≡ (unseen seen ns && not (member n ns))
unfolding member
unseen-cons n seen [] = refl
unseen-cons n seen (m ∷ ns) = ground (arith, unseen-cons n seen ns, bytes_eq_comm n m)

-- The step of the loop over the names.
unique_names-step :
    (seen : List Bytes) (v : Bytes) (vs out : List Bytes)
    → unique_names seen (v ∷ vs) ≡ some out
    → (n : Bytes) × (rest : List Bytes) × (dns v ≡ some n)
      × (member n seen ≡ false)
      × (unique_names (n ∷ seen) vs ≡ some rest)
      × (n ∷ rest ≡ out)
unfolding unique_names
unique_names-step seen v vs out h = read (dns v) refl h
  where
    read :
        (o : Option Bytes)
        → dns v ≡ o
        → (elim o [
          | none ↦ none
          | some n ↦ elim (member n seen) [
            | true ↦ none
            | false ↦ elim (unique_names (n ∷ seen) vs) [
              | none ↦ none
              | some names ↦ some (n ∷ names)
            ]
          ]
        ])
          ≡ some out
        → (n : Bytes) × (rest : List Bytes) × (dns v ≡ some n)
          × (member n seen ≡ false)
          × (unique_names (n ∷ seen) vs ≡ some rest)
          × (n ∷ rest ≡ out)
    read none d k = cc
    read (some n) d k = at_name n d (member n seen) refl (unique_names (n ∷ seen) vs) refl k
      where
        at_name :
            (n : Bytes)
            → dns v ≡ some n
            → (b : Bool) → member n seen ≡ b
            → (o : Option (List Bytes)) → unique_names (n ∷ seen) vs ≡ o
            → (elim b [
              | true ↦ none
              | false ↦ elim o [ none ↦ none | some names ↦ some (n ∷ names) ]
            ])
              ≡ some out
            → (n : Bytes) × (rest : List Bytes) × (dns v ≡ some n)
              × (member n seen ≡ false)
              × (unique_names (n ∷ seen) vs ≡ some rest)
              × (n ∷ rest ≡ out)
        at_name n d true m o u k = cc
        at_name n d false m none u k = cc
        at_name n d false m (some rest) u k = (n, rest, d, m, u, cc)

pub unique_names_sound :
    (seen vs out : List Bytes)
    → unique_names seen vs ≡ some out
    → (all folded out ≡ true)
      × (distinct_labels out ≡ true)
      × (unseen seen out ≡ true)
      × (length out ≡ length vs)
unfolding unique_names distinct_labels
unique_names_sound seen [] out h =
    subst
      (λ (l : List Bytes).
        (all folded l ≡ true)
        × (distinct_labels l ≡ true)
        × (unseen seen l ≡ true)
        × (length l ≡ 0))
      (emptied h) (refl, refl, refl, refl)
  where
    emptied : some [] ≡ some out → [] ≡ out
    emptied e = cc
unique_names_sound seen (v ∷ vs) out h =
    let (n, rest, d, fresh, more, whole) = unique_names-step seen v vs out h in
    let (a, b, c, e) = unique_names_sound (n ∷ seen) vs rest more in
    let (okay, short) = dns-eq-some v n d in
    let spread = unseen-cons n seen rest in
    subst
      (λ (l : List Bytes).
        (all folded l ≡ true)
        × (distinct_labels l ≡ true)
        × (unseen seen l ≡ true)
        × (length l ≡ suc (length vs)))
      whole (ground arith, ground arith, ground arith, ap suc e)

unique_names-kept :
    (seen : List Bytes) (v n : Bytes) (vs rest : List Bytes)
    → dns v ≡ some n
    → member n seen ≡ false
    → unique_names (n ∷ seen) vs ≡ some rest
    → unique_names seen (v ∷ vs) ≡ some (n ∷ rest)
unfolding unique_names
unique_names-kept seen v n vs rest d f m =
    rw (d, unique_names) (rw (f, unique_names) (rw (m, unique_names) refl))

pub unique_names-fixed :
    (seen ns : List Bytes)
    → all folded ns ≡ true
    → distinct_labels ns ≡ true
    → unseen seen ns ≡ true
    → unique_names seen ns ≡ some ns
unfolding unique_names distinct_labels
unique_names-fixed seen [] a b c = refl
unique_names-fixed seen (n ∷ ns) a b c =
    let (a1, a2) = and_parts _ _ a in
    let (s1, s2) = and_parts _ _ a1 in
    let (b1, b2) = and_parts _ _ b in
    let (c1, c2) = and_parts _ _ c in
    let later : unseen (n ∷ seen) ns ≡ true = unseen-cons n seen ns ∙ both _ _ c2 b1 in
    let ih = unique_names-fixed (n ∷ seen) ns a2 b2 later in
    let here = dns-fixed n s2 (leb→le (length n) 253 s1) in
    unique_names-kept seen n n ns ns here (is_not (member n seen) c1) ih
  where
    both : (x y : Bool) → x ≡ true → y ≡ true → (x && y) ≡ true
    both x y a b = ground arith
