-- ===== src/Bundle/Distinct.antt =====
-- What a bundle that is read holds: its entries are at most 64, and no two have one digest.
use rootwell.Prelude.{
  or_parts, ℕ, zero, suc, ◌≤◌, ◌≡◌, sym, ap, subst, ◌∙◌, ◌⊎◌, inl, inr, Bool, true, false, some,
  List, [], ◌∷◌, arith, length, get_elem?,
}
use rootwell.Prelude.Bytes.{Bytes, bytes_eq, bytes_eq_refl}
use rootwell.Outcome.{ok}
use rootwell.Inspect.{Decoders}
use rootwell.Text.{trim_space}
use rootwell.Bundle.Rounds.{Opened, read-Opened, entry_at, nothing_at, parse_bundle-cases}
use rootwell.Bundle.{parse_bundle, max_certificates, Entry, read, seen_in}

read-bounded :
    (d : Decoders) (left : ℕ) (text : Bytes) (total : ℕ) (seen : List Bytes) (es : List Entry)
    → read d left text total seen ≡ ok es
    → length es ≤ left
unfolding read
read-bounded d left [] total seen es h = ground arith
read-bounded d zero (c ∷ text) total seen es h = cc
read-bounded d (suc left) (c ∷ text) total seen es h =
    let o = read-Opened d left c text total seen es h in
    let few = read-bounded d left o.rest o.total _ o.entries o.later in
    subst (λ (l : List Entry). length l ≤ suc left) o.whole (omega (arith, few))

seen_in-cons :
    (digest s : Bytes) (seen : List Bytes)
    → seen_in digest (s ∷ seen) ≡ false
    → (bytes_eq s digest ≡ false) × (seen_in digest seen ≡ false)
unfolding seen_in
seen_in-cons digest s seen h = or_parts _ _ h

-- Every entry that is read has a digest that was not seen before.
read-fresh :
    (d : Decoders) (left : ℕ) (text : Bytes) (total : ℕ) (seen : List Bytes) (es : List Entry)
    (j : ℕ) (b : Entry)
    → read d left text total seen ≡ ok es
    → get_elem? es j ≡ some b
    → seen_in (d.sha256 b.der) seen ≡ false
unfolding read
read-fresh d left [] total seen es j b h g = absurd (nothing_at es j b h g)
read-fresh d zero (c ∷ text) total seen es j b h g = cc
read-fresh d (suc left) (c ∷ text) total seen es j b h g =
    let o = read-Opened d left c text total seen es h in
    let deep = λ (k : ℕ).
      read-fresh d left o.rest o.total (d.sha256 o.entry.der ∷ seen) o.entries k b o.later in
    elim (entry_at o.entry o.entries es j b o.whole g) [
      | inl (z, same) ↦ subst (λ (x : Entry). seen_in (d.sha256 x.der) seen ≡ false) same o.fresh
      | inr (k, e, there) ↦
          (seen_in-cons (d.sha256 b.der) (d.sha256 o.entry.der) seen (deep k there)).1
    ]

-- An entry of the rest has another digest than the first.
apart :
    (d : Decoders) (left : ℕ) (seen : List Bytes) (es : List Entry) (o : Opened d left seen es)
    (k : ℕ) (b : Entry)
    → get_elem? o.entries k ≡ some b
    → d.sha256 o.entry.der ≡ d.sha256 b.der
    → ⊥
apart d left seen es o k b g same =
    let fresh =
      read-fresh d left o.rest o.total (d.sha256 o.entry.der ∷ seen) o.entries k b o.later g in
    let (other, rest) = seen_in-cons (d.sha256 b.der) (d.sha256 o.entry.der) seen fresh in
    clash (subst (λ (x : Bytes). bytes_eq x (d.sha256 b.der) ≡ false) same other)
      (bytes_eq_refl (d.sha256 b.der))
  where
    clash : {t : Bool} → t ≡ false → t ≡ true → ⊥
    clash a b = cc

read-distinct :
    (d : Decoders) (left : ℕ) (text : Bytes) (total : ℕ) (seen : List Bytes) (es : List Entry)
    (i j : ℕ) (a b : Entry)
    → read d left text total seen ≡ ok es
    → get_elem? es i ≡ some a
    → get_elem? es j ≡ some b
    → d.sha256 a.der ≡ d.sha256 b.der
    → i ≡ j
unfolding read
read-distinct d left [] total seen es i j a b h ga gb same = absurd (nothing_at es i a h ga)
read-distinct d zero (c ∷ text) total seen es i j a b h ga gb same = cc
read-distinct d (suc left) (c ∷ text) total seen es i j a b h ga gb same =
    let o = read-Opened d left c text total seen es h in
    let deep =
      λ (k l : ℕ) (gk : get_elem? o.entries k ≡ some a) (gl : get_elem? o.entries l ≡ some b).
        read-distinct d left o.rest o.total (d.sha256 o.entry.der ∷ seen) o.entries k l a b o.later
          gk gl same in
    places o deep (entry_at o.entry o.entries es i a o.whole ga)
      (entry_at o.entry o.entries es j b o.whole gb)
  where
    Place : Opened d left seen es → ℕ → Entry → Type 0
    Place o j b =
        ((j ≡ 0) × (o.entry ≡ b)) ⊎ ((k : ℕ) × (j ≡ suc k) × (get_elem? o.entries k ≡ some b))

    places :
        (o : Opened d left seen es)
        → ((k l : ℕ) → get_elem? o.entries k ≡ some a → get_elem? o.entries l ≡ some b → k ≡ l)
        → Place o i a
        → Place o j b
        → i ≡ j
    places o deep (inl (zi, ea)) (inl (zj, eb)) = zi ∙ sym zj
    places o deep (inl (zi, ea)) (inr (l, ej, gl)) =
        absurd (apart d left seen es o l b gl (ap (λ (x : Entry). d.sha256 x.der) ea ∙ same))
    places o deep (inr (k, ei, gk)) (inl (zj, eb)) =
        absurd (apart d left seen es o k a gk (ap (λ (x : Entry). d.sha256 x.der) eb ∙ sym same))
    places o deep (inr (k, ei, gk)) (inr (l, ej, gl)) = ei ∙ ap suc (deep k l gk gl) ∙ sym ej

single_place :
    (e : Entry) (es : List Entry) (j : ℕ) (b : Entry)
    → e ∷ [] ≡ es
    → get_elem? es j ≡ some b
    → j ≡ 0
single_place e es j b one g = elim (entry_at e [] es j b one g) [
  | inl (z, same) ↦ z
  | inr (k, z, none_there) ↦ cc
]

-- Of a bundle that is read no two entries have one digest, and there are at most 64.
pub parse_bundle_distinct :
    (d : Decoders) (input : Bytes) (es : List Entry) (i j : ℕ) (a b : Entry)
    → parse_bundle d input ≡ ok es
    → get_elem? es i ≡ some a
    → get_elem? es j ≡ some b
    → d.sha256 a.der ≡ d.sha256 b.der
    → (i ≡ j) × (length es ≤ max_certificates)
parse_bundle_distinct d input es i j a b h ga gb same = elim (parse_bundle-cases d input es h) [
  | inl (e, own, one) ↦ (
    single_place e es i a one ga ∙ sym (single_place e es j b one gb),
    subst (λ (l : List Entry). length l ≤ max_certificates) one (omega arith),
  )
  | inr (z, k) ↦ (
    read-distinct d max_certificates (trim_space input) 0 [] es i j a b k ga gb same,
    read-bounded d max_certificates (trim_space input) 0 [] es k,
  )
]
