-- ===== src/Names/Canonical.antt =====
-- The canonical lists of names, by a description that runs no normalization.
use mathlib.Core.Path.{ap₂}
use rootwell.Prelude.{
  leb→le, le→leb, ltb-false, and_parts, ℕ, ◌≤◌, ◌≡◌, refl, sym, ap, subst, ◌∙◌, Bool, true, false,
  not, ◌&&◌, ◌||◌, Option, none, some, List, [], ◌∷◌, arith, ltb, leb, ◌==◌, if◌then◌else◌, length,
  all, if-true, if-false,
}
use rootwell.Prelude.Bytes.{Bytes, bytes_eq_refl, bytes_eq→≡}
use rootwell.Catalog.{member}
use rootwell.Names.Unique.{unseen, folded, unique_names_sound, unique_names-fixed}
use rootwell.Names.{
  dns_ok, unique_names, public_name, by_dns, by_http, published, few_sorted, order_names, check,
  provider_id, is_ascii, canonical_names, names_eq, normalize_names, sort_names, common_ok,
  accepted, lower, bytes_eq, trim_ascii,
}
use rootwell.Names.Fold.{dns_ok-ascii, folded-fixed}
use rootwell.Names.Order.{
  ascending, all-sort_names, ascending-sort_names, length-sort_names, ascending-distinct,
  sort_names-fixed,
}

-- A name in its folded form that the certificate authority may be asked for.
unfoldable pub well_formed : Bytes → Bool
well_formed name = leb (length name) 253 && dns_ok name && public_name true name

-- One to eight well-formed names, strictly ascending.
unfoldable pub canonical_form : List Bytes → Bool
canonical_form names =
    leb 1 (length names) && leb (length names) 8 && all well_formed names && ascending names

-- What `NormalizeDNSNames` has tested of the names that it returns.
normalize_names-eq-some :
    (input names : List Bytes)
    → normalize_names input ≡ some names
    → (unique_names [] input ≡ some names) × (1 ≤ length input)
unfolding normalize_names accepted
normalize_names-eq-some input names h = counted (ltb 32 (length input) || length input == 0) refl h
  where
    taken :
        (o : Option (List Bytes))
        → unique_names [] input ≡ o
        → accepted o ≡ some names
        → unique_names [] input ≡ some names
    taken none u k = cc
    taken (some ns) u k = tested (common_ok ns) k
      where
        tested :
            (b : Bool)
            → (if b then some ns else none) ≡ some names
            → unique_names [] input ≡ some names
        tested true k = u ∙ k
        tested false k = cc

    counted :
        (b : Bool)
        → (ltb 32 (length input) || length input == 0) ≡ b
        → (if b then none else accepted (unique_names [] input)) ≡ some names
        → (unique_names [] input ≡ some names) × (1 ≤ length input)
    counted true e k = cc
    counted false e k = (taken (unique_names [] input) refl k, ground arith)

-- What `Check` has tested for the provider and the challenge of an order.
check-eq-some :
    (input names : List Bytes)
    → check provider_id by_dns input ≡ some names
    → (normalize_names input ≡ some names) × (all (public_name true) names ≡ true)
unfolding check published
check-eq-some input names h =
    let same = bytes_eq_refl by_dns in
    guarded
      (not (bytes_eq provider_id provider_id)
        || not (bytes_eq by_dns by_dns || bytes_eq by_dns by_http)
        || not (all is_ascii input))
      (bytes_eq by_dns by_dns) same h
  where
    taken :
        (o : Option (List Bytes))
        → normalize_names input ≡ o
        → published true o ≡ some names
        → (normalize_names input ≡ some names) × (all (public_name true) names ≡ true)
    taken none e k = cc
    taken (some ns) e k = tested (all (public_name true) ns) refl k
      where
        tested :
            (b : Bool)
            → all (public_name true) ns ≡ b
            → (if b then some ns else none) ≡ some names
            → (normalize_names input ≡ some names) × (all (public_name true) names ≡ true)
        tested true p k =
            let whole : ns ≡ names = cc in
            (e ∙ k, subst (λ (l : List Bytes). all (public_name true) l ≡ true) whole p)
        tested false p k = cc

    guarded :
        (b t : Bool)
        → t ≡ true
        → (if b then none else published t (normalize_names input)) ≡ some names
        → (normalize_names input ≡ some names) × (all (public_name true) names ≡ true)
    guarded true t e k = cc
    guarded false true e k = taken (normalize_names input) refl k
    guarded false false e k = cc

order_names-eq-some :
    (input out : List Bytes)
    → order_names input ≡ some out
    → (names : List Bytes) × (check provider_id by_dns input ≡ some names)
      × (length names ≤ 8)
      × (sort_names names ≡ out)
unfolding order_names few_sorted
order_names-eq-some input out h = taken (check provider_id by_dns input) refl h
  where
    taken :
        (o : Option (List Bytes))
        → check provider_id by_dns input ≡ o
        → few_sorted o ≡ some out
        → (names : List Bytes) × (check provider_id by_dns input ≡ some names)
          × (length names ≤ 8)
          × (sort_names names ≡ out)
    taken none e k = cc
    taken (some names) e k = counted (ltb 8 (length names)) refl k
      where
        counted :
            (b : Bool)
            → ltb 8 (length names) ≡ b
            → (if b then none else some (sort_names names)) ≡ some out
            → (ns : List Bytes) × (check provider_id by_dns input ≡ some ns)
              × (length ns ≤ 8)
              × (sort_names ns ≡ out)
        counted true f k = cc
        counted false f k = (names, e, ltb-false 8 (length names) f, cc)

well_formed-all :
    (ns : List Bytes)
    → all folded ns ≡ true
    → all (public_name true) ns ≡ true
    → all well_formed ns ≡ true
unfolding well_formed
well_formed-all [] a b = refl
well_formed-all (n ∷ ns) a b = ground (arith, well_formed-all ns)

all-well_formed :
    (ns : List Bytes)
    → all well_formed ns ≡ true
    → (all folded ns ≡ true) × (all (public_name true) ns ≡ true) × (all is_ascii ns ≡ true)
unfolding well_formed
all-well_formed [] a = (refl, refl, refl)
all-well_formed (n ∷ ns) a =
    let (a1, a2) = and_parts _ _ a in
    let (f, p) = and_parts _ _ a1 in
    let (l, d) = and_parts _ _ f in
    let (x, y, z) = all-well_formed ns a2 in
    (both _ _ f x, both _ _ p y, both _ _ (dns_ok-ascii n d) z)
  where
    both : (x y : Bool) → x ≡ true → y ≡ true → (x && y) ≡ true
    both x y a b = ground arith

-- What `Names` returns has the canonical form.
pub order_names-form :
    (input out : List Bytes) → order_names input ≡ some out → canonical_form out ≡ true
unfolding canonical_form
order_names-form input out h =
    let (names, c, few, sorted) = order_names-eq-some input out h in
    let (n, p) = check-eq-some input names c in
    let (u, some_name) = normalize_names-eq-some input names n in
    let (f, d, e, size) = unique_names_sound [] input names u in
    let formed = all-sort_names well_formed names ∙ well_formed-all names f p in
    let up = ascending-sort_names names d in
    let longer = length-sort_names names in
    subst (λ (l : List Bytes). canonical_form l ≡ true) sorted
      (four _ _ _ _ (le→leb 1 (length (sort_names names)) (omega (arith, longer, size, some_name)))
        (le→leb (length (sort_names names)) 8 (omega (arith, longer, few))) formed up)
  where
    four : (a b c d : Bool) → a ≡ true → b ≡ true → c ≡ true → d ≡ true → (a && b && c && d) ≡ true
    four a b c d ha hb hc hd = ground arith

unseen-nil : (ns : List Bytes) → unseen [] ns ≡ true
unfolding member
unseen-nil [] = refl
unseen-nil (n ∷ ns) = unseen-nil ns

common_ok-folded : (ns : List Bytes) → 1 ≤ length ns → all folded ns ≡ true → common_ok ns ≡ true
unfolding member
common_ok-folded [] n a = absurd (omega (arith, n))
common_ok-folded (first ∷ rest) n a =
    let (a1, a2) = and_parts _ _ a in
    let (l, d) = and_parts _ _ a1 in
    let listed : member (lower (trim_ascii first)) (first ∷ rest) ≡ true =
      subst (λ (x : Bytes). member x (first ∷ rest) ≡ true) (sym (folded-fixed first d))
        (or_true _ _ (bytes_eq_refl first)) in
    both _ _ l listed
  where
    both : (x y : Bool) → x ≡ true → y ≡ true → (x && y) ≡ true
    both x y a b = ground arith

    or_true : (x y : Bool) → x ≡ true → (x || y) ≡ true
    or_true x y a = ground arith

-- The guards of `Check` on folded names, for the provider and the challenge of an order.
check-passed :
    (ns : List Bytes)
    → all is_ascii ns ≡ true
    → normalize_names ns ≡ some ns
    → all (public_name true) ns ≡ true
    → check provider_id by_dns ns ≡ some ns
unfolding check published
check-passed ns ascii normal p =
    if-false
      (not (bytes_eq provider_id provider_id)
        || not (bytes_eq by_dns by_dns || bytes_eq by_dns by_http)
        || not (all is_ascii ns))
      none _ (guard _ _ _ _ (bytes_eq_refl provider_id) (bytes_eq_refl by_dns) ascii)
    ∙ ap (λ (t : Bool). published t (normalize_names ns)) (bytes_eq_refl by_dns)
    ∙ ap (published true) normal
    ∙ if-true (all (public_name true) ns) (some ns) none p
  where
    guard :
        (a b h c : Bool) → a ≡ true → b ≡ true → c ≡ true → (not a || not (b || h) || not c) ≡ false
    guard a b h c x y z = ground arith

-- A list in canonical form is what `Names` makes of it.
pub order_names-fixed : (ns : List Bytes) → canonical_form ns ≡ true → order_names ns ≡ some ns
unfolding canonical_form order_names few_sorted normalize_names accepted
order_names-fixed ns h =
    let (h1, up) = and_parts _ _ h in
    let (h2, formed) = and_parts _ _ h1 in
    let (one, few) = and_parts _ _ h2 in
    let (f, p, ascii) = all-well_formed ns formed in
    let here = unique_names-fixed [] ns f (ascending-distinct ns up) (unseen-nil ns) in
    let common = common_ok-folded ns (leb→le 1 (length ns) one) f in
    let normal : normalize_names ns ≡ some ns =
      if-false (ltb 32 (length ns) || length ns == 0) none _ (counted (length ns) one few)
      ∙ ap accepted here
      ∙ if-true (common_ok ns) (some ns) none common in
    ap few_sorted (check-passed ns ascii normal p)
    ∙ if-false (ltb 8 (length ns)) none (some (sort_names ns)) (small (length ns) few)
    ∙ ap some (sort_names-fixed ns up)
  where
    counted : (n : ℕ) → leb 1 n ≡ true → leb n 8 ≡ true → (ltb 32 n || n == 0) ≡ false
    counted n a b = ground arith

    small : (n : ℕ) → leb n 8 ≡ true → ltb 8 n ≡ false
    small n a = ground arith

names_eq→≡ : (xs ys : List Bytes) → names_eq xs ys ≡ true → xs ≡ ys
unfolding names_eq
names_eq→≡ [] [] h = refl
names_eq→≡ [] (y ∷ ys) h = cc
names_eq→≡ (x ∷ xs) [] h = cc
names_eq→≡ (x ∷ xs) (y ∷ ys) h =
    let (a, b) = and_parts _ _ h in ap₂ ◌∷◌ (bytes_eq→≡ x y a) (names_eq→≡ xs ys b)

names_eq_refl : (xs : List Bytes) → names_eq xs xs ≡ true
unfolding names_eq
names_eq_refl [] = refl
names_eq_refl (x ∷ xs) = ground (arith, bytes_eq_refl x, names_eq_refl xs)

same_truth : (a b : Bool) → (a ≡ true → b ≡ true) → (b ≡ true → a ≡ true) → a ≡ b
same_truth true true f g = refl
same_truth true false f g = sym (f refl)
same_truth false true f g = g refl
same_truth false false f g = refl

-- `CanonicalNames` holds of a list exactly when it is one to eight strictly ascending names, each of
-- at most 253 bytes, folded, with a dot in its base and outside the reserved suffixes.
pub canonical_names-canonical_form :
    (names : List Bytes) → canonical_names names ≡ canonical_form names
unfolding canonical_names
canonical_names-canonical_form names = same_truth _ _ (formed (order_names names) refl) fixed
  where
    formed :
        (o : Option (List Bytes))
        → order_names names ≡ o
        → (elim o [ none ↦ false | some normal ↦ names_eq normal names ]) ≡ true
        → canonical_form names ≡ true
    formed none e k = cc
    formed (some normal) e k =
        subst (λ (l : List Bytes). canonical_form l ≡ true) (names_eq→≡ normal names k)
          (order_names-form names normal e)

    fixed : canonical_form names ≡ true → canonical_names names ≡ true
    fixed h = rw (order_names-fixed names h, canonical_names) (names_eq_refl names)

-- What `Names` returns is canonical, and `Names` gives it back.
pub order_names-canonical_names :
    (input out : List Bytes)
    → order_names input ≡ some out
    → (canonical_names out ≡ true) × (order_names out ≡ some out)
order_names-canonical_names input out h =
    let formed = order_names-form input out h in
    (canonical_names-canonical_form out ∙ formed, order_names-fixed out formed)
