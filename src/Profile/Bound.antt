-- ===== src/Profile/Bound.antt =====
-- What a valid address says: its environment, and for an order its account.
use rootwell.Prelude.{
  and_parts, ==_iff, ◌≡◌, refl, sym, ap, subst, ◌∙◌, Bool, true, ◌&&◌, Option, none, some, [], ◌∷◌,
  ◌++◌, arith, ◌==◌, all, if-true,
}
use rootwell.Prelude.Bytes.{Bytes, is_digit, codes}
use mathlib.Core.Path.{ap₂}
use rootwell.Text.{has_prefix, after_prefix, trim_prefix, rest_or}
use rootwell.Profile.{
  Profile, staging, production, unknown, account_url, order_url, account_prefix, order_prefix,
  positive, origin, is_valid,
}

-- Two prefixes of one text agree as far as both go.
agree : Bytes → Bytes → Bool
agree [] ys = true
agree (x ∷ xs) [] = true
agree (x ∷ xs) (y ∷ ys) = x == y && agree xs ys

has_prefix-agree :
    (xs ys text : Bytes)
    → has_prefix xs text ≡ true
    → has_prefix ys text ≡ true
    → agree xs ys ≡ true
unfolding has_prefix agree
has_prefix-agree [] ys text a b = refl
has_prefix-agree (x ∷ xs) [] text a b = refl
has_prefix-agree (x ∷ xs) (y ∷ ys) [] a b = cc
has_prefix-agree (x ∷ xs) (y ∷ ys) (c ∷ text) a b = ground (arith, has_prefix-agree xs ys text)

-- A text after a prefix is read back.
after_prefix-append :
    (xs ys text : Bytes)
    → has_prefix (xs ++ ys) text ≡ true
    → (rest : Bytes) × (after_prefix xs text ≡ some rest) × (has_prefix ys rest ≡ true)
unfolding has_prefix after_prefix
after_prefix-append [] ys text h = (text, refl, h)
after_prefix-append (x ∷ xs) ys [] h = cc
after_prefix-append (x ∷ xs) ys (c ∷ text) h =
    let (a, b) = and_parts _ _ h in
    let (rest, e, f) = after_prefix-append xs ys text b in
    (rest, if-true (x == c) (after_prefix xs text) none a ∙ e, f)

after_prefix-whole :
    (xs text : Bytes)
    → has_prefix xs text ≡ true
    → (rest : Bytes) × (after_prefix xs text ≡ some rest) × (xs ++ rest ≡ text)
unfolding has_prefix after_prefix
after_prefix-whole [] text h = (text, refl, refl)
after_prefix-whole (x ∷ xs) [] h = cc
after_prefix-whole (x ∷ xs) (c ∷ text) h =
    let (a, b) = and_parts _ _ h in
    let (rest, e, f) = after_prefix-whole xs text b in
    (rest, if-true (x == c) (after_prefix xs text) none a ∙ e, ap₂ ◌∷◌ ((==_iff x c).0 a) f)

trim_prefix-whole : (xs text : Bytes) → has_prefix xs text ≡ true → xs ++ trim_prefix xs text ≡ text
trim_prefix-whole xs text h =
    let (rest, e, f) = after_prefix-whole xs text h in
    ap (λ (o : Option Bytes). xs ++ rest_or text o) e ∙ f

-- Two numbers before a slash in one text are one number.
number_unique :
    (a b text : Bytes)
    → all is_digit a ≡ true
    → all is_digit b ≡ true
    → has_prefix (a ++ codes "/") text ≡ true
    → has_prefix (b ++ codes "/") text ≡ true
    → a ≡ b
unfolding has_prefix
number_unique [] [] text da db ha hb = refl
number_unique [] (y ∷ b) [] da db ha hb = cc
number_unique [] (y ∷ b) (c ∷ text) da db ha hb = ground arith
number_unique (x ∷ a) [] [] da db ha hb = cc
number_unique (x ∷ a) [] (c ∷ text) da db ha hb = ground arith
number_unique (x ∷ a) (y ∷ b) [] da db ha hb = cc
number_unique (x ∷ a) (y ∷ b) (c ∷ text) da db ha hb =
    let (d1, d2) = and_parts _ _ da in
    let (e1, e2) = and_parts _ _ db in
    let (h1, h2) = and_parts _ _ ha in
    let (k1, k2) = and_parts _ _ hb in
    ap₂ ◌∷◌ ((==_iff x c).0 h1 ∙ sym ((==_iff y c).0 k1)) (number_unique a b text d2 e2 h2 k2)

account_url-parts :
    (p : Profile) (a : Bytes)
    → account_url p a ≡ true
    → (is_valid p ≡ true)
      × (all is_digit (trim_prefix (account_prefix p) a) ≡ true)
      × (account_prefix p ++ trim_prefix (account_prefix p) a ≡ a)
unfolding account_url positive
account_url-parts p a h =
    let (h1, number) = and_parts _ _ h in
    let (valid, starts) = and_parts _ _ h1 in
    let (nonzero, digits) = and_parts _ _ number in
    (valid, digits, trim_prefix-whole (account_prefix p) a starts)

-- One order address names one account of an environment.
same_account :
    (p : Profile) (value a b : Bytes)
    → order_url p value a ≡ true
    → order_url p value b ≡ true
    → a ≡ b
unfolding order_url
same_account p value a b ha hb =
    let (ha1, na) = and_parts _ _ ha in
    let (acc_a, pre_a) = and_parts _ _ ha1 in
    let (hb1, nb) = and_parts _ _ hb in
    let (acc_b, pre_b) = and_parts _ _ hb1 in
    let (va, da, wa) = account_url-parts p a acc_a in
    let (vb, db, wb) = account_url-parts p b acc_b in
    let start = origin p ++ codes "/acme/order/" in
    let (rest, e, fa) =
      after_prefix-append start (trim_prefix (account_prefix p) a ++ codes "/") value pre_a in
    let (rest', e', fb) =
      after_prefix-append start (trim_prefix (account_prefix p) b ++ codes "/") value pre_b in
    let same : rest' ≡ rest = cc in
    let number =
      number_unique (trim_prefix (account_prefix p) a) (trim_prefix (account_prefix p) b) rest da db
        fa
        (subst (λ (r : Bytes). has_prefix (trim_prefix (account_prefix p) b ++ codes "/") r ≡ true)
          same fb) in
    sym wa ∙ ap (λ (n : Bytes). account_prefix p ++ n) number ∙ wb

order_url-parts :
    (p : Profile) (value a : Bytes)
    → order_url p value a ≡ true
    → (is_valid p ≡ true) × (has_prefix (order_prefix p a) value ≡ true)
unfolding order_url
order_url-parts p value a h =
    let (h1, number) = and_parts _ _ h in
    let (account, starts) = and_parts _ _ h1 in ((account_url-parts p a account).0, starts)

same_profile :
    (p q : Profile) (a b : Bytes)
    → is_valid p ≡ true
    → is_valid q ≡ true
    → agree (order_prefix p a) (order_prefix q b) ≡ true
    → p ≡ q
unfolding agree
same_profile staging staging a b v w h = refl
same_profile production production a b v w h = refl
same_profile staging production a b v w h = cc
same_profile production staging a b v w h = cc
same_profile unknown q a b v w h = cc
same_profile staging unknown a b v w h = cc
same_profile production unknown a b v w h = cc

-- An order address that is valid for two accounts, each in an environment, is one of one environment
-- and one account.
pub order_url_binds :
    (p q : Profile) (value a b : Bytes)
    → order_url p value a ≡ true
    → order_url q value b ≡ true
    → (p ≡ q) × (a ≡ b)
order_url_binds p q value a b ha hb =
    let (va, sa) = order_url-parts p value a ha in
    let (vb, sb) = order_url-parts q value b hb in
    let same =
      same_profile p q a b va vb
        (has_prefix-agree (order_prefix p a) (order_prefix q b) value sa sb) in
    (
      same,
      same_account p value a b ha
          (subst (λ (r : Profile). order_url r value b ≡ true) (sym same) hb),
    )
