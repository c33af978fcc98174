-- ===== src/Names/Fold.antt =====
-- A name that `dns` returns is folded already: the function gives it back.
use rootwell.Prelude.{
  ltb-false, and_parts, ℕ, suc, ◌≤◌, ◌≡◌, refl, sym, ap, subst, ◌∙◌, Bool, true, false, ◌&&◌, ◌||◌,
  none, some, List, [], ◌∷◌, arith, ltb, ◌==◌, if◌then◌else◌, length, all, if-true, if-false,
}
use rootwell.Prelude.Bytes.{Bytes}
use mathlib.Core.Path.{ap₂}
use rootwell.Text.{
  trim_ascii, trim_left, trim_right, after_prefix, lower, split, add_byte, is_blank_byte,
  keep_right, rest_or,
}
use rootwell.Names.{dns, dns_ok, label_ok, label_char, base_of, is_ascii}

abbrev name_char : ℕ → Bool
name_char c = label_char c || c == b'.' || c == b'*'

abbrev dotted : ℕ → Bool
dotted c = label_char c || c == b'.'

-- Every character of a text stands in one of its parts, or is a dot.
add_byte-chars :
    (c : ℕ) (parts : List Bytes)
    → all (all label_char) (add_byte c parts) ≡ true
    → (label_char c ≡ true) × (all (all label_char) parts ≡ true)
add_byte-chars c [] h = (ground arith, refl)
add_byte-chars c (p ∷ ps) h =
    let (a, b) = and_parts _ _ h in let (a1, a2) = and_parts _ _ a in (a1, both _ _ a2 b)
  where
    both : (x y : Bool) → x ≡ true → y ≡ true → (x && y) ≡ true
    both x y a b = ground arith

split-chars :
    (text : Bytes) → all (all label_char) (split b'.' text) ≡ true → all dotted text ≡ true
unfolding split
split-chars [] h = refl
split-chars (c ∷ text) h =
    let (a, b) = step (c == b'.') refl h in let ih = split-chars text b in ground arith
  where
    step :
        (t : Bool)
        → (c == b'.') ≡ t
        → all (all label_char) (if t then [] ∷ split b'.' text else add_byte c (split b'.' text))
          ≡ true
        → (dotted c ≡ true) × (all (all label_char) (split b'.' text) ≡ true)
    step true e k = (ground arith, k)
    step false e k = let (a, b) = add_byte-chars c (split b'.' text) k in (ground arith, b)

labels-chars : (parts : List Bytes) → all label_ok parts ≡ true → all (all label_char) parts ≡ true
unfolding label_ok
labels-chars [] h = refl
labels-chars (p ∷ ps) h =
    let (a, b) = and_parts _ _ h in
    let (a1, a2) = and_parts _ _ a in both _ _ a2 (labels-chars ps b)
  where
    both : (x y : Bool) → x ≡ true → y ≡ true → (x && y) ≡ true
    both x y a b = ground arith

weaken-dotted : (text : Bytes) → all dotted text ≡ true → all name_char text ≡ true
weaken-dotted [] h = refl
weaken-dotted (c ∷ text) h = ground (arith, weaken-dotted text)

base-chars : (name : Bytes) → all dotted (base_of name) ≡ true → all name_char name ≡ true
unfolding after_prefix
base-chars [] h = refl
base-chars (c ∷ []) h = one (b'*' == c) h
  where
    one :
        (t : Bool)
        → all dotted (rest_or (c ∷ []) (if t then none else none)) ≡ true
        → all name_char (c ∷ []) ≡ true
    one true k = weaken-dotted (c ∷ []) k
    one false k = weaken-dotted (c ∷ []) k
base-chars (c ∷ d ∷ rest) h = two (b'*' == c) refl (b'.' == d) refl h
  where
    two :
        (t : Bool)
        → (b'*' == c) ≡ t
        → (u : Bool) → (b'.' == d) ≡ u
        → all dotted (rest_or (c ∷ d ∷ rest) (if t then (if u then some rest else none) else none))
          ≡ true
        → all name_char (c ∷ d ∷ rest) ≡ true
    two true e true f k = let r = weaken-dotted rest k in ground arith
    two true e false f k = weaken-dotted (c ∷ d ∷ rest) k
    two false e u f k = weaken-dotted (c ∷ d ∷ rest) k

lower-fixed : (text : Bytes) → all name_char text ≡ true → lower text ≡ text
lower-fixed [] h = refl
lower-fixed (c ∷ text) h =
    let (a, b) = and_parts _ _ h in ap₂ ◌∷◌ (ground arith) (lower-fixed text b)

trim_left-fixed : (text : Bytes) → all name_char text ≡ true → trim_left is_blank_byte text ≡ text
unfolding trim_left
trim_left-fixed [] h = refl
trim_left-fixed (c ∷ text) h = ground arith

trim_right-fixed : (text : Bytes) → all name_char text ≡ true → trim_right is_blank_byte text ≡ text
unfolding trim_right
trim_right-fixed [] h = refl
trim_right-fixed (c ∷ text) h =
    let (a, b) = and_parts _ _ h in
    ap (keep_right is_blank_byte c) (trim_right-fixed text b) ∙ kept text
  where
    kept : (text : Bytes) → keep_right is_blank_byte c text ≡ c ∷ text
    kept [] = ground arith
    kept (d ∷ text) = refl

length-trim_left : (p : ℕ → Bool) (text : List ℕ) → length (trim_left p text) ≤ length text
unfolding trim_left
length-trim_left p [] = omega arith
length-trim_left p (c ∷ text) = ground (arith, length-trim_left p text)

length-keep_right :
    (p : ℕ → Bool) (c : ℕ) (text : List ℕ) → length (keep_right p c text) ≤ suc (length text)
length-keep_right p c [] = ground arith
length-keep_right p c (d ∷ text) = omega arith

length-trim_right : (p : ℕ → Bool) (text : List ℕ) → length (trim_right p text) ≤ length text
unfolding trim_right
length-trim_right p [] = omega arith
length-trim_right p (c ∷ text) =
    omega (arith, length-keep_right p c (trim_right p text), length-trim_right p text)

length-lower : (text : Bytes) → length (lower text) ≡ length text
length-lower [] = refl
length-lower (c ∷ text) = ap suc (length-lower text)

-- What `dns` has tested of the name that it returns.
pub dns-eq-some :
    (value name : Bytes) → dns value ≡ some name → (dns_ok name ≡ true) × (length name ≤ 253)
unfolding dns
dns-eq-some value name h = taken (ltb 253 (length value)) refl (dns_ok folded) refl h
  where
    folded : Bytes
    folded = lower (trim_ascii value)

    short : ltb 253 (length value) ≡ false → length folded ≤ 253
    short t = omega (
      arith,
      ltb-false 253 (length value) t,
      length-lower (trim_ascii value),
      length-trim_right is_blank_byte (trim_left is_blank_byte value),
      length-trim_left is_blank_byte value,
    )

    taken :
        (t : Bool)
        → ltb 253 (length value) ≡ t
        → (u : Bool) → dns_ok folded ≡ u
        → (if t then none else if u then some folded else none) ≡ some name
        → (dns_ok name ≡ true) × (length name ≤ 253)
    taken true t u e k = cc
    taken false t false e k = cc
    taken false t true e k =
        let same : folded ≡ name = cc in
        (
          subst (λ (x : Bytes). dns_ok x ≡ true) same e,
          subst (λ (x : Bytes). length x ≤ 253) same (short t),
        )

pub dns_ok-chars : (name : Bytes) → dns_ok name ≡ true → all name_char name ≡ true
unfolding dns_ok
dns_ok-chars name h =
    let (a, b) = and_parts _ _ h in
    base-chars name (split-chars (base_of name) (labels-chars (split b'.' (base_of name)) b))

chars-ascii : (text : Bytes) → all name_char text ≡ true → is_ascii text ≡ true
chars-ascii [] h = refl
chars-ascii (c ∷ text) h = ground (arith, chars-ascii text)

pub dns_ok-ascii : (name : Bytes) → dns_ok name ≡ true → is_ascii name ≡ true
dns_ok-ascii name h = chars-ascii name (dns_ok-chars name h)

pub folded-fixed : (name : Bytes) → dns_ok name ≡ true → lower (trim_ascii name) ≡ name
folded-fixed name h =
    let chars = dns_ok-chars name h in
    ap lower
      (ap (trim_right is_blank_byte) (trim_left-fixed name chars) ∙ trim_right-fixed name chars)
    ∙ lower-fixed name chars

-- A folded name of at most 253 bytes is given back.
pub dns-fixed : (name : Bytes) → dns_ok name ≡ true → length name ≤ 253 → dns name ≡ some name
unfolding dns
dns-fixed name h n =
    let here = folded-fixed name h in
    let ok' : dns_ok (lower (trim_ascii name)) ≡ true =
      subst (λ (x : Bytes). dns_ok x ≡ true) (sym here) h in
    if-false (ltb 253 (length name)) none _ (ground arith)
    ∙ if-true (dns_ok (lower (trim_ascii name))) (some (lower (trim_ascii name))) none ok'
    ∙ ap some here
