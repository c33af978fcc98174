-- ===== src/Inspect/Fingerprints.antt =====
-- The fingerprint of a certificate that is given as DER is that of the bytes given.
use rootwell.Prelude.{
  ltb→lt, and_parts, ℕ, ◌/◌, ◌%◌, ◌<◌, ◌≡◌, refl, sym, ap, ◌∙◌, Bool, true, false, not, ◌||◌,
  Option, none, some, List, [], ◌∷◌, arith, ltb, ◌==◌, if◌then◌else◌, length, all,
}
use rootwell.Prelude.Bytes.{Bytes, bytes_eq}
use mathlib.Core.Path.{ap₂}
use rootwell.Text.{has_prefix, trim_space}
use rootwell.Outcome.{
  Result, ok, err, refuse_if, refuse_if-eq-ok, >>=-eq-ok, resource_limit, empty_input, too_large,
  invalid_certificate, trailing_data, unsupported_format,
}
use rootwell.Inspect.{
  Decoders, Certificate, Inspection, decode, parse, parse_der, inspect, result_from, inspection_of,
  colon_hex, pem_start, over_limits, add_lists, value_lists, fixed_text, hex_char, max_input_bytes,
  certificate_start, unsupported_format, invalid_certificate, certificate_kind, trailing_data,
  empty_input, of_element, read_certificate, Element,
}

-- A list of bytes.
abbrev pub is_bytes : List ℕ → Bool
is_bytes = all (λ (b : ℕ). ltb b 256)

hex_char-injective : (a b : ℕ) → a < 16 → b < 16 → hex_char a ≡ hex_char b → a ≡ b
hex_char-injective a b ha hb e = ground arith

byte-injective :
    (a b : ℕ)
    → a < 256
    → b < 256
    → hex_char (a / 16) ≡ hex_char (b / 16)
    → hex_char (a % 16) ≡ hex_char (b % 16)
    → a ≡ b
byte-injective a b ha hb h l =
    let high = hex_char-injective (a / 16) (b / 16) (omega arith) (omega arith) h in
    let low = hex_char-injective (a % 16) (b % 16) (omega arith) (omega arith) l in
    omega (arith, high, low)

cons_parts {ℓ} : {A : Type ℓ} {x y : A} {xs ys : List A} → x ∷ xs ≡ y ∷ ys → (x ≡ y) × (xs ≡ ys)
cons_parts e = (cc, cc)

-- Different digests have different texts.
pub colon_hex-injective :
    (xs ys : List ℕ)
    → is_bytes xs ≡ true
    → is_bytes ys ≡ true
    → colon_hex xs ≡ colon_hex ys
    → xs ≡ ys
unfolding colon_hex
colon_hex-injective [] [] hx hy e = refl
colon_hex-injective [] (b ∷ []) hx hy e = cc
colon_hex-injective [] (b ∷ c ∷ ys) hx hy e = cc
colon_hex-injective (a ∷ []) [] hx hy e = cc
colon_hex-injective (a ∷ d ∷ xs) [] hx hy e = cc
colon_hex-injective (a ∷ []) (b ∷ []) hx hy e =
    let (a1, r) = cons_parts e in
    let (a2, r2) = cons_parts r in
    ap (λ (x : ℕ). x ∷ []) (byte-injective a b (ground arith) (ground arith) a1 a2)
colon_hex-injective (a ∷ []) (b ∷ c ∷ ys) hx hy e = cc
colon_hex-injective (a ∷ d ∷ xs) (b ∷ []) hx hy e = cc
colon_hex-injective (a ∷ d ∷ xs) (b ∷ c ∷ ys) hx hy e =
    let (a1, r) = cons_parts e in
    let (a2, r2) = cons_parts r in
    let (a3, r3) = cons_parts r2 in
    let (h1, h2) = and_parts _ _ hx in
    let (k1, k2) = and_parts _ _ hy in
    ap₂ ◌∷◌ (byte-injective a b (ltb→lt a 256 h1) (ltb→lt b 256 k1) a1 a2)
      (colon_hex-injective (d ∷ xs) (c ∷ ys) h2 k2 r3)

-- A text that is not PEM.
abbrev pub is_plain : Bytes → Bool
is_plain input = not (has_prefix pem_start (trim_space input))

decode-plain :
    (d : Decoders) (input der : Bytes)
    → is_plain input ≡ true
    → decode d input ≡ ok der
    → input ≡ der
unfolding decode
decode-plain d input der p h =
    way (length (trim_space input) == 0) (has_prefix pem_start (trim_space input)) p h
  where
    other : Result Bytes
    other =
        if not (has_prefix certificate_start (trim_space input))
        then err unsupported_format
        else elim (d.pem_decode (trim_space input)) [
          | none ↦ err invalid_certificate
          | some (block, rest) ↦
              if not (bytes_eq block.kind certificate_kind) || block.headed
              then err invalid_certificate
              else if not (length (trim_space rest) == 0)
              then err trailing_data
              else ok block.contents
        ]

    way :
        (e p : Bool)
        → not p ≡ true
        → (if e then err empty_input else if not p then ok input else other) ≡ ok der
        → input ≡ der
    way true p n h = cc
    way false true n h = cc
    way false false n h = cc

of_element-certificate :
    (o : Option (Element × Bytes)) (parsed : Option Certificate) (c : Certificate)
    → of_element o parsed ≡ ok c
    → parsed ≡ some c
unfolding of_element
of_element-certificate none parsed c h = cc
of_element-certificate (some (object, rest)) parsed c h =
    let (a, h1) =
      refuse_if-eq-ok (not (object.class == 0) || not (object.tag == 16) || not object.compound)
        invalid_certificate
        (refuse_if (not (length rest == 0)) trailing_data (read_certificate parsed)) c h in
    let (b, h2) =
      refuse_if-eq-ok (not (length rest == 0)) trailing_data (read_certificate parsed) c h1 in
    taken parsed h2
  where
    taken : (q : Option Certificate) → read_certificate q ≡ ok c → q ≡ some c
    taken none k = cc
    taken (some x) k = cc

-- What `x509.ParseCertificate` documents of `Raw`: the certificate's own bytes.
abbrev pub KeepsRaw : Decoders → Type 0
KeepsRaw d = (der : Bytes) (c : Certificate) → d.certificate der ≡ some c → c.raw ≡ der

pub inspect-fingerprint :
    (d : Decoders) (input : Bytes) (i : Inspection)
    → KeepsRaw d
    → is_plain input ≡ true
    → inspect d input ≡ ok i
    → i.fingerprint ≡ colon_hex (d.sha256 input)
unfolding inspect parse result_from parse_der read_certificate
inspect-fingerprint d input i raw plain h =
    let (c, parsed, made) = >>=-eq-ok (parse d input) (result_from d) h in
    let (limits, added) = refuse_if-eq-ok (over_limits c) resource_limit _ i made in
    let (n, sum, out) =
      >>=-eq-ok (add_lists (value_lists c) (fixed_text c)) (λ (n : ℕ). ok (inspection_of d c))
        added in
    let (a, p1) = refuse_if-eq-ok (length input == 0) empty_input _ c parsed in
    let (b, p2) = refuse_if-eq-ok (ltb max_input_bytes (length input)) too_large _ c p1 in
    let (der, dec, p3) = >>=-eq-ok (decode d input) (parse_der d) p2 in
    let same = decode-plain d input der plain dec in
    let kept = raw der c (of_element-certificate (d.element der) (d.certificate der) c p3) in
    ap (λ (j : Inspection). j.fingerprint) (sym (ok_same out))
    ∙ ap (λ (x : Bytes). colon_hex (d.sha256 x)) (kept ∙ sym same)
  where
    ok_same : {q : Inspection} → ok q ≡ ok i → q ≡ i
    ok_same e = cc
