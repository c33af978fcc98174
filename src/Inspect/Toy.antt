-- ===== src/Inspect/Toy.antt =====
-- Decoders to run the code with: a certificate is any text, a PEM block ends at a bar, and the digest
-- is the text itself.
use rootwell.Prelude.{
  ℕ, ◌%◌, ◌≡◌, refl, ap, true, false, Option, none, some, [], ◌∷◌, map, arith, ◌==◌, if◌then◌else◌,
}
use rootwell.Prelude.Bytes.{Bytes, codes}
use rootwell.Text.{after_prefix}
use rootwell.Inspect.{Decoders, Block, Certificate, certificate_start, certificate_kind}
use rootwell.Inspect.Fingerprints.{KeepsRaw, is_bytes}

unfoldable pub cut : Bytes → Bytes × Bytes
cut [] = ([], [])
cut (c ∷ text) = let (a, b) = cut text in if c == b'|' then ([], text) else (c ∷ a, b)

unfoldable pub block_of : Option Bytes → Option (Block × Bytes)
unfolding cut
block_of none = none
block_of (some text) =
    let (a, b) = cut text in
    some (record { kind = certificate_kind; headed = false; contents = a }, b)

abbrev pub toy_certificate : Bytes → Certificate
toy_certificate der = record {
  raw = der;
  subject = b's' ∷ [];
  issuer = b'i' ∷ [];
  not_before = 0;
  not_after = 100;
  serial_size = 1;
  serial = b'1' ∷ [];
  subject_key_id = [];
  authority_key_id = [];
  key_algorithm = codes "RSA";
  signature_algorithm = codes "SHA256-RSA";
  curve = [];
  key_usage = 5;
  usages = 1 ∷ 40 ∷ [];
  unknown_usages = [];
  extensions = [];
  unhandled = [];
  dns_names = (b'n' ∷ []) ∷ [];
  emails = [];
  addresses = [];
  uris = [];
}

abbrev as_byte : ℕ → ℕ
as_byte c = c % 256

unfoldable pub toy : Decoders
unfolding block_of
toy = record {
  pem_decode = λ (t : Bytes). block_of (after_prefix certificate_start t);
  element = λ (t : Bytes). some (record { class = 0; tag = 16; compound = true }, []);
  certificate = λ (t : Bytes). some (toy_certificate t);
  sha256 = map as_byte;
}

pub toy-KeepsRaw : KeepsRaw toy
unfolding toy
toy-KeepsRaw der c h = ap (λ (x : Certificate). x.raw) (some_same h)
  where
    some_same : some (toy_certificate der) ≡ some c → c ≡ toy_certificate der
    some_same e = cc

pub toy-bytes : (text : Bytes) → is_bytes (toy.sha256 text) ≡ true
unfolding toy
toy-bytes [] = refl
toy-bytes (c ∷ text) = ground (arith, toy-bytes text)
