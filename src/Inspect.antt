-- ===== src/Inspect.antt =====
-- internal/certinspect/inspect.go: one certificate as PEM or DER text, and its bounded metadata. The
-- decoders of encoding/pem, encoding/asn1, crypto/x509 and crypto/sha256 are an argument.
pub mod Bounds
pub mod Toy
pub mod Fingerprints
use rootwell.Prelude.{
  ltb→lt, leb→le, lt→ltb, le→leb, ltb-false, leb-false, not_parts, or_parts, and_parts, all-each,
  ==_iff, ℕ, zero, suc, ◌+◌, ◌-◌, ◌*◌, ◌/◌, ◌%◌, ◌^◌, ◌≤◌, ◌<◌, min, max, String, ◌≡◌, refl, sym,
  ap, subst, ◌∙◌, ◌≢◌, ◌↔◌, ◌⊎◌, inl, inr, Bool, true, false, not, ◌&&◌, ◌||◌, Option, none, some,
  List, [], ◌∷◌, ◌++◌, map, arith, ltb, leb, ◌==◌, if◌then◌else◌, Bool-cases, Option-cases, length,
  get_elem?, get_elem?-set_self, set, all, length-append, if-true, if-false, str_eq, eq_iff,
  eq_refl, tests,
}
use rootwell.Prelude.Bytes.{Bytes, codes, bytes_eq}
use rootwell.Text.{has_prefix, trim_space}
use rootwell.Clock.{Instant}
use rootwell.Outcome.{
  Result, err, err, refuse_if, ok, refuse_if, ◌>>=◌, empty_input, invalid_certificate, empty_input,
  resource_limit, resource_limit, unsupported_format, trailing_data, too_large,
}

-- `pem.Block`; `headed` says whether it has headers.
pub record Block : Type 0 where
  pub kind : Bytes
  pub headed : Bool
  pub contents : Bytes

-- `asn1.RawValue`, as far as it is read.
pub record Element : Type 0 where
  pub class : ℕ
  pub tag : ℕ
  pub compound : Bool

-- `x509.Certificate`, as far as it is read: texts as they are printed, `key_usage` the bits of
-- `x509.KeyUsage`, `usages` the numbers of the known extended usages, `serial_size` the bytes of the serial number, and an extension with its mark of
-- being critical.
pub record Certificate : Type 0 where
  pub raw : Bytes
  pub subject : Bytes
  pub issuer : Bytes
  pub not_before : Instant
  pub not_after : Instant
  pub serial_size : ℕ
  pub serial : Bytes
  pub subject_key_id : Bytes
  pub authority_key_id : Bytes
  pub key_algorithm : Bytes
  pub signature_algorithm : Bytes
  pub curve : Bytes
  pub key_usage : ℕ
  pub usages : List ℕ
  pub unknown_usages : List Bytes
  pub extensions : List (Bool × Bytes)
  pub unhandled : List Bytes
  pub dns_names : List Bytes
  pub emails : List Bytes
  pub addresses : List Bytes
  pub uris : List Bytes

pub record Decoders : Type 0 where
  pub pem_decode : Bytes → Option (Block × Bytes)
  pub element : Bytes → Option (Element × Bytes)
  pub certificate : Bytes → Option Certificate
  pub sha256 : Bytes → Bytes

-- `Result`, without the encoding, the key's bits and the basic constraints, which are no texts.
pub record Inspection : Type 0 where
  pub subject : Bytes
  pub issuer : Bytes
  pub not_before : Instant
  pub not_after : Instant
  pub fingerprint : Bytes
  pub serial : Bytes
  pub subject_key_id : Bytes
  pub authority_key_id : Bytes
  pub key_algorithm : Bytes
  pub signature_algorithm : Bytes
  pub curve : Bytes
  pub key_usages : List Bytes
  pub extended_usages : List Bytes
  pub unknown_usages : List Bytes
  pub critical : List Bytes
  pub unhandled : List Bytes
  pub dns_names : List Bytes
  pub emails : List Bytes
  pub addresses : List Bytes
  pub uris : List Bytes

abbrev pub max_input_bytes : ℕ
max_input_bytes = 16 * 2 ^ 20

abbrev pub max_metadata_text : ℕ
max_metadata_text = 2 ^ 20

abbrev pub max_metadata_values : ℕ
max_metadata_values = 4096

abbrev pub hex_char : ℕ → ℕ
hex_char n = if ltb n 10 then n + 48 else n + 55

-- `colonHex`
unfoldable pub colon_hex : List ℕ → Bytes
colon_hex [] = []
colon_hex (b ∷ []) = hex_char (b / 16) ∷ hex_char (b % 16) ∷ []
colon_hex (b ∷ c ∷ rest) = hex_char (b / 16) ∷ hex_char (b % 16) ∷ b':' ∷ colon_hex (c ∷ rest)

-- `fmt` on a number in base 10 or 16, of `n` digits at most.
unfoldable pub digits : ℕ → ℕ → ℕ → Bytes
digits base zero v = []
digits base (suc n) v =
    let front = digits base n (v / base) in
    if ltb v base then hex_char v ∷ [] else front ++ hex_char (v % base) ∷ []

-- The table of `keyUsageNames`, by the place of each bit.
abbrev pub key_usage_table : List (ℕ × Bytes)
key_usage_table =
    (0, codes "digital-signature")
    ∷ (1, codes "content-commitment")
    ∷ (2, codes "key-encipherment")
    ∷ (3, codes "data-encipherment")
    ∷ (4, codes "key-agreement")
    ∷ (5, codes "certificate-signing")
    ∷ (6, codes "crl-signing")
    ∷ (7, codes "encipher-only")
    ∷ (8, codes "decipher-only")
    ∷ []

-- The loop over the table, and the bits that it does not know; a usage has 63 bits.
unfoldable pub known_usages : ℕ → List (ℕ × Bytes) → List Bytes
known_usages usage [] =
    if usage / 2 ^ 9 == 0
    then []
    else (codes "unknown-0x" ++ digits 16 16 (usage / 2 ^ 9 * 2 ^ 9)) ∷ []
known_usages usage ((place, name) ∷ table) =
    let rest = known_usages usage table in if usage / 2 ^ place % 2 == 0 then rest else name ∷ rest

-- `keyUsageNames`
abbrev pub key_usage_names : ℕ → List Bytes
key_usage_names usage = known_usages usage key_usage_table

abbrev pub extended_table : List Bytes
extended_table =
    codes "any"
    ∷ codes "server-auth"
    ∷ codes "client-auth"
    ∷ codes "code-signing"
    ∷ codes "email-protection"
    ∷ codes "ipsec-end-system"
    ∷ codes "ipsec-tunnel"
    ∷ codes "ipsec-user"
    ∷ codes "time-stamping"
    ∷ codes "ocsp-signing"
    ∷ codes "microsoft-server-gated-crypto"
    ∷ codes "netscape-server-gated-crypto"
    ∷ codes "microsoft-commercial-code-signing"
    ∷ codes "microsoft-kernel-code-signing"
    ∷ []

unfoldable pub entry_or_unknown : ℕ → Option Bytes → Bytes
entry_or_unknown usage (some name) = name
entry_or_unknown usage none = codes "unknown-" ++ digits 10 20 usage

-- `extendedKeyUsageName`; the constants of `x509.ExtKeyUsage` count from 0 in the table's order.
abbrev pub extended_usage_name : ℕ → Bytes
extended_usage_name usage = entry_or_unknown usage (get_elem? extended_table usage)

abbrev pub pem_start : Bytes
pem_start = codes "-----BEGIN "

abbrev pub certificate_start : Bytes
certificate_start = codes "-----BEGIN CERTIFICATE-----"

abbrev pub certificate_kind : Bytes
certificate_kind = codes "CERTIFICATE"

-- `decode`
unfoldable pub decode : Decoders → Bytes → Result Bytes
decode d input =
    let trimmed = trim_space input in
    if length trimmed == 0
    then err empty_input
    else if not (has_prefix pem_start trimmed)
    then ok input
    else if not (has_prefix certificate_start trimmed)
    then err unsupported_format
    else elim (d.pem_decode trimmed) [
      | none ↦ err invalid_certificate
      | some (block, rest) ↦
          if not (bytes_eq block.kind certificate_kind) || block.headed
          then err invalid_certificate
          else if not (length (trim_space rest) == 0)
          then err trailing_data
          else ok block.contents
    ]

read_certificate : Option Certificate → Result Certificate
read_certificate none = err invalid_certificate
read_certificate (some c) = ok c

-- The tests on the element that the text must be alone, then the certificate.
of_element : Option (Element × Bytes) → Option Certificate → Result Certificate
unfolding read_certificate
of_element none parsed = err invalid_certificate
of_element (some (object, rest)) parsed =
    refuse_if (not (object.class == 0) || not (object.tag == 16) || not object.compound)
      invalid_certificate
      (refuse_if (not (length rest == 0)) trailing_data (read_certificate parsed))

parse_der : Decoders → Bytes → Result Certificate
unfolding of_element
parse_der d der = of_element (d.element der) (d.certificate der)

-- `Parse`
unfoldable pub parse : Decoders → Bytes → Result Certificate
unfolding parse_der
parse d input = refuse_if (length input == 0) empty_input (
    refuse_if (ltb max_input_bytes (length input)) too_large
      (decode d input >>= (λ (der : Bytes). parse_der d der)))

-- `appendMetadata` over one list of values, from the size so far.
unfoldable pub add_values : List Bytes → ℕ → Result ℕ
add_values [] total = ok total
add_values (v ∷ vs) total = elim (ltb (max_metadata_text - total) (length v)) [
  | true ↦ err resource_limit
  | false ↦ add_values vs (total + length v)
]

-- The extensions that are critical.
unfoldable pub critical_of : List (Bool × Bytes) → List Bytes
critical_of [] = []
critical_of ((mark, v) ∷ rest) =
    let others = critical_of rest in if mark then v ∷ others else others

abbrev value_count : Certificate → ℕ
value_count c =
    length c.dns_names
    + length c.emails
    + length c.addresses
    + length c.uris
    + length c.usages
    + length c.unknown_usages
    + length c.extensions
    + length c.unhandled

-- The texts that come once.
abbrev fixed_text : Certificate → ℕ
fixed_text c =
    length c.subject
    + length c.issuer
    + length c.serial
    + length (colon_hex c.subject_key_id)
    + length (colon_hex c.authority_key_id)
    + length c.curve

abbrev pub inspection_of : Decoders → Certificate → Inspection
inspection_of d c = record {
  subject = c.subject;
  issuer = c.issuer;
  not_before = c.not_before;
  not_after = c.not_after;
  fingerprint = colon_hex (d.sha256 c.raw);
  serial = c.serial;
  subject_key_id = colon_hex c.subject_key_id;
  authority_key_id = colon_hex c.authority_key_id;
  key_algorithm = c.key_algorithm;
  signature_algorithm = c.signature_algorithm;
  curve = c.curve;
  key_usages = key_usage_names c.key_usage;
  extended_usages = map extended_usage_name c.usages;
  unknown_usages = c.unknown_usages;
  critical = critical_of c.extensions;
  unhandled = c.unhandled;
  dns_names = c.dns_names;
  emails = c.emails;
  addresses = c.addresses;
  uris = c.uris;
}

-- The loops over the lists of values, in the order in which they are counted.
unfoldable pub add_lists : List (List Bytes) → ℕ → Result ℕ
add_lists [] total = ok total
add_lists (vs ∷ lists) total = add_values vs total >>= add_lists lists

abbrev value_lists : Certificate → List (List Bytes)
value_lists c =
    c.unknown_usages
    ∷ critical_of c.extensions
    ∷ c.unhandled
    ∷ c.dns_names
    ∷ c.emails
    ∷ c.addresses
    ∷ c.uris
    ∷ []

-- The four limits that are tested before the values are counted.
unfoldable pub over_limits : Certificate → Bool
over_limits c =
    ltb max_metadata_values (value_count c)
    || ltb (max_metadata_text / 2) c.serial_size
    || ltb (max_metadata_text / 3) (length c.subject_key_id)
    || ltb (max_metadata_text / 3) (length c.authority_key_id)
    || ltb max_metadata_text (fixed_text c)

-- `resultFromCertificate`
unfoldable pub result_from : Decoders → Certificate → Result Inspection
result_from d c =
    refuse_if (over_limits c) resource_limit
      (add_lists (value_lists c) (fixed_text c) >>= (λ (n : ℕ). ok (inspection_of d c)))

-- `Inspect`
unfoldable pub inspect : Decoders → Bytes → Result Inspection
inspect d input = parse d input >>= (λ (c : Certificate). result_from d c)
