-- ===== src/Bundle/Tests.antt =====
-- A bundle of two certificates, one of a certificate twice, and one that nests a PEM text.
use rootwell.Prelude.{ℕ, ◌^◌, ◌≤◌, ◌≡◌, refl, List, [], ◌∷◌, ◌++◌, length, ◌+◌}
use rootwell.Prelude.Bytes.{Bytes, bytes_eq, codes}
use rootwell.Text.{has_prefix, after_prefix, trim_space}
use rootwell.Outcome.{ok, err, refuse_if, duplicate_certificate}
use rootwell.Inspect.{
  inspect, parse, decode, result_from, over_limits, add_lists, add_values, inspection_of, colon_hex,
  critical_of, certificate_start, key_usage_names, extended_usage_name, known_usages, digits,
  entry_or_unknown,
}
use rootwell.Inspect.Bounds.{inspect_bounded, WithinLimits}
use rootwell.Inspect.Toy.{toy, toy_certificate, block_of, cut}
use rootwell.Bundle.{
  Entry, parse_bundle, read, round, next_block, admit, tested, entered, seen_in, inspect_der,
  inspected, together, single, max_certificates,
}
use rootwell.Bundle.Distinct.{parse_bundle_distinct}

abbrev pub block : Bytes → Bytes
block text = certificate_start ++ (text ++ b'|' ∷ [])

abbrev pub entry : Bytes → Entry
entry der = record { inspection = inspection_of toy (toy_certificate der); der = der }

abbrev pub two : Bytes
two = block (codes "A") ++ block (codes "B")

abbrev pub pair : List Entry
pair = entry (codes "A") ∷ entry (codes "B") ∷ []

inspected_one : inspect toy (codes "A") ≡ ok (inspection_of toy (toy_certificate (codes "A")))
unfolding toy inspect parse decode result_from over_limits add_lists add_values colon_hex
    critical_of trim_space has_prefix refuse_if
inspected_one = refl

usages_named :
    key_usage_names (5 + 2 ^ 12)
    ≡ codes "digital-signature" ∷ codes "key-encipherment" ∷ codes "unknown-0x1000" ∷ []
unfolding known_usages digits
usages_named = refl

extended_named :
    (extended_usage_name 1 ≡ codes "server-auth") × (extended_usage_name 40 ≡ codes "unknown-40")
unfolding entry_or_unknown digits
extended_named = (refl, refl)

inspect_bounded_example : WithinLimits (inspection_of toy (toy_certificate (codes "A")))
inspect_bounded_example =
    inspect_bounded toy (codes "A") (inspection_of toy (toy_certificate (codes "A"))) inspected_one

pub parsed_two : parse_bundle toy two ≡ ok pair
unfolding toy inspect parse decode result_from over_limits add_lists add_values colon_hex
    critical_of trim_space has_prefix refuse_if parse_bundle read round next_block admit tested
    entered seen_in inspect_der inspected together single after_prefix block_of cut bytes_eq
parsed_two = refl

refused_twice :
    parse_bundle toy (block (codes "A") ++ block (codes "A")) ≡ err duplicate_certificate
unfolding toy inspect parse decode result_from over_limits add_lists add_values colon_hex
    critical_of trim_space has_prefix refuse_if parse_bundle read round next_block admit tested
    entered seen_in inspect_der inspected together single after_prefix block_of cut bytes_eq
refused_twice = refl

parse_bundle_distinct_example : (◌≡◌ {A = ℕ} 1 1) × (length pair ≤ max_certificates)
parse_bundle_distinct_example =
    parse_bundle_distinct toy two pair 1 1 (entry (codes "B")) (entry (codes "B")) parsed_two refl
      refl refl

-- Two blocks that hold PEM texts of one certificate, apart in a space: two entries of one
-- fingerprint, since the digests are those of the texts.
abbrev inner : Bytes
inner = certificate_start ++ codes "A"

abbrev of_text : Bytes → Entry
of_text text = record { inspection = inspection_of toy (toy_certificate (codes "A")); der = text }

nested_twice :
    parse_bundle toy (block inner ++ block (b' ' ∷ inner))
    ≡ ok (of_text inner ∷ of_text (b' ' ∷ inner) ∷ [])
unfolding toy inspect parse decode result_from over_limits add_lists add_values colon_hex
    critical_of trim_space has_prefix refuse_if parse_bundle read round next_block admit tested
    entered seen_in inspect_der inspected together single after_prefix block_of cut bytes_eq
nested_twice = refl
