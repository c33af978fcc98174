-- ===== src/Bundle.antt =====
-- internal/publicbundle/bundle.go: one certificate, or a strict bundle of PEM certificates.
pub mod Rounds
pub mod Tests
pub mod Distinct
use rootwell.Prelude.{
  ltb→lt, leb→le, lt→ltb, le→leb, ltb-false, leb-false, not_parts, or_parts, and_parts, all-each,
  ==_iff, ℕ, zero, suc, ◌+◌, ◌-◌, ◌*◌, ◌/◌, ◌%◌, ◌^◌, ◌≤◌, ◌<◌, min, max, String, ◌≡◌, refl, sym,
  ap, subst, ◌∙◌, ◌≢◌, ◌↔◌, ◌⊎◌, inl, inr, Bool, true, false, not, ◌&&◌, ◌||◌, Option, none, some,
  List, [], ◌∷◌, ◌++◌, map, arith, ltb, leb, ◌==◌, if◌then◌else◌, Bool-cases, Option-cases, length,
  get_elem?, get_elem?-set_self, set, all, length-append, if-true, if-false, str_eq, eq_iff,
  eq_refl, tests,
}
use rootwell.Prelude.Bytes.{Bytes, bytes_eq}
use rootwell.Text.{has_prefix, trim_space}
use rootwell.Outcome
use rootwell.Outcome.{
  Result, refuse_if, ok, ok, refuse_if, err, err, metadata_limit, unexpected_content,
  metadata_limit, too_many_certificates, too_large, invalid_certificate, duplicate_certificate,
  empty_input, ◌>>=◌, Error,
}
use rootwell.Inspect.{
  Decoders, Inspection, Block, inspect, certificate_start, max_metadata_text, max_input_bytes,
  certificate_kind, pem_start,
}

-- `Entry`
pub record Entry : Type 0 where
  pub inspection : Inspection
  pub der : Bytes

-- `limits.MaxCertificatesPerBundle`
abbrev pub max_certificates : ℕ
max_certificates = 64

refusal_of : Error → Error
refusal_of Outcome.resource_limit = metadata_limit
refusal_of _ = invalid_certificate

inspected : Bytes → Result Inspection → Result Entry
unfolding refusal_of
inspected input (ok i) = ok (record { inspection = i; der = input })
inspected input (err e) = err (refusal_of e)

-- `inspectDER`
unfoldable pub inspect_der : Decoders → Bytes → Result Entry
unfolding inspected
inspect_der d input = inspected input (inspect d input)

pub seen_in : Bytes → List Bytes → Bool
seen_in digest [] = false
seen_in digest (s ∷ seen) = bytes_eq s digest || seen_in digest seen

-- The first block of the remaining text, and the text after it.
next_block : Decoders → Bytes → Result (Bytes × Bytes)
next_block d remaining =
    if not (has_prefix certificate_start remaining)
    then err unexpected_content
    else elim (d.pem_decode remaining) [
      | none ↦ err unexpected_content
      | some (block, rest) ↦
          if not (bytes_eq block.kind certificate_kind) || block.headed
          then err unexpected_content
          else ok (block.contents, rest)
    ]

-- The tests on an entry, with the text of the entries before it and their digests.
admit : Decoders → Entry → ℕ → List Bytes → Result ℕ
admit d e total seen =
    let total' = total + (length e.inspection.subject + length e.inspection.issuer) in
    refuse_if (ltb max_metadata_text total') metadata_limit
      (refuse_if (seen_in (d.sha256 e.der) seen) duplicate_certificate (ok total'))

-- A round of the loop: the entry, the text that remains, and the size of the names so far.
tested : Decoders → ℕ → List Bytes → Bytes → Entry → Result (Entry × Bytes × ℕ)
tested d total seen rest entry =
    admit d entry total seen >>= (λ (n : ℕ). ok (entry, trim_space rest, n))

entered : Decoders → ℕ → List Bytes → Bytes × Bytes → Result (Entry × Bytes × ℕ)
entered d total seen (contents, rest) = inspect_der d contents >>= tested d total seen rest

unfoldable pub round : Decoders → Bytes → ℕ → List Bytes → Result (Entry × Bytes × ℕ)
unfolding next_block admit tested entered
round d text total seen = next_block d text >>= entered d total seen

together : Entry → List Entry → Result (List Entry)
together entry entries = ok (entry ∷ entries)

-- The loop over the blocks; `left` is how many more entries there may be, so that the limit on
-- their number ends the loop.
unfoldable pub read : Decoders → ℕ → Bytes → ℕ → List Bytes → Result (List Entry)
unfolding together
read d left [] total seen = ok []
read d zero (c ∷ text) total seen = err too_many_certificates
read d (suc left) (c ∷ text) total seen =
    round d (c ∷ text) total seen >>= (λ (r : Entry × Bytes × ℕ).
      read d left (r.1) (r.2) (d.sha256 r.0.der ∷ seen) >>= together (r.0))

single : Entry → Result (List Entry)
single e = ok (e ∷ [])

-- `Parse`
unfoldable pub parse_bundle : Decoders → Bytes → Result (List Entry)
unfolding single
parse_bundle d input =
    let remaining = trim_space input in
    refuse_if (ltb max_input_bytes (length input)) too_large (
      refuse_if (length remaining == 0) empty_input (
        if not (has_prefix pem_start remaining)
        then inspect_der d input >>= single
        else read d max_certificates remaining 0 []))
