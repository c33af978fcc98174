-- ===== src/Inspect/Bounds.antt =====
-- What an inspection returns is bounded, and its fingerprint has the form of one.
use rootwell.Prelude.{
  leb→le, ltb-false, or_parts, and_parts, ℕ, zero, suc, ◌+◌, ◌*◌, ◌/◌, ◌%◌, ◌^◌, ◌≤◌, ◌≡◌, refl, ap,
  subst, inl, inr, Bool, true, false, ◌||◌, List, [], ◌∷◌, map, arith, ltb, leb, ◌==◌, Bool-cases,
  length, get_elem?, all, length-append,
}
use rootwell.Prelude.Bytes.{Bytes, codes}
use rootwell.Outcome.{ok, resource_limit, refuse_if-eq-ok, >>=-eq-ok}
use rootwell.Inspect.{
  value_count, add_lists, over_limits, value_lists, fixed_text, parse, max_metadata_values,
  Inspection, add_values, max_metadata_text, Certificate, Decoders, result_from, inspect,
  inspection_of, digits, hex_char, known_usages, key_usage_table, entry_or_unknown, extended_table,
  extended_usage_name, critical_of,
}

abbrev pub text_size : List Bytes → ℕ
text_size [] = 0
text_size (v ∷ vs) = length v + text_size vs

-- The texts of an inspection that are counted.
abbrev pub metadata_size : Inspection → ℕ
metadata_size i =
    length i.subject
    + length i.issuer
    + length i.serial
    + length i.subject_key_id
    + length i.authority_key_id
    + length i.curve
    + text_size i.unknown_usages
    + text_size i.critical
    + text_size i.unhandled
    + text_size i.dns_names
    + text_size i.emails
    + text_size i.addresses
    + text_size i.uris

add_values-step :
    (v : Bytes) (vs : List Bytes) (total n : ℕ)
    → total ≤ max_metadata_text
    → add_values (v ∷ vs) total ≡ ok n
    → (total + length v ≤ max_metadata_text) × (add_values vs (total + length v) ≡ ok n)
unfolding add_values
add_values-step v vs total n h e = ground arith

-- A list of values that was added is counted, and the sum is within the limit.
add_values-size :
    (vs : List Bytes) (total n : ℕ)
    → total ≤ max_metadata_text
    → add_values vs total ≡ ok n
    → (n ≡ total + text_size vs) × (n ≤ max_metadata_text)
unfolding add_values
add_values-size [] total n h e = ground arith
add_values-size (v ∷ vs) total n h e =
    let (fits, rest) = add_values-step v vs total n h e in
    let (sum, most) = add_values-size vs (total + length v) n fits rest in
    (omega (arith, sum), most)

sizes : List (List Bytes) → ℕ
sizes [] = 0
sizes (vs ∷ lists) = text_size vs + sizes lists

add_lists-size :
    (lists : List (List Bytes)) (total n : ℕ)
    → total ≤ max_metadata_text
    → add_lists lists total ≡ ok n
    → total + sizes lists ≤ max_metadata_text
unfolding add_lists sizes
add_lists-size [] total n h e = omega (arith, h)
add_lists-size (vs ∷ lists) total n h e =
    let (m, first, rest) = >>=-eq-ok (add_values vs total) (add_lists lists) e in
    let (sum, most) = add_values-size vs total m h first in
    omega (arith, sum, add_lists-size lists m n most rest)

-- The number of the values that an inspection lists.
abbrev pub listed_count : Inspection → ℕ
listed_count i =
    length i.dns_names
    + length i.emails
    + length i.addresses
    + length i.uris
    + length i.extended_usages
    + length i.unknown_usages
    + length i.critical
    + length i.unhandled

length-digits : (base n v : ℕ) → length (digits base n v) ≤ n
unfolding digits
length-digits base zero v = omega arith
length-digits base (suc n) v = elim (Bool-cases (ltb v base)) [
  | inl e ↦ rw e (omega arith)
  | inr e ↦ rw e (
      omega (
        arith,
        length-append (digits base n (v / base)) (hex_char (v % base) ∷ []),
        length-digits base n (v / base),
      ))
]

abbrev table_size : List (ℕ × Bytes) → ℕ
table_size [] = 26
table_size ((place, name) ∷ table) = length name + table_size table

known_usages-size :
    (usage : ℕ) (table : List (ℕ × Bytes)) → text_size (known_usages usage table) ≤ table_size table
unfolding known_usages
known_usages-size usage [] = elim (Bool-cases (usage / 2 ^ 9 == 0)) [
  | inl e ↦ rw e (omega arith)
  | inr e ↦
      let rest = usage / 2 ^ 9 * 2 ^ 9 in
      rw e (
        omega
          (arith, length-append (codes "unknown-0x") (digits 16 16 rest), length-digits 16 16 rest))
]
known_usages-size usage ((place, name) ∷ table) = elim (Bool-cases (usage / 2 ^ place % 2 == 0)) [
  | inl e ↦ rw e (omega (arith, known_usages-size usage table))
  | inr e ↦ rw e (omega (arith, known_usages-size usage table))
]

abbrev short : Bytes → Bool
short name = leb (length name) 33

entry_or_unknown-size :
    (usage n : ℕ) (table : List Bytes)
    → all short table ≡ true
    → length (entry_or_unknown usage (get_elem? table n)) ≤ 33
unfolding entry_or_unknown
entry_or_unknown-size usage n [] h =
    omega (arith, length-append (codes "unknown-") (digits 10 20 usage), length-digits 10 20 usage)
entry_or_unknown-size usage zero (name ∷ table) h =
    let (a, b) = and_parts _ _ h in leb→le (length name) 33 a
entry_or_unknown-size usage (suc n) (name ∷ table) h =
    let (a, b) = and_parts _ _ h in entry_or_unknown-size usage n table b

extended-size :
    (usages : List ℕ)
    → (text_size (map extended_usage_name usages) ≤ 33 * length usages)
      × (length (map extended_usage_name usages) ≡ length usages)
extended-size [] = (omega arith, refl)
extended-size (u ∷ usages) =
    let (a, b) = extended-size usages in
    (omega (arith, a, entry_or_unknown-size u u extended_table refl), ap suc b)

length-critical_of : (xs : List (Bool × Bytes)) → length (critical_of xs) ≤ length xs
unfolding critical_of
length-critical_of [] = omega arith
length-critical_of ((true, v) ∷ xs) = omega (arith, length-critical_of xs)
length-critical_of ((false, v) ∷ xs) = omega (arith, length-critical_of xs)

-- What bounds an inspection.
abbrev pub WithinLimits : Inspection → Type 0
WithinLimits i =
    (metadata_size i ≤ max_metadata_text)
    × (listed_count i ≤ max_metadata_values)
    × (text_size i.extended_usages ≤ 33 * max_metadata_values)
    × (text_size i.key_usages ≤ 163)

over_limits-counted :
    (c : Certificate) (d : Decoders) (n : ℕ)
    → over_limits c ≡ false
    → add_lists (value_lists c) (fixed_text c) ≡ ok n
    → WithinLimits (inspection_of d c)
unfolding over_limits sizes
over_limits-counted c d n limits sum =
    let (rest, text) = or_parts _ _ limits in
    let (values, ids) = count_parts _ _ _ _ rest in
    let most = ltb-false max_metadata_text (fixed_text c) text in
    let (names, number) = extended-size c.usages in
    let count = ltb-false max_metadata_values (value_count c) values in
    (
      omega (arith, add_lists-size (value_lists c) (fixed_text c) n most sum),
      omega (arith, count, number, length-critical_of c.extensions),
      omega (arith, count, names),
      known_usages-size c.key_usage key_usage_table,
    )
  where
    count_parts : (a b e f : Bool) → (a || b || e || f) ≡ false → (a ≡ false) × (b ≡ false)
    count_parts a b e f h = (ground arith, ground arith)

-- Whatever a certificate says, the texts of its inspection that are counted sum to at most a mebibyte:
-- subject, issuer, serial number, key ids, curve, unknown usages, critical extensions and the four
-- kinds of names. It lists at most 4,096 values, the extended usages among them. The names of the
-- extended usages sum to at most 33 times 4,096 bytes, and those of the key usages to 163. The
-- fingerprint and the names of the two algorithms are outside these bounds.
pub inspect_bounded :
    (d : Decoders) (input : Bytes) (i : Inspection) → inspect d input ≡ ok i → WithinLimits i
unfolding inspect result_from
inspect_bounded d input i h =
    let (c, parsed, made) = >>=-eq-ok (parse d input) (result_from d) h in
    let (limits, added) = refuse_if-eq-ok (over_limits c) resource_limit _ i made in
    let (n, sum, out) =
      >>=-eq-ok (add_lists (value_lists c) (fixed_text c)) (λ (n : ℕ). ok (inspection_of d c))
        added in
    subst WithinLimits (ok_same out) (over_limits-counted c d n limits sum)
  where
    ok_same : {j : Inspection} → ok j ≡ ok i → j ≡ i
    ok_same e = cc
