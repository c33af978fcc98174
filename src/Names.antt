-- ===== src/Names.antt =====
-- The names of an order: `dns` and `NormalizeDNSNames` of internal/csrworkbench/request.go, `Check`
-- of internal/acmeplan/plan.go, and `Names` and `CanonicalNames` of internal/acmeorder/model.go. The
-- texts are ASCII, as `Check` demands before it looks at a name.
pub mod Fold
pub mod Order
pub mod Unique
pub mod Canonical
mod Tests
use rootwell.Prelude.{
  ltb→lt, leb→le, lt→ltb, le→leb, ltb-false, leb-false, not_parts, or_parts, and_parts, all-each,
  ==_iff, ℕ, zero, suc, ◌+◌, ◌-◌, ◌*◌, ◌/◌, ◌%◌, ◌^◌, ◌≤◌, ◌<◌, min, max, String, ◌≡◌, refl, sym,
  ap, subst, ◌∙◌, ◌≢◌, ◌↔◌, ◌⊎◌, inl, inr, Bool, true, false, not, ◌&&◌, ◌||◌, Option, none, some,
  List, [], ◌∷◌, ◌++◌, map, arith, ltb, leb, ◌==◌, if◌then◌else◌, Bool-cases, Option-cases, length,
  get_elem?, get_elem?-set_self, set, all, length-append, if-true, if-false, str_eq, eq_iff,
  eq_refl, tests,
}
use rootwell.Prelude.Bytes.{Bytes, bytes_eq, codes, is_digit}
use rootwell.Text.{trim_ascii, trim_prefix, lower, split, contains, has_suffix}
use rootwell.Catalog.{member}

-- `netip.ParseAddr` on a text with no colon: four decimal fields. A text with a colon is refused by
-- the test on labels.
abbrev decimal : Bytes → ℕ → ℕ
decimal [] n = n
decimal (c ∷ cs) n = decimal cs (10 * n + (c - b'0'))

abbrev no_leading_zero : Bytes → Bool
no_leading_zero [] = false
no_leading_zero (c ∷ []) = true
no_leading_zero (c ∷ d ∷ cs) = not (c == b'0')

abbrev octet : Bytes → Bool
octet f = no_leading_zero f && leb (length f) 3 && all is_digit f && leb (decimal f 0) 255

unfoldable pub is_address : Bytes → Bool
is_address text = let fields = split b'.' text in length fields == 4 && all octet fields

-- The characters of a label.
abbrev pub label_char : ℕ → Bool
label_char c = leb b'a' c && leb c b'z' || leb b'0' c && leb c b'9' || c == b'-'

abbrev first_is : ℕ → Bytes → Bool
first_is c [] = false
first_is c (d ∷ text) = d == c

abbrev last_is : ℕ → Bytes → Bool
last_is c [] = false
last_is c (d ∷ []) = d == c
last_is c (d ∷ e ∷ text) = last_is c (e ∷ text)

unfoldable pub label_ok : Bytes → Bool
label_ok label =
    not (length label == 0)
    && leb (length label) 63
    && not (first_is b'-' label)
    && not (last_is b'-' label)
    && all label_char label

abbrev pub wildcard : Bytes
wildcard = codes "*."

abbrev pub base_of : Bytes → Bytes
base_of name = trim_prefix wildcard name

-- The tests of `dns` on the folded text.
unfoldable pub dns_ok : Bytes → Bool
dns_ok value =
    not (length value == 0) && not (is_address value) && all label_ok (split b'.' (base_of value))

-- `dns`
unfoldable pub dns : Bytes → Option Bytes
dns value =
    let folded = lower (trim_ascii value) in
    if ltb 253 (length value) then none else if dns_ok folded then some folded else none

-- The loop of `template` over the names, with the map of those seen.
unfoldable pub unique_names : List Bytes → List Bytes → Option (List Bytes)
unique_names seen [] = some []
unique_names seen (v ∷ vs) = elim (dns v) [
  | none ↦ none
  | some name ↦ elim (member name seen) [
    | true ↦ none
    | false ↦ elim (unique_names (name ∷ seen) vs) [
      | none ↦ none
      | some names ↦ some (name ∷ names)
    ]
  ]
]

-- The default common name is the first name; folded it must be one of the names.
abbrev common_ok : List Bytes → Bool
common_ok [] = false
common_ok (first ∷ rest) =
    leb (length first) 253 && member (lower (trim_ascii first)) (first ∷ rest)

accepted : Option (List Bytes) → Option (List Bytes)
accepted none = none
accepted (some names) = if common_ok names then some names else none

-- `NormalizeDNSNames`
unfoldable pub normalize_names : List Bytes → Option (List Bytes)
unfolding accepted
normalize_names names =
    if ltb 32 (length names) || length names == 0 then none else accepted (unique_names [] names)

abbrev reserved : List Bytes
reserved =
    codes ".local"
    ∷ codes ".localhost"
    ∷ codes ".internal"
    ∷ codes ".invalid"
    ∷ codes ".test"
    ∷ codes ".example"
    ∷ []

-- The tests of `Check` on a name.
unfoldable pub public_name : Bool → Bytes → Bool
public_name by_dns name =
    let base = base_of name in
    contains b'.' base
    && (bytes_eq name base || by_dns)
    && all (λ (suffix : Bytes). not (has_suffix suffix base)) reserved

abbrev is_ascii : Bytes → Bool
is_ascii = all (λ (c : ℕ). leb c 127)

abbrev provider_id : Bytes
provider_id = codes "letsencrypt-staging"

published : Bool → Option (List Bytes) → Option (List Bytes)
published by_dns none = none
published by_dns (some names) = if all (public_name by_dns) names then some names else none

abbrev pub by_dns : Bytes
by_dns = codes "dns-01"

abbrev pub by_http : Bytes
by_http = codes "http-01"

-- `Check`, as the domains of the plan that it returns.
unfoldable pub check : Bytes → Bytes → List Bytes → Option (List Bytes)
unfolding published
check provider challenge domains =
    if not (bytes_eq provider provider_id)
      || not (bytes_eq challenge by_dns || bytes_eq challenge by_http)
      || not (all is_ascii domains)
    then none
    else published (bytes_eq challenge by_dns) (normalize_names domains)

-- The order of Go's strings.
unfoldable pub bytes_le : Bytes → Bytes → Bool
bytes_le [] ys = true
bytes_le (x ∷ xs) [] = false
bytes_le (x ∷ xs) (y ∷ ys) = ltb x y || x == y && bytes_le xs ys

-- `slices.Sort` as insertion.
unfoldable pub insert_name : Bytes → List Bytes → List Bytes
insert_name n [] = n ∷ []
insert_name n (m ∷ ms) = elim (bytes_le n m) [ true ↦ n ∷ m ∷ ms | false ↦ m ∷ insert_name n ms ]

unfoldable pub sort_names : List Bytes → List Bytes
sort_names [] = []
sort_names (n ∷ ns) = insert_name n (sort_names ns)

few_sorted : Option (List Bytes) → Option (List Bytes)
few_sorted none = none
few_sorted (some names) = if ltb 8 (length names) then none else some (sort_names names)

-- `Names`
unfoldable pub order_names : List Bytes → Option (List Bytes)
unfolding few_sorted
order_names input = few_sorted (check provider_id by_dns input)

-- `slices.Equal`
pub names_eq : List Bytes → List Bytes → Bool
names_eq [] [] = true
names_eq (a ∷ as') (b ∷ bs) = bytes_eq a b && names_eq as' bs
names_eq [] (b ∷ bs) = false
names_eq (a ∷ as') [] = false

-- `CanonicalNames`
unfoldable pub canonical_names : List Bytes → Bool
canonical_names names = elim (order_names names) [
  | none ↦ false
  | some normal ↦ names_eq normal names
]
