-- ===== src/Profile.antt =====
-- internal/acmeprofile/profile.go: the two fixed environments of the certificate authority and the
-- syntax of their resources, and `ValidInstructions` of internal/acmeorder/model.go.
pub mod Bound
mod Tests
use rootwell.Prelude.{
  ltb→lt, leb→le, lt→ltb, le→leb, ltb-false, leb-false, not_parts, or_parts, and_parts, all-each,
  ==_iff, ℕ, zero, suc, ◌+◌, ◌-◌, ◌*◌, ◌/◌, ◌%◌, ◌^◌, ◌≤◌, ◌<◌, min, max, String, ◌≡◌, refl, sym,
  ap, subst, ◌∙◌, ◌≢◌, ◌↔◌, ◌⊎◌, inl, inr, Bool, true, false, not, ◌&&◌, ◌||◌, Option, none, some,
  List, [], ◌∷◌, ◌++◌, map, arith, ltb, leb, ◌==◌, if◌then◌else◌, Bool-cases, Option-cases, length,
  get_elem?, get_elem?-set_self, set, all, length-append, if-true, if-false, str_eq, eq_iff,
  eq_refl, tests,
}
use rootwell.Prelude.Bytes.{Bytes, bytes_eq, codes, is_digit}
use rootwell.Text.{has_prefix, after_prefix, trim_prefix, split}
use rootwell.Names.{canonical_names, wildcard, base_of}
use rootwell.Dns.{order_time}
use rootwell.Clock.Stamp.{Stamp}
use rootwell.Image.{Txt}

-- `Profile`; `unknown` stands for the zero value and every other number.
pub data Profile : Type 0 where
  staging production unknown : Profile

-- `Parse`
unfoldable pub parse_profile : Bytes → Option Profile
parse_profile value =
    if bytes_eq value (codes "letsencrypt-staging")
    then some staging
    else if bytes_eq value (codes "letsencrypt-production")
    then some production
    else none

abbrev pub is_valid : Profile → Bool
is_valid staging = true
is_valid production = true
is_valid unknown = false

abbrev pub provider : Profile → Bytes
provider staging = codes "letsencrypt-staging"
provider production = codes "letsencrypt-production"
provider unknown = []

abbrev pub host : Profile → Bytes
host staging = codes "acme-staging-v02.api.letsencrypt.org"
host production = codes "acme-v02.api.letsencrypt.org"
host unknown = []

abbrev pub origin : Profile → Bytes
origin p = if not (is_valid p) then [] else codes "https://" ++ host p

abbrev pub directory : Profile → Bytes
directory p = if not (is_valid p) then [] else origin p ++ codes "/directory"

abbrev pub namespace : Profile → Bytes
namespace p =
    if not (is_valid p) then [] else codes "rootwell.acme-profile." ++ provider p ++ codes ".v1"

abbrev first_zero : Bytes → Bool
first_zero [] = false
first_zero (c ∷ rest) = c == b'0'

-- `positive`
unfoldable pub positive : Bytes → Bool
positive value =
    not (length value == 0 || ltb 64 (length value) || first_zero value) && all is_digit value

abbrev pub account_prefix : Profile → Bytes
account_prefix p = origin p ++ codes "/acme/acct/"

-- `AccountURL`
unfoldable pub account_url : Profile → Bytes → Bool
account_url p value =
    is_valid p
    && has_prefix (account_prefix p) value
    && positive (trim_prefix (account_prefix p) value)

abbrev pub order_prefix : Profile → Bytes → Bytes
order_prefix p account =
    (origin p ++ codes "/acme/order/") ++ (trim_prefix (account_prefix p) account ++ codes "/")

-- `OrderURL`
unfoldable pub order_url : Profile → Bytes → Bytes → Bool
order_url p value account =
    account_url p account
    && has_prefix (order_prefix p account) value
    && positive (trim_prefix (order_prefix p account) value)

abbrev segment_char : ℕ → Bool
segment_char c =
    leb b'a' c && leb c b'z'
    || leb b'A' c && leb c b'Z'
    || leb b'0' c && leb c b'9'
    || c == b'_'
    || c == b'-'

abbrev segment : Bytes → Bool
segment part = not (ltb (length part) 1 || ltb 128 (length part)) && all segment_char part

-- The loop over the prefixes: the first that fits decides.
under_prefix : Bytes → List Bytes → Bytes → Bool
under_prefix base [] value = false
under_prefix base (path ∷ paths) value = elim (has_prefix (base ++ path) value) [
  | true ↦
      let parts = split b'/' (trim_prefix (base ++ path) value) in
      not (ltb (length parts) 1 || ltb 3 (length parts)) && all segment parts
  | false ↦ under_prefix base paths value
]

abbrev paths_of : Bytes → Option (List Bytes)
paths_of kind =
    if bytes_eq kind (codes "authorization")
    then some (codes "/acme/authz/" ∷ codes "/acme/authz-v3/" ∷ [])
    else if bytes_eq kind (codes "challenge")
    then some (codes "/acme/chall/" ∷ [])
    else none

-- `ResourceURL`
unfoldable pub resource_url : Profile → Bytes → Bytes → Bool
unfolding under_prefix
resource_url p value kind =
    is_valid p
    && leb (length value) 512
    && elim (paths_of kind) [ none ↦ false | some paths ↦ under_prefix (origin p) paths value ]

-- One record of the instructions; `decodes` is the test that a text is the raw base64 form of 32
-- bytes, by encoding/base64.
abbrev instruction_ok : (Bytes → Bool) → Txt → Bytes → Bool
instruction_ok decodes r name =
    bytes_eq r.domain name
    && bytes_eq r.name (codes "_acme-challenge." ++ base_of name)
    && (if r.required then decodes r.value else length r.value == 0)

records_ok : (Bytes → Bool) → List Txt → List Bytes → Bool
records_ok decodes [] [] = true
records_ok decodes (r ∷ rs) (n ∷ ns) = instruction_ok decodes r n && records_ok decodes rs ns
records_ok decodes _ _ = false

-- `ValidInstructions`; where the lengths differ the list of records is refused.
unfoldable pub valid_instructions :
    (Bytes → Bool) → Bytes → Stamp → List Txt → Bytes → List Bytes → Bool
unfolding records_ok
valid_instructions decodes url expires records account names =
    order_url staging url account
    && order_time expires
    && canonical_names names
    && records_ok decodes records names
