-- ===== src/Catalog.antt =====
-- internal/publicinventory/catalog.go and expiry.go: the draft inventory of public certificates,
-- with the operator's notes on them. A record is a value, so the copies of `cloneRecords` are the
-- records themselves.
pub mod Notes
pub mod Remove
pub mod Rename
pub mod Refine
pub mod Added
mod Tests
use rootwell.Prelude.{
  ltb→lt, leb→le, lt→ltb, le→leb, ltb-false, leb-false, not_parts, or_parts, and_parts, all-each,
  ==_iff, ℕ, zero, suc, ◌+◌, ◌-◌, ◌*◌, ◌/◌, ◌%◌, ◌^◌, ◌≤◌, ◌<◌, min, max, String, ◌≡◌, refl, sym,
  ap, subst, ◌∙◌, ◌≢◌, ◌↔◌, ◌⊎◌, inl, inr, Bool, true, false, not, ◌&&◌, ◌||◌, Option, none, some,
  List, [], ◌∷◌, ◌++◌, map, arith, ltb, leb, ◌==◌, if◌then◌else◌, Bool-cases, Option-cases, length,
  get_elem?, get_elem?-set_self, set, all, length-append, if-true, if-false, str_eq, eq_iff,
  eq_refl, tests,
}
use rootwell.Prelude.Bytes.{Bytes, bytes_eq}
use rootwell.Text.{trim}
use rootwell.Text.Runes.{runes, is_space, is_control, is_format, is_separator}
use rootwell.Clock.{Instant, second, year_at_least}
use rootwell.Clock.Stamp.{Stamp, format}
use rootwell.Outcome.{
  Result, refuse_if, ok, err, refuse_if, err, refuse_if, refuse_if, ok, refuse_if, refuse_if, label,
  location_duplicate, location_missing, label, location_missing, label, label, cert_size, capacity,
  label, location_capacity, location_unchanged, owner_unchanged, ◌>>=◌, duplicate, ◌>>=◌,
}
use rootwell.Inspect.{Decoders}
use rootwell.Bundle.{Entry, parse_bundle}

abbrev pub max_der_bytes : ℕ
max_der_bytes = 64 * 2 ^ 10

abbrev pub max_draft : ℕ
max_draft = 500

abbrev pub max_label : ℕ
max_label = 128

abbrev pub max_locations : ℕ
max_locations = 32

-- `StagingOrigin`
pub record Origin : Type 0 where
  pub test_only : Bool
  pub provider : String
  pub verified_at : Stamp
  pub root_fingerprint : Bytes

-- `Record`
pub record Record : Type 0 where
  pub fingerprint : Bytes
  pub import_generation : ℕ
  pub imported_at : Stamp
  pub der : Bytes
  pub subject : Bytes
  pub issuer : Bytes
  pub dns_names : List Bytes
  pub not_before : Stamp
  pub not_after : Stamp
  pub owner : Bytes
  pub location : Bytes
  pub locations : List Bytes
  pub has_private_key : Bool
  pub key_status : String
  pub bundle_der : List Bytes
  pub issuer_der : List Bytes
  pub staging_origin : Option Origin

-- `Catalog`; `seen` is the map of fingerprints as the list of its keys.
pub record Catalog : Type 0 where
  pub records : List Record
  pub seen : List Bytes

abbrev pub plain : ℕ → Bool
plain r = not (is_control r || is_format r || is_separator r)

abbrev pub plain_label : List ℕ → Bool
plain_label rs = bytes_eq (trim is_space rs) rs && all plain rs

-- `validLabel`
unfoldable pub valid_label : Bytes → Bool
valid_label value =
    leb (length value) max_label && elim (runes value) [ none ↦ false | some rs ↦ plain_label rs ]

abbrev pub is_empty : Bytes → Bool
is_empty text = length text == 0

-- `ValidateLocation`
unfoldable pub valid_location : Bytes → Bool
valid_location location = not (is_empty location) && valid_label location

-- `list[0] == first`
abbrev pub starts_with : List Bytes → Bytes → Bool
starts_with [] first = false
starts_with (l ∷ rest) first = bytes_eq l first

-- `validLocationState`
unfoldable pub valid_location_state : Record → Bool
valid_location_state r =
    length r.locations == 0 && is_empty r.location
    || ltb 0 (length r.locations)
      && starts_with r.locations r.location
      && leb (length r.locations) max_locations

unfoldable pub member : Bytes → List Bytes → Bool
member place [] = false
member place (l ∷ ls) = bytes_eq l place || member place ls

-- `AssociateLocation`
unfoldable pub associate_location : Record → Bytes → Result Record
associate_location r place = refuse_if (not (valid_location place)) label (
    refuse_if (not (valid_location_state r)) label (
      refuse_if (member place r.locations) location_duplicate (
        refuse_if (leb max_locations (length r.locations)) location_capacity (
          ok (record r {
            locations = r.locations ++ place ∷ [];
            location = if is_empty r.location then place else r.location;
          })))))

-- The loop of `RenameLocation`: the last index of the old label, or a refusal at the new one.
unfoldable pub rename_index : Bytes → Bytes → List Bytes → ℕ → Option ℕ → Result (Option ℕ)
rename_index old new [] i index = ok index
rename_index old new (l ∷ ls) i index = elim (bytes_eq l old) [
  | true ↦ rename_index old new ls (i + 1) (some i)
  | false ↦ elim (bytes_eq l new) [
    | true ↦ err location_duplicate
    | false ↦ rename_index old new ls (i + 1) index
  ]
]

-- `list[0]`, where there is one.
abbrev pub first_or_empty : List Bytes → Bytes
first_or_empty [] = []
first_or_empty (l ∷ ls) = l

renamed : Record → Bytes → Option ℕ → Result Record
renamed r new none = err location_missing
renamed r new (some i) =
    let labels = set r.locations i new in
    ok (record r { locations = labels; location = first_or_empty labels })

-- `RenameLocation`
unfoldable pub rename_location : Record → Bytes → Bytes → Result Record
unfolding renamed
rename_location r old new =
    refuse_if (not (valid_location old) || not (valid_location new) || not (valid_location_state r))
      label
      (refuse_if (bytes_eq old new) location_unchanged
        (rename_index old new r.locations 0 none >>= renamed r new))

-- The list without the first label of that text, or none.
pub without_first : Bytes → List Bytes → Option (List Bytes)
without_first place [] = none
without_first place (l ∷ ls) = elim (bytes_eq l place) [
  | true ↦ some ls
  | false ↦ elim (without_first place ls) [ none ↦ none | some rest ↦ some (l ∷ rest) ]
]

removed : Record → Option (List Bytes) → Result Record
removed r none = err location_missing
removed r (some rest) = ok (record r { locations = rest; location = first_or_empty rest })

-- `RemoveLocation`
unfoldable pub remove_location : Record → Bytes → Result Record
unfolding removed
remove_location r place =
    refuse_if (not (valid_location place) || not (valid_location_state r)) label
      (removed r (without_first place r.locations))

-- `UpdateOwner`
unfoldable pub update_owner : Record → Bytes → Result Record
update_owner r holder =
    refuse_if (not (valid_label holder)) label
      (refuse_if (bytes_eq holder r.owner) owner_unchanged (ok (record r { owner = holder })))

-- The record of an entry.
abbrev pub record_of : Bytes → Bytes → Entry → Record
record_of holder place e = record {
  fingerprint = e.inspection.fingerprint;
  import_generation = 0;
  imported_at = Stamp.blank;
  der = e.der;
  subject = e.inspection.subject;
  issuer = e.inspection.issuer;
  dns_names = e.inspection.dns_names;
  not_before = format e.inspection.not_before;
  not_after = format e.inspection.not_after;
  owner = holder;
  location = place;
  locations = if is_empty place then [] else place ∷ [];
  has_private_key = false;
  key_status = "";
  bundle_der = [];
  issuer_der = [];
  staging_origin = none;
}

-- The loop over the entries.
pub batch_of : Bytes → Bytes → List Entry → Result (List Record)
batch_of holder place [] = ok []
batch_of holder place (e ∷ es) = elim (ltb max_der_bytes (length e.der)) [
  | true ↦ err cert_size
  | false ↦ batch_of holder place es >>= (λ (rs : List Record). ok (record_of holder place e ∷ rs))
]

abbrev pub fingerprint_of : Record → Bytes
fingerprint_of r = r.fingerprint

pub any_seen : List Bytes → List Record → Bool
any_seen seen [] = false
any_seen seen (r ∷ rs) = member r.fingerprint seen || any_seen seen rs

-- The catalog with a batch, and the batch.
unfoldable pub extended : Catalog → List Record → Result (Catalog × List Record)
extended c batch = refuse_if (ltb max_draft (length c.records + length batch)) capacity (
    refuse_if (any_seen c.seen batch) duplicate (
      ok (
        record { records = c.records ++ batch; seen = c.seen ++ map fingerprint_of batch },
        batch,
      )))

-- `Catalog.Add`
unfoldable pub add : Decoders → Catalog → Bytes → Bytes → Bytes → Result (Catalog × List Record)
add d c input holder place = refuse_if (not (valid_label holder) || not (valid_label place)) label (
    parse_bundle d input
    >>= (λ (es : List Entry). batch_of holder place es)
    >>= (λ (batch : List Record). extended c batch))

-- The zero value of a catalog.
abbrev pub empty_catalog : Catalog
empty_catalog = record { records = []; seen = [] }

pub data Expiry : Type 0 where
  expired future soon medium later unreadable : Expiry

-- The text of an instant, which `time.Parse` reads and which is printed as it was.
abbrev readable : Stamp → Option ℕ
readable (Stamp.at s) = some s
readable _ = none

-- `DaysLeft`: days to come, or days gone by, the negative ones.
pub data Days : Type 0 where
  ahead : ℕ → Days
  ago : ℕ → Days

-- The quotient by a day, with a positive remainder rounded up.
abbrev days_left : ℕ → ℕ → Days
days_left end now =
    if leb end now
    then ago ((now - end) / 86400)
    else let s = end - now in ahead (s / 86400 + (if s % 86400 == 0 then 0 else 1))

status_at : ℕ → ℕ → Instant → Expiry
status_at start end now =
    let left = end - now / second in
    if leb (end * second) now
    then expired
    else if ltb now (start * second)
    then future
    else if leb left (30 * 86400)
    then soon
    else if leb left (90 * 86400)
    then medium
    else later

-- `ObserveExpiry`
unfoldable pub observe_expiry : Record → Instant → Expiry × Option Days
unfolding status_at
observe_expiry r now = elim (readable r.not_before) [
  | none ↦ (unreadable, none)
  | some start ↦ elim (readable r.not_after) [
    | none ↦ (unreadable, none)
    | some end ↦
        if not (ltb start end) || year_at_least 10000 now
        then (unreadable, none)
        else (status_at start end now, some (days_left end (now / second)))
  ]
]
