-- ===== src/Catalog/Tests.antt =====
-- An import of two certificates, the notes on one, and two records of one certificate.
use rootwell.Prelude.{
  ℕ, zero, suc, ◌/◌, ◌≡◌, refl, ap, subst, ◌∙◌, true, not, ◌||◌, some, List, [], ◌∷◌, ◌++◌, map,
  arith, get_elem?,
}
use rootwell.Prelude.Bytes.{Bytes, bytes_eq, codes}
use rootwell.Text.{trim_left, trim_right, has_prefix, trim_space}
use rootwell.Text.Runes.{runes, is_space, is_control, is_format, is_separator}
use rootwell.Outcome.{Result, ok, refuse_if, ◌>>=◌, label}
use rootwell.Clock.Stamp.{format}
use rootwell.Clock.{day, year_at_least}
use rootwell.Inspect.Toy.{toy, toy-KeepsRaw, toy-bytes}
use rootwell.Inspect.Fingerprints.{is_plain}
use rootwell.Bundle.{Entry}
use rootwell.Bundle.Tests.{entry, two, pair, parsed_two}
use rootwell.Catalog.{
  Record, Catalog, add, extended, batch_of, record_of, any_seen, empty_catalog, fingerprint_of,
  valid_label, valid_location, valid_location_state, associate_location, remove_location, member,
  observe_expiry, Expiry, Days,
}
use rootwell.Catalog.Notes.{IsTidy, distinct_labels, labels_of, without_notes}
use rootwell.Catalog.Refine.{associate, on_set, apply_note_refines}
use rootwell.Catalog.Remove.{remove_location-associate_location}
use rootwell.Catalog.Added.{IsSound, add-IsSound}

abbrev web : Bytes
web = codes "web-1"

abbrev mail : Bytes
mail = codes "mail"

abbrev batch : List Record
batch = record_of [] web (entry (codes "A")) ∷ record_of [] web (entry (codes "B")) ∷ []

abbrev grown : Catalog
grown = record { records = batch; seen = map fingerprint_of batch }

added : add toy empty_catalog two [] web ≡ ok (grown, batch)
unfolding add extended batch_of any_seen member valid_label runes is_space is_control is_format
    is_separator trim_left trim_right bytes_eq refuse_if
added = ap imported parsed_two ∙ extended_pair
  where
    imported : Result (List Entry) → Result (Catalog × List Record)
    imported o =
        refuse_if (not (valid_label []) || not (valid_label web)) label
          (o >>= batch_of [] web >>= extended empty_catalog)

    extended_pair : imported (ok pair) ≡ ok (grown, batch)
    extended_pair = refl

plain : (i : ℕ) (r : Record) → get_elem? batch i ≡ some r → is_plain r.der ≡ true
unfolding trim_space has_prefix
plain zero r g =
    let one : record_of [] web (entry (codes "A")) ≡ r = cc in
    subst (λ (x : Record). is_plain x.der ≡ true) one refl
plain (suc zero) r g =
    let one : record_of [] web (entry (codes "B")) ≡ r = cc in
    subst (λ (x : Record). is_plain x.der ≡ true) one refl
plain (suc (suc i)) r g = cc

empty-IsSound : IsSound empty_catalog
unfolding distinct_labels
empty-IsSound = record { listed = refl; once = refl; few = omega arith }

add-IsSound_example : IsSound grown × (batch ≡ [] ++ batch)
add-IsSound_example =
    add-IsSound toy empty_catalog grown two [] web batch toy-KeepsRaw toy-bytes empty-IsSound added
      plain

abbrev one_label : Record
one_label = record_of [] web (entry (codes "A"))

abbrev two_labels : Record
two_labels = record one_label { locations = web ∷ mail ∷ [] }

associated : associate_location one_label mail ≡ ok two_labels
unfolding associate_location valid_location valid_label valid_location_state member runes is_space
    is_control is_format is_separator trim_left trim_right bytes_eq refuse_if
associated = refl

one_label-IsTidy : IsTidy one_label
unfolding valid_location valid_label valid_location_state distinct_labels member runes is_space
    is_control is_format is_separator trim_left trim_right bytes_eq
one_label-IsTidy = (refl, refl, refl)

apply_note_refines_example :
    IsTidy two_labels
    × (labels_of two_labels ≡ on_set (associate mail) (labels_of one_label))
    × (without_notes two_labels ≡ without_notes one_label)
apply_note_refines_example =
    apply_note_refines (associate mail) one_label two_labels one_label-IsTidy associated

remove_location-associate_location_example : remove_location two_labels mail ≡ ok one_label
remove_location-associate_location_example =
    remove_location-associate_location one_label two_labels mail one_label-IsTidy associated

-- A certificate of which the half day left is a day.
half_day_left :
    observe_expiry (record one_label { not_before = format 0; not_after = format day }) (day / 2)
    ≡ (Expiry.soon, some (Days.ahead 1))
unfolding observe_expiry year_at_least
half_day_left = refl
