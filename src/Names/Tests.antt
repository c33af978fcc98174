-- ===== src/Names/Tests.antt =====
-- An order for two names, and lists that are not canonical.
use rootwell.Prelude.{◌≡◌, refl, true, none, some, List, [], ◌∷◌}
use rootwell.Prelude.Bytes.{Bytes, bytes_eq, codes}
use rootwell.Text.{trim_left, trim_right, split, after_prefix, contains, has_suffix}
use rootwell.Catalog.{member}
use rootwell.Names.{
  dns, dns_ok, is_address, label_ok, unique_names, normalize_names, accepted, check, published,
  public_name, bytes_le, insert_name, sort_names, order_names, few_sorted, canonical_names,
}
use rootwell.Names.Canonical.{
  canonical_form, canonical_names-canonical_form, order_names-canonical_names,
}

abbrev input : List Bytes
input = codes " WWW.Example.org" ∷ codes "*.a.org " ∷ []

abbrev sorted : List Bytes
sorted = codes "*.a.org" ∷ codes "www.example.org" ∷ []

ordered : order_names input ≡ some sorted
unfolding order_names few_sorted check published normalize_names accepted unique_names member dns
    dns_ok is_address label_ok public_name trim_left trim_right split after_prefix contains
    has_suffix bytes_eq sort_names insert_name bytes_le
ordered = refl

-- A name of numbers is an address, and a name without a dot is refused.
address : order_names (codes "10.0.0.1" ∷ []) ≡ none
unfolding order_names few_sorted check published normalize_names accepted unique_names member dns
    dns_ok is_address label_ok trim_left trim_right split after_prefix bytes_eq
address = refl

order_names-canonical_names_example :
    (canonical_names sorted ≡ true) × (order_names sorted ≡ some sorted)
order_names-canonical_names_example = order_names-canonical_names input sorted ordered

canonical_names-canonical_form_example : canonical_names sorted ≡ canonical_form sorted
canonical_names-canonical_form_example = canonical_names-canonical_form sorted
