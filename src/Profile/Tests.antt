-- ===== src/Profile/Tests.antt =====
-- An order of the test environment.
use rootwell.Prelude.{◌≡◌, refl, true, false}
use rootwell.Prelude.Bytes.{Bytes, bytes_eq, codes}
use rootwell.Text.{has_prefix, after_prefix, split}
use rootwell.Profile.{
  staging, production, order_url, account_url, positive, resource_url, under_prefix,
}
use rootwell.Profile.Bound.{order_url_binds}

abbrev account : Bytes
account = codes "https://acme-staging-v02.api.letsencrypt.org/acme/acct/41"

abbrev order : Bytes
order = codes "https://acme-staging-v02.api.letsencrypt.org/acme/order/41/7"

valid_order : order_url staging order account ≡ true
unfolding order_url account_url positive has_prefix after_prefix
valid_order = refl

other_environment : order_url production order account ≡ false
unfolding order_url account_url positive has_prefix after_prefix
other_environment = refl

order_url_binds_example : (staging ≡ staging) × (account ≡ account)
order_url_binds_example =
    order_url_binds staging staging order account account valid_order valid_order

challenge :
    resource_url staging
      (codes "https://acme-staging-v02.api.letsencrypt.org/acme/chall/41/7/_x-Y")
      (codes "challenge")
    ≡ true
unfolding resource_url under_prefix has_prefix after_prefix split bytes_eq
challenge = refl
