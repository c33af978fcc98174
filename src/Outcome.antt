-- ===== src/Outcome.antt =====
-- Results with the errors of the store's packages, early returns, and their inversion.
use rootwell.Prelude.{◌≡◌, refl, ◌⊎◌, inl, inr, Bool, true, false, if◌then◌else◌, if-false}

-- `ErrInvalid`, `ErrLimit`, `ErrNotFound`, `ErrStaleGeneration` and `ErrRenewalSourceInUse` of
-- internal/inventorystore, `ErrInvalid` of internal/providerretry, the errors of
-- internal/publicinventory, and those of internal/publicbundle and internal/certinspect.
pub data Error : Type 0 where
  invalid limit not_found stale_generation renewal_source_in_use retry_unavailable : Error
  duplicate capacity label cert_size location_duplicate location_capacity : Error
  location_missing location_unchanged owner_unchanged : Error
  empty_input too_large too_many_certificates unexpected_content : Error
  invalid_certificate duplicate_certificate metadata_limit : Error
  unsupported_format trailing_data resource_limit : Error

pub data Result {ℓ} (A : Type ℓ) : Type ℓ where
  ok : A → Result A
  err : Error → Result A

infixl 5 ◌>>=◌
abbrev pub ◌>>=◌ {ℓ κ} : {A : Type ℓ} {B : Type κ} → Result A → (A → Result B) → Result B
ok a >>= f = f a
err e >>= f = err e

-- `if test { return …, e }`
unfoldable pub refuse_if {ℓ} : {A : Type ℓ} → Bool → Error → Result A → Result A
refuse_if test e rest = if test then err e else rest

-- Inversion of a test that did not refuse, and of a chain that returned.
pub refuse_if-eq-ok {ℓ} :
    {A : Type ℓ} (test : Bool) (e : Error) (rest : Result A) (a : A)
    → refuse_if test e rest ≡ ok a
    → (test ≡ false) × (rest ≡ ok a)
unfolding refuse_if
refuse_if-eq-ok true e rest a h = absurd (err_ok h)
  where
    err_ok : err e ≡ ok a → ⊥
    err_ok h = cc
refuse_if-eq-ok false e rest a h = (refl, h)

pub >>=-eq-ok {ℓ κ} :
    {A : Type ℓ} {B : Type κ} (first : Result A) (next : A → Result B) {value : B}
    → (first >>= next) ≡ ok value
    → (x : A) × (first ≡ ok x) × (next x ≡ ok value)
>>=-eq-ok (ok x) next e = (x, refl, e)
>>=-eq-ok (err refused) next e = cc

pub refuse_if-eq-err {ℓ} :
    {A : Type ℓ} (test : Bool) (e : Error) (rest : Result A) (e' : Error)
    → refuse_if test e rest ≡ err e'
    → ((test ≡ true) × (e ≡ e')) ⊎ ((test ≡ false) × (rest ≡ err e'))
unfolding refuse_if
refuse_if-eq-err true e rest e' h = inl (refl, cc)
refuse_if-eq-err false e rest e' h = inr (refl, h)

pub >>=-eq-err {ℓ κ} :
    {A : Type ℓ} {B : Type κ} (m : Result A) (f : A → Result B) {e : Error}
    → (m >>= f) ≡ err e
    → (m ≡ err e) ⊎ ((a : A) × (m ≡ ok a) × (f a ≡ err e))
>>=-eq-err (ok a) f h = inr (a, refl, h)
>>=-eq-err (err e) f h = inl cc

-- A test that does not hold refuses nothing.
pub refuse_if-passed {ℓ} :
    {A : Type ℓ} (test : Bool) (e : Error) (rest : Result A)
    → test ≡ false
    → refuse_if test e rest ≡ rest
unfolding refuse_if
refuse_if-passed test e rest h = if-false test (err e) rest h
