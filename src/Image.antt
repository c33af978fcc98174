-- ===== src/Image.antt =====
-- internal/inventorystore/manifest.go: the complete inventory image, as it stands once it is
-- decrypted and authenticated. An encrypted list that holds one kind of payload is that payload.
pub mod Reserve
pub mod History
pub use rootwell.Outcome.{
  Error, Result, ok, err, invalid, limit, not_found, stale_generation, retry_unavailable, ◌>>=◌,
  refuse_if-eq-ok, refuse_if-eq-err, >>=-eq-ok, >>=-eq-err,
}
unfoldable pub use rootwell.Outcome.{refuse_if}
use rootwell.Prelude.{
  ℕ, zero, suc, ◌+◌, ◌-◌, ◌*◌, ◌/◌, ◌%◌, ◌^◌, ◌≤◌, ◌<◌, min, max, String, ◌≡◌, refl, sym, ap, subst,
  ◌∙◌, ◌≢◌, ◌↔◌, ◌⊎◌, inl, inr, Bool, true, false, not, ◌&&◌, ◌||◌, Option, none, some, List, [],
  ◌∷◌, ◌++◌, map, arith, ltb, leb, ◌==◌, if◌then◌else◌, Bool-cases, Option-cases, length, get_elem?,
  set, all, length-append, if-true, if-false, str_eq, eq_iff, eq_refl, tests,
}
use rootwell.Prelude.Bytes.{Bytes}
use rootwell.Clock.Stamp.{Stamp}
use rootwell.Dns.{Plan}

abbrev pub max_image : ℕ
max_image = 96 * 2 ^ 20

abbrev pub max_records : ℕ
max_records = 500

abbrev pub max_generation : ℕ
max_generation = 1_000_000

abbrev pub max_history : ℕ
max_history = 1024

-- `Event` of history.go
pub record Event : Type 0 where
  pub generation : ℕ
  pub at : Stamp
  pub action : String
  pub fingerprints : List Bytes

-- The texts of `State` of an order.
pub data OrderState : Type 0 where
  not_started request_pending order_known dns_ready dns_acknowledged : OrderState
  validation_pending validation_waiting validation_failed domain_verified : OrderState

-- `acmeorder.TXT`
pub record Txt : Type 0 where
  pub domain : Bytes
  pub name : Bytes
  pub value : Bytes
  pub required : Bool

-- `orderPayload`, as far as the modelled operations read it.
pub record Order : Type 0 where
  pub state : OrderState
  pub fingerprint : Bytes
  pub expires : Stamp
  pub records : List Txt

-- `manifest`. `records` counts the certificates, `pending_timings` the timing plans whose outcome
-- is due, and `config` is the generation of the saved DNS provider configuration; the flags say
-- whether a registration and an issuance wait for their outcome.
pub record Image : Type 0 where
  pub generation : ℕ
  pub records : ℕ
  pub history : List Event
  pub archives : List (List Event)
  pub archive_start : ℕ
  pub registration_pending : Bool
  pub order : Order
  pub issuance_pending : Bool
  pub config : Option ℕ
  pub plan : Option Plan
  pub pending_timings : ℕ
  pub historical : Bool
