-- ===== src/Dns.antt =====
-- internal/inventorystore/dns_plan.go: the saved plan of DNS challenge records, its data and its
-- reservations. The children hold the checks of a saved row, the maintenance policy, and the
-- operations with their theorems.
pub mod Maintain
pub mod Check
pub mod Reserve
use rootwell.Prelude.{
  ℕ, zero, suc, ◌+◌, ◌-◌, ◌*◌, ◌/◌, ◌%◌, ◌^◌, ◌≤◌, ◌<◌, min, max, String, ◌≡◌, refl, sym, ap, subst,
  ◌∙◌, ◌≢◌, ◌↔◌, ◌⊎◌, inl, inr, Bool, true, false, not, ◌&&◌, ◌||◌, Option, none, some, List, [],
  ◌∷◌, ◌++◌, map, arith, ltb, leb, ◌==◌, if◌then◌else◌, Bool-cases, Option-cases, length, get_elem?,
  set, all, str_eq, eq_iff, eq_refl, tests,
}
use rootwell.Prelude.Bytes.{Bytes, bytes_eq}
use rootwell.Clock.{Instant, second, years}
use rootwell.Clock.Stamp.{Stamp, blank, at, malformed}
use rootwell.Retry.{State}

-- The texts of `State` in a saved row; `other` is any text that no row may have.
pub data RowState : Type 0 where
  new creating borrowed created deleting deleted other : RowState

-- `dnsRecoveryState`
pub record Recovery : Type 0 where
  pub retry : State
  pub blocked : Bool

-- `dnsMaintenanceState`; a count below one, which no row may have, stands for the negative ones.
pub record Maintenance : Type 0 where
  pub attempts : ℕ
  pub last_at : Stamp
  pub not_before : Stamp
  pub outcome_at : Stamp
  pub blocked : Bool
  pub resolved : Bool

-- `dnsPlanRecord`
pub record Row : Type 0 where
  pub domain : Bytes
  pub name : Bytes
  pub value : Bytes
  pub owner : Bytes
  pub state : RowState
  pub retry : State
  pub blocked : Bool
  pub id : Bytes
  pub cleanup : Option State
  pub cleanup_blocked : Bool
  pub checked_at : Stamp
  pub outcome_at : Stamp
  pub recovery : Option Recovery
  pub cleanup_recovery : Option Recovery
  pub maintenance : Option Maintenance
  pub cleanup_maintenance : Option Maintenance

-- `dnsPlanPayload`, without the order's URL and the zone, which only the outer checks read.
pub record Plan : Type 0 where
  pub account : Bytes
  pub config_generation : ℕ
  pub prepared_at : Stamp
  pub expires : Stamp
  pub rows : List Row

-- The two tests of `row.State` that the operations make most.
abbrev pub is_creating : RowState → Bool
is_creating creating = true
is_creating _ = false

abbrev pub is_deleting : RowState → Bool
is_deleting deleting = true
is_deleting _ = false

abbrev pub is_new : RowState → Bool
is_new new = true
is_new _ = false

abbrev pub is_created : RowState → Bool
is_created created = true
is_created _ = false

abbrev pub is_deleted : RowState → Bool
is_deleted deleted = true
is_deleted _ = false

abbrev pub is_borrowed : RowState → Bool
is_borrowed borrowed = true
is_borrowed _ = false

abbrev pub is_some {ℓ} : {A : Type ℓ} → Option A → Bool
is_some none = false
is_some (some a) = true

abbrev pub is_empty : Bytes → Bool
is_empty [] = true
is_empty (c ∷ cs) = false

abbrev hex_digit : ℕ → Bool
hex_digit c = leb b'0' c && leb c b'9' || leb b'a' c && leb c b'f'

-- `dnsPlanHex`
unfoldable pub dns_plan_hex : Bytes → Bool
dns_plan_hex s = length s == 32 && all hex_digit s

-- `mustDNSTime`: a text that does not parse is Go's zero time.
abbrev pub must_time : Stamp → Instant
must_time (at s) = s * second
must_time _ = 0

-- `acmeorder.Time`: a canonical text of the years 2020 to 9999.
abbrev pub order_time : Stamp → Bool
order_time (at s) = years 2020 9999 (s * second)
order_time _ = false
