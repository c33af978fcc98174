-- ===== src/Cycle.antt =====
-- internal/inventorystore/renewal_cycle.go: what the renewal cycle reads of an authenticated image,
-- and what it may decide from that. The children hold the decision and its theorems.
mod Tests
pub mod Decide
pub mod Rows
pub mod Guards
pub mod Stages
pub mod Before
pub mod Choices
pub mod Actions
pub mod Staged
use rootwell.Prelude.{
  ℕ, zero, suc, ◌+◌, ◌-◌, ◌*◌, ◌/◌, ◌%◌, ◌^◌, ◌≤◌, ◌<◌, min, max, String, ◌≡◌, refl, sym, ap, subst,
  ◌∙◌, ◌≢◌, ◌↔◌, ◌⊎◌, inl, inr, Bool, true, false, not, ◌&&◌, ◌||◌, Option, none, some, List, [],
  ◌∷◌, ◌++◌, map, arith, ltb, leb, ◌==◌, if◌then◌else◌, Bool-cases, Option-cases, length, get_elem?,
  get_elem?-set_self, set, all, length-append, if-true, if-false, str_eq, eq_iff, eq_refl, tests,
}
use rootwell.Prelude.Bytes.{Bytes}
use rootwell.Clock.{Instant}
use rootwell.Dns.{RowState}
use rootwell.Image.{OrderState}

-- A text in the layout RFC 3339 with nanoseconds: none, one that parses, any other.
pub data Moment : Type 0 where
  unset : Moment
  due : Instant → Moment
  garbled : Moment

-- The texts of `Action`.
pub data Action : Type 0 where
  pause wait timing close order order_read dns_plan dns_add dns_check dns_cleanup : Action
  ack validate validation_read key certificate certificate_read complete : Action

-- The texts of `Reason`; `chosen` is the text of the action itself.
pub data Reason : Type 0 where
  chosen invalid_state account_unavailable other_work_pending dns_configuration : Reason
  dns_zone_mismatch storage_capacity source_ended timing_interrupted : Reason
  provider_maintenance clock_unavailable provider_wait request_capacity request_active : Reason
  dns_cleanup_due timing_unconfirmed renewal_wait request_expired order_unconfirmed : Reason
  validation_failed certificate_unconfirmed dns_unconfirmed dns_maintenance dns_wait : Reason

-- `CycleDecision`; the index -1 is `none`.
pub record Decision : Type 0 where
  pub action : Action
  pub reason : Reason
  pub next : Moment
  pub index : Option ℕ

-- The texts of `State` of an issuance, from `publicIssuance`.
pub data IssuanceState : Type 0 where
  not_started issuance_pending not_issued awaiting_certificate issuance_failed : IssuanceState
  certificate_saved saved_certificate_deleted : IssuanceState

-- `RenewalTimingStatus`, as far as the decision reads it.
pub record Timing : Type 0 where
  pub fingerprint : Bytes
  pub prepared : Bool
  pub state : String
  pub pending : Bool
  pub can_read : Bool
  pub effective_at : Moment
  pub next_check : Moment
  pub provider_not_before : Moment
  pub blocked : Bool
  pub expired : Bool
  pub superseded : Bool

-- `DNSPlanRecordStatus`, as far as the decision reads it; the last two say whether the pointer is
-- set.
pub record RowStatus : Type 0 where
  pub state : RowState
  pub attempts : ℕ
  pub not_before : Moment
  pub blocked : Bool
  pub cleanup_attempts : ℕ
  pub cleanup_not_before : Moment
  pub cleanup_blocked : Bool
  pub recovery : Bool
  pub maintenance : Bool

-- `RenewalCycle`, with the fields of `Close`, `Issuance` and `DNS` that the decision reads.
pub record Snapshot : Type 0 where
  pub generation : ℕ
  pub fingerprint : Bytes
  pub domains : List Bytes
  pub config_generation : ℕ
  pub zone : Bytes
  pub account_ready : Bool
  pub other_pending : Bool
  pub timing : Timing
  pub order_state : OrderState
  pub order_source : Bytes
  pub order_expires : Moment
  pub required_dns : Bool
  pub close_available : Bool
  pub close_reason : String
  pub key_prepared : Bool
  pub issuance : IssuanceState
  pub issuance_expires : Moment
  pub saved_fingerprint : Bytes
  pub dns_prepared : Bool
  pub rows : List RowStatus
  pub events_left : ℕ
  pub generations_left : ℕ
  pub bytes_left : ℕ
  pub records_left : ℕ
  pub closures_left : ℕ
