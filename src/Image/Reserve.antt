-- ===== src/Image/Reserve.antt =====
-- `dnsTotalReserve` and `reservedImageBytes` of internal/inventorystore/dns_plan.go, and the limits
-- that end `decode` of manifest.go: what an image must keep free for the operations it has begun.
use rootwell.Prelude.{
  ℕ, ◌+◌, ◌-◌, ◌*◌, ◌^◌, Bool, not, ◌&&◌, Option, none, some, List, [], ltb, leb, ◌==◌,
  if◌then◌else◌, length,
}
use rootwell.Dns.{Plan, Row}
use rootwell.Dns.Reserve.{dns_plan_reserve}
use rootwell.Image.{
  Image, OrderState, request_pending, order_known, validation_pending, max_image, max_records,
  max_generation, max_history,
}

plan_rows : Option Plan → List Row
plan_rows none = []
plan_rows (some p) = p.rows

-- The outcomes that an order waits for.
unfoldable pub order_reserve : OrderState → ℕ
order_reserve request_pending = 2
order_reserve order_known = 1
order_reserve validation_pending = 1
order_reserve _ = 0

abbrev flag : Bool → ℕ
flag b = if b then 1 else 0

-- `dnsTotalReserve` before its bound of 256.
unfoldable pub total_reserve : Image → ℕ
unfolding plan_rows
total_reserve m =
    let own = dns_plan_reserve (plan_rows m.plan) + m.pending_timings in
    if own == 0
    then 0
    else own + flag m.registration_pending + order_reserve m.order.state + flag m.issuance_pending

abbrev pub reserve_refused : Image → Bool
reserve_refused m = ltb 256 (total_reserve m)

abbrev pub dns_plan_byte_reserve : ℕ
dns_plan_byte_reserve = 64 * 2 ^ 10

abbrev plan_bytes : Option Plan → ℕ
plan_bytes none = 0
plan_bytes (some p) = dns_plan_byte_reserve + dns_plan_reserve p.rows * (2 * 2 ^ 10)

-- `reservedImageBytes`
unfoldable pub reserved_image_bytes : Image → ℕ
reserved_image_bytes m =
    plan_bytes m.plan + flag m.issuance_pending * 2 ^ 20 + m.pending_timings * (8 * 2 ^ 10)

-- The limits of `decode`; `size` is the length of the encoded image.
unfoldable pub admitted : (Image → ℕ) → Image → Bool
admitted size m =
    leb 1 m.generation
    && leb m.generation max_generation
    && leb m.records max_records
    && not (reserve_refused m)
    && leb m.generation (max_generation - total_reserve m)
    && leb (length m.history) (max_history - total_reserve m)
    && leb (size m) (max_image - reserved_image_bytes m)
