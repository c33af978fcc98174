-- ===== src/Operation/Execute/Sealing.antt =====
-- One write of `sealDNSPlan` on an image that keeps room for what it has begun: the counters that
-- `beginDNSOperationAt` reserved.
use rootwell.Prelude.{
  ◌⊎◌, ℕ, ◌+◌, ◌-◌, ◌≤◌, ◌<◌, String, ◌≡◌, subst, inl, inr, Bool, true, false, some, List, [], ◌∷◌,
  arith, length, get_elem?, set,
}
use rootwell.Retry.{Hint}
use rootwell.Dns.{Plan, Row, Row}
use rootwell.Dns.Reserve.{dns_plan_reserve, row_reserve, dns_plan_reserve-set}
use rootwell.Image.{
  Image, max_generation, max_history, max_image, max_records, refuse_if, err, err, limit, limit,
  refuse_if-eq-err, >>=-eq-err, Result, invalid, invalid, ok,
}
use rootwell.Image.Reserve.{total_reserve, reserved_image_bytes}
use rootwell.Image.History.{with_event, event_of, event_refused, add_event, add_event-eq-ok}
use rootwell.Operation.{Codec, seal_plan, encoded, Bytes, Instant, Lease}
use rootwell.Operation.Settle.{wait_row, Observed, settle_row}
use rootwell.Operation.Execute.{wait_action, World, failed, returned, checkpoints, result_action}
use rootwell.Operation.Begin.{planned}

-- What an image keeps free for the operations that it has begun.
pub record Roomy (m : Image) : Type 0 where
  pub generations : m.generation + total_reserve m ≤ max_generation
  pub events : length m.history + total_reserve m ≤ max_history
  pub bounded : total_reserve m ≤ 256
  pub certificates : m.issuance_pending ≡ true → m.records < max_records

-- The image that `sealDNSPlan` would write.
abbrev pub written : Image → Plan → String → Instant → Image
written m p action now =
    with_event (planned m p) (event_of (planned m p) action (p.account ∷ []) now)

abbrev Long : Codec → Image → Type 0
Long codec next = max_image - reserved_image_bytes next < codec.size next

-- The row that the world's answers lead to, and the image that would hold it.
abbrev Outcome : Image → Plan → Row → Lease → World → Image → Type 0
Outcome m p r l w next =
    ((hint : Hint) × (w.reply ≡ failed hint)
      × (next
          ≡ written m (record p { rows = set p.rows l.index (wait_row l r hint w.saved_at) })
              (wait_action l) w.saved_at))
    ⊎ ((seen : Observed) × (r' : Row) × (w.reply ≡ returned seen)
        × (settle_row l r seen (checkpoints l r p m.order false w.asked) w.seen_at w.saved_at
            ≡ ok r')
        × (next
            ≡ written m (record p { rows = set p.rows l.index r' }) (result_action l) w.saved_at))

-- The very image that this execution would write is longer than an image may be.
pub record TooLong (codec : Codec) (m : Image) (l : Lease) (w : World) : Type 0 where
  pub plan : Plan
  pub row : Row
  pub next : Image
  pub has_plan : m.plan ≡ some plan
  pub has_row : get_elem? plan.rows l.index ≡ some row
  pub outcome : Outcome m plan row l w next
  pub long : Long codec next

-- A plan that keeps less for the future leaves room for its event.
event_has_room :
    (m : Image) (old p : Plan)
    → Roomy m
    → m.plan ≡ some old
    → dns_plan_reserve p.rows + 1 ≤ dns_plan_reserve old.rows
    → event_refused (planned m p) ≡ false
unfolding event_refused total_reserve
event_has_room m old p roomy e less = ground arith

counters_left :
    (m : Image) (old : Plan) (n : ℕ)
    → Roomy m
    → m.plan ≡ some old
    → n + 1 ≤ dns_plan_reserve old.rows
    → (m.generation < max_generation) × (length m.history < max_history)
unfolding total_reserve
counters_left m old n roomy e less = ground arith

-- `addEvent` then refuses for nothing but the event itself.
add_event_not_limited :
    (m : Image) (action : String) (ids : List Bytes) (now : Instant)
    → event_refused m ≡ false
    → add_event m action ids now ≡ err limit
    → ⊥
unfolding add_event refuse_if
add_event_not_limited m action ids now room h = ground arith

pub seal_limit :
    (codec : Codec) (m : Image) (old p : Plan) (action : String) (now : Instant)
    → Roomy m
    → m.plan ≡ some old
    → dns_plan_reserve p.rows + 1 ≤ dns_plan_reserve old.rows
    → seal_plan codec m p action now ≡ err limit
    → Long codec (written m p action now)
unfolding seal_plan encoded
seal_limit codec m old p action now roomy e less h =
    let (g, k) = counters_left m old (dns_plan_reserve p.rows) roomy e less in
    elim (refuse_if-eq-err _ _ _ limit h) [
      | inl (full, _) ↦ absurd (ground (arith, full))
      | inr (_, h1) ↦ elim (refuse_if-eq-err _ _ _ limit h1) [
        | inl (_, wrong) ↦ absurd (cc wrong)
        | inr (_, h2) ↦
            elim (>>=-eq-err (add_event (planned m p) action (p.account ∷ []) now) (encoded codec)
              h2) [
                | inl refused ↦ absurd (
                    add_event_not_limited (planned m p) action (p.account ∷ []) now
                      (event_has_room m old p roomy e less) refused)
                | inr (n, added, h3) ↦ elim (refuse_if-eq-err _ _ _ limit h3) [
                  | inl (long, _) ↦
                      let (_, _, image) =
                        add_event-eq-ok (planned m p) n action (p.account ∷ []) now added in
                      subst (Long codec) image (ground (arith, long))
                  | inr (_, h4) ↦ elim (refuse_if-eq-err _ _ _ limit h4) [
                    | inl (_, wrong) ↦ absurd (cc wrong)
                    | inr (_, never) ↦ absurd (cc never)
                  ]
                ]
              ]
      ]
    ]

pub strip :
    {A : Type 0} (test : Bool) (rest : Result A)
    → refuse_if test invalid rest ≡ err limit
    → (test ≡ false) × (rest ≡ err limit)
strip test rest h = elim (refuse_if-eq-err _ _ _ limit h) [
  | inl (_, wrong) ↦ absurd (cc wrong)
  | inr more ↦ more
]

pub settle_row_not_limited :
    (l : Lease) (r : Row) (seen : Observed) (checkpointed : Bool) (seen_at saved_at : Instant)
    → settle_row l r seen checkpointed seen_at saved_at ≡ err limit
    → ⊥
unfolding settle_row
settle_row_not_limited l r seen checkpointed seen_at saved_at h = ground arith

-- A row that changes and keeps less leaves the plan with less.
pub plan_frees :
    (p : Plan) (i : ℕ) (r r' : Row)
    → get_elem? p.rows i ≡ some r
    → row_reserve r' + 1 ≤ row_reserve r
    → dns_plan_reserve (set p.rows i r') + 1 ≤ dns_plan_reserve p.rows
plan_frees p i r r' e less = omega (arith, dns_plan_reserve-set p.rows i r r' e)
