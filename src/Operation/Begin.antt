-- ===== src/Operation/Begin.antt =====
-- What a begun attempt leaves in the image, from `beginDNSOperationAt` of
-- internal/inventorystore/dns_plan.go.
pub mod Change
pub mod Usable
pub mod Leased
use rootwell.Prelude.{
  ℕ, ◌+◌, ◌≤◌, String, ◌≡◌, refl, sym, ap, ◌∙◌, true, false, Option, none, some, [], ◌∷◌, arith,
  length, get_elem?, set,
}
use rootwell.Clock.{Instant}
use rootwell.Dns.{Plan, Row, is_new}
use rootwell.Image.{Image, ok, refuse_if-eq-ok, >>=-eq-ok, max_generation, max_history}
use rootwell.Image.Reserve.{admitted, total_reserve}
use rootwell.Image.History.{
  valid_event, add_event, event_of, with_event, add_event-eq-ok, event_refused,
}
use rootwell.Operation.{
  Codec, seal_plan, encoded, Mode, Mode, begin_operation, Lease, Lease, Lease, begin_at, begin_at,
  begin_on, mode_allowed, seal_begun, time_allowed, begin_row, action_of, required_by, lease_for,
}

-- The image that a plan is sealed into.
abbrev pub planned : Image → Plan → Image
planned m p = record m { generation = m.generation + 1; plan = some p }

pub record Sealed (codec : Codec) (m m' : Image) (p : Plan) (action : String) (now : Instant)
    : Type 0 where
  pub room : event_refused (planned m p) ≡ false
  pub valid : valid_event (event_of (planned m p) action (p.account ∷ []) now) ≡ true
  pub image : m' ≡ with_event (planned m p) (event_of (planned m p) action (p.account ∷ []) now)
  pub readable : admitted codec.size m' ≡ true

pub seal_plan-Sealed :
    (codec : Codec) (m m' : Image) (p : Plan) (action : String) (now : Instant)
    → seal_plan codec m p action now ≡ ok m'
    → Sealed codec m m' p action now
unfolding seal_plan
seal_plan-Sealed codec m m' p action now h =
    let (a, h1) = refuse_if-eq-ok _ _ _ m' h in
    let (b, h2) = refuse_if-eq-ok _ _ _ m' h1 in
    let (n, added, h3) =
      >>=-eq-ok (add_event (planned m p) action (p.account ∷ []) now) (encoded codec) h2 in
    let (c, h4) = refuse_if-eq-ok _ _ _ m' h3 in
    let (d, h5) = refuse_if-eq-ok _ _ _ m' h4 in
    let (room, valid, image) = add_event-eq-ok (planned m p) n action (p.account ∷ []) now added in
    let e : n ≡ m' = cc h5 in
    record { room = room; valid = valid; image = sym e ∙ image; readable = ground (arith, d, e) }

-- Everything that a successful begin has checked, and what it has written.
pub record Begun (codec : Codec) (m : Image) (expected index : ℕ) (mode : Mode) (now : Instant)
    (jitter : ℕ) (m' : Image) (l : Lease) : Type 0 where
  pub plan : Plan
  pub row : Row
  pub row' : Row
  pub current : expected ≡ m.generation
  pub active : m.historical ≡ false
  pub has_plan : m.plan ≡ some plan
  pub has_row : get_elem? plan.rows index ≡ some row
  pub mode_ok : mode_allowed mode row.state ≡ true
  pub time_ok : time_allowed row plan m.order now ≡ true
  pub required : is_new row.state ≡ true → required_by m.order.records row ≡ true
  pub changed : begin_row row mode now jitter ≡ ok row'
  pub room :
      (m.generation
          + total_reserve
              (record m { plan = some (record plan { rows = set plan.rows index row' }) })
          + 1
        ≤ max_generation)
      × (length m.history
            + total_reserve
                (record m { plan = some (record plan { rows = set plan.rows index row' }) })
            + 1
          ≤ max_history)
  pub sealed :
      Sealed codec m m' (record plan { rows = set plan.rows index row' }) (action_of mode) now
  pub lease : l ≡ lease_for codec m' index mode row.state

module _ (codec : Codec) (m : Image) (expected index : ℕ) (mode : Mode) (now : Instant) (jitter : ℕ)
    (m' : Image) (l : Lease) (current : expected ≡ m.generation) where
  begin_row_Begun :
      (p : Plan) (r : Row)
      → m.historical ≡ false
      → m.plan ≡ some p
      → get_elem? p.rows index ≡ some r
      → begin_at codec m p index (some r) mode now jitter ≡ ok (m', l)
      → Begun codec m expected index mode now jitter m' l
  unfolding begin_at seal_begun
  begin_row_Begun p r active hp hr h =
      let (a, h1) = refuse_if-eq-ok _ _ _ (m', l) h in
      let (b, h2) = refuse_if-eq-ok _ _ _ (m', l) h1 in
      let (c, h3) = refuse_if-eq-ok _ _ _ (m', l) h2 in
      let (r', changed, h4) =
        >>=-eq-ok (begin_row r mode now jitter)
          (λ r'. seal_begun codec m p index mode r.state r' now) h3 in
      let p' = record p { rows = set p.rows index r' } in
      let (d, h5) = refuse_if-eq-ok _ _ _ (m', l) h4 in
      let (e, h6) = refuse_if-eq-ok _ _ _ (m', l) h5 in
      let (next, sealed, h7) =
        >>=-eq-ok (seal_plan codec m p' (action_of mode) now)
          (λ next. ok (next, lease_for codec next index mode r.state)) h6 in
      let same : next ≡ m' = cc h7 in
      record {
        plan = p;
        row = r;
        row' = r';
        current = current;
        active = active;
        has_plan = hp;
        has_row = hr;
        mode_ok = ground (arith, a);
        time_ok = ground (arith, b);
        required = ground (arith, c);
        changed = changed;
        room = ground (arith, e);
        sealed = seal_plan-Sealed codec m m' p' (action_of mode) now (sealed ∙ ap ok same);
        lease = cc (h7, same);
      }

  begin_index_Begun :
      (p : Plan) (o : Option Row)
      → m.historical ≡ false
      → m.plan ≡ some p
      → get_elem? p.rows index ≡ o
      → begin_at codec m p index o mode now jitter ≡ ok (m', l)
      → Begun codec m expected index mode now jitter m' l
  unfolding begin_at
  begin_index_Begun p none active hp hr h = absurd (ground arith)
  begin_index_Begun p (some r) active hp hr h = begin_row_Begun p r active hp hr h

  begin_on-Begun :
      (o : Option Plan)
      → m.plan ≡ o
      → begin_on codec m o index mode now jitter ≡ ok (m', l)
      → Begun codec m expected index mode now jitter m' l
  unfolding begin_on
  begin_on-Begun none hp h = absurd (ground arith)
  begin_on-Begun (some p) hp h =
      let (active, h1) = refuse_if-eq-ok _ _ _ (m', l) h in
      begin_index_Begun p (get_elem? p.rows index) active hp refl h1

pub begin_operation-Begun :
    (codec : Codec) (m : Image) (expected index : ℕ) (mode : Mode) (now : Instant) (jitter : ℕ)
    (m' : Image) (l : Lease)
    → begin_operation codec m expected index mode now jitter ≡ ok (m', l)
    → Begun codec m expected index mode now jitter m' l
unfolding begin_operation
begin_operation-Begun codec m expected index mode now jitter m' l h =
    let (a, h1) = refuse_if-eq-ok _ _ _ (m', l) h in
    begin_on-Begun codec m expected index mode now jitter m' l (ground (arith, a)) m.plan refl h1
