-- ===== src/Closing/Chronicle.antt =====
-- The order of closed requests: a longer history of the image keeps it, and the request that is closed
-- now comes last.
use rootwell.Prelude.{
  leb→le, lt→ltb, or_parts, and_parts, ℕ, ◌+◌, ◌≤◌, ◌≡◌, refl, sym, subst, ◌⊎◌, inl, inr, Bool,
  true, false, not, ◌&&◌, ◌||◌, List, [], ◌∷◌, ◌++◌, arith, ltb, Bool-cases,
}
use rootwell.Prelude.Bytes.{Bytes, bytes_eq, bytes_eq→≡}
use rootwell.Clock.Stamp.{Stamp, before}
use rootwell.Catalog.{member}
use rootwell.Closing.{Closed, item_ok, chronicle, any_later}

item_ok-later : (g : ℕ) (c : Closed) → item_ok g c ≡ true → item_ok (g + 1) c ≡ true
unfolding item_ok
item_ok-later g c h = ground arith

pub chronicle-later :
    (g lg : ℕ) (t : Stamp) (seen : List Bytes) (cs : List Closed)
    → chronicle g lg t seen cs ≡ true
    → chronicle (g + 1) lg t seen cs ≡ true
unfolding chronicle
chronicle-later g lg t seen [] h = refl
chronicle-later g lg t seen (c ∷ cs) h = ground (
  arith,
  item_ok-later g c,
  chronicle-later g c.closed_generation c.closed_at (c.order.url ∷ seen) cs,
)

item_ok-bound : (g : ℕ) (c : Closed) → item_ok g c ≡ true → c.closed_generation ≤ g
unfolding item_ok
item_ok-bound g c h =
    let (low, high) = parts _ _ _ _ _ _ _ _ h in
    omega (arith, leb→le c.sealed_at g low, leb→le c.closed_generation c.sealed_at high)
  where
    parts :
        (a b c d e f g k : Bool)
        → (a && b && c && d && e && f && g && k) ≡ true
        → (b ≡ true) × (e ≡ true)
    parts a b c d e f g k h = (ground arith, ground arith)

-- An address that another list has seen is none of the items' addresses.
unseen :
    (u v : Bytes) (seen : List Bytes)
    → member u seen ≡ true
    → member v seen ≡ false
    → bytes_eq v u ≡ false
unseen u v seen a b = elim (Bool-cases (bytes_eq v u)) [
  | inl t ↦
      absurd (clash (subst (λ (x : Bytes). member x seen ≡ true) (sym (bytes_eq→≡ v u t)) a) b)
  | inr f ↦ f
]
  where
    clash : {x : Bool} → x ≡ true → x ≡ false → ⊥
    clash a b = cc

member-cons_mono :
    (first u : Bytes) (s1 s0 : List Bytes)
    → (member u s1 ≡ true → member u s0 ≡ true)
    → member u (first ∷ s1) ≡ true
    → member u (first ∷ s0) ≡ true
unfolding member
member-cons_mono first u s1 s0 f h = elim (Bool-cases (bytes_eq first u)) [
  | inl t ↦ ground arith
  | inr e ↦ let inside = f (ground arith) in ground arith
]

-- The request closed now, with the next generation and an address that the earlier ones had to avoid,
-- follows them.
pub chronicle-append :
    (g : ℕ) (item : Closed)
    → item.closed_generation ≡ g + 1
    → item_ok (g + 1) item ≡ true
    → (lg : ℕ) (lt : Stamp) (seen0 seen1 : List Bytes) (cs : List Closed)
    → chronicle g lg lt seen0 cs ≡ true
    → lg ≤ g
    → before item.closed_at lt ≡ false
    → any_later item.closed_at cs ≡ false
    → member item.order.url seen0 ≡ true
    → member item.order.url seen1 ≡ false
    → ((u : Bytes) → member u seen1 ≡ true → member u seen0 ≡ true)
    → chronicle (g + 1) lg lt seen1 (cs ++ item ∷ []) ≡ true
unfolding chronicle any_later member
chronicle-append g item n okay lg lt seen0 seen1 [] h low early later inside outside sub =
    let up : ltb lg item.closed_generation ≡ true =
      lt→ltb lg item.closed_generation (omega (arith, n)) in
    ground arith
chronicle-append g item n okay lg lt seen0 seen1 (c ∷ cs) h low early later inside outside sub =
    let (h1, rest) = and_parts _ _ h in
    let (h2, time) = and_parts _ _ h1 in
    let (h3, order) = and_parts _ _ h2 in
    let (fine, fresh) = and_parts _ _ h3 in
    let (l1, l2) = or_parts _ _ later in
    let other = unseen item.order.url c.order.url seen0 inside (is_not _ fresh) in
    let ih =
      chronicle-append g item n okay c.closed_generation c.closed_at (c.order.url ∷ seen0)
        (c.order.url ∷ seen1) cs rest (item_ok-bound g c fine) l1 l2
        (or_true (bytes_eq c.order.url item.order.url) (member item.order.url seen0) inside)
        (or_false (bytes_eq c.order.url item.order.url) (member item.order.url seen1) other outside)
        (λ u m. member-cons_mono c.order.url u seen1 seen0 (sub u) m) in
    let avoided = avoids c.order.url (Bool-cases (member c.order.url seen1)) (is_not _ fresh) in
    all_five _ _ _ _ _ (item_ok-later g c fine) avoided order time ih
  where
    is_not : (b : Bool) → not b ≡ true → b ≡ false
    is_not b h = ground arith

    avoids :
        (u : Bytes)
        → (member u seen1 ≡ true) ⊎ (member u seen1 ≡ false)
        → member u seen0 ≡ false
        → not (member u seen1) ≡ true
    avoids u (inl t) f = let t0 = sub u t in cc
    avoids u (inr f1) f = ground arith

    or_true : (a b : Bool) → b ≡ true → (a || b) ≡ true
    or_true a b h = ground arith

    or_false : (a b : Bool) → a ≡ false → b ≡ false → (a || b) ≡ false
    or_false a b h k = ground arith

    all_five :
        (a b c d e : Bool)
        → a ≡ true
        → b ≡ true
        → c ≡ true
        → d ≡ true
        → e ≡ true
        → (a && b && c && d && e) ≡ true
    all_five a b c d e ha hb hc hd he = ground arith
