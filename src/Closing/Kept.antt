-- ===== src/Closing/Kept.antt =====
-- The operations on closed requests keep the ledger as the tests on them demand.
use mathlib.Core.List.{append-nil}
use rootwell.Archive.{flatten}
use rootwell.Closing.Chronicle.{chronicle-append, chronicle-later}
use rootwell.Prelude.Bytes.{bytes_eq_refl, Bytes}
use rootwell.Closing.Eligible.{IsSealed, closing, closing-item_ok, eligibility_of-guards}
use rootwell.Catalog.{member}
use rootwell.Archive.Pages.{append_assoc, flatten-page}
use rootwell.Prelude.{
  leb→le, le→leb, and_parts, ==_iff, ℕ, ◌+◌, ◌-◌, ◌≤◌, ◌<◌, ◌≡◌, refl, sym, subst, ◌∙◌, Bool, true,
  false, not, ◌&&◌, ◌||◌, List, [], ◌∷◌, ◌++◌, arith, ltb, ◌==◌, length, all, length-append,
  if-false,
}
use rootwell.Clock.Stamp.{Stamp, before}
use rootwell.Image.{Image}
use rootwell.Closing.{
  Placed, Ledger, any_later, eligibility_of, can_close, all_closed, max_closed, Closed, max_pages,
  ledger_ok, page_ok, count_pages, chronicle, seen_first, order_follows, no_order, no_issuance,
  Bytes, flatten, Image, can_archive, min_page,
}

-- What the reading of a ledger tests, one by one.
pub record Kept (l : Ledger) : Type 0 where
  pub few : length l.closed ≤ max_closed
  pub paged : length l.pages ≤ max_pages
  pub fits : all page_ok l.pages ≡ true
  pub counted : count_pages l.pages ≡ l.archived
  pub ordered :
      chronicle l.image.generation 0 Stamp.blank (seen_first l.order) (all_closed l) ≡ true
  pub follows : order_follows l.order (all_closed l) ≡ true

pub ledger_ok-Kept : (l : Ledger) → ledger_ok l ≡ true → Kept l
unfolding ledger_ok
ledger_ok-Kept l h =
    let (h1, f) = and_parts _ _ h in
    let (h2, e) = and_parts _ _ h1 in
    let (h3, d) = and_parts _ _ h2 in
    let (h4, c) = and_parts _ _ h3 in
    let (a, b) = and_parts _ _ h4 in
    record {
      few = leb→le (length l.closed) max_closed a;
      paged = leb→le (length l.pages) max_pages b;
      fits = c;
      counted = (==_iff (count_pages l.pages) l.archived).0 d;
      ordered = e;
      follows = f;
    }

pub Kept-ledger_ok : (l : Ledger) → Kept l → ledger_ok l ≡ true
unfolding ledger_ok
Kept-ledger_ok l k =
    six _ _ _ _ _ _ (le→leb (length l.closed) max_closed k.few)
      (le→leb (length l.pages) max_pages k.paged) k.fits
      ((==_iff (count_pages l.pages) l.archived).1 k.counted) k.ordered k.follows
  where
    six :
        (a b c d e f : Bool)
        → a ≡ true
        → b ≡ true
        → c ≡ true
        → d ≡ true
        → e ≡ true
        → f ≡ true
        → (a && b && c && d && e && f) ≡ true
    six a b c d e f ha hb hc hd he hf = ground arith

seen_first-url : (o : Placed) → (length o.url == 0) ≡ false → member o.url (seen_first o) ≡ true
unfolding member
seen_first-url o h =
    subst (λ (s : List Bytes). member o.url s ≡ true)
      (sym (if-false (length o.url == 0) [] (o.url ∷ []) h)) (left _ _ (bytes_eq_refl o.url))
  where
    left : (a b : Bool) → a ≡ true → (a || b) ≡ true
    left a b h = ground arith

nothing_seen : (u : Bytes) → member u [] ≡ false
unfolding member
nothing_seen u = refl

pub flatten-last :
    (pages : List (List Closed)) (closed : List Closed) (c : Closed)
    → flatten pages ++ (closed ++ c ∷ []) ≡ (flatten pages ++ closed) ++ c ∷ []
flatten-last pages closed c = sym (append_assoc (flatten pages) closed (c ∷ []))

-- The ledger with the closed request, at any image of the next generation.
pub closed-Kept :
    (l : Ledger) (t : Stamp) (m : Image)
    → Kept l
    → IsSealed l
    → can_close (eligibility_of l.order l.issuance t) ≡ true
    → any_later t (all_closed l) ≡ false
    → length l.closed < max_closed
    → m.generation ≡ l.image.generation + 1
    → Kept (record {
      image = m;
      order = no_order;
      issuance = no_issuance;
      closed = l.closed ++ closing l t ∷ [];
      pages = l.pages;
      archived = l.archived;
      account = l.account;
    })
closed-Kept l t m k sealed may early room g =
    let (time, started, url) = eligibility_of-guards l.order l.issuance t may in
    let last =
      chronicle-append l.image.generation (closing l t) refl (closing-item_ok l t sealed may) 0
        Stamp.blank (seen_first l.order) [] (all_closed l) k.ordered (omega arith) (unborn t) early
        (seen_first-url l.order url) (nothing_seen l.order.url)
        (λ u h. absurd (clash h (nothing_seen u))) in
    record {
      few = omega (arith, length-append l.closed (closing l t ∷ []), room);
      paged = k.paged;
      fits = k.fits;
      counted = k.counted;
      ordered =
          subst
            (λ (n : ℕ).
              chronicle n 0 Stamp.blank [] (flatten l.pages ++ (l.closed ++ closing l t ∷ []))
              ≡ true)
            (sym g)
            (subst
              (λ (cs : List Closed). chronicle (l.image.generation + 1) 0 Stamp.blank [] cs ≡ true)
              (sym (flatten-last l.pages l.closed (closing l t))) last);
      follows = refl;
    }
  where
    unborn : (t : Stamp) → before t Stamp.blank ≡ false
    unborn Stamp.blank = refl
    unborn (Stamp.at s) = refl
    unborn Stamp.malformed = refl

    clash : {x : Bool} → x ≡ true → x ≡ false → ⊥
    clash a b = cc

count_pages-append :
    (pages : List (List Closed)) (page : List Closed)
    → count_pages (pages ++ page ∷ []) ≡ count_pages pages + length page
count_pages-append [] page = omega arith
count_pages-append (p ∷ pages) page = omega (arith, count_pages-append pages page)

pages-fit :
    (pages : List (List Closed)) (page : List Closed)
    → all page_ok pages ≡ true
    → page_ok page ≡ true
    → all page_ok (pages ++ page ∷ []) ≡ true
pages-fit [] page a b = ground arith
pages-fit (p ∷ pages) page a b = ground (arith, pages-fit pages page)

-- The ledger that archiving makes.
abbrev pub archived_ledger : Ledger → Image → Ledger
archived_ledger l m = record l {
  image = m;
  pages = l.pages ++ l.closed ∷ [];
  archived = l.archived + length l.closed;
  closed = [];
}

pub archived_all :
    (l : Ledger) → flatten (l.pages ++ l.closed ∷ []) ++ [] ≡ flatten l.pages ++ l.closed
archived_all l = flatten-page l.pages l.closed [] ∙ append-nil (flatten l.pages ++ l.closed)

pub archived-Kept :
    (size : Image → ℕ) (l : Ledger) (m : Image)
    → Kept l
    → can_archive size l ≡ true
    → m.generation ≡ l.image.generation + 1
    → Kept (archived_ledger l m)
unfolding can_archive
archived-Kept size l m k may g =
    let (h1, h2) = and_parts _ _ may in
    let (h3, h4) = and_parts _ _ h1 in
    let more = enough (length l.closed) h3 in
    let free = room (length l.pages) h4 in
    let longer = length-append l.pages (l.closed ∷ []) in
    let sum = count_pages-append l.pages l.closed in
    let counted = k.counted in
    record {
      few = omega arith;
      paged = omega (arith, longer, free);
      fits =
          pages-fit l.pages l.closed k.fits (
            both _ _ (le→leb 16 (length l.closed) more)
              (le→leb (length l.closed) max_closed k.few));
      counted = omega (arith, sum, counted);
      ordered =
          subst
            (λ (n : ℕ).
              chronicle n 0 Stamp.blank (seen_first l.order) (all_closed (archived_ledger l m))
              ≡ true)
            (sym g)
            (subst
              (λ (cs : List Closed).
                chronicle (l.image.generation + 1) 0 Stamp.blank (seen_first l.order) cs ≡ true)
              (sym (archived_all l))
              (chronicle-later l.image.generation 0 Stamp.blank (seen_first l.order) (all_closed l)
                k.ordered));
      follows =
          subst (λ (cs : List Closed). order_follows l.order cs ≡ true) (sym (archived_all l))
            k.follows;
    }
  where
    enough : (n : ℕ) → not (ltb n min_page) ≡ true → 16 ≤ n
    enough n h = ground arith

    room : (n : ℕ) → not (max_pages - n == 0) ≡ true → n < 4
    room n h = ground arith

    both : (x y : Bool) → x ≡ true → y ≡ true → (x && y) ≡ true
    both x y a b = ground arith
