-- ===== src/Catalog/Notes.antt =====
-- The operations on the operator's notes, as operations on the set of a record's labels.
use mathlib.Core.Path.{fun_ext}
use rootwell.Prelude.{
  leb-false, not_parts, ◌≤◌, ◌<◌, ◌≡◌, refl, sym, subst, Bool, true, false, not, ◌&&◌, ◌||◌, List,
  [], ◌∷◌, ◌++◌, arith, ltb, leb, ◌==◌, if◌then◌else◌, length, all, length-append, if-false,
}
use rootwell.Prelude.Bytes.{Bytes, bytes_eq, bytes_eq_refl, bytes_eq→≡, bytes_eq_comm}
use rootwell.Outcome.{ok, refuse_if-eq-ok, label, location_duplicate, location_capacity}
use rootwell.Catalog.{
  Record, associate_location, valid_location_state, valid_location, max_locations, member, is_empty,
  starts_with, first_or_empty,
}

-- No label twice.
unfoldable pub distinct_labels : List Bytes → Bool
distinct_labels [] = true
distinct_labels (l ∷ ls) = not (member l ls) && distinct_labels ls

-- The location is the first of at most 32 distinct valid labels, or empty where there is none.
abbrev pub IsTidy : Record → Type 0
IsTidy r =
    (valid_location_state r ≡ true)
    × (distinct_labels r.locations ≡ true)
    × (all valid_location r.locations ≡ true)

-- The abstract view: a set of labels as its characteristic function.
abbrev pub LabelSet : Type 0
LabelSet = Bytes → Bool

abbrev pub labels_of : Record → LabelSet
labels_of r l = member l r.locations

abbrev pub insert_label : Bytes → LabelSet → LabelSet
insert_label place s l = s l || bytes_eq place l

abbrev pub delete_label : Bytes → LabelSet → LabelSet
delete_label place s l = s l && not (bytes_eq place l)

-- What an operation on labels leaves alone.
abbrev pub without_notes : Record → Record
without_notes r = record r { locations = []; location = [] }

abbrev pub associated : Record → Bytes → Record
associated r place = record r {
  locations = r.locations ++ place ∷ [];
  location = if is_empty r.location then place else r.location;
}

-- The guards that a successful association has passed.
pub record Associable (r r' : Record) (place : Bytes) : Type 0 where
  pub place_valid : valid_location place ≡ true
  pub state_valid : valid_location_state r ≡ true
  pub fresh : member place r.locations ≡ false
  pub room : length r.locations < max_locations
  pub whole : associated r place ≡ r'

pub associate_location-Associable :
    (r r' : Record) (place : Bytes) → associate_location r place ≡ ok r' → Associable r r' place
unfolding associate_location
associate_location-Associable r r' place h =
    let (a, h1) = refuse_if-eq-ok (not (valid_location place)) label _ r' h in
    let (b, h2) = refuse_if-eq-ok (not (valid_location_state r)) label _ r' h1 in
    let (c, h3) = refuse_if-eq-ok (member place r.locations) location_duplicate _ r' h2 in
    let (e, h4) =
      refuse_if-eq-ok (leb max_locations (length r.locations)) location_capacity _ r' h3 in
    record {
      place_valid = not_parts _ a;
      state_valid = not_parts _ b;
      fresh = c;
      room = leb-false max_locations (length r.locations) e;
      whole = ok_same h4;
    }
  where
    ok_same : {q : Record} → ok q ≡ ok r' → q ≡ r'
    ok_same e = cc

pub member-append :
    (l place : Bytes) (ls : List Bytes)
    → member l (ls ++ place ∷ []) ≡ (member l ls || bytes_eq place l)
unfolding member
member-append l place [] = ground arith
member-append l place (m ∷ ls) = ground (arith, member-append l place ls)

pub distinct_labels-append :
    (place : Bytes) (ls : List Bytes)
    → member place ls ≡ false
    → distinct_labels ls ≡ true
    → distinct_labels (ls ++ place ∷ []) ≡ true
unfolding member distinct_labels
distinct_labels-append place [] f d = refl
distinct_labels-append place (m ∷ ls) f d =
    ground (arith, member-append m place ls, distinct_labels-append place ls, bytes_eq_comm place m)

-- The state test, as what it means.
pub valid_location_state-first :
    (r : Record)
    → valid_location_state r ≡ true
    → (first_or_empty r.locations ≡ r.location) × (length r.locations ≤ max_locations)
unfolding valid_location_state
valid_location_state-first r h = parts r.locations r.location h
  where
    parts :
        (ls : List Bytes) (l : Bytes)
        → (length ls == 0 && is_empty l
            || ltb 0 (length ls) && starts_with ls l && leb (length ls) max_locations)
          ≡ true
        → (first_or_empty ls ≡ l) × (length ls ≤ max_locations)
    parts [] [] h = (refl, omega arith)
    parts [] (c ∷ l) h = ground arith
    parts (m ∷ ls) l h = (bytes_eq→≡ m l (ground arith), ground arith)

pub first-valid_location_state :
    (r : Record)
    → first_or_empty r.locations ≡ r.location
    → length r.locations ≤ max_locations
    → valid_location_state r ≡ true
unfolding valid_location_state
first-valid_location_state r e n =
    subst
      (λ (l : Bytes).
        (length r.locations == 0 && is_empty l
          || ltb 0 (length r.locations)
            && starts_with r.locations l
            && leb (length r.locations) max_locations)
        ≡ true)
      e (parts r.locations n)
  where
    parts :
        (ls : List Bytes)
        → length ls ≤ max_locations
        → (length ls == 0 && is_empty (first_or_empty ls)
            || ltb 0 (length ls)
              && starts_with ls (first_or_empty ls)
              && leb (length ls) max_locations)
          ≡ true
    parts [] n = refl
    parts (m ∷ ls) n = ground (arith, bytes_eq_refl m)

associated-first :
    (ls : List Bytes) (l place : Bytes)
    → first_or_empty ls ≡ l
    → all valid_location ls ≡ true
    → first_or_empty (ls ++ place ∷ []) ≡ (if is_empty l then place else l)
unfolding valid_location
associated-first [] l place e v =
    subst (λ (l : Bytes). place ≡ (if is_empty l then place else l)) e refl
associated-first (m ∷ ls) l place e v =
    let full : is_empty m ≡ false = ground arith in
    subst (λ (l : Bytes). m ≡ (if is_empty l then place else l)) e
      (sym (if-false (is_empty m) place m full))

all-append :
    (p : Bytes → Bool) (ls : List Bytes) (place : Bytes)
    → all p ls ≡ true
    → p place ≡ true
    → all p (ls ++ place ∷ []) ≡ true
all-append p [] place a b = ground arith
all-append p (m ∷ ls) place a b = ground (arith, all-append p ls place)

-- On a tidy record a new location is inserted into the set of its labels, the record stays tidy, and
-- nothing but the notes changes.
pub associate_location_refines :
    (r r' : Record) (place : Bytes)
    → IsTidy r
    → associate_location r place ≡ ok r'
    → IsTidy r'
      × (labels_of r' ≡ insert_label place (labels_of r))
      × (without_notes r' ≡ without_notes r)
associate_location_refines r r' place (state, once, valids) h =
    let a = associate_location-Associable r r' place h in
    let (first, few) = valid_location_state-first r state in
    let q = associated r place in
    let longer = length-append r.locations (place ∷ []) in
    let room = a.room in
    subst
      (λ (x : Record).
        IsTidy x
        × (labels_of x ≡ insert_label place (labels_of r))
        × (without_notes x ≡ without_notes r))
      a.whole
      (
        (
          first-valid_location_state q (associated-first r.locations r.location place first valids)
              (omega (arith, longer, room)),
          distinct_labels-append place r.locations a.fresh once,
          all-append valid_location r.locations place valids a.place_valid,
        ),
        fun_ext (λ (l : Bytes). member-append l place r.locations),
        refl,
      )
