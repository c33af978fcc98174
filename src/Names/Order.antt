-- ===== src/Names/Order.antt =====
-- The sorting of names: the order is total, and a list of distinct names sorts into the one
-- ascending list of them.
use rootwell.Prelude.{
  and_parts, suc, ◌≡◌, refl, sym, ap, subst, ◌∙◌, ◌⊎◌, inl, inr, Bool, true, false, not, ◌&&◌, ◌||◌,
  List, [], ◌∷◌, arith, Bool-cases, length, all,
}
use rootwell.Prelude.Bytes.{Bytes, bytes_eq, bytes_eq→≡, bytes_eq_comm}
use rootwell.Catalog.{member}
use rootwell.Catalog.Notes.{distinct_labels}
use rootwell.Names.{bytes_le, insert_name, sort_names}

bytes_le-total : (x y : Bytes) → bytes_le x y ≡ false → bytes_le y x ≡ true
unfolding bytes_le
bytes_le-total [] y h = cc
bytes_le-total (c ∷ x) [] h = refl
bytes_le-total (c ∷ x) (d ∷ y) h = ground (arith, bytes_le-total x y)

bytes_le_trans : (x y z : Bytes) → bytes_le x y ≡ true → bytes_le y z ≡ true → bytes_le x z ≡ true
unfolding bytes_le
bytes_le_trans [] y z a b = refl
bytes_le_trans (c ∷ x) [] z a b = cc
bytes_le_trans (c ∷ x) (d ∷ y) [] a b = cc
bytes_le_trans (c ∷ x) (d ∷ y) (e ∷ z) a b = ground (arith, bytes_le_trans x y z)

bytes_le-antisym : (x y : Bytes) → bytes_le x y ≡ true → bytes_le y x ≡ true → bytes_eq x y ≡ true
unfolding bytes_le bytes_eq
bytes_le-antisym [] [] a b = refl
bytes_le-antisym [] (d ∷ y) a b = cc
bytes_le-antisym (c ∷ x) [] a b = cc
bytes_le-antisym (c ∷ x) (d ∷ y) a b = ground (arith, bytes_le-antisym x y)

-- One name before another.
abbrev pub bytes_lt : Bytes → Bytes → Bool
bytes_lt x y = bytes_le x y && not (bytes_eq x y)

-- Strictly ascending names, each before its neighbour.
unfoldable pub ascending : List Bytes → Bool
ascending [] = true
ascending (n ∷ []) = true
ascending (n ∷ m ∷ ms) = bytes_lt n m && ascending (m ∷ ms)

insert_name-first :
    (n m : Bytes) (ms : List Bytes) → bytes_le n m ≡ true → insert_name n (m ∷ ms) ≡ n ∷ m ∷ ms
unfolding insert_name
insert_name-first n m ms h = ground arith

insert_name-later :
    (n m : Bytes) (ms : List Bytes)
    → bytes_le n m ≡ false
    → insert_name n (m ∷ ms) ≡ m ∷ insert_name n ms
unfolding insert_name
insert_name-later n m ms h = ground arith

member-insert_name :
    (l n : Bytes) (ms : List Bytes) → member l (insert_name n ms) ≡ (bytes_eq n l || member l ms)
unfolding member
member-insert_name l n [] = unfold insert_name in refl
member-insert_name l n (m ∷ ms) = elim (Bool-cases (bytes_le n m)) [
  | inl e ↦ rw (insert_name-first n m ms e) refl
  | inr e ↦ let ih = member-insert_name l n ms in rw (insert_name-later n m ms e) (ground arith)
]

all-insert_name :
    (p : Bytes → Bool) (n : Bytes) (ms : List Bytes) → all p (insert_name n ms) ≡ (p n && all p ms)
all-insert_name p n [] = unfold insert_name in refl
all-insert_name p n (m ∷ ms) = elim (Bool-cases (bytes_le n m)) [
  | inl e ↦ rw (insert_name-first n m ms e) refl
  | inr e ↦ let ih = all-insert_name p n ms in rw (insert_name-later n m ms e) (ground arith)
]

length-insert_name : (n : Bytes) (ms : List Bytes) → length (insert_name n ms) ≡ suc (length ms)
length-insert_name n [] = unfold insert_name in refl
length-insert_name n (m ∷ ms) = elim (Bool-cases (bytes_le n m)) [
  | inl e ↦ rw (insert_name-first n m ms e) refl
  | inr e ↦ rw (insert_name-later n m ms e) (ap suc (length-insert_name n ms))
]

-- A name before the head of an ascending list.
ascending-insert_name :
    (n : Bytes) (ms : List Bytes)
    → ascending ms ≡ true
    → member n ms ≡ false
    → ascending (insert_name n ms) ≡ true
unfolding ascending member
ascending-insert_name n [] a f = unfold insert_name in refl
ascending-insert_name n (m ∷ []) a f = elim (Bool-cases (bytes_le n m)) [
  | inl e ↦ rw (insert_name-first n m [] e) (ground (arith, bytes_eq_comm n m))
  | inr e ↦
      rw (insert_name-later n m [] e)
        (let back = bytes_le-total n m e in unfold insert_name in (ground arith))
]
ascending-insert_name n (m ∷ k ∷ ms) a f = elim (Bool-cases (bytes_le n m)) [
  | inl e ↦ rw (insert_name-first n m (k ∷ ms) e) (ground (arith, bytes_eq_comm n m))
  | inr e ↦
      let ih = ascending-insert_name n (k ∷ ms) (ground arith) (ground arith) in
      let back = bytes_le-total n m e in
      rw (insert_name-later n m (k ∷ ms) e) (below e back ih (Bool-cases (bytes_le n k)))
]
  where
    below :
        bytes_le n m ≡ false
        → bytes_le m n ≡ true
        → ascending (insert_name n (k ∷ ms)) ≡ true
        → (bytes_le n k ≡ true) ⊎ (bytes_le n k ≡ false)
        → ascending (m ∷ insert_name n (k ∷ ms)) ≡ true
    below e back ih (inl t) = rw (insert_name-first n k ms t) (
        let ih1 = subst (λ (l : List Bytes). ascending l ≡ true) (insert_name-first n k ms t) ih in
        ground arith)
    below e back ih (inr t) = rw (insert_name-later n k ms t) (
        let ih1 = subst (λ (l : List Bytes). ascending l ≡ true) (insert_name-later n k ms t) ih in
        ground arith)

pub all-sort_names : (p : Bytes → Bool) (ns : List Bytes) → all p (sort_names ns) ≡ all p ns
unfolding sort_names
all-sort_names p [] = refl
all-sort_names p (n ∷ ns) =
    all-insert_name p n (sort_names ns) ∙ ap (λ (b : Bool). p n && b) (all-sort_names p ns)

pub length-sort_names : (ns : List Bytes) → length (sort_names ns) ≡ length ns
unfolding sort_names
length-sort_names [] = refl
length-sort_names (n ∷ ns) = length-insert_name n (sort_names ns) ∙ ap suc (length-sort_names ns)

pub member-sort_names : (l : Bytes) (ns : List Bytes) → member l (sort_names ns) ≡ member l ns
unfolding sort_names member
member-sort_names l [] = refl
member-sort_names l (n ∷ ns) =
    member-insert_name l n (sort_names ns)
    ∙ ap (λ (b : Bool). bytes_eq n l || b) (member-sort_names l ns)

-- Distinct names sort into an ascending list.
pub ascending-sort_names :
    (ns : List Bytes) → distinct_labels ns ≡ true → ascending (sort_names ns) ≡ true
unfolding sort_names distinct_labels
ascending-sort_names [] d = unfold ascending in refl
ascending-sort_names (n ∷ ns) d =
    let (a, b) = and_parts _ _ d in
    let fresh = member-sort_names n ns in
    ascending-insert_name n (sort_names ns) (ascending-sort_names ns b) (ground arith)

-- A name before the head of an ascending list is none of its names.
head-absent :
    (n m : Bytes) (ms : List Bytes)
    → ascending (m ∷ ms) ≡ true
    → bytes_lt n m ≡ true
    → member n (m ∷ ms) ≡ false
unfolding ascending member
head-absent n m [] a lt = ground (arith, bytes_eq_comm m n)
head-absent n m (k ∷ ms) a lt =
    let (a1, a2) = and_parts _ _ a in
    let (l1, l2) = and_parts _ _ lt in
    let (k1, k2) = and_parts _ _ a1 in
    let low = bytes_le_trans n m k l1 k1 in
    let apart = elim (Bool-cases (bytes_eq n k)) as (λ w. bytes_eq n k ≡ false) [
      | inl t ↦
          let back : bytes_le m n ≡ true =
            subst (λ (x : Bytes). bytes_le m x ≡ true) (sym (bytes_eq→≡ n k t)) k1 in
          let same = bytes_le-antisym n m l1 back in cc
      | inr t ↦ t
    ] in
    let ih = head-absent n k ms a2 (ground arith) in ground (arith, bytes_eq_comm m n)

pub ascending-distinct : (ns : List Bytes) → ascending ns ≡ true → distinct_labels ns ≡ true
unfolding ascending distinct_labels member
ascending-distinct [] a = refl
ascending-distinct (n ∷ []) a = refl
ascending-distinct (n ∷ m ∷ ms) a =
    let (a1, a2) = and_parts _ _ a in
    let ih = ascending-distinct (m ∷ ms) a2 in let absent = head-absent n m ms a2 a1 in ground arith

-- An ascending list is its own sorting.
pub sort_names-fixed : (ns : List Bytes) → ascending ns ≡ true → sort_names ns ≡ ns
unfolding sort_names ascending
sort_names-fixed [] a = refl
sort_names-fixed (n ∷ []) a = unfold insert_name in refl
sort_names-fixed (n ∷ m ∷ ms) a =
    let (a1, a2) = and_parts _ _ a in
    let (l1, l2) = and_parts _ _ a1 in
    ap (insert_name n) (sort_names-fixed (m ∷ ms) a2) ∙ insert_name-first n m ms l1
