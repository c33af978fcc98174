-- ===== src/Catalog/Added.antt =====
-- What an import leaves: distinct fingerprints, the set of them, and the limit of the draft.
use rootwell.Archive.Pages.{append_assoc}
use mathlib.Core.List.{append-nil}
use rootwell.Prelude.{
  ltb-false, or_parts, and_parts, ℕ, zero, suc, ◌+◌, ◌≤◌, ◌≡◌, refl, sym, ap, subst, ◌∙◌, inl, inr,
  Bool, true, false, not, ◌||◌, some, List, [], ◌∷◌, ◌++◌, map, arith, ltb, Bool-cases, length,
  get_elem?, length-append,
}
use rootwell.Prelude.Bytes.{Bytes, bytes_eq, bytes_eq→≡, bytes_eq_comm}
use rootwell.Outcome.{
  Result, ok, err, refuse_if-eq-ok, >>=-eq-ok, ◌>>=◌, cert_size, capacity, duplicate, label,
}
use rootwell.Inspect.{Decoders, colon_hex}
use rootwell.Inspect.Fingerprints.{
  KeepsRaw, is_plain, is_bytes, colon_hex-injective, inspect-fingerprint,
}
use rootwell.Bundle.{Entry, parse_bundle}
use rootwell.Bundle.Rounds.{parse_bundle-IsInspected}
use rootwell.Bundle.Distinct.{parse_bundle_distinct}
use rootwell.Catalog.{
  Record, Catalog, add, extended, batch_of, record_of, any_seen, member, valid_label, max_der_bytes,
  max_draft, fingerprint_of,
}
use rootwell.Catalog.Notes.{distinct_labels, member-append, distinct_labels-append}

-- The map of fingerprints is that of the records, no two records share one, and they fit.
pub record IsSound (c : Catalog) : Type 0 where
  pub listed : map fingerprint_of c.records ≡ c.seen
  pub once : distinct_labels c.seen ≡ true
  pub few : length c.records ≤ max_draft

batch_of-rest :
    (holder place : Bytes) (e : Entry) (es : List Entry) (rs : List Record)
    → batch_of holder place (e ∷ es) ≡ ok rs
    → (rest : List Record) × (batch_of holder place es ≡ ok rest)
      × (record_of holder place e ∷ rest ≡ rs)
unfolding batch_of
batch_of-rest holder place e es rs h = small (ltb max_der_bytes (length e.der)) h
  where
    next : List Record → Result (List Record)
    next rest = ok (record_of holder place e ∷ rest)

    small :
        (t : Bool)
        → (elim t [ true ↦ err cert_size | false ↦ batch_of holder place es >>= next ]) ≡ ok rs
        → (rest : List Record) × (batch_of holder place es ≡ ok rest)
          × (record_of holder place e ∷ rest ≡ rs)
    small true h = cc
    small false h = let (rest, a, b) = >>=-eq-ok (batch_of holder place es) next h in (rest, a, cc)

-- A record of a batch is that of the entry at its place.
batch_of-at :
    (holder place : Bytes) (es : List Entry) (rs : List Record) (i : ℕ) (r : Record)
    → batch_of holder place es ≡ ok rs
    → get_elem? rs i ≡ some r
    → (e : Entry) × (get_elem? es i ≡ some e) × (record_of holder place e ≡ r)
unfolding batch_of
batch_of-at holder place [] rs i r h g = absurd (nothing rs i h g)
  where
    nothing : (rs : List Record) (i : ℕ) → ok [] ≡ ok rs → get_elem? rs i ≡ some r → ⊥
    nothing [] i e g = cc
    nothing (x ∷ rs) i e g = cc
batch_of-at holder place (e ∷ es) rs i r h g =
    let (rest, more, whole) = batch_of-rest holder place e es rs h in
    at_place rest (batch_of-at holder place es rest) more i
      (subst (λ (l : List Record). get_elem? l i ≡ some r) (sym whole) g)
  where
    at_place :
        (rest : List Record)
        → ((i : ℕ) (r : Record)
            → batch_of holder place es ≡ ok rest
            → get_elem? rest i ≡ some r
            → (e : Entry) × (get_elem? es i ≡ some e) × (record_of holder place e ≡ r))
        → batch_of holder place es ≡ ok rest
        → (i : ℕ) → get_elem? (record_of holder place e ∷ rest) i ≡ some r
        → (x : Entry) × (get_elem? (e ∷ es) i ≡ some x) × (record_of holder place x ≡ r)
    at_place rest ih more zero g = (e, refl, cc)
    at_place rest ih more (suc k) g = ih k r more g

lone-member :
    (first : Bytes) (rs : List Record)
    → ((j : ℕ) (b : Record) → get_elem? rs j ≡ some b → first ≡ b.fingerprint → ⊥)
    → member first (map fingerprint_of rs) ≡ false
unfolding member
lone-member first [] apart = refl
lone-member first (r ∷ rs) apart =
    let ih = lone-member first rs (λ j b g e. apart (suc j) b g e) in
    elim (Bool-cases (bytes_eq r.fingerprint first)) [
      | inl t ↦ absurd (apart 0 r refl (sym (bytes_eq→≡ r.fingerprint first t)))
      | inr f ↦ ground arith
    ]

-- Distinct places with distinct texts make a list without repetition.
places-distinct :
    (rs : List Record)
    → ((i j : ℕ) (a b : Record)
        → get_elem? rs i ≡ some a
        → get_elem? rs j ≡ some b
        → a.fingerprint ≡ b.fingerprint
        → i ≡ j)
    → distinct_labels (map fingerprint_of rs) ≡ true
unfolding distinct_labels
places-distinct [] apart = refl
places-distinct (r ∷ rs) apart =
    let ih =
      places-distinct rs (λ i j a b ga gb e. omega (arith, apart (suc i) (suc j) a b ga gb e)) in
    let absent =
      lone-member r.fingerprint rs (λ j b gb e. omega (arith, apart 0 (suc j) r b refl gb e)) in
    ground arith

any_seen-append :
    (seen : List Bytes) (first : Bytes) (rs : List Record)
    → any_seen seen rs ≡ false
    → member first (map fingerprint_of rs) ≡ false
    → any_seen (seen ++ first ∷ []) rs ≡ false
unfolding any_seen member
any_seen-append seen first [] a b = refl
any_seen-append seen first (r ∷ rs) a b = ground (
  arith,
  any_seen-append seen first rs,
  member-append r.fingerprint first seen,
  bytes_eq_comm first r.fingerprint,
)

-- Fingerprints that were not seen, and do not repeat, extend a set of them.
seen-distinct :
    (rs : List Record) (seen : List Bytes)
    → distinct_labels seen ≡ true
    → any_seen seen rs ≡ false
    → distinct_labels (map fingerprint_of rs) ≡ true
    → distinct_labels (seen ++ map fingerprint_of rs) ≡ true
unfolding any_seen distinct_labels
seen-distinct [] seen a b c = rw append-nil a
seen-distinct (r ∷ rs) seen a b c =
    let (b1, b2) = or_parts _ _ b in
    let (c1, c2) = and_parts _ _ c in
    let longer = distinct_labels-append r.fingerprint seen b1 a in
    let fresh = any_seen-append seen r.fingerprint rs b2 (ground arith) in
    subst (λ (l : List Bytes). distinct_labels l ≡ true)
      (append_assoc seen (r.fingerprint ∷ []) (map fingerprint_of rs))
      (seen-distinct rs (seen ++ r.fingerprint ∷ []) longer fresh c2)

extended-eq-ok :
    (c c' : Catalog) (batch out : List Record)
    → extended c batch ≡ ok (c', out)
    → (length c.records + length batch ≤ max_draft)
      × (any_seen c.seen batch ≡ false)
      × (c' ≡ record { records = c.records ++ batch; seen = c.seen ++ map fingerprint_of batch })
      × (batch ≡ out)
unfolding extended
extended-eq-ok c c' batch out h =
    let grown : Catalog = record {
      records = c.records ++ batch;
      seen = c.seen ++ map fingerprint_of batch;
    } in
    let (a, h1) =
      refuse_if-eq-ok (ltb max_draft (length c.records + length batch)) capacity _ (c', out) h in
    let (b, h2) = refuse_if-eq-ok (any_seen c.seen batch) duplicate _ (c', out) h1 in
    let same : (c', out) ≡ (grown, batch) = cc in
    (
      ltb-false max_draft (length c.records + length batch) a,
      b,
      ap (λ (p : Catalog × List Record). p.0) same,
      ap (λ (p : Catalog × List Record). p.1) (sym same),
    )

-- The entries of an import, and what a batch of it adds.
add-eq-ok :
    (d : Decoders) (c c' : Catalog) (input holder place : Bytes) (out : List Record)
    → add d c input holder place ≡ ok (c', out)
    → (es : List Entry) × (parse_bundle d input ≡ ok es)
      × (batch_of holder place es ≡ ok out)
      × (extended c out ≡ ok (c', out))
unfolding add
add-eq-ok d c c' input holder place out h =
    let (a, h1) =
      refuse_if-eq-ok (not (valid_label holder) || not (valid_label place)) label
        (parse_bundle d input >>= batched >>= extended c) (c', out) h in
    let (batch, h2, h3) = >>=-eq-ok (parse_bundle d input >>= batched) (extended c) h1 in
    let (es, p, b) = >>=-eq-ok (parse_bundle d input) batched h2 in
    let (few, fresh, grown, same) = extended-eq-ok c c' batch out h3 in
    (
      es,
      p,
      subst (λ (l : List Record). batched es ≡ ok l) same b,
      subst (λ (l : List Record). extended c l ≡ ok (c', out)) same h3,
    )
  where
    batched : List Entry → Result (List Record)
    batched es = batch_of holder place es

-- What crypto/sha256 documents: a digest is a list of bytes.
abbrev pub GivesBytes : Decoders → Type 0
GivesBytes d = (text : Bytes) → is_bytes (d.sha256 text) ≡ true

-- The fingerprints of an import do not repeat, where no entry is itself a PEM text.
batch-distinct :
    (d : Decoders) (input holder place : Bytes) (es : List Entry) (out : List Record)
    → KeepsRaw d
    → GivesBytes d
    → parse_bundle d input ≡ ok es
    → batch_of holder place es ≡ ok out
    → ((i : ℕ) (r : Record) → get_elem? out i ≡ some r → is_plain r.der ≡ true)
    → distinct_labels (map fingerprint_of out) ≡ true
batch-distinct d input holder place es out raw gives p b plain =
    places-distinct out (λ i j a c ga gc e. same_place i j a c ga gc e)
  where
    digest_of :
        (i : ℕ) (r : Record)
        → get_elem? out i ≡ some r
        → (e : Entry) × (get_elem? es i ≡ some e) × (r.fingerprint ≡ colon_hex (d.sha256 e.der))
    digest_of i r g =
        let (e, there, whole) = batch_of-at holder place es out i r b g in
        let flat = subst (λ (x : Record). is_plain x.der ≡ true) (sym whole) (plain i r g) in
        let own = parse_bundle-IsInspected d input es i e p there in
        (
          e,
          there,
          ap (λ (x : Record). x.fingerprint) (sym whole)
              ∙ inspect-fingerprint d e.der e.inspection raw flat own,
        )

    same_place :
        (i j : ℕ) (a c : Record)
        → get_elem? out i ≡ some a
        → get_elem? out j ≡ some c
        → a.fingerprint ≡ c.fingerprint
        → i ≡ j
    same_place i j a c ga gc e =
        let (x, gx, fx) = digest_of i a ga in
        let (y, gy, fy) = digest_of j c gc in
        let digests =
          colon_hex-injective (d.sha256 x.der) (d.sha256 y.der) (gives x.der) (gives y.der)
            (sym fx ∙ e ∙ fy) in
        (parse_bundle_distinct d input es i j x y p gx gy digests).0

map-append : (f : Record → Bytes) (xs ys : List Record) → map f (xs ++ ys) ≡ map f xs ++ map f ys
map-append f [] ys = refl
map-append f (x ∷ xs) ys = ap (λ (l : List Bytes). f x ∷ l) (map-append f xs ys)

-- An import into a sound catalog appends its whole batch and leaves the catalog sound: the map of
-- fingerprints is that of the records, no two records share one, and there are at most 500. It is
-- under the condition that no certificate of the batch is itself a PEM text, and that the standard
-- library gives a certificate's raw bytes and digests of bytes.
pub add-IsSound :
    (d : Decoders) (c c' : Catalog) (input holder place : Bytes) (out : List Record)
    → KeepsRaw d
    → GivesBytes d
    → IsSound c
    → add d c input holder place ≡ ok (c', out)
    → ((i : ℕ) (r : Record) → get_elem? out i ≡ some r → is_plain r.der ≡ true)
    → IsSound c' × (c'.records ≡ c.records ++ out)
add-IsSound d c c' input holder place out raw gives sound h plain =
    let (es, p, b, x) = add-eq-ok d c c' input holder place out h in
    let (few, fresh, grown, same) = extended-eq-ok c c' out out x in
    let apart = batch-distinct d input holder place es out raw gives p b plain in
    let size = length-append c.records out in
    subst (λ (q : Catalog). IsSound q × (q.records ≡ c.records ++ out)) (sym grown)
      (
        record {
          listed =
              map-append fingerprint_of c.records out
              ∙ ap (λ (l : List Bytes). l ++ map fingerprint_of out) sound.listed;
          once = seen-distinct out c.seen sound.once fresh apart;
          few = omega (arith, few, size);
        },
        refl,
      )
