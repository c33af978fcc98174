-- ===== src/Bundle/Rounds.antt =====
-- The rounds of the loop over a bundle, and the entry that each reads.
use rootwell.Prelude.{
  ℕ, zero, suc, ◌+◌, ◌≡◌, refl, sym, ap, subst, ◌⊎◌, inl, inr, Bool, true, false, not, some, List,
  [], ◌∷◌, ltb, ◌==◌, if◌then◌else◌, length, get_elem?,
}
use rootwell.Prelude.Bytes.{Bytes}
use rootwell.Outcome.{
  Result, metadata_limit, duplicate_certificate, ◌>>=◌, refuse_if, too_large, empty_input, ok,
  >>=-eq-ok, refuse_if-eq-ok, err,
}
use rootwell.Inspect.{max_input_bytes, pem_start, Decoders, max_metadata_text, inspect, Inspection}
use rootwell.Text.{has_prefix, trim_space}
use rootwell.Bundle.{
  parse_bundle, inspect_der, single, max_certificates, together, round, tested, entered, Entry,
  read, seen_in, next_block, admit, inspected,
}

admit-fresh :
    (d : Decoders) (e : Entry) (total n : ℕ) (seen : List Bytes)
    → admit d e total seen ≡ ok n
    → seen_in (d.sha256 e.der) seen ≡ false
unfolding admit
admit-fresh d e total n seen h =
    let total' = total + (length e.inspection.subject + length e.inspection.issuer) in
    let (a, h1) = refuse_if-eq-ok (ltb max_metadata_text total') metadata_limit _ n h in
    let (b, h2) =
      refuse_if-eq-ok (seen_in (d.sha256 e.der) seen) duplicate_certificate (ok total') n h1 in
    b

tested-fresh :
    (d : Decoders) (total : ℕ) (seen : List Bytes) (rest : Bytes) (e : Entry)
    (r : Entry × Bytes × ℕ)
    → tested d total seen rest e ≡ ok r
    → seen_in (d.sha256 r.0.der) seen ≡ false
unfolding tested
tested-fresh d total seen rest e r h =
    let (n, fits, out) =
      >>=-eq-ok (admit d e total seen) (λ (n : ℕ). ok (e, trim_space rest, n)) h in
    subst (λ (r : Entry × Bytes × ℕ). seen_in (d.sha256 r.0.der) seen ≡ false) (ok_same out)
      (admit-fresh d e total n seen fits)
  where
    ok_same : {q : Entry × Bytes × ℕ} → ok q ≡ ok r → q ≡ r
    ok_same e = cc

-- A round that came to an end read an entry with a digest of its own.
round-fresh :
    (d : Decoders) (text : Bytes) (total : ℕ) (seen : List Bytes) (r : Entry × Bytes × ℕ)
    → round d text total seen ≡ ok r
    → seen_in (d.sha256 r.0.der) seen ≡ false
unfolding round entered
round-fresh d text total seen r h =
    let ((contents, rest), h1, k1) = >>=-eq-ok (next_block d text) (entered d total seen) h in
    let (e, h2, k2) = >>=-eq-ok (inspect_der d contents) (tested d total seen rest) k1 in
    tested-fresh d total seen rest e r k2

-- An entry holds the inspection of its own bytes.
abbrev pub IsInspected : Decoders → Entry → Type 0
IsInspected d e = inspect d e.der ≡ ok e.inspection

inspect_der-IsInspected :
    (d : Decoders) (input : Bytes) (e : Entry) → inspect_der d input ≡ ok e → IsInspected d e
unfolding inspect_der inspected
inspect_der-IsInspected d input e h = kept (inspect d input) refl h
  where
    kept :
        (o : Result Inspection) → inspect d input ≡ o → inspected input o ≡ ok e → IsInspected d e
    kept (ok i) p k = subst (λ (x : Entry). IsInspected d x) (ok_same k) p
      where
        ok_same : {x : Entry} → ok x ≡ ok e → x ≡ e
        ok_same q = cc
    kept (err x) p k = cc

tested-entry :
    (d : Decoders) (total : ℕ) (seen : List Bytes) (rest : Bytes) (e : Entry)
    (r : Entry × Bytes × ℕ)
    → tested d total seen rest e ≡ ok r
    → e ≡ r.0
unfolding tested
tested-entry d total seen rest e r h =
    let (n, fits, out) =
      >>=-eq-ok (admit d e total seen) (λ (n : ℕ). ok (e, trim_space rest, n)) h in
    ap (λ (q : Entry × Bytes × ℕ). q.0) (ok_same out)
  where
    ok_same : {q : Entry × Bytes × ℕ} → ok q ≡ ok r → q ≡ r
    ok_same e = cc

round-IsInspected :
    (d : Decoders) (text : Bytes) (total : ℕ) (seen : List Bytes) (r : Entry × Bytes × ℕ)
    → round d text total seen ≡ ok r
    → IsInspected d (r.0)
unfolding round entered
round-IsInspected d text total seen r h =
    let ((contents, rest), h1, k1) = >>=-eq-ok (next_block d text) (entered d total seen) h in
    let (e, h2, k2) = >>=-eq-ok (inspect_der d contents) (tested d total seen rest) k1 in
    subst (λ (x : Entry). IsInspected d x) (tested-entry d total seen rest e r k2)
      (inspect_der-IsInspected d contents e h2)

-- The first entry of a text that was read whole, and the reading of the others.
pub record Opened (d : Decoders) (left : ℕ) (seen : List Bytes) (es : List Entry) : Type 0 where
  pub entry : Entry
  pub entries : List Entry
  pub rest : Bytes
  pub total : ℕ
  pub fresh : seen_in (d.sha256 entry.der) seen ≡ false
  pub own : IsInspected d entry
  pub later : read d left rest total (d.sha256 entry.der ∷ seen) ≡ ok entries
  pub whole : entry ∷ entries ≡ es

pub read-Opened :
    (d : Decoders) (left c : ℕ) (text : Bytes) (total : ℕ) (seen : List Bytes) (es : List Entry)
    → read d (suc left) (c ∷ text) total seen ≡ ok es
    → Opened d left seen es
unfolding read together
read-Opened d left c text total seen es h =
    let (r, h1, k1) = >>=-eq-ok (round d (c ∷ text) total seen) next h in
    let (entries, h2, k2) = >>=-eq-ok (others r) (together (r.0)) k1 in
    record {
      entry = r.0;
      entries = entries;
      rest = r.1;
      total = r.2;
      fresh = round-fresh d (c ∷ text) total seen r h1;
      own = round-IsInspected d (c ∷ text) total seen r h1;
      later = h2;
      whole = ok_same k2;
    }
  where
    others : Entry × Bytes × ℕ → Result (List Entry)
    others r = read d left (r.1) (r.2) (d.sha256 r.0.der ∷ seen)

    next : Entry × Bytes × ℕ → Result (List Entry)
    next r = others r >>= together (r.0)

    ok_same : {xs : List Entry} → ok xs ≡ ok es → xs ≡ es
    ok_same e = cc

-- Where an entry of a list stands.
pub entry_at :
    (x : Entry) (xs es : List Entry) (j : ℕ) (b : Entry)
    → x ∷ xs ≡ es
    → get_elem? es j ≡ some b
    → ((j ≡ 0) × (x ≡ b)) ⊎ ((k : ℕ) × (j ≡ suc k) × (get_elem? xs k ≡ some b))
entry_at x xs es j b e g = at_head j (subst (λ (l : List Entry). get_elem? l j ≡ some b) (sym e) g)
  where
    at_head :
        (j : ℕ)
        → get_elem? (x ∷ xs) j ≡ some b
        → ((j ≡ 0) × (x ≡ b)) ⊎ ((k : ℕ) × (j ≡ suc k) × (get_elem? xs k ≡ some b))
    at_head zero g = inl (refl, cc)
    at_head (suc k) g = inr (k, refl, g)

pub nothing_at : (es : List Entry) (j : ℕ) (b : Entry) → ok [] ≡ ok es → get_elem? es j ≡ some b → ⊥
nothing_at [] j b e g = cc
nothing_at (x ∷ es) j b e g = cc

-- Every entry that is read holds the inspection of its own bytes.
pub read-IsInspected :
    (d : Decoders) (left : ℕ) (text : Bytes) (total : ℕ) (seen : List Bytes) (es : List Entry)
    (j : ℕ) (b : Entry)
    → read d left text total seen ≡ ok es
    → get_elem? es j ≡ some b
    → IsInspected d b
unfolding read
read-IsInspected d left [] total seen es j b h g = absurd (nothing_at es j b h g)
read-IsInspected d zero (c ∷ text) total seen es j b h g = cc
read-IsInspected d (suc left) (c ∷ text) total seen es j b h g =
    let o = read-Opened d left c text total seen es h in
    let deep = λ (k : ℕ).
      read-IsInspected d left o.rest o.total (d.sha256 o.entry.der ∷ seen) o.entries k b o.later in
    elim (entry_at o.entry o.entries es j b o.whole g) [
      | inl (z, same) ↦ subst (λ (x : Entry). IsInspected d x) same o.own
      | inr (k, e, there) ↦ deep k there
    ]

-- The two ways of `Parse`: one certificate as DER, or the loop over a text that is not empty.
pub parse_bundle-cases :
    (d : Decoders) (input : Bytes) (es : List Entry)
    → parse_bundle d input ≡ ok es
    → ((e : Entry) × IsInspected d e × (e ∷ [] ≡ es))
      ⊎ ((length (trim_space input) == 0) ≡ false)
        × (read d max_certificates (trim_space input) 0 [] ≡ ok es)
unfolding parse_bundle single
parse_bundle-cases d input es h =
    let remaining = trim_space input in
    let rest =
      if not (has_prefix pem_start remaining)
      then inspect_der d input >>= single
      else read d max_certificates remaining 0 [] in
    let (small, h1) =
      refuse_if-eq-ok (ltb max_input_bytes (length input)) too_large
        (refuse_if (length remaining == 0) empty_input rest) es h in
    let (some_text, h2) = refuse_if-eq-ok (length remaining == 0) empty_input rest es h1 in
    branch (has_prefix pem_start remaining) some_text h2
  where
    branch :
        (p : Bool)
        → (length (trim_space input) == 0) ≡ false
        → (if not p
            then inspect_der d input >>= single
            else read d max_certificates (trim_space input) 0 [])
          ≡ ok es
        → ((e : Entry) × IsInspected d e × (e ∷ [] ≡ es))
          ⊎ ((length (trim_space input) == 0) ≡ false)
            × (read d max_certificates (trim_space input) 0 [] ≡ ok es)
    branch true z k = inr (z, k)
    branch false z k =
        let (e, a, b) = >>=-eq-ok (inspect_der d input) single k in
        inl (e, inspect_der-IsInspected d input e a, ok_same b)
      where
        ok_same : {xs : List Entry} → ok xs ≡ ok es → xs ≡ es
        ok_same e = cc

pub parse_bundle-IsInspected :
    (d : Decoders) (input : Bytes) (es : List Entry) (j : ℕ) (b : Entry)
    → parse_bundle d input ≡ ok es
    → get_elem? es j ≡ some b
    → IsInspected d b
parse_bundle-IsInspected d input es j b h g = elim (parse_bundle-cases d input es h) [
  | inl (e, own, one) ↦ elim (entry_at e [] es j b one g) [
    | inl (z, same) ↦ subst (λ (x : Entry). IsInspected d x) same own
    | inr (k, z, none_there) ↦ cc
  ]
  | inr (z, k) ↦ read-IsInspected d max_certificates (trim_space input) 0 [] es j b k g
]
