-- ===== src/Records.antt =====
-- internal/inventorystore/manifest.go: the records of an image and the operations on them. A store
-- is an image with the certificates that its encrypted records hold; reading and writing it are
-- decryption and encryption, so that an operation works on what was read.
pub mod Keeps
mod Tests
use rootwell.Prelude.{
  ltb→lt, leb→le, lt→ltb, le→leb, ltb-false, leb-false, not_parts, or_parts, and_parts, all-each,
  ==_iff, ℕ, zero, suc, ◌+◌, ◌-◌, ◌*◌, ◌/◌, ◌%◌, ◌^◌, ◌≤◌, ◌<◌, min, max, String, ◌≡◌, refl, sym,
  ap, subst, ◌∙◌, ◌≢◌, ◌↔◌, ◌⊎◌, inl, inr, Bool, true, false, not, ◌&&◌, ◌||◌, Option, none, some,
  List, [], ◌∷◌, ◌++◌, map, arith, ltb, leb, ◌==◌, if◌then◌else◌, Bool-cases, Option-cases, length,
  get_elem?, get_elem?-set_self, set, all, length-append, if-true, if-false, str_eq, eq_iff,
  eq_refl, tests,
}
use rootwell.Prelude.Bytes.{Bytes, bytes_eq}
use rootwell.Clock.{Instant}
use rootwell.Clock.Stamp.{format}
use rootwell.Outcome.{
  Result, ok, err, invalid, limit, not_found, stale_generation, label, refuse_if, ◌>>=◌,
}
use rootwell.Image.{Image, max_image, max_generation, max_records}
use rootwell.Image.Reserve.{reserved_image_bytes}
use rootwell.Image.History.{add_event}
use rootwell.Inspect.{Decoders}
use rootwell.Catalog.{
  Record, Catalog, add, empty_catalog, valid_label, valid_location, associate_location,
  rename_location, remove_location, update_owner,
}

pub record Store : Type 0 where
  pub image : Image
  pub saved : List Record

-- `LocationChange`; `other` stands for the numbers that name no change.
pub data LocationChange : Type 0 where
  location_rename location_remove other : LocationChange

-- A request to change the notes on a certificate, with the arguments of `AssociateLocation`,
-- `UpdateOwner` and `ChangeLocation`.
pub data NoteChange : Type 0 where
  add_location : Bytes → NoteChange
  set_owner : Bytes → NoteChange
  change_location : Bytes → Bytes → LocationChange → NoteChange

-- `expectedGeneration == 0 || m.Generation != expectedGeneration`
abbrev pub stale : Image → ℕ → Bool
stale m expected = expected == 0 || not (m.generation == expected)

-- The index of the first record with a fingerprint.
unfoldable pub index_of : Bytes → List Record → Option ℕ
index_of id [] = none
index_of id (r ∷ rs) = elim (bytes_eq r.fingerprint id) [
  | true ↦ some 0
  | false ↦ elim (index_of id rs) [ none ↦ none | some i ↦ some (suc i) ]
]

-- The test on the arguments before the record is looked for.
unfoldable pub arguments_refused : NoteChange → Bool
arguments_refused (add_location place) = not (valid_location place)
arguments_refused (set_owner holder) = not (valid_label holder)
arguments_refused (change_location old new location_rename) =
    not (valid_location old) || not (valid_location new)
arguments_refused (change_location old new location_remove) =
    not (valid_location old) || not (length new == 0)
arguments_refused (change_location old new other) = true

-- The change of the record.
unfoldable pub changed : NoteChange → Record → Result Record
changed (add_location place) r = associate_location r place
changed (set_owner holder) r = update_owner r holder
changed (change_location old new location_rename) r = rename_location r old new
changed (change_location old new _) r = remove_location r old

pub action_of : NoteChange → String
action_of (add_location place) = "location-added"
action_of (set_owner holder) = "owner-changed"
action_of (change_location old new location_remove) = "location-removed"
action_of (change_location old new _) = "location-renamed"

-- `size` is the length of an encoded image.
module _ (size : Image → ℕ) where
  -- `encode`
  unfoldable pub encode : Image → Result Image
  encode m = refuse_if (ltb (max_image - reserved_image_bytes m) (size m)) limit (ok m)

  sealed : Store → ℕ → Record → Image → Store × Record
  sealed s index r m = (record { image = m; saved = set s.saved index r }, r)

  -- `resealRecord`; the payload keeps the certificate, its import and its notes.
  unfoldable pub reseal_record : Store → ℕ → String → Instant → Record → Result (Store × Record)
  unfolding sealed
  reseal_record s index action now r =
      add_event (record s.image { generation = s.image.generation + 1 }) action (r.fingerprint ∷ [])
        now
      >>= encode
      >>= (λ (m : Image). ok (sealed s index r m))

  at_index : Store → NoteChange → Instant → Option ℕ → Result (Store × Record)
  at_index s change now none = err not_found
  at_index s change now (some i) = elim (get_elem? s.saved i) [
    | none ↦ err not_found
    | some r ↦ changed change r >>= reseal_record s i (action_of change) now
  ]

  -- `AssociateLocation`, `UpdateOwner` and `ChangeLocation`
  unfoldable pub change_note : Store → Bytes → NoteChange → ℕ → Instant → Result (Store × Record)
  unfolding at_index arguments_refused
  change_note s id change expected now = refuse_if (stale s.image expected) stale_generation (
      refuse_if (leb max_generation s.image.generation) limit
        (refuse_if (arguments_refused change) label (at_index s change now (index_of id s.saved))))

  -- The catalog of the records that are saved.
  catalog_of : Decoders → List Record → Catalog → Result Catalog
  catalog_of d [] c = ok c
  catalog_of d (r ∷ rs) c = elim (add d c r.der r.owner r.location) [
    | ok (c', out) ↦ catalog_of d rs c'
    | err e ↦ err invalid
  ]

  -- The marks of an import on a record.
  imported : ℕ → Instant → Record → Record
  imported generation now r = record r { import_generation = generation; imported_at = format now }

  appended : Store → Instant → Catalog × List Record → Result (Store × List Record)
  unfolding imported
  appended s now (c, added) = refuse_if (ltb max_records (length s.saved + length added)) limit (
      let m = record s.image {
        generation = s.image.generation + 1;
        records = s.image.records + length added;
      } in
      let marked = map (imported m.generation now) added in
      add_event m "import" (map (λ (r : Record). r.fingerprint) added) now
      >>= encode
      >>= (λ (m' : Image). ok (record { image = m'; saved = s.saved ++ marked }, marked)))

  -- `Append`
  unfoldable pub append :
      Decoders → Store → Bytes → Bytes → Bytes → Instant → Result (Store × List Record)
  unfolding catalog_of appended
  append d s input holder place now = refuse_if (leb max_generation s.image.generation) limit (
      catalog_of d s.saved empty_catalog
      >>= (λ (c : Catalog). add d c input holder place)
      >>= appended s now)
