-- ===== src/Records/Tests.antt =====
-- A store of one certificate, whose location is renamed.
use rootwell.Prelude.{
  ℕ, zero, suc, ◌*◌, ◌≡◌, refl, subst, false, none, some, [], ◌∷◌, get_elem?, set,
}
use rootwell.Prelude.Bytes.{Bytes, bytes_eq, codes}
use rootwell.Clock.{Instant, day}
use rootwell.Clock.Stamp.{blank}
use rootwell.Text.{trim_left, trim_right}
use rootwell.Text.Runes.{runes, is_space, is_control, is_format, is_separator}
use rootwell.Outcome.{ok, err, stale_generation, refuse_if}
use rootwell.Fingerprint.{valid_fingerprint}
use rootwell.Image.{Image, not_started}
use rootwell.Image.History.{
  add_event, event_refused, valid_event, known_action, distinct, with_event, event_of,
}
use rootwell.Image.Reserve.{total_reserve, order_reserve, reserved_image_bytes}
use rootwell.Dns.Reserve.{dns_plan_reserve}
use rootwell.Catalog.{
  Record, valid_label, valid_location, valid_location_state, rename_location, rename_index, member,
}
use rootwell.Catalog.Notes.{IsTidy, distinct_labels}
use rootwell.Records.{
  Store, NoteChange, change_location, location_rename, changed, action_of, index_of, change_note,
  reseal_record, encode, at_index, sealed, arguments_refused,
}
use rootwell.Records.Keeps.{change_note_keeps, without_labels}

abbrev noon : Instant
noon = 737_500 * day

abbrev id : Bytes
id =
    codes
      "00:11:22:33:44:55:66:77:88:99:AA:BB:CC:DD:EE:FF:00:11:22:33:44:55:66:77:88:99:AA:BB:CC:DD:EE:FF"

abbrev image : Image
image = record {
  generation = 2;
  records = 1;
  history = [];
  archives = [];
  archive_start = 0;
  registration_pending = false;
  order = record { state = not_started; fingerprint = []; expires = blank; records = [] };
  issuance_pending = false;
  config = none;
  plan = none;
  pending_timings = 0;
  historical = false;
}

abbrev certificate : Record
certificate = record {
  fingerprint = id;
  import_generation = 2;
  imported_at = blank;
  der = codes "A";
  subject = [];
  issuer = [];
  dns_names = [];
  not_before = blank;
  not_after = blank;
  owner = [];
  location = codes "web";
  locations = codes "web" ∷ [];
  has_private_key = false;
  key_status = "";
  bundle_der = [];
  issuer_der = [];
  staging_origin = none;
}

abbrev moved : Record
moved = record certificate { location = codes "mail"; locations = codes "mail" ∷ [] }

abbrev store : Store
store = record { image = image; saved = certificate ∷ [] }

abbrev size : Image → ℕ
size m = 1000

abbrev next : Image
next =
    with_event (record image { generation = 3 })
      (event_of (record image { generation = 3 }) "location-renamed" (id ∷ []) noon)

abbrev after : Store
after = record { image = next; saved = moved ∷ [] }

abbrev to_mail : NoteChange
to_mail = change_location (codes "web") (codes "mail") location_rename

renamed_to_mail : change_note size store id to_mail 2 noon ≡ ok (after, moved)
unfolding change_note at_index arguments_refused changed action_of index_of reseal_record encode
    sealed add_event event_refused valid_event known_action distinct total_reserve order_reserve
    reserved_image_bytes dns_plan_reserve valid_fingerprint valid_label valid_location
    valid_location_state rename_location rename_index member runes is_space is_control is_format
    is_separator trim_left trim_right bytes_eq refuse_if
renamed_to_mail = refl

stale_now : change_note size store id to_mail 1 noon ≡ err stale_generation
unfolding change_note refuse_if
stale_now = refl

tidy : (j : ℕ) (x : Record) → get_elem? store.saved j ≡ some x → IsTidy x
unfolding valid_label valid_location valid_location_state distinct_labels member runes is_space
    is_control is_format is_separator trim_left trim_right bytes_eq
tidy zero x g =
    let one : certificate ≡ x = cc in subst (λ (r : Record). IsTidy r) one (refl, refl, refl)
tidy (suc j) x g = cc

change_note_keeps_example :
    (◌≡◌ {A = ℕ} 2 2)
    × (i : ℕ) × (r : Record) × (get_elem? store.saved i ≡ some r)
    × (r.fingerprint ≡ id)
    × (after.saved ≡ set store.saved i moved)
    × IsTidy moved
    × (without_labels moved ≡ without_labels r)
    × (after.image
        ≡ with_event
            (record image { generation = 3 })
            (event_of (record image { generation = 3 }) "location-renamed" (id ∷ []) noon))
unfolding action_of
change_note_keeps_example =
    change_note_keeps size store after id to_mail 2 noon moved tidy renamed_to_mail
