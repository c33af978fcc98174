-- ===== src/Catalog/Refine.antt =====
-- The operations on notes as one operation, and its refinement of an operation on sets of labels.
use rootwell.Prelude.{◌≡◌}
use rootwell.Prelude.Bytes.{Bytes}
use rootwell.Outcome.{Result, ok}
use rootwell.Catalog.{Record, associate_location, rename_location, remove_location}
use rootwell.Catalog.Notes.{
  IsTidy, LabelSet, labels_of, delete_label, insert_label, without_notes,
  associate_location_refines,
}
use rootwell.Catalog.Remove.{remove_location_refines}
use rootwell.Catalog.Rename.{rename_location_refines}

pub data NoteOp : Type 0 where
  associate : Bytes → NoteOp
  rename : Bytes → Bytes → NoteOp
  remove : Bytes → NoteOp

abbrev pub apply_note : NoteOp → Record → Result Record
apply_note (associate place) r = associate_location r place
apply_note (rename old new) r = rename_location r old new
apply_note (remove place) r = remove_location r place

-- What the operation is on a set of labels.
abbrev pub on_set : NoteOp → LabelSet → LabelSet
on_set (associate place) s = insert_label place s
on_set (rename old new) s = insert_label new (delete_label old s)
on_set (remove place) s = delete_label place s

-- Each operation on the notes of a tidy record does to the set of its labels what insertion and
-- deletion do to a set; the record stays tidy, with its location the first of at most 32 distinct
-- valid labels, and nothing but the notes changes.
pub apply_note_refines :
    (op : NoteOp) (r r' : Record)
    → IsTidy r
    → apply_note op r ≡ ok r'
    → IsTidy r' × (labels_of r' ≡ on_set op (labels_of r)) × (without_notes r' ≡ without_notes r)
apply_note_refines (associate place) r r' t h = associate_location_refines r r' place t h
apply_note_refines (rename old new) r r' t h = rename_location_refines r r' old new t h
apply_note_refines (remove place) r r' t h = remove_location_refines r r' place t h
