-- ===== src/Clock/Stamp.antt =====
-- Timestamp texts. The code stores and compares texts in the layout 2006-01-02T15:04:05Z.
use rootwell.Prelude.{◌==◌, ℕ, ◌/◌, Bool, true, false, ltb, if◌then◌else◌}
use rootwell.Clock.{Instant, second}

-- `blank` is the empty text, `at s` the text of the whole second `s`, and `malformed` any other.
-- In this layout with a year of four digits the order of texts is the order of seconds.
pub data Stamp : Type 0 where
  blank : Stamp
  at : ℕ → Stamp
  malformed : Stamp

-- `t.Format("2006-01-02T15:04:05Z")`
abbrev pub format : Instant → Stamp
format t = at (t / second)

-- The order of texts; no code decides by the order of a malformed text without refusing it.
abbrev pub before : Stamp → Stamp → Bool
before blank (at b) = true
before (at a) (at b) = ltb a b
before _ _ = false

-- `max(a, b)` of two texts.
abbrev pub later : Stamp → Stamp → Stamp
later a b = if before a b then b else a

-- `min(a, b)` of two texts.
abbrev pub earlier : Stamp → Stamp → Stamp
earlier a b = if before b a then b else a

abbrev pub is_blank : Stamp → Bool
is_blank blank = true
is_blank _ = false

-- `a == b` of two texts; two malformed texts are taken apart from one another.
abbrev pub same_stamp : Stamp → Stamp → Bool
same_stamp blank blank = true
same_stamp (at a) (at b) = a == b
same_stamp _ _ = false
