-- ===== src/Text.antt =====
-- Go's `strings`, `bytes` and `unicode` functions as the code uses them, on texts as lists of bytes.
pub mod Runes
mod Tests
use mathlib.Core.List.{reverse}
use rootwell.Prelude.{
  ltb→lt, leb→le, lt→ltb, le→leb, ltb-false, leb-false, not_parts, or_parts, and_parts, all-each,
  ==_iff, ℕ, zero, suc, ◌+◌, ◌-◌, ◌*◌, ◌/◌, ◌%◌, ◌^◌, ◌≤◌, ◌<◌, min, max, String, ◌≡◌, refl, sym,
  ap, subst, ◌∙◌, ◌≢◌, ◌↔◌, ◌⊎◌, inl, inr, Bool, true, false, not, ◌&&◌, ◌||◌, Option, none, some,
  List, [], ◌∷◌, ◌++◌, map, arith, ltb, leb, ◌==◌, if◌then◌else◌, Bool-cases, Option-cases, length,
  get_elem?, get_elem?-set_self, set, all, length-append, if-true, if-false, str_eq, eq_iff,
  eq_refl, tests,
}
use rootwell.Prelude.Bytes.{Bytes, bytes_eq}

-- The ASCII white space of `unicode.IsSpace`.
abbrev pub is_blank_byte : ℕ → Bool
is_blank_byte c = leb 9 c && leb c 13 || c == 32

-- `strings.TrimLeftFunc` and `strings.TrimRightFunc`
unfoldable pub trim_left : (ℕ → Bool) → List ℕ → List ℕ
trim_left p [] = []
trim_left p (c ∷ rest) = let kept = trim_left p rest in if p c then kept else c ∷ rest

abbrev pub keep_right : (ℕ → Bool) → ℕ → List ℕ → List ℕ
keep_right p c [] = if p c then [] else c ∷ []
keep_right p c (d ∷ rest) = c ∷ d ∷ rest

unfoldable pub trim_right : (ℕ → Bool) → List ℕ → List ℕ
trim_right p [] = []
trim_right p (c ∷ rest) = keep_right p c (trim_right p rest)

-- `strings.TrimFunc`
abbrev pub trim : (ℕ → Bool) → List ℕ → List ℕ
trim p text = trim_right p (trim_left p text)

-- `strings.TrimSpace` on ASCII texts.
abbrev pub trim_ascii : Bytes → Bytes
trim_ascii = trim is_blank_byte

-- The runes of `unicode.IsSpace` above ASCII, as UTF-8 writes them in two and in three bytes: 0x85,
-- 0xa0; 0x1680, 0x2000 to 0x200a, 0x2028, 0x2029, 0x202f, 0x205f and 0x3000.
abbrev space_pair : ℕ → ℕ → Bool
space_pair a b = a == 0xc2 && (b == 0x85 || b == 0xa0)

abbrev space_triple : ℕ → ℕ → ℕ → Bool
space_triple a b c =
    a == 0xe1 && b == 0x9a && c == 0x80
    || a == 0xe2 && b == 0x80 && (leb 0x80 c && leb c 0x8a || c == 0xa8 || c == 0xa9 || c == 0xaf)
    || a == 0xe2 && b == 0x81 && c == 0x9f
    || a == 0xe3 && b == 0x80 && c == 0x80

-- The number of bytes of the white space that a text begins with, and of the one that a text ends
-- with, whose bytes come last first; none where there is no white space.
abbrev space_front : Bytes → ℕ
space_front [] = 0
space_front (a ∷ []) = if is_blank_byte a then 1 else 0
space_front (a ∷ b ∷ []) = if is_blank_byte a then 1 else if space_pair a b then 2 else 0
space_front (a ∷ b ∷ c ∷ text) =
    if is_blank_byte a then 1 else if space_pair a b then 2 else if space_triple a b c then 3 else 0

abbrev space_back : Bytes → ℕ
space_back [] = 0
space_back (c ∷ []) = if is_blank_byte c then 1 else 0
space_back (c ∷ b ∷ []) = if is_blank_byte c then 1 else if space_pair b c then 2 else 0
space_back (c ∷ b ∷ a ∷ text) =
    if is_blank_byte c then 1 else if space_pair b c then 2 else if space_triple a b c then 3 else 0

-- The text without its white space in front, `n` bytes of it still to pass.
skip_spaces : (Bytes → ℕ) → ℕ → Bytes → Bytes
skip_spaces width n [] = []
skip_spaces width (suc n) (c ∷ text) = skip_spaces width n text
skip_spaces width zero (c ∷ text) = elim (width (c ∷ text)) [
  | zero ↦ c ∷ text
  | suc n ↦ skip_spaces width n text
]

-- `bytes.TrimSpace`: a byte that is not part of UTF-8 is no white space.
unfoldable pub trim_space : Bytes → Bytes
unfolding skip_spaces
trim_space text = reverse (skip_spaces space_back 0 (reverse (skip_spaces space_front 0 text)))

-- `strings.HasPrefix`, and the rest after a prefix.
unfoldable pub after_prefix : Bytes → Bytes → Option Bytes
after_prefix [] text = some text
after_prefix (p ∷ ps) [] = none
after_prefix (p ∷ ps) (c ∷ text) = let rest = after_prefix ps text in if p == c then rest else none

unfoldable pub has_prefix : Bytes → Bytes → Bool
has_prefix [] text = true
has_prefix (p ∷ ps) [] = false
has_prefix (p ∷ ps) (c ∷ text) = p == c && has_prefix ps text

abbrev pub rest_or : Bytes → Option Bytes → Bytes
rest_or text none = text
rest_or text (some rest) = rest

-- `strings.TrimPrefix(text, prefix)`
abbrev pub trim_prefix : Bytes → Bytes → Bytes
trim_prefix prefix text = rest_or text (after_prefix prefix text)

-- `strings.HasSuffix(text, suffix)`
unfoldable pub has_suffix : Bytes → Bytes → Bool
has_suffix suffix [] = bytes_eq suffix []
has_suffix suffix (c ∷ text) = bytes_eq suffix (c ∷ text) || has_suffix suffix text

-- `strings.IndexByte(text, c) >= 0`
unfoldable pub contains : ℕ → Bytes → Bool
contains c [] = false
contains c (d ∷ text) = c == d || contains c text

abbrev pub add_byte : ℕ → List Bytes → List Bytes
add_byte c [] = (c ∷ []) ∷ []
add_byte c (part ∷ parts) = (c ∷ part) ∷ parts

-- `strings.Split` at one byte.
unfoldable pub split : ℕ → Bytes → List Bytes
split sep [] = [] ∷ []
split sep (c ∷ text) =
    let parts = split sep text in if c == sep then [] ∷ parts else add_byte c parts

-- `strings.ToLower` on ASCII texts.
abbrev pub lower_byte : ℕ → ℕ
lower_byte c = if leb b'A' c && leb c b'Z' then c + 32 else c

abbrev pub lower : Bytes → Bytes
lower = map lower_byte
