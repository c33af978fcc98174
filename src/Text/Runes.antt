-- ===== src/Text/Runes.antt =====
-- Go's `unicode/utf8` and `unicode` as the label test uses them: a text as its runes.
use rootwell.Prelude.{
  ℕ, zero, suc, ◌+◌, ◌-◌, ◌*◌, Bool, true, false, ◌&&◌, ◌||◌, Option, none, some, List, [], ◌∷◌,
  leb, ◌==◌, if◌then◌else◌,
}
use mathlib.Core.Option
use rootwell.Prelude.Bytes.{Bytes}

-- What the first byte of a rune asks of the bytes that follow: how many, the value so far, and the
-- range of the next one. Overlong forms and surrogates are outside the ranges.
abbrev lead : ℕ → Option (ℕ × ℕ × ℕ × ℕ)
lead b =
    if leb b 0x7f
    then some (0, b, 0x80, 0xbf)
    else if leb 0xc2 b && leb b 0xdf
    then some (1, b - 0xc0, 0x80, 0xbf)
    else if b == 0xe0
    then some (2, 0, 0xa0, 0xbf)
    else if b == 0xed
    then some (2, 0xd, 0x80, 0x9f)
    else if leb 0xe1 b && leb b 0xef
    then some (2, b - 0xe0, 0x80, 0xbf)
    else if b == 0xf0
    then some (3, 0, 0x90, 0xbf)
    else if leb 0xf1 b && leb b 0xf3
    then some (3, b - 0xf0, 0x80, 0xbf)
    else if b == 0xf4
    then some (3, 4, 0x80, 0x8f)
    else none

abbrev emit : ℕ → ℕ → Option (List ℕ) → Option (List ℕ)
emit zero rune rest = Option.map (λ l. rune ∷ l) rest
emit (suc n) rune rest = rest

-- The bytes of the rune at hand, `more` of them to come.
decode : ℕ → ℕ → ℕ → ℕ → Bytes → Option (List ℕ)
decode zero value lo hi [] = some []
decode (suc more) value lo hi [] = none
decode zero value lo hi (b ∷ rest) = elim (lead b) [
  | none ↦ none
  | some (more, first, lo', hi') ↦ emit more first (decode more first lo' hi' rest)
]
decode (suc more) value lo hi (b ∷ rest) =
    let value' = 64 * value + (b - 0x80) in
    elim (leb lo b && leb b hi) [
      | true ↦ emit more value' (decode more value' 0x80 0xbf rest)
      | false ↦ none
    ]

-- The runes of a text, or none where `utf8.ValidString` refuses it.
unfoldable pub runes : Bytes → Option (List ℕ)
unfolding decode
runes = decode 0 0 0 0

abbrev within : ℕ → ℕ → ℕ → Bool
within lo hi r = leb lo r && leb r hi

-- `unicode.IsSpace`
unfoldable pub is_space : ℕ → Bool
is_space r =
    within 9 13 r
    || r == 32
    || r == 0x85
    || r == 0xa0
    || r == 0x1680
    || within 0x2000 0x200a r
    || within 0x2028 0x2029 r
    || r == 0x202f
    || r == 0x205f
    || r == 0x3000

-- `unicode.IsControl`
unfoldable pub is_control : ℕ → Bool
is_control r = leb r 0x1f || within 0x7f 0x9f r

-- The table `unicode.Cf`.
unfoldable pub is_format : ℕ → Bool
is_format r =
    r == 0xad
    || within 0x600 0x605 r
    || r == 0x61c
    || r == 0x6dd
    || r == 0x70f
    || within 0x890 0x891 r
    || r == 0x8e2
    || r == 0x180e
    || within 0x200b 0x200f r
    || within 0x202a 0x202e r
    || within 0x2060 0x2064 r
    || within 0x2066 0x206f r
    || r == 0xfeff
    || within 0xfff9 0xfffb r
    || r == 0x110bd
    || r == 0x110cd
    || within 0x13430 0x1343f r
    || within 0x1bca0 0x1bca3 r
    || within 0x1d173 0x1d17a r
    || r == 0xe0001
    || within 0xe0020 0xe007f r

-- The tables `unicode.Zl` and `unicode.Zp`.
unfoldable pub is_separator : ℕ → Bool
is_separator r = within 0x2028 0x2029 r
