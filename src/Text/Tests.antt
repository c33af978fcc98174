-- ===== src/Text/Tests.antt =====
-- White space around a text, in ASCII and above, and bytes that are not UTF-8.
use rootwell.Prelude.{◌≡◌, refl, [], ◌∷◌}
use rootwell.Prelude.Bytes.{codes}
use rootwell.Text.{trim_space, skip_spaces}

trimmed_ascii : trim_space (codes " \n a b\t") ≡ codes "a b"
unfolding trim_space skip_spaces
trimmed_ascii = refl

trimmed_runes :
    trim_space (0xc2 ∷ 0xa0 ∷ 97 ∷ 0xe2 ∷ 0x80 ∷ 0x83 ∷ 32 ∷ 0xe3 ∷ 0x80 ∷ 0x80 ∷ []) ≡ codes "a"
unfolding trim_space skip_spaces
trimmed_runes = refl

kept_bytes : trim_space (0xa0 ∷ 97 ∷ 0x85 ∷ []) ≡ 0xa0 ∷ 97 ∷ 0x85 ∷ []
unfolding trim_space skip_spaces
kept_bytes = refl

only_space : trim_space (0xc2 ∷ 0x85 ∷ 32 ∷ 0xe1 ∷ 0x9a ∷ 0x80 ∷ []) ≡ []
unfolding trim_space skip_spaces
only_space = refl
