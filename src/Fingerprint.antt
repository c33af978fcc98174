-- ===== src/Fingerprint.antt =====
-- `ValidFingerprint` of internal/publicinventory/compare.go: the text of a SHA-256 fingerprint, 32
-- upper-case hexadecimal pairs joined by colons.
use rootwell.Prelude.{ℕ, zero, suc, Bool, true, false, ◌&&◌, ◌||◌, [], ◌∷◌, leb, ◌==◌}
use rootwell.Prelude.Bytes.{Bytes}

abbrev hex_upper : ℕ → Bool
hex_upper c = leb b'0' c && leb c b'9' || leb b'A' c && leb c b'F'

-- `n` more pairs, each after a colon; `strings.ToUpper(value) != value` refuses the lower case.
pairs : ℕ → Bytes → Bool
pairs zero [] = true
pairs (suc n) (colon ∷ a ∷ b ∷ rest) = colon == b':' && hex_upper a && hex_upper b && pairs n rest
pairs _ _ = false

unfoldable pub valid_fingerprint : Bytes → Bool
unfolding pairs
valid_fingerprint value = pairs 32 (b':' ∷ value)
