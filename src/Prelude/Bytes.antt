-- ===== src/Prelude/Bytes.antt =====
-- Byte texts, for the code that walks a text: Go strings as lists of byte values.
use Prim.Native.Nat.{ℕ}
use Prim.Native.Char.{code}
use Prim.Native.String.{String}
use mathlib.Core.Bool.{Bool, true, false, ◌&&◌}
use mathlib.Core.List.{List, [], ◌∷◌}
use mathlib.Core.Path.{◌≡◌, refl, ap₂}
use native.Mathlib.Omega.{arith}
use rootwell.Prelude.Tests.{leb, ◌==◌, and_parts, ==_iff}

abbrev pub Bytes : Type 0
Bytes = List ℕ

-- The code points of an ASCII text are its bytes.
abbrev pub codes : String → Bytes
codes String.[] = []
codes (String.◌∷◌ c s) = code c ∷ codes s

abbrev pub is_digit : ℕ → Bool
is_digit c = leb b'0' c && leb c b'9'

unfoldable pub bytes_eq : Bytes → Bytes → Bool
bytes_eq [] [] = true
bytes_eq (x ∷ xs) (y ∷ ys) = x == y && bytes_eq xs ys
bytes_eq [] (y ∷ ys) = false
bytes_eq (x ∷ xs) [] = false

pub bytes_eq_refl : (x : Bytes) → bytes_eq x x ≡ true
unfolding bytes_eq
bytes_eq_refl [] = refl
bytes_eq_refl (c ∷ x) = ground (arith, bytes_eq_refl x)

pub bytes_eq→≡ : (x y : Bytes) → bytes_eq x y ≡ true → x ≡ y
unfolding bytes_eq
bytes_eq→≡ [] [] h = refl
bytes_eq→≡ [] (d ∷ y) h = cc
bytes_eq→≡ (c ∷ x) [] h = cc
bytes_eq→≡ (c ∷ x) (d ∷ y) h =
    let (a, b) = and_parts _ _ h in ap₂ ◌∷◌ ((==_iff c d).0 a) (bytes_eq→≡ x y b)

pub bytes_eq_comm : (x y : Bytes) → bytes_eq x y ≡ bytes_eq y x
unfolding bytes_eq
bytes_eq_comm [] [] = refl
bytes_eq_comm [] (d ∷ y) = refl
bytes_eq_comm (c ∷ x) [] = refl
bytes_eq_comm (c ∷ x) (d ∷ y) = ground (arith, bytes_eq_comm x y)
