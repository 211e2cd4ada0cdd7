-- ===== src/Common/Texts.antt =====
-- A Go string is a sequence of bytes. As a String it has one character for each byte, whose number is
-- the byte.
use Prim.Native.Nat.{ℕ, compare, Ordering}
use Prim.Native.Char.{Char, char, code}
use Prim.Native.String.{String}
use mathlib.Core.Path.{◌≡◌, refl}
use mathlib.Core.List.{List, [], ◌∷◌}

abbrev char_by : (n : ℕ) (o : Ordering) → compare n 55296 ≡ o → Char
char_by n Ordering.lt h = char n (rw h tt)
char_by n Ordering.eq h = char 0 tt
char_by n Ordering.gt h = char 0 tt

abbrev pub of_bytes : List ℕ → String
of_bytes [] = String.[]
of_bytes (b ∷ bs) = String.◌∷◌ (char_by b (compare b 55296) refl) (of_bytes bs)

abbrev pub bytes : String → List ℕ
bytes String.[] = []
bytes (String.◌∷◌ c s) = code c ∷ bytes s
