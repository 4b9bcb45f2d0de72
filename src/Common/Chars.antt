-- ===== src/Common/Chars.antt =====
-- Characters as code points, and how long their encodings are.
use Prim.Native.Char.{code}
use Prim.Native.String.{String}
use inty.Common.{ℕ, ◌+◌, ◌<◌, ◌≤◌, ◌≡◌, List, [], ◌∷◌, ◌++◌, arith, if◌then◌else◌, ltb}

-- `char::len_utf8` and `char::len_utf16`
abbrev pub len_utf8 : ℕ → ℕ
len_utf8 c = if ltb c 128 then 1 else if ltb c 2048 then 2 else if ltb c 65536 then 3 else 4

abbrev pub len_utf16 : ℕ → ℕ
len_utf16 c = if ltb c 65536 then 1 else 2

-- `str::len`
abbrev pub bytes : List ℕ → ℕ
bytes [] = 0
bytes (c ∷ text) = len_utf8 c + bytes text

pub len_utf8_pos : (ch : ℕ) → 0 < len_utf8 ch
len_utf8_pos ch = ground arith

pub len_utf16_pos : (ch : ℕ) → (0 < len_utf16 ch) × (len_utf16 ch ≤ len_utf8 ch)
len_utf16_pos ch = ground arith

pub bytes-append : (xs ys : List ℕ) → bytes (xs ++ ys) ≡ bytes xs + bytes ys
bytes-append [] ys = omega arith
bytes-append (x ∷ xs) ys = omega (arith, bytes-append xs ys)

-- The code points of a text.
abbrev pub codes : String → List ℕ
codes String.[] = []
codes (String.◌∷◌ c s) = code c ∷ codes s
