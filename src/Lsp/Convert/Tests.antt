-- ===== src/Lsp/Convert/Tests.antt =====
-- A text of two lines; 233 takes two bytes, 128512 four bytes and two UTF-16 units.
use inty.Common.{ℕ, ◌+◌, ◌≡◌, refl, none, some, List, [], ◌∷◌, ◌++◌, arith}
use inty.Common.Chars.{len_utf8, bytes}
use inty.Lsp.Convert.{byte_to_position, position_to_byte}
use inty.Lsp.Convert.RoundTrip.{position_to_byte-byte_to_position}
use inty.Lsp.Convert.Rounding.{byte_to_position-inside}

abbrev before : List ℕ
before = 97 ∷ 233 ∷ 10 ∷ 128512 ∷ []

abbrev after : List ℕ
after = 98 ∷ 10 ∷ []

position_of_b : byte_to_position (before ++ after) 8 ≡ record { line = 1; character = 2 }
unfolding byte_to_position
position_of_b = refl

no_such_line : position_to_byte after (record { line = 3; character = 0 }) ≡ none
unfolding position_to_byte
no_such_line = refl

position_to_byte-byte_to_position_example :
    position_to_byte (before ++ after) (byte_to_position (before ++ after) (bytes before))
    ≡ some (bytes before)
position_to_byte-byte_to_position_example =
    position_to_byte-byte_to_position before after (omega arith)

byte_to_position-inside_example :
    byte_to_position (before ++ 233 ∷ after) (bytes before + 1)
    ≡ byte_to_position (before ++ 233 ∷ after) (bytes before + len_utf8 233)
byte_to_position-inside_example =
    byte_to_position-inside before 233 after (bytes before + 1) (omega arith) (omega arith)
