-- ===== src/Frontends/Lua/Lexer/Tests.antt =====
-- The lexer on small sources, with a `Unicode` of ASCII.
use inty.Common.{
  ℕ, ◌+◌, ◌*◌, ◌-◌, ◌≡◌, refl, ◌||◌, ◌&&◌, Option, none, some, List, [], ◌∷◌, if◌then◌else◌, leb,
  ◌==◌, arith,
}
use inty.Frontends.Lua.Lexer.Tokens.{number, str, name, eof}
use inty.Frontends.Lua.Lexer.Cursor.{Unicode, ok, err, malformed_number, unterminated_string}
use inty.Frontends.Lua.Lexer.Literals.{is_ascii_digit}
use inty.Frontends.Lua.Lexer.{tokenize}
use inty.Frontends.Lua.Lexer.Spans.{HasLetters}
use inty.Frontends.Lua.Lexer.Total.{Tokenized, tokenize-Tokenized}
use inty.Frontends.Lua.Lexer.Strings.{tokenize-quoted, tokenize-unterminated, quoted}

digits : ℕ → List ℕ → Option ℕ
digits n [] = some n
digits n (c ∷ text) = if is_ascii_digit c then digits (n * 10 + (c - b'0')) text else none

abbrev ascii : Unicode
ascii = record {
  F = ℕ;
  is_whitespace = λ c. c == 32 || c == 10;
  is_alphanumeric =
      λ c. is_ascii_digit c || ((leb b'a' c && leb c b'z') || (leb b'A' c && leb c b'Z'));
  parse = digits 0;
  of_int = λ n. n;
}

ascii_letters : HasLetters ascii
ascii_letters c h = ground arith

abbrev assignment : List ℕ
assignment = b'x' ∷ 32 ∷ b'=' ∷ 32 ∷ b'1' ∷ b'2' ∷ []

tokenize_word :
    tokenize ascii (b'x' ∷ b'1' ∷ [])
    ≡ ok (
        record { value = name (b'x' ∷ b'1' ∷ []); start = 0; end = 2 }
        ∷ record { value = eof; start = 2; end = 2 }
        ∷ [])
unfolding tokenize
tokenize_word = refl

tokenize-Tokenized_example : Tokenized ascii ascii_letters assignment (tokenize ascii assignment)
tokenize-Tokenized_example = tokenize-Tokenized ascii ascii_letters assignment

abbrev with_newline : List ℕ
with_newline = b'a' ∷ 10 ∷ b'"' ∷ 233 ∷ []

tokenize-quoted_example :
    tokenize ascii (quoted with_newline)
    ≡ ok (
        record { value = str with_newline; start = 0; end = 9 }
        ∷ record { value = eof; start = 9; end = 9 }
        ∷ [])
tokenize-quoted_example = tokenize-quoted ascii with_newline refl

tokenize-unterminated_example :
    tokenize ascii (b'"' ∷ b'a' ∷ b'b' ∷ 10 ∷ b'"' ∷ [])
    ≡ err (record { feature = unterminated_string; start = 0; end = 4 })
tokenize-unterminated_example =
    tokenize-unterminated ascii (b'a' ∷ b'b' ∷ []) (b'"' ∷ []) refl (refl, (refl, tt))

tokenize_number :
    tokenize ascii (b'0' ∷ b'x' ∷ b'1' ∷ b'F' ∷ [])
    ≡ ok (
        record { value = number 31; start = 0; end = 4 }
        ∷ record { value = eof; start = 4; end = 4 }
        ∷ [])
unfolding tokenize
tokenize_number = refl

tokenize_hex_error :
    tokenize ascii (32 ∷ b'0' ∷ b'x' ∷ [])
    ≡ err (record { feature = malformed_number; start = 1; end = 3 })
unfolding tokenize
tokenize_hex_error = refl
