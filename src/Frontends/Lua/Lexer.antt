-- ===== src/Frontends/Lua/Lexer.antt =====
-- crates/inty/src/frontends/lua/lexer.rs: the lexer for the Lua subset. A text is the list of its
-- code points. The lexer's index into the characters is kept as what it stands for: the byte offset
-- `byte_at(pos)` and the characters from there on. The Unicode classes of `char` and the reading of
-- floats are the parameter `Unicode`. The loops of `skip_trivia` and of `tokenize` run on fuel, one
-- round for each character that is left and one more, which is enough (Total).
pub mod Tokens
pub mod Cursor
pub mod Literals
pub mod Symbols
pub mod Steps
pub mod Numbers
pub mod Spans
pub mod Total
pub mod Strings
mod Tests
use inty.Common.{
  ℕ, zero, suc, ◌+◌, ◌*◌, ◌-◌, Bool, true, false, ◌||◌, ◌&&◌, Option, none, some, List, [], ◌∷◌,
  ◌++◌, if◌then◌else◌, ltb, leb, ◌==◌, length,
}
use inty.Common.Chars.{len_utf8, bytes}
use inty.Frontends.Lua.Lexer.Tokens.{Tok, number, str, name, eof, keyword}
use inty.Frontends.Lua.Lexer.Cursor.{
  Unicode, Lexer, LexError, malformed_number, unterminated_string, unterminated_long_string,
  unterminated_long_bracket, Result, ok, err, out_of_fuel, ◌>>=◌, is_at, is_at2, advance,
  take_while,
}
use inty.Frontends.Lua.Lexer.Literals.{is_ascii_digit, number_token, short_string, long_string}
use inty.Frontends.Lua.Lexer.Symbols.{symbol}

-- `while let Some(c) = self.peek() { if c == '\n' { break; } … }`
abbrev is_not_newline : ℕ → Bool
is_not_newline c = if c == b'\n' then false else true

unfoldable pub long_close : (len byte : ℕ) → List ℕ → Result Lexer
long_close len byte [] =
    err (record { feature = unterminated_long_bracket; start = len; end = len })
long_close len byte (c ∷ []) = long_close len (byte + len_utf8 c) []
long_close len byte (c ∷ d ∷ rest) = elim (c == b']' && d == b']') [
  | true ↦ ok (record { len = len; byte = byte + len_utf8 c + len_utf8 d; rest = rest })
  | false ↦ long_close len (byte + len_utf8 c) (d ∷ rest)
]

abbrev pub is_name_start : ℕ → Bool
is_name_start c = (leb b'a' c && leb c b'z') || ((leb b'A' c && leb c b'Z') || c == b'_')

module _ (u : Unicode) where
  -- What follows `--`.
  unfoldable pub comment : Lexer → Result Lexer
  unfolding long_close take_while
  comment s =
      if is_at b'[' s && is_at2 b'[' s
      then long_close s.len (advance (advance s)).byte (advance (advance s)).rest
      else ok (take_while is_not_newline s.len s.byte s.rest).1

  unfoldable pub skip_trivia : ℕ → Lexer → Result Lexer
  unfolding comment
  skip_trivia zero s = out_of_fuel
  skip_trivia (suc k) s = elim s.rest [
    | [] ↦ ok s
    | c ∷ _ ↦ elim (u.is_whitespace c) [
      | true ↦ skip_trivia k (advance s)
      | false ↦ elim (c == b'-' && is_at2 b'-' s) [
        | true ↦ comment (advance (advance s)) >>= skip_trivia k
        | false ↦ ok s
      ]
    ]
  ]

  abbrev pub is_name_part : ℕ → Bool
  is_name_part c = u.is_alphanumeric c || c == b'_'

  abbrev keyword_or : Option (Tok u.F) → List ℕ → Tok u.F
  keyword_or (some t) text = t
  keyword_or none text = name text

  unfoldable pub name_token : Lexer → Tok u.F × Lexer
  unfolding keyword take_while
  name_token s =
      let (text, t) = take_while is_name_part s.len s.byte s.rest in
      (keyword_or (keyword text) text, t)

  -- The token at a character `c`, which is the next one.
  unfoldable pub token : ℕ → Lexer → Result (Tok u.F × Lexer)
  unfolding number_token name_token short_string long_string symbol
  token c s =
      if is_ascii_digit c
      then number_token u s
      else if is_name_start c
      then ok (name_token s)
      else if c == b'"' || c == b'\''
      then short_string c s
      else if c == b'[' && is_at2 b'[' s
      then long_string s
      else symbol c s

  pub record Spanned : Type 0 where
    pub value : Tok u.F
    pub start : ℕ
    pub end : ℕ

  -- The loop of `tokenize` behind `skip_trivia`; `more` is its next round.
  unfoldable pub next_token :
      (Lexer → Result (List Spanned)) → (len byte : ℕ) → List ℕ → Result (List Spanned)
  unfolding token
  next_token more len byte [] = ok (record { value = eof; start = len; end = len } ∷ [])
  next_token more len byte (c ∷ rest) = do
    (tok, v) ← token c (record { len = len; byte = byte; rest = c ∷ rest })
    out ← more v
    ok (record { value = tok; start = byte; end = v.byte } ∷ out)

  unfoldable pub tokens : ℕ → Lexer → Result (List Spanned)
  unfolding skip_trivia next_token
  tokens zero s = out_of_fuel
  tokens (suc k) s = do
    t ← skip_trivia (suc (length s.rest)) s
    next_token (tokens k) t.len t.byte t.rest

  unfoldable pub tokenize : List ℕ → Result (List Spanned)
  unfolding tokens
  tokenize source =
      tokens (suc (length source)) (record { len = bytes source; byte = 0; rest = source })
