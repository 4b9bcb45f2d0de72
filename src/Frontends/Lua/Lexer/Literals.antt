-- ===== src/Frontends/Lua/Lexer/Literals.antt =====
-- Numbers and strings.
use inty.Common.{
  ℕ, ◌+◌, ◌*◌, ◌-◌, ◌^◌, Bool, true, false, ◌||◌, ◌&&◌, Option, none, some, List, [], ◌∷◌, ◌++◌,
  if◌then◌else◌, ltb, leb, ◌==◌,
}
use inty.Common.Chars.{len_utf8}
use inty.Frontends.Lua.Lexer.Tokens.{Tok, number, str}
use inty.Frontends.Lua.Lexer.Cursor.{
  Unicode, Lexer, malformed_number, unterminated_string, unterminated_long_string, Result, ok, err,
  is_at, is_at2, advance, take_while,
}

abbrev pub is_ascii_digit : ℕ → Bool
is_ascii_digit c = leb b'0' c && leb c b'9'

abbrev pub is_hex_digit : ℕ → Bool
is_hex_digit c = is_ascii_digit c || ((leb b'a' c && leb c b'f') || (leb b'A' c && leb c b'F'))

abbrev hex_value : ℕ → ℕ
hex_value c =
    if is_ascii_digit c then c - b'0' else if leb b'a' c then c - b'a' + 10 else c - b'A' + 10

-- `i64::from_str_radix(text, 16)` on hexadecimal digits: none on an empty text and past `i64::MAX`.
unfoldable pub hex_loop : ℕ → List ℕ → Option ℕ
hex_loop n [] = some n
hex_loop n (c ∷ text) = elim (ltb (n * 16 + hex_value c) (2 ^ 63)) [
  | true ↦ hex_loop (n * 16 + hex_value c) text
  | false ↦ none
]

unfoldable pub from_hex : List ℕ → Option ℕ
unfolding hex_loop
from_hex [] = none
from_hex (c ∷ text) = hex_loop 0 (c ∷ text)

-- The fraction and the exponent, each with the lexer behind it.
unfoldable pub fraction : Lexer → List ℕ × Lexer
unfolding take_while
fraction s =
    if is_at b'.' s
    then (
      b'.' ∷ (take_while is_ascii_digit (advance s).len (advance s).byte (advance s).rest).0,
      (take_while is_ascii_digit (advance s).len (advance s).byte (advance s).rest).1,
    )
    else ([], s)

abbrev head : List ℕ → List ℕ
head [] = []
head (c ∷ _) = c ∷ []

abbrev pub sign : Lexer → List ℕ × Lexer
sign s = if is_at b'+' s || is_at b'-' s then (head s.rest, advance s) else ([], s)

unfoldable pub exponent : Lexer → List ℕ × Lexer
unfolding take_while
exponent s =
    if is_at b'e' s || is_at b'E' s
    then (let (plus, t) = sign (advance s) in
        let (digits, v) = take_while is_ascii_digit t.len t.byte t.rest in
        (head s.rest ++ plus ++ digits, v))
    else ([], s)

module _ (u : Unicode) where
  -- The token of what was read, or `num_err`.
  abbrev pub number_or : Option u.F → (start : ℕ) → Lexer → Result (Tok u.F × Lexer)
  number_or (some v) start t = ok (number v, t)
  number_or none start t = err (record { feature = malformed_number; start = start; end = t.byte })

  abbrev pub from_int : Option ℕ → Option u.F
  from_int none = none
  from_int (some v) = some (u.of_int v)

  unfoldable pub hex_number : Lexer → Result (Tok u.F × Lexer)
  unfolding take_while from_hex
  hex_number s =
      let t = advance (advance s) in
      let (text, v) = take_while is_hex_digit t.len t.byte t.rest in
      number_or (from_int (from_hex text)) s.byte v

  unfoldable pub decimal_number : Lexer → Result (Tok u.F × Lexer)
  unfolding take_while fraction exponent
  decimal_number s =
      let (whole, t) = take_while is_ascii_digit s.len s.byte s.rest in
      let (part, v) = fraction t in
      let (power, w) = exponent v in number_or (u.parse (whole ++ part ++ power)) s.byte w

  unfoldable pub number_token : Lexer → Result (Tok u.F × Lexer)
  unfolding hex_number decimal_number
  number_token s =
      if is_at b'0' s && (is_at2 b'x' s || is_at2 b'X' s) then hex_number s else decimal_number s

abbrev pub unescape : ℕ → ℕ
unescape e =
    if e == b'n'
    then 10
    else if e == b't'
    then 9
    else if e == b'r'
    then 13
    else if e == b'0'
    then 0
    else e

module _ {F : Type 0} where
  abbrev pub str_err : (start end : ℕ) → Result (Tok F × Lexer)
  str_err start end = err (record { feature = unterminated_string; start = start; end = end })

  -- The loop of `short_string`, with the text so far.
  unfoldable pub string_loop : (quote start len byte : ℕ) → List ℕ → List ℕ → Result (Tok F × Lexer)
  string_loop quote start len byte text [] = str_err start byte
  string_loop quote start len byte text (c ∷ []) = elim (c == b'\\') [
    | true ↦ str_err start (byte + len_utf8 c)
    | false ↦ elim (c == quote) [
      | true ↦ ok (str text, record { len = len; byte = byte + len_utf8 c; rest = [] })
      | false ↦ elim (c == 10) [
        | true ↦ str_err start (byte + len_utf8 c)
        | false ↦ string_loop quote start len (byte + len_utf8 c) (text ++ c ∷ []) []
      ]
    ]
  ]
  string_loop quote start len byte text (c ∷ d ∷ rest) = elim (c == b'\\') [
    | true ↦
        string_loop quote start len (byte + len_utf8 c + len_utf8 d) (text ++ unescape d ∷ []) rest
    | false ↦ elim (c == quote) [
      | true ↦ ok (str text, record { len = len; byte = byte + len_utf8 c; rest = d ∷ rest })
      | false ↦ elim (c == 10) [
        | true ↦ str_err start (byte + len_utf8 c)
        | false ↦ string_loop quote start len (byte + len_utf8 c) (text ++ c ∷ []) (d ∷ rest)
      ]
    ]
  ]

  unfoldable pub short_string : ℕ → Lexer → Result (Tok F × Lexer)
  unfolding string_loop
  short_string quote s = string_loop quote s.byte s.len (advance s).byte [] (advance s).rest

  unfoldable pub long_loop : (len byte : ℕ) → List ℕ → List ℕ → Result (Tok F × Lexer)
  long_loop len byte text [] =
      err (record { feature = unterminated_long_string; start = len; end = len })
  long_loop len byte text (c ∷ []) = long_loop len (byte + len_utf8 c) (text ++ c ∷ []) []
  long_loop len byte text (c ∷ d ∷ rest) = elim (c == b']' && d == b']') [
    | true ↦ ok (str text, record { len = len; byte = byte + len_utf8 c + len_utf8 d; rest = rest })
    | false ↦ long_loop len (byte + len_utf8 c) (text ++ c ∷ []) (d ∷ rest)
  ]

  unfoldable pub long_string : Lexer → Result (Tok F × Lexer)
  unfolding long_loop
  long_string s = long_loop s.len (advance (advance s)).byte [] (advance (advance s)).rest
