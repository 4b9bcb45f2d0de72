-- ===== src/Frontends/Lua/Lexer/Numbers.antt =====
-- Each number and each error of `number_token` lies in the text.
use inty.Common.{
  ℕ, ◌+◌, ◌<◌, ◌≤◌, ◌≡◌, Bool, true, ◌&&◌, ◌||◌, none, some, List, ◌∷◌, arith, Bool-cases, Option,
  inl, inr,
}
use inty.Common.Chars.{len_utf8, len_utf8_pos}
use inty.Frontends.Lua.Lexer.Cursor.{Unicode, Lexer, is_at, is_at2, advance, take_while}
use inty.Frontends.Lua.Lexer.Literals.{
  fraction, exponent, number_token, hex_number, decimal_number, sign, number_or, from_int, from_hex,
  is_ascii_digit, is_hex_digit,
}
use inty.Frontends.Lua.Lexer.Steps.{
  After, After-refl, After-trans, After-le, After-IsWell, IsWell, lexer, advance-After,
  take_while-After, Reads,
}

pub After-within : {s t : Lexer} → After s t → IsWell s → t.byte ≤ s.len
After-within a w = omega (arith, After-IsWell a w, a.same_len)

pub take_while-first :
    (p : ℕ → Bool) (len byte c : ℕ) (rest : List ℕ)
    → p c ≡ true
    → byte < (take_while p len byte (c ∷ rest)).1.byte
unfolding take_while
take_while-first p len byte c rest h =
    rw (take_while, h)
      (omega (arith, len_utf8_pos c, After-le (take_while-After p len (byte + len_utf8 c) rest)))

fraction-After : (s : Lexer) → After s (fraction s).1
unfolding fraction
fraction-After s = elim (Bool-cases (is_at b'.' s)) [
  | inl e ↦
      rw (fraction, e)
        (After-trans (advance-After s)
          (take_while-After is_ascii_digit (advance s).len (advance s).byte (advance s).rest))
  | inr e ↦ rw (fraction, e) (After-refl s)
]

sign-After : (s : Lexer) → After s (sign s).1
sign-After s = elim (Bool-cases (is_at b'+' s || is_at b'-' s)) [
  | inl e ↦ rw (sign, e) (advance-After s)
  | inr e ↦ rw (sign, e) (After-refl s)
]

exponent-After : (s : Lexer) → After s (exponent s).1
unfolding exponent
exponent-After s = elim (Bool-cases (is_at b'e' s || is_at b'E' s)) [
  | inl e ↦
      let t = (sign (advance s)).1 in
      rw (exponent, e)
        (After-trans (advance-After s) (
          After-trans (sign-After (advance s))
            (take_while-After is_ascii_digit t.len t.byte t.rest)))
  | inr e ↦ rw (exponent, e) (After-refl s)
]

module _ (u : Unicode) where
  number_or-Reads :
      (o : Option u.F) (s t : Lexer)
      → IsWell s
      → After s t
      → s.byte < t.byte
      → Reads s (number_or u o s.byte t)
  number_or-Reads none s t w a l = (omega arith, omega arith, After-within a w)
  number_or-Reads (some v) s t w a l = (a, l)

  hex_number-Reads :
      (len byte c : ℕ) (rest : List ℕ)
      → IsWell (lexer len byte (c ∷ rest))
      → Reads (lexer len byte (c ∷ rest)) (hex_number u (lexer len byte (c ∷ rest)))
  unfolding hex_number
  hex_number-Reads len byte c rest w =
      let s = lexer len byte (c ∷ rest) in
      let t = advance (advance s) in
      let v = take_while-After is_hex_digit t.len t.byte t.rest in
      number_or-Reads (from_int u (from_hex (take_while is_hex_digit t.len t.byte t.rest).0)) s _ w
        (After-trans (advance-After s) (After-trans (advance-After (advance s)) v))
        (omega (arith, len_utf8_pos c, After-le (advance-After (advance s)), After-le v))

  decimal_number-Reads :
      (len byte c : ℕ) (rest : List ℕ)
      → IsWell (lexer len byte (c ∷ rest))
      → is_ascii_digit c ≡ true
      → Reads (lexer len byte (c ∷ rest)) (decimal_number u (lexer len byte (c ∷ rest)))
  unfolding decimal_number
  decimal_number-Reads len byte c rest w d =
      let s = lexer len byte (c ∷ rest) in
      let (whole, t) = take_while is_ascii_digit len byte (c ∷ rest) in
      let a = take_while-After is_ascii_digit len byte (c ∷ rest) in
      let first = take_while-first is_ascii_digit len byte c rest d in
      let f = fraction-After t in
      let x = exponent-After (fraction t).1 in
      number_or-Reads (u.parse _) s _ w (After-trans a (After-trans f x))
        (omega (arith, first, After-le f, After-le x))

  pub number_token-Reads :
      (len byte c : ℕ) (rest : List ℕ)
      → IsWell (lexer len byte (c ∷ rest))
      → is_ascii_digit c ≡ true
      → Reads (lexer len byte (c ∷ rest)) (number_token u (lexer len byte (c ∷ rest)))
  unfolding number_token
  number_token-Reads len byte c rest w d =
      let s = lexer len byte (c ∷ rest) in
      elim (Bool-cases (is_at b'0' s && (is_at2 b'x' s || is_at2 b'X' s))) [
        | inl e ↦ rw (number_token, e) (hex_number-Reads len byte c rest w)
        | inr e ↦ rw (number_token, e) (decimal_number-Reads len byte c rest w d)
      ]
