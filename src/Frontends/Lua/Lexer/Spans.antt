-- ===== src/Frontends/Lua/Lexer/Spans.antt =====
-- Each token and each error of `token` lies in the text.
use inty.Common.{
  ℕ, ◌+◌, ◌<◌, ◌≡◌, true, ◌&&◌, ◌||◌, List, [], ◌∷◌, ◌++◌, arith, Bool-cases, Option-cases, inl,
  inr, if◌then◌else◌, ◌==◌, subst,
}
use inty.Common.Chars.{len_utf8, len_utf8_pos}
use inty.Frontends.Lua.Lexer.Tokens.{Tok, ellipsis, concat, dot}
use inty.Frontends.Lua.Lexer.Cursor.{Unicode, Lexer, is_at, is_at2, advance}
use inty.Frontends.Lua.Lexer.Literals.{
  string_loop, short_string, long_loop, long_string, is_ascii_digit,
}
use inty.Frontends.Lua.Lexer.Symbols.{followed, compound, symbol, single}
use inty.Frontends.Lua.Lexer.{token, name_token, is_name_start, is_name_part}
use inty.Frontends.Lua.Lexer.Steps.{
  After, After-trans, After-le, IsWell, lexer, next-After, advance-After, take_while-After, Reads,
}
use inty.Frontends.Lua.Lexer.Numbers.{After-within, take_while-first, number_token-Reads}

module _ (F : Type 0) where
  string_loop-Reads :
      (s : Lexer) (quote byte : ℕ) (text rest : List ℕ)
      → IsWell s
      → After s (lexer s.len byte rest)
      → s.byte < byte
      → Reads {F = F} s (string_loop quote s.byte s.len byte text rest)
  unfolding string_loop
  string_loop-Reads s quote byte text [] w a l = (omega arith, omega arith, After-within a w)
  string_loop-Reads s quote byte text (c ∷ []) w a l =
      let b = After-trans a (next-After s.len byte c []) in
      let l' : s.byte < byte + len_utf8 c = omega arith in
      elim (Bool-cases (c == b'\\')) [
        | inl e ↦ rw (string_loop, e) (omega arith, omega arith, After-within b w)
        | inr e ↦ elim (Bool-cases (c == quote)) [
          | inl q ↦ rw (string_loop, e, q) (b, l')
          | inr q ↦ elim (Bool-cases (c == 10)) [
            | inl n ↦ rw (string_loop, e, q, n) (omega arith, omega arith, After-within b w)
            | inr n ↦ rw (string_loop, e, q, n) (omega arith, omega arith, After-within b w)
          ]
        ]
      ]
  string_loop-Reads s quote byte text (c ∷ d ∷ rest) w a l =
      let b = After-trans a (next-After s.len byte c (d ∷ rest)) in
      let l' : s.byte < byte + len_utf8 c = omega arith in
      elim (Bool-cases (c == b'\\')) [
        | inl e ↦
            rw (string_loop, e)
              (string_loop-Reads s quote (byte + len_utf8 c + len_utf8 d) _ rest w
                (After-trans b (next-After s.len (byte + len_utf8 c) d rest)) (omega arith))
        | inr e ↦ elim (Bool-cases (c == quote)) [
          | inl q ↦ rw (string_loop, e, q) (b, l')
          | inr q ↦ elim (Bool-cases (c == 10)) [
            | inl n ↦ rw (string_loop, e, q, n) (omega arith, omega arith, After-within b w)
            | inr n ↦
                rw (string_loop, e, q, n)
                  (string_loop-Reads s quote (byte + len_utf8 c) (text ++ c ∷ []) (d ∷ rest) w b l')
          ]
        ]
      ]

  long_loop-Reads :
      (s : Lexer) (byte : ℕ) (text rest : List ℕ)
      → IsWell s
      → After s (lexer s.len byte rest)
      → s.byte < byte
      → Reads {F = F} s (long_loop s.len byte text rest)
  unfolding long_loop
  long_loop-Reads s byte text [] w a l = (omega arith, omega arith, omega arith)
  long_loop-Reads s byte text (c ∷ []) w a l = (omega arith, omega arith, omega arith)
  long_loop-Reads s byte text (c ∷ d ∷ rest) w a l =
      let b = After-trans a (next-After s.len byte c (d ∷ rest)) in
      elim (Bool-cases (c == b']' && d == b']')) [
        | inl e ↦
            rw (long_loop, e)
              (After-trans b (next-After s.len (byte + len_utf8 c) d rest), omega arith)
        | inr e ↦
            rw (long_loop, e)
              (long_loop-Reads s (byte + len_utf8 c) (text ++ c ∷ []) (d ∷ rest) w b (omega arith))
      ]

  -- A token and the lexer behind it.
  abbrev Good : Lexer → Tok F × Lexer → Type 0
  Good s o = After s o.1 × (s.byte < o.1.byte)

  followed-Good :
      (s v : Lexer) (c : ℕ) (t : Tok F) (o : Tok F × Lexer)
      → After s v
      → s.byte < v.byte
      → Good s o
      → Good s (followed c t o v)
  unfolding followed
  followed-Good s v c t o a l g = elim (Bool-cases (is_at c v)) [
    | inl e ↦
        rw (followed, e)
          (After-trans a (advance-After v), omega (arith, After-le (advance-After v)))
    | inr e ↦ rw (followed, e) g
  ]

  compound-Reads :
      (s v : Lexer) (c : ℕ)
      → IsWell s
      → After s v
      → s.byte < v.byte
      → Reads {F = F} s (compound s.byte c v)
  unfolding compound
  compound-Reads s v c w a l = elim (Bool-cases (c == b'/')) [
    | inl e ↦ rw (compound, e) (followed-Good s v b'/' _ _ a l (a, l))
    | inr e1 ↦ elim (Bool-cases (c == b'~')) [
      | inl e ↦ rw (compound, e1, e) (followed-Good s v b'=' _ _ a l (a, l))
      | inr e2 ↦ elim (Bool-cases (c == b'<')) [
        | inl e ↦
            rw (compound, e1, e2, e)
              (followed-Good s v b'<' _ _ a l (followed-Good s v b'=' _ _ a l (a, l)))
        | inr e3 ↦ elim (Bool-cases (c == b'>')) [
          | inl e ↦
              rw (compound, e1, e2, e3, e)
                (followed-Good s v b'>' _ _ a l (followed-Good s v b'=' _ _ a l (a, l)))
          | inr e4 ↦ elim (Bool-cases (c == b'=')) [
            | inl e ↦ rw (compound, e1, e2, e3, e4, e) (followed-Good s v b'=' _ _ a l (a, l))
            | inr e5 ↦ elim (Bool-cases (c == b':')) [
              | inl e ↦ rw (compound, e1, e2, e3, e4, e5, e) (followed-Good s v b':' _ _ a l (a, l))
              | inr e6 ↦ elim (Bool-cases (c == b'.')) [
                | inl e ↦ rw (compound, e1, e2, e3, e4, e5, e6, e) (dots-Good s v a l)
                | inr e7 ↦
                    rw (compound, e1, e2, e3, e4, e5, e6, e7)
                      (omega arith, omega arith, After-within a w)
              ]
            ]
          ]
        ]
      ]
    ]
  ]
    where
      dots-Good :
          (s v : Lexer)
          → After s v
          → s.byte < v.byte
          → Good s (
              if is_at b'.' v
              then followed b'.' ellipsis (concat, advance v) (advance v)
              else (dot, v))
      dots-Good s v a l = elim (Bool-cases (is_at b'.' v)) [
        | inl e ↦
            let b = After-trans a (advance-After v) in
            let l' : s.byte < (advance v).byte = omega (arith, After-le (advance-After v)) in
            rw e (followed-Good s (advance v) b'.' ellipsis (concat, advance v) b l' (b, l'))
        | inr e ↦ rw e (a, l)
      ]

  symbol-Reads :
      (len byte c : ℕ) (rest : List ℕ)
      → IsWell (lexer len byte (c ∷ rest))
      → Reads {F = F} (lexer len byte (c ∷ rest)) (symbol c (lexer len byte (c ∷ rest)))
  unfolding symbol
  symbol-Reads len byte c rest w =
      let s = lexer len byte (c ∷ rest) in
      let l : byte < (advance s).byte = omega (arith, len_utf8_pos c) in
      elim (Option-cases (single {F = F} c)) [
        | inl e ↦ rw (symbol, e) (compound-Reads s (advance s) c w (advance-After s) l)
        | inr (t, e) ↦ rw (symbol, e) (advance-After s, l)
      ]

-- The letters of ASCII are alphanumeric, as the documentation of `char::is_alphanumeric` says.
abbrev pub HasLetters : Unicode → Type 0
HasLetters u = (c : ℕ) → is_name_start c ≡ true → is_name_part u c ≡ true

module _ (u : Unicode) (letters : HasLetters u) where
  pub token-Reads :
      (len byte c : ℕ) (rest : List ℕ)
      → IsWell (lexer len byte (c ∷ rest))
      → Reads (lexer len byte (c ∷ rest)) (token u c (lexer len byte (c ∷ rest)))
  unfolding token name_token short_string long_string
  token-Reads len byte c rest w =
      let s = lexer len byte (c ∷ rest) in
      elim (Bool-cases (is_ascii_digit c)) [
        | inl e ↦ rw (token, e) (number_token-Reads u len byte c rest w e)
        | inr e1 ↦ elim (Bool-cases (is_name_start c)) [
          | inl e ↦
              rw (token, e1, e)
                (
                  take_while-After (is_name_part u) len byte (c ∷ rest),
                  take_while-first (is_name_part u) len byte c rest (letters c e),
                )
          | inr e2 ↦ elim (Bool-cases (c == b'"' || c == b'\'')) [
            | inl e ↦
                rw (token, e1, e2, e)
                  (string_loop-Reads u.F s c (byte + len_utf8 c) [] rest w
                    (next-After len byte c rest) (omega (arith, len_utf8_pos c)))
            | inr e3 ↦ elim (Bool-cases (c == b'[' && is_at2 b'[' s)) [
              | inl e ↦
                  let b = After-trans (advance-After s) (advance-After (advance s)) in
                  rw (token, e1, e2, e3, e)
                    (long_loop-Reads u.F s (advance (advance s)).byte [] (advance (advance s)).rest
                      w
                      (subst
                        (λ n.
                          After s (lexer n (advance (advance s)).byte (advance (advance s)).rest))
                        b.same_len b)
                      (omega (arith, len_utf8_pos c, After-le (advance-After (advance s)))))
              | inr e4 ↦ rw (token, e1, e2, e3, e4) (symbol-Reads u.F len byte c rest w)
            ]
          ]
        ]
      ]
