-- ===== src/Frontends/Lua/Lexer/Strings.antt =====
-- Quoted strings: what is written escaped is read back, and a string that its line does not close is
-- refused.
use inty.Common.{
  ℕ, ◌+◌, ◌≡◌, refl, sym, ap, ◌∙◌, Bool, true, false, ◌||◌, List, [], ◌∷◌, ◌++◌, append_assoc,
  append-nil, arith, Bool-cases, inl, inr, if◌then◌else◌, ◌==◌, All, length-append, suc, length,
}
use inty.Common.Chars.{len_utf8, bytes, bytes-append}
use inty.Frontends.Lua.Lexer.Tokens.{Tok, str, eof}
use inty.Frontends.Lua.Lexer.Cursor.{◌>>=◌, Unicode, Lexer, Result, ok, err, unterminated_string}
use inty.Frontends.Lua.Lexer.Literals.{string_loop, short_string}
use inty.Frontends.Lua.Lexer.{tokens, token, tokenize, Spanned, skip_trivia, next_token}
use inty.Frontends.Lua.Lexer.Steps.{lexer}

abbrev pub is_special : ℕ → Bool
is_special c = c == b'\\' || (c == b'"' || c == 10)

-- A text as one may write it between double quotes.
abbrev pub escape : List ℕ → List ℕ
escape [] = []
escape (c ∷ s) =
    if is_special c then b'\\' ∷ (if c == 10 then b'n' else c) ∷ escape s else c ∷ escape s

abbrev pub quoted : List ℕ → List ℕ
quoted s = b'"' ∷ (escape s ++ b'"' ∷ [])

module _ (F : Type 0) (start len : ℕ) where
  -- The loop of `short_string`, for a double quote.
  abbrev loop : (byte : ℕ) → List ℕ → List ℕ → Result (Tok F × Lexer)
  loop = string_loop b'"' start len

  loop_same :
      {b b' : ℕ} {t t' : List ℕ} (rest : List ℕ) → b ≡ b' → t ≡ t' → loop b t rest ≡ loop b' t' rest
  loop_same rest e f = cc

  read_same :
      {b b' : ℕ} {t t' : List ℕ} (rest : List ℕ)
      → b ≡ b'
      → t ≡ t'
      → ◌≡◌ {A = Result (Tok F × Lexer)}
          (ok (str t, lexer len b rest))
          (ok (str t', lexer len b' rest))
  read_same rest e f = cc

  loop-plain :
      (byte c : ℕ) (text rest : List ℕ)
      → is_special c ≡ false
      → loop byte text (c ∷ rest) ≡ loop (byte + len_utf8 c) (text ++ c ∷ []) rest
  unfolding string_loop
  loop-plain byte c text [] h = ground arith
  loop-plain byte c text (d ∷ rest) h = ground arith

  loop-close :
      (byte : ℕ) (text rest : List ℕ)
      → loop byte text (b'"' ∷ rest) ≡ ok (str text, lexer len (byte + 1) rest)
  unfolding string_loop
  loop-close byte text [] = refl
  loop-close byte text (d ∷ rest) = refl

  loop-newline :
      (byte : ℕ) (text rest : List ℕ)
      → loop byte text (10 ∷ rest)
        ≡ err (record { feature = unterminated_string; start = start; end = byte + 1 })
  unfolding string_loop
  loop-newline byte text [] = refl
  loop-newline byte text (d ∷ rest) = refl

  loop-special :
      (byte c : ℕ) (text rest : List ℕ)
      → is_special c ≡ true
      → loop byte text (b'\\' ∷ (if c == 10 then b'n' else c) ∷ rest)
        ≡ loop (byte + 2) (text ++ c ∷ []) rest
  unfolding string_loop
  loop-special byte c text rest h =
      loop_same rest (ground arith) (ap (λ x. text ++ x ∷ []) (ground arith))

  loop-escape :
      (byte : ℕ) (text s rest : List ℕ)
      → loop byte text (escape s ++ b'"' ∷ rest)
        ≡ ok (str (text ++ s), lexer len (byte + bytes (escape s) + 1) rest)
  loop-escape byte text [] rest =
      loop-close byte text rest ∙ read_same rest (omega arith) (sym (append-nil text))
  loop-escape byte text (c ∷ s) rest = elim (Bool-cases (is_special c)) [
    | inl e ↦ rw e (
        loop-special byte c text (escape s ++ b'"' ∷ rest) e
        ∙ loop-escape (byte + 2) (text ++ c ∷ []) s rest
        ∙ read_same rest (ground arith) (append_assoc text (c ∷ []) s))
    | inr e ↦ rw e (
        loop-plain byte c text (escape s ++ b'"' ∷ rest) e
        ∙ loop-escape (byte + len_utf8 c) (text ++ c ∷ []) s rest
        ∙ read_same rest (omega arith) (append_assoc text (c ∷ []) s))
  ]

module _ (u : Unicode) where
  token_behind :
      ℕ → (Lexer → Result (List (Spanned u))) → Tok u.F × Lexer → Result (List (Spanned u))
  token_behind byte more (t, v) =
      more v >>= (λ out. ok (record { value = t; start = byte; end = v.byte } ∷ out))

  abbrev text_end : ℕ → List (Spanned u)
  text_end len = record { value = eof; start = len; end = len } ∷ []

  skip_trivia-quote :
      (k len byte : ℕ) (rest : List ℕ)
      → u.is_whitespace b'"' ≡ false
      → skip_trivia u (suc k) (lexer len byte (b'"' ∷ rest)) ≡ ok (lexer len byte (b'"' ∷ rest))
  unfolding skip_trivia
  skip_trivia-quote k len byte rest h = rw (skip_trivia, h) refl

  tokens-end : (k len byte : ℕ) → tokens u (suc k) (lexer len byte []) ≡ ok (text_end len)
  unfolding tokens skip_trivia next_token
  tokens-end k len byte = refl

  tokens-quote :
      (k len byte : ℕ) (rest : List ℕ)
      → u.is_whitespace b'"' ≡ false
      → tokens u (suc k) (lexer len byte (b'"' ∷ rest))
        ≡ (loop u.F byte len (byte + 1) [] rest >>= token_behind byte (tokens u k))
  unfolding tokens next_token token short_string token_behind
  tokens-quote k len byte rest h =
      rw (tokens, skip_trivia-quote (suc (length rest)) len byte rest h) refl

  tokens-string :
      (k : ℕ) (s : List ℕ)
      → u.is_whitespace b'"' ≡ false
      → tokens u (suc (suc k)) (lexer (bytes (quoted s)) 0 (quoted s))
        ≡ ok (
            record { value = str s; start = 0; end = 1 + bytes (escape s) + 1 }
            ∷ text_end (bytes (quoted s)))
  unfolding token_behind
  tokens-string k s h =
      let r = loop-escape u.F 0 (bytes (quoted s)) 1 [] s [] in
      tokens-quote (suc k) (bytes (quoted s)) 0 (escape s ++ b'"' ∷ []) h
      ∙ rw (r, tokens-end k) refl

  tokens_same : (k k' : ℕ) (v : Lexer) → k ≡ k' → tokens u k v ≡ tokens u k' v
  tokens_same k k' v e = cc

  -- A text written between double quotes, escaped, is read back: if a double quote is no white
  -- space, `tokenize` gives the string that it stands for, over the whole source, and the end.
  pub tokenize-quoted :
      (s : List ℕ)
      → u.is_whitespace b'"' ≡ false
      → tokenize u (quoted s)
        ≡ ok (
            record { value = str s; start = 0; end = bytes (quoted s) }
            ∷ record { value = eof; start = bytes (quoted s); end = bytes (quoted s) }
            ∷ [])
  unfolding tokenize
  tokenize-quoted s h =
      let b : bytes (quoted s) ≡ 1 + bytes (escape s) + 1 =
        omega (arith, bytes-append (escape s) (b'"' ∷ [])) in
      let l = length-append (escape s) (b'"' ∷ []) in
      tokens_same (suc (length (quoted s))) (suc (suc (suc (length (escape s)))))
        (lexer (bytes (quoted s)) 0 (quoted s)) (omega (arith, l))
      ∙ (tokens-string (suc (length (escape s))) s h ∙ rw (sym b) refl)

  error_same :
      {A : Type 0}
      → {start e e' : ℕ} → e ≡ e'
      → ◌≡◌ {A = Result A}
          (err (record { feature = unterminated_string; start = start; end = e }))
          (err (record { feature = unterminated_string; start = start; end = e' }))
  error_same h = cc

  loop-unterminated :
      (byte : ℕ) (start len : ℕ) (text s rest : List ℕ)
      → All (λ c. is_special c ≡ false) s
      → loop u.F start len byte text (s ++ 10 ∷ rest)
        ≡ err (record { feature = unterminated_string; start = start; end = byte + bytes s + 1 })
  loop-unterminated byte start len text [] rest p =
      loop-newline u.F start len byte text rest ∙ error_same (omega arith)
  loop-unterminated byte start len text (c ∷ s) rest (p, ps) =
      loop-plain u.F start len byte c text (s ++ 10 ∷ rest) p
      ∙ (loop-unterminated (byte + len_utf8 c) start len (text ++ c ∷ []) s rest ps
          ∙ error_same (omega arith))

  -- A text that needs no escape is no string if its line ends before a quote: the error spans what
  -- was read, the end of the line included, if a double quote is no white space.
  pub tokenize-unterminated :
      (s rest : List ℕ)
      → u.is_whitespace b'"' ≡ false
      → All (λ c. is_special c ≡ false) s
      → tokenize u (b'"' ∷ (s ++ 10 ∷ rest))
        ≡ err (record { feature = unterminated_string; start = 0; end = bytes s + 2 })
  unfolding tokenize
  tokenize-unterminated s rest h p =
      let len = bytes (b'"' ∷ (s ++ 10 ∷ rest)) in
      tokens-quote (length (b'"' ∷ (s ++ 10 ∷ rest))) len 0 (s ++ 10 ∷ rest) h
      ∙ rw (loop-unterminated 1 0 len [] s rest p) (error_same (omega arith))
