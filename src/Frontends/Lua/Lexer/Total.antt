-- ===== src/Frontends/Lua/Lexer/Total.antt =====
-- `tokenize` comes to an end, and its tokens lie in the source in order.
use inty.Common.{
  ℕ, zero, suc, ◌+◌, ◌<◌, ◌≤◌, ◌≡◌, sym, ap, ◌∙◌, subst, ◌&&◌, List, [], ◌∷◌, ◌++◌, arith,
  Bool-cases, inl, inr, ◌==◌, length, append_assoc,
}
use inty.Common.Chars.{len_utf8, bytes, bytes-append}
use inty.Frontends.Lua.Lexer.Tokens.{Tok, eof}
use inty.Frontends.Lua.Lexer.Cursor.{
  Unicode, Lexer, LexError, Result, ok, err, out_of_fuel, ◌>>=◌, is_at, is_at2, advance,
}
use inty.Frontends.Lua.Lexer.{
  long_close, comment, skip_trivia, token, next_token, tokens, tokenize, Spanned,
}
use inty.Frontends.Lua.Lexer.Steps.{
  After, After-refl, After-trans, After-le, After-IsWell, After-length, After-shorter, IsWell,
  lexer, next-After, advance-After, take_while-After, Within, Reads,
}
use inty.Frontends.Lua.Lexer.Spans.{HasLetters, token-Reads}

-- The lexer goes on, or there is an error of the text.
abbrev Goes : Lexer → Result Lexer → Type 0
Goes s (ok t) = After s t
Goes s (err e) = Within s e
Goes s out_of_fuel = ⊥

Within-After : {s t : Lexer} (e : LexError) → After s t → Within t e → Within s e
Within-After e a w = (omega (arith, After-le a, w.0), w.1, omega (arith, w.2, a.same_len))

Goes-After : {s t : Lexer} (r : Result Lexer) → After s t → Goes t r → Goes s r
Goes-After (ok v) a g = After-trans a g
Goes-After (err e) a g = Within-After e a g
Goes-After out_of_fuel a g = g

Goes-bind :
    {s : Lexer} (r : Result Lexer) (f : Lexer → Result Lexer)
    → Goes s r
    → ((t : Lexer) → After s t → Goes s (f t))
    → Goes s (r >>= f)
Goes-bind (ok t) f g h = h t g
Goes-bind (err e) f g h = g
Goes-bind out_of_fuel f g h = g

long_close-Goes :
    (s : Lexer) (byte : ℕ) (rest : List ℕ)
    → IsWell s
    → After s (lexer s.len byte rest)
    → Goes s (long_close s.len byte rest)
unfolding long_close
long_close-Goes s byte [] w a = (omega arith, omega arith, omega arith)
long_close-Goes s byte (c ∷ []) w a = (omega arith, omega arith, omega arith)
long_close-Goes s byte (c ∷ d ∷ rest) w a =
    let b = After-trans a (next-After s.len byte c (d ∷ rest)) in
    elim (Bool-cases (c == b']' && d == b']')) [
      | inl e ↦ rw (long_close, e) (After-trans b (next-After s.len (byte + len_utf8 c) d rest))
      | inr e ↦ rw (long_close, e) (long_close-Goes s (byte + len_utf8 c) (d ∷ rest) w b)
    ]

module _ (u : Unicode) where
  comment-Goes : (s : Lexer) → IsWell s → Goes s (comment u s)
  unfolding comment
  comment-Goes s w = elim (Bool-cases (is_at b'[' s && is_at2 b'[' s)) [
    | inl e ↦
        let b = After-trans (advance-After s) (advance-After (advance s)) in
        rw (comment, e)
          (long_close-Goes s (advance (advance s)).byte (advance (advance s)).rest w (
            subst (λ n. After s (lexer n (advance (advance s)).byte (advance (advance s)).rest))
              b.same_len b))
    | inr e ↦ rw (comment, e) (take_while-After _ s.len s.byte s.rest)
  ]

  skip_trivia-Goes :
      (k len byte : ℕ) (rest : List ℕ)
      → IsWell (lexer len byte rest)
      → length rest < k
      → Goes (lexer len byte rest) (skip_trivia u k (lexer len byte rest))
  unfolding skip_trivia
  skip_trivia-Goes zero len byte rest w l = absurd (omega arith)
  skip_trivia-Goes (suc k) len byte [] w l = After-refl _
  skip_trivia-Goes (suc k) len byte (c ∷ rest) w l =
      let s = lexer len byte (c ∷ rest) in
      let a = advance-After s in
      elim (Bool-cases (u.is_whitespace c)) [
        | inl e ↦
            rw (skip_trivia, e)
              (Goes-After _ a
                (skip_trivia-Goes k len (byte + len_utf8 c) rest (After-IsWell a w) (omega arith)))
        | inr e ↦ elim (Bool-cases (c == b'-' && is_at2 b'-' s)) [
          | inl e' ↦
              let b = After-trans a (advance-After (advance s)) in
              rw (skip_trivia, e, e')
                (Goes-After _ b (
                  Goes-bind (comment u (advance (advance s))) (skip_trivia u k)
                    (comment-Goes (advance (advance s)) (After-IsWell b w))
                    λ t g. Goes-After _ g (
                      skip_trivia-Goes k t.len t.byte t.rest (After-IsWell g (After-IsWell b w)) (
                        omega (
                          arith,
                          After-length (advance-After (lexer len (byte + len_utf8 c) rest)),
                          After-length g,
                        )))))
          | inr e' ↦ rw (skip_trivia, e, e') (After-refl s)
        ]
      ]

module _ (u : Unicode) (len : ℕ) where
  -- The tokens of a text that begins at a byte offset: each takes up a part of it, which begins
  -- behind a gap, and the last is the end of the source.
  pub data Tiles : ℕ → List ℕ → List (Spanned u) → Type 0 where
    at_end :
        {byte : ℕ} {gap : List ℕ}
        → byte + bytes gap ≡ len
        → Tiles byte gap (record { value = eof; start = len; end = len } ∷ [])
    then_token :
        {byte : ℕ} {source : List ℕ} {t : Spanned u} {ts : List (Spanned u)}
        (gap text rest : List ℕ)
        → source ≡ gap ++ (text ++ rest)
        → t.start ≡ byte + bytes gap
        → t.end ≡ t.start + bytes text
        → 0 < bytes text
        → Tiles t.end rest ts
        → Tiles byte source (t ∷ ts)

module _ (u : Unicode) (letters : HasLetters u) where
  abbrev Lists : Lexer → Result (List (Spanned u)) → Type 0
  Lists s (ok ts) = Tiles u s.len s.byte s.rest ts
  Lists s (err e) = Within s e
  Lists s out_of_fuel = ⊥

  Tiles-gap :
      (s t : Lexer) (ts : List (Spanned u))
      → After s t
      → Tiles u s.len t.byte t.rest ts
      → Tiles u s.len s.byte s.rest ts
  Tiles-gap s t _ a (at_end {gap = gap} e) =
      subst (λ r. Tiles u s.len s.byte r (record { value = eof; start = s.len; end = s.len } ∷ []))
        (sym a.split) (at_end (omega (arith, a.byte, bytes-append a.consumed gap)))
  Tiles-gap s t _ a (then_token {t = x} gap text rest split start end pos more) =
      then_token (a.consumed ++ gap) text rest
        (a.split ∙ ap (◌++◌ a.consumed) split ∙ sym (append_assoc a.consumed gap (text ++ rest)))
        (omega (arith, start, a.byte, bytes-append a.consumed gap)) end pos more

  Lists-skipped :
      (s : Lexer) (r : Result Lexer) (f : Lexer → Result (List (Spanned u)))
      → Goes s r
      → ((t : Lexer) → After s t → Lists s (f t))
      → Lists s (r >>= f)
  Lists-skipped s (ok t) f g h = h t g
  Lists-skipped s (err e) f g h = g
  Lists-skipped s out_of_fuel f g h = g

  Lists-read :
      (s : Lexer) (r : Result (Tok u.F × Lexer)) (f : Tok u.F × Lexer → Result (List (Spanned u)))
      → Reads s r
      → ((t : Tok u.F) (v : Lexer) → After s v → s.byte < v.byte → Lists s (f (t, v)))
      → Lists s (r >>= f)
  Lists-read s (ok (t, v)) f g h = h t v g.0 g.1
  Lists-read s (err e) f g h = g
  Lists-read s out_of_fuel f g h = g

  Lists-cons :
      (s v : Lexer) (t : Tok u.F) (r : Result (List (Spanned u)))
      → After s v
      → s.byte < v.byte
      → Lists v r
      → Lists s (r >>= λ out. ok (record { value = t; start = s.byte; end = v.byte } ∷ out))
  Lists-cons s v t (ok ts) a l h =
      then_token [] a.consumed v.rest a.split (omega arith) a.byte (omega (arith, a.byte))
        (subst (λ n. Tiles u n v.byte v.rest ts) a.same_len h)
  Lists-cons s v t (err e) a l h = Within-After e a h
  Lists-cons s v t out_of_fuel a l h = h

  Lists-After : (s t : Lexer) (r : Result (List (Spanned u))) → After s t → Lists t r → Lists s r
  Lists-After s t (ok ts) a h =
      Tiles-gap s t ts a (subst (λ n. Tiles u n t.byte t.rest ts) a.same_len h)
  Lists-After s t (err e) a h = Within-After e a h
  Lists-After s t out_of_fuel a h = h

  next_token-Lists :
      (more : Lexer → Result (List (Spanned u))) (len byte : ℕ) (rest : List ℕ)
      → IsWell (lexer len byte rest)
      → ((v : Lexer) → IsWell v → length v.rest < length rest → Lists v (more v))
      → Lists (lexer len byte rest) (next_token u more len byte rest)
  unfolding next_token
  next_token-Lists more len byte [] w h = at_end (omega arith)
  next_token-Lists more len byte (c ∷ rest) w h =
      let s = lexer len byte (c ∷ rest) in
      Lists-read s (token u c s) _ (token-Reads u letters len byte c rest w)
        λ t v a l. Lists-cons s v t (more v) a l (h v (After-IsWell a w) (After-shorter a l))

  tokens-Lists : (k : ℕ) (s : Lexer) → IsWell s → length s.rest < k → Lists s (tokens u k s)
  unfolding tokens
  tokens-Lists zero s w l = absurd (omega arith)
  tokens-Lists (suc k) s w l =
      Lists-skipped s (skip_trivia u (suc (length s.rest)) s) _
        (skip_trivia-Goes u (suc (length s.rest)) s.len s.byte s.rest w (omega arith))
        λ t a. Lists-After s t _ a (
          next_token-Lists (tokens u k) t.len t.byte t.rest (After-IsWell a w)
            λ v wv lv. tokens-Lists k v wv (omega (arith, After-length a)))

  -- The outcome of a source.
  abbrev pub Tokenized : List ℕ → Result (List (Spanned u)) → Type 0
  Tokenized source (ok ts) = Tiles u (bytes source) 0 source ts
  Tokenized source (err e) = (e.start ≤ e.end) × (e.end ≤ bytes source)
  Tokenized source out_of_fuel = ⊥

  -- If the letters of ASCII are alphanumeric, `tokenize` comes to an end on every source: with tokens
  -- whose spans follow each other in the source, between two characters each and none empty, up to
  -- the end of input at the end of the source, or with an error whose span lies in the source.
  pub tokenize-Tokenized : (source : List ℕ) → Tokenized source (tokenize u source)
  unfolding tokenize
  tokenize-Tokenized source =
      let s = lexer (bytes source) 0 source in
      outcome (tokens u (suc (length source)) s)
        (tokens-Lists (suc (length source)) s (omega arith) (omega arith))
    where
      outcome :
          (r : Result (List (Spanned u)))
          → Lists (lexer (bytes source) 0 source) r
          → Tokenized source r
      outcome (ok ts) h = h
      outcome (err e) h = (h.1, h.2)
      outcome out_of_fuel h = h
