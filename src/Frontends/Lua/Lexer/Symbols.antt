-- ===== src/Frontends/Lua/Lexer/Symbols.antt =====
-- Operators and punctuation.
use inty.Common.{ℕ, Option, none, some, if◌then◌else◌, ◌==◌}
use inty.Frontends.Lua.Lexer.Tokens.{
  Tok, plus, minus, star, slash, dslash, percent, caret, hash, amp, tilde, pipe, shl, shr, eq, ne,
  le, ge, lt, gt, assign, l_paren, r_paren, l_brace, r_brace, l_bracket, r_bracket, semi, colon,
  dcolon, comma, dot, concat, ellipsis,
}
use inty.Frontends.Lua.Lexer.Cursor.{Lexer, unexpected_character, Result, ok, err, is_at, advance}

module _ {F : Type 0} where
  -- The characters that are a token whatever follows.
  unfoldable pub single : ℕ → Option (Tok F)
  single c =
      if c == b'+'
      then some plus
      else if c == b'-'
      then some minus
      else if c == b'*'
      then some star
      else if c == b'%'
      then some percent
      else if c == b'^'
      then some caret
      else if c == b'#'
      then some hash
      else if c == b'&'
      then some amp
      else if c == b'|'
      then some pipe
      else if c == b'('
      then some l_paren
      else if c == b')'
      then some r_paren
      else if c == b'{'
      then some l_brace
      else if c == b'}'
      then some r_brace
      else if c == b'['
      then some l_bracket
      else if c == b']'
      then some r_bracket
      else if c == b';'
      then some semi
      else if c == b','
      then some comma
      else none

  -- `if self.peek() == Some(c) { self.bump(); double } else { single }`
  unfoldable pub followed : ℕ → Tok F → Tok F × Lexer → Lexer → Tok F × Lexer
  followed c double single_ s = if is_at c s then (double, advance s) else single_

  -- The characters whose token depends on what follows; `s` is behind the character.
  unfoldable pub compound : (start c : ℕ) → Lexer → Result (Tok F × Lexer)
  unfolding followed
  compound start c s =
      if c == b'/'
      then ok (followed b'/' dslash (slash, s) s)
      else if c == b'~'
      then ok (followed b'=' ne (tilde, s) s)
      else if c == b'<'
      then ok (followed b'<' shl (followed b'=' le (lt, s) s) s)
      else if c == b'>'
      then ok (followed b'>' shr (followed b'=' ge (gt, s) s) s)
      else if c == b'='
      then ok (followed b'=' eq (assign, s) s)
      else if c == b':'
      then ok (followed b':' dcolon (colon, s) s)
      else if c == b'.'
      then ok (
          if is_at b'.' s then followed b'.' ellipsis (concat, advance s) (advance s) else (dot, s))
      else err (record { feature = unexpected_character; start = start; end = s.byte })

  unfoldable pub symbol : ℕ → Lexer → Result (Tok F × Lexer)
  unfolding single compound
  symbol c s = elim (single c) [ some t ↦ ok (t, advance s) | none ↦ compound s.byte c (advance s) ]
