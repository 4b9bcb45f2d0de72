-- ===== src/Frontends/Lua/Lexer/Cursor.antt =====
-- The lexer's state, its errors, and its elementary steps.
use inty.Common.{ℕ, ◌+◌, Bool, true, false, Option, List, [], ◌∷◌, ◌==◌}
use inty.Common.Chars.{len_utf8}

-- What the lexer asks of `char`, of `str::parse` and of a cast to `f64`.
pub record Unicode : Type 1 where
  pub F : Type 0
  pub is_whitespace : ℕ → Bool
  pub is_alphanumeric : ℕ → Bool
  pub parse : List ℕ → Option F
  pub of_int : ℕ → F

pub record Lexer : Type 0 where
  pub len : ℕ
  pub byte : ℕ
  pub rest : List ℕ

pub data Feature : Type 0 where
  malformed_number unterminated_string unterminated_long_string unterminated_long_bracket
        unexpected_character :
      Feature

-- `ParseError::Unsupported`
pub record LexError : Type 0 where
  pub feature : Feature
  pub start : ℕ
  pub end : ℕ

pub data Result (A : Type 0) : Type 0 where
  ok : A → Result A
  err : LexError → Result A
  out_of_fuel : Result A

infixl 5 ◌>>=◌
abbrev pub ◌>>=◌ : {A B : Type 0} → Result A → (A → Result B) → Result B
ok a >>= f = f a
err e >>= f = err e
out_of_fuel >>= f = out_of_fuel

abbrev pub head_is : ℕ → List ℕ → Bool
head_is c [] = false
head_is c (d ∷ _) = d == c

abbrev pub tail : List ℕ → List ℕ
tail [] = []
tail (_ ∷ rest) = rest

-- `self.peek() == Some(c)` and `self.peek2() == Some(c)`
abbrev pub is_at : ℕ → Lexer → Bool
is_at c s = head_is c s.rest

abbrev pub is_at2 : ℕ → Lexer → Bool
is_at2 c s = head_is c (tail s.rest)

abbrev pub advance_in : (len byte : ℕ) → List ℕ → Lexer
advance_in len byte [] = record { len = len; byte = byte; rest = [] }
advance_in len byte (c ∷ rest) = record { len = len; byte = byte + len_utf8 c; rest = rest }

-- `bump`
abbrev pub advance : Lexer → Lexer
advance s = advance_in s.len s.byte s.rest

abbrev pub consed : ℕ → List ℕ × Lexer → List ℕ × Lexer
consed c (text, s) = (c ∷ text, s)

-- `while matches!(self.peek(), Some(c) if p(c)) { self.bump(); }`, with the text it goes over.
unfoldable pub take_while : (ℕ → Bool) → (len byte : ℕ) → List ℕ → List ℕ × Lexer
take_while p len byte [] = ([], record { len = len; byte = byte; rest = [] })
take_while p len byte (c ∷ rest) = elim (p c) [
  | true ↦ consed c (take_while p len (byte + len_utf8 c) rest)
  | false ↦ ([], record { len = len; byte = byte; rest = c ∷ rest })
]
