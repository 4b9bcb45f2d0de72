-- ===== src/Frontends/Lua/Lexer/Steps.antt =====
-- Every token that is read lies between where the lexer was and where it is after, and every error
-- lies in the text.
use inty.Common.{
  ℕ, ◌+◌, ◌<◌, ◌≤◌, ◌≡◌, refl, sym, ap, ◌∙◌, Bool, List, [], ◌∷◌, ◌++◌, append_assoc, arith,
  Bool-cases, inl, inr, length, length-append,
}
use inty.Common.Chars.{len_utf8, bytes, bytes-append}
use inty.Frontends.Lua.Lexer.Tokens.{Tok}
use inty.Frontends.Lua.Lexer.Cursor.{
  Lexer, LexError, Result, ok, err, out_of_fuel, advance, advance_in, take_while,
}

-- The lexer went from `s` over `consumed` to `t`.
pub record After (s t : Lexer) : Type 0 where
  pub consumed : List ℕ
  pub split : s.rest ≡ consumed ++ t.rest
  pub byte : t.byte ≡ s.byte + bytes consumed
  pub same_len : t.len ≡ s.len

-- The length of the source is that of what was read and of what is left.
abbrev pub IsWell : Lexer → Type 0
IsWell s = s.len ≡ s.byte + bytes s.rest

pub After-refl : (s : Lexer) → After s s
After-refl s = record { consumed = []; split = refl; byte = omega arith; same_len = refl }

pub After-trans : {s t u : Lexer} → After s t → After t u → After s u
After-trans {s} {t} {u} a b = record {
  consumed = a.consumed ++ b.consumed;
  split = a.split ∙ ap (◌++◌ a.consumed) b.split ∙ sym (append_assoc a.consumed b.consumed u.rest);
  byte = omega (arith, a.byte, b.byte, bytes-append a.consumed b.consumed);
  same_len = b.same_len ∙ a.same_len;
}

pub After-IsWell : {s t : Lexer} → After s t → IsWell s → IsWell t
After-IsWell {s} {t} a w =
    omega (arith, a.byte, a.same_len, ap bytes a.split, bytes-append a.consumed t.rest)

pub After-le : {s t : Lexer} → After s t → s.byte ≤ t.byte
After-le a = omega (arith, a.byte)

pub After-length : {s t : Lexer} → After s t → length t.rest ≤ length s.rest
After-length {s} {t} a = omega (arith, ap length a.split, length-append a.consumed t.rest)

length-pos : (xs : List ℕ) → 0 < bytes xs → 0 < length xs
length-pos [] h = absurd (omega arith)
length-pos (x ∷ xs) h = omega arith

pub After-shorter : {s t : Lexer} → After s t → s.byte < t.byte → length t.rest < length s.rest
After-shorter {s} {t} a h = omega (
  arith,
  ap length a.split,
  length-append a.consumed t.rest,
  length-pos a.consumed (omega (arith, a.byte)),
)

abbrev pub lexer : (len byte : ℕ) → List ℕ → Lexer
lexer len byte rest = record { len = len; byte = byte; rest = rest }

pub next-After :
    (len byte c : ℕ) (rest : List ℕ)
    → After (lexer len byte (c ∷ rest)) (lexer len (byte + len_utf8 c) rest)
next-After len byte c rest = record {
  consumed = c ∷ [];
  split = refl;
  byte = omega arith;
  same_len = refl;
}

pub advance-After : (s : Lexer) → After s (advance s)
advance-After s = go s.len s.byte s.rest
  where
    go : (len byte : ℕ) (rest : List ℕ) → After (lexer len byte rest) (advance_in len byte rest)
    go len byte [] = After-refl _
    go len byte (c ∷ rest) = next-After len byte c rest

pub take_while-After :
    (p : ℕ → Bool) (len byte : ℕ) (rest : List ℕ)
    → After (lexer len byte rest) (take_while p len byte rest).1
unfolding take_while
take_while-After p len byte [] = After-refl _
take_while-After p len byte (c ∷ rest) = elim (Bool-cases (p c)) [
  | inl e ↦
      rw (take_while, e)
        (After-trans (next-After len byte c rest) (take_while-After p len (byte + len_utf8 c) rest))
  | inr e ↦ rw (take_while, e) (After-refl _)
]

-- An error between what was read and the end of the text.
abbrev pub Within : Lexer → LexError → Type 0
Within s e = (s.byte ≤ e.start) × (e.start ≤ e.end) × (e.end ≤ s.len)

-- A token that takes up at least one character, or an error of the text.
module _ {F : Type 0} where
  abbrev pub Reads : Lexer → Result (Tok F × Lexer) → Type 0
  Reads s (ok (t, v)) = After s v × (s.byte < v.byte)
  Reads s (err e) = Within s e
  Reads s out_of_fuel = ⊥
