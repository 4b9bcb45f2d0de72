-- ===== src/Frontends/Lua/Lexer/Tokens.antt =====
-- The tokens, and the keywords among them.
use inty.Common.{ℕ, ◌==◌, ◌≡◌, ◌↔◌, Bool, true, false, ◌&&◌, Option, List, [], ◌∷◌, arith}
use inty.Common.Chars.{codes}
use inty.Common.Dict.{Eq, lookup}

-- `F` is the type of floats.
pub data Tok (F : Type 0) : Type 0 where
  number : F → Tok F
  str name : List ℕ → Tok F
  and_ break_ do_ else_ elseif end_ false_ for_ function_ if_ in_ local_ nil_ not_ or_ repeat_
        return_ then_ true_ until_ while_ :
      Tok F
  plus minus star slash dslash percent caret hash amp tilde pipe shl shr eq ne le ge lt gt assign :
      Tok F
  l_paren r_paren l_brace r_brace l_bracket r_bracket semi colon dcolon comma dot concat ellipsis
        eof :
      Tok F

abbrev pub text_beq : List ℕ → List ℕ → Bool
text_beq [] [] = true
text_beq (a ∷ s) (b ∷ t) = a == b && text_beq s t
text_beq _ _ = false

pub text_beq_iff : (s t : List ℕ) → (text_beq s t ≡ true) ↔ (s ≡ t)
text_beq_iff [] [] = ground arith
text_beq_iff [] (b ∷ t) = ground arith
text_beq_iff (a ∷ s) [] = ground arith
text_beq_iff (a ∷ s) (b ∷ t) = ground (arith, text_beq_iff s t)

instance abbrev pub text_eq : Eq (List ℕ)
text_eq = record { beq = text_beq; beq_iff = text_beq_iff }

module _ {F : Type 0} where
  abbrev pub keywords : List (List ℕ × Tok F)
  keywords =
      (codes "and", and_)
      ∷ (codes "break", break_)
      ∷ (codes "do", do_)
      ∷ (codes "else", else_)
      ∷ (codes "elseif", elseif)
      ∷ (codes "end", end_)
      ∷ (codes "false", false_)
      ∷ (codes "for", for_)
      ∷ (codes "function", function_)
      ∷ (codes "if", if_)
      ∷ (codes "in", in_)
      ∷ (codes "local", local_)
      ∷ (codes "nil", nil_)
      ∷ (codes "not", not_)
      ∷ (codes "or", or_)
      ∷ (codes "repeat", repeat_)
      ∷ (codes "return", return_)
      ∷ (codes "then", then_)
      ∷ (codes "true", true_)
      ∷ (codes "until", until_)
      ∷ (codes "while", while_)
      ∷ []

  unfoldable pub keyword : List ℕ → Option (Tok F)
  keyword s = lookup s keywords
