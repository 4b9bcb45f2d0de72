-- ===== src/Lsp/Convert.antt =====
-- crates/inty-lsp/src/convert.rs: byte offsets and LSP positions (lines and UTF-16 units). A text is
-- the list of its characters, a character its code point. `u32` additions wrap; offsets (`usize`)
-- are taken as unbounded.
pub mod RoundTrip
pub mod Rounding
mod Tests
use inty.Common.{
  ℕ, zero, suc, ◌+◌, ◌%◌, min, Bool, true, false, Option, none, some, List, [], ◌∷◌, if◌then◌else◌,
  ltb, leb, ◌==◌, refl,
}
use inty.Common.Chars.{len_utf8, len_utf16, bytes}
use inty.Span.{Span}

pub record Position : Type 0 where
  pub line : ℕ
  pub character : ℕ

pub record Range : Type 0 where
  pub start : Position
  pub end : Position

abbrev pub newline : ℕ
newline = 10

abbrev pub add_u32 : ℕ → ℕ → ℕ
add_u32 a b = (a + b) % 4294967296

-- The loop of `byte_to_position`.
unfoldable pub position_loop : List ℕ → (clamped bytes_seen line character : ℕ) → Position
position_loop [] clamped bytes_seen line character = record { line = line; character = character }
position_loop (ch ∷ text) clamped bytes_seen line character =
    let next =
      if ch == newline
      then position_loop text clamped (bytes_seen + len_utf8 ch) (add_u32 line 1) 0
      else position_loop text clamped (bytes_seen + len_utf8 ch) line
          (add_u32 character (len_utf16 ch)) in
    if leb clamped bytes_seen then record { line = line; character = character } else next

unfoldable pub byte_to_position : List ℕ → ℕ → Position
unfolding position_loop
byte_to_position text byte_offset = position_loop text (min byte_offset (bytes text)) 0 0 0

-- The second loop of `position_to_byte`: to the character within the line.
unfoldable pub advance : List ℕ → (target character byte_offset : ℕ) → ℕ
advance [] target character byte_offset = byte_offset
advance (ch ∷ rest) target character byte_offset =
    let next = advance rest target (add_u32 character (len_utf16 ch)) (byte_offset + len_utf8 ch) in
    if leb target character then byte_offset else if ch == newline then byte_offset else next

-- The first loop, to the line, and what follows it. The characters that are left are
-- `text[byte_offset..]`.
unfoldable pub line_loop : List ℕ → Position → (line byte_offset : ℕ) → Option ℕ
unfolding advance
line_loop [] pos line byte_offset =
    if line == pos.line then some (advance [] pos.character 0 byte_offset) else none
line_loop (ch ∷ rest) pos line byte_offset =
    let next =
      line_loop rest pos (if ch == newline then add_u32 line 1 else line)
        (byte_offset + len_utf8 ch) in
    if line == pos.line then some (advance (ch ∷ rest) pos.character 0 byte_offset) else next

unfoldable pub position_to_byte : List ℕ → Position → Option ℕ
unfolding line_loop
position_to_byte text pos = line_loop text pos 0 0

unfoldable pub span_to_range : List ℕ → Span → Range
unfolding byte_to_position
span_to_range text span = record {
  start = byte_to_position text span.start;
  end = byte_to_position text span.end;
}
