-- ===== src/Lsp/Convert/RoundTrip.antt =====
-- A byte offset between two characters is found again from its position.
use inty.Common.{
  ℕ, ◌+◌, ◌<◌, ◌≤◌, ◌≡◌, refl, sym, ap, ◌∙◌, subst, min, Bool, true, false, some, List, [], ◌∷◌,
  ◌++◌, if◌then◌else◌, ◌==◌, ==_iff, arith, Bool-cases, inl, inr, le→leb, gt→leb,
}
use inty.Common.Chars.{len_utf8, len_utf16, bytes, bytes-append, len_utf8_pos, len_utf16_pos}
use inty.Lsp.Convert.{
  Position, newline, add_u32, position_loop, byte_to_position, advance, line_loop, position_to_byte,
}

-- The position behind a text that begins at a position.
abbrev pub behind : List ℕ → ℕ → ℕ → Position
behind [] line character = record { line = line; character = character }
behind (ch ∷ text) line character =
    if ch == newline then behind text (line + 1) 0 else behind text line (character + len_utf16 ch)

abbrev pub has_newline : List ℕ → Bool
has_newline [] = false
has_newline (ch ∷ text) = if ch == newline then true else has_newline text

abbrev pub units : List ℕ → ℕ
units [] = 0
units (ch ∷ text) = len_utf16 ch + units text

units-bytes : (xs : List ℕ) → units xs ≤ bytes xs
units-bytes [] = omega arith
units-bytes (x ∷ xs) = omega (arith, units-bytes xs, len_utf16_pos x)

pub add_u32_small : (a b : ℕ) → a + b < 4294967296 → add_u32 a b ≡ a + b
add_u32_small a b h = omega arith

same_units :
    (ch : ℕ) (pre : List ℕ) (character : ℕ)
    → character + len_utf16 ch + units pre ≡ character + (len_utf16 ch + units pre)
same_units ch pre character = omega arith

same :
    (ch : ℕ) (pre : List ℕ) (seen : ℕ)
    → seen + len_utf8 ch + bytes pre ≡ seen + (len_utf8 ch + bytes pre)
same ch pre seen = omega arith

position_loop-behind :
    (pre suf : List ℕ) (seen line character : ℕ)
    → line + bytes pre < 4294967296
    → character + bytes pre < 4294967296
    → position_loop (pre ++ suf) (seen + bytes pre) seen line character ≡ behind pre line character
unfolding position_loop
position_loop-behind [] [] seen line character h k = refl
position_loop-behind [] (ch ∷ suf) seen line character h k =
    let stop = le→leb (seen + 0) seen (omega arith) in ground arith
position_loop-behind (ch ∷ pre) suf seen line character h k =
    let l = len_utf16_pos ch in
    let go = gt→leb (seen + bytes (ch ∷ pre)) seen (omega (arith, len_utf8_pos ch)) in
    elim (Bool-cases (ch == newline)) [
      | inl e ↦
          let ih =
            position_loop-behind pre suf (seen + len_utf8 ch) (line + 1) 0 (omega arith)
              (omega arith) in
          ground (
            arith,
            add_u32_small line 1 (omega arith),
            ap (λ b. position_loop (pre ++ suf) b (seen + len_utf8 ch) (line + 1) 0)
                (same ch pre seen),
          )
      | inr e ↦
          let ih =
            position_loop-behind pre suf (seen + len_utf8 ch) line (character + len_utf16 ch)
              (omega arith) (omega arith) in
          ground (
            arith,
            add_u32_small character (len_utf16 ch) (omega arith),
            ap
                (λ b.
                  position_loop (pre ++ suf) b (seen + len_utf8 ch) line (character + len_utf16 ch))
                (same ch pre seen),
          )
    ]

advance-units :
    (pre suf : List ℕ) (character offset : ℕ)
    → has_newline pre ≡ false
    → character + bytes pre < 4294967296
    → advance (pre ++ suf) (character + units pre) character offset ≡ offset + bytes pre
unfolding advance
advance-units [] [] character offset n h = omega arith
advance-units [] (ch ∷ suf) character offset n h =
    let stop = le→leb (character + 0) character (omega arith) in ground arith
advance-units (ch ∷ pre) suf character offset n h =
    let l = len_utf16_pos ch in
    let go = gt→leb (character + units (ch ∷ pre)) character (omega arith) in
    let ih =
      advance-units pre suf (character + len_utf16 ch) (offset + len_utf8 ch) (ground arith)
        (omega arith) in
    ground (
      arith,
      add_u32_small character (len_utf16 ch) (omega arith),
      ap (λ u. advance (pre ++ suf) u (character + len_utf16 ch) (offset + len_utf8 ch))
          (same_units ch pre character),
    )

abbrev place : ℕ → ℕ → Position
place line character = record { line = line; character = character }

behind-units :
    (pre : List ℕ) (line character : ℕ)
    → has_newline pre ≡ false
    → behind pre line character ≡ record { line = line; character = character + units pre }
behind-units [] line character n = ap (place line) (omega arith)
behind-units (ch ∷ pre) line character n =
    let ih = behind-units pre line (character + len_utf16 ch) (ground arith) in
    let u = ap (place line) (sym (same_units ch pre character)) in ground arith

-- Behind a newline, the character at which the text began does not count.
behind-reset :
    (pre : List ℕ) (line c d : ℕ) → has_newline pre ≡ true → behind pre line c ≡ behind pre line d
behind-reset [] line c d n = absurd (ground arith)
behind-reset (ch ∷ pre) line c d n = elim (Bool-cases (ch == newline)) [
  | inl e ↦ ground arith
  | inr e ↦
      ground (arith, behind-reset pre line (c + len_utf16 ch) (d + len_utf16 ch) (ground arith))
]

behind-line : (pre : List ℕ) (line character : ℕ) → line ≤ (behind pre line character).line
behind-line [] line character = omega arith
behind-line (ch ∷ pre) line character =
    ground (arith, behind-line pre (line + 1) 0, behind-line pre line (character + len_utf16 ch))

behind-later_line :
    (pre : List ℕ) (line character : ℕ)
    → has_newline pre ≡ true
    → line < (behind pre line character).line
behind-later_line [] line character n = absurd (ground arith)
behind-later_line (ch ∷ pre) line character n = elim (Bool-cases (ch == newline)) [
  | inl e ↦ ground (arith, behind-line pre (line + 1) 0)
  | inr e ↦ ground (arith, behind-later_line pre line (character + len_utf16 ch) (ground arith))
]

line_loop-here :
    (text : List ℕ) (pos : Position) (line offset : ℕ)
    → line ≡ pos.line
    → line_loop text pos line offset ≡ some (advance text pos.character 0 offset)
unfolding line_loop
line_loop-here [] pos line offset h = ground (arith, (==_iff line pos.line).1 h)
line_loop-here (ch ∷ text) pos line offset h = ground (arith, (==_iff line pos.line).1 h)

line_loop-next :
    (ch : ℕ) (text : List ℕ) (pos : Position) (line offset : ℕ)
    → line < pos.line
    → line_loop (ch ∷ text) pos line offset
      ≡ line_loop text pos (if ch == newline then add_u32 line 1 else line) (offset + len_utf8 ch)
unfolding line_loop
line_loop-next ch text pos line offset h =
    let other : (line == pos.line) ≡ false = ground (arith, ==_iff line pos.line) in ground arith

line_loop-behind :
    (pre suf : List ℕ) (line offset : ℕ)
    → line + bytes pre < 4294967296
    → line_loop (pre ++ suf) (behind pre line 0) line offset ≡ some (offset + bytes pre)
line_loop-behind [] suf line offset h =
    line_loop-here suf (record { line = line; character = 0 }) line offset refl
    ∙ ap some (advance-units [] suf 0 offset refl (omega arith))
line_loop-behind (ch ∷ pre) suf line offset h = elim (Bool-cases (has_newline (ch ∷ pre))) [
  | inr last ↦
      subst
        (λ pos. line_loop ((ch ∷ pre) ++ suf) pos line offset ≡ some (offset + bytes (ch ∷ pre)))
        (sym (behind-units (ch ∷ pre) line 0 last))
        (line_loop-here ((ch ∷ pre) ++ suf)
            (record { line = line; character = 0 + units (ch ∷ pre) }) line offset refl
          ∙ ap some (advance-units (ch ∷ pre) suf 0 offset last (omega arith)))
  | inl more ↦
      let step =
        line_loop-next ch (pre ++ suf) (behind (ch ∷ pre) line 0) line offset
          (behind-later_line (ch ∷ pre) line 0 more) in
      let l = len_utf8_pos ch in
      let sum = same ch pre offset in
      elim (Bool-cases (ch == newline)) [
        | inl e ↦
            let ih = line_loop-behind pre suf (line + 1) (offset + len_utf8 ch) (omega arith) in
            ground (arith, add_u32_small line 1 (omega arith))
        | inr e ↦
            let ih = line_loop-behind pre suf line (offset + len_utf8 ch) (omega arith) in
            ground (arith, behind-reset pre line (0 + len_utf16 ch) 0 (ground arith))
      ]
]

-- A byte offset that falls between two characters of a text of less than 4 GiB, or at either end,
-- is the one found from its position.
pub position_to_byte-byte_to_position :
    (pre suf : List ℕ)
    → bytes (pre ++ suf) < 4294967296
    → position_to_byte (pre ++ suf) (byte_to_position (pre ++ suf) (bytes pre)) ≡ some (bytes pre)
unfolding position_to_byte byte_to_position
position_to_byte-byte_to_position pre suf h =
    let b = bytes-append pre suf in
    let at : position_loop (pre ++ suf) (min (bytes pre) (bytes (pre ++ suf))) 0 0 0
        ≡ behind pre 0 0 =
      ap (λ n. position_loop (pre ++ suf) n 0 0 0) (omega (arith, b))
      ∙ position_loop-behind pre suf 0 0 0 (omega (arith, b)) (omega (arith, b)) in
    ap (λ pos. line_loop (pre ++ suf) pos 0 0) at
    ∙ line_loop-behind pre suf 0 0 (omega (arith, b))
    ∙ ap some (omega arith)
