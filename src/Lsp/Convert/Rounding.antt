-- ===== src/Lsp/Convert/Rounding.antt =====
-- An offset inside a character: `byte_to_position` goes on to the end of the character.
use inty.Common.{ℕ, ◌+◌, ◌<◌, ◌≤◌, ◌≡◌, refl, min, List, [], ◌∷◌, ◌++◌, arith, le→leb, gt→leb}
use inty.Common.Chars.{len_utf8, len_utf16, bytes, bytes-append, len_utf8_pos}
use inty.Lsp.Convert.{add_u32, position_loop, byte_to_position}

position_loop-stop :
    (text : List ℕ) (n seen line character : ℕ)
    → n ≤ seen
    → position_loop text n seen line character ≡ record { line = line; character = character }
unfolding position_loop
position_loop-stop [] n seen line character h = refl
position_loop-stop (ch ∷ text) n seen line character h = ground (arith, le→leb n seen h)

-- Two offsets behind `pre`, inside or at the end of the character that follows, have one position.
position_loop-inside :
    (pre : List ℕ) (ch : ℕ) (suf : List ℕ) (n m seen line character : ℕ)
    → seen + bytes pre < n
    → n ≤ seen + bytes pre + len_utf8 ch
    → seen + bytes pre < m
    → m ≤ seen + bytes pre + len_utf8 ch
    → position_loop (pre ++ ch ∷ suf) n seen line character
      ≡ position_loop (pre ++ ch ∷ suf) m seen line character
unfolding position_loop
position_loop-inside [] ch suf n m seen line character h i j k =
    let p = gt→leb n seen (omega arith) in
    let q = gt→leb m seen (omega arith) in
    ground (
      arith,
      position_loop-stop suf n (seen + len_utf8 ch) (add_u32 line 1) 0 (omega arith),
      position_loop-stop suf m (seen + len_utf8 ch) (add_u32 line 1) 0 (omega arith),
      position_loop-stop suf n (seen + len_utf8 ch) line (add_u32 character (len_utf16 ch))
          (omega arith),
      position_loop-stop suf m (seen + len_utf8 ch) line (add_u32 character (len_utf16 ch))
          (omega arith),
    )
position_loop-inside (c ∷ pre) ch suf n m seen line character h i j k =
    let p = gt→leb n seen (omega (arith, len_utf8_pos c)) in
    let q = gt→leb m seen (omega (arith, len_utf8_pos c)) in
    let nl =
      position_loop-inside pre ch suf n m (seen + len_utf8 c) (add_u32 line 1) 0 (omega arith)
        (omega arith) (omega arith) (omega arith) in
    let rest =
      position_loop-inside pre ch suf n m (seen + len_utf8 c) line (add_u32 character (len_utf16 c))
        (omega arith) (omega arith) (omega arith) (omega arith) in
    ground arith

-- An offset behind the first byte of a character has the position of the character's end.
pub byte_to_position-inside :
    (pre : List ℕ) (ch : ℕ) (suf : List ℕ) (offset : ℕ)
    → bytes pre < offset
    → offset ≤ bytes pre + len_utf8 ch
    → byte_to_position (pre ++ ch ∷ suf) offset
      ≡ byte_to_position (pre ++ ch ∷ suf) (bytes pre + len_utf8 ch)
unfolding byte_to_position
byte_to_position-inside pre ch suf offset h k =
    let b = bytes-append pre (ch ∷ suf) in
    position_loop-inside pre ch suf (min offset (bytes (pre ++ ch ∷ suf)))
      (min (bytes pre + len_utf8 ch) (bytes (pre ++ ch ∷ suf))) 0 0 0 (omega (arith, b))
      (omega (arith, b)) (omega (arith, b, len_utf8_pos ch)) (omega (arith, b))
