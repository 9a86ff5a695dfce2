-- ===== src/Epd/Glyph.antt =====
-- The two fonts of src/epd200x200.c: the 5x7 letters in the code, and the 12x12 glyphs of the
-- generated table in src/zpix12_font_data.c, which is a parameter here.
pub mod Painted
pub mod Lookup
use esp32s3tinyepaper.Base.{
  ℕ, zero, suc, ◌+◌, ◌-◌, ◌*◌, ◌/◌, ◌^◌, Bool, true, false, not, List, [], ◌∷◌, Option, none, some,
  bit_and, ltb, ◌==◌, if◌then◌else◌, get_or, get_elem?, length,
}
use esp32s3tinyepaper.Base.Int.{ℤ, pos, ◌+ℤ◌}
use esp32s3tinyepaper.Epd.Frame.{FrameBuf, fb_set_pixel}

-- One row of a bitmap from column `col` on, and its rows from `row` on; `lit` is the bit test.
module _ (x y : ℤ) (black : Bool) where
  unfoldable pub row_loop : (lit : ℕ → Bool) → ℕ → ℕ → FrameBuf → FrameBuf
  row_loop lit zero col fb = fb
  row_loop lit (suc n) col fb =
      row_loop lit n (col + 1) (if lit col then fb_set_pixel (x +ℤ pos col) y black fb else fb)

unfoldable pub bitmap_loop :
    (x y : ℤ) (black : Bool) (lit : ℕ → ℕ → Bool) (cols n row : ℕ) → FrameBuf → FrameBuf
bitmap_loop x y black lit cols zero row fb = fb
bitmap_loop x y black lit cols (suc n) row fb =
    bitmap_loop x y black lit cols n (row + 1) (row_loop x (y +ℤ pos row) black (lit row) cols 0 fb)

-- `font5x7_E` and its siblings, picked by the character.
unfoldable pub get_font5x7 : ℕ → Option (List ℕ)
get_font5x7 c =
    if c == b'E'
    then some (0x1F ∷ 0x10 ∷ 0x1E ∷ 0x10 ∷ 0x10 ∷ 0x10 ∷ 0x1F ∷ [])
    else if c == b'P'
    then some (0x1E ∷ 0x11 ∷ 0x11 ∷ 0x1E ∷ 0x10 ∷ 0x10 ∷ 0x10 ∷ [])
    else if c == b'S'
    then some (0x0F ∷ 0x10 ∷ 0x10 ∷ 0x0E ∷ 0x01 ∷ 0x01 ∷ 0x1E ∷ [])
    else if c == b'2'
    then some (0x0E ∷ 0x11 ∷ 0x01 ∷ 0x02 ∷ 0x04 ∷ 0x08 ∷ 0x1F ∷ [])
    else if c == b'3'
    then some (0x1E ∷ 0x01 ∷ 0x01 ∷ 0x0E ∷ 0x01 ∷ 0x01 ∷ 0x1E ∷ [])
    else if c == b'-'
    then some (0x00 ∷ 0x00 ∷ 0x00 ∷ 0x1F ∷ 0x00 ∷ 0x00 ∷ 0x00 ∷ [])
    else none

-- `(glyph[row] >> (4 - col)) & 0x1`
abbrev pub lit5x7 : List ℕ → ℕ → ℕ → Bool
lit5x7 glyph row col = not (bit_and (get_or glyph row 0 / 2 ^ (4 - col)) 0x1 == 0)

unfoldable pub fb_draw_char5x7 : ℤ → ℤ → ℕ → Bool → FrameBuf → FrameBuf
fb_draw_char5x7 x y c black fb = elim (get_font5x7 c) [
  | none ↦ fb
  | some glyph ↦ bitmap_loop x y black (lit5x7 glyph) 5 7 0 fb
]

unfoldable pub text5x7_loop : ℤ → ℤ → List ℕ → ℕ → Bool → FrameBuf → FrameBuf
text5x7_loop x y [] i black fb = fb
text5x7_loop x y (c ∷ text) i black fb =
    text5x7_loop x y text (i + 1) black (fb_draw_char5x7 (x +ℤ pos (i * 6)) y c black fb)

-- The text is the bytes before its terminator.
unfoldable pub fb_draw_text5x7 : ℤ → ℤ → List ℕ → Bool → FrameBuf → FrameBuf
fb_draw_text5x7 x y text black fb = text5x7_loop x y text 0 black fb

-- `zpix12_glyph_t`
pub record Glyph : Type 0 where
  pub codepoint : ℕ
  pub rows : List ℕ

-- How the search ends: a glyph, a miss, or `stuck` where a read leaves the table or the fuel ends.
pub data Search : Type 0 where
  hit : Glyph → Search
  miss stuck : Search

unfoldable pub find_loop : ℕ → List Glyph → ℕ → ℕ → ℕ → Search
find_loop zero table codepoint left right = stuck
find_loop (suc fuel) table codepoint left right =
    let mid = left + (right - left) / 2 in
    let above = find_loop fuel table codepoint (mid + 1) right in
    let below = find_loop fuel table codepoint left mid in
    if ltb left right
    then elim (get_elem? table mid) [
      | none ↦ stuck
      | some g ↦
          if g.codepoint == codepoint
          then hit g
          else if ltb g.codepoint codepoint
          then above
          else below
    ]
    else miss

-- Each round shortens the range, so one round more than there are glyphs is enough.
unfoldable pub find_glyph : List Glyph → ℕ → Search
find_glyph table codepoint = find_loop (length table + 1) table codepoint 0 (length table)

-- The pointer that the C function returns; `NULL` is none.
abbrev pub found : Search → Option Glyph
found (hit g) = some g
found miss = none
found stuck = none

-- `(bits & BIT(11 - col)) != 0U`
abbrev pub lit12 : Glyph → ℕ → ℕ → Bool
lit12 glyph row col = not (bit_and (get_or glyph.rows row 0) (2 ^ (11 - col)) == 0)

unfoldable pub fb_draw_glyph12 : ℤ → ℤ → Option Glyph → Bool → FrameBuf → FrameBuf
fb_draw_glyph12 x y none black fb = fb
fb_draw_glyph12 x y (some glyph) black fb = bitmap_loop x y black (lit12 glyph) 12 12 0 fb
