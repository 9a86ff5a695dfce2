-- ===== src/Epd/Text.antt =====
-- The text layout of src/epd200x200.c: 12x12 glyphs in rows and columns, with '\n' and wrapping.
-- A C string is the list of its bytes before the terminator.
pub mod Layout
use esp32s3tinyepaper.Base.{
  ℕ, zero, suc, ◌+◌, ◌*◌, Bool, ◌&&◌, not, List, [], ◌∷◌, Option, none, some, length, ltb, ◌==◌,
  if◌then◌else◌,
}
use esp32s3tinyepaper.Base.Int.{ℤ, pos, pos_part, ◌+ℤ◌, ltb_ℤ, leb_ℤ}
use esp32s3tinyepaper.Epd.Frame.{FrameBuf}
use esp32s3tinyepaper.Epd.Glyph.{Glyph, find_glyph, found, fb_draw_glyph12}
use esp32s3tinyepaper.Epd.Utf8.{utf8_decode_one}

-- The static variables `epd_chinese_line_spacing` and `epd_chinese_column_spacing`.
pub record Spacing : Type 0 where
  pub line : ℤ
  pub column : ℤ

unfoldable pub set_chinese_line_spacing : ℤ → Spacing → Spacing
set_chinese_line_spacing spacing s = record s {
  line = if ltb_ℤ spacing (pos 0) then pos 0 else spacing;
}

unfoldable pub set_chinese_column_spacing : ℤ → Spacing → Spacing
set_chinese_column_spacing spacing s = record s {
  column = if ltb_ℤ spacing (pos 0) then pos 0 else spacing;
}

-- `12 + spacing`, and 12 for a negative spacing.
unfoldable pub pitch : ℤ → ℕ
pitch spacing = if ltb_ℤ spacing (pos 0) then 12 else 12 + pos_part spacing

-- The glyph of a code point, or that of '?' where the font lacks it.
unfoldable pub glyph_or_fallback : List Glyph → ℕ → Option Glyph
glyph_or_fallback font codepoint = elim (found (find_glyph font codepoint)) [
  | some g ↦ some g
  | none ↦ found (find_glyph font b'?')
]

-- What one call of the layout fixes.
pub record Page : Type 0 where
  pub x : ℤ
  pub y : ℤ
  pub max_cols : ℤ
  pub max_rows : ℤ
  pub col_pitch : ℕ
  pub line_pitch : ℕ
  pub black : Bool

module _ (font : List Glyph) (page : Page) where
  unfoldable pub draw_cell : ℕ → ℕ → ℕ → FrameBuf → FrameBuf
  draw_cell col row codepoint fb =
      fb_draw_glyph12 (page.x +ℤ pos (col * page.col_pitch)) (page.y +ℤ pos (row * page.line_pitch))
        (glyph_or_fallback font codepoint) page.black fb

  -- One round for a line feed or a character. Both branches move on in the text.
  unfoldable pub text_loop : ℕ → List ℕ → ℕ → ℕ → FrameBuf → FrameBuf
  text_loop zero p col row fb = fb
  text_loop (suc fuel) [] col row fb = fb
  text_loop (suc fuel) (c ∷ p) col row fb =
      let next_line = text_loop fuel p 0 (row + 1) fb in
      let wraps = leb_ℤ page.max_cols (pos col) in
      let col' = if wraps then 0 else col in
      let row' = if wraps then row + 1 else row in
      let (codepoint, rest) = utf8_decode_one (c ∷ p) in
      let next_char = text_loop fuel rest (col' + 1) row' (draw_cell col' row' codepoint fb) in
      if not (ltb_ℤ (pos row) page.max_rows)
      then fb
      else if c == b'\n'
      then next_line
      else if wraps && leb_ℤ page.max_rows (pos row')
      then fb
      else next_char

-- Every round reads at least one byte of the text.
unfoldable pub fb_draw_utf8_text12 :
    List Glyph → Spacing → ℤ → ℤ → List ℕ → ℤ → ℤ → ℤ → Bool → FrameBuf → FrameBuf
fb_draw_utf8_text12 font spacing x y text max_cols max_rows line_spacing black fb =
    text_loop font
      (record {
        x = x;
        y = y;
        max_cols = max_cols;
        max_rows = max_rows;
        col_pitch = pitch spacing.column;
        line_pitch = pitch line_spacing;
        black = black;
      })
      (length text + 1) text 0 0 fb
