-- ===== src/Epd/Text/Layout.antt =====
-- Where the text layout of src/epd200x200.c draws, and the rounds of its loop.
use esp32s3tinyepaper.Base.{
  ℕ, zero, suc, ◌+◌, ◌*◌, ◌≤◌, ◌<◌, ◌≡◌, refl, Bool, true, false, ◌&&◌, List, [], ◌∷◌, Option, none,
  some, All, length, drop, length-drop, ◌==◌, if◌then◌else◌, arith, tests, inl, inr, Bool-cases,
  ◌∙◌,
}
use esp32s3tinyepaper.Base.Int.{ℤ, pos, pos_part, ◌+ℤ◌, ◌<ℤ◌, ltb_ℤ, leb_ℤ, +ℤ_parts}
use esp32s3tinyepaper.Epd.Frame.{FrameBuf, IsFrame, pixel}
use esp32s3tinyepaper.Epd.Frame.Paints.{Region}
use esp32s3tinyepaper.Epd.Shapes.Painted.{within}
use esp32s3tinyepaper.Epd.Glyph.{Glyph, fb_draw_glyph12}
use esp32s3tinyepaper.Epd.Glyph.Painted.{fb_draw_glyph12-Paints}
use esp32s3tinyepaper.Epd.Utf8.{utf8_decode_one}
use esp32s3tinyepaper.Epd.Utf8.Roundtrip.{utf8_decode_one-Advances}
use esp32s3tinyepaper.Epd.Text.{
  Spacing, pitch, glyph_or_fallback, Page, draw_cell, text_loop, fb_draw_utf8_text12,
}

-- The bytes of a C string are not zero.
abbrev pub IsText : List ℕ → Type 0
IsText text = All (λ b. 0 < b) text

IsText-drop : (n : ℕ) (p : List ℕ) → IsText p → IsText (drop n p)
IsText-drop zero p h = h
IsText-drop (suc n) [] h = h
IsText-drop (suc n) (b ∷ p) h = IsText-drop n p h.1

-- The frame is kept, and no pixel outside of the region changes.
pub record Confined (region : Region) (fb after : FrameBuf) : Type 0 where
  pub frame : IsFrame after
  pub keeps :
      (px py : ℕ) → px < 200 → py < 200 → region px py ≡ false → pixel after px py ≡ pixel fb px py

Confined-refl : (region : Region) (fb : FrameBuf) → IsFrame fb → Confined region fb fb
Confined-refl region fb frame = record { frame = frame; keeps = λ px py hx hy out. refl }

Confined-trans :
    {region : Region} {fb mid after : FrameBuf}
    → Confined region fb mid
    → Confined region mid after
    → Confined region fb after
Confined-trans p q = record {
  frame = q.frame;
  keeps = λ px py hx hy out. q.keeps px py hx hy out ∙ p.keeps px py hx hy out;
}

-- The box of a page: `max_cols` columns and `max_rows` rows from its corner.
abbrev pub box : Page → Region
box page px py =
    within (pos_part page.max_cols * page.col_pitch) page.x px
    && within (pos_part page.max_rows * page.line_pitch) page.y py

cell_fits : (i n p : ℕ) → i < n → 12 ≤ p → i * p + 12 ≤ n * p
cell_fits i n p h k = grind arith

cell_within :
    (i n p : ℕ) (x : ℤ) (px : ℕ)
    → i < n
    → 12 ≤ p
    → within 12 (x +ℤ pos (i * p)) px ≡ true
    → within (n * p) x px ≡ true
cell_within i n p x px h k e = ground (
  arith,
  cell_fits i n p h k,
  +ℤ_parts x (pos (i * p)),
  +ℤ_parts (x +ℤ pos (i * p)) (pos 12),
  +ℤ_parts x (pos (n * p)),
)

-- A glyph changes nothing outside of its 12x12 cell.
cell : ℤ → ℤ → Region
cell x y px py = within 12 x px && within 12 y py

glyph12-Confined :
    (x y : ℤ) (glyph : Option Glyph) (black : Bool) (fb : FrameBuf)
    → IsFrame fb
    → Confined (cell x y) fb (fb_draw_glyph12 x y glyph black fb)
unfolding cell fb_draw_glyph12
glyph12-Confined x y none black fb frame = Confined-refl _ fb frame
glyph12-Confined x y (some g) black fb frame =
    let painted = fb_draw_glyph12-Paints x y g black fb frame in
    record {
      frame = painted.frame;
      keeps = λ px py hx hy out. ground (arith, painted.shows px py hx hy, out);
    }

module _ (font : List Glyph) (page : Page) (wide : 12 ≤ page.col_pitch)
    (tall : 12 ≤ page.line_pitch) where
  draw_cell-Confined :
      (col row codepoint : ℕ) (fb : FrameBuf)
      → IsFrame fb
      → col < pos_part page.max_cols
      → row < pos_part page.max_rows
      → Confined (box page) fb (draw_cell font page col row codepoint fb)
  unfolding draw_cell cell
  draw_cell-Confined col row codepoint fb frame hc hr =
      let inner =
        glyph12-Confined (page.x +ℤ pos (col * page.col_pitch))
          (page.y +ℤ pos (row * page.line_pitch)) (glyph_or_fallback font codepoint) page.black fb
          frame in
      record {
        frame = inner.frame;
        keeps = λ px py hx hy out. inner.keeps px py hx hy (
            ground (
              arith,
              cell_within col (pos_part page.max_cols) page.col_pitch page.x px hc wide,
              cell_within row (pos_part page.max_rows) page.line_pitch page.y py hr tall,
              out,
            ));
      }

  -- Whatever the text and the fuel, only the box changes.
  text_loop-Confined :
      (fuel : ℕ) (p : List ℕ) (col row : ℕ) (fb : FrameBuf)
      → 0 < pos_part page.max_cols
      → IsFrame fb
      → Confined (box page) fb (text_loop font page fuel p col row fb)
  unfolding text_loop
  text_loop-Confined zero p col row fb some_cols frame = Confined-refl _ fb frame
  text_loop-Confined (suc fuel) [] col row fb some_cols frame = Confined-refl _ fb frame
  text_loop-Confined (suc fuel) (c ∷ p) col row fb some_cols frame =
      elim (Bool-cases (ltb_ℤ (pos row) page.max_rows)) [
        | inr below ↦ rw below (Confined-refl _ fb frame)
        | inl here ↦ rw here (elim (Bool-cases (c == b'\n')) [
          | inl feed ↦ rw feed (text_loop-Confined fuel p 0 (row + 1) fb some_cols frame)
          | inr char ↦ rw char (elim (Bool-cases (leb_ℤ page.max_cols (pos col))) [
            | inr stays ↦ rw stays (
                let cell =
                  draw_cell-Confined col row (utf8_decode_one (c ∷ p)).0 fb frame
                    (omega (tests, stays)) (omega (tests, here)) in
                Confined-trans cell (
                  text_loop-Confined fuel (utf8_decode_one (c ∷ p)).1 (col + 1) row _ some_cols
                    cell.frame))
            | inl wraps ↦ rw wraps (elim (Bool-cases (leb_ℤ page.max_rows (pos (row + 1)))) [
              | inl full ↦ rw full (Confined-refl _ fb frame)
              | inr fits ↦ rw fits (
                  let cell =
                    draw_cell-Confined 0 (row + 1) (utf8_decode_one (c ∷ p)).0 fb frame some_cols
                      (omega (tests, fits)) in
                  Confined-trans cell (
                    text_loop-Confined fuel (utf8_decode_one (c ∷ p)).1 (0 + 1) (row + 1) _
                      some_cols cell.frame))
            ])
          ])
        ])
      ]

  rest-length : (c : ℕ) (p : List ℕ) → 0 < c → length (utf8_decode_one (c ∷ p)).1 < suc (length p)
  rest-length c p h =
      let (n, lo, hi, fits, e) = utf8_decode_one-Advances c p h in
      rw e (omega (arith, length-drop n (c ∷ p)))

  rest-IsText : (c : ℕ) (p : List ℕ) → IsText (c ∷ p) → IsText (utf8_decode_one (c ∷ p)).1
  rest-IsText c p h =
      let (n, lo, hi, fits, e) = utf8_decode_one-Advances c p h.0 in rw e (IsText-drop n (c ∷ p) h)

  -- Once the fuel exceeds the bytes that are left, more of it makes no difference: the loop ends by
  -- its own tests.
  pub text_loop_fuel :
      (f g : ℕ) (p : List ℕ) (col row : ℕ) (fb : FrameBuf)
      → IsText p
      → length p < f
      → length p < g
      → text_loop font page f p col row fb ≡ text_loop font page g p col row fb
  unfolding text_loop
  text_loop_fuel zero g p col row fb h hf hg = elim hf [ ]
  text_loop_fuel (suc f) zero p col row fb h hf hg = elim hg [ ]
  text_loop_fuel (suc f) (suc g) [] col row fb h hf hg = refl
  text_loop_fuel (suc f) (suc g) (c ∷ p) col row fb h hf hg =
      let shorter = rest-length c p h.0 in
      let wraps = leb_ℤ page.max_cols (pos col) in
      let col' : ℕ = if wraps then 0 else col in
      let row' : ℕ = if wraps then row + 1 else row in
      let feed : text_loop font page f p 0 (row + 1) fb ≡ text_loop font page g p 0 (row + 1) fb =
        text_loop_fuel f g p 0 (row + 1) fb h.1 (omega arith) (omega arith) in
      rw (
        feed,
        text_loop_fuel f g (utf8_decode_one (c ∷ p)).1 (col' + 1) row'
            (draw_cell font page col' row' (utf8_decode_one (c ∷ p)).0 fb) (rest-IsText c p h)
            (omega arith) (omega arith),
      )

pitch-le : (spacing : ℤ) → 12 ≤ pitch spacing
unfolding pitch
pitch-le spacing = ground arith

-- A text drawn with a positive number of columns changes no pixel outside of its box, which has
-- `max_cols` columns and `max_rows` rows of the pitches that the spacings give.
pub fb_draw_utf8_text12-Confined :
    (font : List Glyph) (spacing : Spacing) (x y : ℤ) (text : List ℕ)
    (max_cols max_rows line_spacing : ℤ) (black : Bool) (fb : FrameBuf)
    → pos 0 <ℤ max_cols
    → IsFrame fb
    → Confined
        (λ px py.
          within (pos_part max_cols * pitch spacing.column) x px
          && within (pos_part max_rows * pitch line_spacing) y py)
        fb
        (fb_draw_utf8_text12 font spacing x y text max_cols max_rows line_spacing black fb)
unfolding fb_draw_utf8_text12
fb_draw_utf8_text12-Confined font spacing x y text max_cols max_rows line_spacing black fb cols
      frame =
    text_loop-Confined font _ (pitch-le spacing.column) (pitch-le line_spacing) (length text + 1)
      text 0 0 fb (omega arith) frame
