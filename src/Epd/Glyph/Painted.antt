-- ===== src/Epd/Glyph/Painted.antt =====
-- A glyph paints the lit cells of its bitmap: src/epd200x200.c.
use esp32s3tinyepaper.Base.{
  ℕ, zero, suc, ◌+◌, ◌≡◌, Bool, true, false, ◌&&◌, ◌||◌, inl, inr, arith, List, Bool-cases,
  Option-cases, Option, none, some,
}
use esp32s3tinyepaper.Base.Int.{ℤ, pos, pos_part, ◌+ℤ◌, ◌-ℤ◌, eqb_ℤ, +ℤ_parts, -ℤ_parts, parts_zero}
use esp32s3tinyepaper.Epd.Frame.{FrameBuf, IsFrame}
use esp32s3tinyepaper.Epd.Frame.Paints.{
  Region, Paints, fb_set_pixel-Paints, Paints-ext, Paints-trans, Paints-refl,
}
use esp32s3tinyepaper.Epd.Shapes.Painted.{within}
use esp32s3tinyepaper.Epd.Glyph.{
  Glyph, row_loop, bitmap_loop, fb_draw_glyph12, lit12, lit5x7, get_font5x7, fb_draw_char5x7,
}

-- The place of a screen coordinate in the bitmap that starts at `x`.
abbrev pub offset : ℤ → ℕ → ℕ
offset x px = pos_part (pos px -ℤ x)

abbrev pub bitmap : (x y : ℤ) (lit : ℕ → ℕ → Bool) (cols rows : ℕ) → Region
bitmap x y lit cols rows px py =
    within cols x px && within rows y py && lit (offset y py) (offset x px)

offset_at : (x : ℤ) (col p : ℕ) → eqb_ℤ (x +ℤ pos col) (pos p) ≡ true → offset x p ≡ col
offset_at x col p e =
    ground (arith, +ℤ_parts x (pos col), -ℤ_parts (pos p) x, parts_zero (pos p -ℤ x))

within_step_at :
    (n : ℕ) (x : ℤ) (col p : ℕ)
    → (eqb_ℤ (x +ℤ pos col) (pos p) || within n (x +ℤ pos (col + 1)) p)
      ≡ within (suc n) (x +ℤ pos col) p
within_step_at n x col p = ground (
  arith,
  +ℤ_parts x (pos col),
  +ℤ_parts x (pos (col + 1)),
  +ℤ_parts (x +ℤ pos (col + 1)) (pos n),
  +ℤ_parts (x +ℤ pos col) (pos (suc n)),
)

within_none : (x : ℤ) (p : ℕ) → within 0 x p ≡ false
within_none x p = ground (arith, +ℤ_parts x (pos 0))

within_start : (n : ℕ) (x : ℤ) (p : ℕ) → within n (x +ℤ pos 0) p ≡ within n x p
within_start n x p =
    ground (arith, +ℤ_parts x (pos 0), +ℤ_parts x (pos n), +ℤ_parts (x +ℤ pos 0) (pos n))

row_loop-Paints :
    (x y : ℤ) (black : Bool) (lit : ℕ → Bool) (n col : ℕ) (fb : FrameBuf)
    → IsFrame fb
    → Paints
        (λ px py. (within n (x +ℤ pos col) px && eqb_ℤ y (pos py)) && lit (offset x px))
        black
        fb
        (row_loop x y black lit n col fb)
unfolding row_loop
row_loop-Paints x y black lit zero col fb frame =
    Paints-ext _ (Paints-refl black fb frame)
      (λ px py hx hy. ground (arith, within_none (x +ℤ pos col) px))
row_loop-Paints x y black lit (suc n) col fb frame = elim (Bool-cases (lit col)) [
  | inl on ↦
      let one = fb_set_pixel-Paints (x +ℤ pos col) y black fb frame in
      rw on (
        Paints-ext _ (Paints-trans _ _ one (row_loop-Paints x y black lit n (col + 1) _ one.frame))
          (λ px py hx hy. ground (arith, within_step_at n x col px, offset_at x col px, on)))
  | inr off ↦ rw off (
      Paints-ext _ (row_loop-Paints x y black lit n (col + 1) fb frame)
        (λ px py hx hy. ground (arith, within_step_at n x col px, offset_at x col px, off)))
]

bitmap_covers :
    (x y : ℤ) (lit : ℕ → ℕ → Bool) (cols n row px py : ℕ)
    → (((within cols (x +ℤ pos 0) px && eqb_ℤ (y +ℤ pos row) (pos py)) && lit row (offset x px))
        || ((within cols x px && within n (y +ℤ pos (row + 1)) py)
            && lit (offset y py) (offset x px)))
      ≡ ((within cols x px && within (suc n) (y +ℤ pos row) py) && lit (offset y py) (offset x px))
bitmap_covers x y lit cols n row px py = elim (Bool-cases (eqb_ℤ (y +ℤ pos row) (pos py))) [
  | inl here ↦
      let line : offset y py ≡ row = offset_at y row py here in
      ground (arith, line, within_start cols x px, within_step_at n y row py, here)
  | inr elsewhere ↦ ground (arith, within_start cols x px, within_step_at n y row py, elsewhere)
]

bitmap_loop-Paints :
    (x y : ℤ) (black : Bool) (lit : ℕ → ℕ → Bool) (cols n row : ℕ) (fb : FrameBuf)
    → IsFrame fb
    → Paints
        (λ px py.
          (within cols x px && within n (y +ℤ pos row) py) && lit (offset y py) (offset x px))
        black
        fb
        (bitmap_loop x y black lit cols n row fb)
unfolding bitmap_loop
bitmap_loop-Paints x y black lit cols zero row fb frame =
    Paints-ext _ (Paints-refl black fb frame)
      (λ px py hx hy. ground (arith, within_none (y +ℤ pos row) py))
bitmap_loop-Paints x y black lit cols (suc n) row fb frame =
    let line = row_loop-Paints x (y +ℤ pos row) black (lit row) cols 0 fb frame in
    Paints-ext _
      (Paints-trans _ _ line (bitmap_loop-Paints x y black lit cols n (row + 1) _ line.frame))
      (λ px py hx hy. bitmap_covers x y lit cols n row px py)

-- A 12x12 glyph paints exactly the lit cells of its bitmap, shifted to (x, y) and cut at the edges
-- of the screen; a missing glyph paints nothing.
pub fb_draw_glyph12-Paints :
    (x y : ℤ) (glyph : Glyph) (black : Bool) (fb : FrameBuf)
    → IsFrame fb
    → Paints (bitmap x y (lit12 glyph) 12 12) black fb (fb_draw_glyph12 x y (some glyph) black fb)
unfolding fb_draw_glyph12
fb_draw_glyph12-Paints x y glyph black fb frame =
    Paints-ext _ (bitmap_loop-Paints x y black (lit12 glyph) 12 12 0 fb frame)
      (λ px py hx hy. ground (arith, within_start 12 y py))

abbrev pub letter : ℤ → ℤ → Option (List ℕ) → Region
letter x y none px py = false
letter x y (some glyph) px py = bitmap x y (lit5x7 glyph) 5 7 px py

-- A character of the 5x7 font paints exactly the lit cells of its bitmap, shifted to (x, y) and cut at
-- the edges of the screen; a character that the font does not have paints nothing.
pub fb_draw_char5x7-Paints :
    (x y : ℤ) (c : ℕ) (black : Bool) (fb : FrameBuf)
    → IsFrame fb
    → Paints (letter x y (get_font5x7 c)) black fb (fb_draw_char5x7 x y c black fb)
unfolding fb_draw_char5x7
fb_draw_char5x7-Paints x y c black fb frame = elim (Option-cases (get_font5x7 c)) [
  | inl none_such ↦ rw (none_such, fb_draw_char5x7) (Paints-refl black fb frame)
  | inr (glyph, e) ↦
      rw (e, fb_draw_char5x7)
        (Paints-ext _ (bitmap_loop-Paints x y black (lit5x7 glyph) 5 7 0 fb frame)
          (λ px py hx hy. ground (arith, within_start 7 y py)))
]
