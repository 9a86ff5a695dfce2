-- ===== src/Epd/Show.antt =====
-- The pictures of src/epd200x200.c: each fills the frame buffer, then sends it to the panel. The
-- texts are the bytes of the source's UTF-8 literals; the font table is a parameter.
pub mod Gray
use Pages.{demo_pages}
mod Pages
use esp32s3tinyepaper.Base.{
  ℕ, zero, suc, ◌+◌, ◌-◌, ◌*◌, ◌/◌, ◌%◌, Bool, true, false, List, [], ◌∷◌, ltb, leb, if◌then◌else◌,
  get_or,
}
use esp32s3tinyepaper.Base.Int.{ℤ, pos}
use esp32s3tinyepaper.Base.Result.{Action, pure, gets, modify, ◌>>=◌, ◌>>◌}
use esp32s3tinyepaper.Epd.Frame.{FrameBuf, fb_clear, fb_set_pixel}
use esp32s3tinyepaper.Epd.Shapes.{fb_draw_hline, fb_draw_vline, fb_draw_rect, fb_fill_rect}
use esp32s3tinyepaper.Epd.Glyph.{Glyph, fb_draw_text5x7}
use esp32s3tinyepaper.Epd.Text.{fb_draw_utf8_text12}
use esp32s3tinyepaper.Epd.Panel.{Board, Epd, present_framebuf, k_sleep}

abbrev draw : (FrameBuf → FrameBuf) → Action Epd (Unit {0})
draw f = modify (λ s. record s { framebuf = f s.framebuf })

unfoldable pub clear : Board → Bool → Action Epd ℕ
clear board black = do draw (λ _. fb_clear black); present_framebuf board; pure 0

-- `for (int i = 20; i < 180; i += 12)` has 14 rounds.
unfoldable pub cross_loop : ℕ → ℕ → FrameBuf → FrameBuf
cross_loop zero i fb = fb
cross_loop (suc n) i fb =
    cross_loop n (i + 12)
      (fb_set_pixel (pos (199 - i)) (pos i) true (fb_set_pixel (pos i) (pos i) true fb))

-- `for (int x = 20; x <= 180; x += 8)` has 21 rounds.
unfoldable pub ruler_loop : ℕ → ℕ → FrameBuf → FrameBuf
ruler_loop zero x fb = fb
ruler_loop (suc n) x fb = ruler_loop n (x + 8) (fb_draw_vline (pos x) (pos 140) (pos 170) true fb)

abbrev esp32_s3 : List ℕ
esp32_s3 = b'E' ∷ b'S' ∷ b'P' ∷ b'3' ∷ b'2' ∷ b'-' ∷ b'S' ∷ b'3' ∷ []

abbrev epd_200x200 : List ℕ
epd_200x200 = b'E' ∷ b'P' ∷ b'D' ∷ 32 ∷ b'2' ∷ b'0' ∷ b'0' ∷ b'X' ∷ b'2' ∷ b'0' ∷ b'0' ∷ []

unfoldable pub demo_picture : FrameBuf
demo_picture =
    let fb1 = fb_draw_rect (pos 0) (pos 0) (pos 200) (pos 200) true (fb_clear false) in
    let fb2 = fb_draw_rect (pos 8) (pos 8) (pos 184) (pos 184) true fb1 in
    let fb3 = cross_loop 14 20 fb2 in
    let fb4 = fb_fill_rect (pos 20) (pos 30) (pos 36) (pos 36) true fb3 in
    let fb5 = fb_fill_rect (pos 66) (pos 30) (pos 36) (pos 36) false fb4 in
    let fb6 = fb_draw_rect (pos 66) (pos 30) (pos 36) (pos 36) true fb5 in
    let fb7 = fb_fill_rect (pos 112) (pos 30) (pos 36) (pos 36) true fb6 in
    let fb8 = fb_fill_rect (pos 158) (pos 30) (pos 22) (pos 36) false fb7 in
    let fb9 = fb_draw_rect (pos 158) (pos 30) (pos 22) (pos 36) true fb8 in
    let fb10 = fb_draw_text5x7 (pos 70) (pos 95) esp32_s3 true fb9 in
    let fb11 = fb_draw_text5x7 (pos 52) (pos 112) epd_200x200 true fb10 in
    let fb12 = fb_draw_hline (pos 20) (pos 180) (pos 135) true fb11 in ruler_loop 21 20 fb12

unfoldable pub show_demo : Board → Action Epd ℕ
show_demo board = do draw (λ _. demo_picture); present_framebuf board; pure 0

abbrev pub bayer8x8 : List (List ℕ)
bayer8x8 =
    (0 ∷ 48 ∷ 12 ∷ 60 ∷ 3 ∷ 51 ∷ 15 ∷ 63 ∷ [])
    ∷ (32 ∷ 16 ∷ 44 ∷ 28 ∷ 35 ∷ 19 ∷ 47 ∷ 31 ∷ [])
    ∷ (8 ∷ 56 ∷ 4 ∷ 52 ∷ 11 ∷ 59 ∷ 7 ∷ 55 ∷ [])
    ∷ (40 ∷ 24 ∷ 36 ∷ 20 ∷ 43 ∷ 27 ∷ 39 ∷ 23 ∷ [])
    ∷ (2 ∷ 50 ∷ 14 ∷ 62 ∷ 1 ∷ 49 ∷ 13 ∷ 61 ∷ [])
    ∷ (34 ∷ 18 ∷ 46 ∷ 30 ∷ 33 ∷ 17 ∷ 45 ∷ 29 ∷ [])
    ∷ (10 ∷ 58 ∷ 6 ∷ 54 ∷ 9 ∷ 57 ∷ 5 ∷ 53 ∷ [])
    ∷ (42 ∷ 26 ∷ 38 ∷ 22 ∷ 41 ∷ 25 ∷ 37 ∷ 21 ∷ [])
    ∷ []

-- `black_level > threshold` for the pixel at (x, y), with eight bands of 25 columns.
unfoldable pub gray_is_black : ℕ → ℕ → Bool
gray_is_black x y =
    let band = if leb 8 (x / 25) then 7 else x / 25 in
    let black_level = band * 255 / 7 in
    let threshold = get_or (get_or bayer8x8 (y % 8) []) (x % 8) 0 * 256 / 64 in
    ltb threshold black_level

unfoldable pub gray_row : ℕ → ℕ → ℕ → FrameBuf → FrameBuf
gray_row zero x y fb = fb
gray_row (suc n) x y fb = gray_row n (x + 1) y (fb_set_pixel (pos x) (pos y) (gray_is_black x y) fb)

unfoldable pub gray_rows : ℕ → ℕ → FrameBuf → FrameBuf
gray_rows zero y fb = fb
gray_rows (suc n) y fb = gray_rows n (y + 1) (gray_row 200 0 y fb)

-- The lines between the bands, from band `i` on.
unfoldable pub gray_separators : ℕ → ℕ → FrameBuf → FrameBuf
gray_separators zero i fb = fb
gray_separators (suc n) i fb =
    gray_separators n (i + 1) (fb_draw_vline (pos (i * 25)) (pos 0) (pos 199) true fb)

unfoldable pub gray_picture : FrameBuf
gray_picture = gray_separators 7 1 (gray_rows 200 0 (fb_clear false))

unfoldable pub show_grayscale_transition : Board → Action Epd ℕ
show_grayscale_transition board = do draw (λ _. gray_picture); present_framebuf board; pure 0

-- A page is drawn into a cleared buffer, sent, and shown for three seconds.
unfoldable pub show_page : Board → List Glyph → List ℕ → Action Epd (Unit {0})
show_page board font text = do
  spacing ← gets (λ s. s.spacing)
  draw (λ _.
      fb_draw_utf8_text12 font spacing (pos 4) (pos 30) text (pos 16) (pos 12) spacing.line true
        (fb_clear false))
  present_framebuf board
  k_sleep board 3000

unfoldable pub show_pages : Board → List Glyph → List (List ℕ) → Action Epd ℕ
show_pages board font [] = pure 0
show_pages board font (text ∷ pages) = show_page board font text >> show_pages board font pages

unfoldable pub show_chinese_demo : Board → List Glyph → Action Epd ℕ
show_chinese_demo board font = show_pages board font demo_pages
