-- ===== src/Epd/Shapes.antt =====
-- Lines and rectangles of src/epd200x200.c. A loop over `int` coordinates recurs on its rounds.
pub mod Painted
use esp32s3tinyepaper.Base.{ℕ, zero, suc, Bool, ◌||◌, ltb, if◌then◌else◌}
use esp32s3tinyepaper.Base.Int.{ℤ, pos, pos_part, ◌+ℤ◌, ◌-ℤ◌, ltb_ℤ, leb_ℤ}
use esp32s3tinyepaper.Epd.Frame.{FrameBuf, epd_width, epd_height, fb_set_pixel}

-- `for (int x = first; x <= last; x++)`: how often the body runs.
abbrev pub rounds : ℤ → ℤ → ℕ
rounds first last = pos_part (last +ℤ pos 1 -ℤ first)

-- The ends of a line put in order and clipped to `0 .. size - 1`.
unfoldable pub clip_first : ℤ → ℤ → ℤ
clip_first a b =
    let first = if ltb_ℤ b a then b else a in if ltb_ℤ first (pos 0) then pos 0 else first

unfoldable pub clip_last : ℤ → ℤ → ℤ → ℤ
clip_last a b size =
    let last = if ltb_ℤ b a then a else b in if leb_ℤ size last then size -ℤ pos 1 else last

unfoldable pub hline_loop : ℕ → ℤ → ℤ → Bool → FrameBuf → FrameBuf
hline_loop zero x y black fb = fb
hline_loop (suc n) x y black fb = hline_loop n (x +ℤ pos 1) y black (fb_set_pixel x y black fb)

unfoldable pub vline_loop : ℕ → ℤ → ℤ → Bool → FrameBuf → FrameBuf
vline_loop zero x y black fb = fb
vline_loop (suc n) x y black fb = vline_loop n x (y +ℤ pos 1) black (fb_set_pixel x y black fb)

unfoldable pub fb_draw_hline : ℤ → ℤ → ℤ → Bool → FrameBuf → FrameBuf
fb_draw_hline x0 x1 y black fb =
    if ltb_ℤ y (pos 0) || leb_ℤ (pos epd_height) y
    then fb
    else (let first = clip_first x0 x1 in
        hline_loop (rounds first (clip_last x0 x1 (pos epd_width))) first y black fb)

unfoldable pub fb_draw_vline : ℤ → ℤ → ℤ → Bool → FrameBuf → FrameBuf
fb_draw_vline x y0 y1 black fb =
    if ltb_ℤ x (pos 0) || leb_ℤ (pos epd_width) x
    then fb
    else (let first = clip_first y0 y1 in
        vline_loop (rounds first (clip_last y0 y1 (pos epd_height))) x first black fb)

unfoldable pub fb_draw_rect : ℤ → ℤ → ℤ → ℤ → Bool → FrameBuf → FrameBuf
fb_draw_rect x y w h black fb =
    if leb_ℤ w (pos 0) || leb_ℤ h (pos 0)
    then fb
    else (let right = x +ℤ w -ℤ pos 1 in
        let bottom = y +ℤ h -ℤ pos 1 in
        let fb1 = fb_draw_hline x right y black fb in
        let fb2 = fb_draw_hline x right bottom black fb1 in
        let fb3 = fb_draw_vline x y bottom black fb2 in fb_draw_vline right y bottom black fb3)

unfoldable pub fill_loop : ℕ → ℤ → ℤ → ℤ → Bool → FrameBuf → FrameBuf
fill_loop zero x right yy black fb = fb
fill_loop (suc n) x right yy black fb =
    fill_loop n x right (yy +ℤ pos 1) black (fb_draw_hline x right yy black fb)

-- `for (int yy = y; yy < y + h; yy++)` runs `h` times.
unfoldable pub fb_fill_rect : ℤ → ℤ → ℤ → ℤ → Bool → FrameBuf → FrameBuf
fb_fill_rect x y w h black fb =
    if leb_ℤ w (pos 0) || leb_ℤ h (pos 0)
    then fb
    else fill_loop (pos_part (y +ℤ h -ℤ y)) x (x +ℤ w -ℤ pos 1) y black fb
