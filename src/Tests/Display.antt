-- ===== src/Tests/Display.antt =====
-- The display's theorems at concrete inputs.
use esp32s3tinyepaper.Base.{
  sym, false, false≢true, ltb, ◌/◌, ◌<◌, ◌*◌, ℕ, zero, suc, ◌+◌, ◌*◌, ◌≤◌, ◌≡◌, refl, true, false,
  ◌&&◌, ◌||◌, List, [], ◌∷◌, ◌++◌, if◌then◌else◌, arith, leb, ◌==◌, ◌%◌,
}
use esp32s3tinyepaper.Base.Int.{pos, eqb_ℤ, pos_part}
use esp32s3tinyepaper.Base.Result.{Result, ok}
use esp32s3tinyepaper.Base.Result.Ends.{Ends}
use esp32s3tinyepaper.Epd.Frame.{FrameBuf, fb_clear, fb_set_pixel, pixel, IsFrame}
use esp32s3tinyepaper.Epd.Frame.Paints.{Paints}
use esp32s3tinyepaper.Epd.Frame.Pixels.{pixel-fb_set_pixel, fb_clear-IsFrame}
use esp32s3tinyepaper.Epd.Shapes.{fb_fill_rect}
use esp32s3tinyepaper.Epd.Shapes.Painted.{within, rect_area, fb_fill_rect-Paints}
use esp32s3tinyepaper.Epd.Glyph.{Glyph, find_glyph}
use esp32s3tinyepaper.Epd.Glyph.Lookup.{IsSorted, Locates, find_glyph-Locates}
use esp32s3tinyepaper.Epd.Utf8.{utf8_decode_one}
use esp32s3tinyepaper.Epd.Utf8.Roundtrip.{utf8_encode, utf8_decode_one-utf8_encode}
use esp32s3tinyepaper.Epd.Text.{pitch, Page, fb_draw_utf8_text12}
use esp32s3tinyepaper.Epd.Text.Layout.{Confined, fb_draw_utf8_text12-Confined}
use esp32s3tinyepaper.Epd.Panel.{
  Call, gpio_set, gpio_get, gpio_configure, spi_write, sleep, uptime, Board, Epd, call,
  k_uptime_get, k_sleep, write_bytes, write_cmd, write_data, write_data_byte, wait_loop, wait_idle,
  reset_sequence, set_ram_full_window, set_ram_cursor_origin, update_display, present_framebuf,
}
use esp32s3tinyepaper.Epd.Panel.Sends.{received}
use esp32s3tinyepaper.Epd.Panel.Frames.{frame_messages, present_framebuf_sends}
use esp32s3tinyepaper.Epd.Panel.Idle.{IsClock}
use esp32s3tinyepaper.Epd.Panel.Works.{IsWilling, naps, is_look, Shown, present_framebuf-Shown}
use esp32s3tinyepaper.Epd.Show.{gray_picture}
use esp32s3tinyepaper.Epd.Show.Gray.{order, shade, blacks, gray_picture_shows}

abbrev blank : FrameBuf
blank = fb_clear false

abbrev white : IsFrame blank
white = fb_clear-IsFrame false

abbrev glyph_a : Glyph
glyph_a = record { codepoint = 0x61; rows = 0 ∷ 0 ∷ 0x3C0 ∷ [] }

abbrev glyph_b : Glyph
glyph_b = record { codepoint = 0x4E2D; rows = 0x7FC ∷ [] }

abbrev font : List Glyph
font = glyph_a ∷ glyph_b ∷ []

font-IsSorted : IsSorted font
font-IsSorted zero zero lt within = absurd (omega arith)
font-IsSorted zero (suc zero) lt within = omega arith
font-IsSorted zero (suc (suc j)) lt within = absurd (omega arith)
font-IsSorted (suc i) zero lt within = absurd (omega arith)
font-IsSorted (suc i) (suc zero) lt within = absurd (omega arith)
font-IsSorted (suc i) (suc (suc j)) lt within = absurd (omega arith)

-- Every call succeeds, the panel is never busy, and only sleeping takes time.
unfoldable ticks : List Call → ℕ
ticks [] = 0
ticks (sleep ms ∷ log) = ticks log + ms
ticks (_ ∷ log) = ticks log

abbrev idle_board : Board
idle_board = record { spi_ready = true; gpio_ready = true; reply = λ log. ok 0; now = ticks }

idle_board-IsClock : IsClock idle_board
unfolding ticks
idle_board-IsClock = record { forward = moves; sleeps = λ ms log. omega arith }
  where
    moves : (c : Call) (log : List Call) → ticks log ≤ ticks (c ∷ log)
    moves (gpio_set p v) log = omega arith
    moves (gpio_get p) log = omega arith
    moves (gpio_configure p m) log = omega arith
    moves (spi_write b) log = omega arith
    moves (sleep ms) log = omega arith
    moves uptime log = omega arith

abbrev dots : Epd
dots = record {
  framebuf = 0xA5 ∷ 0x5A ∷ [];
  spacing = record { line = pos 2; column = pos 1 };
  calls = [];
}

-- After each message this panel is busy until the board has slept three times.
abbrev busy_level : List Call → ℕ
busy_level log = if ltb (naps log) 3 then 1 else 0

abbrev busy_reply : List Call → Result ℕ
busy_reply [] = ok 0
busy_reply (gpio_get pin ∷ log) = ok (busy_level log)
busy_reply (_ ∷ log) = ok 0

abbrev busy_board : Board
busy_board = record { spi_ready = true; gpio_ready = true; reply = busy_reply; now = ticks }

busy_board-IsWilling : IsWilling busy_board busy_level 3 10
unfolding ticks
busy_board-IsWilling = record {
  replies = other;
  looks = λ log. refl;
  settles = λ log h. ground arith;
  starts = λ log. omega arith;
  paces = λ log. omega arith;
  in_time = omega arith;
  few = omega arith;
}
  where
    other : (c : Call) (log : List Call) → is_look c ≡ false → busy_reply (c ∷ log) ≡ ok 0
    other (gpio_set p v) log e = refl
    other (gpio_get p) log e = absurd (false≢true (sym e))
    other (gpio_configure p m) log e = refl
    other (spi_write b) log e = refl
    other (sleep ms) log e = refl
    other uptime log e = refl

present_framebuf-Shown_example :
    Ends
      (λ n t. Shown busy_board busy_level 3 10 busy_board-IsWilling dots t)
      (λ _ _. ⊥)
      (present_framebuf busy_board)
      dots
present_framebuf-Shown_example =
    present_framebuf-Shown busy_board busy_level 3 10 busy_board-IsWilling dots

present_framebuf_sends_example :
    (received (present_framebuf idle_board dots).1.calls
      ≡ frame_messages dots.framebuf ++ received dots.calls)
    × ((present_framebuf idle_board dots).1.framebuf ≡ dots.framebuf)
unfolding call k_uptime_get k_sleep write_bytes write_cmd write_data write_data_byte wait_loop
    wait_idle reset_sequence set_ram_full_window set_ram_cursor_origin update_display
    present_framebuf ticks
present_framebuf_sends_example =
    present_framebuf_sends idle_board dots {n = 0} {t = (present_framebuf idle_board dots).1} refl

pixel-fb_set_pixel_example :
    pixel (fb_set_pixel (pos 3) (pos 4) true blank) 3 4
    ≡ (if eqb_ℤ (pos 3) (pos 3) && eqb_ℤ (pos 4) (pos 4) then true else pixel blank 3 4)
pixel-fb_set_pixel_example =
    pixel-fb_set_pixel blank white (pos 3) (pos 4) true 3 4 (omega arith) (omega arith)

fb_fill_rect-Paints_example :
    Paints
      (rect_area (pos 1) (pos 2) (pos 30) (pos 40))
      true
      blank
      (fb_fill_rect (pos 1) (pos 2) (pos 30) (pos 40) true blank)
fb_fill_rect-Paints_example = fb_fill_rect-Paints (pos 1) (pos 2) (pos 30) (pos 40) true blank white

find_glyph-Locates_example : Locates font 0x4E2D (find_glyph font 0x4E2D)
find_glyph-Locates_example = find_glyph-Locates font 0x4E2D font-IsSorted

utf8_decode_one-utf8_encode_example :
    utf8_decode_one (utf8_encode 0x4E2D ++ (b'!' ∷ [])) ≡ (0x4E2D, b'!' ∷ [])
utf8_decode_one-utf8_encode_example =
    utf8_decode_one-utf8_encode 0x4E2D (b'!' ∷ []) (omega arith) (omega arith)

abbrev cells : Page
cells = record {
  x = pos 10;
  y = pos 10;
  max_cols = pos 4;
  max_rows = pos 2;
  col_pitch = 13;
  line_pitch = 14;
  black = true;
}

fb_draw_utf8_text12-Confined_example :
    Confined
      (λ px py.
        within (pos_part (pos 4) * pitch (pos 1)) (pos 10) px
        && within (pos_part (pos 2) * pitch (pos 2)) (pos 10) py)
      blank
      (fb_draw_utf8_text12 font dots.spacing
        (pos 10)
        (pos 10)
        (b'a' ∷ [])
        (pos 4)
        (pos 2)
        (pos 2)
        true
        blank)
fb_draw_utf8_text12-Confined_example =
    fb_draw_utf8_text12-Confined font dots.spacing (pos 10) (pos 10) (b'a' ∷ []) (pos 4) (pos 2)
      (pos 2) true blank (omega arith) white

gray_picture_shows_example :
    (pixel gray_picture 30 50
      ≡ ((30 % 25 == 0) && leb 25 30 || ltb (order 30 50) (shade (30 / 25))))
    × (blacks (30 / 25) 64 ≡ shade (30 / 25))
    × (7 * shade (30 / 25) < 64 * (30 / 25) + 7)
    × (64 * (30 / 25) < 7 * shade (30 / 25) + 7)
gray_picture_shows_example = gray_picture_shows 30 50 (omega arith) (omega arith)
