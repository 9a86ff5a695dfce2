-- ===== src/Epd/Frame.antt =====
-- The frame buffer of src/epd200x200.c: one bit for a pixel, eight pixels to a byte with the
-- leftmost in the highest bit, a cleared bit for black. `int` coordinates may lie off the screen.
pub mod Pixels
pub mod Paints
use esp32s3tinyepaper.Base.{
  ℕ, ◌+◌, ◌-◌, ◌*◌, ◌/◌, ◌%◌, ◌^◌, ◌<◌, ◌≡◌, Bool, true, false, ◌||◌, List, bit_and, bit_or, ltb,
  ◌==◌, if◌then◌else◌, get_or, set, replicate, length, All,
}
use esp32s3tinyepaper.Base.Int.{ℤ, pos, pos_part, ltb_ℤ, leb_ℤ}

abbrev pub epd_width : ℕ
epd_width = 200

abbrev pub epd_height : ℕ
epd_height = 200

abbrev pub epd_fb_size : ℕ
epd_fb_size = epd_width * epd_height / 8

abbrev pub FrameBuf : Type 0
FrameBuf = List ℕ

-- `memset(epd_framebuf, black ? 0x00 : 0xFF, sizeof(epd_framebuf))`
unfoldable pub fb_clear : Bool → FrameBuf
fb_clear black = replicate epd_fb_size (if black then 0x00 else 0xFF)

-- `byte & ~bit` and `byte | bit` for `bit = BIT(k)`, kept to eight bits.
unfoldable pub write_bit : ℕ → ℕ → Bool → ℕ
write_bit byte k black = if black then bit_and byte (255 - 2 ^ k) else bit_or byte (2 ^ k)

unfoldable pub write_pixel : FrameBuf → ℕ → Bool → FrameBuf
write_pixel fb pixel_index black =
    let byte_index = pixel_index / 8 in
    set fb byte_index (write_bit (get_or fb byte_index 0) (7 - pixel_index % 8) black)

-- A pixel outside the screen is left out.
unfoldable pub fb_set_pixel : ℤ → ℤ → Bool → FrameBuf → FrameBuf
fb_set_pixel x y black fb =
    if ltb_ℤ x (pos 0) || leb_ℤ (pos epd_width) x || ltb_ℤ y (pos 0) || leb_ℤ (pos epd_height) y
    then fb
    else write_pixel fb (pos_part y * epd_width + pos_part x) black

-- The bit of a byte, and the colour that the panel shows at a pixel: true is black.
unfoldable pub bit_at : ℕ → ℕ → ℕ
bit_at byte k = byte / 2 ^ k % 2

unfoldable pub pixel_at : FrameBuf → ℕ → Bool
pixel_at fb i = bit_at (get_or fb (i / 8) 0) (7 - i % 8) == 0

unfoldable pub pixel : FrameBuf → ℕ → ℕ → Bool
pixel fb px py = pixel_at fb (py * epd_width + px)

-- The buffer has its size, and every entry is a byte.
pub record IsFrame (fb : FrameBuf) : Type 0 where
  pub size : length fb ≡ epd_fb_size
  pub bytes : All (λ b. b < 256) fb
