-- ===== src/Epd/Frame/Pixels.antt =====
-- What one pixel write does to the picture: src/epd200x200.c, `epd_fb_set_pixel`.
use esp32s3tinyepaper.Base.{
  ℕ, ◌+◌, ◌-◌, ◌*◌, ◌/◌, ◌%◌, ◌<◌, ◌≡◌, refl, ◌∙◌, Bool, true, false, ◌&&◌, ◌||◌, inl, inr, arith,
  ltb, ◌==◌, if◌then◌else◌, get_or, Bool-cases, all_below, all_below_sound, length-set, get_or-set,
  All-set, All-get_or, length-replicate, All-replicate,
}
use esp32s3tinyepaper.Base.Int.{ℤ, pos, pos_part, ltb_ℤ, leb_ℤ, eqb_ℤ}
use esp32s3tinyepaper.Epd.Frame.{
  FrameBuf, IsFrame, fb_clear, write_bit, write_pixel, fb_set_pixel, bit_at, pixel_at, pixel,
}

-- Every byte, bit position and colour, checked by evaluation.
abbrev write_bit_ok : Bool → ℕ → ℕ → ℕ → Bool
write_bit_ok black j k byte =
    ltb (write_bit byte k black) 256
    && ((bit_at (write_bit byte k black) j)
        == (if k == j then if black then 0 else 1 else bit_at byte j))

write_bit_table_black :
    all_below 8 (λ j. all_below 8 (λ k. all_below 256 (λ b. write_bit_ok true j k b))) ≡ true
unfolding all_below write_bit bit_at
write_bit_table_black = refl

write_bit_table_white :
    all_below 8 (λ j. all_below 8 (λ k. all_below 256 (λ b. write_bit_ok false j k b))) ≡ true
unfolding all_below write_bit bit_at
write_bit_table_white = refl

write_bit_ok_all :
    (black : Bool) (j k byte : ℕ) → j < 8 → k < 8 → byte < 256 → write_bit_ok black j k byte ≡ true
write_bit_ok_all true j k byte hj hk hb =
    all_below_sound 256 (λ b. write_bit_ok true j k b) byte
      (all_below_sound 8 (λ i. all_below 256 (λ b. write_bit_ok true j i b)) k
        (all_below_sound 8 (λ l. all_below 8 (λ i. all_below 256 (λ b. write_bit_ok true l i b))) j
          write_bit_table_black hj)
        hk)
      hb
write_bit_ok_all false j k byte hj hk hb =
    all_below_sound 256 (λ b. write_bit_ok false j k b) byte
      (all_below_sound 8 (λ i. all_below 256 (λ b. write_bit_ok false j i b)) k
        (all_below_sound 8 (λ l. all_below 8 (λ i. all_below 256 (λ b. write_bit_ok false l i b))) j
          write_bit_table_white hj)
        hk)
      hb

bit_at-write_bit :
    (black : Bool) (j k byte : ℕ)
    → j < 8
    → k < 8
    → byte < 256
    → (bit_at (write_bit byte k black) j == 0) ≡ (if k == j then black else bit_at byte j == 0)
bit_at-write_bit black j k byte hj hk hb = ground (arith, write_bit_ok_all black j k byte hj hk hb)

write_bit-lt : (black : Bool) (k byte : ℕ) → k < 8 → byte < 256 → write_bit byte k black < 256
write_bit-lt black k byte hk hb =
    ground (arith, write_bit_ok_all black 0 k byte (omega arith) hk hb)

pub fb_clear-IsFrame : (black : Bool) → IsFrame (fb_clear black)
unfolding fb_clear
fb_clear-IsFrame true = record {
  size = length-replicate {A = ℕ} 5000 0x00;
  bytes = All-replicate (λ b. b < 256) 5000 0x00 (omega arith);
}
fb_clear-IsFrame false = record {
  size = length-replicate {A = ℕ} 5000 0xFF;
  bytes = All-replicate (λ b. b < 256) 5000 0xFF (omega arith);
}

module _ (fb : FrameBuf) (frame : IsFrame fb) where
  byte-lt : (i : ℕ) → get_or fb i 0 < 256
  byte-lt i = All-get_or (λ b. b < 256) fb i 0 frame.bytes (omega arith)

  pub write_pixel-IsFrame : (i : ℕ) (black : Bool) → IsFrame (write_pixel fb i black)
  unfolding write_pixel
  write_pixel-IsFrame i black = record {
    size = length-set fb (i / 8) _ ∙ frame.size;
    bytes =
        All-set (λ b. b < 256) fb (i / 8) _ frame.bytes
          (write_bit-lt black (7 - i % 8) (get_or fb (i / 8) 0) (omega arith) (byte-lt (i / 8)));
  }

  pub pixel_at-write_pixel :
      (i j : ℕ) (black : Bool)
      → i < 40000
      → pixel_at (write_pixel fb i black) j ≡ (if i == j then black else pixel_at fb j)
  unfolding write_pixel pixel_at
  pixel_at-write_pixel i j black h =
      rw
        (get_or-set fb (i / 8) (j / 8) (write_bit (get_or fb (i / 8) 0) (7 - i % 8) black) 0
          (omega (arith, frame.size)))
        (elim (Bool-cases (i / 8 == j / 8)) [
          | inl same ↦ rw same (
              ground (
                arith,
                bit_at-write_bit black (7 - j % 8) (7 - i % 8) (get_or fb (i / 8) 0) (omega arith)
                    (omega arith) (byte-lt (i / 8)),
              ))
          | inr apart ↦ rw apart (ground arith)
        ])

  -- A pixel write sets that pixel to the colour and leaves every other pixel of the screen as it
  -- was; outside the screen it changes nothing.
  pub pixel-fb_set_pixel :
      (x y : ℤ) (black : Bool) (px py : ℕ)
      → px < 200
      → py < 200
      → pixel (fb_set_pixel x y black fb) px py
        ≡ (if eqb_ℤ x (pos px) && eqb_ℤ y (pos py) then black else pixel fb px py)
  unfolding fb_set_pixel pixel
  pixel-fb_set_pixel x y black px py hx hy =
      ground (arith, pixel_at-write_pixel (pos_part y * 200 + pos_part x) (py * 200 + px) black)

  -- A pixel write keeps the size of the frame buffer and the range of its bytes, wherever the pixel is.
  pub fb_set_pixel-IsFrame : (x y : ℤ) (black : Bool) → IsFrame (fb_set_pixel x y black fb)
  unfolding fb_set_pixel
  fb_set_pixel-IsFrame x y black =
      elim (Bool-cases
        (ltb_ℤ x (pos 0) || leb_ℤ (pos 200) x || ltb_ℤ y (pos 0) || leb_ℤ (pos 200) y)) [
          | inl out ↦ rw out frame
          | inr inside ↦ rw inside (write_pixel-IsFrame _ black)
        ]
