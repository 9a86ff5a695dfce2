-- ===== src/Lamp.antt =====
-- The application that shows the chip's data and breathes with its LED: src/main_chip_info.c. `int` is
-- the integers without a width. What it prints is left out.
pub mod Waves
pub mod Breathes
use esp32s3tinyepaper.Base.{
  ℕ, zero, suc, ◌+◌, ◌-◌, ◌*◌, ◌/◌, ◌%◌, Bool, true, false, not, List, [], ◌∷◌, ◌==◌, leb,
  if◌then◌else◌, set, replicate,
}
use esp32s3tinyepaper.Base.Int.{ℤ, pos, negsuc, pos_part, neg_part, sub_ℕ, ◌+ℤ◌, ◌-ℤ◌, leb_ℤ}
use esp32s3tinyepaper.Base.Result.{
  Result, ok, err, Action, pure, modify, attempt, ignore, ◌>>=◌, ◌>>◌,
}
use esp32s3tinyepaper.Epd.Glyph.{Glyph}
use esp32s3tinyepaper.Epd.Panel.{Board, Epd, init}
use esp32s3tinyepaper.Epd.Show.{show_chinese_demo}

abbrev pub breath_step_ms : ℕ
breath_step_ms = 20

abbrev pub breath_max : ℕ
breath_max = 64

-- `struct led_rgb`.
pub record Rgb : Type 0 where
  pub r : ℕ
  pub g : ℕ
  pub b : ℕ

-- The variables of the loop in `main`.
pub record Light : Type 0 where
  pub breath : ℤ
  pub breath_dir : ℤ
  pub hue : ℤ
  pub hue_dir : ℤ

infixl 70 ◌*ℤ◌
unfoldable pub ◌*ℤ◌ : ℤ → ℤ → ℤ
a *ℤ b =
    sub_ℕ (pos_part a * pos_part b + neg_part a * neg_part b)
      (pos_part a * neg_part b + neg_part a * pos_part b)

-- Division rounds towards zero.
unfoldable pub quot_ℤ : ℤ → ℕ → ℤ
quot_ℤ a d = sub_ℕ (pos_part a / d) (neg_part a / d)

-- The cast to `uint8_t`.
unfoldable pub to_uint8 : ℤ → ℕ
to_uint8 (pos n) = n % 256
to_uint8 (negsuc n) = 255 - n % 256

unfoldable pub pixel : Light → Rgb
pixel light = record {
  r = 0;
  g = to_uint8 (quot_ℤ (light.breath *ℤ (pos 255 -ℤ light.hue)) 255);
  b = to_uint8 (quot_ℤ (light.breath *ℤ light.hue) 255);
}

-- A step of a value that turns at 0 and at a limit, with its direction.
unfoldable pub bounce : ℤ → ℤ → ℤ → ℤ × ℤ
bounce limit value dir =
    let next = value +ℤ dir in
    if leb_ℤ limit next
    then (limit, negsuc 0)
    else if leb_ℤ next (pos 0)
    then (pos 0, pos 1)
    else (next, dir)

unfoldable pub light_step : Light → Light
light_step light =
    let (breath, breath_dir) = bounce (pos breath_max) light.breath light.breath_dir in
    let (hue, hue_dir) = bounce (pos 255) light.hue light.hue_dir in
    record { breath = breath; breath_dir = breath_dir; hue = hue; hue_dir = hue_dir }

unfoldable pub first_light : Light
first_light = record { breath = pos 0; breath_dir = pos 1; hue = pos 0; hue_dir = pos 1 }

abbrev pub dark : Rgb
dark = record { r = 0; g = 0; b = 0 }

-- All pixels of the strip but the first are dark.
unfoldable pub pixels : ℕ → Light → List Rgb
pixels num_pixels light = set (replicate num_pixels dark) 0 (pixel light)

-- `led_strip_update_rgb`, `device_is_ready`, `k_sleep` and the length of the chain.
pub record Strip (S : Type 0) : Type 0 where
  pub num_pixels : ℕ
  pub is_ready : Bool
  pub update_rgb : List Rgb → S → Result (Unit {0}) × S
  pub sleep : ℕ → S → S

module _ {S : Type 0} (strip : Strip S) where
  -- A round of the endless loop. A failed update is only printed.
  unfoldable pub show_round : Light → Action S Light
  show_round light = do
    ignore (strip.update_rgb (pixels strip.num_pixels light))
    modify (strip.sleep breath_step_ms)
    pure (light_step light)

  unfoldable pub show_rounds : ℕ → Light → Action S Light
  show_rounds zero light = pure light
  show_rounds (suc rounds) light = do next ← show_round light; show_rounds rounds next

  -- The loop is not entered where the strip is not ready.
  unfoldable pub breathe : ℕ → Action S (Unit {0})
  breathe rounds = if not strip.is_ready then pure tt else ignore (show_rounds rounds first_light)

-- The display is drawn once, if it starts.
unfoldable pub after_init : Board → List Glyph → Result ℕ → Action Epd (Unit {0})
after_init board font (ok zero) = ignore (show_chinese_demo board font)
after_init board font r = pure tt

unfoldable pub draw_once : Board → List Glyph → Action Epd (Unit {0})
draw_once board font = do r ← attempt (init board); after_init board font r
