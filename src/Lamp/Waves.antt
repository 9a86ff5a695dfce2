-- ===== src/Lamp/Waves.antt =====
-- The pictures that the loop of src/main_chip_info.c sends, as triangle waves.
use esp32s3tinyepaper.Base.{
  ℕ, ◌+◌, ◌-◌, ◌*◌, ◌/◌, ◌%◌, ◌≤◌, ◌<◌, ◌≡◌, refl, ap, ◌∙◌, ◌==◌, leb, ltb, if◌then◌else◌, arith,
  set, replicate,
}
use esp32s3tinyepaper.Base.Int.{ℤ, pos, negsuc, ◌+ℤ◌, ◌-ℤ◌}
use esp32s3tinyepaper.Lamp.{
  Rgb, Light, ◌*ℤ◌, quot_ℤ, to_uint8, pixel, bounce, light_step, dark, pixels,
}

-- A value that goes up to a limit and down to 0, by the rounds since it started.
abbrev pub wave : ℕ → ℕ → ℕ
wave limit r = if leb r limit then r else 2 * limit - r

abbrev direction : ℕ → ℕ → ℤ
direction limit r = if ltb r limit then pos 1 else negsuc 0

abbrev next_phase : ℕ → ℕ → ℕ
next_phase limit r = if (r + 1) == (2 * limit) then 0 else r + 1

bounce-wave :
    (limit r : ℕ)
    → 1 < limit
    → r < 2 * limit
    → bounce (pos limit) (pos (wave limit r)) (direction limit r)
      ≡ (pos (wave limit (next_phase limit r)), direction limit (next_phase limit r))
unfolding bounce ◌+ℤ◌
bounce-wave limit r big h = ground arith

-- The variables after `k` rounds.
abbrev pub light_at : ℕ → Light
light_at k = record {
  breath = pos (wave 64 (k % 128));
  breath_dir = direction 64 (k % 128);
  hue = pos (wave 255 (k % 510));
  hue_dir = direction 255 (k % 510);
}

breath_phase : (k : ℕ) → (k + 1) % 128 ≡ next_phase 64 (k % 128)
breath_phase k = ground arith

hue_phase : (k : ℕ) → (k + 1) % 510 ≡ next_phase 255 (k % 510)
hue_phase k = ground arith

pub light_step-light_at : (k : ℕ) → light_step (light_at k) ≡ light_at (k + 1)
unfolding light_step
light_step-light_at k =
    rw
      (
        breath_phase k,
        hue_phase k,
        bounce-wave 64 (k % 128) (omega arith) (omega arith),
        bounce-wave 255 (k % 510) (omega arith) (omega arith),
      )
      refl

-- The colour of a round, by its number: its green and blue share the breath by the hue.
abbrev pub colour : ℕ → Rgb
colour k = record {
  r = 0;
  g = wave 64 (k % 128) * (255 - wave 255 (k % 510)) / 255;
  b = wave 64 (k % 128) * wave 255 (k % 510) / 255;
}

times_pos : (v h : ℕ) → (pos v *ℤ pos h) ≡ pos (v * h)
unfolding ◌*ℤ◌
times_pos v h = ground arith

quot_pos : (n : ℕ) → quot_ℤ (pos n) 255 ≡ pos (n / 255)
unfolding quot_ℤ
quot_pos n = ground arith

product_bound : (v h : ℕ) → v ≤ 64 → h ≤ 255 → v * h ≤ 64 * 255
product_bound v h small part = grind arith

-- The cast loses nothing of a share of a value up to 64.
share_fits : (v h : ℕ) → v ≤ 64 → h ≤ 255 → to_uint8 (quot_ℤ (pos v *ℤ pos h) 255) ≡ v * h / 255
unfolding to_uint8
share_fits v h small part =
    rw (times_pos v h, quot_pos (v * h)) (omega (arith, product_bound v h small part))

rest_of_hue : (h : ℕ) → h ≤ 255 → (pos 255 -ℤ pos h) ≡ pos (255 - h)
unfolding ◌-ℤ◌
rest_of_hue h part = ground arith

pixel-light_at : (k : ℕ) → pixel (light_at k) ≡ colour k
unfolding pixel
pixel-light_at k =
    rw
      (
        rest_of_hue (wave 255 (k % 510)) (ground arith),
        share_fits (wave 64 (k % 128)) (255 - wave 255 (k % 510)) (ground arith) (ground arith),
        share_fits (wave 64 (k % 128)) (wave 255 (k % 510)) (ground arith) (ground arith),
      )
      refl

times_sum : (v a h : ℕ) → v * a + v * h ≡ v * (a + h)
times_sum v a h = omega arith

shares_add : (v h : ℕ) → h ≤ 255 → v * (255 - h) + v * h ≡ v * 255
shares_add v h part = times_sum v (255 - h) h ∙ ap (λ n. v * n) (omega arith)

-- Both shares together are the breath, or one less.
pub brightness :
    (v h : ℕ)
    → h ≤ 255
    → (v * (255 - h) / 255 + v * h / 255 ≤ v) × (v ≤ v * (255 - h) / 255 + v * h / 255 + 1)
brightness v h part = omega (arith, shares_add v h part)

pub pixels-light_at : (n k : ℕ) → pixels n (light_at k) ≡ set (replicate n dark) 0 (colour k)
unfolding pixels
pixels-light_at n k = rw (pixel-light_at k) refl
