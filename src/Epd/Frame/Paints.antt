-- ===== src/Epd/Frame/Paints.antt =====
-- A region of the screen painted in one colour, the rest left alone: the specification of every
-- drawing primitive of src/epd200x200.c, closed under composition.
use esp32s3tinyepaper.Base.{ℕ, ◌<◌, ◌≡◌, Bool, false, ◌&&◌, ◌||◌, arith, if◌then◌else◌}
use esp32s3tinyepaper.Base.Int.{ℤ, pos, eqb_ℤ}
use esp32s3tinyepaper.Epd.Frame.{FrameBuf, IsFrame, fb_set_pixel, pixel}
use esp32s3tinyepaper.Epd.Frame.Pixels.{pixel-fb_set_pixel, fb_set_pixel-IsFrame}

abbrev pub Region : Type 0
Region = ℕ → ℕ → Bool

pub record Paints (region : Region) (black : Bool) (fb after : FrameBuf) : Type 0 where
  pub frame : IsFrame after
  pub shows :
      (px py : ℕ)
      → px < 200
      → py < 200
      → pixel after px py ≡ (if region px py then black else pixel fb px py)

pub fb_set_pixel-Paints :
    (x y : ℤ) (black : Bool) (fb : FrameBuf)
    → IsFrame fb
    → Paints (λ px py. eqb_ℤ x (pos px) && eqb_ℤ y (pos py)) black fb (fb_set_pixel x y black fb)
fb_set_pixel-Paints x y black fb frame = record {
  frame = fb_set_pixel-IsFrame fb frame x y black;
  shows = pixel-fb_set_pixel fb frame x y black;
}

module _ {r : Region} {black : Bool} {fb after : FrameBuf} where
  pub Paints-ext :
      (s : Region)
      → Paints r black fb after
      → ((px py : ℕ) → px < 200 → py < 200 → r px py ≡ s px py)
      → Paints s black fb after
  Paints-ext s p same = record {
    frame = p.frame;
    shows = λ px py hx hy. ground (arith, p.shows px py hx hy, same px py hx hy);
  }

  pub Paints-trans :
      (s : Region) (last : FrameBuf)
      → Paints r black fb after
      → Paints s black after last
      → Paints (λ px py. r px py || s px py) black fb last
  Paints-trans s last p q = record {
    frame = q.frame;
    shows = λ px py hx hy. ground (arith, p.shows px py hx hy, q.shows px py hx hy);
  }

pub Paints-refl : (black : Bool) (fb : FrameBuf) → IsFrame fb → Paints (λ _ _. false) black fb fb
Paints-refl black fb frame = record { frame = frame; shows = λ px py hx hy. ground arith }
