-- ===== src/Epd/Shapes/Painted.antt =====
-- The pixels that each line and rectangle of src/epd200x200.c paints.
use esp32s3tinyepaper.Base.{
  ℕ, zero, suc, ◌<◌, ◌≡◌, Bool, true, false, ◌&&◌, ◌||◌, inl, inr, arith, Bool-cases,
}
use esp32s3tinyepaper.Base.Int.{
  ℤ, pos, pos_part, ◌≤ℤ◌, ◌+ℤ◌, ◌-ℤ◌, ltb_ℤ, leb_ℤ, eqb_ℤ, +ℤ_parts, -ℤ_parts, parts_zero,
}
use esp32s3tinyepaper.Epd.Frame.{FrameBuf, IsFrame, fb_set_pixel}
use esp32s3tinyepaper.Epd.Frame.Pixels.{fb_set_pixel-IsFrame}
use esp32s3tinyepaper.Epd.Frame.Paints.{
  Region, Paints, fb_set_pixel-Paints, Paints-ext, Paints-trans, Paints-refl,
}
use esp32s3tinyepaper.Epd.Shapes.{
  rounds, clip_first, clip_last, hline_loop, vline_loop, fb_draw_hline, fb_draw_vline, fb_draw_rect,
  fill_loop, fb_fill_rect,
}

-- `p` lies between `a` and `b`, whichever of them comes first.
abbrev pub between : ℤ → ℤ → ℕ → Bool
between a b p = (leb_ℤ a (pos p) && leb_ℤ (pos p) b) || (leb_ℤ b (pos p) && leb_ℤ (pos p) a)

-- `p` is one of the `n` places from `a` on.
abbrev pub within : ℕ → ℤ → ℕ → Bool
within n a p = leb_ℤ a (pos p) && ltb_ℤ (pos p) (a +ℤ pos n)

within_step :
    (n : ℕ) (a : ℤ) (p : ℕ) → (eqb_ℤ a (pos p) || within n (a +ℤ pos 1) p) ≡ within (suc n) a p
within_step n a p =
    ground (arith, +ℤ_parts a (pos (suc n)), +ℤ_parts a (pos 1), +ℤ_parts (a +ℤ pos 1) (pos n))

hline_loop-Paints :
    (n : ℕ) (x y : ℤ) (black : Bool) (fb : FrameBuf)
    → IsFrame fb
    → Paints (λ px py. within n x px && eqb_ℤ y (pos py)) black fb (hline_loop n x y black fb)
unfolding hline_loop
hline_loop-Paints zero x y black fb frame =
    Paints-ext _ (Paints-refl black fb frame) (λ px py hx hy. ground (arith, +ℤ_parts x (pos 0)))
hline_loop-Paints (suc n) x y black fb frame =
    Paints-ext _
      (Paints-trans _ _ (fb_set_pixel-Paints x y black fb frame) (
        hline_loop-Paints n (x +ℤ pos 1) y black (fb_set_pixel x y black fb)
          (fb_set_pixel-IsFrame fb frame x y black)))
      (λ px py hx hy. ground (arith, within_step n x px))

vline_loop-Paints :
    (n : ℕ) (x y : ℤ) (black : Bool) (fb : FrameBuf)
    → IsFrame fb
    → Paints (λ px py. eqb_ℤ x (pos px) && within n y py) black fb (vline_loop n x y black fb)
unfolding vline_loop
vline_loop-Paints zero x y black fb frame =
    Paints-ext _ (Paints-refl black fb frame) (λ px py hx hy. ground (arith, +ℤ_parts y (pos 0)))
vline_loop-Paints (suc n) x y black fb frame =
    Paints-ext _
      (Paints-trans _ _ (fb_set_pixel-Paints x y black fb frame) (
        vline_loop-Paints n x (y +ℤ pos 1) black (fb_set_pixel x y black fb)
          (fb_set_pixel-IsFrame fb frame x y black)))
      (λ px py hx hy. ground (arith, within_step n y py))

-- Swapping and clipping the ends loses no place of the screen and adds none.
clip_covers :
    (a b : ℤ) (p : ℕ)
    → p < 200
    → within (rounds (clip_first a b) (clip_last a b (pos 200))) (clip_first a b) p ≡ between a b p
unfolding clip_first clip_last ◌+ℤ◌ ◌-ℤ◌
clip_covers a b p h = ground arith

module _ (black : Bool) (fb : FrameBuf) (frame : IsFrame fb) where
  -- A horizontal line paints exactly the screen's pixels of its row between its two ends, in
  -- whichever order they are given and however far off the screen they lie.
  pub fb_draw_hline-Paints :
      (x0 x1 y : ℤ)
      → Paints
          (λ px py. between x0 x1 px && eqb_ℤ y (pos py))
          black
          fb
          (fb_draw_hline x0 x1 y black fb)
  unfolding fb_draw_hline
  fb_draw_hline-Paints x0 x1 y = elim (Bool-cases (ltb_ℤ y (pos 0) || leb_ℤ (pos 200) y)) [
    | inl out ↦ rw out (Paints-ext _ (Paints-refl black fb frame) (λ px py hx hy. ground arith))
    | inr inside ↦ rw inside (
        Paints-ext _ (hline_loop-Paints _ (clip_first x0 x1) y black fb frame)
          (λ px py hx hy. ground (arith, clip_covers x0 x1 px hx)))
  ]

  -- A vertical line paints exactly the screen's pixels of its column between its two ends, in
  -- whichever order they are given and however far off the screen they lie.
  pub fb_draw_vline-Paints :
      (x y0 y1 : ℤ)
      → Paints
          (λ px py. eqb_ℤ x (pos px) && between y0 y1 py)
          black
          fb
          (fb_draw_vline x y0 y1 black fb)
  unfolding fb_draw_vline
  fb_draw_vline-Paints x y0 y1 = elim (Bool-cases (ltb_ℤ x (pos 0) || leb_ℤ (pos 200) x)) [
    | inl out ↦ rw out (Paints-ext _ (Paints-refl black fb frame) (λ px py hx hy. ground arith))
    | inr inside ↦ rw inside (
        Paints-ext _ (vline_loop-Paints _ x (clip_first y0 y1) black fb frame)
          (λ px py hx hy. ground (arith, clip_covers y0 y1 py hy)))
  ]

-- The border and the inside of a rectangle with a corner at (x, y), `w` wide and `h` high.
abbrev pub rect_border : ℤ → ℤ → ℤ → ℤ → Region
rect_border x y w h px py =
    within (pos_part w) x px
    && within (pos_part h) y py
    && (eqb_ℤ x (pos px)
        || eqb_ℤ (x +ℤ w -ℤ pos 1) (pos px)
        || eqb_ℤ y (pos py)
        || eqb_ℤ (y +ℤ h -ℤ pos 1) (pos py))

abbrev pub rect_area : ℤ → ℤ → ℤ → ℤ → Region
rect_area x y w h px py = within (pos_part w) x px && within (pos_part h) y py

-- A side of a positive length: its last place, and what lies between its ends.
span : (x w : ℤ) (p : ℕ) → pos 1 ≤ℤ w → between x (x +ℤ w -ℤ pos 1) p ≡ within (pos_part w) x p
span x w p h =
    ground
      (arith, +ℤ_parts x w, -ℤ_parts (x +ℤ w) (pos 1), +ℤ_parts x (pos (pos_part w)), parts_zero w)

span_first :
    (x w : ℤ) (p : ℕ) → pos 1 ≤ℤ w → eqb_ℤ x (pos p) ≡ true → within (pos_part w) x p ≡ true
span_first x w p h e = ground (arith, +ℤ_parts x (pos (pos_part w)), parts_zero w)

span_last :
    (x w : ℤ) (p : ℕ)
    → pos 1 ≤ℤ w
    → eqb_ℤ (x +ℤ w -ℤ pos 1) (pos p) ≡ true
    → within (pos_part w) x p ≡ true
span_last x w p h e =
    ground
      (arith, +ℤ_parts x w, -ℤ_parts (x +ℤ w) (pos 1), +ℤ_parts x (pos (pos_part w)), parts_zero w)

some_sides : (w h : ℤ) → (leb_ℤ w (pos 0) || leb_ℤ h (pos 0)) ≡ false → (pos 1 ≤ℤ w) × (pos 1 ≤ℤ h)
some_sides w h e = ground arith

-- The four sides together are the border.
sides_join :
    (wx wy left right top bottom : Bool)
    → (left ≡ true → wx ≡ true)
    → (right ≡ true → wx ≡ true)
    → (top ≡ true → wy ≡ true)
    → (bottom ≡ true → wy ≡ true)
    → ((((wx && top) || (wx && bottom)) || (left && wy)) || (right && wy))
      ≡ (wx && wy && (left || right || top || bottom))
sides_join wx wy left right top bottom a b c d = ground arith

border_covers :
    (x y w h : ℤ) (px py : ℕ)
    → pos 1 ≤ℤ w
    → pos 1 ≤ℤ h
    → ((((between x (x +ℤ w -ℤ pos 1) px && eqb_ℤ y (pos py))
            || (between x (x +ℤ w -ℤ pos 1) px && eqb_ℤ (y +ℤ h -ℤ pos 1) (pos py)))
          || (eqb_ℤ x (pos px) && between y (y +ℤ h -ℤ pos 1) py))
        || (eqb_ℤ (x +ℤ w -ℤ pos 1) (pos px) && between y (y +ℤ h -ℤ pos 1) py))
      ≡ rect_border x y w h px py
border_covers x y w h px py pw ph =
    rw (span x w px pw, span y h py ph)
      (sides_join _ _ _ _ _ _ (span_first x w px pw) (span_last x w px pw) (span_first y h py ph)
        (span_last y h py ph))

-- A rectangle paints its border and nothing else; it is empty unless both sides are positive.
pub fb_draw_rect-Paints :
    (x y w h : ℤ) (black : Bool) (fb : FrameBuf)
    → IsFrame fb
    → Paints (rect_border x y w h) black fb (fb_draw_rect x y w h black fb)
unfolding fb_draw_rect
fb_draw_rect-Paints x y w h black fb frame =
    elim (Bool-cases (leb_ℤ w (pos 0) || leb_ℤ h (pos 0))) [
      | inl empty ↦ rw empty (
          Paints-ext _ (Paints-refl black fb frame) (λ px py hx hy.
            ground (arith, +ℤ_parts x (pos (pos_part w)), +ℤ_parts y (pos (pos_part h)))))
      | inr some_area ↦ rw some_area (
          let right = x +ℤ w -ℤ pos 1 in
          let bottom = y +ℤ h -ℤ pos 1 in
          let p1 = fb_draw_hline-Paints black fb frame x right y in
          let p2 = fb_draw_hline-Paints black _ p1.frame x right bottom in
          let p3 = fb_draw_vline-Paints black _ p2.frame x y bottom in
          let p4 = fb_draw_vline-Paints black _ p3.frame right y bottom in
          Paints-ext _ (Paints-trans _ _ (Paints-trans _ _ (Paints-trans _ _ p1 p2) p3) p4)
            (λ px py hx hy.
              border_covers x y w h px py (omega (arith, some_sides w h some_area))
                (omega (arith, some_sides w h some_area))))
    ]

fill_loop-Paints :
    (n : ℕ) (x right yy : ℤ) (black : Bool) (fb : FrameBuf)
    → IsFrame fb
    → Paints
        (λ px py. between x right px && within n yy py)
        black
        fb
        (fill_loop n x right yy black fb)
unfolding fill_loop
fill_loop-Paints zero x right yy black fb frame =
    Paints-ext _ (Paints-refl black fb frame) (λ px py hx hy. ground (arith, +ℤ_parts yy (pos 0)))
fill_loop-Paints (suc n) x right yy black fb frame =
    let line = fb_draw_hline-Paints black fb frame x right yy in
    Paints-ext _
      (Paints-trans _ _ line (fill_loop-Paints n x right (yy +ℤ pos 1) black _ line.frame))
      (λ px py hx hy. ground (arith, within_step n yy py))

-- A filled rectangle paints its whole area and nothing else.
pub fb_fill_rect-Paints :
    (x y w h : ℤ) (black : Bool) (fb : FrameBuf)
    → IsFrame fb
    → Paints (rect_area x y w h) black fb (fb_fill_rect x y w h black fb)
unfolding fb_fill_rect
fb_fill_rect-Paints x y w h black fb frame =
    elim (Bool-cases (leb_ℤ w (pos 0) || leb_ℤ h (pos 0))) [
      | inl empty ↦ rw empty (
          Paints-ext _ (Paints-refl black fb frame) (λ px py hx hy.
            ground (arith, +ℤ_parts x (pos (pos_part w)), +ℤ_parts y (pos (pos_part h)))))
      | inr some_area ↦ rw some_area (
          Paints-ext _ (fill_loop-Paints _ x (x +ℤ w -ℤ pos 1) y black fb frame) (λ px py hx hy.
            ground (
              arith,
              +ℤ_parts x w,
              -ℤ_parts (x +ℤ w) (pos 1),
              +ℤ_parts x (pos (pos_part w)),
              +ℤ_parts y h,
              -ℤ_parts (y +ℤ h) y,
              +ℤ_parts y (pos (pos_part h)),
              +ℤ_parts y (pos (pos_part (y +ℤ h -ℤ y))),
              parts_zero (y +ℤ h -ℤ y),
              parts_zero w,
              parts_zero h,
            )))
    ]
