-- ===== src/Epd/Show/Gray.antt =====
-- The gray bands of src/epd200x200.c: the final picture, pixel by pixel.
use esp32s3tinyepaper.Base.{
  ℕ, zero, suc, ◌+◌, ◌*◌, ◌/◌, ◌%◌, ◌<◌, ◌≡◌, refl, sym, ap, ◌∙◌, Bool, not, [], ◌∷◌, get_or,
  all_below, all_below_sound, true, false, ◌&&◌, ◌||◌, arith, ltb, leb, ◌==◌, if◌then◌else◌,
}
use esp32s3tinyepaper.Base.Int.{pos}
use esp32s3tinyepaper.Epd.Frame.{FrameBuf, IsFrame, fb_clear, fb_set_pixel, pixel}
use esp32s3tinyepaper.Epd.Frame.Pixels.{pixel-fb_set_pixel, fb_set_pixel-IsFrame, fb_clear-IsFrame}
use esp32s3tinyepaper.Epd.Shapes.Painted.{fb_draw_vline-Paints}
use esp32s3tinyepaper.Epd.Show.{
  bayer8x8, gray_is_black, gray_row, gray_rows, gray_separators, gray_picture,
}

-- What the rows from `y` on, `n` of them, show: the dither from column `x` on in row `y`.
record Row (x n y : ℕ) (fb after : FrameBuf) : Type 0 where
  frame : IsFrame after
  shows :
      (px py : ℕ)
      → px < 200
      → py < 200
      → pixel after px py
        ≡ (if (py == y) && leb x px && ltb px (x + n) then gray_is_black px py else pixel fb px py)

gray_row-Row : (n x y : ℕ) (fb : FrameBuf) → IsFrame fb → Row x n y fb (gray_row n x y fb)
unfolding gray_row
gray_row-Row zero x y fb frame = record { frame = frame; shows = λ px py hx hy. ground arith }
gray_row-Row (suc n) x y fb frame =
    let first = fb_set_pixel-IsFrame fb frame (pos x) (pos y) (gray_is_black x y) in
    let rest =
      gray_row-Row n (x + 1) y (fb_set_pixel (pos x) (pos y) (gray_is_black x y) fb) first in
    record {
      frame = rest.frame;
      shows = λ px py hx hy. ground (
        arith,
        rest.shows px py hx hy,
        pixel-fb_set_pixel fb frame (pos x) (pos y) (gray_is_black x y) px py hx hy,
      );
    }

record Rows (n y : ℕ) (fb after : FrameBuf) : Type 0 where
  frame : IsFrame after
  shows :
      (px py : ℕ)
      → px < 200
      → py < 200
      → pixel after px py
        ≡ (if leb y py && ltb py (y + n) then gray_is_black px py else pixel fb px py)

gray_rows-Rows : (n y : ℕ) (fb : FrameBuf) → IsFrame fb → Rows n y fb (gray_rows n y fb)
unfolding gray_rows
gray_rows-Rows zero y fb frame = record { frame = frame; shows = λ px py hx hy. ground arith }
gray_rows-Rows (suc n) y fb frame =
    let first = gray_row-Row 200 0 y fb frame in
    let rest = gray_rows-Rows n (y + 1) (gray_row 200 0 y fb) first.frame in
    record {
      frame = rest.frame;
      shows = λ px py hx hy. ground (arith, rest.shows px py hx hy, first.shows px py hx hy);
    }

record Lines (n i : ℕ) (fb after : FrameBuf) : Type 0 where
  frame : IsFrame after
  shows :
      (px py : ℕ)
      → px < 200
      → py < 200
      → pixel after px py ≡ (
          if (px % 25 == 0) && leb (i * 25) px && ltb px ((i + n) * 25)
          then true
          else pixel fb px py)

gray_separators-Lines :
    (n i : ℕ) (fb : FrameBuf) → IsFrame fb → Lines n i fb (gray_separators n i fb)
unfolding gray_separators
gray_separators-Lines zero i fb frame = record {
  frame = frame;
  shows = λ px py hx hy. ground arith;
}
gray_separators-Lines (suc n) i fb frame =
    let first = fb_draw_vline-Paints true fb frame (pos (i * 25)) (pos 0) (pos 199) in
    let rest = gray_separators-Lines n (i + 1) _ first.frame in
    record {
      frame = rest.frame;
      shows = λ px py hx hy. ground (arith, rest.shows px py hx hy, first.shows px py hx hy);
    }

-- The place of a pixel in the order in which the 64 pixels of a cell of 8 by 8 turn black: the bits of
-- both coordinates, the lowest ones first, the two coordinates' difference before the column's own.
abbrev bit_of : ℕ → ℕ → ℕ
bit_of n v = n / v % 2

abbrev differ : ℕ → ℕ → ℕ → ℕ
differ x y v = (bit_of x v + bit_of y v) % 2

unfoldable pub order : ℕ → ℕ → ℕ
order x y =
    32 * differ x y 1
    + 16 * bit_of x 1
    + 8 * differ x y 2
    + 4 * bit_of x 2
    + 2 * differ x y 4
    + bit_of x 4

-- How many of the 64 pixels are black in each of the eight bands.
unfoldable pub shade : ℕ → ℕ
shade band = get_or (0 ∷ 9 ∷ 18 ∷ 28 ∷ 37 ∷ 46 ∷ 55 ∷ 64 ∷ []) band 64

-- The black pixels among the first `n` of a cell.
unfoldable pub blacks : ℕ → ℕ → ℕ
blacks band zero = 0
blacks band (suc n) = blacks band n + (if ltb (order (n % 8) (n / 8)) (shade band) then 1 else 0)

order_in_cell : (x y : ℕ) → order x y ≡ order (x % 8) (y % 8)
unfolding order
order_in_cell x y =
    let low : (n : ℕ) → n % 2 ≡ n % 8 % 2 = λ n. omega arith in
    let middle : (n : ℕ) → n / 2 % 2 ≡ n % 8 / 2 % 2 = λ n. omega arith in
    let high : (n : ℕ) → n / 4 % 2 ≡ n % 8 / 4 % 2 = λ n. omega arith in
    omega (arith, low x, low y, middle x, middle y, high x, high y)

-- The source's test in a cell of a band.
abbrev in_cell : ℕ → ℕ → ℕ → Bool
in_cell band x y =
    ltb (get_or (get_or bayer8x8 y []) x 0 * 256 / 64) ((if leb 8 band then 7 else band) * 255 / 7)

same : Bool → Bool → Bool
same a b = if a then b else not b

same_sound : (a b : Bool) → same a b ≡ true → a ≡ b
unfolding same
same_sound a b h = grind arith

all_cells :
    all_below 8 (λ band.
      all_below 8 (λ x. all_below 8 (λ y. same (in_cell band x y) (ltb (order x y) (shade band)))))
    ≡ true
unfolding all_below same order shade
all_cells = refl

-- Both the source's table and its levels are those of the order and the shades.
gray_is_black_lem : (x y : ℕ) → x < 200 → gray_is_black x y ≡ ltb (order x y) (shade (x / 25))
unfolding gray_is_black
gray_is_black_lem x y h =
    let band : x / 25 < 8 = omega arith in
    same_sound _ _ (
      all_below_sound 8 _ (y % 8)
        (all_below_sound 8 _ (x % 8) (all_below_sound 8 _ (x / 25) all_cells band) (omega arith))
        (omega arith))
    ∙ ap (λ o. ltb o (shade (x / 25))) (sym (order_in_cell x y))

abbrev right_shade : ℕ → Bool
right_shade b =
    (blacks b 64 == shade b) && ltb (7 * shade b) (64 * b + 7) && ltb (64 * b) (7 * shade b + 7)

all_right : all_below 8 right_shade ≡ true
unfolding all_below blacks order shade
all_right = refl

shares :
    (b : ℕ)
    → b < 8
    → (blacks b 64 ≡ shade b) × (7 * shade b < 64 * b + 7) × (64 * b < 7 * shade b + 7)
shares b h =
    let right : right_shade b ≡ true = all_below_sound 8 right_shade b all_right h in
    (ground (arith, right), ground (arith, right), ground (arith, right))

-- The picture is black on the seven lines between the bands. Elsewhere a pixel is black exactly if its
-- place in the order of its cell, which is the Bayer order of 8 by 8, lies below the shade of its band of
-- 25 columns. Of the 64 places of a cell as many lie below the shade as it says, and in band `b` of the
-- eight these are `b` sevenths of them, up to less than one pixel.
pub gray_picture_shows :
    (px py : ℕ)
    → px < 200
    → py < 200
    → (pixel gray_picture px py
        ≡ ((px % 25 == 0) && leb 25 px || ltb (order px py) (shade (px / 25))))
      × (blacks (px / 25) 64 ≡ shade (px / 25))
      × (7 * shade (px / 25) < 64 * (px / 25) + 7)
      × (64 * (px / 25) < 7 * shade (px / 25) + 7)
unfolding gray_picture
gray_picture_shows px py hx hy =
    let rows = gray_rows-Rows 200 0 (fb_clear false) (fb_clear-IsFrame false) in
    let lines = gray_separators-Lines 7 1 _ rows.frame in
    let dither = gray_is_black_lem px py hx in
    let share = shares (px / 25) (omega arith) in
    (
      ground (arith, lines.shows px py hx hy, rows.shows px py hx hy, dither),
      share.0,
      share.1,
      share.2,
    )
