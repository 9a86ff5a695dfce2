-- ===== src/Lamp/Breathes.antt =====
-- What the strip is sent over any number of rounds of the loop of src/main_chip_info.c.
use esp32s3tinyepaper.Base.{
  ℕ, zero, suc, ◌+◌, ◌%◌, ◌≤◌, ◌≡◌, refl, ap, ◌∙◌, Bool, true, false, List, [], ◌∷◌, ◌++◌,
  if◌then◌else◌, arith, set, replicate, not,
}
use esp32s3tinyepaper.Base.Result.{ok, ignore, pure, bind_ok}
use esp32s3tinyepaper.Lamp.{Rgb, first_light, dark, Strip, show_round, show_rounds, breathe}
use esp32s3tinyepaper.Lamp.Waves.{
  wave, colour, light_at, light_step-light_at, pixels-light_at, brightness,
}

-- The strip's first pixel has the colour of the round, the others are dark.
abbrev pub picture : ℕ → ℕ → List Rgb
picture num_pixels k = set (replicate num_pixels dark) 0 (colour k)

-- The pictures of `n` rounds from a round on, the latest first.
abbrev pub pictures : ℕ → ℕ → ℕ → List (List Rgb)
pictures num_pixels zero k = []
pictures num_pixels (suc n) k = picture num_pixels (k + n) ∷ pictures num_pixels n k

first_last :
    (num_pixels n k : ℕ) (before : List (List Rgb))
    → pictures num_pixels n (k + 1) ++ (picture num_pixels k ∷ before)
      ≡ pictures num_pixels (suc n) k ++ before
first_last num_pixels zero k before = ap (λ i. picture num_pixels i ∷ before) (omega arith)
first_last num_pixels (suc n) k before =
    ap
      (λ i.
        picture num_pixels i ∷ (pictures num_pixels n (k + 1) ++ (picture num_pixels k ∷ before)))
      (omega arith)
    ∙ ap (λ rest. picture num_pixels (k + suc n) ∷ rest) (first_last num_pixels n k before)

module _ {S : Type 0} (strip : Strip S) where
  -- The updates, the latest first, are seen in the state.
  pub record IsRecorded (sent : S → List (List Rgb)) : Type 0 where
    pub update_rgb : (px : List Rgb) (s : S) → sent (strip.update_rgb px s).1 ≡ px ∷ sent s
    pub sleep : (ms : ℕ) (s : S) → sent (strip.sleep ms s) ≡ sent s

  -- A round always succeeds, and the next light is that of the next round.
  show_round-light_at :
      (k : ℕ) (s : S)
      → show_round strip (light_at k) s ≡ (
        ok (light_at (k + 1)),
        strip.sleep 20 (strip.update_rgb (picture strip.num_pixels k) s).1,
      )
  unfolding show_round
  show_round-light_at k s = rw (pixels-light_at strip.num_pixels k, light_step-light_at k) refl

  show_rounds_send :
      (sent : S → List (List Rgb))
      → IsRecorded sent
      → (n k : ℕ) (s : S)
      → sent (show_rounds strip n (light_at k) s).1 ≡ pictures strip.num_pixels n k ++ sent s
  unfolding show_rounds
  show_rounds_send sent recorded zero k s = refl
  show_rounds_send sent recorded (suc n) k s =
      ap (λ p. sent p.1)
        (bind_ok (show_round strip (light_at k)) (show_rounds strip n) s (show_round-light_at k s))
      ∙ show_rounds_send sent recorded n (k + 1) _
      ∙ ap (λ before. pictures strip.num_pixels n (k + 1) ++ before)
          (recorded.sleep 20 _ ∙ recorded.update_rgb (picture strip.num_pixels k) s)
      ∙ first_last strip.num_pixels n k (sent s)

  -- Over any number of rounds of the endless loop, a strip that is ready is sent one picture in each round,
  -- failed updates included, and one that is not ready none. In the picture of round `k` the first pixel
  -- has no red, and green and blue share a value that goes from 0 up to 64 and back in 128 rounds, by a
  -- second one that goes from 0 up to 255 and back in 510 rounds: green and blue together are the first
  -- value, or one less, so that no channel exceeds 64.
  pub breathe_shows :
      (sent : S → List (List Rgb))
      → IsRecorded sent
      → (n : ℕ) (s : S)
      → (sent (breathe strip n s).1
          ≡ (if strip.is_ready then pictures strip.num_pixels n 0 else []) ++ sent s)
        × ((k : ℕ)
            → ((colour k).r ≡ 0)
              × ((colour k).g + (colour k).b ≤ wave 64 (k % 128))
              × (wave 64 (k % 128) ≤ (colour k).g + (colour k).b + 1)
              × (wave 64 (k % 128) ≤ 64))
  unfolding breathe first_light
  breathe_shows sent recorded n s = (
    go strip.is_ready,
    λ k.
        let (below, above) = brightness (wave 64 (k % 128)) (wave 255 (k % 510)) (ground arith) in
        (refl, below, above, ground arith),
  )
    where
      go :
          (ready : Bool)
          → sent ((if not ready then pure tt else ignore (show_rounds strip n first_light)) s).1
            ≡ (if ready then pictures strip.num_pixels n 0 else []) ++ sent s
      go true = show_rounds_send sent recorded n 0 s
      go false = refl
