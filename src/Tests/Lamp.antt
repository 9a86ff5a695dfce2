-- ===== src/Tests/Lamp.antt =====
-- The theorem on the LED at a concrete strip.
use esp32s3tinyepaper.Base.{ℕ, ◌+◌, ◌%◌, ◌≤◌, ◌≡◌, refl, true, List, [], ◌∷◌, ◌++◌}
use esp32s3tinyepaper.Base.Result.{err, eio}
use esp32s3tinyepaper.Lamp.{Rgb, Strip, breathe}
use esp32s3tinyepaper.Lamp.Waves.{wave, colour}
use esp32s3tinyepaper.Lamp.Breathes.{pictures, IsRecorded, breathe_shows}

-- A strip with two pixels that records what it is sent and reports a failure each time.
abbrev strip : Strip (List (List Rgb))
strip = record {
  num_pixels = 2;
  is_ready = true;
  update_rgb = λ px s. (err eio, px ∷ s);
  sleep = λ ms s. s;
}

strip-IsRecorded : IsRecorded strip (λ s. s)
strip-IsRecorded = record { update_rgb = λ px s. refl; sleep = λ ms s. refl }

breathe_shows_example :
    ((breathe strip 70 []).1 ≡ pictures 2 70 0 ++ [])
    × ((k : ℕ)
        → ((colour k).r ≡ 0)
          × ((colour k).g + (colour k).b ≤ wave 64 (k % 128))
          × (wave 64 (k % 128) ≤ (colour k).g + (colour k).b + 1)
          × (wave 64 (k % 128) ≤ 64))
breathe_shows_example = breathe_shows strip (λ s. s) strip-IsRecorded 70 []
