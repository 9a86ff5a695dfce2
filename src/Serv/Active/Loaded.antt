-- ===== src/Serv/Active/Loaded.antt =====
-- Where the first active address comes from: src/serv_addr.c, `serv_addr_init`.
use esp32s3tinyepaper.Base.{ℕ, ◌≡◌, ◌⊎◌, inl, inr, refl, sym, subst, true, List, ◌==◌, length}
use esp32s3tinyepaper.Base.Result.{Result, ok, err, Errno, einval, modify, ◌>>=◌}
use esp32s3tinyepaper.Base.Result.Ends.{Ended, Ends, attempt-Ends, raise_if-Ends}
use esp32s3tinyepaper.Serv.Store.{Flash, save_active_addr_to_flash, load_active_addr_from_flash}
use esp32s3tinyepaper.Serv.Active.{Net, Serv, on_flash, first_address, serv_addr_init}
use esp32s3tinyepaper.Serv.Active.Cleaned.{cleaned, cleaned-fits}

module _ {F N A : Type 0} (flash : Flash F) (net : Net N A) (c : List ℕ) (s : Serv F N) where
  -- The address is the one in the flash; or none could be loaded, and it is the cleaned initial
  -- address, which was saved.
  pub record Loaded (t : Serv F N) : Type 0 where
    pub valid : t.active_valid ≡ true
    pub origin :
        load_active_addr_from_flash flash 128 s.flash ≡ (ok t.active_addr, t.flash)
        ⊎ (e : Errno) × (f : F) × (load_active_addr_from_flash flash 128 s.flash ≡ (err e, f))
          × (t.active_addr ≡ cleaned c)
          × (save_active_addr_to_flash flash (cleaned c) f ≡ (ok tt, t.flash))

  abbrev pub Unchanged : Serv F N → Type 0
  Unchanged t = t.active_valid ≡ s.active_valid

  first :
      (r : Result (List ℕ) × F)
      → load_active_addr_from_flash flash 128 s.flash ≡ r
      → Ends
          (λ _ t. Loaded t)
          (λ _ t. Unchanged t)
          (first_address flash net (cleaned c) r.0)
          (record s { flash = r.1 })
  unfolding first_address on_flash
  first (ok addr, f) loaded = record { ended = record { valid = refl; origin = inl loaded } }
  first (err e, f) loaded = record {
    ended =
        subst
          (λ a.
            Ended (λ _ t. Loaded t) (λ _ t. Unchanged t)
              (◌>>=◌ {S = Serv F N}
                (λ _.
                  let r = save_active_addr_to_flash flash a f in
                  (r.0, record s { active_addr = a; flash = r.1 }))
                (λ _. modify (λ s. record s { active_valid = true })) s))
          (sym (cleaned-fits c))
          (go e f (save_active_addr_to_flash flash (cleaned c) f) loaded refl);
  }
    where
      go :
          (e : Errno) (f : F) (r : Result (Unit {0}) × F)
          → load_active_addr_from_flash flash 128 s.flash ≡ (err e, f)
          → save_active_addr_to_flash flash (cleaned c) f ≡ r
          → Ended
              (λ _ t. Loaded t)
              (λ _ t. Unchanged t)
              (◌>>=◌ {S = Serv F N}
                (λ _. (r.0, record s { active_addr = cleaned c; flash = r.1 }))
                (λ _. modify (λ s. record s { active_valid = true }))
                s)
      go e f (ok tt, g) loaded saved = record {
        valid = refl;
        origin = inr (e, f, loaded, refl, saved);
      }
      go e f (err x, g) loaded saved = refl

  -- An initialisation that returns 0 leaves an active address that is valid: the one in the flash, or
  -- the cleaned initial address once it is saved, if none can be loaded. One that fails leaves the
  -- validity as it was.
  pub serv_addr_init-Loaded :
      Ends (λ _ t. Loaded t) (λ _ t. Unchanged t) (serv_addr_init flash net c) s
  unfolding serv_addr_init on_flash
  serv_addr_init-Loaded =
      raise_if-Ends (length c == 0) einval (λ e. refl)
        (λ some.
          attempt-Ends (first_address flash net (cleaned c))
            (first (load_active_addr_from_flash flash 128 s.flash) refl))
