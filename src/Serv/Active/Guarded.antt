-- ===== src/Serv/Active/Guarded.antt =====
-- What a promotion does to the active address: src/serv_addr.c, `serv_addr_try_promote`.
use esp32s3tinyepaper.Base.{
  ℕ, ◌<◌, subst, false≢true, ◌≡◌, ◌⊎◌, inl, inr, refl, ap, ◌∙◌, sym, Bool, true, false, not, List,
  [], ◌∷◌, ◌==◌, arith, tests, ==→ne, length,
}
use esp32s3tinyepaper.Base.Result.{
  Result, ok, err, einval, ehostunreach, Action, raise_if, modify, ◌>>=◌, ◌>>◌,
}
use esp32s3tinyepaper.Base.Result.Ends.{
  Ended, Ends, if-Ends, pure-Ends, raise_if-Ends, bind-Ends, then-Ends, done-Ends,
}
use esp32s3tinyepaper.Serv.Active.Cleaned.{cleaned, cleaned-fits}
use esp32s3tinyepaper.Serv.Store.{copy_text, Flash, save_active_addr_to_flash}
use esp32s3tinyepaper.Serv.Active.{
  Net, Serv, same_text, tcp_reachable, on_flash, reachable, try_candidate, serv_addr_try_promote,
}

same_text-eq : (s t : List ℕ) → same_text s t ≡ true → s ≡ t
unfolding same_text
same_text-eq [] [] e = refl
same_text-eq [] (c ∷ t) e = absurd (false≢true e)
same_text-eq (b ∷ s) [] e = absurd (false≢true e)
same_text-eq (b ∷ s) (c ∷ t) e = grind (arith, tests, same_text-eq s t)

is_true : (b : Bool) → not b ≡ false → b ≡ true
is_true true e = refl
is_true false e = sym e

module _ {F N A : Type 0} (flash : Flash F) (net : Net N A) (c : List ℕ) (s : Serv F N) where
  -- The address is the candidate, which was the active address already, or answered a connection
  -- attempt and was written to flash.
  pub record Promoted (t : Serv F N) : Type 0 where
    pub valid : t.active_valid ≡ true
    pub address : t.active_addr ≡ cleaned c
    pub some_byte : 0 < length (cleaned c)
    pub proved :
        (cleaned c ≡ s.active_addr) × (t.flash ≡ s.flash)
        ⊎ ((tcp_reachable net (cleaned c) s.net).0 ≡ true)
          × (save_active_addr_to_flash flash (cleaned c) s.flash ≡ (ok tt, t.flash))

  abbrev pub Kept : Serv F N → Type 0
  Kept t = (t.active_addr ≡ s.active_addr) × (t.active_valid ≡ s.active_valid)

  ask :
      (a : List ℕ)
      → Ends
          (λ b t.
            (b ≡ (tcp_reachable net a s.net).0)
            × (t ≡ record s { net = (tcp_reachable net a s.net).1 }))
          (λ _ t. Kept t)
          (reachable flash net a)
          s
  unfolding reachable
  ask a = record { ended = (refl, refl) }

  -- The address is saved in a state with the flash that `s` has.
  save :
      (t : Serv F N)
      → t.flash ≡ s.flash
      → Kept t
      → Ends
          (λ _ u. (save_active_addr_to_flash flash (cleaned c) s.flash ≡ (ok tt, u.flash)) × Kept u)
          (λ _ u. Kept u)
          (on_flash flash net (save_active_addr_to_flash flash (cleaned c)))
          t
  unfolding on_flash
  save t same kept = record {
    ended =
        subst
          (λ f. Ended saved (λ _ u. Kept u) (back (save_active_addr_to_flash flash (cleaned c) f)))
          (sym same) (go (save_active_addr_to_flash flash (cleaned c) s.flash));
  }
    where
      saved : Unit {0} → Serv F N → Type 0
      saved _ u = (save_active_addr_to_flash flash (cleaned c) s.flash ≡ (ok tt, u.flash)) × Kept u

      back : Result (Unit {0}) × F → Result (Unit {0}) × Serv F N
      back r = (r.0, record t { flash = r.1 })

      go :
          (r : Result (Unit {0}) × F)
          → Ended (λ _ u. (r ≡ (ok tt, u.flash)) × Kept u) (λ _ u. Kept u) (back r)
      go (ok tt, f) = (refl, kept)
      go (err e, f) = kept

  was_active :
      s.active_valid ≡ true
      → (length (cleaned c) == 0) ≡ false
      → cleaned c ≡ s.active_addr
      → Promoted s
  was_active valid some same = record {
    valid = valid;
    address = sym same;
    some_byte = omega (arith, ==→ne (length (cleaned c)) 0 some);
    proved = inl (same, refl);
  }

  abbrev replace : Serv F N → Serv F N
  replace t = record t { active_addr = copy_text 128 (cleaned c) }

  abbrev save_and_replace : Action (Serv F N) (Unit {0})
  save_and_replace =
      on_flash flash net (save_active_addr_to_flash flash (cleaned c)) >> modify replace

  saved_address :
      s.active_valid ≡ true
      → (length (cleaned c) == 0) ≡ false
      → (t : Serv F N) → (tcp_reachable net (cleaned c) s.net).0 ≡ true
      → t.flash ≡ s.flash
      → Kept t
      → Ends (λ _ t. Promoted t) (λ _ t. Kept t) save_and_replace t
  saved_address valid some t answers flashed kept = then-Ends (save t flashed kept) (λ _ u saved.
      done-Ends {g = replace} (record {
        valid = saved.1.1 ∙ valid;
        address = cleaned-fits c;
        some_byte = omega (arith, ==→ne (length (cleaned c)) 0 some);
        proved = inr (answers, saved.0);
      }))

  -- The candidate is tried, saved and made active.
  new_address :
      s.active_valid ≡ true
      → (length (cleaned c) == 0) ≡ false
      → Ends
          (λ _ t. Promoted t)
          (λ _ t. Kept t)
          (reachable flash net (cleaned c) >>= λ answer.
            raise_if (not answer) ehostunreach >> save_and_replace)
          s
  new_address valid some = bind-Ends (ask (cleaned c)) (λ answer t tried.
      let kept : Kept t = subst Kept (sym tried.1) (refl, refl) in
      raise_if-Ends (not answer) ehostunreach {m = save_and_replace} (λ e. kept)
        (λ e.
          saved_address valid some t (sym tried.0 ∙ is_true answer e) (ap (λ t. t.flash) tried.1)
            kept))

  tried_candidate :
      Ends (λ _ t. Promoted t) (λ _ t. Kept t) (try_candidate flash net (cleaned c) s) s
  unfolding try_candidate
  tried_candidate =
      raise_if-Ends (not s.active_valid) einval (λ e. (refl, refl))
        (λ on.
          raise_if-Ends (length (cleaned c) == 0) einval (λ e. (refl, refl))
            (λ some.
              let valid : s.active_valid ≡ true = is_true s.active_valid on in
              if-Ends (same_text (cleaned c) s.active_addr)
                (λ same.
                  pure-Ends (was_active valid some (same_text-eq (cleaned c) s.active_addr same)))
                (λ differs. new_address valid some)))

  -- A promotion that returns 0 leaves the cleaned candidate active, valid and not empty, and either it
  -- was active before or it answered and is the address that was saved; a promotion that fails leaves
  -- the active address and its validity as they were.
  pub serv_addr_try_promote-Promoted :
      Ends (λ _ t. Promoted t) (λ _ t. Kept t) (serv_addr_try_promote flash net c) s
  unfolding serv_addr_try_promote
  serv_addr_try_promote-Promoted = record { ended = tried_candidate.ended }
