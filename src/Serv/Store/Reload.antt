-- ===== src/Serv/Store/Reload.antt =====
-- Saving and loading: src/serv_addr.c, the flash record.
use esp32s3tinyepaper.Base.{
  ℕ, zero, suc, ◌-◌, ◌≤◌, ◌<◌, ◌≡◌, refl, ap, ◌∙◌, subst, ◌⊎◌, inl, inr, Option, none, some, true,
  false, List, [], ◌∷◌, ◌++◌, ◌==◌, arith, All, length, take, set, replicate, length-take,
}
use esp32s3tinyepaper.Base.Result.{Result, ok, err, Action, of_result, attempt, modify, ◌>>=◌, ◌>>◌}
use esp32s3tinyepaper.Base.Result.Ends.{Ended, Ends, ends, weaken-Ends, then-Ends, attempt-Ends}
use esp32s3tinyepaper.Serv.Store.{
  AddrRecord, crc_loop, calc_crc, text_of, copy_text, fill_buffer, Flash, address_record,
  check_record, save_active_addr_to_flash, load_active_addr_from_flash,
}

text_of-padded :
    (text : List ℕ) (n : ℕ) → All (λ b. 0 < b) text → text_of (text ++ replicate (suc n) 0) ≡ text
unfolding text_of
text_of-padded [] n h = refl
text_of-padded (b ∷ text) n h = ground (arith, text_of-padded text n h.1)

set_padding :
    (text : List ℕ) (n i : ℕ)
    → length text ≤ i
    → set (text ++ replicate n 0) i 0 ≡ text ++ replicate n 0
set_padding [] zero i h = refl
set_padding [] (suc n) zero h = refl
set_padding [] (suc n) (suc i) h = ap (λ l. 0 ∷ l) (set_padding [] n i (omega arith))
set_padding (b ∷ text) n zero h = elim h [ ]
set_padding (b ∷ text) n (suc i) h = ap (λ l. b ∷ l) (set_padding text n i (omega arith))

All-take : (n : ℕ) (text : List ℕ) → All (λ b. 0 < b) text → All (λ b. 0 < b) (take n text)
All-take zero text h = tt
All-take (suc n) [] h = tt
All-take (suc n) (b ∷ text) h = (h.0, All-take n text h.1)

take-take : (n : ℕ) (text : List ℕ) → take n (take n text) ≡ take n text
take-take zero text = refl
take-take (suc n) [] = refl
take-take (suc n) (b ∷ text) = ap (λ l. b ∷ l) (take-take n text)

buffer_text :
    (addr : List ℕ)
    → All (λ b. 0 < b) addr
    → text_of (set (fill_buffer 128 addr) 127 0) ≡ take 127 addr
unfolding fill_buffer copy_text
buffer_text addr h =
    let kept : List ℕ = take 127 addr in
    let room : 128 - length kept ≡ suc (127 - length kept) = omega (arith, length-take 127 addr) in
    rw (set_padding kept (128 - length kept) 127 (omega (arith, length-take 127 addr)), room)
      (text_of-padded kept (127 - length kept) (All-take 127 addr h))

==_refl : (n : ℕ) → (n == n) ≡ true
==_refl n = ground arith

kept_bytes : (addr : List ℕ) → 0 < length addr → (length (take 127 addr) == 0) ≡ false
kept_bytes [] some_byte = elim some_byte [ ]
kept_bytes (b ∷ addr) some_byte = ground arith

-- A record that was made for an address passes the checks and gives the address back, up to the 127
-- bytes that the record has room for.
check_address_record :
    (addr : List ℕ)
    → All (λ b. 0 < b) addr
    → 0 < length addr
    → check_record (address_record addr) 128 ≡ ok (take 127 addr)
unfolding check_record address_record copy_text calc_crc
check_address_record addr h some_byte =
    rw
      (
        buffer_text addr h,
        ==_refl (crc_loop 2166136261 (fill_buffer 128 addr)),
        kept_bytes addr some_byte,
        take-take 127 addr,
      )
      refl

-- Flash with at most one record in it, none when it is erased: a record that is written to erased flash
-- is the one that a reading gives. Nothing is said of a call that fails.
pub record Stores {F : Type 0} (flash : Flash F) (stored : F → Option AddrRecord) : Type 0 where
  pub open_area : (f : F) → stored (flash.open_area f).1 ≡ stored f
  pub close : (f : F) → stored (flash.close f) ≡ stored f
  pub erase : (f t : F) → flash.erase f ≡ (ok tt, t) → stored t ≡ none
  pub write :
      (rec : AddrRecord) (f t : F)
      → stored f ≡ none
      → flash.write rec f ≡ (ok tt, t)
      → stored t ≡ some rec
  pub read :
      (rec got : AddrRecord) (f t : F)
      → stored f ≡ some rec
      → flash.read f ≡ (ok got, t)
      → got ≡ rec

module _ {F : Type 0} (flash : Flash F) (stored : F → Option AddrRecord)
    (stores : Stores flash stored) (addr : List ℕ) where
  -- The record of the address is in flash.
  abbrev Holds : F → Type 0
  Holds t = stored t ≡ some (address_record addr)

  erased_then_written :
      (f : F)
      → Ends (λ _ t. Holds t) (λ _ _. Unit {0}) (flash.erase >> flash.write (address_record addr)) f
  erased_then_written f =
      then-Ends (weaken-Ends (ends flash.erase f) (λ a t e. stores.erase f t e) (λ e t h. tt))
        (λ a t empty.
          weaken-Ends (ends (flash.write (address_record addr)) t)
            (λ b u e. stores.write (address_record addr) t u empty e) (λ e u h. tt))

  -- The outcome of the writing is given back after the area is closed.
  closed_after :
      (r : Result (Unit {0})) (t : F)
      → Ended (λ _ u. Holds u) (λ _ _. Unit {0}) (r, t)
      → Ends (λ _ u. Holds u) (λ _ _. Unit {0}) (modify flash.close >> of_result r) t
  closed_after (ok a) t h = record { ended = stores.close t ∙ h }
  closed_after (err e) t h = record { ended = tt }

  -- The steps of a save after the opening.
  abbrev rest_of_save : Action F (Unit {0})
  rest_of_save = attempt (flash.erase >> flash.write (address_record addr)) >>= λ ret.
      modify flash.close >> of_result ret

  rest_stores : (t : F) → Ends (λ _ u. Holds u) (λ _ _. Unit {0}) rest_of_save t
  rest_stores t =
      attempt-Ends {g = flash.erase >> flash.write (address_record addr)}
        (λ ret. modify flash.close >> of_result ret)
        (closed_after _ _ (erased_then_written t).ended)

  save_stores :
      (f : F) → Ends (λ _ t. Holds t) (λ _ _. Unit {0}) (save_active_addr_to_flash flash addr) f
  unfolding save_active_addr_to_flash
  save_stores f =
      then-Ends {k = rest_of_save}
        (weaken-Ends (ends flash.open_area f) (λ a t e. tt) (λ e t h. tt)) (λ a t h. rest_stores t)

  -- A reading of the record, and the checks on it.
  reads_back :
      (g : F)
      → All (λ b. 0 < b) addr
      → 0 < length addr
      → Holds g
      → Ends
          (λ text _. text ≡ take 127 addr)
          (λ e t. (flash.read g).0 ≡ err e)
          (attempt flash.read >>= λ ret.
            modify flash.close >> (of_result ret >>= λ rec. of_result (check_record rec 128)))
          g
  reads_back g bytes some_byte holds = record {
    ended = go (flash.read g) (λ rec t e. stores.read (address_record addr) rec g t holds e);
  }
    where
      checked :
          (rec : AddrRecord) → rec ≡ address_record addr → check_record rec 128 ≡ ok (take 127 addr)
      checked rec same =
          ap (λ r. check_record r 128) same ∙ check_address_record addr bytes some_byte

      go :
          (r : Result AddrRecord × F)
          → ((rec : AddrRecord) (t : F) → r ≡ (ok rec, t) → rec ≡ address_record addr)
          → Ended
              (λ text _. text ≡ take 127 addr)
              (λ e t. r.0 ≡ err e)
              ((modify flash.close >> (of_result r.0 >>= λ rec. of_result (check_record rec 128)))
                r.1)
      go (ok rec, t) known = rw (checked rec (known rec t refl)) refl
      go (err e, t) known = refl

  -- With flash that keeps a record written to it after it was erased, for an address that is not empty and
  -- has no zero byte: after a save that returned 0, a load gives the address that was saved (its first 127
  -- bytes, if it is longer), whatever was in flash before, or it fails with the error of opening or
  -- reading the flash area.
  pub load-save :
      (f : F) {g : F}
      → All (λ b. 0 < b) addr
      → 0 < length addr
      → save_active_addr_to_flash flash addr f ≡ (ok tt, g)
      → Ends
          (λ text _. text ≡ take 127 addr)
          (λ e _. ((flash.open_area g).0 ≡ err e) ⊎ ((flash.read (flash.open_area g).1).0 ≡ err e))
          (load_active_addr_from_flash flash 128)
          g
  unfolding load_active_addr_from_flash
  load-save f {g} bytes some_byte saved = record {
    ended = go (flash.open_area g) (stores.open_area g ∙ holds);
  }
    where
      holds : Holds g
      holds = subst (λ r. Ended (λ _ t. Holds t) (λ _ _. Unit {0}) r) saved (save_stores f).ended

      reading : Action F (List ℕ)
      reading = attempt flash.read >>= λ ret.
          modify flash.close >> (of_result ret >>= λ rec. of_result (check_record rec 128))

      go :
          (r : Result (Unit {0}) × F)
          → Holds r.1
          → Ended
              (λ text _. text ≡ take 127 addr)
              (λ e _. (r.0 ≡ err e) ⊎ ((flash.read r.1).0 ≡ err e))
              (◌>>◌ {S = F} (λ _. r) reading g)
      go (ok a, t) h =
          (weaken-Ends (reads_back t bytes some_byte h) (λ text u e. e) (λ e u k. inr k)).ended
      go (err e, t) h = inl refl
