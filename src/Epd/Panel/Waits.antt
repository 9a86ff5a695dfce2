-- ===== src/Epd/Panel/Waits.antt =====
-- What the operations of src/epd200x200.c that end with a wait leave: a panel that is idle.
use esp32s3tinyepaper.Base.{
  ℕ, zero, suc, refl, ap, ◌∙◌, ◌==◌, ==→eq, ◌≡◌, Bool, true, false, List, ◌∷◌, ltb, if◌then◌else◌,
}
use esp32s3tinyepaper.Base.Result.{
  etimedout, raise, Result, ok, err, Action, pure, gets, ◌>>=◌, ◌>>◌,
}
use esp32s3tinyepaper.Base.Result.Ends.{Ended, Ends, weaken-Ends, then-Ends, gets-Ends, ends}
use esp32s3tinyepaper.Epd.Frame.{FrameBuf}
use esp32s3tinyepaper.Epd.Panel.{
  Call, gpio_get, uptime, Board, Epd, call, k_uptime_get, k_sleep, write_cmd, write_data,
  write_data_byte, wait_loop, wait_idle, set_ram_full_window, set_ram_cursor_origin, update_display,
  present_framebuf, epd_busy_pin,
}

-- The last call is a look at the panel, which is not busy.
abbrev pub Idle : Board → Epd → Type 0
Idle board t =
    (log : List Call) × (t.calls ≡ gpio_get epd_busy_pin ∷ log)
    × (board.reply (gpio_get epd_busy_pin ∷ log) ≡ ok 0)

module _ (board : Board) where
  -- A wait that returns normally saw the panel idle.
  look_cases :
      (rounds deadline : ℕ) (r : Result ℕ) (log : List Call) (s : Epd)
      → board.reply (gpio_get epd_busy_pin ∷ log) ≡ r
      → ((u : Epd)
          → Ends (λ n t. Idle board t) (λ _ _. Unit {0}) (wait_loop board rounds deadline) u)
      → Ends
          (λ n t. Idle board t)
          (λ _ _. Unit {0})
          (λ t. elim r as (λ _. Result ℕ × Epd) [
            | ok busy ↦
                (if busy == 0
                    then pure 0
                    else (k_sleep board 10 >> wait_loop board rounds deadline))
                  t
            | err e ↦ (err e, t)
          ])
          (record s { calls = gpio_get epd_busy_pin ∷ log })
  look_cases rounds deadline (err e) log s answer rest = record { ended = tt }
  look_cases rounds deadline (ok busy) log s answer rest = record {
    ended = go (busy == 0) (==→eq busy 0);
  }
    where
      go :
          (b : Bool)
          → (b ≡ true → busy ≡ 0)
          → Ended
              (λ n t. Idle board t)
              (λ _ _. Unit {0})
              ((if b then pure 0 else (k_sleep board 10 >> wait_loop board rounds deadline))
                (record s { calls = gpio_get epd_busy_pin ∷ log }))
      go true zero_level = (log, refl, answer ∙ ap ok (zero_level refl))
      go false zero_level = unfold k_sleep in (rest _).ended

  wait_loop-Idle :
      (rounds deadline : ℕ) (s : Epd)
      → Ends (λ n t. Idle board t) (λ _ _. Unit {0}) (wait_loop board rounds deadline) s
  unfolding wait_loop k_uptime_get call
  wait_loop-Idle zero deadline s = record { ended = tt }
  wait_loop-Idle (suc rounds) deadline s = record {
    ended = go (ltb (board.now (uptime ∷ s.calls)) deadline) (wait_loop-Idle rounds deadline);
  }
    where
      go :
          (b : Bool)
          → ((u : Epd)
              → Ends (λ n t. Idle board t) (λ _ _. Unit {0}) (wait_loop board rounds deadline) u)
          → Ended
              (λ n t. Idle board t)
              (λ _ _. Unit {0})
              ((if b
                  then (call board (gpio_get epd_busy_pin) >>= λ busy.
                      if busy == 0
                      then pure 0
                      else (k_sleep board 10 >> wait_loop board rounds deadline))
                  else raise etimedout)
                (record s { calls = uptime ∷ s.calls }))
      go true rest =
          (look_cases rounds deadline (board.reply (gpio_get epd_busy_pin ∷ uptime ∷ s.calls))
            (uptime ∷ s.calls) s refl rest).ended
      go false rest = tt

module _ (board : Board) where
  -- An action that ends with a wait.
  pub record Waits (m : Action Epd ℕ) : Type 0 where
    pub waits : (s : Epd) → Ends (λ n t. Idle board t) (λ _ _. Unit {0}) m s

  wait_idle-Waits : (timeout_ms : ℕ) → Waits (wait_idle board timeout_ms)
  unfolding wait_idle k_uptime_get
  wait_idle-Waits timeout_ms = record {
    waits = λ s. record { ended = (wait_loop-Idle board _ _ _).ended };
  }

  then-Waits : {A : Type 0} (m : Action Epd A) {k : Action Epd ℕ} → Waits k → Waits (m >> k)
  then-Waits m w = record {
    waits =
        λ s. then-Ends (weaken-Ends (ends m s) (λ a t e. tt) (λ e t h. tt)) (λ a t h. w.waits t);
  }

  update-Waits : Waits (update_display board)
  unfolding update_display
  update-Waits = then-Waits (write_cmd board 0x22) (
      then-Waits (write_data_byte board 0xF7)
        (then-Waits (write_cmd board 0x20) (wait_idle-Waits 5000)))

  gets-Waits :
      {k : FrameBuf → Action Epd ℕ}
      → ((fb : FrameBuf) → Waits (k fb))
      → Waits (gets (λ s. s.framebuf) >>= k)
  gets-Waits {k} w = record { waits = λ s. gets-Ends k ((w s.framebuf).waits s) }

  pub present_framebuf-Waits : Waits (present_framebuf board)
  unfolding present_framebuf
  present_framebuf-Waits = then-Waits (set_ram_full_window board) (
      then-Waits (set_ram_cursor_origin board) (
        then-Waits (write_cmd board 0x24)
          (gets-Waits (λ fb. then-Waits (write_data board fb) update-Waits))))
