-- ===== src/Epd/Panel/Works.antt =====
-- The panel's operations in src/epd200x200.c with drivers that succeed.
use esp32s3tinyepaper.Base.{
  ℕ, zero, suc, ◌≤◌, ◌*◌, refl, ◌==◌, arith, ◌+◌, ◌/◌, ◌%◌, ◌-◌, ◌<◌, ◌≡◌, sym, subst, Bool, true,
  false, not, ◌||◌, List, [], ◌∷◌, ◌++◌, if◌then◌else◌, lt→ltb, ◌⊎◌, inl, inr,
}
use esp32s3tinyepaper.Base.Result.{
  Result, ok, err, enodev, Action, pure, raise_if, attempt, ignore, of_result, gets, ◌>>=◌, ◌>>◌,
}
use esp32s3tinyepaper.Base.Result.Ends.{Ended, Ends}
use esp32s3tinyepaper.Epd.Frame.{epd_width, epd_height}
use esp32s3tinyepaper.Epd.Panel.Waits.{Idle, present_framebuf-Waits}
use esp32s3tinyepaper.Epd.Panel.Sends.{received}
use esp32s3tinyepaper.Epd.Panel.Frames.{frame_messages, present_framebuf_sends}
use esp32s3tinyepaper.Epd.Panel.{
  Call, gpio_set, gpio_get, gpio_configure, spi_write, sleep, uptime, output_inactive,
  output_active, input, Board, Epd, call, k_uptime_get, k_sleep, write_bytes, write_cmd, write_data,
  write_data_byte, wait_loop, wait_idle, reset_sequence, set_ram_full_window, set_ram_cursor_origin,
  update_display, present_framebuf, init, epd_dc_pin, epd_cs_pin, epd_busy_pin, epd_reset_pin,
}

-- The sleeps since the last message to the panel.
unfoldable pub naps : List Call → ℕ
naps [] = 0
naps (sleep ms ∷ log) = suc (naps log)
naps (spi_write bytes ∷ log) = 0
naps (gpio_set pin value ∷ log) = naps log
naps (gpio_get pin ∷ log) = naps log
naps (gpio_configure pin mode ∷ log) = naps log
naps (uptime ∷ log) = naps log

abbrev pub is_look : Call → Bool
is_look (gpio_get pin) = true
is_look (gpio_set pin value) = false
is_look (gpio_configure pin mode) = false
is_look (spi_write bytes) = false
is_look (sleep ms) = false
is_look uptime = false

-- A panel that may be busy after each message: the looks at the BUSY pin give its level, which is 0 after
-- `limit` sleeps at the latest, and a round of the waiting takes up to `step` milliseconds, so that it is
-- done before the five seconds are over. All other driver calls return 0.
pub record IsWilling (board : Board) (busy : List Call → ℕ) (limit step : ℕ) : Type 0 where
  pub replies : (c : Call) (log : List Call) → is_look c ≡ false → board.reply (c ∷ log) ≡ ok 0
  pub looks : (log : List Call) → board.reply (gpio_get epd_busy_pin ∷ log) ≡ ok (busy log)
  pub settles : (log : List Call) → limit ≤ naps log → busy log ≡ 0
  pub starts :
      (log : List Call) → board.now (uptime ∷ uptime ∷ log) ≤ board.now (uptime ∷ log) + step
  pub paces :
      (log : List Call)
      → board.now (uptime ∷ sleep 10 ∷ gpio_get epd_busy_pin ∷ uptime ∷ log)
        ≤ board.now (uptime ∷ log) + step
  pub in_time : limit * step + step < 5000
  pub few : limit < 500

abbrev pub IsOk : {A : Type 0} → Result A → Type 0
IsOk (ok a) = Unit
IsOk (err e) = ⊥

-- The action succeeds from every state.
pub record Works {A : Type 0} (m : Action Epd A) : Type 0 where
  pub works : (s : Epd) → IsOk (m s).0

module _ {A B : Type 0} where
  after_works :
      (f : A → Action Epd B) (r : Result A × Epd) (s : Epd)
      → IsOk r.0
      → ((a : A) → Works (f a))
      → IsOk (◌>>=◌ {S = Epd} (λ _. r) f s).0
  after_works f (ok a, t) s h k = (k a).works t
  after_works f (err e, t) s h k = elim h [ ]

  bind-Works :
      {m : Action Epd A} {f : A → Action Epd B}
      → Works m
      → ((a : A) → Works (f a))
      → Works (m >>= f)
  bind-Works {m} {f} p q = record { works = λ s. after_works f (m s) s (p.works s) q }

  infixr 6 ◌⨟◌
  abbrev ◌⨟◌ : {m : Action Epd A} {n : Action Epd B} → Works m → Works n → Works (m >> n)
  p ⨟ q = bind-Works p (λ _. q)

pure-Works : {A : Type 0} (a : A) → Works (pure a)
pure-Works a = record { works = λ s. tt }

module _ (board : Board) (busy : List Call → ℕ) (limit step : ℕ)
    (willing : IsWilling board busy limit step) where
  call-Works : (c : Call) → is_look c ≡ false → Works (call board c)
  unfolding call
  call-Works c other = record { works = λ s. subst IsOk (sym (willing.replies c s.calls other)) tt }

  k_sleep-Works : (ms : ℕ) → Works (k_sleep board ms)
  unfolding k_sleep
  k_sleep-Works ms = record { works = λ s. tt }

  transfer-Works :
      (bytes : List ℕ)
      → Works (
          attempt (call board (spi_write bytes)) >>= λ ret.
          ignore (call board (gpio_set epd_cs_pin 1)) >> of_result ret)
  transfer-Works bytes = record { works = λ s. ((call-Works (spi_write bytes) refl)).works s }

  write_bytes-Works : (is_data : Bool) (bytes : List ℕ) → Works (write_bytes board is_data bytes)
  unfolding write_bytes
  write_bytes-Works is_data bytes =
      call-Works (gpio_set epd_dc_pin (if is_data then 1 else 0)) refl
      ⨟ call-Works (gpio_set epd_cs_pin 0) refl
      ⨟ transfer-Works bytes

  write_cmd-Works : (cmd : ℕ) → Works (write_cmd board cmd)
  unfolding write_cmd
  write_cmd-Works cmd = write_bytes-Works false (cmd ∷ [])

  write_data-Works : (bytes : List ℕ) → Works (write_data board bytes)
  unfolding write_data
  write_data-Works bytes = write_bytes-Works true bytes

  byte-Works : (byte : ℕ) → Works (write_data_byte board byte)
  unfolding write_data_byte
  byte-Works byte = write_data-Works (byte ∷ [])

  -- A look at the panel that sees it idle, or after which the waiting succeeds.
  after_look :
      (level : ℕ) (again : Action Epd ℕ) (log : List Call) (s : Epd)
      → (level ≡ 0) ⊎ IsOk (again (record s { calls = sleep 10 ∷ log })).0
      → IsOk
          ((if level == 0 then pure 0 else (k_sleep board 10 >> again))
            (record s { calls = log })).0
  unfolding k_sleep
  after_look level again log s (inl idle) = rw idle tt
  after_look level again log s (inr done) = go (level == 0)
    where
      go :
          (b : Bool)
          → IsOk ((if b then pure 0 else (k_sleep board 10 >> again)) (record s { calls = log })).0
      go true = tt
      go false = done

  -- `left` are the sleeps that the panel may still need.
  wait_loop-Works :
      (left extra deadline : ℕ) (s : Epd)
      → limit ≤ naps s.calls + left
      → board.now (uptime ∷ s.calls) + left * step < deadline
      → IsOk (wait_loop board (suc (left + extra)) deadline s).0
  unfolding wait_loop k_uptime_get call naps
  wait_loop-Works zero extra deadline s enough early =
      rw
        (
          lt→ltb (board.now (uptime ∷ s.calls)) deadline (omega arith),
          willing.looks (uptime ∷ s.calls),
        )
        (after_look (busy (uptime ∷ s.calls)) (wait_loop board (0 + extra) deadline)
          (gpio_get epd_busy_pin ∷ uptime ∷ s.calls) s
          (inl (willing.settles (uptime ∷ s.calls) (omega arith))))
  wait_loop-Works (suc left) extra deadline s enough early =
      rw
        (
          lt→ltb (board.now (uptime ∷ s.calls)) deadline (omega arith),
          willing.looks (uptime ∷ s.calls),
        )
        (after_look (busy (uptime ∷ s.calls)) (wait_loop board (suc left + extra) deadline)
          (gpio_get epd_busy_pin ∷ uptime ∷ s.calls) s
          (inr (
            subst
              (λ rounds.
                IsOk
                  (wait_loop board rounds deadline
                    (record s { calls = sleep 10 ∷ gpio_get epd_busy_pin ∷ uptime ∷ s.calls })).0)
              one_more
              (wait_loop-Works left extra deadline
                (record s { calls = sleep 10 ∷ gpio_get epd_busy_pin ∷ uptime ∷ s.calls })
                (omega arith) (omega (arith, willing.paces s.calls))))))
    where
      one_more : suc (left + extra) ≡ suc left + extra
      one_more = omega arith

  wait_idle-Works : Works (wait_idle board 5000)
  unfolding wait_idle k_uptime_get naps
  wait_idle-Works = record {
    works = λ s.
        let rounds : 5000 / 10 + 2 ≡ suc (limit + (501 - limit)) = omega (arith, willing.few) in
        rw rounds (
          wait_loop-Works limit (501 - limit) (board.now (uptime ∷ s.calls) + 5000)
            (record s { calls = uptime ∷ s.calls }) (omega arith)
            (omega (arith, willing.starts s.calls, willing.in_time)));
  }

  reset-Works : Works (reset_sequence board)
  unfolding reset_sequence
  reset-Works =
      call-Works (gpio_set epd_reset_pin 0) refl
      ⨟ k_sleep-Works 10
      ⨟ call-Works (gpio_set epd_reset_pin 1) refl
      ⨟ k_sleep-Works 10

  window-Works : Works (set_ram_full_window board)
  unfolding set_ram_full_window
  window-Works =
      write_cmd-Works 0x44
      ⨟ byte-Works 0x00
      ⨟ byte-Works (epd_width / 8 - 1)
      ⨟ write_cmd-Works 0x45
      ⨟ byte-Works 0x00
      ⨟ byte-Works 0x00
      ⨟ byte-Works ((epd_height - 1) % 256)
      ⨟ byte-Works ((epd_height - 1) / 256 % 256)

  cursor-Works : Works (set_ram_cursor_origin board)
  unfolding set_ram_cursor_origin
  cursor-Works =
      write_cmd-Works 0x4E
      ⨟ byte-Works 0x00
      ⨟ write_cmd-Works 0x4F
      ⨟ byte-Works 0x00
      ⨟ byte-Works 0x00

  update-Works : Works (update_display board)
  unfolding update_display
  update-Works = write_cmd-Works 0x22 ⨟ byte-Works 0xF7 ⨟ write_cmd-Works 0x20 ⨟ wait_idle-Works

  gets-Works : {A : Type 0} (f : Epd → A) → Works (gets f)
  gets-Works f = record { works = λ s. tt }

  present_framebuf-Works : Works (present_framebuf board)
  unfolding present_framebuf
  present_framebuf-Works =
      window-Works
      ⨟ cursor-Works
      ⨟ write_cmd-Works 0x24
      ⨟ bind-Works (gets-Works (λ s. s.framebuf)) (λ fb. write_data-Works fb ⨟ update-Works)

  ready-Works :
      board.spi_ready ≡ true
      → board.gpio_ready ≡ true
      → Works (raise_if (not board.spi_ready || not board.gpio_ready) enodev)
  ready-Works spi gpio = record { works = λ s. rw (spi, gpio) tt }

  -- An initialisation succeeds from every state where, besides, both devices are ready.
  pub init-Works : board.spi_ready ≡ true → board.gpio_ready ≡ true → Works (init board)
  unfolding init
  init-Works spi gpio =
      ready-Works spi gpio
      ⨟ call-Works (gpio_configure epd_dc_pin output_inactive) refl
      ⨟ call-Works (gpio_configure epd_cs_pin output_active) refl
      ⨟ call-Works (gpio_configure epd_reset_pin output_active) refl
      ⨟ call-Works (gpio_configure epd_busy_pin input) refl
      ⨟ reset-Works
      ⨟ write_cmd-Works 0x12
      ⨟ wait_idle-Works
      ⨟ write_cmd-Works 0x01
      ⨟ byte-Works ((epd_height - 1) % 256)
      ⨟ byte-Works ((epd_height - 1) / 256 % 256)
      ⨟ byte-Works 0x00
      ⨟ write_cmd-Works 0x11
      ⨟ byte-Works 0x03
      ⨟ window-Works
      ⨟ cursor-Works
      ⨟ write_cmd-Works 0x3C
      ⨟ byte-Works 0x05
      ⨟ write_cmd-Works 0x18
      ⨟ byte-Works 0x80
      ⨟ pure-Works 0

  -- A refresh has sent its frame, and seen the panel idle after it.
  pub record Shown (s t : Epd) : Type 0 where
    pub wire : received t.calls ≡ frame_messages s.framebuf ++ received s.calls
    pub same : t.framebuf ≡ s.framebuf
    pub idle : Idle board t

  -- With drivers that return 0 and a panel that may be busy for a while after each message, but is done
  -- before the five seconds of the wait are over, a refresh of the display succeeds from every state: it
  -- has sent the window, the cursor, the whole frame buffer and the refresh command and nothing else, has
  -- left the frame buffer alone, and its last call is a look at the panel that finds it idle.
  pub present_framebuf-Shown :
      (s : Epd) → Ends (λ n t. Shown s t) (λ _ _. ⊥) (present_framebuf board) s
  present_framebuf-Shown s = record {
    ended =
        go (present_framebuf board s) refl (present_framebuf-Works.works s)
          ((present_framebuf-Waits board).waits s).ended;
  }
    where
      go :
          (r : Result ℕ × Epd)
          → present_framebuf board s ≡ r
          → IsOk r.0
          → Ended (λ n t. Idle board t) (λ _ _. Unit {0}) r
          → Ended (λ n t. Shown s t) (λ _ _. ⊥) r
      go (ok n, t) e works idle =
          let (wire, same) = present_framebuf_sends board s e in
          record { wire = wire; same = same; idle = idle }
      go (err x, t) e works idle = works
