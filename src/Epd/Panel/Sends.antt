-- ===== src/Epd/Panel/Sends.antt =====
-- What the panel receives: src/epd200x200.c, the SPI functions. A call log is read back as the
-- messages on the wire, and an action that returns 0 has sent exactly its messages, in order.
use esp32s3tinyepaper.Base.{
  ℕ, zero, suc, ◌+◌, ◌/◌, ◌≡◌, refl, ◌∙◌, ap, sym, inl, inr, Bool, true, false, List, [], ◌∷◌, ◌++◌,
  ltb, ◌==◌, if◌then◌else◌,
}
use mathlib.Core.List.{append_assoc}
use esp32s3tinyepaper.Base.Result.{
  Result, Errno, Result-cases, ok, err, etimedout, Action, pure, raise, ◌>>=◌, ◌>>◌,
}
use esp32s3tinyepaper.Epd.Frame.{FrameBuf}
use esp32s3tinyepaper.Epd.Panel.{
  epd_dc_pin, epd_cs_pin, epd_busy_pin, PinMode, Call, gpio_set, gpio_get, gpio_configure,
  spi_write, Board, Epd, call, k_uptime_get, k_sleep, write_bytes, write_cmd, write_data,
  write_data_byte, wait_loop, wait_idle,
}

-- The level that a pin was last set to, if it was set.
unfoldable pub level : ℕ → List Call → ℕ
level pin [] = 1
level pin (gpio_set p v ∷ log) = if p == pin then v else level pin log
level pin (_ ∷ log) = level pin log

-- A message is a command or data, as the D/C pin says, and reaches the panel while it is selected.
pub data Message : Type 0 where
  cmd : List ℕ → Message
  data_bytes : List ℕ → Message

unfoldable pub message : List Call → List ℕ → Message
message log bytes = if level epd_dc_pin log == 0 then cmd bytes else data_bytes bytes

-- The messages of a log, the latest first.
unfoldable pub received : List Call → List Message
received [] = []
received (spi_write bytes ∷ log) =
    if level epd_cs_pin log == 0 then message log bytes ∷ received log else received log
received (_ ∷ log) = received log

-- If the action returns normally, the panel has received `sent` on top of what it had, and the
-- frame buffer is as before.
pub record Sent (sent : List Message) (s t : Epd) : Type 0 where
  pub wire : received t.calls ≡ sent ++ received s.calls
  pub same : t.framebuf ≡ s.framebuf

abbrev pub Outcome : List Message → Epd → {A : Type 0} → Result A × Epd → Type 0
Outcome sent s (ok _, t) = Sent sent s t
Outcome sent s (err _, t) = Unit

-- The action, run while the frame buffer is `fb`.
pub record Sends {A : Type 0} (fb : FrameBuf) (sent : List Message) (m : Action Epd A)
    : Type 0 where
  pub outcome : (s : Epd) → s.framebuf ≡ fb → Outcome sent s (m s)

Outcome-after :
    {A : Type 0} (first second : List Message) (s t : Epd) (r : Result A × Epd)
    → Sent first s t
    → Outcome second t r
    → Outcome (second ++ first) s r
Outcome-after first second s t (ok a, u) p q = record {
  wire = q.wire ∙ ap (λ l. second ++ l) p.wire ∙ sym (append_assoc second first (received s.calls));
  same = q.same ∙ p.same;
}
Outcome-after first second s t (err e, u) p q = tt

Outcome-bind :
    {A B : Type 0} (fb : FrameBuf) (first second : List Message) (k : A → Action Epd B) (s : Epd)
    (r : Result A × Epd)
    → s.framebuf ≡ fb
    → Outcome first s r
    → ((a : A) → Sends fb second (k a))
    → Outcome (second ++ first) s (◌>>=◌ {S = Epd} (λ _. r) k s)
Outcome-bind fb first second k s (ok a, t) h p q =
    Outcome-after first second s t (k a t) p ((q a).outcome t (p.same ∙ h))
Outcome-bind fb first second k s (err e, t) h p q = tt

-- The messages of a sequence of steps, the later step's on top.
pub bind-Sends :
    {A B : Type 0} {fb : FrameBuf} {first second : List Message} {m : Action Epd A}
    {k : A → Action Epd B}
    → Sends fb first m
    → ((a : A) → Sends fb second (k a))
    → Sends fb (second ++ first) (m >>= k)
bind-Sends {fb} {first} {second} {m} {k} p q = record {
  outcome = λ s h. Outcome-bind fb first second k s (m s) h (p.outcome s h) q;
}

pub pure-Sends : {A : Type 0} {fb : FrameBuf} (a : A) → Sends fb [] (pure a)
pure-Sends a = record { outcome = λ s h. record { wire = refl; same = refl } }

pub raise-Sends :
    {A : Type 0} {fb : FrameBuf} (sent : List Message) (e : Errno) → Sends fb sent (raise {A = A} e)
raise-Sends sent e = record { outcome = λ s h. tt }

pub if-Sends :
    {A : Type 0} {fb : FrameBuf} {sent : List Message} (b : Bool) {m n : Action Epd A}
    → Sends fb sent m
    → Sends fb sent n
    → Sends fb sent (if b then m else n)
if-Sends true p q = p
if-Sends false p q = q

infixr 6 ◌⨟◌
abbrev pub ◌⨟◌ :
    {A B : Type 0} {fb : FrameBuf} {first second : List Message} {m : Action Epd A}
    {n : Action Epd B}
    → Sends fb first m
    → Sends fb second n
    → Sends fb (second ++ first) (m >> n)
p ⨟ q = bind-Sends p (λ _. q)

module _ (board : Board) (fb : FrameBuf) where
  -- Calls that carry no message.
  abbrev pub IsQuiet : Call → Type 0
  IsQuiet c = (log : List Call) → received (c ∷ log) ≡ received log

  pub call-Sends : (c : Call) → IsQuiet c → Sends fb [] (call board c)
  unfolding call
  call-Sends c quiet = record { outcome = λ s h. go (board.reply (c ∷ s.calls)) s }
    where
      go : (r : Result ℕ) (s : Epd) → Outcome [] s {A = ℕ} (r, record s { calls = c ∷ s.calls })
      go (ok n) s = record { wire = quiet s.calls; same = refl }
      go (err e) s = tt

  pub gpio_set-Sends : (pin v : ℕ) → Sends fb [] (call board (gpio_set pin v))
  unfolding received
  gpio_set-Sends pin v = call-Sends (gpio_set pin v) (λ log. refl)

  gpio_get-Sends : (pin : ℕ) → Sends fb [] (call board (gpio_get pin))
  unfolding received
  gpio_get-Sends pin = call-Sends (gpio_get pin) (λ log. refl)

  pub gpio_configure-Sends :
      (pin : ℕ) (mode : PinMode) → Sends fb [] (call board (gpio_configure pin mode))
  unfolding received
  gpio_configure-Sends pin mode = call-Sends (gpio_configure pin mode) (λ log. refl)

  pub k_sleep-Sends : (ms : ℕ) → Sends fb [] (k_sleep board ms)
  unfolding k_sleep received
  k_sleep-Sends ms = record { outcome = λ s h. record { wire = refl; same = refl } }

  k_uptime_get-Sends : Sends fb [] (k_uptime_get board)
  unfolding k_uptime_get received
  k_uptime_get-Sends = record { outcome = λ s h. record { wire = refl; same = refl } }

  transfer :
      (is_data : Bool) (bytes : List ℕ) (log : List Call)
      → received (
          gpio_set epd_cs_pin 1
          ∷ spi_write bytes
          ∷ gpio_set epd_cs_pin 0
          ∷ gpio_set epd_dc_pin (if is_data then 1 else 0)
          ∷ log)
        ≡ (if is_data then data_bytes bytes else cmd bytes) ∷ received log
  unfolding received level message
  transfer true bytes log = refl
  transfer false bytes log = refl

  -- A transfer that returns normally is one message, of the kind that the caller asked for.
  write_bytes-Sends :
      (is_data : Bool) (bytes : List ℕ)
      → Sends fb
          ((if is_data then data_bytes bytes else cmd bytes) ∷ [])
          (write_bytes board is_data bytes)
  unfolding write_bytes call
  write_bytes-Sends is_data bytes = record {
    outcome = λ s h.
        let dc = if is_data then 1 else 0 in
        let log1 = gpio_set epd_dc_pin dc ∷ s.calls in
        let log2 = gpio_set epd_cs_pin 0 ∷ log1 in
        let log3 = spi_write bytes ∷ log2 in
        elim (Result-cases (board.reply log1)) [
          | inr (e, p) ↦ rw p tt
          | inl (a, p) ↦ rw p (elim (Result-cases (board.reply log2)) [
            | inr (e, q) ↦ rw q tt
            | inl (b, q) ↦ rw q (elim (Result-cases (board.reply log3)) [
              | inr (e, r) ↦ rw r tt
              | inl (c, r) ↦ rw r (record { wire = transfer is_data bytes s.calls; same = refl })
            ])
          ])
        ];
  }

  wait_loop-Sends : (rounds deadline : ℕ) → Sends fb [] (wait_loop board rounds deadline)
  unfolding wait_loop
  wait_loop-Sends zero deadline = raise-Sends [] etimedout
  wait_loop-Sends (suc rounds) deadline = bind-Sends k_uptime_get-Sends (λ now.
      if-Sends (ltb now deadline)
        (bind-Sends (gpio_get-Sends epd_busy_pin) (λ busy.
          if-Sends (busy == 0) (pure-Sends 0)
            (bind-Sends (k_sleep-Sends 10) (λ _. wait_loop-Sends rounds deadline))))
        (raise-Sends [] etimedout))

  pub wait_idle-Sends : (timeout_ms : ℕ) → Sends fb [] (wait_idle board timeout_ms)
  unfolding wait_idle
  wait_idle-Sends timeout_ms =
      bind-Sends k_uptime_get-Sends
        (λ start. wait_loop-Sends (timeout_ms / 10 + 2) (start + timeout_ms))

  pub write_cmd-Sends : (c : ℕ) → Sends fb (cmd (c ∷ []) ∷ []) (write_cmd board c)
  unfolding write_cmd
  write_cmd-Sends c = write_bytes-Sends false (c ∷ [])

  pub write_data-Sends :
      (bytes : List ℕ) → Sends fb (data_bytes bytes ∷ []) (write_data board bytes)
  unfolding write_data
  write_data-Sends bytes = write_bytes-Sends true bytes

  pub write_data_byte-Sends :
      (b : ℕ) → Sends fb (data_bytes (b ∷ []) ∷ []) (write_data_byte board b)
  unfolding write_data_byte
  write_data_byte-Sends b = write_data-Sends (b ∷ [])
