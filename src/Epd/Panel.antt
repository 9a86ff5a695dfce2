-- ===== src/Epd/Panel.antt =====
-- The SPI side of src/epd200x200.c. Zephyr's drivers are a parameter: a board answers each call by
-- the calls made so far, the latest first, so that it may answer the same call differently each time.
pub mod Sends
pub mod Works
pub mod Waits
pub mod Frames
pub mod Idle
use esp32s3tinyepaper.Base.{
  ℕ, zero, suc, ◌+◌, ◌-◌, ◌/◌, ◌%◌, ◌≤◌, Bool, true, false, not, ◌||◌, List, [], ◌∷◌, ltb, ◌==◌,
  if◌then◌else◌,
}
use esp32s3tinyepaper.Base.Result.{
  Result, ok, err, enodev, etimedout, Action, pure, raise, gets, of_result, attempt, ignore,
  raise_if, ◌>>=◌, ◌>>◌,
}
use esp32s3tinyepaper.Epd.Frame.{FrameBuf, epd_width, epd_height}
use esp32s3tinyepaper.Epd.Text.{Spacing}

abbrev pub epd_dc_pin : ℕ
epd_dc_pin = 3

abbrev pub epd_cs_pin : ℕ
epd_cs_pin = 4

abbrev pub epd_busy_pin : ℕ
epd_busy_pin = 5

abbrev pub epd_reset_pin : ℕ
epd_reset_pin = 6

pub data PinMode : Type 0 where
  output_inactive output_active input : PinMode

-- The calls of Zephyr: `uptime` is `k_uptime_get`, `sleep` is `k_sleep` in milliseconds.
pub data Call : Type 0 where
  gpio_set : ℕ → ℕ → Call
  gpio_get : ℕ → Call
  gpio_configure : ℕ → PinMode → Call
  spi_write : List ℕ → Call
  sleep : ℕ → Call
  uptime : Call

-- `reply` is the `int` that a driver call returns and `now` the clock, both after these calls.
pub record Board : Type 0 where
  pub spi_ready : Bool
  pub gpio_ready : Bool
  pub reply : List Call → Result ℕ
  pub now : List Call → ℕ

-- The static variables of the file, and the calls made.
pub record Epd : Type 0 where
  pub framebuf : FrameBuf
  pub spacing : Spacing
  pub calls : List Call

module _ (board : Board) where
  unfoldable pub call : Call → Action Epd ℕ
  call c s = (board.reply (c ∷ s.calls), record s { calls = c ∷ s.calls })

  unfoldable pub k_uptime_get : Action Epd ℕ
  k_uptime_get s = (ok (board.now (uptime ∷ s.calls)), record s { calls = uptime ∷ s.calls })

  unfoldable pub k_sleep : ℕ → Action Epd (Unit {0})
  k_sleep ms s = (ok tt, record s { calls = sleep ms ∷ s.calls })

  -- The chip select goes back up whether or not the transfer went through.
  unfoldable pub write_bytes : Bool → List ℕ → Action Epd ℕ
  write_bytes is_data bytes = do
    call (gpio_set epd_dc_pin (if is_data then 1 else 0))
    call (gpio_set epd_cs_pin 0)
    ret ← attempt (call (spi_write bytes))
    ignore (call (gpio_set epd_cs_pin 1))
    of_result ret

  unfoldable pub write_cmd : ℕ → Action Epd ℕ
  write_cmd cmd = write_bytes false (cmd ∷ [])

  unfoldable pub write_data : List ℕ → Action Epd ℕ
  write_data bytes = write_bytes true bytes

  unfoldable pub write_data_byte : ℕ → Action Epd ℕ
  write_data_byte byte = write_data (byte ∷ [])

  -- One round a `while` test; each full round sleeps for 10 ms.
  unfoldable pub wait_loop : ℕ → ℕ → Action Epd ℕ
  wait_loop zero deadline = raise etimedout
  wait_loop (suc rounds) deadline =
      let again = wait_loop rounds deadline in
      let poll = (do
        busy ← call (gpio_get epd_busy_pin)
        (if busy == 0 then pure 0 else (k_sleep 10 >> again))) in
      do now ← k_uptime_get; (if ltb now deadline then poll else raise etimedout)

  unfoldable pub wait_idle : ℕ → Action Epd ℕ
  wait_idle timeout_ms = do
    start ← k_uptime_get
    wait_loop (timeout_ms / 10 + 2) (start + timeout_ms)

  unfoldable pub reset_sequence : Action Epd (Unit {0})
  reset_sequence = do
    call (gpio_set epd_reset_pin 0)
    k_sleep 10
    call (gpio_set epd_reset_pin 1)
    k_sleep 10

  unfoldable pub set_ram_full_window : Action Epd ℕ
  set_ram_full_window = do
    write_cmd 0x44
    write_data_byte 0x00
    write_data_byte (epd_width / 8 - 1)
    write_cmd 0x45
    write_data_byte 0x00
    write_data_byte 0x00
    write_data_byte ((epd_height - 1) % 256)
    write_data_byte ((epd_height - 1) / 256 % 256)

  unfoldable pub set_ram_cursor_origin : Action Epd ℕ
  set_ram_cursor_origin = do
    write_cmd 0x4E
    write_data_byte 0x00
    write_cmd 0x4F
    write_data_byte 0x00
    write_data_byte 0x00

  unfoldable pub update_display : Action Epd ℕ
  update_display = do write_cmd 0x22; write_data_byte 0xF7; write_cmd 0x20; wait_idle 5000

  unfoldable pub present_framebuf : Action Epd ℕ
  present_framebuf = do
    set_ram_full_window
    set_ram_cursor_origin
    write_cmd 0x24
    write_data (← gets (λ s. s.framebuf))
    update_display

  unfoldable pub init : Action Epd ℕ
  init = do
    raise_if (not board.spi_ready || not board.gpio_ready) enodev
    call (gpio_configure epd_dc_pin output_inactive)
    call (gpio_configure epd_cs_pin output_active)
    call (gpio_configure epd_reset_pin output_active)
    call (gpio_configure epd_busy_pin input)
    reset_sequence
    write_cmd 0x12
    wait_idle 5000
    write_cmd 0x01
    write_data_byte ((epd_height - 1) % 256)
    write_data_byte ((epd_height - 1) / 256 % 256)
    write_data_byte 0x00
    write_cmd 0x11
    write_data_byte 0x03
    set_ram_full_window
    set_ram_cursor_origin
    write_cmd 0x3C
    write_data_byte 0x05
    write_cmd 0x18
    write_data_byte 0x80
    pure 0
