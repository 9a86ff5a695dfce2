-- ===== src/Epd/Panel/Frames.antt =====
-- The command sequences of src/epd200x200.c as the panel receives them. Logs have the latest first.
use mathlib.Core.Path.{subst}
use esp32s3tinyepaper.Base.{sym, ℕ, ◌≡◌, refl, Bool, true, false, not, ◌||◌, List, [], ◌∷◌, ◌++◌}
use esp32s3tinyepaper.Base.Result.{ok, gets, raise_if, enodev, ◌>>=◌, ◌>>◌}
use esp32s3tinyepaper.Epd.Frame.{FrameBuf}
use esp32s3tinyepaper.Epd.Panel.{
  epd_dc_pin, epd_cs_pin, epd_busy_pin, epd_reset_pin, output_inactive, output_active, input, Board,
  Epd, reset_sequence, set_ram_full_window, set_ram_cursor_origin, update_display, present_framebuf,
  write_data, init,
}
use esp32s3tinyepaper.Epd.Panel.Sends.{
  Message, cmd, data_bytes, received, Sent, Outcome, Sends, raise-Sends, pure-Sends, gpio_set-Sends,
  gpio_configure-Sends, k_sleep-Sends, wait_idle-Sends, write_cmd-Sends, write_data-Sends,
  write_data_byte-Sends, ◌⨟◌,
}

abbrev byte_message : ℕ → Message
byte_message b = data_bytes (b ∷ [])

abbrev command : ℕ → Message
command c = cmd (c ∷ [])

-- Command 0x44 with columns 0 .. 24, and 0x45 with rows 0 .. 199 in two bytes each.
abbrev pub window_messages : List Message
window_messages =
    byte_message 0
    ∷ byte_message 199
    ∷ byte_message 0
    ∷ byte_message 0
    ∷ command 0x45
    ∷ byte_message 24
    ∷ byte_message 0
    ∷ command 0x44
    ∷ []

abbrev pub cursor_messages : List Message
cursor_messages =
    byte_message 0 ∷ byte_message 0 ∷ command 0x4F ∷ byte_message 0 ∷ command 0x4E ∷ []

abbrev pub update_messages : List Message
update_messages = command 0x20 ∷ byte_message 0xF7 ∷ command 0x22 ∷ []

-- The window and the cursor, then command 0x24 with the whole buffer, then the refresh.
abbrev pub frame_messages : FrameBuf → List Message
frame_messages fb =
    update_messages ++ data_bytes fb ∷ command 0x24 ∷ cursor_messages ++ window_messages

abbrev pub init_messages : List Message
init_messages =
    byte_message 0x80 ∷ command 0x18 ∷ byte_message 0x05 ∷ command 0x3C ∷ cursor_messages
    ++ window_messages
    ++ byte_message 0x03
      ∷ command 0x11
      ∷ byte_message 0
      ∷ byte_message 0
      ∷ byte_message 199
      ∷ command 0x01
      ∷ command 0x12
      ∷ []

module _ (board : Board) (fb : FrameBuf) where
  set_ram_full_window-Sends : Sends fb window_messages (set_ram_full_window board)
  unfolding set_ram_full_window
  set_ram_full_window-Sends =
      write_cmd-Sends board fb 0x44
      ⨟ write_data_byte-Sends board fb 0x00
      ⨟ write_data_byte-Sends board fb 24
      ⨟ write_cmd-Sends board fb 0x45
      ⨟ write_data_byte-Sends board fb 0x00
      ⨟ write_data_byte-Sends board fb 0x00
      ⨟ write_data_byte-Sends board fb 199
      ⨟ write_data_byte-Sends board fb 0

  set_ram_cursor_origin-Sends : Sends fb cursor_messages (set_ram_cursor_origin board)
  unfolding set_ram_cursor_origin
  set_ram_cursor_origin-Sends =
      write_cmd-Sends board fb 0x4E
      ⨟ write_data_byte-Sends board fb 0x00
      ⨟ write_cmd-Sends board fb 0x4F
      ⨟ write_data_byte-Sends board fb 0x00
      ⨟ write_data_byte-Sends board fb 0x00

  update_display-Sends : Sends fb update_messages (update_display board)
  unfolding update_display
  update_display-Sends =
      write_cmd-Sends board fb 0x22
      ⨟ write_data_byte-Sends board fb 0xF7
      ⨟ write_cmd-Sends board fb 0x20
      ⨟ wait_idle-Sends board fb 5000

  -- The buffer that is sent is the one of the state.
  write_frame-Sends :
      Sends fb
        (update_messages ++ data_bytes fb ∷ [])
        (gets (λ s. s.framebuf) >>= λ bytes. write_data board bytes >> update_display board)
  write_frame-Sends = record {
    outcome = λ s h.
        subst
          (λ bytes.
            Outcome (update_messages ++ data_bytes fb ∷ []) s
              ((write_data board bytes >> update_display board) s))
          (sym h) ((write_data-Sends board fb fb ⨟ update_display-Sends).outcome s h);
  }

  pub present_framebuf-Sends : Sends fb (frame_messages fb) (present_framebuf board)
  unfolding present_framebuf
  present_framebuf-Sends =
      set_ram_full_window-Sends
      ⨟ set_ram_cursor_origin-Sends
      ⨟ write_cmd-Sends board fb 0x24
      ⨟ write_frame-Sends

  reset_sequence-Sends : Sends fb [] (reset_sequence board)
  unfolding reset_sequence
  reset_sequence-Sends =
      gpio_set-Sends board fb epd_reset_pin 0
      ⨟ k_sleep-Sends board fb 10
      ⨟ gpio_set-Sends board fb epd_reset_pin 1
      ⨟ k_sleep-Sends board fb 10

  raise_if-Sends : (b : Bool) → Sends fb [] (raise_if b enodev)
  raise_if-Sends true = raise-Sends [] enodev
  raise_if-Sends false = pure-Sends tt

  init-Sends : Sends fb init_messages (init board)
  unfolding init
  init-Sends =
      raise_if-Sends (not board.spi_ready || not board.gpio_ready)
      ⨟ gpio_configure-Sends board fb epd_dc_pin output_inactive
      ⨟ gpio_configure-Sends board fb epd_cs_pin output_active
      ⨟ gpio_configure-Sends board fb epd_reset_pin output_active
      ⨟ gpio_configure-Sends board fb epd_busy_pin input
      ⨟ reset_sequence-Sends
      ⨟ write_cmd-Sends board fb 0x12
      ⨟ wait_idle-Sends board fb 5000
      ⨟ write_cmd-Sends board fb 0x01
      ⨟ write_data_byte-Sends board fb 199
      ⨟ write_data_byte-Sends board fb 0
      ⨟ write_data_byte-Sends board fb 0x00
      ⨟ write_cmd-Sends board fb 0x11
      ⨟ write_data_byte-Sends board fb 0x03
      ⨟ set_ram_full_window-Sends
      ⨟ set_ram_cursor_origin-Sends
      ⨟ write_cmd-Sends board fb 0x3C
      ⨟ write_data_byte-Sends board fb 0x05
      ⨟ write_cmd-Sends board fb 0x18
      ⨟ write_data_byte-Sends board fb 0x80
      ⨟ pure-Sends 0

-- However the drivers behave, a refresh that returns 0 has sent the panel the full window, the
-- origin, the whole frame buffer and the refresh command, in this order and nothing else, and has
-- left the frame buffer alone.
pub present_framebuf_sends :
    (board : Board) (s : Epd) {n : ℕ} {t : Epd}
    → present_framebuf board s ≡ (ok n, t)
    → (received t.calls ≡ frame_messages s.framebuf ++ received s.calls) × (t.framebuf ≡ s.framebuf)
present_framebuf_sends board s {n} {t} e =
    let done : Sent (frame_messages s.framebuf) s t =
      rw e at ((present_framebuf-Sends board s.framebuf).outcome s refl) in
    (done.wire, done.same)

-- An initialisation that returns 0 has sent the panel exactly its set-up sequence.
pub init_sends :
    (board : Board) (s : Epd) {n : ℕ} {t : Epd}
    → init board s ≡ (ok n, t)
    → (received t.calls ≡ init_messages ++ received s.calls) × (t.framebuf ≡ s.framebuf)
init_sends board s {n} {t} e =
    let done : Sent init_messages s t = rw e at ((init-Sends board s.framebuf).outcome s refl) in
    (done.wire, done.same)
