-- ===== src/Modem/Commands.antt =====
-- Commands and their replies: `ec801e_cmd_expect`, `_cmd_expect_retry`, `_handshake_at`, `_set_baud`,
-- `_probe_uart_only`, `_post_handshake_init`, `_power_cycle`, `_try_hard_recovery`, `_uart_rw_selftest`
-- and `_boot` of drivers/ec801e/ec801e.c.
use esp32s3tinyepaper.Base.{
  ℕ, zero, suc, Bool, true, false, not, ◌&&◌, ◌||◌, List, [], ◌∷◌, ◌==◌, if◌then◌else◌, length,
}
use esp32s3tinyepaper.Base.Text.{codes, c_str, contains}
use esp32s3tinyepaper.Base.Result.{
  Result, ok, err, enodev, eagain, eio, etimedout, ehostdown, enotsup, Action, pure, raise,
  raise_if, modify, with_state, attempt, ignore, of_result, ◌>>=◌, ◌>>◌,
}
use esp32s3tinyepaper.Modem.{
  Board, Uart, Driver, short_timeout_ms, medium_timeout_ms, boot_wait_ms, on_uart,
}
use esp32s3tinyepaper.Modem.Line.{
  Markers, send_raw, send_cmd, k_sleep, wait_into, wait_response, drain_rx,
}

abbrev pub probe_bauds : List ℕ
probe_bauds = 115200 ∷ 9600 ∷ 57600 ∷ 38400 ∷ 19200 ∷ 230400 ∷ 460800 ∷ 921600 ∷ []

-- What the self-test does next after a round, and what its last rounds saw.
unfoldable pub selftest_result : Bool → Result (Unit {0})
selftest_result any_rx = if any_rx then err eagain else err etimedout

module _ {W : Type 0} (board : Board W) where
  unfoldable pub cmd_expect : List ℕ → List (List ℕ) → ℕ → Action (Uart W) (Unit {0})
  cmd_expect cmd oks timeout_ms = do
    drain_rx board
    send_cmd board cmd
    wait_response board (record { oks = oks; fails = codes "ERROR" ∷ codes "+QIOPEN: 0," ∷ [] })
        timeout_ms

  -- After a try: a reboot and a timeout are tried again, any other error is given up.
  unfoldable pub after_try :
      (Result (Unit {0}) → Action (Uart W) (Unit {0}))
      → Result (Unit {0})
      → Action (Uart W) (Unit {0})
  after_try again (ok a) = pure tt
  after_try again (err ehostdown) = do k_sleep board boot_wait_ms; again (err ehostdown)
  after_try again (err etimedout) = do k_sleep board 300; again (err etimedout)
  after_try again (err e) = raise e

  -- `ret` is the outcome of the last try.
  unfoldable pub retry_loop :
      Action (Uart W) (Unit {0}) → ℕ → Result (Unit {0}) → Action (Uart W) (Unit {0})
  retry_loop once zero ret = of_result ret
  retry_loop once (suc retries) ret = do r ← attempt once; after_try (retry_loop once retries) r

  unfoldable pub cmd_expect_retry : List ℕ → List (List ℕ) → ℕ → ℕ → Action (Uart W) (Unit {0})
  cmd_expect_retry cmd oks timeout_ms retries =
      retry_loop (cmd_expect cmd oks timeout_ms) retries (err etimedout)

  unfoldable pub after_sync :
      (Result (Unit {0}) → Action (Uart W) (Unit {0}))
      → Result (Unit {0})
      → Action (Uart W) (Unit {0})
  after_sync again (ok a) = pure tt
  after_sync again (err e) = do k_sleep board 300; again (err e)

  unfoldable pub handshake_loop : ℕ → Result (Unit {0}) → Action (Uart W) (Unit {0})
  handshake_loop zero ret = of_result ret
  handshake_loop (suc rounds) ret = do
    drain_rx board
    send_raw board (codes "\r\n")
    k_sleep board 80
    r ← attempt (cmd_expect (codes "AT") (codes "OK" ∷ []) short_timeout_ms)
    after_sync (handshake_loop rounds) r

  unfoldable pub handshake_at : Action (Uart W) (Unit {0})
  handshake_at = handshake_loop 12 (err etimedout)

  unfoldable pub set_baud : ℕ → Action (Uart W) (Unit {0})
  set_baud baudrate s =
      let (r, w) = board.uart_configure baudrate s.world in (r, record s { world = w })

  -- A baud rate that cannot be set, or gives no answer, is followed by the next one.
  unfoldable pub after_baud :
      Action (Uart W) (Unit {0}) → Result (Unit {0}) → Action (Uart W) (Unit {0})
  after_baud next (ok a) = pure tt
  after_baud next (err e) = next

  unfoldable pub probe_loop : List ℕ → Action (Uart W) (Unit {0})
  probe_loop [] = raise etimedout
  probe_loop (baud ∷ bauds) = do
    r ← attempt (do set_baud baud; handshake_at)
    after_baud (probe_loop bauds) r

  unfoldable pub probe_uart_only : Action (Uart W) (Unit {0})
  probe_uart_only = probe_loop probe_bauds

  -- After the check of the SIM.
  unfoldable pub after_cpin :
      (Result (Unit {0}) → Action (Uart W) (Unit {0}))
      → Result (Unit {0})
      → Action (Uart W) (Unit {0})
  after_cpin again (ok a) = pure tt
  after_cpin again (err ehostdown) = do k_sleep board boot_wait_ms; again (err ehostdown)
  after_cpin again (err eio) = do k_sleep board 1000; again (err eio)
  after_cpin again (err etimedout) = do
    ignore probe_uart_only
    k_sleep board 600
    again (err etimedout)
  after_cpin again (err e) = do k_sleep board 600; again (err e)

  -- After `ATE0`.
  unfoldable pub after_ate0 :
      (Result (Unit {0}) → Action (Uart W) (Unit {0}))
      → Result (Unit {0})
      → Action (Uart W) (Unit {0})
  after_ate0 again (ok a) = do
    r ← attempt (
        cmd_expect_retry (codes "AT+CPIN?") (codes "+CPIN: READY" ∷ codes "OK" ∷ [])
          medium_timeout_ms 4)
    after_cpin again r
  after_ate0 again (err ehostdown) = do k_sleep board boot_wait_ms; again (err ehostdown)
  after_ate0 again (err e) = do k_sleep board 300; again (err e)

  unfoldable pub after_handshake :
      (Result (Unit {0}) → Action (Uart W) (Unit {0}))
      → Result (Unit {0})
      → Action (Uart W) (Unit {0})
  after_handshake again (ok a) = do
    r ← attempt (cmd_expect_retry (codes "ATE0") (codes "OK" ∷ []) short_timeout_ms 2)
    after_ate0 again r
  after_handshake again (err e) = do k_sleep board 300; again (err e)

  unfoldable pub post_init_loop : ℕ → Result (Unit {0}) → Action (Uart W) (Unit {0})
  post_init_loop zero ret = of_result ret
  post_init_loop (suc attempts) ret = do
    r ← attempt handshake_at
    after_handshake (post_init_loop attempts) r

  unfoldable pub post_handshake_init : Action (Uart W) (Unit {0})
  post_handshake_init = post_init_loop 5 (err etimedout)

  -- The level is 1 where the argument of `pin_set` is true.
  unfoldable pub pin_set : Bool → Action (Uart W) (Unit {0})
  pin_set level = modify (λ s. record s { world = board.pin_set level s.world })

  unfoldable pub power_cycle : Bool → Action (Uart W) (Unit {0})
  power_cycle active_low = do
    pin_set active_low
    k_sleep board 150
    pin_set (not active_low)
    k_sleep board boot_wait_ms

  unfoldable pub power_gpio_available : Bool
  power_gpio_available = board.has_power_port && board.power_port_is_ready

  unfoldable pub pin_configure : Action (Uart W) (Unit {0})
  pin_configure s = let (r, w) = board.pin_configure s.world in (r, record s { world = w })

  unfoldable pub try_hard_recovery : Action (Uart W) (Unit {0})
  try_hard_recovery = do
    raise_if (not power_gpio_available) enotsup
    pin_configure
    power_cycle board.power_active_low
    probe_uart_only
    post_handshake_init

  unfoldable pub set_verified : Bool → Action (Driver W) (Unit {0})
  set_verified b = modify (λ s. record s { uart_verified = b })

  -- The self-test reads into a buffer of its own, of 128 bytes.
  unfoldable pub read_answer : Action (Uart W) (Result (Unit {0}) × List ℕ)
  read_answer s =
      let markers : Markers = record {
        oks = codes "OK" ∷ codes "+CME ERROR" ∷ codes "ERROR" ∷ [];
        fails = [];
      } in
      let (answer, w) = wait_into board markers 1200 128 s.world in
      (ok answer, record s { world = w })

  unfoldable pub is_at_ok : Result (Unit {0}) → List ℕ → Bool
  is_at_ok (ok a) rx = contains rx (codes "OK")
  is_at_ok (err e) rx = false

  unfoldable pub after_answer :
      (Bool → Action (Driver W) (Unit {0}))
      → Bool
      → Result (Unit {0}) × List ℕ
      → Action (Driver W) (Unit {0})
  after_answer again any_rx (ret, rx) =
      if is_at_ok ret (c_str rx)
      then set_verified true
      else again (any_rx || not (length (c_str rx) == 0))

  unfoldable pub after_test_baud :
      (Bool → Action (Driver W) (Unit {0}))
      → Bool
      → Result (Unit {0})
      → Action (Driver W) (Unit {0})
  after_test_baud again any_rx (err e) = again any_rx
  after_test_baud again any_rx (ok a) = do
    on_uart (drain_rx board)
    on_uart (send_raw board (codes "AT\r"))
    answer ← on_uart read_answer
    after_answer again any_rx answer

  unfoldable pub selftest_loop : List ℕ → Bool → Action (Driver W) (Unit {0})
  selftest_loop [] any_rx = do set_verified false; of_result (selftest_result any_rx)
  selftest_loop (baud ∷ bauds) any_rx = do
    r ← attempt (on_uart (set_baud baud))
    after_test_baud (selftest_loop bauds) any_rx r

  unfoldable pub uart_rw_selftest : Action (Driver W) (Unit {0})
  uart_rw_selftest = do raise_if (not board.uart_is_ready) enodev; selftest_loop probe_bauds false

  -- The probe after power was cycled, low-active first.
  unfoldable pub after_low_probe : Result (Unit {0}) → Action (Uart W) (Unit {0})
  after_low_probe (ok a) = pure tt
  after_low_probe (err e) = do power_cycle (not board.power_active_low); probe_uart_only

  unfoldable pub after_probe : Result (Unit {0}) → Action (Uart W) (Unit {0})
  after_probe (ok a) = pure tt
  after_probe (err e) = do
    raise_if (not power_gpio_available) e
    power_cycle board.power_active_low
    r ← attempt probe_uart_only
    after_low_probe r

  -- From the test of `ec801e_uart_verified` to the label `post_handshake`.
  unfoldable pub boot_probe : Bool → Action (Uart W) (Unit {0})
  boot_probe true = pure tt
  boot_probe false = do
    (if power_gpio_available then pin_configure else pure tt)
    r ← attempt probe_uart_only
    after_probe r

  unfoldable pub close_stale : Action (Uart W) (Unit {0})
  close_stale = cmd_expect (codes "AT+QICLOSE=0") (codes "OK" ∷ codes "ERROR" ∷ []) short_timeout_ms

  unfoldable pub boot : Action (Driver W) (Unit {0})
  boot = with_state (λ s. do
    raise_if (not board.uart_is_ready) enodev
    on_uart (boot_probe s.uart_verified)
    on_uart post_handshake_init
    ignore (on_uart close_stale))
