-- ===== src/Modem/Kept.antt =====
-- What the exchanges of drivers/ec801e/ec801e.c leave alone in the driver's state.
use esp32s3tinyepaper.Base.{ℕ, Bool, true, false, not, ◌||◌, List, [], ◌∷◌, Option, ◌==◌, length}
use esp32s3tinyepaper.Base.Text.{c_str}
use esp32s3tinyepaper.Base.Result.{Result, ok, err, Errno, enodev, Action}
use esp32s3tinyepaper.Base.Result.Ends.{Ended, Ends}
use esp32s3tinyepaper.Base.Result.Keeps.{
  Keeps, raise_if-Keeps, of_result-Keeps, pure-Keeps, modify-Keeps, attempt-Keeps, ignore-Keeps,
  with_state-Keeps, if-Keeps, bind-Keeps, then-Keeps,
}
use esp32s3tinyepaper.Modem.{Board, Uart, Driver, on_uart}
use esp32s3tinyepaper.Modem.Commands.{
  probe_bauds, selftest_result, set_verified, is_at_ok, after_answer, after_test_baud,
  selftest_loop, uart_rw_selftest, boot, read_answer, boot_probe, post_handshake_init, close_stale,
  set_baud,
}
use esp32s3tinyepaper.Modem.Network.{
  or_eagain, apn_or_default, bring_up, prepare_network, socket_stack_init,
}

module _ {W A : Type 0} {P : A → Driver W → Type 0} {Q : Errno → Driver W → Type 0} where
  -- What a call on the line ends with, in the driver's state.
  pub on_uart-Ends :
      (m : Action (Uart W) A) (s : Driver W)
      → Ends (λ a u. P a (record s { uart = u })) (λ e u. Q e (record s { uart = u })) m s.uart
      → Ends P Q (on_uart m) s
  unfolding on_uart
  on_uart-Ends m s h = record { ended = lifted (m s.uart) h.ended }
    where
      lifted :
          (r : Result A × Uart W)
          → Ended (λ a u. P a (record s { uart = u })) (λ e u. Q e (record s { uart = u })) r
          → Ended P Q (r.0, record s { uart = r.1 })
      lifted (ok a, u) h = h
      lifted (err e, u) h = h

-- The driver's flag is not touched by a call on the line.
pub on_uart-Keeps :
    {W A : Type 0} {I : Driver W → Type 0} (m : Action (Uart W) A)
    → ((s : Driver W) (u : Uart W) → I s → I (record s { uart = u }))
    → Keeps I (on_uart m)
unfolding on_uart
on_uart-Keeps m h = record { keeps = λ s i. h s (m s.uart).1 i }

-- A predicate that depends neither on the line nor on `ec801e_uart_verified` is kept by all stages that
-- set the stack up.
module _ {W : Type 0} (board : Board W) (I : Driver W → Type 0)
    (line : (s : Driver W) (u : Uart W) → I s → I (record s { uart = u }))
    (verified : (s : Driver W) (b : Bool) → I s → I (record s { uart_verified = b })) where
  set_verified-Keeps : (b : Bool) → Keeps I (set_verified board b)
  unfolding set_verified
  set_verified-Keeps b = modify-Keeps (λ s i. verified s b i)

  after_answer-Keeps :
      (again : Bool → Action (Driver W) (Unit {0})) (any_rx : Bool)
      (answer : Result (Unit {0}) × List ℕ)
      → ((b : Bool) → Keeps I (again b))
      → Keeps I (after_answer board again any_rx answer)
  unfolding after_answer
  after_answer-Keeps again any_rx (ret, rx) rest =
      if-Keeps (is_at_ok board ret (c_str rx)) (set_verified-Keeps true)
        (rest (any_rx || not (length (c_str rx) == 0)))

  after_test_baud-Keeps :
      (again : Bool → Action (Driver W) (Unit {0})) (any_rx : Bool) (r : Result (Unit {0}))
      → ((b : Bool) → Keeps I (again b))
      → Keeps I (after_test_baud board again any_rx r)
  unfolding after_test_baud
  after_test_baud-Keeps again any_rx (err e) rest = rest any_rx
  after_test_baud-Keeps again any_rx (ok a) rest = then-Keeps (on_uart-Keeps _ line) (
      then-Keeps (on_uart-Keeps _ line) (
        bind-Keeps (on_uart-Keeps (read_answer board) line)
          (λ answer. after_answer-Keeps again any_rx answer rest)))

  selftest_loop-Keeps :
      (bauds : List ℕ) (any_rx : Bool) → Keeps I (selftest_loop board bauds any_rx)
  unfolding selftest_loop
  selftest_loop-Keeps [] any_rx =
      then-Keeps (set_verified-Keeps false) (of_result-Keeps (selftest_result any_rx))
  selftest_loop-Keeps (baud ∷ bauds) any_rx =
      bind-Keeps (attempt-Keeps (on_uart-Keeps (set_baud board baud) line)) (λ r.
        after_test_baud-Keeps (selftest_loop board bauds) any_rx r (selftest_loop-Keeps bauds))

  pub uart_rw_selftest-Keeps : Keeps I (uart_rw_selftest board)
  unfolding uart_rw_selftest
  uart_rw_selftest-Keeps =
      then-Keeps (raise_if-Keeps (not board.uart_is_ready) enodev)
        (selftest_loop-Keeps probe_bauds false)

  pub boot-Keeps : Keeps I (boot board)
  unfolding boot
  boot-Keeps = with_state-Keeps (λ s. then-Keeps (raise_if-Keeps (not board.uart_is_ready) enodev) (
      then-Keeps (on_uart-Keeps (boot_probe board s.uart_verified) line) (
        then-Keeps (on_uart-Keeps (post_handshake_init board) line)
          (ignore-Keeps (on_uart-Keeps (close_stale board) line)))))

  pub bring_up-Keeps : (apn : Option (List ℕ)) → Keeps I (bring_up board apn)
  unfolding bring_up
  bring_up-Keeps apn = bind-Keeps (attempt-Keeps uart_rw_selftest-Keeps) (λ r.
      then-Keeps (of_result-Keeps (or_eagain board r)) (
        then-Keeps boot-Keeps
          (on_uart-Keeps (prepare_network board (apn_or_default board apn)) line)))

  pub socket_stack_init-Keeps :
      (apn : Option (List ℕ))
      → ((s : Driver W) → I s → I (record s { stack_ready = true }))
      → Keeps I (socket_stack_init board apn)
  unfolding socket_stack_init
  socket_stack_init-Keeps apn ready = with_state-Keeps (λ s.
      if-Keeps s.stack_ready (pure-Keeps tt)
        (then-Keeps (bring_up-Keeps apn) (modify-Keeps (λ t i. ready t i))))
