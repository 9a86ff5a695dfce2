-- ===== src/Modem/Network.antt =====
-- The network: `ec801e_wait_cereg_registered`, `_ensure_pdp_activated`, `_prepare_network` and
-- `_socket_stack_init` of drivers/ec801e/ec801e.c.
pub mod Ready
use esp32s3tinyepaper.Base.{
  ℕ, zero, suc, ◌+◌, Bool, true, false, not, ◌&&◌, ◌||◌, List, [], ◌∷◌, ◌++◌, Option, none, some,
  ltb, leb, if◌then◌else◌,
}
use esp32s3tinyepaper.Base.Text.{codes, c_str, strstr}
use esp32s3tinyepaper.Base.Int.{ℤ, pos, eqb_ℤ}
use esp32s3tinyepaper.Base.Result.{
  Result, ok, err, Errno, eagain, etimedout, ehostdown, Action, pure, raise, gets, modify,
  with_state, attempt, ignore, of_result, ◌>>=◌, ◌>>◌,
}
use esp32s3tinyepaper.Modem.{
  Board, Uart, Driver, cmd_buf_len, short_timeout_ms, medium_timeout_ms, boot_wait_ms,
  reboot_hit_threshold, pdp_act_timeout_ms, on_uart,
}
use esp32s3tinyepaper.Modem.Replies.{
  contains_reboot_marker, qiact_rsp_has_ctx1_active, parse_cereg_stat,
}
use esp32s3tinyepaper.Modem.Line.{Markers, send_cmd, k_sleep, wait_response, cmd_format}
use esp32s3tinyepaper.Modem.Commands.{
  cmd_expect_retry, post_handshake_init, try_hard_recovery, uart_rw_selftest, boot,
}

-- `wait_response("OK", NULL, NULL, "ERROR", "CME ERROR", ...)`.
abbrev pub ok_or_error : Markers
ok_or_error = record { oks = codes "OK" ∷ []; fails = codes "ERROR" ∷ codes "CME ERROR" ∷ [] }

abbrev pub only_ok : List (List ℕ)
only_ok = codes "OK" ∷ []

-- `stat == 1 || stat == 5`.
unfoldable pub is_registered : Option ℤ → Bool
is_registered none = false
is_registered (some stat) = eqb_ℤ stat (pos 1) || eqb_ℤ stat (pos 5)

unfoldable pub is_ehostdown : Errno → Bool
is_ehostdown ehostdown = true
is_ehostdown _ = false

module _ {W : Type 0} (board : Board W) where
  -- The radio is set up again after the modem restarted.
  unfoldable pub reapply : Action (Uart W) (Unit {0})
  reapply = do
    ignore (cmd_expect_retry board (codes "AT+CFUN=1") only_ok medium_timeout_ms 2)
    ignore (cmd_expect_retry board (codes "AT+CEREG=1") only_ok short_timeout_ms 2)

  -- The rest of the loop takes the deadline and the number of reboots.
  abbrev pub CeregLoop : Type 0
  CeregLoop = ℕ → ℕ → Action (Uart W) (Unit {0})

  unfoldable pub after_recovery :
      CeregLoop → ℕ → ℕ → ℕ → Result (Unit {0}) → Action (Uart W) (Unit {0})
  after_recovery again timeout_ms deadline hits (ok a) = do
    now ← gets (λ s. board.now s.world)
    reapply
    k_sleep board 1000
    again (now + timeout_ms) 0
  after_recovery again timeout_ms deadline hits (err e) = do k_sleep board 1000; again deadline hits

  -- The modem restarted: `hits` counts this time too.
  unfoldable pub after_reboot : CeregLoop → ℕ → ℕ → ℕ → Action (Uart W) (Unit {0})
  after_reboot again timeout_ms deadline hits = do
    k_sleep board boot_wait_ms
    ignore (post_handshake_init board)
    reapply
    r ←
        (if leb reboot_hit_threshold hits
          then attempt (try_hard_recovery board)
          else pure (err etimedout))
    after_recovery again timeout_ms (deadline + 12000) hits r

  unfoldable pub after_cereg :
      CeregLoop → ℕ → ℕ → ℕ → Result (Unit {0}) → List ℕ → Action (Uart W) (Unit {0})
  after_cereg again timeout_ms deadline hits (ok a) rsp =
      if is_registered (parse_cereg_stat rsp)
      then pure tt
      else (do k_sleep board 2000; again deadline hits)
  after_cereg again timeout_ms deadline hits (err e) rsp =
      if is_ehostdown e || contains_reboot_marker rsp
      then after_reboot again timeout_ms deadline (suc hits)
      else (do k_sleep board 1000; again deadline hits)

  unfoldable pub cereg_loop : ℕ → ℕ → CeregLoop
  cereg_loop zero timeout_ms deadline hits = raise etimedout
  cereg_loop (suc fuel) timeout_ms deadline hits = with_state (λ s.
      elim (ltb (board.now s.world) deadline) [
        | true ↦ (do
          send_cmd board (codes "AT+CEREG?")
          r ← attempt (wait_response board ok_or_error medium_timeout_ms)
          rsp ← gets (λ u. c_str u.rsp_buf)
          after_cereg (cereg_loop fuel timeout_ms) timeout_ms deadline hits r rsp)
        | false ↦ raise etimedout
      ])

  unfoldable pub wait_cereg_registered : ℕ → Action (Uart W) (Unit {0})
  wait_cereg_registered timeout_ms =
      with_state (λ s. cereg_loop board.rounds timeout_ms (board.now s.world + timeout_ms) 0)

  unfoldable pub is_active : Result (Unit {0}) → List ℕ → Bool
  is_active (ok a) rsp = qiact_rsp_has_ctx1_active rsp
  is_active (err e) rsp = false

  -- `AT+QIACT?`, and whether the reply names context 1.
  unfoldable pub query_pdp : Action (Uart W) Bool
  query_pdp = do
    send_cmd board (codes "AT+QIACT?")
    r ← attempt (wait_response board ok_or_error medium_timeout_ms)
    rsp ← gets (λ u. c_str u.rsp_buf)
    pure (is_active r rsp)

  unfoldable pub activate_pdp : Action (Uart W) (Unit {0})
  activate_pdp = cmd_expect_retry board (codes "AT+QIACT=1") only_ok pdp_act_timeout_ms 3

  unfoldable pub reactivate_pdp : Bool → Action (Uart W) (Unit {0})
  reactivate_pdp true = pure tt
  reactivate_pdp false = do
    ignore (
        cmd_expect_retry board (codes "AT+QIDEACT=1") (codes "OK" ∷ codes "ERROR" ∷ [])
          pdp_act_timeout_ms 1)
    k_sleep board 1000
    activate_pdp

  unfoldable pub after_activate : Result (Unit {0}) → Action (Uart W) (Unit {0})
  after_activate (ok a) = pure tt
  after_activate (err e) = do active ← query_pdp; reactivate_pdp active

  unfoldable pub activate_unless : Bool → Action (Uart W) (Unit {0})
  activate_unless true = pure tt
  activate_unless false = do r ← attempt activate_pdp; after_activate r

  unfoldable pub ensure_pdp_activated : Action (Uart W) (Unit {0})
  ensure_pdp_activated = do active ← query_pdp; activate_unless active

  -- A command that is formatted with the APN and sent.
  unfoldable pub configure_apn : List ℕ → Action (Uart W) (Unit {0})
  configure_apn text = do
    cmd ← cmd_format cmd_buf_len text
    cmd_expect_retry board cmd only_ok short_timeout_ms 2

  unfoldable pub prepare_network : List ℕ → Action (Uart W) (Unit {0})
  prepare_network apn = do
    cmd_expect_retry board (codes "AT+CFUN=1") only_ok medium_timeout_ms 2
    cmd_expect_retry board (codes "AT+CEREG=1") only_ok short_timeout_ms 2
    wait_cereg_registered 90000
    configure_apn (codes "AT+CGDCONT=1,\"IP\",\"" ++ apn ++ codes "\"")
    configure_apn (codes "AT+QICSGP=1,1,\"" ++ apn ++ codes "\",\"\",\"\",1")
    ensure_pdp_activated
    ignore (cmd_expect_retry board (codes "AT+CGPADDR=1") only_ok medium_timeout_ms 2)

  unfoldable pub or_eagain : Result (Unit {0}) → Result (Unit {0})
  or_eagain (err eagain) = ok tt
  or_eagain r = r

  unfoldable pub apn_or_default : Option (List ℕ) → List ℕ
  apn_or_default none = board.config_apn
  apn_or_default (some apn) = apn

  -- The stages that the stack is built from, in the order of the code.
  unfoldable pub bring_up : Option (List ℕ) → Action (Driver W) (Unit {0})
  bring_up apn = do
    r ← attempt (uart_rw_selftest board)
    of_result (or_eagain r)
    boot board
    on_uart (prepare_network (apn_or_default apn))

  -- No APN is a NULL pointer.
  unfoldable pub socket_stack_init : Option (List ℕ) → Action (Driver W) (Unit {0})
  socket_stack_init apn = with_state (λ s.
      if s.stack_ready
      then pure tt
      else (do bring_up apn; modify (λ t. record t { stack_ready = true })))
