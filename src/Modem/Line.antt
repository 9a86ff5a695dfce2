-- ===== src/Modem/Line.antt =====
-- Bytes on the line: `ec801e_uart_write`, `_send_cmd`, `_cmd_format`, `_wait_response`,
-- `_wait_qiopen_result`, `_send_raw`, `_drain_rx` and `_collect_uart` of drivers/ec801e/ec801e.c.
-- No caller passes a NULL buffer.
pub mod Answers
pub mod Rounds
pub mod Sent
use esp32s3tinyepaper.Base.{
  ℕ, zero, suc, ◌+◌, ◌-◌, ◌/◌, Bool, true, false, not, ◌&&◌, List, [], ◌∷◌, ◌++◌, Option, none,
  some, ltb, leb, ◌==◌, if◌then◌else◌, length, take, drop,
}
use esp32s3tinyepaper.Base.Text.{codes, c_str, strstr, contains}
use esp32s3tinyepaper.Base.Int.{ℤ, pos, eqb_ℤ}
use esp32s3tinyepaper.Base.Result.{
  Result, ok, err, Errno, einval, eio, etimedout, ehostdown, Action, pure, raise, raise_if, modify,
  with_state, ◌>>=◌, ◌>>◌,
}
use esp32s3tinyepaper.Modem.{Board, Uart, rx_buf_len, cmd_buf_len}
use esp32s3tinyepaper.Modem.Replies.{contains_any, contains_reboot_marker, scan_int}

-- The texts that end a wait: `ok1` to `ok3`, and `fail1` and `fail2`, where they are not NULL.
pub record Markers : Type 0 where
  pub oks : List (List ℕ)
  pub fails : List (List ℕ)

-- `out[pos++] = ch`. A full buffer first loses its older half.
unfoldable pub append_rx : ℕ → List ℕ → ℕ → List ℕ
append_rx out_len out ch =
    if ltb (length out) (out_len - 1) then out ++ ch ∷ [] else drop (out_len / 2) out ++ ch ∷ []

-- The tests after a byte, in the order of the code.
unfoldable pub verdict : Markers → List ℕ → Option (Result (Unit {0}))
verdict markers out =
    if contains_any out markers.oks
    then some (ok tt)
    else if contains_reboot_marker out
    then some (err ehostdown)
    else if contains_any out (markers.fails ++ codes "CME ERROR" ∷ [])
    then some (err eio)
    else none

-- A full buffer drops the byte.
unfoldable pub append_or_drop : ℕ → List ℕ → ℕ → List ℕ
append_or_drop out_len out ch = if ltb (length out) (out_len - 1) then out ++ ch ∷ [] else out

-- `sscanf(p, "+QIOPEN: 0,%d", &result_code)`, where `p` starts with the text before `%d`.
unfoldable pub qiopen_code : Option (List ℕ) → Option ℤ
qiopen_code none = none
qiopen_code (some p) = elim (scan_int (drop 11 p)) [ some (n, rest) ↦ some n | none ↦ none ]

unfoldable pub of_code : Option ℤ → Option (Result (Unit {0}))
of_code none = none
of_code (some n) = some (if eqb_ℤ n (pos 0) then ok tt else err eio)

unfoldable pub qiopen_verdict : List ℕ → Option (Result (Unit {0}))
qiopen_verdict out =
    if contains_any out (codes "ERROR" ∷ codes "CME ERROR" ∷ [])
    then some (err eio)
    else of_code (qiopen_code (strstr out (codes "+QIOPEN: 0,")))

module _ {W : Type 0} (board : Board W) where
  unfoldable pub poll_out_loop : List ℕ → W → W
  poll_out_loop [] w = w
  poll_out_loop (c ∷ bytes) w = poll_out_loop bytes (board.poll_out c w)

  unfoldable pub uart_write : List ℕ → Action (Uart W) (Unit {0})
  uart_write bytes = modify (λ s. record s { world = poll_out_loop bytes s.world })

  unfoldable pub send_raw : List ℕ → Action (Uart W) (Unit {0})
  send_raw payload = uart_write payload

  -- The line is the command and CR; with its terminator it has to fit.
  unfoldable pub send_cmd : List ℕ → Action (Uart W) (Unit {0})
  send_cmd cmd =
      let line = cmd ++ b'\r' ∷ [] in
      do raise_if (leb cmd_buf_len (length line)) einval; uart_write line

  unfoldable pub k_sleep : ℕ → Action (Uart W) (Unit {0})
  k_sleep ms = modify (λ s. record s { world = board.sleep ms s.world })

  -- A round: a byte is stored and the text is tested, or there is none and the loop sleeps. `again` is
  -- the rest of the loop.
  abbrev pub Waited : Type 0
  Waited = (Result (Unit {0}) × List ℕ) × W

  unfoldable pub after_rx : (List ℕ → W → Waited) → Option (Result (Unit {0})) → List ℕ → W → Waited
  after_rx again (some r) out w = ((r, out), w)
  after_rx again none out w = again out w

  unfoldable pub after_poll :
      (List ℕ → W → Waited)
      → (List ℕ → ℕ → List ℕ)
      → (List ℕ → Option (Result (Unit {0})))
      → List ℕ
      → Option ℕ × W
      → Waited
  after_poll again store test out (none, w) = again out (board.sleep 10 w)
  after_poll again store test out (some ch, w) =
      after_rx again (test (c_str (store out ch))) (store out ch) w

  -- `early` is the test of the clock.
  unfoldable pub wait_round :
      (List ℕ → W → Waited)
      → (List ℕ → ℕ → List ℕ)
      → (List ℕ → Option (Result (Unit {0})))
      → List ℕ
      → W
      → Bool
      → Waited
  wait_round again store test out w true = after_poll again store test out (board.poll_in w)
  wait_round again store test out w false = ((err etimedout, out), w)

  -- The loops of `ec801e_wait_response` and `ec801e_wait_qiopen_result`, which differ in how a byte is
  -- stored and how the text is tested.
  unfoldable pub answer_loop :
      (List ℕ → ℕ → List ℕ) → (List ℕ → Option (Result (Unit {0}))) → ℕ → ℕ → List ℕ → W → Waited
  answer_loop store test zero deadline out w = ((err etimedout, out), w)
  answer_loop store test (suc fuel) deadline out w =
      wait_round (answer_loop store test fuel deadline) store test out w
        (ltb (board.now w) deadline)

  unfoldable pub wait_into : Markers → ℕ → ℕ → W → Waited
  wait_into markers timeout_ms out_len w =
      answer_loop (append_rx out_len) (verdict markers) board.rounds (board.now w + timeout_ms) [] w

  -- The reply goes to `ec801e_rsp_buf`.
  unfoldable pub keep_reply : Waited → Result (Unit {0}) × Uart W
  keep_reply ((r, out), w) = (r, record { rsp_buf = out; world = w })

  unfoldable pub wait_response : Markers → ℕ → Action (Uart W) (Unit {0})
  wait_response markers timeout_ms s = keep_reply (wait_into markers timeout_ms rx_buf_len s.world)

  unfoldable pub wait_qiopen_result : ℕ → Action (Uart W) (Unit {0})
  wait_qiopen_result timeout_ms s = keep_reply (
      answer_loop (append_or_drop rx_buf_len) qiopen_verdict board.rounds
        (board.now s.world + timeout_ms) [] s.world)

  unfoldable pub after_stale : (W → W) → Option ℕ × W → W
  after_stale again (none, w) = w
  after_stale again (some ch, w) = again w

  unfoldable pub drain_loop : ℕ → W → W
  drain_loop zero w = w
  drain_loop (suc fuel) w = after_stale (drain_loop fuel) (board.poll_in w)

  unfoldable pub drain_rx : Action (Uart W) (Unit {0})
  drain_rx = modify (λ s. record s { world = drain_loop board.rounds s.world })

  -- Bytes are kept until the time is over, or the line is idle after the first. `last_rx` is when the
  -- last byte came.
  unfoldable pub after_collect :
      (ℕ → List ℕ → W → List ℕ × W) → ℕ → ℕ → ℕ → List ℕ → Option ℕ × W → List ℕ × W
  after_collect again out_len idle_break_ms last_rx out (none, w) =
      elim (ltb 0 (length out) && ltb idle_break_ms (board.now w - last_rx)) [
        | true ↦ (out, w)
        | false ↦ again last_rx out (board.sleep 10 w)
      ]
  after_collect again out_len idle_break_ms last_rx out (some ch, w) =
      again (board.now w) (append_or_drop out_len out ch) w

  unfoldable pub collect_loop : ℕ → ℕ → ℕ → ℕ → ℕ → ℕ → List ℕ → W → List ℕ × W
  collect_loop zero out_len idle_break_ms total_ms start last_rx out w = (out, w)
  collect_loop (suc fuel) out_len idle_break_ms total_ms start last_rx out w =
      elim (ltb (board.now w - start) total_ms) [
        | true ↦
            after_collect (collect_loop fuel out_len idle_break_ms total_ms start) out_len
              idle_break_ms last_rx out (board.poll_in w)
        | false ↦ (out, w)
      ]

  unfoldable pub collect_uart : ℕ → ℕ → ℕ → W → List ℕ × W
  collect_uart out_len total_ms idle_break_ms w =
      collect_loop board.rounds out_len idle_break_ms total_ms (board.now w) (board.now w) [] w

  unfoldable pub collect : ℕ → ℕ → Action (Uart W) (List ℕ)
  collect total_ms idle_break_ms s =
      let (out, w) = collect_uart rx_buf_len total_ms idle_break_ms s.world in
      (ok out, record { rsp_buf = out; world = w })

-- `ec801e_cmd_format`: the text, if it fits with its terminator.
unfoldable pub cmd_format : {S : Type 0} → ℕ → List ℕ → Action S (List ℕ)
cmd_format buf_len text = if leb buf_len (length text) then raise einval else pure text
