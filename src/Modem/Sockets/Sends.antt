-- ===== src/Modem/Sockets/Sends.antt =====
-- What `ec801e_socket_send` of drivers/ec801e/ec801e.c puts on the line.
use esp32s3tinyepaper.Base.{
  ◌%◌, ◌^◌, ℕ, zero, suc, ◌≤◌, ◌<◌, ==→eq, ◌≡◌, refl, ◌∙◌, ap, ◌⊎◌, inl, inr, Bool, true, false,
  not, List, [], ◌∷◌, ◌++◌, leb, ◌==◌, length, take, arith,
}
use esp32s3tinyepaper.Base.Text.{codes}
use esp32s3tinyepaper.Base.Result.{einval, enotconn, Action}
use esp32s3tinyepaper.Base.Result.Ends.{
  Ends, weaken-Ends, pure-Ends, raise_if-Ends, with_state-Ends, then-Ends, done-Ends,
}
use esp32s3tinyepaper.Base.Result.Keeps.{Ends-Keeps}
use esp32s3tinyepaper.Serv.Address.Roundtrip.{length-decimal}
use esp32s3tinyepaper.Modem.{Board, Uart, Driver}
use esp32s3tinyepaper.Modem.Line.{Markers, uart_write, send_cmd, wait_response, drain_rx}
use esp32s3tinyepaper.Modem.Line.Sent.{
  IsLogged, poll_out_loop_sends, drain_loop_silent, wait_response_silent,
}
use esp32s3tinyepaper.Modem.Kept.{on_uart-Ends}
use esp32s3tinyepaper.Modem.Sockets.{
  uint, snprint, prompt_markers, sent_markers, send_on_line, socket_send,
}

take_all : {A : Type 0} (n : ℕ) (xs : List A) → length xs ≤ n → take n xs ≡ xs
take_all zero [] h = refl
take_all (suc n) [] h = refl
take_all zero (x ∷ xs) h = absurd (omega arith)
take_all (suc n) (x ∷ xs) h = rw (take_all n xs (omega arith)) refl

-- The command of a send, with the line's end.
abbrev pub send_line : ℕ → List ℕ
send_line n = (codes "AT+QISEND=0," ++ uint n) ++ b'\r' ∷ []

abbrev header : ℕ → List ℕ
header n = codes "AT+QISEND=0," ++ uint n

length-header : (n : ℕ) → length (header n) ≤ 22
length-header n = omega (arith, length-decimal 9 (n % 2 ^ 32))

snprint-header : (n : ℕ) → snprint 64 (header n) ≡ header n
unfolding snprint
snprint-header n = take_all 63 (header n) (omega (arith, length-header n))

module _ {W : Type 0} (board : Board W) (log : IsLogged board) where
  abbrev sent_of : Uart W → List ℕ
  sent_of u = log.sent u.world

  -- An action that puts `bytes` on the line, or fails with nothing sent.
  abbrev Puts : {A : Type 0} → List ℕ → Action (Uart W) A → Uart W → Type 0
  Puts bytes m s = Ends (λ _ u. sent_of u ≡ sent_of s ++ bytes) (λ _ u. sent_of u ≡ sent_of s) m s

  -- An action that sends nothing, whatever it returns.
  abbrev Quiet : {A : Type 0} → Action (Uart W) A → Uart W → Type 0
  Quiet m s = Ends (λ _ u. sent_of u ≡ sent_of s) (λ _ u. sent_of u ≡ sent_of s) m s

  drain_rx-Quiet : (s : Uart W) → Quiet (drain_rx board) s
  unfolding drain_rx
  drain_rx-Quiet s = done-Ends (drain_loop_silent board log board.rounds s.world)

  uart_write-Puts : (bytes : List ℕ) (s : Uart W) → Puts bytes (uart_write board bytes) s
  unfolding uart_write
  uart_write-Puts bytes s = done-Ends (poll_out_loop_sends board log bytes s.world)

  send_cmd-Puts : (cmd : List ℕ) (s : Uart W) → Puts (cmd ++ b'\r' ∷ []) (send_cmd board cmd) s
  unfolding send_cmd
  send_cmd-Puts cmd s =
      raise_if-Ends (leb 256 (length (cmd ++ b'\r' ∷ []))) einval (λ long. refl)
        (λ fits. uart_write-Puts (cmd ++ b'\r' ∷ []) s)

  command-Puts :
      (n : ℕ) (s : Uart W) → Puts (send_line n) (send_cmd board (snprint 64 (header n))) s
  command-Puts n s = rw (snprint-header n) (send_cmd-Puts (header n) s)

  wait_response-Quiet :
      (markers : Markers) (timeout_ms : ℕ) (s : Uart W)
      → Quiet (wait_response board markers timeout_ms) s
  wait_response-Quiet markers timeout_ms s =
      Ends-Keeps (record { keeps = λ u h. wait_response_silent board log markers timeout_ms u ∙ h })
        refl

  -- All of a send's bytes, or those of its first steps.
  abbrev pub SentPart : List ℕ → List ℕ → Uart W → Uart W → Type 0
  SentPart line bytes s u =
      (sent_of u ≡ sent_of s)
      ⊎ (sent_of u ≡ sent_of s ++ line)
      ⊎ (sent_of u ≡ (sent_of s ++ line) ++ bytes)

  abbrev Sending : List ℕ → Action (Uart W) ℕ → Uart W → Uart W → Type 0
  Sending bytes m s t =
      Ends
        (λ n u. (n ≡ length bytes) × (sent_of u ≡ (sent_of s ++ send_line (length bytes)) ++ bytes))
        (λ e u. SentPart (send_line (length bytes)) bytes s u) m t

  send_on_line-Sends : (bytes : List ℕ) (s : Uart W) → Sending bytes (send_on_line board bytes) s s
  unfolding send_on_line
  send_on_line-Sends bytes s =
      then-Ends (weaken-Ends (drain_rx-Quiet s) (λ a u h. h) (λ e u h. inl h)) (λ a u h.
        then-Ends
          (weaken-Ends (command-Puts (length bytes) u)
            (λ a v k. k ∙ ap (λ x. x ++ send_line (length bytes)) h) (λ e v k. inl (k ∙ h)))
          (λ a v h.
            then-Ends
              (weaken-Ends (wait_response-Quiet prompt_markers 10000 v) (λ a w k. k ∙ h)
                (λ e w k. inr (inl (k ∙ h))))
              (λ a w h.
                then-Ends
                  (weaken-Ends (uart_write-Puts bytes w) (λ a x k. k ∙ ap (λ x. x ++ bytes) h)
                    (λ e x k. inr (inl (k ∙ h))))
                  (λ a x h.
                    then-Ends
                      (weaken-Ends (wait_response-Quiet sent_markers 10000 x) (λ a y k. k ∙ h)
                        (λ e y k. inr (inr (k ∙ h))))
                      (λ a y h. pure-Ends (refl, h))))))

  -- A send that succeeds gives the number of its bytes, and has put the command with that number, a CR
  -- and exactly the bytes on the line, in this order and nothing else. A send that fails has put nothing
  -- there, or the command, or all of it. A send of no bytes changes nothing and gives -EINVAL, and one of
  -- some bytes without an open socket changes nothing and gives -ENOTCONN.
  pub socket_send-Sends :
      (bytes : List ℕ) (s : Driver W)
      → Ends
          (λ n t.
            (s.socket_opened ≡ true)
            × (0 < length bytes)
            × (n ≡ length bytes)
            × (sent_of t.uart ≡ (sent_of s.uart ++ send_line (length bytes)) ++ bytes))
          (λ e t.
            ((t ≡ s) × (length bytes ≡ 0) × (e ≡ einval))
            ⊎ ((t ≡ s) × (0 < length bytes) × (s.socket_opened ≡ false) × (e ≡ enotconn))
            ⊎ ((s.socket_opened ≡ true)
                × (0 < length bytes)
                × SentPart (send_line (length bytes)) bytes s.uart t.uart))
          (socket_send board bytes)
          s
  unfolding socket_send
  socket_send-Sends bytes s = with_state-Ends _ (
      raise_if-Ends (length bytes == 0) einval
        (λ empty. inl (refl, ==→eq (length bytes) 0 empty, refl))
        (λ some_bytes.
          raise_if-Ends (not s.socket_opened) enotconn
            (λ closed. inr (inl (refl, positive some_bytes, not_true closed, refl)))
            (λ opened. on_uart-Ends (send_on_line board bytes) s (
              weaken-Ends (send_on_line-Sends bytes s.uart)
                (λ n u h. (not_false opened, positive some_bytes, h.0, h.1))
                (λ e u h. inr (inr (not_false opened, positive some_bytes, h)))))))
    where
      not_false : {b : Bool} → not b ≡ false → b ≡ true
      not_false h = ground arith

      not_true : {b : Bool} → not b ≡ true → b ≡ false
      not_true h = ground arith

      positive : {n : ℕ} → (n == 0) ≡ false → 0 < n
      positive {n} h = ground arith
