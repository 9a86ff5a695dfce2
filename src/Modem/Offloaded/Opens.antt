-- ===== src/Modem/Offloaded/Opens.antt =====
-- What an open of drivers/ec801e/ec801e.c does for the socket above it.
use esp32s3tinyepaper.Base.{
  ℕ, ◌≡◌, ◌≢◌, refl, sym, ◌∙◌, ◌⊎◌, inl, inr, true, false, List, [], ◌∷◌, ◌++◌, ◌==◌, length, leb,
}
use esp32s3tinyepaper.Base.Result.{Result, Errno, ok, err, einval, eisconn, eio, etimedout}
use esp32s3tinyepaper.Base.Result.Ends.{
  Ended, Ends, weaken-Ends, raise_if-Ends, then-Ends, bind-Ends, done-Ends, if-Ends, ignore-Ends,
  pure-Ends, raise-Ends,
}
use esp32s3tinyepaper.Offload.{Ctx}
use esp32s3tinyepaper.Offload.Socket.{open_socket}
use esp32s3tinyepaper.Modem.{Board, Uart, Driver, cmd_buf_len}
use esp32s3tinyepaper.Modem.Line.{send_cmd, cmd_format, drain_rx, uart_write}
use esp32s3tinyepaper.Modem.Line.Answers.{IsOpen, wait_qiopen_result-IsOpen}
use esp32s3tinyepaper.Modem.Commands.{close_stale}
use esp32s3tinyepaper.Modem.Kept.{on_uart-Ends}
use esp32s3tinyepaper.Modem.Sockets.{open_on_line, set_opened, socket_open_tcp}
use esp32s3tinyepaper.Modem.Offloaded.{Kernel, ec801e_modem}

cmd_format-Ends :
    {S : Type 0} (buf_len : ℕ) (text : List ℕ) (s : S)
    → Ends (λ _ t. t ≡ s) (λ e t. e ≡ einval) (cmd_format buf_len text) s
unfolding cmd_format
cmd_format-Ends buf_len text s =
    if-Ends (leb buf_len (length text)) (λ long. raise-Ends refl) (λ fits. pure-Ends refl)

module _ {W : Type 0} (board : Board W) where
  send_cmd-Ends :
      (cmd : List ℕ) (s : Uart W)
      → Ends (λ _ _. Unit {0}) (λ e _. e ≡ einval) (send_cmd board cmd) s
  unfolding send_cmd uart_write
  send_cmd-Ends cmd s =
      raise_if-Ends (leb 256 (length (cmd ++ b'\r' ∷ []))) einval (λ long. refl)
        (λ fits. done-Ends tt)

  drain_rx-Ends :
      {Q : Errno → Uart W → Type 0} (s : Uart W) → Ends (λ _ _. Unit {0}) Q (drain_rx board) s
  unfolding drain_rx
  drain_rx-Ends s = done-Ends tt

  -- The errors of an open on the line.
  abbrev OpenError : Errno → Type 0
  OpenError e = (e ≡ einval) ⊎ (e ≡ etimedout) ⊎ (e ≡ eio)

  open_on_line-IsOpen :
      (ip : List ℕ) (port : ℕ) (s : Uart W)
      → Ends (λ _ u. IsOpen u.rsp_buf) (λ e _. OpenError e) (open_on_line board ip port) s
  unfolding open_on_line
  open_on_line-IsOpen ip port s = ignore-Ends (close_stale board) (
      bind-Ends
        (weaken-Ends (cmd_format-Ends cmd_buf_len _ (close_stale board s).1) (λ a t h. h)
          (λ e t h. inl h))
        (λ cmd t h. then-Ends (drain_rx-Ends t) (λ b u l.
          then-Ends (weaken-Ends (send_cmd-Ends cmd _) (λ a v k. k) (λ e v k. inl k)) (λ a v k.
            weaken-Ends (wait_qiopen_result-IsOpen board 60000 v) (λ a w k. k.0)
              (λ e w k. inr k.0)))))

  set_opened-Ends :
      {Q : Errno → Driver W → Type 0} (s : Driver W)
      → IsOpen s.uart.rsp_buf
      → Ends (λ _ t. (t.socket_opened ≡ true) × IsOpen t.uart.rsp_buf) Q (set_opened board true) s
  unfolding set_opened
  set_opened-Ends s h = done-Ends (refl, h)

  -- A TCP open that succeeds had a reply of the modem with the code 0 and no error, and leaves the socket
  -- open. One that fails leaves the flag as it was, and the error is -EINVAL, -ETIMEDOUT or -EIO.
  pub socket_open_tcp-IsOpen :
      (ip : List ℕ) (port : ℕ) (s : Driver W)
      → Ends
          (λ _ t. (t.socket_opened ≡ true) × IsOpen t.uart.rsp_buf)
          (λ e t. (t.socket_opened ≡ s.socket_opened) × OpenError e)
          (socket_open_tcp board ip port)
          s
  unfolding socket_open_tcp
  socket_open_tcp-IsOpen ip port s =
      raise_if-Ends (port == 0) einval (λ zero_port. (refl, inl refl))
        (λ some_port.
          then-Ends {P = λ _ t. IsOpen t.uart.rsp_buf}
            (on_uart-Ends (open_on_line board ip port) s
              (weaken-Ends (open_on_line-IsOpen ip port s.uart) (λ a u h. h) (λ e u h. (refl, h))))
            (λ a t h. set_opened-Ends t h))

-- What a connection without TLS left behind: an open socket, or an error that is no -EISCONN.
abbrev pub Opened : {W : Type 0} → Result (Unit {0}) → Driver W → Type 0
Opened (ok a) d = d.socket_opened ≡ true
Opened (err e) d = e ≢ eisconn

not_isconn : (e : Errno) → (e ≡ einval) ⊎ (e ≡ etimedout) ⊎ (e ≡ eio) → e ≢ eisconn
not_isconn e (inl i) k = absurd (einval_not (sym i ∙ k))
  where
    einval_not : einval ≢ eisconn
    einval_not x = cc
not_isconn e (inr (inl t)) k = absurd (etimedout_not (sym t ∙ k))
  where
    etimedout_not : etimedout ≢ eisconn
    etimedout_not x = cc
not_isconn e (inr (inr t)) k = absurd (eio_not (sym t ∙ k))
  where
    eio_not : eio ≢ eisconn
    eio_not x = cc

pub open_socket-Opened :
    {W : Type 0} (board : Board W) (kernel : Kernel W) (ctx : Ctx) (ip : List ℕ) (port : ℕ)
    (d : Driver W)
    → ctx.use_tls ≡ false
    → Opened
        (open_socket (ec801e_modem board kernel) ctx ip port d).0
        (open_socket (ec801e_modem board kernel) ctx ip port d).1
unfolding open_socket ec801e_modem
open_socket-Opened {W} board kernel ctx ip port d plain =
    rw plain (read (socket_open_tcp board ip port d) (socket_open_tcp-IsOpen board ip port d).ended)
  where
    read :
        (r : Result (Unit {0}) × Driver W)
        → Ended
            (λ _ t. (t.socket_opened ≡ true) × IsOpen t.uart.rsp_buf)
            (λ e t.
              (t.socket_opened ≡ d.socket_opened) × ((e ≡ einval) ⊎ (e ≡ etimedout) ⊎ (e ≡ eio)))
            r
        → Opened r.0 r.1
    read (ok a, t) h = h.0
    read (err e, t) h = not_isconn e h.1
