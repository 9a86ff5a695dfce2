-- ===== src/Modem/Offloaded/Tls.antt =====
-- A TLS socket of drivers/ec801e/ec801e_socket_offload.c on the driver of drivers/ec801e/ec801e.c.
use esp32s3tinyepaper.Base.{
  ℕ, ◌<◌, ◌≡◌, refl, sym, ◌∙◌, ap, Bool, true, false, not, ◌||◌, List, Option, none, some, ◌==◌,
  length, false≢true, arith, if◌then◌else◌,
}
use esp32s3tinyepaper.Base.Result.{
  raise_if_stops, raise_if_passes, Errno, err, einval, enotconn, eopnotsupp, Action, modify, pure,
  raise_if, with_state, ◌>>◌,
}
use esp32s3tinyepaper.Base.Result.Ends.{
  Ends, weaken-Ends, raise_if-Ends, then-Ends, bind-Ends, done-Ends, with_state-Ends, if-Ends,
}
use esp32s3tinyepaper.Base.Result.Keeps.{
  Keeps, Ends-Keeps, of_result-Keeps, attempt-Keeps, pure-Keeps, raise-Keeps,
}
use esp32s3tinyepaper.Offload.{SockAddr, Ctx, Offload, with_ctx, on_modem}
use esp32s3tinyepaper.Offload.Socket.{
  check_addr, or_einval, or_isconn, open_socket, connect_peer, ec801e_sock_connect,
  ec801e_sock_send,
}
use esp32s3tinyepaper.Modem.{Board, Driver, on_uart}
use esp32s3tinyepaper.Modem.Sockets.{socket_open_ssl, socket_send, send_on_line}
use esp32s3tinyepaper.Modem.Offloaded.{Kernel, ec801e_modem}
use esp32s3tinyepaper.Modem.Offloaded.Linked.{Still, on_uart-Still, stack_init-Still}

-- A socket that is allocated and not connected, on a driver with no open socket.
abbrev pub Apart : {W : Type 0} → Offload (Driver W) → Type 0
Apart s = (s.g_ctx.allocated ≡ true) × (s.g_ctx.connected ≡ false) × (s.modem.socket_opened ≡ false)

-- The same socket, once it counts as connected.
abbrev Stranded : {W : Type 0} → Offload (Driver W) → Type 0
Stranded s =
    (s.g_ctx.allocated ≡ true) × (s.g_ctx.connected ≡ true) × (s.modem.socket_opened ≡ false)

on_modem-Apart :
    {W A : Type 0} (m : Action (Driver W) A) → Still m → Keeps (Apart {W = W}) (on_modem m)
unfolding on_modem
on_modem-Apart m still = record {
  keeps = λ s (live, apart, shut). (live, apart, (still false).keeps s.modem shut);
}

or_einval-Apart :
    {W A : Type 0} (o : Option A) → Keeps (Apart {W = W}) (or_einval {S = Offload (Driver W)} o)
unfolding or_einval
or_einval-Apart none = raise-Keeps einval
or_einval-Apart (some a) = pure-Keeps a

connected-Stranded :
    {W : Type 0} {Q : Errno → Offload (Driver W) → Type 0} (peer : SockAddr)
    (s : Offload (Driver W))
    → Apart s
    → Ends
        (λ _ t. Stranded t)
        Q
        (modify (with_ctx (λ ctx. record ctx { peer = peer; connected = true })))
        s
unfolding with_ctx
connected-Stranded peer s (live, apart, shut) = done-Ends (live, refl, shut)

module _ {W : Type 0} (board : Board W) (kernel : Kernel W) where
  stack_init_call-Still : Still (ec801e_modem board kernel).stack_init
  unfolding ec801e_modem
  stack_init_call-Still = stack_init-Still board none

  -- An open with TLS does not set the flag.
  open_socket-Still :
      (ctx : Ctx) (ip : List ℕ) (port : ℕ)
      → ctx.use_tls ≡ true
      → Still (open_socket (ec801e_modem board kernel) ctx ip port)
  unfolding open_socket ec801e_modem
  open_socket-Still ctx ip port tls = rw tls (
      on_uart-Still (
        socket_open_ssl board (if length ctx.tls_hostname == 0 then ip else ctx.tls_hostname) port))

  connect_peer-Stranded :
      (ctx : Ctx) (peer : SockAddr) (s : Offload (Driver W))
      → ctx.use_tls ≡ true
      → Apart s
      → Ends
          (λ _ t. Stranded t)
          (λ _ t. Apart t)
          (connect_peer (ec801e_modem board kernel) ctx peer)
          s
  unfolding connect_peer
  connect_peer-Stranded ctx peer s tls h =
      then-Ends
        (Ends-Keeps (on_modem-Apart (ec801e_modem board kernel).stack_init stack_init_call-Still) h)
        (λ a t h.
          bind-Ends (Ends-Keeps (or_einval-Apart ((ec801e_modem board kernel).ntop peer.addr)) h)
            (λ ip u h.
              bind-Ends
                (Ends-Keeps
                  (attempt-Keeps (
                    on_modem-Apart (open_socket (ec801e_modem board kernel) ctx ip peer.port)
                      (open_socket-Still ctx ip peer.port tls)))
                  h)
                (λ ret v h.
                  then-Ends (Ends-Keeps (of_result-Keeps (or_isconn ret)) h)
                    (λ b w h. connected-Stranded peer w h))))

  driver_refuses :
      (buf : List ℕ) (d : Driver W)
      → 0 < length buf
      → d.socket_opened ≡ false
      → socket_send board buf d ≡ (err enotconn, d)
  unfolding socket_send with_state
  driver_refuses buf d some_bytes shut =
      let call = on_uart (send_on_line board buf) in
      raise_if_passes (length buf == 0) einval (raise_if (not d.socket_opened) enotconn >> call) d
        (ground arith)
      ∙ raise_if_stops (not d.socket_opened) enotconn call d (rw shut refl)

  passed_on :
      {A : Type 0} (m : Action (Driver W) A) (e : Errno) (t : Offload (Driver W))
      → m t.modem ≡ (err e, t.modem)
      → on_modem m t ≡ (err e, t)
  unfolding on_modem
  passed_on m e t h = ap (λ r. (r.0, record t { modem = r.1 })) h

  send_refused :
      (buf : List ℕ) (t : Offload (Driver W))
      → 0 < length buf
      → Stranded t
      → ec801e_sock_send (ec801e_modem board kernel) buf 0 none 0 t ≡ (err enotconn, t)
  unfolding ec801e_sock_send ec801e_modem with_state
  send_refused buf t some_bytes (live, connected, shut) =
      let call = on_modem (socket_send board buf) in
      let plain = raise_if (not (0 == 0) || false || not (0 == 0)) eopnotsupp >> call in
      raise_if_passes (not t.g_ctx.allocated || length buf == 0) einval
        (raise_if (not t.g_ctx.connected) enotconn >> plain) t (rw live (ground arith))
      ∙ raise_if_passes (not t.g_ctx.connected) enotconn plain t (rw connected refl)
      ∙ passed_on (socket_send board buf) enotconn t (driver_refuses buf t.modem some_bytes shut)

  -- A TLS socket that connects on a driver with no open socket counts as connected, and every send on it
  -- is refused by the driver with -ENOTCONN: nothing goes out. A connection that fails leaves the socket
  -- unconnected.
  pub connect-send_refused :
      (addr : Option SockAddr) (addrlen : ℕ) (buf : List ℕ) (s : Offload (Driver W))
      → s.g_ctx.use_tls ≡ true
      → s.g_ctx.connected ≡ false
      → s.modem.socket_opened ≡ false
      → 0 < length buf
      → Ends
          (λ _ t.
            (t.g_ctx.connected ≡ true)
            × (ec801e_sock_send (ec801e_modem board kernel) buf 0 none 0 t ≡ (err enotconn, t)))
          (λ _ t. t.g_ctx.connected ≡ false)
          (ec801e_sock_connect (ec801e_modem board kernel) addr addrlen)
          s
  unfolding ec801e_sock_connect
  connect-send_refused addr addrlen buf s tls apart shut some_bytes = with_state-Ends _ (
      raise_if-Ends (not s.g_ctx.allocated) einval (λ closed. apart)
        (λ live.
          bind-Ends
            {f = λ peer.
              if s.g_ctx.connected
              then pure tt
              else connect_peer (ec801e_modem board kernel) s.g_ctx peer}
            (weaken-Ends
              (Ends-Keeps (or_einval-Apart (check_addr addr addrlen)) (not_false live, apart, shut))
              (λ peer t h. h) (λ e t h. h.1))
            (λ peer t h.
              if-Ends s.g_ctx.connected (λ already. absurd (false≢true (sym apart ∙ already)))
                (λ fresh.
                  weaken-Ends (connect_peer-Stranded s.g_ctx peer t tls h)
                    (λ a u k. (k.1, send_refused buf u some_bytes k)) (λ e u k. k.1)))))
    where
      not_false : {b : Bool} → not b ≡ false → b ≡ true
      not_false h = ground arith
