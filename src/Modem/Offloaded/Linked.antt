-- ===== src/Modem/Offloaded/Linked.antt =====
-- How the socket of drivers/ec801e/ec801e_socket_offload.c and the flag of drivers/ec801e/ec801e.c stand
-- to each other.
use esp32s3tinyepaper.Base.{
  ℕ, ◌≡◌, refl, sym, subst, ◌∙◌, ap, ◌⊎◌, inl, inr, Bool, true, false, not, List, Option, none,
  some, ◌==◌, length, false≢true, if◌then◌else◌, take, min,
}
use esp32s3tinyepaper.Base.Text.{c_str}
use esp32s3tinyepaper.Base.Result.{
  Result, Errno, ok, err, einval, emfile, ebadf, enotconn, eisconn, eopnotsupp, Action, modify,
  attempt, of_result, pure, ◌>>=◌, ◌>>◌,
}
use esp32s3tinyepaper.Base.Result.Ends.{
  Ends, weaken-Ends, raise_if-Ends, then-Ends, bind-Ends, done-Ends, with_state-Ends, attempt-Ends,
  pure-Ends, if-Ends,
}
use esp32s3tinyepaper.Base.Result.Keeps.{
  Keeps, Keeps-Ends, Ends-Keeps, raise_if-Keeps, of_result-Keeps, pure-Keeps, raise-Keeps,
  modify-Keeps, bind-Keeps, then-Keeps, with_state-Keeps,
}
use esp32s3tinyepaper.Offload.{SockAddr, Ctx, Offload, with_ctx, on_modem}
use esp32s3tinyepaper.Offload.Socket.{
  fresh_ctx, closed_ctx, check_addr, or_einval, or_isconn, open_socket, connect_peer,
  ec801e_socket_create, ec801e_sock_connect, ec801e_sock_send, ec801e_sock_recv, ec801e_sock_close,
}
use esp32s3tinyepaper.Offload.Options.{
  Setting, so_rcvtimeo, so_sndtimeo, tls_hostname_option, tls_peer_verify_option, unknown_setting,
  set_timeout, store_setting, timeout_of, ec801e_sock_setsockopt,
}
use esp32s3tinyepaper.Modem.{Board, Uart, Driver, on_uart}
use esp32s3tinyepaper.Modem.Kept.{on_uart-Keeps, socket_stack_init-Keeps}
use esp32s3tinyepaper.Modem.Network.{socket_stack_init}
use esp32s3tinyepaper.Modem.Sockets.{socket_send, socket_recv, send_on_line, recv_on_line}
use esp32s3tinyepaper.Modem.Offloaded.{Kernel, reserve, ec801e_modem}
use esp32s3tinyepaper.Modem.Offloaded.Opens.{Opened, open_socket-Opened}

-- A socket that is connected without TLS has an open socket of the driver.
abbrev pub Linked : {W : Type 0} → Offload (Driver W) → Type 0
Linked s = s.g_ctx.connected ≡ true → s.g_ctx.use_tls ≡ false → s.modem.socket_opened ≡ true

-- The driver's flag stays as it was.
abbrev pub Still : {W A : Type 0} → Action (Driver W) A → Type 0
Still {W} m = (b : Bool) → Keeps (λ (d : Driver W). d.socket_opened ≡ b) m

pub on_uart-Still : {W A : Type 0} (m : Action (Uart W) A) → Still (on_uart m)
on_uart-Still m b = on_uart-Keeps m (λ s u h. h)

pub stack_init-Still :
    {W : Type 0} (board : Board W) (apn : Option (List ℕ)) → Still (socket_stack_init board apn)
stack_init-Still board apn b =
    socket_stack_init-Keeps board (λ d. d.socket_opened ≡ b) (λ s u h. h) (λ s c h. h) apn
      (λ s h. h)

send-Still : {W : Type 0} (board : Board W) (bytes : List ℕ) → Still (socket_send board bytes)
unfolding socket_send
send-Still board bytes b = with_state-Keeps (λ s.
    then-Keeps (raise_if-Keeps (length bytes == 0) einval) (
      then-Keeps (raise_if-Keeps (not s.socket_opened) enotconn)
        (on_uart-Still (send_on_line board bytes) b)))

recv-Still : {W : Type 0} (board : Board W) (len ms : ℕ) → Still (socket_recv board len ms)
unfolding socket_recv
recv-Still board len ms b = with_state-Keeps (λ s. then-Keeps (raise_if-Keeps (len == 0) einval) (
    then-Keeps (raise_if-Keeps (not s.socket_opened) enotconn)
      (on_uart-Still (recv_on_line board len ms) b)))

module _ {W : Type 0} (board : Board W) (kernel : Kernel W) where
  -- A call that leaves the flag alone keeps the link.
  on_modem-Linked :
      {A : Type 0} (m : Action (Driver W) A) → Still m → Keeps (Linked {W = W}) (on_modem m)
  unfolding on_modem
  on_modem-Linked m still = record {
    keeps = λ s h c plain. (still s.modem.socket_opened).keeps s.modem refl ∙ h c plain;
  }

  or_einval-Linked :
      {A : Type 0} (o : Option A) → Keeps (Linked {W = W}) (or_einval {S = Offload (Driver W)} o)
  unfolding or_einval
  or_einval-Linked none = raise-Keeps einval
  or_einval-Linked (some a) = pure-Keeps a

  with_ctx-Linked :
      (f : Ctx → Ctx)
      → ((ctx : Ctx) → (f ctx).connected ≡ ctx.connected)
      → ((ctx : Ctx) → (f ctx).use_tls ≡ ctx.use_tls)
      → Keeps (Linked {W = W}) (modify (with_ctx f))
  unfolding with_ctx
  with_ctx-Linked f c t =
      modify-Keeps (λ s h conn plain. h (sym (c s.g_ctx) ∙ conn) (sym (t s.g_ctx) ∙ plain))

  disconnect-Linked :
      (f : Ctx → Ctx)
      → ((ctx : Ctx) → (f ctx).connected ≡ false)
      → Keeps (Linked {W = W}) (modify (with_ctx f))
  unfolding with_ctx
  disconnect-Linked f c =
      modify-Keeps (λ s h conn plain. absurd (false≢true (sym (c s.g_ctx) ∙ conn)))

  pub create-Linked :
      (family type protocol : ℕ)
      → Keeps Linked (ec801e_socket_create (ec801e_modem board kernel) family type protocol)
  unfolding ec801e_socket_create ec801e_modem
  create-Linked family type protocol = with_state-Keeps (λ s.
      then-Keeps (raise_if-Keeps s.g_ctx.allocated emfile) (
        bind-Keeps
          (on_modem-Linked (on_uart (reserve board kernel)) (on_uart-Still (reserve board kernel)))
          (λ fd.
            then-Keeps (disconnect-Linked (fresh_ctx fd protocol) (λ ctx. unfold fresh_ctx in refl))
              (pure-Keeps fd))))

  pub send-Linked :
      (buf : List ℕ) (flags : ℕ) (dst : Option SockAddr) (dstlen : ℕ)
      → Keeps Linked (ec801e_sock_send (ec801e_modem board kernel) buf flags dst dstlen)
  unfolding ec801e_sock_send ec801e_modem
  send-Linked buf flags dst dstlen = with_state-Keeps (λ s. then-Keeps (raise_if-Keeps _ einval) (
      then-Keeps (raise_if-Keeps _ enotconn) (
        then-Keeps (raise_if-Keeps _ eopnotsupp)
          (on_modem-Linked (socket_send board buf) (send-Still board buf)))))

  pub recv-Linked :
      (len flags : ℕ) (srclen : Option ℕ)
      → Keeps Linked (ec801e_sock_recv (ec801e_modem board kernel) len flags srclen)
  unfolding ec801e_sock_recv ec801e_modem
  recv-Linked len flags srclen = with_state-Keeps (λ s. then-Keeps (raise_if-Keeps _ einval) (
      then-Keeps (raise_if-Keeps _ enotconn) (
        then-Keeps (raise_if-Keeps _ eopnotsupp) (
          bind-Keeps (on_modem-Linked (socket_recv board len _) (recv-Still board len _))
            (λ bytes. pure-Keeps _)))))

  store_setting-Linked :
      (setting : Setting) (optlen : ℕ) → Keeps (Linked {W = W}) (store_setting setting optlen)
  unfolding store_setting set_timeout
  store_setting-Linked (so_rcvtimeo tv) optlen = then-Keeps (raise_if-Keeps _ einval) (
      then-Keeps (raise_if-Keeps _ einval) (
        with_ctx-Linked (λ ctx. record ctx { recv_timeout = timeout_of tv }) (λ ctx. refl)
          (λ ctx. refl)))
  store_setting-Linked (so_sndtimeo tv) optlen = then-Keeps (raise_if-Keeps _ einval) (
      then-Keeps (raise_if-Keeps _ einval) (
        with_ctx-Linked (λ ctx. record ctx { send_timeout = timeout_of tv }) (λ ctx. refl)
          (λ ctx. refl)))
  store_setting-Linked (tls_hostname_option host) optlen =
      with_ctx-Linked (λ ctx. record ctx { tls_hostname = c_str (take (min optlen 95) host) })
        (λ ctx. refl) (λ ctx. refl)
  store_setting-Linked (tls_peer_verify_option mode) optlen =
      then-Keeps (raise_if-Keeps _ einval)
        (with_ctx-Linked (λ ctx. record ctx { tls_peer_verify = mode }) (λ ctx. refl) (λ ctx. refl))
  store_setting-Linked unknown_setting optlen = raise-Keeps eopnotsupp

  pub setsockopt-Linked :
      (optval : Option Setting) (optlen : ℕ)
      → Keeps (Linked {W = W}) (ec801e_sock_setsockopt optval optlen)
  unfolding ec801e_sock_setsockopt
  setsockopt-Linked optval optlen = with_state-Keeps (λ s.
      then-Keeps (raise_if-Keeps _ ebadf)
        (bind-Keeps (or_einval-Linked optval) (λ setting. store_setting-Linked setting optlen)))

  abbrev close_modem : Ctx → Action (Offload (Driver W)) (Unit {0})
  close_modem ctx = if ctx.connected then on_modem (ec801e_modem board kernel).close else pure tt

  closed-Linked :
      {Q : Errno → Offload (Driver W) → Type 0} (s : Offload (Driver W))
      → Ends (λ _ t. Linked t) Q (modify (with_ctx (λ ctx. closed_ctx))) s
  unfolding with_ctx closed_ctx
  closed-Linked s = done-Ends (λ c plain. absurd (false≢true c))

  -- Whatever the modem said, the socket is no longer connected.
  pub close-Linked : Keeps (Linked {W = W}) (ec801e_sock_close (ec801e_modem board kernel))
  unfolding ec801e_sock_close
  close-Linked = Keeps-Ends (λ s h. with_state-Ends _ (
      raise_if-Ends (not s.g_ctx.allocated) ebadf (λ closed. h)
        (λ live.
          attempt-Ends {g = close_modem s.g_ctx}
            (λ ret. modify (with_ctx (λ ctx. closed_ctx)) >> of_result ret)
            (then-Ends (closed-Linked (close_modem s.g_ctx s).1)
              (λ a t k. Ends-Keeps (of_result-Keeps (close_modem s.g_ctx s).0) k)))))

  or_isconn_err : (e : Errno) → (e ≡ eisconn) ⊎ (or_isconn (err e) ≡ err e)
  unfolding or_isconn
  or_isconn_err eisconn = inl refl
  or_isconn_err _ = inr refl

  abbrev mark_connected : SockAddr → Ctx → Ctx
  mark_connected peer ctx = record ctx { peer = peer; connected = true }

  -- After an open, of a socket that had no connection.
  finish-Linked :
      (peer : SockAddr) (ctx : Ctx) (ret : Result (Unit {0})) (t : Offload (Driver W))
      → ctx.connected ≡ false
      → t.g_ctx ≡ ctx
      → (ctx.use_tls ≡ false → Opened ret t.modem)
      → Ends
          (λ _ u. Linked u)
          (λ _ u. Linked u)
          (of_result (or_isconn ret) >> modify (with_ctx (mark_connected peer)))
          t
  unfolding with_ctx mark_connected or_isconn
  finish-Linked peer ctx (ok a) t apart same opened = record {
    ended = λ c plain. opened (ap (λ x. x.use_tls) (sym same) ∙ plain);
  }
  finish-Linked peer ctx (err e) t apart same opened = elim (or_isconn_err e) [
    | inr other ↦ rw other (record {
      ended = λ c plain. absurd (false≢true (sym apart ∙ ap (λ x. x.connected) (sym same) ∙ c));
    })
    | inl busy ↦ rw busy (record {
      ended = λ c plain. absurd (opened (ap (λ x. x.use_tls) (sym same) ∙ plain) busy);
    })
  ]

  -- What a call of the modem's leaves of the context.
  on_modem-ctx :
      {A : Type 0} (m : Action (Driver W) A) (s : Offload (Driver W)) (ctx : Ctx)
      → s.g_ctx ≡ ctx
      → Ends (λ _ t. t.g_ctx ≡ ctx) (λ _ t. t.g_ctx ≡ ctx) (on_modem m) s
  unfolding on_modem
  on_modem-ctx m s ctx same = Ends-Keeps (record { keeps = λ t h. h }) same

  apart-Linked :
      (ctx : Ctx) (t : Offload (Driver W)) → ctx.connected ≡ false → t.g_ctx ≡ ctx → Linked t
  apart-Linked ctx t apart same c plain =
      absurd (false≢true (sym apart ∙ ap (λ x. x.connected) (sym same) ∙ c))

  or_einval-Ends :
      {A : Type 0} (o : Option A) (s : Offload (Driver W))
      → Ends (λ _ t. t ≡ s) (λ _ t. t ≡ s) (or_einval o) s
  unfolding or_einval
  or_einval-Ends none s = record { ended = refl }
  or_einval-Ends (some a) s = record { ended = refl }

  open-Linked :
      (ctx : Ctx) (peer : SockAddr) (ip : List ℕ) (u : Offload (Driver W))
      → u.g_ctx ≡ ctx
      → ctx.connected ≡ false
      → Ends
          (λ _ t. Linked t)
          (λ _ t. Linked t)
          (attempt (on_modem (open_socket (ec801e_modem board kernel) ctx ip peer.port)) >>= λ ret.
            of_result (or_isconn ret) >> modify (with_ctx (mark_connected peer)))
          u
  unfolding on_modem
  open-Linked ctx peer ip u same apart =
      attempt-Ends {g = on_modem (open_socket (ec801e_modem board kernel) ctx ip peer.port)}
        (λ ret. of_result (or_isconn ret) >> modify (with_ctx (mark_connected peer)))
        (finish-Linked peer ctx (open_socket (ec801e_modem board kernel) ctx ip peer.port u.modem).0
          (on_modem (open_socket (ec801e_modem board kernel) ctx ip peer.port) u).1 apart same
          (λ plain. open_socket-Opened board kernel ctx ip peer.port u.modem plain))

  connect_peer-Linked :
      (ctx : Ctx) (peer : SockAddr) (s : Offload (Driver W))
      → s.g_ctx ≡ ctx
      → ctx.connected ≡ false
      → Ends
          (λ _ t. Linked t)
          (λ _ t. Linked t)
          (connect_peer (ec801e_modem board kernel) ctx peer)
          s
  unfolding connect_peer
  connect_peer-Linked ctx peer s same apart =
      then-Ends
        (weaken-Ends (on_modem-ctx (ec801e_modem board kernel).stack_init s ctx same) (λ a t h. h)
          (λ e t h. apart-Linked ctx t apart h))
        (λ a t same.
          bind-Ends
            (weaken-Ends (or_einval-Ends ((ec801e_modem board kernel).ntop peer.addr) t)
              (λ ip u h. ap (λ x. x.g_ctx) h ∙ same)
              (λ e u h. apart-Linked ctx u apart (ap (λ x. x.g_ctx) h ∙ same)))
            (λ ip u same. open-Linked ctx peer ip u same apart))

  pub connect-Linked :
      (addr : Option SockAddr) (addrlen : ℕ)
      → Keeps Linked (ec801e_sock_connect (ec801e_modem board kernel) addr addrlen)
  unfolding ec801e_sock_connect
  connect-Linked addr addrlen = Keeps-Ends (λ s h. with_state-Ends _ (
      raise_if-Ends (not s.g_ctx.allocated) einval (λ closed. h)
        (λ live.
          bind-Ends
            (weaken-Ends (or_einval-Ends (check_addr addr addrlen) s) (λ peer t e. e)
              (λ x t e. subst Linked (sym e) h))
            (λ peer t e.
              subst
                (λ u.
                  Ends (λ _ t. Linked t) (λ _ t. Linked t)
                    (if s.g_ctx.connected
                      then pure tt
                      else connect_peer (ec801e_modem board kernel) s.g_ctx peer)
                    u)
                (sym e)
                (if-Ends s.g_ctx.connected (λ already. pure-Ends h)
                  (λ apart. connect_peer-Linked s.g_ctx peer s refl apart))))))
