-- ===== src/Offload/Kept.antt =====
-- What every operation of drivers/ec801e/ec801e_socket_offload.c keeps of the socket's context.
use esp32s3tinyepaper.Base.{
  ℕ, ◌≤◌, ◌≡◌, refl, sym, Bool, true, false, not, ◌&&◌, List, Option, none, some, min, leb, length,
  take, length-take, arith,
}
use esp32s3tinyepaper.Base.Text.{c_str, length-c_str}
use esp32s3tinyepaper.Base.Result.{emfile, einval, ebadf, enotconn, eopnotsupp, Action, modify}
use esp32s3tinyepaper.Base.Result.Ends.{Ends, with_state-Ends, raise_if-Ends, weaken-Ends}
use esp32s3tinyepaper.Base.Result.Keeps.{
  Keeps, raise_if-Keeps, of_result-Keeps, pure-Keeps, raise-Keeps, attempt-Keeps, if-Keeps,
  bind-Keeps, then-Keeps, Ends-Keeps, Keeps-Ends,
}
use esp32s3tinyepaper.Offload.{Timeout, SockAddr, Ctx, Modem, Offload, with_ctx, on_modem}
use esp32s3tinyepaper.Offload.Socket.{
  fresh_ctx, closed_ctx, check_addr, or_einval, or_isconn, open_socket, connect_peer,
  ec801e_socket_create, ec801e_sock_connect, ec801e_sock_send, ec801e_sock_recv, ec801e_sock_close,
  recv_timeout_ms,
}
use esp32s3tinyepaper.Offload.Options.{
  Timeval, Setting, so_rcvtimeo, so_sndtimeo, tls_hostname_option, tls_peer_verify_option,
  unknown_setting, timeout_of, set_timeout, store_setting, ec801e_sock_setsockopt,
}

-- A connected socket is allocated; TLS is used exactly for the protocols of TLS; the host name fits
-- its buffer.
pub record IsCtx (ctx : Ctx) : Type 0 where
  pub allocated : ctx.connected ≡ true → ctx.allocated ≡ true
  pub tls : ctx.use_tls ≡ (leb 256 ctx.protocol && leb ctx.protocol 259)
  pub hostname : length ctx.tls_hostname ≤ 95

fresh_ctx-IsCtx : (fd protocol : ℕ) (ctx : Ctx) → IsCtx (fresh_ctx fd protocol ctx)
unfolding fresh_ctx
fresh_ctx-IsCtx fd protocol ctx = record {
  allocated = λ e. refl;
  tls = refl;
  hostname = omega arith;
}

closed_ctx-IsCtx : IsCtx closed_ctx
unfolding closed_ctx
closed_ctx-IsCtx = record { allocated = λ e. e; tls = refl; hostname = omega arith }

-- The socket is also allocated.
abbrev IsLive : Ctx → Type 0
IsLive ctx = IsCtx ctx × (ctx.allocated ≡ true)

module _ {M : Type 0} where
  -- An invariant of the context.
  abbrev pub KeepsCtx : {A : Type 0} → (Ctx → Type 0) → Action (Offload M) A → Type 0
  KeepsCtx I m = Keeps (λ s. I s.g_ctx) m

  on_modem-Keeps : {A : Type 0} (I : Ctx → Type 0) (m : Action M A) → KeepsCtx I (on_modem m)
  unfolding on_modem
  on_modem-Keeps I m = record { keeps = λ s h. h }

  with_ctx-Keeps :
      (I : Ctx → Type 0) (f : Ctx → Ctx)
      → ((ctx : Ctx) → I ctx → I (f ctx))
      → KeepsCtx I (modify (with_ctx f))
  unfolding with_ctx
  with_ctx-Keeps I f h = record { keeps = λ s k. h s.g_ctx k }

  or_einval-Keeps : {A : Type 0} {I : Offload M → Type 0} (a : Option A) → Keeps I (or_einval a)
  unfolding or_einval
  or_einval-Keeps none = raise-Keeps einval
  or_einval-Keeps (some a) = pure-Keeps a

  allocated_now : (s : Offload M) → not s.g_ctx.allocated ≡ false → s.g_ctx.allocated ≡ true
  allocated_now s e = go s.g_ctx.allocated e
    where
      go : (b : Bool) → not b ≡ false → b ≡ true
      go true e = refl
      go false e = sym e

  live_is_valid :
      {A : Type 0} {m : Action (Offload M) A} {s : Offload M}
      → KeepsCtx IsLive m
      → IsLive s.g_ctx
      → Ends (λ _ t. IsCtx t.g_ctx) (λ _ t. IsCtx t.g_ctx) m s
  live_is_valid k h = weaken-Ends (Ends-Keeps k h) (λ _ _ p. p.0) (λ _ _ p. p.0)

module _ {M : Type 0} (modem : Modem M) where
  pub create-Keeps :
      (family type protocol : ℕ) → KeepsCtx IsCtx (ec801e_socket_create modem family type protocol)
  unfolding ec801e_socket_create
  create-Keeps family type protocol = Keeps-Ends (λ s h. with_state-Ends _ (
      Ends-Keeps
        (then-Keeps (raise_if-Keeps s.g_ctx.allocated emfile) (
          bind-Keeps (on_modem-Keeps IsCtx modem.reserve_fd) (λ fd.
            then-Keeps
              (with_ctx-Keeps IsCtx (fresh_ctx fd protocol)
                (λ ctx k. fresh_ctx-IsCtx fd protocol ctx))
              (pure-Keeps fd))))
        h))

  connect_peer-Keeps : (ctx : Ctx) (peer : SockAddr) → KeepsCtx IsLive (connect_peer modem ctx peer)
  unfolding connect_peer
  connect_peer-Keeps ctx peer = then-Keeps (on_modem-Keeps IsLive modem.stack_init) (
      bind-Keeps (or_einval-Keeps (modem.ntop peer.addr)) (λ ip.
        bind-Keeps (attempt-Keeps (on_modem-Keeps IsLive (open_socket modem ctx ip peer.port)))
          (λ ret. then-Keeps (of_result-Keeps (or_isconn ret)) (
            with_ctx-Keeps IsLive (λ ctx. record ctx { peer = peer; connected = true })
              (λ c (k, a).
                (record { allocated = λ e. a; tls = k.tls; hostname = k.hostname }, a))))))

  pub connect-Keeps :
      (addr : Option SockAddr) (addrlen : ℕ)
      → KeepsCtx IsCtx (ec801e_sock_connect modem addr addrlen)
  unfolding ec801e_sock_connect
  connect-Keeps addr addrlen = Keeps-Ends (λ s h. with_state-Ends _ (
      raise_if-Ends (not s.g_ctx.allocated) einval (λ e. h)
        (λ live.
          live_is_valid
            (bind-Keeps (or_einval-Keeps (check_addr addr addrlen)) (λ peer.
              if-Keeps s.g_ctx.connected (pure-Keeps tt) (connect_peer-Keeps s.g_ctx peer)))
            (h, allocated_now s live))))

  pub send-Keeps :
      (buf : List ℕ) (flags : ℕ) (dst : Option SockAddr) (dstlen : ℕ)
      → KeepsCtx IsCtx (ec801e_sock_send modem buf flags dst dstlen)
  unfolding ec801e_sock_send
  send-Keeps buf flags dst dstlen = Keeps-Ends (λ s h. with_state-Ends _ (
      Ends-Keeps
        (then-Keeps (raise_if-Keeps _ einval) (
          then-Keeps (raise_if-Keeps _ enotconn)
            (then-Keeps (raise_if-Keeps _ eopnotsupp) (on_modem-Keeps IsCtx (modem.send buf)))))
        h))

  pub recv-Keeps :
      (len flags : ℕ) (srclen : Option ℕ) → KeepsCtx IsCtx (ec801e_sock_recv modem len flags srclen)
  unfolding ec801e_sock_recv
  recv-Keeps len flags srclen = Keeps-Ends (λ s h. with_state-Ends _ (
      Ends-Keeps
        (then-Keeps (raise_if-Keeps _ einval) (
          then-Keeps (raise_if-Keeps _ enotconn) (
            then-Keeps (raise_if-Keeps _ eopnotsupp) (
              bind-Keeps (on_modem-Keeps IsCtx (modem.recv len (recv_timeout_ms modem s.g_ctx)))
                (λ bytes. pure-Keeps _)))))
        h))

  pub close-Keeps : KeepsCtx IsCtx (ec801e_sock_close modem)
  unfolding ec801e_sock_close
  close-Keeps = Keeps-Ends (λ s h. with_state-Ends _ (
      Ends-Keeps
        (then-Keeps (raise_if-Keeps _ ebadf) (
          bind-Keeps
            (attempt-Keeps
              (if-Keeps s.g_ctx.connected (on_modem-Keeps IsCtx modem.close) (pure-Keeps tt)))
            (λ ret.
              then-Keeps (with_ctx-Keeps IsCtx (λ ctx. closed_ctx) (λ ctx k. closed_ctx-IsCtx))
                (of_result-Keeps ret))))
        h))

set_timeout-Keeps :
    {M : Type 0} (tv : Timeval) (optlen : ℕ) (store : Timeout → Ctx → Ctx)
    → ((t : Timeout) (ctx : Ctx) → IsCtx ctx → IsCtx (store t ctx))
    → KeepsCtx {M = M} IsCtx (set_timeout tv optlen store)
unfolding set_timeout
set_timeout-Keeps tv optlen store h = then-Keeps (raise_if-Keeps _ einval) (
    then-Keeps (raise_if-Keeps _ einval)
      (with_ctx-Keeps IsCtx (store (timeout_of tv)) (h (timeout_of tv))))

store_setting-Keeps :
    {M : Type 0} (setting : Setting) (optlen : ℕ)
    → KeepsCtx {M = M} IsCtx (store_setting setting optlen)
unfolding store_setting
store_setting-Keeps (so_rcvtimeo tv) optlen =
    set_timeout-Keeps tv optlen (λ t ctx. record ctx { recv_timeout = t })
      (λ t ctx k. record { allocated = k.allocated; tls = k.tls; hostname = k.hostname })
store_setting-Keeps (so_sndtimeo tv) optlen =
    set_timeout-Keeps tv optlen (λ t ctx. record ctx { send_timeout = t })
      (λ t ctx k. record { allocated = k.allocated; tls = k.tls; hostname = k.hostname })
store_setting-Keeps (tls_hostname_option host) optlen =
    with_ctx-Keeps IsCtx (λ ctx. record ctx { tls_hostname = c_str (take (min optlen 95) host) })
      (λ ctx k. record {
        allocated = k.allocated;
        tls = k.tls;
        hostname =
            omega
              (arith, length-take (min optlen 95) host, length-c_str (take (min optlen 95) host));
      })
store_setting-Keeps (tls_peer_verify_option mode) optlen = then-Keeps (raise_if-Keeps _ einval) (
    with_ctx-Keeps IsCtx (λ ctx. record ctx { tls_peer_verify = mode })
      (λ ctx k. record { allocated = k.allocated; tls = k.tls; hostname = k.hostname }))
store_setting-Keeps unknown_setting optlen = raise-Keeps eopnotsupp

pub setsockopt-Keeps :
    {M : Type 0} (optval : Option Setting) (optlen : ℕ)
    → KeepsCtx {M = M} IsCtx (ec801e_sock_setsockopt optval optlen)
unfolding ec801e_sock_setsockopt
setsockopt-Keeps optval optlen = Keeps-Ends (λ s h. with_state-Ends _ (
    Ends-Keeps
      (then-Keeps (raise_if-Keeps _ ebadf)
        (bind-Keeps (or_einval-Keeps optval) (λ setting. store_setting-Keeps setting optlen)))
      h))
