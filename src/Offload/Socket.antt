-- ===== src/Offload/Socket.antt =====
-- The socket's life: `ec801e_socket_create`, `ec801e_sock_connect`, `_send`, `_recv`, `_read`, `_write`,
-- `_close` and `_ioctl` of drivers/ec801e/ec801e_socket_offload.c. A pointer that may be NULL is an
-- option; the context and the buffers are not NULL. `fail_with(e)` is the error `e`.
pub mod Closing
use esp32s3tinyepaper.Base.{
  ℕ, zero, suc, ◌-◌, min, Bool, true, false, not, ◌&&◌, ◌||◌, List, [], ◌∷◌, Option, none, some,
  ltb, leb, ◌==◌, if◌then◌else◌, length,
}
use esp32s3tinyepaper.Base.Int.{ℤ, pos, negsuc, ◌-ℤ◌, leb_ℤ}
use esp32s3tinyepaper.Base.Result.{
  Result, ok, err, Errno, emfile, einval, enotconn, eopnotsupp, ebadf, eisconn, Action, pure, raise,
  raise_if, with_state, modify, attempt, of_result, ◌>>=◌, ◌>>◌,
}
use esp32s3tinyepaper.Offload.{
  Timeout, forever, usec, SockAddr, Ctx, Modem, Offload, net_af_inet, net_sock_stream,
  net_ipproto_tcp, net_ipproto_tls_1_0, net_ipproto_tls_1_3, no_addr, with_ctx, on_modem,
}

unfoldable pub ec801e_socket_is_supported : ℕ → ℕ → ℕ → Bool
ec801e_socket_is_supported family type protocol =
    if not (family == net_af_inet) || not (type == net_sock_stream)
    then false
    else protocol == 0
      || protocol == net_ipproto_tcp
      || (leb net_ipproto_tls_1_0 protocol && leb protocol net_ipproto_tls_1_3)

-- The context of a socket that was just made.
unfoldable pub fresh_ctx : ℕ → ℕ → Ctx → Ctx
fresh_ctx fd protocol ctx =
    let kept = if protocol == 0 then net_ipproto_tcp else protocol in
    record {
      fd = pos fd;
      protocol = kept;
      allocated = true;
      connected = false;
      use_tls = leb net_ipproto_tls_1_0 kept && leb kept net_ipproto_tls_1_3;
      peer = ctx.peer;
      recv_timeout = usec 3_000_000;
      send_timeout = usec 3_000_000;
      tls_peer_verify = pos 0;
      tls_hostname = [];
    }

-- The context of a socket that was closed.
unfoldable pub closed_ctx : Ctx
closed_ctx = record {
  fd = negsuc 0;
  protocol = net_ipproto_tcp;
  allocated = false;
  connected = false;
  use_tls = false;
  peer = no_addr;
  recv_timeout = usec 3_000_000;
  send_timeout = usec 3_000_000;
  tls_peer_verify = pos 0;
  tls_hostname = [];
}

-- `sizeof(struct net_sockaddr_in)`.
abbrev pub sizeof_sockaddr_in : ℕ
sizeof_sockaddr_in = 8

-- The address, if `ec801e_sock_connect` accepts it.
unfoldable pub check_addr : Option SockAddr → ℕ → Option SockAddr
check_addr none addrlen = none
check_addr (some addr) addrlen =
    if not (addrlen == sizeof_sockaddr_in) || not (addr.family == net_af_inet)
    then none
    else some addr

unfoldable pub or_einval : {S A : Type 0} → Option A → Action S A
or_einval none = raise einval
or_einval (some a) = pure a

-- `if (ret == -EISCONN) ret = 0;`
unfoldable pub or_isconn : Result (Unit {0}) → Result (Unit {0})
or_isconn (err eisconn) = ok tt
or_isconn r = r

-- What was read, and, if the caller asks for it, how much of the peer's address is copied.
pub record Received : Type 0 where
  pub bytes : List ℕ
  pub src : Option (ℕ × SockAddr)

module _ {M : Type 0} (modem : Modem M) where
  unfoldable pub ec801e_socket_create : ℕ → ℕ → ℕ → Action (Offload M) ℕ
  ec801e_socket_create family type protocol = with_state (λ s. do
    raise_if s.g_ctx.allocated emfile
    fd ← on_modem modem.reserve_fd
    modify (with_ctx (fresh_ctx fd protocol))
    pure fd)

  unfoldable pub open_socket : Ctx → List ℕ → ℕ → Action M (Unit {0})
  open_socket ctx ip port =
      let target = if length ctx.tls_hostname == 0 then ip else ctx.tls_hostname in
      if ctx.use_tls then modem.open_ssl target port else modem.open_tcp ip port

  -- The connection of a socket that has none, to an address that was checked.
  unfoldable pub connect_peer : Ctx → SockAddr → Action (Offload M) (Unit {0})
  connect_peer ctx peer = do
    on_modem modem.stack_init
    ip ← or_einval (modem.ntop peer.addr)
    ret ← attempt (on_modem (open_socket ctx ip peer.port))
    of_result (or_isconn ret)
    modify (with_ctx (λ ctx. record ctx { peer = peer; connected = true }))

  unfoldable pub ec801e_sock_connect : Option SockAddr → ℕ → Action (Offload M) (Unit {0})
  ec801e_sock_connect addr addrlen = with_state (λ s. do
    raise_if (not s.g_ctx.allocated) einval
    peer ← or_einval (check_addr addr addrlen)
    (if s.g_ctx.connected then pure tt else connect_peer s.g_ctx peer))

  unfoldable pub ec801e_sock_send : List ℕ → ℕ → Option SockAddr → ℕ → Action (Offload M) ℕ
  ec801e_sock_send buf flags dst dstlen = with_state (λ s. do
    raise_if (not s.g_ctx.allocated || length buf == 0) einval
    raise_if (not s.g_ctx.connected) enotconn
    raise_if (not (flags == 0) || (elim dst [ some a ↦ true | none ↦ false ]) || not (dstlen == 0))
        eopnotsupp
    on_modem (modem.send buf))

  -- A time limit that is not positive is replaced by three seconds.
  unfoldable pub recv_timeout_ms : Ctx → ℤ
  recv_timeout_ms ctx =
      let timeout_ms = modem.ticks_to_ms_floor32 ctx.recv_timeout in
      if leb_ℤ timeout_ms (pos 0) then pos 3000 else timeout_ms

  -- `srclen` is the room for the peer's address, if the caller gives any.
  unfoldable pub ec801e_sock_recv : ℕ → ℕ → Option ℕ → Action (Offload M) Received
  ec801e_sock_recv len flags srclen = with_state (λ s. do
    raise_if (not s.g_ctx.allocated || len == 0) einval
    raise_if (not s.g_ctx.connected) enotconn
    raise_if (not (flags == 0)) eopnotsupp
    bytes ← on_modem (modem.recv len (recv_timeout_ms s.g_ctx))
    pure (record {
      bytes = bytes;
      src = elim srclen [
        | some room ↦ some (min room sizeof_sockaddr_in, s.g_ctx.peer)
        | none ↦ none
      ];
    }))

  unfoldable pub ec801e_sock_read : ℕ → Action (Offload M) Received
  ec801e_sock_read len = ec801e_sock_recv len 0 none

  unfoldable pub ec801e_sock_write : List ℕ → Action (Offload M) ℕ
  ec801e_sock_write buf = ec801e_sock_send buf 0 none 0

  -- The context is reset whatever the modem says.
  unfoldable pub ec801e_sock_close : Action (Offload M) (Unit {0})
  ec801e_sock_close = with_state (λ s. do
    raise_if (not s.g_ctx.allocated) ebadf
    ret ← attempt (if s.g_ctx.connected then on_modem modem.close else pure tt)
    modify (with_ctx (λ ctx. closed_ctx))
    of_result ret)

  -- `set_lock` says whether the request is ZFD_IOCTL_SET_LOCK.
  unfoldable pub ec801e_sock_ioctl : Bool → Action (Offload M) (Unit {0})
  ec801e_sock_ioctl set_lock = if set_lock then pure tt else raise eopnotsupp
