-- ===== src/Offload/Options.antt =====
-- Options of the socket: `ec801e_sock_setsockopt`, `_getsockopt` and `_getpeername` of
-- drivers/ec801e/ec801e_socket_offload.c. An option and its level are one value, with its argument as
-- the caller's bytes hold it; a length that is not the argument's is a number of its own.
use esp32s3tinyepaper.Base.{
  ℕ, ◌+◌, ◌-◌, ◌*◌, min, Bool, not, ◌||◌, List, Option, ltb, ◌==◌, if◌then◌else◌, take,
}
use esp32s3tinyepaper.Base.Text.{c_str}
use esp32s3tinyepaper.Base.Int.{ℤ, pos, pos_part, ltb_ℤ, leb_ℤ}
use esp32s3tinyepaper.Base.Result.{
  einval, enotconn, eopnotsupp, ebadf, Action, pure, raise, raise_if, with_state, modify, ◌>>=◌,
  ◌>>◌,
}
use esp32s3tinyepaper.Offload.{
  Timeout, forever, usec, SockAddr, Ctx, Offload, net_af_inet, net_sock_stream, with_ctx,
}
use esp32s3tinyepaper.Offload.Socket.{sizeof_sockaddr_in, or_einval}

-- A `struct zsock_timeval`.
pub record Timeval : Type 0 where
  pub tv_sec : ℤ
  pub tv_usec : ℤ

-- What `setsockopt` is called for; a level and an option that it does not know are one case.
pub data Setting : Type 0 where
  so_rcvtimeo so_sndtimeo : Timeval → Setting
  tls_hostname_option : List ℕ → Setting
  tls_peer_verify_option : ℤ → Setting
  unknown_setting : Setting

-- What `getsockopt` is asked; a level other than SOL_SOCKET and an unknown option are one case.
pub data Query : Type 0 where
  so_type so_protocol so_domain unknown_query : Query

abbrev pub sizeof_timeval : ℕ
sizeof_timeval = 16

unfoldable pub is_timeval : Timeval → Bool
is_timeval tv =
    not (ltb_ℤ tv.tv_sec (pos 0) || ltb_ℤ tv.tv_usec (pos 0) || leb_ℤ (pos 1000000) tv.tv_usec)

-- The time limit of a `timeval` that was checked: none at all for zero.
unfoldable pub timeout_of : Timeval → Timeout
timeout_of tv =
    let us = pos_part tv.tv_sec * 1000000 + pos_part tv.tv_usec in
    if us == 0 then forever else usec us

-- The bytes of `tls_hostname`.
abbrev pub sizeof_tls_hostname : ℕ
sizeof_tls_hostname = 96

module _ {M : Type 0} where
  unfoldable pub set_timeout : Timeval → ℕ → (Timeout → Ctx → Ctx) → Action (Offload M) (Unit {0})
  set_timeout tv optlen store = do
    raise_if (not (optlen == sizeof_timeval)) einval
    raise_if (not (is_timeval tv)) einval
    modify (with_ctx (store (timeout_of tv)))

  unfoldable pub answer : Query → Ctx → Action (Offload M) ℕ
  answer so_type ctx = pure net_sock_stream
  answer so_protocol ctx = pure ctx.protocol
  answer so_domain ctx = pure net_af_inet
  answer unknown_query ctx = raise eopnotsupp

  -- The host name is the text in its buffer.
  unfoldable pub store_setting : Setting → ℕ → Action (Offload M) (Unit {0})
  store_setting (so_rcvtimeo tv) optlen =
      set_timeout tv optlen (λ t ctx. record ctx { recv_timeout = t })
  store_setting (so_sndtimeo tv) optlen =
      set_timeout tv optlen (λ t ctx. record ctx { send_timeout = t })
  store_setting (tls_hostname_option host) optlen =
      let n = min optlen (sizeof_tls_hostname - 1) in
      modify (with_ctx (λ ctx. record ctx { tls_hostname = c_str (take n host) }))
  store_setting (tls_peer_verify_option mode) optlen =
      raise_if (not (optlen == 4)) einval
      >> modify (with_ctx (λ ctx. record ctx { tls_peer_verify = mode }))
  store_setting unknown_setting optlen = raise eopnotsupp

  -- No setting stands for an argument that is NULL.
  unfoldable pub ec801e_sock_setsockopt : Option Setting → ℕ → Action (Offload M) (Unit {0})
  ec801e_sock_setsockopt optval optlen = with_state (λ s. do
    raise_if (not s.g_ctx.allocated) ebadf
    setting ← or_einval optval
    store_setting setting optlen)

  -- The value, whose size is what `*optlen` is set to. `optlen` is none if a pointer is NULL.
  unfoldable pub ec801e_sock_getsockopt : Query → Option ℕ → Action (Offload M) ℕ
  ec801e_sock_getsockopt option optlen = with_state (λ s. do
    raise_if (not s.g_ctx.allocated) einval
    room ← or_einval optlen
    raise_if (ltb room 4) einval
    answer option s.g_ctx)

  -- How much of the peer's address is copied, and the address. `addrlen` is none if a pointer is NULL.
  unfoldable pub ec801e_sock_getpeername : Option ℕ → Action (Offload M) (ℕ × SockAddr)
  ec801e_sock_getpeername addrlen = with_state (λ s. do
    raise_if (not s.g_ctx.allocated) einval
    room ← or_einval addrlen
    raise_if (not s.g_ctx.connected) enotconn
    pure (min room sizeof_sockaddr_in, s.g_ctx.peer))
