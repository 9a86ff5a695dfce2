-- ===== src/Offload/Steps.antt =====
-- The life of the one socket of drivers/ec801e/ec801e_socket_offload.c, as steps, and what holds in
-- every state that is reached.
use esp32s3tinyepaper.Base.{
  ℕ, ◌≡◌, refl, sym, subst, false, List, Option, none, some, ◌==◌, arith, inl, inr, Bool-cases,
}
use esp32s3tinyepaper.Base.Result.{Result, ok, err}
use esp32s3tinyepaper.Offload.{SockAddr, Modem, Offload, on_modem}
use esp32s3tinyepaper.Offload.Socket.{
  ec801e_socket_create, ec801e_sock_connect, ec801e_sock_send, ec801e_sock_recv, ec801e_sock_close,
}
use esp32s3tinyepaper.Offload.Options.{Setting, ec801e_sock_setsockopt}
use esp32s3tinyepaper.Offload.Dns.{
  DnsError, check_hints, fill_result, after_resolve, after_stack_init, look_up, look_up_port,
  ec801e_offload_getaddrinfo, ec801e_dns_parse_service_port, zero_ctx, ec801e_socket_offload_init,
}
use esp32s3tinyepaper.Offload.Kept.{
  IsCtx, create-Keeps, connect-Keeps, send-Keeps, recv-Keeps, close-Keeps, setsockopt-Keeps,
}

module _ {M : Type 0} (modem : Modem M) where
  -- A call of the socket API, whatever it returns; `read` and `write` are `recv` and `send`, and
  -- `getsockopt` and `getpeername` change nothing.
  pub data Step : Offload M → Offload M → Type 0 where
    create :
        (family type protocol : ℕ) (s : Offload M)
        → Step s (ec801e_socket_create modem family type protocol s).1
    connect :
        (addr : Option SockAddr) (addrlen : ℕ) (s : Offload M)
        → Step s (ec801e_sock_connect modem addr addrlen s).1
    send :
        (buf : List ℕ) (flags : ℕ) (dst : Option SockAddr) (dstlen : ℕ) (s : Offload M)
        → Step s (ec801e_sock_send modem buf flags dst dstlen s).1
    recv :
        (len flags : ℕ) (srclen : Option ℕ) (s : Offload M)
        → Step s (ec801e_sock_recv modem len flags srclen s).1
    close : (s : Offload M) → Step s (ec801e_sock_close modem s).1
    setsockopt :
        (optval : Option Setting) (optlen : ℕ) (s : Offload M)
        → Step s (ec801e_sock_setsockopt optval optlen s).1
    getaddrinfo :
        (node : List ℕ) (service : Option (List ℕ)) (hints : Option (ℕ × ℕ)) (s : Offload M)
        → Step s (ec801e_offload_getaddrinfo modem node service hints s).1

  -- The states after the start of the system: `ec801e_socket_offload_init`, and any calls.
  pub data Reachable : Offload M → Type 0 where
    boot :
        (s : Offload M) → s.g_offload_registered ≡ false → Reachable (ec801e_socket_offload_init s)
    after : (s t : Offload M) → Reachable s → Step s t → Reachable t

  look_up_keeps :
      (node : List ℕ) (port : ℕ) (s : Offload M) → (look_up modem node port s).1.g_ctx ≡ s.g_ctx
  unfolding look_up on_modem
  look_up_keeps node port s =
      started (modem.stack_init s.modem).0 (record s { modem = (modem.stack_init s.modem).1 })
    where
      filled :
          (addr : Option ℕ) (t : Offload M) → (fill_result modem node port addr t).1.g_ctx ≡ t.g_ctx
      filled none t = unfold fill_result in refl
      filled (some addr) t = unfold fill_result in refl

      looked_up :
          (ip : Result (List ℕ)) (t : Offload M)
          → (after_resolve modem node port ip t).1.g_ctx ≡ t.g_ctx
      looked_up (err e) t = unfold after_resolve in refl
      looked_up (ok ip) t = unfold after_resolve in (filled (modem.pton ip) t)

      started :
          (ready : Result (Unit {0})) (t : Offload M)
          → (after_stack_init modem node port ready t).1.g_ctx ≡ t.g_ctx
      started (err e) t = unfold after_stack_init in refl
      started (ok x) t =
          unfold after_stack_init in
          (looked_up (modem.resolve_ipv4 node t.modem).0
            (record t { modem = (modem.resolve_ipv4 node t.modem).1 }))

  -- A lookup leaves the socket alone.
  pub look_up_port_keeps :
      (node : List ℕ) (port : ℕ) (hints : Option DnsError) (s : Offload M)
      → (look_up_port modem node port hints s).1.g_ctx ≡ s.g_ctx
  unfolding look_up_port
  look_up_port_keeps node port (some e) s = refl
  look_up_port_keeps node port none s = elim (Bool-cases (port == 65535)) [
    | inl error ↦ rw error refl
    | inr port_found ↦ rw port_found (look_up_keeps node port s)
  ]

  boot_valid :
      (s : Offload M) → s.g_offload_registered ≡ false → IsCtx (ec801e_socket_offload_init s).g_ctx
  unfolding ec801e_socket_offload_init zero_ctx
  boot_valid s first = rw first (record { allocated = λ e. e; tls = refl; hostname = omega arith })

  Step-IsCtx : {s t : Offload M} → IsCtx s.g_ctx → Step s t → IsCtx t.g_ctx
  unfolding ec801e_offload_getaddrinfo
  Step-IsCtx h (create family type protocol s) = (create-Keeps modem family type protocol).keeps s h
  Step-IsCtx h (connect addr addrlen s) = (connect-Keeps modem addr addrlen).keeps s h
  Step-IsCtx h (send buf flags dst dstlen s) = (send-Keeps modem buf flags dst dstlen).keeps s h
  Step-IsCtx h (recv len flags srclen s) = (recv-Keeps modem len flags srclen).keeps s h
  Step-IsCtx h (close s) = (close-Keeps modem).keeps s h
  Step-IsCtx h (setsockopt optval optlen s) = (setsockopt-Keeps optval optlen).keeps s h
  Step-IsCtx h (getaddrinfo node service hints s) =
      subst IsCtx
        (sym
          (look_up_port_keeps node (ec801e_dns_parse_service_port service) (check_hints hints) s))
        h

  -- In every state that is reached from the start of the system by calls of the socket API, a connected
  -- socket is allocated, TLS is used exactly for the protocols of TLS, and the host name for TLS fits
  -- its 96 bytes with its terminator.
  pub Reachable-IsCtx : {s : Offload M} → Reachable s → IsCtx s.g_ctx
  Reachable-IsCtx (boot s first) = boot_valid s first
  Reachable-IsCtx (after s t reached step) = Step-IsCtx (Reachable-IsCtx reached) step
