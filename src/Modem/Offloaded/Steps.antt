-- ===== src/Modem/Offloaded/Steps.antt =====
-- The states that the socket of drivers/ec801e/ec801e_socket_offload.c and the driver of
-- drivers/ec801e/ec801e.c reach together.
use esp32s3tinyepaper.Base.{
  ℕ, ◌≡◌, refl, sym, ◌∙◌, ap, inl, inr, false, List, Option, none, some, ◌==◌, Bool-cases,
  false≢true,
}
use esp32s3tinyepaper.Base.Result.{Result, ok, err}
use esp32s3tinyepaper.Offload.{Offload, on_modem}
use esp32s3tinyepaper.Offload.Dns.{
  DnsError, check_hints, fill_result, after_resolve, after_stack_init, look_up, look_up_port,
  ec801e_offload_getaddrinfo, ec801e_dns_parse_service_port, zero_ctx, ec801e_socket_offload_init,
}
use esp32s3tinyepaper.Offload.Steps.{
  Step, create, connect, send, recv, close, setsockopt, getaddrinfo, Reachable, boot, after,
  look_up_port_keeps,
}
use esp32s3tinyepaper.Modem.{Board, Driver}
use esp32s3tinyepaper.Modem.Sockets.{resolve_ipv4}
use esp32s3tinyepaper.Modem.Offloaded.{Kernel, dns_ip_len, ec801e_modem}
use esp32s3tinyepaper.Modem.Offloaded.Linked.{
  Linked, on_uart-Still, stack_init-Still, create-Linked, connect-Linked, send-Linked, recv-Linked,
  close-Linked, setsockopt-Linked,
}

module _ {W : Type 0} (board : Board W) (kernel : Kernel W) where
  fill_result_still :
      (node : List ℕ) (port : ℕ) (addr : Option ℕ) (t : Offload (Driver W))
      → (fill_result (ec801e_modem board kernel) node port addr t).1.modem ≡ t.modem
  unfolding fill_result
  fill_result_still node port none t = refl
  fill_result_still node port (some addr) t = refl

  after_resolve_still :
      (node : List ℕ) (port : ℕ) (ip : Result (List ℕ)) (t : Offload (Driver W))
      → (after_resolve (ec801e_modem board kernel) node port ip t).1.modem ≡ t.modem
  unfolding after_resolve
  after_resolve_still node port (err e) t = refl
  after_resolve_still node port (ok ip) t = fill_result_still node port _ t

  after_stack_init_still :
      (node : List ℕ) (port : ℕ) (ready : Result (Unit {0})) (t : Offload (Driver W))
      → (after_stack_init (ec801e_modem board kernel) node port ready t).1.modem.socket_opened
        ≡ t.modem.socket_opened
  unfolding after_stack_init on_modem ec801e_modem
  after_stack_init_still node port (err e) t = refl
  after_stack_init_still node port (ok a) t =
      ap (λ d. d.socket_opened) (after_resolve_still node port _ _)
      ∙ (on_uart-Still (resolve_ipv4 board node dns_ip_len) t.modem.socket_opened).keeps t.modem
          refl

  look_up_still :
      (node : List ℕ) (port : ℕ) (t : Offload (Driver W))
      → (look_up (ec801e_modem board kernel) node port t).1.modem.socket_opened
        ≡ t.modem.socket_opened
  unfolding look_up on_modem ec801e_modem
  look_up_still node port t =
      after_stack_init_still node port _ _
      ∙ (stack_init-Still board none t.modem.socket_opened).keeps t.modem refl

  -- A lookup leaves the driver's flag alone.
  look_up_port_still :
      (node : List ℕ) (port : ℕ) (hints : Option DnsError) (t : Offload (Driver W))
      → (look_up_port (ec801e_modem board kernel) node port hints t).1.modem.socket_opened
        ≡ t.modem.socket_opened
  unfolding look_up_port
  look_up_port_still node port (some e) t = refl
  look_up_port_still node port none t = elim (Bool-cases (port == 65535)) [
    | inl error ↦ rw error refl
    | inr port_found ↦ rw port_found (look_up_still node port t)
  ]

  getaddrinfo-Linked :
      (node : List ℕ) (service : Option (List ℕ)) (hints : Option (ℕ × ℕ)) (s : Offload (Driver W))
      → Linked s
      → Linked (ec801e_offload_getaddrinfo (ec801e_modem board kernel) node service hints s).1
  unfolding ec801e_offload_getaddrinfo
  getaddrinfo-Linked node service hints s h c plain =
      let port = ec801e_dns_parse_service_port service in
      let same = look_up_port_keeps (ec801e_modem board kernel) node port (check_hints hints) s in
      look_up_port_still node port (check_hints hints) s
      ∙ h (ap (λ x. x.connected) (sym same) ∙ c) (ap (λ x. x.use_tls) (sym same) ∙ plain)

  boot-Linked :
      (s : Offload (Driver W))
      → s.g_offload_registered ≡ false
      → Linked (ec801e_socket_offload_init s)
  unfolding ec801e_socket_offload_init zero_ctx
  boot-Linked s first = rw first (λ c plain. absurd (false≢true c))

  Step-Linked :
      {s t : Offload (Driver W)} → Linked s → Step (ec801e_modem board kernel) s t → Linked t
  Step-Linked h (create family type protocol s) =
      (create-Linked board kernel family type protocol).keeps s h
  Step-Linked h (connect addr addrlen s) = (connect-Linked board kernel addr addrlen).keeps s h
  Step-Linked h (send buf flags dst dstlen s) =
      (send-Linked board kernel buf flags dst dstlen).keeps s h
  Step-Linked h (recv len flags srclen s) = (recv-Linked board kernel len flags srclen).keeps s h
  Step-Linked h (close s) = (close-Linked board kernel).keeps s h
  Step-Linked h (setsockopt optval optlen s) =
      (setsockopt-Linked board kernel optval optlen).keeps s h
  Step-Linked h (getaddrinfo node service hints s) = getaddrinfo-Linked node service hints s h

  -- In every state that the socket and the driver below it reach from the start of the system by calls of
  -- the socket API, a socket that is connected without TLS has an open socket of the modem: the driver
  -- does not refuse its sends and receives for want of a connection.
  pub Reachable-Linked :
      {s : Offload (Driver W)} → Reachable (ec801e_modem board kernel) s → Linked s
  Reachable-Linked (boot s first) = boot-Linked s first
  Reachable-Linked (after s t reached step) = Step-Linked (Reachable-Linked reached) step
