-- ===== src/Tests/Modem.antt =====
-- The theorems on the modem's socket at concrete inputs.
use esp32s3tinyepaper.Base.{
  ℕ, suc, ◌-◌, ◌≡◌, refl, true, false, [], ◌∷◌, none, some, ◌==◌, if◌then◌else◌, length, arith,
}
use esp32s3tinyepaper.Base.Int.{pos}
use esp32s3tinyepaper.Base.Result.{ok}
use esp32s3tinyepaper.Offload.Kept.{IsCtx}
use esp32s3tinyepaper.Offload.Steps.{boot, after, create, Reachable-IsCtx}
use esp32s3tinyepaper.Serv.Address.Roundtrip.{decimal}
use esp32s3tinyepaper.Offload.{Modem, Offload, usec, no_addr}
use esp32s3tinyepaper.Offload.Socket.{ec801e_socket_create}
use esp32s3tinyepaper.Offload.Dns.{
  ec801e_socket_offload_init, refused, eai_service, check_hints, look_up,
  ec801e_offload_getaddrinfo,
}
use esp32s3tinyepaper.Offload.Dns.Ports.{getaddrinfo-decimal}

-- A modem whose every call succeeds.
abbrev modem : Modem ℕ
modem = record {
  reserve_fd = λ m. (ok 3, m);
  stack_init = λ m. (ok tt, m);
  open_tcp = λ ip port m. (ok tt, suc m);
  open_ssl = λ ip port m. (ok tt, suc m);
  send = λ bytes m. (ok (length bytes), m);
  recv = λ len ms m. (ok [], m);
  close = λ m. (ok tt, m - 1);
  resolve_ipv4 = λ node m. (ok node, m);
  ntop = λ ip. some [];
  pton = λ text. some 1;
  ticks_to_ms_floor32 = λ t. pos 3000;
}

abbrev connected : Offload ℕ
connected = record {
  g_ctx = record {
    fd = pos 3;
    protocol = 6;
    allocated = true;
    connected = true;
    use_tls = false;
    peer = no_addr;
    recv_timeout = usec 1;
    send_timeout = usec 1;
    tls_peer_verify = pos 0;
    tls_hostname = [];
  };
  g_dns_result = record { canonname = []; ai_addr = no_addr };
  g_offload_registered = true;
  modem = 1;
}

getaddrinfo-decimal_example :
    ec801e_offload_getaddrinfo modem (b'a' ∷ []) (some (decimal 5 65535)) none connected ≡ (
      if 65535 == 65535
      then (refused eai_service, connected)
      else look_up modem (b'a' ∷ []) 65535 connected)
unfolding check_hints
getaddrinfo-decimal_example =
    getaddrinfo-decimal modem (b'a' ∷ []) 65535 none connected (omega arith) refl

abbrev unregistered : Offload ℕ
unregistered = record {
  g_ctx = connected.g_ctx;
  g_dns_result = connected.g_dns_result;
  g_offload_registered = false;
  modem = 0;
}

abbrev booted : Offload ℕ
booted = ec801e_socket_offload_init unregistered

Reachable-IsCtx_example : IsCtx (ec801e_socket_create modem 1 1 258 booted).1.g_ctx
Reachable-IsCtx_example = Reachable-IsCtx modem (
    after booted (ec801e_socket_create modem 1 1 258 booted).1 (boot unregistered refl)
      (create 1 1 258 booted))
