-- ===== src/Modem/Offloaded.antt =====
-- The socket of drivers/ec801e/ec801e_socket_offload.c on top of the driver of
-- drivers/ec801e/ec801e.c: the driver's calls are the modem's calls there.
pub mod Opens
pub mod Linked
pub mod Steps
pub mod Tls
use esp32s3tinyepaper.Base.{
  ℕ, ◌≡◌, ◌≢◌, refl, sym, subst, ap, ◌∙◌, ◌⊎◌, inl, inr, Bool, true, false, not, ◌||◌, List, [],
  ◌∷◌, Option, none, some, ◌==◌, length, arith, Bool-cases, leb, if◌then◌else◌,
}
use esp32s3tinyepaper.Base.Int.{ℤ, pos_part}
use esp32s3tinyepaper.Base.Result.{
  Result, Errno, ok, err, einval, enotconn, eisconn, eopnotsupp, eio, etimedout, Action, modify,
  ◌>>=◌, ◌>>◌,
}
use esp32s3tinyepaper.Base.Result.Ends.{
  Ends, weaken-Ends, raise_if-Ends, then-Ends, bind-Ends, done-Ends, with_state-Ends, ends, if-Ends,
  modify-Ends, attempt-Ends, pure-Ends, raise-Ends,
}
use esp32s3tinyepaper.Base.Result.Keeps.{Keeps, Keeps-Ends, Ends-Keeps}
use esp32s3tinyepaper.Offload.{Timeout, SockAddr, Ctx, Offload, with_ctx, on_modem}
use esp32s3tinyepaper.Offload
use esp32s3tinyepaper.Modem.{Board, Uart, Driver, on_uart}
use esp32s3tinyepaper.Modem.Network.{socket_stack_init}
use esp32s3tinyepaper.Modem.Sockets.{
  socket_open_tcp, socket_open_ssl, socket_send, socket_recv, socket_close, resolve_ipv4,
}

-- What Zephyr adds: file descriptors, addresses as text, and time limits in milliseconds.
pub record Kernel (W : Type 0) : Type 0 where
  pub reserve_fd : W → Result ℕ × W
  pub ntop : ℕ → Option (List ℕ)
  pub pton : List ℕ → Option ℕ
  pub ticks_to_ms_floor32 : Timeout → ℤ

-- NET_IPV4_ADDR_LEN, the bytes of `ip` in `ec801e_offload_getaddrinfo`.
abbrev pub dns_ip_len : ℕ
dns_ip_len = 16

module _ {W : Type 0} (board : Board W) (kernel : Kernel W) where
  unfoldable pub reserve : Action (Uart W) ℕ
  reserve s = let (r, w) = kernel.reserve_fd s.world in (r, record s { world = w })

  unfoldable pub ec801e_modem : Offload.Modem (Driver W)
  ec801e_modem = record {
    reserve_fd = on_uart reserve;
    stack_init = socket_stack_init board none;
    open_tcp = socket_open_tcp board;
    open_ssl = λ host port. on_uart (socket_open_ssl board host port);
    send = socket_send board;
    recv = λ len timeout_ms. socket_recv board len (pos_part timeout_ms);
    close = socket_close board;
    resolve_ipv4 = λ host. on_uart (resolve_ipv4 board host dns_ip_len);
    ntop = kernel.ntop;
    pton = kernel.pton;
    ticks_to_ms_floor32 = kernel.ticks_to_ms_floor32;
  }
