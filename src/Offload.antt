-- ===== src/Offload.antt =====
-- Zephyr's socket API on top of the EC801E modem: drivers/ec801e/ec801e_socket_offload.c. There is
-- one socket, `g_ctx`. The modem's own calls, of drivers/ec801e/ec801e.c, and Zephyr's are a parameter.
pub mod Dns
pub mod Options
pub mod Socket
pub mod Kept
pub mod Steps
use esp32s3tinyepaper.Base.{ℕ, zero, suc, Bool, false, List, [], Option}
use esp32s3tinyepaper.Base.Int.{ℤ, pos, negsuc}
use esp32s3tinyepaper.Base.Result.{Result, ok, err, Action}

-- A `k_timeout_t`.
pub data Timeout : Type 0 where
  forever : Timeout
  usec : ℕ → Timeout

-- A `struct net_sockaddr_in`.
pub record SockAddr : Type 0 where
  pub family : ℕ
  pub port : ℕ
  pub addr : ℕ

pub record Ctx : Type 0 where
  pub fd : ℤ
  pub protocol : ℕ
  pub allocated : Bool
  pub connected : Bool
  pub use_tls : Bool
  pub peer : SockAddr
  pub recv_timeout : Timeout
  pub send_timeout : Timeout
  pub tls_peer_verify : ℤ
  pub tls_hostname : List ℕ

-- The modem's calls, on a state `M`, and the kernel's conversions.
pub record Modem (M : Type 0) : Type 0 where
  pub reserve_fd : M → Result ℕ × M
  pub stack_init : M → Result (Unit {0}) × M
  pub open_tcp : List ℕ → ℕ → M → Result (Unit {0}) × M
  pub open_ssl : List ℕ → ℕ → M → Result (Unit {0}) × M
  pub send : List ℕ → M → Result ℕ × M
  pub recv : ℕ → ℤ → M → Result (List ℕ) × M
  pub close : M → Result (Unit {0}) × M
  pub resolve_ipv4 : List ℕ → M → Result (List ℕ) × M
  pub ntop : ℕ → Option (List ℕ)
  pub pton : List ℕ → Option ℕ
  pub ticks_to_ms_floor32 : Timeout → ℤ

-- The part of the result of a name lookup that the next one overwrites.
pub record DnsResult : Type 0 where
  pub canonname : List ℕ
  pub ai_addr : SockAddr

pub record Offload (M : Type 0) : Type 0 where
  pub g_ctx : Ctx
  pub g_dns_result : DnsResult
  pub g_offload_registered : Bool
  pub modem : M

-- Numbers of Zephyr's socket API.
abbrev pub net_af_inet : ℕ
net_af_inet = 1

abbrev pub net_sock_stream : ℕ
net_sock_stream = 1

abbrev pub net_ipproto_tcp : ℕ
net_ipproto_tcp = 6

abbrev pub net_ipproto_tls_1_0 : ℕ
net_ipproto_tls_1_0 = 256

abbrev pub net_ipproto_tls_1_3 : ℕ
net_ipproto_tls_1_3 = 259

abbrev pub no_addr : SockAddr
no_addr = record { family = 0; port = 0; addr = 0 }

module _ {M : Type 0} where
  unfoldable pub with_ctx : (Ctx → Ctx) → Offload M → Offload M
  with_ctx f s = record s { g_ctx = f s.g_ctx }

  -- A call of the modem's.
  unfoldable pub on_modem : {A : Type 0} → Action M A → Action (Offload M) A
  on_modem m s = let (r, n) = m s.modem in (r, record s { modem = n })
