-- ===== src/Offload/Dns.antt =====
-- Name lookup: `ec801e_dns_parse_service_port`, `ec801e_offload_getaddrinfo` and
-- `ec801e_socket_offload_init` of drivers/ec801e/ec801e_socket_offload.c.
pub mod Ports
use esp32s3tinyepaper.Base.{
  ℕ, zero, suc, ◌-◌, Bool, true, false, not, ◌&&◌, ◌||◌, List, [], ◌∷◌, Option, none, some, ◌==◌,
  if◌then◌else◌, length, take,
}
use esp32s3tinyepaper.Base.Int.{ℤ, pos, negsuc, pos_part, ltb_ℤ}
use esp32s3tinyepaper.Base.Result.{Result, ok, err, Action}
use esp32s3tinyepaper.Serv.Address.{is_digit, skip_space, strtol}
use esp32s3tinyepaper.Offload.{
  usec, SockAddr, Ctx, Modem, DnsResult, Offload, net_af_inet, net_sock_stream, net_ipproto_tcp,
  no_addr, on_modem,
}

-- `DNS_EAI_*`.
pub data DnsError : Type 0 where
  eai_fail eai_family eai_socktype eai_service eai_noname : DnsError

-- `*end == '\0'` after `strtol`: white space, a sign, and digits up to the end. With no digit at all
-- `end` is the whole string, which is not empty here.
unfoldable pub all_digits : List ℕ → Bool
all_digits [] = true
all_digits (c ∷ s) = let rest = all_digits s in if is_digit c then rest else false

unfoldable pub drop_sign : List ℕ → List ℕ
drop_sign [] = []
drop_sign (c ∷ s) = if c == b'-' || c == b'+' then s else c ∷ s

unfoldable pub ends_at_terminator : List ℕ → Bool
ends_at_terminator s =
    let digits = drop_sign (skip_space s) in not (length digits == 0) && all_digits digits

abbrev pub uint16_max : ℕ
uint16_max = 65535

-- No service is a NULL pointer.
unfoldable pub ec801e_dns_parse_service_port : Option (List ℕ) → ℕ
ec801e_dns_parse_service_port none = 0
ec801e_dns_parse_service_port (some service) =
    let port = strtol service in
    if length service == 0
    then 0
    else if not (ends_at_terminator service) || ltb_ℤ port (pos 0) || ltb_ℤ (pos 65535) port
    then uint16_max
    else pos_part port

-- The family and the type of `hints`.
unfoldable pub check_hints : Option (ℕ × ℕ) → Option DnsError
check_hints none = none
check_hints (some (family, socktype)) =
    if not (family == 0) && not (family == net_af_inet)
    then some eai_family
    else if not (socktype == 0) && not (socktype == net_sock_stream)
    then some eai_socktype
    else none

-- The bytes of `canonname`.
abbrev pub sizeof_canonname : ℕ
sizeof_canonname = 96

pub data Lookup : Type 0 where
  resolved : DnsResult → Lookup
  refused : DnsError → Lookup

module _ {M : Type 0} (modem : Modem M) where
  -- The static result is filled in, and given out if the address can be read.
  unfoldable pub fill_result : List ℕ → ℕ → Option ℕ → Offload M → Lookup × Offload M
  fill_result node port none s = (
    refused eai_noname,
    record s {
      g_dns_result = record {
        canonname = take (sizeof_canonname - 1) node;
        ai_addr = record { family = net_af_inet; port = port; addr = 0 };
      };
    },
  )
  fill_result node port (some addr) s =
      let result : DnsResult = record {
        canonname = take (sizeof_canonname - 1) node;
        ai_addr = record { family = net_af_inet; port = port; addr = addr };
      } in
      (resolved result, record s { g_dns_result = result })

  -- What follows `ec801e_resolve_ipv4`, and what follows `ec801e_socket_stack_init`.
  unfoldable pub after_resolve : List ℕ → ℕ → Result (List ℕ) → Offload M → Lookup × Offload M
  after_resolve node port (err e) s = (refused eai_noname, s)
  after_resolve node port (ok ip) s = fill_result node port (modem.pton ip) s

  unfoldable pub after_stack_init : List ℕ → ℕ → Result (Unit {0}) → Offload M → Lookup × Offload M
  after_stack_init node port (err e) s = (refused eai_fail, s)
  after_stack_init node port (ok x) s =
      let (ip, asked) = on_modem (modem.resolve_ipv4 node) s in after_resolve node port ip asked

  unfoldable pub look_up : List ℕ → ℕ → Offload M → Lookup × Offload M
  look_up node port s =
      let (ready, started) = on_modem modem.stack_init s in after_stack_init node port ready started

  unfoldable pub look_up_port : List ℕ → ℕ → Option DnsError → Offload M → Lookup × Offload M
  look_up_port node port (some e) s = (refused e, s)
  look_up_port node port none s =
      if port == uint16_max then (refused eai_service, s) else look_up node port s

  unfoldable pub ec801e_offload_getaddrinfo :
      List ℕ → Option (List ℕ) → Option (ℕ × ℕ) → Offload M → Lookup × Offload M
  ec801e_offload_getaddrinfo node service hints =
      look_up_port node (ec801e_dns_parse_service_port service) (check_hints hints)

-- `memset` of the context, and its `fd`.
unfoldable pub zero_ctx : Ctx
zero_ctx = record {
  fd = negsuc 0;
  protocol = 0;
  allocated = false;
  connected = false;
  use_tls = false;
  peer = no_addr;
  recv_timeout = usec 0;
  send_timeout = usec 0;
  tls_peer_verify = pos 0;
  tls_hostname = [];
}

unfoldable pub ec801e_socket_offload_init : {M : Type 0} → Offload M → Offload M
ec801e_socket_offload_init s =
    if s.g_offload_registered then s else record s { g_ctx = zero_ctx; g_offload_registered = true }
