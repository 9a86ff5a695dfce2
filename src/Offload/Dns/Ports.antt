-- ===== src/Offload/Dns/Ports.antt =====
-- Which services `ec801e_offload_getaddrinfo` of drivers/ec801e/ec801e_socket_offload.c looks up.
use esp32s3tinyepaper.Base.{
  ℕ, ◌≤◌, ◌<◌, ◌≡◌, refl, ap, ◌∙◌, true, List, [], ◌∷◌, Option, none, some, ◌==◌, if◌then◌else◌,
  length, arith,
}
use esp32s3tinyepaper.Base.Int.{pos}
use esp32s3tinyepaper.Serv.Address.{skip_space, strtol}
use esp32s3tinyepaper.Serv.Address.Roundtrip.{
  decimal, AllDigits, decimal-AllDigits, digits_value-decimal, length-decimal, strtol_digits,
}
use esp32s3tinyepaper.Offload.{Modem, Offload}
use esp32s3tinyepaper.Offload.Dns.{
  eai_service, refused, all_digits, drop_sign, ends_at_terminator, ec801e_dns_parse_service_port,
  check_hints, look_up, look_up_port, ec801e_offload_getaddrinfo,
}

all_digits-AllDigits : (s : List ℕ) → AllDigits s → all_digits s ≡ true
unfolding all_digits
all_digits-AllDigits [] d = refl
all_digits-AllDigits (c ∷ s) d = rw (d.0, all_digits-AllDigits s d.1) refl

digits_alone : (s : List ℕ) → 0 < length s → AllDigits s → drop_sign (skip_space s) ≡ s
unfolding drop_sign skip_space
digits_alone [] h d = refl
digits_alone (c ∷ s) h d = ground (arith, d.0)

ends_at_terminator-digits : (s : List ℕ) → 0 < length s → AllDigits s → ends_at_terminator s ≡ true
unfolding ends_at_terminator
ends_at_terminator-digits s h d = rw (digits_alone s h d, all_digits-AllDigits s d) (ground arith)

parse_service_port-decimal :
    (port : ℕ) → port ≤ 65535 → ec801e_dns_parse_service_port (some (decimal 5 port)) ≡ port
unfolding ec801e_dns_parse_service_port
parse_service_port-decimal port h =
    let digits = decimal-AllDigits 5 port in
    let size = length-decimal 4 port in
    let value : strtol (decimal 5 port) ≡ pos port =
      strtol_digits (decimal 5 port) (omega arith) digits
      ∙ ap pos (digits_value-decimal 5 port (omega arith)) in
    rw (value, ends_at_terminator-digits (decimal 5 port) (omega arith) digits) (ground arith)

-- A lookup with hints that are accepted and a port from 0 to 65535, in decimal, goes on with that
-- port; but 65535 is what the parser returns for an error, so a lookup of this one port is refused.
pub getaddrinfo-decimal :
    {M : Type 0} (modem : Modem M) (node : List ℕ) (port : ℕ) (hints : Option (ℕ × ℕ))
    (s : Offload M)
    → port ≤ 65535
    → check_hints hints ≡ none
    → ec801e_offload_getaddrinfo modem node (some (decimal 5 port)) hints s
      ≡ (if port == 65535 then (refused eai_service, s) else look_up modem node port s)
unfolding ec801e_offload_getaddrinfo look_up_port
getaddrinfo-decimal modem node port hints s h accepted =
    rw (accepted, parse_service_port-decimal port h) refl
