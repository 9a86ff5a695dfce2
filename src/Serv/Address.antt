-- ===== src/Serv/Address.antt =====
-- Addresses of src/serv_addr.c: trimming, and "host:port". src/main_ec801e_hid.c has copies of both
-- functions. A C string is the list of its bytes before the terminator.
pub mod Parsed
pub mod Roundtrip
use esp32s3tinyepaper.Base.{
  ℕ, zero, suc, ◌+◌, ◌-◌, ◌*◌, ◌≤◌, Bool, true, false, ◌&&◌, ◌||◌, List, [], ◌∷◌, Option, none,
  some, ltb, leb, ◌==◌, if◌then◌else◌, length, take, drop, get_or,
}
use esp32s3tinyepaper.Base.Int.{ℤ, pos, pos_part, ◌-ℤ◌, ltb_ℤ, leb_ℤ}

abbrev pub is_line_end : ℕ → Bool
is_line_end c = c == 13 || c == 10

-- The loop over `n`, the length that is kept.
unfoldable pub trim_loop : List ℕ → ℕ → List ℕ
trim_loop s zero = []
trim_loop s (suc n) = if is_line_end (get_or s n 0) then trim_loop s n else take (suc n) s

unfoldable pub trim_line_end : List ℕ → List ℕ
trim_line_end s = trim_loop s (length s)

-- `strrchr`: the last place of a byte.
unfoldable pub strrchr : ℕ → List ℕ → Option ℕ
strrchr c [] = none
strrchr c (x ∷ s) = elim (strrchr c s) [
  | some i ↦ some (i + 1)
  | none ↦ if x == c then some 0 else none
]

-- `strtol(s, NULL, 10)`: white space, a sign, and the digits that follow.
abbrev is_space : ℕ → Bool
is_space c = c == 32 || (leb 9 c && leb c 13)

abbrev pub is_digit : ℕ → Bool
is_digit c = leb b'0' c && leb c b'9'

unfoldable pub skip_space : List ℕ → List ℕ
skip_space [] = []
skip_space (c ∷ s) = if is_space c then skip_space s else c ∷ s

unfoldable pub digits_value : List ℕ → ℕ → ℕ
digits_value [] acc = acc
digits_value (c ∷ s) acc =
    let more = digits_value s (acc * 10 + (c - b'0')) in if is_digit c then more else acc

unfoldable pub signed_value : List ℕ → ℤ
signed_value [] = pos 0
signed_value (c ∷ s) =
    if c == b'-'
    then pos 0 -ℤ pos (digits_value s 0)
    else if c == b'+'
    then pos (digits_value s 0)
    else pos (digits_value (c ∷ s) 0)

unfoldable pub strtol : List ℕ → ℤ
strtol s = signed_value (skip_space s)

-- The checks after the colon is found. `port_str` has eight bytes, its terminator included.
unfoldable pub split_host_port : List ℕ → ℕ → ℕ → Option (List ℕ × ℕ)
split_host_port input host_len colon =
    let host = take colon input in
    let port_str = drop (colon + 1) input in
    let p = strtol port_str in
    if colon == 0 || length port_str == 0
    then none
    else if leb host_len colon
    then none
    else if length port_str == 0 || leb 8 (length port_str)
    then none
    else if leb_ℤ p (pos 0) || ltb_ℤ (pos 65535) p
    then none
    else some (host, pos_part p)

-- The host and the port, or none where the C function returns false. `host_len` is the buffer's size.
unfoldable pub parse_host_port : List ℕ → ℕ → Option (List ℕ × ℕ)
parse_host_port input host_len = if ltb host_len 2 then none else (elim (strrchr b':' input) [
  | none ↦ none
  | some colon ↦ split_host_port input host_len colon
])
