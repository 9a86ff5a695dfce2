-- ===== src/Modem/Replies.antt =====
-- What the driver reads out of a reply: `ec801e_contains_any`, `_contains_reboot_marker`,
-- `_qiact_rsp_has_ctx1_active`, `_extract_ipv4`, `_copy_digits` and `_parse_cereg_stat` of
-- drivers/ec801e/ec801e.c, and `sscanf` and `atoi` as they are used there.
pub mod Found
use esp32s3tinyepaper.Base.{
  ℕ, zero, suc, ◌+◌, ◌-◌, ◌*◌, ◌%◌, ◌^◌, Bool, true, false, not, ◌&&◌, ◌||◌, List, [], ◌∷◌, ◌++◌,
  Option, none, some, ltb, leb, ◌==◌, if◌then◌else◌, length, take, drop,
}
use esp32s3tinyepaper.Base.Text.{codes, strstr, contains, has_prefix, after_char}
use esp32s3tinyepaper.Base.Int.{eqb_ℤ, ℤ, pos, negsuc, sub_ℕ, pos_part, neg_part}
use esp32s3tinyepaper.Base.Result.{Result, ok, err, Errno, einval, enoent}
use esp32s3tinyepaper.Serv.Address.{is_digit, skip_space, strtol, digits_value}

-- `ec801e_contains_any`; a marker that is NULL is left out.
unfoldable pub contains_any : List ℕ → List (List ℕ) → Bool
contains_any buf [] = false
contains_any buf (a ∷ markers) = let rest = contains_any buf markers in contains buf a || rest

abbrev pub reboot_markers : List (List ℕ)
reboot_markers = codes "RDY" ∷ codes "^boot.rom" ∷ codes "PB DONE" ∷ []

unfoldable pub contains_reboot_marker : List ℕ → Bool
contains_reboot_marker buf = contains_any buf reboot_markers

-- The digits at the front of a text, and what follows them.
unfoldable pub span_digits : List ℕ → List ℕ × List ℕ
span_digits [] = ([], [])
span_digits (c ∷ s) =
    let (digits, rest) = span_digits s in if is_digit c then (c ∷ digits, rest) else ([], c ∷ s)

-- A sign, for `%d`.
unfoldable pub split_sign : List ℕ → Bool × List ℕ
split_sign [] = (false, [])
split_sign (c ∷ s) =
    if c == b'-' then (true, s) else if c == b'+' then (false, s) else (false, c ∷ s)

unfoldable pub signed : Bool → ℕ → ℤ
signed minus n = if minus then sub_ℕ 0 n else pos n

-- `%d` of `sscanf`: the number and the text behind it, if there is a digit.
unfoldable pub scan_int : List ℕ → Option (ℤ × List ℕ)
scan_int s =
    let (minus, body) = split_sign (skip_space s) in
    let (digits, rest) = span_digits body in
    if length digits == 0 then none else some (signed minus (digits_value digits 0), rest)

-- `%u`, which takes a number with a sign modulo 2 ^ 32.
unfoldable pub uint_of : Option (ℤ × List ℕ) → Option ℕ
uint_of none = none
uint_of (some (n, rest)) = some ((pos_part n + (2 ^ 32 - neg_part n % 2 ^ 32)) % 2 ^ 32)

unfoldable pub scan_uint : List ℕ → Option ℕ
scan_uint s = uint_of (scan_int s)

-- `+QIACT: %d` at every place where the reply names a context; `next` are the bytes to the next one.
unfoldable pub is_ctx1 : List ℕ → Bool
is_ctx1 p = elim (scan_int (skip_space (drop 7 p))) [
  | some (n, rest) ↦ eqb_ℤ n (pos 1)
  | none ↦ false
]

unfoldable pub ctx1_loop : ℕ → Option (List ℕ) → Bool
ctx1_loop fuel none = false
ctx1_loop zero (some p) = false
ctx1_loop (suc fuel) (some p) =
    let later = ctx1_loop fuel (strstr (drop 7 p) (codes "+QIACT:")) in is_ctx1 p || later

-- Every round goes on behind a needle of seven bytes, so the text's length is enough.
unfoldable pub qiact_rsp_has_ctx1_active : List ℕ → Bool
qiact_rsp_has_ctx1_active rsp = ctx1_loop (suc (length rsp)) (strstr rsp (codes "+QIACT:"))

unfoldable pub is_ip_char : ℕ → Bool
is_ip_char c = is_digit c || c == b'.'

-- The inner loop of `ec801e_extract_ipv4`: the digits and dots at the front.
unfoldable pub ip_run : List ℕ → List ℕ
ip_run [] = []
ip_run (c ∷ s) = let rest = ip_run s in if is_ip_char c then c ∷ rest else []

unfoldable pub count_dots : List ℕ → ℕ
count_dots [] = 0
count_dots (c ∷ s) = let rest = count_dots s in if c == b'.' then suc rest else rest

unfoldable pub extract_loop : ℕ → List ℕ → Result (List ℕ)
extract_loop ip_len [] = err enoent
extract_loop ip_len (c ∷ s) =
    let later = extract_loop ip_len s in
    let run = ip_run (c ∷ s) in
    if is_digit c && count_dots run == 3 && ltb (length run) ip_len then ok run else later

unfoldable pub extract_ipv4 : List ℕ → ℕ → Result (List ℕ)
extract_ipv4 text ip_len = if ltb ip_len 8 then err einval else extract_loop ip_len text

-- The text that is written to `dst`, without the zero at its end; `room` is `dst_len - 1 - w`.
unfoldable pub copy_loop : ℕ → List ℕ → List ℕ
copy_loop room [] = []
copy_loop zero (c ∷ s) = []
copy_loop (suc room) (c ∷ s) =
    let rest = copy_loop (if is_digit c then room else suc room) s in
    if is_digit c then c ∷ rest else rest

unfoldable pub copy_digits : ℕ → List ℕ → List ℕ
copy_digits dst_len src = copy_loop (dst_len - 1) src

unfoldable pub after_comma : Option (List ℕ) → Option ℤ
after_comma none = none
after_comma (some p) = elim (after_char p b',') [ some s ↦ some (strtol s) | none ↦ none ]

-- `atoi` is `strtol` here. No number is the error -ENOENT.
unfoldable pub parse_cereg_stat : List ℕ → Option ℤ
parse_cereg_stat rsp = after_comma (strstr rsp (codes "+CEREG:"))
