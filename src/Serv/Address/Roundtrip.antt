-- ===== src/Serv/Address/Roundtrip.antt =====
-- Reading back a written address: src/serv_addr.c, `parse_host_port`.
use esp32s3tinyepaper.Base.{
  ℕ, zero, suc, ◌+◌, ◌-◌, ◌*◌, ◌/◌, ◌%◌, ◌≤◌, ◌<◌, ◌^◌, ◌≡◌, refl, ap, ◌∙◌, true, List, [], ◌∷◌,
  ◌++◌, none, some, ltb, if◌then◌else◌, length, drop, All, arith, tests, inl, inr, Bool-cases,
  length-append, take-length_append,
}
use native.Mathlib.Nat.{pow-suc}
use esp32s3tinyepaper.Base.Int.{pos}
use esp32s3tinyepaper.Serv.Address.{
  strrchr, strtol, split_host_port, parse_host_port, is_digit, digits_value, signed_value,
  skip_space,
}

-- A number below 10 ^ digits in decimal, as `%u` prints it.
unfoldable pub decimal : ℕ → ℕ → List ℕ
decimal zero n = []
decimal (suc digits) n =
    let low = (b'0' + n % 10) ∷ [] in
    let high = decimal digits (n / 10) in if ltb n 10 then low else high ++ low

abbrev pub AllDigits : List ℕ → Type 0
AllDigits s = All (λ c. is_digit c ≡ true) s

AllDigits-append : (s t : List ℕ) → AllDigits s → AllDigits t → AllDigits (s ++ t)
AllDigits-append [] t p q = q
AllDigits-append (c ∷ s) t p q = (p.0, AllDigits-append s t p.1 q)

digits_value-append :
    (s t : List ℕ) (acc : ℕ)
    → AllDigits s
    → digits_value (s ++ t) acc ≡ digits_value t (digits_value s acc)
unfolding digits_value
digits_value-append [] t acc h = refl
digits_value-append (c ∷ s) t acc h = rw h.0 (digits_value-append s t (acc * 10 + (c - b'0')) h.1)

pub decimal-AllDigits : (digits n : ℕ) → AllDigits (decimal digits n)
unfolding decimal
decimal-AllDigits zero n = tt
decimal-AllDigits (suc digits) n = elim (Bool-cases (ltb n 10)) [
  | inl one ↦ rw one (ground arith, tt)
  | inr more ↦ rw more (
      AllDigits-append (decimal digits (n / 10)) _ (decimal-AllDigits digits (n / 10))
        (ground arith, tt))
]

digits_value_one : (n acc : ℕ) → digits_value ((b'0' + n % 10) ∷ []) acc ≡ acc * 10 + n % 10
unfolding digits_value
digits_value_one n acc = ground arith

pub digits_value-decimal : (digits n : ℕ) → n < 10 ^ digits → digits_value (decimal digits n) 0 ≡ n
unfolding decimal
digits_value-decimal zero n h = nothing n h
  where
    nothing : (n : ℕ) → n < 1 → digits_value [] 0 ≡ n
    nothing n h = unfold digits_value in (omega arith)
digits_value-decimal (suc digits) n h = elim (Bool-cases (ltb n 10)) [
  | inl one ↦ rw one (digits_value_one n 0 ∙ omega tests)
  | inr more ↦ rw more (
      digits_value-append (decimal digits (n / 10)) _ 0 (decimal-AllDigits digits (n / 10))
      ∙ digits_value_one n (digits_value (decimal digits (n / 10)) 0)
      ∙ omega (arith, digits_value-decimal digits (n / 10) (omega (arith, pow-suc 10 digits))))
]

pub length-decimal :
    (digits n : ℕ)
    → (1 ≤ length (decimal (suc digits) n)) × (length (decimal (suc digits) n) ≤ suc digits)
unfolding decimal
length-decimal zero n = elim (Bool-cases (ltb n 10)) [
  | inl one ↦ rw one (omega arith)
  | inr more ↦ rw more (omega arith)
]
length-decimal (suc digits) n = elim (Bool-cases (ltb n 10)) [
  | inl one ↦ rw one (omega arith)
  | inr more ↦ rw more (
      omega (
        arith,
        length-append {0} (decimal (suc digits) (n / 10)) ((b'0' + n % 10) ∷ []),
        length-decimal digits (n / 10),
      ))
]

pub strtol_digits : (s : List ℕ) → 0 < length s → AllDigits s → strtol s ≡ pos (digits_value s 0)
unfolding strtol skip_space signed_value
strtol_digits [] h d = elim h [ ]
strtol_digits (c ∷ s) h d = ground (arith, d.0)

strrchr_digits : (s : List ℕ) → AllDigits s → strrchr b':' s ≡ none
unfolding strrchr
strrchr_digits [] d = refl
strrchr_digits (c ∷ s) d = ground (arith, strrchr_digits s d.1, d.0)

strrchr-append :
    (c : ℕ) (s t : List ℕ) (i : ℕ) → strrchr c t ≡ some i → strrchr c (s ++ t) ≡ some (length s + i)
unfolding strrchr
strrchr-append c [] t i e = e ∙ ap some (omega arith)
strrchr-append c (x ∷ s) t i e = rw (strrchr-append c s t i e) (ap some (omega arith))

colon_at :
    (host port_str : List ℕ)
    → AllDigits port_str
    → strrchr b':' (host ++ b':' ∷ port_str) ≡ some (length host)
colon_at host port_str d =
    strrchr-append b':' host (b':' ∷ port_str) 0 (last port_str d) ∙ ap some (omega arith)
  where
    last : (port_str : List ℕ) → AllDigits port_str → strrchr b':' (b':' ∷ port_str) ≡ some 0
    last port_str d = unfold strrchr in rw (strrchr_digits port_str d) refl

drop_past : (host port_str : List ℕ) → drop (length host + 1) (host ++ b':' ∷ port_str) ≡ port_str
drop_past [] port_str = refl
drop_past (x ∷ host) port_str =
    let next : suc (length host) + 1 ≡ suc (length host + 1) = omega arith in
    rw next (drop_past host port_str)

-- Writing a host and a port as "host:port" and reading it gives them back, for every host that is not
-- empty and fits its buffer (it may hold colons itself) and every port from 1 to 65535.
pub parse_host_port-decimal :
    (host : List ℕ) (port host_len : ℕ)
    → 0 < length host
    → length host < host_len
    → 1 ≤ port
    → port ≤ 65535
    → parse_host_port (host ++ b':' ∷ decimal 5 port) host_len ≡ some (host, port)
unfolding parse_host_port split_host_port
parse_host_port-decimal host port host_len some_host fits low high =
    let digits = decimal-AllDigits 5 port in
    let size = length-decimal 4 port in
    let value : strtol (decimal 5 port) ≡ pos port =
      strtol_digits (decimal 5 port) (omega arith) digits
      ∙ ap pos (digits_value-decimal 5 port (omega arith)) in
    rw
      (
        colon_at host (decimal 5 port) digits,
        drop_past host (decimal 5 port),
        take-length_append host (b':' ∷ decimal 5 port),
        value,
      )
      (ground arith)
