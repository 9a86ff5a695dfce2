-- ===== src/Modem/Replies/Found.antt =====
-- What is read out of a reply: the addresses and digits of drivers/ec801e/ec801e.c.
use esp32s3tinyepaper.Base.{
  ℕ, zero, suc, ◌-◌, ◌≤◌, ◌<◌, ◌≡◌, refl, ◌∙◌, ap, ◌⊎◌, inl, inr, false≢true, Bool, true, false,
  ◌&&◌, List, [], ◌∷◌, ◌++◌, ltb, ◌==◌, if◌then◌else◌, length, take, All, arith, Bool-cases, ltb→lt,
  ltb→ge, lt→ltb, ==→eq,
}
use esp32s3tinyepaper.Base.Result.{Result, ok, err, einval, enoent}
use esp32s3tinyepaper.Serv.Address.{is_digit}
use esp32s3tinyepaper.Modem.Replies.{
  is_ip_char, ip_run, count_dots, extract_loop, extract_ipv4, copy_loop, copy_digits,
}

abbrev pub starts_with_digit : List ℕ → Bool
starts_with_digit [] = false
starts_with_digit (c ∷ s) = is_digit c

-- Digits and three dots, a digit first.
pub record IsAddress (ip : List ℕ) : Type 0 where
  pub chars : All (λ c. is_ip_char c ≡ true) ip
  pub three : count_dots ip ≡ 3
  pub first : starts_with_digit ip ≡ true

-- A part of a text.
abbrev pub IsPart : List ℕ → List ℕ → Type 0
IsPart part text = (pre : List ℕ) × (post : List ℕ) × (text ≡ pre ++ (part ++ post))

ip_run-chars : (s : List ℕ) → All (λ c. is_ip_char c ≡ true) (ip_run s)
unfolding ip_run
ip_run-chars [] = tt
ip_run-chars (c ∷ s) = elim (Bool-cases (is_ip_char c)) [
  | inl char ↦ rw char (char, ip_run-chars s)
  | inr other ↦ rw other tt
]

ip_run_front : (s : List ℕ) → (post : List ℕ) × (s ≡ ip_run s ++ post)
unfolding ip_run
ip_run_front [] = ([], refl)
ip_run_front (c ∷ s) = elim (Bool-cases (is_ip_char c)) [
  | inl char ↦ rw char ((ip_run_front s).0, ap (λ t. c ∷ t) (ip_run_front s).1)
  | inr other ↦ rw other (c ∷ s, refl)
]

ip_run_digit : (c : ℕ) (s : List ℕ) → is_digit c ≡ true → ip_run (c ∷ s) ≡ c ∷ ip_run s
unfolding ip_run is_ip_char
ip_run_digit c s digit = ground arith

module _ (ip_len : ℕ) where
  -- An address that is found is in the text, and fits.
  abbrev pub Found : List ℕ → Result (List ℕ) → Type 0
  Found text (ok ip) = IsAddress ip × (length ip < ip_len) × IsPart ip text
  Found text (err e) = e ≡ enoent

  later_part : (c : ℕ) (s : List ℕ) (r : Result (List ℕ)) → Found s r → Found (c ∷ s) r
  later_part c s (err e) h = h
  later_part c s (ok ip) (address, fits, (pre, post, e)) =
      (address, fits, (c ∷ pre, post, ap (λ t. c ∷ t) e))

  this_one-Found :
      (c : ℕ) (s : List ℕ)
      → is_digit c ≡ true
      → (count_dots (ip_run (c ∷ s)) == 3) ≡ true
      → ltb (length (ip_run (c ∷ s))) ip_len ≡ true
      → Found (c ∷ s) (ok (ip_run (c ∷ s)))
  this_one-Found c s digit three fits = (
    record {
      chars = ip_run-chars (c ∷ s);
      three = ==→eq _ _ three;
      first = rw (ip_run_digit c s digit) digit;
    },
    ltb→lt _ _ fits,
    ([], (ip_run_front (c ∷ s)).0, (ip_run_front (c ∷ s)).1),
  )

  if-Found :
      (b1 b2 b3 : Bool) (text run : List ℕ) (later : Result (List ℕ))
      → (b1 ≡ true → b2 ≡ true → b3 ≡ true → Found text (ok run))
      → Found text later
      → Found text (if b1 && b2 && b3 then ok run else later)
  if-Found true true true text run later h rest = h refl refl refl
  if-Found true true false text run later h rest = rest
  if-Found true false b3 text run later h rest = rest
  if-Found false b2 b3 text run later h rest = rest

  extract_loop-Found : (text : List ℕ) → Found text (extract_loop ip_len text)
  unfolding extract_loop
  extract_loop-Found [] = refl
  extract_loop-Found (c ∷ s) =
      if-Found (is_digit c) (count_dots (ip_run (c ∷ s)) == 3)
        (ltb (length (ip_run (c ∷ s))) ip_len) (c ∷ s) (ip_run (c ∷ s)) (extract_loop ip_len s)
        (this_one-Found c s) (later_part c s (extract_loop ip_len s) (extract_loop-Found s))

  extract_loop_skips :
      (pre text : List ℕ)
      → All (λ c. is_digit c ≡ false) pre
      → extract_loop ip_len (pre ++ text) ≡ extract_loop ip_len text
  unfolding extract_loop
  extract_loop_skips [] text h = refl
  extract_loop_skips (c ∷ pre) text h = rw h.0 (extract_loop_skips pre text h.1)

  ip_run-All :
      (ip post : List ℕ)
      → All (λ c. is_ip_char c ≡ true) ip
      → ip_run post ≡ []
      → ip_run (ip ++ post) ≡ ip
  unfolding ip_run
  ip_run-All [] post h stop = stop
  ip_run-All (c ∷ ip) post h stop = rw (h.0, ip_run-All ip post h.1 stop) refl

  extract_at :
      (ip post : List ℕ)
      → IsAddress ip
      → ip_run post ≡ []
      → length ip < ip_len
      → extract_loop ip_len (ip ++ post) ≡ ok ip
  unfolding extract_loop
  extract_at [] post address stop fits = absurd (false≢true address.first)
  extract_at (c ∷ ip) post address stop fits =
      rw
        (
          address.first,
          ip_run-All (c ∷ ip) post address.chars stop,
          address.three,
          lt→ltb (length (c ∷ ip)) ip_len fits,
        )
        refl

-- The address that `ec801e_extract_ipv4` gives out starts with a digit, is made of digits and exactly
-- three dots, fits its buffer with the terminator, and stands in the reply. A buffer of less than eight
-- bytes is -EINVAL; without an address the result is -ENOENT.
pub extract_ipv4-Found :
    (text : List ℕ) (ip_len : ℕ)
    → ((ip_len < 8) × (extract_ipv4 text ip_len ≡ err einval))
      ⊎ ((8 ≤ ip_len) × Found ip_len text (extract_ipv4 text ip_len))
unfolding extract_ipv4
extract_ipv4-Found text ip_len = elim (Bool-cases (ltb ip_len 8)) [
  | inl short ↦ rw short (inl (ltb→lt ip_len 8 short, refl))
  | inr long ↦ rw long (inr (ltb→ge ip_len 8 long, extract_loop-Found ip_len text))
]

-- An address in a reply is found: behind a text with no digit, and before one that starts with neither a
-- digit nor a dot, if the buffer has room for it and for at least eight bytes.
pub extract_ipv4-finds :
    (pre ip post : List ℕ) (ip_len : ℕ)
    → All (λ c. is_digit c ≡ false) pre
    → IsAddress ip
    → ip_run post ≡ []
    → length ip < ip_len
    → 8 ≤ ip_len
    → extract_ipv4 (pre ++ (ip ++ post)) ip_len ≡ ok ip
unfolding extract_ipv4
extract_ipv4-finds pre ip post ip_len no_digit address stop fits room =
    elim (Bool-cases (ltb ip_len 8)) [
      | inl short ↦ absurd (omega (arith, ltb→lt ip_len 8 short))
      | inr long ↦ rw long (
          extract_loop_skips ip_len pre (ip ++ post) no_digit
          ∙ extract_at ip_len ip post address stop fits)
    ]

-- The digits of a text, in order.
abbrev pub digits_of : List ℕ → List ℕ
digits_of [] = []
digits_of (c ∷ s) = let rest = digits_of s in if is_digit c then c ∷ rest else rest

copy_loop-take : (room : ℕ) (s : List ℕ) → copy_loop room s ≡ take room (digits_of s)
unfolding copy_loop
copy_loop-take zero [] = refl
copy_loop-take (suc room) [] = refl
copy_loop-take zero (c ∷ s) = refl
copy_loop-take (suc room) (c ∷ s) = elim (Bool-cases (is_digit c)) [
  | inl digit ↦ rw (digit, copy_loop-take room s) refl
  | inr other ↦ rw (other, copy_loop-take (suc room) s) refl
]

-- `ec801e_copy_digits` leaves the digits of the text, in order, as many as fit before the terminator.
pub copy_digits-take :
    (dst_len : ℕ) (src : List ℕ) → copy_digits dst_len src ≡ take (dst_len - 1) (digits_of src)
unfolding copy_digits
copy_digits-take dst_len src = copy_loop-take (dst_len - 1) src
