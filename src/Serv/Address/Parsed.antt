-- ===== src/Serv/Address/Parsed.antt =====
-- What trimming and reading an address of src/serv_addr.c gives.
use esp32s3tinyepaper.Base.{
  ℕ, zero, suc, ◌+◌, ◌≤◌, ◌<◌, ◌≡◌, refl, ap, sym, true, false, List, [], ◌∷◌, ◌++◌, Option, none,
  some, ltb, ◌==◌, if◌then◌else◌, length, take, drop, get_or, All, arith, inl, inr, Bool-cases,
  Option-cases, length-take, take-append-drop,
}
use esp32s3tinyepaper.Base.Int.{ℤ, pos, negsuc, pos_part, ◌≤ℤ◌}
use esp32s3tinyepaper.Serv.Address.{
  is_line_end, trim_loop, trim_line_end, strrchr, strtol, split_host_port, parse_host_port,
}

-- The result is the text without the line ends at its end: what is cut off consists of line ends,
-- and what is kept does not end in one.
abbrev pub Trimmed : List ℕ → List ℕ → Type 0
Trimmed s t =
    (cut : List ℕ) × (s ≡ t ++ cut)
    × All (λ c. is_line_end c ≡ true) cut
    × ((n : ℕ) → length t ≡ suc n → is_line_end (get_or t n 0) ≡ false)

trim_loop-Trimmed :
    (s : List ℕ) (n : ℕ)
    → n ≤ length s
    → All (λ c. is_line_end c ≡ true) (drop n s)
    → Trimmed s (trim_loop s n)
unfolding trim_loop
trim_loop-Trimmed s zero h cut = (s, refl, cut, λ n e. absurd (omega arith))
trim_loop-Trimmed s (suc n) h cut = elim (Bool-cases (is_line_end (get_or s n 0))) [
  | inl ends ↦ rw ends (trim_loop-Trimmed s n (omega arith) (one_more s n h ends cut))
  | inr stays ↦ rw stays (
    drop (suc n) s,
    sym (take-append-drop (suc n) s),
    cut,
    λ m e.
        let same : m ≡ n = omega (arith, length-take (suc n) s) in
        rw (same, get_or-take s n h) stays,
  )
]
  where
    one_more :
        (s : List ℕ) (n : ℕ)
        → suc n ≤ length s
        → is_line_end (get_or s n 0) ≡ true
        → All (λ c. is_line_end c ≡ true) (drop (suc n) s)
        → All (λ c. is_line_end c ≡ true) (drop n s)
    one_more [] n h e a = elim h [ ]
    one_more (x ∷ s) zero h e a = (e, a)
    one_more (x ∷ s) (suc n) h e a = one_more s n (omega arith) e a

    get_or-take :
        (s : List ℕ) (n : ℕ) → suc n ≤ length s → get_or (take (suc n) s) n 0 ≡ get_or s n 0
    get_or-take [] n h = elim h [ ]
    get_or-take (x ∷ s) zero h = refl
    get_or-take (x ∷ s) (suc n) h = get_or-take s n (omega arith)

-- Trimming cuts off the line ends at the end of a text, all of them and nothing else.
pub trim_line_end-Trimmed : (s : List ℕ) → Trimmed s (trim_line_end s)
unfolding trim_line_end
trim_line_end-Trimmed s = trim_loop-Trimmed s (length s) (omega arith) (all_dropped s)
  where
    all_dropped : (s : List ℕ) → All (λ c. is_line_end c ≡ true) (drop (length s) s)
    all_dropped [] = tt
    all_dropped (x ∷ s) = all_dropped s

-- `strrchr` finds the byte, and splits the text there.
strrchr_splits :
    (c : ℕ) (s : List ℕ) (i : ℕ)
    → strrchr c s ≡ some i
    → (i < length s) × (s ≡ take i s ++ c ∷ drop (i + 1) s)
unfolding strrchr
strrchr_splits c [] i e = cc
strrchr_splits c (x ∷ s) i e = elim (Option-cases (strrchr c s)) [
  | inl absent ↦ here i absent (rw absent at e)
  | inr (j, later) ↦ beyond i j (strrchr_splits c s j later) (rw later at e)
]
  where
    here :
        (i : ℕ)
        → strrchr c s ≡ none
        → (if x == c then some 0 else none) ≡ some i
        → (i < suc (length s)) × (x ∷ s ≡ take i (x ∷ s) ++ c ∷ drop (i + 1) (x ∷ s))
    here i absent e =
        let at : (i ≡ 0) × (x ≡ c) = ground arith in rw (at.0, at.1) (omega arith, refl)

    beyond :
        (i j : ℕ)
        → (j < length s) × (s ≡ take j s ++ c ∷ drop (j + 1) s)
        → some (j + 1) ≡ some i
        → (i < suc (length s)) × (x ∷ s ≡ take i (x ∷ s) ++ c ∷ drop (i + 1) (x ∷ s))
    beyond i j h e =
        let next : i ≡ suc j = ground arith in
        let add : suc j + 1 ≡ suc (j + 1) = omega arith in
        rw (next, add) (omega (arith, h.0), ap (λ l. x ∷ l) h.1)

-- What holds of an address that is accepted.
pub record IsAddress (input : List ℕ) (host_len : ℕ) (host : List ℕ) (port : ℕ) : Type 0 where
  pub port_str : List ℕ
  pub splits : input ≡ host ++ b':' ∷ port_str
  pub host_some : 0 < length host
  pub host_fits : length host < host_len
  pub port_some : 0 < length port_str
  pub port_fits : length port_str < 8
  pub value : strtol port_str ≡ pos port
  pub port_low : 1 ≤ port
  pub port_high : port ≤ 65535

split_host_port-IsAddress :
    (input : List ℕ) (host_len colon : ℕ) (host : List ℕ) (port : ℕ)
    → colon < length input
    → input ≡ take colon input ++ b':' ∷ drop (colon + 1) input
    → split_host_port input host_len colon ≡ some (host, port)
    → IsAddress input host_len host port
unfolding split_host_port
split_host_port-IsAddress input host_len colon host port inside splits e =
    let parts : (host ≡ take colon input)
        × (pos 1 ≤ℤ strtol (drop (colon + 1) input))
        × (strtol (drop (colon + 1) input) ≤ℤ pos 65535)
        × (port ≡ pos_part (strtol (drop (colon + 1) input)))
        × (0 < colon)
        × (colon < host_len)
        × (0 < length (drop (colon + 1) input))
        × (length (drop (colon + 1) input) < 8) =
      ground arith in
    record {
      port_str = drop (colon + 1) input;
      splits = rw parts.0 splits;
      host_some = rw parts.0 (omega (arith, length-take colon input));
      host_fits = rw parts.0 (omega (arith, length-take colon input));
      port_some = parts.6;
      port_fits = parts.7;
      value = rw parts.3 (pos_of (strtol (drop (colon + 1) input)) parts.1);
      port_low = rw parts.3 (at_least (strtol (drop (colon + 1) input)) parts.1);
      port_high = rw parts.3 (at_most (strtol (drop (colon + 1) input)) parts.2);
    }
  where
    pos_of : (z : ℤ) → pos 1 ≤ℤ z → z ≡ pos (pos_part z)
    pos_of (pos n) h = refl
    pos_of (negsuc n) h = absurd (omega arith)

    at_least : (z : ℤ) → pos 1 ≤ℤ z → 1 ≤ pos_part z
    at_least (pos n) h = omega arith
    at_least (negsuc n) h = absurd (omega arith)

    at_most : (z : ℤ) → z ≤ℤ pos 65535 → pos_part z ≤ 65535
    at_most (pos n) h = omega arith
    at_most (negsuc n) h = omega arith

-- An accepted address is a host that is not empty and fits its buffer, the last colon of the text, and
-- one to seven characters that `strtol` reads as a port from 1 to 65535, which is the port returned.
pub parse_host_port-IsAddress :
    (input : List ℕ) (host_len : ℕ) {host : List ℕ} {port : ℕ}
    → parse_host_port input host_len ≡ some (host, port)
    → IsAddress input host_len host port
unfolding parse_host_port
parse_host_port-IsAddress input host_len {host} {port} e = elim (Bool-cases (ltb host_len 2)) [
  | inl short ↦ absurd (no_result (rw short at e))
  | inr enough ↦ elim (Option-cases (strrchr b':' input)) [
    | inl none_such ↦ absurd (no_result (rw (enough, none_such) at e))
    | inr (colon, found_at) ↦
        let at = strrchr_splits b':' input colon found_at in
        split_host_port-IsAddress input host_len colon host port at.0 at.1
          (rw (enough, found_at) at e)
  ]
]
  where
    no_result : ◌≡◌ {A = Option (List ℕ × ℕ)} none (some (host, port)) → ⊥
    no_result e = cc
