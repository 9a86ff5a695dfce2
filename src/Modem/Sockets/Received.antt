-- ===== src/Modem/Sockets/Received.antt =====
-- What `ec801e_socket_recv` of drivers/ec801e/ec801e.c reads out of a reply.
use esp32s3tinyepaper.Base.{
  ℕ, suc, ◌+◌, ◌-◌, ◌^◌, ◌≤◌, ◌<◌, ◌≡◌, refl, sym, subst, ◌∙◌, ap, ◌⊎◌, inl, inr, Bool, true, false,
  not, List, [], ◌∷◌, ◌++◌, Option, none, some, min, ltb, ◌==◌, length, take, drop, All, arith,
  length-append, length-take, length-drop, take-append-drop, take-length_append, drop-length_append,
  Bool-cases, ltb→ge, ==→ne, ==→eq,
}
use mathlib.Core.List.{append_assoc}
use esp32s3tinyepaper.Base.Text.{codes, c_str, strstr, has_prefix}
use esp32s3tinyepaper.Base.Int.{pos}
use esp32s3tinyepaper.Base.Result.{
  Result, Errno, ok, err, einval, enotconn, eio, eagain, ebadmsg, Action, of_result,
}
use esp32s3tinyepaper.Base.Result.Ends.{
  Ends, weaken-Ends, raise_if-Ends, with_state-Ends, then-Ends, bind-Ends, ends,
}
use esp32s3tinyepaper.Serv.Address.{is_digit, digits_value, skip_space}
use esp32s3tinyepaper.Serv.Address.Roundtrip.{
  decimal, length-decimal, AllDigits, decimal-AllDigits, digits_value-decimal,
}
use esp32s3tinyepaper.Modem.{Board, Uart, Driver}
use esp32s3tinyepaper.Modem.Replies.{
  uint_of, contains_any, scan_uint, scan_int, split_sign, span_digits, signed,
}
use esp32s3tinyepaper.Modem.Line.{collect, drain_rx, send_cmd}
use esp32s3tinyepaper.Modem.Kept.{on_uart-Ends}
use esp32s3tinyepaper.Modem.Replies.Found.{IsPart}
use esp32s3tinyepaper.Modem.Sockets.{
  uint, snprint, take_payload, of_count, of_header, parse_qird, recv_on_line, socket_recv,
}

abbrev pub error_markers : List (List ℕ)
error_markers = codes "ERROR" ∷ codes "CME ERROR" ∷ []

-- What is given out: at least one byte, no more than asked for, and a part of the reply.
abbrev pub Taken : ℕ → List ℕ → Result (List ℕ) → Type 0
Taken buf_len raw (ok bytes) = (0 < length bytes) × (length bytes ≤ buf_len) × IsPart bytes raw
Taken buf_len raw (err e) = (e ≡ eio) ⊎ (e ≡ eagain) ⊎ (e ≡ ebadmsg)

take-IsPart : (start n : ℕ) (raw : List ℕ) → IsPart (take n (drop start raw)) raw
take-IsPart start n raw = (
  take start raw,
  drop n (drop start raw),
  sym (
      ap (λ t. take start raw ++ t) (take-append-drop n (drop start raw))
      ∙ take-append-drop start raw),
)

take_payload-Taken :
    (buf_len n : ℕ) (raw : List ℕ) (header : ℕ) (line_end : Option (List ℕ))
    → 0 < buf_len
    → 0 < n
    → Taken buf_len raw (take_payload buf_len n raw header line_end)
unfolding take_payload
take_payload-Taken buf_len n raw header none room some_n = inr (inr refl)
take_payload-Taken buf_len n raw header (some line_end) room some_n =
    elim (Bool-cases (ltb (length raw - (header - length line_end + 2)) n)) [
      | inl short ↦ rw short (inr (inr refl))
      | inr enough ↦ rw enough (
        (bounds enough).0,
        (bounds enough).1,
        take-IsPart (header - length line_end + 2) (min n buf_len) raw,
      )
    ]
  where
    bounds :
        ltb (length raw - (header - length line_end + 2)) n ≡ false
        → (0 < length (take (min n buf_len) (drop (header - length line_end + 2) raw)))
          × (length (take (min n buf_len) (drop (header - length line_end + 2) raw)) ≤ buf_len)
    bounds enough = omega (
      arith,
      ltb→ge _ _ enough,
      length-take (min n buf_len) (drop (header - length line_end + 2) raw),
      length-drop (header - length line_end + 2) raw,
    )

of_count-Taken :
    (buf_len : ℕ) (raw p : List ℕ) (count : Option ℕ)
    → 0 < buf_len
    → Taken buf_len raw (of_count buf_len raw p count)
unfolding of_count
of_count-Taken buf_len raw p none room = inr (inl refl)
of_count-Taken buf_len raw p (some n) room = elim (Bool-cases (n == 0)) [
  | inl nothing ↦ rw nothing (inr (inl refl))
  | inr something ↦ rw something (
      take_payload-Taken buf_len n raw (length (c_str raw)) (strstr p (codes "\r\n")) room
        (ground (arith, ==→ne n 0 something)))
]

of_header-Taken :
    (buf_len : ℕ) (raw : List ℕ) (p : Option (List ℕ))
    → 0 < buf_len
    → Taken buf_len raw (of_header buf_len raw p)
unfolding of_header
of_header-Taken buf_len raw none room = inr (inl refl)
of_header-Taken buf_len raw (some p) room = of_count-Taken buf_len raw p (scan_uint (drop 6 p)) room

pub parse_qird-Taken :
    (buf_len : ℕ) (raw : List ℕ) → 0 < buf_len → Taken buf_len raw (parse_qird buf_len raw)
unfolding parse_qird
parse_qird-Taken buf_len raw room = elim (Bool-cases (contains_any (c_str raw) error_markers)) [
  | inl failed ↦ rw failed (inl refl)
  | inr fine ↦ rw fine (of_header-Taken buf_len raw (strstr (c_str raw) (codes "+QIRD:")) room)
]

-- An action of which nothing is known, where every failure is fine.
any-Ends :
    {S A : Type 0} {Q : Errno → S → Type 0} (m : Action S A) (s : S)
    → ((e : Errno) (t : S) → Q e t)
    → Ends (λ _ _. Unit {0}) Q m s
any-Ends m s q = weaken-Ends (ends m s) (λ a t h. tt) (λ e t h. q e t)

module _ {W : Type 0} (board : Board W) (buf_len timeout_ms : ℕ) (room : 0 < buf_len) where
  collect-Ends :
      (s : Uart W) → Ends (λ raw u. u.rsp_buf ≡ raw) (λ e u. ⊥) (collect board timeout_ms 120) s
  unfolding collect
  collect-Ends s = record { ended = refl }

  Parsed : List ℕ → Uart W → Type 0
  Parsed bytes u = (0 < length bytes) × (length bytes ≤ buf_len) × IsPart bytes u.rsp_buf

  of_result-Parsed :
      (raw : List ℕ) (r : Result (List ℕ)) (u : Uart W)
      → u.rsp_buf ≡ raw
      → Taken buf_len raw r
      → Ends Parsed (λ e u. Unit {0}) (of_result r) u
  unfolding Parsed
  of_result-Parsed raw (ok bytes) u e (some_bytes, bounded, part) = record {
    ended = (some_bytes, bounded, subst (IsPart bytes) (sym e) part);
  }
  of_result-Parsed raw (err x) u e h = record { ended = tt }

  recv_on_line-Parsed :
      (s : Uart W) → Ends Parsed (λ e u. Unit {0}) (recv_on_line board buf_len timeout_ms) s
  unfolding recv_on_line
  recv_on_line-Parsed s = then-Ends (any-Ends (drain_rx board) s (λ e t. tt)) (λ a u h.
      then-Ends
        (any-Ends (send_cmd board (snprint 64 (codes "AT+QIRD=0," ++ uint (min buf_len 1024)))) u
          (λ e t. tt))
        (λ b v k.
          bind-Ends (weaken-Ends (collect-Ends v) (λ raw w e. e) (λ e w never. absurd never))
            (λ raw w e.
              of_result-Parsed raw (parse_qird buf_len raw) w e
                (parse_qird-Taken buf_len raw room))))

-- A receive that succeeds gives at least one byte and at most as many as it was asked for; they are a
-- part of what the modem answered, in order and without a gap, and the socket was open. With an empty
-- buffer nothing changes and the result is -EINVAL, and with room but without an open socket nothing
-- changes and the result is -ENOTCONN; any other failure had room and an open socket.
pub socket_recv-Taken :
    {W : Type 0} (board : Board W) (buf_len timeout_ms : ℕ) (s : Driver W)
    → Ends
        (λ bytes t.
          (s.socket_opened ≡ true)
          × (0 < length bytes)
          × (length bytes ≤ buf_len)
          × IsPart bytes t.uart.rsp_buf)
        (λ e t.
          ((t ≡ s) × (buf_len ≡ 0) × (e ≡ einval))
          ⊎ ((t ≡ s) × (0 < buf_len) × (s.socket_opened ≡ false) × (e ≡ enotconn))
          ⊎ ((s.socket_opened ≡ true) × (0 < buf_len)))
        (socket_recv board buf_len timeout_ms)
        s
unfolding socket_recv Parsed
socket_recv-Taken board buf_len timeout_ms s = with_state-Ends _ (
    raise_if-Ends (buf_len == 0) einval (λ empty. inl (refl, ==→eq buf_len 0 empty, refl))
      (λ room.
        raise_if-Ends (not s.socket_opened) enotconn
          (λ closed. inr (inl (refl, positive room, not_true closed, refl)))
          (λ opened. on_uart-Ends (recv_on_line board buf_len timeout_ms) s (
            weaken-Ends
              (recv_on_line-Parsed board buf_len timeout_ms (ground (arith, ==→ne buf_len 0 room))
                s.uart)
              (λ bytes u h. (not_false opened, h.0, h.1, h.2))
              (λ e u h. inr (inr (not_false opened, positive room)))))))
  where
    not_false : {b : Bool} → not b ≡ false → b ≡ true
    not_false h = ground arith

    not_true : {b : Bool} → not b ≡ true → b ≡ false
    not_true h = ground arith

    positive : {n : ℕ} → (n == 0) ≡ false → 0 < n
    positive {n} h = ground arith

module _ where
  c_str-append : (s t : List ℕ) → All (λ c. (c == 0) ≡ false) s → c_str (s ++ t) ≡ s ++ c_str t
  unfolding c_str
  c_str-append [] t h = refl
  c_str-append (c ∷ s) t h = rw (h.0, c_str-append s t h.1) refl

  digits_not_zero : (s : List ℕ) → AllDigits s → All (λ c. (c == 0) ≡ false) s
  digits_not_zero [] d = tt
  digits_not_zero (c ∷ s) d = (ground (arith, d.0), digits_not_zero s d.1)

  span_digits-append : (s t : List ℕ) → AllDigits s → span_digits (s ++ b'\r' ∷ t) ≡ (s, b'\r' ∷ t)
  unfolding span_digits
  span_digits-append [] t d = refl
  span_digits-append (c ∷ s) t d = rw (span_digits-append s t d.1, d.0) refl

  strstr_line_end :
      (s t : List ℕ)
      → AllDigits s
      → strstr (s ++ b'\r' ∷ b'\n' ∷ t) (codes "\r\n") ≡ some (b'\r' ∷ b'\n' ∷ t)
  unfolding strstr has_prefix
  strstr_line_end [] t d = refl
  strstr_line_end (c ∷ s) t d = ground (arith, strstr_line_end s t d.1, d.0)

  skip_digit : (c : ℕ) (x : List ℕ) → is_digit c ≡ true → skip_space (b' ' ∷ c ∷ x) ≡ c ∷ x
  unfolding skip_space
  skip_digit c x d = ground (arith, d)

  split_digit : (c : ℕ) (x : List ℕ) → is_digit c ≡ true → split_sign (c ∷ x) ≡ (false, c ∷ x)
  unfolding split_sign
  split_digit c x d = ground (arith, d)

  suc_ne : (n : ℕ) → (suc n == 0) ≡ false
  suc_ne n = ground arith

  scan_int_digits :
      (s t : List ℕ)
      → 0 < length s
      → AllDigits s
      → scan_int (b' ' ∷ (s ++ b'\r' ∷ t)) ≡ some (pos (digits_value s 0), b'\r' ∷ t)
  unfolding scan_int signed
  scan_int_digits [] t some_digit d = absurd (omega arith)
  scan_int_digits (c ∷ s) t some_digit d =
      rw (skip_digit c (s ++ b'\r' ∷ t) d.0, split_digit c (s ++ b'\r' ∷ t) d.0)
        (rw (span_digits-append (c ∷ s) t d, suc_ne (length s)) refl)

  scan_uint-decimal :
      (n : ℕ) (t : List ℕ) → n < 2 ^ 32 → scan_uint (b' ' ∷ (decimal 10 n ++ b'\r' ∷ t)) ≡ some n
  unfolding scan_uint uint_of
  scan_uint-decimal n t h =
      rw
        (
          scan_int_digits (decimal 10 n) t (length-decimal 9 n).0 (decimal-AllDigits 10 n),
          digits_value-decimal 10 n (omega arith),
        )
        (ap some (omega arith))

  -- The header of a reply, behind a line end, up to its own line end.
  abbrev pub qird_header : ℕ → List ℕ
  qird_header n = codes "\r\n+QIRD: " ++ (decimal 10 n ++ codes "\r\n")

  -- What the reply starts with from the header on.
  from_header : ℕ → List ℕ → List ℕ
  from_header n t = codes "+QIRD: " ++ (decimal 10 n ++ (codes "\r\n" ++ t))

  header_split : (n : ℕ) (t : List ℕ) → qird_header n ++ t ≡ codes "\r\n" ++ from_header n t
  unfolding from_header
  header_split n t = rw (append_assoc (decimal 10 n) (codes "\r\n") t) refl

  find_header :
      (n : ℕ) (t : List ℕ)
      → strstr (codes "\r\n" ++ from_header n t) (codes "+QIRD:") ≡ some (from_header n t)
  unfolding strstr has_prefix from_header
  find_header n t = refl

  find_line_end :
      (n : ℕ) (t : List ℕ) → strstr (from_header n t) (codes "\r\n") ≡ some (codes "\r\n" ++ t)
  unfolding strstr has_prefix from_header
  find_line_end n t = strstr_line_end (decimal 10 n) t (decimal-AllDigits 10 n)

  All-append : (P : ℕ → Type 0) (s t : List ℕ) → All P s → All P t → All P (s ++ t)
  All-append P [] t p q = q
  All-append P (c ∷ s) t p q = (p.0, All-append P s t p.1 q)

  header_not_zero : (n : ℕ) → All (λ c. (c == 0) ≡ false) (qird_header n)
  header_not_zero n =
      All-append (λ c. (c == 0) ≡ false) (codes "\r\n+QIRD: ") (decimal 10 n ++ codes "\r\n")
        (refl, (refl, (refl, (refl, (refl, (refl, (refl, (refl, (refl, tt)))))))))
        (All-append (λ c. (c == 0) ≡ false) (decimal 10 n) (codes "\r\n")
          (digits_not_zero (decimal 10 n) (decimal-AllDigits 10 n)) (refl, (refl, tt)))

  -- The payload behind a header, when the reply holds it whole.
  payload_at :
      (buf_len : ℕ) (header payload post rest : List ℕ)
      → length payload ≤ buf_len
      → 2 ≤ length header
      → take_payload buf_len
          (length payload)
          (header ++ (payload ++ post))
          (length (header ++ rest))
          (some (codes "\r\n" ++ rest))
        ≡ ok payload
  unfolding take_payload
  payload_at buf_len header payload post rest h two =
      rw (start, drop-length_append header (payload ++ post), enough, count)
        (ap ok (take-length_append payload post))
    where
      start : length (header ++ rest) - suc (suc (length rest)) + 2 ≡ length header
      start = omega (arith, length-append header rest)

      enough : ltb (length (header ++ (payload ++ post)) - length header) (length payload) ≡ false
      enough = ground (arith, length-append header (payload ++ post), length-append payload post)

      count : min (length payload) buf_len ≡ length payload
      count = omega arith

-- A reply with a header, a payload of the length that the header names, and anything behind it, is read
-- back: the payload is given out whole, if it is not empty, fits the buffer, and the reply holds no text
-- of an error.
pub parse_qird-payload :
    (buf_len : ℕ) (payload post : List ℕ)
    → 0 < length payload
    → length payload ≤ buf_len
    → length payload < 2 ^ 32
    → contains_any (c_str (qird_header (length payload) ++ (payload ++ post))) error_markers ≡ false
    → parse_qird buf_len (qird_header (length payload) ++ (payload ++ post)) ≡ ok payload
unfolding parse_qird of_header of_count from_header
parse_qird-payload buf_len payload post some_bytes fits small fine =
    rw
      (
        fine,
        located,
        scan_uint-decimal (length payload) (b'\n' ∷ c_str (payload ++ post)) small,
        not_zero,
        find_line_end (length payload) (c_str (payload ++ post)),
        whole,
      )
      (payload_at buf_len (qird_header (length payload)) payload post (c_str (payload ++ post)) fits
        (omega arith))
  where
    whole :
        c_str (qird_header (length payload) ++ (payload ++ post))
        ≡ qird_header (length payload) ++ c_str (payload ++ post)
    whole =
        c_str-append (qird_header (length payload)) (payload ++ post)
          (header_not_zero (length payload))

    located :
        strstr (c_str (qird_header (length payload) ++ (payload ++ post))) (codes "+QIRD:")
        ≡ some (from_header (length payload) (c_str (payload ++ post)))
    located =
        ap (λ s. strstr s (codes "+QIRD:"))
          (whole ∙ header_split (length payload) (c_str (payload ++ post)))
        ∙ find_header (length payload) (c_str (payload ++ post))

    not_zero : (length payload == 0) ≡ false
    not_zero = ground arith
