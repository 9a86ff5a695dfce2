-- ===== src/Link/Socket/Rounds.antt =====
-- The rounds of the loops of src/bitproto/socket_utls.c.
use esp32s3tinyepaper.Base.{
  ℕ, zero, suc, ◌+◌, ◌-◌, ◌*◌, ◌≤◌, ◌<◌, ◌≡◌, refl, ap, List, [], ◌∷◌, ◌++◌, ltb, ◌==◌, length,
  drop, length-drop, arith, ==→ne, ltb→lt, inl, inr, Bool-cases,
}
use esp32s3tinyepaper.Base.Result.{Result, ok, err, Errno, Action}
use esp32s3tinyepaper.Link.Socket.{
  Tcp, is_eagain, retry, io_rounds, after_send, send_loop, send_all, after_recv, recv_loop,
  recv_all,
}

-- The clock never runs back, and `k_sleep` takes at least the time it was given.
pub record IsClock {N : Type 0} (tcp : Tcp N) : Type 0 where
  pub send_forward : (sock : ℕ) (buf : List ℕ) (n : N) → tcp.now n ≤ tcp.now (tcp.send sock buf n).1
  pub recv_forward : (sock len : ℕ) (n : N) → tcp.now n ≤ tcp.now (tcp.recv sock len n).1
  pub sleeps : (ms : ℕ) (n : N) → tcp.now n + ms ≤ tcp.now (tcp.sleep ms n)

module _ {N : Type 0} (tcp : Tcp N) (clock : IsClock tcp) where
  -- Two continuations that agree after 100 ms, where there is time.
  retry_same :
      {A : Type 0} (again once : Action N A) (deadline : ℕ) (e : Errno) (n : N)
      → (tcp.now n < deadline → again (tcp.sleep 100 n) ≡ once (tcp.sleep 100 n))
      → retry tcp again deadline e n ≡ retry tcp once deadline e n
  unfolding retry
  retry_same again once deadline e n same = elim (Bool-cases (is_eagain e)) [
    | inr other ↦ rw other refl
    | inl busy ↦ rw busy (elim (Bool-cases (ltb (tcp.now n) deadline)) [
      | inr late ↦ rw late refl
      | inl early ↦ rw early (same (ltb→lt (tcp.now n) deadline early))
    ])
  ]

  -- Two ways to go on that agree wherever less is left: fewer bytes, or less time.
  abbrev Agree : {A B : Type 0} → ℕ → ℕ → (B → ℕ) → (B → Action N A) → (B → Action N A) → Type 0
  Agree {A} {B} deadline left size again once =
      (w : ℕ) (b : B) (n : N)
      → size b + w < left
      → deadline ≤ tcp.now n + 100 * w
      → again b n ≡ once b n

  module _ {A B : Type 0} (size : B → ℕ) (again once : B → Action N A) (deadline : ℕ) (b : B)
      (e : Errno) (n : N) where
    retry_rounds :
        (w : ℕ)
        → deadline ≤ tcp.now n + 100 * w
        → Agree deadline (size b + w) size again once
        → retry tcp (again b) deadline e n ≡ retry tcp (once b) deadline e n
    retry_rounds zero hw agree =
        retry_same (again b) (once b) deadline e n (λ early. absurd (omega arith))
    retry_rounds (suc w) hw agree =
        retry_same (again b) (once b) deadline e n
          (λ early. agree w b (tcp.sleep 100 n) (omega arith) (omega (arith, clock.sleeps 100 n)))

  after_send_rounds :
      (again once : List ℕ → Action N (Unit {0})) (w deadline : ℕ) (buf : List ℕ) (r : Result ℕ)
      (n : N)
      → 0 < length buf
      → deadline ≤ tcp.now n + 100 * w
      → Agree deadline (length buf + w) length again once
      → after_send tcp again deadline buf r n ≡ after_send tcp once deadline buf r n
  unfolding after_send
  after_send_rounds again once w deadline buf (err e) n some hw agree =
      retry_rounds length again once deadline buf e n w hw agree
  after_send_rounds again once w deadline buf (ok k) n some hw agree = elim (Bool-cases (k == 0)) [
    | inl none_sent ↦ rw none_sent refl
    | inr sent ↦
        rw sent (agree w (drop k buf) n (omega (arith, length-drop k buf, ==→ne k 0 sent)) hw)
  ]

  send_loop_rounds :
      (f g w sock deadline : ℕ) (buf : List ℕ) (n : N)
      → length buf + w ≤ f
      → length buf + w ≤ g
      → deadline ≤ tcp.now n + 100 * w
      → send_loop tcp (suc f) sock deadline buf n ≡ send_loop tcp (suc g) sock deadline buf n
  unfolding send_loop
  send_loop_rounds zero g w sock deadline [] n hf hg hw = refl
  send_loop_rounds zero g w sock deadline (b ∷ buf) n hf hg hw = absurd (omega arith)
  send_loop_rounds (suc f) zero w sock deadline [] n hf hg hw = refl
  send_loop_rounds (suc f) zero w sock deadline (b ∷ buf) n hf hg hw = absurd (omega arith)
  send_loop_rounds (suc f) (suc g) w sock deadline buf n hf hg hw =
      elim (Bool-cases (length buf == 0)) [
        | inl empty ↦ rw empty refl
        | inr some ↦ rw some (
            after_send_rounds (send_loop tcp (suc f) sock deadline)
              (send_loop tcp (suc g) sock deadline) w deadline buf (tcp.send sock buf n).0
              (tcp.send sock buf n).1 (omega (arith, ==→ne (length buf) 0 some))
              (omega (arith, clock.send_forward sock buf n))
              (λ v c m less hv.
                send_loop_rounds f g v sock deadline c m (omega arith) (omega arith) hv))
      ]

  -- The rounds that `send_all` is given are enough: any larger number of rounds gives the same result
  -- and the same calls.
  pub send_all_rounds :
      (extra sock : ℕ) (buf : List ℕ) (n : N)
      → send_all tcp sock buf n
        ≡ send_loop tcp (io_rounds tcp (length buf + extra)) sock (tcp.now n + 30000) buf n
  unfolding send_all
  send_all_rounds extra sock buf n =
      send_loop_rounds (length buf + 300) (length buf + extra + 300) 300 sock (tcp.now n + 30000)
        buf n (omega arith) (omega arith) (omega arith)

  after_recv_rounds :
      (again once : ℕ → Action N (List ℕ)) (w deadline len : ℕ) (r : Result (List ℕ)) (n : N)
      → 0 < len
      → deadline ≤ tcp.now n + 100 * w
      → Agree deadline (len + w) (λ l. l) again once
      → after_recv tcp again deadline len r n ≡ after_recv tcp once deadline len r n
  unfolding after_recv
  after_recv_rounds again once w deadline len (err e) n some hw agree =
      retry_rounds (λ l. l) again once deadline len e n w hw agree
  after_recv_rounds again once w deadline len (ok bytes) n some hw agree =
      elim (Bool-cases (length bytes == 0)) [
        | inl closed ↦ rw closed refl
        | inr got ↦ rw got (
            ap
              (λ r. elim r.0 as (λ _. Result (List ℕ) × N) [
                | ok rest ↦ (ok (bytes ++ rest), r.1)
                | err e ↦ (err e, r.1)
              ])
              (agree w (len - length bytes) n (omega (arith, ==→ne (length bytes) 0 got)) hw))
      ]

  recv_loop_rounds :
      (f g w sock deadline len : ℕ) (n : N)
      → len + w ≤ f
      → len + w ≤ g
      → deadline ≤ tcp.now n + 100 * w
      → recv_loop tcp (suc f) sock deadline len n ≡ recv_loop tcp (suc g) sock deadline len n
  unfolding recv_loop
  recv_loop_rounds zero g w sock deadline zero n hf hg hw = refl
  recv_loop_rounds zero g w sock deadline (suc len) n hf hg hw = absurd (omega arith)
  recv_loop_rounds (suc f) zero w sock deadline zero n hf hg hw = refl
  recv_loop_rounds (suc f) zero w sock deadline (suc len) n hf hg hw = absurd (omega arith)
  recv_loop_rounds (suc f) (suc g) w sock deadline len n hf hg hw = elim (Bool-cases (len == 0)) [
    | inl empty ↦ rw empty refl
    | inr some ↦ rw some (
        after_recv_rounds (recv_loop tcp (suc f) sock deadline)
          (recv_loop tcp (suc g) sock deadline) w deadline len (tcp.recv sock len n).0
          (tcp.recv sock len n).1 (omega (arith, ==→ne len 0 some))
          (omega (arith, clock.recv_forward sock len n))
          (λ v c m less hv.
            recv_loop_rounds f g v sock deadline c m (omega arith) (omega arith) hv))
  ]

  -- The rounds that `recv_all` is given are enough: any larger number of rounds gives the same result
  -- and the same calls.
  pub recv_all_rounds :
      (extra sock len : ℕ) (n : N)
      → recv_all tcp sock len n
        ≡ recv_loop tcp (io_rounds tcp (len + extra)) sock (tcp.now n + 30000) len n
  unfolding recv_all
  recv_all_rounds extra sock len n =
      recv_loop_rounds (len + 300) (len + extra + 300) 300 sock (tcp.now n + 30000) len n
        (omega arith) (omega arith) (omega arith)
