-- ===== src/Link/Socket/Streams.antt =====
-- The bytes that `send_all` and `recv_all` of src/bitproto/socket_utls.c move.
use esp32s3tinyepaper.Base.{
  ℕ, zero, suc, ◌+◌, ◌-◌, ◌≤◌, ◌≡◌, refl, ap, ◌∙◌, sym, Bool, true, false, ◌&&◌, ltb, List, [], ◌∷◌,
  ◌++◌, ◌==◌, if◌then◌else◌, take, drop, length, length-append, take-append-drop, arith, ==→eq,
}
use mathlib.Core.List.{append_assoc, append-nil}
use esp32s3tinyepaper.Base.Result.{Result, ok, err, Errno, eio, Action, pure}
use esp32s3tinyepaper.Base.Result.Ends.{
  Ended, Ends, weaken-Ends, if-Ends, pure-Ends, raise-Ends, attempt-Ends, bind-Ends,
}
use esp32s3tinyepaper.Link.Socket.{
  Tcp, is_eagain, retry, after_send, send_loop, send_all, after_recv, recv_loop, recv_all,
  io_rounds,
}

no_bytes : (l : List ℕ) → (length l == 0) ≡ true → l ≡ []
no_bytes [] e = refl
no_bytes (b ∷ l) e = absurd (omega (arith, ==→eq (length (b ∷ l)) 0 e))

-- What the socket has passed on to the peer and what it will give out, as a TCP stream: `zsock_send`
-- passes on the first bytes of the buffer, as many as it returns, and `zsock_recv` gives the next
-- ones, no more than it was asked for. A call that fails moves nothing.
pub record Streams {N : Type 0} (tcp : Tcp N) (sock : ℕ) (passed coming : N → List ℕ) : Type 0 where
  pub send_passed :
      (buf : List ℕ) (n : N)
      → passed (tcp.send sock buf n).1
        ≡ passed n
          ++ elim (tcp.send sock buf n).0 as (λ _. List ℕ) [ ok k ↦ take k buf | err e ↦ [] ]
  pub recv_coming :
      (len : ℕ) (n : N)
      → coming n
        ≡ elim (tcp.recv sock len n).0 as (λ _. List ℕ) [ ok bytes ↦ bytes | err e ↦ [] ]
          ++ coming (tcp.recv sock len n).1
  pub recv_fits :
      (len : ℕ) (n : N) (bytes : List ℕ) → (tcp.recv sock len n).0 ≡ ok bytes → length bytes ≤ len
  pub recv_passed : (len : ℕ) (n : N) → passed (tcp.recv sock len n).1 ≡ passed n
  pub sleep_passed : (ms : ℕ) (n : N) → passed (tcp.sleep ms n) ≡ passed n
  pub sleep_coming : (ms : ℕ) (n : N) → coming (tcp.sleep ms n) ≡ coming n

retry-Ends :
    {N A : Type 0} (tcp : Tcp N) {P : A → N → Type 0} {Q : Errno → N → Type 0} {again : Action N A}
    (deadline : ℕ) (e : Errno) {n : N}
    → Ends P Q again (tcp.sleep 100 n)
    → Q eio n
    → Ends P Q (retry tcp again deadline e) n
unfolding retry
retry-Ends {N} {A} tcp {P} {Q} {again} deadline e {n} h q = record {
  ended = go (is_eagain e && ltb (tcp.now n) deadline);
}
  where
    go : (b : Bool) → Ended P Q (if b then again (tcp.sleep 100 n) else (err eio, n))
    go true = h.ended
    go false = q

module _ {N : Type 0} (tcp : Tcp N) (sock : ℕ) (passed coming : N → List ℕ)
    (streams : Streams tcp sock passed coming) where
  -- The whole buffer is passed on after `base`, or a first part of it.
  abbrev pub Whole : List ℕ → List ℕ → N → Type 0
  Whole base buf t = passed t ≡ base ++ buf

  abbrev pub Part : List ℕ → List ℕ → N → Type 0
  Part base buf t =
      (sent : List ℕ) × (rest : List ℕ) × (buf ≡ sent ++ rest) × (passed t ≡ base ++ sent)

  abbrev Sends : (List ℕ → Action N (Unit {0})) → Type 0
  Sends again =
      (buf : List ℕ) (n : N)
      → Ends (λ _ t. Whole (passed n) buf t) (λ _ t. Part (passed n) buf t) (again buf) n

  after_send_sends :
      (again : List ℕ → Action N (Unit {0})) (deadline : ℕ) (base buf : List ℕ) (r : Result ℕ)
      (n : N)
      → passed n ≡ base ++ elim r as (λ _. List ℕ) [ ok k ↦ take k buf | err e ↦ [] ]
      → Sends again
      → Ends
          (λ _ t. Whole base buf t)
          (λ _ t. Part base buf t)
          (after_send tcp again deadline buf r)
          n
  unfolding after_send
  after_send_sends again deadline base buf (ok k) n h sends =
      if-Ends (k == 0)
        (λ none. raise-Ends (take k buf, drop k buf, sym (take-append-drop k buf), h))
        (λ some.
          weaken-Ends (sends (drop k buf) n)
            (λ _ t whole.
              whole ∙ joined (drop k buf) ∙ ap (λ l. base ++ l) (take-append-drop k buf))
            (λ _ t (sent, rest, splits, part). (
              take k buf ++ sent,
              rest,
              sym (take-append-drop k buf)
                  ∙ ap (λ l. take k buf ++ l) splits
                  ∙ sym (append_assoc (take k buf) sent rest),
              part ∙ joined sent,
            )))
    where
      joined : (l : List ℕ) → passed n ++ l ≡ base ++ (take k buf ++ l)
      joined l = ap (λ p. p ++ l) h ∙ append_assoc base (take k buf) l
  after_send_sends again deadline base buf (err e) n h sends =
      retry-Ends tcp deadline e
        (weaken-Ends (sends buf (tcp.sleep 100 n)) (λ _ t whole. whole ∙ ap (λ p. p ++ buf) slept)
          (λ _ t (sent, rest, splits, part).
            (sent, rest, splits, part ∙ ap (λ p. p ++ sent) slept)))
        ([], buf, refl, h)
    where
      slept : passed (tcp.sleep 100 n) ≡ base
      slept = streams.sleep_passed 100 n ∙ h ∙ append-nil base

  send_loop_sends : (rounds deadline : ℕ) → Sends (send_loop tcp rounds sock deadline)
  unfolding send_loop
  send_loop_sends zero deadline buf n = raise-Ends ([], buf, refl, sym (append-nil (passed n)))
  send_loop_sends (suc rounds) deadline buf n =
      if-Ends (length buf == 0)
        (λ empty.
          pure-Ends
            (sym (append-nil (passed n)) ∙ ap (λ l. passed n ++ l) (sym (no_bytes buf empty))))
        (λ some. attempt-Ends (after_send tcp (send_loop tcp rounds sock deadline) deadline buf) (
          after_send_sends (send_loop tcp rounds sock deadline) deadline (passed n) buf
            (tcp.send sock buf n).0 (tcp.send sock buf n).1 (streams.send_passed buf n)
            (send_loop_sends rounds deadline)))

  -- When `send_all` returns 0, the socket has passed on the whole buffer, once and in order; when it
  -- fails, a first part of it.
  pub send_all_sends :
      (buf : List ℕ) (n : N)
      → Ends
          (λ _ t. Whole (passed n) buf t)
          (λ _ t. Part (passed n) buf t)
          (send_all tcp sock buf)
          n
  unfolding send_all
  send_all_sends buf n = record {
    ended = (send_loop_sends (io_rounds tcp (length buf)) (tcp.now n + 30000) buf n).ended;
  }

  -- The bytes that were asked for have left the stream, or a first part of them.
  abbrev pub Got : List ℕ → List ℕ → ℕ → List ℕ → N → Type 0
  Got stream before len bytes t =
      (stream ≡ bytes ++ coming t) × (length bytes ≡ len) × (passed t ≡ before)

  abbrev pub Consumed : List ℕ → List ℕ → N → Type 0
  Consumed stream before t = ((bytes : List ℕ) × (stream ≡ bytes ++ coming t)) × (passed t ≡ before)

  abbrev Receives : (ℕ → Action N (List ℕ)) → Type 0
  Receives again =
      (len : ℕ) (n : N)
      → Ends (Got (coming n) (passed n) len) (λ _ t. Consumed (coming n) (passed n) t) (again len) n

  after_recv-Receives :
      (again : ℕ → Action N (List ℕ)) (deadline : ℕ) (stream before : List ℕ) (len : ℕ)
      (r : Result (List ℕ)) (n : N)
      → stream ≡ elim r as (λ _. List ℕ) [ ok bytes ↦ bytes | err e ↦ [] ] ++ coming n
      → passed n ≡ before
      → ((bytes : List ℕ) → r ≡ ok bytes → length bytes ≤ len)
      → Receives again
      → Ends
          (Got stream before len)
          (λ _ t. Consumed stream before t)
          (after_recv tcp again deadline len r)
          n
  unfolding after_recv
  after_recv-Receives again deadline stream before len (ok bytes) n h p fits receives =
      if-Ends (length bytes == 0) (λ closed. raise-Ends ((bytes, h), p))
        (λ some.
          bind-Ends {P = λ rest t. Got stream before len (bytes ++ rest) t}
            {f = λ rest. pure (bytes ++ rest)}
            (weaken-Ends (receives (len - length bytes) n)
              (λ rest t (moved, count, same). (
                h ∙ ap (λ l. bytes ++ l) moved ∙ sym (append_assoc bytes rest (coming t)),
                length-append bytes rest ∙ omega (arith, count, fits bytes refl),
                same ∙ p,
              ))
              (λ _ t ((rest, moved), same). (
                (
                  bytes ++ rest,
                  h ∙ ap (λ l. bytes ++ l) moved ∙ sym (append_assoc bytes rest (coming t)),
                ),
                same ∙ p,
              )))
            (λ rest t got. pure-Ends got))
  after_recv-Receives again deadline stream before len (err e) n h p fits receives =
      retry-Ends tcp deadline e
        (weaken-Ends (receives len (tcp.sleep 100 n))
          (λ bytes t (moved, count, same).
            (h ∙ sym slept ∙ moved, count, same ∙ streams.sleep_passed 100 n ∙ p))
          (λ _ t ((bytes, moved), same).
            ((bytes, h ∙ sym slept ∙ moved), same ∙ streams.sleep_passed 100 n ∙ p)))
        (([], h), p)
    where
      slept : coming (tcp.sleep 100 n) ≡ coming n
      slept = streams.sleep_coming 100 n

  recv_loop-Receives : (rounds deadline : ℕ) → Receives (recv_loop tcp rounds sock deadline)
  unfolding recv_loop
  recv_loop-Receives zero deadline len n = raise-Ends (([], refl), refl)
  recv_loop-Receives (suc rounds) deadline len n =
      if-Ends (len == 0) (λ empty. pure-Ends (refl, sym (==→eq len 0 empty), refl))
        (λ some. attempt-Ends (after_recv tcp (recv_loop tcp rounds sock deadline) deadline len) (
          after_recv-Receives (recv_loop tcp rounds sock deadline) deadline (coming n) (passed n)
            len (tcp.recv sock len n).0 (tcp.recv sock len n).1 (streams.recv_coming len n)
            (streams.recv_passed len n) (streams.recv_fits len n)
            (recv_loop-Receives rounds deadline)))

  -- When `recv_all` returns 0, the buffer holds the next bytes of the stream, as many as it was asked
  -- for, and the stream goes on after them; when it fails, a first part of the stream is gone.
  pub recv_all_receives :
      (len : ℕ) (n : N)
      → Ends
          (Got (coming n) (passed n) len)
          (λ _ t. Consumed (coming n) (passed n) t)
          (recv_all tcp sock len)
          n
  unfolding recv_all
  recv_all_receives len n = record {
    ended = (recv_loop-Receives (io_rounds tcp len) (tcp.now n + 30000) len n).ended;
  }
