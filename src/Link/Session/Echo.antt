-- ===== src/Link/Session/Echo.antt =====
-- What a round of src/drone.c that succeeds has exchanged.
use esp32s3tinyepaper.Base.{
  ℕ, ◌≡◌, refl, sym, subst, Bool, true, false, false≢true, not, ◌||◌, List, [], ◌∷◌, ◌==◌, length,
  arith, tests, ==→eq,
}
use esp32s3tinyepaper.Base.Result.{Result, Errno, ok, err, Action, eio, einval, ebadmsg, ◌>>◌}
use esp32s3tinyepaper.Base.Result.Ends.{Ended, Ends, weaken-Ends, bind-Ends, then-Ends}
use esp32s3tinyepaper.Link.Socket.{Tcp}
use esp32s3tinyepaper.Link.Socket.Streams.{Streams}
use esp32s3tinyepaper.Link.Frame.{HeaderCodec}
use esp32s3tinyepaper.Link.Frame.Carried.{Written, Read, write_frame_sends, read_frame_reads}
use esp32s3tinyepaper.Link.Session.{
  DroneCodec, same_bytes, close_if, or_close, check_reply, exchange,
}

same_bytes-eq : (a b : List ℕ) → length a ≡ length b → same_bytes a b ≡ true → a ≡ b
unfolding same_bytes
same_bytes-eq [] [] h e = refl
same_bytes-eq [] (y ∷ b) h e = absurd (omega arith)
same_bytes-eq (x ∷ a) [] h e = absurd (omega arith)
same_bytes-eq (x ∷ a) (y ∷ b) h e = grind (arith, tests, same_bytes-eq a b)

both : (b c : Bool) → not b || not c ≡ false → (b ≡ true) × (c ≡ true)
both true true e = (refl, refl)
both true false e = absurd (false≢true (sym e))
both false c e = absurd (false≢true (sym e))

is_same : (b : Bool) → not b ≡ false → b ≡ true
is_same true e = refl
is_same false e = sym e

module _ {N : Type 0} (headers : HeaderCodec) (drones : DroneCodec) (tcp : Tcp N) (sock : ℕ)
    (passed coming : N → List ℕ) (streams : Streams tcp sock passed coming) where
  -- The frame of the payload was passed on, and then a frame with the same payload was read, which
  -- decodes to a drone's state.
  pub record Echoed (payload : List ℕ) (n t : N) : Type 0 where
    pub middle : N
    pub sent : Written headers tcp sock passed coming streams payload n middle
    pub reply : Read headers tcp sock passed coming streams 65 middle payload t
    pub size : length payload ≡ 65
    pub decodes : (drones.decode payload).0 ≡ 65

  close_if-Ends :
      {A : Type 0} {P : A → N → Type 0} (b : Bool) (e : Errno) {m : Action N A} {n : N}
      → (b ≡ false → Ends P (λ _ _. Unit {0}) m n)
      → Ends P (λ _ _. Unit {0}) (close_if headers drones tcp sock b e >> m) n
  unfolding close_if
  close_if-Ends true e p = record { ended = tt }
  close_if-Ends false e p = record { ended = (p refl).ended }

  last_close_if-Ends :
      {P : Unit {0} → N → Type 0} (b : Bool) (e : Errno) {n : N}
      → (b ≡ false → P tt n)
      → Ends P (λ _ _. Unit {0}) (close_if headers drones tcp sock b e) n
  unfolding close_if
  last_close_if-Ends true e p = record { ended = tt }
  last_close_if-Ends false e p = record { ended = p refl }

  or_close-Ends :
      {A : Type 0} {P : A → N → Type 0} {m : Action N A} {n : N}
      → Ends P (λ _ _. Unit {0}) m n
      → Ends P (λ _ _. Unit {0}) (or_close headers drones tcp sock m) n
  unfolding or_close
  or_close-Ends {A} {P} {m} {n} h = record { ended = go (m n) h.ended }
    where
      go :
          (r : Result A × N)
          → Ended P (λ _ _. Unit {0}) r
          → Ended P
              (λ _ _. Unit {0})
              (elim r.0 as (λ _. Result A × N) [
                | ok a ↦ (ok a, r.1)
                | err e ↦ (err e, tcp.close sock r.1)
              ])
      go (ok a, t) k = k
      go (err e, t) k = tt

  check_reply_same :
      (payload reply : List ℕ) (n m t : N)
      → length payload ≡ 65
      → Written headers tcp sock passed coming streams payload n m
      → Read headers tcp sock passed coming streams 65 m reply t
      → Ends
          (λ _ u. Echoed payload n u)
          (λ _ _. Unit {0})
          (check_reply headers drones tcp sock payload reply)
          t
  unfolding check_reply
  check_reply_same payload reply n m t size sent read =
      close_if-Ends (not (length reply == length payload) || not (same_bytes reply payload)) eio
        (λ same. last_close_if-Ends (not ((drones.decode reply).0 == 65)) ebadmsg (λ decodes.
          let (long, equal) =
            both (length reply == length payload) (same_bytes reply payload) same in
          let echo : reply ≡ payload =
            same_bytes-eq reply payload (==→eq (length reply) (length payload) long) equal in
          record {
            middle = m;
            sent = sent;
            reply = subst (λ p. Read headers tcp sock passed coming streams 65 m p t) echo read;
            size = size;
            decodes =
                subst (λ p. (drones.decode p).0 ≡ 65) echo
                  (==→eq (drones.decode reply).0 65
                    (is_same ((drones.decode reply).0 == 65) decodes));
          }))

  -- When a round's exchange returns 0, the 65 bytes of the payload were passed on in one frame, and then
  -- a frame with exactly the same payload was read, and it decodes to the full length of a drone's
  -- state.
  pub exchange_echoes :
      (payload : List ℕ) (n : N)
      → Ends
          (λ _ t. Echoed payload n t)
          (λ _ _. Unit {0})
          (exchange headers drones tcp sock payload)
          n
  unfolding exchange
  exchange_echoes payload n = close_if-Ends (not (length payload == 65)) einval (λ size.
      then-Ends
        (or_close-Ends (
          weaken-Ends (write_frame_sends headers tcp sock passed coming streams payload n)
            (λ _ _ h. h) (λ _ _ _. tt)))
        (λ _ m sent.
          bind-Ends (or_close-Ends (read_frame_reads headers tcp sock passed coming streams 65 m))
            (λ reply t read.
              check_reply_same payload reply n m t
                (==→eq (length payload) 65 (is_same (length payload == 65) size)) sent read)))
