-- ===== src/Link/Frame/Returned.antt =====
-- Writing a frame and reading it: src/bitproto/protocol_utls.c.
use mathlib.Core.List.{append_assoc}
use esp32s3tinyepaper.Base.{
  ℕ, ◌≤◌, ◌≡◌, refl, ap, subst, false≢true, ltb→lt, ◌∙◌, sym, false, List, ◌++◌, ltb, length, take,
  drop, take-length_append, drop-length_append, arith,
}
use esp32s3tinyepaper.Base.Result.{Result, ok, err, eio, ebadmsg, emsgsize, Action}
use esp32s3tinyepaper.Base.Result.Ends.{Ended, Ends, weaken-Ends, raise_if-Ends, bind-Ends}
use esp32s3tinyepaper.Link.Socket.{Tcp}
use esp32s3tinyepaper.Link.Socket.Streams.{Streams, recv_all_receives}
use esp32s3tinyepaper.Link.Frame.{HeaderCodec, frame_header, or_eio, read_payload, read_frame}
use esp32s3tinyepaper.Link.Frame.Carried.{frame}

or_eio-eio :
    {N A : Type 0} {P : A → N → Type 0} {m : Action N A} {n : N}
    → Ends P (λ _ _. Unit {0}) m n
    → Ends P (λ e _. e ≡ eio) (or_eio m) n
unfolding or_eio
or_eio-eio {N} {A} {P} {m} {n} h = record { ended = go (m n) h.ended }
  where
    go :
        (r : Result A × N)
        → Ended P (λ _ _. Unit {0}) r
        → Ended P
            (λ e _. e ≡ eio)
            (elim r.0 as (λ _. Result A × N) [ ok a ↦ (ok a, r.1) | err e ↦ (err eio, r.1) ])
    go (ok a, t) h = h
    go (err e, t) h = refl

append_split : (a c b d : List ℕ) → length a ≡ length c → a ++ b ≡ c ++ d → (a ≡ c) × (b ≡ d)
append_split a c b d same e =
    let left : a ≡ c =
      sym (take-length_append a b)
      ∙ ap (λ l. take (length a) l) e
      ∙ ap (λ n. take n (c ++ d)) same
      ∙ take-length_append c d in
    let right : b ≡ d =
      sym (drop-length_append a b)
      ∙ ap (λ l. drop (length a) l) e
      ∙ ap (λ n. drop n (c ++ d)) same
      ∙ drop-length_append c d in
    (left, right)

module _ {N : Type 0} (codec : HeaderCodec) (tcp : Tcp N) (sock : ℕ) (passed coming : N → List ℕ)
    (streams : Streams tcp sock passed coming) where
  -- The payload of a frame whose header was read, with room for it.
  payload_reads :
      (payload rest : List ℕ) (payload_capacity : ℕ) (t : N)
      → length payload ≤ payload_capacity
      → coming t ≡ payload ++ rest
      → Ends
          (λ reply u. (reply ≡ payload) × (coming u ≡ rest))
          (λ e _. e ≡ eio)
          (read_payload codec tcp sock payload_capacity (4, frame_header (length payload)))
          t
  unfolding read_payload frame_header
  payload_reads payload rest payload_capacity t room stream =
      raise_if-Ends false ebadmsg (λ e. absurd (false≢true e))
        (λ full.
          raise_if-Ends false ebadmsg (λ e. absurd (false≢true e))
            (λ known.
              raise_if-Ends (ltb payload_capacity (length payload)) emsgsize
                (λ long. absurd (omega (arith, ltb→lt payload_capacity (length payload) long)))
                (λ fits. or_eio-eio (
                  weaken-Ends (recv_all_receives tcp sock passed coming streams (length payload) t)
                    (λ reply u (moved, count, same).
                      append_split reply payload (coming u) rest count (sym moved ∙ stream))
                    (λ _ _ _. tt)))))

  -- A frame that was written is read as it was written: from a stream that begins with the frame of a
  -- payload, and with room for it, `read_frame` either returns that payload and leaves what follows, or
  -- fails with EIO because the bytes did not arrive; it never refuses the frame. This needs a codec
  -- that decodes the four bytes that it encodes to the same header.
  pub read_frame-frame :
      (payload rest : List ℕ) (payload_capacity : ℕ) (n : N)
      → length payload ≤ payload_capacity
      → length (codec.encode (frame_header (length payload))) ≡ 4
      → codec.decode (codec.encode (frame_header (length payload)))
        ≡ (4, frame_header (length payload))
      → coming n ≡ frame codec tcp sock passed coming streams payload ++ rest
      → Ends
          (λ reply t. (reply ≡ payload) × (coming t ≡ rest))
          (λ e _. e ≡ eio)
          (read_frame codec tcp sock payload_capacity)
          n
  unfolding read_frame
  read_frame-frame payload rest payload_capacity n room four decodes stream =
      bind-Ends
        (or_eio-eio (
          weaken-Ends (recv_all_receives tcp sock passed coming streams 4 n) (λ _ _ h. h)
            (λ _ _ _. tt)))
        (λ hdr_buf t (moved, count, same).
          let header = codec.encode (frame_header (length payload)) in
          let (hdr, after) =
            append_split hdr_buf header (coming t) (payload ++ rest) (count ∙ sym four)
              (sym moved ∙ stream ∙ append_assoc header payload rest) in
          let decoded : codec.decode hdr_buf ≡ (4, frame_header (length payload)) =
            ap codec.decode hdr ∙ decodes in
          subst
            (λ r.
              Ends (λ reply t. (reply ≡ payload) × (coming t ≡ rest)) (λ e _. e ≡ eio)
                (read_payload codec tcp sock payload_capacity r) t)
            (sym decoded) (payload_reads payload rest payload_capacity t room after))
