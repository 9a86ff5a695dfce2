-- ===== src/Link/Frame/Carried.antt =====
-- What a frame of src/bitproto/protocol_utls.c carries.
use mathlib.Core.List.{append_assoc, append-nil}
use esp32s3tinyepaper.Base.{
  ℕ, ◌≤◌, ◌≡◌, refl, ap, ◌∙◌, sym, Bool, true, false, not, ◌||◌, List, [], ◌++◌, ltb, ◌==◌, length,
  arith, ==→eq, ltb→ge,
}
use esp32s3tinyepaper.Base.Result.{Result, ok, err, eio, einval, ebadmsg, emsgsize, Action}
use esp32s3tinyepaper.Base.Result.Ends.{
  Ended, Ends, weaken-Ends, raise_if-Ends, bind-Ends, then-Ends,
}
use esp32s3tinyepaper.Link.Socket.{Tcp}
use esp32s3tinyepaper.Link.Socket.Streams.{Streams, send_all_sends, recv_all_receives}
use esp32s3tinyepaper.Link.Frame.{
  FrameHeader, HeaderCodec, frame_header, or_eio, write_frame, read_payload, read_frame,
}

or_eio-Ends :
    {N A : Type 0} {P : A → N → Type 0} {Q : N → Type 0} {m : Action N A} {n : N}
    → Ends P (λ _. Q) m n
    → Ends P (λ _. Q) (or_eio m) n
unfolding or_eio
or_eio-Ends {N} {A} {P} {Q} {m} {n} h = record { ended = go (m n) h.ended }
  where
    go :
        (r : Result A × N)
        → Ended P (λ _. Q) r
        → Ended P
            (λ _. Q)
            (elim r.0 as (λ _. Result A × N) [ ok a ↦ (ok a, r.1) | err e ↦ (err eio, r.1) ])
    go (ok a, t) h = h
    go (err e, t) h = h

is_false : (b : Bool) → not b ≡ false → b ≡ true
is_false true e = refl
is_false false e = sym e

module _ {N : Type 0} (codec : HeaderCodec) (tcp : Tcp N) (sock : ℕ) (passed coming : N → List ℕ)
    (streams : Streams tcp sock passed coming) where
  -- The frame of a payload: its header and its bytes.
  abbrev pub frame : List ℕ → List ℕ
  frame payload = codec.encode (frame_header (length payload)) ++ payload

  -- A first part of a frame follows `base`.
  abbrev pub PartOf : List ℕ → List ℕ → N → Type 0
  PartOf base whole t =
      (sent : List ℕ) × (rest : List ℕ) × (whole ≡ sent ++ rest) × (passed t ≡ base ++ sent)

  abbrev pub Written : List ℕ → N → N → Type 0
  Written payload n t =
      (passed t ≡ passed n ++ frame payload)
      × (length payload ≤ 65535)
      × (length (codec.encode (frame_header (length payload))) ≡ 4)

  -- When `write_frame` returns 0, the payload has at most 65535 bytes, and exactly its frame has been
  -- passed on, the four bytes of the header first; when it fails, a first part of the frame has been.
  pub write_frame_sends :
      (payload : List ℕ) (n : N)
      → Ends
          (λ _ t. Written payload n t)
          (λ _ t. PartOf (passed n) (frame payload) t)
          (write_frame codec tcp sock payload)
          n
  unfolding write_frame
  write_frame_sends payload n =
      let hdr_buf : List ℕ = codec.encode (frame_header (length payload)) in
      raise_if-Ends (ltb 65535 (length payload)) einval (λ e. nothing)
        (λ fits.
          raise_if-Ends (not (length hdr_buf == 4)) ebadmsg (λ e. nothing)
            (λ four.
              then-Ends
                (or_eio-Ends (
                  weaken-Ends (send_all_sends tcp sock passed coming streams hdr_buf n) (λ _ t h. h)
                    (λ _ t (sent, rest, splits, part). (
                      sent,
                      rest ++ payload,
                      ap (λ l. l ++ payload) splits ∙ append_assoc sent rest payload,
                      part,
                    ))))
                (λ _ t header.
                  weaken-Ends (send_all_sends tcp sock passed coming streams payload t)
                    (λ _ u whole. (
                      whole ∙ joined hdr_buf header payload,
                      ltb→ge 65535 (length payload) fits,
                      ==→eq (length hdr_buf) 4 (is_false (length hdr_buf == 4) four),
                    ))
                    (λ _ u (sent, rest, splits, part). (
                      hdr_buf ++ sent,
                      rest,
                      ap (λ l. hdr_buf ++ l) splits ∙ sym (append_assoc hdr_buf sent rest),
                      part ∙ joined hdr_buf header sent,
                    )))))
    where
      nothing : PartOf (passed n) (frame payload) n
      nothing = ([], frame payload, refl, sym (append-nil (passed n)))

      joined :
          {t : N} (h : List ℕ)
          → passed t ≡ passed n ++ h
          → (l : List ℕ) → passed t ++ l ≡ passed n ++ (h ++ l)
      joined h e l = ap (λ p. p ++ l) e ∙ append_assoc (passed n) h l

  -- A frame was read: four bytes of header that the codec accepts, and as many bytes as it announces.
  pub record Read (payload_capacity : ℕ) (n : N) (payload : List ℕ) (t : N) : Type 0 where
    pub hdr_buf : List ℕ
    pub hdr : FrameHeader
    pub four : length hdr_buf ≡ 4
    pub stream : coming n ≡ hdr_buf ++ (payload ++ coming t)
    pub decoded : codec.decode hdr_buf ≡ (4, hdr)
    pub magic : hdr.magic ≡ 0xB1
    pub drone : hdr.payload_type ≡ 1
    pub announced : length payload ≡ hdr.payload_length
    pub fits : length payload ≤ payload_capacity

  read_payload_reads :
      (payload_capacity : ℕ) (n t : N) (hdr_buf : List ℕ) (r : ℕ × FrameHeader)
      → length hdr_buf ≡ 4
      → coming n ≡ hdr_buf ++ coming t
      → codec.decode hdr_buf ≡ r
      → Ends
          (Read payload_capacity n)
          (λ _ _. Unit {0})
          (read_payload codec tcp sock payload_capacity r)
          t
  unfolding read_payload
  read_payload_reads payload_capacity n t hdr_buf (k, hdr) four moved decoded =
      raise_if-Ends (not (k == 4)) ebadmsg (λ e. tt)
        (λ full.
          raise_if-Ends (not (hdr.magic == 0xB1) || not (hdr.payload_type == 1)) ebadmsg (λ e. tt)
            (λ known.
              raise_if-Ends (ltb payload_capacity hdr.payload_length) emsgsize (λ e. tt)
                (λ fits. or_eio-Ends (
                  weaken-Ends
                    (recv_all_receives tcp sock passed coming streams hdr.payload_length t)
                    (λ payload u (went, count, same).
                      let magic : not (hdr.magic == 0xB1) ≡ false = ground arith in
                      let drone : not (hdr.payload_type == 1) ≡ false = ground arith in
                      record {
                        hdr_buf = hdr_buf;
                        hdr = hdr;
                        four = four;
                        stream = moved ∙ ap (λ l. hdr_buf ++ l) went;
                        decoded = decoded ∙ ap (λ k. (k, hdr)) (==→eq k 4 (is_false (k == 4) full));
                        magic = ==→eq hdr.magic 0xB1 (is_false (hdr.magic == 0xB1) magic);
                        drone = ==→eq hdr.payload_type 1 (is_false (hdr.payload_type == 1) drone);
                        announced = count;
                        fits =
                            omega (arith, count, ltb→ge payload_capacity hdr.payload_length fits);
                      })
                    (λ _ _ _. tt)))))

  -- When `read_frame` returns 0, the stream began with a frame: four bytes that decode to a header with
  -- the magic number and the type of a drone's payload, then the payload that is returned, of the
  -- length in the header and within the capacity, and the stream goes on after it.
  pub read_frame_reads :
      (payload_capacity : ℕ) (n : N)
      → Ends
          (Read payload_capacity n)
          (λ _ _. Unit {0})
          (read_frame codec tcp sock payload_capacity)
          n
  unfolding read_frame
  read_frame_reads payload_capacity n =
      bind-Ends
        (or_eio-Ends (
          weaken-Ends (recv_all_receives tcp sock passed coming streams 4 n) (λ _ _ h. h)
            (λ _ _ _. tt)))
        (λ hdr_buf t (moved, four, same).
          read_payload_reads payload_capacity n t hdr_buf (codec.decode hdr_buf) four moved refl)
