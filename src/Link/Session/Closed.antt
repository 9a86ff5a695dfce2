-- ===== src/Link/Session/Closed.antt =====
-- The socket of a session of src/drone.c.
use esp32s3tinyepaper.Base.{
  ℕ, zero, suc, ◌≡◌, refl, ◌∙◌, Bool, true, false, not, ◌||◌, List, ltb, ◌==◌, arith,
}
use esp32s3tinyepaper.Base.Result.{Result, ok, err, Errno, eio, einval, ebadmsg, emsgsize, Action}
use esp32s3tinyepaper.Base.Result.Ends.{Ended, Ends, then-Ends, bind-Ends}
use esp32s3tinyepaper.Base.Result.Keeps.{Keeps, raise_if-Keeps, bind-Keeps, then-Keeps}
use esp32s3tinyepaper.Link.Socket.{Tcp, connect_gpsec_socket}
use esp32s3tinyepaper.Link.Socket.Fds.{
  CountsFds, Passive, CountsFds-Passive, send_all-Keeps, recv_all-Keeps, connect_opens,
}
use esp32s3tinyepaper.Link.Frame.{
  FrameHeader, HeaderCodec, or_eio, write_frame, read_payload, read_frame,
}
use esp32s3tinyepaper.Link.Session.{
  DroneCodec, Flow, leave, next_round, fill_drone, close_if, or_close, check_reply, exchange,
  after_exchange, with_socket, session_round, session_loop, run_roundtrip_session,
}

module _ {N : Type 0} (tcp : Tcp N) (fds : N → ℕ) (passive : Passive tcp fds) (k : ℕ) where
  or_eio-Keeps :
      {A : Type 0} {m : Action N A} → Keeps (λ n. fds n ≡ k) m → Keeps (λ n. fds n ≡ k) (or_eio m)
  unfolding or_eio
  or_eio-Keeps {A} {m} h = record { keeps = λ n p. go (m n) (h.keeps n p) }
    where
      go :
          (r : Result A × N)
          → fds r.1 ≡ k
          → fds (elim r.0 as (λ _. Result A × N) [ ok a ↦ (ok a, r.1) | err e ↦ (err eio, r.1) ]).1
            ≡ k
      go (ok a, t) p = p
      go (err e, t) p = p

  module _ (headers : HeaderCodec) (drones : DroneCodec) where
    pub write_frame-Keeps :
        (sock : ℕ) (payload : List ℕ)
        → Keeps (λ n. fds n ≡ k) (write_frame headers tcp sock payload)
    unfolding write_frame
    write_frame-Keeps sock payload = then-Keeps (raise_if-Keeps _ einval) (
        then-Keeps (raise_if-Keeps _ ebadmsg) (
          then-Keeps (or_eio-Keeps (send_all-Keeps tcp fds passive k sock _))
            (send_all-Keeps tcp fds passive k sock payload)))

    read_payload-Keeps :
        (sock payload_capacity : ℕ) (r : ℕ × FrameHeader)
        → Keeps (λ n. fds n ≡ k) (read_payload headers tcp sock payload_capacity r)
    unfolding read_payload
    read_payload-Keeps sock payload_capacity (n, hdr) =
        then-Keeps (raise_if-Keeps (not (n == 4)) ebadmsg) (
          then-Keeps
            (raise_if-Keeps (not (hdr.magic == 0xB1) || not (hdr.payload_type == 1)) ebadmsg)
            (then-Keeps (raise_if-Keeps (ltb payload_capacity hdr.payload_length) emsgsize)
              (or_eio-Keeps (recv_all-Keeps tcp fds passive k sock hdr.payload_length))))

    pub read_frame-Keeps :
        (sock payload_capacity : ℕ)
        → Keeps (λ n. fds n ≡ k) (read_frame headers tcp sock payload_capacity)
    unfolding read_frame
    read_frame-Keeps sock payload_capacity =
        bind-Keeps (or_eio-Keeps (recv_all-Keeps tcp fds passive k sock 4))
          (λ hdr_buf. read_payload-Keeps sock payload_capacity (headers.decode hdr_buf))

module _ {N : Type 0} (tcp : Tcp N) (fds : N → ℕ) (counts : CountsFds tcp fds) (k : ℕ)
    (headers : HeaderCodec) (drones : DroneCodec) (sock : ℕ) where
  -- The socket is still open after what succeeds, and closed after what fails.
  abbrev ClosedIfFailed : {A : Type 0} → Action N A → N → Type 0
  ClosedIfFailed m n = Ends (λ _ t. fds t ≡ suc k) (λ _ t. fds t ≡ k) m n

  closed : (n : N) → fds n ≡ suc k → fds (tcp.close sock n) ≡ k
  closed n h = omega (arith, counts.close sock n, h)

  close_if_closes :
      (b : Bool) (e : Errno) (n : N)
      → fds n ≡ suc k
      → ClosedIfFailed (close_if headers drones tcp sock b e) n
  unfolding close_if
  close_if_closes true e n h = record { ended = closed n h }
  close_if_closes false e n h = record { ended = h }

  or_close_closes :
      {A : Type 0} (m : Action N A) (n : N)
      → Keeps (λ t. fds t ≡ suc k) m
      → fds n ≡ suc k
      → ClosedIfFailed (or_close headers drones tcp sock m) n
  unfolding or_close
  or_close_closes {A} m n keeps h = record { ended = go (m n) (keeps.keeps n h) }
    where
      go :
          (r : Result A × N)
          → fds r.1 ≡ suc k
          → Ended
              (λ _ t. fds t ≡ suc k)
              (λ _ t. fds t ≡ k)
              (elim r.0 as (λ _. Result A × N) [
                | ok a ↦ (ok a, r.1)
                | err e ↦ (err e, tcp.close sock r.1)
              ])
      go (ok a, t) h = h
      go (err e, t) h = closed t h

  check_reply_closes :
      (payload reply : List ℕ) (n : N)
      → fds n ≡ suc k
      → ClosedIfFailed (check_reply headers drones tcp sock payload reply) n
  unfolding check_reply
  check_reply_closes payload reply n h =
      then-Ends (close_if_closes _ eio n h)
        (λ a t h. close_if_closes (not ((drones.decode reply).0 == 65)) ebadmsg t h)

  pub exchange_closes :
      (payload : List ℕ) (n : N)
      → fds n ≡ suc k
      → ClosedIfFailed (exchange headers drones tcp sock payload) n
  unfolding exchange
  exchange_closes payload n h = then-Ends (close_if_closes _ einval n h) (λ a t h.
      then-Ends
        (or_close_closes (write_frame headers tcp sock payload) t
          (write_frame-Keeps tcp fds (CountsFds-Passive counts) (suc k) headers drones sock payload)
          h)
        (λ b u h.
          bind-Ends
            (or_close_closes (read_frame headers tcp sock 65) u
              (read_frame-Keeps tcp fds (CountsFds-Passive counts) (suc k) headers drones sock 65)
              h)
            (λ reply v h. check_reply_closes payload reply v h)))

  after_exchange_closes :
      (r : Result (Unit {0}) × N)
      → Ended (λ _ t. fds t ≡ suc k) (λ _ t. fds t ≡ k) r
      → fds (after_exchange headers drones tcp sock r.0 r.1).1 ≡ k
  unfolding after_exchange
  after_exchange_closes (ok a, t) h = closed t h
  after_exchange_closes (err e, t) h = h

module _ {N : Type 0} (tcp : Tcp N) (fds : N → ℕ) (counts : CountsFds tcp fds)
    (headers : HeaderCodec) (drones : DroneCodec) where
  -- A round leaves as many sockets open as it found.
  with_socket_closes :
      (k seq : ℕ) (r : Result ℕ × N)
      → Ended (λ _ t. fds t ≡ suc k) (λ _ t. fds t ≡ k) r
      → fds (with_socket headers drones tcp seq r.0 r.1).1 ≡ k
  unfolding with_socket
  with_socket_closes k seq (err e, t) h = h
  with_socket_closes k seq (ok sock, t) h =
      after_exchange_closes tcp fds counts k headers drones sock _
        (exchange_closes tcp fds counts k headers drones sock (drones.encode (fill_drone seq)) t
          h).ended

  session_round_closes :
      (seq : ℕ) (srv_ip : List ℕ) (srv_port : ℕ) (n : N)
      → fds (session_round headers drones tcp seq srv_ip srv_port n).1 ≡ fds n
  unfolding session_round
  session_round_closes seq srv_ip srv_port n =
      with_socket_closes (fds n) seq (connect_gpsec_socket tcp srv_ip srv_port n)
        (connect_opens tcp fds counts (fds n) srv_ip srv_port n refl).ended

  session_loop_closes :
      (rounds seq : ℕ) (srv_ip : List ℕ) (srv_port : ℕ) (n : N)
      → fds (session_loop headers drones tcp rounds seq srv_ip srv_port n).1 ≡ fds n
  unfolding session_loop
  session_loop_closes zero seq srv_ip srv_port n = refl
  session_loop_closes (suc rounds) seq srv_ip srv_port n =
      go (session_round headers drones tcp seq srv_ip srv_port n)
        (session_round_closes seq srv_ip srv_port n)
        (session_loop_closes rounds (suc seq) srv_ip srv_port)
    where
      go :
          (r : Flow × N)
          → fds r.1 ≡ fds n
          → ((m : N)
              → fds (session_loop headers drones tcp rounds (suc seq) srv_ip srv_port m).1 ≡ fds m)
          → fds
              (elim r.0 as (λ _. Result (Unit {0}) × N) [
                | leave ret ↦ (ret, r.1)
                | next_round ↦ session_loop headers drones tcp rounds (suc seq) srv_ip srv_port r.1
              ]).1
            ≡ fds n
      go (leave ret, m) h rest = h
      go (next_round, m) h rest = rest m ∙ h

  -- However the server and the modem behave, when a session returns there are as many sockets open as
  -- before it.
  pub run_roundtrip_session_closes :
      (srv_ip : List ℕ) (srv_port : ℕ) (n : N)
      → fds (run_roundtrip_session headers drones tcp srv_ip srv_port n).1 ≡ fds n
  unfolding run_roundtrip_session
  run_roundtrip_session_closes srv_ip srv_port n = session_loop_closes 3 0 srv_ip srv_port n
