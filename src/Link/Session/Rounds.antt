-- ===== src/Link/Session/Rounds.antt =====
-- How many sockets `run_roundtrip_session` of src/drone.c asks for.
use esp32s3tinyepaper.Base.{ℕ, ◌+◌, ◌≡◌, refl, ◌∙◌, Bool, List, Option, none, some, arith}
use esp32s3tinyepaper.Base.Result.{
  Result, ok, err, Errno, eio, einval, ebadmsg, Action, of_result, modify, attempt, ◌>>=◌, ◌>>◌,
}
use esp32s3tinyepaper.Base.Result.Keeps.{
  Keeps, pure-Keeps, raise-Keeps, modify-Keeps, if-Keeps, attempt-Keeps, bind-Keeps, then-Keeps,
}
use esp32s3tinyepaper.Link.Socket.{
  Tcp, SockOpt, so_rcvtimeo, so_sndtimeo, is_eisconn, after_connect, connect_gpsec_socket,
}
use esp32s3tinyepaper.Link.Socket.Fds.{Passive}
use esp32s3tinyepaper.Link.Frame.{HeaderCodec}
use esp32s3tinyepaper.Link.Session.{
  DroneCodec, Flow, leave, next_round, fill_drone, close_if, or_close, check_reply, exchange,
  after_exchange, with_socket, session_round, session_loop, run_roundtrip_session,
}
use esp32s3tinyepaper.Link.Session.Closed.{write_frame-Keeps, read_frame-Keeps}

-- A count of the calls of `zsock_socket`, which no other call changes.
pub record CountsCalls {N : Type 0} (tcp : Tcp N) (asked : N → ℕ) : Type 0 where
  pub passive : Passive tcp asked
  pub socket : (n : N) → asked (tcp.socket n).1 ≡ asked n + 1
  pub close : (sock : ℕ) (n : N) → asked (tcp.close sock n) ≡ asked n
  pub setsockopt :
      (sock : ℕ) (o : SockOpt) (ms : ℕ) (n : N) → asked (tcp.setsockopt sock o ms n) ≡ asked n
  pub connect : (sock ip port : ℕ) (n : N) → asked (tcp.connect sock ip port n).1 ≡ asked n

-- An address that cannot be read asks for no socket.
abbrev pub if_read : Option ℕ → ℕ
if_read none = 0
if_read (some ip) = 1

module _ {N : Type 0} (tcp : Tcp N) (asked : N → ℕ) (counts : CountsCalls tcp asked) (k : ℕ) where
  abbrev Kept : {A : Type 0} → Action N A → Type 0
  Kept m = Keeps (λ n. asked n ≡ k) m

  close-Kept : (sock : ℕ) → Kept (modify (tcp.close sock))
  close-Kept sock = modify-Keeps (λ n h. counts.close sock n ∙ h)

  after_connect-Kept : (sock : ℕ) (r : Result (Unit {0})) → Kept (after_connect tcp sock r)
  unfolding after_connect
  after_connect-Kept sock (ok a) = pure-Keeps sock
  after_connect-Kept sock (err e) =
      if-Keeps (is_eisconn e) (pure-Keeps sock) (then-Keeps (close-Kept sock) (raise-Keeps e))

  connected-Kept :
      (peer srv_port sock : ℕ)
      → Kept (
          modify (tcp.setsockopt sock so_rcvtimeo 30000)
          >> (modify (tcp.setsockopt sock so_sndtimeo 30000)
              >> (attempt (tcp.connect sock peer srv_port) >>= after_connect tcp sock)))
  connected-Kept peer srv_port sock =
      then-Keeps (modify-Keeps (λ n h. counts.setsockopt sock so_rcvtimeo 30000 n ∙ h)) (
        then-Keeps (modify-Keeps (λ n h. counts.setsockopt sock so_sndtimeo 30000 n ∙ h)) (
          bind-Keeps
            (attempt-Keeps {m = tcp.connect sock peer srv_port}
              (record { keeps = λ n h. counts.connect sock peer srv_port n ∙ h }))
            (λ r. after_connect-Kept sock r)))

  module _ (headers : HeaderCodec) (drones : DroneCodec) (sock : ℕ) where
    close_if-Kept : (b : Bool) (e : Errno) → Kept (close_if headers drones tcp sock b e)
    unfolding close_if
    close_if-Kept b e = if-Keeps b (then-Keeps (close-Kept sock) (raise-Keeps e)) (pure-Keeps tt)

    or_close-Kept :
        {A : Type 0} {m : Action N A} → Kept m → Kept (or_close headers drones tcp sock m)
    unfolding or_close
    or_close-Kept {A} {m} h = record { keeps = λ n e. go (m n) (h.keeps n e) }
      where
        go :
            (r : Result A × N)
            → asked r.1 ≡ k
            → asked
                (elim r.0 as (λ _. Result A × N) [
                  | ok a ↦ (ok a, r.1)
                  | err e ↦ (err e, tcp.close sock r.1)
                ]).1
              ≡ k
        go (ok a, t) e = e
        go (err x, t) e = counts.close sock t ∙ e

    exchange-Kept : (payload : List ℕ) → Kept (exchange headers drones tcp sock payload)
    unfolding exchange check_reply
    exchange-Kept payload = then-Keeps (close_if-Kept _ einval) (
        then-Keeps
          (or_close-Kept (write_frame-Keeps tcp asked counts.passive k headers drones sock payload))
          (bind-Keeps
            (or_close-Kept (read_frame-Keeps tcp asked counts.passive k headers drones sock 65))
            (λ reply. then-Keeps (close_if-Kept _ eio) (close_if-Kept _ ebadmsg))))

    after_exchange-Kept :
        (r : Result (Unit {0}) × N)
        → asked r.1 ≡ k
        → asked (after_exchange headers drones tcp sock r.0 r.1).1 ≡ k
    unfolding after_exchange
    after_exchange-Kept (ok a, t) h = counts.close sock t ∙ h
    after_exchange-Kept (err e, t) h = h

module _ {N : Type 0} (tcp : Tcp N) (asked : N → ℕ) (counts : CountsCalls tcp asked)
    (headers : HeaderCodec) (drones : DroneCodec) where
  connect_asks :
      (srv_ip : List ℕ) (srv_port : ℕ) (n : N)
      → asked (connect_gpsec_socket tcp srv_ip srv_port n).1 ≡ asked n + if_read (tcp.pton srv_ip)
  unfolding connect_gpsec_socket
  connect_asks srv_ip srv_port n = go (tcp.pton srv_ip)
    where
      opened :
          (peer : ℕ) (r : Result ℕ × N)
          → asked r.1 ≡ asked n + 1
          → asked
              (◌>>=◌ {S = N}
                (λ _. r)
                (λ sock.
                  modify (tcp.setsockopt sock so_rcvtimeo 30000)
                  >> (modify (tcp.setsockopt sock so_sndtimeo 30000)
                      >> (attempt (tcp.connect sock peer srv_port) >>= after_connect tcp sock)))
                n).1
            ≡ asked n + 1
      opened peer (ok sock, t) h =
          (connected-Kept tcp asked counts (asked n + 1) peer srv_port sock).keeps t h
      opened peer (err e, t) h = h

      go :
          (a : Option ℕ)
          → asked
              ((of_result (elim a as (λ _. Result ℕ) [ some ip ↦ ok ip | none ↦ err einval ])
                  >>= λ peer. tcp.socket >>= λ sock.
                      modify (tcp.setsockopt sock so_rcvtimeo 30000)
                      >> (modify (tcp.setsockopt sock so_sndtimeo 30000)
                          >> (attempt (tcp.connect sock peer srv_port) >>= after_connect tcp sock)))
                n).1
            ≡ asked n + if_read a
      go none = omega arith
      go (some ip) = opened ip (tcp.socket n) (counts.socket n)

  with_socket_asks :
      (seq : ℕ) (r : Result ℕ × N)
      → asked (with_socket headers drones tcp seq r.0 r.1).1 ≡ asked r.1
  unfolding with_socket
  with_socket_asks seq (err e, t) = refl
  with_socket_asks seq (ok sock, t) =
      after_exchange-Kept tcp asked counts (asked t) headers drones sock _ (
        (exchange-Kept tcp asked counts (asked t) headers drones sock
            (drones.encode (fill_drone seq))).keeps
          t refl)

  -- A round ends the loop.
  abbrev Leaves : Flow → Type 0
  Leaves (leave ret) = Unit
  Leaves next_round = ⊥

  after_exchange-Leaves :
      (sock : ℕ) (r : Result (Unit {0})) (n : N)
      → Leaves (after_exchange headers drones tcp sock r n).0
  unfolding after_exchange
  after_exchange-Leaves sock (ok a) n = tt
  after_exchange-Leaves sock (err e) n = tt

  with_socket-Leaves :
      (seq : ℕ) (r : Result ℕ) (n : N) → Leaves (with_socket headers drones tcp seq r n).0
  unfolding with_socket
  with_socket-Leaves seq (err e) n = tt
  with_socket-Leaves seq (ok sock) n = after_exchange-Leaves sock _ _

  -- By a count that `zsock_socket` raises by one and no other call changes, a session asks for one socket,
  -- however it ends, and for none if the server's address cannot be read: though the loop allows three
  -- rounds, each with a connection of its own, there is never a second one.
  pub run_roundtrip_session_connects_once :
      (srv_ip : List ℕ) (srv_port : ℕ) (n : N)
      → asked (run_roundtrip_session headers drones tcp srv_ip srv_port n).1
        ≡ asked n + if_read (tcp.pton srv_ip)
  unfolding run_roundtrip_session session_loop session_round
  run_roundtrip_session_connects_once srv_ip srv_port n =
      go
        (with_socket headers drones tcp 0 (connect_gpsec_socket tcp srv_ip srv_port n).0
          (connect_gpsec_socket tcp srv_ip srv_port n).1)
        (with_socket-Leaves 0 (connect_gpsec_socket tcp srv_ip srv_port n).0
          (connect_gpsec_socket tcp srv_ip srv_port n).1)
      ∙ with_socket_asks 0 (connect_gpsec_socket tcp srv_ip srv_port n)
      ∙ connect_asks srv_ip srv_port n
    where
      go :
          (r : Flow × N)
          → Leaves r.0
          → asked
              (elim r.0 as (λ _. Result (Unit {0}) × N) [
                | leave ret ↦ (ret, r.1)
                | next_round ↦ session_loop headers drones tcp 2 1 srv_ip srv_port r.1
              ]).1
            ≡ asked r.1
      go (leave ret, m) h = refl
      go (next_round, m) h = elim h [ ]
