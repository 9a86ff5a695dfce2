-- ===== src/Link/Socket.antt =====
-- Sockets: src/bitproto/socket_utls.c. Zephyr's socket calls and clock are a parameter, on a state `N`
-- that only they change. `zsock_recv` gives the bytes that it stored.
pub mod Fds
pub mod Rounds
pub mod Streams
use esp32s3tinyepaper.Base.{
  ℕ, zero, suc, ◌+◌, ◌-◌, ◌*◌, ◌/◌, Bool, true, false, ◌&&◌, List, [], ◌∷◌, ◌++◌, Option, none,
  some, ltb, ◌==◌, if◌then◌else◌, length, drop,
}
use esp32s3tinyepaper.Base.Result.{
  Result, ok, err, Errno, eagain, eio, einval, eisconn, Action, pure, raise, modify, of_result,
  attempt, ◌>>=◌, ◌>>◌,
}

pub data SockOpt : Type 0 where
  so_rcvtimeo so_sndtimeo : SockOpt

pub record Tcp (N : Type 0) : Type 0 where
  pub send : ℕ → List ℕ → N → Result ℕ × N
  pub recv : ℕ → ℕ → N → Result (List ℕ) × N
  pub now : N → ℕ
  pub sleep : ℕ → N → N
  pub pton : List ℕ → Option ℕ
  pub socket : N → Result ℕ × N
  pub setsockopt : ℕ → SockOpt → ℕ → N → N
  pub connect : ℕ → ℕ → ℕ → N → Result (Unit {0}) × N
  pub close : ℕ → N → N

abbrev pub gpsec_io_timeout_ms : ℕ
gpsec_io_timeout_ms = 30000

abbrev pub is_eagain : Errno → Bool
is_eagain eagain = true
is_eagain _ = false

abbrev pub is_eisconn : Errno → Bool
is_eisconn eisconn = true
is_eisconn _ = false

module _ {N : Type 0} (tcp : Tcp N) where
  -- The branch for an error: another round after 100 ms, if the error is EAGAIN and there is time.
  unfoldable pub retry : {A : Type 0} → Action N A → ℕ → Errno → Action N A
  retry again deadline e n =
      if is_eagain e && ltb (tcp.now n) deadline then again (tcp.sleep 100 n) else (err eio, n)

  -- What follows `zsock_send`; `again` is the rest of the loop.
  unfoldable pub after_send :
      (List ℕ → Action N (Unit {0})) → ℕ → List ℕ → Result ℕ → Action N (Unit {0})
  after_send again deadline buf (ok n) = if n == 0 then raise eio else again (drop n buf)
  after_send again deadline buf (err e) = retry (again buf) deadline e

  unfoldable pub send_loop : ℕ → ℕ → ℕ → List ℕ → Action N (Unit {0})
  send_loop zero sock deadline buf = raise eio
  send_loop (suc rounds) sock deadline buf =
      let again = send_loop rounds sock deadline in
      if length buf == 0
      then pure tt
      else (attempt (tcp.send sock buf) >>= after_send again deadline buf)

  -- A byte is sent in a round, or 100 ms go by: this many rounds are enough.
  abbrev pub io_rounds : ℕ → ℕ
  io_rounds len = suc (len + gpsec_io_timeout_ms / 100)

  unfoldable pub send_all : ℕ → List ℕ → Action N (Unit {0})
  send_all sock buf n =
      send_loop (io_rounds (length buf)) sock (tcp.now n + gpsec_io_timeout_ms) buf n

  -- What follows `zsock_recv`. The buffer is the bytes so far.
  unfoldable pub after_recv : (ℕ → Action N (List ℕ)) → ℕ → ℕ → Result (List ℕ) → Action N (List ℕ)
  after_recv again deadline len (ok bytes) =
      if length bytes == 0
      then raise eio
      else (again (len - length bytes) >>= λ rest. pure (bytes ++ rest))
  after_recv again deadline len (err e) = retry (again len) deadline e

  unfoldable pub recv_loop : ℕ → ℕ → ℕ → ℕ → Action N (List ℕ)
  recv_loop zero sock deadline len = raise eio
  recv_loop (suc rounds) sock deadline len =
      let again = recv_loop rounds sock deadline in
      if len == 0 then pure [] else (attempt (tcp.recv sock len) >>= after_recv again deadline len)

  unfoldable pub recv_all : ℕ → ℕ → Action N (List ℕ)
  recv_all sock len n = recv_loop (io_rounds len) sock (tcp.now n + gpsec_io_timeout_ms) len n

  -- What follows `zsock_connect`.
  unfoldable pub after_connect : ℕ → Result (Unit {0}) → Action N ℕ
  after_connect sock (ok x) = pure sock
  after_connect sock (err e) =
      if is_eisconn e then pure sock else (modify (tcp.close sock) >> raise e)

  unfoldable pub connect_gpsec_socket : List ℕ → ℕ → Action N ℕ
  connect_gpsec_socket srv_ip srv_port = do
    peer ← of_result (elim (tcp.pton srv_ip) [ some ip ↦ ok ip | none ↦ err einval ])
    sock ← tcp.socket
    modify (tcp.setsockopt sock so_rcvtimeo gpsec_io_timeout_ms)
    modify (tcp.setsockopt sock so_sndtimeo gpsec_io_timeout_ms)
    ret ← attempt (tcp.connect sock peer srv_port)
    after_connect sock ret
