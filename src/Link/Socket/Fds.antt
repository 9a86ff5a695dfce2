-- ===== src/Link/Socket/Fds.antt =====
-- The open sockets that src/bitproto/socket_utls.c leaves.
use esp32s3tinyepaper.Base.{
  ℕ, zero, suc, ◌+◌, ◌-◌, ◌≡◌, ◌∙◌, Bool, true, false, ◌&&◌, List, [], ◌++◌, Option, none, some,
  ltb, ◌==◌, if◌then◌else◌, length, drop, arith,
}
use esp32s3tinyepaper.Base.Result.{
  Result, ok, err, Errno, eio, einval, Action, of_result, modify, attempt, ◌>>=◌, ◌>>◌,
}
use esp32s3tinyepaper.Base.Result.Ends.{
  Ended, Ends, if-Ends, pure-Ends, raise-Ends, modify-Ends, attempt-Ends, bind-Ends,
}
use esp32s3tinyepaper.Base.Result.Keeps.{
  Keeps, pure-Keeps, raise-Keeps, attempt-Keeps, if-Keeps, bind-Keeps,
}
use esp32s3tinyepaper.Link.Socket.{
  SockOpt, so_rcvtimeo, so_sndtimeo, Tcp, is_eagain, is_eisconn, retry, after_send, send_loop,
  send_all, after_recv, recv_loop, recv_all, io_rounds, after_connect, connect_gpsec_socket,
}

-- A count of the open sockets: `zsock_socket` adds the one that it returns, `zsock_close` takes one off.
abbrev pub opened : Result ℕ → ℕ
opened (ok sock) = 1
opened (err e) = 0

pub record CountsFds {N : Type 0} (tcp : Tcp N) (fds : N → ℕ) : Type 0 where
  pub socket : (n : N) → fds (tcp.socket n).1 ≡ fds n + opened (tcp.socket n).0
  pub close : (sock : ℕ) (n : N) → fds (tcp.close sock n) ≡ fds n - 1
  pub setsockopt :
      (sock : ℕ) (o : SockOpt) (ms : ℕ) (n : N) → fds (tcp.setsockopt sock o ms n) ≡ fds n
  pub connect : (sock ip port : ℕ) (n : N) → fds (tcp.connect sock ip port n).1 ≡ fds n
  pub send : (sock : ℕ) (buf : List ℕ) (n : N) → fds (tcp.send sock buf n).1 ≡ fds n
  pub recv : (sock len : ℕ) (n : N) → fds (tcp.recv sock len n).1 ≡ fds n
  pub sleep : (ms : ℕ) (n : N) → fds (tcp.sleep ms n) ≡ fds n

-- A number that sending, receiving and waiting leave alone.
pub record Passive {N : Type 0} (tcp : Tcp N) (f : N → ℕ) : Type 0 where
  pub send : (sock : ℕ) (buf : List ℕ) (n : N) → f (tcp.send sock buf n).1 ≡ f n
  pub recv : (sock len : ℕ) (n : N) → f (tcp.recv sock len n).1 ≡ f n
  pub sleep : (ms : ℕ) (n : N) → f (tcp.sleep ms n) ≡ f n

pub CountsFds-Passive :
    {N : Type 0} {tcp : Tcp N} {fds : N → ℕ} → CountsFds tcp fds → Passive tcp fds
CountsFds-Passive counts = record { send = counts.send; recv = counts.recv; sleep = counts.sleep }

module _ {N : Type 0} (tcp : Tcp N) (fds : N → ℕ) (passive : Passive tcp fds) (k : ℕ) where
  abbrev pub Stays : N → Type 0
  Stays n = fds n ≡ k

  retry-Keeps :
      {A : Type 0} {again : Action N A} (deadline : ℕ) (e : Errno)
      → Keeps Stays again
      → Keeps Stays (retry tcp again deadline e)
  unfolding retry
  retry-Keeps {A} {again} deadline e h = record {
    keeps = λ n p. go n p (is_eagain e && ltb (tcp.now n) deadline);
  }
    where
      go :
          (n : N)
          → Stays n
          → (b : Bool) → Stays (if b then again (tcp.sleep 100 n) else (err eio, n)).1
      go n p true = h.keeps (tcp.sleep 100 n) (passive.sleep 100 n ∙ p)
      go n p false = p

  after_send-Keeps :
      (again : List ℕ → Action N (Unit {0})) (deadline : ℕ) (buf : List ℕ) (r : Result ℕ)
      → ((rest : List ℕ) → Keeps Stays (again rest))
      → Keeps Stays (after_send tcp again deadline buf r)
  unfolding after_send
  after_send-Keeps again deadline buf (ok n) h =
      if-Keeps (n == 0) (raise-Keeps eio) (h (drop n buf))
  after_send-Keeps again deadline buf (err e) h = retry-Keeps deadline e (h buf)

  send_loop-Keeps :
      (rounds sock deadline : ℕ) (buf : List ℕ)
      → Keeps Stays (send_loop tcp rounds sock deadline buf)
  unfolding send_loop
  send_loop-Keeps zero sock deadline buf = raise-Keeps eio
  send_loop-Keeps (suc rounds) sock deadline buf = if-Keeps (length buf == 0) (pure-Keeps tt) (
      bind-Keeps (attempt-Keeps (record { keeps = λ n p. passive.send sock buf n ∙ p })) (λ r.
        after_send-Keeps (send_loop tcp rounds sock deadline) deadline buf r
          (λ rest. send_loop-Keeps rounds sock deadline rest)))

  after_recv-Keeps :
      (again : ℕ → Action N (List ℕ)) (deadline len : ℕ) (r : Result (List ℕ))
      → ((rest : ℕ) → Keeps Stays (again rest))
      → Keeps Stays (after_recv tcp again deadline len r)
  unfolding after_recv
  after_recv-Keeps again deadline len (ok bytes) h =
      if-Keeps (length bytes == 0) (raise-Keeps eio)
        (bind-Keeps (h (len - length bytes)) (λ rest. pure-Keeps (bytes ++ rest)))
  after_recv-Keeps again deadline len (err e) h = retry-Keeps deadline e (h len)

  recv_loop-Keeps :
      (rounds sock deadline len : ℕ) → Keeps Stays (recv_loop tcp rounds sock deadline len)
  unfolding recv_loop
  recv_loop-Keeps zero sock deadline len = raise-Keeps eio
  recv_loop-Keeps (suc rounds) sock deadline len = if-Keeps (len == 0) (pure-Keeps []) (
      bind-Keeps (attempt-Keeps (record { keeps = λ n p. passive.recv sock len n ∙ p })) (λ r.
        after_recv-Keeps (recv_loop tcp rounds sock deadline) deadline len r
          (λ rest. recv_loop-Keeps rounds sock deadline rest)))

  pub send_all-Keeps : (sock : ℕ) (buf : List ℕ) → Keeps Stays (send_all tcp sock buf)
  unfolding send_all
  send_all-Keeps sock buf = record {
    keeps = λ n p.
        (send_loop-Keeps (io_rounds tcp (length buf)) sock (tcp.now n + 30000) buf).keeps n p;
  }

  pub recv_all-Keeps : (sock len : ℕ) → Keeps Stays (recv_all tcp sock len)
  unfolding recv_all
  recv_all-Keeps sock len = record {
    keeps = λ n p. (recv_loop-Keeps (io_rounds tcp len) sock (tcp.now n + 30000) len).keeps n p;
  }

module _ {N : Type 0} (tcp : Tcp N) (fds : N → ℕ) (counts : CountsFds tcp fds) (k : ℕ) where
  abbrev pub Open : N → Type 0
  Open n = fds n ≡ k

  -- One more socket is open after a connection that is returned, and none more after a failure.
  after_connect_opens :
      (sock : ℕ) (r : Result (Unit {0})) (n : N)
      → fds n ≡ suc k
      → Ends (λ _ t. fds t ≡ suc k) (λ _ t. Open t) (after_connect tcp sock r) n
  unfolding after_connect
  after_connect_opens sock (ok x) n h = pure-Ends h
  after_connect_opens sock (err e) n h =
      if-Ends (is_eisconn e) (λ connected. pure-Ends h)
        (λ failed.
          modify-Ends {g = tcp.close sock} (raise-Ends (omega (arith, counts.close sock n))))

  with_sock_opens :
      (peer srv_port sock : ℕ) (n : N)
      → fds n ≡ suc k
      → Ends
          (λ _ t. fds t ≡ suc k)
          (λ _ t. Open t)
          (modify (tcp.setsockopt sock so_rcvtimeo 30000)
            >> (modify (tcp.setsockopt sock so_sndtimeo 30000)
                >> (attempt (tcp.connect sock peer srv_port) >>= after_connect tcp sock)))
          n
  with_sock_opens peer srv_port sock n h =
      let timed = tcp.setsockopt sock so_rcvtimeo 30000 n in
      let both = tcp.setsockopt sock so_sndtimeo 30000 timed in
      let r = tcp.connect sock peer srv_port both in
      modify-Ends {g = tcp.setsockopt sock so_rcvtimeo 30000} (
        modify-Ends {g = tcp.setsockopt sock so_sndtimeo 30000} (
          attempt-Ends {g = tcp.connect sock peer srv_port} (after_connect tcp sock) (
            after_connect_opens sock r.0 r.1 (
              counts.connect sock peer srv_port both
              ∙ counts.setsockopt sock so_sndtimeo 30000 timed
              ∙ counts.setsockopt sock so_rcvtimeo 30000 n
              ∙ h))))

  socket_opens : (n : N) → Open n → Ends (λ _ t. fds t ≡ suc k) (λ _ t. Open t) tcp.socket n
  socket_opens n h = record { ended = go (tcp.socket n) (counts.socket n) }
    where
      go :
          (r : Result ℕ × N)
          → fds r.1 ≡ fds n + opened r.0
          → Ended (λ _ t. fds t ≡ suc k) (λ _ t. Open t) r
      go (ok sock, t) e = omega (arith, h, e)
      go (err x, t) e = omega (arith, h, e)

  address_read :
      (a : Option ℕ) (n : N)
      → Open n
      → Ends
          (λ _ t. Open t)
          (λ _ t. Open t)
          (of_result (elim a as (λ _. Result ℕ) [ some ip ↦ ok ip | none ↦ err einval ]))
          n
  address_read none n h = record { ended = h }
  address_read (some ip) n h = record { ended = h }

  pub connect_opens :
      (srv_ip : List ℕ) (srv_port : ℕ) (n : N)
      → Open n
      → Ends (λ _ t. fds t ≡ suc k) (λ _ t. Open t) (connect_gpsec_socket tcp srv_ip srv_port) n
  unfolding connect_gpsec_socket
  connect_opens srv_ip srv_port n h = bind-Ends (address_read (tcp.pton srv_ip) n h) (λ peer m p.
      bind-Ends (socket_opens m p) (λ sock t q. with_sock_opens peer srv_port sock t q))
