-- ===== src/Serv/Active/Release.antt =====
-- What the probe of an address holds: src/serv_addr.c, `tcp_reachable`.
use esp32s3tinyepaper.Base.{ℕ, ◌+◌, ◌-◌, ◌≡◌, refl, ◌∙◌, List, Option, none, some, arith}
use esp32s3tinyepaper.Base.Result.{Result, ok, err}
use esp32s3tinyepaper.Serv.Address.{parse_host_port}
use esp32s3tinyepaper.Serv.Active.{
  SockOpt, so_sndtimeo, so_rcvtimeo, Net, try_socket, try_list, try_target, tcp_reachable,
}

-- A count of what the network holds for the program: a call that returns a socket or an address
-- list adds one to it, `close` and `freeaddrinfo` take one off.
abbrev pub gained : {X : Type 0} → Result X → ℕ
gained (ok x) = 1
gained (err e) = 0

abbrev pub listed : {X : Type 0} → Result (Option X) → ℕ
listed (ok (some x)) = 1
listed (ok none) = 0
listed (err e) = 0

module _ {N A : Type 0} (net : Net N A) where
  pub record Counts (fds lists : N → ℕ) : Type 0 where
    pub getaddrinfo_fds : (h : List ℕ) (p : ℕ) (n : N) → fds (net.getaddrinfo h p n).1 ≡ fds n
    pub getaddrinfo_lists :
        (h : List ℕ) (p : ℕ) (n : N)
        → lists (net.getaddrinfo h p n).1 ≡ lists n + listed (net.getaddrinfo h p n).0
    pub socket_fds : (a : A) (n : N) → fds (net.socket a n).1 ≡ fds n + gained (net.socket a n).0
    pub socket_lists : (a : A) (n : N) → lists (net.socket a n).1 ≡ lists n
    pub setsockopt_fds :
        (fd : ℕ) (o : SockOpt) (ms : ℕ) (n : N) → fds (net.setsockopt fd o ms n) ≡ fds n
    pub setsockopt_lists :
        (fd : ℕ) (o : SockOpt) (ms : ℕ) (n : N) → lists (net.setsockopt fd o ms n) ≡ lists n
    pub connect_fds : (fd : ℕ) (a : A) (n : N) → fds (net.connect fd a n).1 ≡ fds n
    pub connect_lists : (fd : ℕ) (a : A) (n : N) → lists (net.connect fd a n).1 ≡ lists n
    pub close_fds : (fd : ℕ) (n : N) → fds (net.close fd n) ≡ fds n - 1
    pub close_lists : (fd : ℕ) (n : N) → lists (net.close fd n) ≡ lists n
    pub freeaddrinfo_fds : (a : A) (n : N) → fds (net.freeaddrinfo a n) ≡ fds n
    pub freeaddrinfo_lists : (a : A) (n : N) → lists (net.freeaddrinfo a n) ≡ lists n - 1

module _ {N A : Type 0} (net : Net N A) (fds lists : N → ℕ) (counts : Counts net fds lists) where
  socket_releases :
      (res : A) (r : Result ℕ) (n m : N)
      → fds m ≡ fds n + gained r
      → lists m ≡ lists n
      → (fds (try_socket net res r m).1 ≡ fds n) × (lists (try_socket net res r m).1 ≡ lists n - 1)
  unfolding try_socket
  socket_releases res (err e) n m f l =
      (omega (arith, counts.freeaddrinfo_fds res m), omega (arith, counts.freeaddrinfo_lists res m))
  socket_releases res (ok fd) n m f l =
      let sending = net.setsockopt fd so_sndtimeo 3000 m in
      let timed = net.setsockopt fd so_rcvtimeo 3000 sending in
      let tried = (net.connect fd res timed).1 in
      let closed = net.close fd tried in
      (
        omega (
          arith,
          counts.setsockopt_fds fd so_sndtimeo 3000 m,
          counts.setsockopt_fds fd so_rcvtimeo 3000 sending,
          counts.connect_fds fd res timed,
          counts.close_fds fd tried,
          counts.freeaddrinfo_fds res closed,
        ),
        omega (
          arith,
          counts.setsockopt_lists fd so_sndtimeo 3000 m,
          counts.setsockopt_lists fd so_rcvtimeo 3000 sending,
          counts.connect_lists fd res timed,
          counts.close_lists fd tried,
          counts.freeaddrinfo_lists res closed,
        ),
      )

  list_releases :
      (r : Result (Option A)) (n m : N)
      → fds m ≡ fds n
      → lists m ≡ lists n + listed r
      → (fds (try_list net r m).1 ≡ fds n) × (lists (try_list net r m).1 ≡ lists n)
  unfolding try_list
  list_releases (err e) n m f l = (f, omega arith)
  list_releases (ok none) n m f l = (f, omega arith)
  list_releases (ok (some res)) n m f l =
      let r = net.socket res m in
      let (p, q) =
        socket_releases res r.0 m r.1 (counts.socket_fds res m) (counts.socket_lists res m) in
      (p ∙ f, omega arith)

  target_releases :
      (t : Option (List ℕ × ℕ)) (n : N)
      → (fds (try_target net t n).1 ≡ fds n) × (lists (try_target net t n).1 ≡ lists n)
  unfolding try_target
  target_releases none n = (refl, refl)
  target_releases (some (host, port)) n =
      let r = net.getaddrinfo host port n in
      list_releases r.0 n r.1 (counts.getaddrinfo_fds host port n)
        (counts.getaddrinfo_lists host port n)

  -- Whatever the network answers, when the probe returns there are as many sockets open and as many
  -- address lists in memory as before.
  pub tcp_reachable_releases :
      (addr : List ℕ) (n : N)
      → (fds (tcp_reachable net addr n).1 ≡ fds n) × (lists (tcp_reachable net addr n).1 ≡ lists n)
  unfolding tcp_reachable
  tcp_reachable_releases addr n = target_releases (parse_host_port addr 80) n
