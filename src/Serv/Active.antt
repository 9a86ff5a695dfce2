-- ===== src/Serv/Active.antt =====
-- The active server address of src/serv_addr.c: `serv_addr_init`, `serv_addr_try_promote` and
-- `get_serv_addr`. The static variables are a record that is passed along, with the flash and the
-- network, which are parameters.
pub mod Cleaned
pub mod Guarded
pub mod Loaded
pub mod Release
use esp32s3tinyepaper.Base.{
  ℕ, zero, suc, ◌+◌, ◌-◌, Bool, true, false, not, List, [], ◌∷◌, Option, none, some, ◌==◌,
  if◌then◌else◌, length,
}
use esp32s3tinyepaper.Base.Result.{
  Result, ok, err, einval, ehostunreach, Action, pure, raise, raise_if, modify, of_result, attempt,
  ignore, ◌>>=◌, ◌>>◌,
}
use esp32s3tinyepaper.Serv.Address.{trim_line_end, parse_host_port}
use esp32s3tinyepaper.Serv.Store.{
  serv_addr_max_len, copy_text, Flash, save_active_addr_to_flash, load_active_addr_from_flash,
}

-- `zsock_getaddrinfo`, `_socket`, `_setsockopt`, `_connect`, `_close` and `_freeaddrinfo`, on a
-- network `N` with socket addresses `A`. `getaddrinfo` may return 0 with an empty list. What
-- `setsockopt` returns is never looked at.
pub data SockOpt : Type 0 where
  so_sndtimeo so_rcvtimeo : SockOpt

pub record Net (N A : Type 0) : Type 0 where
  pub getaddrinfo : List ℕ → ℕ → N → Result (Option A) × N
  pub socket : A → N → Result ℕ × N
  pub setsockopt : ℕ → SockOpt → ℕ → N → N
  pub connect : ℕ → A → N → Result (Unit {0}) × N
  pub close : ℕ → N → N
  pub freeaddrinfo : A → N → N

-- `strcmp(s, t) == 0`.
unfoldable pub same_text : List ℕ → List ℕ → Bool
same_text [] [] = true
same_text [] (c ∷ t) = false
same_text (b ∷ s) [] = false
same_text (b ∷ s) (c ∷ t) = if b == c then same_text s t else false

abbrev pub tcp_probe_timeout_ms : ℕ
tcp_probe_timeout_ms = 3000

module _ {N A : Type 0} (net : Net N A) where
  -- What follows `zsock_socket`: the time limits, the attempt, and the clean-up.
  unfoldable pub try_socket : A → Result ℕ → N → Bool × N
  try_socket res (err e) n = (false, net.freeaddrinfo res n)
  try_socket res (ok fd) n =
      let sending = net.setsockopt fd so_sndtimeo tcp_probe_timeout_ms n in
      let timed = net.setsockopt fd so_rcvtimeo tcp_probe_timeout_ms sending in
      let (ret, tried) = net.connect fd res timed in
      let answer : Bool = elim ret [ ok x ↦ true | err e ↦ false ] in
      (answer, net.freeaddrinfo res (net.close fd tried))

  -- What follows `zsock_getaddrinfo`.
  unfoldable pub try_list : Result (Option A) → N → Bool × N
  try_list (err e) n = (false, n)
  try_list (ok none) n = (false, n)
  try_list (ok (some res)) n = let (fd, opened) = net.socket res n in try_socket res fd opened

  unfoldable pub try_target : Option (List ℕ × ℕ) → N → Bool × N
  try_target none n = (false, n)
  try_target (some (host, port)) n =
      let (found, asked) = net.getaddrinfo host port n in try_list found asked

  unfoldable pub tcp_reachable : List ℕ → N → Bool × N
  tcp_reachable addr n = try_target (parse_host_port addr 80) n

pub record Serv (F N : Type 0) : Type 0 where
  pub active_addr : List ℕ
  pub active_valid : Bool
  pub flash : F
  pub net : N

module _ {F N A : Type 0} (flash : Flash F) (net : Net N A) where
  unfoldable pub on_flash : {B : Type 0} → Action F B → Action (Serv F N) B
  on_flash m s = let (r, f) = m s.flash in (r, record s { flash = f })

  -- What the flash holds, or else the initial address, which is saved.
  unfoldable pub first_address : List ℕ → Result (List ℕ) → Action (Serv F N) (Unit {0})
  first_address init_copy (ok addr) =
      modify (λ s. record s { active_addr = addr; active_valid = true })
  first_address init_copy (err e) = do
    modify (λ s. record s { active_addr = copy_text serv_addr_max_len init_copy })
    on_flash (save_active_addr_to_flash flash (copy_text serv_addr_max_len init_copy))
    modify (λ s. record s { active_valid = true })

  unfoldable pub serv_addr_init : List ℕ → Action (Serv F N) (Unit {0})
  serv_addr_init initial_addr = do
    let init_copy = trim_line_end (copy_text serv_addr_max_len initial_addr)
    raise_if (length initial_addr == 0) einval
    ret ← attempt (on_flash (load_active_addr_from_flash flash serv_addr_max_len))
    first_address init_copy ret

  unfoldable pub reachable : List ℕ → Action (Serv F N) Bool
  reachable addr s =
      let (answer, n) = tcp_reachable net addr s.net in (ok answer, record s { net = n })

  -- The active address and its flag are read before the candidate is tried.
  unfoldable pub try_candidate : List ℕ → Serv F N → Action (Serv F N) (Unit {0})
  try_candidate candidate s = do
    raise_if (not s.active_valid) einval
    raise_if (length candidate == 0) einval
    (if same_text candidate s.active_addr then pure tt else do
      answer ← reachable candidate
      raise_if (not answer) ehostunreach
      on_flash (save_active_addr_to_flash flash candidate)
      modify (λ t. record t { active_addr = copy_text serv_addr_max_len candidate }))

  -- A candidate replaces the active address once it answers and is saved.
  unfoldable pub serv_addr_try_promote : List ℕ → Action (Serv F N) (Unit {0})
  serv_addr_try_promote candidate_addr s =
      try_candidate (trim_line_end (copy_text serv_addr_max_len candidate_addr)) s s

unfoldable pub get_serv_addr : {F N : Type 0} → Serv F N → List ℕ
get_serv_addr s = if not s.active_valid then [] else s.active_addr
