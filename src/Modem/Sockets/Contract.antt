-- ===== src/Modem/Sockets/Contract.antt =====
-- The contract of the modem's socket, and drivers/ec801e/ec801e.c against it. The abstract socket is
-- open or closed.
use esp32s3tinyepaper.Base.{
  ℕ, ◌≡◌, refl, sym, subst, ◌⊎◌, inl, inr, Bool, true, false, List, [], ◌∷◌, Option, ◌==◌, length,
  Bool-cases,
}
use esp32s3tinyepaper.Base.Result.{Result, Errno, ok, err, einval, enotconn, with_state, ◌>>◌}
use esp32s3tinyepaper.Modem.{Board, Uart, Driver, on_uart}
use esp32s3tinyepaper.Modem.Kept.{socket_stack_init-Keeps}
use esp32s3tinyepaper.Modem.Network.{socket_stack_init}
use esp32s3tinyepaper.Modem.Sockets.{
  open_on_line, set_opened, socket_open_tcp, socket_open_ssl, socket_send, socket_recv,
  socket_close, resolve_ipv4,
}

-- A call of the driver's socket interface.
pub data Call : Type 0 where
  stack_init : Option (List ℕ) → Call
  resolve : List ℕ → ℕ → Call
  open_tcp open_ssl : List ℕ → ℕ → Call
  send : List ℕ → Call
  recv : ℕ → ℕ → Call
  close : Call

-- Whether the call succeeded, or its error.
abbrev pub Outcome : Type 0
Outcome = Result (Unit {0})

abbrev pub outcome : {A : Type 0} → Result A → Outcome
outcome (ok a) = ok tt
outcome (err e) = err e

-- What each call may do to an abstract socket.
pub data Spec : Bool → Call → Outcome → Bool → Type 0 where
  sets_up : (p : Bool) (apn : Option (List ℕ)) (r : Outcome) → Spec p (stack_init apn) r p
  resolves : (p : Bool) (host : List ℕ) (len : ℕ) (r : Outcome) → Spec p (resolve host len) r p
  opens : (p : Bool) (ip : List ℕ) (port : ℕ) → Spec p (open_tcp ip port) (ok tt) true
  fails_open : (p : Bool) (ip : List ℕ) (port : ℕ) (e : Errno) → Spec p (open_tcp ip port) (err e) p
  opens_ssl : (p : Bool) (host : List ℕ) (port : ℕ) (r : Outcome) → Spec p (open_ssl host port) r p
  refuses_send :
      (bytes : List ℕ) (e : Errno)
      → (e ≡ einval) ⊎ (e ≡ enotconn)
      → Spec false (send bytes) (err e) false
  sends : (bytes : List ℕ) (r : Outcome) → Spec true (send bytes) r true
  refuses_recv :
      (len ms : ℕ) (e : Errno)
      → (e ≡ einval) ⊎ (e ≡ enotconn)
      → Spec false (recv len ms) (err e) false
  receives : (len ms : ℕ) (r : Outcome) → Spec true (recv len ms) r true
  closes : (p : Bool) (r : Outcome) → Spec p close r false

-- A sequence of calls on an abstract socket, with their outcomes.
pub data SpecRun : Bool → List Call → List Outcome → Bool → Type 0 where
  stop : (p : Bool) → SpecRun p [] [] p
  step :
      (p q t : Bool) (c : Call) (r : Outcome) (cs : List Call) (rs : List Outcome)
      → Spec p c r q
      → SpecRun q cs rs t
      → SpecRun p (c ∷ cs) (r ∷ rs) t

module _ {W : Type 0} (board : Board W) where
  erased : {A : Type 0} → Result A × Driver W → Outcome × Driver W
  erased (r, t) = (outcome r, t)

  -- The driver's own call.
  unfoldable pub run_call : Call → Driver W → Outcome × Driver W
  unfolding erased
  run_call (stack_init apn) s = erased (socket_stack_init board apn s)
  run_call (resolve host len) s = erased (on_uart (resolve_ipv4 board host len) s)
  run_call (open_tcp ip port) s = erased (socket_open_tcp board ip port s)
  run_call (open_ssl host port) s = erased (on_uart (socket_open_ssl board host port) s)
  run_call (send bytes) s = erased (socket_send board bytes s)
  run_call (recv len ms) s = erased (socket_recv board len ms s)
  run_call close s = erased (socket_close board s)

  abbrev Refines : Call → Bool → Outcome × Driver W → Type 0
  Refines c p (r, t) = Spec p c r t.socket_opened

  after_open :
      (ip : List ℕ) (port : ℕ) (r : Result (Unit {0}) × Uart W) (s : Driver W)
      → Refines (open_tcp ip port) s.socket_opened (
          erased
            ((◌>>◌ {S = Driver W} (λ t. (r.0, record t { uart = r.1 })) (set_opened board true)) s))
  unfolding set_opened erased
  after_open ip port (ok a, u) s = opens s.socket_opened ip port
  after_open ip port (err e, u) s = fails_open s.socket_opened ip port e

  pub run_call-Refines :
      (c : Call) (s : Driver W)
      → Spec s.socket_opened c (run_call c s).0 (run_call c s).1.socket_opened
  unfolding run_call
  run_call-Refines (stack_init apn) s =
      subst (λ p. Spec s.socket_opened (stack_init apn) (run_call (stack_init apn) s).0 p)
        (sym (
          (socket_stack_init-Keeps board (λ t. t.socket_opened ≡ s.socket_opened) (λ t u h. h)
              (λ t b h. h) apn (λ t h. h)).keeps
            s refl))
        (sets_up s.socket_opened apn (run_call (stack_init apn) s).0)
  run_call-Refines (resolve host len) s = unfold on_uart in (resolves s.socket_opened host len _)
  run_call-Refines (open_ssl host port) s =
      unfold on_uart in (opens_ssl s.socket_opened host port _)
  run_call-Refines (open_tcp ip port) s =
      unfold socket_open_tcp on_uart in
      (elim (Bool-cases (port == 0)) [
        | inl zero_port ↦ rw zero_port (fails_open s.socket_opened ip port einval)
        | inr some_port ↦ rw some_port (after_open ip port (open_on_line board ip port s.uart) s)
      ])
  run_call-Refines (send bytes) s =
      unfold socket_send with_state on_uart in
      (elim (Bool-cases s.socket_opened) [
        | inl opened ↦ rw opened (elim (Bool-cases (length bytes == 0)) [
          | inl empty ↦ rw empty (sends bytes (err einval))
          | inr some_bytes ↦ rw some_bytes (sends bytes _)
        ])
        | inr closed ↦ rw closed (elim (Bool-cases (length bytes == 0)) [
          | inl empty ↦ rw empty (refuses_send bytes einval (inl refl))
          | inr some_bytes ↦ rw some_bytes (refuses_send bytes enotconn (inr refl))
        ])
      ])
  run_call-Refines (recv len ms) s =
      unfold socket_recv with_state on_uart in
      (elim (Bool-cases s.socket_opened) [
        | inl opened ↦ rw opened (elim (Bool-cases (len == 0)) [
          | inl empty ↦ rw empty (receives len ms (err einval))
          | inr some_bytes ↦ rw some_bytes (receives len ms _)
        ])
        | inr closed ↦ rw closed (elim (Bool-cases (len == 0)) [
          | inl empty ↦ rw empty (refuses_recv len ms einval (inl refl))
          | inr some_bytes ↦ rw some_bytes (refuses_recv len ms enotconn (inr refl))
        ])
      ])
  run_call-Refines close s = unfold socket_close set_opened on_uart in (closes s.socket_opened _)

  unfoldable pub run_calls : List Call → Driver W → List Outcome × Driver W
  unfolding run_call
  run_calls [] s = ([], s)
  run_calls (c ∷ cs) s = let (r, t) = run_call c s in let (rs, u) = run_calls cs t in (r ∷ rs, u)

  -- Any sequence of calls of the driver is one of the abstract socket, with the same outcomes, and with
  -- `ec801e_socket_opened` as its state. There, only a TCP open that succeeds opens the socket, only a
  -- close closes it, an open with TLS leaves it as it was, and on a closed socket a send and a receive are
  -- refused with -EINVAL or -ENOTCONN.
  pub run_calls-Refines :
      (cs : List Call) (s : Driver W)
      → SpecRun s.socket_opened cs (run_calls cs s).0 (run_calls cs s).1.socket_opened
  unfolding run_calls
  run_calls-Refines [] s = stop s.socket_opened
  run_calls-Refines (c ∷ cs) s =
      step s.socket_opened (run_call c s).1.socket_opened _ c (run_call c s).0 cs _
        (run_call-Refines c s) (run_calls-Refines cs (run_call c s).1)
