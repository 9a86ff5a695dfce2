-- ===== src/Modem/Network/Ready.antt =====
-- When `ec801e_socket_stack_init` of drivers/ec801e/ec801e.c sets the stack up.
use esp32s3tinyepaper.Base.{
  ℕ, ◌≡◌, refl, Bool, true, false, List, Option, false≢true, if◌then◌else◌,
}
use esp32s3tinyepaper.Base.Result.{ok, Action, pure, modify, with_state, ◌>>◌}
use esp32s3tinyepaper.Base.Result.Ends.{
  Ends, with_state-Ends, if-Ends, pure-Ends, then-Ends, done-Ends,
}
use esp32s3tinyepaper.Base.Result.Keeps.{Ends-Keeps}
use esp32s3tinyepaper.Modem.{Board, Driver}
use esp32s3tinyepaper.Modem.Kept.{bring_up-Keeps}
use esp32s3tinyepaper.Modem.Network.{bring_up, socket_stack_init}

if_true :
    {S A : Type 0} (b : Bool) (m n : Action S A) (s : S) → b ≡ true → (if b then m else n) s ≡ m s
if_true true m n s h = refl
if_true false m n s h = absurd (false≢true h)

module _ {W : Type 0} (board : Board W) where
  ready_again :
      (apn : Option (List ℕ)) (s : Driver W)
      → s.stack_ready ≡ true
      → socket_stack_init board apn s ≡ (ok tt, s)
  unfolding socket_stack_init with_state
  ready_again apn s ready =
      if_true s.stack_ready (pure tt)
        (bring_up board apn >> modify (λ t. record t { stack_ready = true })) s ready

  -- Once the stack was set up, every further call of `ec801e_socket_stack_init`, with any APN, succeeds
  -- at once and does nothing. While a call fails, the stack does not count as ready, so that the next
  -- call starts over.
  pub socket_stack_init_once :
      (apn : Option (List ℕ)) (s : Driver W)
      → Ends
          (λ _ t. (apn' : Option (List ℕ)) → socket_stack_init board apn' t ≡ (ok tt, t))
          (λ _ t. t.stack_ready ≡ false)
          (socket_stack_init board apn)
          s
  unfolding socket_stack_init
  socket_stack_init_once apn s = with_state-Ends _ (
      if-Ends s.stack_ready (λ ready. pure-Ends (λ apn'. ready_again apn' s ready))
        (λ missing.
          then-Ends {k = modify (λ t. record t { stack_ready = true })}
            (Ends-Keeps
              (bring_up-Keeps board (λ t. t.stack_ready ≡ false) (λ t u h. h) (λ t b h. h) apn)
              missing)
            (λ a t k. done-Ends (λ apn'. ready_again apn' (record t { stack_ready = true }) refl))))
