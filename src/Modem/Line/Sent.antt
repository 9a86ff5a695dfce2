-- ===== src/Modem/Line/Sent.antt =====
-- What drivers/ec801e/ec801e.c puts on the line.
use esp32s3tinyepaper.Base.{
  ℕ, zero, suc, ◌≡◌, refl, sym, ◌∙◌, ap, Bool, true, false, List, [], ◌∷◌, ◌++◌, Option, none, some,
  ltb,
}
use mathlib.Core.List.{append_assoc, append-nil}
use esp32s3tinyepaper.Base.Text.{c_str}
use esp32s3tinyepaper.Base.Result.{Result}
use esp32s3tinyepaper.Modem.{Board, Uart}
use esp32s3tinyepaper.Modem.Line.{
  poll_out_loop, answer_loop, after_rx, after_poll, wait_round, Waited, drain_loop, after_stale,
  wait_response, wait_into, keep_reply, Markers,
}

-- `sent` is what went out on the line: `uart_poll_out` adds a byte to it, and nothing else changes it.
pub record IsLogged {W : Type 0} (board : Board W) : Type 0 where
  pub sent : W → List ℕ
  pub poll_out_sends : (c : ℕ) (w : W) → sent (board.poll_out c w) ≡ sent w ++ c ∷ []
  pub poll_in_sends : (w : W) → sent (board.poll_in w).1 ≡ sent w
  pub sleep_sends : (ms : ℕ) (w : W) → sent (board.sleep ms w) ≡ sent w

module _ {W : Type 0} (board : Board W) (log : IsLogged board) where
  pub poll_out_loop_sends :
      (bytes : List ℕ) (w : W) → log.sent (poll_out_loop board bytes w) ≡ log.sent w ++ bytes
  unfolding poll_out_loop
  poll_out_loop_sends [] w = sym (append-nil _)
  poll_out_loop_sends (c ∷ bytes) w =
      poll_out_loop_sends bytes (board.poll_out c w)
      ∙ ap (λ s. s ++ bytes) (log.poll_out_sends c w)
      ∙ append_assoc (log.sent w) (c ∷ []) bytes

  after_stale_silent :
      (again : W → W) (polled : Option ℕ × W)
      → ((w : W) → log.sent (again w) ≡ log.sent w)
      → log.sent (after_stale board again polled) ≡ log.sent polled.1
  unfolding after_stale
  after_stale_silent again (none, w) rest = refl
  after_stale_silent again (some c, w) rest = rest w

  pub drain_loop_silent : (fuel : ℕ) (w : W) → log.sent (drain_loop board fuel w) ≡ log.sent w
  unfolding drain_loop
  drain_loop_silent zero w = refl
  drain_loop_silent (suc fuel) w =
      after_stale_silent (drain_loop board fuel) (board.poll_in w) (drain_loop_silent fuel)
      ∙ log.poll_in_sends w

  module _ (store : List ℕ → ℕ → List ℕ) (test : List ℕ → Option (Result (Unit {0}))) where
    after_rx_silent :
        (again : List ℕ → W → Waited board) (v : Option (Result (Unit {0}))) (out : List ℕ) (w : W)
        → ((out : List ℕ) (w : W) → log.sent (again out w).1 ≡ log.sent w)
        → log.sent (after_rx board again v out w).1 ≡ log.sent w
    unfolding after_rx
    after_rx_silent again (some r) out w rest = refl
    after_rx_silent again none out w rest = rest out w

    after_poll_silent :
        (again : List ℕ → W → Waited board) (out : List ℕ) (polled : Option ℕ × W)
        → ((out : List ℕ) (w : W) → log.sent (again out w).1 ≡ log.sent w)
        → log.sent (after_poll board again store test out polled).1 ≡ log.sent polled.1
    unfolding after_poll
    after_poll_silent again out (none, w) rest = rest out (board.sleep 10 w) ∙ log.sleep_sends 10 w
    after_poll_silent again out (some ch, w) rest =
        after_rx_silent again (test (c_str (store out ch))) (store out ch) w rest

    wait_round_silent :
        (again : List ℕ → W → Waited board) (out : List ℕ) (w : W) (early : Bool)
        → ((out : List ℕ) (w : W) → log.sent (again out w).1 ≡ log.sent w)
        → log.sent (wait_round board again store test out w early).1 ≡ log.sent w
    unfolding wait_round
    wait_round_silent again out w true rest =
        after_poll_silent again out (board.poll_in w) rest ∙ log.poll_in_sends w
    wait_round_silent again out w false rest = refl

    pub answer_loop_silent :
        (fuel deadline : ℕ) (out : List ℕ) (w : W)
        → log.sent (answer_loop board store test fuel deadline out w).1 ≡ log.sent w
    unfolding answer_loop
    answer_loop_silent zero deadline out w = refl
    answer_loop_silent (suc fuel) deadline out w =
        wait_round_silent (answer_loop board store test fuel deadline) out w
          (ltb (board.now w) deadline) (answer_loop_silent fuel deadline)

  kept_world : (waited : Waited board) → (keep_reply board waited).1.world ≡ waited.1
  unfolding keep_reply
  kept_world ((r, out), w) = refl

  pub wait_response_silent :
      (markers : Markers) (timeout_ms : ℕ) (s : Uart W)
      → log.sent (wait_response board markers timeout_ms s).1.world ≡ log.sent s.world
  unfolding wait_response wait_into
  wait_response_silent markers timeout_ms s =
      ap log.sent (kept_world _) ∙ answer_loop_silent _ _ board.rounds _ [] s.world
