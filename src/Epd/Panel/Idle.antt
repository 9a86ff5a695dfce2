-- ===== src/Epd/Panel/Idle.antt =====
-- Waiting for the panel in src/epd200x200.c: the rounds of the loop.
use esp32s3tinyepaper.Base.{
  ℕ, zero, suc, ◌+◌, ◌*◌, ◌/◌, ◌≤◌, ◌≡◌, refl, false, List, ◌∷◌, ltb, ◌==◌, arith, inl, inr,
  Bool-cases,
}
use esp32s3tinyepaper.Base.Result.{Result-cases}
use esp32s3tinyepaper.Epd.Panel.{
  Call, gpio_get, sleep, uptime, Board, Epd, call, k_uptime_get, k_sleep, wait_loop, wait_idle,
  epd_busy_pin,
}

-- The clock never runs back, and `k_sleep` takes at least the time it was given.
pub record IsClock (board : Board) : Type 0 where
  pub forward : (c : Call) (log : List Call) → board.now log ≤ board.now (c ∷ log)
  pub sleeps : (ms : ℕ) (log : List Call) → board.now log + ms ≤ board.now (sleep ms ∷ log)

module _ (board : Board) (clock : IsClock board) where
  -- With rounds for the time that is left, more rounds change nothing: the loop ends by a test of its
  -- own, never because the rounds are used up.
  pub wait_loop_rounds :
      (f g deadline : ℕ) (s : Epd)
      → deadline ≤ board.now s.calls + 10 * f
      → deadline ≤ board.now s.calls + 10 * g
      → wait_loop board (suc f) deadline s ≡ wait_loop board (suc g) deadline s
  unfolding wait_loop k_uptime_get call k_sleep
  wait_loop_rounds zero g deadline s hf hg =
      let late : ltb (board.now (uptime ∷ s.calls)) deadline ≡ false =
        ground (arith, clock.forward uptime s.calls) in
      rw late refl
  wait_loop_rounds (suc f) zero deadline s hf hg =
      let late : ltb (board.now (uptime ∷ s.calls)) deadline ≡ false =
        ground (arith, clock.forward uptime s.calls) in
      rw late refl
  wait_loop_rounds (suc f) (suc g) deadline s hf hg =
      let tested = uptime ∷ s.calls in
      let polled = gpio_get epd_busy_pin ∷ tested in
      elim (Bool-cases (ltb (board.now tested) deadline)) [
        | inr late ↦ rw late refl
        | inl early ↦ rw early (elim (Result-cases (board.reply polled)) [
          | inr (e, failed) ↦ rw failed refl
          | inl (busy, answered) ↦ rw answered (elim (Bool-cases (busy == 0)) [
            | inl idle ↦ rw idle refl
            | inr still ↦ rw still (
                wait_loop_rounds f g deadline (record s { calls = sleep 10 ∷ polled }) (slept f hf)
                  (slept g hg))
          ])
        ])
      ]
    where
      slept :
          (k : ℕ)
          → deadline ≤ board.now s.calls + 10 * suc k
          → deadline ≤ board.now (sleep 10 ∷ gpio_get epd_busy_pin ∷ uptime ∷ s.calls) + 10 * k
      slept k h = omega (
        arith,
        clock.forward uptime s.calls,
        clock.forward (gpio_get epd_busy_pin) (uptime ∷ s.calls),
        clock.sleeps 10 (gpio_get epd_busy_pin ∷ uptime ∷ s.calls),
      )

  -- The rounds that `wait_idle` is given are enough for its timeout: any larger number of rounds gives
  -- the same result and the same calls.
  pub wait_idle_rounds :
      (extra timeout_ms : ℕ) (s : Epd)
      → wait_idle board timeout_ms s
        ≡ wait_loop board
            (timeout_ms / 10 + 2 + extra)
            (board.now (uptime ∷ s.calls) + timeout_ms)
            (record s { calls = uptime ∷ s.calls })
  unfolding wait_idle k_uptime_get
  wait_idle_rounds extra timeout_ms s =
      let few : timeout_ms / 10 + 2 ≡ suc (timeout_ms / 10 + 1) = omega arith in
      let many : timeout_ms / 10 + 2 + extra ≡ suc (timeout_ms / 10 + 1 + extra) = omega arith in
      rw (many, few)
        (wait_loop_rounds (timeout_ms / 10 + 1) (timeout_ms / 10 + 1 + extra)
          (board.now (uptime ∷ s.calls) + timeout_ms) (record s { calls = uptime ∷ s.calls })
          (omega arith) (omega arith))
