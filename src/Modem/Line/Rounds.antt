-- ===== src/Modem/Line/Rounds.antt =====
-- The rounds of the waits of drivers/ec801e/ec801e.c.
use esp32s3tinyepaper.Base.{
  ℕ, zero, suc, ◌+◌, ◌-◌, ◌*◌, ◌≤◌, ◌<◌, ◌≡◌, refl, sym, ◌⊎◌, inl, inr, Bool, true, false, List,
  Option, none, some, ltb, arith, ltb→lt,
}
use esp32s3tinyepaper.Base.Text.{c_str}
use esp32s3tinyepaper.Base.Result.{Result}
use esp32s3tinyepaper.Modem.{Board}
use esp32s3tinyepaper.Modem.Line.{
  after_rx, after_poll, wait_round, answer_loop, Waited, drain_loop, after_stale,
}

-- The clock never runs back, `k_sleep` takes the time it is given, and the line hands out at most
-- `depth` bytes before the clock moves: `room` is how many of them are left.
pub record IsPaced {W : Type 0} (board : Board W) : Type 0 where
  pub depth : ℕ
  pub room : W → ℕ
  pub room_bounded : (w : W) → room w ≤ depth
  pub sleeps : (ms : ℕ) (w : W) → board.now w + ms ≤ board.now (board.sleep ms w)
  pub poll_forward : (w : W) → board.now w ≤ board.now (board.poll_in w).1
  pub poll_byte :
      (w : W) (c : ℕ)
      → (board.poll_in w).0 ≡ some c
      → (board.now w < board.now (board.poll_in w).1) ⊎ (room (board.poll_in w).1 < room w)

-- The bytes that can still come before the deadline.
abbrev pub left : {W : Type 0} (board : Board W) → IsPaced board → ℕ → W → ℕ
left board paced deadline w = (deadline - board.now w) * suc (paced.depth) + paced.room w

mul_less : (a b k : ℕ) → a < b → a * k + k ≤ b * k
mul_less a zero k h = absurd (omega arith)
mul_less a (suc b) k h = ground (arith, mul_mono a b k)
  where
    mul_mono : (a b k : ℕ) → a ≤ b → a * k ≤ b * k
    mul_mono zero b k h = omega arith
    mul_mono (suc a) zero k h = absurd (omega arith)
    mul_mono (suc a) (suc b) k h = omega (arith, mul_mono a b k (omega arith))

lt_or_eq : {a b : ℕ} → a ≤ b → (a < b) ⊎ (a ≡ b)
lt_or_eq h = ground arith

module _ {W : Type 0} (board : Board W) (paced : IsPaced board) where
  -- Either the clock moved, or a byte of those that were left is gone.
  left_less :
      (deadline : ℕ) (v w : W)
      → board.now v < deadline
      → board.now v ≤ board.now w
      → (board.now v < board.now w) ⊎ (paced.room w < paced.room v)
      → left board paced deadline w < left board paced deadline v
  left_less deadline v w early forward (inl later) = omega (
    arith,
    mul_less (deadline - board.now w) (deadline - board.now v) (suc paced.depth) (omega arith),
    paced.room_bounded w,
  )
  left_less deadline v w early forward (inr fewer) = elim (lt_or_eq forward) [
    | inl later ↦ omega (
      arith,
      mul_less (deadline - board.now w) (deadline - board.now v) (suc paced.depth) (omega arith),
      paced.room_bounded w,
    )
    | inr same ↦ rw (sym same) (omega arith)
  ]

  module _ (store : List ℕ → ℕ → List ℕ) (test : List ℕ → Option (Result (Unit {0})))
      (deadline : ℕ) where
    -- Two ways to go on that agree wherever less is left.
    abbrev Agree : ℕ → (List ℕ → W → Waited board) → (List ℕ → W → Waited board) → Type 0
    Agree most again once =
        (out : List ℕ) (w : W) → left board paced deadline w < most → again out w ≡ once out w

    after_rx_same :
        (again once : List ℕ → W → Waited board) (v : Option (Result (Unit {0}))) (out : List ℕ)
        (w : W) (most : ℕ)
        → left board paced deadline w < most
        → Agree most again once
        → after_rx board again v out w ≡ after_rx board once v out w
    unfolding after_rx
    after_rx_same again once (some r) out w most h agree = refl
    after_rx_same again once none out w most h agree = agree out w h

    after_poll_same :
        (again once : List ℕ → W → Waited board) (out : List ℕ) (w : W) (polled : Option ℕ × W)
        → board.now w < deadline
        → board.now w ≤ board.now polled.1
        → ((c : ℕ)
            → polled.0 ≡ some c
            → (board.now w < board.now polled.1) ⊎ (paced.room polled.1 < paced.room w))
        → Agree (left board paced deadline w) again once
        → after_poll board again store test out polled ≡ after_poll board once store test out polled
    unfolding after_poll
    after_poll_same again once out w (none, v) early forward byte agree =
        agree out (board.sleep 10 v) (
          left_less deadline w (board.sleep 10 v) early (omega (arith, paced.sleeps 10 v))
            (inl (omega (arith, paced.sleeps 10 v))))
    after_poll_same again once out w (some ch, v) early forward byte agree =
        after_rx_same again once (test (c_str (store out ch))) (store out ch) v _
          (left_less deadline w v early forward (byte ch refl)) agree

    wait_round_same :
        (again once : List ℕ → W → Waited board) (out : List ℕ) (w : W) (early : Bool)
        → (early ≡ true → board.now w < deadline)
        → Agree (left board paced deadline w) again once
        → wait_round board again store test out w early
          ≡ wait_round board once store test out w early
    unfolding wait_round
    wait_round_same again once out w true early agree =
        after_poll_same again once out w (board.poll_in w) (early refl) (paced.poll_forward w)
          (paced.poll_byte w) agree
    wait_round_same again once out w false early agree = refl

    -- Once a wait has more rounds than bytes and milliseconds can be left, further rounds change nothing:
    -- it ends with the deadline or before it, never for want of rounds.
    pub answer_loop_rounds :
        (fuel extra : ℕ) (out : List ℕ) (w : W)
        → left board paced deadline w < fuel
        → answer_loop board store test (fuel + extra) deadline out w
          ≡ answer_loop board store test fuel deadline out w
    unfolding answer_loop
    answer_loop_rounds zero extra out w h = absurd (omega arith)
    answer_loop_rounds (suc fuel) extra out w h = rw (add_suc fuel extra) (
        wait_round_same (answer_loop board store test (fuel + extra) deadline)
          (answer_loop board store test fuel deadline) out w (ltb (board.now w) deadline)
          (ltb→lt (board.now w) deadline)
          (λ out v less. answer_loop_rounds fuel extra out v (omega arith)))
      where
        add_suc : (a b : ℕ) → suc a + b ≡ suc (a + b)
        add_suc a b = omega arith

-- Taking the stale bytes is faster than the line brings new ones: `stale` of them can still be found.
pub record IsDrained {W : Type 0} (board : Board W) : Type 0 where
  pub stale : W → ℕ
  pub poll_takes :
      (w : W) (c : ℕ) → (board.poll_in w).0 ≡ some c → stale (board.poll_in w).1 < stale w

module _ {W : Type 0} (board : Board W) (drained : IsDrained board) where
  after_stale_same :
      (again once : W → W) (most : ℕ) (polled : Option ℕ × W)
      → ((c : ℕ) → polled.0 ≡ some c → drained.stale polled.1 < most)
      → ((w : W) → drained.stale w < most → again w ≡ once w)
      → after_stale board again polled ≡ after_stale board once polled
  unfolding after_stale
  after_stale_same again once most (none, w) byte agree = refl
  after_stale_same again once most (some c, w) byte agree = agree w (byte c refl)

  -- With more rounds than stale bytes, further rounds find nothing more.
  pub drain_loop_rounds :
      (fuel extra : ℕ) (w : W)
      → drained.stale w < fuel
      → drain_loop board (fuel + extra) w ≡ drain_loop board fuel w
  unfolding drain_loop
  drain_loop_rounds zero extra w h = absurd (omega arith)
  drain_loop_rounds (suc fuel) extra w h = rw (add_suc fuel extra) (
      after_stale_same (drain_loop board (fuel + extra)) (drain_loop board fuel) (drained.stale w)
        (board.poll_in w) (drained.poll_takes w)
        (λ v less. drain_loop_rounds fuel extra v (omega arith)))
    where
      add_suc : (a b : ℕ) → suc a + b ≡ suc (a + b)
      add_suc a b = omega arith
