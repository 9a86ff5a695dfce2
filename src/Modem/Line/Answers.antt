-- ===== src/Modem/Line/Answers.antt =====
-- How the waits of drivers/ec801e/ec801e.c end.
use esp32s3tinyepaper.Base.{
  ==→eq, ap, ◌∙◌, ℕ, zero, suc, ◌+◌, ◌/◌, ◌<◌, ◌≡◌, refl, ◌⊎◌, inl, inr, Bool, true, false, List,
  [], ◌∷◌, ◌++◌, Option, none, some, ltb, length, drop, length-append, length-drop, arith,
  Bool-cases,
}
use esp32s3tinyepaper.Base.Text.{codes, c_str, strstr}
use esp32s3tinyepaper.Base.Int.{ℤ, pos, eqb_ℤ, eq_of_parts}
use esp32s3tinyepaper.Base.Result.{Result, ok, err, Errno, eio, etimedout, ehostdown}
use esp32s3tinyepaper.Base.Result.Ends.{Ended, Ends}
use esp32s3tinyepaper.Modem.{Board, Uart, rx_buf_len}
use esp32s3tinyepaper.Modem.Replies.{contains_any, contains_reboot_marker}
use esp32s3tinyepaper.Modem.Line.{
  Markers, append_rx, append_or_drop, qiopen_code, of_code, qiopen_verdict, wait_qiopen_result,
  verdict, after_rx, after_poll, wait_round, answer_loop, wait_response, keep_reply, wait_into,
  Waited,
}

-- An answer holds one of the texts that are waited for.
abbrev pub IsAnswer : Markers → List ℕ → Type 0
IsAnswer markers out = contains_any (c_str out) markers.oks ≡ true

-- A failure that is no timeout: the modem restarted, or it reported an error, and the text holds none of
-- those that are waited for.
abbrev pub IsRefusal : Markers → Errno → List ℕ → Type 0
IsRefusal markers e out =
    (contains_any (c_str out) markers.oks ≡ false)
    × (((e ≡ ehostdown) × (contains_reboot_marker (c_str out) ≡ true))
        ⊎ ((e ≡ eio)
            × (contains_reboot_marker (c_str out) ≡ false)
            × (contains_any (c_str out) (markers.fails ++ codes "CME ERROR" ∷ []) ≡ true)))

abbrev pub Verdict : Markers → Result (Unit {0}) → List ℕ → Type 0
Verdict markers (ok a) out = IsAnswer markers out
Verdict markers (err e) out = (e ≡ etimedout) ⊎ IsRefusal markers e out

-- A test's outcome, if there is one, satisfies `P`.
abbrev Judged : (Result (Unit {0}) → List ℕ → Type 0) → List ℕ → Option (Result (Unit {0})) → Type 0
Judged P out none = Unit
Judged P out (some r) = P r out

verdict-Judged :
    (markers : Markers) (out : List ℕ) → Judged (Verdict markers) out (verdict markers (c_str out))
unfolding verdict
verdict-Judged markers out = elim (Bool-cases (contains_any (c_str out) markers.oks)) [
  | inl found ↦ rw found found
  | inr missing ↦ rw missing (elim (Bool-cases (contains_reboot_marker (c_str out))) [
    | inl reboot ↦ rw reboot (inr (missing, inl (refl, reboot)))
    | inr up ↦
        rw up
          (elim (Bool-cases (contains_any (c_str out) (markers.fails ++ codes "CME ERROR" ∷ []))) [
            | inl failed ↦ rw failed (inr (missing, inr (refl, up, failed)))
            | inr quiet ↦ rw quiet tt
          ])
  ])
]

-- The byte and the terminator always fit.
append_rx_fits :
    (out_len : ℕ) (out : List ℕ) (ch : ℕ)
    → 1 < out_len
    → length out < out_len
    → length (append_rx out_len out ch) < out_len
unfolding append_rx
append_rx_fits out_len out ch two h = ground (
  arith,
  length-append out (ch ∷ []),
  length-append (drop (out_len / 2) out) (ch ∷ []),
  length-drop (out_len / 2) out,
)

-- A wait ends as its tests say, or late; `I` is kept by every byte that is stored.
append_or_drop_fits :
    (out_len : ℕ) (out : List ℕ) (ch : ℕ)
    → length out < out_len
    → length (append_or_drop out_len out ch) < out_len
unfolding append_or_drop
append_or_drop_fits out_len out ch h = ground (arith, length-append out (ch ∷ []))

module _ {W : Type 0} (board : Board W) (store : List ℕ → ℕ → List ℕ)
    (test : List ℕ → Option (Result (Unit {0}))) (P : Result (Unit {0}) → List ℕ → Type 0)
    (I : List ℕ → Type 0) (judged : (out : List ℕ) → Judged P out (test (c_str out)))
    (late : (out : List ℕ) → P (err etimedout) out)
    (stored : (out : List ℕ) (ch : ℕ) → I out → I (store out ch)) where
  abbrev Ending : Waited board → Type 0
  Ending ((r, out), w) = P r out × I out

  after_rx-Ending :
      (again : List ℕ → W → Waited board) (v : Option (Result (Unit {0}))) (out : List ℕ) (w : W)
      → ((out : List ℕ) (w : W) → I out → Ending (again out w))
      → Judged P out v
      → I out
      → Ending (after_rx board again v out w)
  unfolding after_rx
  after_rx-Ending again (some r) out w rest judged fits = (judged, fits)
  after_rx-Ending again none out w rest judged fits = rest out w fits

  after_poll-Ending :
      (again : List ℕ → W → Waited board) (out : List ℕ) (polled : Option ℕ × W)
      → ((out : List ℕ) (w : W) → I out → Ending (again out w))
      → I out
      → Ending (after_poll board again store test out polled)
  unfolding after_poll
  after_poll-Ending again out (none, w) rest fits = rest out (board.sleep 10 w) fits
  after_poll-Ending again out (some ch, w) rest fits =
      after_rx-Ending again (test (c_str (store out ch))) (store out ch) w rest
        (judged (store out ch)) (stored out ch fits)

  wait_round-Ending :
      (again : List ℕ → W → Waited board) (out : List ℕ) (w : W) (early : Bool)
      → ((out : List ℕ) (w : W) → I out → Ending (again out w))
      → I out
      → Ending (wait_round board again store test out w early)
  unfolding wait_round
  wait_round-Ending again out w true rest fits =
      after_poll-Ending again out (board.poll_in w) rest fits
  wait_round-Ending again out w false rest fits = (late out, fits)

  answer_loop-Ending :
      (fuel deadline : ℕ) (out : List ℕ) (w : W)
      → I out
      → Ending (answer_loop board store test fuel deadline out w)
  unfolding answer_loop
  answer_loop-Ending zero deadline out w fits = (late out, fits)
  answer_loop-Ending (suc fuel) deadline out w fits =
      wait_round-Ending (answer_loop board store test fuel deadline) out w
        (ltb (board.now w) deadline) (answer_loop-Ending fuel deadline) fits

  pub keep_reply-Ends :
      (fuel deadline : ℕ) (w : W)
      → I []
      → Ended
          (λ a u. P (ok a) u.rsp_buf × I u.rsp_buf)
          (λ e u. P (err e) u.rsp_buf × I u.rsp_buf)
          (keep_reply board (answer_loop board store test fuel deadline [] w))
  unfolding keep_reply
  keep_reply-Ends fuel deadline w fits =
      kept (answer_loop board store test fuel deadline [] w)
        (answer_loop-Ending fuel deadline [] w fits)
    where
      kept :
          (waited : Waited board)
          → Ending waited
          → Ended
              (λ a u. P (ok a) u.rsp_buf × I u.rsp_buf)
              (λ e u. P (err e) u.rsp_buf × I u.rsp_buf)
              (keep_reply board waited)
      kept ((ok a, out), w) h = h
      kept ((err e, out), w) h = h

-- A wait that returns 0 leaves one of the texts that it waited for in the reply. A failure is a timeout,
-- or -EHOSTDOWN with a marker of a restart in the reply, or -EIO with a text of an error and no such
-- marker; with -EHOSTDOWN and -EIO none of the texts that were waited for is there, of a timeout this is
-- not said. The reply always has room for its
-- terminator.
pub wait_response-IsAnswer :
    {W : Type 0} (board : Board W) (markers : Markers) (timeout_ms : ℕ) (s : Uart W)
    → Ends
        (λ _ u. IsAnswer markers u.rsp_buf × (length u.rsp_buf < rx_buf_len))
        (λ e u. ((e ≡ etimedout) ⊎ IsRefusal markers e u.rsp_buf) × (length u.rsp_buf < rx_buf_len))
        (wait_response board markers timeout_ms)
        s
unfolding wait_response wait_into keep_reply
wait_response-IsAnswer {W} board markers timeout_ms s = record {
  ended =
      keep_reply-Ends board (append_rx rx_buf_len) (verdict markers) (Verdict markers)
        (λ out. length out < rx_buf_len) (verdict-Judged markers) (λ out. inl refl)
        (λ out ch fits. append_rx_fits rx_buf_len out ch (omega arith) fits) board.rounds
        (board.now s.world + timeout_ms) s.world (omega arith);
}

-- `+QIOPEN: 0,` stands in the reply, with the code 0 behind it, and no error does.
abbrev pub IsOpen : List ℕ → Type 0
IsOpen out =
    (contains_any (c_str out) (codes "ERROR" ∷ codes "CME ERROR" ∷ []) ≡ false)
    × (qiopen_code (strstr (c_str out) (codes "+QIOPEN: 0,")) ≡ some (pos 0))

abbrev Opened : Result (Unit {0}) → List ℕ → Type 0
Opened (ok a) out = IsOpen out
Opened (err e) out = (e ≡ etimedout) ⊎ (e ≡ eio)

qiopen_verdict-Judged : (out : List ℕ) → Judged Opened out (qiopen_verdict (c_str out))
unfolding qiopen_verdict of_code
qiopen_verdict-Judged out =
    elim (Bool-cases (contains_any (c_str out) (codes "ERROR" ∷ codes "CME ERROR" ∷ []))) [
      | inl failed ↦ rw failed (inr refl)
      | inr fine ↦
          rw fine (coded fine (qiopen_code (strstr (c_str out) (codes "+QIOPEN: 0,"))) refl)
    ]
  where
    coded :
        contains_any (c_str out) (codes "ERROR" ∷ codes "CME ERROR" ∷ []) ≡ false
        → (code : Option ℤ) → qiopen_code (strstr (c_str out) (codes "+QIOPEN: 0,")) ≡ code
        → Judged Opened out (of_code code)
    coded fine none e = tt
    coded fine (some n) e = elim (Bool-cases (eqb_ℤ n (pos 0))) [
      | inl zero_code ↦
          rw zero_code (fine, e ∙ ap some (eq_of_parts n (pos 0) (==→eq _ _ zero_code)))
      | inr other ↦ rw other (inr refl)
    ]

-- The wait for the result of an open returns 0 only on a reply with the code 0 and no error, and else
-- a timeout or an I/O error. A full buffer keeps its first bytes, so that the reply always has room for
-- its terminator.
pub wait_qiopen_result-IsOpen :
    {W : Type 0} (board : Board W) (timeout_ms : ℕ) (s : Uart W)
    → Ends
        (λ _ u. IsOpen u.rsp_buf × (length u.rsp_buf < rx_buf_len))
        (λ e u. ((e ≡ etimedout) ⊎ (e ≡ eio)) × (length u.rsp_buf < rx_buf_len))
        (wait_qiopen_result board timeout_ms)
        s
unfolding wait_qiopen_result append_or_drop
wait_qiopen_result-IsOpen board timeout_ms s = record {
  ended =
      keep_reply-Ends board (append_or_drop rx_buf_len) qiopen_verdict Opened
        (λ out. length out < rx_buf_len) qiopen_verdict-Judged (λ out. inl refl)
        (λ out ch fits. append_or_drop_fits rx_buf_len out ch fits) board.rounds
        (board.now s.world + timeout_ms) s.world (omega arith);
}
