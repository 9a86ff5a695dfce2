-- ===== src/Tests/Gateway.antt =====
-- The theorems on the gateway's link at concrete inputs.
use esp32s3tinyepaper.Base.{
  ℕ, ◌+◌, ◌-◌, ◌≤◌, ◌≡◌, refl, sym, ap, List, [], ◌∷◌, ◌++◌, some, length, take, drop, replicate,
  arith, length-take, take-append-drop, min,
}
use esp32s3tinyepaper.Base.Result.{Result, ok, err, eio}
use esp32s3tinyepaper.Base.Result.Ends.{Ends}
use esp32s3tinyepaper.Link.Socket.{Tcp, send_all, recv_all}
use esp32s3tinyepaper.Link.Socket.Rounds.{IsClock}
use esp32s3tinyepaper.Link.Socket.Streams.{
  Streams, Whole, Part, Got, Consumed, send_all_sends, recv_all_receives,
}
use esp32s3tinyepaper.Link.Frame.{FrameHeader, HeaderCodec, frame_header, write_frame, read_frame}
use esp32s3tinyepaper.Link.Frame.Carried.{
  frame, Written, PartOf, Read, write_frame_sends, read_frame_reads,
}
use esp32s3tinyepaper.Link.Session.{DroneCodec, exchange, fill_drone, run_roundtrip_session}
use esp32s3tinyepaper.Link.Socket.Fds.{CountsFds}
use esp32s3tinyepaper.Link.Session.Closed.{run_roundtrip_session_closes}
use esp32s3tinyepaper.Link.Frame.Returned.{read_frame-frame}
use esp32s3tinyepaper.Link.Session.Echo.{Echoed, exchange_echoes}
use esp32s3tinyepaper.Link.Session.Rounds.{CountsCalls, run_roundtrip_session_connects_once}

-- A peer that takes at most three bytes at a time, and gives at most two.
record Pipe : Type 0 where
  sent : List ℕ
  waiting : List ℕ
  clock : ℕ

unfoldable pipe : Tcp Pipe
pipe = record {
  send = λ sock buf n.
      (ok (min 3 (length buf)), record n { sent = n.sent ++ take (min 3 (length buf)) buf });
  recv = λ sock len n.
      (ok (take (min 2 len) n.waiting), record n { waiting = drop (min 2 len) n.waiting });
  now = λ n. n.clock;
  sleep = λ ms n. record n { clock = n.clock + ms };
  pton = λ text. some 1;
  socket = λ n. (ok 0, n);
  setsockopt = λ sock o ms n. n;
  connect = λ sock ip port n. (ok tt, n);
  close = λ sock n. n;
}

pipe-IsClock : IsClock pipe
unfolding pipe
pipe-IsClock = record {
  send_forward = λ sock buf n. omega arith;
  recv_forward = λ sock len n. omega arith;
  sleeps = λ ms n. omega arith;
}

take_short : (k len : ℕ) (l bytes : List ℕ) → k ≤ len → take k l ≡ bytes → length bytes ≤ len
take_short k len l bytes h e = omega (arith, length-take k l, ap length (sym e))

same_list : (l bytes : List ℕ) → ◌≡◌ {A = Result (List ℕ)} (ok l) (ok bytes) → l ≡ bytes
same_list l bytes e = ap (λ r. elim r as (λ _. List ℕ) [ ok b ↦ b | err x ↦ [] ]) e

pipe-Streams : Streams pipe 0 (λ n. n.sent) (λ n. n.waiting)
unfolding pipe
pipe-Streams = record {
  send_passed = λ buf n. refl;
  recv_coming = λ len n. sym (take-append-drop (min 2 len) n.waiting);
  recv_fits = λ len n bytes e.
      take_short (min 2 len) len n.waiting bytes (omega arith) (same_list _ bytes e);
  recv_passed = λ len n. refl;
  sleep_passed = λ ms n. refl;
  sleep_coming = λ ms n. refl;
}

abbrev hello : List ℕ
hello = 1 ∷ 2 ∷ 3 ∷ 4 ∷ 5 ∷ []

-- A header as its four fields, none of which is above 255 here.
unfoldable four_bytes : HeaderCodec
four_bytes = record {
  encode = λ h. h.magic ∷ h.version ∷ h.payload_type ∷ h.payload_length ∷ [];
  decode = read;
}
  where
    read : List ℕ → ℕ × FrameHeader
    read (m ∷ v ∷ t ∷ l ∷ rest) =
        (4, record { magic = m; version = v; payload_type = t; payload_length = l })
    read _ = (0, record { magic = 0; version = 0; payload_type = 0; payload_length = 0 })

abbrev answered : Pipe
answered = record { sent = []; waiting = 0xB1 ∷ 0 ∷ 1 ∷ 5 ∷ 1 ∷ 2 ∷ 3 ∷ 4 ∷ 5 ∷ 9 ∷ []; clock = 0 }

send_all_sends_example :
    Ends
      (λ _ t. Whole pipe 0 (λ n. n.sent) (λ n. n.waiting) pipe-Streams [] hello t)
      (λ _ t. Part pipe 0 (λ n. n.sent) (λ n. n.waiting) pipe-Streams [] hello t)
      (send_all pipe 0 hello)
      answered
send_all_sends_example =
    send_all_sends pipe 0 (λ n. n.sent) (λ n. n.waiting) pipe-Streams hello answered

recv_all_receives_example :
    Ends
      (Got pipe 0 (λ n. n.sent) (λ n. n.waiting) pipe-Streams answered.waiting [] 5)
      (λ _ t. Consumed pipe 0 (λ n. n.sent) (λ n. n.waiting) pipe-Streams answered.waiting [] t)
      (recv_all pipe 0 5)
      answered
recv_all_receives_example =
    recv_all_receives pipe 0 (λ n. n.sent) (λ n. n.waiting) pipe-Streams 5 answered

write_frame_sends_example :
    Ends
      (λ _ t.
        Written four_bytes pipe 0 (λ n. n.sent) (λ n. n.waiting) pipe-Streams hello answered t)
      (λ _ t.
        PartOf four_bytes pipe 0
          (λ n. n.sent)
          (λ n. n.waiting)
          pipe-Streams
          []
          (frame four_bytes pipe 0 (λ n. n.sent) (λ n. n.waiting) pipe-Streams hello)
          t)
      (write_frame four_bytes pipe 0 hello)
      answered
write_frame_sends_example =
    write_frame_sends four_bytes pipe 0 (λ n. n.sent) (λ n. n.waiting) pipe-Streams hello answered

read_frame_reads_example :
    Ends
      (Read four_bytes pipe 0 (λ n. n.sent) (λ n. n.waiting) pipe-Streams 65 answered)
      (λ _ _. Unit {0})
      (read_frame four_bytes pipe 0 65)
      answered
read_frame_reads_example =
    read_frame_reads four_bytes pipe 0 (λ n. n.sent) (λ n. n.waiting) pipe-Streams 65 answered

read_frame-frame_example :
    Ends
      (λ reply t. (reply ≡ hello) × (t.waiting ≡ 9 ∷ []))
      (λ e _. e ≡ eio)
      (read_frame four_bytes pipe 0 65)
      answered
unfolding four_bytes frame_header
read_frame-frame_example =
    read_frame-frame four_bytes pipe 0 (λ n. n.sent) (λ n. n.waiting) pipe-Streams hello (9 ∷ []) 65
      answered (omega arith) refl refl refl

abbrev zeros : DroneCodec
zeros = record { encode = λ drone. replicate 65 0; decode = λ bytes. (65, fill_drone 0) }

-- A network whose state is the number of open sockets, and whose peer never answers.
abbrev counting : Tcp ℕ
counting = record {
  send = λ sock buf n. (ok (length buf), n);
  recv = λ sock len n. (err eio, n);
  now = λ n. 0;
  sleep = λ ms n. n;
  pton = λ text. some 1;
  socket = λ n. (ok 0, n + 1);
  setsockopt = λ sock o ms n. n;
  connect = λ sock ip port n. (ok tt, n);
  close = λ sock n. n - 1;
}

counting-CountsFds : CountsFds counting (λ n. n)
counting-CountsFds = record {
  socket = λ n. refl;
  close = λ sock n. refl;
  setsockopt = λ sock o ms n. refl;
  connect = λ sock ip port n. refl;
  send = λ sock buf n. refl;
  recv = λ sock len n. refl;
  sleep = λ ms n. refl;
}

run_roundtrip_session_closes_example :
    (run_roundtrip_session four_bytes zeros counting (b'1' ∷ []) 80 2).1 ≡ 2
run_roundtrip_session_closes_example =
    run_roundtrip_session_closes counting (λ n. n) counting-CountsFds four_bytes zeros (b'1' ∷ [])
      80 2

-- A network whose state is the number of sockets that were asked for, and whose peer never answers.
abbrev asking : Tcp ℕ
asking = record {
  send = λ sock buf n. (ok (length buf), n);
  recv = λ sock len n. (err eio, n);
  now = λ n. 0;
  sleep = λ ms n. n;
  pton = λ text. some 1;
  socket = λ n. (ok 0, n + 1);
  setsockopt = λ sock o ms n. n;
  connect = λ sock ip port n. (ok tt, n);
  close = λ sock n. n;
}

asking-CountsCalls : CountsCalls asking (λ n. n)
asking-CountsCalls = record {
  passive = record { send = λ sock buf n. refl; recv = λ sock len n. refl; sleep = λ ms n. refl };
  socket = λ n. refl;
  close = λ sock n. refl;
  setsockopt = λ sock o ms n. refl;
  connect = λ sock ip port n. refl;
}

run_roundtrip_session_connects_once_example :
    (run_roundtrip_session four_bytes zeros asking (b'1' ∷ []) 80 2).1 ≡ 2 + 1
run_roundtrip_session_connects_once_example =
    run_roundtrip_session_connects_once asking (λ n. n) asking-CountsCalls four_bytes zeros
      (b'1' ∷ []) 80 2

-- The peer has sent the frame of 65 zeros.
abbrev echoing : Pipe
echoing = record { sent = []; waiting = 0xB1 ∷ 0 ∷ 1 ∷ 65 ∷ replicate 65 0; clock = 0 }

exchange_echoes_example :
    Ends
      (λ _ t.
        Echoed four_bytes zeros pipe 0
          (λ n. n.sent)
          (λ n. n.waiting)
          pipe-Streams
          (replicate 65 0)
          echoing
          t)
      (λ _ _. Unit {0})
      (exchange four_bytes zeros pipe 0 (replicate 65 0))
      echoing
exchange_echoes_example =
    exchange_echoes four_bytes zeros pipe 0 (λ n. n.sent) (λ n. n.waiting) pipe-Streams
      (replicate 65 0) echoing
