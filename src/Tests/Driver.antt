-- ===== src/Tests/Driver.antt =====
-- The theorems on the modem's driver at concrete inputs.
use esp32s3tinyepaper.Base.{
  ℕ, ◌+◌, ◌≤◌, ◌<◌, ◌≡◌, ◌⊎◌, refl, inl, Bool, true, false, [], ◌∷◌, ◌++◌, List, Option, none, some,
  ◌==◌, if◌then◌else◌, length, arith,
}
use esp32s3tinyepaper.Base.Text.{codes, c_str, strstr, contains, has_prefix}
use esp32s3tinyepaper.Base.Int.{pos, negsuc}
use esp32s3tinyepaper.Base.Result.{ok, err, einval, enotconn, eio, etimedout}
use esp32s3tinyepaper.Base.Result.Ends.{Ends}
use esp32s3tinyepaper.Serv.Address.Roundtrip.{decimal}
use esp32s3tinyepaper.Offload.{Offload, usec, no_addr}
use esp32s3tinyepaper.Offload.Dns.{ec801e_socket_offload_init}
use esp32s3tinyepaper.Offload.Steps.{boot, after, create}
use esp32s3tinyepaper.Offload.Socket.{ec801e_sock_connect, ec801e_sock_send, ec801e_socket_create}
use esp32s3tinyepaper.Modem.{Board, Driver, rx_buf_len}
use esp32s3tinyepaper.Modem.Replies.{extract_ipv4, is_ip_char, count_dots, contains_any}
use esp32s3tinyepaper.Modem.Replies.Found.{IsAddress, Found, IsPart, extract_ipv4-Found}
use esp32s3tinyepaper.Modem.Line.{answer_loop, append_rx, verdict, wait_response}
use esp32s3tinyepaper.Modem.Line.Answers.{IsAnswer, IsRefusal, IsOpen, wait_response-IsAnswer}
use esp32s3tinyepaper.Modem.Line.Rounds.{IsPaced, answer_loop_rounds}
use esp32s3tinyepaper.Modem.Line.Sent.{IsLogged}
use esp32s3tinyepaper.Modem.Network.{ok_or_error, socket_stack_init}
use esp32s3tinyepaper.Modem.Network.Ready.{socket_stack_init_once}
use esp32s3tinyepaper.Modem.Sockets.{socket_send, socket_recv, socket_open_tcp, parse_qird}
use esp32s3tinyepaper.Modem.Sockets.Sends.{send_line, socket_send-Sends, SentPart}
use esp32s3tinyepaper.Modem.Sockets.Received.{qird_header, socket_recv-Taken, parse_qird-payload}
use esp32s3tinyepaper.Modem.Sockets.Contract.{
  Call, open_tcp, send, recv, close, SpecRun, run_calls, run_calls-Refines,
}
use esp32s3tinyepaper.Modem.Offloaded.{Kernel, ec801e_modem}
use esp32s3tinyepaper.Modem.Offloaded.Opens.{socket_open_tcp-IsOpen}
use esp32s3tinyepaper.Modem.Offloaded.Linked.{Linked}
use esp32s3tinyepaper.Modem.Offloaded.Steps.{Reachable-Linked}
use esp32s3tinyepaper.Modem.Offloaded.Tls.{connect-send_refused}

-- A line with a modem behind it: a CR makes it answer with the next reply of its script. A byte takes a
-- millisecond.
record World : Type 0 where
  incoming : List ℕ
  outgoing : List ℕ
  replies : List (List ℕ)
  clock : ℕ

abbrev take_byte : List ℕ → World → Option ℕ × World
take_byte [] w = (none, w)
take_byte (c ∷ rest) w = (some c, record w { incoming = rest; clock = w.clock + 1 })

abbrev answered : List (List ℕ) → World → World
answered [] w = w
answered (reply ∷ later) w = record w { incoming = w.incoming ++ reply; replies = later }

abbrev put_byte : ℕ → World → World
put_byte c w =
    let v = record w { outgoing = w.outgoing ++ c ∷ [] } in
    if c == 13 then answered v.replies v else v

abbrev board : Board World
board = record {
  poll_in = λ w. take_byte w.incoming w;
  poll_out = put_byte;
  now = λ w. w.clock;
  sleep = λ ms w. record w { clock = w.clock + ms };
  uart_is_ready = true;
  uart_configure = λ baud w. (ok tt, w);
  has_power_port = false;
  power_port_is_ready = false;
  power_active_low = true;
  pin_configure = λ w. (ok tt, w);
  pin_set = λ level w. w;
  pin_get = λ w. (ok 1, w);
  config_apn = codes "net";
  rounds = 400;
}

abbrev quiet : World
quiet = record { incoming = codes "OK"; outgoing = []; replies = codes ">SEND OK" ∷ []; clock = 0 }

abbrev driver : Bool → Driver World
driver opened = record {
  uart_verified = true;
  stack_ready = true;
  socket_opened = opened;
  uart = record { rsp_buf = []; world = quiet };
}

board-IsPaced : IsPaced board
board-IsPaced = record {
  depth = 0;
  room = λ w. 0;
  room_bounded = λ w. omega arith;
  sleeps = λ ms w. omega arith;
  poll_forward = λ w. forward w.incoming w;
  poll_byte = λ w c h. moved w.incoming w c h;
}
  where
    forward : (bytes : List ℕ) (w : World) → w.clock ≤ (take_byte bytes w).1.clock
    forward [] w = omega arith
    forward (c ∷ rest) w = omega arith

    moved :
        (bytes : List ℕ) (w : World) (c : ℕ)
        → (take_byte bytes w).0 ≡ some c
        → (w.clock < (take_byte bytes w).1.clock) ⊎ (0 < 0)
    moved [] w c h = cc
    moved (d ∷ rest) w c h = inl (omega arith)

board-IsLogged : IsLogged board
board-IsLogged = record {
  sent = λ w. w.outgoing;
  poll_out_sends = λ c w. put c w;
  poll_in_sends = λ w. taken w.incoming w;
  sleep_sends = λ ms w. refl;
}
  where
    answered_sends :
        (replies : List (List ℕ)) (w : World) → (answered replies w).outgoing ≡ w.outgoing
    answered_sends [] w = refl
    answered_sends (reply ∷ later) w = refl

    put : (c : ℕ) (w : World) → (put_byte c w).outgoing ≡ w.outgoing ++ c ∷ []
    put c w =
        elim (c == 13)
          as (λ b.
            (if b
              then answered w.replies (record w { outgoing = w.outgoing ++ c ∷ [] })
              else record w { outgoing = w.outgoing ++ c ∷ [] }).outgoing
            ≡ w.outgoing ++ c ∷ []) [ true ↦ answered_sends w.replies _ | false ↦ refl ]

    taken : (bytes : List ℕ) (w : World) → (take_byte bytes w).1.outgoing ≡ w.outgoing
    taken [] w = refl
    taken (c ∷ rest) w = refl

wait_response-IsAnswer_example :
    Ends
      (λ _ u. IsAnswer ok_or_error u.rsp_buf × (length u.rsp_buf < rx_buf_len))
      (λ e u.
        ((e ≡ etimedout) ⊎ IsRefusal ok_or_error e u.rsp_buf) × (length u.rsp_buf < rx_buf_len))
      (wait_response board ok_or_error 100)
      (driver true).uart
wait_response-IsAnswer_example = wait_response-IsAnswer board ok_or_error 100 (driver true).uart

answer_loop_rounds_example :
    answer_loop board (append_rx 128) (verdict ok_or_error) (101 + 50) 100 [] quiet
    ≡ answer_loop board (append_rx 128) (verdict ok_or_error) 101 100 [] quiet
answer_loop_rounds_example =
    answer_loop_rounds board board-IsPaced (append_rx 128) (verdict ok_or_error) 100 101 50 [] quiet
      (unfold board-IsPaced in omega arith)

socket_open_tcp-IsOpen_example :
    Ends
      (λ _ t. (t.socket_opened ≡ true) × IsOpen t.uart.rsp_buf)
      (λ e t. (t.socket_opened ≡ false) × ((e ≡ einval) ⊎ (e ≡ etimedout) ⊎ (e ≡ eio)))
      (socket_open_tcp board (codes "10.0.0.1") 80)
      (driver false)
socket_open_tcp-IsOpen_example = socket_open_tcp-IsOpen board (codes "10.0.0.1") 80 (driver false)

socket_send-Sends_example :
    Ends
      (λ n t.
        (true ≡ true)
        × (0 < 2)
        × (n ≡ 2)
        × (board-IsLogged.sent t.uart.world
            ≡ (board-IsLogged.sent quiet ++ send_line 2) ++ codes "hi"))
      (λ e t.
        ((t ≡ driver true) × (length (codes "hi") ≡ 0) × (e ≡ einval))
        ⊎ ((t ≡ driver true) × (0 < 2) × (true ≡ false) × (e ≡ enotconn))
        ⊎ ((true ≡ true)
            × (0 < 2)
            × SentPart board board-IsLogged (send_line 2) (codes "hi") (driver true).uart t.uart))
      (socket_send board (codes "hi"))
      (driver true)
socket_send-Sends_example = socket_send-Sends board board-IsLogged (codes "hi") (driver true)

abbrev room : ℕ
room = 16

socket_recv-Taken_example :
    Ends
      (λ bytes t.
        (true ≡ true) × (0 < length bytes) × (length bytes ≤ 16) × IsPart bytes t.uart.rsp_buf)
      (λ e t.
        ((t ≡ driver true) × (room ≡ 0) × (e ≡ einval))
        ⊎ ((t ≡ driver true) × (0 < 16) × (true ≡ false) × (e ≡ enotconn))
        ⊎ ((true ≡ true) × (0 < 16)))
      (socket_recv board 16 3000)
      (driver true)
socket_recv-Taken_example = socket_recv-Taken board 16 3000 (driver true)

parse_qird-payload_example :
    parse_qird 16 (qird_header 5 ++ (codes "hello" ++ codes "\r\n\r\nOK\r\n")) ≡ ok (codes "hello")
parse_qird-payload_example =
    parse_qird-payload 16 (codes "hello") (codes "\r\n\r\nOK\r\n") (omega arith) (omega arith)
      (omega arith) (unfold contains_any contains strstr has_prefix c_str decimal in refl)

abbrev address : List ℕ
address = codes "10.20.30.40"

address-IsAddress : IsAddress address
unfolding is_ip_char count_dots
address-IsAddress = record {
  chars =
      (refl, (refl, (refl, (refl, (refl, (refl, (refl, (refl, (refl, (refl, (refl, tt)))))))))));
  three = refl;
  first = refl;
}

extract_ipv4-Found_example :
    ((16 < 8) × (extract_ipv4 address 16 ≡ err einval))
    ⊎ ((8 ≤ 16) × Found 16 address (extract_ipv4 address 16))
extract_ipv4-Found_example = extract_ipv4-Found address 16

abbrev calls : List Call
calls = open_tcp (codes "10.0.0.1") 80 ∷ send (codes "hi") ∷ close ∷ recv 8 3000 ∷ []

run_calls-Refines_example :
    SpecRun false calls
      (run_calls board calls (driver false)).0
      (run_calls board calls (driver false)).1.socket_opened
run_calls-Refines_example = run_calls-Refines board calls (driver false)

socket_stack_init_once_example :
    Ends
      (λ _ t. (apn' : Option (List ℕ)) → socket_stack_init board apn' t ≡ (ok tt, t))
      (λ _ t. t.stack_ready ≡ false)
      (socket_stack_init board none)
      (driver false)
socket_stack_init_once_example = socket_stack_init_once board none (driver false)

abbrev kernel : Kernel World
kernel = record {
  reserve_fd = λ w. (ok 3, w);
  ntop = λ addr. some (codes "10.0.0.1");
  pton = λ ip. some 1;
  ticks_to_ms_floor32 = λ t. pos 3000;
}

abbrev system : Offload (Driver World)
system = record {
  g_ctx = record {
    fd = negsuc 0;
    protocol = 0;
    allocated = false;
    connected = false;
    use_tls = false;
    peer = no_addr;
    recv_timeout = usec 0;
    send_timeout = usec 0;
    tls_peer_verify = pos 0;
    tls_hostname = [];
  };
  g_dns_result = record { canonname = []; ai_addr = no_addr };
  g_offload_registered = false;
  modem = driver false;
}

abbrev started : Offload (Driver World)
started = ec801e_socket_offload_init system

Reachable-Linked_example : Linked (ec801e_socket_create (ec801e_modem board kernel) 1 1 6 started).1
Reachable-Linked_example = Reachable-Linked board kernel (
    after started (ec801e_socket_create (ec801e_modem board kernel) 1 1 6 started).1
      (boot system refl) (create 1 1 6 started))

abbrev tls_socket : Offload (Driver World)
tls_socket = record system {
  g_ctx = record system.g_ctx { allocated = true; protocol = 258; use_tls = true };
}

connect-send_refused_example :
    Ends
      (λ _ t.
        (t.g_ctx.connected ≡ true)
        × (ec801e_sock_send (ec801e_modem board kernel) (codes "hi") 0 none 0 t
            ≡ (err enotconn, t)))
      (λ _ t. t.g_ctx.connected ≡ false)
      (ec801e_sock_connect
        (ec801e_modem board kernel)
        (some (record { family = 1; port = 443; addr = 1 }))
        8)
      tls_socket
connect-send_refused_example =
    connect-send_refused board kernel (some (record { family = 1; port = 443; addr = 1 })) 8
      (codes "hi") tls_socket refl refl refl (omega arith)
