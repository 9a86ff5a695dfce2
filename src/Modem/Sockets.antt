-- ===== src/Modem/Sockets.antt =====
-- The modem's one socket: `ec801e_resolve_ipv4`, `ec801e_socket_open_tcp`, `_open_ssl`, `_send`,
-- `_recv` and `_close` of drivers/ec801e/ec801e.c. Host names and buffers are not NULL here.
pub mod Sends
pub mod Contract
pub mod Received
use esp32s3tinyepaper.Base.{
  ◌%◌, ◌^◌, ℕ, zero, suc, ◌+◌, ◌-◌, ◌≤◌, min, Bool, true, false, not, ◌&&◌, ◌||◌, List, [], ◌∷◌,
  ◌++◌, Option, none, some, ltb, leb, ◌==◌, if◌then◌else◌, length, take, drop,
}
use esp32s3tinyepaper.Base.Text.{codes, c_str, strstr, contains}
use esp32s3tinyepaper.Base.Result.{
  Result, ok, err, Errno, einval, enotconn, eio, eagain, ebadmsg, enoent, Action, pure, raise,
  raise_if, gets, modify, with_state, attempt, ignore, of_result, ◌>>=◌, ◌>>◌,
}
use esp32s3tinyepaper.Serv.Address.Roundtrip.{decimal}
use esp32s3tinyepaper.Modem.{
  Board, Uart, Driver, cmd_buf_len, short_timeout_ms, medium_timeout_ms, long_timeout_ms, on_uart,
}
use esp32s3tinyepaper.Modem.Replies.{contains_any, extract_ipv4, scan_uint}
use esp32s3tinyepaper.Modem.Line.{
  Markers, uart_write, send_cmd, wait_response, wait_qiopen_result, drain_rx, collect, cmd_format,
}
use esp32s3tinyepaper.Modem.Commands.{cmd_expect_retry, close_stale}
use esp32s3tinyepaper.Modem.Network.{ok_or_error, only_ok}

-- `%u` of a number that is cast to `unsigned int`, of 32 bits.
abbrev pub uint : ℕ → List ℕ
uint n = decimal 10 (n % 2 ^ 32)

-- `snprintk` into a buffer: what does not fit is cut off.
unfoldable pub snprint : ℕ → List ℕ → List ℕ
snprint buf_len text = take (buf_len - 1) text

abbrev pub prompt_markers : Markers
prompt_markers = record { oks = codes ">" ∷ []; fails = codes "ERROR" ∷ codes "CME ERROR" ∷ [] }

abbrev pub sent_markers : Markers
sent_markers = record { oks = codes "SEND OK" ∷ []; fails = codes "SEND FAIL" ∷ codes "ERROR" ∷ [] }

abbrev pub dns_markers : Markers
dns_markers = record {
  oks = codes "+QIDNSGIP:" ∷ [];
  fails = codes "ERROR" ∷ codes "CME ERROR" ∷ [];
}

-- `dns_cmd_candidates`, with the host filled in.
unfoldable pub dns_commands : List ℕ → List (List ℕ)
dns_commands host =
    (codes "AT+QIDNSGIP=\"" ++ host ++ codes "\"")
    ∷ (codes "AT+QIDNSGIP=1,\"" ++ host ++ codes "\"")
    ∷ (codes "AT+QIDNSGIP=1,\"" ++ host ++ codes "\",1")
    ∷ []

-- What `ec801e_socket_recv` makes of the collected bytes `raw`: from `payload_start` on, which is the
-- text behind the header's line end.
unfoldable pub take_payload : ℕ → ℕ → List ℕ → ℕ → Option (List ℕ) → Result (List ℕ)
take_payload buf_len n raw header none = err ebadmsg
take_payload buf_len n raw header (some line_end) =
    let start = header - length line_end + 2 in
    if ltb (length raw - start) n then err ebadmsg else ok (take (min n buf_len) (drop start raw))

-- `header` is where the text ends that starts with "+QIRD:".
unfoldable pub of_count : ℕ → List ℕ → List ℕ → Option ℕ → Result (List ℕ)
of_count buf_len raw p none = err eagain
of_count buf_len raw p (some n) =
    if n == 0
    then err eagain
    else take_payload buf_len n raw (length (c_str raw)) (strstr p (codes "\r\n"))

unfoldable pub of_header : ℕ → List ℕ → Option (List ℕ) → Result (List ℕ)
of_header buf_len raw none = err eagain
of_header buf_len raw (some p) = of_count buf_len raw p (scan_uint (drop 6 p))

unfoldable pub parse_qird : ℕ → List ℕ → Result (List ℕ)
parse_qird buf_len raw =
    if contains_any (c_str raw) (codes "ERROR" ∷ codes "CME ERROR" ∷ [])
    then err eio
    else of_header buf_len raw (strstr (c_str raw) (codes "+QIRD:"))

module _ {W : Type 0} (board : Board W) where
  -- A late reply is waited for, and read if it came.
  unfoldable pub after_urc : ℕ → Result (Unit {0}) → Action (Uart W) (List ℕ)
  after_urc ip_len (err e) = raise e
  after_urc ip_len (ok a) = do
    rsp ← gets (λ u. c_str u.rsp_buf)
    of_result (extract_ipv4 rsp ip_len)

  unfoldable pub after_extract : ℕ → Result (List ℕ) → Action (Uart W) (List ℕ)
  after_extract ip_len (ok ip) = pure ip
  after_extract ip_len (err e) = do
    r ← attempt (wait_response board dns_markers medium_timeout_ms)
    after_urc ip_len r

  unfoldable pub try_lookup : ℕ → List ℕ → Action (Uart W) (List ℕ)
  try_lookup ip_len text = do
    cmd ← cmd_format cmd_buf_len text
    drain_rx board
    send_cmd board cmd
    wait_response board ok_or_error long_timeout_ms
    rsp ← gets (λ u. c_str u.rsp_buf)
    after_extract ip_len (extract_ipv4 rsp ip_len)

  unfoldable pub or_next : Action (Uart W) (List ℕ) → Result (List ℕ) → Action (Uart W) (List ℕ)
  or_next next (ok ip) = pure ip
  or_next next (err e) = next

  unfoldable pub resolve_loop : ℕ → List (List ℕ) → Action (Uart W) (List ℕ)
  resolve_loop ip_len [] = raise enoent
  resolve_loop ip_len (text ∷ texts) = do
    r ← attempt (try_lookup ip_len text)
    or_next (resolve_loop ip_len texts) r

  unfoldable pub resolve_ipv4 : List ℕ → ℕ → Action (Uart W) (List ℕ)
  resolve_ipv4 host ip_len = do
    raise_if (ip_len == 0) einval
    resolve_loop ip_len (dns_commands host)

  unfoldable pub open_on_line : List ℕ → ℕ → Action (Uart W) (Unit {0})
  open_on_line remote_ip remote_port = do
    ignore (close_stale board)
    cmd ← cmd_format cmd_buf_len (
        codes "AT+QIOPEN=1,0,\"TCP\",\""
        ++ remote_ip
        ++ codes "\","
        ++ uint remote_port
        ++ codes ",0,0")
    drain_rx board
    send_cmd board cmd
    wait_qiopen_result board long_timeout_ms

  unfoldable pub set_opened : Bool → Action (Driver W) (Unit {0})
  set_opened b = modify (λ s. record s { socket_opened = b })

  unfoldable pub socket_open_tcp : List ℕ → ℕ → Action (Driver W) (Unit {0})
  socket_open_tcp remote_ip remote_port = do
    raise_if (remote_port == 0) einval
    on_uart (open_on_line remote_ip remote_port)
    set_opened true

  -- One command with one try, and another form of it if it fails.
  unfoldable pub after_ssl_option : List ℕ → Result (Unit {0}) → Action (Uart W) (Unit {0})
  after_ssl_option fallback (ok a) = pure tt
  after_ssl_option fallback (err e) = ignore (
      cmd_expect_retry board (snprint 128 fallback) (codes "OK" ∷ codes "ERROR" ∷ [])
        medium_timeout_ms 1)

  unfoldable pub ssl_option : List ℕ → ℕ → List ℕ → Action (Uart W) (Unit {0})
  ssl_option name ctx value = do
    r ← attempt (
        cmd_expect_retry board
          (snprint 128 (codes "AT+QSSLCFG=\"" ++ name ++ codes "\"," ++ uint ctx ++ b',' ∷ value))
          only_ok medium_timeout_ms 1)
    after_ssl_option (codes "AT+QSSLCFG=\"" ++ name ++ codes "\"," ++ value) r

  -- The form with two arguments, after the form with three.
  unfoldable pub after_version : ℕ → Result (Unit {0}) → Action (Uart W) (Unit {0})
  after_version version (ok a) = pure tt
  after_version version (err e) =
      cmd_expect_retry board (snprint 128 (codes "AT+QSSLCFG=\"sslversion\"," ++ uint version))
        only_ok medium_timeout_ms 1

  unfoldable pub ssl_version : ℕ → ℕ → Action (Uart W) (Unit {0})
  ssl_version ctx version = do
    r ← attempt (
        cmd_expect_retry board
          (snprint 128 (codes "AT+QSSLCFG=\"sslversion\"," ++ uint ctx ++ b',' ∷ uint version))
          only_ok medium_timeout_ms 2)
    after_version version r

  unfoldable pub or_version : Action (Uart W) Bool → Result (Unit {0}) → Action (Uart W) Bool
  or_version next (ok a) = pure true
  or_version next (err e) = next

  -- Whether one of the versions is supported.
  unfoldable pub version_loop : ℕ → List ℕ → Action (Uart W) Bool
  version_loop ctx [] = pure false
  version_loop ctx (version ∷ versions) = do
    r ← attempt (ssl_version ctx version)
    or_version (version_loop ctx versions) r

  unfoldable pub ssl_options : ℕ → Bool → Action (Uart W) (Unit {0})
  ssl_options ctx false = pure tt
  ssl_options ctx true = do
    ssl_option (codes "seclevel") ctx (codes "0")
    ssl_option (codes "ignorelocaltime") ctx (codes "1")
    ssl_option (codes "sni") ctx (codes "1")

  unfoldable pub ssl_profile : ℕ → Action (Uart W) (Unit {0})
  ssl_profile ctx = do supported ← version_loop ctx (4 ∷ 3 ∷ 1 ∷ []); ssl_options ctx supported

  unfoldable pub try_ssl_open : List ℕ → ℕ → ℕ → Action (Uart W) (Unit {0})
  try_ssl_open host port mode = do
    send_cmd board (
        snprint 128 (
          codes "AT+QIOPEN=1,0,\"SSL\",\""
          ++ host
          ++ codes "\","
          ++ uint port
          ++ codes ",0,"
          ++ uint mode))
    wait_qiopen_result board long_timeout_ms

  unfoldable pub or_mode :
      Action (Uart W) (Unit {0}) → Result (Unit {0}) → Action (Uart W) (Unit {0})
  or_mode next (ok a) = pure tt
  or_mode next (err e) = next

  unfoldable pub mode_loop : List ℕ → ℕ → List ℕ → Action (Uart W) (Unit {0})
  mode_loop host port [] = raise eio
  mode_loop host port (mode ∷ modes) = do
    r ← attempt (try_ssl_open host port mode)
    or_mode (mode_loop host port modes) r

  -- `selected_ctx` is only logged.
  unfoldable pub socket_open_ssl : List ℕ → ℕ → Action (Uart W) (Unit {0})
  socket_open_ssl host port = do
    raise_if (length host == 0 || port == 0) einval
    ssl_profile 1
    ssl_profile 0
    mode_loop host port (1 ∷ 0 ∷ [])

  unfoldable pub send_on_line : List ℕ → Action (Uart W) ℕ
  send_on_line bytes = do
    drain_rx board
    send_cmd board (snprint 64 (codes "AT+QISEND=0," ++ uint (length bytes)))
    wait_response board prompt_markers medium_timeout_ms
    uart_write board bytes
    wait_response board sent_markers medium_timeout_ms
    pure (length bytes)

  unfoldable pub socket_send : List ℕ → Action (Driver W) ℕ
  socket_send bytes = with_state (λ s. do
    raise_if (length bytes == 0) einval
    raise_if (not s.socket_opened) enotconn
    on_uart (send_on_line bytes))

  unfoldable pub recv_on_line : ℕ → ℕ → Action (Uart W) (List ℕ)
  recv_on_line buf_len timeout_ms = do
    drain_rx board
    send_cmd board (snprint 64 (codes "AT+QIRD=0," ++ uint (min buf_len 1024)))
    raw ← collect board timeout_ms 120
    of_result (parse_qird buf_len raw)

  unfoldable pub socket_recv : ℕ → ℕ → Action (Driver W) (List ℕ)
  socket_recv buf_len timeout_ms = with_state (λ s. do
    raise_if (buf_len == 0) einval
    raise_if (not s.socket_opened) enotconn
    on_uart (recv_on_line buf_len timeout_ms))

  unfoldable pub socket_close : Action (Driver W) (Unit {0})
  socket_close = do r ← attempt (on_uart (close_stale board)); set_opened false; of_result r
