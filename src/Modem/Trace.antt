-- ===== src/Modem/Trace.antt =====
-- The trace page over HTTPS: `ec801e_fetch_cloudflare_trace` and its helpers
-- `_fetch_cloudflare_trace_qhttp_url`, `_send_http_trace_request` and `_read_trace_payload` of
-- drivers/ec801e/ec801e.c. The logs of the replies are left out.
use esp32s3tinyepaper.Base.{ℕ, zero, suc, Bool, ◌&&◌, List, [], ◌∷◌, ◌++◌, if◌then◌else◌, length}
use esp32s3tinyepaper.Base.Text.{codes, c_str, contains}
use esp32s3tinyepaper.Base.Result.{
  Result, ok, err, Action, pure, gets, attempt, ignore, of_result, ◌>>=◌, ◌>>◌,
}
use esp32s3tinyepaper.Modem.{
  Board, Uart, medium_timeout_ms, long_timeout_ms, qhttp_connect_timeout_ms,
}
use esp32s3tinyepaper.Modem.Line.{Markers, send_raw, send_cmd, k_sleep, wait_response}
use esp32s3tinyepaper.Modem.Commands.{cmd_expect_retry, close_stale}
use esp32s3tinyepaper.Modem.Network.{ok_or_error}
use esp32s3tinyepaper.Modem.Sockets.{uint, snprint, sent_markers, socket_open_ssl}

abbrev pub trace_request : List ℕ
trace_request =
    codes "GET /cdn-cgi/trace HTTP/1.1\r\n"
    ++ codes "Host: www.cloudflare.com\r\n"
    ++ codes "Connection: close\r\n"
    ++ codes "User-Agent: ec801e-zephyr\r\n\r\n"

abbrev pub ok_or_any_error : List (List ℕ)
ok_or_any_error = codes "OK" ∷ codes "ERROR" ∷ []

abbrev pub connect_markers : Markers
connect_markers = record { oks = codes "CONNECT" ∷ []; fails = codes "ERROR" ∷ [] }

abbrev pub http_statuses : List (List ℕ)
http_statuses = codes "+QHTTPGET: 0,200" ∷ codes "+QHTTPGET: 0,206" ∷ []

abbrev pub get_markers : Markers
get_markers = record {
  oks = http_statuses ++ codes "OK" ∷ [];
  fails = codes "ERROR" ∷ codes "CME ERROR" ∷ [];
}

abbrev pub status_markers : Markers
status_markers = record { oks = http_statuses; fails = codes "ERROR" ∷ codes "CME ERROR" ∷ [] }

abbrev pub send_prompt_markers : Markers
send_prompt_markers = record { oks = codes ">" ∷ []; fails = codes "ERROR" ∷ [] }

abbrev pub chunk_markers : Markers
chunk_markers = record { oks = codes "+QIRD:" ∷ []; fails = codes "ERROR" ∷ [] }

-- The page is there when its three fields are.
unfoldable pub is_complete : List ℕ → Bool
is_complete rsp =
    contains rsp (codes "h=") && contains rsp (codes "ip=") && contains rsp (codes "tls=")

module _ {W : Type 0} (board : Board W) where
  -- From the label `read_no_arg`.
  unfoldable pub read_no_arg : Action (Uart W) (Unit {0})
  read_no_arg = do
    send_cmd board (codes "AT+QHTTPREAD")
    wait_response board ok_or_error long_timeout_ms

  unfoldable pub or_read_no_arg : Result (Unit {0}) → Action (Uart W) (Unit {0})
  or_read_no_arg (ok a) = pure tt
  or_read_no_arg (err e) = read_no_arg

  unfoldable pub read_page : Action (Uart W) (Unit {0})
  read_page = do
    k_sleep board 500
    r ← attempt (do
      send_cmd board (codes "AT+QHTTPREAD=80")
      wait_response board ok_or_error long_timeout_ms)
    or_read_no_arg r

  unfoldable pub fetch_cloudflare_trace_qhttp_url : List ℕ → Action (Uart W) (Unit {0})
  fetch_cloudflare_trace_qhttp_url url = do
    ignore (
        cmd_expect_retry board (codes "AT+QHTTPCFG=\"contextid\",1") ok_or_any_error
          medium_timeout_ms 1)
    ignore (
        cmd_expect_retry board (codes "AT+QHTTPCFG=\"requestheader\",0") ok_or_any_error
          medium_timeout_ms 1)
    send_cmd board (snprint 80 (codes "AT+QHTTPURL=" ++ uint (length url) ++ codes ",125"))
    wait_response board connect_markers qhttp_connect_timeout_ms
    send_raw board url
    send_raw board (codes "\r")
    wait_response board ok_or_error medium_timeout_ms
    send_cmd board (codes "AT+QHTTPGET=125")
    wait_response board get_markers qhttp_connect_timeout_ms
    rsp ← gets (λ u. c_str u.rsp_buf)
    (if contains rsp (codes "+QHTTPGET:")
        then pure tt
        else ignore (wait_response board status_markers qhttp_connect_timeout_ms))
    read_page

  unfoldable pub send_http_trace_request : Action (Uart W) (Unit {0})
  send_http_trace_request = do
    send_cmd board (snprint 64 (codes "AT+QISEND=0," ++ uint (length trace_request)))
    wait_response board send_prompt_markers medium_timeout_ms
    send_raw board trace_request
    wait_response board sent_markers medium_timeout_ms

  unfoldable pub chunk_loop : ℕ → Action (Uart W) (Unit {0})
  chunk_loop zero = pure tt
  chunk_loop (suc chunks) = do
    send_cmd board (codes "AT+QIRD=0,1024")
    wait_response board chunk_markers medium_timeout_ms
    rsp ← gets (λ u. c_str u.rsp_buf)
    (if is_complete rsp then pure tt else (do k_sleep board 300; chunk_loop chunks))

  unfoldable pub read_trace_payload : Action (Uart W) (Unit {0})
  read_trace_payload = chunk_loop 8

  unfoldable pub or_http : Result (Unit {0}) → Action (Uart W) (Unit {0})
  or_http (ok a) = pure tt
  or_http (err e) =
      fetch_cloudflare_trace_qhttp_url (codes "http://www.cloudflare.com/cdn-cgi/trace")

  unfoldable pub after_ssl_open : Result (Unit {0}) → Action (Uart W) (Unit {0})
  after_ssl_open (err e) = do
    r ←
        attempt
          (fetch_cloudflare_trace_qhttp_url (codes "https://www.cloudflare.com/cdn-cgi/trace"))
    or_http r
  after_ssl_open (ok a) = do
    r ← attempt (do send_http_trace_request; read_trace_payload)
    ignore (close_stale board)
    of_result r

  unfoldable pub fetch_cloudflare_trace : Action (Uart W) (Unit {0})
  fetch_cloudflare_trace = do
    r ← attempt (socket_open_ssl board (codes "www.cloudflare.com") 443)
    after_ssl_open r
