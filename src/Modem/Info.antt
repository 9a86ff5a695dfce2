-- ===== src/Modem/Info.antt =====
-- What the driver reports of the module: `struct ec801e_module_info` and `struct ec801e_signal_info` of
-- drivers/ec801e/ec801e.h, and `ec801e_get_module_info`, `ec801e_get_signal_info` and
-- `ec801e_get_en_pin_state` of drivers/ec801e/ec801e.c. The results are given out on success only; the
-- pointers are not NULL.
use esp32s3tinyepaper.Base.{
  ℕ, ◌-◌, ◌^◌, ◌*◌, not, ◌&&◌, List, [], ◌∷◌, Option, none, some, ◌==◌, if◌then◌else◌, length, drop,
}
use esp32s3tinyepaper.Base.Text.{codes, c_str, strstr}
use esp32s3tinyepaper.Base.Int.{ℤ, pos, negsuc, leb_ℤ, ◌-ℤ◌, pos_part}
use esp32s3tinyepaper.Base.Result.{
  Result, ok, err, enodev, ebadmsg, enotsup, Action, pure, raise_if, gets, attempt, of_result,
  ◌>>=◌, ◌>>◌,
}
use esp32s3tinyepaper.Modem.{Board, Uart, Driver, medium_timeout_ms, on_uart}
use esp32s3tinyepaper.Modem.Replies.{copy_digits, extract_ipv4, parse_cereg_stat, scan_int}
use esp32s3tinyepaper.Modem.Line.{send_cmd, wait_response}
use esp32s3tinyepaper.Modem.Network.{ok_or_error, socket_stack_init}

abbrev pub imei_max_len : ℕ
imei_max_len = 24

abbrev pub ip_max_len : ℕ
ip_max_len = 40

-- No `ip` is an `ip_valid` that is false.
pub record ModuleInfo : Type 0 where
  pub imei : List ℕ
  pub ip : Option (List ℕ)
  pub cereg_stat : ℤ

pub record SignalInfo : Type 0 where
  pub rssi_raw : ℤ
  pub ber : ℤ
  pub rssi_dbm : ℤ

abbrev pub int_min : ℤ
int_min = negsuc (2 ^ 31 - 1)

unfoldable pub rssi_to_dbm : ℤ → ℤ
rssi_to_dbm rssi =
    if leb_ℤ (pos 0) rssi && leb_ℤ rssi (pos 31)
    then pos (2 * pos_part rssi) -ℤ pos 113
    else int_min

unfoldable pub ip_of : Result (Unit {0}) → Result (List ℕ) → Option (List ℕ)
ip_of (ok a) (ok ip) = some ip
ip_of r ip = none

unfoldable pub stat_or : Option ℤ → ℤ
stat_or none = negsuc 0
stat_or (some stat) = if leb_ℤ (pos 0) stat then stat else negsuc 0

-- `sscanf(p, "+CSQ: %d,%d", &rssi, &ber)`, where `p` starts with "+CSQ:".
unfoldable pub scan_ber : ℤ → List ℕ → Option SignalInfo
scan_ber rssi [] = none
scan_ber rssi (c ∷ s) =
    if c == b','
    then elim (scan_int s) [
      | some (ber, rest) ↦ some (record { rssi_raw = rssi; ber = ber; rssi_dbm = rssi_to_dbm rssi })
      | none ↦ none
    ]
    else none

unfoldable pub scan_csq : Option (List ℕ) → Option SignalInfo
scan_csq none = none
scan_csq (some p) = elim (scan_int (drop 5 p)) [
  | some (rssi, rest) ↦ scan_ber rssi rest
  | none ↦ none
]

unfoldable pub parse_csq : List ℕ → Option SignalInfo
parse_csq rsp = scan_csq (strstr rsp (codes "+CSQ:"))

unfoldable pub or_ebadmsg : {A : Type 0} → Option A → Result A
or_ebadmsg none = err ebadmsg
or_ebadmsg (some a) = ok a

module _ {W : Type 0} (board : Board W) where
  -- A command and its whole reply.
  unfoldable pub query : List ℕ → Action (Uart W) (List ℕ)
  query cmd = do
    send_cmd board cmd
    wait_response board ok_or_error medium_timeout_ms
    gets (λ u. c_str u.rsp_buf)

  unfoldable pub read_imei : Action (Uart W) (List ℕ)
  read_imei = do
    rsp ← query (codes "AT+GSN")
    raise_if (length (copy_digits imei_max_len rsp) == 0) ebadmsg
    pure (copy_digits imei_max_len rsp)

  unfoldable pub read_ip : Action (Uart W) (Option (List ℕ))
  read_ip = do
    send_cmd board (codes "AT+CGPADDR=1")
    r ← attempt (wait_response board ok_or_error medium_timeout_ms)
    rsp ← gets (λ u. c_str u.rsp_buf)
    pure (ip_of r (extract_ipv4 rsp ip_max_len))

  unfoldable pub read_stat : Action (Uart W) ℤ
  read_stat = do rsp ← query (codes "AT+CEREG?"); pure (stat_or (parse_cereg_stat rsp))

  unfoldable pub get_module_info : Action (Driver W) ModuleInfo
  get_module_info = do
    socket_stack_init board none
    imei ← on_uart read_imei
    ip ← on_uart read_ip
    stat ← on_uart read_stat
    pure (record { imei = imei; ip = ip; cereg_stat = stat })

  unfoldable pub get_signal_info : Action (Driver W) SignalInfo
  get_signal_info = do
    socket_stack_init board none
    rsp ← on_uart (query (codes "AT+CSQ"))
    of_result (or_ebadmsg (parse_csq rsp))

  unfoldable pub get_en_pin_state : Action (Uart W) ℕ
  get_en_pin_state = do
    raise_if (not board.has_power_port) enotsup
    raise_if (not board.power_port_is_ready) enodev
    (λ s. let (r, w) = board.pin_get s.world in (r, record s { world = w }))
