-- ===== src/MainEc801e.antt =====
-- The application src/main_ec801e.c: it asks the modem for its data, and has a session with a fixed server.
-- `print_ec801e_diag` of src/main_ec801e_hid.c asks for the same data. What is printed is left out.
use esp32s3tinyepaper.Base.{ℕ, List}
use esp32s3tinyepaper.Base.Text.{codes}
use esp32s3tinyepaper.Base.Result.{Action, modify, ignore, ◌>>◌}
use esp32s3tinyepaper.Modem.{Board, Driver, on_uart}
use esp32s3tinyepaper.Modem.Info.{get_module_info, get_signal_info, get_en_pin_state}
use esp32s3tinyepaper.Link.Socket.{Tcp}
use esp32s3tinyepaper.Link.Frame.{HeaderCodec}
use esp32s3tinyepaper.Link.Session.{DroneCodec, run_roundtrip_session}
use esp32s3tinyepaper.Hosts.Runs.{run_sessions}

abbrev pub gpsec_server_ip : List ℕ
gpsec_server_ip = codes "142.54.180.58"

abbrev pub gpsec_server_port : ℕ
gpsec_server_port = 8061

-- `on_driver` runs a call of the driver in the whole state.
module _ {W S : Type 0} (board : Board W)
    (on_driver : (A : Type 0) → Action (Driver W) A → Action S A) where
  -- A query that fails is only printed.
  unfoldable pub print_ec801e_diag : Action S (Unit {0})
  print_ec801e_diag = do
    ignore (on_driver _ (get_module_info board))
    ignore (on_driver _ (get_signal_info board))
    ignore (on_driver _ (on_uart (get_en_pin_state board)))

  -- Up to the endless sleep; `sleep` is `k_sleep`.
  unfoldable pub main : HeaderCodec → DroneCodec → Tcp S → (ℕ → S → S) → Action S (Unit {0})
  main headers drones tcp sleep = do
    modify (sleep 500)
    modify (sleep 800)
    print_ec801e_diag
    ignore (
        run_sessions (run_roundtrip_session headers drones tcp gpsec_server_ip gpsec_server_port)
          sleep)
