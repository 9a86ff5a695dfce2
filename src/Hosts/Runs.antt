-- ===== src/Hosts/Runs.antt =====
-- `main` of src/main_ec801e_hid.c, and the retries of a session, which src/main_ec801e.c has too.
pub mod Chosen
use esp32s3tinyepaper.Base.{ℕ, zero, suc, ◌+◌, ◌-◌, ◌||◌, leb, if◌then◌else◌, List, ◌*◌}
use esp32s3tinyepaper.Base.Result.{
  Result, ok, err, eio, Action, pure, raise, modify, with_state, attempt, ignore, ◌>>=◌, ◌>>◌,
}
use esp32s3tinyepaper.Link.Socket.{Tcp}
use esp32s3tinyepaper.Link.Frame.{HeaderCodec}
use esp32s3tinyepaper.Link.Session.{DroneCodec, run_roundtrip_session}
use esp32s3tinyepaper.Serv.Store.{Flash}
use esp32s3tinyepaper.Serv.Active.{Net}
use esp32s3tinyepaper.Hosts.{Disk, App}
use esp32s3tinyepaper.Hosts.Files.{setup_flash_disk}
use esp32s3tinyepaper.Hosts.Refresh.{refresh_hosts_if_needed}
use esp32s3tinyepaper.Hosts.Usb.{UsbStack, setup_usb_msc}

abbrev pub gpsec_retries : ℕ
gpsec_retries = 3

abbrev pub gpsec_retry_backoff_ms : ℕ
gpsec_retry_backoff_ms = 1000

-- `session` is a call of `run_roundtrip_session`, `sleep` is `k_sleep` with what other threads do in it.
module _ {S : Type 0} (session : Action S (Unit {0})) (sleep : ℕ → S → S) where
  -- After an attempt, with the next ones, if there are any left.
  unfoldable pub after_session : ℕ → Action S (Unit {0}) → Result (Unit {0}) → Action S (Unit {0})
  after_session left again (ok a) = pure tt
  after_session zero again (err e) = raise e
  after_session (suc left) again (err e) = do modify (sleep gpsec_retry_backoff_ms); again

  -- `left` are the attempts after this one.
  unfoldable pub session_loop : ℕ → Action S (Unit {0})
  session_loop zero = do r ← attempt session; after_session 0 (raise eio) r
  session_loop (suc left) = do r ← attempt session; after_session (suc left) (session_loop left) r

  unfoldable pub run_sessions : Action S (Unit {0})
  run_sessions = session_loop (gpsec_retries - 1)

abbrev pub drone_report_interval_ms : ℕ
drone_report_interval_ms = 4 * 60 * 1000

abbrev pub main_loop_sleep_ms : ℕ
main_loop_sleep_ms = 1000

-- `uptime` is `k_uptime_get`.
module _ {D F N A : Type 0} (disk : Disk D) (flash : Flash F) (net : Net N A)
    (sleep : ℕ → App D F N → App D F N) (uptime : App D F N → ℕ × App D F N) where
  unfoldable pub get_uptime : Action (App D F N) ℕ
  get_uptime s = let (now, t) = uptime s in (ok now, t)

  -- The attempts to report, whose call of the session is commented out: their waits are left.
  unfoldable pub report_waits : ℕ → Action (App D F N) (Unit {0})
  report_waits zero = pure tt
  report_waits (suc left) = do modify (sleep gpsec_retry_backoff_ms); report_waits left

  unfoldable pub report : Action (App D F N) ℕ
  report = do
    report_waits (gpsec_retries - 1)
    now ← get_uptime
    pure (now + drone_report_interval_ms)

  unfoldable pub refresh_if_asked : Action (App D F N) (Unit {0})
  refresh_if_asked = with_state (λ s.
      if s.usb_host_connected || s.hosts_refresh_pending
      then refresh_hosts_if_needed disk flash net
      else pure tt)

  unfoldable pub report_if_due : ℕ → ℕ → Action (App D F N) ℕ
  report_if_due next_report_at now = if leb next_report_at now then report else pure next_report_at

  unfoldable pub end_round : ℕ → Action (App D F N) ℕ
  end_round next_report_at = do modify (sleep main_loop_sleep_ms); pure next_report_at

  -- A round of the endless loop, from one `next_report_at` to the next, after `now` is read.
  unfoldable pub round_at : ℕ → ℕ → Action (App D F N) ℕ
  round_at next_report_at now = do
    refresh_if_asked
    next ← report_if_due next_report_at now
    end_round next

  unfoldable pub main_round : ℕ → Action (App D F N) ℕ
  main_round next_report_at = do now ← get_uptime; round_at next_report_at now

  unfoldable pub main_rounds : ℕ → ℕ → Action (App D F N) ℕ
  main_rounds zero next_report_at = pure next_report_at
  main_rounds (suc rounds) next_report_at = do
    next ← main_round next_report_at
    main_rounds rounds next

-- The sockets of the sessions and bitproto's codecs are parameters.
module _ {D F N A : Type 0} (disk : Disk D) (flash : Flash F) (net : Net N A)
    (sleep : ℕ → App D F N → App D F N) (uptime : App D F N → ℕ × App D F N)
    (usb : UsbStack (App D F N)) (headers : HeaderCodec) (drones : DroneCodec)
    (tcp : Tcp (App D F N)) where
  -- Each attempt goes to the server that `serv_ip` and `serv_port` name then.
  unfoldable pub session_with_server : Action (App D F N) (Unit {0})
  session_with_server =
      with_state (λ s. run_roundtrip_session headers drones tcp s.serv_ip s.serv_port)

  -- Up to the endless loop. It gives `next_report_at`.
  unfoldable pub start : Action (App D F N) ℕ
  start = do
    modify (sleep 800)
    setup_flash_disk disk flash net
    setup_usb_msc usb
    now ← get_uptime disk flash net sleep uptime
    ignore (run_sessions session_with_server sleep)
    pure now

  -- `main`, with a number of rounds of its loop.
  unfoldable pub main : ℕ → Action (App D F N) ℕ
  main rounds = do next ← start; main_rounds disk flash net sleep uptime rounds next
