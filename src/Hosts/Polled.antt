-- ===== src/Hosts/Polled.antt =====
-- The application src/main_hid.c, which reads hosts.txt every three seconds. Its `trim_line_end`,
-- `read_hosts`, `ensure_default_hosts_file` and `usb_fix_code_triple` are those of
-- src/main_ec801e_hid.c and of src/usb.c, and are used from there.
pub mod Followed
use esp32s3tinyepaper.Base.{true, false, ℕ, zero, suc, ◌-◌, List, [], take, if◌then◌else◌}
use esp32s3tinyepaper.Base.Text.{codes}
use esp32s3tinyepaper.Base.Result.{
  Result, ok, err, Errno, Action, pure, raise, modify, with_state, attempt, ignore, ◌>>=◌, ◌>>◌,
}
use esp32s3tinyepaper.Serv.Store.{Flash}
use esp32s3tinyepaper.Serv.Active.{Net, serv_addr_init, serv_addr_try_promote}
use esp32s3tinyepaper.Hosts.{Disk, HostsState, hosts_buf_size, on_disk, on_serv}
use esp32s3tinyepaper.Hosts.Files.{read_hosts, ensure_default_hosts_file, keep_value}
use esp32s3tinyepaper.Hosts.Refresh.{is_new_value}
use esp32s3tinyepaper.Hosts.Usb.{UsbStack, high_speed, full_speed, setup_speed}

abbrev pub default_host : List ℕ
default_host = codes "192.168.1.100:8080\n"

abbrev pub hosts_poll_interval_ms : ℕ
hosts_poll_interval_ms = 3000

module _ {D F N A : Type 0} (disk : Disk D) (flash : Flash F) (net : Net N A) where
  unfoldable pub format_unless : Result (Unit {0}) → Action D (Unit {0})
  format_unless (ok a) = pure tt
  format_unless (err e) = do disk.mkfs; disk.mount

  -- A text that cannot be read is not valid.
  unfoldable pub take_first : Result (List ℕ) → Action (HostsState D F N) (Unit {0})
  take_first (err e) = do modify (λ s. record s { host_value_valid = false }); raise e
  take_first (ok value) = do
    keep_value disk flash net value
    on_serv (serv_addr_init flash net value)

  -- `read_and_dump_hosts` reads the file for its output.
  unfoldable pub read_and_dump_hosts : Action (HostsState D F N) (Unit {0})
  read_and_dump_hosts = ignore (do value ← on_disk (read_hosts disk hosts_buf_size); pure tt)

  unfoldable pub setup_flash_disk : Action (HostsState D F N) (Unit {0})
  setup_flash_disk = do
    on_disk disk.ioctl_init
    mounted ← attempt (on_disk disk.mount)
    on_disk (format_unless mounted)
    on_disk (ensure_default_hosts_file disk default_host)
    modify (λ s. record s { last_host_value = [] })
    r ← attempt (on_disk (read_hosts disk hosts_buf_size))
    take_first r
    read_and_dump_hosts

  -- A text that is new is a candidate, whatever it is.
  unfoldable pub take_changed : List ℕ → Action (HostsState D F N) (Unit {0})
  take_changed value = with_state (λ s.
      if is_new_value s.host_value_valid s.last_host_value value
      then (do
        ignore (on_serv (serv_addr_try_promote flash net value))
        keep_value disk flash net (take (hosts_buf_size - 1) value))
      else pure tt)

  unfoldable pub remount_changed : Action (HostsState D F N) (Unit {0})
  remount_changed = do
    ignore (on_disk disk.ioctl_sync)
    on_disk disk.unmount
    on_disk disk.mount
    value ← on_disk (read_hosts disk hosts_buf_size)
    take_changed value

  -- The function gives nothing back.
  unfoldable pub refresh_hosts_if_changed : Action (HostsState D F N) (Unit {0})
  refresh_hosts_if_changed = ignore remount_changed

  -- The endless loop of `main`, `sleep` is `k_sleep`.
  unfoldable pub poll_rounds :
      (ℕ → HostsState D F N → HostsState D F N) → ℕ → Action (HostsState D F N) (Unit {0})
  poll_rounds sleep zero = pure tt
  poll_rounds sleep (suc rounds) = do
    modify (sleep hosts_poll_interval_ms)
    refresh_hosts_if_changed
    poll_rounds sleep rounds

-- No callback is registered.
unfoldable pub setup_usb_msc : {U : Type 0} → UsbStack U → Action U (Unit {0})
setup_usb_msc usb = do
  usb.add_descriptor (codes "lang")
  usb.add_descriptor (codes "Qinshen")
  usb.add_descriptor (codes "ESP32S3 Tiny MSC")
  (if usb.is_high_speed then setup_speed usb high_speed else pure tt)
  setup_speed usb full_speed
  usb.usbd_init
  usb.enable

module _ {D F N A : Type 0} (disk : Disk D) (flash : Flash F) (net : Net N A) where
  -- `main`, with a number of rounds of its loop.
  unfoldable pub main :
      UsbStack (HostsState D F N)
      → (ℕ → HostsState D F N → HostsState D F N)
      → ℕ
      → Action (HostsState D F N) (Unit {0})
  main usb sleep rounds = do
    setup_flash_disk disk flash net
    setup_usb_msc usb
    poll_rounds disk flash net sleep rounds
