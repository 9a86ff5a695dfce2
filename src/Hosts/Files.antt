-- ===== src/Hosts/Files.antt =====
-- The file hosts.txt: `read_hosts`, `ensure_default_hosts_file`, `hosts_addr_is_valid` and
-- `setup_flash_disk` of src/main_ec801e_hid.c. `set_fat_volume_label` is in the module for the label.
use esp32s3tinyepaper.Base.{
  ℕ, ◌-◌, Bool, true, false, List, [], Option, none, some, ◌==◌, if◌then◌else◌, length,
}
use esp32s3tinyepaper.Base.Text.{codes, c_str}
use esp32s3tinyepaper.Base.Result.{
  Result, ok, err, einval, Action, pure, raise_if, modify, attempt, ignore, of_result, ◌>>=◌, ◌>>◌,
}
use esp32s3tinyepaper.Serv.Address.{trim_line_end, parse_host_port}
use esp32s3tinyepaper.Serv.Store.{Flash}
use esp32s3tinyepaper.Serv.Active.{Net, serv_addr_init}
use esp32s3tinyepaper.Hosts.{Disk, HostsState, App, hosts_buf_size, on_disk, on_serv, on_hosts}
use esp32s3tinyepaper.Hosts.Label.{set_fat_volume_label}

abbrev pub default_host : List ℕ
default_host = codes "142.54.180.58:8061\n"

-- `char host[80]`.
abbrev pub host_room : ℕ
host_room = 80

unfoldable pub is_some : {A : Type 0} → Option A → Bool
is_some none = false
is_some (some a) = true

unfoldable pub hosts_addr_is_valid : List ℕ → Bool
hosts_addr_is_valid addr =
    if length addr == 0 then false else is_some (parse_host_port addr host_room)

module _ {D : Type 0} (disk : Disk D) where
  unfoldable pub close_file : ℕ → Action D (Unit {0})
  close_file file = modify (disk.close file)

  -- The file's text, without the line ends behind it. The file is closed whatever `fs_read` returns.
  unfoldable pub read_hosts : ℕ → Action D (List ℕ)
  read_hosts buf_len = do
    raise_if (buf_len == 0) einval
    file ← disk.open_read
    r ← attempt (disk.read file (buf_len - 1))
    close_file file
    bytes ← of_result r
    pure (trim_line_end (c_str bytes))

  unfoldable pub sync_if_written : ℕ → Result ℕ → Action D (Unit {0})
  sync_if_written file (ok n) = modify (disk.sync file)
  sync_if_written file (err e) = pure tt

  unfoldable pub forget : Result ℕ → Result (Unit {0})
  forget (ok n) = ok tt
  forget (err e) = err e

  -- After the file was looked for; `text` is `default_host`.
  unfoldable pub create_unless : List ℕ → Result ℕ → Action D (Unit {0})
  create_unless text (ok file) = close_file file
  create_unless text (err e) = do
    file ← disk.open_write
    r ← attempt (disk.write file text)
    sync_if_written file r
    close_file file
    of_result (forget r)

  unfoldable pub ensure_default_hosts_file : List ℕ → Action D (Unit {0})
  ensure_default_hosts_file text = do r ← attempt disk.open_read; create_unless text r

  -- A volume that cannot be mounted is made anew.
  unfoldable pub format_unless : Result (Unit {0}) → Action D (Unit {0})
  format_unless (ok a) = pure tt
  format_unless (err e) = do
    disk.mkfs
    ignore (set_fat_volume_label disk (codes "FLASH"))
    disk.mount

  unfoldable pub mount_or_format : Action D (Unit {0})
  mount_or_format = do disk.ioctl_init; r ← attempt disk.mount; format_unless r

module _ {D F N A : Type 0} (disk : Disk D) (flash : Flash F) (net : Net N A) where
  unfoldable pub keep_value : List ℕ → Action (HostsState D F N) (Unit {0})
  keep_value value = modify (λ s. record s { last_host_value = value; host_value_valid = true })

  unfoldable pub read_first : Action (HostsState D F N) (Unit {0})
  read_first = do
    modify (λ s. record s { last_host_value = [] })
    value ← on_disk (read_hosts disk hosts_buf_size)
    keep_value value
    on_serv (serv_addr_init flash net value)

  unfoldable pub setup_flash_disk : Action (App D F N) (Unit {0})
  setup_flash_disk = do
    on_hosts (on_disk (mount_or_format disk))
    on_hosts (on_disk (ensure_default_hosts_file disk default_host))
    on_hosts read_first
    modify (λ s. record s { hosts_refresh_pending = false })
