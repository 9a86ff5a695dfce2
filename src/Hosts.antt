-- ===== src/Hosts.antt =====
-- The application with the modem and the USB disk: src/main_ec801e_hid.c, and the USB events of
-- src/usb.c. The file system, the disk and the USB stack are parameters; Serv is the server address
-- below it.
pub mod Files
pub mod Refresh
pub mod Label
pub mod Usb
pub mod Followed
pub mod Chosen
pub mod Guarded
pub mod Runs
pub mod Polled
use esp32s3tinyepaper.Base.{ℕ, Bool, List, if◌then◌else◌}
use esp32s3tinyepaper.Base.Result.{Result, ok, err, Action}
use esp32s3tinyepaper.Serv.Active.{Serv}

-- Zephyr's file system with the disk below it, for the one file of the program: `fs_open` for reading and
-- for writing, `fs_read`, `fs_write`, `fs_sync`, `fs_close`, `fs_mount`, `fs_unmount` and `fs_mkfs`, and the
-- `disk_access_` calls. A read gives at most the bytes that it was asked for.
pub record Disk (D : Type 0) : Type 0 where
  pub open_read : D → Result ℕ × D
  pub open_write : D → Result ℕ × D
  pub read : ℕ → ℕ → D → Result (List ℕ) × D
  pub write : ℕ → List ℕ → D → Result ℕ × D
  pub sync : ℕ → D → D
  pub close : ℕ → D → D
  pub mount : D → Result (Unit {0}) × D
  pub unmount : D → Result (Unit {0}) × D
  pub mkfs : D → Result (Unit {0}) × D
  pub ioctl_init : D → Result (Unit {0}) × D
  pub ioctl_sync : D → Result (Unit {0}) × D
  pub read_sectors : ℕ → ℕ → D → Result (List ℕ) × D
  pub write_sectors : List ℕ → ℕ → ℕ → D → Result (Unit {0}) × D
  pub malloc : ℕ → D → Bool × D
  pub free : D → D

-- The static variables about hosts.txt, with the server address and the disk.
pub record HostsState (D F N : Type 0) : Type 0 where
  pub last_host_value : List ℕ
  pub host_value_valid : Bool
  pub serv : Serv F N
  pub disk : D

-- The static variables of src/main_ec801e_hid.c and of src/usb.c; `sync_sem` is the semaphore's count.
pub record App (D F N : Type 0) : Type 0 where
  pub hosts_refresh_pending : Bool
  pub usb_host_connected : Bool
  pub sync_sem : ℕ
  pub serv_ip : List ℕ
  pub serv_port : ℕ
  pub hosts : HostsState D F N

abbrev pub hosts_buf_size : ℕ
hosts_buf_size = 128

module _ {D F N A : Type 0} where
  unfoldable pub on_disk : Action D A → Action (HostsState D F N) A
  on_disk m s = let (r, d) = m s.disk in (r, record s { disk = d })

  unfoldable pub on_serv : Action (Serv F N) A → Action (HostsState D F N) A
  on_serv m s = let (r, v) = m s.serv in (r, record s { serv = v })

  unfoldable pub on_hosts : Action (HostsState D F N) A → Action (App D F N) A
  on_hosts m s = let (r, h) = m s.hosts in (r, record s { hosts = h })
