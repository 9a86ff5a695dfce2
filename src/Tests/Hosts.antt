-- ===== src/Tests/Hosts.antt =====
-- The theorems on hosts.txt, the USB events and the volume label at concrete inputs.
use esp32s3tinyepaper.Base.{
  ℕ, suc, ◌≡◌, ◌≢◌, ◌⊎◌, refl, true, false, List, [], ◌∷◌, ◌++◌, some, ◌<◌, ◌+◌, length, replicate,
  get_or, arith,
}
use esp32s3tinyepaper.Base.Text.{codes}
use esp32s3tinyepaper.Base.Result.{ok}
use esp32s3tinyepaper.Base.Result.Ends.{Ends}
use esp32s3tinyepaper.Serv.Store.{AddrRecord, Flash}
use esp32s3tinyepaper.Serv.Active.{Net, same_text}
use esp32s3tinyepaper.Hosts.{Disk, HostsState, App}
use esp32s3tinyepaper.Hosts.Label.{le16, le32, pad_label, label_sector, set_fat_volume_label}
use esp32s3tinyepaper.Hosts.Label.Written.{set_fat_volume_label_boot_only}
use esp32s3tinyepaper.Hosts.Refresh.{refresh_hosts_if_needed}
use esp32s3tinyepaper.Hosts.Guarded.{Checked, refresh_hosts_if_needed-Follows}
use esp32s3tinyepaper.Hosts.Files.{hosts_addr_is_valid}
use esp32s3tinyepaper.Hosts.Chosen.{Chosen}
use esp32s3tinyepaper.Hosts.Runs.{main_rounds}
use esp32s3tinyepaper.Hosts.Runs.Chosen.{main_rounds-Chosen}
use esp32s3tinyepaper.Hosts.Polled.{poll_rounds}
use esp32s3tinyepaper.Hosts.Polled.Followed.{any_text, poll_rounds-Chosen}
use esp32s3tinyepaper.Hosts.Usb.{vbus_ready, suspend}
use esp32s3tinyepaper.Hosts.Usb.Events.{
  UsbEvent, message, medium, handle_all, Tracks, handle_all-Tracks,
}

abbrev one_record : Flash AddrRecord
one_record = record {
  open_area = λ f. (ok tt, f);
  erase = λ f. (ok tt, record { magic = 0; crc = 0; addr = [] });
  write = λ rec f. (ok tt, rec);
  read = λ f. (ok f, f);
  close = λ f. f;
}

abbrev open_net : Net ℕ ℕ
open_net = record {
  getaddrinfo = λ host port n. (ok (some port), n);
  socket = λ a n. (ok 0, suc n);
  setsockopt = λ fd o ms n. n;
  connect = λ fd a n. (ok tt, n);
  close = λ fd n. n;
  freeaddrinfo = λ a n. n;
}

-- A FAT16 volume: its drive number is 128, and it holds hosts.txt.
abbrev boot : List ℕ
boot = replicate 36 0 ++ 128 ∷ replicate 475 0

abbrev text : List ℕ
text = codes "1.2.3.4:80\n"

-- A disk that counts its writes.
abbrev fat16 : Disk ℕ
fat16 = record {
  open_read = λ d. (ok 0, d);
  open_write = λ d. (ok 0, d);
  read = λ file room d. (ok text, d);
  write = λ file bytes d. (ok (length bytes), suc d);
  sync = λ file d. d;
  close = λ file d. d;
  mount = λ d. (ok tt, d);
  unmount = λ d. (ok tt, d);
  mkfs = λ d. (ok tt, suc d);
  ioctl_init = λ d. (ok tt, d);
  ioctl_sync = λ d. (ok tt, d);
  read_sectors = λ at count d. (ok boot, d);
  write_sectors = λ bytes at count d. (ok tt, suc d);
  malloc = λ size d. (true, d);
  free = λ d. d;
}

abbrev hosts : HostsState ℕ AddrRecord ℕ
hosts = record {
  last_host_value = [];
  host_value_valid = false;
  serv = record {
    active_addr = codes "5.6.7.8:90";
    active_valid = true;
    flash = record { magic = 0; crc = 0; addr = [] };
    net = 0;
  };
  disk = 0;
}

abbrev app : App ℕ AddrRecord ℕ
app = record {
  hosts_refresh_pending = true;
  usb_host_connected = false;
  sync_sem = 0;
  serv_ip = [];
  serv_port = 8061;
  hosts = hosts;
}

refresh_hosts_if_needed-Follows_example :
    Ends
      (λ _ t.
        ((app.hosts_refresh_pending ≡ false) × (t ≡ app))
        ⊎ ((app.hosts_refresh_pending ≡ true)
            × (t.hosts_refresh_pending ≡ false)
            × Checked fat16 one_record open_net app.hosts t.hosts))
      (λ _ t. ⊥)
      (refresh_hosts_if_needed fat16 one_record open_net)
      app
refresh_hosts_if_needed-Follows_example =
    refresh_hosts_if_needed-Follows fat16 one_record open_net app

abbrev events : List UsbEvent
events = message vbus_ready ∷ medium (some (codes "FLASH")) false ∷ message suspend ∷ []

handle_all-Tracks_example : Tracks true true app (handle_all events app)
unfolding same_text
handle_all-Tracks_example = handle_all-Tracks events app

-- A clock that stands.
abbrev still : App ℕ AddrRecord ℕ → ℕ × App ℕ AddrRecord ℕ
still s = (7, s)

main_rounds-Chosen_example :
    Ends
      (λ _ t. Chosen fat16 one_record open_net hosts_addr_is_valid app.hosts t.hosts)
      (λ _ t. ⊥)
      (main_rounds fat16 one_record open_net (λ ms s. s) still 3 7)
      app
main_rounds-Chosen_example =
    main_rounds-Chosen fat16 one_record open_net (λ ms s. s) still (λ ms u. refl) (λ u. refl) app 3
      7

poll_rounds-Chosen_example :
    Ends
      (λ _ t. Chosen fat16 one_record open_net any_text hosts t)
      (λ _ t. ⊥)
      (poll_rounds fat16 one_record open_net (λ ms s. s) 2)
      hosts
poll_rounds-Chosen_example =
    poll_rounds-Chosen fat16 one_record open_net (λ ms s. s) (λ ms u. refl) 2 hosts

drive_number : le32 boot 36 ≢ 0
unfolding le32 le16
drive_number h = omega arith

set_fat_volume_label_boot_only_example :
    (set_fat_volume_label fat16 (codes "FLASH") 3 ≡ (ok tt, 4))
    × ((i : ℕ)
        → i < 11
        → (get_or (label_sector fat16 boot (pad_label (codes "FLASH"))) (43 + i) 0
            ≡ get_or (pad_label (codes "FLASH")) i 0)
          × (get_or (label_sector fat16 boot (pad_label (codes "FLASH"))) (71 + i) 0
              ≡ get_or (pad_label (codes "FLASH")) i 0))
    × ((j : ℕ)
        → j < 43
        → get_or (label_sector fat16 boot (pad_label (codes "FLASH"))) j 0 ≡ get_or boot j 0)
set_fat_volume_label_boot_only_example =
    set_fat_volume_label_boot_only fat16 (codes "FLASH") boot 3 3 4 refl drive_number refl refl
