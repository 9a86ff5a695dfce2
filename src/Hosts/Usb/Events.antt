-- ===== src/Hosts/Usb/Events.antt =====
-- Any sequence of the USB events of src/usb.c.
use esp32s3tinyepaper.Base.{
  ℕ, ◌≡◌, refl, ◌∙◌, ap, Bool, true, false, not, ◌||◌, ◌&&◌, List, [], ◌∷◌, Option, none, some,
  if◌then◌else◌, arith,
}
use esp32s3tinyepaper.Serv.Active.{same_text}
use esp32s3tinyepaper.Hosts.{App}
use esp32s3tinyepaper.Hosts.Usb.{
  UsbMsg, vbus_ready, configuration, resume, suspend, reset, vbus_removed, other_msg, disk_name,
  usb_msg_cb, k_sem_give, usbd_msc_medium_event,
}

pub data UsbEvent : Type 0 where
  message : UsbMsg → UsbEvent
  medium : Option (List ℕ) → Bool → UsbEvent

-- The host removed the disk FLASH.
abbrev pub is_removal : UsbEvent → Bool
is_removal (message m) = false
is_removal (medium none loaded) = false
is_removal (medium (some disk) loaded) = same_text disk disk_name && not loaded

abbrev pub any_removal : List UsbEvent → Bool
any_removal [] = false
any_removal (e ∷ es) = is_removal e || any_removal es

-- What a message says of the host, if it says anything.
abbrev pub power_of : Bool → UsbEvent → Bool
power_of before (message vbus_ready) = true
power_of before (message configuration) = true
power_of before (message resume) = true
power_of before (message vbus_removed) = false
power_of before (message suspend) = before
power_of before (message reset) = before
power_of before (message other_msg) = before
power_of before (medium disk loaded) = before

abbrev pub last_power : Bool → List UsbEvent → Bool
last_power before [] = before
last_power before (e ∷ es) = last_power (power_of before e) es

or_false : (b : Bool) → b ≡ (b || false)
or_false true = refl
or_false false = refl

or_true : (b : Bool) → true ≡ (b || true)
or_true true = refl
or_true false = refl

or_assoc : (a b c : Bool) → ((a || b) || c) ≡ (a || (b || c))
or_assoc true b c = refl
or_assoc false b c = refl

if_or : (a b : Bool) (n : ℕ) → (if b then 1 else (if a then 1 else n)) ≡ (if a || b then 1 else n)
if_or true true n = refl
if_or true false n = refl
if_or false true n = refl
if_or false false n = refl

module _ {D F N : Type 0} where
  unfoldable pub handle : UsbEvent → App D F N → App D F N
  handle (message m) s = usb_msg_cb m s
  handle (medium disk loaded) s = usbd_msc_medium_event disk loaded s

  unfoldable pub handle_all : List UsbEvent → App D F N → App D F N
  handle_all [] s = s
  handle_all (e ∷ es) s = handle_all es (handle e s)

  -- What the flags say after events, by those before.
  pub record Tracks (removal power : Bool) (s t : App D F N) : Type 0 where
    pub pending : t.hosts_refresh_pending ≡ (s.hosts_refresh_pending || removal)
    pub connected : t.usb_host_connected ≡ power
    pub semaphore : t.sync_sem ≡ (if removal then 1 else s.sync_sem)
    pub hosts : t.hosts ≡ s.hosts

  unchanged : (s : App D F N) → Tracks false s.usb_host_connected s s
  unchanged s = record {
    pending = or_false s.hosts_refresh_pending;
    connected = refl;
    semaphore = refl;
    hosts = refl;
  }

  powered : (b : Bool) (s : App D F N) → Tracks false b s (record s { usb_host_connected = b })
  powered b s = record {
    pending = or_false s.hosts_refresh_pending;
    connected = refl;
    semaphore = refl;
    hosts = refl;
  }

  message-Tracks :
      (m : UsbMsg) (s : App D F N)
      → Tracks false (power_of s.usb_host_connected (message m)) s (usb_msg_cb m s)
  unfolding usb_msg_cb
  message-Tracks vbus_ready s = powered true s
  message-Tracks configuration s = powered true s
  message-Tracks resume s = powered true s
  message-Tracks suspend s = unchanged s
  message-Tracks reset s = unchanged s
  message-Tracks vbus_removed s = powered false s
  message-Tracks other_msg s = unchanged s

  removed-Tracks :
      (s : App D F N)
      → Tracks true s.usb_host_connected s (k_sem_give (record s { hosts_refresh_pending = true }))
  unfolding k_sem_give
  removed-Tracks s = record {
    pending = or_true s.hosts_refresh_pending;
    connected = refl;
    semaphore = omega arith;
    hosts = refl;
  }

  medium-Tracks :
      (same loaded : Bool) (s : App D F N)
      → Tracks (same && not loaded) s.usb_host_connected s (
          if not same
          then s
          else if loaded
          then s
          else k_sem_give (record s { hosts_refresh_pending = true }))
  medium-Tracks false loaded s = unchanged s
  medium-Tracks true true s = unchanged s
  medium-Tracks true false s = removed-Tracks s

  handle-Tracks :
      (e : UsbEvent) (s : App D F N)
      → Tracks (is_removal e) (power_of s.usb_host_connected e) s (handle e s)
  unfolding handle usbd_msc_medium_event
  handle-Tracks (message m) s = message-Tracks m s
  handle-Tracks (medium none loaded) s = unchanged s
  handle-Tracks (medium (some disk) loaded) s = medium-Tracks (same_text disk disk_name) loaded s

  -- After any sequence of USB events, the refresh of hosts.txt is pending exactly if it was before or the
  -- host removed the disk FLASH in between; the host counts as connected as the last message about its
  -- power says; the semaphore stands at 1 after a removal, however many there were, and is otherwise what
  -- it was. The server address and the disk are not touched.
  pub handle_all-Tracks :
      (es : List UsbEvent) (s : App D F N)
      → Tracks (any_removal es) (last_power s.usb_host_connected es) s (handle_all es s)
  unfolding handle_all
  handle_all-Tracks [] s = unchanged s
  handle_all-Tracks (e ∷ es) s =
      let first = handle-Tracks e s in
      let rest = handle_all-Tracks es (handle e s) in
      record {
        pending =
            rest.pending
            ∙ ap (λ b. b || any_removal es) first.pending
            ∙ or_assoc s.hosts_refresh_pending (is_removal e) (any_removal es);
        connected = rest.connected ∙ ap (λ b. last_power b es) first.connected;
        semaphore =
            rest.semaphore
            ∙ ap (λ n. if any_removal es then 1 else n) first.semaphore
            ∙ if_or (is_removal e) (any_removal es) s.sync_sem;
        hosts = rest.hosts ∙ first.hosts;
      }
