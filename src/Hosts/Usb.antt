-- ===== src/Hosts/Usb.antt =====
-- The USB events of src/usb.c: `usb_msg_cb`, `usbd_msc_medium_event`, `usb_fix_code_triple` and
-- `setup_usb_msc`. The USB stack is a parameter. A message is not NULL.
pub mod Events
use esp32s3tinyepaper.Base.{
  ℕ, suc, min, Bool, true, false, not, List, [], ◌∷◌, Option, none, some, if◌then◌else◌,
}
use esp32s3tinyepaper.Base.Text.{codes}
use esp32s3tinyepaper.Base.Result.{Result, ok, err, Action, pure, modify, ignore, ◌>>=◌, ◌>>◌}
use esp32s3tinyepaper.Serv.Active.{same_text}
use esp32s3tinyepaper.Hosts.{App}

-- `enum usbd_msg_type`, as far as it is told apart.
pub data UsbMsg : Type 0 where
  vbus_ready configuration resume suspend reset vbus_removed other_msg : UsbMsg

abbrev pub disk_name : List ℕ
disk_name = codes "FLASH"

-- `sync_sem` counts up to 1.
abbrev pub sync_sem_limit : ℕ
sync_sem_limit = 1

module _ {D F N : Type 0} where
  unfoldable pub usb_msg_cb : UsbMsg → App D F N → App D F N
  usb_msg_cb vbus_ready s = record s { usb_host_connected = true }
  usb_msg_cb configuration s = record s { usb_host_connected = true }
  usb_msg_cb resume s = record s { usb_host_connected = true }
  usb_msg_cb suspend s = s
  usb_msg_cb reset s = s
  usb_msg_cb vbus_removed s = record s { usb_host_connected = false }
  usb_msg_cb other_msg s = s

  unfoldable pub k_sem_give : App D F N → App D F N
  k_sem_give s = record s { sync_sem = min (suc s.sync_sem) sync_sem_limit }

  -- No disk is a NULL pointer.
  unfoldable pub usbd_msc_medium_event : Option (List ℕ) → Bool → App D F N → App D F N
  usbd_msc_medium_event none medium_loaded s = s
  usbd_msc_medium_event (some disk) medium_loaded s =
      if not (same_text disk disk_name)
      then s
      else if medium_loaded
      then s
      else k_sem_give (record s { hosts_refresh_pending = true })

pub data Speed : Type 0 where
  full_speed high_speed : Speed

-- `usbd_add_descriptor`, `usbd_caps_speed`, `usbd_add_configuration`, `usbd_register_all_classes`,
-- `usbd_device_set_code_triple`, `usbd_init`, `usbd_msg_register_cb` and `usbd_enable`.
pub record UsbStack (U : Type 0) : Type 0 where
  pub add_descriptor : List ℕ → U → Result (Unit {0}) × U
  pub is_high_speed : Bool
  pub has_cdc_acm : Bool
  pub add_configuration : Speed → U → Result (Unit {0}) × U
  pub register_all_classes : Speed → U → Result (Unit {0}) × U
  pub set_code_triple : Speed → ℕ → ℕ → ℕ → U → U
  pub usbd_init : U → Result (Unit {0}) × U
  pub msg_register_cb : U → Result (Unit {0}) × U
  pub enable : U → Result (Unit {0}) × U

-- USB_BCC_MISCELLANEOUS.
abbrev pub usb_bcc_miscellaneous : ℕ
usb_bcc_miscellaneous = 0xEF

module _ {U : Type 0} (usb : UsbStack U) where
  unfoldable pub usb_fix_code_triple : Speed → Action U (Unit {0})
  usb_fix_code_triple speed =
      if usb.has_cdc_acm
      then modify (usb.set_code_triple speed usb_bcc_miscellaneous 2 1)
      else modify (usb.set_code_triple speed 0 0 0)

  unfoldable pub setup_speed : Speed → Action U (Unit {0})
  setup_speed speed = do
    usb.add_configuration speed
    usb.register_all_classes speed
    usb_fix_code_triple speed

  unfoldable pub setup_usb_msc : Action U (Unit {0})
  setup_usb_msc = do
    usb.add_descriptor (codes "lang")
    usb.add_descriptor (codes "Qinshen")
    usb.add_descriptor (codes "ESP32S3 Tiny MSC+TCP")
    (if usb.is_high_speed then setup_speed high_speed else pure tt)
    setup_speed full_speed
    usb.usbd_init
    usb.msg_register_cb
    usb.enable
