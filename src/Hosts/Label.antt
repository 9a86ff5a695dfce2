-- ===== src/Hosts/Label.antt =====
-- `set_fat_volume_label` of src/main_ec801e_hid.c. A sector is its 512 bytes. `pdrv` and `label` are not
-- NULL.
pub mod Written
use esp32s3tinyepaper.Base.{
  ℕ, zero, suc, ◌+◌, ◌-◌, ◌*◌, ◌/◌, ◌%◌, ◌^◌, Bool, true, false, not, List, [], ◌∷◌, ◌++◌, Option,
  none, some, ◌==◌, ltb, if◌then◌else◌, length, take, drop, replicate, get_or, bit_and, set,
}
use esp32s3tinyepaper.Base.Result.{
  Result, ok, err, Errno, enomem, Action, pure, raise, modify, attempt, ignore, of_result, ◌>>=◌,
  ◌>>◌,
}
use esp32s3tinyepaper.Hosts.{Disk}

-- The label, filled with blanks up to 11 bytes.
unfoldable pub pad_label : List ℕ → List ℕ
pad_label label = take 11 label ++ replicate (11 - length label) b' '

-- `memcpy(&bytes[at], text, ...)`.
unfoldable pub write_at : List ℕ → ℕ → List ℕ → List ℕ
write_at bytes at [] = bytes
write_at bytes at (c ∷ text) = write_at (set bytes at c) (at + 1) text

-- Numbers in little-endian order.
unfoldable pub le16 : List ℕ → ℕ → ℕ
le16 bytes at = get_or bytes at 0 + 256 * get_or bytes (at + 1) 0

unfoldable pub le32 : List ℕ → ℕ → ℕ
le32 bytes at = le16 bytes at + 65536 * le16 bytes (at + 2)

-- The fields of the boot sector.
pub record Geometry : Type 0 where
  pub bytes_per_sector : ℕ
  pub root_ent_cnt : ℕ
  pub rsvd_sec_cnt : ℕ
  pub num_fats : ℕ
  pub fatsz16 : ℕ
  pub fatsz32 : ℕ

unfoldable pub geometry : List ℕ → Geometry
geometry sector = record {
  bytes_per_sector = le16 sector 11;
  root_ent_cnt = le16 sector 17;
  rsvd_sec_cnt = le16 sector 14;
  num_fats = get_or sector 16 0;
  fatsz16 = le16 sector 22;
  fatsz32 = le32 sector 36;
}

unfoldable pub fatsz : Geometry → ℕ
fatsz g = if g.fatsz16 == 0 then g.fatsz32 else g.fatsz16

-- A volume with no sectors would divide by zero; the native division gives 0 there.
unfoldable pub root_dir_sectors : Geometry → ℕ
root_dir_sectors g = (g.root_ent_cnt * 32 + g.bytes_per_sector - 1) % 2 ^ 32 / g.bytes_per_sector

unfoldable pub first_root_dir_sector : Geometry → ℕ
first_root_dir_sector g = (g.rsvd_sec_cnt + g.num_fats * fatsz g) % 2 ^ 32

-- The entries from `off` on, `rounds` of them: the label's entry, or else the first that is free.
unfoldable pub or_free : Option ℕ → ℕ → Option ℕ
or_free none off = some off
or_free (some free) off = some free

unfoldable pub find_entry : ℕ → List ℕ → ℕ → Option ℕ → Option ℕ
find_entry zero rootbuf off free = free
find_entry (suc rounds) rootbuf off free =
    let first = get_or rootbuf off 0 in
    let attr = get_or rootbuf (off + 11) 0 in
    let deleted = first == 0xE5 in
    let rest = find_entry rounds rootbuf (off + 32) (if deleted then or_free free off else free) in
    if first == 0
    then or_free free off
    else if deleted
    then rest
    else if bit_and attr 8 == 8
    then some off
    else rest

-- The root directory with the label's entry written, if there is a place for it.
unfoldable pub write_entry : List ℕ → List ℕ → Option ℕ → Option (List ℕ)
write_entry rootbuf lab11 none = none
write_entry rootbuf lab11 (some off) = some (set (write_at rootbuf off lab11) (off + 11) 8)

module _ {D : Type 0} (disk : Disk D) where
  unfoldable pub write_root : Geometry → Option (List ℕ) → Action D (Unit {0})
  write_root g none = pure tt
  write_root g (some rootbuf) =
      ignore (disk.write_sectors rootbuf (first_root_dir_sector g) (root_dir_sectors g))

  -- After the root directory was read.
  unfoldable pub update_root : Geometry → List ℕ → Result (List ℕ) → Action D (Unit {0})
  update_root g lab11 (err e) = do modify disk.free; raise e
  update_root g lab11 (ok rootbuf) = do
    write_root g (
        write_entry rootbuf lab11
          (find_entry ((root_dir_sectors g * g.bytes_per_sector + 31) / 32) rootbuf 0 none))
    modify disk.free
    disk.ioctl_sync

  unfoldable pub after_malloc : Geometry → List ℕ → Bool → Action D (Unit {0})
  after_malloc g lab11 false = raise enomem
  after_malloc g lab11 true = do
    r ← attempt (disk.read_sectors (first_root_dir_sector g) (root_dir_sectors g))
    update_root g lab11 r

  unfoldable pub label_root : Geometry → List ℕ → Action D (Unit {0})
  label_root g lab11 =
      if fatsz g == 0
      then ignore disk.ioctl_sync
      else if not (g.fatsz32 == 0)
      then ignore disk.ioctl_sync
      else if root_dir_sectors g == 0
      then ignore disk.ioctl_sync
      else (do
        got ←
            (λ d. let (b, t) = disk.malloc (root_dir_sectors g * g.bytes_per_sector) d in (ok b, t))
        after_malloc g lab11 got)

  -- The boot sector with the label at both places.
  unfoldable pub label_sector : List ℕ → List ℕ → List ℕ
  label_sector sector lab11 = write_at (write_at sector 43 lab11) 71 lab11

  unfoldable pub set_fat_volume_label : List ℕ → Action D (Unit {0})
  set_fat_volume_label label = do
    sector ← disk.read_sectors 0 1
    let lab11 = pad_label label
    disk.write_sectors (label_sector sector lab11) 0 1
    label_root (geometry (label_sector sector lab11)) lab11
