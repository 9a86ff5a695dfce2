-- ===== src/Hosts/Label/Written.antt =====
-- What `set_fat_volume_label` of src/main_ec801e_hid.c writes.
use esp32s3tinyepaper.Base.{
  ℕ, zero, suc, ◌+◌, ◌-◌, ◌≤◌, ◌<◌, ◌≡◌, ◌≢◌, refl, ◌∙◌, ap, inl, inr, false, List, [], ◌∷◌, ◌==◌,
  length, take, replicate, get_or, set, arith, Bool-cases, get_or-set, length-set, length-append,
  length-take, length-replicate,
}
use esp32s3tinyepaper.Base.Result.{ok, Action, bind_ok, ◌>>◌}
use esp32s3tinyepaper.Hosts.{Disk}
use esp32s3tinyepaper.Hosts.Label.{
  pad_label, write_at, le16, le32, Geometry, geometry, fatsz, label_root, label_sector,
  set_fat_volume_label,
}

length-write_at :
    (bytes : List ℕ) (at : ℕ) (text : List ℕ) → length (write_at bytes at text) ≡ length bytes
unfolding write_at
length-write_at bytes at [] = refl
length-write_at bytes at (c ∷ text) =
    length-write_at (set bytes at c) (at + 1) text ∙ length-set bytes at c

-- A byte before the place that is written stays.
write_at_before :
    (bytes : List ℕ) (at : ℕ) (text : List ℕ) (j : ℕ)
    → j < at
    → at + length text ≤ length bytes
    → get_or (write_at bytes at text) j 0 ≡ get_or bytes j 0
unfolding write_at
write_at_before bytes at [] j h fits = refl
write_at_before bytes at (c ∷ text) j h fits =
    write_at_before (set bytes at c) (at + 1) text j (omega arith)
      (omega (arith, length-set bytes at c))
    ∙ get_or-set bytes at j c 0 (omega arith)
    ∙ ground arith

-- A byte of the text is read back.
write_at_inside :
    (bytes : List ℕ) (at : ℕ) (text : List ℕ) (j : ℕ)
    → j < length text
    → at + length text ≤ length bytes
    → get_or (write_at bytes at text) (at + j) 0 ≡ get_or text j 0
unfolding write_at
write_at_inside bytes at [] j h fits = absurd (omega arith)
write_at_inside bytes at (c ∷ text) zero h fits =
    write_at_before (set bytes at c) (at + 1) text (at + 0) (omega arith)
      (omega (arith, length-set bytes at c))
    ∙ get_or-set bytes at (at + 0) c 0 (omega arith)
    ∙ ground arith
write_at_inside bytes at (c ∷ text) (suc j) h fits =
    ap (λ i. get_or (write_at (set bytes at c) (at + 1) text) i 0) (omega arith)
    ∙ write_at_inside (set bytes at c) (at + 1) text j (omega arith)
        (omega (arith, length-set bytes at c))

length-pad_label : (label : List ℕ) → length (pad_label label) ≡ 11
unfolding pad_label
length-pad_label label = omega (
  arith,
  length-append (take 11 label) (replicate (11 - length label) b' '),
  length-take 11 label,
  length-replicate {A = ℕ} (11 - length label) b' ',
)

module _ {D : Type 0} (disk : Disk D) where
  -- The boot sector is written with the label at both places, and its fields stay.
  label_sector_field :
      (sector label : List ℕ) (j : ℕ)
      → length sector ≡ 512
      → j < 43
      → get_or (label_sector disk sector (pad_label label)) j 0 ≡ get_or sector j 0
  unfolding label_sector
  label_sector_field sector label j size h =
      write_at_before (write_at sector 43 (pad_label label)) 71 (pad_label label) j (omega arith)
        (omega (arith, length-write_at sector 43 (pad_label label), length-pad_label label))
      ∙ write_at_before sector 43 (pad_label label) j h (omega (arith, length-pad_label label))

  label_sector_label :
      (sector label : List ℕ) (i : ℕ)
      → length sector ≡ 512
      → i < 11
      → (get_or (label_sector disk sector (pad_label label)) (43 + i) 0
          ≡ get_or (pad_label label) i 0)
        × (get_or (label_sector disk sector (pad_label label)) (71 + i) 0
            ≡ get_or (pad_label label) i 0)
  unfolding label_sector
  label_sector_label sector label i size h = (
    write_at_before (write_at sector 43 (pad_label label)) 71 (pad_label label) (43 + i)
          (omega arith)
          (omega (arith, length-write_at sector 43 (pad_label label), length-pad_label label))
        ∙ write_at_inside sector 43 (pad_label label) i (omega (arith, length-pad_label label))
            (omega (arith, length-pad_label label)),
    write_at_inside (write_at sector 43 (pad_label label)) 71 (pad_label label) i
        (omega (arith, length-pad_label label))
        (omega (arith, length-write_at sector 43 (pad_label label), length-pad_label label)),
  )

  fatsz32_kept :
      (sector label : List ℕ)
      → length sector ≡ 512
      → (geometry (label_sector disk sector (pad_label label))).fatsz32 ≡ le32 sector 36
  unfolding geometry le32 le16
  fatsz32_kept sector label size =
      rw
        (
          label_sector_field sector label 36 size (omega arith),
          label_sector_field sector label 37 size (omega arith),
          label_sector_field sector label 38 size (omega arith),
          label_sector_field sector label 39 size (omega arith),
        )
        refl

  no_root :
      (g : Geometry) (lab11 : List ℕ) (d : D)
      → (g.fatsz32 == 0) ≡ false
      → label_root disk g lab11 d ≡ (ok tt, (disk.ioctl_sync d).1)
  unfolding label_root
  no_root g lab11 d large = elim (Bool-cases (fatsz g == 0)) [
    | inl empty ↦ rw empty refl
    | inr sized ↦ rw (sized, large) refl
  ]

  -- Where bytes 36 to 39 of the boot sector are not all zero, the label is written to the boot sector and
  -- nowhere else: the root directory is neither read nor written, and the call succeeds. On a FAT12 or
  -- FAT16 volume these bytes hold the drive number and the extended boot signature. In the boot sector
  -- the label is written at both places, 43 and 71, and no byte before them changes.
  pub set_fat_volume_label_boot_only :
      (label sector : List ℕ) (d d1 d2 : D)
      → length sector ≡ 512
      → le32 sector 36 ≢ 0
      → disk.read_sectors 0 1 d ≡ (ok sector, d1)
      → disk.write_sectors (label_sector disk sector (pad_label label)) 0 1 d1 ≡ (ok tt, d2)
      → (set_fat_volume_label disk label d ≡ (ok tt, (disk.ioctl_sync d2).1))
        × ((i : ℕ)
            → i < 11
            → (get_or (label_sector disk sector (pad_label label)) (43 + i) 0
                ≡ get_or (pad_label label) i 0)
              × (get_or (label_sector disk sector (pad_label label)) (71 + i) 0
                  ≡ get_or (pad_label label) i 0))
        × ((j : ℕ)
            → j < 43
            → get_or (label_sector disk sector (pad_label label)) j 0 ≡ get_or sector j 0)
  unfolding set_fat_volume_label
  set_fat_volume_label_boot_only label sector d d1 d2 size large read written = (
    bind_ok (disk.read_sectors 0 1) then_write d read
        ∙ bind_ok (disk.write_sectors boot_sector 0 1)
            (λ _. label_root disk (geometry boot_sector) (pad_label label)) d1 written
        ∙ no_root (geometry boot_sector) (pad_label label) d2 not_zero,
    λ i h. label_sector_label sector label i size h,
    λ j h. label_sector_field sector label j size h,
  )
    where
      boot_sector : List ℕ
      boot_sector = label_sector disk sector (pad_label label)

      then_write : List ℕ → Action D (Unit {0})
      then_write sector =
          disk.write_sectors (label_sector disk sector (pad_label label)) 0 1
          >> label_root disk (geometry (label_sector disk sector (pad_label label)))
              (pad_label label)

      not_zero : ((geometry (label_sector disk sector (pad_label label))).fatsz32 == 0) ≡ false
      not_zero = rw (fatsz32_kept sector label size) (ground (arith, large))
