-- ===== src/Serv/Store.antt =====
-- The flash record of src/serv_addr.c. Flash is a parameter: its contents are a value of a type `F`
-- that only Zephyr's flash area calls read and change. A record is read and written as a whole.
pub mod Crc
pub mod Reload
use esp32s3tinyepaper.Base.{
  ℕ, zero, suc, ◌+◌, ◌-◌, ◌*◌, ◌%◌, ◌^◌, Bool, not, List, [], ◌∷◌, ◌++◌, bit_xor, ◌==◌,
  if◌then◌else◌, length, take, replicate, set, get_or,
}
use esp32s3tinyepaper.Base.Result.{
  Result, ok, err, einval, enoent, Action, pure, raise, raise_if, of_result, attempt, ignore,
  modify, ◌>>=◌, ◌>>◌,
}

abbrev pub serv_addr_max_len : ℕ
serv_addr_max_len = 128

abbrev pub active_magic : ℕ
active_magic = 0x5341_5256

pub record AddrRecord : Type 0 where
  pub magic : ℕ
  pub crc : ℕ
  pub addr : List ℕ

-- One byte of the check sum, in `uint32_t`.
unfoldable pub crc_step : ℕ → ℕ → ℕ
crc_step h byte = bit_xor h byte * 16777619 % 2 ^ 32

unfoldable pub crc_loop : ℕ → List ℕ → ℕ
crc_loop h [] = h
crc_loop h (byte ∷ addr) = crc_loop (crc_step h byte) addr

unfoldable pub calc_crc : AddrRecord → ℕ
calc_crc rec = crc_loop 2166136261 rec.addr

-- The text in a buffer: its bytes before the first zero.
unfoldable pub text_of : List ℕ → List ℕ
text_of [] = []
text_of (b ∷ s) = let rest = text_of s in if b == 0 then [] else b ∷ rest

-- `strncpy(dst, src, n - 1); dst[n - 1] = '\0';` into a cleared buffer of `n` bytes, and the text
-- that it leaves.
unfoldable pub copy_text : ℕ → List ℕ → List ℕ
copy_text n text = take (n - 1) text

unfoldable pub fill_buffer : ℕ → List ℕ → List ℕ
fill_buffer n text = let kept = copy_text n text in kept ++ replicate (n - length kept) 0

-- `flash_area_open`, `_erase`, `_write`, `_read` and `_close`.
pub record Flash (F : Type 0) : Type 0 where
  pub open_area : F → Result (Unit {0}) × F
  pub erase : F → Result (Unit {0}) × F
  pub write : AddrRecord → F → Result (Unit {0}) × F
  pub read : F → Result AddrRecord × F
  pub close : F → F

unfoldable pub address_record : List ℕ → AddrRecord
address_record addr =
    let buffer = fill_buffer serv_addr_max_len addr in
    record {
      magic = active_magic;
      crc = calc_crc (record { magic = active_magic; crc = 0; addr = buffer });
      addr = buffer;
    }

-- The checks on the record that was read, and the text copied out.
unfoldable pub check_record : AddrRecord → ℕ → Result (List ℕ)
check_record rec out_len =
    let addr = text_of (set rec.addr (serv_addr_max_len - 1) 0) in
    if not (rec.magic == active_magic)
    then err enoent
    else if not (rec.crc == calc_crc rec)
    then err einval
    else if length addr == 0
    then err enoent
    else ok (copy_text out_len addr)

module _ {F : Type 0} (flash : Flash F) where
  unfoldable pub save_active_addr_to_flash : List ℕ → Action F (Unit {0})
  save_active_addr_to_flash addr = do
    flash.open_area
    ret ← attempt (flash.erase >> flash.write (address_record addr))
    modify flash.close
    of_result ret

  unfoldable pub load_active_addr_from_flash : ℕ → Action F (List ℕ)
  load_active_addr_from_flash out_len = do
    raise_if (out_len == 0) einval
    flash.open_area
    ret ← attempt flash.read
    modify flash.close
    rec ← of_result ret
    of_result (check_record rec out_len)
