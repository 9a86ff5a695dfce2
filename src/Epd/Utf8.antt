-- ===== src/Epd/Utf8.antt =====
-- The UTF-8 reader of src/epd200x200.c, `utf8_decode_one`. A C string is the list of its bytes
-- before the terminator, so a read at its end gives 0.
pub mod Roundtrip
use esp32s3tinyepaper.Base.{
  ℕ, ◌+◌, ◌*◌, ◌^◌, Bool, ◌&&◌, List, bit_and, bit_or, ◌==◌, if◌then◌else◌, get_or, drop,
}

-- `(p[i] & 0xC0) == 0x80`
abbrev pub is_tail : ℕ → Bool
is_tail b = bit_and b 0xC0 == 0x80

-- The code point and the rest of the text; a byte that starts no sequence reads as '?'.
unfoldable pub utf8_decode_one : List ℕ → ℕ × List ℕ
utf8_decode_one p =
    let p0 = get_or p 0 0 in
    let p1 = get_or p 1 0 in
    let p2 = get_or p 2 0 in
    let p3 = get_or p 3 0 in
    if p0 == 0
    then (0, p)
    else if bit_and p0 0x80 == 0
    then (p0, drop 1 p)
    else if bit_and p0 0xE0 == 0xC0 && is_tail p1
    then (bit_or (bit_and p0 0x1F * 2 ^ 6) (bit_and p1 0x3F), drop 2 p)
    else if bit_and p0 0xF0 == 0xE0 && is_tail p1 && is_tail p2
    then (
      bit_or (bit_or (bit_and p0 0x0F * 2 ^ 12) (bit_and p1 0x3F * 2 ^ 6)) (bit_and p2 0x3F),
      drop 3 p,
    )
    else if bit_and p0 0xF8 == 0xF0 && is_tail p1 && is_tail p2 && is_tail p3
    then (
      bit_or
          (bit_or (bit_or (bit_and p0 0x07 * 2 ^ 18) (bit_and p1 0x3F * 2 ^ 12))
            (bit_and p2 0x3F * 2 ^ 6))
          (bit_and p3 0x3F),
      drop 4 p,
    )
    else (b'?', drop 1 p)
