-- ===== src/Serv/Store/Crc.antt =====
-- The check sum of src/serv_addr.c, `calc_crc`, on buffers that differ.
use esp32s3tinyepaper.Base.{
  ℕ, zero, suc, ◌*◌, ◌%◌, ◌<◌, ◌^◌, ◌≡◌, ◌≢◌, ◌∙◌, List, [], ◌∷◌, bit_xor, arith, All, length, set,
  get_or,
}
use esp32s3tinyepaper.Base.Bits.{bit_xor_cancel, bit_xor_comm, bit_xor-lt}
use esp32s3tinyepaper.Serv.Store.{AddrRecord, crc_step, crc_loop, calc_crc}

-- The FNV prime is odd, so multiplying by it modulo 2 ^ 32 can be undone.
times_prime_cancel :
    (a b : ℕ)
    → a < 4294967296
    → b < 4294967296
    → a * 16777619 % 4294967296 ≡ b * 16777619 % 4294967296
    → a ≡ b
times_prime_cancel a b ha hb e = omega arith

module _ (h g b c : ℕ) (hh : h < 2 ^ 32) (hg : g < 2 ^ 32) (hb : b < 256) (hc : c < 256) where
  mixed : crc_step h b ≡ crc_step g c → bit_xor h b ≡ bit_xor g c
  unfolding crc_step
  mixed e =
      times_prime_cancel (bit_xor h b) (bit_xor g c) (bit_xor-lt 32 h b hh (omega arith))
        (bit_xor-lt 32 g c hg (omega arith)) e

crc_step-lt : (h b : ℕ) → crc_step h b < 2 ^ 32
unfolding crc_step
crc_step-lt h b = omega arith

-- A difference in the running value survives equal bytes.
crc_loop_apart :
    (addr : List ℕ) (h g : ℕ)
    → h < 2 ^ 32
    → g < 2 ^ 32
    → All (λ b. b < 256) addr
    → crc_loop h addr ≡ crc_loop g addr
    → h ≡ g
unfolding crc_loop
crc_loop_apart [] h g hh hg bytes e = e
crc_loop_apart (b ∷ addr) h g hh hg bytes e =
    let step : bit_xor h b ≡ bit_xor g b = mixed h g b b hh hg bytes.0 bytes.0 (
      crc_loop_apart addr (crc_step h b) (crc_step g b) (crc_step-lt h b) (crc_step-lt g b) bytes.1
        e) in
    bit_xor_cancel b h g (bit_xor_comm b h ∙ step ∙ bit_xor_comm g b)

crc_loop-set :
    (addr : List ℕ) (h i byte : ℕ)
    → h < 2 ^ 32
    → All (λ b. b < 256) addr
    → byte < 256
    → i < length addr
    → crc_loop h (set addr i byte) ≡ crc_loop h addr
    → byte ≡ get_or addr i 0
unfolding crc_loop
crc_loop-set [] h i byte hh bytes hb hi e = elim hi [ ]
crc_loop-set (b ∷ addr) h zero byte hh bytes hb hi e = bit_xor_cancel h byte b (
    mixed h h byte b hh hh hb bytes.0 (
      crc_loop_apart addr (crc_step h byte) (crc_step h b) (crc_step-lt h byte) (crc_step-lt h b)
        bytes.1 e))
crc_loop-set (b ∷ addr) h (suc i) byte hh bytes hb hi e =
    crc_loop-set addr (crc_step h b) i byte (crc_step-lt h b) bytes.1 hb (omega arith) e

-- A buffer in which one byte is replaced by a different one has a different check sum.
pub calc_crc_detects :
    (rec : AddrRecord) (i byte : ℕ)
    → All (λ b. b < 256) rec.addr
    → byte < 256
    → i < length rec.addr
    → byte ≢ get_or rec.addr i 0
    → calc_crc (record rec { addr = set rec.addr i byte }) ≢ calc_crc rec
unfolding calc_crc
calc_crc_detects rec i byte bytes hb hi ne e =
    ne (crc_loop-set rec.addr 2166136261 i byte (omega arith) bytes hb hi e)
