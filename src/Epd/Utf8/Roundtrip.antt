-- ===== src/Epd/Utf8/Roundtrip.antt =====
-- `utf8_decode_one` of src/epd200x200.c and a UTF-8 writer.
use esp32s3tinyepaper.Base.{
  ℕ, zero, suc, ◌+◌, ◌*◌, ◌/◌, ◌%◌, ◌^◌, ◌≤◌, ◌<◌, ◌≡◌, refl, Bool, true, ◌&&◌, List, [], ◌∷◌, ◌++◌,
  bit_and, bit_or, ltb, ◌==◌, if◌then◌else◌, get_or, drop, length, arith, tests, ap, ◌∙◌, all_below,
  all_below_sound, inl, inr, Bool-cases,
}
use esp32s3tinyepaper.Base.Bits.{bit_or_disjoint}
use esp32s3tinyepaper.Epd.Utf8.{is_tail, utf8_decode_one}

-- The encoding that the standard prescribes, here the specification of the reader.
unfoldable pub utf8_encode : ℕ → List ℕ
utf8_encode cp =
    if ltb cp 0x80
    then cp ∷ []
    else if ltb cp 0x800
    then (0xC0 + cp / 2 ^ 6) ∷ (0x80 + cp % 2 ^ 6) ∷ []
    else if ltb cp 0x1_0000
    then (0xE0 + cp / 2 ^ 12) ∷ (0x80 + cp / 2 ^ 6 % 2 ^ 6) ∷ (0x80 + cp % 2 ^ 6) ∷ []
    else (0xF0 + cp / 2 ^ 18)
      ∷ (0x80 + cp / 2 ^ 12 % 2 ^ 6)
      ∷ (0x80 + cp / 2 ^ 6 % 2 ^ 6)
      ∷ (0x80 + cp % 2 ^ 6)
      ∷ []

-- The masks on each kind of byte, checked by evaluation.
abbrev tail_ok : ℕ → Bool
tail_ok b = is_tail (0x80 + b) && (bit_and (0x80 + b) 0x3F == b)

tail_table : all_below 64 tail_ok ≡ true
unfolding all_below
tail_table = refl

tail_byte : (b : ℕ) → b < 64 → (is_tail (0x80 + b) ≡ true) × (bit_and (0x80 + b) 0x3F ≡ b)
tail_byte b h = ground (arith, all_below_sound 64 tail_ok b tail_table h)

abbrev lead1_ok : ℕ → Bool
lead1_ok b = bit_and b 0x80 == 0

lead1_table : all_below 128 lead1_ok ≡ true
unfolding all_below
lead1_table = refl

abbrev lead2_ok : ℕ → Bool
lead2_ok b =
    (bit_and (0xC0 + b) 0x80 == 128)
    && (bit_and (0xC0 + b) 0xE0 == 0xC0)
    && (bit_and (0xC0 + b) 0x1F == b)

lead2_table : all_below 32 lead2_ok ≡ true
unfolding all_below
lead2_table = refl

abbrev lead3_ok : ℕ → Bool
lead3_ok b =
    (bit_and (0xE0 + b) 0x80 == 128)
    && (bit_and (0xE0 + b) 0xE0 == 0xE0)
    && (bit_and (0xE0 + b) 0xF0 == 0xE0)
    && (bit_and (0xE0 + b) 0x0F == b)

lead3_table : all_below 16 lead3_ok ≡ true
unfolding all_below
lead3_table = refl

abbrev lead4_ok : ℕ → Bool
lead4_ok b =
    (bit_and (0xF0 + b) 0x80 == 128)
    && (bit_and (0xF0 + b) 0xE0 == 0xE0)
    && (bit_and (0xF0 + b) 0xF0 == 0xF0)
    && (bit_and (0xF0 + b) 0xF8 == 0xF0)
    && (bit_and (0xF0 + b) 0x07 == b)

lead4_table : all_below 8 lead4_ok ≡ true
unfolding all_below
lead4_table = refl

decode1 : (a : ℕ) (rest : List ℕ) → 0 < a → a < 0x80 → utf8_decode_one (a ∷ rest) ≡ (a, rest)
unfolding utf8_decode_one
decode1 a rest pa h = ground (arith, all_below_sound 128 lead1_ok a lead1_table h)

decode2 :
    (a b : ℕ) (rest : List ℕ)
    → a < 32
    → b < 64
    → utf8_decode_one ((0xC0 + a) ∷ (0x80 + b) ∷ rest) ≡ (a * 2 ^ 6 + b, rest)
unfolding utf8_decode_one
decode2 a b rest ha hb =
    ground (
      arith,
      all_below_sound 32 lead2_ok a lead2_table ha,
      tail_byte b hb,
      bit_or_disjoint 6 a b hb,
    )

or3 : (a b c : ℕ) → b < 64 → c < 64 → bit_or (bit_or (a * 4096) (b * 64)) c ≡ (a * 64 + b) * 64 + c
or3 a b c hb hc =
    let joined : a * 4096 + b * 64 ≡ (a * 64 + b) * 64 = omega arith in
    rw (bit_or_disjoint 12 a (b * 64) (omega arith), joined) (bit_or_disjoint 6 (a * 64 + b) c hc)

or4 :
    (a b c d : ℕ)
    → b < 64
    → c < 64
    → d < 64
    → bit_or (bit_or (bit_or (a * 262144) (b * 4096)) (c * 64)) d ≡ ((a * 64 + b) * 64 + c) * 64 + d
or4 a b c d hb hc hd =
    let first : a * 262144 + b * 4096 ≡ (a * 64 + b) * 4096 = omega arith in
    rw (bit_or_disjoint 18 a (b * 4096) (omega arith), first) (or3 (a * 64 + b) c d hc hd)

decode3 :
    (a b c : ℕ) (rest : List ℕ)
    → a < 16
    → b < 64
    → c < 64
    → utf8_decode_one ((0xE0 + a) ∷ (0x80 + b) ∷ (0x80 + c) ∷ rest) ≡ ((a * 64 + b) * 64 + c, rest)
unfolding utf8_decode_one
decode3 a b c rest ha hb hc = ground (
  arith,
  all_below_sound 16 lead3_ok a lead3_table ha,
  tail_byte b hb,
  tail_byte c hc,
  or3 a b c hb hc,
)

decode4 :
    (a b c d : ℕ) (rest : List ℕ)
    → a < 8
    → b < 64
    → c < 64
    → d < 64
    → utf8_decode_one ((0xF0 + a) ∷ (0x80 + b) ∷ (0x80 + c) ∷ (0x80 + d) ∷ rest)
      ≡ (((a * 64 + b) * 64 + c) * 64 + d, rest)
unfolding utf8_decode_one
decode4 a b c d rest ha hb hc hd = ground (
  arith,
  all_below_sound 8 lead4_ok a lead4_table ha,
  tail_byte b hb,
  tail_byte c hc,
  tail_byte d hd,
  or4 a b c d hb hc hd,
)

-- For every code point from 1 up to the last that four bytes can carry, reading the encoding in
-- front of any further text gives the code point and exactly that further text.
pub utf8_decode_one-utf8_encode :
    (cp : ℕ) (rest : List ℕ)
    → 0 < cp
    → cp < 0x20_0000
    → utf8_decode_one (utf8_encode cp ++ rest) ≡ (cp, rest)
unfolding utf8_encode
utf8_decode_one-utf8_encode cp rest p h = elim (Bool-cases (ltb cp 0x80)) [
  | inl one ↦ rw one (decode1 cp rest p (omega tests))
  | inr more ↦ rw more (elim (Bool-cases (ltb cp 0x800)) [
    | inl two ↦
        rw two
          (decode2 (cp / 64) (cp % 64) rest (omega tests) (omega arith) ∙ pair_path (omega arith))
    | inr over ↦ rw over (elim (Bool-cases (ltb cp 0x1_0000)) [
      | inl three ↦ rw three (
          decode3 (cp / 4096) (cp / 64 % 64) (cp % 64) rest (omega tests) (omega arith)
            (omega arith)
          ∙ pair_path (omega arith))
      | inr four ↦ rw four (
          decode4 (cp / 262144) (cp / 4096 % 64) (cp / 64 % 64) (cp % 64) rest (omega tests)
            (omega arith) (omega arith) (omega arith)
          ∙ pair_path (omega arith))
    ])
  ])
]
  where
    pair_path : {a b : ℕ} → a ≡ b → ◌≡◌ {A = ℕ × List ℕ} (a, rest) (b, rest)
    pair_path e = ap (λ n. (n, rest)) e

-- On a non-empty text of non-zero bytes at least one byte and at most four are read, the terminator
-- is never passed, and what is left is the end of the text.
abbrev pub Advances : List ℕ → List ℕ → Type 0
Advances p rest = (n : ℕ) × (1 ≤ n) × (n ≤ 4) × (n ≤ length p) × (rest ≡ drop n p)

tail_in_text : (p : List ℕ) (i : ℕ) → is_tail (get_or p i 0) ≡ true → i < length p
tail_in_text [] i e = cc
tail_in_text (b ∷ p) zero e = omega arith
tail_in_text (b ∷ p) (suc i) e = omega (arith, tail_in_text p i e)

-- From a text that is not at its end, the reader takes one to four bytes, and no more than are left
-- before the terminator.
pub utf8_decode_one-Advances :
    (b : ℕ) (p : List ℕ) → 0 < b → Advances (b ∷ p) (utf8_decode_one (b ∷ p)).1
unfolding utf8_decode_one
utf8_decode_one-Advances b p h = elim (Bool-cases (b == 0)) [
  | inl ended ↦ absurd (omega (tests, h))
  | inr going ↦ rw going (elim (Bool-cases (bit_and b 0x80 == 0)) [
    | inl one ↦ rw one (step 1 (omega arith) (omega arith) (omega arith))
    | inr more ↦ rw more (elim (Bool-cases (bit_and b 0xE0 == 0xC0 && is_tail (get_or p 0 0))) [
      | inl two ↦ rw two (step 2 (omega arith) (omega arith) (last 0 _ two))
      | inr over ↦
          rw over
            (elim (Bool-cases
              (bit_and b 0xF0 == 0xE0 && is_tail (get_or p 0 0) && is_tail (get_or p 1 0))) [
                | inl three ↦ rw three (step 3 (omega arith) (omega arith) (last 1 _ three))
                | inr beyond ↦
                    rw beyond
                      (elim (Bool-cases (
                        bit_and b 0xF8 == 0xF0
                        && is_tail (get_or p 0 0)
                        && is_tail (get_or p 1 0)
                        && is_tail (get_or p 2 0))) [
                          | inl four ↦ rw four (step 4 (omega arith) (omega arith) (last 2 _ four))
                          | inr bad ↦ rw bad (step 1 (omega arith) (omega arith) (omega arith))
                        ])
              ])
    ])
  ])
]
  where
    step : (n : ℕ) → 1 ≤ n → n ≤ 4 → n ≤ suc (length p) → Advances (b ∷ p) (drop n (b ∷ p))
    step n lo hi fits = (n, lo, hi, fits, refl)

    last : (i : ℕ) (c : Bool) → (c && is_tail (get_or p i 0)) ≡ true → suc (suc i) ≤ suc (length p)
    last i c e = omega (arith, tail_in_text p i (ground arith))
