-- ===== src/Serv/Active/Cleaned.antt =====
-- The copy and the trimming at the head of `serv_addr_init` and `serv_addr_try_promote` in
-- src/serv_addr.c.
use esp32s3tinyepaper.Base.{
  ℕ, zero, suc, ◌+◌, ◌≤◌, ◌≡◌, refl, ap, ◌∙◌, List, [], ◌∷◌, arith, length, take, length-take,
  length-append,
}
use esp32s3tinyepaper.Serv.Address.{trim_line_end}
use esp32s3tinyepaper.Serv.Address.Parsed.{trim_line_end-Trimmed}
use esp32s3tinyepaper.Serv.Store.{copy_text}

take_all : (n : ℕ) (s : List ℕ) → length s ≤ n → take n s ≡ s
take_all zero [] h = refl
take_all zero (b ∷ s) h = absurd (omega arith)
take_all (suc n) [] h = refl
take_all (suc n) (b ∷ s) h = ap (λ l. b ∷ l) (take_all n s (omega arith))

-- The candidate as it is compared, tried and saved: its first 127 bytes, less the line ends.
abbrev pub cleaned : List ℕ → List ℕ
cleaned candidate_addr = trim_line_end (copy_text 128 candidate_addr)

pub cleaned-fits : (c : List ℕ) → copy_text 128 (cleaned c) ≡ cleaned c
unfolding copy_text
cleaned-fits c =
    let cut = trim_line_end-Trimmed (take 127 c) in
    let sum : length (take 127 c) ≡ length (cleaned c) + length cut.0 =
      ap length cut.1 ∙ length-append (cleaned c) cut.0 in
    take_all 127 (cleaned c) (omega (arith, sum, length-take 127 c))
