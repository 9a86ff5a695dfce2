-- ===== src/Epd/Glyph/Lookup.antt =====
-- The binary search in the glyph table of src/epd200x200.c, `zpix12_find_glyph`.
use esp32s3tinyepaper.Base.{
  ℕ, zero, suc, ◌+◌, ◌-◌, ◌/◌, ◌≤◌, ◌<◌, ◌≡◌, ◌≢◌, List, [], inl, inr, some, arith, ltb, ◌==◌,
  Bool-cases, tests, length, get_elem?, get_or, get_elem?-eq-get_or,
}
use esp32s3tinyepaper.Epd.Glyph.{Glyph, Search, hit, miss, stuck, find_loop, find_glyph}

abbrev blank : Glyph
blank = record { codepoint = 0; rows = [] }

abbrev pub codepoint_at : List Glyph → ℕ → ℕ
codepoint_at table i = (get_or table i blank).codepoint

-- The order in which the generator writes the table.
abbrev pub IsSorted : List Glyph → Type 0
IsSorted table = (i j : ℕ) → i < j → j < length table → codepoint_at table i < codepoint_at table j

-- A hit is an entry of the table with that code point, a miss says that there is none.
abbrev pub Locates : List Glyph → ℕ → Search → Type 0
Locates table codepoint (hit g) =
    (i : ℕ) × (i < length table) × (get_elem? table i ≡ some g) × (g.codepoint ≡ codepoint)
Locates table codepoint miss = (i : ℕ) → i < length table → codepoint_at table i ≢ codepoint
Locates table codepoint stuck = ⊥

module _ (table : List Glyph) (codepoint : ℕ) (sorted : IsSorted table) where
  -- What the loop has ruled out: the code point is at no place outside `left .. right - 1`.
  abbrev Outside : ℕ → ℕ → Type 0
  Outside left right =
      (i : ℕ) → i < length table → codepoint_at table i ≡ codepoint → (left ≤ i) × (i < right)

  shrink_left :
      (left mid right : ℕ)
      → Outside left right
      → mid < length table
      → codepoint_at table mid < codepoint
      → Outside (mid + 1) right
  shrink_left left mid right out hm low i hi e = grind (arith, out i hi e, sorted i mid)

  shrink_right :
      (left mid right : ℕ)
      → Outside left right
      → mid < length table
      → codepoint < codepoint_at table mid
      → Outside left mid
  shrink_right left mid right out hm high i hi e = grind (arith, out i hi e, sorted mid i)

  find_loop-Locates :
      (fuel left right : ℕ)
      → right - left < fuel
      → right ≤ length table
      → Outside left right
      → Locates table codepoint (find_loop fuel table codepoint left right)
  unfolding find_loop
  find_loop-Locates zero left right few fits out = absurd (omega arith)
  find_loop-Locates (suc fuel) left right few fits out = elim (Bool-cases (ltb left right)) [
    | inr empty ↦ rw empty (λ i hi e. omega (tests, out i hi e))
    | inl more ↦
        let mid : ℕ = left + (right - left) / 2 in
        let inside : mid < length table = omega tests in
        rw (more, get_elem?-eq-get_or table mid blank inside)
          (elim (Bool-cases (codepoint_at table mid == codepoint)) [
            | inl same ↦
                rw same (mid, inside, get_elem?-eq-get_or table mid blank inside, omega tests)
            | inr other ↦ rw other (elim (Bool-cases (ltb (codepoint_at table mid) codepoint)) [
              | inl low ↦ rw low (
                  find_loop-Locates fuel (mid + 1) right (omega tests) fits
                    (shrink_left left mid right out inside (omega tests)))
              | inr high ↦ rw high (
                  find_loop-Locates fuel left mid (omega tests) (omega tests)
                    (shrink_right left mid right out inside (omega tests)))
            ])
          ])
  ]

  -- In a table that is sorted by code point the search returns, never reads outside the table, finds an entry with the
  -- code point where there is one, and reports a miss only where there is none.
  pub find_glyph-Locates : Locates table codepoint (find_glyph table codepoint)
  unfolding find_glyph
  find_glyph-Locates =
      find_loop-Locates (length table + 1) 0 (length table) (omega arith) (omega arith)
        (λ i hi e. omega arith)
