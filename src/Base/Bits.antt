-- ===== src/Base/Bits.antt =====
-- `|` of two numbers whose digits do not meet is their sum, and `^` can be cancelled. The native
-- operations are taken apart into their lowest digit and the rest.
use Prim.Native.Nat.{
  ℕ, zero, suc, ◌+◌, ◌*◌, ◌/◌, ◌%◌, ◌^◌, ◌≤◌, ◌<◌, max, bit_or, bit_xor, digits, differ,
  bit_or-bitwise, bit_xor-bitwise,
}
use mathlib.Core.Path.{◌≡◌, refl}
use native.Mathlib.Omega.{arith}
use native.Mathlib.Nat.{pow-suc}

abbrev or_digits : ℕ → ℕ → ℕ → ℕ
or_digits fuel a b = digits (λ rest. rest) max fuel a b

-- Any fuel that covers the first number gives the same digits.
or_digits_fuel : (f g a b : ℕ) → a ≤ f → a ≤ g → or_digits f a b ≡ or_digits g a b
or_digits_fuel zero zero a b p q = refl
or_digits_fuel (suc f) zero zero b p q = refl
or_digits_fuel zero (suc g) zero b p q = refl
or_digits_fuel (suc f) (suc g) zero b p q = refl
or_digits_fuel zero g (suc a) b p q = absurd (omega arith)
or_digits_fuel (suc f) zero (suc a) b p q = absurd (omega arith)
or_digits_fuel (suc f) (suc g) (suc a) b p q =
    omega (arith, or_digits_fuel f g (suc a / 2) (b / 2) (omega arith) (omega arith))

zero-bit_or : (b : ℕ) → bit_or 0 b ≡ b
zero-bit_or b = bit_or-bitwise 0 b

bit_or_low : (a b : ℕ) → bit_or a b ≡ bit_or (a / 2) (b / 2) * 2 + max (a % 2) (b % 2)
bit_or_low zero b = omega (arith, zero-bit_or b, zero-bit_or (b / 2))
bit_or_low (suc a) b = omega (
  arith,
  bit_or-bitwise (suc a) b,
  bit_or-bitwise (suc a / 2) (b / 2),
  or_digits_fuel a (suc a / 2) (suc a / 2) (b / 2) (omega arith) (omega arith),
)

bit_or-zero_below : (n a : ℕ) → a ≤ n → bit_or a 0 ≡ a
bit_or-zero_below n zero h = refl
bit_or-zero_below zero (suc a) h = absurd (omega arith)
bit_or-zero_below (suc n) (suc a) h =
    omega (arith, bit_or_low (suc a) 0, bit_or-zero_below n (suc a / 2) (omega arith))

or_double : (q b : ℕ) → bit_or q (b / 2) ≡ q + b / 2 → bit_or (q * 2) b ≡ q * 2 + b
or_double q b h =
    let half : q * 2 / 2 ≡ q = omega arith in
    let low : bit_or (q * 2) b ≡ bit_or (q * 2 / 2) (b / 2) * 2 + max (q * 2 % 2) (b % 2) =
      bit_or_low (q * 2) b in
    omega (arith, rw half at low)

double_pow : (a k : ℕ) → a * 2 ^ suc k ≡ a * 2 ^ k * 2
double_pow a k = rw pow-suc (omega arith)

pub bit_or_disjoint : (k a b : ℕ) → b < 2 ^ k → bit_or (a * 2 ^ k) b ≡ a * 2 ^ k + b
bit_or_disjoint zero a b h =
    let none_left : b ≡ 0 = omega arith in
    rw none_left (omega (arith, bit_or-zero_below (a * 1) (a * 1) (omega arith)))
bit_or_disjoint (suc k) a b h =
    rw (double_pow a k)
      (or_double (a * 2 ^ k) b (bit_or_disjoint k a (b / 2) (omega (arith, pow-suc 2 k))))

abbrev xor_digits : ℕ → ℕ → ℕ → ℕ
xor_digits fuel a b = digits (λ rest. rest) differ fuel a b

xor_digits_fuel : (f g a b : ℕ) → a ≤ f → a ≤ g → xor_digits f a b ≡ xor_digits g a b
xor_digits_fuel zero zero a b p q = refl
xor_digits_fuel (suc f) zero zero b p q = refl
xor_digits_fuel zero (suc g) zero b p q = refl
xor_digits_fuel (suc f) (suc g) zero b p q = refl
xor_digits_fuel zero g (suc a) b p q = absurd (omega arith)
xor_digits_fuel (suc f) zero (suc a) b p q = absurd (omega arith)
xor_digits_fuel (suc f) (suc g) (suc a) b p q =
    omega (arith, xor_digits_fuel f g (suc a / 2) (b / 2) (omega arith) (omega arith))

differ_parity : (x y : ℕ) → x < 2 → y < 2 → differ x y ≡ (x + y) % 2
differ_parity zero y hx hy = omega arith
differ_parity (suc zero) zero hx hy = refl
differ_parity (suc zero) (suc zero) hx hy = refl
differ_parity (suc zero) (suc (suc y)) hx hy = absurd (omega arith)
differ_parity (suc (suc x)) y hx hy = absurd (omega arith)

bit_xor_low : (a b : ℕ) → bit_xor a b ≡ bit_xor (a / 2) (b / 2) * 2 + (a % 2 + b % 2) % 2
bit_xor_low zero b = omega (arith, bit_xor-bitwise 0 b, bit_xor-bitwise 0 (b / 2))
bit_xor_low (suc a) b = omega (
  arith,
  bit_xor-bitwise (suc a) b,
  bit_xor-bitwise (suc a / 2) (b / 2),
  xor_digits_fuel a (suc a / 2) (suc a / 2) (b / 2) (omega arith) (omega arith),
  differ_parity (suc a % 2) (b % 2) (omega arith) (omega arith),
)

xor_cancel_below : (n a b c : ℕ) → b ≤ n → c ≤ n → bit_xor a b ≡ bit_xor a c → b ≡ c
xor_cancel_below zero a b c hb hc e = omega arith
xor_cancel_below (suc n) a b c hb hc e = omega (
  arith,
  bit_xor_low a b,
  bit_xor_low a c,
  xor_cancel_below n (a / 2) (b / 2) (c / 2) (omega arith) (omega arith)
      (omega (arith, bit_xor_low a b, bit_xor_low a c)),
)

pub bit_xor_cancel : (a b c : ℕ) → bit_xor a b ≡ bit_xor a c → b ≡ c
bit_xor_cancel a b c e = xor_cancel_below (b + c) a b c (omega arith) (omega arith) e

xor_comm_below : (n a b : ℕ) → a ≤ n → b ≤ n → bit_xor a b ≡ bit_xor b a
xor_comm_below zero a b ha hb =
    let no_a : a ≡ 0 = omega arith in let no_b : b ≡ 0 = omega arith in rw (no_a, no_b) refl
xor_comm_below (suc n) a b ha hb = omega (
  arith,
  bit_xor_low a b,
  bit_xor_low b a,
  xor_comm_below n (a / 2) (b / 2) (omega arith) (omega arith),
)

pub bit_xor_comm : (a b : ℕ) → bit_xor a b ≡ bit_xor b a
bit_xor_comm a b = xor_comm_below (a + b) a b (omega arith) (omega arith)

pub bit_xor-lt : (k a b : ℕ) → a < 2 ^ k → b < 2 ^ k → bit_xor a b < 2 ^ k
bit_xor-lt zero a b ha hb =
    let no_a : a ≡ 0 = omega arith in
    let no_b : b ≡ 0 = omega arith in rw (no_a, no_b) (omega arith)
bit_xor-lt (suc k) a b ha hb = omega (
  arith,
  pow-suc 2 k,
  bit_xor_low a b,
  bit_xor-lt k (a / 2) (b / 2) (omega (arith, pow-suc 2 k)) (omega (arith, pow-suc 2 k)),
)
