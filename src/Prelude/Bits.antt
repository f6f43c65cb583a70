-- ===== src/Prelude/Bits.antt =====
-- Shifts and `|` on words whose fields do not overlap, for every width.
use Prim.Native.Nat.{
  ℕ, zero, suc, ◌+◌, ◌*◌, ◌/◌, ◌%◌, ◌^◌, ◌≤◌, ◌<◌, max, bit_or, digits, bit_or-bitwise,
}
use mathlib.Core.Path.{◌≡◌, refl, ap, ◌∙◌}
use native.Mathlib.Nat.{pow-suc}
use native.Mathlib.Omega.{arith}

-- `digits` at `|` with a count of digits; the count does not matter once it is large enough.
abbrev or_count : ℕ → ℕ → ℕ → ℕ
or_count n a b = digits (λ b. b) max n a b

or_count_enough : (n m a b : ℕ) → a ≤ n → a ≤ m → or_count n a b ≡ or_count m a b
or_count_enough zero zero zero b p q = refl
or_count_enough zero (suc m) zero b p q = refl
or_count_enough (suc n) zero zero b p q = refl
or_count_enough (suc n) (suc m) zero b p q = refl
or_count_enough zero m (suc a) b p q = absurd (omega arith)
or_count_enough (suc n) zero (suc a) b p q = absurd (omega arith)
or_count_enough (suc n) (suc m) (suc a) b p q =
    omega (arith, or_count_enough n m (suc a / 2) (b / 2) (omega arith) (omega arith))

zero-bit_or : (b : ℕ) → bit_or 0 b ≡ b
zero-bit_or b = bit_or-bitwise 0 b

bit_or_halves : (a b : ℕ) → bit_or a b ≡ bit_or (a / 2) (b / 2) * 2 + max (a % 2) (b % 2)
bit_or_halves zero b = omega (arith, zero-bit_or b, zero-bit_or (b / 2))
bit_or_halves (suc a) b = omega (
  arith,
  bit_or-bitwise (suc a) b,
  bit_or-bitwise (suc a / 2) (b / 2),
  or_count_enough a (suc a / 2) (suc a / 2) (b / 2) (omega arith) (omega arith),
)

bit_or-zero_below : (n a : ℕ) → a ≤ n → bit_or a 0 ≡ a
bit_or-zero_below n zero h = zero-bit_or 0
bit_or-zero_below zero (suc a) h = absurd (omega arith)
bit_or-zero_below (suc n) (suc a) h =
    omega (arith, bit_or_halves (suc a) 0, bit_or-zero_below n (suc a / 2) (omega arith))

bit_or_double : (n r : ℕ) → bit_or (n * 2) r ≡ bit_or n (r / 2) * 2 + r % 2
bit_or_double n r =
    let e : n * 2 / 2 ≡ n = omega arith in bit_or_halves (n * 2) r ∙ rw e (omega arith)

-- A field below bit `k` is added to the bits from `k` on.
pub bit_or-eq-add : (k q r : ℕ) → r < 2 ^ k → bit_or (q * 2 ^ k) r ≡ q * 2 ^ k + r
bit_or-eq-add zero q zero h = omega (arith, bit_or-zero_below (q * 2 ^ 0) (q * 2 ^ 0) (omega arith))
bit_or-eq-add zero q (suc r) h = absurd (omega arith)
bit_or-eq-add (suc k) q r h =
    let e : q * 2 ^ suc k ≡ q * 2 ^ k * 2 = omega (arith, ap (λ (t : ℕ). q * t) (pow-suc 2 k)) in
    rw e (
      omega (
        arith,
        bit_or_double (q * 2 ^ k) r,
        bit_or-eq-add k q (r / 2) (omega (arith, pow-suc 2 k)),
      ))
