-- ===== src/Prelude/Bits.antt =====
-- `bit_or` of a number and a field above it is their sum, for every width.
use Prim.Native.Nat.{
  ℕ, zero, suc, ◌+◌, ◌*◌, ◌/◌, ◌%◌, ◌^◌, ◌≤◌, ◌<◌, max, bit_or, digits, bit_or-bitwise,
}
use mathlib.Core.Path.{◌≡◌, ap, ◌∙◌}
use native.Mathlib.Omega.{arith}
use native.Mathlib.Nat.{pow-suc}

pub double_pow : (s : ℕ) → 2 ^ suc s ≡ 2 * 2 ^ s
double_pow s = omega (arith, pow-suc 2 s)

-- One bit less of a field `x` that is shifted by `suc s`.
unshift : (x s : ℕ) → ((x * 2 ^ suc s) / 2 ≡ x * 2 ^ s) × ((x * 2 ^ suc s) % 2 ≡ 0)
unshift x s =
    let twice : x * 2 ^ suc s ≡ x * (2 * 2 ^ s) = ap (λ (t : ℕ). x * t) (double_pow s) in
    (omega arith, omega arith)

-- The digits of a low part below 2 ^ s and of a field above it, for any count that is enough.
sum_of_digits :
    (count s low x : ℕ)
    → low ≤ count
    → low < 2 ^ s
    → digits (λ d. d) max count low (x * 2 ^ s) ≡ low + x * 2 ^ s
sum_of_digits zero s low x enough small = omega arith
sum_of_digits (suc count) s zero x enough small = omega arith
sum_of_digits (suc count) zero (suc low) x enough small = absurd (omega arith)
sum_of_digits (suc count) (suc s) (suc low) x enough small =
    let (half, even) = unshift x s in
    let above = sum_of_digits count s (suc low / 2) x (omega arith) (omega (arith, double_pow s)) in
    rw (half, even, above) (omega (arith, ap (λ (t : ℕ). x * t) (double_pow s)))

pub bit_or-shifted : (s a b : ℕ) → a < 2 ^ s → bit_or a (b * 2 ^ s) ≡ a + b * 2 ^ s
bit_or-shifted s a b h = bit_or-bitwise a (b * 2 ^ s) ∙ sum_of_digits a s a b (omega arith) h
