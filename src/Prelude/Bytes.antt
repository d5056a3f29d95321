-- ===== src/Prelude/Bytes.antt =====
-- Bytes and machine words as native numbers: big-endian and little-endian fields.
use Prim.Native.Nat.{ℕ, zero, suc, ◌+◌, ◌*◌, ◌/◌, ◌%◌, ◌^◌, ◌<◌, bit_and, bit_or}
use mathlib.Core.Path.{◌≡◌, refl, ap, ◌∙◌}
use mathlib.Core.Logic.{◌↔◌}
use mathlib.Core.Bool.{Bool, true, false, ◌&&◌}
use mathlib.Core.List.{List, [], ◌∷◌}
use native.Mathlib.Omega.{arith}
use v2ray.Prelude.Tests.{if◌then◌else◌, ◌==◌, ==_iff}
use v2ray.Prelude.Lists.{All}

abbrev pub IsByte : ℕ → Type 0
IsByte b = b < 256

abbrev pub IsU16 : ℕ → Type 0
IsU16 n = n < 2 ^ 16

abbrev pub IsU32 : ℕ → Type 0
IsU32 n = n < 2 ^ 32

abbrev pub IsU64 : ℕ → Type 0
IsU64 n = n < 2 ^ 64

abbrev pub AreBytes : List ℕ → Type 0
AreBytes = All IsByte

-- `put_u16` and `u16::from_be_bytes`.
abbrev pub be16 : ℕ → List ℕ
be16 n = n / 256 % 256 ∷ n % 256 ∷ []

abbrev pub of_be16 : ℕ → ℕ → ℕ
of_be16 hi lo = hi * 256 + lo

pub of_be16-be16 : (n : ℕ) → IsU16 n → of_be16 (n / 256 % 256) (n % 256) ≡ n
of_be16-be16 n h = omega arith

-- A test that is run on each number below a bound, and what its success says of one of them.
table : (ℕ → Bool) → ℕ → Bool
table test zero = true
table test (suc last) = if test last then table test last else false

table_entry : (test : ℕ → Bool) (bound n : ℕ) → n < bound → table test bound ≡ true → test n ≡ true
unfolding table
table_entry test zero n below ran = elim below [ ]
table_entry test (suc last) n below ran = ground (arith, table_entry test last n)

-- Tables of the masks that the code uses on one byte.
pub low_seven : (b : ℕ) → IsByte b → bit_and b 0x7f ≡ b % 128
unfolding table
low_seven b h = (==_iff _ _).0 (table_entry (λ x. bit_and x 0x7f == x % 128) 256 b h refl)

pub top_bit : (b : ℕ) → IsByte b → bit_and b 0x80 ≡ b / 128 * 128
unfolding table
top_bit b h = (==_iff _ _).0 (table_entry (λ x. bit_and x 0x80 == x / 128 * 128) 256 b h refl)

pub set_top_bit : (b : ℕ) → b < 128 → bit_or b 0x80 ≡ b + 128
unfolding table
set_top_bit b h = (==_iff _ _).0 (table_entry (λ x. bit_or x 0x80 == x + 128) 128 b h refl)

pub low_bit : (b : ℕ) → IsByte b → bit_and b 1 ≡ b % 2
unfolding table
low_bit b h = (==_iff _ _).0 (table_entry (λ x. bit_and x 1 == x % 2) 256 b h refl)

-- `(v as u8) | 0x80`
pub set_high : (v : ℕ) → bit_or (v % 256) 0x80 ≡ v % 128 + 128
unfolding table
set_high v =
    let e : v % 256 % 128 ≡ v % 128 = omega arith in
    (==_iff _ _).0
      (table_entry (λ x. bit_or x 0x80 == x % 128 + 128) 256 (v % 256) (omega arith) refl)
    ∙ ap (λ (t : ℕ). t + 128) e

-- `==` on byte strings.
unfoldable pub bytes_eq : List ℕ → List ℕ → Bool
bytes_eq [] [] = true
bytes_eq [] (y ∷ ys) = false
bytes_eq (x ∷ xs) [] = false
bytes_eq (x ∷ xs) (y ∷ ys) = x == y && bytes_eq xs ys

pub bytes_eq_iff : (xs ys : List ℕ) → (bytes_eq xs ys ≡ true) ↔ (xs ≡ ys)
unfolding bytes_eq
bytes_eq_iff [] [] = (λ _. refl, λ _. refl)
bytes_eq_iff [] (y ∷ ys) = (λ e. ground arith, λ e. ground arith)
bytes_eq_iff (x ∷ xs) [] = (λ e. ground arith, λ e. ground arith)
bytes_eq_iff (x ∷ xs) (y ∷ ys) = ground (arith, bytes_eq_iff xs ys, ==_iff x y)
