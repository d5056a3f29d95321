-- ===== src/Vless/Varint/RoundTrip.antt =====
-- What `put_varint` writes, and that `read_varint` reads it back.
use Prim.Native.Nat.{bit_and, bit_or}
use v2ray.Prelude.{
  refl, drop-append, top_bit, some, ℕ, zero, suc, ◌+◌, ◌*◌, ◌/◌, ◌%◌, ◌^◌, ◌≤◌, ◌<◌, ◌≡◌, ap, List,
  [], ◌∷◌, ◌++◌, arith, leb, if◌then◌else◌, length, append_assoc, IsU64, IsByte, AreBytes,
  low_seven, bit_or-shifted, set_high,
}
use v2ray.Common.Result.{ok}
use v2ray.Vless.Varint.{put_varint_loop, put_varint, read_varint_loop, read_varint}
use native.Mathlib.Nat.{div-add-mod}
use native.Mathlib.Numerals.{towards_suc}

-- The groups of seven bits of `v`, lowest first, for `v` below 128 ^ (k + 1).
unfoldable pub groups : ℕ → ℕ → List ℕ
groups zero v = v ∷ []
groups (suc k) v =
    let rest = groups k (v / 128) in if leb 0x80 v then (v % 128 + 128) ∷ rest else v ∷ []

put_loop-groups :
    (k : ℕ) (buf : List ℕ) (v : ℕ)
    → v < 128 ^ suc k
    → put_varint_loop (suc k) buf v ≡ ok (buf ++ groups k v)
unfolding put_varint_loop groups
put_loop-groups zero buf v h = ground arith
put_loop-groups (suc k) buf v h = ground (
  arith,
  set_high v,
  put_loop-groups k (buf ++ ((v % 128 + 128) ∷ [])) (v / 128) (omega arith),
  append_assoc buf ((v % 128 + 128) ∷ []) (groups k (v / 128)),
)

-- `put_varint` ends for every u64, and appends its groups.
pub put_varint-groups : (buf : List ℕ) (v : ℕ) → IsU64 v → put_varint buf v ≡ ok (buf ++ groups 9 v)
unfolding put_varint
put_varint-groups buf v h = put_loop-groups 9 buf v (omega arith)

pub groups-AreBytes : (k v : ℕ) → v < 128 ^ suc k → AreBytes (groups k v)
unfolding groups
groups-AreBytes zero v h = omega arith
groups-AreBytes (suc k) v h = ground (arith, groups-AreBytes k (v / 128) (omega arith))

pub length-groups : (k v : ℕ) → (1 ≤ length (groups k v)) × (length (groups k v) ≤ k + 1)
unfolding groups
length-groups zero v = omega arith
length-groups (suc k) v = ground (arith, length-groups k (v / 128))

-- The lowest group of `v` and the rest, both shifted by `s`.
pow_seven : (s : ℕ) → 2 ^ (s + 7) ≡ 128 * 2 ^ s
pow_seven s = simp towards_suc (omega arith)

split_low : (v s : ℕ) → v * 2 ^ s ≡ v % 128 * 2 ^ s + v / 128 * 2 ^ (s + 7)
split_low v s = omega (
  arith,
  ap (λ (t : ℕ). t * 2 ^ s) (div-add-mod v 128),
  ap (λ (t : ℕ). v / 128 * t) (pow_seven s),
)

-- One round: the new result.
add_group :
    (acc b s : ℕ)
    → IsByte b
    → acc < 2 ^ s
    → b % 128 * 2 ^ s < 2 ^ 64
    → bit_or acc (bit_and b 0x7f * 2 ^ s % 2 ^ 64) ≡ acc + b % 128 * 2 ^ s
add_group acc b s hb ha fits =
    let e : b % 128 * 2 ^ s % 2 ^ 64 ≡ b % 128 * 2 ^ s = omega arith in
    rw (low_seven b hb, e, bit_or-shifted s acc (b % 128) ha)

last_group :
    (w c acc s : ℕ) (rest : List ℕ)
    → w < 128
    → acc < 2 ^ s
    → w * 2 ^ s < 2 ^ 64
    → read_varint_loop (w ∷ rest) c acc s ≡ (some (acc + w * 2 ^ s), c + 1)
unfolding read_varint_loop
last_group w c acc s rest hw ha fits =
    let e : w % 128 ≡ w = omega arith in
    let sum = add_group acc w s (omega arith) ha (rw e fits) in
    ground (arith, sum, e, top_bit w (omega arith))

inner_group :
    (g c acc s : ℕ) (rest : List ℕ)
    → g < 128
    → acc < 2 ^ s
    → g * 2 ^ s < 2 ^ 64
    → s + 7 < 64
    → read_varint_loop ((g + 128) ∷ rest) c acc s
      ≡ read_varint_loop rest (c + 1) (acc + g * 2 ^ s) (s + 7)
unfolding read_varint_loop
inner_group g c acc s rest hg ha fits hs =
    let e : (g + 128) % 128 ≡ g = omega arith in
    let sum = add_group acc (g + 128) s (omega arith) ha (rw e fits) in
    ground (arith, sum, e, top_bit (g + 128) (omega arith))

next_below : (g acc s : ℕ) → g < 128 → acc < 2 ^ s → acc + g * 2 ^ s < 2 ^ (s + 7)
next_below g acc s hg ha = rw pow_seven (grind arith)

read_loop-groups :
    (k v c acc s : ℕ) (rest : List ℕ)
    → v < 128 ^ suc k
    → s + 7 * k < 64
    → acc < 2 ^ s
    → v * 2 ^ s < 2 ^ 64
    → read_varint_loop (groups k v ++ rest) c acc s
      ≡ (some (acc + v * 2 ^ s), c + length (groups k v))
unfolding groups
read_loop-groups zero v c acc s rest hv hs ha fits = last_group v c acc s rest hv ha fits
read_loop-groups (suc k) v c acc s rest hv hs ha fits = ground (
  arith,
  last_group v c acc s rest,
  split_low v s,
  inner_group (v % 128) c acc s (groups k (v / 128) ++ rest),
  next_below (v % 128) acc s,
  read_loop-groups k (v / 128) (c + 1) (acc + v % 128 * 2 ^ s) (s + 7) rest (omega arith)
      (omega arith),
)

pub read_varint-groups :
    (buf : List ℕ) (v : ℕ) (rest : List ℕ)
    → IsU64 v
    → read_varint (buf ++ (groups 9 v ++ rest)) (length buf)
      ≡ (some v, length buf + length (groups 9 v))
unfolding read_varint
read_varint-groups buf v rest h =
    rw (drop-append (length buf) buf (groups 9 v ++ rest) refl)
      (ground (arith, read_loop-groups 9 v (length buf) 0 0 rest))

-- A u64 that `put_varint` appends to a buffer is read back from there, whatever follows, the cursor
-- is left behind its bytes, and these are at most ten.
read-put_varint :
    (buf : List ℕ) (v : ℕ) (rest : List ℕ)
    → IsU64 v
    → (out : List ℕ) × (put_varint buf v ≡ ok (buf ++ out))
      × (read_varint (buf ++ (out ++ rest)) (length buf) ≡ (some v, length buf + length out))
      × (length out ≤ 10)
read-put_varint buf v rest h =
    (groups 9 v, put_varint-groups buf v h, read_varint-groups buf v rest h, (length-groups 9 v).1)
