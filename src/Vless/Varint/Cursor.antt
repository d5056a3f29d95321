-- ===== src/Vless/Varint/Cursor.antt =====
-- How far `read_varint` moves the cursor.
use v2ray.Prelude.{
  ℕ, ◌+◌, ◌≤◌, ◌<◌, ◌≡◌, ◌*◌, ◌^◌, ◌%◌, List, [], ◌∷◌, some, arith, length, drop, length-drop,
}
use Prim.Native.Nat.{bit_and, bit_or}
use v2ray.Vless.Varint.{read_varint, read_varint_loop}

read_loop_takes :
    (rest : List ℕ) (c acc s v c' : ℕ)
    → read_varint_loop rest c acc s ≡ (some v, c')
    → (c < c') × (c' ≤ c + length rest)
unfolding read_varint_loop
read_loop_takes [] c acc s v c' e = absurd (ground arith)
read_loop_takes (b ∷ rest) c acc s v c' e = ground (
  arith,
  read_loop_takes rest (c + 1) (bit_or acc (bit_and b 0x7f * 2 ^ s % 2 ^ 64)) (s + 7) v c',
)

-- A number that is read takes a byte at least, and stays in the input.
pub read_varint_takes :
    (xs : List ℕ) (c v c' : ℕ)
    → c ≤ length xs
    → read_varint xs c ≡ (some v, c')
    → (c < c') × (c' ≤ length xs)
unfolding read_varint
read_varint_takes xs c v c' h e =
    let t = read_loop_takes (drop c xs) c 0 0 v c' e in omega (arith, t, length-drop c xs)
