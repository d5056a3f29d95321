-- ===== src/Vless/Varint.antt =====
-- `read_varint` and `put_varint` of vless/codec.rs: base-128 numbers, lowest group first.
pub mod RoundTrip
pub mod Cursor
use Prim.Native.Nat.{bit_and, bit_or}
use v2ray.Prelude.{
  ℕ, zero, suc, ◌+◌, ◌*◌, ◌/◌, ◌%◌, ◌^◌, Bool, Option, none, some, List, [], ◌∷◌, ◌++◌, ltb, leb,
  ◌==◌, if◌then◌else◌, drop,
}
use v2ray.Common.Result.{Result, ok, stuck}

-- The list is what is left of the input at `cursor`. The pair is the answer and the cursor after.
read_varint_loop : List ℕ → ℕ → ℕ → ℕ → Option ℕ × ℕ
read_varint_loop [] cursor result shift = (none, cursor)
read_varint_loop (byte ∷ rest) cursor result shift =
    let result' = bit_or result (bit_and byte 0x7f * 2 ^ shift % 2 ^ 64) in
    let more = read_varint_loop rest (cursor + 1) result' (shift + 7) in
    if bit_and byte 0x80 == 0
    then (some result', cursor + 1)
    else if leb 64 (shift + 7)
    then (none, cursor + 1)
    else more

unfoldable pub read_varint : List ℕ → ℕ → Option ℕ × ℕ
unfolding read_varint_loop
read_varint xs cursor = read_varint_loop (drop cursor xs) cursor 0 0

-- `value as u8` is `value % 256`. A u64 takes ten rounds at most.
put_varint_loop : ℕ → List ℕ → ℕ → Result (List ℕ)
put_varint_loop zero buf value = stuck
put_varint_loop (suc fuel) buf value =
    let more = put_varint_loop fuel (buf ++ (bit_or (value % 256) 0x80 ∷ [])) (value / 128) in
    if leb 0x80 value then more else ok (buf ++ (value % 256 ∷ []))

unfoldable pub put_varint : List ℕ → ℕ → Result (List ℕ)
unfolding put_varint_loop
put_varint buf value = put_varint_loop 10 buf value
