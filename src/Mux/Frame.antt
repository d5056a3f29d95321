-- ===== src/Mux/Frame.antt =====
-- A whole frame: `encode_frame`, `parse_frame` and `read_mux_frame` of vless/mux.rs.
pub mod Total
pub mod RoundTrip
pub mod Read
use Prim.Native.Nat.{bit_and}
use v2ray.Prelude.{
  ℕ, ◌+◌, ◌*◌, Bool, not, Option, some, none, List, [], ◌∷◌, ◌++◌, ltb, ◌==◌, if◌then◌else◌, length,
  be16, of_be16,
}
use v2ray.Common.Result.{
  Result, ok, err, protocol, ◌>>=◌, ◌>>◌, ensure, index, slice, too_long, bad_length, truncated,
}
use v2ray.Common.Stream.{AsyncRead}
use v2ray.Mux.Metadata.{FrameMetadata, parse_metadata, opt_data}

abbrev pub max_meta_len : ℕ
max_meta_len = 512

abbrev pub max_data_len : ℕ
max_data_len = 512 * 1024

put_payload : Option (List ℕ) → Result (List ℕ)
put_payload none = ok []
put_payload (some bytes) = do
  ensure (not (ltb max_data_len (length bytes))) too_long
  ok (be16 (length bytes) ++ bytes)

-- `len() as u16` keeps the low sixteen bits, and so does `be16`.
unfoldable pub encode_frame : List ℕ → Option (List ℕ) → Result (List ℕ)
unfolding put_payload
encode_frame metadata payload = do
  ensure (not (ltb max_meta_len (length metadata))) too_long
  body ← put_payload payload
  ok (be16 (length metadata) ++ (metadata ++ body))

-- The payload of a frame whose metadata ends at `need`, and the length of the frame.
parse_payload : List ℕ → ℕ → ℕ → Result (Option (List ℕ) × ℕ)
parse_payload buf need option =
    let data_part = do
      ensure (not (ltb (length buf) (need + 2))) truncated
      hi ← index buf need
      lo ← index buf (need + 1)
      let data_len = of_be16 hi lo
      ensure (not (ltb max_data_len data_len)) (bad_length data_len)
      let consumed = need + (2 + data_len)
      ensure (not (ltb (length buf) consumed)) truncated
      bytes ← slice buf (need + 2) consumed
      ok (some bytes, consumed)
    in if bit_and option opt_data == 0 then ok (none, need) else data_part

unfoldable pub parse_frame : List ℕ → Result (FrameMetadata × Option (List ℕ) × ℕ)
unfolding parse_payload
parse_frame buf = do
  ensure (not (ltb (length buf) 2)) truncated
  hi ← index buf 0
  lo ← index buf 1
  let meta_len = of_be16 hi lo
  ensure (not (ltb max_meta_len meta_len)) (bad_length meta_len)
  let need = 2 + meta_len
  ensure (not (ltb (length buf) need)) truncated
  meta_buf ← slice buf 2 need
  meta ← parse_metadata meta_buf
  (payload, consumed) ← parse_payload buf need meta.option
  ok (meta, payload, consumed)

module _ (r : AsyncRead) where
  open r use {Stream, read_exact, read_u16}

  -- `if data_len > 0` guards a read of nothing.
  unfoldable pub read_bytes : ℕ → Stream → Result (List ℕ × Stream)
  read_bytes n s = if ltb 0 n then read_exact n s else ok ([], s)

  read_payload : ℕ → Stream → Result (Option (List ℕ) × Stream)
  unfolding read_bytes
  read_payload option s =
      let data_part = do
        (data_len, s) ← read_u16 s
        ensure (not (ltb max_data_len data_len)) (bad_length data_len)
        (bytes, s) ← read_bytes data_len s
        ok (some bytes, s)
      in if bit_and option opt_data == 0 then ok (none, s) else data_part

  unfoldable pub read_mux_frame : Stream → Result ((FrameMetadata × Option (List ℕ)) × Stream)
  unfolding read_payload
  read_mux_frame s = do
    (meta_len, s) ← read_u16 s
    ensure (not (ltb max_meta_len meta_len)) (bad_length meta_len)
    (meta_buf, s) ← read_exact meta_len s
    meta ← parse_metadata meta_buf
    (payload, s) ← read_payload meta.option s
    ok ((meta, payload), s)
