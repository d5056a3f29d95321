-- ===== src/Vless/Udp.antt =====
-- Packets of VLESS UDP on the stream: crates/blackwire-protocol/src/vless/udp.rs, without its relay
-- loop.
pub mod RoundTrip
use v2ray.Prelude.{ℕ, Bool, not, ◌||◌, List, ◌++◌, ltb, ◌==◌, length, be16}
use v2ray.Common.Result.{Result, ok, ◌>>=◌, ◌>>◌, ensure, bad_length, too_long}
use v2ray.Common.Stream.{AsyncRead}
use v2ray.Common.Address.{Address}
use v2ray.Vless.Codec.{encode_address_port}
use v2ray.Vless.AddressPort.{decode_address_port}

module _ (r : AsyncRead) where
  open r use {Stream, read_exact, read_u16}

  unfoldable pub read_udp_header : Stream → Result (Address × Stream)
  read_udp_header s = do
    (addr_len, s) ← read_u16 s
    ensure (not (addr_len == 0 || ltb 512 addr_len)) (bad_length addr_len)
    (addr_buf, s) ← read_exact addr_len s
    dest ← decode_address_port addr_buf
    ok (dest, s)

-- The bytes that are written.
unfoldable pub write_udp_packet : Address → List ℕ → Result (List ℕ)
write_udp_packet dest payload = do
  addr_bytes ← encode_address_port dest
  ensure (not (ltb 65535 (length addr_bytes))) too_long
  ok (be16 (length addr_bytes) ++ (addr_bytes ++ payload))
