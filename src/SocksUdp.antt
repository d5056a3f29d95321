-- ===== src/SocksUdp.antt =====
-- SOCKS5 UDP datagrams: crates/blackwire-protocol/src/socks5_udp.rs, without its relay loop.
pub mod Laws
use v2ray.Prelude.{ℕ, ◌+◌, Bool, not, ◌&&◌, List, [], ◌∷◌, ◌++◌, ltb, ◌==◌, if◌then◌else◌, length}
use v2ray.Common.Result.{
  Result, ok, err, protocol, ◌>>=◌, ◌>>◌, ensure, index, slice, truncated, bad_reserved,
  bad_fragment,
}
use v2ray.Common.Address.{Address}
use v2ray.Common.Socks5.{decode_socks5_address, write_socks5_address}

abbrev pub socks_udp_header : ℕ
socks_udp_header = 3

unfoldable pub parse_udp_datagram : List ℕ → Result (Address × List ℕ)
parse_udp_datagram buf = do
  ensure (not (ltb (length buf) socks_udp_header)) truncated
  a ← index buf 0
  b ← index buf 1
  ensure (a == 0 && b == 0) bad_reserved
  frag ← index buf 2
  ensure (frag == 0) (bad_fragment frag)
  atyp ← index buf 3
  tail ← slice buf 4 (length buf)
  (dest, consumed) ← decode_socks5_address tail atyp
  let off = 4 + consumed
  ensure (not (ltb (length buf) off)) truncated
  payload ← slice buf off (length buf)
  ok (dest, payload)

unfoldable pub encode_udp_datagram : Address → List ℕ → Result (List ℕ)
encode_udp_datagram dest payload = do
  buf ← write_socks5_address (0 ∷ 0 ∷ 0 ∷ []) dest
  ok (buf ++ payload)
