-- ===== src/Vless/AddressPort.antt =====
-- Port and address of a UDP packet or a mux frame: `encode_address_port` is in Vless/Codec, these
-- are its decoders in vless/codec.rs.
pub mod Shapes
pub mod Total
pub mod RoundTrip
use v2ray.Prelude.{
  ℕ, ◌+◌, Bool, not, List, [], ◌∷◌, ◌++◌, ltb, leb, ◌==◌, if◌then◌else◌, length, take, drop,
  is_utf8, of_be16,
}
use v2ray.Common.Result.{
  Result, ok, err, protocol, ◌>>=◌, ◌>>◌, ensure, index, slice, unknown_atyp, truncated,
  invalid_utf8,
}
use v2ray.Common.Address.{Address, ipv4, ipv6, domain, domain_wire_len}
use v2ray.Vless.Codec.{atyp_ipv4, atyp_ipv6, atyp_domain}

domain_len : List ℕ → Result ℕ
domain_len xs = do
  name_len ← index xs 3
  ensure (not (ltb (length xs) (4 + name_len))) truncated
  name ← slice xs 4 (4 + name_len)
  ensure (is_utf8 name) invalid_utf8
  wire_len ← domain_wire_len name
  ok (1 + name_len)

address_len : List ℕ → ℕ → Result ℕ
address_len xs atyp =
    if atyp == atyp_ipv4
    then ok 4
    else if atyp == atyp_ipv6
    then ok 16
    else if atyp == atyp_domain
    then domain_len xs
    else err (protocol (unknown_atyp atyp))

unfoldable pub address_port_wire_len : List ℕ → Result ℕ
unfolding domain_len address_len
address_port_wire_len xs = do
  ensure (not (ltb (length xs) 4)) truncated
  atyp ← index xs 2
  addr_len ← address_len xs atyp
  ok (2 + 1 + addr_len)

-- `Read::read_exact` on a cursor over a slice; its error becomes a protocol error.
take_exact : ℕ → List ℕ → Result (List ℕ × List ℕ)
take_exact n xs = if leb n (length xs) then ok (take n xs, drop n xs) else err (protocol truncated)

unfoldable pub decode_address_sync : List ℕ → ℕ → ℕ → Result Address
unfolding take_exact
decode_address_sync xs atyp port =
    if atyp == atyp_ipv4
    then (do (buf, xs) ← take_exact 4 xs; ok (ipv4 buf port))
    else if atyp == atyp_ipv6
    then (do (buf, xs) ← take_exact 16 xs; ok (ipv6 buf port))
    else if atyp == atyp_domain
    then (do
      (len_byte, xs) ← take_exact 1 xs
      len ← index len_byte 0
      (name, xs) ← take_exact len xs
      ensure (is_utf8 name) invalid_utf8
      ok (domain name port))
    else err (protocol (unknown_atyp atyp))

-- The address and the number of bytes that it takes.
unfoldable pub decode_address_port_with_len : List ℕ → Result (Address × ℕ)
unfolding address_port_wire_len decode_address_sync
decode_address_port_with_len xs = do
  ensure (not (ltb (length xs) 4)) truncated
  hi ← index xs 0
  lo ← index xs 1
  atyp ← index xs 2
  consumed ← address_port_wire_len xs
  ensure (not (ltb (length xs) consumed)) truncated
  tail ← slice xs 3 (length xs)
  addr ← decode_address_sync tail atyp (of_be16 hi lo)
  ok (addr, consumed)

unfoldable pub decode_address_port : List ℕ → Result Address
unfolding decode_address_port_with_len
decode_address_port xs = do (addr, consumed) ← decode_address_port_with_len xs; ok addr
