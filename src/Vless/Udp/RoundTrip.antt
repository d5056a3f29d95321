-- ===== src/Vless/Udp/RoundTrip.antt =====
-- A packet of VLESS UDP through the wire.
use v2ray.Prelude.{
  ℕ, ◌/◌, ◌%◌, ◌≤◌, ◌<◌, ◌≡◌, refl, arith, subst, false, ◌||◌, ◌==◌, List, [], ◌++◌, length,
  append-nil, be16, of_be16-be16, le→ltb, ltb,
}
use v2ray.Common.Result.{ok}
use v2ray.Common.Stream.{AsyncRead, AsyncReadLaws}
use v2ray.Common.Address.{Address, ipv4, ipv6, domain, port, IsAddress, FitsWire}
use v2ray.Vless.Codec.Target.{encode_address_port_lem}
use v2ray.Vless.AddressPort.{decode_address_port, decode_address_port_with_len}
use v2ray.Vless.AddressPort.RoundTrip.{wire_form, decode-wire_form}
use v2ray.Vless.Udp.{read_udp_header, write_udp_packet}

decode_plain : (a : Address) → IsAddress a → FitsWire a → decode_address_port (wire_form a) ≡ ok a
unfolding decode_address_port
decode_plain a h f =
    let e =
      subst (λ t. decode_address_port_with_len t ≡ ok (a, length (wire_form a)))
        (append-nil (wire_form a)) (decode-wire_form a [] h f) in
    rw e

wire_form_small : (a : Address) → IsAddress a → FitsWire a → length (wire_form a) ≤ 259
unfolding port
wire_form_small (ipv4 ip p) h f = omega arith
wire_form_small (ipv6 ip p) h f = omega arith
wire_form_small (domain d p) h f = omega arith

allowed : (n : ℕ) → 0 < n → n ≤ 512 → (n == 0 || ltb 512 n) ≡ false
allowed n h k = ground arith

module _ (r : AsyncRead) (l : AsyncReadLaws r) where
  -- A packet for a well-formed destination whose name fits its length byte is written, and its
  -- header is read back: the destination, and the stream in front of the payload.
  pub read-write_udp_packet :
      (dest : Address) (payload : List ℕ)
      → IsAddress dest
      → FitsWire dest
      → (out : List ℕ) × (write_udp_packet dest payload ≡ ok out)
        × (read_udp_header r (r.from out) ≡ ok (dest, r.from payload))
  read-write_udp_packet dest payload h f =
      let n : ℕ = length (wire_form dest) in
      let small = wire_form_small dest h f in
      let e = of_be16-be16 n (omega arith) in
      (
        be16 n ++ (wire_form dest ++ payload),
        unfold write_udp_packet in
            rw (encode_address_port_lem dest f, le→ltb 65535 n (omega arith)),
        unfold read_udp_header in
            rw (
              l.u16 (n / 256 % 256) (n % 256) (wire_form dest ++ payload),
              e,
              allowed n (omega arith) (omega arith),
              l.exact n (wire_form dest) payload refl,
              decode_plain dest h f,
            ),
      )
