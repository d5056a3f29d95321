-- ===== src/Vless/AddressPort/RoundTrip.antt =====
-- What `encode_address_port` wrote is decoded from in front of any rest.
use v2ray.Prelude.{◌%◌, ◌/◌, ℕ, ◌≡◌, List, ◌∷◌, ◌++◌, arith, length, be16, of_be16-be16}
use v2ray.Common.Result.{ok}
use v2ray.Common.Address.{Address, ipv4, ipv6, domain, IsAddress, FitsWire, port}
use v2ray.Vless.Codec.{encode_address_port}
use v2ray.Vless.Codec.Target.{wire_type, wire_body, encode_address_port_lem}
use v2ray.Vless.AddressPort.{decode_address_port_with_len}
use v2ray.Vless.AddressPort.Shapes.{with_len-ipv4, with_len-ipv6, with_len-domain}

abbrev pub wire_form : Address → List ℕ
wire_form a = be16 (port a) ++ (wire_type a ∷ wire_body a)

pub decode-wire_form :
    (a : Address) (rest : List ℕ)
    → IsAddress a
    → FitsWire a
    → decode_address_port_with_len (wire_form a ++ rest) ≡ ok (a, length (wire_form a))
unfolding port
decode-wire_form (ipv4 ip p) rest (h, _, u) fits =
    rw (with_len-ipv4 (p / 256 % 256) (p % 256) ip rest h, of_be16-be16 p u, h)
decode-wire_form (ipv6 ip p) rest (h, _, u) fits =
    rw (with_len-ipv6 (p / 256 % 256) (p % 256) ip rest h, of_be16-be16 p u, h)
decode-wire_form (domain d p) rest (h, _, u) fits =
    rw (with_len-domain (p / 256 % 256) (p % 256) d rest fits, h, of_be16-be16 p u) (ground arith)

-- Port and address of any well-formed address whose name fits its length byte are encoded, and
-- decoded from in front of any rest, with the number of bytes written as the number of bytes taken.
decode-encode_address_port :
    (a : Address) (rest : List ℕ)
    → IsAddress a
    → FitsWire a
    → (out : List ℕ) × (encode_address_port a ≡ ok out)
      × (decode_address_port_with_len (out ++ rest) ≡ ok (a, length out))
decode-encode_address_port a rest h fits =
    (wire_form a, encode_address_port_lem a fits, decode-wire_form a rest h fits)
