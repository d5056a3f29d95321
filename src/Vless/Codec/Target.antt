-- ===== src/Vless/Codec/Target.antt =====
-- The destination of a request: written by `encode_address_port`, read by `read_dest`.
use v2ray.Prelude.{
  ℕ, ◌%◌, ◌/◌, ◌≡◌, refl, List, [], ◌∷◌, ◌++◌, length, be16, of_be16-be16, le→ltb, IsU16,
}
use v2ray.Common.Result.{ok}
use v2ray.Common.Stream.{AsyncRead, AsyncReadLaws}
use v2ray.Common.Address.{Address, ipv4, ipv6, domain, IsAddress, FitsWire, domain_wire_len, port}
use v2ray.Vless.Codec.{
  put_address, encode_address_port, read_address, read_dest, encode_dest, Command, tcp, udp, mux,
  mux_cool_domain,
}

-- The address type and the bytes behind it, in VLESS order.
abbrev pub wire_type : Address → ℕ
wire_type (ipv4 ip p) = 1
wire_type (domain d p) = 2
wire_type (ipv6 ip p) = 3

abbrev pub wire_body : Address → List ℕ
wire_body (ipv4 ip p) = ip
wire_body (domain d p) = length d ∷ d
wire_body (ipv6 ip p) = ip

pub put_address_lem : (a : Address) → FitsWire a → put_address a ≡ ok (wire_type a ∷ wire_body a)
unfolding put_address domain_wire_len
put_address_lem (ipv4 ip p) f = refl
put_address_lem (ipv6 ip p) f = refl
put_address_lem (domain d p) f = rw (le→ltb 255 (length d) f)

pub encode_address_port_lem :
    (a : Address)
    → FitsWire a
    → encode_address_port a ≡ ok (be16 (port a) ++ (wire_type a ∷ wire_body a))
encode_address_port_lem a f = unfold encode_address_port in rw (put_address_lem a f)

pub port-IsU16 : (a : Address) → IsAddress a → IsU16 (port a)
unfolding port
port-IsU16 (ipv4 ip p) h = h.2
port-IsU16 (ipv6 ip p) h = h.2
port-IsU16 (domain d p) h = h.2

-- What the server takes for the destination of a request.
abbrev pub seen_dest : Command → Address → Address
seen_dest mux a = domain mux_cool_domain 0
seen_dest tcp a = a
seen_dest udp a = a

module _ (r : AsyncRead) (l : AsyncReadLaws r) where
  read_address-wire :
      (a : Address) (rest : List ℕ)
      → IsAddress a
      → read_address r (r.from (wire_body a ++ rest)) (wire_type a) (port a) ≡ ok (a, r.from rest)
  unfolding read_address port
  read_address-wire (ipv4 ip p) rest (h, _, u) = rw (l.exact 4 ip rest h)
  read_address-wire (ipv6 ip p) rest (h, _, u) = rw (l.exact 16 ip rest h)
  read_address-wire (domain d p) rest (h, _, u) =
      rw (l.u8 (length d) (d ++ rest), l.exact (length d) d rest refl, h)

  read_port_address :
      (a : Address) (rest : List ℕ)
      → IsAddress a
      → read_dest r (r.from (be16 (port a) ++ (wire_type a ∷ (wire_body a ++ rest)))) tcp
        ≡ ok (a, r.from rest)
  unfolding read_dest
  read_port_address a rest h = rw (
    l.u16 (port a / 256 % 256) (port a % 256) (wire_type a ∷ (wire_body a ++ rest)),
    of_be16-be16 (port a) (port-IsU16 a h),
    l.u8 (wire_type a) (wire_body a ++ rest),
    read_address-wire a rest h,
  )

  pub read_dest-encode :
      (command : Command) (a : Address) (rest : List ℕ)
      → IsAddress a
      → FitsWire a
      → (out : List ℕ) × (encode_dest command a ≡ ok out)
        × (read_dest r (r.from (out ++ rest)) command ≡ ok (seen_dest command a, r.from rest))
  read_dest-encode mux a rest h f = ([], unfold encode_dest in refl, unfold read_dest in refl)
  read_dest-encode tcp a rest h f = (
    be16 (port a) ++ (wire_type a ∷ wire_body a),
    unfold encode_dest in encode_address_port_lem a f,
    read_port_address a rest h,
  )
  read_dest-encode udp a rest h f = (
    be16 (port a) ++ (wire_type a ∷ wire_body a),
    unfold encode_dest in encode_address_port_lem a f,
    unfold read_dest in read_port_address a rest h,
  )
