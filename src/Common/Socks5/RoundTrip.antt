-- ===== src/Common/Socks5/RoundTrip.antt =====
-- What `write_socks5_address` writes, and that both decoders read it back.
use v2ray.Prelude.{
  ℕ, ◌≡◌, refl, List, ◌∷◌, ◌++◌, arith, length, be16, of_be16-be16, length-append, le→ltb,
  append_assoc,
}
use v2ray.Common.Result.{ok}
use v2ray.Common.Stream.{list_stream, list_stream_laws, AsyncRead, AsyncReadLaws}
use v2ray.Common.Address.{Address, ipv4, ipv6, domain, IsAddress, FitsWire, domain_wire_len}
use v2ray.Common.Socks5.{decode_socks5_address, read_socks5_address, write_socks5_address}
use v2ray.Common.Socks5.Decode.{decode-ipv4, decode-ipv6, decode-domain}
use v2ray.Common.Socks5.Read.{read-ipv4, read-ipv6, read-domain}

-- The address type and the bytes behind it.
abbrev pub wire_type : Address → ℕ
wire_type (ipv4 ip p) = 1
wire_type (ipv6 ip p) = 4
wire_type (domain d p) = 3

abbrev pub wire_body : Address → List ℕ
wire_body (ipv4 ip p) = ip ++ be16 p
wire_body (ipv6 ip p) = ip ++ be16 p
wire_body (domain d p) = length d ∷ (d ++ be16 p)

pub write_lem :
    (buf : List ℕ) (a : Address)
    → FitsWire a
    → write_socks5_address buf a ≡ ok (buf ++ (wire_type a ∷ wire_body a))
unfolding write_socks5_address domain_wire_len
write_lem buf (ipv4 ip p) f = refl
write_lem buf (ipv6 ip p) f = refl
write_lem buf (domain d p) f = rw (le→ltb 255 (length d) f)

-- What was written is read back, by both decoders, from in front of any rest.
abbrev pub ReadBack : (r : AsyncRead) → Address → List ℕ → Type 0
ReadBack r a rest =
    (decode_socks5_address (wire_body a ++ rest) (wire_type a) ≡ ok (a, length (wire_body a)))
    × (read_socks5_address r (r.from (wire_body a ++ rest)) (wire_type a) ≡ ok (a, r.from rest))

module _ (r : AsyncRead) (l : AsyncReadLaws r) where
  pub read_back : (a : Address) (rest : List ℕ) → IsAddress a → ReadBack r a rest
  read_back (ipv4 ip p) rest (h, _, u) =
      rw (append_assoc ip (be16 p) rest, decode-ipv4 ip _ _ rest h, read-ipv4 r l ip _ _ rest h)
        (ground (arith, of_be16-be16 p, length-append ip (be16 p)))
  read_back (ipv6 ip p) rest (h, _, u) =
      rw (append_assoc ip (be16 p) rest, decode-ipv6 ip _ _ rest h, read-ipv6 r l ip _ _ rest h)
        (ground (arith, of_be16-be16 p, length-append ip (be16 p)))
  read_back (domain d p) rest (h, _, u) =
      rw (append_assoc d (be16 p) rest, decode-domain d _ _ rest, read-domain r l d _ _ rest, h)
        (ground (arith, of_be16-be16 p, length-append d (be16 p)))

  -- A well-formed address whose name fits its length byte is appended to the buffer as its type,
  -- its octets or name and its port, and both decoders read it back from in front of any rest.
  pub decode-write :
      (buf : List ℕ) (a : Address) (rest : List ℕ)
      → IsAddress a
      → FitsWire a
      → (write_socks5_address buf a ≡ ok (buf ++ (wire_type a ∷ wire_body a))) × ReadBack r a rest
  decode-write buf a rest h f = (write_lem buf a f, read_back a rest h)

pub decode-wire_body :
    (a : Address) (rest : List ℕ)
    → IsAddress a
    → decode_socks5_address (wire_body a ++ rest) (wire_type a) ≡ ok (a, length (wire_body a))
decode-wire_body a rest h = (read_back list_stream list_stream_laws a rest h).0
