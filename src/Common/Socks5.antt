-- ===== src/Common/Socks5.antt =====
-- crates/blackwire-common/src/socks5_address.rs: ATYP, address and port in SOCKS5 order.
pub mod Decode
pub mod Read
pub mod RoundTrip
use v2ray.Prelude.{
  ℕ, ◌+◌, Bool, List, [], ◌∷◌, ◌++◌, ltb, ◌==◌, if◌then◌else◌, length, is_utf8, be16, of_be16, not,
}
use v2ray.Common.Result.{
  Result, ok, err, protocol, ◌>>=◌, ◌>>◌, ensure, index, slice, unknown_atyp, truncated,
  invalid_utf8,
}
use v2ray.Common.Stream.{AsyncRead}
use v2ray.Common.Address.{Address, ipv4, ipv6, domain, domain_wire_len}

abbrev pub atyp_ipv4 : ℕ
atyp_ipv4 = 0x01

abbrev pub atyp_domain : ℕ
atyp_domain = 0x03

abbrev pub atyp_ipv6 : ℕ
atyp_ipv6 = 0x04

module _ (r : AsyncRead) where
  open r use {Stream, read_exact, read_u8, read_u16}

  unfoldable pub read_socks5_address : Stream → ℕ → Result (Address × Stream)
  read_socks5_address s atyp =
      if atyp == atyp_ipv4
      then (do (buf, s) ← read_exact 4 s; (port, s) ← read_u16 s; ok (ipv4 buf port, s))
      else if atyp == atyp_ipv6
      then (do (buf, s) ← read_exact 16 s; (port, s) ← read_u16 s; ok (ipv6 buf port, s))
      else if atyp == atyp_domain
      then (do
        (len, s) ← read_u8 s
        (name, s) ← read_exact len s
        (port, s) ← read_u16 s
        ensure (is_utf8 name) invalid_utf8
        ok (domain name port, s))
      else err (protocol (unknown_atyp atyp))

decode_ipv4 : List ℕ → Result (Address × ℕ)
decode_ipv4 xs = do
  ensure (not (ltb (length xs) 6)) truncated
  a ← index xs 0
  b ← index xs 1
  c ← index xs 2
  d ← index xs 3
  hi ← index xs 4
  lo ← index xs 5
  ok (ipv4 (a ∷ b ∷ c ∷ d ∷ []) (of_be16 hi lo), 6)

decode_ipv6 : List ℕ → Result (Address × ℕ)
decode_ipv6 xs = do
  ensure (not (ltb (length xs) 18)) truncated
  ip ← slice xs 0 16
  hi ← index xs 16
  lo ← index xs 17
  ok (ipv6 ip (of_be16 hi lo), 18)

decode_domain : List ℕ → Result (Address × ℕ)
decode_domain xs = do
  ensure (not (ltb (length xs) 1)) truncated
  n ← index xs 0
  ensure (not (ltb (length xs) (1 + n + 2))) truncated
  name ← slice xs 1 (1 + n)
  ensure (is_utf8 name) invalid_utf8
  hi ← index xs (1 + n)
  lo ← index xs (1 + n + 1)
  ok (domain name (of_be16 hi lo), 1 + n + 2)

-- The address and the number of bytes that it takes.
unfoldable pub decode_socks5_address : List ℕ → ℕ → Result (Address × ℕ)
unfolding decode_ipv4 decode_ipv6 decode_domain
decode_socks5_address xs atyp =
    if atyp == atyp_ipv4
    then decode_ipv4 xs
    else if atyp == atyp_ipv6
    then decode_ipv6 xs
    else if atyp == atyp_domain
    then decode_domain xs
    else err (protocol (unknown_atyp atyp))

-- The buffer that was written to; callers drop it when the name is refused.
unfoldable pub write_socks5_address : List ℕ → Address → Result (List ℕ)
write_socks5_address buf (ipv4 ip port) = ok (buf ++ (atyp_ipv4 ∷ (ip ++ be16 port)))
write_socks5_address buf (ipv6 ip port) = ok (buf ++ (atyp_ipv6 ∷ (ip ++ be16 port)))
write_socks5_address buf (domain name port) = do
  len ← domain_wire_len name
  ok (buf ++ (atyp_domain ∷ len ∷ (name ++ be16 port)))
