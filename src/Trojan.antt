-- ===== src/Trojan.antt =====
-- The Trojan protocol: crates/blackwire-protocol/src/trojan/codec.rs. `compute_token` calls SHA-224
-- and hex of other crates, and is not modelled; a token is any list of bytes here.
pub mod RoundTrip
pub mod Total
use v2ray.Prelude.{
  false, ℕ, ◌+◌, Bool, not, ◌&&◌, ◌||◌, List, [], ◌∷◌, ◌++◌, ltb, ◌==◌, if◌then◌else◌, length, be16,
  of_be16, drop,
}
use v2ray.Common.Result.{
  Result, ok, err, protocol, ◌>>=◌, ◌>>◌, ensure, index, slice, unknown_command, missing_crlf,
  too_long, bad_length, truncated,
}
use v2ray.Common.Stream.{AsyncRead}
use v2ray.Common.Address.{Address}
use v2ray.Common.Socks5.{read_socks5_address, decode_socks5_address, write_socks5_address}

abbrev pub token_len : ℕ
token_len = 56

abbrev pub cmd_connect : ℕ
cmd_connect = 0x01

abbrev pub cmd_udp_associate : ℕ
cmd_udp_associate = 0x03

abbrev pub max_udp_payload_len : ℕ
max_udp_payload_len = 8192

abbrev pub crlf : List ℕ
crlf = 0x0d ∷ 0x0a ∷ []

pub record TrojanRequest : Type 0 where
  pub token : List ℕ
  pub command : ℕ
  pub dest : Address

is_crlf : List ℕ → Bool
is_crlf (a ∷ b ∷ []) = a == 0x0d && b == 0x0a
is_crlf xs = false

module _ (r : AsyncRead) where
  open r use {Stream, read_exact, read_u8}

  unfoldable pub expect_crlf : Stream → Result (Unit {0} × Stream)
  unfolding is_crlf
  expect_crlf s = do (bytes, s) ← read_exact 2 s; ensure (is_crlf bytes) missing_crlf; ok (tt, s)

  unfoldable pub decode_request : Stream → Result (TrojanRequest × Stream)
  decode_request s = do
    (token, s) ← read_exact token_len s
    (done, s) ← expect_crlf s
    (command, s) ← read_u8 s
    ensure (command == cmd_connect || command == cmd_udp_associate) (unknown_command command)
    (atyp, s) ← read_u8 s
    (dest, s) ← read_socks5_address r s atyp
    (done, s) ← expect_crlf s
    ok (record { token = token; command = command; dest = dest }, s)

-- Destination, payload and the number of bytes that the datagram takes.
unfoldable pub parse_udp_datagram : List ℕ → Result (Address × List ℕ × ℕ)
parse_udp_datagram buf = do
  ensure (not (ltb (length buf) 4)) truncated
  atyp ← index buf 0
  tail ← slice buf 1 (length buf)
  (dest, consumed) ← decode_socks5_address tail atyp
  let pos = 1 + consumed
  ensure (not (ltb (length buf) (pos + 4))) truncated
  hi ← index buf pos
  lo ← index buf (pos + 1)
  let payload_len = of_be16 hi lo
  ensure (not (ltb max_udp_payload_len payload_len)) (bad_length payload_len)
  cr ← index buf (pos + 2)
  lf ← index buf (pos + 3)
  ensure (cr == 0x0d && lf == 0x0a) missing_crlf
  let data_off = pos + 4
  ensure (not (ltb (length buf) (data_off + payload_len))) truncated
  payload ← slice buf data_off (data_off + payload_len)
  ok (dest, payload, data_off + payload_len)

unfoldable pub encode_udp_datagram : Address → List ℕ → Result (List ℕ)
encode_udp_datagram dest payload = do
  ensure (not (ltb max_udp_payload_len (length payload))) too_long
  buf ← write_socks5_address [] dest
  ok (buf ++ (be16 (length payload) ++ (crlf ++ payload)))

unfoldable pub encode_request : List ℕ → ℕ → Address → Result (List ℕ)
encode_request token command dest = do
  buf ← write_socks5_address (token ++ (crlf ++ (command ∷ []))) dest
  ok (buf ++ crlf)
