-- ===== src/Vless/Codec.antt =====
-- The request and response headers of vless/codec.rs.
pub mod Flow
pub mod Target
pub mod RoundTrip
use v2ray.Prelude.{
  ℕ, ◌+◌, ◌≡◌, Bool, true, false, not, List, [], ◌∷◌, ◌++◌, ltb, ◌==◌, if◌then◌else◌, length,
  is_utf8, be16,
}
use v2ray.Common.Result.{
  Result, ok, err, protocol, ◌>>=◌, ◌>>◌, ensure, unknown_atyp, invalid_utf8, bad_version,
  unknown_command, addons_too_long,
}
use v2ray.Common.Stream.{AsyncRead}
use v2ray.Common.Address.{Address, ipv4, ipv6, domain, domain_wire_len, port}
use v2ray.Vless.Varint.{put_varint}
use v2ray.Vless.Addons.{parse_flow_from_addons}

pub data Command : Type 0 where
  tcp udp mux : Command

pub record VlessRequest : Type 0 where
  pub uuid : List ℕ
  pub command : Command
  pub dest : Address
  pub flow : List ℕ

-- "v1.mux.cool"
abbrev pub mux_cool_domain : List ℕ
mux_cool_domain = b'v' ∷ b'1' ∷ b'.' ∷ b'm' ∷ b'u' ∷ b'x' ∷ b'.' ∷ b'c' ∷ b'o' ∷ b'o' ∷ b'l' ∷ []

abbrev pub vless_version : ℕ
vless_version = 0x00

abbrev pub atyp_ipv4 : ℕ
atyp_ipv4 = 0x01

abbrev pub atyp_domain : ℕ
atyp_domain = 0x02

abbrev pub atyp_ipv6 : ℕ
atyp_ipv6 = 0x03

-- The match on the command byte, in both directions.
unfoldable pub command_of : ℕ → Result Command
command_of b =
    if b == 0x01
    then ok tcp
    else if b == 0x02
    then ok udp
    else if b == 0x03
    then ok mux
    else err (protocol (unknown_command b))

unfoldable pub command_byte : Command → ℕ
command_byte tcp = 0x01
command_byte udp = 0x02
command_byte mux = 0x03

module _ (r : AsyncRead) where
  open r use {Stream, read_exact, read_u8, read_u16}

  unfoldable pub read_address : Stream → ℕ → ℕ → Result (Address × Stream)
  read_address s atyp port =
      if atyp == atyp_ipv4
      then (do (buf, s) ← read_exact 4 s; ok (ipv4 buf port, s))
      else if atyp == atyp_ipv6
      then (do (buf, s) ← read_exact 16 s; ok (ipv6 buf port, s))
      else if atyp == atyp_domain
      then (do
        (len, s) ← read_u8 s
        (name, s) ← read_exact len s
        ensure (is_utf8 name) invalid_utf8
        ok (domain name port, s))
      else err (protocol (unknown_atyp atyp))

  -- The flow, from the addons field behind its length.
  unfoldable pub read_flow : Stream → ℕ → Result (List ℕ × Stream)
  read_flow s addons_len =
      if ltb 0 addons_len
      then (do
        (addons, s) ← read_exact addons_len s
        flow ← parse_flow_from_addons addons
        ok (flow, s))
      else ok ([], s)

  -- Mux requests have no address and no port on the wire.
  unfoldable pub read_dest : Stream → Command → Result (Address × Stream)
  unfolding read_address
  read_dest s mux = ok (domain mux_cool_domain 0, s)
  read_dest s tcp = do (port, s) ← read_u16 s; (atyp, s) ← read_u8 s; read_address s atyp port
  read_dest s udp = do (port, s) ← read_u16 s; (atyp, s) ← read_u8 s; read_address s atyp port

  unfoldable pub decode_request : Stream → Result (VlessRequest × Stream)
  unfolding read_flow read_dest command_of
  decode_request s = do
    (ver, s) ← read_u8 s
    ensure (ver == vless_version) (bad_version ver)
    (uuid, s) ← read_exact 16 s
    (addons_len, s) ← read_u8 s
    (flow, s) ← read_flow s addons_len
    (cmd, s) ← read_u8 s
    command ← command_of cmd
    (dest, s) ← read_dest s command
    ok (record { uuid = uuid; command = command; dest = dest; flow = flow }, s)

-- The addons field of a request: its length and its bytes.
unfoldable pub encode_addons : List ℕ → Result (List ℕ)
encode_addons [] = ok (0 ∷ [])
encode_addons (b ∷ bs) = do
  prefix ← put_varint (0x0a ∷ []) (length (b ∷ bs))
  let addons = prefix ++ (b ∷ bs)
  ensure (not (ltb 255 (length addons))) addons_too_long
  ok (length addons ∷ addons)

-- The address type and the address, without its port.
unfoldable pub put_address : Address → Result (List ℕ)
put_address (ipv4 ip p) = ok (atyp_ipv4 ∷ ip)
put_address (ipv6 ip p) = ok (atyp_ipv6 ∷ ip)
put_address (domain name p) = do len ← domain_wire_len name; ok (atyp_domain ∷ len ∷ name)

-- `encode_address_port`, which `encode_request` writes out once more for its own buffer.
unfoldable pub encode_address_port : Address → Result (List ℕ)
unfolding put_address port
encode_address_port dest = do address ← put_address dest; ok (be16 (port dest) ++ address)

unfoldable pub encode_dest : Command → Address → Result (List ℕ)
unfolding encode_address_port
encode_dest mux dest = ok []
encode_dest tcp dest = encode_address_port dest
encode_dest udp dest = encode_address_port dest

unfoldable pub encode_request : List ℕ → List ℕ → Command → Address → Result (List ℕ)
unfolding encode_addons command_byte encode_dest
encode_request uuid flow command dest = do
  addons ← encode_addons flow
  target ← encode_dest command dest
  ok (vless_version ∷ (uuid ++ (addons ++ (command_byte command ∷ target))))

unfoldable pub encode_response : List ℕ
encode_response = vless_version ∷ 0x00 ∷ []
