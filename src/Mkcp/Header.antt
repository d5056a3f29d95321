-- ===== src/Mkcp/Header.antt =====
-- The disguise in front of a packet: crates/blackwire-transport/src/mkcp/header.rs.
pub mod RoundTrip
use v2ray.Prelude.{
  ℕ, ◌*◌, ◌/◌, ◌%◌, ◌^◌, Option, none, some, List, [], ◌∷◌, ◌++◌, length, drop, ltb, if◌then◌else◌,
  bytes_eq,
}
use v2ray.Mkcp.Kcp.{u32}

-- `plain` is `HeaderType::None`.
pub data HeaderType : Type 0 where
  plain srtp utp wechat_video dtls wireguard : HeaderType

unfoldable pub size : HeaderType → ℕ
size plain = 0
size srtp = 4
size utp = 4
size wechat_video = 4
size wireguard = 4
size dtls = 13

-- `(buf.as_ptr() as u32).wrapping_mul(0x9e3779b9)`
scramble : ℕ → ℕ
scramble address = u32 (u32 address * 0x9e3779b9)

-- The bytes that `write_header` leaves in a buffer of `size`. `source` is the address of the buffer
-- or the value of the counter, whichever the type takes.
unfoldable pub write_header : HeaderType → ℕ → List ℕ
unfolding scramble
write_header plain source = []
write_header srtp source = let r = scramble source in 0x80 ∷ 0x61 ∷ r / 256 % 256 ∷ r % 256 ∷ []
write_header utp source = let r = scramble source in 0x01 ∷ 0x00 ∷ r / 256 % 256 ∷ r % 256 ∷ []
write_header wechat_video source = 0xa1 ∷ 0x08 ∷ source / 256 % 256 ∷ source % 256 ∷ []
write_header dtls source =
    0x16
    ∷ 0xfe
    ∷ 0xff
    ∷ 0
    ∷ 0
    ∷ 0
    ∷ 0
    ∷ source / 16777216 % 256
    ∷ source / 65536 % 256
    ∷ source / 256 % 256
    ∷ source % 256
    ∷ 0
    ∷ 0
    ∷ []
write_header wireguard source = 0x04 ∷ 0 ∷ 0 ∷ 0 ∷ []

unfoldable pub encode : HeaderType → ℕ → List ℕ → List ℕ
unfolding write_header
encode t source payload = write_header t source ++ payload

unfoldable pub strip : HeaderType → List ℕ → Option (List ℕ)
unfolding size
strip t packet = if ltb (length packet) (size t) then none else some (drop (size t) packet)

abbrev pub name_none : List ℕ
name_none = b'n' ∷ b'o' ∷ b'n' ∷ b'e' ∷ []

abbrev pub name_srtp : List ℕ
name_srtp = b's' ∷ b'r' ∷ b't' ∷ b'p' ∷ []

abbrev pub name_utp : List ℕ
name_utp = b'u' ∷ b't' ∷ b'p' ∷ []

abbrev pub name_wechat_video : List ℕ
name_wechat_video =
    b'w' ∷ b'e' ∷ b'c' ∷ b'h' ∷ b'a' ∷ b't' ∷ b'-' ∷ b'v' ∷ b'i' ∷ b'd' ∷ b'e' ∷ b'o' ∷ []

abbrev pub name_dtls : List ℕ
name_dtls = b'd' ∷ b't' ∷ b'l' ∷ b's' ∷ []

abbrev pub name_wireguard : List ℕ
name_wireguard = b'w' ∷ b'i' ∷ b'r' ∷ b'e' ∷ b'g' ∷ b'u' ∷ b'a' ∷ b'r' ∷ b'd' ∷ []

-- `from_str`; an unknown name is an error.
unfoldable pub from_str : List ℕ → Option HeaderType
unfolding bytes_eq
from_str s =
    if bytes_eq s name_none
    then some plain
    else if bytes_eq s name_srtp
    then some srtp
    else if bytes_eq s name_utp
    then some utp
    else if bytes_eq s name_wechat_video
    then some wechat_video
    else if bytes_eq s name_dtls
    then some dtls
    else if bytes_eq s name_wireguard
    then some wireguard
    else none
