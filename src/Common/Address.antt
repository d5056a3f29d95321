-- ===== src/Common/Address.antt =====
-- crates/blackwire-common/src/address.rs, and `domain_wire_len` of relay.rs. An IP address is the
-- list of its octets, a domain name the list of its bytes, a port a number.
pub mod Socket
use v2ray.Prelude.{ℕ, ◌≡◌, ◌≤◌, refl, Bool, true, false, Option, none, some, List, arith}
use v2ray.Prelude.{leb, ltb, if◌then◌else◌, length, AreBytes, IsU16, is_utf8, ltb→lt}
use v2ray.Common.Result.{Result, ok, err, protocol, domain_too_long}

pub data Address : Type 0 where
  ipv4 ipv6 domain : List ℕ → ℕ → Address

-- `std::net::IpAddr` and `std::net::SocketAddr`.
pub data IpAddr : Type 0 where
  v4 v6 : List ℕ → IpAddr

pub record SocketAddr : Type 0 where
  pub ip : IpAddr
  pub port : ℕ

pub data Network : Type 0 where
  tcp udp : Network

unfoldable pub port : Address → ℕ
port (ipv4 ip p) = p
port (ipv6 ip p) = p
port (domain d p) = p

unfoldable pub is_domain : Address → Bool
is_domain (domain d p) = true
is_domain a = false

unfoldable pub domain_of : Address → Option (List ℕ)
domain_of (domain d p) = some d
domain_of a = none

unfoldable pub ip_of : Address → Option IpAddr
ip_of (ipv4 ip p) = some (v4 ip)
ip_of (ipv6 ip p) = some (v6 ip)
ip_of (domain d p) = none

unfoldable pub to_socket_addr : Address → Option SocketAddr
to_socket_addr (ipv4 ip p) = some (record { ip = v4 ip; port = p })
to_socket_addr (ipv6 ip p) = some (record { ip = v6 ip; port = p })
to_socket_addr (domain d p) = none

-- `impl From<SocketAddr> for Address`
from_ip : IpAddr → ℕ → Address
from_ip (v4 ip) p = ipv4 ip p
from_ip (v6 ip) p = ipv6 ip p

unfoldable pub from_socket_addr : SocketAddr → Address
unfolding from_ip
from_socket_addr s = from_ip s.ip s.port

-- `name.len() as u8`; the test keeps it in range.
unfoldable pub domain_wire_len : List ℕ → Result ℕ
domain_wire_len name =
    if ltb 255 (length name)
    then err (protocol (domain_too_long (length name)))
    else ok (length name)

-- What the Rust types promise of a value.
abbrev pub IsAddress : Address → Type 0
IsAddress (ipv4 ip p) = (length ip ≡ 4) × AreBytes ip × IsU16 p
IsAddress (ipv6 ip p) = (length ip ≡ 16) × AreBytes ip × IsU16 p
IsAddress (domain d p) = (is_utf8 d ≡ true) × AreBytes d × IsU16 p

-- A name longer than its one-byte length field cannot be sent.
abbrev pub FitsWire : Address → Type 0
FitsWire (ipv4 ip p) = Unit {0}
FitsWire (ipv6 ip p) = Unit {0}
FitsWire (domain d p) = length d ≤ 255
