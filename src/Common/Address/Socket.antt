-- ===== src/Common/Address/Socket.antt =====
-- Conversions between `Address` and `std::net::SocketAddr`.
use v2ray.Prelude.{ℕ, ◌≡◌, refl, some}
use v2ray.Common.Address.{IpAddr, SocketAddr, v4, v6, to_socket_addr, from_socket_addr, port}

-- The address of a socket address converts back to it and keeps its port.
pub to-from_socket_addr :
    (s : SocketAddr)
    → (to_socket_addr (from_socket_addr s) ≡ some s) × (port (from_socket_addr s) ≡ s.port)
unfolding to_socket_addr from_socket_addr port
to-from_socket_addr s = by_ip s.ip s.port
  where
    by_ip :
        (ip : IpAddr) (p : ℕ)
        → (to_socket_addr (from_socket_addr (record { ip = ip; port = p }))
            ≡ some (record { ip = ip; port = p }))
          × (port (from_socket_addr (record { ip = ip; port = p })) ≡ p)
    by_ip (v4 ip) p = (refl, refl)
    by_ip (v6 ip) p = (refl, refl)
