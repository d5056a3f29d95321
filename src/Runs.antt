-- ===== src/Runs.antt =====
-- The development on concrete inputs.
pub mod Values
pub mod Vless
pub mod Mux
pub mod Datagrams
pub mod Mkcp
pub mod Headers
pub mod Window
pub mod Balancer
pub mod FakeIp
pub mod Router
pub mod UdpNat
pub mod DnsCache
pub mod Relay
pub mod Health
pub mod Replay
pub mod Sniff
