-- ===== src/App.antt =====
-- The crate blackwire-app, as far as it decides where a connection goes.
pub mod Balancer
pub mod FakeIp
pub mod Router
pub mod DnsCache
pub mod Health
pub mod Dispatch
pub mod Sniff
