-- ===== src/Common.antt =====
-- The crate blackwire-common: errors, byte streams, addresses and the SOCKS5 address codec.
pub mod Result
pub mod Stream
pub mod Address
pub mod Socks5
pub mod Maps
pub mod Action
