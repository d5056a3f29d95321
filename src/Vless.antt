-- ===== src/Vless.antt =====
-- The VLESS protocol: crates/blackwire-protocol/src/vless/.
pub mod Varint
pub mod Addons
pub mod Codec
pub mod AddressPort
pub mod Udp
