-- ===== src/Ss2022.antt =====
-- Shadowsocks 2022, crates/blackwire-protocol/src/ss2022.
pub mod Replay
