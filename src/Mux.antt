-- ===== src/Mux.antt =====
-- Mux.Cool, crates/blackwire-protocol/src/vless/mux.rs: its frames, and the relay of a connection.
pub mod Metadata
pub mod Frame
pub mod Relay
