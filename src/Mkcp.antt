-- ===== src/Mkcp.antt =====
-- The mKCP transport: crates/blackwire-transport/src/mkcp, without its driver tasks.
-- Arithmetic on machine words wraps, as it does in a release build.
pub mod Segment
pub mod Header
pub mod Kcp
pub mod Window
pub mod Input
pub mod Flush
pub mod Sound
