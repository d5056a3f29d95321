-- ===== src/App/Balancer.antt =====
-- The balancing outbound: crates/blackwire-app/src/balancer.rs, without its logs and statistics.
pub mod State
pub mod Adaptive
pub mod Pick
pub mod Alive
pub mod Rotation
pub mod Least
pub mod Cooldown
pub mod Available
pub mod Serve
pub mod Dial
