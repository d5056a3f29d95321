-- ===== src/App/FakeIp.antt =====
-- The pool of fake addresses: crates/blackwire-app/src/dns/fakeip.rs.
pub mod Maps
pub mod Pool
pub mod Distinct
pub mod Plan
pub mod Linked
pub mod Refine
pub mod Steps
pub mod Promise
pub mod Concrete
