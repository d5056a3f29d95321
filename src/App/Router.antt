-- ===== src/App/Router.antt =====
-- The routing engine: crates/blackwire-app/src/router.rs, and the matchers of geo/geoip.rs and
-- geo/geosite.rs.
pub mod Ip
pub mod Domain
pub mod Rule
pub mod Disjoint
pub mod Labels
pub mod First
pub mod Alike
