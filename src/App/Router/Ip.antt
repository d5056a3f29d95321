-- ===== src/App/Router/Ip.antt =====
-- IpMatcher of router.rs and GeoIpMatcher of geo/geoip.rs. The ranges of the crate ipnet, their
-- order and their test for an address are a parameter.
use v2ray.Prelude.{
  ℕ, suc, ◌-◌, Bool, false, ◌||◌, Option, none, some, List, [], ◌∷◌, take, drop, if◌then◌else◌,
}
use v2ray.Common.Address.{IpAddr, v4, v6}

pub record IpNet : Type 1 where
  pub Net : Type 0
  pub new : IpAddr → ℕ → Option Net
  pub le : Net → Net → Bool
  pub contains : Net → IpAddr → Bool

abbrev pub any {ℓ} : {A : Type ℓ} → (A → Bool) → List A → Bool
any test [] = false
any test (x ∷ xs) = test x || any test xs

-- `partition_point`, of a list in which all that passes the test stands in front.
unfoldable pub partition_point {ℓ} : {A : Type ℓ} → (A → Bool) → List A → ℕ
partition_point test [] = 0
partition_point test (x ∷ xs) = if test x then suc (partition_point test xs) else 0

abbrev pub full_prefix : IpAddr → ℕ
full_prefix (v4 ip) = 32
full_prefix (v6 ip) = 128

module _ (n : IpNet) where
  unfoldable pub matches : List n.Net → IpAddr → Bool
  unfolding partition_point
  matches [] ip = false
  matches (r ∷ rs) ip = elim (n.new ip (full_prefix ip)) [
    | none ↦ any (λ net. n.contains net ip) (r ∷ rs)
    | some probe ↦
        let idx = partition_point (λ net. n.le net probe) (r ∷ rs) in
        any (λ net. n.contains net ip) (take (idx - (idx - 4)) (drop (idx - 4) (r ∷ rs)))
  ]

  unfoldable pub match_ip : List n.Net → IpAddr → Bool
  unfolding partition_point
  match_ip [] ip = false
  match_ip (r ∷ rs) ip = elim (n.new ip (full_prefix ip)) [
    | none ↦ any (λ net. n.contains net ip) (r ∷ rs)
    | some probe ↦
        let idx = partition_point (λ net. n.le net probe) (r ∷ rs) in
        let start = idx - 4 in
        any (λ net. n.contains net ip) (take (idx - start) (drop start (r ∷ rs)))
  ]
