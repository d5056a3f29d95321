-- ===== src/Runs/FakeIp.antt =====
-- The pool of fake addresses on the network 198.18.0.0/30, which has two addresses for domains.
use native.Mathlib.Decide.{ℕ_discrete}
use v2ray.Prelude.{ℕ, ◌+◌, ◌<◌, ◌≡◌, refl, arith, some, List, [], ◌∷◌}
use v2ray.Common.Maps.{DashMap, bytes_dec}
use v2ray.App.FakeIp.Maps.{LruCache, Domain, without}
use v2ray.App.FakeIp.Pool
use v2ray.App.FakeIp.Pool.{FakeIpPool}
use v2ray.App.FakeIp.Plan.{Plan, AssignsAll, empty}
use v2ray.App.FakeIp.Refine.{Agrees}
use v2ray.App.FakeIp.Promise.{allocate_all-AssignsAll, reverse-allocate}
use v2ray.App.FakeIp.Concrete.{
  find, discard, pop_last, list_map, list_map_laws, list_lru, list_lru_laws,
}

abbrev domains : DashMap Domain ℕ
domains = list_map bytes_dec

abbrev addresses : DashMap ℕ Domain
addresses = list_map ℕ_discrete

abbrev recent : LruCache Domain
recent = list_lru bytes_dec

abbrev network : ℕ
network = 0xC6120000

abbrev a_com : Domain
a_com = b'a' ∷ b'.' ∷ b'c' ∷ b'o' ∷ b'm' ∷ []

abbrev b_com : Domain
b_com = b'b' ∷ b'.' ∷ b'c' ∷ b'o' ∷ b'm' ∷ []

abbrev c_com : Domain
c_com = b'c' ∷ b'.' ∷ b'c' ∷ b'o' ∷ b'm' ∷ []

abbrev asked : List Domain
asked = a_com ∷ b_com ∷ a_com ∷ []

abbrev pool : FakeIpPool domains addresses recent
pool = Pool.new domains addresses recent network (network + 1 + 2)

-- The test pool_exhaustion_evicts_lru_domain of fakeip.rs.
evicts_oldest :
    (Pool.allocate_all domains addresses recent pool (a_com ∷ b_com ∷ a_com ∷ c_com ∷ [])).0
    ≡ 0xC6120001 ∷ 0xC6120002 ∷ 0xC6120001 ∷ 0xC6120002 ∷ []
unfolding Pool.new Pool.allocate_all find discard without bytes_dec ℕ_discrete pop_last
evicts_oldest = refl

-- A network of one address has none for a domain: the pool hands out the one behind it.
outside :
    (Pool.allocate domains addresses recent
      (Pool.new domains addresses recent network network)
      a_com).0
    ≡ network + 1
unfolding Pool.new Pool.allocate find discard without bytes_dec ℕ_discrete
outside = refl

allocate_all-AssignsAll_example :
    (t : Plan) × AssignsAll network 2 empty asked
      (Pool.allocate_all domains addresses recent pool asked).0
      t
    × Agrees domains addresses recent
        (list_map_laws bytes_dec)
        (list_map_laws ℕ_discrete)
        (list_lru_laws bytes_dec)
        network
        2
        (Pool.allocate_all domains addresses recent pool asked).1
        t
allocate_all-AssignsAll_example =
    allocate_all-AssignsAll domains addresses recent (list_map_laws bytes_dec)
      (list_map_laws ℕ_discrete) (list_lru_laws bytes_dec) network 2 (omega arith) (omega arith)
      asked

reverse-allocate_example :
    let p = (Pool.allocate_all domains addresses recent pool asked).1 in
    let (ip, q) = Pool.allocate domains addresses recent p c_com in
    (network < ip)
    × (ip < network + 1 + 2)
    × (Pool.reverse domains addresses recent q ip ≡ some c_com)
reverse-allocate_example =
    reverse-allocate domains addresses recent (list_map_laws bytes_dec) (list_map_laws ℕ_discrete)
      (list_lru_laws bytes_dec) network 2 (omega arith) (omega arith) asked c_com
