-- ===== src/App/FakeIp/Refine.antt =====
-- When a pool and a plan agree; a new pool and the empty plan do.
use v2ray.Prelude.{ℕ, ◌+◌, ◌-◌, ◌<◌, ◌≤◌, ◌^◌, ◌≡◌, refl, ◌∙◌, some, arith, length, max}
use v2ray.Common.Maps.{DashMap, DashMapLaws, bytes_dec}
use v2ray.App.FakeIp.Maps.{LruCache, LruCacheLaws, Domain}
use v2ray.App.FakeIp.Pool
use v2ray.App.FakeIp.Pool.{FakeIpPool}
use v2ray.App.FakeIp.Linked.{Linked}
use v2ray.App.FakeIp.Plan.{Plan, empty}

module _ (fwd : DashMap Domain ℕ) (rev : DashMap ℕ Domain) (lru : LruCache Domain)
    (fwd_laws : DashMapLaws fwd) (rev_laws : DashMapLaws rev)
    (lru_laws : LruCacheLaws bytes_dec lru) where
  -- A pool on the network from `network` on with `size` addresses for domains agrees with a plan.
  pub record Agrees (network size : ℕ) (p : FakeIpPool fwd rev lru) (s : Plan) : Type 0 where
    pub first : p.network ≡ network
    pub last : p.broadcast ≡ network + 1 + size
    pub room : p.pool_size ≡ size
    pub width : network + 1 + size < 2 ^ 32
    pub some_room : 0 < size
    pub linked : Linked fwd rev lru fwd_laws rev_laws lru_laws p.forward p.backward p.recent s
    pub cap : lru.cap p.recent ≡ size
    pub fits : length s.order ≤ size
    pub counter : p.next ≡ network + 1 + length s.order
    pub range :
        (d : Domain) (ip : ℕ)
        → s.address d ≡ some ip
        → (network < ip) × (ip < network + 1 + length s.order)

  pub new-Agrees :
      (network size : ℕ)
      → 0 < size
      → network + 1 + size < 2 ^ 32
      → Agrees network size (Pool.new fwd rev lru network (network + 1 + size)) empty
  unfolding Pool.new
  new-Agrees network size h w =
      let m : max (network + 1 + size - network - 1) 1 ≡ size = omega arith in
      record {
        first = refl;
        last = refl;
        room = m;
        width = w;
        some_room = h;
        linked = record {
          order = lru_laws.keys-new _;
          there = λ d. fwd_laws.get-new d;
          back = λ d ip e. absurd (ground arith);
          forth = λ d ip e. absurd (ground (arith, rev_laws.get-new ip));
          listed = λ d ip e. absurd (ground arith);
          held = λ d i. elim i [ ];
          count = fwd_laws.len-new;
          distinct = tt;
        };
        cap = lru_laws.cap-new _ ∙ m;
        fits = omega arith;
        counter = omega arith;
        range = λ d ip e. absurd (ground arith);
      }
