-- ===== src/App/FakeIp/Pool.antt =====
-- fakeip.rs: the state of a pool and its operations. An address is the number of its 32 bits; a
-- network is given by its first and its last address. The lock makes an allocation one step. The fields
-- `reverse` and `lru` are `backward` and `recent` here.
use v2ray.Prelude.{
  ℕ, ◌+◌, ◌-◌, ◌%◌, ◌^◌, ◌||◌, Option, none, some, List, [], ◌∷◌, ltb, leb, if◌then◌else◌, max,
}
use v2ray.Common.Maps.{DashMap}
use v2ray.App.FakeIp.Maps.{LruCache, Domain}

module _ (fwd : DashMap Domain ℕ) (rev : DashMap ℕ Domain) (lru : LruCache Domain) where
  pub record FakeIpPool : Type 0 where
    pub network : ℕ
    pub broadcast : ℕ
    pub next : ℕ
    pub pool_size : ℕ
    pub forward : fwd.Map
    pub backward : rev.Map
    pub recent : lru.Cache

  -- `new`, from the network that the text of the range was parsed to
  unfoldable pub new : ℕ → ℕ → FakeIpPool
  new network broadcast = record {
    network = network;
    broadcast = broadcast;
    next = (network + 1) % 2 ^ 32;
    pool_size = max (broadcast - network - 1) 1;
    forward = fwd.new;
    backward = rev.new;
    recent = lru.new (max (broadcast - network - 1) 1);
  }

  unfoldable pub reverse : FakeIpPool → ℕ → Option Domain
  reverse p ip = rev.get ip p.backward

  -- `fetch_update`, and the address of the old counter
  abbrev pub advance : FakeIpPool → ℕ
  advance p = if leb p.broadcast p.next then (p.network + 1) % 2 ^ 32 else p.next + 1

  abbrev pub candidate : FakeIpPool → ℕ
  candidate p =
      if ltb p.next ((p.network + 1) % 2 ^ 32) || leb p.broadcast p.next
      then (p.network + 1) % 2 ^ 32
      else p.next

  -- The part of `claim_ip` behind the eviction.
  unfoldable pub claim_next : FakeIpPool → ℕ × FakeIpPool
  claim_next p =
      let ip = candidate p in
      let (old, backward) = rev.remove ip p.backward in
      elim old [
        | none ↦ (ip, record p { next = advance p; backward = backward })
        | some domain ↦ (
          ip,
          record p {
            next = advance p;
            backward = backward;
            forward = (fwd.remove domain p.forward).1;
            recent = lru.pop domain p.recent;
          },
        )
      ]

  -- The part of `claim_ip` from the eviction on.
  unfoldable pub claim_evicted : FakeIpPool → ℕ × FakeIpPool
  unfolding claim_next
  claim_evicted p =
      let (evicted, recent) = lru.pop_lru p.recent in
      elim evicted [
        | none ↦ claim_next (record p { recent = recent })
        | some domain ↦
            let (held, forward) = fwd.remove domain p.forward in
            elim held [
              | none ↦ claim_next (record p { recent = recent; forward = forward })
              | some ip ↦ (
                ip,
                record p {
                  recent = recent;
                  forward = forward;
                  backward = (rev.remove ip p.backward).1;
                },
              )
            ]
      ]

  unfoldable pub claim_ip : FakeIpPool → ℕ × FakeIpPool
  unfolding claim_next claim_evicted
  claim_ip p = if leb p.pool_size (fwd.len p.forward) then claim_evicted p else claim_next p

  -- `allocate`, whose second look at the map finds what the first one found
  unfoldable pub allocate : FakeIpPool → Domain → ℕ × FakeIpPool
  unfolding claim_ip
  allocate p domain = elim (fwd.get domain p.forward) [
    | some ip ↦ (ip, record p { recent = lru.get domain p.recent })
    | none ↦
        let (ip, p) = claim_ip p in
        (
          ip,
          record p {
            forward = fwd.insert domain ip p.forward;
            backward = rev.insert ip domain p.backward;
            recent = lru.put domain p.recent;
          },
        )
  ]

  unfoldable pub allocate_all : FakeIpPool → List Domain → List ℕ × FakeIpPool
  unfolding allocate
  allocate_all p [] = ([], p)
  allocate_all p (d ∷ ds) =
      let (ip, p) = allocate p d in let (ips, p) = allocate_all p ds in (ip ∷ ips, p)
