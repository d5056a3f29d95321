-- ===== src/App/FakeIp/Promise.antt =====
-- Every sequence of requests to a pool runs as the plan says.
use native.Mathlib.Decide.{dec_lt}
use v2ray.Prelude.{
  In, ℕ, ◌+◌, ◌<◌, ◌≤◌, ◌^◌, ◌≡◌, inl, inr, refl, sym, ap, ◌∙◌, subst, none, some, List, [], ◌∷◌,
  arith, length, Option-cases,
}
use v2ray.Common.Maps.{DashMap, DashMapLaws, bytes_dec}
use v2ray.App.FakeIp.Maps.{LruCache, LruCacheLaws, Domain}
use v2ray.App.FakeIp.Pool
use v2ray.App.FakeIp.Pool.{FakeIpPool}
use v2ray.App.FakeIp.Distinct.{last_split, In-last}
use v2ray.App.FakeIp.Plan.{
  Plan, release, empty, Assigns, AssignsAll, known, fresh, evicts, done, request, assign-same,
}
use v2ray.App.FakeIp.Refine.{Agrees, new-Agrees}
use v2ray.App.FakeIp.Steps.{
  Simulated, known_case, fresh_case, evicted_case, allocate-fresh, allocate-evicted,
}

module _ (fwd : DashMap Domain ℕ) (rev : DashMap ℕ Domain) (lru : LruCache Domain)
    (fwd_laws : DashMapLaws fwd) (rev_laws : DashMapLaws rev)
    (lru_laws : LruCacheLaws bytes_dec lru) (network size : ℕ) where
  abbrev Fits : FakeIpPool fwd rev lru → Plan → Type 0
  Fits = Agrees fwd rev lru fwd_laws rev_laws lru_laws network size

  allocate-known :
      (p : FakeIpPool fwd rev lru) (s : Plan) (d : Domain) (ip : ℕ)
      → Fits p s
      → s.address d ≡ some ip
      → Pool.allocate fwd rev lru p d ≡ (ip, record p { recent = lru.get d p.recent })
  unfolding Pool.allocate
  allocate-known p s d ip a e = ground (arith, a.linked.there d)

  full_case :
      (p : FakeIpPool fwd rev lru) (s : Plan) (d : Domain) (order : List Domain) (a : Fits p s)
      → s.order ≡ order
      → s.address d ≡ none
      → size ≤ length order
      → Simulated fwd rev lru fwd_laws rev_laws lru_laws network size p s d a
          (Pool.allocate fwd rev lru p d)
  full_case p s d [] a o e h = absurd (omega (arith, a.some_room))
  full_case p s d (x ∷ xs) a o e h =
      let (rest, old, split) = last_split x xs in
      let (ip, e_old) = a.linked.held old (subst (In old) (sym (o ∙ split)) (In-last old rest)) in
      let full : length s.order ≡ size = omega (arith, a.fits, ap length o) in
      rw
        (allocate-evicted fwd rev lru fwd_laws rev_laws lru_laws network size p s d a rest old ip
          (o ∙ split) e_old full e)
        (evicted_case fwd rev lru fwd_laws rev_laws lru_laws network size p s d a rest old ip
          (o ∙ split) e_old full e)

  allocate-Simulated :
      (p : FakeIpPool fwd rev lru) (s : Plan) (d : Domain) (a : Fits p s)
      → Simulated fwd rev lru fwd_laws rev_laws lru_laws network size p s d a
          (Pool.allocate fwd rev lru p d)
  allocate-Simulated p s d a = elim (Option-cases (s.address d)) [
    | inr (ip, e) ↦
        rw (allocate-known p s d ip a e)
          (known_case fwd rev lru fwd_laws rev_laws lru_laws network size p s d a ip e)
    | inl e ↦ elim (dec_lt (length s.order) size) [
      | yes h ↦
          rw (allocate-fresh fwd rev lru fwd_laws rev_laws lru_laws network size p s d a e h)
            (fresh_case fwd rev lru fwd_laws rev_laws lru_laws network size p s d a e h)
      | no h ↦ full_case p s d s.order a refl e (omega arith)
    ]
  ]

  -- From a pool and a plan that agree, the requests run as planned.
  run-AssignsAll :
      (p : FakeIpPool fwd rev lru) (s : Plan) (ds : List Domain)
      → Fits p s
      → (t : Plan) × AssignsAll network size s ds (Pool.allocate_all fwd rev lru p ds).0 t
        × Fits (Pool.allocate_all fwd rev lru p ds).1 t
  unfolding Pool.allocate_all
  run-AssignsAll p s [] a = (s, done, a)
  run-AssignsAll p s (d ∷ ds) a =
      let (t, step, b) = allocate-Simulated p s d a in
      let (u, steps, c) = run-AssignsAll (Pool.allocate fwd rev lru p d).1 t ds b in
      (u, request step steps, c)

  -- A new pool on a network with `size` addresses between its first and its last one, at least one,
  -- answers every sequence of requests as the plan says: a known domain keeps its address, a new
  -- one has the next free address while there is one and then the address of the domain that was
  -- asked for the longest ago, and no other domain's address changes. At the end the pool's maps
  -- and its order of use are those of the plan.
  pub allocate_all-AssignsAll :
      0 < size
      → network + 1 + size < 2 ^ 32
      → (ds : List Domain)
      → (t : Plan) × AssignsAll network size empty ds
          (Pool.allocate_all fwd rev lru (Pool.new fwd rev lru network (network + 1 + size)) ds).0
          t
        × Fits
            (Pool.allocate_all fwd rev lru (Pool.new fwd rev lru network (network + 1 + size)) ds).1
            t
  allocate_all-AssignsAll h w ds =
      run-AssignsAll _ _ ds (new-Agrees fwd rev lru fwd_laws rev_laws lru_laws network size h w)

  assigned :
      (s t : Plan) (d : Domain) (ip : ℕ) → Assigns network size s d ip t → t.address d ≡ some ip
  assigned s t d ip (known e o same) = same d ∙ e
  assigned s t d ip (fresh e h i o same) = same d ∙ assign-same d ip s.address
  assigned s t d ip (evicts old rest e f o e' o' same) =
      same d ∙ assign-same d ip (release old s.address)

  -- After any sequence of requests to such a pool, the address that the next request returns lies
  -- strictly between the first and the last address of the network, and is found to be the
  -- address of the domain that asked for it.
  pub reverse-allocate :
      0 < size
      → network + 1 + size < 2 ^ 32
      → (ds : List Domain) (d : Domain)
      → let p =
          (Pool.allocate_all fwd rev lru
            (Pool.new fwd rev lru network (network + 1 + size))
            ds).1 in
        let (ip, q) = Pool.allocate fwd rev lru p d in
        (network < ip) × (ip < network + 1 + size) × (Pool.reverse fwd rev lru q ip ≡ some d)
  unfolding Pool.reverse
  reverse-allocate h w ds d =
      let (s, _, a) = allocate_all-AssignsAll h w ds in
      let (t, step, b) = allocate-Simulated _ s d a in
      let e = assigned s t d _ step in
      let (low, high) = b.range d _ e in (low, omega (arith, b.fits), b.linked.back d _ e)
