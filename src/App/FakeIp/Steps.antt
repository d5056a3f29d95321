-- ===== src/App/FakeIp/Steps.antt =====
-- Each case of `allocate` is a step of the plan.
use v2ray.Prelude.{
  ℕ, ◌+◌, ◌<◌, ◌≡◌, inl, inr, refl, ap, ◌∙◌, none, some, List, [], ◌∷◌, ◌++◌, arith, length,
  length-append, Option-cases,
}
use v2ray.Common.Maps.{DashMap, DashMapLaws, bytes_dec}
use v2ray.App.FakeIp.Maps.{LruCache, LruCacheLaws, Domain, without}
use v2ray.App.FakeIp.Pool
use v2ray.App.FakeIp.Pool.{FakeIpPool}
use v2ray.App.FakeIp.Distinct.{length-without}
use v2ray.App.FakeIp.Linked.{Linked-known, Linked-unclaimed, Linked-evict, Linked-insert}
use v2ray.App.FakeIp.Plan.{
  Plan, Assigns, known, fresh, evicts, assign, release, assign-some, release-some, release-none,
}
use v2ray.App.FakeIp.Refine.{Agrees}

module _ (fwd : DashMap Domain ℕ) (rev : DashMap ℕ Domain) (lru : LruCache Domain)
    (fwd_laws : DashMapLaws fwd) (rev_laws : DashMapLaws rev)
    (lru_laws : LruCacheLaws bytes_dec lru) where
  module _ (network size : ℕ) (p : FakeIpPool fwd rev lru) (s : Plan) (d : Domain)
      (a : Agrees fwd rev lru fwd_laws rev_laws lru_laws network size p s) where
    -- One step of the plan, and the pool that agrees with its end.
    abbrev pub Simulated : ℕ × FakeIpPool fwd rev lru → Type 0
    Simulated (ip, q) =
        (t : Plan) × Assigns network size s d ip t
        × Agrees fwd rev lru fwd_laws rev_laws lru_laws network size q t

    pub known_case :
        (ip : ℕ) → s.address d ≡ some ip → Simulated (ip, record p { recent = lru.get d p.recent })
    known_case ip e =
        let here = a.linked.listed d ip e in
        let kept = length-without bytes_dec d s.order here in
        (
          record s { order = d ∷ without bytes_dec d s.order },
          known e refl (λ q. refl),
          record {
            first = a.first;
            last = a.last;
            room = a.room;
            width = a.width;
            some_room = a.some_room;
            linked =
                Linked-known fwd rev lru fwd_laws rev_laws lru_laws p.forward p.backward p.recent s
                  a.linked d ip e;
            cap = lru_laws.cap-get d p.recent ∙ a.cap;
            fits = omega (arith, a.fits);
            counter = omega (arith, a.counter);
            range = λ q n g. rw kept (a.range q n g);
          },
        )

    abbrev after : ℕ → ℕ → fwd.Map → rev.Map → lru.Cache → FakeIpPool fwd rev lru
    after ip next f r l = record p {
      next = next;
      forward = fwd.insert d ip f;
      backward = rev.insert ip d r;
      recent = lru.put d l;
    }

    next_free : length s.order < size → rev.get p.next p.backward ≡ none
    next_free h = elim (Option-cases (rev.get p.next p.backward)) [
      | inl e ↦ e
      | inr (q, e) ↦ absurd (omega (arith, a.range q p.next (a.linked.forth q p.next e), a.counter))
    ]

    claim-fresh :
        length s.order < size
        → Pool.claim_ip fwd rev lru p
          ≡ (p.next, record p { next = p.next + 1; backward = (rev.remove p.next p.backward).1 })
    unfolding Pool.claim_ip Pool.claim_next
    claim-fresh h = ground (
      arith,
      next_free h,
      rev_laws.removed p.next p.backward,
      a.last,
      a.first,
      a.room,
      a.counter,
      a.width,
      a.linked.count,
    )

    pub allocate-fresh :
        s.address d ≡ none
        → length s.order < size
        → Pool.allocate fwd rev lru p d
          ≡ (p.next, after p.next (p.next + 1) p.forward (rev.remove p.next p.backward).1 p.recent)
    unfolding Pool.allocate
    allocate-fresh e h = ground (arith, claim-fresh h, a.linked.there d)

    pub fresh_case :
        s.address d ≡ none
        → length s.order < size
        → Simulated
            (p.next, after p.next (p.next + 1) p.forward (rev.remove p.next p.backward).1 p.recent)
    fresh_case e h = (
      record { order = d ∷ s.order; address = assign d p.next s.address },
      fresh e h a.counter refl (λ q. refl),
      record {
        first = a.first;
        last = a.last;
        room = a.room;
        width = a.width;
        some_room = a.some_room;
        linked =
            Linked-insert fwd rev lru fwd_laws rev_laws lru_laws p.forward
              (rev.remove p.next p.backward).1 p.recent s
              (Linked-unclaimed fwd rev lru fwd_laws rev_laws lru_laws p.forward p.backward p.recent
                s a.linked p.next (next_free h))
              d p.next e (rev_laws.get-remove p.next p.backward) (omega (arith, a.cap));
        cap = lru_laws.cap-put d p.recent ∙ a.cap;
        fits = omega arith;
        counter = omega (arith, a.counter);
        range = λ q n g. elim (assign-some d q p.next n s.address g) [
          | inl (_, here) ↦ omega (arith, a.counter)
          | inr (_, g) ↦ omega (arith, a.range q n g)
        ];
      },
    )

    module _ (rest : List Domain) (old : Domain) (ip : ℕ) (o : s.order ≡ rest ++ (old ∷ []))
        (e_old : s.address old ≡ some ip) (full : length s.order ≡ size) where
      claim-evicted : Pool.claim_ip fwd rev lru p ≡ (
        ip,
        record p {
          recent = (lru.pop_lru p.recent).1;
          forward = (fwd.remove old p.forward).1;
          backward = (rev.remove ip p.backward).1;
        },
      )
      unfolding Pool.claim_ip Pool.claim_evicted
      claim-evicted = ground (
        arith,
        a.linked.count,
        a.room,
        lru_laws.pops rest old p.recent (a.linked.order ∙ o),
        fwd_laws.removed old p.forward,
        a.linked.there old,
      )

      pub allocate-evicted :
          s.address d ≡ none
          → Pool.allocate fwd rev lru p d ≡ (
            ip,
            after ip p.next
                (fwd.remove old p.forward).1
                (rev.remove ip p.backward).1
                (lru.pop_lru p.recent).1,
          )
      unfolding Pool.allocate
      allocate-evicted e = ground (arith, claim-evicted, a.linked.there d)

      pub evicted_case :
          s.address d ≡ none
          → Simulated (
            ip,
            after ip p.next
                (fwd.remove old p.forward).1
                (rev.remove ip p.backward).1
                (lru.pop_lru p.recent).1,
          )
      evicted_case e =
          let len : length s.order ≡ length rest + 1 =
            ap length o ∙ length-append rest (old ∷ []) in
          let cap = lru_laws.cap-pop_lru p.recent ∙ a.cap in
          (
            record { order = d ∷ rest; address = assign d ip (release old s.address) },
            evicts old rest e full o e_old refl (λ q. refl),
            record {
              first = a.first;
              last = a.last;
              room = a.room;
              width = a.width;
              some_room = a.some_room;
              linked =
                  Linked-insert fwd rev lru fwd_laws rev_laws lru_laws (fwd.remove old p.forward).1
                    (rev.remove ip p.backward).1 (lru.pop_lru p.recent).1
                    (record { order = rest; address = release old s.address })
                    (Linked-evict fwd rev lru fwd_laws rev_laws lru_laws p.forward p.backward
                      p.recent s a.linked rest old ip o e_old)
                    d ip (release-none old d s.address e) (rev_laws.get-remove ip p.backward)
                    (omega arith);
              cap = lru_laws.cap-put d (lru.pop_lru p.recent).1 ∙ cap;
              fits = omega arith;
              counter = omega (arith, a.counter);
              range = λ q n g. elim (assign-some d q ip n (release old s.address) g) [
                | inl (_, here) ↦ omega (arith, a.range old ip e_old)
                | inr (_, g) ↦ omega (arith, a.range q n (release-some old q n s.address g).1)
              ];
            },
          )
