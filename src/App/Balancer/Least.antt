-- ===== src/App/Balancer/Least.antt =====
-- The latency strategy picks a living member with the least latency, the first of several.
use v2ray.Prelude.{
  subst, ltb→lt, ltb→le, ltb→lt, ℕ, zero, suc, ◌+◌, ◌≤◌, ◌<◌, ◌≡◌, ◌⊎◌, inl, inr, refl, true, false,
  Option, none, some, List, [], ◌∷◌, arith, Bool-cases,
}
use v2ray.App.Balancer.State.{
  OutboundState, BalancerMember, is_alive, latency_of, latency_loop, pick_latency_index,
  first_member_index, is_better,
}
use v2ray.App.Balancer.Alive.{AliveAt}

module _ (states : List ℕ → Option OutboundState) where
  -- The member with the index `i` is alive and has the latency `l`.
  abbrev pub LatencyAt : List BalancerMember → ℕ → ℕ → Type 0
  LatencyAt [] i l = ⊥
  LatencyAt (m ∷ ms) zero l = (is_alive states m.outbound_tag ≡ true) × (latency_of states m ≡ l)
  LatencyAt (m ∷ ms) (suc i) l = LatencyAt ms i l

  -- Nothing alive is better than `l` at `i`, and nothing in front is as good.
  abbrev pub IsLeast : List BalancerMember → ℕ → ℕ → Type 0
  IsLeast ms i l = (j k : ℕ) → LatencyAt ms j k → (l ≤ k) × (j < i → l < k)

  at_cons :
      (P : ℕ → ℕ → Type 0) (m : BalancerMember) (ms : List BalancerMember)
      → (is_alive states m.outbound_tag ≡ true → P 0 (latency_of states m))
      → ((j k : ℕ) → LatencyAt ms j k → P (suc j) k)
      → (j k : ℕ) → LatencyAt (m ∷ ms) j k
      → P j k
  at_cons P m ms head tail zero k h = subst (P 0) h.1 (head h.0)
  at_cons P m ms head tail (suc j) k h = tail j k h

  better_trans :
      (a l : ℕ) (best : Option (ℕ × ℕ)) → is_better a best ≡ true → l < a → is_better l best ≡ true
  better_trans a l none h lt = refl
  better_trans a l (some (b, _)) h lt = ground arith

  lt_of_better :
      (a l : ℕ) (best : Option (ℕ × ℕ)) → is_better a best ≡ false → is_better l best ≡ true → l < a
  lt_of_better a l none h g = ground arith
  lt_of_better a l (some (b, _)) h g = ground arith

  -- Nothing alive beats what the loop had.
  abbrev NoneBetter : List BalancerMember → Option (ℕ × ℕ) → Type 0
  NoneBetter ms best = (j k : ℕ) → LatencyAt ms j k → is_better k best ≡ false

  abbrev Found : List BalancerMember → Option (ℕ × ℕ) → ℕ → Option (ℕ × ℕ) → Type 0
  Found ms best idx r =
      (i : ℕ) × (l : ℕ) × (r ≡ some (l, idx + i))
      × LatencyAt ms i l
      × (is_better l best ≡ true)
      × IsLeast ms i l

  Found-later :
      (m : BalancerMember) (ms : List BalancerMember) (best best' r : Option (ℕ × ℕ)) (idx : ℕ)
      → ((l : ℕ)
          → is_better l best' ≡ true
          → (is_better l best ≡ true)
            × (is_alive states m.outbound_tag ≡ true → l < latency_of states m))
      → Found ms best' (suc idx) r
      → Found (m ∷ ms) best idx r
  Found-later m ms best best' r idx h (i, l, e, at, b, least) = (
    suc i,
    l,
    ground arith,
    at,
    (h l b).0,
    at_cons (λ j k. (l ≤ k) × (j < suc i → l < k)) m ms
        (λ a. let lt = (h l b).1 a in (omega arith, λ _. lt))
        (λ j k g. ((least j k g).0, λ lt. (least j k g).1 (omega arith))),
  )

  -- The loop ends with what it has, which no member beats, or with a least member that beats it.
  loop_result :
      (ms : List BalancerMember) (idx : ℕ) (best : Option (ℕ × ℕ))
      → ((latency_loop states ms idx best ≡ best) × NoneBetter ms best)
        ⊎ Found ms best idx (latency_loop states ms idx best)
  unfolding latency_loop
  loop_result [] idx best = inl (refl, λ j k h. elim h [ ])
  loop_result (m ∷ ms) idx best = elim (Bool-cases (is_alive states m.outbound_tag)) [
    | inr dead ↦ rw dead (elim (loop_result ms (suc idx) best) [
      | inl (e, n) ↦
          inl (e, at_cons (λ j k. is_better k best ≡ false) m ms (λ a. absurd (ground arith)) n)
      | inr found ↦
          inr (Found-later m ms best best _ idx (λ l b. (b, λ a. absurd (ground arith))) found)
    ])
    | inl a ↦ elim (Bool-cases (is_better (latency_of states m) best)) [
      | inl b ↦
          rw (a, b)
            (elim (loop_result ms (suc idx) (some (latency_of states m, idx))) [
              | inl (e, n) ↦ inr (
                0,
                latency_of states m,
                ground arith,
                (a, refl),
                b,
                at_cons (λ j k. (latency_of states m ≤ k) × (j < 0 → latency_of states m < k)) m ms
                    (λ _. (omega arith, λ lt. absurd (omega arith)))
                    (λ j k g.
                      (ltb→le k (latency_of states m) (n j k g), λ lt. absurd (omega arith))),
              )
              | inr found ↦ inr (
                  Found-later m ms best (some (latency_of states m, idx)) _ idx
                    (λ l b'. (
                      better_trans (latency_of states m) l best b (ltb→lt _ _ b'),
                      λ _. ltb→lt _ _ b',
                    ))
                    found)
            ])
      | inr b ↦
          rw (a, b)
            (elim (loop_result ms (suc idx) best) [
              | inl (e, n) ↦ inl (e, at_cons (λ j k. is_better k best ≡ false) m ms (λ _. b) n)
              | inr found ↦ inr (
                  Found-later m ms best best _ idx (λ l b'. (b', λ _. lt_of_better _ l best b b'))
                    found)
            ])
    ]
  ]

  alive_latency :
      (ms : List BalancerMember) (i : ℕ) → AliveAt states ms i → (l : ℕ) × LatencyAt ms i l
  alive_latency [] i h = elim h [ ]
  alive_latency (m ∷ ms) zero h = (latency_of states m, (h, refl))
  alive_latency (m ∷ ms) (suc i) h = alive_latency ms i h

  -- The latency strategy picks the first member if none is alive. Otherwise it picks a living member:
  -- no living member has a smaller latency, and none in front of it has the same.
  pub pick_latency_index-IsLeast :
      (ms : List BalancerMember)
      → ((pick_latency_index states ms ≡ first_member_index ms) × ((i : ℕ) → ¬ AliveAt states ms i))
        ⊎ ((i : ℕ) × (l : ℕ) × (pick_latency_index states ms ≡ some i)
            × LatencyAt ms i l
            × IsLeast ms i l)
  unfolding pick_latency_index
  pick_latency_index-IsLeast ms = elim (loop_result ms 0 none) [
    | inl (e, n) ↦ inl (
      ground arith,
      λ i a. let (l, at) = alive_latency ms i a in let b = n i l at in absurd (ground arith),
    )
    | inr (i, l, e, at, _, least) ↦ inr (i, l, ground arith, at, least)
  ]
