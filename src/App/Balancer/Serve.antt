-- ===== src/App/Balancer/Serve.antt =====
-- Whatever the strategy, a pick is a member, and one that is available if there is one.
use native.Mathlib.Nat.{mod-lt}
use v2ray.Prelude.{
  ◌*◌, ◌^◌, subst, ◌%◌, Option-cases, ℕ, zero, suc, ◌+◌, ◌<◌, ◌≡◌, ◌⊎◌, inl, inr, refl, Option,
  true, none, some, List, [], ◌∷◌, arith, length, get_elem?, get_elem?-within, Option-cases,
}
use v2ray.Common.Result.{Result, ok}
use v2ray.App.Balancer.State.{
  AdaptiveRuntime, Std, BalancerMember, AdaptiveState, OutboundState, Balancer, Strategy, latency,
  round_robin, random, adaptive, first_member_index, alive_count, nth_alive_index,
  pick_latency_index,
}
use v2ray.App.Balancer.Adaptive.{remember, pick_adaptive_index, put_state}
use v2ray.App.Balancer.Pick.{pick_slot, pick_member_index}
use v2ray.App.Balancer.Alive.{rank-lt, AliveAt, AliveAt-within, nth_loop-finds}
use v2ray.App.Balancer.Least.{LatencyAt, pick_latency_index-IsLeast}
use v2ray.App.Balancer.Available.{BestOf, best_loop-BestOf, select-Chosen}
use v2ray.App.Balancer.Cooldown.{
  IsPaired, WarmAt, cool_all, length-cool_all, apply-cool_all, warm_entry,
}

first_member : (ms : List BalancerMember) → 0 < length ms → first_member_index ms ≡ some 0
unfolding first_member_index
first_member [] h = absurd (omega arith)
first_member (m ∷ ms) h = refl

living :
    (states : List ℕ → Option OutboundState) (ms : List BalancerMember) (i l : ℕ)
    → LatencyAt states ms i l
    → AliveAt states ms i
living states [] i l h = h
living states (m ∷ ms) zero l h = h.0
living states (m ∷ ms) (suc i) l h = living states ms i l h

pub length-put_state :
    {F : Type 0} (xs : List (AdaptiveState F)) (i : ℕ) (s : AdaptiveState F)
    → length (put_state xs i s) ≡ length xs
length-put_state [] i s = refl
length-put_state (x ∷ xs) zero s = refl
length-put_state (x ∷ xs) (suc i) s = omega (arith, length-put_state xs i s)

module _ (f : Std) (b : Balancer f.F) (now : ℕ) where
  -- A member that the strategy may pick: it is alive, and adaptively not in cooldown.
  abbrev pub IsAvailable : ℕ → Type 0
  IsAvailable i =
      AliveAt b.states b.members i
      × (b.strategy ≡ adaptive
          → WarmAt b.adaptive_config b.states now b.members b.adaptive.members i)

  -- What a pick leaves as it was.
  abbrev pub IsAlike : Balancer f.F → Type 0
  IsAlike c =
      (c.members ≡ b.members) × (c.strategy ≡ b.strategy) × (c.adaptive_config ≡ b.adaptive_config)

  -- The call returns a member, a living one unless none is available, and keeps members and states
  -- paired.
  abbrev pub Serves : Result (Option ℕ × Balancer f.F) → Type 0
  Serves r =
      (i : ℕ) × (c : Balancer f.F) × (r ≡ ok (some i, c))
      × (i < length b.members)
      × IsAlike c
      × IsPaired c
      × (AliveAt b.states b.members i ⊎ ((j : ℕ) → ¬ IsAvailable j))

  latency-Serves :
      0 < length b.members → IsPaired b → Serves (ok (pick_latency_index b.states b.members, b))
  latency-Serves some_member paired = elim (pick_latency_index-IsLeast b.states b.members) [
    | inl (e, n) ↦ (
      0,
      b,
      rw (e, first_member b.members some_member) refl,
      some_member,
      (refl, refl, refl),
      paired,
      inr (λ j a. n j a.0),
    )
    | inr (i, l, e, at, _) ↦
        let a = living b.states b.members i l at in
        (i, b, rw e refl, AliveAt-within b.states b.members i a, (refl, refl, refl), paired, inl a)
  ]

  slot_of :
      (n : ℕ) (mix : ℕ → ℕ)
      → alive_count b.states b.members ≡ n
      → 0 < length b.members
      → IsPaired b
      → Serves (ok (pick_slot f b mix))
  unfolding pick_slot nth_alive_index
  slot_of zero mix e some_member paired = (
    0,
    b,
    ground (arith, first_member b.members some_member),
    some_member,
    (refl, refl, refl),
    paired,
    inr (λ j a. absurd (omega (arith, rank-lt b.states b.members j a.0))),
  )
  slot_of (suc n) mix e some_member paired =
      let small = mod-lt (mix b.rr_counter) {m = suc n} (omega arith) in
      let (i, found, a) =
        nth_loop-finds b.states b.members 0 0 (mix b.rr_counter % suc n) (omega arith)
          (omega arith) in
      (
        i,
        record b { rr_counter = (b.rr_counter + 1) % 2 ^ 64 },
        ground arith,
        AliveAt-within b.states b.members i a,
        (refl, refl, refl),
        paired,
        inl a,
      )

  slot-Serves : (mix : ℕ → ℕ) → 0 < length b.members → IsPaired b → Serves (ok (pick_slot f b mix))
  unfolding pick_slot nth_alive_index
  slot-Serves mix some_member paired = slot_of _ mix refl some_member paired

  remembered :
      (rs : List (AdaptiveState f.F)) (i : ℕ)
      → length rs ≡ length b.members
      → length (AdaptiveRuntime.members (remember f (record b.adaptive { members = rs }) now i))
        ≡ length b.members
  remembered rs i h = elim (Option-cases (get_elem? rs i)) [
    | inl e ↦ ground arith
    | inr (s, e) ↦ ground (arith, length-put_state rs i (record s { last_selected = some now }))
  ]

  -- Where the loop finds nothing, nothing is available.
  none-IsAvailable :
      (r : Option (ℕ × f.F)) (j : ℕ)
      → BestOf f b
          (cool_all b.adaptive_config b.states now b.members b.adaptive.members)
          now
          b.members
          0
          none
          r
      → r ≡ none
      → b.strategy ≡ adaptive
      → ¬ IsAvailable j
  none-IsAvailable r j (inl (i, x, e, a)) rn s (living, warm) = ground arith
  none-IsAvailable r j (inr (e, n)) rn s (living, warm) =
      let (t, et, wt) =
        warm_entry b.adaptive_config b.states now b.members b.adaptive.members j (warm s) in
      let same : 0 + j ≡ j = omega arith in
      let cold = n refl j t living (rw same et) in ground arith

  chosen_within :
      (r : Option (ℕ × f.F)) (i : ℕ)
      → 0 < length b.members
      → AliveAt b.states b.members i ⊎ ((r ≡ none) × (i ≡ 0))
      → i < length b.members
  chosen_within r i some_member (inl a) = AliveAt-within b.states b.members i a
  chosen_within r i some_member (inr (_, e)) = omega arith

  chosen_alive :
      (r : Option (ℕ × f.F)) (i : ℕ)
      → BestOf f b
          (cool_all b.adaptive_config b.states now b.members b.adaptive.members)
          now
          b.members
          0
          none
          r
      → b.strategy ≡ adaptive
      → AliveAt b.states b.members i ⊎ ((r ≡ none) × (i ≡ 0))
      → AliveAt b.states b.members i ⊎ ((j : ℕ) → ¬ IsAvailable j)
  chosen_alive r i g s (inl a) = inl a
  chosen_alive r i g s (inr (e, _)) = inr (λ j. none-IsAvailable r j g e s)

  adaptive-Serves :
      f.representable (now + b.adaptive_config.cooldown_secs) ≡ true
      → 0 < length b.members
      → IsPaired b
      → b.strategy ≡ adaptive
      → Serves (pick_adaptive_index f b now)
  unfolding pick_adaptive_index
  adaptive-Serves fits some_member paired s =
      let rs = cool_all b.adaptive_config b.states now b.members b.adaptive.members in
      let h = length-cool_all b.adaptive_config b.states now b.members b.adaptive.members paired in
      let (r, e, g) = best_loop-BestOf f b rs now b.members 0 none (omega arith) in
      let (i, e', c) = select-Chosen f b rs now r b.adaptive.current h g in
      let within = chosen_within r i some_member c in
      let (m, em) = get_elem?-within b.members i within in
      (
        i,
        record b { adaptive = remember f (record b.adaptive { members = rs }) now i },
        rw
            (
              apply-cool_all b.adaptive_config b.states now b.members b.adaptive.members
                  f.representable fits paired,
              e,
              e',
              em,
            )
            refl,
        within,
        (refl, refl, refl),
        remembered rs i h,
        chosen_alive r i g s c,
      )

  pub by_strategy :
      (s : Strategy)
      → b.strategy ≡ s
      → (b.strategy ≡ adaptive → f.representable (now + b.adaptive_config.cooldown_secs) ≡ true)
      → 0 < length b.members
      → IsPaired b
      → Serves (pick_member_index f b now)
  unfolding pick_member_index
  by_strategy latency e fits h p = subst Serves (ground arith) (latency-Serves h p)
  by_strategy round_robin e fits h p = subst Serves (ground arith) (slot-Serves (λ c. c) h p)
  by_strategy random e fits h p =
      subst Serves (ground arith) (slot-Serves (λ c. c * 0x9E3779B97F4A7C15 % 2 ^ 64) h p)
  by_strategy adaptive e fits h p = subst Serves (ground arith) (adaptive-Serves (fits e) h p e)

  -- In a balancer with a member and one adaptive state for each, and with every strategy, the call
  -- returns a member, does not panic and keeps members and states paired; with the adaptive strategy
  -- the end of a cooldown that starts now must be an instant that can be represented. The member is
  -- alive if any is; with the adaptive strategy, if any is alive and not in cooldown.
  pub pick_member_index-Serves :
      (b.strategy ≡ adaptive → f.representable (now + b.adaptive_config.cooldown_secs) ≡ true)
      → 0 < length b.members
      → IsPaired b
      → Serves (pick_member_index f b now)
  unfolding pick_member_index
  pick_member_index-Serves fits some_member paired =
      by_strategy b.strategy refl fits some_member paired
