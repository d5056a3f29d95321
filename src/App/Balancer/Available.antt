-- ===== src/App/Balancer/Available.antt =====
-- What the loop and the selection of `pick_adaptive_index` find.
use v2ray.Prelude.{
  subst, get_elem?-bound, Option-cases, get_elem?-within, ℕ, zero, suc, ◌+◌, ◌≤◌, ◌≡◌, ◌⊎◌, inl,
  inr, refl, true, false, Option, none, some, List, [], ◌∷◌, arith, length, get_elem?, Bool-cases,
}
use v2ray.Common.Result.{Result, ok}
use v2ray.App.Balancer.State.{
  Std, BalancerMember, AdaptiveState, Balancer, is_alive, is_in_cooldown,
}
use v2ray.App.Balancer.Adaptive.{score_of, best_loop, select, state_at, beats}
use v2ray.App.Balancer.Alive.{AliveAt-entry, AliveAt, AliveAt-entry}

module _ (f : Std) (b : Balancer f.F) (rs : List (AdaptiveState f.F)) (now : ℕ) where
  -- No living member is without a cooldown.
  abbrev pub NoneWarm : List BalancerMember → ℕ → Type 0
  NoneWarm ms idx =
      (j : ℕ) (s : AdaptiveState f.F)
      → AliveAt b.states ms j
      → get_elem? rs (idx + j) ≡ some s
      → is_in_cooldown s now ≡ true

  -- The loop has found a living member, or leaves what it had, and had something if it could.
  abbrev pub BestOf : List BalancerMember → ℕ → Option (ℕ × f.F) → Option (ℕ × f.F) → Type 0
  BestOf ms idx best r =
      ((i : ℕ) × (x : f.F) × (r ≡ some (idx + i, x)) × AliveAt b.states ms i)
      ⊎ ((r ≡ best) × (best ≡ none → NoneWarm ms idx))

  NoneWarm-cons :
      (m : BalancerMember) (ms : List BalancerMember) (idx : ℕ)
      → ((s : AdaptiveState f.F)
          → is_alive b.states m.outbound_tag ≡ true
          → get_elem? rs idx ≡ some s
          → is_in_cooldown s now ≡ true)
      → NoneWarm ms (suc idx)
      → NoneWarm (m ∷ ms) idx
  NoneWarm-cons m ms idx head tail zero s a e = head s a (ground arith)
  NoneWarm-cons m ms idx head tail (suc j) s a e = tail j s a (ground arith)

  BestOf-later :
      (m : BalancerMember) (ms : List BalancerMember) (idx : ℕ) (best r : Option (ℕ × f.F))
      → ((s : AdaptiveState f.F)
          → is_alive b.states m.outbound_tag ≡ true
          → get_elem? rs idx ≡ some s
          → is_in_cooldown s now ≡ true)
      → BestOf ms (suc idx) best r
      → BestOf (m ∷ ms) idx best r
  BestOf-later m ms idx best r head (inl (i, x, e, a)) = inl (suc i, x, ground arith, a)
  BestOf-later m ms idx best r head (inr (e, n)) = inr (e, λ g. NoneWarm-cons m ms idx head (n g))

  BestOf-here :
      (m : BalancerMember) (ms : List BalancerMember) (idx : ℕ) (x : f.F)
      (best r : Option (ℕ × f.F))
      → is_alive b.states m.outbound_tag ≡ true
      → BestOf ms (suc idx) (some (idx, x)) r
      → BestOf (m ∷ ms) idx best r
  BestOf-here m ms idx x best r a (inl (i, y, e, g)) = inl (suc i, y, ground arith, g)
  BestOf-here m ms idx x best r a (inr (e, n)) = inl (0, x, ground arith, a)

  BestOf-kept :
      (m : BalancerMember) (ms : List BalancerMember) (idx : ℕ) (x : f.F)
      (best r : Option (ℕ × f.F))
      → beats f x best ≡ false
      → BestOf ms (suc idx) best r
      → BestOf (m ∷ ms) idx best r
  BestOf-kept m ms idx x best r k (inl (i, y, e, g)) = inl (suc i, y, ground arith, g)
  BestOf-kept m ms idx x none r k (inr (e, n)) = absurd (ground arith)
  BestOf-kept m ms idx x (some y) r k (inr (e, n)) = inr (e, λ g. absurd (ground arith))

  same_entry :
      (idx : ℕ) (s t : AdaptiveState f.F)
      → get_elem? rs idx ≡ some s
      → is_in_cooldown s now ≡ true
      → get_elem? rs idx ≡ some t
      → is_in_cooldown t now ≡ true
  same_entry idx s t es cold et = ground arith

  state_at-entry :
      (idx : ℕ) (s : AdaptiveState f.F) → get_elem? rs idx ≡ some s → state_at rs idx ≡ ok s
  state_at-entry idx s e = ground arith

  pub best_loop-BestOf :
      (ms : List BalancerMember) (idx : ℕ) (best : Option (ℕ × f.F))
      → idx + length ms ≤ length rs
      → (r : Option (ℕ × f.F)) × (best_loop f b rs now ms idx best ≡ ok r) × BestOf ms idx best r
  unfolding best_loop
  best_loop-BestOf [] idx best h = (best, refl, inr (refl, λ _ j s a. elim a [ ]))
  best_loop-BestOf (m ∷ ms) idx best h =
      let (s, es) = get_elem?-within rs idx (omega arith) in
      elim (Bool-cases (is_alive b.states m.outbound_tag)) [
        | inr dead ↦
            let (r, e, g) = best_loop-BestOf ms (suc idx) best (omega arith) in
            (r, rw dead e, BestOf-later m ms idx best r (λ _ a _. absurd (ground arith)) g)
        | inl a ↦ elim (Bool-cases (is_in_cooldown s now)) [
          | inl cold ↦
              let (r, e, g) = best_loop-BestOf ms (suc idx) best (omega arith) in
              (
                r,
                rw (a, state_at-entry idx s es, cold) e,
                BestOf-later m ms idx best r (λ t _. same_entry idx s t es cold) g,
              )
          | inr warm ↦ elim (Bool-cases (beats f (score_of f b m s) best)) [
            | inl better ↦
                let (r, e, g) =
                  best_loop-BestOf ms (suc idx) (some (idx, score_of f b m s)) (omega arith) in
                (
                  r,
                  rw (a, state_at-entry idx s es, warm, better) e,
                  BestOf-here m ms idx _ best r a g,
                )
            | inr worse ↦
                let (r, e, g) = best_loop-BestOf ms (suc idx) best (omega arith) in
                (
                  r,
                  rw (a, state_at-entry idx s es, warm, worse) e,
                  BestOf-kept m ms idx _ best r worse g,
                )
          ]
        ]
      ]

  -- The choice: a living member, or the first one if the loop has found nothing.
  abbrev pub Chosen : Option (ℕ × f.F) → Result ℕ → Type 0
  Chosen r picked =
      (i : ℕ) × (picked ≡ ok i) × (AliveAt b.states b.members i ⊎ ((r ≡ none) × (i ≡ 0)))

  select-current :
      (best_idx : ℕ) (x : f.F) (current : ℕ)
      → AliveAt b.states b.members best_idx
      → length rs ≡ length b.members
      → Chosen (some (best_idx, x)) (select f b rs now (some (best_idx, x)) (some current))
  unfolding select
  select-current best_idx x current a h = elim (Option-cases (get_elem? b.members current)) [
    | inl e ↦ (best_idx, ground arith, inl a)
    | inr (m, e) ↦ elim (Bool-cases (is_alive b.states m.outbound_tag)) [
      | inr dead ↦ (best_idx, ground arith, inl a)
      | inl living ↦
          let (s, es) =
            get_elem?-within rs current (rw h (get_elem?-bound b.members current m e)) in
          elim (Bool-cases (is_in_cooldown s now)) [
            | inl cold ↦ (best_idx, ground arith, inl a)
            | inr warm ↦
                elim (Bool-cases
                  (f.ge (f.add (score_of f b m s) b.adaptive_config.switch_margin) x)) [
                    | inl keep ↦ (
                      current,
                      ground arith,
                      inl (AliveAt-entry b.states b.members current m e living),
                    )
                    | inr switch ↦ (best_idx, ground arith, inl a)
                  ]
          ]
    ]
  ]

  BestOf-alive :
      (i : ℕ) (x : f.F) → BestOf b.members 0 none (some (i, x)) → AliveAt b.states b.members i
  BestOf-alive i x (inl (j, y, e, a)) =
      let same : j ≡ i = ground arith in subst (AliveAt b.states b.members) same a
  BestOf-alive i x (inr (e, n)) = absurd (ground arith)

  pub select-Chosen :
      (r : Option (ℕ × f.F)) (current : Option ℕ)
      → length rs ≡ length b.members
      → BestOf b.members 0 none r
      → Chosen r (select f b rs now r current)
  unfolding select
  select-Chosen none current h g = (0, refl, inr (refl, refl))
  select-Chosen (some (i, x)) none h g = (i, refl, inl (BestOf-alive i x g))
  select-Chosen (some (i, x)) (some c) h g = select-current i x c (BestOf-alive i x g) h
