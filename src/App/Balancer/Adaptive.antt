-- ===== src/App/Balancer/Adaptive.antt =====
-- The adaptive strategy of balancer.rs: cooldowns, scores and the choice.
use v2ray.Prelude.{
  ℕ, zero, suc, ◌+◌, ◌-◌, ◌%◌, ◌^◌, Bool, true, not, ◌&&◌, Option, none, some, List, [], ◌∷◌, leb,
  get_elem?, if◌then◌else◌, min, max,
}
use v2ray.Common.Result.{Result, ok, panic, ◌>>=◌}
use v2ray.App.Balancer.State.{
  Std, OutboundState, BalancerMember, AdaptiveState, AdaptiveRuntime, AdaptiveBalancerConfig,
  Balancer, is_in_cooldown, is_alive,
}

-- `state[idx]`
abbrev pub state_at : {F : Type 0} → List (AdaptiveState F) → ℕ → Result (AdaptiveState F)
state_at states idx = elim (get_elem? states idx) [ none ↦ panic | some s ↦ ok s ]

-- `state[idx] = s`
abbrev pub put_state :
    {F : Type 0} → List (AdaptiveState F) → ℕ → AdaptiveState F → List (AdaptiveState F)
put_state [] idx s = []
put_state (x ∷ xs) zero s = s ∷ xs
put_state (x ∷ xs) (suc idx) s = x ∷ put_state xs idx s

unfoldable pub probe_failures : (List ℕ → Option OutboundState) → BalancerMember → ℕ
probe_failures states m = elim (states m.outbound_tag) [
  | none ↦ 0
  | some s ↦ s.consecutive_failures
]

-- `now + Duration::from_secs(secs)` panics when the instant cannot be represented.
abbrev pub instant_add : (ℕ → Bool) → ℕ → ℕ → Result ℕ
instant_add representable now secs = if representable (now + secs) then ok (now + secs) else panic

module _ {F : Type 0} (representable : ℕ → Bool) where
  unfoldable pub cool :
      AdaptiveBalancerConfig F → ℕ → ℕ → AdaptiveState F → Result (AdaptiveState F)
  cool c failures now s =
      if leb c.failure_threshold failures && not (is_in_cooldown s now)
      then (do
        until ← instant_add representable now c.cooldown_secs
        ok (record s { cooldown_until = some until }))
      else ok s

  -- The loop of `apply_probe_cooldowns` goes through the members and their states side by side.
  unfoldable pub apply_probe_cooldowns :
      AdaptiveBalancerConfig F
      → (List ℕ → Option OutboundState)
      → ℕ
      → List BalancerMember
      → List (AdaptiveState F)
      → Result (List (AdaptiveState F))
  apply_probe_cooldowns c states now [] ss = ok ss
  apply_probe_cooldowns c states now (m ∷ ms) [] = panic
  apply_probe_cooldowns c states now (m ∷ ms) (s ∷ ss) = do
    cooled ← cool c (probe_failures states m) now s
    rest ← apply_probe_cooldowns c states now ms ss
    ok (cooled ∷ rest)

module _ (f : Std) where
  unfoldable pub success_rate : AdaptiveState f.F → f.F
  success_rate s = elim s.attempts [
    | zero ↦ f.decimal 10 1
    | suc _ ↦ f.div (f.of_int s.successes) (f.of_int s.attempts)
  ]

  -- `.filter(..).unwrap_or(5000.0)`
  abbrev usable : Option f.F → f.F
  usable none = f.decimal 50000 1
  usable (some l) = if f.is_finite l && f.lt l (f.of_int (2 ^ 64 - 1)) then l else f.decimal 50000 1

  abbrev measured : Option OutboundState → Option f.F → Option f.F
  measured health (some l) = some l
  measured none none = none
  measured (some s) none = some (f.of_int s.latency_ms)

  abbrev failures_of : Option OutboundState → ℕ
  failures_of none = 0
  failures_of (some h) = h.consecutive_failures

  unfoldable pub adaptive_score :
      AdaptiveBalancerConfig f.F → Option OutboundState → AdaptiveState f.F → f.F
  adaptive_score c health s =
      let latency_ms = usable (measured health s.ewma_latency_ms) in
      let latency_score =
        f.sub (f.decimal 10 1)
          (f.clamp (f.div latency_ms (f.decimal 50000 1)) (f.decimal 0 1) (f.decimal 10 1)) in
      let health_failures = failures_of health in
      let failure_budget = f.of_int (max c.failure_threshold 1) in
      let failures = f.of_int ((health_failures + s.consecutive_failures) % 2 ^ 32) in
      let stability_score =
        f.sub (f.decimal 10 1)
          (f.clamp (f.div failures failure_budget) (f.decimal 0 1) (f.decimal 10 1)) in
      f.add (f.add (f.mul (f.decimal 50 2) (success_rate s)) (f.mul (f.decimal 30 2) latency_score))
        (f.mul (f.decimal 20 2) stability_score)

  abbrev pub beats : f.F → Option (ℕ × f.F) → Bool
  beats score none = true
  beats score (some (_, best)) = f.gt score best

  abbrev pub score_of : Balancer f.F → BalancerMember → AdaptiveState f.F → f.F
  score_of b m s = adaptive_score b.adaptive_config (b.states m.outbound_tag) s

  -- The loop over the members: the best one that is alive and not in cooldown.
  unfoldable pub best_loop :
      Balancer f.F
      → List (AdaptiveState f.F)
      → ℕ
      → List BalancerMember
      → ℕ
      → Option (ℕ × f.F)
      → Result (Option (ℕ × f.F))
  best_loop b states now [] idx best = ok best
  best_loop b states now (m ∷ ms) idx best =
      let rest = best_loop b states now ms (suc idx) in
      if not (is_alive b.states m.outbound_tag)
      then rest best
      else state_at states idx >>= λ s.
          if is_in_cooldown s now
          then rest best
          else if beats (score_of b m s) best
          then rest (some (idx, score_of b m s))
          else rest best

  -- `current_idx`, unless the best one is better by more than the margin
  abbrev keep_or_switch : Balancer f.F → ℕ → ℕ → f.F → ℕ → BalancerMember → AdaptiveState f.F → ℕ
  keep_or_switch b now best_idx best_score current m s =
      if is_in_cooldown s now
      then best_idx
      else if f.ge (f.add (score_of b m s) b.adaptive_config.switch_margin) best_score
      then current
      else best_idx

  unfoldable pub select :
      Balancer f.F → List (AdaptiveState f.F) → ℕ → Option (ℕ × f.F) → Option ℕ → Result ℕ
  select b states now none current = ok 0
  select b states now (some (best_idx, best_score)) none = ok best_idx
  select b states now (some (best_idx, best_score)) (some current) =
      elim (get_elem? b.members current) [
        | none ↦ ok best_idx
        | some m ↦
            if not (is_alive b.states m.outbound_tag)
            then ok best_idx
            else state_at states current >>= λ s.
                ok (keep_or_switch b now best_idx best_score current m s)
      ]

  -- `last_selected` and `current`, if there is such a state
  abbrev pub remember : AdaptiveRuntime f.F → ℕ → ℕ → AdaptiveRuntime f.F
  remember r now selected = elim (get_elem? r.members selected) [
    | none ↦ r
    | some s ↦ record {
      members = put_state r.members selected (record s { last_selected = some now });
      current = some selected;
    }
  ]

  unfoldable pub pick_adaptive_index : Balancer f.F → ℕ → Result (Option ℕ × Balancer f.F)
  pick_adaptive_index b now = do
    states ←
        apply_probe_cooldowns f.representable b.adaptive_config b.states now b.members
          b.adaptive.members
    best ← best_loop b states now b.members 0 none
    selected ← select b states now best b.adaptive.current
    ok (
      elim (get_elem? b.members selected) [ none ↦ none | some _ ↦ some selected ],
      record b { adaptive = remember (record b.adaptive { members = states }) now selected },
    )

  -- `observe_connect_result`: `elapsed` is the time in milliseconds.
  abbrev pub succeeded : AdaptiveBalancerConfig f.F → f.F → AdaptiveState f.F → AdaptiveState f.F
  succeeded c sample s =
      let alpha = f.clamp c.ewma_alpha (f.decimal 1 2) (f.decimal 10 1) in
      record s {
        attempts = min (s.attempts + 1) (2 ^ 64 - 1);
        successes = min (s.successes + 1) (2 ^ 64 - 1);
        consecutive_failures = 0;
        ewma_latency_ms = some (elim s.ewma_latency_ms [
          | some prev ↦ f.add (f.mul alpha sample) (f.mul (f.sub (f.decimal 10 1) alpha) prev)
          | none ↦ sample
        ]);
      }

  unfoldable pub failed :
      AdaptiveBalancerConfig f.F → ℕ → AdaptiveState f.F → Result (AdaptiveState f.F)
  failed c now s =
      let counted : AdaptiveState f.F = record s {
        attempts = min (s.attempts + 1) (2 ^ 64 - 1);
        consecutive_failures = min (s.consecutive_failures + 1) (2 ^ 32 - 1);
      } in
      if leb c.failure_threshold counted.consecutive_failures
      then (do
        until ← instant_add f.representable now c.cooldown_secs
        ok (record counted { cooldown_until = some until }))
      else ok counted
