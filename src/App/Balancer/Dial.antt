-- ===== src/App/Balancer/Dial.antt =====
-- `connect` of balancer.rs from the call of a member's outbound.
use v2ray.Prelude.{
  ◌∙◌, ℕ, ◌+◌, ◌-◌, ◌^◌, ◌<◌, ◌≡◌, ◌⊎◌, sym, inl, inr, refl, Bool, true, false, none, some, List,
  [], ◌∷◌, arith, length, get_elem?, get_elem?-within, Option-cases, Bool-cases, leb, min,
}
use v2ray.Common.Result.{Result, ok, err, protocol, no_outbounds}
use v2ray.App.Balancer.State.{
  Std, BalancerMember, AdaptiveState, AdaptiveBalancerConfig, Balancer, Strategy, latency,
  round_robin, random, adaptive, first_member_index, alive_count, pick_latency_index, latency_loop,
}
use v2ray.App.Balancer.Adaptive.{
  remember, best_loop, select, pick_adaptive_index, apply_probe_cooldowns, put_state, succeeded,
  failed,
}
use v2ray.App.Balancer.Pick.{
  observed, pick_slot, pick_member_index, observe_connect_result, connect, is_ok,
}
use v2ray.App.Balancer.Cooldown.{IsPaired}
use v2ray.App.Balancer.Serve.{pick_member_index-Serves, length-put_state}

empty_or_not : {A : Type 0} (xs : List A) → (xs ≡ []) ⊎ (0 < length xs)
empty_or_not [] = inl refl
empty_or_not (x ∷ xs) = inr (omega arith)

-- What the call returns, if it returns, is a balancer with the members of `b` in which members and
-- states are paired.
abbrev Keeps : {F : Type 0} → Balancer F → Result (Balancer F) → Type 0
Keeps {F} b r = (c : Balancer F) × (r ≡ ok c) × IsPaired c × (c.members ≡ b.members)

module _ (f : Std) where
  -- The end of a cooldown that starts at `now` can be represented, where there are cooldowns.
  abbrev pub HasEnd : Balancer f.F → ℕ → Type 0
  HasEnd b now =
      b.strategy ≡ adaptive → f.representable (now + b.adaptive_config.cooldown_secs) ≡ true

  observed-Returns :
      (c : AdaptiveBalancerConfig f.F) (now : ℕ) (elapsed : f.F) (went_well : Bool)
      (s : AdaptiveState f.F)
      → f.representable (now + c.cooldown_secs) ≡ true
      → (entry : AdaptiveState f.F) × (observed f c now elapsed went_well s ≡ ok entry)
  unfolding observed failed
  observed-Returns c now elapsed true s h = (succeeded f c elapsed s, refl)
  observed-Returns c now elapsed false s h =
      let counted : AdaptiveState f.F = record s {
        attempts = min (s.attempts + 1) (2 ^ 64 - 1);
        consecutive_failures = min (s.consecutive_failures + 1) (2 ^ 32 - 1);
      } in
      elim (Bool-cases (leb c.failure_threshold counted.consecutive_failures)) [
        | inl e ↦ (record counted { cooldown_until = some (now + c.cooldown_secs) }, rw (e, h) refl)
        | inr e ↦ (counted, rw e refl)
      ]

  put_state-IsPaired :
      (b : Balancer f.F) (idx : ℕ) (entry : AdaptiveState f.F)
      → IsPaired b
      → IsPaired (record b {
        adaptive = record b.adaptive { members = put_state b.adaptive.members idx entry };
      })
  put_state-IsPaired b idx entry p = length-put_state b.adaptive.members idx entry ∙ p

  observe-Keeps :
      (b : Balancer f.F) (idx now : ℕ) (elapsed : f.F) (went_well : Bool) (s : Strategy)
      → b.strategy ≡ s
      → HasEnd b now
      → IsPaired b
      → Keeps b (observe_connect_result f b idx now elapsed went_well)
  unfolding observe_connect_result
  observe-Keeps b idx now elapsed went_well latency e h p =
      (b, simp (observe_connect_result, e) refl, p, refl)
  observe-Keeps b idx now elapsed went_well round_robin e h p =
      (b, simp (observe_connect_result, e) refl, p, refl)
  observe-Keeps b idx now elapsed went_well random e h p =
      (b, simp (observe_connect_result, e) refl, p, refl)
  observe-Keeps b idx now elapsed went_well adaptive e h p =
      elim (Option-cases (get_elem? b.members idx)) [
        | inl n ↦ (b, simp (observe_connect_result, e, n) refl, p, refl)
        | inr (m, em) ↦ elim (Option-cases (get_elem? b.adaptive.members idx)) [
          | inl n ↦ (b, simp (observe_connect_result, e, em, n) refl, p, refl)
          | inr (s, es) ↦
              let (entry, o) = observed-Returns b.adaptive_config now elapsed went_well s (h e) in
              (
                record b {
                  adaptive = record b.adaptive { members = put_state b.adaptive.members idx entry };
                },
                simp (observe_connect_result, e, em, es, o) refl,
                put_state-IsPaired b idx entry p,
                refl,
              )
        ]
      ]

  pick_empty :
      (s : Strategy) (b : Balancer f.F) (now : ℕ)
      → b.strategy ≡ s
      → b.members ≡ []
      → (c : Balancer f.F) × (pick_member_index f b now ≡ ok (none, c))
  unfolding pick_member_index pick_slot pick_latency_index latency_loop first_member_index
      alive_count pick_adaptive_index apply_probe_cooldowns best_loop select
  pick_empty latency b now e h = (b, ground arith)
  pick_empty round_robin b now e h = (b, ground arith)
  pick_empty random b now e h = (b, ground arith)
  pick_empty adaptive b now e h =
      (record b { adaptive = remember f b.adaptive now 0 }, ground arith)

  -- Whatever the outbounds do, where the ends of cooldowns that start before the call or after it can
  -- be represented: `connect` of a balancer with members hands on what one of its members' outbounds
  -- returns, and keeps members and states paired. Without members it fails with an error.
  pub connect-dials :
      {S : Type 0} (dial : BalancerMember → Result S) (b : Balancer f.F) (now later : ℕ)
      (elapsed : f.F)
      → HasEnd b now
      → HasEnd b later
      → IsPaired b
      → ((b.members ≡ []) × (connect f dial b now later elapsed ≡ err (protocol no_outbounds)))
        ⊎ ((i : ℕ) × (m : BalancerMember) × (c : Balancer f.F) × (connect f dial b now later elapsed
              ≡ ok (dial m, c))
            × (get_elem? b.members i ≡ some m)
            × (c.members ≡ b.members)
            × IsPaired c)
  unfolding connect
  connect-dials dial b now later elapsed h k p = elim (empty_or_not b.members) [
    | inl e ↦ let (c, picked) = pick_empty b.strategy b now refl e in inl (e, rw picked refl)
    | inr some_member ↦
        let (i, c, picked, within, (same, strategy, config), paired, _) =
          pick_member_index-Serves f b now h some_member p in
        let (m, em) = get_elem?-within b.members i within in
        let there : get_elem? c.members i ≡ some m = rw same em in
        let (d, seen, kept, still) =
          observe-Keeps c i later elapsed (is_ok f (dial m)) c.strategy refl
            (λ e. rw config (k (sym strategy ∙ e))) paired in
        inr (i, m, d, ground arith, em, still ∙ same, kept)
  ]
