-- ===== src/Runs/Balancer.antt =====
-- Balancers with three members, of which one is dead. The numbers of the type f64 are multiples
-- of a ten-thousandth here.
use v2ray.Prelude.{
  ℕ, ◌+◌, ◌-◌, ◌*◌, ◌/◌, ◌^◌, ◌≡◌, ◌⊎◌, refl, arith, true, false, Option, some, List, [], ◌∷◌, ltb,
  leb, min, max, get_elem?, bytes_eq, if◌then◌else◌,
}
use v2ray.Common.Result.{Result, ok, err, panic, timeout, protocol, no_outbounds}
use v2ray.App.Balancer.State
use v2ray.App.Balancer.State.{
  Std, OutboundState, BalancerMember, Balancer, AdaptiveBalancerConfig, is_alive, alive_count,
  first_member_index, pick_latency_index, strategy_from, profile_for,
}
use v2ray.App.Balancer.Pick.{pick_member_index, connect}
use v2ray.App.Balancer.Adaptive.{pick_adaptive_index, apply_probe_cooldowns, cool, probe_failures}
use v2ray.App.Balancer.Alive.{AliveAt}
use v2ray.App.Balancer.Rotation.{picks, picks-reach}
use v2ray.App.Balancer.Least.{LatencyAt, IsLeast, pick_latency_index-IsLeast}
use v2ray.App.Balancer.Cooldown.{IsPaired}
use v2ray.App.Balancer.Serve.{Serves, pick_member_index-Serves}
use v2ray.App.Balancer.Dial.{connect-dials}

abbrev fixed : Std
fixed = record {
  F = ℕ;
  of_int = λ n. n * 10000;
  decimal = λ d n. d * 10 ^ (4 - n);
  add = λ x y. x + y;
  sub = λ x y. x - y;
  mul = λ x y. x * y / 10000;
  div = λ x y. x * 10000 / y;
  clamp = λ x low high. min (max x low) high;
  is_finite = λ x. true;
  lt = ltb;
  gt = λ x y. ltb y x;
  ge = λ x y. leb y x;
  representable = λ n. ltb n (2 ^ 63);
}

abbrev health : List ℕ → Option OutboundState
health tag =
    if bytes_eq tag (b'a' ∷ [])
    then some (record { alive = false; latency_ms = 1; consecutive_failures = 3 })
    else some (record { alive = true; latency_ms = 40; consecutive_failures = 0 })

abbrev config : AdaptiveBalancerConfig ℕ
config = record {
  failure_threshold = 2;
  cooldown_secs = 30;
  ewma_alpha = 2000;
  switch_margin = 1500;
}

abbrev tags : List (List ℕ)
tags = (b'a' ∷ []) ∷ (b'b' ∷ []) ∷ (b'c' ∷ []) ∷ []

abbrev rotating : Balancer ℕ
rotating = record (State.new [] [] config tags health) {
  strategy = State.round_robin;
  rr_counter = 7;
}

abbrev adapting : Balancer ℕ
adapting = record rotating { strategy = State.adaptive }

picks-reach_example :
    (xs : List (Option ℕ)) × (k : ℕ) × (picks fixed (alive_count health rotating.members) rotating 0
      ≡ ok xs)
    × (get_elem? xs k ≡ some (some 2))
unfolding State.new alive_count is_alive bytes_eq
picks-reach_example = picks-reach fixed rotating 0 2 refl (omega arith) refl

pick_member_index-Serves_example : Serves fixed adapting 0 (pick_member_index fixed adapting 0)
unfolding State.new
pick_member_index-Serves_example =
    pick_member_index-Serves fixed adapting 0 (λ e. refl) (omega arith) refl

abbrev refused : BalancerMember → Result ℕ
refused m = err timeout

-- The first cooldown of a time that no Instant can hold panics.
endless :
    pick_member_index fixed
      (record adapting { adaptive_config = record config { cooldown_secs = 2 ^ 64 - 1 } })
      0
    ≡ panic
unfolding State.new pick_member_index pick_adaptive_index apply_probe_cooldowns cool probe_failures
    bytes_eq State.is_in_cooldown
endless = refl

connect-dials_example :
    ((adapting.members ≡ [])
      × (connect fixed refused adapting 0 5 100 ≡ err (protocol no_outbounds)))
    ⊎ ((i : ℕ) × (m : BalancerMember) × (c : Balancer ℕ) × (connect fixed refused adapting 0 5 100
          ≡ ok (refused m, c))
        × (get_elem? adapting.members i ≡ some m)
        × (c.members ≡ adapting.members)
        × IsPaired c)
unfolding State.new
connect-dials_example = connect-dials fixed refused adapting 0 5 100 (λ e. refl) (λ e. refl) refl

pick_latency_index-IsLeast_example :
    ((pick_latency_index health rotating.members ≡ first_member_index rotating.members)
      × ((i : ℕ) → ¬ AliveAt health rotating.members i))
    ⊎ ((i : ℕ) × (l : ℕ) × (pick_latency_index health rotating.members ≡ some i)
        × LatencyAt health rotating.members i l
        × IsLeast health rotating.members i l)
pick_latency_index-IsLeast_example = pick_latency_index-IsLeast health rotating.members
