-- ===== src/App/Balancer/Pick.antt =====
-- `pick_member_index`, `observe_connect_result` and `connect` of balancer.rs.
use v2ray.Prelude.{
  ℕ, zero, suc, ◌+◌, ◌*◌, ◌%◌, ◌^◌, Bool, true, false, Option, none, some, get_elem?,
}
use v2ray.Common.Result.{Result, ok, err, panic, protocol, no_outbounds, ◌>>=◌}
use v2ray.App.Balancer.State.{
  Std, BalancerMember, AdaptiveState, AdaptiveBalancerConfig, Balancer, latency, round_robin,
  random, adaptive, alive_count, nth_alive_index, pick_latency_index, first_member_index,
}
use v2ray.App.Balancer.Adaptive.{pick_adaptive_index, put_state, succeeded, failed}

module _ (f : Std) where
  -- The slot of the rotation, and the counter after `fetch_add`.
  unfoldable pub pick_slot : Balancer f.F → (ℕ → ℕ) → Option ℕ × Balancer f.F
  pick_slot b mix = elim (alive_count b.states b.members) [
    | zero ↦ (first_member_index b.members, b)
    | suc dead ↦ (
      nth_alive_index b.states b.members (mix b.rr_counter % suc dead),
      record b { rr_counter = (b.rr_counter + 1) % 2 ^ 64 },
    )
  ]

  unfoldable pub pick_member_index : Balancer f.F → ℕ → Result (Option ℕ × Balancer f.F)
  unfolding pick_slot
  pick_member_index b now = elim b.strategy [
    | latency ↦ ok (pick_latency_index b.states b.members, b)
    | round_robin ↦ ok (pick_slot b (λ c. c))
    | random ↦ ok (pick_slot b (λ c. c * 0x9E3779B97F4A7C15 % 2 ^ 64))
    | adaptive ↦ pick_adaptive_index f b now
  ]

  unfoldable pub observed :
      AdaptiveBalancerConfig f.F → ℕ → f.F → Bool → AdaptiveState f.F → Result (AdaptiveState f.F)
  unfolding failed
  observed c now elapsed true s = ok (succeeded f c elapsed s)
  observed c now elapsed false s = failed f c now s

  unfoldable pub observe_connect_result : Balancer f.F → ℕ → ℕ → f.F → Bool → Result (Balancer f.F)
  unfolding observed
  observe_connect_result b idx now elapsed went_well = elim b.strategy [
    | adaptive ↦ elim (get_elem? b.members idx) [
      | none ↦ ok b
      | some _ ↦ elim (get_elem? b.adaptive.members idx) [
        | none ↦ ok b
        | some s ↦ do
          entry ← observed b.adaptive_config now elapsed went_well s
          ok (record b {
            adaptive = record b.adaptive { members = put_state b.adaptive.members idx entry };
          })
      ]
    ]
    | _ ↦ ok b
  ]

  -- A stream of the outbound's `connect`, or its error.
  unfoldable pub is_ok : {S : Type 0} → Result S → Bool
  is_ok (ok s) = true
  is_ok r = false

  -- `connect`, where `dial` is the call of the member's outbound, which starts at `now` and takes
  -- the time `elapsed`.
  unfoldable pub connect :
      {S : Type 0}
      → (BalancerMember → Result S)
      → Balancer f.F
      → ℕ
      → ℕ
      → f.F
      → Result (Result S × Balancer f.F)
  unfolding pick_member_index observe_connect_result is_ok
  connect dial b now later elapsed = do
    (picked, b) ← pick_member_index b now
    elim picked [
      | none ↦ err (protocol no_outbounds)
      | some idx ↦ elim (get_elem? b.members idx) [
        | none ↦ panic
        | some m ↦ do
          b ← observe_connect_result b idx later elapsed (is_ok (dial m))
          ok (dial m, b)
      ]
    ]
