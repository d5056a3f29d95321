-- ===== src/App/Balancer/Cooldown.antt =====
-- The states of the members that a choice is made with: `apply_probe_cooldowns` of balancer.rs.
use v2ray.Prelude.{
  ℕ, zero, suc, ◌+◌, ◌≡◌, inl, inr, refl, Bool, true, false, not, ◌&&◌, leb, if◌then◌else◌,
  Bool-cases, Option, some, List, [], ◌∷◌, arith, length, get_elem?,
}
use v2ray.Common.Result.{ok}
use v2ray.App.Balancer.State.{
  BalancerMember, AdaptiveState, AdaptiveBalancerConfig, OutboundState, Balancer, is_in_cooldown,
}
use v2ray.App.Balancer.Adaptive.{apply_probe_cooldowns, cool, probe_failures}

-- There is one state for each member.
abbrev pub IsPaired : {F : Type 0} → Balancer F → Type 0
IsPaired b = length b.adaptive.members ≡ length b.members

module _ {F : Type 0} where
  -- The state of a member whose probes have failed, when the end of its cooldown can be represented.
  abbrev pub cooled : AdaptiveBalancerConfig F → ℕ → ℕ → AdaptiveState F → AdaptiveState F
  cooled c failures now s =
      if leb c.failure_threshold failures && not (is_in_cooldown s now)
      then record s { cooldown_until = some (now + c.cooldown_secs) }
      else s

  cool-cooled :
      (representable : ℕ → Bool) (c : AdaptiveBalancerConfig F) (failures now : ℕ)
      (s : AdaptiveState F)
      → representable (now + c.cooldown_secs) ≡ true
      → cool representable c failures now s ≡ ok (cooled c failures now s)
  unfolding cool
  cool-cooled representable c failures now s h =
      elim (Bool-cases (leb c.failure_threshold failures && not (is_in_cooldown s now))) [
        | inl e ↦ rw (cool, e, h) refl
        | inr e ↦ rw (cool, e) refl
      ]

  -- The state that a member enters the choice with, and that it is not in cooldown then.
  abbrev pub WarmAt :
      AdaptiveBalancerConfig F
      → (List ℕ → Option OutboundState)
      → ℕ
      → List BalancerMember
      → List (AdaptiveState F)
      → ℕ
      → Type 0
  WarmAt c states now (m ∷ ms) (s ∷ ss) zero =
      is_in_cooldown (cooled c (probe_failures states m) now s) now ≡ false
  WarmAt c states now (m ∷ ms) (s ∷ ss) (suc i) = WarmAt c states now ms ss i
  WarmAt c states now ms ss i = ⊥

  -- The states after the cooldowns of failed probes.
  pub cool_all :
      AdaptiveBalancerConfig F
      → (List ℕ → Option OutboundState)
      → ℕ
      → List BalancerMember
      → List (AdaptiveState F)
      → List (AdaptiveState F)
  cool_all c states now (m ∷ ms) (s ∷ ss) =
      cooled c (probe_failures states m) now s ∷ cool_all c states now ms ss
  cool_all c states now [] ss = ss
  cool_all c states now (m ∷ ms) [] = []

  module _ (c : AdaptiveBalancerConfig F) (states : List ℕ → Option OutboundState) (now : ℕ) where
    pub length-cool_all :
        (ms : List BalancerMember) (ss : List (AdaptiveState F))
        → length ss ≡ length ms
        → length (cool_all c states now ms ss) ≡ length ms
    unfolding cool_all
    length-cool_all [] ss h = h
    length-cool_all (m ∷ ms) [] h = h
    length-cool_all (m ∷ ms) (s ∷ ss) h = omega (arith, length-cool_all ms ss (omega arith))

    pub apply-cool_all :
        (ms : List BalancerMember) (ss : List (AdaptiveState F)) (representable : ℕ → Bool)
        → representable (now + c.cooldown_secs) ≡ true
        → length ss ≡ length ms
        → apply_probe_cooldowns representable c states now ms ss ≡ ok (cool_all c states now ms ss)
    unfolding cool_all apply_probe_cooldowns
    apply-cool_all [] ss representable fits h = refl
    apply-cool_all (m ∷ ms) [] representable fits h = absurd (omega arith)
    apply-cool_all (m ∷ ms) (s ∷ ss) representable fits h =
        rw
          (
            cool-cooled representable c (probe_failures states m) now s fits,
            apply-cool_all ms ss representable fits (omega arith),
          )
          refl

    pub warm_entry :
        (ms : List BalancerMember) (ss : List (AdaptiveState F)) (i : ℕ)
        → WarmAt c states now ms ss i
        → (s : AdaptiveState F) × (get_elem? (cool_all c states now ms ss) i ≡ some s)
          × (is_in_cooldown s now ≡ false)
    unfolding cool_all
    warm_entry [] ss i w = elim w [ ]
    warm_entry (m ∷ ms) [] i w = elim w [ ]
    warm_entry (m ∷ ms) (s ∷ ss) zero w = (_, refl, w)
    warm_entry (m ∷ ms) (s ∷ ss) (suc i) w = warm_entry ms ss i w
