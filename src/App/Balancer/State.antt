-- ===== src/App/Balancer/State.antt =====
-- What a balancer keeps: balancer.rs, OutboundState of health.rs, and the configuration it reads.
-- Numbers of the type f64 are a parameter; an instant is a number of seconds. The member's
-- outbound is known by its tag, and the names of its counters are left out.
use v2ray.Prelude.{
  ℕ, suc, ◌-◌, ◌^◌, Bool, true, false, not, Option, none, some, List, [], ◌∷◌, map, ltb, ◌==◌,
  if◌then◌else◌, bytes_eq,
}

-- What the balancer takes from Rust's standard library: the operations on f64, where `decimal d n` is
-- the literal with the digits `d` of which `n` stand behind the point, and the seconds that an
-- Instant can represent.
pub record Std : Type 1 where
  pub F : Type 0
  pub of_int : ℕ → F
  pub decimal : ℕ → ℕ → F
  pub add : F → F → F
  pub sub : F → F → F
  pub mul : F → F → F
  pub div : F → F → F
  pub clamp : F → F → F → F
  pub is_finite : F → Bool
  pub lt : F → F → Bool
  pub gt : F → F → Bool
  pub ge : F → F → Bool
  pub representable : ℕ → Bool

pub record OutboundState : Type 0 where
  pub alive : Bool
  pub latency_ms : ℕ
  pub consecutive_failures : ℕ

pub data Strategy : Type 0 where
  latency round_robin random adaptive : Strategy

abbrev round_robin_name : List ℕ
round_robin_name = b'r' ∷ b'o' ∷ b'u' ∷ b'n' ∷ b'd' ∷ b'R' ∷ b'o' ∷ b'b' ∷ b'i' ∷ b'n' ∷ []

abbrev random_name : List ℕ
random_name = b'r' ∷ b'a' ∷ b'n' ∷ b'd' ∷ b'o' ∷ b'm' ∷ []

abbrev adaptive_name : List ℕ
adaptive_name = b'a' ∷ b'd' ∷ b'a' ∷ b'p' ∷ b't' ∷ b'i' ∷ b'v' ∷ b'e' ∷ []

-- `From<&str>`
unfoldable pub strategy_from : List ℕ → Strategy
strategy_from s =
    if bytes_eq s round_robin_name
    then round_robin
    else if bytes_eq s random_name
    then random
    else if bytes_eq s adaptive_name
    then adaptive
    else latency

pub record BalancerMember : Type 0 where
  pub profile : List ℕ
  pub outbound_tag : List ℕ

pub record AdaptiveState (F : Type 0) : Type 0 where
  pub attempts : ℕ
  pub successes : ℕ
  pub consecutive_failures : ℕ
  pub ewma_latency_ms : Option F
  pub last_selected : Option ℕ
  pub cooldown_until : Option ℕ

abbrev pub new_state : {F : Type 0} → AdaptiveState F
new_state = record {
  attempts = 0;
  successes = 0;
  consecutive_failures = 0;
  ewma_latency_ms = none;
  last_selected = none;
  cooldown_until = none;
}

unfoldable pub is_in_cooldown : {F : Type 0} → AdaptiveState F → ℕ → Bool
is_in_cooldown s now = elim s.cooldown_until [ none ↦ false | some until ↦ ltb now until ]

pub record AdaptiveRuntime (F : Type 0) : Type 0 where
  pub members : List (AdaptiveState F)
  pub current : Option ℕ

pub record AdaptiveBalancerConfig (F : Type 0) : Type 0 where
  pub failure_threshold : ℕ
  pub cooldown_secs : ℕ
  pub ewma_alpha : F
  pub switch_margin : F

pub record BalancerProfileConfig : Type 0 where
  pub name : List ℕ
  pub outbound_tag : List ℕ

-- The shared health table is what its `get` answers.
pub record Balancer (F : Type 0) : Type 0 where
  pub members : List BalancerMember
  pub states : List ℕ → Option OutboundState
  pub strategy : Strategy
  pub adaptive_config : AdaptiveBalancerConfig F
  pub adaptive : AdaptiveRuntime F
  pub rr_counter : ℕ

unfoldable pub profile_for : List BalancerProfileConfig → List ℕ → List ℕ
profile_for [] tag = tag
profile_for (p ∷ ps) tag = if bytes_eq p.outbound_tag tag then p.name else profile_for ps tag

-- `new`, from the parts of the configuration that it reads
unfoldable pub new :
    {F : Type 0}
    → List BalancerProfileConfig
    → List ℕ
    → AdaptiveBalancerConfig F
    → List (List ℕ)
    → (List ℕ → Option OutboundState)
    → Balancer F
new profiles strategy config outbounds states = record {
  members =
      map (λ tag. record { profile = profile_for profiles tag; outbound_tag = tag }) outbounds;
  states = states;
  strategy = strategy_from strategy;
  adaptive_config = config;
  adaptive = record { members = map (λ _. new_state) outbounds; current = none };
  rr_counter = 0;
}

unfoldable pub is_alive : (List ℕ → Option OutboundState) → List ℕ → Bool
is_alive states tag = elim (states tag) [ none ↦ true | some s ↦ s.alive ]

unfoldable pub alive_count : (List ℕ → Option OutboundState) → List BalancerMember → ℕ
alive_count states [] = 0
alive_count states (m ∷ ms) =
    if is_alive states m.outbound_tag then suc (alive_count states ms) else alive_count states ms

-- The loop of `nth_alive_index`, which has found `idx` members before the one at `member_idx`.
unfoldable pub nth_loop :
    (List ℕ → Option OutboundState) → List BalancerMember → ℕ → ℕ → ℕ → Option ℕ
nth_loop states [] member_idx idx n = none
nth_loop states (m ∷ ms) member_idx idx n =
    let rest = nth_loop states ms (suc member_idx) in
    if not (is_alive states m.outbound_tag)
    then rest idx n
    else if idx == n
    then some member_idx
    else rest (suc idx) n

unfoldable pub nth_alive_index :
    (List ℕ → Option OutboundState) → List BalancerMember → ℕ → Option ℕ
unfolding nth_loop
nth_alive_index states members n = nth_loop states members 0 0 n

unfoldable pub latency_of : (List ℕ → Option OutboundState) → BalancerMember → ℕ
latency_of states m = elim (states m.outbound_tag) [ none ↦ 2 ^ 64 - 1 | some s ↦ s.latency_ms ]

abbrev pub is_better : ℕ → Option (ℕ × ℕ) → Bool
is_better l none = true
is_better l (some (best, _)) = ltb l best

unfoldable pub latency_loop :
    (List ℕ → Option OutboundState) → List BalancerMember → ℕ → Option (ℕ × ℕ) → Option (ℕ × ℕ)
latency_loop states [] idx best = best
latency_loop states (m ∷ ms) idx best =
    let rest = latency_loop states ms (suc idx) in
    if not (is_alive states m.outbound_tag)
    then rest best
    else if is_better (latency_of states m) best
    then rest (some (latency_of states m, idx))
    else rest best

unfoldable pub first_member_index : List BalancerMember → Option ℕ
first_member_index [] = none
first_member_index (m ∷ ms) = some 0

unfoldable pub pick_latency_index : (List ℕ → Option OutboundState) → List BalancerMember → Option ℕ
unfolding latency_loop
pick_latency_index states members = elim (latency_loop states members 0 none) [
  | none ↦ first_member_index members
  | some (_, idx) ↦ some idx
]
