-- ===== src/App/Health.antt =====
-- The health checker, crates/blackwire-app/src/health.rs: one probe, what it says, and the table of
-- the outbounds. The outcomes of the calls are arguments; the time of a check is left out.
pub mod Verdict
use v2ray.Prelude.{
  ◌-◌, ℕ, ◌+◌, ◌%◌, ◌^◌, Bool, true, false, not, ◌&&◌, Option, none, some, List, [], ◌∷◌, leb, take,
  bytes_eq, if◌then◌else◌,
}
use v2ray.Common.Maps.{DashMap}
use v2ray.App.Balancer.State.{OutboundState}

-- What became of the calls of one probe.
pub record ProbeCalls : Type 0 where
  pub timed_out : Bool
  pub connected : Bool
  pub written : Bool
  pub response : Option (List ℕ)
  pub elapsed_ms : ℕ

abbrev is_http : List ℕ → Bool
is_http [] = false
is_http (b ∷ bs) = bytes_eq (take 4 (b ∷ bs)) (b'H' ∷ b'T' ∷ b'T' ∷ b'P' ∷ [])

unfoldable pub run_probe : ProbeCalls → Bool
run_probe c =
    not c.timed_out
    && (c.connected && (c.written && elim c.response [ none ↦ false | some bytes ↦ is_http bytes ]))

-- `OutboundState::default()`
abbrev pub default_state : OutboundState
default_state = record { alive = true; latency_ms = 2 ^ 64 - 1; consecutive_failures = 0 }

unfoldable pub after_probe : ℕ → Bool → ℕ → OutboundState → OutboundState
after_probe max_failures true elapsed_ms entry = record {
  alive = true;
  latency_ms = elapsed_ms % 2 ^ 64;
  consecutive_failures = 0;
}
after_probe max_failures false elapsed_ms entry =
    let failures : ℕ = (entry.consecutive_failures + 1) % 2 ^ 32 in
    record entry {
      consecutive_failures = failures;
      alive = if leb max_failures failures && entry.alive then false else entry.alive;
    }

abbrev pub or_default : Option OutboundState → OutboundState
or_default none = default_state
or_default (some e) = e

module _ (d : DashMap (List ℕ) OutboundState) where
  unfoldable pub insert_all : List (List ℕ) → d.Map → d.Map
  insert_all [] states = states
  insert_all (tag ∷ tags) states = insert_all tags (d.insert tag default_state states)

  unfoldable pub new : List (List ℕ) → d.Map
  unfolding insert_all
  new tags = insert_all tags d.new

  unfoldable pub probe : ℕ → List ℕ → ProbeCalls → d.Map → d.Map
  unfolding run_probe after_probe
  probe max_failures tag c states =
      d.insert tag
        (after_probe max_failures (run_probe c) c.elapsed_ms (or_default (d.get tag states))) states
