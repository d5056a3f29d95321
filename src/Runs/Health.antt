-- ===== src/Runs/Health.antt =====
-- Probes of two outbounds.
use native.Mathlib.Decide.{ℕ_discrete}
use v2ray.Prelude.{bytes_eq, ℕ, ◌≡◌, refl, arith, true, false, some, none, List, [], ◌∷◌}
use v2ray.Common.Maps.{bytes_dec}
use v2ray.App.FakeIp.Concrete.{list_map, list_map_laws}
use v2ray.App.Balancer.State.{is_alive}
use v2ray.App.Health.{ProbeCalls, run_probe}
use v2ray.App.Health.Verdict.{Probe, after, failures, verdict, is_alive-after}

abbrev fast : List ℕ
fast = b'a' ∷ []

abbrev slow : List ℕ
slow = b'b' ∷ []

abbrev refused : ProbeCalls
refused = record {
  timed_out = false;
  connected = false;
  written = false;
  response = none;
  elapsed_ms = 3;
}

abbrev answered : ProbeCalls
answered = record {
  timed_out = false;
  connected = true;
  written = true;
  response = some (b'H' ∷ b'T' ∷ b'T' ∷ b'P' ∷ b'/' ∷ []);
  elapsed_ms = 40;
}

-- The last probe first.
abbrev probes : List Probe
probes = (fast, refused) ∷ (slow, answered) ∷ (fast, refused) ∷ (slow, refused) ∷ []

is_alive-after_example :
    is_alive
      (λ q.
        (list_map bytes_dec).get q
          (after (list_map bytes_dec) (list_map_laws bytes_dec) 2 (fast ∷ slow ∷ []) probes))
      fast
    ≡ verdict 2 (failures fast probes)
is_alive-after_example =
    is_alive-after (list_map bytes_dec) (list_map_laws bytes_dec) 2 (fast ∷ slow ∷ []) fast probes
      (omega arith)

dead : verdict 2 (failures fast probes) ≡ false
unfolding verdict failures bytes_dec run_probe ℕ_discrete bytes_eq
dead = refl

alive : verdict 2 (failures slow probes) ≡ true
unfolding verdict failures bytes_dec run_probe ℕ_discrete bytes_eq
alive = refl
