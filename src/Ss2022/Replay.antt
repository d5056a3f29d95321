-- ===== src/Ss2022/Replay.antt =====
-- The filter of salts that were seen before: ss2022/replay.rs. A point in time is a number of
-- seconds, as the clock shows it to the filter and to the task that clears old salts out.
pub mod Once
use v2ray.Prelude.{ℕ, ◌-◌, Bool, true, false, Option, none, some, List, [], ◌∷◌, ltb}
use v2ray.Common.Maps.{DashMap, Retain}

abbrev pub Salt : Type 0
Salt = List ℕ

abbrev pub ttl_secs : ℕ
ttl_secs = 60

module _ (d : DashMap Salt ℕ) (r : Retain d) where
  unfoldable pub new : d.Map
  new = d.new

  -- A round of the task: `duration_since` is zero for a time that is still to come.
  unfoldable pub reap : ℕ → d.Map → d.Map
  reap now m = r.retain (λ salt ts. ltb (now - ts) ttl_secs) m

  unfoldable pub check_and_insert : Salt → ℕ → d.Map → Bool × d.Map
  check_and_insert salt now m = elim (d.get salt m) [
    | some ts ↦ (false, m)
    | none ↦ (true, d.insert salt now m)
  ]
