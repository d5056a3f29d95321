-- ===== src/App/Health/Verdict.antt =====
-- Which outbounds the balancer takes for alive, from the probes of each.
use v2ray.Prelude.{
  ℕ, suc, ◌+◌, ◌%◌, ◌^◌, ◌<◌, ◌≤◌, ◌≡◌, ◌≢◌, refl, subst, ◌∙◌, Bool, true, false, ◌&&◌, ◌||◌,
  Option, none, some, List, [], ◌∷◌, arith, length, leb, ltb, ◌==◌, if◌then◌else◌, Bool-cases, inl,
  inr,
}
use v2ray.Common.Maps.{DashMap, DashMapLaws, bytes_dec}
use v2ray.App.Balancer.State.{OutboundState, is_alive}
use v2ray.App.Health
use v2ray.App.Health.{ProbeCalls, run_probe, after_probe, default_state, or_default}

abbrev pub Probe : Type 0
Probe = List ℕ × ProbeCalls

-- The failures of an outbound since its last success, the last probe first.
unfoldable pub failures : List ℕ → List Probe → ℕ
failures tag [] = 0
failures tag ((q, c) ∷ probes) =
    let before = failures tag probes in
    elim (bytes_dec tag q) [ yes _ ↦ if run_probe c then 0 else suc before | no _ ↦ before ]

failures-le : (tag : List ℕ) (probes : List Probe) → failures tag probes ≤ length probes
unfolding failures
failures-le tag [] = omega arith
failures-le tag ((q, c) ∷ probes) =
    let before = failures-le tag probes in
    elim (bytes_dec tag q)
      as (λ d.
        (elim d [
          | yes _ ↦ if run_probe c then 0 else suc (failures tag probes)
          | no _ ↦ failures tag probes
        ])
        ≤ suc (length probes)) [
          | yes _ ↦ elim (Bool-cases (run_probe c)) [
            | inl s ↦ rw s (omega arith)
            | inr s ↦ rw s (omega arith)
          ]
          | no _ ↦ omega arith
        ]

-- So many failures in a row leave an outbound alive.
unfoldable pub verdict : ℕ → ℕ → Bool
verdict max_failures n = n == 0 || ltb n max_failures

-- The entry of an outbound that has failed so often.
abbrev IsEntry : ℕ → ℕ → OutboundState → Type 0
IsEntry max_failures n e = (e.consecutive_failures ≡ n) × (e.alive ≡ verdict max_failures n)

failed-IsEntry :
    (max_failures n elapsed : ℕ) (e : OutboundState)
    → suc n < 2 ^ 32
    → IsEntry max_failures n e
    → IsEntry max_failures (suc n) (after_probe max_failures false elapsed e)
unfolding after_probe verdict
failed-IsEntry max_failures n elapsed e lt (count, alive) =
    let next : (e.consecutive_failures + 1) % 2 ^ 32 ≡ suc n = omega (arith, count) in
    (next, rw (next, alive) (both max_failures n))
  where
    both :
        (m n : ℕ)
        → (if leb m (suc n) && (n == 0 || ltb n m) then false else n == 0 || ltb n m)
          ≡ (suc n == 0 || ltb (suc n) m)
    both m n = ground arith

module _ (d : DashMap (List ℕ) OutboundState) (laws : DashMapLaws d) (max_failures : ℕ) where
  -- The table after the probes, the last one first.
  unfoldable pub after : List (List ℕ) → List Probe → d.Map
  after tags [] = Health.new d tags
  after tags ((q, c) ∷ probes) = Health.probe d max_failures q c (after tags probes)

  -- What the table says of an outbound, which stays alive while there is no entry.
  abbrev Says : List ℕ → ℕ → d.Map → Type 0
  Says tag n states = IsEntry max_failures n (or_default (d.get tag states))

  default-IsEntry : IsEntry max_failures 0 default_state
  unfolding verdict
  default-IsEntry = (refl, refl)

  insert-Says :
      (tag : List ℕ) (e : OutboundState) (n : ℕ) (states : d.Map)
      → IsEntry max_failures n e
      → Says tag n (d.insert tag e states)
  insert-Says tag e n states h = rw (laws.get-insert tag e states) h

  insert-Says_ne :
      (q tag : List ℕ) (e : OutboundState) (n : ℕ) (states : d.Map)
      → tag ≢ q
      → Says tag n states
      → Says tag n (d.insert q e states)
  insert-Says_ne q tag e n states other h = rw (laws.get-insert_ne q tag e states other) h

  insert_all-Says :
      (tags : List (List ℕ)) (tag : List ℕ) (states : d.Map)
      → Says tag 0 states
      → Says tag 0 (Health.insert_all d tags states)
  unfolding Health.insert_all
  insert_all-Says [] tag states h = h
  insert_all-Says (q ∷ tags) tag states h =
      insert_all-Says tags tag (d.insert q default_state states) (elim (bytes_dec tag q) [
        | yes same ↦
            subst (λ k. Says tag 0 (d.insert k default_state states)) same
              (insert-Says tag default_state 0 states default-IsEntry)
        | no other ↦ insert-Says_ne q tag default_state 0 states other h
      ])

  probe-Says :
      (tag : List ℕ) (c : ProbeCalls) (n : ℕ) (states : d.Map)
      → suc n < 2 ^ 32
      → Says tag n states
      → Says tag (if run_probe c then 0 else suc n) (Health.probe d max_failures tag c states)
  unfolding Health.probe after_probe verdict
  probe-Says tag c n states lt h = insert-Says tag _ _ states (elim (Bool-cases (run_probe c)) [
    | inl s ↦ rw s (refl, refl)
    | inr s ↦ rw s (failed-IsEntry max_failures n c.elapsed_ms (or_default (d.get tag states)) lt h)
  ])

  probe-Says_ne :
      (q tag : List ℕ) (c : ProbeCalls) (n : ℕ) (states : d.Map)
      → tag ≢ q
      → Says tag n states
      → Says tag n (Health.probe d max_failures q c states)
  unfolding Health.probe
  probe-Says_ne q tag c n states other h = insert-Says_ne q tag _ n states other h

  after-Says :
      (tags : List (List ℕ)) (tag : List ℕ) (probes : List Probe)
      → length probes < 2 ^ 32
      → Says tag (failures tag probes) (after tags probes)
  unfolding after failures Health.new
  after-Says tags tag [] lt = insert_all-Says tags tag d.new (rw (laws.get-new tag) default-IsEntry)
  after-Says tags tag ((q, c) ∷ probes) lt =
      let states = after tags probes in
      let n = failures tag probes in
      let before = after-Says tags tag probes (omega arith) in
      elim (bytes_dec tag q)
        as (λ k.
          Says tag (elim k [ yes _ ↦ if run_probe c then 0 else suc n | no _ ↦ n ])
            (Health.probe d max_failures q c states)) [
              | yes same ↦
                  subst
                    (λ k.
                      Says tag (if run_probe c then 0 else suc n)
                        (Health.probe d max_failures k c states))
                    same (probe-Says tag c n states (omega (arith, failures-le tag probes)) before)
              | no other ↦ probe-Says_ne q tag c n states other before
            ]

  -- After fewer than 2^32 probes of any outbounds, the balancer takes an outbound for alive exactly
  -- if its probes since its last successful one, or since the start, are none or fewer than the
  -- configured number of failures.
  pub is_alive-after :
      (tags : List (List ℕ)) (tag : List ℕ) (probes : List Probe)
      → length probes < 2 ^ 32
      → is_alive (λ q. d.get q (after tags probes)) tag ≡ verdict max_failures (failures tag probes)
  unfolding is_alive
  is_alive-after tags tag probes lt =
      by_entry (d.get tag (after tags probes)) ∙ (after-Says tags tag probes lt).1
    where
      by_entry :
          (o : Option OutboundState)
          → elim o [ none ↦ true | some s ↦ s.alive ] ≡ OutboundState.alive (or_default o)
      by_entry none = refl
      by_entry (some e) = refl
