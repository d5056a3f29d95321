-- ===== src/Ss2022/Replay/Once.antt =====
-- A salt that was let in is refused for the time that the filter promises.
use v2ray.Prelude.{
  ℕ, ◌+◌, ◌-◌, ◌<◌, ◌≡◌, refl, ap, ◌∙◌, true, false, some, List, [], ◌∷◌, arith, All, ltb, lt→ltb,
  Option-cases, inl, inr,
}
use v2ray.Common.Maps.{DashMap, DashMapLaws, Retain, RetainLaws, bytes_dec}
use v2ray.Ss2022.Replay
use v2ray.Ss2022.Replay.{Salt, ttl_secs}

-- What happens to the filter, each at its time.
pub data Call : Type 0 where
  checking : Salt → ℕ → Call
  reaping : ℕ → Call

abbrev pub time_of : Call → ℕ
time_of (checking salt now) = now
time_of (reaping now) = now

module _ (d : DashMap Salt ℕ) (r : Retain d) where
  -- The filter after the calls, in their order.
  unfoldable pub after : List Call → d.Map → d.Map
  after [] m = m
  after (checking salt now ∷ calls) m = after calls (Replay.check_and_insert d r salt now m).1
  after (reaping now ∷ calls) m = after calls (Replay.reap d r now m)

  module _ (laws : DashMapLaws d) (retain_laws : RetainLaws r) where
    -- A salt in the filter stays as it is while other calls are made.
    check-kept :
        (salt q : Salt) (now ts : ℕ) (m : d.Map)
        → d.get salt m ≡ some ts
        → d.get salt (Replay.check_and_insert d r q now m).1 ≡ some ts
    unfolding Replay.check_and_insert
    check-kept salt q now ts m h = elim (Option-cases (d.get q m)) [
      | inr (v, e) ↦ rw (Replay.check_and_insert, e) h
      | inl e ↦ elim (bytes_dec salt q) [
        | yes same ↦ absurd (ground (arith, h, e, ap (λ k. d.get k m) same))
        | no other ↦ rw (Replay.check_and_insert, e) (laws.get-insert_ne q salt now m other ∙ h)
      ]
    ]

    after-kept :
        (calls : List Call) (salt : Salt) (ts : ℕ) (m : d.Map)
        → All (λ c. time_of c < ts + ttl_secs) calls
        → d.get salt m ≡ some ts
        → d.get salt (after calls m) ≡ some ts
    unfolding after Replay.reap
    after-kept [] salt ts m all h = h
    after-kept (checking q now ∷ calls) salt ts m all h =
        after-kept calls salt ts (Replay.check_and_insert d r q now m).1 all.1
          (check-kept salt q now ts m h)
    after-kept (reaping now ∷ calls) salt ts m all h =
        let early = all.0 in
        after-kept calls salt ts (Replay.reap d r now m) all.1 (
          retain_laws.kept (λ salt ts. ltb (now - ts) ttl_secs) salt ts m h
            (lt→ltb (now - ts) ttl_secs (omega (arith, early))))

    seen-refused :
        (salt : Salt) (later ts : ℕ) (m : d.Map)
        → d.get salt m ≡ some ts
        → (Replay.check_and_insert d r salt later m).0 ≡ false
    unfolding Replay.check_and_insert
    seen-refused salt later ts m h = rw (Replay.check_and_insert, h) refl

    let_in :
        (salt : Salt) (now : ℕ) (m : d.Map)
        → (Replay.check_and_insert d r salt now m).0 ≡ true
        → d.get salt (Replay.check_and_insert d r salt now m).1 ≡ some now
    unfolding Replay.check_and_insert
    let_in salt now m h = elim (Option-cases (d.get salt m)) [
      | inl e ↦ rw (Replay.check_and_insert, e) (laws.get-insert salt now m)
      | inr (v, e) ↦ absurd (ground arith)
    ]

    -- A salt that the filter has let in is refused when it comes again, after any calls of which
    -- none is sixty seconds or more later than that, however the checks of other salts and the
    -- rounds of the clearing task fall between.
    pub check_and_insert-once :
        (salt : Salt) (now later : ℕ) (calls : List Call) (m : d.Map)
        → (Replay.check_and_insert d r salt now m).0 ≡ true
        → All (λ c. time_of c < now + ttl_secs) calls
        → (Replay.check_and_insert d r salt later
            (after calls (Replay.check_and_insert d r salt now m).1)).0
          ≡ false
    check_and_insert-once salt now later calls m h all =
        let m' = (Replay.check_and_insert d r salt now m).1 in
        seen-refused salt later now (after calls m')
          (after-kept calls salt now m' all (let_in salt now m h))
