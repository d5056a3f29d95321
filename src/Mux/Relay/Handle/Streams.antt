-- ===== src/Mux/Relay/Handle/Streams.antt =====
-- A session that is served by an outbound stream stays so, through every frame that leaves it open.
use native.Mathlib.Decide.{ℕ_discrete}
use v2ray.Prelude.{ℕ, ◌<◌, ◌≡◌, ◌≢◌, refl, sym, ap, ◌∙◌, Option, some, List, arith}
use v2ray.Common.Address.{Address}
use v2ray.Common.Maps.{DashMapLaws}
use v2ray.Common.Action.{Triple, modify-Triple, Option-Ends}
use v2ray.Mux.Metadata.{FrameMetadata}
use v2ray.Mux.Relay.{
  MuxSession, Tables, State, Calls, note, Event, fresh, wrote, connected, shut_down, new_tcp,
  insert_tcp,
}
use v2ray.Mux.Relay.Handle.{Frame, on_frame, end_tcp}
use v2ray.Mux.Relay.Handle.New.{new_tcp-Triple}
use v2ray.Mux.Relay.Handle.Keeping.{IsQuiet, with_data-Keeps, write_on-Triple}
use v2ray.Mux.Relay.Handle.Frames.{on_frame-Keeps}
use v2ray.Mux.Relay.Handle.Numbered.{
  written, written_quiet, written_other, IsNumbered, noted-IsNumbered, new_tcp-IsNumbered,
}

pub some_eq : {A : Type 0} {x y : A} → Path (Option A) (some x) (some y) → x ≡ y
some_eq e = ground (arith, e)

module _ (t : Tables) (laws : DashMapLaws (Tables.tcp t)) where
  -- An entry of a table without an id was in the table.
  was_in :
      (id q : ℕ) (y : MuxSession) (m : t.tcp.Map)
      → t.tcp.get q (t.tcp.remove id m).1 ≡ some y
      → t.tcp.get q m ≡ some y
  was_in id q y m e = elim (ℕ_discrete q id) [
    | yes same ↦
        absurd (
          ground (arith, e, laws.get-remove id m, ap (λ k. t.tcp.get k (t.tcp.remove id m).1) same))
    | no other ↦ sym (laws.get-remove_ne id q m other) ∙ e
  ]

  shut-IsNumbered : (id : ℕ) → Triple (IsNumbered t) (end_tcp t id) (λ u. IsNumbered t)
  unfolding end_tcp
  shut-IsNumbered id = record {
    run = λ s h.
        Option-Ends (λ u. IsNumbered t) (t.tcp.remove id s.sessions).0 _ _
          (λ e. ((λ q y k. h.0 q y (was_in id q y s.sessions k)), h.1))
          (λ x e. (
            (λ q y k. h.0 q y (was_in id q y s.sessions k)),
            λ u le. written_quiet u (shut_down x.upstream) s.events tt ∙ h.1 u le,
          ));
  }

  pub on_frame-IsNumbered :
      (c : Calls) (f : Frame)
      → Triple (IsNumbered t) (on_frame t c (FrameMetadata.status f.0) f) (λ u. IsNumbered t)
  on_frame-IsNumbered c (f, payload) =
      on_frame-Keeps t (noted-IsNumbered t)
        (record { run = λ s h. ((λ q y e. omega (arith, h.0 q y e)), λ u le. h.1 u (omega arith)) })
        (record { run = λ s h. ((λ q y e. omega (arith, h.0 q y e)), λ u le. h.1 u (omega arith)) })
        (λ s u x a k h. h) c f.status f payload refl
        (λ x bytes. record {
          run = λ s h. (
            h.0.0,
            λ u le.
                let made = h.0.0 f.session_id x h.1 in
                written_other u x.upstream bytes s.events (λ e. absurd (omega (arith, made)))
                ∙ h.0.1 u le,
          );
        })
        (λ dest. new_tcp-IsNumbered t laws c f.session_id dest payload)
        (shut-IsNumbered f.session_id)

  -- The session `id` is served by the stream `n`, which no other session has, and which has had the
  -- bytes `bytes`.
  abbrev pub IsServed : ℕ → ℕ → List ℕ → State t → Type 0
  IsServed id n bytes s =
      ((x : MuxSession) × (t.tcp.get id s.sessions ≡ some x) × (x.upstream ≡ n))
      × ((q : ℕ) (y : MuxSession) → t.tcp.get q s.sessions ≡ some y → y.upstream ≡ n → q ≡ id)
      × (n < s.next)
      × (written n s.events ≡ bytes)

  module _ (id n : ℕ) (bytes : List ℕ) where
    abbrev pub Served : State t → Type 0
    Served = IsServed id n bytes

    pub noted-IsServed : (e : Event) → IsQuiet e → Triple Served (note t e) (λ u. Served)
    noted-IsServed e q = record { run = λ s h. (h.0, h.1, h.2, written_quiet n e s.events q ∙ h.3) }

    numbered : Triple Served (fresh t) (λ m s. Served s × (n < m))
    numbered = record { run = λ s h. ((h.0, h.1, omega (arith, h.2), h.3), h.2) }

    wrote_other :
        (m : ℕ) (data_bytes : List ℕ)
        → n < m
        → Triple Served (note t (wrote m data_bytes)) (λ u. Served)
    wrote_other m data_bytes lt = record {
      run = λ s h. (
        h.0,
        h.1,
        h.2,
        written_other n m data_bytes s.events (λ e. absurd (omega (arith, e))) ∙ h.3,
      );
    }

    insert-IsServed :
        (q : ℕ) (x : MuxSession)
        → q ≢ id
        → Triple (λ s. Served s × (n < x.upstream)) (insert_tcp t q x) (λ u. Served)
    insert-IsServed q x other = modify-Triple (λ s h.
        let ((y, found, same), alone, made, had) = h.0 in
        (
          (y, laws.get-insert_ne q id x s.sessions (λ e. other (sym e)) ∙ found, same),
          (λ k z e up. elim (ℕ_discrete k q) [
            | yes this ↦
                let put : Path (Option MuxSession) (some x) (some z) =
                  sym (laws.get-insert q x s.sessions)
                  ∙ ap (λ k. t.tcp.get k (t.tcp.insert q x s.sessions)) (sym this)
                  ∙ e in
                absurd (omega (arith, h.1, up, ap MuxSession.upstream (some_eq put)))
            | no differ ↦ alone k z (sym (laws.get-insert_ne q k x s.sessions differ) ∙ e) up
          ]),
          made,
          had,
        ))

    pub new_tcp-IsServed :
        (c : Calls) (q : ℕ) (dest : Address) (payload : Option (List ℕ))
        → q ≢ id
        → Triple Served (new_tcp t c q dest payload) (λ u. Served)
    new_tcp-IsServed c q dest payload other =
        new_tcp-Triple t {Made = λ m s. Served s × (n < m)} {Written = λ m s. Served s × (n < m)}
          {Spawned = λ m task s. Served s × (n < m)} c q dest payload numbered
          (λ m. record {
            run = λ s h. (Triple.run (noted-IsServed (connected m dest) tt) s h.0, h.1);
          })
          (λ m. with_data-Keeps payload _ (λ data_bytes.
            write_on-Triple t c m data_bytes
              (record { run = λ s h. (Triple.run (wrote_other m data_bytes h.1) s h.0, h.1) })))
          (λ m. record { run = λ s h. ((h.0.0, h.0.1, omega (arith, h.0.2), h.0.3), h.1) })
          (λ m task. insert-IsServed q (record { upstream = m; reader_task = task }) other)

    pub end_tcp-IsServed : (q : ℕ) → q ≢ id → Triple Served (end_tcp t q) (λ u. Served)
    unfolding end_tcp
    end_tcp-IsServed q other = record {
      run = λ s h.
          let ((y, found, same), alone, made, had) = h in
          let there = laws.get-remove_ne q id s.sessions (λ e. other (sym e)) ∙ found in
          let still =
            λ (k : ℕ) (z : MuxSession) (e : t.tcp.get k (t.tcp.remove q s.sessions).1 ≡ some z)
                (up : z.upstream ≡ n).
              alone k z (was_in q k z s.sessions e) up in
          Option-Ends (λ u. Served) (t.tcp.remove q s.sessions).0 _ _
            (λ e. ((y, there, same), still, made, had))
            (λ x e. (
              (y, there, same),
              still,
              made,
              written_quiet n (shut_down x.upstream) s.events tt ∙ had,
            ));
    }
