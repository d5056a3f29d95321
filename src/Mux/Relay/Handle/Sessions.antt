-- ===== src/Mux/Relay/Handle/Sessions.antt =====
-- A TCP session from the frame that opens it on.
use native.Mathlib.Decide.{ℕ_discrete}
use v2ray.Prelude.{ℕ, ◌≡◌, refl, sym, subst, ◌∙◌, false, Option, some, List, [], ◌∷◌, ◌++◌, arith}
use v2ray.Common.Address.{Address}
use v2ray.Common.Maps.{DashMapLaws}
use v2ray.Common.Action.{Ends-map, Ends, Triple, bind-Triple, modify-Triple, if-Triple}
use v2ray.Mux.Metadata.{FrameMetadata, new, TargetNetwork, net_tcp, is_xudp_metadata, is_udp_target}
use v2ray.Mux.Relay.{MuxSession, Tables, State, Calls, connected, new_tcp, insert_tcp, start}
use v2ray.Mux.Relay.Handle.{Frame, on_frame, on_new, start_target, run}
use v2ray.Mux.Relay.Handle.New.{new_tcp-Triple}
use v2ray.Mux.Relay.Handle.Numbered.{
  written, IsNumbered, HasNew, fresh-HasNew, noted-HasNew, with_data-HasNew, spawn-HasNew, data_of,
}
use v2ray.Mux.Relay.Handle.Streams.{on_frame-IsNumbered, IsServed}
use v2ray.Mux.Relay.Handle.Deliver.{said, AllLeaveOpen, run-IsServed}

module _ (t : Tables) (laws : DashMapLaws (Tables.tcp t)) where
  abbrev Opened : ℕ → List ℕ → State t → Type 0
  Opened id bytes s = (n : ℕ) × IsServed t laws id n bytes s

  -- The session is in the table, and its stream has had the bytes.
  abbrev pub HasSent : ℕ → List ℕ → State t → Type 0
  HasSent id bytes s =
      (x : MuxSession) × (t.tcp.get id s.sessions ≡ some x) × (written x.upstream s.events ≡ bytes)

  insert-Opened :
      (id n task : ℕ) (bytes : List ℕ)
      → Triple
          (HasNew t bytes n)
          (insert_tcp t id (record { upstream = n; reader_task = task }))
          (λ u. Opened id bytes)
  insert-Opened id n task bytes = modify-Triple (λ s h.
      let x : MuxSession = record { upstream = n; reader_task = task } in
      (
        n,
        (
          (x, laws.get-insert id x s.sessions, refl),
          (λ q y e up. elim (ℕ_discrete q id) [
            | yes same ↦ same
            | no other ↦
                let below = h.2 q y (sym (laws.get-insert_ne id q x s.sessions other) ∙ e) in
                absurd (omega (arith, below, up))
          ]),
          h.1,
          h.3,
        ),
      ))

  new_tcp-Opened :
      (c : Calls) (id : ℕ) (dest : Address) (payload : Option (List ℕ))
      → Triple (IsNumbered t) (new_tcp t c id dest payload) (λ u. Opened id (data_of payload))
  new_tcp-Opened c id dest payload =
      new_tcp-Triple t {Made = HasNew t []} {Written = HasNew t (data_of payload)}
        {Spawned = λ n task. HasNew t (data_of payload) n} c id dest payload (fresh-HasNew t)
        (λ n. noted-HasNew t [] n (connected n dest) tt) (λ n. with_data-HasNew t c payload n)
        (λ n. spawn-HasNew t (data_of payload) n)
        (λ n task. insert-Opened id n task (data_of payload))

  start_target-Opened :
      (c : Calls) (id : ℕ) (target : Option (TargetNetwork × Address)) (dest : Address)
      (payload : Option (List ℕ))
      → target ≡ some (net_tcp, dest)
      → Triple
          (IsNumbered t)
          (start_target t c id target payload)
          (λ u. Opened id (data_of payload))
  unfolding start_target
  start_target-Opened c id target dest payload e =
      subst
        (λ k.
          Triple (IsNumbered t) (start_target t c id k payload) (λ u. Opened id (data_of payload)))
        (sym e) (new_tcp-Opened c id dest payload)

  not_xudp :
      (f : FrameMetadata) (dest : Address)
      → f.target ≡ some (net_tcp, dest)
      → is_xudp_metadata f ≡ false
  unfolding is_xudp_metadata is_udp_target
  not_xudp f dest e = ground (arith, e)

  on_frame-Opened :
      (c : Calls) (f : FrameMetadata) (dest : Address) (payload : Option (List ℕ))
      → f.status ≡ new
      → f.target ≡ some (net_tcp, dest)
      → Triple
          (IsNumbered t)
          (on_frame t c f.status (f, payload))
          (λ u. Opened f.session_id (data_of payload))
  unfolding on_frame on_new
  on_frame-Opened c f dest payload e k =
      subst
        (λ status.
          Triple (IsNumbered t) (on_frame t c status (f, payload))
            (λ u. Opened f.session_id (data_of payload)))
        (sym e)
        (if-Triple (is_xudp_metadata f) (λ x. absurd (ground (arith, x, not_xudp f dest k)))
          (λ x. start_target-Opened c f.session_id f.target dest payload k))

  run_after-Opened :
      (frames : List (Calls × Frame)) (id : ℕ) (bytes : List ℕ)
      → AllLeaveOpen id frames
      → Triple (Opened id bytes) (run t frames) (λ u. Opened id (bytes ++ said id frames))
  run_after-Opened frames id bytes all = record {
    run = λ s h.
        Ends-map (λ u. IsServed t laws id h.0 (bytes ++ said id frames))
          (λ u. Opened id (bytes ++ said id frames)) (λ u s k. (h.0, k)) (run t frames s)
          (Triple.run (run-IsServed t laws id h.0 frames bytes all) s h.1);
  }

  run-Opened :
      (before after : List (Calls × Frame)) (c : Calls) (f : FrameMetadata) (dest : Address)
      (payload : Option (List ℕ))
      → f.status ≡ new
      → f.target ≡ some (net_tcp, dest)
      → AllLeaveOpen f.session_id after
      → Triple
          (IsNumbered t)
          (run t (before ++ ((c, (f, payload)) ∷ after)))
          (λ u. Opened f.session_id (data_of payload ++ said f.session_id after))
  unfolding run
  run-Opened [] after c f dest payload e k all =
      bind-Triple (on_frame-Opened c f dest payload e k)
        (λ u. run_after-Opened after f.session_id (data_of payload) all)
  run-Opened ((b, g) ∷ before) after c f dest payload e k all =
      bind-Triple (on_frame-IsNumbered t laws b g)
        (λ u. run-Opened before after c f dest payload e k all)

  -- In a relay that starts with empty tables, after any frames, a `New` frame that opens a TCP
  -- session, and any frames of which none opens a session of that id again or ends it: the relay
  -- has not panicked, and if no frame ended the loop with an error or waits for ever for the lock of
  -- an outbound stream, the session is in the table,
  -- and the bytes written to its outbound stream are the data of the `New` frame followed by the
  -- data of the `Keep` frames of the session that have no UDP target, in order.
  pub run-delivers :
      (before after : List (Calls × Frame)) (c : Calls) (f : FrameMetadata) (dest : Address)
      (payload : Option (List ℕ))
      → f.status ≡ new
      → f.target ≡ some (net_tcp, dest)
      → AllLeaveOpen f.session_id after
      → Ends
          (λ u. HasSent f.session_id (data_of payload ++ said f.session_id after))
          (run t (before ++ ((c, (f, payload)) ∷ after)) (start t))
  unfolding written
  run-delivers before after c f dest payload e k all =
      let sent = data_of payload ++ said f.session_id after in
      Ends-map (λ u. Opened f.session_id sent) (λ u. HasSent f.session_id sent)
        (λ u s h.
          let (n, ((x, found, same), alone, made, had)) = h in
          (x, found, subst (λ m. written m s.events ≡ sent) (sym same) had))
        (run t (before ++ ((c, (f, payload)) ∷ after)) (start t))
        (Triple.run (run-Opened before after c f dest payload e k all) (start t)
          ((λ q y there. absurd (ground (arith, there, laws.get-new q))), λ u le. refl))
