-- ===== src/Mux/Relay/Handle/Active.antt =====
-- The active XUDP flow of a relay is in its table, and the `expect` on a global id never panics.
use v2ray.Prelude.{
  ℕ, ◌==◌, ◌≡◌, ◌⊎◌, inl, inr, refl, subst, ◌∙◌, true, Option, none, some, List, [], ◌∷◌, arith,
}
use v2ray.Common.Address.{Address}
use v2ray.Common.Maps.{DashMapLaws, bytes_dec}
use v2ray.Common.Action.{Ends, Triple, bind-Triple, Option-Ends, if-Triple}
use v2ray.Mux.Metadata.{
  xudp_status, FrameMetadata, SessionStatus, new, keep, end, keep_alive, TargetNetwork, net_tcp,
  net_udp, is_xudp_metadata, xudp_session_id,
}
use v2ray.Mux.Relay.{
  start, XudpUdpSession, Calls, Tables, State, note, Event, forget_xudp, new_xudp, connected,
}
use v2ray.Mux.Relay.Handle.{
  Frame, on_new, on_keep, on_end, on_frame, run, start_target, start_xudp, end_tcp, end_udp,
  end_xudp,
}
use v2ray.Mux.Relay.Handle.New.{new_xudp-Triple, new_tcp-Triple, new_udp-Triple}
use v2ray.Mux.Relay.Handle.Keeping.{IsQuiet, write_on-Triple, with_data-Keeps}
use v2ray.Mux.Relay.Handle.Keep.{keep_target-Keeps, ignoring-Keeps}

module _ (t : Tables) where
  -- The flow that is active, if there is one, is a flow of the table.
  abbrev pub HasActive : State t → Type 0
  HasActive s =
      (gid : List ℕ)
      → s.active_xudp ≡ some gid
      → (x : XudpUdpSession) × (t.xudp.get gid s.xudp_sessions ≡ some x)

  abbrev HasActiveBut : List ℕ → State t → Type 0
  HasActiveBut old s =
      (gid : List ℕ)
      → s.active_xudp ≡ some gid
      → (gid ≡ old) ⊎ ((x : XudpUdpSession) × (t.xudp.get gid s.xudp_sessions ≡ some x))

  module _ (laws : DashMapLaws (Tables.xudp t)) where
    kept :
        (old : List ℕ) (s : State t)
        → HasActive s
        → (gid : List ℕ) → s.active_xudp ≡ some gid
        → (gid ≡ old)
          ⊎ ((x : XudpUdpSession) × (t.xudp.get gid (t.xudp.remove old s.xudp_sessions).1 ≡ some x))
    kept old s h gid e = elim (bytes_dec gid old) [
      | yes same ↦ inl same
      | no other ↦
          let (x, found) = h gid e in
          inr (x, laws.get-remove_ne old gid s.xudp_sessions other ∙ found)
    ]

    forget_xudp-But : (old : List ℕ) → Triple HasActive (forget_xudp t old) (λ u. HasActiveBut old)
    unfolding forget_xudp
    forget_xudp-But old = record {
      run = λ s h.
          Option-Ends (λ u. HasActiveBut old) (t.xudp.remove old s.xudp_sessions).0 _ _
            (λ e. kept old s h) (λ x e. kept old s h);
    }

    insert-HasActive :
        (gid : List ℕ) (x : XudpUdpSession) (s : State t)
        → HasActive (record s {
          xudp_sessions = t.xudp.insert gid x s.xudp_sessions;
          active_xudp = some gid;
        })
    insert-HasActive gid x s q e = (
      x,
      subst (λ k. t.xudp.get k (t.xudp.insert gid x s.xudp_sessions) ≡ some x) (ground arith)
          (laws.get-insert gid x s.xudp_sessions),
    )

    new_xudp-HasActive :
        (c : Calls) (dest : Address) (gid : List ℕ) (payload : Option (List ℕ))
        → Triple HasActive (new_xudp t c dest gid payload) (λ u. HasActive)
    new_xudp-HasActive c dest gid payload =
        new_xudp-Triple t {P = HasActiveBut gid} {Spawned = λ n. HasActiveBut gid}
          (λ e q. record { run = λ s h. h }) (record { run = λ s h. h }) (record { run = λ s h. h })
          c dest gid payload (forget_xudp-But gid)
          (λ socket task. record {
            run = λ s h. insert-HasActive gid (record { socket = socket; reader_task = task }) s;
          })

  pub noted_active : (e : Event) → IsQuiet e → Triple HasActive (note t e) (λ u. HasActive)
  noted_active e q = record { run = λ s h. h }

  start_target-HasActive :
      (c : Calls) (id : ℕ) (target : Option (TargetNetwork × Address)) (payload : Option (List ℕ))
      → Triple HasActive (start_target t c id target payload) (λ u. HasActive)
  unfolding start_target
  start_target-HasActive c id none payload = record { run = λ s h. tt }
  start_target-HasActive c id (some (net_tcp, dest)) payload =
      new_tcp-Triple t {Made = λ n. HasActive} {Written = λ n. HasActive}
        {Spawned = λ n task. HasActive} c id dest payload (record { run = λ s h. h })
        (λ n. noted_active (connected n dest) tt)
        (λ n.
          with_data-Keeps payload _
            (λ bytes. write_on-Triple t c n bytes (record { run = λ s h. h })))
        (λ n. record { run = λ s h. h }) (λ n task. record { run = λ s h. h })
  start_target-HasActive c id (some (net_udp, dest)) payload =
      new_udp-Triple t {Spawned = λ n. HasActive} noted_active (record { run = λ s h. h })
        (record { run = λ s h. h }) c id dest payload (λ socket task. record { run = λ s h. h })

  end_tcp-HasActive : (id : ℕ) → Triple HasActive (end_tcp t id) (λ u. HasActive)
  unfolding end_tcp
  end_tcp-HasActive id = record {
    run =
        λ s h. Option-Ends (λ u. HasActive) (t.tcp.remove id s.sessions).0 _ _ (λ e. h) (λ x e. h);
  }

  end_udp-HasActive : (id : ℕ) → Triple HasActive (end_udp t id) (λ u. HasActive)
  unfolding end_udp
  end_udp-HasActive id = record {
    run = λ s h.
        Option-Ends (λ u. HasActive) (t.udp.remove id s.udp_sessions).0 _ _ (λ e. h) (λ x e. h);
  }

  no_flow : {X : Type 0} (gid : List ℕ) → Path (Option (List ℕ)) none (some gid) → X
  no_flow gid e = absurd (ground arith)

  -- Nothing is active after it, whatever was.
  end_xudp-HasActive : Triple HasActive (end_xudp t) (λ u. HasActive)
  unfolding end_xudp forget_xudp
  end_xudp-HasActive = record {
    run = λ s h.
        Option-Ends (λ u. HasActive) s.active_xudp _ _ (λ e gid. no_flow gid)
          (λ old e.
            Option-Ends (λ u. HasActive) (t.xudp.remove old s.xudp_sessions).0 _ _
              (λ e gid. no_flow gid) (λ x e gid. no_flow gid));
  }

  on_end-HasActive : (c : Calls) (f : Frame) → Triple HasActive (on_end t c f) (λ u. HasActive)
  unfolding on_end
  on_end-HasActive c (f, payload) =
      bind-Triple
        (with_data-Keeps payload _ (λ bytes.
          ignoring-Keeps t noted_active f.session_id (λ x bytes. record { run = λ s h. h.0 }) c
            bytes))
        (λ u. bind-Triple (end_tcp-HasActive f.session_id) (λ u.
          bind-Triple (end_udp-HasActive f.session_id) (λ u.
            if-Triple (f.session_id == xudp_session_id) (λ e. end_xudp-HasActive)
              (λ e. record { run = λ s h. h }))))

  -- A `New` frame that is taken for XUDP has a global id.
  pub no_missing_id :
      (f : FrameMetadata) → is_xudp_metadata f ≡ true → f.status ≡ new → ¬ (f.global_id ≡ none)
  unfolding is_xudp_metadata xudp_status
  no_missing_id f x s n = ground (arith, n, s)

  module _ (laws : DashMapLaws (Tables.xudp t)) where
    start_xudp-HasActive :
        (c : Calls) (target : Option (TargetNetwork × Address)) (gid payload : Option (List ℕ))
        → ¬ (gid ≡ none)
        → Triple HasActive (start_xudp t c target gid payload) (λ u. HasActive)
    unfolding start_xudp
    start_xudp-HasActive c none gid payload n = record { run = λ s h. tt }
    start_xudp-HasActive c (some (k, dest)) none payload n = absurd (n refl)
    start_xudp-HasActive c (some (k, dest)) (some gid) payload n =
        new_xudp-HasActive laws c dest gid payload

    on_frame-HasActive :
        (c : Calls) (status : SessionStatus) (f : Frame)
        → FrameMetadata.status f.0 ≡ status
        → Triple HasActive (on_frame t c status f) (λ u. HasActive)
    unfolding on_frame on_new on_keep
    on_frame-HasActive c new (f, payload) e =
        if-Triple (is_xudp_metadata f)
          (λ x. start_xudp-HasActive c f.target f.global_id payload (no_missing_id f x e))
          (λ x. start_target-HasActive c f.session_id f.target payload)
    on_frame-HasActive c keep (f, payload) e =
        keep_target-Keeps t noted_active f.session_id (λ x bytes. record { run = λ s h. h.0 }) c
          f.target payload
    on_frame-HasActive c end f e = on_end-HasActive c f
    on_frame-HasActive c keep_alive f e = record { run = λ s h. h }

    run-HasActive :
        (frames : List (Calls × Frame)) → Triple HasActive (run t frames) (λ u. HasActive)
    unfolding run
    run-HasActive [] = record { run = λ s h. h }
    run-HasActive ((c, f) ∷ frames) =
        bind-Triple (on_frame-HasActive c (FrameMetadata.status f.0) f refl)
          (λ u. run-HasActive frames)

    -- The loop over any frames, from empty tables and with any outcomes of the calls, never panics;
    -- if no frame ends it with an error or waits for ever for a lock, then the XUDP flow that is active, if there is one, is in
    -- the table of flows.
    pub run_start-HasActive :
        (frames : List (Calls × Frame)) → Ends (λ u. HasActive) (run t frames (start t))
    run_start-HasActive frames = Triple.run (run-HasActive frames) (start t) (λ gid. no_flow gid)
