-- ===== src/Mux/Relay/Handle/Close.antt =====
-- Through the frames of a relay, every reader task that runs is the reader of a session.
use v2ray.Prelude.{ℕ, ◌==◌, ◌≡◌, refl, Option, none, some, List, [], ◌∷◌}
use v2ray.Common.Address.{Address}
use v2ray.Common.Maps.{DashMapLaws}
use v2ray.Common.Action.{Ends-map, Ends-both, Triple, bind-Triple, Option-Ends, if-Triple}
use v2ray.Mux.Metadata.{
  FrameMetadata, SessionStatus, new, keep, end, keep_alive, TargetNetwork, net_tcp, net_udp,
  is_xudp_metadata, xudp_session_id,
}
use v2ray.Mux.Relay.{forget_xudp, Calls, Tables, State, note, Event, spawn}
use v2ray.Mux.Relay.Handle.{
  Frame, on_new, on_keep, on_end, on_frame, run, start_target, start_xudp, end_xudp,
}
use v2ray.Mux.Relay.Handle.Active.{no_missing_id}
use v2ray.Mux.Relay.Handle.New.{new_xudp-Triple, new_tcp-Triple, new_udp-Triple}
use v2ray.Mux.Relay.Handle.Keeping.{write_on-Triple, IsQuiet, with_data-Keeps}
use v2ray.Mux.Relay.Handle.Keep.{keep_target-Keeps, ignoring-Keeps}
use v2ray.Mux.Relay.Handle.Tasks.{
  AllKnown, KnownBut, spawn-KnownBut, insert_tcp-AllKnown, insert_udp-AllKnown,
  insert_xudp-AllKnown, forget_xudp-AllKnown, end_tcp-AllKnown, end_udp-AllKnown,
}

module _ (t : Tables) where
  -- No TCP or UDP session has the id of a `New` frame.
  abbrev pub IsUnused : SessionStatus → ℕ → State t → Type 0
  IsUnused new id s = (t.tcp.get id s.sessions ≡ none) × (t.udp.get id s.udp_sessions ≡ none)
  IsUnused status id s = Unit {0}

  unfoldable pub NoReuse : List (Calls × Frame) → State t → Type 0
  NoReuse [] s = Unit {0}
  NoReuse ((c, f) ∷ frames) s =
      IsUnused (FrameMetadata.status f.0) (FrameMetadata.session_id f.0) s
      × NoReuse frames (on_frame t c (FrameMetadata.status f.0) f s).1

  module _ (tcp_laws : DashMapLaws (Tables.tcp t)) (udp_laws : DashMapLaws (Tables.udp t))
      (xudp_laws : DashMapLaws (Tables.xudp t)) where
    abbrev pub Known : State t → Type 0
    Known = AllKnown t tcp_laws udp_laws xudp_laws

    abbrev But : ℕ → State t → Type 0
    But = KnownBut t tcp_laws udp_laws xudp_laws

    spawned :
        {X : State t → Type 0}
        → ((s : State t) → X s → X (spawn t s).1)
        → Triple (λ s. Known s × X s) (spawn t) (λ n s. But n s × X s)
    spawned x = record {
      run = λ s h. (Triple.run (spawn-KnownBut t tcp_laws udp_laws xudp_laws) s h.0, x s h.1);
    }

    start_target-Known :
        (c : Calls) (id : ℕ) (target : Option (TargetNetwork × Address)) (payload : Option (List ℕ))
        → Triple
            (λ s. Known s × IsUnused new id s)
            (start_target t c id target payload)
            (λ u. Known)
    unfolding start_target
    start_target-Known c id none payload = record { run = λ s h. tt }
    start_target-Known c id (some (net_tcp, dest)) payload =
        new_tcp-Triple t {Made = λ n s. Known s × IsUnused new id s}
          {Written = λ n s. Known s × IsUnused new id s}
          {Spawned = λ n task s. But task s × IsUnused new id s} c id dest payload
          (record { run = λ s h. h }) (λ n. record { run = λ s h. h })
          (λ n.
            with_data-Keeps payload _
              (λ bytes. write_on-Triple t c n bytes (record { run = λ s h. h })))
          (λ n. spawned (λ s h. h))
          (λ upstream task. record {
            run = λ s h.
                Triple.run
                  (insert_tcp-AllKnown t tcp_laws udp_laws xudp_laws id
                    (record { upstream = upstream; reader_task = task }))
                  s (h.0, h.1.0);
          })
    start_target-Known c id (some (net_udp, dest)) payload =
        new_udp-Triple t {Spawned = λ n s. But n s × IsUnused new id s}
          (λ e q. record { run = λ s h. h }) (record { run = λ s h. h }) (spawned (λ s h. h)) c id
          dest payload
          (λ socket task. record {
            run = λ s h.
                Triple.run
                  (insert_udp-AllKnown t tcp_laws udp_laws xudp_laws id
                    (record { socket = socket; dest = dest; reader_task = task }))
                  s (h.0, h.1.1);
          })

    start_xudp-Known :
        (c : Calls) (target : Option (TargetNetwork × Address)) (gid payload : Option (List ℕ))
        → ¬ (gid ≡ none)
        → Triple Known (start_xudp t c target gid payload) (λ u. Known)
    unfolding start_xudp
    start_xudp-Known c none gid payload n = record { run = λ s h. tt }
    start_xudp-Known c (some (k, dest)) none payload n = absurd (n refl)
    start_xudp-Known c (some (k, dest)) (some gid) payload n =
        new_xudp-Triple t {Spawned = λ n s. But n s × (t.xudp.get gid s.xudp_sessions ≡ none)}
          (λ e q. record { run = λ s h. h }) (record { run = λ s h. h }) (spawned (λ s h. h)) c dest
          gid payload (forget_xudp-AllKnown t tcp_laws udp_laws xudp_laws gid)
          (λ socket task.
            insert_xudp-AllKnown t tcp_laws udp_laws xudp_laws gid
              (record { socket = socket; reader_task = task }))

    noted : (e : Event) → IsQuiet e → Triple Known (note t e) (λ u. Known)
    noted e q = record { run = λ s h. h }

    end_xudp-Known : Triple Known (end_xudp t) (λ u. Known)
    unfolding end_xudp
    end_xudp-Known = record {
      run = λ s h.
          Option-Ends (λ u. Known) s.active_xudp _ _ (λ e. h)
            (λ old e.
              let closed : State t = record s { active_xudp = none } in
              Ends-map _ (λ u. Known) (λ u s h. h.0) (forget_xudp t old closed)
                (Triple.run (forget_xudp-AllKnown t tcp_laws udp_laws xudp_laws old) closed h));
    }

    on_end-Known : (c : Calls) (f : Frame) → Triple Known (on_end t c f) (λ u. Known)
    unfolding on_end
    on_end-Known c (f, payload) =
        bind-Triple
          (with_data-Keeps payload _ (λ bytes.
            ignoring-Keeps t noted f.session_id (λ x bytes. record { run = λ s h. h.0 }) c bytes))
          (λ u. bind-Triple (end_tcp-AllKnown t tcp_laws udp_laws xudp_laws f.session_id) (λ u.
            bind-Triple (end_udp-AllKnown t tcp_laws udp_laws xudp_laws f.session_id) (λ u.
              if-Triple (f.session_id == xudp_session_id) (λ e. end_xudp-Known)
                (λ e. record { run = λ s h. h }))))

    on_frame-Known :
        (c : Calls) (status : SessionStatus) (f : Frame)
        → FrameMetadata.status f.0 ≡ status
        → Triple
            (λ s. Known s × IsUnused status (FrameMetadata.session_id f.0) s)
            (on_frame t c status f)
            (λ u. Known)
    unfolding on_frame on_new on_keep
    on_frame-Known c new (f, payload) e =
        if-Triple (is_xudp_metadata f)
          (λ x. record {
            run = λ s h.
                Triple.run (start_xudp-Known c f.target f.global_id payload (no_missing_id t f x e))
                  s h.0;
          })
          (λ x. start_target-Known c f.session_id f.target payload)
    on_frame-Known c keep (f, payload) e = record {
      run = λ s h.
          Triple.run
            (keep_target-Keeps t noted f.session_id (λ x bytes. record { run = λ s h. h.0 }) c
              f.target payload)
            s h.0;
    }
    on_frame-Known c end f e = record { run = λ s h. Triple.run (on_end-Known c f) s h.0 }
    on_frame-Known c keep_alive f e = record { run = λ s h. h.0 }

    pub run-Known :
        (frames : List (Calls × Frame))
        → Triple (λ s. Known s × NoReuse frames s) (run t frames) (λ u. Known)
    unfolding run NoReuse
    run-Known [] = record { run = λ s h. h.0 }
    run-Known ((c, f) ∷ frames) =
        bind-Triple
          (record {
            run = λ s h.
                Ends-both Known (NoReuse frames) (on_frame t c (FrameMetadata.status f.0) f s) h.1.1
                  (Triple.run (on_frame-Known c (FrameMetadata.status f.0) f refl) s (h.0, h.1.0));
          })
          (λ u. run-Known frames)
