-- ===== src/Mux/Relay/Handle/Frames.antt =====
-- A frame keeps what is said of the TCP sessions and their streams alone, if what it does to them
-- keeps it.
use v2ray.Prelude.{ℕ, ◌==◌, ◌≡◌, refl, Option, none, some, List}
use v2ray.Common.Address.{Address}
use v2ray.Common.Action.{Triple, bind-Triple, modify-Triple, Option-Ends, if-Triple}
use v2ray.Mux.Metadata.{
  FrameMetadata, SessionStatus, new, keep, end, keep_alive, TargetNetwork, net_tcp, net_udp,
  is_xudp_metadata, xudp_session_id,
}
use v2ray.Mux.Relay.{
  MuxSession, MuxUdpSession, XudpUdpSession, Tables, State, Calls, note, Event, spawn, fresh, wrote,
  forget_xudp, new_tcp, insert_udp, insert_xudp,
}
use v2ray.Mux.Relay.Handle.{
  on_new, on_keep, on_end, on_frame, start_target, start_xudp, end_tcp, end_udp, end_xudp,
}
use v2ray.Mux.Relay.Handle.Active.{no_missing_id}
use v2ray.Mux.Relay.Handle.New.{new_xudp-Triple, new_udp-Triple}
use v2ray.Mux.Relay.Handle.Keeping.{IsQuiet, with_data-Keeps}
use v2ray.Mux.Relay.Handle.Keep.{keep_target-Keeps, ignoring-Keeps}

module _ (t : Tables) {P : State t → Type 0}
    (noted : (e : Event) → IsQuiet e → Triple P (note t e) (λ u. P))
    (numbered : Triple P (fresh t) (λ n. P)) (spawned : Triple P (spawn t) (λ n. P))
    (others : (s : State t) (u : t.udp.Map) (x : t.xudp.Map) (a : Option (List ℕ)) (k : List ℕ)
      → P s
      → P (record s { udp_sessions = u; xudp_sessions = x; active_xudp = a; tasks = k })) where
  insert_udp-Keeps : (id : ℕ) (x : MuxUdpSession) → Triple P (insert_udp t id x) (λ u. P)
  insert_udp-Keeps id x =
      modify-Triple
        (λ s h. others s (t.udp.insert id x s.udp_sessions) s.xudp_sessions s.active_xudp s.tasks h)

  insert_xudp-Keeps : (gid : List ℕ) (x : XudpUdpSession) → Triple P (insert_xudp t gid x) (λ u. P)
  insert_xudp-Keeps gid x =
      modify-Triple
        (λ s h. others s s.udp_sessions (t.xudp.insert gid x s.xudp_sessions) (some gid) s.tasks h)

  forget_xudp-Keeps : (gid : List ℕ) → Triple P (forget_xudp t gid) (λ u. P)
  unfolding forget_xudp
  forget_xudp-Keeps gid = record {
    run = λ s h.
        Option-Ends (λ u. P) (t.xudp.remove gid s.xudp_sessions).0 _ _
          (λ e. others s s.udp_sessions _ s.active_xudp s.tasks h)
          (λ x e. others s s.udp_sessions _ s.active_xudp _ h);
  }

  end_udp-Keeps : (id : ℕ) → Triple P (end_udp t id) (λ u. P)
  unfolding end_udp
  end_udp-Keeps id = record {
    run = λ s h.
        Option-Ends (λ u. P) (t.udp.remove id s.udp_sessions).0 _ _
          (λ e. others s _ s.xudp_sessions s.active_xudp s.tasks h)
          (λ x e. others s _ s.xudp_sessions s.active_xudp _ h);
  }

  end_xudp-Keeps : Triple P (end_xudp t) (λ u. P)
  unfolding end_xudp
  end_xudp-Keeps = record {
    run = λ s h.
        let closed : P (record s { active_xudp = none }) =
          others s s.udp_sessions s.xudp_sessions none s.tasks h in
        Option-Ends (λ u. P) s.active_xudp _ _ (λ e. closed)
          (λ old e. Triple.run (forget_xudp-Keeps old) (record s { active_xudp = none }) closed);
  }

  start_xudp-Keeps :
      (c : Calls) (target : Option (TargetNetwork × Address)) (gid payload : Option (List ℕ))
      → ¬ (gid ≡ none)
      → Triple P (start_xudp t c target gid payload) (λ u. P)
  unfolding start_xudp
  start_xudp-Keeps c none gid payload n = record { run = λ s h. tt }
  start_xudp-Keeps c (some (k, dest)) none payload n = absurd (n refl)
  start_xudp-Keeps c (some (k, dest)) (some gid) payload n =
      new_xudp-Triple t {Spawned = λ task. P} noted numbered spawned c dest gid payload
        (forget_xudp-Keeps gid)
        (λ socket task. insert_xudp-Keeps gid (record { socket = socket; reader_task = task }))

  start_target-Keeps :
      (c : Calls) (id : ℕ) (target : Option (TargetNetwork × Address)) (payload : Option (List ℕ))
      → ((dest : Address) → Triple P (new_tcp t c id dest payload) (λ u. P))
      → Triple P (start_target t c id target payload) (λ u. P)
  unfolding start_target
  start_target-Keeps c id none payload tcp = record { run = λ s h. tt }
  start_target-Keeps c id (some (net_tcp, dest)) payload tcp = tcp dest
  start_target-Keeps c id (some (net_udp, dest)) payload tcp =
      new_udp-Triple t {Spawned = λ task. P} noted numbered spawned c id dest payload
        (λ socket task.
          insert_udp-Keeps id (record { socket = socket; dest = dest; reader_task = task }))

  pub on_new-Keeps :
      (c : Calls) (f : FrameMetadata) (payload : Option (List ℕ))
      → f.status ≡ new
      → ((dest : Address) → Triple P (new_tcp t c f.session_id dest payload) (λ u. P))
      → Triple P (on_new t c (f, payload)) (λ u. P)
  unfolding on_new
  on_new-Keeps c f payload e tcp =
      if-Triple (is_xudp_metadata f)
        (λ x. start_xudp-Keeps c f.target f.global_id payload (no_missing_id t f x e))
        (λ x. start_target-Keeps c f.session_id f.target payload tcp)

  -- What a frame writes to the TCP session of its id keeps it.
  abbrev pub Writes : ℕ → Type 0
  Writes id =
      (x : MuxSession) (bytes : List ℕ)
      → Triple (λ s. P s × (t.tcp.get id s.sessions ≡ some x)) (note t (wrote x.upstream bytes))
          (λ u. P)

  pub on_end-Keeps :
      (c : Calls) (f : FrameMetadata) (payload : Option (List ℕ))
      → Writes f.session_id
      → Triple P (end_tcp t f.session_id) (λ u. P)
      → Triple P (on_end t c (f, payload)) (λ u. P)
  unfolding on_end
  on_end-Keeps c f payload writes tcp =
      bind-Triple
        (with_data-Keeps payload _ (λ bytes. ignoring-Keeps t noted f.session_id writes c bytes))
        (λ u. bind-Triple tcp (λ u. bind-Triple (end_udp-Keeps f.session_id) (λ u.
          if-Triple (f.session_id == xudp_session_id) (λ e. end_xudp-Keeps)
            (λ e. record { run = λ s h. h }))))

  pub on_frame-Keeps :
      (c : Calls) (status : SessionStatus) (f : FrameMetadata) (payload : Option (List ℕ))
      → f.status ≡ status
      → Writes f.session_id
      → ((dest : Address) → Triple P (new_tcp t c f.session_id dest payload) (λ u. P))
      → Triple P (end_tcp t f.session_id) (λ u. P)
      → Triple P (on_frame t c status (f, payload)) (λ u. P)
  unfolding on_frame on_keep
  on_frame-Keeps c new f payload e writes tcp ends = on_new-Keeps c f payload e tcp
  on_frame-Keeps c keep f payload e writes tcp ends =
      keep_target-Keeps t noted f.session_id writes c f.target payload
  on_frame-Keeps c end f payload e writes tcp ends = on_end-Keeps c f payload writes ends
  on_frame-Keeps c keep_alive f payload e writes tcp ends = record { run = λ s h. h }
