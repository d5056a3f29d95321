-- ===== src/Mux/Relay/Handle/Deliver.antt =====
-- What a client sends on a TCP session reaches the outbound stream of the session, and nothing else
-- does.
use v2ray.Prelude.{
  ℕ, ◌==◌, ◌≡◌, ◌≢◌, inl, inr, refl, sym, ap, subst, ◌∙◌, Option, none, some, List, [], ◌∷◌, ◌++◌,
  arith, append-nil, append_assoc, if◌then◌else◌, Bool-cases, ==_iff,
}
use v2ray.Common.Address.{Address}
use v2ray.Common.Maps.{DashMapLaws}
use v2ray.Common.Action.{Triple, bind-Triple, Option-Ends, if-Triple}
use v2ray.Mux.Metadata.{
  FrameMetadata, SessionStatus, new, keep, end, keep_alive, TargetNetwork, net_tcp, net_udp,
  xudp_session_id,
}
use v2ray.Mux.Relay.{MuxSession, Tables, State, Calls, wrote, with_data}
use v2ray.Mux.Relay.Handle.{Frame, on_frame, on_keep, keep_target, write_session, run}
use v2ray.Mux.Relay.Handle.Keeping.{write_on-Triple, lock_upstream-Keeps}
use v2ray.Mux.Relay.Handle.Keep.{keep_udp-Keeps, keep_xudp-Keeps}
use v2ray.Mux.Relay.Handle.Frames.{on_frame-Keeps}
use v2ray.Mux.Relay.Handle.Numbered.{written, written_same, written_other, data_of}
use v2ray.Mux.Relay.Handle.Streams.{
  some_eq, IsServed, noted-IsServed, new_tcp-IsServed, end_tcp-IsServed,
}

-- The data for a session that a `Keep` frame for no UDP target carries.
abbrev pub kept_data : Option (TargetNetwork × Address) → Option (List ℕ) → List ℕ
kept_data (some (net_udp, dest)) payload = []
kept_data target payload = data_of payload

abbrev pub frame_data : SessionStatus → FrameMetadata → Option (List ℕ) → List ℕ
frame_data keep f payload = kept_data f.target payload
frame_data status f payload = []

-- What the frames say on a session after it has been opened.
unfoldable pub said : ℕ → List (Calls × Frame) → List ℕ
said id [] = []
said id ((c, (f, payload)) ∷ frames) =
    let rest = said id frames in
    if f.session_id == id then frame_data f.status f payload ++ rest else rest

-- A frame that neither opens the session again nor ends it.
abbrev pub LeavesOpen : ℕ → SessionStatus → ℕ → Type 0
LeavesOpen id new q = q ≢ id
LeavesOpen id end q = q ≢ id
LeavesOpen id status q = Unit {0}

abbrev pub AllLeaveOpen : ℕ → List (Calls × Frame) → Type 0
AllLeaveOpen id [] = Unit {0}
AllLeaveOpen id ((c, f) ∷ frames) =
    LeavesOpen id (FrameMetadata.status f.0) (FrameMetadata.session_id f.0) × AllLeaveOpen id frames

module _ (t : Tables) (laws : DashMapLaws (Tables.tcp t)) (id n : ℕ) where
  abbrev Served : List ℕ → State t → Type 0
  Served = IsServed t laws id n

  other-IsServed :
      (bytes : List ℕ) (c : Calls) (f : FrameMetadata) (payload : Option (List ℕ))
      → f.session_id ≢ id
      → Triple (Served bytes) (on_frame t c f.status (f, payload)) (λ u. Served bytes)
  other-IsServed bytes c f payload other =
      on_frame-Keeps t (noted-IsServed t laws id n bytes)
        (record { run = λ s h. (h.0, h.1, omega (arith, h.2), h.3) })
        (record { run = λ s h. (h.0, h.1, omega (arith, h.2), h.3) }) (λ s u x a k h. h) c f.status
        f payload refl
        (λ x data_bytes. record {
          run = λ s h.
              let (there, alone, made, had) = h.0 in
              (
                there,
                alone,
                made,
                written_other n x.upstream data_bytes s.events
                      (λ e. other (alone f.session_id x h.1 e))
                    ∙ had,
              );
        })
        (λ dest. new_tcp-IsServed t laws id n bytes c f.session_id dest payload other)
        (end_tcp-IsServed t laws id n bytes f.session_id other)

  write_session-IsServed :
      (bytes data_bytes : List ℕ) (c : Calls)
      → Triple (Served bytes) (write_session t c id data_bytes) (λ u. Served (bytes ++ data_bytes))
  unfolding write_session
  write_session-IsServed bytes data_bytes c = record {
    run = λ s h.
        let ((y, found, same), alone, made, had) = h in
        Option-Ends (λ u. Served (bytes ++ data_bytes)) (t.tcp.get id s.sessions) _ _
          (λ e. absurd (ground (arith, e, found)))
          (λ x e.
            let this : x.upstream ≡ n = ap MuxSession.upstream (some_eq (sym e ∙ found)) ∙ same in
            Triple.run
              (bind-Triple (lock_upstream-Keeps t {P = Served bytes} c) (λ u.
                write_on-Triple t {P = Served bytes} {Q = Served (bytes ++ data_bytes)} c x.upstream
                  data_bytes
                  (record {
                    run = λ s h. (
                      h.0,
                      h.1,
                      h.2,
                      subst (λ m. written n (wrote m data_bytes ∷ s.events) ≡ bytes ++ data_bytes)
                          (sym this)
                          (written_same n data_bytes s.events ∙ ap (λ l. l ++ data_bytes) h.3),
                    );
                  })))
              s h);
  }

  said-IsServed :
      (bytes : List ℕ) (c : Calls) (payload : Option (List ℕ))
      → Triple
          (Served bytes)
          (with_data payload (write_session t c id))
          (λ u. Served (bytes ++ data_of payload))
  said-IsServed bytes c none = rw (append-nil bytes) (record { run = λ s h. h })
  said-IsServed bytes c (some []) = rw (append-nil bytes) (record { run = λ s h. h })
  said-IsServed bytes c (some (b ∷ bs)) = write_session-IsServed bytes (b ∷ bs) c

  keep-IsServed :
      (bytes : List ℕ) (c : Calls) (target : Option (TargetNetwork × Address))
      (payload : Option (List ℕ))
      → Triple
          (Served bytes)
          (keep_target t c id target payload)
          (λ u. Served (bytes ++ kept_data target payload))
  unfolding keep_target
  keep-IsServed bytes c none payload = said-IsServed bytes c payload
  keep-IsServed bytes c (some (net_tcp, dest)) payload = said-IsServed bytes c payload
  keep-IsServed bytes c (some (net_udp, dest)) payload = rw (append-nil bytes) (
      if-Triple (id == xudp_session_id)
        (λ e. keep_xudp-Keeps t (noted-IsServed t laws id n bytes) c dest payload)
        (λ e. keep_udp-Keeps t (noted-IsServed t laws id n bytes) c id dest payload))

  held-IsServed :
      (bytes : List ℕ) (c : Calls) (status : SessionStatus) (f : FrameMetadata)
      (payload : Option (List ℕ))
      → f.session_id ≡ id
      → LeavesOpen id status f.session_id
      → Triple
          (Served bytes)
          (on_frame t c status (f, payload))
          (λ u. Served (bytes ++ frame_data status f payload))
  unfolding on_frame on_keep
  held-IsServed bytes c new f payload e open_still = absurd (open_still e)
  held-IsServed bytes c end f payload e open_still = absurd (open_still e)
  held-IsServed bytes c keep_alive f payload e open_still =
      rw (append-nil bytes) (record { run = λ s h. h })
  held-IsServed bytes c keep f payload e open_still =
      subst
        (λ q.
          Triple (Served bytes) (keep_target t c q f.target payload)
            (λ u. Served (bytes ++ kept_data f.target payload)))
        (sym e) (keep-IsServed bytes c f.target payload)

  pub run-IsServed :
      (frames : List (Calls × Frame)) (bytes : List ℕ)
      → AllLeaveOpen id frames
      → Triple (Served bytes) (run t frames) (λ u. Served (bytes ++ said id frames))
  unfolding run said
  run-IsServed [] bytes all = rw (append-nil bytes) (record { run = λ s h. h })
  run-IsServed ((c, (f, payload)) ∷ frames) bytes all = elim (Bool-cases (f.session_id == id)) [
    | inl same ↦
        let this = frame_data f.status f payload in
        rw (same, sym (append_assoc bytes this (said id frames)))
          (bind-Triple
            (held-IsServed bytes c f.status f payload ((==_iff f.session_id id).0 same) all.0)
            (λ u. run-IsServed frames (bytes ++ this) all.1))
    | inr differ ↦
        let other : f.session_id ≢ id = λ e. absurd (ground (arith, e, differ)) in
        rw differ (
          bind-Triple (other-IsServed bytes c f payload other)
            (λ u. run-IsServed frames bytes all.1))
  ]
