-- ===== src/Mux/Relay/Handle/Keep.antt =====
-- What is said of the tables stays true through a `Keep` frame, and through the data of an `End`.
use v2ray.Prelude.{
  ◌≡◌, ℕ, ◌==◌, Bool, true, false, Option, none, some, List, Option-cases, inl, inr,
}
use v2ray.Common.Result.{Result, ok, err, panic, stuck, IoKind}
use v2ray.Common.Address.{Address}
use v2ray.Common.Action.{◌>>◌, lift, Ends, bind-Triple, or_fail, Triple, Option-Ends, if-Triple}
use v2ray.Mux.Metadata.{TargetNetwork, net_tcp, net_udp, xudp_session_id}
use v2ray.Mux.Relay.{
  MuxSession, granted, Calls, Tables, State, note, Event, failed_write, or_transport, wrote, sent,
}
use v2ray.Mux.Relay.Handle.{
  same_address, write_session, keep_xudp, keep_udp, keep_target, ignoring, forget_error,
}
use v2ray.Mux.Relay.Handle.Keeping.{
  write_on-Triple, lock_upstream-Keeps, IsQuiet, with_data-Keeps, send_on-Keeps, send_to_dest-Keeps,
}

module _ (t : Tables) {P : State t → Type 0}
    (noted : (e : Event) → IsQuiet e → Triple P (note t e) (λ u. P)) where
  pub keep_xudp-Keeps :
      (c : Calls) (dest : Address) (payload : Option (List ℕ))
      → Triple P (keep_xudp t c dest payload) (λ u. P)
  unfolding keep_xudp
  keep_xudp-Keeps c dest payload = record {
    run = λ s p.
        Option-Ends (λ u. P) s.active_xudp _ _ (λ e. p)
          (λ gid e.
            Option-Ends (λ u. P) (t.xudp.get gid s.xudp_sessions) _ _ (λ e. p)
              (λ x e.
                Triple.run
                  (with_data-Keeps payload _
                    (λ bytes. send_to_dest-Keeps t noted c x.socket dest bytes))
                  s p));
  }

  pub keep_udp-Keeps :
      (c : Calls) (id : ℕ) (dest : Address) (payload : Option (List ℕ))
      → Triple P (keep_udp t c id dest payload) (λ u. P)
  unfolding keep_udp
  keep_udp-Keeps c id dest payload = record {
    run = λ s p.
        Option-Ends (λ u. P) (t.udp.get id s.udp_sessions) _ _ (λ e. p)
          (λ x e.
            Triple.run
              (with_data-Keeps payload _ (λ bytes.
                if-Triple (same_address dest x.dest) (λ e. send_on-Keeps t noted c x.socket bytes)
                  (λ e. send_to_dest-Keeps t noted c x.socket dest bytes)))
              s p);
  }

  module _ (id : ℕ)
      (wrote_on : (x : MuxSession) (bytes : List ℕ)
        → Triple
            (λ s. P s × (t.tcp.get id s.sessions ≡ some x))
            (note t (wrote x.upstream bytes))
            (λ u. P)) where
    write_session-Keeps :
        (c : Calls) (bytes : List ℕ) → Triple P (write_session t c id bytes) (λ u. P)
    unfolding write_session
    write_session-Keeps c bytes = record {
      run = λ s p.
          Option-Ends (λ u. P) (t.tcp.get id s.sessions) _ _
            (λ e.
              Option-Ends (λ u. P) (t.udp.get id s.udp_sessions) _ _ (λ e. p)
                (λ x e. Triple.run (send_on-Keeps t noted c x.socket bytes) s p))
            (λ x e.
              Triple.run
                (bind-Triple (lock_upstream-Keeps t c)
                  (λ u. write_on-Triple t c x.upstream bytes (wrote_on x bytes)))
                s (p, e));
    }

    pub keep_target-Keeps :
        (c : Calls) (target : Option (TargetNetwork × Address)) (payload : Option (List ℕ))
        → Triple P (keep_target t c id target payload) (λ u. P)
    unfolding keep_target
    keep_target-Keeps c none payload =
        with_data-Keeps payload _ (λ bytes. write_session-Keeps c bytes)
    keep_target-Keeps c (some (net_tcp, dest)) payload =
        with_data-Keeps payload _ (λ bytes. write_session-Keeps c bytes)
    keep_target-Keeps c (some (net_udp, dest)) payload =
        if-Triple (id == xudp_session_id) (λ e. keep_xudp-Keeps c dest payload)
          (λ e. keep_udp-Keeps c id dest payload)

    sent_after :
        (b : Bool) (n : ℕ) (bytes : List ℕ) (s : State t)
        → P s
        → P ((or_fail (or_transport b) >> note t (sent n bytes)) s).1
    sent_after true n bytes s p = Triple.run (noted (sent n bytes) tt) s p
    sent_after false n bytes s p = p

    wrote_after :
        (b : Bool) (o : Option IoKind) (x : MuxSession) (bytes : List ℕ) (s : State t)
        → P s
        → t.tcp.get id s.sessions ≡ some x
        → P
            ((lift (granted b) >> (or_fail (failed_write o) >> note t (wrote x.upstream bytes)))
              s).1
    wrote_after false o x bytes s p e = p
    wrote_after true none x bytes s p e = Triple.run (wrote_on x bytes) s (p, e)
    wrote_after true (some k) x bytes s p e = p

    forgotten :
        (r : Result (Unit {0}) × State t)
        → Ends (λ u. P) r
        → P r.1
        → Ends (λ u. P) (forget_error t r)
    forgotten (ok u, s) h p = p
    forgotten (err e, s) h p = p
    forgotten (panic, s) h p = h
    forgotten (stuck, s) h p = tt

    -- A write that fails leaves the tables as they were.
    write_session_after :
        (c : Calls) (bytes : List ℕ) (s : State t) → P s → P (write_session t c id bytes s).1
    unfolding write_session
    write_session_after c bytes s p = elim (Option-cases (t.tcp.get id s.sessions)) [
      | inl e ↦ elim (Option-cases (t.udp.get id s.udp_sessions)) [
        | inl k ↦ rw (write_session, e, k) p
        | inr (x, k) ↦ rw (write_session, e, k) (sent_after c.send x.socket bytes s p)
      ]
      | inr (x, e) ↦ rw (write_session, e) (wrote_after c.lock c.write_all x bytes s p e)
    ]

    pub ignoring-Keeps :
        (c : Calls) (bytes : List ℕ) → Triple P (ignoring t (write_session t c id bytes)) (λ u. P)
    unfolding ignoring
    ignoring-Keeps c bytes = record {
      run = λ s p.
          forgotten (write_session t c id bytes s) (Triple.run (write_session-Keeps c bytes) s p)
            (write_session_after c bytes s p);
    }
