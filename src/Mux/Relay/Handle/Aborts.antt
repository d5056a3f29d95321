-- ===== src/Mux/Relay/Handle/Aborts.antt =====
-- When the client's side of a relay ends, all of its reader tasks are aborted.
use native.Mathlib.Decide.{ℕ_discrete}
use v2ray.Prelude.{ℕ, ◌≡◌, inl, inr, refl, List, [], ◌∷◌, In}
use v2ray.Common.Result.{
  ProxyError, protocol, auth_failed, transport, tls, timeout, unsupported_network,
  dns_resolution_failed, routing_failed, fallback_required, io,
}
use v2ray.Common.Maps.{DashMapLaws, bytes_dec}
use v2ray.Common.Action.{Ends, Triple, bind-Triple, modify-Triple, lift, modify}
use v2ray.Mux.Relay.{MuxSession, MuxUdpSession, XudpUdpSession, Calls, Tables, start}
use v2ray.Mux.Relay.Handle.{Frame, close, read_failed, relay_mux_cool}
use v2ray.Mux.Relay.Handle.Readers.{In-values, In-abort_all}
use v2ray.Mux.Relay.Handle.Close.{NoReuse, Known, run-Known}

none_left : (l : List ℕ) → ((r : ℕ) → ¬ In r l) → l ≡ []
none_left [] h = refl
none_left (r ∷ l) h = absurd (h r (inl refl))

module _ (t : Tables) (tcp_laws : DashMapLaws (Tables.tcp t))
    (udp_laws : DashMapLaws (Tables.udp t)) (xudp_laws : DashMapLaws (Tables.xudp t)) where
  closed-none :
      Triple
        (Known t tcp_laws udp_laws xudp_laws)
        (modify (λ s. record s { tasks = close t s }))
        (λ u s. s.tasks ≡ [])
  unfolding close
  closed-none = modify-Triple (λ s known. none_left (close t s) (λ r i.
      let (i, no_xudp) = In-abort_all r _ _ i in
      let (i, no_udp) = In-abort_all r _ _ i in
      let (i, no_tcp) = In-abort_all r _ _ i in
      elim (known r i) [
        | inl k ↦ no_tcp (In-values ℕ_discrete t.tcp tcp_laws MuxSession.reader_task _ r k)
        | inr (inl k) ↦ no_udp (In-values ℕ_discrete t.udp udp_laws MuxUdpSession.reader_task _ r k)
        | inr (inr k) ↦
            no_xudp (In-values bytes_dec t.xudp xudp_laws XudpUdpSession.reader_task _ r k)
      ]))

  read_failed-Known :
      (e : ProxyError)
      → Triple
          (Known t tcp_laws udp_laws xudp_laws)
          (lift (read_failed e))
          (λ u. (Known t tcp_laws udp_laws xudp_laws))
  unfolding read_failed
  read_failed-Known (protocol f) = record { run = λ s h. tt }
  read_failed-Known auth_failed = record { run = λ s h. h }
  read_failed-Known transport = record { run = λ s h. h }
  read_failed-Known tls = record { run = λ s h. h }
  read_failed-Known timeout = record { run = λ s h. h }
  read_failed-Known unsupported_network = record { run = λ s h. h }
  read_failed-Known (dns_resolution_failed name) = record { run = λ s h. h }
  read_failed-Known routing_failed = record { run = λ s h. h }
  read_failed-Known fallback_required = record { run = λ s h. h }
  read_failed-Known (io k) = record { run = λ s h. h }

  -- A relay that starts with empty tables and handles frames whose `New` frames use no id that a
  -- TCP or UDP session has, with any outcomes of the calls, never panics; if it ends without an
  -- error, not waiting for ever for the lock of an outbound stream, then no reader task that it spawned is left running.
  pub relay_mux_cool-aborts :
      (frames : List (Calls × Frame)) (last : ProxyError)
      → NoReuse t frames (start t)
      → Ends (λ u s. s.tasks ≡ []) (relay_mux_cool t frames last (start t))
  unfolding relay_mux_cool
  relay_mux_cool-aborts frames last unused =
      Triple.run
        (bind-Triple (run-Known t tcp_laws udp_laws xudp_laws frames)
          (λ u. bind-Triple (read_failed-Known last) (λ u. closed-none)))
        (start t) ((λ r i. elim i [ ]), unused)
