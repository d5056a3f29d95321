-- ===== src/Mux/Relay/Handle.antt =====
-- The frames of the relay: the body of the loop of `relay_mux_cool`, the loop, and what follows it.
pub mod Keeping
pub mod Keep
pub mod New
pub mod Readers
pub mod Active
pub mod Tasks
pub mod Close
pub mod Aborts
pub mod Frames
pub mod Numbered
pub mod Streams
pub mod Deliver
pub mod Sessions
pub mod Success
pub mod Complete
use v2ray.Prelude.{
  map, ℕ, ◌==◌, Bool, true, false, ◌&&◌, bytes_eq, if◌then◌else◌, Option, none, some, List, [], ◌∷◌,
}
use v2ray.Common.Result.{
  Result, ok, err, panic, stuck, ProxyError, protocol, transport, missing_target,
}
use v2ray.Common.Address.{Address, ipv4, ipv6, domain}
use v2ray.Common.Maps.{DashMap}
use v2ray.Common.Action.{Action, pure, lift, modify, or_fail, ◌>>=◌, ◌>>◌}
use v2ray.Mux.Metadata.{
  FrameMetadata, TargetNetwork, net_tcp, net_udp, SessionStatus, new, keep, end, keep_alive,
  is_xudp_metadata, xudp_session_id,
}
use v2ray.Mux.Relay.{
  abort, State, MuxSession, MuxUdpSession, XudpUdpSession, Calls, with_data, shut_down, Tables,
  Step, forget_xudp, kill, write_on, lock_upstream, send_on, send_to_dest, new_xudp, new_tcp,
  new_udp, note,
}

abbrev pub Frame : Type 0
Frame = FrameMetadata × Option (List ℕ)

-- `==` of `Address`
abbrev pub same_address : Address → Address → Bool
same_address (ipv4 a p) (ipv4 b q) = bytes_eq a b && p == q
same_address (ipv6 a p) (ipv6 b q) = bytes_eq a b && p == q
same_address (domain a p) (domain b q) = bytes_eq a b && p == q
same_address a b = false

abbrev pub abort_all : List ℕ → List ℕ → List ℕ
abort_all [] tasks = tasks
abort_all (r ∷ rs) tasks = abort_all rs (abort r tasks)

-- The loop ends well when the client's side cannot be read any more, and with an error when what
-- was read is not a frame.
unfoldable pub read_failed : ProxyError → Result (Unit {0})
read_failed (protocol f) = err (protocol f)
read_failed e = ok tt

module _ (t : Tables) where
  open t use {tcp, udp, xudp}

  -- A call whose error is dropped: `let _ = ...`
  abbrev pub forget_error : Result (Unit {0}) × State t → Result (Unit {0}) × State t
  forget_error (err e, s) = (ok tt, s)
  forget_error r = r

  unfoldable pub ignoring : Step t (Unit {0}) → Step t (Unit {0})
  ignoring call s = forget_error (call s)

  unfoldable pub start_target :
      Calls → ℕ → Option (TargetNetwork × Address) → Option (List ℕ) → Step t (Unit {0})
  start_target c id none payload = lift (err (protocol missing_target))
  start_target c id (some (net_tcp, dest)) payload = new_tcp t c id dest payload
  start_target c id (some (net_udp, dest)) payload = new_udp t c id dest payload

  -- `expect` panics when there is no global id.
  unfoldable pub start_xudp :
      Calls
      → Option (TargetNetwork × Address)
      → Option (List ℕ)
      → Option (List ℕ)
      → Step t (Unit {0})
  start_xudp c none gid payload = lift (err (protocol missing_target))
  start_xudp c (some (n, dest)) none payload = lift panic
  start_xudp c (some (n, dest)) (some gid) payload = new_xudp t c dest gid payload

  unfoldable pub on_new : Calls → Frame → Step t (Unit {0})
  unfolding start_target start_xudp
  on_new c (f, payload) =
      if is_xudp_metadata f
      then start_xudp c f.target f.global_id payload
      else start_target c f.session_id f.target payload

  unfoldable pub keep_xudp : Calls → Address → Option (List ℕ) → Step t (Unit {0})
  keep_xudp c dest payload s = elim s.active_xudp [
    | none ↦ (ok tt, s)
    | some gid ↦ elim (xudp.get gid s.xudp_sessions) [
      | none ↦ (ok tt, s)
      | some x ↦ with_data payload (send_to_dest t c (XudpUdpSession.socket x) dest) s
    ]
  ]

  unfoldable pub keep_udp : Calls → ℕ → Address → Option (List ℕ) → Step t (Unit {0})
  keep_udp c id dest payload s = elim (udp.get id s.udp_sessions) [
    | none ↦ (ok tt, s)
    | some x ↦
        with_data payload
          (λ bytes.
            if same_address dest (MuxUdpSession.dest x)
            then send_on t c (MuxUdpSession.socket x) bytes
            else send_to_dest t c (MuxUdpSession.socket x) dest bytes)
          s
  ]

  -- The session of an id, of either network: what `Keep` without a UDP target and `End` write to.
  unfoldable pub write_session : Calls → ℕ → List ℕ → Step t (Unit {0})
  write_session c id bytes s = elim (tcp.get id s.sessions) [
    | some x ↦ (do lock_upstream t c; write_on t c (MuxSession.upstream x) bytes) s
    | none ↦ elim (udp.get id s.udp_sessions) [
      | some x ↦ send_on t c (MuxUdpSession.socket x) bytes s
      | none ↦ (ok tt, s)
    ]
  ]

  unfoldable pub keep_target :
      Calls → ℕ → Option (TargetNetwork × Address) → Option (List ℕ) → Step t (Unit {0})
  unfolding write_session keep_xudp keep_udp
  keep_target c id (some (net_udp, dest)) payload =
      if id == xudp_session_id then keep_xudp c dest payload else keep_udp c id dest payload
  keep_target c id other payload = with_data payload (write_session c id)

  unfoldable pub on_keep : Calls → Frame → Step t (Unit {0})
  unfolding keep_target
  on_keep c (f, payload) = keep_target c f.session_id f.target payload

  -- The reader that is aborted gives the lock of the outbound stream back, so that it comes free.
  unfoldable pub end_tcp : ℕ → Step t (Unit {0})
  end_tcp id s =
      let (old, rest) = tcp.remove id s.sessions in
      let s = record s { sessions = rest } in
      elim old [
        | none ↦ (ok tt, s)
        | some x ↦
            (do kill t (MuxSession.reader_task x); note t (shut_down (MuxSession.upstream x))) s
      ]

  unfoldable pub end_udp : ℕ → Step t (Unit {0})
  end_udp id s =
      let (old, rest) = udp.remove id s.udp_sessions in
      let s = record s { udp_sessions = rest } in
      elim old [ none ↦ (ok tt, s) | some x ↦ kill t (MuxUdpSession.reader_task x) s ]

  unfoldable pub end_xudp : Step t (Unit {0})
  end_xudp s =
      let closed = record s { active_xudp = none } in
      elim s.active_xudp [ none ↦ (ok tt, closed) | some gid ↦ forget_xudp t gid closed ]

  unfoldable pub on_end : Calls → Frame → Step t (Unit {0})
  unfolding ignoring write_session end_tcp end_udp end_xudp
  on_end c (f, payload) = do
    with_data payload (λ bytes. ignoring (write_session c f.session_id bytes))
    end_tcp f.session_id
    end_udp f.session_id
    if f.session_id == xudp_session_id then end_xudp else pure tt

  -- The body of the loop, for a frame that has been read.
  unfoldable pub on_frame : Calls → SessionStatus → Frame → Step t (Unit {0})
  unfolding on_new on_keep on_end
  on_frame c new f = on_new c f
  on_frame c keep f = on_keep c f
  on_frame c end f = on_end c f
  on_frame c keep_alive f = pure tt

  -- The loop over the frames that are read until one is refused or the frames end.
  unfoldable pub run : List (Calls × Frame) → Step t (Unit {0})
  unfolding on_frame
  run [] = pure tt
  run ((c, f) ∷ rest) = do on_frame c (FrameMetadata.status f.0) f; run rest

  -- What follows the loop when the client's side has ended.
  unfoldable pub close : State t → List ℕ
  close s = abort_all (map XudpUdpSession.reader_task (xudp.values s.xudp_sessions)) (
      abort_all (map MuxUdpSession.reader_task (udp.values s.udp_sessions))
        (abort_all (map MuxSession.reader_task (tcp.values s.sessions)) s.tasks))

  -- The frames that are read, and the error of the read behind them.
  unfoldable pub relay_mux_cool : List (Calls × Frame) → ProxyError → Step t (Unit {0})
  unfolding run read_failed close
  relay_mux_cool frames last = do
    run frames
    lift (read_failed last)
    modify (λ s. record s { tasks = close s })
