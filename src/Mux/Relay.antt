-- ===== src/Mux/Relay.antt =====
-- The server side of a Mux.Cool connection: `relay_mux_cool` and the types of its sessions in
-- crates/blackwire-protocol/src/vless/mux.rs, one frame at a time. Outbound streams, sockets and
-- reader tasks are numbers in the order in which they were made, `next` the next one. `tasks` holds
-- the reader tasks that have been spawned and not aborted, and `events` what was done to the
-- streams and sockets, the last thing first.
pub mod Handle
pub mod Client
use native.Mathlib.Decide.{ℕ_discrete}
use v2ray.Prelude.{
  ℕ, suc, ◌==◌, Bool, true, false, if◌then◌else◌, Option, none, some, List, [], ◌∷◌,
}
use v2ray.Common.Result.{
  Result, ok, err, panic, stuck, ProxyError, protocol, transport, io, dns_resolution_failed, IoKind,
  missing_target,
}
use v2ray.Common.Address.{Address, SocketAddr, ipv4, ipv6, domain, v4, v6}
use v2ray.Common.Maps.{DashMap}
use v2ray.Common.Action.{Action, pure, lift, modify, or_fail, ◌>>=◌, ◌>>◌}
use v2ray.Mux.Metadata.{
  FrameMetadata, TargetNetwork, net_tcp, net_udp, new, keep, end, keep_alive, is_xudp_metadata,
  xudp_session_id,
}

pub record MuxSession : Type 0 where
  pub upstream : ℕ
  pub reader_task : ℕ

pub record MuxUdpSession : Type 0 where
  pub socket : ℕ
  pub dest : Address
  pub reader_task : ℕ

pub record XudpUdpSession : Type 0 where
  pub socket : ℕ
  pub reader_task : ℕ

-- What became of the calls that one frame makes. A frame makes each of them once at most. They are
-- taken to return, except for the lock of an outbound stream: the reader of the session holds it
-- while it waits for bytes, so that it may never come free.
pub record Calls : Type 0 where
  pub lock : Bool
  pub connect_outbound : Option ProxyError
  pub bind : Bool
  pub lookup_host : Option (List SocketAddr)
  pub connect : Bool
  pub write_all : Option IoKind
  pub send : Bool
  pub send_to : Bool

pub data Event : Type 0 where
  connected : ℕ → Address → Event
  bound : ℕ → Event
  associated : ℕ → SocketAddr → Event
  wrote sent : ℕ → List ℕ → Event
  sent_to : ℕ → SocketAddr → List ℕ → Event
  shut_down : ℕ → Event

abbrev pub resolved : List ℕ → Option (List SocketAddr) → Result SocketAddr
resolved name none = err (dns_resolution_failed name)
resolved name (some []) = err (dns_resolution_failed name)
resolved name (some (a ∷ rest)) = ok a

abbrev pub resolve_udp_dest : Calls → Address → Result SocketAddr
resolve_udp_dest c (ipv4 ip p) = ok (record { ip = v4 ip; port = p })
resolve_udp_dest c (ipv6 ip p) = ok (record { ip = v6 ip; port = p })
resolve_udp_dest c (domain name p) = resolved name c.lookup_host

-- `if let Some(ref data) = payload { if !data.is_empty() { ... } }`
abbrev pub with_data :
    {S : Type 0} → Option (List ℕ) → (List ℕ → Action S (Unit {0})) → Action S (Unit {0})
with_data none f = pure tt
with_data (some []) f = pure tt
with_data (some (b ∷ bs)) f = f (b ∷ bs)

-- The future of `up.write_all(data)` with `?`, and with its outcome dropped.
abbrev pub failed_write : Option IoKind → Option ProxyError
failed_write none = none
failed_write (some k) = some (io k)

abbrev pub or_transport : Bool → Option ProxyError
or_transport true = none
or_transport false = some transport

abbrev pub granted : Bool → Result (Unit {0})
granted true = ok tt
granted false = stuck

abbrev pub abort : ℕ → List ℕ → List ℕ
abort t [] = []
abort t (x ∷ xs) = let rest = abort t xs in if x == t then rest else x ∷ rest

-- The three tables of sessions.
pub record Tables : Type 1 where
  pub tcp : DashMap ℕ MuxSession
  pub udp : DashMap ℕ MuxUdpSession
  pub xudp : DashMap (List ℕ) XudpUdpSession

module _ (t : Tables) where
  open t use {tcp, udp, xudp}

  pub record State : Type 0 where
    pub sessions : tcp.Map
    pub udp_sessions : udp.Map
    pub xudp_sessions : xudp.Map
    pub active_xudp : Option (List ℕ)
    pub next : ℕ
    pub tasks : List ℕ
    pub events : List Event

  abbrev pub Step : Type 0 → Type 0
  Step A = Action State A

  abbrev pub start : State
  start = record {
    sessions = tcp.new;
    udp_sessions = udp.new;
    xudp_sessions = xudp.new;
    active_xudp = none;
    next = 0;
    tasks = [];
    events = [];
  }

  abbrev pub note : Event → Step (Unit {0})
  note e = modify (λ s. record s { events = e ∷ s.events })

  abbrev pub kill : ℕ → Step (Unit {0})
  kill t = modify (λ s. record s { tasks = abort t s.tasks })

  -- `tokio::spawn`
  abbrev pub spawn : Step ℕ
  spawn s = (ok s.next, record s { next = suc s.next; tasks = s.next ∷ s.tasks })

  abbrev pub fresh : Step ℕ
  fresh s = (ok s.next, record s { next = suc s.next })

  abbrev pub bind_socket : Calls → Step ℕ
  bind_socket c = do or_fail (or_transport c.bind); socket ← fresh; note (bound socket); pure socket

  abbrev pub send_on : Calls → ℕ → List ℕ → Step (Unit {0})
  send_on c socket bytes = do or_fail (or_transport c.send); note (sent socket bytes)

  abbrev pub send_to_dest : Calls → ℕ → Address → List ℕ → Step (Unit {0})
  send_to_dest c socket dest bytes = do
    upstream ← lift (resolve_udp_dest c dest)
    or_fail (or_transport c.send_to)
    note (sent_to socket upstream bytes)

  -- `upstream.lock().await`
  abbrev pub lock_upstream : Calls → Step (Unit {0})
  lock_upstream c = lift (granted c.lock)

  abbrev pub write_on : Calls → ℕ → List ℕ → Step (Unit {0})
  write_on c upstream bytes = do or_fail (failed_write c.write_all); note (wrote upstream bytes)

  abbrev pub insert_tcp : ℕ → MuxSession → Step (Unit {0})
  insert_tcp id x = modify (λ s. record s { sessions = tcp.insert id x s.sessions })

  abbrev pub insert_udp : ℕ → MuxUdpSession → Step (Unit {0})
  insert_udp id x = modify (λ s. record s { udp_sessions = udp.insert id x s.udp_sessions })

  -- `xudp_sessions.insert`, and `*active_xudp = Some(global_id)`
  abbrev pub insert_xudp : List ℕ → XudpUdpSession → Step (Unit {0})
  insert_xudp gid x =
      modify (λ s. record s {
        xudp_sessions = xudp.insert gid x s.xudp_sessions;
        active_xudp = some gid;
      })

  -- `xudp_sessions.remove`, with the abort of the reader of what was removed.
  unfoldable pub forget_xudp : List ℕ → Step (Unit {0})
  forget_xudp gid s =
      let (old, rest) = xudp.remove gid s.xudp_sessions in
      let s = record s { xudp_sessions = rest } in
      elim old [ none ↦ (ok tt, s) | some x ↦ kill (XudpUdpSession.reader_task x) s ]

  unfoldable pub new_xudp : Calls → Address → List ℕ → Option (List ℕ) → Step (Unit {0})
  unfolding forget_xudp
  new_xudp c dest gid payload = do
    forget_xudp gid
    socket ← bind_socket c
    with_data payload (send_to_dest c socket dest)
    task ← spawn
    insert_xudp gid (record { socket = socket; reader_task = task })

  unfoldable pub new_tcp : Calls → ℕ → Address → Option (List ℕ) → Step (Unit {0})
  new_tcp c id dest payload = do
    or_fail c.connect_outbound
    upstream ← fresh
    note (connected upstream dest)
    with_data payload (write_on c upstream)
    task ← spawn
    insert_tcp id (record { upstream = upstream; reader_task = task })

  unfoldable pub new_udp : Calls → ℕ → Address → Option (List ℕ) → Step (Unit {0})
  new_udp c id dest payload = do
    socket ← bind_socket c
    upstream ← lift (resolve_udp_dest c dest)
    or_fail (or_transport c.connect)
    note (associated socket upstream)
    with_data payload (send_on c socket)
    task ← spawn
    insert_udp id (record { socket = socket; dest = dest; reader_task = task })
