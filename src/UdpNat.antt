-- ===== src/UdpNat.antt =====
-- The table of UDP flows of the TUN device: crates/blackwire-transport/src/tun/nat.rs. The hash
-- table is the list of its entries. Sockets are a parameter, and so is the outcome of each call
-- on one; a point in time is a number.
pub mod Bounded
use v2ray.Prelude.{
  ℕ, zero, suc, ◌+◌, ◌-◌, Bool, true, false, not, ◌&&◌, Option, none, some, List, [], ◌∷◌, length,
  leb, ltb, ◌==◌, if◌then◌else◌, bytes_eq, max,
}
use v2ray.Common.Address.{IpAddr, SocketAddr, v4, v6}

abbrev same_ip : IpAddr → IpAddr → Bool
same_ip (v4 a) (v4 b) = bytes_eq a b
same_ip (v6 a) (v6 b) = bytes_eq a b
same_ip a b = false

abbrev same_addr : SocketAddr → SocketAddr → Bool
same_addr a b = same_ip a.ip b.ip && a.port == b.port

-- The key of a flow: the client and the remote side.
abbrev pub Flow : Type 0
Flow = SocketAddr × SocketAddr

abbrev pub same_flow : Flow → Flow → Bool
same_flow a b = same_addr a.0 b.0 && same_addr a.1 b.1

pub data NatFailure : Type 0 where
  table_full open_failed disappeared out_of_bounds send_failed : NatFailure

-- The addresses of a packet, and its payload if it lies within the packet.
pub record IpPacket : Type 0 where
  pub src : SocketAddr
  pub dst : SocketAddr
  pub payload : Option (List ℕ)

module _ (Socket : Type 0) where
  pub record NatEntry : Type 0 where
    pub socket : Socket
    pub last_seen : ℕ

  pub record UdpNatTable : Type 0 where
    pub entries : List (Flow × NatEntry)
    pub idle_timeout : ℕ
    pub max_entries : ℕ

  unfoldable pub new : ℕ → ℕ → UdpNatTable
  new idle_timeout max_entries = record {
    entries = [];
    idle_timeout = idle_timeout;
    max_entries = max max_entries 1;
  }

  unfoldable pub find : Flow → List (Flow × NatEntry) → Option NatEntry
  find key [] = none
  find key ((k, e) ∷ rest) = if same_flow k key then some e else find key rest

  unfoldable pub remove : Flow → List (Flow × NatEntry) → List (Flow × NatEntry)
  remove key [] = []
  remove key ((k, e) ∷ rest) = if same_flow k key then rest else (k, e) ∷ remove key rest

  -- `entry.last_seen = now`
  unfoldable pub refresh : Flow → ℕ → List (Flow × NatEntry) → List (Flow × NatEntry)
  refresh key now [] = []
  refresh key now ((k, e) ∷ rest) =
      if same_flow k key
      then (k, record e { last_seen = now }) ∷ rest
      else (k, e) ∷ refresh key now rest

  unfoldable pub retain_fresh : ℕ → ℕ → List (Flow × NatEntry) → List (Flow × NatEntry)
  retain_fresh now timeout [] = []
  retain_fresh now timeout ((k, e) ∷ rest) =
      let kept = retain_fresh now timeout rest in
      if leb (now - e.last_seen) timeout then (k, e) ∷ kept else kept

  -- The table, and how many flows went.
  unfoldable pub evict_idle : ℕ → UdpNatTable → UdpNatTable × ℕ
  unfolding retain_fresh
  evict_idle now t =
      let kept = retain_fresh now t.idle_timeout t.entries in
      (record t { entries = kept }, length t.entries - length kept)

  -- `min_by_key`: the first one of the entries that were seen the longest ago.
  unfoldable pub oldest_of : Flow × NatEntry → List (Flow × NatEntry) → Flow × NatEntry
  oldest_of best [] = best
  oldest_of best (x ∷ rest) =
      if ltb (NatEntry.last_seen x.1) (NatEntry.last_seen best.1)
      then oldest_of x rest
      else oldest_of best rest

  unfoldable pub evict_oldest : UdpNatTable → UdpNatTable
  unfolding oldest_of remove
  evict_oldest t = elim t.entries [
    | [] ↦ t
    | x ∷ rest ↦ record t { entries = remove (oldest_of x rest).0 t.entries }
  ]

  -- The end of `forward`, from the look-up of the entry on.
  unfoldable pub send_on :
      Flow
      → ℕ
      → Option (List ℕ)
      → (Socket → List ℕ → Bool)
      → UdpNatTable
      → Option NatFailure × UdpNatTable
  unfolding find refresh
  send_on key now payload send t = elim (find key t.entries) [
    | none ↦ (some disappeared, t)
    | some e ↦
        let t = record t { entries = refresh key now t.entries } in
        elim payload [
          | none ↦ (some out_of_bounds, t)
          | some bytes ↦ (if send e.socket bytes then none else some send_failed, t)
        ]
  ]

  abbrev pub make_room : ℕ → UdpNatTable → UdpNatTable
  make_room now t =
      let (t, _) = evict_idle now t in
      if leb t.max_entries (length t.entries) then evict_oldest t else t

  -- `opened` is the outcome of `create_bypass_socket`. The clock is read at `now` and, for the idle
  -- flows, at `later`.
  unfoldable pub forward :
      (SocketAddr → SocketAddr → Option Socket)
      → (Socket → List ℕ → Bool)
      → ℕ
      → ℕ
      → IpPacket
      → UdpNatTable
      → Option NatFailure × UdpNatTable
  unfolding find evict_idle evict_oldest send_on
  forward opened send now later packet t =
      let key : Flow = (packet.src, packet.dst) in
      elim (find key t.entries) [
        | some _ ↦ send_on key now packet.payload send t
        | none ↦
            let t = make_room later t in
            if leb t.max_entries (length t.entries)
            then (some table_full, t)
            else elim (opened packet.src packet.dst) [
              | none ↦ (some open_failed, t)
              | some socket ↦
                  let entry : NatEntry = record { socket = socket; last_seen = now } in
                  send_on key now packet.payload send
                    (record t { entries = (key, entry) ∷ t.entries })
            ]
      ]
