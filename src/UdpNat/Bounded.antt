-- ===== src/UdpNat/Bounded.antt =====
-- The table of flows keeps within its bound, and two of the failures cannot happen.
use v2ray.Prelude.{
  ℕ, suc, ◌<◌, ◌≤◌, ◌≡◌, ◌≢◌, inl, inr, refl, ap, sym, subst, ◌∙◌, Bool, true, false, Option, some,
  List, [], ◌∷◌, arith, length, leb, ltb, ==_refl, bytes_eq, bytes_eq_iff, Bool-cases, Option-cases,
  In,
}
use v2ray.Common.Address.{IpAddr, SocketAddr, v4, v6}
use v2ray.UdpNat
use v2ray.UdpNat.{
  Flow, same_flow, same_addr, same_ip, NatEntry, UdpNatTable, IpPacket, NatFailure, table_full,
  disappeared, open_failed, out_of_bounds, send_failed, make_room,
}

bytes_eq_refl : (xs : List ℕ) → bytes_eq xs xs ≡ true
bytes_eq_refl xs = (bytes_eq_iff xs xs).1 refl

same_ip_refl : (a : IpAddr) → same_ip a a ≡ true
same_ip_refl (v4 a) = bytes_eq_refl a
same_ip_refl (v6 a) = bytes_eq_refl a

same_flow_refl : (k : Flow) → same_flow k k ≡ true
same_flow_refl k =
    rw
      (
        same_ip_refl (SocketAddr.ip k.0),
        same_ip_refl (SocketAddr.ip k.1),
        ==_refl (SocketAddr.port k.0),
        ==_refl (SocketAddr.port k.1),
      )
      refl

module _ (Socket : Type 0) where
  length-retain_fresh :
      (now timeout : ℕ) (l : List (Flow × NatEntry Socket))
      → length (UdpNat.retain_fresh Socket now timeout l) ≤ length l
  unfolding UdpNat.retain_fresh
  length-retain_fresh now timeout [] = omega arith
  length-retain_fresh now timeout ((k, e) ∷ l) = ground (arith, length-retain_fresh now timeout l)

  length-refresh :
      (key : Flow) (now : ℕ) (l : List (Flow × NatEntry Socket))
      → length (UdpNat.refresh Socket key now l) ≡ length l
  unfolding UdpNat.refresh
  length-refresh key now [] = refl
  length-refresh key now ((k, e) ∷ l) = ground (arith, length-refresh key now l)

  -- The entry that has been seen the longest ago is one of the list.
  oldest-In :
      (best : Flow × NatEntry Socket) (l : List (Flow × NatEntry Socket))
      → In (UdpNat.oldest_of Socket best l) (best ∷ l)
  unfolding UdpNat.oldest_of
  oldest-In best [] = inl refl
  oldest-In best (x ∷ l) =
      elim (Bool-cases (ltb (NatEntry.last_seen x.1) (NatEntry.last_seen best.1))) [
        | inl older ↦
            let step : UdpNat.oldest_of Socket best (x ∷ l) ≡ UdpNat.oldest_of Socket x l =
              rw older refl in
            subst (λ y. In y (best ∷ x ∷ l)) (sym step) (inr (oldest-In x l))
        | inr newer ↦
            let step : UdpNat.oldest_of Socket best (x ∷ l) ≡ UdpNat.oldest_of Socket best l =
              rw newer refl in
            subst (λ y. In y (best ∷ x ∷ l)) (sym step)
              (elim (oldest-In best l) [ inl here ↦ inl here | inr later ↦ inr (inr later) ])
      ]

  length-remove :
      (key : Flow) (l : List (Flow × NatEntry Socket)) (x : Flow × NatEntry Socket)
      → In x l
      → x.0 ≡ key
      → suc (length (UdpNat.remove Socket key l)) ≡ length l
  unfolding UdpNat.remove
  length-remove key [] x i e = elim i [ ]
  length-remove key ((k, v) ∷ l) x i e = elim (Bool-cases (same_flow k key)) [
    | inl s ↦ rw s refl
    | inr s ↦ elim i [
      | inl here ↦
          let same =
            subst (λ z. same_flow k z ≡ true) (ap (λ y. y.0) here ∙ e) (same_flow_refl k) in
          absurd (ground arith)
      | inr later ↦ rw s (ap suc (length-remove key l x later e))
    ]
  ]

  evicts_one :
      (t : UdpNatTable Socket) (l : List (Flow × NatEntry Socket))
      → t.entries ≡ l
      → 0 < length l
      → suc (length (UdpNatTable.entries (UdpNat.evict_oldest Socket t))) ≡ length l
  unfolding UdpNat.evict_oldest
  evicts_one t [] e h = absurd (omega arith)
  evicts_one t (x ∷ l) e h =
      let oldest = UdpNat.oldest_of Socket x l in
      let one_less =
        length-remove oldest.0 t.entries oldest (subst (In oldest) (sym e) (oldest-In x l)) refl in
      rw (UdpNat.evict_oldest, e) (one_less ∙ ap length e)

  make_room-Bounded :
      (now : ℕ) (t : UdpNatTable Socket)
      → 0 < t.max_entries
      → length t.entries ≤ t.max_entries
      → length (UdpNatTable.entries (make_room Socket now t)) < t.max_entries
  unfolding UdpNat.evict_idle
  make_room-Bounded now t some_room bounded =
      let kept = UdpNat.retain_fresh Socket now t.idle_timeout t.entries in
      let fewer = length-retain_fresh now t.idle_timeout t.entries in
      elim (Bool-cases (leb t.max_entries (length kept))) [
        | inl full ↦
            let one_less = evicts_one (record t { entries = kept }) kept refl (ground arith) in
            rw full (omega arith)
        | inr room ↦ rw room (ground arith)
      ]

  -- The table within its bound, and neither of the two failures.
  abbrev pub IsKept : ℕ → Option NatFailure × UdpNatTable Socket → Type 0
  IsKept bound (failure, t) =
      (length t.entries ≤ bound) × (failure ≢ some table_full) × (failure ≢ some disappeared)

  send_on-IsKept :
      (key : Flow) (now : ℕ) (payload : Option (List ℕ)) (send : Socket → List ℕ → Bool)
      (t : UdpNatTable Socket) (e : NatEntry Socket) (bound : ℕ)
      → UdpNat.find Socket key t.entries ≡ some e
      → length t.entries ≤ bound
      → IsKept bound (UdpNat.send_on Socket key now payload send t)
  unfolding UdpNat.send_on
  send_on-IsKept key now payload send t e bound found bounded =
      let same = length-refresh key now t.entries in
      elim (Option-cases payload) [
        | inl p ↦
            rw (UdpNat.send_on, found, p, same) (bounded, (λ q. ground arith), λ q. ground arith)
        | inr (bytes, p) ↦ elim (Bool-cases (send e.socket bytes)) [
          | inl s ↦
              rw (UdpNat.send_on, found, p, s, same)
                (bounded, (λ q. ground arith), λ q. ground arith)
          | inr s ↦
              rw (UdpNat.send_on, found, p, s, same)
                (bounded, (λ q. ground arith), λ q. ground arith)
        ]
      ]

  evict_oldest-max :
      (t : UdpNatTable Socket) (l : List (Flow × NatEntry Socket))
      → t.entries ≡ l
      → UdpNatTable.max_entries (UdpNat.evict_oldest Socket t) ≡ t.max_entries
  unfolding UdpNat.evict_oldest
  evict_oldest-max t [] e = rw (UdpNat.evict_oldest, e) refl
  evict_oldest-max t (x ∷ l) e = rw (UdpNat.evict_oldest, e) refl

  make_room-max :
      (now : ℕ) (t : UdpNatTable Socket)
      → UdpNatTable.max_entries (make_room Socket now t) ≡ t.max_entries
  unfolding UdpNat.evict_idle
  make_room-max now t =
      let kept = UdpNat.retain_fresh Socket now t.idle_timeout t.entries in
      elim (Bool-cases (leb t.max_entries (length kept))) [
        | inl full ↦ rw full (evict_oldest-max (record t { entries = kept }) kept refl)
        | inr room ↦ rw room refl
      ]

  find-first :
      (key : Flow) (e : NatEntry Socket) (l : List (Flow × NatEntry Socket))
      → UdpNat.find Socket key ((key, e) ∷ l) ≡ some e
  unfolding UdpNat.find
  find-first key e l = rw (same_flow_refl key) refl

  not_leb :
      (t : UdpNatTable Socket)
      → length t.entries < t.max_entries
      → leb t.max_entries (length t.entries) ≡ false
  not_leb t h = ground arith

  -- In a table for at least one flow that is within its bound, `forward` of any packet leaves the table
  -- within its bound, whatever the sockets do. Of its failures, the full table and the missing entry
  -- do not happen.
  pub forward-IsKept :
      (opened : SocketAddr → SocketAddr → Option Socket) (send : Socket → List ℕ → Bool)
      (now later : ℕ) (packet : IpPacket) (t : UdpNatTable Socket)
      → 0 < t.max_entries
      → length t.entries ≤ t.max_entries
      → IsKept t.max_entries (UdpNat.forward Socket opened send now later packet t)
  unfolding UdpNat.forward
  forward-IsKept opened send now later packet t some_room bounded =
      let key : Flow = (packet.src, packet.dst) in
      elim (Option-cases (UdpNat.find Socket key t.entries)) [
        | inr (e, found) ↦
            rw (UdpNat.forward, found)
              (send_on-IsKept key now packet.payload send t e t.max_entries found bounded)
        | inl new_flow ↦
            let room = make_room-Bounded later t some_room bounded in
            let same = make_room-max later t in
            let not_full = not_leb (make_room Socket later t) (rw same room) in
            elim (Option-cases (opened packet.src packet.dst)) [
              | inl none_opened ↦
                  rw (UdpNat.forward, new_flow, not_full, none_opened)
                    (omega arith, (λ q. ground arith), λ q. ground arith)
              | inr (s, e) ↦
                  let made = make_room Socket later t in
                  let entry : NatEntry Socket = record { socket = s; last_seen = now } in
                  rw (UdpNat.forward, new_flow, not_full, e)
                    (send_on-IsKept key now packet.payload send
                      (record made { entries = (key, entry) ∷ made.entries }) entry t.max_entries
                      (find-first key entry made.entries) room)
            ]
      ]
