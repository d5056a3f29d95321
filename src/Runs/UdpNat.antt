-- ===== src/Runs/UdpNat.antt =====
-- A table for two flows that is full when a third one comes.
use v2ray.Prelude.{ℕ, arith, Bool, true, Option, some, List, [], ◌∷◌}
use v2ray.Common.Address.{SocketAddr, v4}
use v2ray.UdpNat
use v2ray.UdpNat.{Flow, NatEntry, UdpNatTable, IpPacket}
use v2ray.UdpNat.Bounded.{IsKept, forward-IsKept}

abbrev addr : ℕ → SocketAddr
addr n = record { ip = v4 (10 ∷ 0 ∷ 0 ∷ n ∷ []); port = 53 }

abbrev table : UdpNatTable ℕ
table = record {
  entries =
      ((addr 1, addr 9), record { socket = 1; last_seen = 90 })
      ∷ ((addr 2, addr 9), record { socket = 2; last_seen = 80 })
      ∷ [];
  idle_timeout = 60;
  max_entries = 2;
}

abbrev third : IpPacket
third = record { src = addr 3; dst = addr 9; payload = some (1 ∷ 2 ∷ []) }

abbrev opens : SocketAddr → SocketAddr → Option ℕ
opens a b = some 3

abbrev sends : ℕ → List ℕ → Bool
sends s bytes = true

forward-IsKept_example : IsKept ℕ 2 (UdpNat.forward ℕ opens sends 100 100 third table)
forward-IsKept_example =
    forward-IsKept ℕ opens sends 100 100 third table (omega arith) (omega arith)
