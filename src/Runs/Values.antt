-- ===== src/Runs/Values.antt =====
-- Addresses and byte strings that the runs share.
use v2ray.Prelude.{ℕ, refl, arith, List, [], ◌∷◌, is_utf8}
use v2ray.Common.Address.{Address, ipv4, domain, IsAddress, FitsWire}

abbrev pub host : List ℕ
host = b'a' ∷ b'.' ∷ b'b' ∷ []

abbrev pub website : Address
website = domain host 443

pub website-IsAddress : IsAddress website
unfolding is_utf8
website-IsAddress = (refl, (omega arith, (omega arith, (omega arith, tt))), omega arith)

pub website-FitsWire : FitsWire website
website-FitsWire = omega arith

abbrev pub resolver : Address
resolver = ipv4 (9 ∷ 9 ∷ 9 ∷ 9 ∷ []) 53

pub resolver-IsAddress : IsAddress resolver
resolver-IsAddress =
    (refl, (omega arith, (omega arith, (omega arith, (omega arith, tt)))), omega arith)

abbrev pub hello : List ℕ
hello = b'h' ∷ b'i' ∷ []

abbrev pub sixteen : List ℕ
sixteen = 0 ∷ 1 ∷ 2 ∷ 3 ∷ 4 ∷ 5 ∷ 6 ∷ 7 ∷ 8 ∷ 9 ∷ 10 ∷ 11 ∷ 12 ∷ 13 ∷ 14 ∷ 15 ∷ []
