-- ===== src/Prelude/Utf8.antt =====
-- `std::str::from_utf8`: which byte sequences are UTF-8 (the Unicode table of well-formed bytes).
use Prim.Native.Nat.{ℕ, zero, suc}
use mathlib.Core.Bool.{Bool, true, false, ◌&&◌}
use mathlib.Core.List.{List, [], ◌∷◌}
use v2ray.Prelude.Tests.{ltb, leb, ◌==◌, if◌then◌else◌}

-- What a first byte asks for: how many bytes follow, and the range of the next one.
record Lead : Type 0 where
  valid : Bool
  more : ℕ
  low : ℕ
  high : ℕ

lead_of : ℕ → Lead
lead_of b =
    if ltb b 0x80
    then record { valid = true; more = 0; low = 0x80; high = 0xbf }
    else if ltb b 0xc2
    then record { valid = false; more = 0; low = 0x80; high = 0xbf }
    else if ltb b 0xe0
    then record { valid = true; more = 1; low = 0x80; high = 0xbf }
    else if b == 0xe0
    then record { valid = true; more = 2; low = 0xa0; high = 0xbf }
    else if b == 0xed
    then record { valid = true; more = 2; low = 0x80; high = 0x9f }
    else if ltb b 0xf0
    then record { valid = true; more = 2; low = 0x80; high = 0xbf }
    else if b == 0xf0
    then record { valid = true; more = 3; low = 0x90; high = 0xbf }
    else if ltb b 0xf4
    then record { valid = true; more = 3; low = 0x80; high = 0xbf }
    else if b == 0xf4
    then record { valid = true; more = 3; low = 0x80; high = 0x8f }
    else record { valid = false; more = 0; low = 0x80; high = 0xbf }

utf8_from : ℕ → ℕ → ℕ → List ℕ → Bool
unfolding lead_of
utf8_from zero low high [] = true
utf8_from (suc n) low high [] = false
utf8_from zero low high (b ∷ bs) = let l = lead_of b in l.valid && utf8_from l.more l.low l.high bs
utf8_from (suc n) low high (b ∷ bs) = leb low b && leb b high && utf8_from n 0x80 0xbf bs

unfoldable pub is_utf8 : List ℕ → Bool
unfolding utf8_from
is_utf8 bs = utf8_from 0 0x80 0xbf bs
