-- ===== src/Vless/Addons/Faults.antt =====
-- Inputs on which the release build of `parse_flow_from_addons` does not return.
use v2ray.Prelude.{arith, ℕ, zero, suc, ◌≡◌, refl, List, ◌∷◌}
use v2ray.Common.Result.{panic, stuck}
use v2ray.Vless.Varint.{read_varint}
use v2ray.Vless.Addons.{parse_flow_loop, parse_flow_from_addons}

-- An unknown field whose length is 2^64 - 11, and eleven bytes read before it.
abbrev pub rewinding : List ℕ → List ℕ
rewinding rest = 0x12 ∷ 0xf5 ∷ 0xff ∷ 0xff ∷ 0xff ∷ 0xff ∷ 0xff ∷ 0xff ∷ 0xff ∷ 0xff ∷ 0x01 ∷ rest

-- The flow field with a length of 2^64 - 1.
abbrev pub oversized : List ℕ → List ℕ
oversized rest = 0x0a ∷ 0xff ∷ 0xff ∷ 0xff ∷ 0xff ∷ 0xff ∷ 0xff ∷ 0xff ∷ 0xff ∷ 0xff ∷ 0x01 ∷ rest

-- After the eleven bytes of `rewinding` the cursor is back at 0: however many rounds the loop is
-- given, it has not ended, whatever follows these bytes.
pub parse_flow-rewinding :
    (fuel : ℕ) (rest : List ℕ) → parse_flow_loop fuel (rewinding rest) 0 ≡ stuck
unfolding parse_flow_loop read_varint
parse_flow-rewinding zero rest = refl
parse_flow-rewinding (suc fuel) rest = ground (arith, parse_flow-rewinding fuel rest)

-- A flow field that declares 2^64 - 1 bytes slices the input backwards and panics, whatever follows.
parse_flow-oversized : (rest : List ℕ) → parse_flow_from_addons (oversized rest) ≡ panic
unfolding parse_flow_from_addons read_varint
parse_flow-oversized rest = ground arith
