-- ===== src/Vless/Addons.antt =====
-- `parse_flow_from_addons` of vless/codec.rs, in a release build: sums of `usize` wrap at 2^64 and
-- a slice with its ends out of order panics. `stuck` means that the rounds given were not enough.
pub mod Faults
pub mod Ends
use v2ray.Prelude.{
  ◌≡◌, ℕ, zero, suc, ◌+◌, ◌*◌, ◌/◌, ◌%◌, ◌^◌, ◌-◌, Bool, true, false, Option, none, some, List, [],
  ◌∷◌, ◌++◌, ltb, leb, ◌==◌, if◌then◌else◌, length, is_utf8, min,
}
use v2ray.Common.Result.{Result, ok, err, panic, stuck, slice, ◌>>=◌}
use v2ray.Vless.Varint.{read_varint}

-- A field of wire type 2. `again` is the loop from a new cursor.
delimited : (ℕ → Result (List ℕ)) → List ℕ → ℕ → Option ℕ × ℕ → Result (List ℕ)
delimited again xs number (none, cursor) = ok []
delimited again xs number (some len, cursor) =
    let end = (cursor + len) % 2 ^ 64 in
    let skip = again end in
    let found = do name ← slice xs cursor end; if is_utf8 name then ok name else skip
    in if ltb (length xs) end then ok [] else if number == 1 then found else skip

-- A field of wire type 0.
skip_varint : (ℕ → Result (List ℕ)) → Option ℕ × ℕ → Result (List ℕ)
skip_varint again (none, cursor) = ok []
skip_varint again (some value, cursor) = again cursor

-- `cursor.saturating_add(n)`
saturating_add : ℕ → ℕ → ℕ
saturating_add a b = min (a + b) (2 ^ 64 - 1)

field : (ℕ → Result (List ℕ)) → List ℕ → Option ℕ × ℕ → Result (List ℕ)
unfolding delimited skip_varint saturating_add
field again xs (none, cursor) = ok []
field again xs (some tag, cursor) =
    let number = tag / 8 % 2 ^ 32 in
    let wire_type = tag % 8 in
    if wire_type == 2
    then delimited again xs number (read_varint xs cursor)
    else if wire_type == 0
    then skip_varint again (read_varint xs cursor)
    else if wire_type == 1
    then again (saturating_add cursor 8)
    else if wire_type == 5
    then again (saturating_add cursor 4)
    else ok []

unfoldable pub parse_flow_loop : ℕ → List ℕ → ℕ → Result (List ℕ)
unfolding field
parse_flow_loop zero xs cursor = stuck
parse_flow_loop (suc fuel) xs cursor =
    if ltb cursor (length xs)
    then field (λ c. parse_flow_loop fuel xs c) xs (read_varint xs cursor)
    else ok []

-- Each round that does not wrap takes a byte at least.
unfoldable pub parse_flow_from_addons : List ℕ → Result (List ℕ)
unfolding parse_flow_loop
parse_flow_from_addons xs = parse_flow_loop (suc (length xs)) xs 0
