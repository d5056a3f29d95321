-- ===== src/App/Sniff.antt =====
-- Sniffing the domain of a connection: `tls_sni`, `apply_dest_override` and `sniff_fakedns` of
-- crates/blackwire-app/src/sniff.rs.
pub mod Total
pub mod Override
use v2ray.Prelude.{
  ℕ, zero, suc, ◌+◌, Bool, true, false, not, ◌&&◌, ◌||◌, Option, none, some, List, [], ◌∷◌, leb,
  ltb, ◌==◌, if◌then◌else◌, length, min, of_be16, is_utf8, bytes_eq,
}
use v2ray.Common.Result.{Result, ok, err, panic, stuck, ◌>>=◌, index, slice}
use v2ray.Common.Address.{Address, ipv4, ipv6, domain}

-- `u16::from_be_bytes([data[pos], data[pos + 1]])`
unfoldable pub u16_at : List ℕ → ℕ → Result ℕ
u16_at xs pos = do hi ← index xs pos; lo ← index xs (pos + 1); ok (of_be16 hi lo)

-- The host name of an extension, if it is the one for server names; the outer option is whether
-- the function returns.
unfoldable pub sni_name : List ℕ → ℕ → Result (Option (Option (List ℕ)))
unfolding u16_at
sni_name xs pos = do
  name_len ← u16_at xs (pos + 3)
  let read = do
    name ← slice xs (pos + 5) (pos + 5 + name_len)
    ok (some (if is_utf8 name then some name else none))
  if leb (pos + 5 + name_len) (length xs) then read else ok none

unfoldable pub sni_extension : List ℕ → ℕ → ℕ → ℕ → Result (Option (Option (List ℕ)))
unfolding sni_name
sni_extension xs etype elen pos =
    let typed = do
      name_type ← index xs (pos + 2)
      if name_type == 0 then sni_name xs pos else ok none
    in if etype == 0 && ltb 5 elen then typed else ok none

abbrev or_next : Option (Option (List ℕ)) → Result (Option (List ℕ)) → Result (Option (List ℕ))
or_next none next = next
or_next (some answer) next = ok answer

-- One extension, whose type and length stand at `pos`.
unfoldable pub one_extension :
    (ℕ → Result (Option (List ℕ))) → List ℕ → ℕ → Result (Option (List ℕ))
unfolding sni_extension u16_at
one_extension next xs pos = do
  etype ← u16_at xs pos
  elen ← u16_at xs (pos + 2)
  let found = do
    answer ← sni_extension xs etype elen (pos + 4)
    or_next answer (next (pos + 4 + elen))
  if ltb (length xs) (pos + 4 + elen) then ok none else found

-- The loop over the extensions.
unfoldable pub sni_loop : ℕ → List ℕ → ℕ → ℕ → Result (Option (List ℕ))
unfolding one_extension
sni_loop zero xs end pos = stuck
sni_loop (suc fuel) xs end pos =
    let round = one_extension (sni_loop fuel xs end) xs pos in
    if leb (pos + 4) (min end (length xs)) then round else ok none

-- `if test { return None }`
abbrev unless : Bool → Result (Option (List ℕ)) → Result (Option (List ℕ))
unless true k = ok none
unless false k = k

-- From the extensions on, from the compression methods on, and so forth.
unfoldable pub extensions_at : List ℕ → ℕ → Result (Option (List ℕ))
unfolding sni_loop u16_at
extensions_at xs pos =
    unless (ltb (length xs) (pos + 2))
      (do ext_len ← u16_at xs pos; sni_loop (suc (length xs)) xs (pos + 2 + ext_len) (pos + 2))

unfoldable pub compression_at : List ℕ → ℕ → Result (Option (List ℕ))
unfolding extensions_at
compression_at xs pos =
    unless (leb (length xs) pos)
      (do comp_len ← index xs pos; extensions_at xs (pos + (1 + comp_len)))

unfoldable pub suites_at : List ℕ → ℕ → Result (Option (List ℕ))
unfolding compression_at u16_at
suites_at xs pos =
    unless (ltb (length xs) (pos + 2))
      (do suites_len ← u16_at xs pos; compression_at xs (pos + (2 + suites_len)))

unfoldable pub session_at : List ℕ → ℕ → Result (Option (List ℕ))
unfolding suites_at u16_at
session_at xs pos =
    unless (ltb (length xs) (pos + 2))
      (do sess_len ← u16_at xs pos; suites_at xs (pos + (2 + sess_len)))

unfoldable pub tls_sni : List ℕ → Result (Option (List ℕ))
unfolding session_at
tls_sni xs = unless (ltb (length xs) 5) (do
  first ← index xs 0
  let hello = do
    message ← index xs 5
    unless (not (message == 0x01)) (session_at xs (5 + 4 + (2 + 32 + 1)))
  unless (not (first == 0x16)) (unless (leb (length xs) 5) hello))

pub record SniffResult : Type 0 where
  pub protocol : Option (List ℕ)
  pub domain : Option (List ℕ)

pub record SniffingConfig : Type 0 where
  pub enabled : Bool
  pub route_only : Bool
  pub dest_override : List (List ℕ)

abbrev overrides : List ℕ → Bool
overrides p =
    bytes_eq p (b'h' ∷ b't' ∷ b't' ∷ b'p' ∷ [])
    || (bytes_eq p (b't' ∷ b'l' ∷ b's' ∷ [])
        || bytes_eq p (b'f' ∷ b'a' ∷ b'k' ∷ b'e' ∷ b'd' ∷ b'n' ∷ b's' ∷ []))

-- `dest_override.iter().any`
abbrev any_overrides : List (List ℕ) → Bool
any_overrides [] = false
any_overrides (p ∷ ps) = overrides p || any_overrides ps

abbrev override_ip : SniffingConfig → List ℕ → ℕ → Address → Address
override_ip config name port dest =
    if any_overrides config.dest_override then domain name port else dest

abbrev override : SniffingConfig → List ℕ → Address → Address
override config name (ipv4 ip p) = override_ip config name p (ipv4 ip p)
override config name (ipv6 ip p) = override_ip config name p (ipv6 ip p)
override config name (domain d p) = domain d p

unfoldable pub apply_dest_override : Address → SniffResult → SniffingConfig → Address
apply_dest_override dest sniff config =
    if not config.enabled || config.route_only
    then dest
    else elim sniff.domain [ none ↦ dest | some name ↦ override config name dest ]
