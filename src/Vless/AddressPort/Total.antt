-- ===== src/Vless/AddressPort/Total.antt =====
-- The decoder on any input: no panic, and no more bytes taken than there are.
use v2ray.Prelude.{
  length-append, ℕ, ◌≤◌, refl, List, [], ◌∷◌, arith, length, inl, inr, Bool-cases, ==_iff, IsByte,
  AreBytes, is_utf8, ◌==◌,
}
use v2ray.Common.Result.{Result, ok, err, panic, stuck}
use v2ray.Common.Result.Access.{split_at}
use v2ray.Common.Address.{Address}
use v2ray.Vless.AddressPort.{decode_address_port_with_len}
use v2ray.Vless.AddressPort.Shapes.{
  with_len-ipv4, with_len-ipv6, with_len-ip_short, with_len-domain, with_len-domain_short,
  with_len-unknown,
}

-- A value that takes at least four bytes and at most all of the input, or an error value.
abbrev pub Within : List ℕ → Result (Address × ℕ) → Type 0
Within xs (ok (a, n)) = (4 ≤ n) × (n ≤ length xs)
Within xs (err e) = Unit {0}
Within xs panic = ⊥
Within xs stuck = ⊥

Within-ipv4 :
    (a b : ℕ) (xs : List ℕ)
    → Within (a ∷ b ∷ 1 ∷ xs) (decode_address_port_with_len (a ∷ b ∷ 1 ∷ xs))
Within-ipv4 a b xs = elim (split_at 4 xs) [
  | inl h ↦ rw (with_len-ip_short a b 1 xs (inl (refl, h))) tt
  | inr (ip, rest, h, e) ↦
      rw (e, with_len-ipv4 a b ip rest h) (omega (arith, length-append ip rest))
]

Within-ipv6 :
    (a b : ℕ) (xs : List ℕ)
    → Within (a ∷ b ∷ 3 ∷ xs) (decode_address_port_with_len (a ∷ b ∷ 3 ∷ xs))
Within-ipv6 a b xs = elim (split_at 16 xs) [
  | inl h ↦ rw (with_len-ip_short a b 3 xs (inr (refl, h))) tt
  | inr (ip, rest, h, e) ↦
      rw (e, with_len-ipv6 a b ip rest h) (omega (arith, length-append ip rest))
]

Within-domain :
    (a b n : ℕ) (xs : List ℕ)
    → IsByte n
    → Within (a ∷ b ∷ 2 ∷ n ∷ xs) (decode_address_port_with_len (a ∷ b ∷ 2 ∷ n ∷ xs))
Within-domain a b n xs small = elim (split_at n xs) [
  | inl h ↦ rw (with_len-domain_short a b n xs h) tt
  | inr (name, rest, h, e) ↦
      rw (e, ← h, with_len-domain a b name rest (omega arith))
        (elim (Bool-cases (is_utf8 name)) [
          | inl valid ↦ rw valid (omega (arith, length-append name rest))
          | inr invalid ↦ rw invalid tt
        ])
]

Within-typed :
    (a b atyp x : ℕ) (xs : List ℕ)
    → IsByte x
    → Within (a ∷ b ∷ atyp ∷ x ∷ xs) (decode_address_port_with_len (a ∷ b ∷ atyp ∷ x ∷ xs))
Within-typed a b atyp x xs small = elim (Bool-cases (atyp == 1)) [
  | inl e ↦ rw ((==_iff atyp 1).0 e) (Within-ipv4 a b (x ∷ xs))
  | inr p ↦ elim (Bool-cases (atyp == 3)) [
    | inl e ↦ rw ((==_iff atyp 3).0 e) (Within-ipv6 a b (x ∷ xs))
    | inr q ↦ elim (Bool-cases (atyp == 2)) [
      | inl e ↦ rw ((==_iff atyp 2).0 e) (Within-domain a b x xs small)
      | inr r ↦ rw (with_len-unknown a b atyp x xs p q r) tt
    ]
  ]
]

-- On any bytes the decoder neither panics nor runs on, and what it takes is at least four bytes and
-- lies within the input.
pub decode_address_port-Within :
    (xs : List ℕ) → AreBytes xs → Within xs (decode_address_port_with_len xs)
decode_address_port-Within [] h = unfold decode_address_port_with_len in tt
decode_address_port-Within (a ∷ []) h = unfold decode_address_port_with_len in tt
decode_address_port-Within (a ∷ b ∷ []) h = unfold decode_address_port_with_len in tt
decode_address_port-Within (a ∷ b ∷ c ∷ []) h = unfold decode_address_port_with_len in tt
decode_address_port-Within (a ∷ b ∷ c ∷ x ∷ xs) h = Within-typed a b c x xs h.1.1.1.0
