-- ===== src/Vless/AddressPort/Shapes.antt =====
-- The decoder on each layout of the input.
use v2ray.Prelude.{
  inr, inl, ◌⊎◌, Bool-cases, ℕ, suc, ◌+◌, ◌≤◌, ◌<◌, ◌≡◌, refl, List, [], ◌∷◌, ◌++◌, arith, length,
  is_utf8, of_be16, length-append, le→ltb, lt→ltb, le→leb, take-append, drop-append, false,
  if◌then◌else◌, ◌==◌,
}
use v2ray.Common.Result.{unknown_atyp, ok, err, protocol, truncated, invalid_utf8, slice}
use v2ray.Common.Result.Access.{slice-append, slice-append_last}
use v2ray.Common.Address.{ipv4, ipv6, domain, domain_wire_len}
use v2ray.Vless.AddressPort.{decode_address_port_with_len, take_exact}

-- From three bytes on, the rest of the input.
tail_lem : (a b c : ℕ) (xs : List ℕ) → slice (a ∷ b ∷ c ∷ xs) 3 (length (a ∷ b ∷ c ∷ xs)) ≡ ok xs
tail_lem a b c xs = slice-append_last (a ∷ b ∷ c ∷ []) xs 3 _ refl (omega arith)

take_exact-append :
    (n : ℕ) (xs rest : List ℕ) → length xs ≡ n → take_exact n (xs ++ rest) ≡ ok (xs, rest)
unfolding take_exact
take_exact-append n xs rest h = rw (
  le→leb n (length (xs ++ rest)) (omega (arith, length-append xs rest)),
  take-append n xs rest h,
  drop-append n xs rest h,
)

module _ (a b : ℕ) where
  pub with_len-ipv4 :
      (ip rest : List ℕ)
      → length ip ≡ 4
      → decode_address_port_with_len (a ∷ b ∷ 1 ∷ (ip ++ rest)) ≡ ok (ipv4 ip (of_be16 a b), 7)
  unfolding decode_address_port_with_len
  with_len-ipv4 ip rest h =
      let all = length-append ip rest in
      rw (
        le→ltb (suc (suc (suc (length (ip ++ rest))))) 4 (omega arith),
        le→ltb (suc (suc (suc (length (ip ++ rest))))) 7 (omega arith),
        tail_lem a b 1 (ip ++ rest),
        take_exact-append 4 ip rest h,
      )

  pub with_len-ipv6 :
      (ip rest : List ℕ)
      → length ip ≡ 16
      → decode_address_port_with_len (a ∷ b ∷ 3 ∷ (ip ++ rest)) ≡ ok (ipv6 ip (of_be16 a b), 19)
  unfolding decode_address_port_with_len
  with_len-ipv6 ip rest h =
      let all = length-append ip rest in
      rw (
        le→ltb (suc (suc (suc (length (ip ++ rest))))) 4 (omega arith),
        le→ltb (suc (suc (suc (length (ip ++ rest))))) 19 (omega arith),
        tail_lem a b 3 (ip ++ rest),
        take_exact-append 16 ip rest h,
      )

  pub with_len-ip_short :
      (atyp : ℕ) (xs : List ℕ)
      → ((atyp ≡ 1) × (length xs < 4)) ⊎ ((atyp ≡ 3) × (length xs < 16))
      → decode_address_port_with_len (a ∷ b ∷ atyp ∷ xs) ≡ err (protocol truncated)
  unfolding decode_address_port_with_len
  with_len-ip_short atyp [] h = refl
  with_len-ip_short atyp (x ∷ xs) (inl (e, h)) = rw (
    e,
    le→ltb (suc (suc (suc (suc (length xs))))) 4 (omega arith),
    lt→ltb (suc (suc (suc (suc (length xs))))) 7 (omega arith),
  )
  with_len-ip_short atyp (x ∷ xs) (inr (e, h)) = rw (
    e,
    le→ltb (suc (suc (suc (suc (length xs))))) 4 (omega arith),
    lt→ltb (suc (suc (suc (suc (length xs))))) 19 (omega arith),
  )

  -- A name that fits its length byte, in front of any rest.
  pub with_len-domain :
      (name rest : List ℕ)
      → length name ≤ 255
      → decode_address_port_with_len (a ∷ b ∷ 2 ∷ length name ∷ (name ++ rest)) ≡ (
          if is_utf8 name
          then ok (domain name (of_be16 a b), 2 + 1 + (1 + length name))
          else err (protocol invalid_utf8))
  unfolding decode_address_port_with_len domain_wire_len
  with_len-domain name rest h =
      let n = length name in
      let all = length-append name rest in
      let total : ℕ = suc (suc (suc (suc (length (name ++ rest))))) in
      rw
        (
          le→ltb total 4 (omega arith),
          le→ltb total (4 + n) (omega arith),
          slice-append (a ∷ b ∷ 2 ∷ n ∷ []) name rest 4 (4 + n) refl refl,
        )
        (elim (Bool-cases (is_utf8 name)) [
          | inl valid ↦ rw (
            valid,
            le→ltb 255 n h,
            le→ltb total (2 + 1 + (1 + n)) (omega arith),
            tail_lem a b 2 (n ∷ (name ++ rest)),
            take_exact-append 1 (n ∷ []) (name ++ rest) refl,
            take_exact-append n name rest refl,
            valid,
          )
          | inr invalid ↦ rw invalid
        ])

  pub with_len-domain_short :
      (n : ℕ) (xs : List ℕ)
      → length xs < n
      → decode_address_port_with_len (a ∷ b ∷ 2 ∷ n ∷ xs) ≡ err (protocol truncated)
  unfolding decode_address_port_with_len
  with_len-domain_short n xs h = rw (
    le→ltb (suc (suc (suc (suc (length xs))))) 4 (omega arith),
    lt→ltb (suc (suc (suc (suc (length xs))))) (4 + n) (omega arith),
  )

  pub with_len-unknown :
      (atyp x : ℕ) (xs : List ℕ)
      → (atyp == 1) ≡ false
      → (atyp == 3) ≡ false
      → (atyp == 2) ≡ false
      → decode_address_port_with_len (a ∷ b ∷ atyp ∷ x ∷ xs) ≡ err (protocol (unknown_atyp atyp))
  unfolding decode_address_port_with_len
  with_len-unknown atyp x xs p q r =
      rw (le→ltb (suc (suc (suc (suc (length xs))))) 4 (omega arith), p, q, r)
