-- ===== src/Common/Socks5/Decode.antt =====
-- The decoders on each layout of the input.
use v2ray.Prelude.{
  ℕ, suc, ◌+◌, ◌≡◌, ◌<◌, refl, List, [], ◌∷◌, ◌++◌, arith, length, is_utf8, of_be16, length-append,
  le→ltb, lt→ltb,
}
use v2ray.Common.Result.{Result, ok, err, protocol, ◌>>=◌, truncated, invalid_utf8, ensure}
use v2ray.Common.Result.Access.{index-append, index-append_next, slice-append, four}
use v2ray.Common.Address.{ipv4, ipv6, domain}
use v2ray.Common.Socks5.{decode_socks5_address}

-- The name is checked when all of it is there.
abbrev pub named {ℓ} : {A : Type ℓ} → List ℕ → A → Result A
named name a = ensure (is_utf8 name) invalid_utf8 >>= λ _. ok a

pub decode-ipv4 :
    (ip : List ℕ) (p q : ℕ) (rest : List ℕ)
    → length ip ≡ 4
    → decode_socks5_address (ip ++ (p ∷ q ∷ rest)) 1 ≡ ok (ipv4 ip (of_be16 p q), 6)
unfolding decode_socks5_address
decode-ipv4 ip p q rest h =
    let (a, b, c, d, e) = four ip h in
    rw (e, le→ltb (suc (suc (suc (suc (suc (suc (length rest))))))) 6 (omega arith))

pub decode-ipv4_short :
    (xs : List ℕ) → length xs < 6 → decode_socks5_address xs 1 ≡ err (protocol truncated)
unfolding decode_socks5_address
decode-ipv4_short xs h = rw (lt→ltb _ _ h)

pub decode-ipv6 :
    (ip : List ℕ) (p q : ℕ) (rest : List ℕ)
    → length ip ≡ 16
    → decode_socks5_address (ip ++ (p ∷ q ∷ rest)) 4 ≡ ok (ipv6 ip (of_be16 p q), 18)
unfolding decode_socks5_address
decode-ipv6 ip p q rest h = rw (
  le→ltb (length (ip ++ (p ∷ q ∷ rest))) 18 (omega (arith, length-append ip (p ∷ q ∷ rest))),
  slice-append [] ip (p ∷ q ∷ rest) 0 16 refl (omega arith),
  index-append ip p (q ∷ rest) 16 h,
  index-append_next ip p q rest 16 h,
)

pub decode-ipv6_short :
    (xs : List ℕ) → length xs < 18 → decode_socks5_address xs 4 ≡ err (protocol truncated)
unfolding decode_socks5_address
decode-ipv6_short xs h = rw (lt→ltb _ _ h)

pub decode-domain :
    (name : List ℕ) (p q : ℕ) (rest : List ℕ)
    → decode_socks5_address (length name ∷ (name ++ (p ∷ q ∷ rest))) 3
      ≡ named name (domain name (of_be16 p q), 1 + length name + 2)
unfolding decode_socks5_address
decode-domain name p q rest =
    let n = length name in
    let xs = name ++ (p ∷ q ∷ rest) in
    rw (
      le→ltb (suc (length xs)) 1 (omega arith),
      le→ltb (suc (length xs)) (1 + n + 2) (omega (arith, length-append name (p ∷ q ∷ rest))),
      slice-append (n ∷ []) name (p ∷ q ∷ rest) 1 (1 + n) refl refl,
      index-append (n ∷ name) p (q ∷ rest) (1 + n) (omega arith),
      index-append_next (n ∷ name) p q rest (1 + n) (omega arith),
    )

pub decode-domain_empty : decode_socks5_address [] 3 ≡ err (protocol truncated)
unfolding decode_socks5_address
decode-domain_empty = refl

pub decode-domain_short :
    (n : ℕ) (xs : List ℕ)
    → length xs < n + 2
    → decode_socks5_address (n ∷ xs) 3 ≡ err (protocol truncated)
unfolding decode_socks5_address
decode-domain_short n xs h =
    rw
      (le→ltb (suc (length xs)) 1 (omega arith), lt→ltb (suc (length xs)) (1 + n + 2) (omega arith))
