-- ===== src/Common/Socks5/Read.antt =====
-- The stream decoder on each layout of the input, and against the slice decoder.
use v2ray.Prelude.{
  ℕ, ◌+◌, ◌≡◌, ◌<◌, refl, ap, ◌⊎◌, inl, inr, List, [], ◌∷◌, ◌++◌, arith, length, is_utf8, of_be16,
  ◌==◌, length-append, append_assoc, drop, drop-append, Bool-cases, ==_iff,
}
use v2ray.Common.Result.{
  Result, ok, err, panic, stuck, protocol, invalid_utf8, io, unexpected_eof, unknown_atyp,
  ProxyError,
}
use v2ray.Common.Result.Access.{split_field, split_at}
use v2ray.Common.Result.Holds.{Holds}
use v2ray.Common.Stream.{list_stream, list_stream_laws, AsyncRead, AsyncReadLaws}
use v2ray.Common.Address.{Address, ipv4, ipv6, domain}
use v2ray.Common.Socks5.{decode_socks5_address, read_socks5_address}
use v2ray.Common.Socks5.Decode.{
  decode-ipv4, decode-ipv4_short, decode-ipv6, decode-ipv6_short, decode-domain,
  decode-domain_empty, decode-domain_short, named,
}

drop_field :
    (n : ℕ) (ys : List ℕ) (p q : ℕ) (rest : List ℕ)
    → length ys ≡ n
    → drop (n + 2) (ys ++ (p ∷ q ∷ rest)) ≡ rest
drop_field n ys p q rest h =
    rw (← append_assoc ys (p ∷ q ∷ []) rest)
      (drop-append (n + 2) (ys ++ (p ∷ q ∷ [])) rest (omega (arith, length-append ys (p ∷ q ∷ []))))

module _ (r : AsyncRead) (l : AsyncReadLaws r) where
  open r use {Stream, from, read_exact, read_u16}

  -- A field of fixed width and the port behind it.
  field_port :
      (n : ℕ) (ys : List ℕ) (p q : ℕ) (rest : List ℕ)
      → length ys ≡ n
      → (read_exact n (from (ys ++ (p ∷ q ∷ rest))) ≡ ok (ys, from (p ∷ q ∷ rest)))
        × (read_u16 (from (p ∷ q ∷ rest)) ≡ ok (of_be16 p q, from rest))
  field_port n ys p q rest h = (l.exact n ys (p ∷ q ∷ rest) h, l.u16 p q rest)

  pub read-ipv4 :
      (ip : List ℕ) (p q : ℕ) (rest : List ℕ)
      → length ip ≡ 4
      → read_socks5_address r (from (ip ++ (p ∷ q ∷ rest))) 1
        ≡ ok (ipv4 ip (of_be16 p q), from rest)
  unfolding read_socks5_address
  read-ipv4 ip p q rest h = let (a, b) = field_port 4 ip p q rest h in rw (a, b)

  pub read-ipv6 :
      (ip : List ℕ) (p q : ℕ) (rest : List ℕ)
      → length ip ≡ 16
      → read_socks5_address r (from (ip ++ (p ∷ q ∷ rest))) 4
        ≡ ok (ipv6 ip (of_be16 p q), from rest)
  unfolding read_socks5_address
  read-ipv6 ip p q rest h = let (a, b) = field_port 16 ip p q rest h in rw (a, b)

  pub read-domain :
      (name : List ℕ) (p q : ℕ) (rest : List ℕ)
      → read_socks5_address r (from (length name ∷ (name ++ (p ∷ q ∷ rest)))) 3
        ≡ named name (domain name (of_be16 p q), from rest)
  unfolding read_socks5_address
  read-domain name p q rest =
      let (a, b) = field_port (length name) name p q rest refl in
      rw (l.u8 (length name) (name ++ (p ∷ q ∷ rest)), a, b)

  -- A field that is cut off ends the stream, in the field or in the port.
  abbrev Cut : ℕ → List ℕ → Type 0
  Cut n xs =
      (read_exact n (from xs) ≡ err (io unexpected_eof))
      ⊎ ((ys : List ℕ) × (zs : List ℕ) × (read_exact n (from xs) ≡ ok (ys, from zs))
          × (read_u16 (from zs) ≡ err (io unexpected_eof)))

  field_short : (n : ℕ) (xs : List ℕ) → length xs < n + 2 → Cut n xs
  field_short n xs h = elim (split_at n xs) [
    | inl short ↦ inl (l.exact_eof n xs short)
    | inr (ys, zs, e, p) ↦ inr (
      ys,
      zs,
      rw p (l.exact n ys zs e),
      l.u16_eof zs (omega (arith, ap length p, length-append ys zs)),
    )
  ]

  -- The outcome of the stream decoder that fits one of the slice decoder.
  abbrev pub Agrees : List ℕ → Result (Address × ℕ) → Result (Address × Stream) → Type 0
  Agrees xs (ok (a, n)) m = m ≡ ok (a, from (drop n xs))
  Agrees xs (err e) m = (e' : ProxyError) × (m ≡ err e')
  Agrees xs panic m = ⊥
  Agrees xs stuck m = ⊥

  agree-ipv4 :
      (xs : List ℕ) → Agrees xs (decode_socks5_address xs 1) (read_socks5_address r (from xs) 1)
  agree-ipv4 xs = elim (split_field 4 xs) [
    | inl h ↦ rw (decode-ipv4_short xs h) (elim (field_short 4 xs h) [
      | inl e ↦ (io unexpected_eof, unfold read_socks5_address in rw e)
      | inr (ys, zs, e, f) ↦ (io unexpected_eof, unfold read_socks5_address in rw (e, f))
    ])
    | inr (ip, p, q, rest, h, e) ↦
        rw (e, decode-ipv4 ip p q rest h, read-ipv4 ip p q rest h) (rw (drop_field 4 ip p q rest h))
  ]

  agree-ipv6 :
      (xs : List ℕ) → Agrees xs (decode_socks5_address xs 4) (read_socks5_address r (from xs) 4)
  agree-ipv6 xs = elim (split_field 16 xs) [
    | inl h ↦ rw (decode-ipv6_short xs h) (elim (field_short 16 xs h) [
      | inl e ↦ (io unexpected_eof, unfold read_socks5_address in rw e)
      | inr (ys, zs, e, f) ↦ (io unexpected_eof, unfold read_socks5_address in rw (e, f))
    ])
    | inr (ip, p, q, rest, h, e) ↦
        rw (e, decode-ipv6 ip p q rest h, read-ipv6 ip p q rest h)
          (rw (drop_field 16 ip p q rest h))
  ]

  agree-named :
      (name : List ℕ) (p q : ℕ) (rest : List ℕ) (a : Address)
      → Agrees
          (length name ∷ (name ++ (p ∷ q ∷ rest)))
          (named name (a, 1 + length name + 2))
          (named name (a, from rest))
  agree-named name p q rest a = elim (Bool-cases (is_utf8 name)) [
    | inl e ↦ rw (e, drop_field (1 + length name) (length name ∷ name) p q rest (omega arith))
    | inr e ↦ rw e (protocol invalid_utf8, refl)
  ]

  agree-domain :
      (xs : List ℕ) → Agrees xs (decode_socks5_address xs 3) (read_socks5_address r (from xs) 3)
  agree-domain [] =
      rw decode-domain_empty (io unexpected_eof, unfold read_socks5_address in rw l.u8_eof)
  agree-domain (n ∷ xs) = elim (split_field n xs) [
    | inl h ↦ rw (decode-domain_short n xs h) (elim (field_short n xs h) [
      | inl e ↦ (io unexpected_eof, unfold read_socks5_address in rw (l.u8 n xs, e))
      | inr (ys, zs, e, f) ↦ (io unexpected_eof, unfold read_socks5_address in rw (l.u8 n xs, e, f))
    ])
    | inr (name, p, q, rest, h, e) ↦
        rw (e, ← h, decode-domain name p q rest, read-domain name p q rest)
          (agree-named name p q rest _)
  ]

  -- On any input and address type the two decoders agree: they take the same address off the front
  -- of the input, or both fail with an error. Neither panics.
  pub decode-read :
      (xs : List ℕ) (atyp : ℕ)
      → Agrees xs (decode_socks5_address xs atyp) (read_socks5_address r (from xs) atyp)
  decode-read xs atyp = elim (Bool-cases (atyp == 1)) [
    | inl e ↦ rw ((==_iff atyp 1).0 e) (agree-ipv4 xs)
    | inr not_ipv4 ↦ elim (Bool-cases (atyp == 4)) [
      | inl e ↦ rw ((==_iff atyp 4).0 e) (agree-ipv6 xs)
      | inr not_ipv6 ↦ elim (Bool-cases (atyp == 3)) [
        | inl e ↦ rw ((==_iff atyp 3).0 e) (agree-domain xs)
        | inr not_domain ↦
            unfold decode_socks5_address read_socks5_address in
            rw (not_ipv4, not_ipv6, not_domain) (protocol (unknown_atyp atyp), refl)
      ]
    ]
  ]

Holds-of_Agrees :
    (xs : List ℕ) (m : Result (Address × ℕ)) (n : Result (Address × List ℕ))
    → Agrees list_stream list_stream_laws xs m n
    → Holds (λ p. Unit {0}) m
Holds-of_Agrees xs (ok (a, k)) n h = tt
Holds-of_Agrees xs (err e) n h = tt
Holds-of_Agrees xs panic n h = h
Holds-of_Agrees xs stuck n h = h

-- The slice decoder returns on any input.
pub decode-Holds : (xs : List ℕ) (atyp : ℕ) → Holds (λ p. Unit {0}) (decode_socks5_address xs atyp)
decode-Holds xs atyp = Holds-of_Agrees xs _ _ (decode-read list_stream list_stream_laws xs atyp)
