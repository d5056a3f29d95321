-- ===== src/SocksUdp/Laws.antt =====
-- SOCKS5 UDP datagrams: the round trip, and the inputs on which the parser returns.
use v2ray.Prelude.{
  Bool-cases, ℕ, ◌+◌, ◌≤◌, ◌≡◌, ◌⊎◌, inl, inr, refl, not, ◌&&◌, List, [], ◌∷◌, ◌++◌, arith, length,
  length-append, le→ltb, ltb, ◌==◌,
}
use v2ray.Common.Result.{ok, panic, ◌>>=◌, index, slice, truncated, bad_reserved, bad_fragment}
use v2ray.Common.Result.Access.{slice_rest}
use v2ray.Common.Result.Holds.{Holds, bind-Holds, ensure-Holds, not-ltb, index-Holds, slice-Holds}
use v2ray.Common.Address.{Address, IsAddress, FitsWire}
use v2ray.Common.Socks5.{decode_socks5_address}
use v2ray.Common.Socks5.Read.{decode-Holds}
use v2ray.Common.Socks5.RoundTrip.{wire_type, wire_body, write_lem, decode-wire_body}
use v2ray.SocksUdp.{parse_udp_datagram, encode_udp_datagram, socks_udp_header}

parts :
    (dest : Address) (payload : List ℕ)
    → IsAddress dest
    → parse_udp_datagram (0 ∷ 0 ∷ 0 ∷ wire_type dest ∷ (wire_body dest ++ payload))
      ≡ ok (dest, payload)
unfolding parse_udp_datagram
parts dest payload h =
    let body = wire_body dest in
    let front : List ℕ = 0 ∷ 0 ∷ 0 ∷ wire_type dest ∷ body in
    let total : ℕ = length (front ++ payload) in
    let whole : total ≡ 4 + length body + length payload =
      omega (arith, length-append body payload) in
    rw (
      le→ltb total 3 (omega arith),
      slice_rest (0 ∷ 0 ∷ 0 ∷ wire_type dest ∷ []) (body ++ payload) 4 refl,
      decode-wire_body dest payload h,
      le→ltb total (4 + length body) (omega arith),
      slice_rest front payload (4 + length body) (omega arith),
    )

-- A payload for a well-formed destination whose name fits its length byte is encoded to a datagram,
-- and parsed back from it: the destination and the whole payload.
pub parse-encode_socks_datagram :
    (dest : Address) (payload : List ℕ)
    → IsAddress dest
    → FitsWire dest
    → (out : List ℕ) × (encode_udp_datagram dest payload ≡ ok out)
      × (parse_udp_datagram out ≡ ok (dest, payload))
parse-encode_socks_datagram dest payload h f = (
  0 ∷ 0 ∷ 0 ∷ wire_type dest ∷ (wire_body dest ++ payload),
  unfold encode_udp_datagram in rw (write_lem (0 ∷ 0 ∷ 0 ∷ []) dest f),
  parts dest payload h,
)

-- The payload is inside the datagram.
abbrev pub PayloadWithin : List ℕ → Address × List ℕ → Type 0
PayloadWithin buf d = length d.1 + 4 ≤ length buf

abbrev Byte : ℕ → Type 0
Byte b = Unit {0}

returns_long : (buf : List ℕ) → 4 ≤ length buf → Holds (λ d. Unit {0}) (parse_udp_datagram buf)
unfolding parse_udp_datagram
returns_long buf long =
    let Q : Address × List ℕ → Type 0 = λ d. Unit {0} in
    ensure-Holds Q (not (ltb (length buf) socks_udp_header)) truncated _ λ _.
      bind-Holds Byte Q (index buf 0) _ (index-Holds buf 0 (omega arith)) λ a _.
        bind-Holds Byte Q (index buf 1) _ (index-Holds buf 1 (omega arith)) λ b _.
          ensure-Holds Q (a == 0 && b == 0) bad_reserved _ λ _.
            bind-Holds Byte Q (index buf 2) _ (index-Holds buf 2 (omega arith)) λ frag _.
              ensure-Holds Q (frag == 0) (bad_fragment frag) _ λ _.
                bind-Holds Byte Q (index buf 3) _ (index-Holds buf 3 (omega arith)) λ atyp _.
                  bind-Holds (λ s. Unit {0}) Q (slice buf 4 (length buf)) _
                    (slice-Holds buf 4 (length buf) long (omega arith))
                    λ tail _.
                      bind-Holds (λ p. Unit {0}) Q (decode_socks5_address tail atyp) _
                        (decode-Holds tail atyp)
                        λ p _.
                          ensure-Holds Q (not (ltb (length buf) (4 + p.1))) truncated
                            (slice buf (4 + p.1) (length buf) >>= λ payload. ok (p.0, payload))
                            λ room.
                              let fits = not-ltb (length buf) (4 + p.1) room in
                              bind-Holds (λ s. Unit {0}) Q (slice buf (4 + p.1) (length buf))
                                (λ payload. ok (p.0, payload))
                                (slice-Holds buf (4 + p.1) (length buf) fits (omega arith))
                                (λ _ _. tt)

short_header :
    (a b c : ℕ)
    → (a ≡ 0) × (b ≡ 0) × (c ≡ 0) ⊎ Holds (λ d. Unit {0}) (parse_udp_datagram (a ∷ b ∷ c ∷ []))
unfolding parse_udp_datagram
short_header a b c = elim (Bool-cases (a == 0 && b == 0)) [
  | inr e ↦ rw e (inr tt)
  | inl e ↦ elim (Bool-cases (c == 0)) [
    | inr k ↦ rw (e, k) (inr tt)
    | inl k ↦ inl (ground arith, ground arith, ground arith)
  ]
]

-- The parser of a SOCKS5 datagram returns a datagram or an error on every input but one: on the
-- three bytes 0, 0, 0 it panics, since it checks for three bytes and reads a fourth.
parse_udp_datagram_panics :
    ((buf : List ℕ) → (buf ≡ 0 ∷ 0 ∷ 0 ∷ []) ⊎ Holds (λ d. Unit {0}) (parse_udp_datagram buf))
    × (parse_udp_datagram (0 ∷ 0 ∷ 0 ∷ []) ≡ panic)
parse_udp_datagram_panics = (all, unfold parse_udp_datagram in refl)
  where
    all : (buf : List ℕ) → (buf ≡ 0 ∷ 0 ∷ 0 ∷ []) ⊎ Holds (λ d. Unit {0}) (parse_udp_datagram buf)
    all [] = inr (unfold parse_udp_datagram in tt)
    all (a ∷ []) = inr (unfold parse_udp_datagram in tt)
    all (a ∷ b ∷ []) = inr (unfold parse_udp_datagram in tt)
    all (a ∷ b ∷ c ∷ []) = elim (short_header a b c) [
      | inl (x, y, z) ↦ inl (rw (x, y, z))
      | inr h ↦ inr h
    ]
    all (a ∷ b ∷ c ∷ d ∷ buf) = inr (returns_long (a ∷ b ∷ c ∷ d ∷ buf) (omega arith))
