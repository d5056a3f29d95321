-- ===== src/Trojan/RoundTrip.antt =====
-- Trojan headers and datagrams through the wire.
use v2ray.Prelude.{
  ℕ, ◌+◌, ◌≤◌, ◌≡◌, refl, ap, ◌∙◌, true, List, [], ◌∷◌, ◌++◌, arith, length, length-append,
  append_assoc, be16, of_be16-be16, le→ltb, ◌==◌, ◌||◌,
}
use v2ray.Common.Result.{ok}
use v2ray.Common.Result.Access.{index-shift, slice-third, slice_rest}
use v2ray.Common.Stream.{AsyncRead, AsyncReadLaws}
use v2ray.Common.Address.{Address, IsAddress, FitsWire}
use v2ray.Common.Socks5.RoundTrip.{wire_type, wire_body, write_lem, read_back, decode-wire_body}
use v2ray.Trojan.{
  decode_request, encode_request, expect_crlf, parse_udp_datagram, encode_udp_datagram, crlf,
  cmd_connect, cmd_udp_associate,
}

module _ (r : AsyncRead) (l : AsyncReadLaws r) where
  crlf_lem : (rest : List ℕ) → expect_crlf r (r.from (crlf ++ rest)) ≡ ok (tt, r.from rest)
  unfolding expect_crlf
  crlf_lem rest = rw (l.exact 2 crlf rest refl)

  -- A request with a token of 56 bytes, one of the two commands and a well-formed destination whose
  -- name fits its length byte is encoded, and decoded back; the decoder stops in front of the
  -- payload.
  pub decode-encode_trojan_request :
      (token : List ℕ) (command : ℕ) (dest : Address) (payload : List ℕ)
      → length token ≡ 56
      → (command == cmd_connect || command == cmd_udp_associate) ≡ true
      → IsAddress dest
      → FitsWire dest
      → (out : List ℕ) × (encode_request token command dest ≡ ok out)
        × (decode_request r (r.from (out ++ payload))
            ≡ ok (record { token = token; command = command; dest = dest }, r.from payload))
  decode-encode_trojan_request token command dest payload ht hc h f =
      let body = wire_body dest in
      let (_, back) = read_back r l dest (crlf ++ payload) h in
      (
        (token ++ (crlf ++ (command ∷ []))) ++ (wire_type dest ∷ body) ++ crlf,
        unfold encode_request in rw (write_lem (token ++ (crlf ++ (command ∷ []))) dest f),
        unfold decode_request in
            simp append_assoc (
              rw (
                l.exact 56 token (crlf ++ (command ∷ wire_type dest ∷ (body ++ (crlf ++ payload))))
                    ht,
                crlf_lem (command ∷ wire_type dest ∷ (body ++ (crlf ++ payload))),
                l.u8 command (wire_type dest ∷ (body ++ (crlf ++ payload))),
                hc,
                l.u8 (wire_type dest) (body ++ (crlf ++ payload)),
                back,
                crlf_lem payload,
              )),
      )

udp_parts :
    (dest : Address) (payload rest : List ℕ)
    → IsAddress dest
    → length payload ≤ 8192
    → parse_udp_datagram (
        (wire_type dest ∷ wire_body dest) ++ (be16 (length payload) ++ (crlf ++ (payload ++ rest))))
      ≡ ok (dest, payload, 1 + length (wire_body dest) + 4 + length payload)
unfolding parse_udp_datagram
udp_parts dest payload rest h small =
    let n : ℕ = length payload in
    let body = wire_body dest in
    let front = wire_type dest ∷ body in
    let fields : List ℕ = be16 n ++ (crlf ++ (payload ++ rest)) in
    let total : ℕ = length (front ++ fields) in
    let pos : ℕ = 1 + length body in
    let whole : total ≡ pos + (4 + (n + length rest)) =
      omega (arith, length-append body fields, length-append payload rest) in
    rw (
      le→ltb total 4 (omega arith),
      slice_rest (wire_type dest ∷ []) (body ++ fields) 1 refl,
      decode-wire_body dest fields h,
      le→ltb total (pos + 4) (omega arith),
      index-shift front fields pos 0 (omega arith),
      index-shift front fields (pos + 1) 1 (omega arith),
      of_be16-be16 n (omega arith),
      le→ltb 8192 n small,
      index-shift front fields (pos + 2) 2 (omega arith),
      index-shift front fields (pos + 3) 3 (omega arith),
      le→ltb total (pos + 4 + n) (omega arith),
      slice-third front (be16 n ++ crlf) payload rest (pos + 4) (pos + 4 + n) (omega arith) refl,
    )

-- A datagram of at most 8192 bytes to a well-formed destination whose name fits its length byte is
-- encoded, and parsed back from in front of any rest: destination, payload and length.
pub parse-encode_udp_datagram :
    (dest : Address) (payload rest : List ℕ)
    → IsAddress dest
    → FitsWire dest
    → length payload ≤ 8192
    → (out : List ℕ) × (encode_udp_datagram dest payload ≡ ok out)
      × (parse_udp_datagram (out ++ rest) ≡ ok (dest, payload, length out))
parse-encode_udp_datagram dest payload rest h f small =
    let front = wire_type dest ∷ wire_body dest in
    let n : ℕ = length payload in
    (
      front ++ (be16 n ++ (crlf ++ payload)),
      unfold encode_udp_datagram in rw (le→ltb 8192 n small, write_lem [] dest f),
      simp append_assoc (
          udp_parts dest payload rest h small
          ∙ ap (λ (t : ℕ). ok (dest, payload, t))
              (omega (arith, length-append (wire_body dest) (be16 n ++ (crlf ++ payload))))),
    )
