-- ===== src/Trojan/Total.antt =====
-- `parse_udp_datagram` of Trojan returns on any input.
use v2ray.Prelude.{ℕ, ◌+◌, ◌≤◌, not, ◌&&◌, List, arith, length, of_be16, ltb, ◌==◌}
use v2ray.Common.Result.{ok, ◌>>=◌, index, slice, truncated, bad_length, missing_crlf}
use v2ray.Common.Result.Holds.{Holds, bind-Holds, ensure-Holds, not-ltb, index-Holds, slice-Holds}
use v2ray.Common.Address.{Address}
use v2ray.Common.Socks5.{decode_socks5_address}
use v2ray.Common.Socks5.Read.{decode-Holds}
use v2ray.Trojan.{parse_udp_datagram, max_udp_payload_len}

abbrev pub DatagramWithin : List ℕ → Address × List ℕ × ℕ → Type 0
DatagramWithin buf d = d.2 ≤ length buf

abbrev Byte : ℕ → Type 0
Byte b = Unit {0}

-- On any input the parser of a Trojan datagram returns a datagram or an error, without a panic, and
-- the datagram lies within the input.
parse_udp_datagram-Holds : (buf : List ℕ) → Holds (DatagramWithin buf) (parse_udp_datagram buf)
unfolding parse_udp_datagram
parse_udp_datagram-Holds buf =
    let Q = DatagramWithin buf in
    ensure-Holds Q _ _ _ λ four.
      let long = not-ltb (length buf) 4 four in
      bind-Holds Byte Q (index buf 0) _ (index-Holds buf 0 (omega arith)) λ atyp _.
        bind-Holds (λ s. Unit {0}) Q (slice buf 1 (length buf)) _
          (slice-Holds buf 1 (length buf) (omega arith) (omega arith))
          λ tail _.
            bind-Holds (λ p. Unit {0}) Q (decode_socks5_address tail atyp) _
              (decode-Holds tail atyp)
              λ p _.
                let pos : ℕ = 1 + p.1 in
                ensure-Holds Q _ _ _ λ header.
                  let room = not-ltb (length buf) (pos + 4) header in
                  bind-Holds Byte Q (index buf pos) _ (index-Holds buf pos (omega arith)) λ hi _.
                    bind-Holds Byte Q (index buf (pos + 1)) _
                      (index-Holds buf (pos + 1) (omega arith))
                      λ lo _.
                        ensure-Holds Q (not (ltb max_udp_payload_len (of_be16 hi lo)))
                          (bad_length (of_be16 hi lo)) _
                          λ _.
                            bind-Holds Byte Q (index buf (pos + 2)) _
                              (index-Holds buf (pos + 2) (omega arith))
                              λ cr _.
                                bind-Holds Byte Q (index buf (pos + 3)) _
                                  (index-Holds buf (pos + 3) (omega arith))
                                  λ lf _.
                                    ensure-Holds Q (cr == 0x0d && lf == 0x0a) missing_crlf _ λ _.
                                      let n : ℕ = of_be16 hi lo in
                                      ensure-Holds Q (not (ltb (length buf) (pos + 4 + n)))
                                        truncated
                                        (slice buf (pos + 4) (pos + 4 + n) >>= λ payload.
                                          ok (p.0, payload, pos + 4 + n))
                                        λ all.
                                          let fits = not-ltb (length buf) (pos + 4 + n) all in
                                          bind-Holds (λ s. Unit {0}) Q
                                            (slice buf (pos + 4) (pos + 4 + n))
                                            (λ payload. ok (p.0, payload, pos + 4 + n))
                                            (slice-Holds buf (pos + 4) (pos + 4 + n) (omega arith)
                                              fits)
                                            (λ _ _. fits)
