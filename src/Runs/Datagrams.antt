-- ===== src/Runs/Datagrams.antt =====
-- SOCKS5 addresses, Trojan and SOCKS5 datagrams on concrete inputs.
use v2ray.Prelude.{ℕ, ◌≡◌, refl, arith, List, [], ◌∷◌, ◌++◌, length}
use v2ray.Common.Result.{ok}
use v2ray.Common.Stream.{list_stream, list_stream_laws}
use v2ray.Common.Socks5.{decode_socks5_address, read_socks5_address}
use v2ray.Common.Socks5.Read.{Agrees, decode-read}
use v2ray.Trojan.{encode_request, decode_request, parse_udp_datagram, encode_udp_datagram}
use v2ray.Trojan.RoundTrip.{decode-encode_trojan_request, parse-encode_udp_datagram}
use v2ray.SocksUdp.Laws.{parse-encode_socks_datagram}
use v2ray.Runs.Values.{
  website, website-IsAddress, website-FitsWire, resolver, resolver-IsAddress, hello, sixteen,
}

decode-read_example :
    Agrees list_stream list_stream_laws
      (9 ∷ 9 ∷ 9 ∷ 9 ∷ 0 ∷ 53 ∷ hello)
      (decode_socks5_address (9 ∷ 9 ∷ 9 ∷ 9 ∷ 0 ∷ 53 ∷ hello) 1)
      (read_socks5_address list_stream (9 ∷ 9 ∷ 9 ∷ 9 ∷ 0 ∷ 53 ∷ hello) 1)
decode-read_example = decode-read list_stream list_stream_laws (9 ∷ 9 ∷ 9 ∷ 9 ∷ 0 ∷ 53 ∷ hello) 1

abbrev token : List ℕ
token = sixteen ++ (sixteen ++ (sixteen ++ (1 ∷ 2 ∷ 3 ∷ 4 ∷ 5 ∷ 6 ∷ 7 ∷ 8 ∷ [])))

decode-encode_trojan_request_example :
    (out : List ℕ) × (encode_request token 3 resolver ≡ ok out)
    × (decode_request list_stream (out ++ hello)
        ≡ ok (record { token = token; command = 3; dest = resolver }, hello))
decode-encode_trojan_request_example =
    decode-encode_trojan_request list_stream list_stream_laws token 3 resolver hello refl refl
      resolver-IsAddress tt

parse-encode_udp_datagram_example :
    (out : List ℕ) × (encode_udp_datagram website hello ≡ ok out)
    × (parse_udp_datagram (out ++ sixteen) ≡ ok (website, hello, length out))
parse-encode_udp_datagram_example =
    parse-encode_udp_datagram website hello sixteen website-IsAddress website-FitsWire (omega arith)

parse-encode_socks_datagram_example :
    (out : List ℕ) × (v2ray.SocksUdp.encode_udp_datagram resolver hello ≡ ok out)
    × (v2ray.SocksUdp.parse_udp_datagram out ≡ ok (resolver, hello))
parse-encode_socks_datagram_example =
    parse-encode_socks_datagram resolver hello resolver-IsAddress tt
