-- ===== src/Runs/Headers.antt =====
-- mKCP headers and VLESS UDP packets on concrete inputs.
use v2ray.Prelude.{ℕ, ◌+◌, ◌≡◌, some, List, length}
use v2ray.Common.Result.{ok}
use v2ray.Common.Stream.{list_stream, list_stream_laws}
use v2ray.Mkcp.Header.{dtls, size, encode, strip}
use v2ray.Mkcp.Header.RoundTrip.{strip-encode}
use v2ray.Vless.Udp.{read_udp_header, write_udp_packet}
use v2ray.Vless.Udp.RoundTrip.{read-write_udp_packet}
use v2ray.Runs.Values.{website, website-IsAddress, website-FitsWire, hello}

strip-encode_example :
    (strip dtls (encode dtls 70000 hello) ≡ some hello)
    × (length (encode dtls 70000 hello) ≡ size dtls + length hello)
strip-encode_example = strip-encode dtls 70000 hello

read-write_udp_packet_example :
    (out : List ℕ) × (write_udp_packet website hello ≡ ok out)
    × (read_udp_header list_stream out ≡ ok (website, hello))
read-write_udp_packet_example =
    read-write_udp_packet list_stream list_stream_laws website hello website-IsAddress
      website-FitsWire
