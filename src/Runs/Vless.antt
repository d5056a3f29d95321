-- ===== src/Runs/Vless.antt =====
-- VLESS on concrete inputs.
use v2ray.Prelude.{
  ℕ, zero, suc, ◌<◌, ◌≡◌, refl, arith, true, drop, Option, some, none, ap, List, [], ◌∷◌, ◌++◌,
  is_utf8,
}
use v2ray.Common.Result.{ok, stuck}
use v2ray.Common.Stream.{list_stream, list_stream_laws}
use v2ray.Vless.Varint.{read_varint}
use v2ray.Vless.Addons.{parse_flow_loop, parse_flow_from_addons}
use v2ray.Vless.Addons.Faults.{rewinding, parse_flow-rewinding}
use v2ray.Vless.Addons.Ends.{NoWrap, Found, parse_flow-Found}
use v2ray.Vless.Codec.{tcp, encode_request, decode_request}
use v2ray.Vless.Codec.Target.{seen_dest}
use v2ray.Vless.Codec.RoundTrip.{decode-encode_request}
use v2ray.Vless.AddressPort.{decode_address_port_with_len}
use v2ray.Vless.AddressPort.Total.{Within, decode_address_port-Within}
use v2ray.Runs.Values.{website, website-IsAddress, website-FitsWire, hello, sixteen}

abbrev vision : List ℕ
vision = b'v' ∷ b'i' ∷ b's' ∷ []

vision_valid : is_utf8 vision ≡ true
unfolding is_utf8
vision_valid = refl

decode-encode_request_example :
    (out : List ℕ) × (encode_request sixteen vision tcp website ≡ ok out)
    × (decode_request list_stream (out ++ hello)
        ≡ ok (
          record { uuid = sixteen; command = tcp; dest = seen_dest tcp website; flow = vision },
          hello,
        ))
decode-encode_request_example =
    decode-encode_request list_stream list_stream_laws sixteen vision tcp website hello refl
      (omega arith) vision_valid website-IsAddress website-FitsWire

parse_flow-rewinding_example : parse_flow_loop 1000 (rewinding hello) 0 ≡ stuck
parse_flow-rewinding_example = parse_flow-rewinding 1000 hello

-- Field 1 with one byte.
abbrev addons : List ℕ
addons = 0x0a ∷ 0x01 ∷ b'x' ∷ []

number : Option ℕ × ℕ → ℕ
number (none, c) = 0
number (some v, c) = v

drop-nil : (c : ℕ) → drop {A = ℕ} c [] ≡ []
drop-nil zero = refl
drop-nil (suc c) = refl

numbers_small : (c : ℕ) → number (read_varint addons c) < 1000
unfolding read_varint number
numbers_small zero = omega arith
numbers_small (suc zero) = omega arith
numbers_small (suc (suc zero)) = omega arith
numbers_small (suc (suc (suc c))) = rw (drop-nil c) (omega arith)

addons-NoWrap : NoWrap addons
unfolding number
addons-NoWrap c v c' e = omega (arith, numbers_small c, ap number e)

parse_flow-Found_example : Found (parse_flow_from_addons addons)
parse_flow-Found_example = parse_flow-Found addons (omega arith) addons-NoWrap

decode_address_port-Within_example :
    Within (1 ∷ 187 ∷ 9 ∷ 0 ∷ []) (decode_address_port_with_len (1 ∷ 187 ∷ 9 ∷ 0 ∷ []))
decode_address_port-Within_example =
    decode_address_port-Within (1 ∷ 187 ∷ 9 ∷ 0 ∷ [])
      (omega arith, (omega arith, (omega arith, (omega arith, tt))))
