-- ===== src/Vless/Codec/RoundTrip.antt =====
-- A request header through the wire.
use v2ray.Prelude.{true, ℕ, ◌≤◌, ◌≡◌, refl, List, ◌∷◌, ◌++◌, length, is_utf8, append_assoc}
use v2ray.Common.Result.{ok}
use v2ray.Common.Stream.{AsyncRead, AsyncReadLaws}
use v2ray.Common.Address.{Address, IsAddress, FitsWire}
use v2ray.Vless.Codec.{
  Command, tcp, udp, mux, command_of, command_byte, vless_version, encode_request, decode_request,
}
use v2ray.Vless.Codec.Flow.{read_flow-encode}
use v2ray.Vless.Codec.Target.{seen_dest, read_dest-encode}

pub command_of-byte : (c : Command) → command_of (command_byte c) ≡ ok c
unfolding command_of command_byte
command_of-byte tcp = refl
command_of-byte udp = refl
command_of-byte mux = refl

module _ (r : AsyncRead) (l : AsyncReadLaws r) where
  -- For a UUID of 16 bytes, a flow in UTF-8 of at most 252 bytes and a well-formed destination
  -- whose name fits its length byte, the header is encoded, and the decoder reads the same UUID,
  -- command, flow and destination back and stops in front of the payload. A Mux request arrives
  -- with the marker destination in place of its own.
  pub decode-encode_request :
      (uuid flow : List ℕ) (command : Command) (dest : Address) (payload : List ℕ)
      → length uuid ≡ 16
      → length flow ≤ 252
      → is_utf8 flow ≡ true
      → IsAddress dest
      → FitsWire dest
      → (out : List ℕ) × (encode_request uuid flow command dest ≡ ok out)
        × (decode_request r (r.from (out ++ payload))
            ≡ ok (
              record { uuid = uuid; command = command; dest = seen_dest command dest; flow = flow },
              r.from payload,
            ))
  unfolding encode_request decode_request
  decode-encode_request uuid flow command dest payload hu hf valid h fits =
      let (target, te, td) = read_dest-encode r l command dest payload h fits in
      let (n, addons, fe, fd) =
        read_flow-encode r l flow (command_byte command ∷ (target ++ payload)) hf valid in
      (
        vless_version ∷ (uuid ++ (n ∷ (addons ++ (command_byte command ∷ target)))),
        rw (fe, te),
        simp append_assoc (
            rw (
              l.u8 vless_version
                  (uuid ++ (n ∷ (addons ++ (command_byte command ∷ (target ++ payload))))),
              l.exact 16 uuid (n ∷ (addons ++ (command_byte command ∷ (target ++ payload)))) hu,
              l.u8 n (addons ++ (command_byte command ∷ (target ++ payload))),
              fd,
              l.u8 (command_byte command) (target ++ payload),
              command_of-byte command,
              td,
            )),
      )
