-- ===== src/Mux/Metadata/RoundTrip.antt =====
-- Every metadata block that the encoders write is parsed back.
use Prim.Native.Nat.{bit_and}
use v2ray.Prelude.{
  le→leb, ℕ, ◌≡◌, refl, ◌∙◌, false, some, none, List, [], ◌∷◌, ◌++◌, arith, length, append-nil,
  subst, be16, of_be16-be16, IsU16, ◌==◌,
}
use v2ray.Common.Result.{ok}
use v2ray.Common.Result.Access.{slice_rest, slice-append_last}
use v2ray.Common.Address.{Address, IsAddress, FitsWire}
use v2ray.Vless.Codec.Target.{encode_address_port_lem}
use v2ray.Vless.AddressPort.{decode_address_port_with_len}
use v2ray.Vless.AddressPort.RoundTrip.{wire_form, decode-wire_form}
use v2ray.Mux.Metadata.{
  parse_metadata, parse_target, new_target, new_extensions, keep_target, status_of, network_of,
  skip_mux_inbound_extensions, Target, SessionStatus, new, keep, end, TargetNetwork, net_tcp,
  net_udp, encode_new_metadata, encode_end_metadata, encode_keep_metadata, encode_keep_metadata_udp,
  encode_new_metadata_xudp, opt_data, xudp_session_id, network_byte,
}
use v2ray.Mux.Metadata.Parse.{parse_metadata_head, finish}

network_of-byte : (n : TargetNetwork) → network_of (network_byte n) ≡ ok n
unfolding network_of network_byte
network_of-byte net_tcp = refl
network_of-byte net_udp = refl

-- The address of a `New` frame is split off in front of what follows it.
new_target-wire :
    (n : TargetNetwork) (a : Address) (option : ℕ) (ext : List ℕ)
    → IsAddress a
    → FitsWire a
    → new_target option (network_byte n ∷ (wire_form a ++ ext)) ≡ new_extensions n a option ext
unfolding new_target
new_target-wire n a option ext h f = rw (
  network_of-byte n,
  decode-wire_form a ext h f,
  slice_rest (wire_form a) ext (length (wire_form a)) refl,
)

-- Behind an address with nothing more.
new_target-wire_end :
    (n : TargetNetwork) (a : Address) (option : ℕ)
    → IsAddress a
    → FitsWire a
    → new_target option (network_byte n ∷ wire_form a) ≡ new_extensions n a option []
new_target-wire_end n a option h f =
    subst (λ t. new_target option (network_byte n ∷ t) ≡ new_extensions n a option [])
      (append-nil (wire_form a)) (new_target-wire n a option [] h f)

keep_target-wire :
    (a : Address)
    → IsAddress a
    → FitsWire a
    → keep_target (0x02 ∷ wire_form a) ≡ ok (some (net_udp, a), none)
unfolding keep_target network_of
keep_target-wire a h f =
    let e =
      subst (λ t. decode_address_port_with_len t ≡ ok (a, length (wire_form a)))
        (append-nil (wire_form a)) (decode-wire_form a [] h f) in
    rw e

parsed :
    (session_id code option : ℕ) (status : SessionStatus) (rest : List ℕ) (t : Target)
    → IsU16 session_id
    → status_of code ≡ ok status
    → parse_target status option rest ≡ ok t
    → parse_metadata (be16 session_id ++ (code ∷ option ∷ rest))
      ≡ ok (finish session_id option status t)
parsed session_id code option status rest t sid s p =
    rw (parse_metadata_head _ _ code option rest, s, p, of_be16-be16 session_id sid)

module _ (session_id : ℕ) (dest : Address) (option : ℕ) (sid : IsU16 session_id)
    (h : IsAddress dest) (f : FitsWire dest) where
  -- For a 16-bit session id and a well-formed destination whose name fits its length byte, the
  -- metadata that opens a TCP session is encoded, and parsed back: session, status, option and
  -- target.
  parse-encode_new_metadata :
      (meta : List ℕ) × (encode_new_metadata session_id dest option ≡ ok meta)
      × (parse_metadata meta ≡ ok (finish session_id option new (some (net_tcp, dest), none)))
  unfolding encode_new_metadata
  parse-encode_new_metadata = (
    be16 session_id ++ (0x01 ∷ option ∷ 0x01 ∷ wire_form dest),
    rw (encode_address_port_lem dest f),
    parsed session_id 0x01 option new (0x01 ∷ wire_form dest) _ sid (unfold status_of in refl) (
        unfold parse_target network_byte in
        new_target-wire_end net_tcp dest option h f
        ∙ unfold new_extensions skip_mux_inbound_extensions in refl),
  )

  -- For a 16-bit session id and a well-formed destination whose name fits its length byte, the
  -- metadata of a UDP packet in an open session is encoded, and parsed back: session, status,
  -- option and target.
  pub parse-encode_keep_metadata_udp :
      (meta : List ℕ) × (encode_keep_metadata_udp session_id dest option ≡ ok meta)
      × (parse_metadata meta ≡ ok (finish session_id option keep (some (net_udp, dest), none)))
  unfolding encode_keep_metadata_udp
  parse-encode_keep_metadata_udp = (
    be16 session_id ++ (0x02 ∷ option ∷ 0x02 ∷ wire_form dest),
    rw (encode_address_port_lem dest f),
    parsed session_id 0x02 option keep (0x02 ∷ wire_form dest) _ sid (unfold status_of in refl)
        (unfold parse_target in keep_target-wire dest h f),
  )

module _ (dest : Address) (option : ℕ) (gid : List ℕ) (h : IsAddress dest) (f : FitsWire dest) where
  -- For a well-formed destination whose name fits its length byte, a GlobalID of eight bytes and an
  -- option with the data bit, the metadata of the first XUDP packet is encoded, and parsed back:
  -- session 0, status, option, target and GlobalID.
  parse-encode_new_metadata_xudp :
      length gid ≡ 8
      → (bit_and option opt_data == 0) ≡ false
      → (meta : List ℕ) × (encode_new_metadata_xudp dest gid option ≡ ok meta)
        × (parse_metadata meta
            ≡ ok (finish xudp_session_id option new (some (net_udp, dest), some gid)))
  unfolding encode_new_metadata_xudp
  parse-encode_new_metadata_xudp g d = (
    be16 xudp_session_id ++ (0x01 ∷ option ∷ 0x02 ∷ (wire_form dest ++ gid)),
    rw (encode_address_port_lem dest f),
    parsed 0 0x01 option new (0x02 ∷ (wire_form dest ++ gid)) _ (omega arith)
        (unfold status_of in refl)
        (unfold parse_target network_byte in
          new_target-wire net_udp dest option gid h f
          ∙ unfold new_extensions in
            rw (
              d,
              slice-append_last [] gid 0 8 refl (omega arith),
              le→leb 8 (length gid) (omega arith),
            )),
  )

-- For a 16-bit session id, the metadata that ends a session is parsed back: session, status and
-- option, with no target.
pub parse-encode_end_metadata :
    (session_id option : ℕ)
    → IsU16 session_id
    → parse_metadata (encode_end_metadata session_id option)
      ≡ ok (finish session_id option end (none, none))
unfolding encode_end_metadata
parse-encode_end_metadata session_id option sid =
    parsed session_id 0x03 option end [] _ sid (unfold status_of in refl)
      (unfold parse_target in refl)

-- For a 16-bit session id, the metadata of a TCP packet in an open session is parsed back: session,
-- status and option, with no target.
pub parse-encode_keep_metadata :
    (session_id option : ℕ)
    → IsU16 session_id
    → parse_metadata (encode_keep_metadata session_id option)
      ≡ ok (finish session_id option keep (none, none))
unfolding encode_keep_metadata
parse-encode_keep_metadata session_id option sid =
    parsed session_id 0x02 option keep [] _ sid (unfold status_of in refl)
      (unfold parse_target in refl)
