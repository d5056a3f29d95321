-- ===== src/Mux/Metadata.antt =====
-- The metadata block of a frame: the first half of vless/mux.rs.
pub mod Parse
pub mod Total
pub mod RoundTrip
use Prim.Native.Nat.{bit_and}
use v2ray.Prelude.{
  ℕ, ◌+◌, ◌*◌, ◌%◌, Bool, true, false, not, ◌&&◌, ◌||◌, Option, some, none, List, [], ◌∷◌, ◌++◌,
  ltb, leb, ◌==◌, if◌then◌else◌, length, be16, of_be16, zero, suc, bytes_eq,
}
use v2ray.Common.Result.{
  Result, ok, err, protocol, panic, stuck, ◌>>=◌, ◌>>◌, ensure, index, slice, unknown_status,
  unknown_network, missing_target, truncated,
}
use v2ray.Common.Address.{Address, ipv4, ipv6, domain}
use v2ray.Vless.Codec.{Command, tcp, udp, mux, mux_cool_domain, encode_address_port}
use v2ray.Vless.AddressPort.{decode_address_port_with_len}

abbrev pub opt_data : ℕ
opt_data = 0x01

abbrev pub xudp_session_id : ℕ
xudp_session_id = 0

pub data SessionStatus : Type 0 where
  new keep end keep_alive : SessionStatus

unfoldable pub status_byte : SessionStatus → ℕ
status_byte new = 0x01
status_byte keep = 0x02
status_byte end = 0x03
status_byte keep_alive = 0x04

unfoldable pub status_of : ℕ → Result SessionStatus
status_of b =
    if b == 0x01
    then ok new
    else if b == 0x02
    then ok keep
    else if b == 0x03
    then ok end
    else if b == 0x04
    then ok keep_alive
    else err (protocol (unknown_status b))

pub data TargetNetwork : Type 0 where
  net_tcp net_udp : TargetNetwork

unfoldable pub network_byte : TargetNetwork → ℕ
network_byte net_tcp = 0x01
network_byte net_udp = 0x02

unfoldable pub network_of : ℕ → Result TargetNetwork
network_of b =
    if b == 0x01
    then ok net_tcp
    else if b == 0x02
    then ok net_udp
    else err (protocol (unknown_network b))

pub record FrameMetadata : Type 0 where
  pub session_id : ℕ
  pub status : SessionStatus
  pub option : ℕ
  pub target : Option (TargetNetwork × Address)
  pub global_id : Option (List ℕ)

unfoldable pub is_mux_cool_dest : Address → Bool
is_mux_cool_dest (domain host p) = bytes_eq host mux_cool_domain
is_mux_cool_dest a = false

unfoldable pub is_mux_request : Command → Address → Bool
is_mux_request mux dest = true
is_mux_request c dest = is_mux_cool_dest dest

unfoldable pub encode_new_metadata : ℕ → Address → ℕ → Result (List ℕ)
unfolding status_byte network_byte
encode_new_metadata session_id dest opt = do
  target ← encode_address_port dest
  ok (be16 session_id ++ (status_byte new ∷ opt ∷ network_byte net_tcp ∷ target))

unfoldable pub encode_end_metadata : ℕ → ℕ → List ℕ
unfolding status_byte
encode_end_metadata session_id opt = be16 session_id ++ (status_byte end ∷ opt ∷ [])

unfoldable pub encode_new_metadata_xudp : Address → List ℕ → ℕ → Result (List ℕ)
unfolding status_byte network_byte
encode_new_metadata_xudp dest global_id opt = do
  target ← encode_address_port dest
  ok (
      be16 xudp_session_id
      ++ (status_byte new ∷ opt ∷ network_byte net_udp ∷ (target ++ global_id)))

unfoldable pub encode_keep_metadata_udp : ℕ → Address → ℕ → Result (List ℕ)
unfolding status_byte network_byte
encode_keep_metadata_udp session_id dest opt = do
  target ← encode_address_port dest
  ok (be16 session_id ++ (status_byte keep ∷ opt ∷ network_byte net_udp ∷ target))

unfoldable pub encode_keep_metadata : ℕ → ℕ → List ℕ
unfolding status_byte
encode_keep_metadata session_id opt = be16 session_id ++ (status_byte keep ∷ opt ∷ [])

-- One optional inbound block behind a target: what is left after it.
skip_extension : List ℕ → Result (List ℕ)
skip_extension rest = do
  kind ← index rest 0
  rest ← slice rest 1 (length rest)
  network ← network_of kind
  (addr, consumed) ← decode_address_port_with_len rest
  slice rest consumed (length rest)

skip_round : List ℕ → Result (List ℕ)
unfolding skip_extension
skip_round [] = ok []
skip_round (b ∷ bs) =
    let skipped = skip_extension (b ∷ bs) in
    if b == 0 then slice (b ∷ bs) 1 (length (b ∷ bs)) else skipped

-- Two rounds; a round on nothing leaves nothing.
unfoldable pub skip_mux_inbound_extensions : List ℕ → Result (List ℕ)
unfolding skip_round
skip_mux_inbound_extensions rest = do rest ← skip_round rest; skip_round rest

abbrev pub Target : Type 0
Target = Option (TargetNetwork × Address) × Option (List ℕ)

-- What follows the address of a `New` frame.
new_extensions : TargetNetwork → Address → ℕ → List ℕ → Result Target
new_extensions net_tcp addr option rest = do
  rest ← skip_mux_inbound_extensions rest
  ok (some (net_tcp, addr), none)
new_extensions net_udp addr option rest =
    let id = do gid ← slice rest 0 8; ok (some (net_udp, addr), some gid)
    in if not (bit_and option opt_data == 0) && leb 8 (length rest)
      then id
      else ok (some (net_udp, addr), none)

new_target : ℕ → List ℕ → Result Target
unfolding new_extensions
new_target option [] = err (protocol missing_target)
new_target option (b ∷ rest) = do
  network ← network_of b
  (addr, consumed) ← decode_address_port_with_len rest
  rest ← slice rest consumed (length rest)
  new_extensions network addr option rest

is_udp : Result TargetNetwork → Bool
is_udp (ok net_udp) = true
is_udp r = false

keep_target : List ℕ → Result Target
unfolding is_udp
keep_target [] = ok (none, none)
keep_target (b ∷ rest) =
    let found = do
      network ← network_of b
      (addr, consumed) ← decode_address_port_with_len rest
      ok (some (network, addr), none)
    in if is_udp (network_of b) then found else ok (none, none)

unfoldable pub parse_target : SessionStatus → ℕ → List ℕ → Result Target
unfolding new_target keep_target
parse_target new option rest = new_target option rest
parse_target keep option rest = keep_target rest
parse_target s option rest = ok (none, none)

unfoldable pub parse_metadata : List ℕ → Result FrameMetadata
unfolding parse_target status_of network_of
parse_metadata meta = do
  ensure (not (ltb (length meta) 4)) truncated
  hi ← index meta 0
  lo ← index meta 1
  status_code ← index meta 2
  status ← status_of status_code
  option ← index meta 3
  rest ← slice meta 4 (length meta)
  (target, global_id) ← parse_target status option rest
  ok (record {
    session_id = of_be16 hi lo;
    status = status;
    option = option;
    target = target;
    global_id = global_id;
  })

unfoldable pub is_udp_target : Option (TargetNetwork × Address) → Bool
is_udp_target (some (net_udp, addr)) = true
is_udp_target t = false

unfoldable pub xudp_status : SessionStatus → Option (List ℕ) → Bool
xudp_status keep id = true
xudp_status new (some gid) = true
xudp_status s id = false

unfoldable pub is_xudp_metadata : FrameMetadata → Bool
unfolding is_udp_target xudp_status
is_xudp_metadata meta =
    meta.session_id == xudp_session_id
    && (is_udp_target meta.target && xudp_status meta.status meta.global_id)
