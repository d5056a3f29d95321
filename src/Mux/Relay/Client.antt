-- ===== src/Mux/Relay/Client.antt =====
-- What the reader tasks of a relay write to the client: `write_mux_frame`, `mux_upstream_to_client`,
-- `mux_udp_to_client` and `mux_xudp_to_client` of vless/mux.rs. A task is given what its reads
-- returned, with how the write of each frame ended, and how the write of the last frame ended. What
-- a write that failed has put out is left out.
pub mod Reads
use v2ray.Prelude.{ℕ, Bool, true, false, if◌then◌else◌, Option, none, some, List, [], ◌∷◌, ◌++◌}
use v2ray.Common.Result.{Result, ok, err, panic, stuck, io, other, ◌>>=◌}
use v2ray.Common.Address.{SocketAddr, from_socket_addr}
use v2ray.Mux.Metadata.{
  encode_keep_metadata, encode_keep_metadata_udp, encode_end_metadata, opt_data,
}
use v2ray.Mux.Frame.{encode_frame}

-- The bytes that it writes.
unfoldable pub write_mux_frame : Bool → List ℕ → Option (List ℕ) → Result (List ℕ)
write_mux_frame written metadata payload = do
  frame ← encode_frame metadata payload
  if written then ok frame else err (io other)

-- `let _ = write_mux_frame(...)`
abbrev dropped : Result (List ℕ) → List ℕ
dropped (ok bytes) = bytes
dropped r = []

unfoldable pub end_bytes : ℕ → Bool → List ℕ
end_bytes session_id written =
    dropped (write_mux_frame written (encode_end_metadata session_id 0) none)

-- `Ok(n) if n > 0`
abbrev pub is_empty : List ℕ → Bool
is_empty [] = true
is_empty (b ∷ bs) = false

-- One loop of the three. `frame` writes the frame of a read. A read that has not returned leaves
-- the loop waiting.
module _ {A : Type 0} (session_id : ℕ) (bytes : A → List ℕ)
    (frame : Bool → A → Result (List ℕ)) where
  unfoldable pub to_client : List (Option A × Bool) → Bool → List ℕ
  to_client [] last = []
  to_client ((none, w) ∷ reads) last = end_bytes session_id last
  to_client ((some a, w) ∷ reads) last =
      let rest = to_client reads last in
      if is_empty (bytes a)
      then end_bytes session_id last
      else elim (frame w a) [ ok out ↦ out ++ rest | _ ↦ end_bytes session_id last ]

abbrev pub keep_frame : ℕ → Bool → List ℕ → Result (List ℕ)
keep_frame session_id w bytes =
    write_mux_frame w (encode_keep_metadata session_id opt_data) (some bytes)

unfoldable pub mux_upstream_to_client : ℕ → List (Option (List ℕ) × Bool) → Bool → List ℕ
unfolding to_client
mux_upstream_to_client session_id = to_client session_id (λ bytes. bytes) (keep_frame session_id)

unfoldable pub mux_udp_to_client : ℕ → List (Option (List ℕ) × Bool) → Bool → List ℕ
unfolding to_client
mux_udp_to_client session_id = to_client session_id (λ bytes. bytes) (keep_frame session_id)

abbrev pub keep_frame_udp : ℕ → Bool → List ℕ × SocketAddr → Result (List ℕ)
keep_frame_udp session_id w (bytes, peer) = do
  meta ← encode_keep_metadata_udp session_id (from_socket_addr peer) opt_data
  write_mux_frame w meta (some bytes)

unfoldable pub mux_xudp_to_client : ℕ → List (Option (List ℕ × SocketAddr) × Bool) → Bool → List ℕ
unfolding to_client
mux_xudp_to_client session_id = to_client session_id (λ a. a.0) (keep_frame_udp session_id)
