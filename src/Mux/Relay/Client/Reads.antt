-- ===== src/Mux/Relay/Client/Reads.antt =====
-- A client reads back, frame by frame, what the reader tasks of a relay wrote.
use v2ray.Prelude.{
  ℕ, zero, suc, ◌≤◌, ◌≡◌, ◌≢◌, refl, Bool, true, false, Option, none, some, List, [], ◌∷◌, ◌++◌,
  arith, length, map, All, append_assoc, IsU16,
}
use v2ray.Common.Result.{Result, ok, ◌>>=◌}
use v2ray.Common.Stream.{AsyncRead, AsyncReadLaws}
use v2ray.Mux.Metadata.{
  FrameMetadata, keep, end, encode_keep_metadata, encode_end_metadata, opt_data,
}
use v2ray.Mux.Metadata.Parse.{finish}
use v2ray.Mux.Metadata.RoundTrip.{parse-encode_keep_metadata, parse-encode_end_metadata}
use v2ray.Mux.Frame.{read_mux_frame}
use v2ray.Mux.Frame.Read.{read-encode_frame, read-encode_frame_plain}
use v2ray.Mux.Relay.Client.{
  is_empty, to_client, end_bytes, write_mux_frame, mux_upstream_to_client, keep_frame,
}

abbrev pub Read : Type 0
Read = FrameMetadata × Option (List ℕ)

module _ (r : AsyncRead) where
  -- The next frames of a stream.
  unfoldable pub read_frames : ℕ → r.Stream → Result (List Read × r.Stream)
  read_frames zero s = ok ([], s)
  read_frames (suc k) s = do (f, s) ← read_mux_frame r s; (fs, s) ← read_frames k s; ok (f ∷ fs, s)

-- A chunk that a read returned: not empty, and no longer than its length field can say.
abbrev pub IsChunk : List ℕ → Type 0
IsChunk bytes = (bytes ≢ []) × (length bytes ≤ 65535)

abbrev pub keep_read : ℕ → List ℕ → Read
keep_read session_id bytes = (finish session_id opt_data keep (none, none), some bytes)

abbrev pub end_read : ℕ → Read
end_read session_id = (finish session_id 0 end (none, none), none)

-- What was read and written well, until the reading ended.
abbrev pub until_end : {A : Type 0} → List A → List (Option A × Bool)
until_end [] = (none, true) ∷ []
until_end (a ∷ xs) = (some a, true) ∷ until_end xs

module _ (r : AsyncRead) (l : AsyncReadLaws r) (session_id : ℕ) (u16 : IsU16 session_id) where
  read-end_bytes :
      (rest : List ℕ)
      → read_mux_frame r (r.from (end_bytes session_id true ++ rest))
        ≡ ok (end_read session_id, r.from rest)
  unfolding end_bytes write_mux_frame encode_end_metadata
  read-end_bytes rest =
      let (out, e, k) =
        read-encode_frame_plain r l (encode_end_metadata session_id 0)
          (finish session_id 0 end (none, none)) (omega arith)
          (parse-encode_end_metadata session_id 0 u16) rest refl in
      rw e k

  module _ {A : Type 0} (bytes : A → List ℕ) (frame : Bool → A → Result (List ℕ))
      (meta : A → FrameMetadata) where
    -- A read that returned bytes, and whose frame a client reads back.
    abbrev ReadsBack : A → Type 0
    ReadsBack a =
        (bytes a ≢ [])
        × ((rest : List ℕ)
            → (out : List ℕ) × (frame true a ≡ ok out)
              × (read_mux_frame r (r.from (out ++ rest))
                  ≡ ok ((meta a, some (bytes a)), r.from rest)))

    read-to_client :
        (xs : List A) (rest : List ℕ)
        → All ReadsBack xs
        → read_frames r
            (suc (length xs))
            (r.from (to_client session_id bytes frame (until_end xs) true ++ rest))
          ≡ ok (map (λ a. (meta a, some (bytes a))) xs ++ (end_read session_id ∷ []), r.from rest)
    unfolding read_frames to_client
    read-to_client [] rest h = rw (read-end_bytes rest)
    read-to_client (a ∷ xs) rest h =
        let more = to_client session_id bytes frame (until_end xs) true in
        let (out, e, k) = h.0.1 (more ++ rest) in
        rw (not_empty (bytes a) h.0.0, e, append_assoc out more rest, k, read-to_client xs rest h.1)
      where
        not_empty : (bs : List ℕ) → bs ≢ [] → is_empty bs ≡ false
        not_empty [] h = absurd (h refl)
        not_empty (b ∷ bs) h = refl

  upstream_reads :
      (bytes : List ℕ)
      → bytes ≢ []
      → length bytes ≤ 65535
      → ReadsBack
          (λ b. b)
          (keep_frame session_id)
          (λ b. finish session_id opt_data keep (none, none))
          bytes
  unfolding write_mux_frame encode_keep_metadata
  upstream_reads bytes n le = (
    n,
    λ rest.
        let (out, e, k) =
          read-encode_frame r l (encode_keep_metadata session_id opt_data)
            (finish session_id opt_data keep (none, none)) (omega arith)
            (parse-encode_keep_metadata session_id opt_data u16) bytes rest refl le in
        (out, rw e refl, k),
  )

  All-chunks :
      (chunks : List (List ℕ))
      → All IsChunk chunks
      → All
          (ReadsBack
            (λ b. b)
            (keep_frame session_id)
            (λ b. finish session_id opt_data keep (none, none)))
          chunks
  All-chunks [] h = tt
  All-chunks (bytes ∷ chunks) h = (upstream_reads bytes h.0.0 h.0.1, All-chunks chunks h.1)

  -- For a session id of two bytes and any chunks of one to 65535 bytes that the outbound stream
  -- gives before it ends, when all writes to the client succeed: the client reads one `Keep` frame
  -- for each chunk, in order, with the chunk as its payload, and then the `End` frame, whatever
  -- follows in the stream.
  pub read-mux_upstream_to_client :
      (chunks : List (List ℕ)) (rest : List ℕ)
      → All IsChunk chunks
      → read_frames r
          (suc (length chunks))
          (r.from (mux_upstream_to_client session_id (until_end chunks) true ++ rest))
        ≡ ok (map (keep_read session_id) chunks ++ (end_read session_id ∷ []), r.from rest)
  unfolding mux_upstream_to_client
  read-mux_upstream_to_client chunks rest h =
      read-to_client (λ b. b) (keep_frame session_id)
        (λ b. finish session_id opt_data keep (none, none)) chunks rest (All-chunks chunks h)
