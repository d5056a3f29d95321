-- ===== src/Mux/Frame/RoundTrip.antt =====
-- A frame through the wire, and what happens to a payload that its length field cannot hold.
use Prim.Native.Nat.{bit_and}
use mathlib.Core.Path.{ap₂}
use v2ray.Prelude.{
  ◌∙◌, ap, sym, append-nil, ℕ, ◌+◌, ◌/◌, ◌%◌, ◌≤◌, ◌<◌, ◌≡◌, refl, true, false, some, none, List,
  [], ◌∷◌, ◌++◌, arith, length, length-append, append_assoc, take, drop, be16, of_be16-be16, le→ltb,
  ◌==◌, take-append-drop, length-take,
}
use v2ray.Common.Result.{ok}
use v2ray.Common.Result.Access.{slice-behind, slice-append, index-append, index-append_next}
use v2ray.Mux.Metadata.{FrameMetadata, parse_metadata, opt_data}
use v2ray.Mux.Frame.{encode_frame, parse_frame, max_data_len}

-- A metadata block with a payload: what is parsed is the block and as many bytes as the length
-- field says.
parse_parts :
    (meta bytes rest : List ℕ) (n : ℕ) (m : FrameMetadata)
    → length meta ≤ 512
    → parse_metadata meta ≡ ok m
    → (bit_and m.option opt_data == 0) ≡ false
    → n < 65536
    → length bytes ≡ n
    → parse_frame (be16 (length meta) ++ (meta ++ (be16 n ++ (bytes ++ rest))))
      ≡ ok (m, some bytes, 2 + length meta + (2 + n))
unfolding parse_frame
parse_parts meta bytes rest n m hm pm d hn hb =
    let body = be16 n ++ (bytes ++ rest) in
    let need : ℕ = 2 + length meta in
    let hi : ℕ = length meta / 256 % 256 in
    let lo : ℕ = length meta % 256 in
    let total : ℕ = length (be16 (length meta) ++ (meta ++ body)) in
    let whole : total ≡ need + (2 + (n + length rest)) =
      omega (arith, length-append meta body, length-append bytes rest) in
    rw
      (
        le→ltb total 2 (omega arith),
        of_be16-be16 (length meta) (omega arith),
        le→ltb 512 (length meta) hm,
        le→ltb total need (omega arith),
        slice-append (hi ∷ lo ∷ []) meta body 2 need refl refl,
        pm,
        d,
      )
      (rw (
        le→ltb total (need + 2) (omega arith),
        index-append (hi ∷ lo ∷ meta) (n / 256 % 256) (n % 256 ∷ (bytes ++ rest)) need
            (omega arith),
        index-append_next (hi ∷ lo ∷ meta) (n / 256 % 256) (n % 256) (bytes ++ rest) need
            (omega arith),
        of_be16-be16 n hn,
        le→ltb max_data_len n (omega arith),
        le→ltb total (need + (2 + n)) (omega arith),
        slice-behind (hi ∷ lo ∷ meta) (n / 256 % 256) (n % 256) bytes rest need (need + (2 + n))
            (omega arith) (omega arith),
      ))

-- A metadata block on its own.
parse_plain :
    (meta rest : List ℕ) (m : FrameMetadata)
    → length meta ≤ 512
    → parse_metadata meta ≡ ok m
    → (bit_and m.option opt_data == 0) ≡ true
    → parse_frame (be16 (length meta) ++ (meta ++ rest)) ≡ ok (m, none, 2 + length meta)
unfolding parse_frame
parse_plain meta rest m hm pm d =
    let need : ℕ = 2 + length meta in
    let hi : ℕ = length meta / 256 % 256 in
    let lo : ℕ = length meta % 256 in
    let total : ℕ = length (be16 (length meta) ++ (meta ++ rest)) in
    let whole : total ≡ need + length rest = omega (arith, length-append meta rest) in
    rw (
      le→ltb total 2 (omega arith),
      of_be16-be16 (length meta) (omega arith),
      le→ltb 512 (length meta) hm,
      le→ltb total need (omega arith),
      slice-append (hi ∷ lo ∷ []) meta rest 2 need refl refl,
      pm,
      d,
    )

wrap16 : (n : ℕ) → be16 n ≡ be16 (n % 65536)
wrap16 n =
    let hi : n / 256 % 256 ≡ n % 65536 / 256 % 256 = omega arith in
    let lo : n % 256 ≡ n % 65536 % 256 = omega arith in λ i. hi i ∷ lo i ∷ []

module _ (meta : List ℕ) (m : FrameMetadata) (hm : length meta ≤ 512)
    (pm : parse_metadata meta ≡ ok m) where
  -- For a metadata block of at most 512 bytes that parses and announces data, and a payload of at
  -- most 65535 bytes, the frame is encoded, and parsed back from in front of any rest: the
  -- metadata, the payload and the length of the frame.
  pub parse-encode_frame :
      (bytes rest : List ℕ)
      → (bit_and m.option opt_data == 0) ≡ false
      → length bytes ≤ 65535
      → (out : List ℕ) × (encode_frame meta (some bytes) ≡ ok out)
        × (parse_frame (out ++ rest) ≡ ok (m, some bytes, length out))
  parse-encode_frame bytes rest d hb = (
    be16 (length meta) ++ (meta ++ (be16 (length bytes) ++ bytes)),
    unfold encode_frame in
        rw (le→ltb 512 (length meta) hm, le→ltb max_data_len (length bytes) (omega arith)),
    simp append_assoc (
        parse_parts meta bytes rest (length bytes) m hm pm d (omega arith) refl
        ∙ ap (λ t. ok (m, some bytes, t))
            (omega (arith, length-append meta (be16 (length bytes) ++ bytes)))),
  )

  -- For a metadata block of at most 512 bytes that parses and announces no data, the frame without
  -- payload is encoded, and parsed back from in front of any rest: the metadata, no payload and the
  -- length of the frame.
  pub parse-encode_frame_plain :
      (rest : List ℕ)
      → (bit_and m.option opt_data == 0) ≡ true
      → (out : List ℕ) × (encode_frame meta none ≡ ok out)
        × (parse_frame (out ++ rest) ≡ ok (m, none, length out))
  parse-encode_frame_plain rest d = (
    be16 (length meta) ++ (meta ++ []),
    unfold encode_frame in rw (le→ltb 512 (length meta) hm),
    simp append-nil
        (parse_plain meta rest m hm pm d ∙ ap (λ (t : ℕ). ok (m, none, t)) (omega arith)),
  )

  -- For a metadata block of at most 512 bytes that parses and announces data, payloads from 65536
  -- bytes up to the limit are accepted, but their length is written modulo 65536: the parser sees a
  -- payload cut to that length, and the frame that it takes ends before the bytes that were written
  -- do.
  pub encode_frame_truncates :
      (bytes : List ℕ)
      → (bit_and m.option opt_data == 0) ≡ false
      → 65536 ≤ length bytes
      → length bytes ≤ max_data_len
      → (out : List ℕ) × (encode_frame meta (some bytes) ≡ ok out)
        × (parse_frame out
            ≡ ok (
              m,
              some (take (length bytes % 65536) bytes),
              2 + length meta + (2 + length bytes % 65536),
            ))
        × (2 + length meta + (2 + length bytes % 65536) < length out)
  encode_frame_truncates bytes d lo hi =
      let n : ℕ = length bytes % 65536 in
      let cut =
        parse_parts meta (take n bytes) (drop n bytes) n m hm pm d (omega arith)
          (omega (arith, length-take n bytes)) in
      let same =
        ap₂
          (λ (field data_bytes : List ℕ).
            parse_frame (be16 (length meta) ++ (meta ++ (field ++ data_bytes))))
          (wrap16 (length bytes)) (sym (take-append-drop n bytes)) in
      (
        be16 (length meta) ++ (meta ++ (be16 (length bytes) ++ bytes)),
        unfold encode_frame in
            rw (le→ltb 512 (length meta) hm, le→ltb max_data_len (length bytes) hi),
        same ∙ cut,
        omega (arith, length-append meta (be16 (length bytes) ++ bytes)),
      )
