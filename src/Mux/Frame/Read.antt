-- ===== src/Mux/Frame/Read.antt =====
-- A frame that was encoded is read back from a stream.
use Prim.Native.Nat.{bit_and}
use v2ray.Prelude.{
  ℕ, suc, ◌/◌, ◌%◌, ◌≤◌, ◌<◌, ◌≡◌, refl, true, false, some, none, List, [], ◌∷◌, ◌++◌, arith,
  length, append_assoc, append-nil, be16, of_be16-be16, le→ltb, lt→ltb, ◌==◌, ◌∙◌, sym, ap, subst,
}
use v2ray.Common.Result.{ok}
use v2ray.Common.Stream.{AsyncRead, AsyncReadLaws}
use v2ray.Mux.Metadata.{FrameMetadata, parse_metadata, opt_data}
use v2ray.Mux.Frame.{encode_frame, read_mux_frame, read_bytes, max_data_len}

module _ (r : AsyncRead) (l : AsyncReadLaws r) where
  open r use {Stream, from, read_exact, read_u16}

  u16-be16 :
      (n : ℕ) (rest : List ℕ) → n < 65536 → read_u16 (from (be16 n ++ rest)) ≡ ok (n, from rest)
  u16-be16 n rest h =
      l.u16 (n / 256 % 256) (n % 256) rest ∙ ap (λ k. ok (k, from rest)) (of_be16-be16 n h)

  read_bytes_lem :
      (bytes rest : List ℕ)
      → read_bytes r (length bytes) (from (bytes ++ rest)) ≡ ok (bytes, from rest)
  unfolding read_bytes
  read_bytes_lem [] rest = refl
  read_bytes_lem (b ∷ bs) rest =
      rw (lt→ltb 0 (suc (length bs)) (omega arith)) (l.exact (length (b ∷ bs)) (b ∷ bs) rest refl)

  module _ (meta : List ℕ) (m : FrameMetadata) (hm : length meta ≤ 512)
      (pm : parse_metadata meta ≡ ok m) where
    pub read-encode_frame :
        (bytes rest : List ℕ)
        → (bit_and m.option opt_data == 0) ≡ false
        → length bytes ≤ 65535
        → (out : List ℕ) × (encode_frame meta (some bytes) ≡ ok out)
          × (read_mux_frame r (from (out ++ rest)) ≡ ok ((m, some bytes), from rest))
    unfolding read_mux_frame
    read-encode_frame bytes rest d hb =
        let body = be16 (length bytes) ++ (bytes ++ rest) in
        (
          be16 (length meta) ++ (meta ++ (be16 (length bytes) ++ bytes)),
          unfold encode_frame in
              rw (le→ltb 512 (length meta) hm, le→ltb max_data_len (length bytes) (omega arith)),
          subst
              (λ ys.
                read_mux_frame r (from (be16 (length meta) ++ ys))
                ≡ ok ((m, some bytes), from rest))
              (sym (append_assoc meta (be16 (length bytes) ++ bytes) rest))
              (rw (
                u16-be16 (length meta) (meta ++ body) (omega arith),
                le→ltb 512 (length meta) hm,
                l.exact (length meta) meta body refl,
                pm,
                d,
                u16-be16 (length bytes) (bytes ++ rest) (omega arith),
                le→ltb max_data_len (length bytes) (omega arith),
                read_bytes_lem bytes rest,
              )),
        )

    pub read-encode_frame_plain :
        (rest : List ℕ)
        → (bit_and m.option opt_data == 0) ≡ true
        → (out : List ℕ) × (encode_frame meta none ≡ ok out)
          × (read_mux_frame r (from (out ++ rest)) ≡ ok ((m, none), from rest))
    unfolding read_mux_frame
    read-encode_frame_plain rest d = (
      be16 (length meta) ++ (meta ++ []),
      unfold encode_frame in rw (le→ltb 512 (length meta) hm),
      subst
          (λ ys.
            read_mux_frame r (from (be16 (length meta) ++ (ys ++ rest)))
            ≡ ok ((m, none), from rest))
          (sym (append-nil meta))
          (rw (
            u16-be16 (length meta) (meta ++ rest) (omega arith),
            le→ltb 512 (length meta) hm,
            l.exact (length meta) meta rest refl,
            pm,
            d,
          )),
    )
