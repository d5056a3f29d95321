-- ===== src/Runs/Mux.antt =====
-- Mux.Cool on concrete inputs.
use v2ray.Prelude.{
  ℕ, zero, suc, ◌+◌, ◌%◌, ◌<◌, ◌≡◌, refl, arith, some, none, List, [], ◌∷◌, ◌++◌, length, take,
}
use v2ray.Common.Result.{ok}
use v2ray.Common.Result.Holds.{Holds}
use v2ray.Mux.Metadata.{parse_metadata, end, keep, encode_keep_metadata, encode_end_metadata}
use v2ray.Mux.Metadata.Parse.{finish}
use v2ray.Mux.Metadata.RoundTrip.{parse-encode_end_metadata, parse-encode_keep_metadata}
use v2ray.Mux.Frame.{encode_frame, parse_frame}
use v2ray.Mux.Frame.Total.{FrameWithin, parse_frame-Holds}
use v2ray.Mux.Frame.RoundTrip.{parse-encode_frame, encode_frame_truncates}
use v2ray.Runs.Values.{hello}

abbrev global_id : List ℕ
global_id = 1 ∷ 2 ∷ 3 ∷ 4 ∷ 5 ∷ 6 ∷ 7 ∷ 8 ∷ []

-- The metadata of a frame of session 7 that carries data, and of one that does not.
abbrev carrying : List ℕ
carrying = 0 ∷ 7 ∷ 2 ∷ 1 ∷ []

abbrev plain : List ℕ
plain = 0 ∷ 7 ∷ 3 ∷ 0 ∷ []

carrying_lem : parse_metadata carrying ≡ ok (finish 7 1 keep (none, none))
carrying_lem = unfold encode_keep_metadata in parse-encode_keep_metadata 7 1 (omega arith)

plain_lem : parse_metadata plain ≡ ok (finish 7 0 end (none, none))
plain_lem = unfold encode_end_metadata in parse-encode_end_metadata 7 0 (omega arith)

parse_frame-Holds_example : Holds (FrameWithin (0 ∷ 4 ∷ carrying)) (parse_frame (0 ∷ 4 ∷ carrying))
parse_frame-Holds_example =
    parse_frame-Holds (0 ∷ 4 ∷ carrying)
      (omega arith, (omega arith, (omega arith, (omega arith, (omega arith, (omega arith, tt))))))

parse-encode_frame_example :
    (out : List ℕ) × (encode_frame carrying (some hello) ≡ ok out)
    × (parse_frame (out ++ plain) ≡ ok (finish 7 1 keep (none, none), some hello, length out))
parse-encode_frame_example =
    parse-encode_frame carrying (finish 7 1 keep (none, none)) (omega arith) carrying_lem hello
      plain refl (omega arith)

zeros : ℕ → List ℕ
zeros zero = []
zeros (suc n) = 0 ∷ zeros n

length-zeros : (n : ℕ) → length (zeros n) ≡ n
unfolding zeros
length-zeros zero = refl
length-zeros (suc n) = omega (arith, length-zeros n)

encode_frame_truncates_example :
    (out : List ℕ) × (encode_frame carrying (some (zeros 70000)) ≡ ok out)
    × (parse_frame out
        ≡ ok (
          finish 7 1 keep (none, none),
          some (take (length (zeros 70000) % 65536) (zeros 70000)),
          2 + length carrying + (2 + length (zeros 70000) % 65536),
        ))
    × (2 + length carrying + (2 + length (zeros 70000) % 65536) < length out)
encode_frame_truncates_example =
    encode_frame_truncates carrying (finish 7 1 keep (none, none)) (omega arith) carrying_lem
      (zeros 70000) refl (omega (arith, length-zeros 70000)) (omega (arith, length-zeros 70000))
