-- ===== src/Mux/Frame/Total.antt =====
-- `parse_frame` returns on any bytes, and takes no more of them than there are.
use Prim.Native.Nat.{bit_and}
use v2ray.Prelude.{
  ◌-◌, ℕ, zero, suc, ◌+◌, ◌≤◌, not, Option, some, List, [], ◌∷◌, arith, length, of_be16, ltb,
  le→leb, ◌==◌, AreBytes, Bool-cases, inl, inr, take, drop,
}
use v2ray.Common.Result.{Result, ok, ◌>>=◌, ensure, slice, index, truncated, bad_length}
use v2ray.Common.Result.Holds.{not-ltb, index-Holds, Holds, bind-Holds, ensure-Holds}
use v2ray.Mux.Metadata.{FrameMetadata, parse_metadata, opt_data}
use v2ray.Mux.Metadata.Total.{parse_metadata-Holds}
use v2ray.Mux.Frame.{parse_frame, parse_payload, max_data_len, max_meta_len}

take-AreBytes : (n : ℕ) (xs : List ℕ) → AreBytes xs → AreBytes (take n xs)
take-AreBytes zero xs h = tt
take-AreBytes (suc n) [] h = tt
take-AreBytes (suc n) (x ∷ xs) h = (h.0, take-AreBytes n xs h.1)

drop-AreBytes : (n : ℕ) (xs : List ℕ) → AreBytes xs → AreBytes (drop n xs)
drop-AreBytes zero xs h = h
drop-AreBytes (suc n) [] h = tt
drop-AreBytes (suc n) (x ∷ xs) h = drop-AreBytes n xs h.1

slice-AreBytes :
    (xs : List ℕ) (from to : ℕ)
    → AreBytes xs
    → from ≤ to
    → to ≤ length xs
    → Holds AreBytes (slice xs from to)
slice-AreBytes xs from to bytes h k =
    rw (le→leb from to h, le→leb to (length xs) k)
      (take-AreBytes (to - from) (drop from xs) (drop-AreBytes from xs bytes))

abbrev Consumed : List ℕ → ℕ → Option (List ℕ) × ℕ → Type 0
Consumed buf need p = (need ≤ p.1) × (p.1 ≤ length buf)

abbrev Some : ℕ → Type 0
Some b = Unit {0}

-- The declared bytes, once their length is known to be allowed.
abbrev data_bytes : List ℕ → ℕ → ℕ → Result (Option (List ℕ) × ℕ)
data_bytes buf need n = ensure (not (ltb (length buf) (need + (2 + n)))) truncated >>= λ _.
    slice buf (need + 2) (need + (2 + n)) >>= λ bytes. ok (some bytes, need + (2 + n))

data_bytes-Holds :
    (buf : List ℕ) (need n : ℕ) → AreBytes buf → Holds (Consumed buf need) (data_bytes buf need n)
data_bytes-Holds buf need n bytes =
    let after : List ℕ → Result (Option (List ℕ) × ℕ) = λ b. ok (some b, need + (2 + n)) in
    ensure-Holds (Consumed buf need) (not (ltb (length buf) (need + (2 + n)))) truncated
      (slice buf (need + 2) (need + (2 + n)) >>= after)
      λ e.
        let fits = not-ltb (length buf) (need + (2 + n)) e in
        bind-Holds AreBytes (Consumed buf need) (slice buf (need + 2) (need + (2 + n))) after
          (slice-AreBytes buf (need + 2) (need + (2 + n)) bytes (omega arith) fits)
          (λ _ _. omega arith)

parse_payload-Holds :
    (buf : List ℕ) (need option : ℕ)
    → AreBytes buf
    → need ≤ length buf
    → Holds (Consumed buf need) (parse_payload buf need option)
unfolding parse_payload
parse_payload-Holds buf need option bytes h = elim (Bool-cases (bit_and option opt_data == 0)) [
  | inl plain ↦ rw plain (omega arith)
  | inr carries ↦ rw carries (
      ensure-Holds (Consumed buf need) _ _ _ λ e.
        let room = not-ltb (length buf) (need + 2) e in
        bind-Holds Some (Consumed buf need) (index buf need) _ (index-Holds buf need (omega arith))
          λ hi _.
            bind-Holds Some (Consumed buf need) (index buf (need + 1)) _
              (index-Holds buf (need + 1) (omega arith))
              λ lo _.
                ensure-Holds (Consumed buf need) (not (ltb max_data_len (of_be16 hi lo)))
                  (bad_length (of_be16 hi lo)) (data_bytes buf need (of_be16 hi lo))
                  (λ _. data_bytes-Holds buf need (of_be16 hi lo) bytes))
]

abbrev pub FrameWithin : List ℕ → FrameMetadata × Option (List ℕ) × ℕ → Type 0
FrameWithin buf f = (2 ≤ f.2) × (f.2 ≤ length buf)

-- On any bytes `parse_frame` returns a frame or an error, without a panic, and the frame takes at
-- least two bytes and at most all of the input.
pub parse_frame-Holds : (buf : List ℕ) → AreBytes buf → Holds (FrameWithin buf) (parse_frame buf)
unfolding parse_frame
parse_frame-Holds [] h = tt
parse_frame-Holds (a ∷ []) h = tt
parse_frame-Holds (a ∷ b ∷ rest) h =
    let buf : List ℕ = a ∷ b ∷ rest in
    let need : ℕ = 2 + of_be16 a b in
    let whole : FrameMetadata → Option (List ℕ) × ℕ → Result (FrameMetadata × Option (List ℕ) × ℕ) =
      λ meta p. ok (meta, p.0, p.1) in
    let body : List ℕ → Result (FrameMetadata × Option (List ℕ) × ℕ) = λ meta_buf.
      parse_metadata meta_buf >>= λ meta.
      parse_payload buf need meta.option >>= λ p. whole meta p in
    ensure-Holds (FrameWithin buf) (not (ltb (length buf) 2)) truncated _ λ _.
      ensure-Holds (FrameWithin buf) (not (ltb max_meta_len (of_be16 a b)))
        (bad_length (of_be16 a b)) _
        λ _.
          ensure-Holds (FrameWithin buf) (not (ltb (length buf) need)) truncated
            (slice buf 2 need >>= body)
            λ e.
              let room = not-ltb (length buf) need e in
              bind-Holds AreBytes (FrameWithin buf) (slice buf 2 need) body
                (slice-AreBytes buf 2 need h (omega arith) room)
                λ meta_buf bytes.
                  bind-Holds (λ m. Unit {0}) (FrameWithin buf) (parse_metadata meta_buf)
                    (λ meta. parse_payload buf need meta.option >>= λ p. whole meta p)
                    (parse_metadata-Holds meta_buf bytes)
                    λ meta _.
                      bind-Holds (Consumed buf need) (FrameWithin buf)
                        (parse_payload buf need meta.option) (whole meta)
                        (parse_payload-Holds buf need meta.option h room) (λ p c. omega arith)
