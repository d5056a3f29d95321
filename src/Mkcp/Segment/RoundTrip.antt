-- ===== src/Mkcp/Segment/RoundTrip.antt =====
-- A segment through the wire, and what `decode` takes.
use v2ray.Prelude.{
  length-drop, ℕ, ◌+◌, ◌/◌, ◌%◌, ◌≤◌, ◌≡◌, refl, arith, Option, none, some, List, ◌∷◌, ◌++◌, length,
  length-append, take-append, drop-append, le→ltb, ltb, Bool-cases, inl, inr, IsU16, IsU32,
}
use v2ray.Mkcp.Segment.{Segment, encode, decode, decode_data, of_le16, of_le32}

-- What the Rust types promise of a segment.
abbrev pub IsSegment : Segment → Type 0
IsSegment s =
    IsU32 s.conv × IsU16 s.wnd × IsU32 s.ts × IsU32 s.sn × IsU32 s.una × IsU32 (length s.payload)

-- The segment as the peer sees it: the bookkeeping for resends is local.
abbrev pub received : Segment → Segment
received s = record s { resendts = 0; rto = 200; fastack = 0; xmit = 0 }

of_le32-le32 :
    (n : ℕ) → IsU32 n → of_le32 (n % 256) (n / 256 % 256) (n / 65536 % 256) (n / 16777216 % 256) ≡ n
of_le32-le32 n h = omega arith

of_le16-le16 : (n : ℕ) → IsU16 n → of_le16 (n % 256) (n / 256 % 256) ≡ n
of_le16-le16 n h = omega arith

decode_data-append :
    (header : List ℕ → Segment) (bytes rest : List ℕ)
    → decode_data header (length bytes) (bytes ++ rest) ≡ some (header bytes, rest)
unfolding decode_data
decode_data-append header bytes rest = rw (
  le→ltb (length (bytes ++ rest)) (length bytes) (omega (arith, length-append bytes rest)),
  take-append (length bytes) bytes rest refl,
  drop-append (length bytes) bytes rest refl,
)

-- A segment whose fields fit their widths is encoded, and decoded from in front of any rest: all
-- the fields of its header and its payload come back, and its local fields have their initial
-- values.
pub decode-encode :
    (s : Segment) (rest : List ℕ)
    → IsSegment s
    → decode (encode s ++ rest) ≡ some (received s, rest)
unfolding encode decode
decode-encode s rest (c, w, t, n, u, l) = rw (
  of_le32-le32 s.conv c,
  of_le16-le16 s.wnd w,
  of_le32-le32 s.ts t,
  of_le32-le32 s.sn n,
  of_le32-le32 s.una u,
  of_le32-le32 (length s.payload) l,
  decode_data-append (λ bytes. record (received s) { payload = bytes }) s.payload rest,
)

-- A segment takes 24 bytes at least.
abbrev pub Takes : ℕ → ℕ → Option (Segment × List ℕ) → Type 0
Takes n total none = Unit {0}
Takes n total (some (s, rest)) = n + length rest ≤ total

decode_data-Takes :
    (header : List ℕ → Segment) (len n all : ℕ) (src : List ℕ)
    → n + length src ≤ all
    → Takes n all (decode_data header len src)
unfolding decode_data
decode_data-Takes header len n all src h = elim (Bool-cases (ltb (length src) len)) [
  | inl short ↦ rw short tt
  | inr enough ↦ rw enough (omega (arith, length-drop len src))
]

pub decode-Takes : (xs : List ℕ) → Takes 24 (length xs) (decode xs)
unfolding decode
decode-Takes
      (c0 ∷ c1 ∷ c2 ∷ c3 ∷ cmd ∷ frg ∷ w0 ∷ w1 ∷ t0 ∷ t1 ∷ t2 ∷ t3 ∷ s0 ∷ s1 ∷ s2 ∷ s3 ∷ u0 ∷ u1
        ∷ u2 ∷ u3 ∷ l0 ∷ l1 ∷ l2 ∷ l3 ∷ src) =
    let all : ℕ = length (
      c0 ∷ c1 ∷ c2 ∷ c3 ∷ cmd ∷ frg ∷ w0 ∷ w1 ∷ t0 ∷ t1 ∷ t2 ∷ t3 ∷ s0 ∷ s1 ∷ s2 ∷ s3 ∷ u0 ∷ u1 ∷ u2
      ∷ u3 ∷ l0 ∷ l1 ∷ l2 ∷ l3 ∷ src) in
    decode_data-Takes
      (λ x. record {
        conv = of_le32 c0 c1 c2 c3;
        cmd = cmd;
        frg = frg;
        wnd = of_le16 w0 w1;
        ts = of_le32 t0 t1 t2 t3;
        sn = of_le32 s0 s1 s2 s3;
        una = of_le32 u0 u1 u2 u3;
        payload = x;
        resendts = 0;
        rto = 200;
        fastack = 0;
        xmit = 0;
      })
      (of_le32 l0 l1 l2 l3) 24 all src (omega arith)
decode-Takes src = tt
