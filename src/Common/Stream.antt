-- ===== src/Common/Stream.antt =====
-- tokio's `AsyncRead` with `AsyncReadExt`, which the decoders of the protocols are generic over.
-- `from xs` is a stream that delivers the bytes `xs` and then ends.
use v2ray.Prelude.{ℕ, ◌*◌, ◌+◌, ◌<◌, ◌≡◌, refl, List, [], ◌∷◌, ◌++◌, arith, length, take, drop}
use v2ray.Prelude.{leb, if◌then◌else◌, take-append, drop-append, length-append}
use v2ray.Prelude.{le→leb}
use v2ray.Common.Result.{Result, ok, err, io, unexpected_eof}

pub record AsyncRead : Type 1 where
  pub Stream : Type 0
  pub from : List ℕ → Stream
  pub read_exact : ℕ → Stream → Result (List ℕ × Stream)
  pub read_u8 : Stream → Result (ℕ × Stream)
  pub read_u16 : Stream → Result (ℕ × Stream)

-- What their documentation says.
pub record AsyncReadLaws (r : AsyncRead) : Type 0 where
  pub exact :
      (n : ℕ) (xs rest : List ℕ)
      → length xs ≡ n
      → r.read_exact n (r.from (xs ++ rest)) ≡ ok (xs, r.from rest)
  pub exact_eof :
      (n : ℕ) (xs : List ℕ) → length xs < n → r.read_exact n (r.from xs) ≡ err (io unexpected_eof)
  pub u8 : (b : ℕ) (rest : List ℕ) → r.read_u8 (r.from (b ∷ rest)) ≡ ok (b, r.from rest)
  pub u8_eof : r.read_u8 (r.from []) ≡ err (io unexpected_eof)
  pub u16 :
      (a b : ℕ) (rest : List ℕ) → r.read_u16 (r.from (a ∷ b ∷ rest)) ≡ ok (a * 256 + b, r.from rest)
  pub u16_eof : (xs : List ℕ) → length xs < 2 → r.read_u16 (r.from xs) ≡ err (io unexpected_eof)

-- A stream over a list of bytes.
abbrev pub list_exact : ℕ → List ℕ → Result (List ℕ × List ℕ)
list_exact n xs = if leb n (length xs) then ok (take n xs, drop n xs) else err (io unexpected_eof)

abbrev pub list_u8 : List ℕ → Result (ℕ × List ℕ)
list_u8 [] = err (io unexpected_eof)
list_u8 (b ∷ rest) = ok (b, rest)

abbrev pub list_u16 : List ℕ → Result (ℕ × List ℕ)
list_u16 [] = err (io unexpected_eof)
list_u16 (a ∷ []) = err (io unexpected_eof)
list_u16 (a ∷ b ∷ rest) = ok (a * 256 + b, rest)

abbrev pub list_stream : AsyncRead
list_stream = record {
  Stream = List ℕ;
  from = λ xs. xs;
  read_exact = list_exact;
  read_u8 = list_u8;
  read_u16 = list_u16;
}

list_exact-append :
    (n : ℕ) (xs rest : List ℕ) → length xs ≡ n → list_exact n (xs ++ rest) ≡ ok (xs, rest)
list_exact-append n xs rest h = rw (
  le→leb n (length (xs ++ rest)) (omega (arith, length-append xs rest)),
  take-append n xs rest h,
  drop-append n xs rest h,
)

list_exact_eof : (n : ℕ) (xs : List ℕ) → length xs < n → list_exact n xs ≡ err (io unexpected_eof)
list_exact_eof n xs h = ground arith

list_u16_eof : (xs : List ℕ) → length xs < 2 → list_u16 xs ≡ err (io unexpected_eof)
list_u16_eof [] h = refl
list_u16_eof (a ∷ []) h = refl
list_u16_eof (a ∷ b ∷ rest) h = absurd (omega arith)

pub list_stream_laws : AsyncReadLaws list_stream
list_stream_laws = record {
  exact = list_exact-append;
  exact_eof = list_exact_eof;
  u8 = λ b rest. refl;
  u8_eof = refl;
  u16 = λ a b rest. refl;
  u16_eof = list_u16_eof;
}
