-- ===== src/Mkcp/Header/RoundTrip.antt =====
-- A packet with its disguise, and without.
use v2ray.Prelude.{
  ℕ, ◌+◌, ◌≡◌, refl, arith, some, List, ◌++◌, length, length-append, drop-append, le→ltb,
}
use v2ray.Mkcp.Header.{
  HeaderType, plain, srtp, utp, wechat_video, dtls, wireguard, size, write_header, encode, strip,
}

length-write_header : (t : HeaderType) (source : ℕ) → length (write_header t source) ≡ size t
unfolding write_header size
length-write_header plain source = refl
length-write_header srtp source = refl
length-write_header utp source = refl
length-write_header wechat_video source = refl
length-write_header dtls source = refl
length-write_header wireguard source = refl

-- For every type of header, and whatever its changing bytes are, `strip` gives back the payload that
-- `encode` disguised, and the packet is longer than the payload by the size of the header.
pub strip-encode :
    (t : HeaderType) (source : ℕ) (payload : List ℕ)
    → (strip t (encode t source payload) ≡ some payload)
      × (length (encode t source payload) ≡ size t + length payload)
unfolding strip encode
strip-encode t source payload =
    let front = write_header t source in
    let n = length-write_header t source in
    let whole = length-append front payload in
    (
      rw (
        le→ltb (length (front ++ payload)) (size t) (omega (arith, n, whole)),
        drop-append (size t) front payload n,
      ),
      omega (arith, n, whole),
    )
