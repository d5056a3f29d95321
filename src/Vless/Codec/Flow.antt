-- ===== src/Vless/Codec/Flow.antt =====
-- The flow through the addons field: written by `encode_addons`, read by `read_flow`.
use v2ray.Prelude.{
  le→ltb, lt→ltb, length-append, ◌%◌, true, ◌/◌, some, ℕ, suc, ◌+◌, ◌^◌, ◌≤◌, ◌<◌, ◌≡◌, refl, List,
  [], ◌∷◌, ◌++◌, arith, length, is_utf8,
}
use v2ray.Common.Result.{ok}
use v2ray.Common.Result.Access.{slice-append_last}
use v2ray.Common.Stream.{AsyncRead, AsyncReadLaws}
use v2ray.Vless.Varint.{read_varint}
use v2ray.Vless.Varint.RoundTrip.{groups, length-groups, read_varint-groups, put_varint-groups}
use v2ray.Vless.Addons.{parse_flow_from_addons}
use v2ray.Vless.Codec.{encode_addons, read_flow}

groups_one : (k v : ℕ) → v < 128 → groups (suc k) v ≡ v ∷ []
unfolding groups
groups_one k v h = ground arith

groups_two : (v : ℕ) → v < 16384 → length (groups 9 v) ≤ 2
unfolding groups
groups_two v h = ground (arith, groups_one 7 (v / 128))

-- The first field is the flow.
first_tag : (rest : List ℕ) → read_varint (0x0a ∷ rest) 0 ≡ (some 10, 1)
unfolding read_varint
first_tag rest = refl

pub parse_flow-encoded :
    (prefix flow : List ℕ)
    → read_varint (0x0a ∷ (prefix ++ flow)) 1 ≡ (some (length flow), 1 + length prefix)
    → length flow < 2 ^ 32
    → length prefix ≤ 10
    → is_utf8 flow ≡ true
    → parse_flow_from_addons (0x0a ∷ (prefix ++ flow)) ≡ ok flow
unfolding parse_flow_from_addons
parse_flow-encoded prefix flow e small short valid =
    let end : ℕ = 1 + length prefix + length flow in
    let total : ℕ = suc (length (prefix ++ flow)) in
    let wrap : end % 2 ^ 64 ≡ end = omega arith in
    rw (first_tag (prefix ++ flow), e)
      (rw (
        wrap,
        lt→ltb 0 total (omega arith),
        le→ltb total end (omega (arith, length-append prefix flow)),
        slice-append_last (0x0a ∷ prefix) flow (1 + length prefix) end (omega arith) refl,
        valid,
      ))

module _ (r : AsyncRead) (l : AsyncReadLaws r) where
  -- A flow that fits is sent behind its length, and read back.
  pub read_flow-encode :
      (flow rest : List ℕ)
      → length flow ≤ 252
      → is_utf8 flow ≡ true
      → (n : ℕ) × (addons : List ℕ) × (encode_addons flow ≡ ok (n ∷ addons))
        × (read_flow r (r.from (addons ++ rest)) n ≡ ok (flow, r.from rest))
  unfolding encode_addons read_flow
  read_flow-encode [] rest h valid = (0, [], refl, refl)
  read_flow-encode (b ∷ bs) rest h valid =
      let flow : List ℕ = b ∷ bs in
      let prefix = groups 9 (length flow) in
      let put = put_varint-groups (0x0a ∷ []) (length flow) (omega arith) in
      let n : ℕ = length (0x0a ∷ (prefix ++ flow)) in
      let fits : n ≤ 255 =
        omega (arith, length-append prefix flow, groups_two (length flow) (omega arith)) in
      let parsed =
        parse_flow-encoded prefix flow
          (read_varint-groups (0x0a ∷ []) (length flow) flow (omega arith)) (omega arith)
          (length-groups 9 (length flow)).1 valid in
      (
        n,
        0x0a ∷ (prefix ++ flow),
        rw put (rw (le→ltb 255 n fits)),
        rw (lt→ltb 0 n (omega arith), l.exact n (0x0a ∷ (prefix ++ flow)) rest refl, parsed),
      )
