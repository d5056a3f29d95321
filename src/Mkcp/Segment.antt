-- ===== src/Mkcp/Segment.antt =====
-- One segment and its wire form: crates/blackwire-transport/src/mkcp/segment.rs.
pub mod RoundTrip
use v2ray.Prelude.{
  ℕ, ◌+◌, ◌*◌, ◌/◌, ◌%◌, Option, none, some, List, [], ◌∷◌, ◌++◌, length, take, drop, ltb,
  if◌then◌else◌,
}

abbrev pub overhead : ℕ
overhead = 24

abbrev pub cmd_push : ℕ
cmd_push = 81

abbrev pub cmd_ack : ℕ
cmd_ack = 82

abbrev pub cmd_wask : ℕ
cmd_wask = 83

abbrev pub cmd_wins : ℕ
cmd_wins = 84

pub record Segment : Type 0 where
  pub conv : ℕ
  pub cmd : ℕ
  pub frg : ℕ
  pub wnd : ℕ
  pub ts : ℕ
  pub sn : ℕ
  pub una : ℕ
  pub payload : List ℕ
  pub resendts : ℕ
  pub rto : ℕ
  pub fastack : ℕ
  pub xmit : ℕ

-- `Segment::new`
abbrev pub new_segment : ℕ → ℕ → Segment
new_segment conv cmd = record {
  conv = conv;
  cmd = cmd;
  frg = 0;
  wnd = 0;
  ts = 0;
  sn = 0;
  una = 0;
  payload = [];
  resendts = 0;
  rto = 200;
  fastack = 0;
  xmit = 0;
}

-- `put_u16_le` and `put_u32_le`, and what reads them back.
abbrev pub le16 : ℕ → List ℕ
le16 n = n % 256 ∷ n / 256 % 256 ∷ []

abbrev pub le32 : ℕ → List ℕ
le32 n = n % 256 ∷ n / 256 % 256 ∷ n / 65536 % 256 ∷ n / 16777216 % 256 ∷ []

abbrev pub of_le16 : ℕ → ℕ → ℕ
of_le16 a b = a + b * 256

abbrev pub of_le32 : ℕ → ℕ → ℕ → ℕ → ℕ
of_le32 a b c d = a + b * 256 + c * 65536 + d * 16777216

-- The bytes that `encode` appends.
unfoldable pub encode : Segment → List ℕ
encode s =
    le32 s.conv
    ++ (s.cmd
        ∷ s.frg
        ∷ (le16 s.wnd
            ++ (le32 s.ts
                ++ (le32 s.sn ++ (le32 s.una ++ (le32 (length s.payload) ++ s.payload))))))

-- The payload behind the header, when all of it has come.
unfoldable pub decode_data : (List ℕ → Segment) → ℕ → List ℕ → Option (Segment × List ℕ)
decode_data header len src =
    if ltb (length src) len then none else some (header (take len src), drop len src)

-- A segment off the front of `src`, and the rest. The one clause for 24 bytes or more is the test
-- against `OVERHEAD`.
unfoldable pub decode : List ℕ → Option (Segment × List ℕ)
unfolding decode_data
decode
      (c0 ∷ c1 ∷ c2 ∷ c3 ∷ cmd ∷ frg ∷ w0 ∷ w1 ∷ t0 ∷ t1 ∷ t2 ∷ t3 ∷ s0 ∷ s1 ∷ s2 ∷ s3 ∷ u0 ∷ u1
        ∷ u2 ∷ u3 ∷ l0 ∷ l1 ∷ l2 ∷ l3 ∷ src) =
    decode_data
      (λ bytes. record {
        conv = of_le32 c0 c1 c2 c3;
        cmd = cmd;
        frg = frg;
        wnd = of_le16 w0 w1;
        ts = of_le32 t0 t1 t2 t3;
        sn = of_le32 s0 s1 s2 s3;
        una = of_le32 u0 u1 u2 u3;
        payload = bytes;
        resendts = 0;
        rto = 200;
        fastack = 0;
        xmit = 0;
      })
      (of_le32 l0 l1 l2 l3) src
decode src = none
