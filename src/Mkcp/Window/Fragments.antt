-- ===== src/Mkcp/Window/Fragments.antt =====
-- The loop of `recv` on the fragments that `send` cuts.
use Prim.Native.Nat.{min}
use v2ray.Prelude.{
  ℕ, zero, suc, ◌+◌, ◌*◌, ◌%◌, ◌≤◌, ◌<◌, ◌≡◌, refl, arith, false, List, [], ◌∷◌, ◌++◌, length,
  length-append, take, take-append, drop-append, ◌∙◌, inl, inr, ap, append_assoc, le→ltb, ◌==◌,
}
use v2ray.Common.Result.Access.{split_at}
use v2ray.Common.Result.{Result, ok}
use v2ray.Mkcp.Segment.{Segment, new_segment, cmd_push}
use v2ray.Mkcp.Window.{fragments, recv_loop, copy_at}

-- `pre` has been written; the fragments add `xs` and leave the end of the buffer.
copy_lem :
    (pre bytes hole rest : List ℕ)
    → length hole ≡ length bytes
    → copy_at (pre ++ (hole ++ rest)) (length pre) bytes ≡ ok (pre ++ (bytes ++ rest))
copy_lem pre bytes hole rest h = rw (
  le→ltb (length (pre ++ (hole ++ rest))) (length pre + length bytes)
      (omega (arith, length-append pre (hole ++ rest), length-append hole rest)),
  take-append (length pre) pre (hole ++ rest) refl,
  ← append_assoc pre hole rest,
  drop-append (length pre + length bytes) (pre ++ hole) rest
      (omega (arith, length-append pre hole)),
)

-- The fragment that carries `bytes`, with `n` more behind it.
abbrev pub fragment : ℕ → ℕ → List ℕ → Segment
fragment conv n bytes = record (new_segment conv cmd_push) { frg = n % 256; payload = bytes }

take-all : (xs : List ℕ) → take (length xs) xs ≡ xs
take-all [] = refl
take-all (x ∷ xs) = ap (◌∷◌ x) (take-all xs)

pub fragments_last :
    (conv mss : ℕ) (xs : List ℕ)
    → length xs ≤ mss
    → fragments conv mss 1 xs ≡ fragment conv 0 xs ∷ []
unfolding fragments
fragments_last conv mss xs h =
    let e : min (length xs) mss ≡ length xs = omega arith in rw (e, take-all xs)

fragments_more :
    (conv n : ℕ) (ys zs : List ℕ)
    → fragments conv (length ys) (suc n) (ys ++ zs)
      ≡ fragment conv n ys ∷ fragments conv (length ys) n zs
unfolding fragments
fragments_more conv n ys zs =
    let e : min (length (ys ++ zs)) (length ys) ≡ length ys = omega (arith, length-append ys zs) in
    rw (e, take-append (length ys) ys zs refl, drop-append (length ys) ys zs refl)

recv_more :
    (conv n : ℕ) (bytes pre hole rest : List ℕ) (queue : List Segment)
    → (n % 256 == 0) ≡ false
    → length hole ≡ length bytes
    → recv_loop (fragment conv n bytes ∷ queue) (pre ++ (hole ++ rest)) (length pre)
      ≡ recv_loop queue ((pre ++ bytes) ++ rest) (length (pre ++ bytes))
unfolding recv_loop
recv_more conv n bytes pre hole rest queue b h =
    rw (copy_lem pre bytes hole rest h, b, length-append pre bytes, append_assoc pre bytes rest)

recv_last :
    (conv : ℕ) (bytes pre hole rest : List ℕ) (queue : List Segment)
    → length hole ≡ length bytes
    → recv_loop (fragment conv 0 bytes ∷ queue) (pre ++ (hole ++ rest)) (length pre)
      ≡ ok (queue, pre ++ (bytes ++ rest), length pre + length bytes)
unfolding recv_loop
recv_last conv bytes pre hole rest queue h = rw (copy_lem pre bytes hole rest h)

pub nonzero : (n : ℕ) → suc n < 256 → (suc n % 256 == 0) ≡ false
nonzero n h = ground arith

abbrev pub done : List Segment → List ℕ → ℕ → Result (List Segment × List ℕ × ℕ)
done queue buf pos = ok (queue, buf, pos)

joined :
    (pre ys zs rest : List ℕ) (queue : List Segment)
    → done queue ((pre ++ ys) ++ (zs ++ rest)) (length (pre ++ ys) + length zs)
      ≡ done queue (pre ++ ((ys ++ zs) ++ rest)) (length pre + length (ys ++ zs))
joined pre ys zs rest queue =
    rw (append_assoc pre ys (zs ++ rest), append_assoc ys zs rest)
      (ap (done queue (pre ++ (ys ++ (zs ++ rest))))
        (omega (arith, length-append pre ys, length-append ys zs)))

pub recv-fragments :
    (conv mss n : ℕ) (xs pre hole rest : List ℕ) (queue : List Segment)
    → n * mss < length xs
    → length xs ≤ suc n * mss
    → n < 256
    → length hole ≡ length xs
    → recv_loop (fragments conv mss (suc n) xs ++ queue) (pre ++ (hole ++ rest)) (length pre)
      ≡ ok (queue, pre ++ (xs ++ rest), length pre + length xs)
recv-fragments conv mss zero xs pre hole rest queue lo hi small h =
    rw (fragments_last conv mss xs (omega arith)) (recv_last conv xs pre hole rest queue h)
recv-fragments conv mss (suc n) xs pre hole rest queue lo hi small h = elim (split_at mss xs) [
  | inl short ↦ absurd (omega arith)
  | inr (ys, zs, hy, e) ↦ elim (split_at mss hole) [
    | inl short ↦ absurd (omega arith)
    | inr (hs, ts, hh, k) ↦
        let size : length xs ≡ length ys + length zs = rw e (length-append ys zs) in
        let room : length hole ≡ length hs + length ts = rw k (length-append hs ts) in
        let lo' : n * length ys < length zs = rw hy (grind arith) in
        let hi' : length zs ≤ suc n * length ys = rw hy (grind arith) in
        rw
          (
            e,
            k,
            ← hy,
            fragments_more conv (suc n) ys zs,
            append_assoc hs ts rest,
            recv_more conv (suc n) ys pre hs (ts ++ rest)
                (fragments conv (length ys) (suc n) zs ++ queue) (nonzero n small) (omega arith),
          )
          (recv-fragments conv (length ys) n zs (pre ++ ys) ts rest queue lo' hi' (omega arith)
              (omega arith)
            ∙ joined pre ys zs rest queue)
  ]
]
