-- ===== src/Mkcp/Window/Messages.antt =====
-- A message through `send` and `recv`.
use Prim.Native.Nat.{min, bit_or}
use native.Mathlib.Nat.{div-add-mod, mul_comm, mod-lt, mul-le-mul_right}
use v2ray.Prelude.{
  ℕ, zero, suc, ◌+◌, ◌*◌, ◌/◌, ◌%◌, ◌^◌, ◌≤◌, ◌<◌, ◌≡◌, refl, arith, false, List, [], ◌∷◌, ◌++◌,
  length, length-take, length-drop, drop, drop-append, ◌∙◌, inl, inr, ap, append-nil, ◌&&◌,
  Bool-cases, ltb→lt, ltb→le, le→ltb, ltb, leb, ◌==◌, if◌then◌else◌,
}
use v2ray.Common.Result.Access.{split_at}
use v2ray.Common.Result.{ok}
use v2ray.Mkcp.Segment.{Segment}
use v2ray.Mkcp.Kcp.{Kcp, u32, signed_less}
use v2ray.Mkcp.Window.{
  move_rcv_buf, peek, fragments, recv_loop, recv, recv_message, send, div_ceil, peeksize, total,
}
use v2ray.Mkcp.Window.Fragments.{fragments_last, nonzero, done, recv-fragments}

-- How many fragments there are, less one.
abbrev pub Fragments : ℕ → ℕ → ℕ → Type 0
Fragments len mss n = (n * mss < len) × (len ≤ suc n * mss) × (n < 255)

ceil_parts :
    (q m r len : ℕ)
    → q * suc m + r ≡ len + m
    → r < suc m
    → 0 < len
    → len ≤ 255 * suc m
    → (n : ℕ) × (q ≡ suc n) × Fragments len (suc m) n
ceil_parts zero m r len e h k l = absurd (omega arith)
ceil_parts (suc n) m r len e h k l = elim (Bool-cases (ltb n 255)) [
  | inl few ↦ (n, refl, (omega arith, omega arith, ltb→lt n 255 few))
  | inr many ↦ absurd (omega (arith, mul-le-mul_right (suc m) (ltb→le n 255 many)))
]

div_ceil-lem :
    (len mss : ℕ)
    → 0 < len
    → 0 < mss
    → len ≤ 255 * mss
    → (n : ℕ) × (div_ceil len mss ≡ ok (suc n)) × Fragments len mss n
unfolding div_ceil
div_ceil-lem len zero h k l = elim k [ ]
div_ceil-lem len (suc m) h k l =
    let (n, e, parts) =
      ceil_parts ((len + m) / suc m) m ((len + m) % suc m) len
        (ap (λ (t : ℕ). t + (len + m) % suc m) (mul_comm ((len + m) / suc m) (suc m))
          ∙ div-add-mod (len + m) (suc m))
        (mod-lt (len + m) k) h l in
    (n, ap ok e, parts)

pub total-fragments :
    (conv mss n : ℕ) (xs : List ℕ)
    → length xs ≤ n * mss
    → (length (fragments conv mss n xs) ≡ n) × (total (fragments conv mss n xs) ≡ length xs)
unfolding fragments total
total-fragments conv mss zero xs h = (refl, omega arith)
total-fragments conv mss (suc n) xs h =
    let size : ℕ = min (length xs) mss in
    let (count, sum) =
      total-fragments conv mss n (drop size xs) (omega (arith, length-drop size xs)) in
    (omega arith, omega (arith, length-take size xs, length-drop size xs))

pub peek_many :
    (s : Segment) (q : List Segment)
    → (s.frg == 0) ≡ false
    → ltb (length (s ∷ q)) ((s.frg + 1) % 256) ≡ false
    → peek (s ∷ q) ≡ u32 (total (s ∷ q))
unfolding peek
peek_many s q e h = rw (e, h)

peek-fragments :
    (conv mss n : ℕ) (xs : List ℕ)
    → Fragments (length xs) mss n
    → length xs < 2 ^ 31
    → peek (fragments conv mss (suc n) xs) ≡ length xs
peek-fragments conv mss zero xs (lo, hi, few) small =
    rw (fragments_last conv mss xs (omega arith)) (unfold peek in omega arith)
peek-fragments conv mss (suc n) xs (lo, hi, few) small =
    let (count, sum) = total-fragments conv mss (suc (suc n)) xs hi in
    let low : suc n % 256 ≡ suc n = omega arith in
    unfold fragments in
    peek_many _ _ (nonzero n (omega arith)) (le→ltb _ _ (rw low (omega (arith, count))))
    ∙ omega (arith, sum)

signed_less_lem : (a b : ℕ) → a < 2 ^ 31 → b ≤ a → signed_less a b ≡ false
signed_less_lem a b h k = ground arith

-- A queue that is emptied into the buffer.
recv_message_lem :
    (k : Kcp) (buf out : List ℕ) (n : ℕ)
    → recv_loop k.rcv_queue buf 0 ≡ ok ([], out, n)
    → (r : Kcp) × (recv_message k buf ≡ ok (r, out, u32 n))
unfolding recv_message
recv_message_lem k buf out n e =
    let r = move_rcv_buf (record k { rcv_queue = [] }) in
    let probe =
      if leb k.rcv_wnd (length k.rcv_queue) && ltb (length r.rcv_queue) r.rcv_wnd
      then bit_or r.probe 2
      else r.probe in
    (record r { probe = probe }, rw e refl)

recv_lem :
    (k : Kcp) (buf out : List ℕ) (n : ℕ)
    → (length k.rcv_queue == 0) ≡ false
    → peek k.rcv_queue ≡ n
    → n ≤ length buf
    → length buf < 2 ^ 31
    → recv_loop k.rcv_queue buf 0 ≡ ok ([], out, n)
    → (r : Kcp) × (recv k buf ≡ ok (r, out, n))
unfolding recv peeksize
recv_lem k buf out n c e fits room m =
    let (r, all) = recv_message_lem k buf out n m in
    let small : n % 2 ^ 32 ≡ n = omega arith in
    let whole : length buf % 2 ^ 32 ≡ length buf = omega arith in
    (
      r,
      rw
          (
            c,
            e,
            signed_less_lem n 0 (omega arith) (omega arith),
            whole,
            signed_less_lem (length buf) n room fits,
          )
          (all ∙ ap (λ (t : ℕ). ok (r, out, t)) small),
    )

pub fragments_some :
    (conv mss n : ℕ) (xs : List ℕ) → (length (fragments conv mss (suc n) xs) == 0) ≡ false
unfolding fragments
fragments_some conv mss n xs = ground arith

lt→leb : (a b : ℕ) → b < a → leb a b ≡ false
lt→leb a b h = ground arith

-- `recv_loop` on a whole message, into a buffer that has room for it.
whole_loop :
    (conv mss n : ℕ) (xs buf : List ℕ)
    → Fragments (length xs) mss n
    → length xs ≤ length buf
    → recv_loop (fragments conv mss (suc n) xs) buf 0
      ≡ ok ([], xs ++ drop (length xs) buf, length xs)
whole_loop conv mss n xs buf (lo, hi, few) fits = elim (split_at (length xs) buf) [
  | inl short ↦ absurd (omega arith)
  | inr (hole, rest, h, e) ↦
      rw (e, drop-append (length xs) hole rest h, ← append-nil (fragments conv mss (suc n) xs))
        (recv-fragments conv mss n xs [] hole rest [] lo hi (omega arith) h
          ∙ ap (done [] (xs ++ rest)) (omega arith))
]

-- With a positive fragment size, a message of at least one byte and at most 255 full fragments is
-- queued for sending as fragments; from a queue that holds just these fragments, `recv` into a
-- buffer of fewer than 2^31 bytes that has room for the message writes it to the front of the
-- buffer, leaves the end of the buffer, and returns the length of the message.
pub recv-send :
    (k r : Kcp) (b : ℕ) (bs buf : List ℕ)
    → 0 < k.mss
    → length (b ∷ bs) ≤ 255 * k.mss
    → length (b ∷ bs) ≤ length buf
    → length buf < 2 ^ 31
    → (fs : List Segment) × (send k (b ∷ bs) ≡ ok (record k { snd_queue = k.snd_queue ++ fs }, 0))
      × (r' : Kcp) × (recv (record r { rcv_queue = fs }) buf
          ≡ ok (r', (b ∷ bs) ++ drop (length (b ∷ bs)) buf, length (b ∷ bs)))
unfolding send
recv-send k r b bs buf h small fits room =
    let xs = b ∷ bs in
    let (n, count, (lo, hi, few)) = div_ceil-lem (length xs) k.mss (omega arith) h small in
    let fs = fragments k.conv k.mss (suc n) xs in
    let rest = drop (length xs) buf in
    let (r', all) =
      recv_lem (record r { rcv_queue = fs }) buf (xs ++ rest) (length xs)
        (fragments_some k.conv k.mss n xs)
        (peek-fragments k.conv k.mss n xs (lo, hi, few) (omega arith)) fits room
        (whole_loop k.conv k.mss n xs buf (lo, hi, few) fits) in
    (fs, rw (count, lt→leb 256 (suc n) (omega arith)) refl, r', all)
