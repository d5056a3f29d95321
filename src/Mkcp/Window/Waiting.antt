-- ===== src/Mkcp/Window/Waiting.antt =====
-- A message in fragments with another segment behind it.
use v2ray.Prelude.{
  ℕ, suc, ◌+◌, ◌%◌, ◌^◌, ◌≤◌, ◌<◌, ◌≡◌, ◌∙◌, sym, subst, arith, true, false, List, [], ◌∷◌, ◌++◌,
  length, length-append, le→ltb, ◌==◌,
}
use v2ray.Common.Result.{ok}
use v2ray.Mkcp.Segment.{Segment}
use v2ray.Mkcp.Kcp.{Kcp, minus, signed_less}
use v2ray.Mkcp.Window.{fragments, recv, peek, peeksize, total}
use v2ray.Mkcp.Window.Fragments.{nonzero}
use v2ray.Mkcp.Window.Messages.{Fragments, peek_many, total-fragments}

total-append : (q r : List Segment) → total (q ++ r) ≡ total q + total r
unfolding total
total-append [] r = omega arith
total-append (s ∷ q) r = omega (arith, total-append q r)

peek_behind :
    (conv mss n : ℕ) (xs : List ℕ) (other : Segment)
    → Fragments (length xs) mss (suc n)
    → length xs + length other.payload < 2 ^ 31
    → peek (fragments conv mss (suc (suc n)) xs ++ (other ∷ [])) ≡ length xs + length other.payload
peek_behind conv mss n xs other (lo, hi, few) small =
    let (count, sum) = total-fragments conv mss (suc (suc n)) xs hi in
    let fs = fragments conv mss (suc (suc n)) xs in
    let whole = total-append fs (other ∷ []) in
    let longer = length-append fs (other ∷ []) in
    let last : total (other ∷ []) ≡ length other.payload = unfold total in omega arith in
    let low : suc n % 256 ≡ suc n = omega arith in
    unfold fragments in
    peek_many _ _ (nonzero n (omega arith)) (le→ltb _ _ (rw low (omega (arith, count, longer))))
    ∙ omega (arith, sum, whole, last)

refused : (a b : ℕ) → a < b → b < 2 ^ 31 → signed_less a b ≡ true
refused a b h k = ground arith

not_negative : (a : ℕ) → a < 2 ^ 31 → signed_less a 0 ≡ false
not_negative a h = ground arith

recv_too_long :
    (k : Kcp) (buf : List ℕ) (n : ℕ)
    → (length k.rcv_queue == 0) ≡ false
    → peek k.rcv_queue ≡ n
    → n < 2 ^ 31
    → length buf < n
    → recv k buf ≡ ok (k, buf, minus 2)
unfolding recv peeksize
recv_too_long k buf n some_queue e small short =
    let whole : length buf % 2 ^ 32 ≡ length buf = omega arith in
    rw (some_queue, e, not_negative n small, whole, refused (length buf) n short small)

waiting : (q : List Segment) (s : Segment) → (length (q ++ (s ∷ [])) == 0) ≡ false
waiting q s = ground (arith, length-append q (s ∷ []))

-- A message of two fragments or more that waits in the queue with one segment behind it is refused
-- as too long for the buffer (code -2) when the buffer has room for the message but not for both:
-- the size is the sum over the whole queue.
pub recv-refuses :
    (k : Kcp) (conv mss n : ℕ) (xs buf : List ℕ) (other : Segment)
    → k.rcv_queue ≡ fragments conv mss (suc (suc n)) xs ++ (other ∷ [])
    → Fragments (length xs) mss (suc n)
    → length xs ≤ length buf
    → length buf < length xs + length other.payload
    → length xs + length other.payload < 2 ^ 31
    → recv k buf ≡ ok (k, buf, minus 2)
recv-refuses k conv mss n xs buf other q parts fits short small =
    let queue = fragments conv mss (suc (suc n)) xs in
    recv_too_long k buf (length xs + length other.payload)
      (subst (λ t. (length t == 0) ≡ false) (sym q) (waiting queue other))
      (subst (λ t. peek t ≡ length xs + length other.payload) (sym q)
        (peek_behind conv mss n xs other parts small))
      small short
