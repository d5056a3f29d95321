-- ===== src/Mkcp/Input.antt =====
-- Segments from the peer: `input` of mkcp/kcp.rs and what it calls.
pub mod Wrap
pub mod Sorted
pub mod Placed
use Prim.Native.Nat.{bit_or, min, max}
use v2ray.Prelude.{
  ℕ, zero, suc, ◌+◌, ◌-◌, ◌*◌, ◌/◌, ◌%◌, ◌^◌, Bool, true, false, not, ◌&&◌, ◌||◌, Option, none,
  some, List, [], ◌∷◌, ◌++◌, length, take, drop, ltb, leb, ◌==◌, if◌then◌else◌,
}
use v2ray.Common.Result.{Result, ok, panic, stuck, ◌>>=◌}
use v2ray.Mkcp.Segment.{Segment, decode, cmd_push, cmd_ack, cmd_wask, cmd_wins}
use v2ray.Mkcp.Kcp.{Kcp, u16, u32, minus, rto_max}
use v2ray.Mkcp.Window.{move_rcv_buf}

-- `VecDeque::retain`
unfoldable pub retain : (Segment → Bool) → List Segment → List Segment
retain p [] = []
retain p (s ∷ ss) = let rest = retain p ss in if p s then s ∷ rest else rest

unfoldable pub parse_una : ℕ → Kcp → Kcp
unfolding retain
parse_una una k = record k { snd_buf = retain (λ s. leb una s.sn) k.snd_buf }

unfoldable pub front_sn : List Segment → ℕ → ℕ
front_sn [] next = next
front_sn (s ∷ ss) next = s.sn

unfoldable pub shrink_buf : Kcp → Kcp
unfolding front_sn
shrink_buf k = record k { snd_una = front_sn k.snd_buf k.snd_nxt }

abs_diff : ℕ → ℕ → ℕ
abs_diff a b = (a - b) + (b - a)

-- The smoothed round trip time, and its variation.
unfoldable pub smooth : ℕ → Kcp → Kcp
unfolding abs_diff
smooth rtt k =
    if k.rx_srtt == 0
    then record k { rx_srtt = rtt; rx_rttval = rtt / 2 }
    else (let delta = abs_diff rtt k.rx_srtt in
        let srtt = u32 (u32 (7 * k.rx_srtt) + rtt) / 8 in
        record k {
          rx_rttval = u32 (u32 (3 * k.rx_rttval) + delta) / 4;
          rx_srtt = if ltb srtt 1 then 1 else srtt;
        })

unfoldable pub update_ack : ℕ → Kcp → Kcp
unfolding smooth
update_ack rtt k =
    let k = smooth rtt k in
    record k { rx_rto = min (max (u32 (k.rx_srtt + u32 (4 * k.rx_rttval))) k.rx_minrto) rto_max }

unfoldable pub parse_ack : ℕ → Kcp → Kcp
unfolding retain
parse_ack sn k =
    if ltb sn k.snd_una || leb k.snd_nxt sn
    then k
    else record k { snd_buf = retain (λ s. not (s.sn == sn)) k.snd_buf }

-- The segments in front of the first that is not older than `sn`.
fastack_loop : ℕ → List Segment → List Segment
fastack_loop sn [] = []
fastack_loop sn (s ∷ ss) =
    let rest = fastack_loop sn ss in
    if ltb s.sn sn then (record s { fastack = u32 (s.fastack + 1) }) ∷ rest else s ∷ ss

unfoldable pub parse_fastack : ℕ → Kcp → Kcp
unfolding fastack_loop
parse_fastack sn k =
    if ltb sn k.snd_una || leb k.snd_nxt sn
    then k
    else record k { snd_buf = fastack_loop sn k.snd_buf }

unfoldable pub any_sn : ℕ → List Segment → Bool
any_sn sn [] = false
any_sn sn (s ∷ ss) = s.sn == sn || any_sn sn ss

-- One more than the last position with a smaller number, or 0.
unfoldable pub insert_position : ℕ → List Segment → ℕ
insert_position sn [] = 0
insert_position sn (s ∷ ss) =
    let rest = insert_position sn ss in
    if ltb 0 rest then rest + 1 else if ltb s.sn sn then 1 else 0

abbrev pub insert_at : ℕ → Segment → List Segment → List Segment
insert_at n s ss = take n ss ++ (s ∷ drop n ss)

unfoldable pub parse_data : Segment → Kcp → Kcp
unfolding any_sn insert_position
parse_data seg k =
    if leb (u32 (k.rcv_nxt + k.rcv_wnd)) seg.sn || ltb seg.sn k.rcv_nxt
    then k
    else if any_sn seg.sn k.rcv_buf
    then k
    else move_rcv_buf
        (record k { rcv_buf = insert_at (insert_position seg.sn k.rcv_buf) seg k.rcv_buf })

-- The locals of `input`.
pub record Acks : Type 0 where
  pub flag : Bool
  pub maxack : ℕ
  pub latest_ts : ℕ

-- The loop goes on, or the function returns a code.
pub data Step : Type 0 where
  go : Kcp → Acks → Step
  stop : Kcp → ℕ → Step

unfoldable pub on_ack : Segment → Kcp → Acks → Step
on_ack seg k acks =
    let k = shrink_buf (parse_ack seg.sn (update_ack (u32 (k.current + 2 ^ 32 - seg.ts)) k)) in
    if not acks.flag || ltb acks.maxack seg.sn
    then go k (record { flag = true; maxack = seg.sn; latest_ts = seg.ts })
    else go k acks

unfoldable pub on_push : Segment → Kcp → Kcp
on_push seg k =
    if ltb seg.sn (u32 (k.rcv_nxt + k.rcv_wnd))
    then (let k = record k { acklist = k.acklist ++ ((seg.sn, seg.ts) ∷ []) } in
        if leb k.rcv_nxt seg.sn then parse_data seg k else k)
    else k

-- The body of the loop, for a segment.
unfoldable pub on_segment : Segment → Kcp → Acks → Step
unfolding on_ack on_push
on_segment seg k acks =
    if not (seg.conv == k.conv)
    then stop k (minus 1)
    else (let k = shrink_buf (parse_una seg.una (record k { rmt_wnd = seg.wnd })) in
        if seg.cmd == cmd_ack
        then on_ack seg k acks
        else if seg.cmd == cmd_push
        then go (on_push seg k) acks
        else if seg.cmd == cmd_wask
        then go (record k { probe = bit_or k.probe 2 }) acks
        else if seg.cmd == cmd_wins
        then go k acks
        else stop k (minus 3))

unfoldable pub continue_with : (Kcp → Acks → Result Step) → Step → Result Step
continue_with again (go k acks) = again k acks
continue_with again (stop k code) = ok (stop k code)

unfoldable pub next_segment :
    (List ℕ → Kcp → Acks → Result Step) → Kcp → Acks → Option (Segment × List ℕ) → Result Step
unfolding continue_with
next_segment again k acks none = ok (stop k (minus 1))
next_segment again k acks (some (seg, rest)) = continue_with (again rest) (on_segment seg k acks)

-- Every segment takes 24 bytes at least.
unfoldable pub input_loop : ℕ → List ℕ → Kcp → Acks → Result Step
unfolding next_segment
input_loop fuel [] k acks = ok (go k acks)
input_loop zero (b ∷ bs) k acks = stuck
input_loop (suc fuel) (b ∷ bs) k acks = next_segment (input_loop fuel) k acks (decode (b ∷ bs))

-- The congestion window grows. A division by 0 panics.
unfoldable pub checked_div : ℕ → ℕ → Result ℕ
checked_div a zero = panic
checked_div a (suc b) = ok (a / suc b)

unfoldable pub grow_slow : Kcp → Result Kcp
unfolding checked_div
grow_slow k = do
  let incr = if ltb k.incr k.mss then k.mss else k.incr
  share ← checked_div (u32 (k.mss * k.mss)) incr
  let incr = u32 (incr + u32 (share + k.mss / 16))
  let cwnd = if leb (u32 (u32 (k.cwnd + 1) * k.mss)) incr then u16 (k.cwnd + 1) else k.cwnd
  ok (record k { incr = incr; cwnd = cwnd })

unfoldable pub clamp_cwnd : Kcp → Kcp
clamp_cwnd k =
    if ltb k.rmt_wnd k.cwnd
    then record k { cwnd = k.rmt_wnd; incr = u32 (k.rmt_wnd * k.mss) }
    else k

unfoldable pub grow_cwnd : Kcp → Result Kcp
unfolding grow_slow clamp_cwnd
grow_cwnd k =
    (if ltb k.cwnd k.ssthresh
      then ok (record k { cwnd = u16 (k.cwnd + 1); incr = u32 (k.incr + k.mss) })
      else grow_slow k)
    >>= λ k. ok (clamp_cwnd k)

-- What follows the loop.
unfoldable pub finish_input : ℕ → Step → Result (Kcp × ℕ)
unfolding grow_cwnd
finish_input prev_una (stop k code) = ok (k, code)
finish_input prev_una (go k acks) =
    let k = if acks.flag then parse_fastack acks.maxack k else k in
    if ltb prev_una k.snd_una && ltb k.cwnd k.rmt_wnd
    then (do k ← grow_cwnd k; ok (k, 0))
    else ok (k, 0)

unfoldable pub input : Kcp → List ℕ → Result (Kcp × ℕ)
unfolding input_loop finish_input
input k datagram =
    input_loop (length datagram) datagram k (record { flag = false; maxack = 0; latest_ts = 0 })
    >>= finish_input k.snd_una
