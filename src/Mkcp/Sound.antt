-- ===== src/Mkcp/Sound.antt =====
-- What holds of the engine in every state that its operations reach.
pub mod Reachable
use v2ray.Prelude.{
  ◌-◌, ℕ, zero, suc, ◌+◌, ◌*◌, ◌%◌, ◌^◌, ◌≤◌, ◌<◌, ◌≡◌, refl, arith, Bool, true, false, not, ◌&&◌,
  ◌||◌, Option, none, some, List, [], ◌∷◌, ◌++◌, length, length-append, ltb, leb, ◌==◌,
  if◌then◌else◌, Bool-cases, inl, inr, ltb→lt,
}
use v2ray.Common.Result.{Result, ok, ◌>>=◌}
use v2ray.Common.Result.Holds.{if-Holds, Holds, bind-Holds}
use v2ray.Mkcp.Segment.{cmd_wins, cmd_wask, cmd_push, cmd_ack, Segment, decode}
use v2ray.Mkcp.Segment.RoundTrip.{decode-Takes, Takes}
use v2ray.Mkcp.Input.Sorted.{Sorted, move_loop-Ascending, parse_data-Sorted}
use v2ray.Mkcp.Kcp.{u32, Kcp, new_kcp}
use v2ray.Mkcp.Window.{move_loop, move_rcv_buf}
use v2ray.Mkcp.Input.{
  grow_slow, clamp_cwnd, checked_div, any_sn, on_push, on_ack, parse_una, shrink_buf, update_ack,
  parse_ack, parse_fastack, parse_data, on_segment, input, input_loop, next_segment, continue_with,
  grow_cwnd, finish_input, Acks, Step, go, stop,
}

-- Fragments have a positive size, the queue of received segments fits the receive window, and the
-- numbers in the receive buffer ascend.
abbrev pub Sound : Kcp → Type 0
Sound k = (0 < k.mss) × (length k.rcv_queue ≤ k.rcv_wnd) × Sorted k

and_right : (a b : Bool) → (a && b) ≡ true → b ≡ true
and_right a b h = ground arith

move_loop-fits :
    (wnd : ℕ) (queue : List Segment) (next : ℕ) (buf : List Segment)
    → length queue ≤ wnd
    → length (move_loop wnd queue next buf).0 ≤ wnd
unfolding move_loop
move_loop-fits wnd queue next [] h = h
move_loop-fits wnd queue next (s ∷ buf) h =
    elim (Bool-cases (s.sn == next && ltb (length queue) wnd)) [
      | inl due ↦ rw due (
          move_loop-fits wnd (queue ++ (s ∷ [])) _ buf (
            omega
              (arith, length-append queue (s ∷ []), ltb→lt (length queue) wnd (and_right _ _ due))))
      | inr not_due ↦ rw not_due h
    ]

pub move-Sound : (k : Kcp) → Sound k → Sound (move_rcv_buf k)
unfolding move_rcv_buf
move-Sound k (m, h, a) = (
  m,
  move_loop-fits k.rcv_wnd k.rcv_queue k.rcv_nxt k.rcv_buf h,
  move_loop-Ascending k.rcv_wnd k.rcv_queue k.rcv_nxt k.rcv_buf a,
)

pub if-Sound : (b : Bool) (x y : Kcp) → Sound x → Sound y → Sound (if b then x else y)
if-Sound true x y p q = p
if-Sound false x y p q = q

update_ack-Sound : (rtt : ℕ) (k : Kcp) → Sound k → Sound (update_ack rtt k)
unfolding update_ack
update_ack-Sound rtt k h = if-Sound (k.rx_srtt == 0) _ _ h h

abbrev Fits : Kcp → Type 0
Fits k = (0 < k.mss) × (length k.rcv_queue ≤ k.rcv_wnd)

if-Fits : (b : Bool) (x y : Kcp) → Fits x → Fits y → Fits (if b then x else y)
if-Fits true x y p q = p
if-Fits false x y p q = q

parse_data-Fits : (seg : Segment) (k : Kcp) → Fits k → Fits (parse_data seg k)
unfolding parse_data move_rcv_buf
parse_data-Fits seg k (m, h) =
    if-Fits (leb (u32 (k.rcv_nxt + k.rcv_wnd)) seg.sn || ltb seg.sn k.rcv_nxt) _ _ (m, h)
      (if-Fits (any_sn seg.sn k.rcv_buf) _ _ (m, h)
        (m, move_loop-fits k.rcv_wnd k.rcv_queue k.rcv_nxt _ h))

parse_data-Sound : (seg : Segment) (k : Kcp) → Sound k → Sound (parse_data seg k)
parse_data-Sound seg k (m, h, a) =
    let (m', h') = parse_data-Fits seg k (m, h) in (m', h', parse_data-Sorted seg k a)

on_push-Sound : (seg : Segment) (k : Kcp) → Sound k → Sound (on_push seg k)
unfolding on_push
on_push-Sound seg k h =
    if-Sound (ltb seg.sn (u32 (k.rcv_nxt + k.rcv_wnd))) _ _
      (if-Sound (leb k.rcv_nxt seg.sn) _ _ (parse_data-Sound seg _ h) h) h

parse_ack-Sound : (sn : ℕ) (k : Kcp) → Sound k → Sound (parse_ack sn k)
unfolding parse_ack
parse_ack-Sound sn k h = if-Sound (ltb sn k.snd_una || leb k.snd_nxt sn) _ _ h h

parse_fastack-Sound : (sn : ℕ) (k : Kcp) → Sound k → Sound (parse_fastack sn k)
unfolding parse_fastack
parse_fastack-Sound sn k h = if-Sound (ltb sn k.snd_una || leb k.snd_nxt sn) _ _ h h

abbrev StepSound : Step → Type 0
StepSound (go k acks) = Sound k
StepSound (stop k code) = Sound k

if-StepSound : (b : Bool) (x y : Step) → StepSound x → StepSound y → StepSound (if b then x else y)
if-StepSound true x y p q = p
if-StepSound false x y p q = q

on_ack-Sound : (seg : Segment) (k : Kcp) (acks : Acks) → Sound k → StepSound (on_ack seg k acks)
unfolding on_ack shrink_buf
on_ack-Sound seg k acks h =
    let after =
      parse_ack-Sound seg.sn _ (update_ack-Sound (u32 (k.current + 2 ^ 32 - seg.ts)) k h) in
    if-StepSound (not acks.flag || ltb acks.maxack seg.sn) _ _ after after

on_segment-Sound :
    (seg : Segment) (k : Kcp) (acks : Acks) → Sound k → StepSound (on_segment seg k acks)
unfolding on_segment shrink_buf parse_una
on_segment-Sound seg k acks h =
    let k' = shrink_buf (parse_una seg.una (record k { rmt_wnd = seg.wnd })) in
    if-StepSound (not (seg.conv == k.conv)) _ _ h (
      if-StepSound (seg.cmd == cmd_ack) _ _ (on_ack-Sound seg k' acks h) (
        if-StepSound (seg.cmd == cmd_push) _ _ (on_push-Sound seg k' h)
          (if-StepSound (seg.cmd == cmd_wask) _ _ h (if-StepSound (seg.cmd == cmd_wins) _ _ h h))))

continue-Sound :
    (again : Kcp → Acks → Result Step) (t : Step)
    → StepSound t
    → ((k : Kcp) (acks : Acks) → Sound k → Holds StepSound (again k acks))
    → Holds StepSound (continue_with again t)
unfolding continue_with
continue-Sound again (go k acks) h next = next k acks h
continue-Sound again (stop k code) h next = h

next-Sound :
    (again : List ℕ → Kcp → Acks → Result Step) (k : Kcp) (acks : Acks) (fuel total : ℕ)
    (read : Option (Segment × List ℕ))
    → Takes 24 total read
    → total ≤ suc fuel
    → Sound k
    → ((rest : List ℕ) (k : Kcp) (acks : Acks)
        → length rest ≤ fuel
        → Sound k
        → Holds StepSound (again rest k acks))
    → Holds StepSound (next_segment again k acks read)
unfolding next_segment
next-Sound again k acks fuel total none t h s next = s
next-Sound again k acks fuel total (some (seg, rest)) t h s next =
    continue-Sound (again rest) (on_segment seg k acks) (on_segment-Sound seg k acks s)
      (λ k acks. next rest k acks (omega arith))

loop-Sound :
    (fuel : ℕ) (xs : List ℕ) (k : Kcp) (acks : Acks)
    → length xs ≤ fuel
    → Sound k
    → Holds StepSound (input_loop fuel xs k acks)
unfolding input_loop
loop-Sound fuel [] k acks h s = s
loop-Sound zero (b ∷ bs) k acks h s = absurd (omega arith)
loop-Sound (suc fuel) (b ∷ bs) k acks h s =
    next-Sound (input_loop fuel) k acks fuel (length (b ∷ bs)) (decode (b ∷ bs))
      (decode-Takes (b ∷ bs)) h s (loop-Sound fuel)

div_Holds : (a b : ℕ) → 0 < b → Holds (λ n. Unit {0}) (checked_div a b)
unfolding checked_div
div_Holds a zero h = elim h [ ]
div_Holds a (suc b) h = tt

at_least : (a b : ℕ) → 0 < b → 0 < (if ltb a b then b else a)
at_least a b h = ground arith

grow_slow-Sound : (k : Kcp) → Sound k → Holds Sound (grow_slow k)
unfolding grow_slow
grow_slow-Sound k h =
    bind-Holds (λ n. Unit {0}) Sound
      (checked_div (u32 (k.mss * k.mss)) (if ltb k.incr k.mss then k.mss else k.incr)) _
      (div_Holds _ _ (at_least k.incr k.mss h.0)) (λ share _. h)

grow_cwnd-Sound : (k : Kcp) → Sound k → Holds Sound (grow_cwnd k)
unfolding grow_cwnd clamp_cwnd
grow_cwnd-Sound k h =
    bind-Holds Sound Sound _ _
      (if-Holds Sound (ltb k.cwnd k.ssthresh) _ _ (λ _. h) (λ _. grow_slow-Sound k h))
      (λ k s. if-Sound (ltb k.rmt_wnd k.cwnd) _ _ s s)

abbrev pub ResultSound : Kcp × ℕ → Type 0
ResultSound p = Sound p.0

finish-Sound : (prev_una : ℕ) (t : Step) → StepSound t → Holds ResultSound (finish_input prev_una t)
unfolding finish_input
finish-Sound prev_una (stop k code) h = h
finish-Sound prev_una (go k acks) h =
    let k' = if acks.flag then parse_fastack acks.maxack k else k in
    let s =
      if-Sound acks.flag (parse_fastack acks.maxack k) k (parse_fastack-Sound acks.maxack k h) h in
    let grown : Result (Kcp × ℕ) = grow_cwnd k' >>= λ k. ok (k, 0) in
    if-Holds ResultSound (ltb prev_una k'.snd_una && ltb k'.cwnd k'.rmt_wnd) grown (ok (k', 0))
      (λ _.
        bind-Holds Sound ResultSound (grow_cwnd k') (λ k. ok (k, 0)) (grow_cwnd-Sound k' s)
          (λ k s. s))
      (λ _. s)

-- In an engine whose fragments have a positive size, whose waiting segments fit the receive window
-- and whose receive buffer ascends, `input` of any bytes returns a code, with neither a panic nor a
-- loop that does not end, and keeps all three.
pub input-Sound : (k : Kcp) (bytes : List ℕ) → Sound k → Holds ResultSound (input k bytes)
unfolding input
input-Sound k bytes h =
    bind-Holds StepSound ResultSound _ _ (loop-Sound (length bytes) bytes k _ (omega arith) h)
      (finish-Sound k.snd_una)
