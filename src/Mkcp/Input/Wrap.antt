-- ===== src/Mkcp/Input/Wrap.antt =====
-- The receive window at the end of the sequence numbers.
use v2ray.Prelude.{◌+◌, ◌%◌, ◌^◌, ◌≤◌, ◌<◌, ◌≡◌, refl, arith, le→ltb}
use v2ray.Mkcp.Segment.{Segment}
use v2ray.Mkcp.Kcp.{Kcp}
use v2ray.Mkcp.Input.{on_push}

-- A data segment that carries the very number that is due is dropped once the receive window
-- reaches past 2^32: the state does not change and nothing is acknowledged.
pub on_push-wrapped :
    (seg : Segment) (k : Kcp)
    → seg.sn ≡ k.rcv_nxt
    → k.rcv_nxt < 2 ^ 32
    → k.rcv_wnd < 2 ^ 16
    → 2 ^ 32 ≤ k.rcv_nxt + k.rcv_wnd
    → on_push seg k ≡ k
unfolding on_push
on_push-wrapped seg k e small wnd h =
    rw (le→ltb seg.sn ((k.rcv_nxt + k.rcv_wnd) % 2 ^ 32) (omega arith)) refl
