-- ===== src/Runs/Mkcp.antt =====
-- mKCP on concrete inputs.
use v2ray.Prelude.{◌⊎◌, ◌≤◌, ◌≡◌, refl, arith, some, List, [], ◌∷◌, ◌++◌, length, drop}
use v2ray.Common.Result.{ok}
use v2ray.Common.Result.Holds.{Holds}
use v2ray.Mkcp.Segment.{Segment, new_segment, cmd_push, encode, decode}
use v2ray.Mkcp.Segment.RoundTrip.{received, decode-encode}
use v2ray.Mkcp.Kcp.{Kcp, new_kcp}
use v2ray.Mkcp.Window.{send, recv, move_rcv_buf}
use v2ray.Mkcp.Window.Messages.{recv-send}
use v2ray.Mkcp.Input.{input, on_push}
use v2ray.Mkcp.Input.Wrap.{on_push-wrapped}
use v2ray.Mkcp.Input.Sorted.{Sorted}
use v2ray.Mkcp.Input.Placed.{IsRefused, IsPlaced, parse_data-places}
use v2ray.Mkcp.Window.Order.{Moved, move_rcv_buf-Moved}
use v2ray.Mkcp.Flush.{flush, update}
use v2ray.Mkcp.Sound.{ResultSound}
use v2ray.Mkcp.Sound.Reachable.{Reachable, start, clocked, flushed, input-Reachable}
use v2ray.Runs.Values.{hello, sixteen}

abbrev segment : Segment
segment = record (new_segment 7 cmd_push) { sn = 4; ts = 1000; wnd = 128; payload = hello }

decode-encode_example : decode (encode segment ++ sixteen) ≡ some (received segment, sixteen)
decode-encode_example =
    decode-encode segment sixteen
      (omega arith, omega arith, omega arith, omega arith, omega arith, omega arith)

recv-send_example :
    (fs : List Segment) × (send (new_kcp 7) hello ≡ ok (record (new_kcp 7) { snd_queue = fs }, 0))
    × (r' : Kcp) × (recv (record (new_kcp 7) { rcv_queue = fs }) sixteen
        ≡ ok (r', hello ++ drop 2 sixteen, 2))
recv-send_example =
    recv-send (new_kcp 7) (new_kcp 7) b'h' (b'i' ∷ []) sixteen (omega arith) (omega arith)
      (omega arith) (omega arith)

abbrev waiting : Kcp
waiting = record (new_kcp 7) { rcv_buf = record segment { sn = 1 } ∷ segment ∷ [] }

parse_data-places_example :
    IsRefused (record segment { sn = 0 }) waiting ⊎ IsPlaced (record segment { sn = 0 }) waiting
parse_data-places_example =
    parse_data-places (record segment { sn = 0 }) waiting (omega arith, (omega arith, tt))

abbrev due : Kcp
due = record (new_kcp 7) { rcv_buf = record segment { sn = 0 } ∷ segment ∷ [] }

move_rcv_buf-Moved_example :
    Moved 128 [] 0 due.rcv_buf
      (move_rcv_buf due).rcv_queue
      (move_rcv_buf due).rcv_buf
      (move_rcv_buf due).rcv_nxt
move_rcv_buf-Moved_example = move_rcv_buf-Moved due

in_use : Reachable 7 (flush (update 5 (new_kcp 7))).0
in_use = flushed (clocked 5 start)

input-Reachable_example :
    (length (flush (update 5 (new_kcp 7))).0.rcv_queue ≤ (flush (update 5 (new_kcp 7))).0.rcv_wnd)
    × Sorted (flush (update 5 (new_kcp 7))).0
    × Holds ResultSound (input (flush (update 5 (new_kcp 7))).0 hello)
input-Reachable_example = input-Reachable hello in_use

abbrev late : Kcp
late = record (new_kcp 7) { rcv_nxt = 4294967290 }

on_push-wrapped_example : on_push (record segment { sn = 4294967290 }) late ≡ late
on_push-wrapped_example =
    on_push-wrapped (record segment { sn = 4294967290 }) late refl (omega arith) (omega arith)
      (omega arith)
