-- ===== src/Runs/Window.antt =====
-- The receive queue of mKCP on concrete inputs.
use v2ray.Prelude.{◌≡◌, refl, arith, [], ◌∷◌, ◌++◌}
use v2ray.Common.Result.{ok}
use v2ray.Mkcp.Segment.{Segment, new_segment, cmd_push}
use v2ray.Mkcp.Kcp.{Kcp, new_kcp, minus}
use v2ray.Mkcp.Window.{fragments, recv}
use v2ray.Mkcp.Window.Waiting.{recv-refuses}
use v2ray.Runs.Values.{hello}

abbrev behind : Segment
behind = record (new_segment 7 cmd_push) { payload = hello }

abbrev crowded : Kcp
crowded = record (new_kcp 7) { rcv_queue = fragments 7 2 2 (1 ∷ 2 ∷ 3 ∷ []) ++ (behind ∷ []) }

recv-refuses_example : recv crowded (0 ∷ 0 ∷ 0 ∷ 0 ∷ []) ≡ ok (crowded, 0 ∷ 0 ∷ 0 ∷ 0 ∷ [], minus 2)
recv-refuses_example =
    recv-refuses crowded 7 2 0 (1 ∷ 2 ∷ 3 ∷ []) (0 ∷ 0 ∷ 0 ∷ 0 ∷ []) behind refl
      (omega arith, omega arith, omega arith) (omega arith) (omega arith) (omega arith)
