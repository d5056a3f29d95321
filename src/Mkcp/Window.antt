-- ===== src/Mkcp/Window.antt =====
-- Messages in and out of the engine: `recv`, `send` and the receive window of mkcp/kcp.rs.
pub mod Fragments
pub mod Messages
pub mod Order
pub mod Waiting
use Prim.Native.Nat.{bit_or, min}
use v2ray.Prelude.{
  ℕ, zero, suc, ◌+◌, ◌-◌, ◌*◌, ◌/◌, ◌%◌, ◌^◌, Bool, true, false, not, ◌&&◌, List, [], ◌∷◌, ◌++◌,
  length, take, drop, ltb, leb, ◌==◌, if◌then◌else◌,
}
use v2ray.Common.Result.{Result, ok, panic, ◌>>=◌}
use v2ray.Mkcp.Segment.{Segment, new_segment, cmd_push}
use v2ray.Mkcp.Kcp.{Kcp, u16, u32, minus, signed_less}

-- `move_rcv_buf`: the queue, the buffer and the next number, after the segments that are due.
unfoldable pub move_loop : ℕ → List Segment → ℕ → List Segment → List Segment × List Segment × ℕ
move_loop wnd queue next [] = (queue, [], next)
move_loop wnd queue next (s ∷ buf) =
    if s.sn == next && ltb (length queue) wnd
    then move_loop wnd (queue ++ (s ∷ [])) (u32 (next + 1)) buf
    else (queue, s ∷ buf, next)

unfoldable pub move_rcv_buf : Kcp → Kcp
move_rcv_buf k =
    let (queue, buf, next) = move_loop k.rcv_wnd k.rcv_queue k.rcv_nxt k.rcv_buf in
    record k { rcv_queue = queue; rcv_buf = buf; rcv_nxt = next }

unfoldable pub total : List Segment → ℕ
total [] = 0
total (s ∷ q) = length s.payload + total q

-- The sum of lengths as an `i32` wraps as the sum of the lengths does.
unfoldable pub peek : List Segment → ℕ
unfolding total
peek [] = minus 1
peek (s ∷ q) =
    if s.frg == 0
    then u32 (length s.payload)
    else if ltb (length (s ∷ q)) ((s.frg + 1) % 256)
    then minus 1
    else u32 (total (s ∷ q))

unfoldable pub peeksize : Kcp → ℕ
unfolding peek
peeksize k = peek k.rcv_queue

-- `buf[pos..pos + n].copy_from_slice(bytes)`
abbrev pub copy_at : List ℕ → ℕ → List ℕ → Result (List ℕ)
copy_at buf pos bytes =
    if ltb (length buf) (pos + length bytes)
    then panic
    else ok (take pos buf ++ (bytes ++ drop (pos + length bytes) buf))

unfoldable pub recv_loop : List Segment → List ℕ → ℕ → Result (List Segment × List ℕ × ℕ)
recv_loop [] buf pos = ok ([], buf, pos)
recv_loop (s ∷ q) buf pos = copy_at buf pos s.payload >>= λ buf.
    if s.frg == 0
    then ok (q, buf, pos + length s.payload)
    else recv_loop q buf (pos + length s.payload)

-- What `recv` does once the size is known to fit.
unfoldable pub recv_message : Kcp → List ℕ → Result (Kcp × List ℕ × ℕ)
unfolding recv_loop move_rcv_buf
recv_message k buf = do
  let recover = leb k.rcv_wnd (length k.rcv_queue)
  (queue, buf, pos) ← recv_loop k.rcv_queue buf 0
  let k = move_rcv_buf (record k { rcv_queue = queue })
  let probe = if recover && ltb (length k.rcv_queue) k.rcv_wnd then bit_or k.probe 2 else k.probe
  ok (record k { probe = probe }, buf, u32 pos)

-- The engine, the caller's buffer and the code that `recv` returns.
unfoldable pub recv : Kcp → List ℕ → Result (Kcp × List ℕ × ℕ)
unfolding recv_message peeksize
recv k buf =
    if length k.rcv_queue == 0
    then ok (k, buf, minus 1)
    else if signed_less (peeksize k) 0
    then ok (k, buf, minus 1)
    else if signed_less (u32 (length buf)) (peeksize k)
    then ok (k, buf, minus 2)
    else recv_message k buf

-- `left` counts the fragments that are still to be cut off.
unfoldable pub fragments : ℕ → ℕ → ℕ → List ℕ → List Segment
fragments conv mss zero rest = []
fragments conv mss (suc left) rest =
    let size = min (length rest) mss in
    (record (new_segment conv cmd_push) { frg = left % 256; payload = take size rest })
    ∷ fragments conv mss left (drop size rest)

-- `buf.len().div_ceil(mss)`
unfoldable pub div_ceil : ℕ → ℕ → Result ℕ
div_ceil n zero = panic
div_ceil n (suc m) = ok ((n + m) / suc m)

unfoldable pub send : Kcp → List ℕ → Result (Kcp × ℕ)
unfolding fragments div_ceil
send k [] = ok (k, minus 1)
send k (b ∷ bs) = div_ceil (length (b ∷ bs)) k.mss >>= λ count.
    if leb 256 count
    then ok (k, minus 2)
    else ok (record k { snd_queue = k.snd_queue ++ fragments k.conv k.mss count (b ∷ bs) }, 0)
