-- ===== src/Mkcp/Sound/Reachable.antt =====
-- The states of an engine in use, and that `input` is safe in each of them.
use v2ray.Prelude.{
  ℕ, ◌+◌, ◌≤◌, ◌≡◌, subst, arith, Bool, true, false, not, List, [], ◌∷◌, ◌++◌, length, ltb, leb,
  ◌==◌, if◌then◌else◌,
}
use v2ray.Common.Result.{Result, ok, err, panic, stuck, ◌>>=◌}
use v2ray.Common.Result.Holds.{Holds}
use v2ray.Mkcp.Segment.{cmd_wins, cmd_wask, Segment}
use v2ray.Mkcp.Input.Sorted.{Sorted}
use v2ray.Mkcp.Kcp.{u32, signed_less, Kcp, new_kcp, set_nodelay, set_wndsize}
use v2ray.Mkcp.Window.{copy_at, send, recv, recv_message, recv_loop, div_ceil, peeksize}
use v2ray.Mkcp.Input.{input}
use v2ray.Mkcp.Flush.{
  send_loop, probe_packet, flush_buf, ack_packets, send_window, update, flush, fill_buf,
  probe_window, after_sending,
}
use v2ray.Mkcp.Sound.{Sound, ResultSound, input-Sound, move-Sound, if-Sound}

-- What is true of a value, if the call returns one.
abbrev IfOk {ℓ} : {A : Type ℓ} → (A → Type 0) → Result A → Type 0
IfOk P (ok a) = P a
IfOk P (err e) = Unit {0}
IfOk P panic = Unit {0}
IfOk P stuck = Unit {0}

bind-IfOk {ℓ κ} :
    {A : Type ℓ} {B : Type κ} (P : A → Type 0) (Q : B → Type 0) (m : Result A) (f : A → Result B)
    → IfOk P m
    → ((a : A) → P a → IfOk Q (f a))
    → IfOk Q (m >>= f)
bind-IfOk P Q (ok a) f h k = k a h
bind-IfOk P Q (err e) f h k = tt
bind-IfOk P Q panic f h k = tt
bind-IfOk P Q stuck f h k = tt

if-IfOk {ℓ} :
    {A : Type ℓ} (P : A → Type 0) (b : Bool) (x y : Result A)
    → IfOk P x
    → IfOk P y
    → IfOk P (if b then x else y)
if-IfOk P true x y p q = p
if-IfOk P false x y p q = q

always {ℓ} : {A : Type ℓ} (m : Result A) → IfOk (λ a. Unit {0}) m
always (ok a) = tt
always (err e) = tt
always panic = tt
always stuck = tt

abbrev Shorter : List Segment → List Segment × List ℕ × ℕ → Type 0
Shorter q r = length r.0 ≤ length q

weaken :
    (s : Segment) (q : List Segment) (m : Result (List Segment × List ℕ × ℕ))
    → IfOk (Shorter q) m
    → IfOk (Shorter (s ∷ q)) m
weaken s q (ok r) h = omega arith
weaken s q (err e) h = tt
weaken s q panic h = tt
weaken s q stuck h = tt

loop-Shorter : (q : List Segment) (buf : List ℕ) (pos : ℕ) → IfOk (Shorter q) (recv_loop q buf pos)
unfolding recv_loop
loop-Shorter [] buf pos = omega arith
loop-Shorter (s ∷ q) buf pos =
    let n : ℕ = pos + length s.payload in
    let next : List ℕ → Result (List Segment × List ℕ × ℕ) =
      λ buf. if s.frg == 0 then ok (q, buf, n) else recv_loop q buf n in
    bind-IfOk (λ b. Unit {0}) (Shorter (s ∷ q)) (copy_at buf pos s.payload) next
      (always (copy_at buf pos s.payload))
      (λ buf _.
        if-IfOk (Shorter (s ∷ q)) (s.frg == 0) (ok (q, buf, n)) (recv_loop q buf n) (omega arith)
          (weaken s q (recv_loop q buf n) (loop-Shorter q buf n)))

abbrev Received : Kcp × List ℕ × ℕ → Type 0
Received r = Sound r.0

message-Sound : (k : Kcp) (buf : List ℕ) → Sound k → IfOk Received (recv_message k buf)
unfolding recv_message
message-Sound k buf h =
    bind-IfOk (Shorter k.rcv_queue) Received (recv_loop k.rcv_queue buf 0) _
      (loop-Shorter k.rcv_queue buf 0)
      (λ r short. move-Sound (record k { rcv_queue = r.0 }) (h.0, omega arith, h.2))

recv-Sound : (k : Kcp) (buf : List ℕ) → Sound k → IfOk Received (recv k buf)
unfolding recv
recv-Sound k buf h = if-IfOk Received (length k.rcv_queue == 0) _ _ h (
    if-IfOk Received (signed_less (peeksize k) 0) _ _ h (
      if-IfOk Received (signed_less (u32 (length buf)) (peeksize k)) _ _ h (message-Sound k buf h)))

send-Sound : (k : Kcp) (buf : List ℕ) → Sound k → IfOk ResultSound (send k buf)
unfolding send
send-Sound k [] h = h
send-Sound k (b ∷ bs) h =
    bind-IfOk (λ n. Unit {0}) ResultSound (div_ceil (length (b ∷ bs)) k.mss) _
      (always (div_ceil (length (b ∷ bs)) k.mss))
      (λ count _. if-IfOk ResultSound (leb 256 count) _ _ h h)

fill-Sound : (cwnd : ℕ) (queue : List Segment) (k : Kcp) → Sound k → Sound (fill_buf cwnd queue k)
unfolding fill_buf
fill-Sound cwnd [] k h = h
fill-Sound cwnd (s ∷ queue) k h =
    if-Sound (ltb k.snd_nxt (u32 (k.snd_una + cwnd))) _ _ (fill-Sound cwnd queue _ h) h

probe-Sound : (k : Kcp) → Sound k → Sound (probe_window k)
unfolding probe_window
probe-Sound k h =
    if-Sound (k.rmt_wnd == 0) _ _
      (if-Sound (k.probe_wait == 0) _ _ h (if-Sound (leb k.ts_probe k.current) _ _ h h)) h

after-Sound :
    (cwnd : ℕ) (change lost : Bool) (k : Kcp) → Sound k → Sound (after_sending cwnd change lost k)
unfolding after_sending
after-Sound cwnd true true k h = h
after-Sound cwnd true false k h = if-Sound _ _ _ h h
after-Sound cwnd false true k h = h
after-Sound cwnd false false k h = if-Sound _ _ _ h h

flush_buf-Sound :
    (cwnd : ℕ) (out : List (List ℕ)) (k : Kcp) → Sound k → Sound (flush_buf cwnd out k).0
unfolding flush_buf
flush_buf-Sound cwnd out k h =
    let (buf, sent) =
      send_loop k k.snd_buf
        (record { out = out; xmit = k.xmit; state = k.state; change = false; lost = false }) in
    after-Sound cwnd sent.change sent.lost
      (record k { snd_buf = buf; xmit = sent.xmit; state = sent.state }) h

if-First :
    (b : Bool) (x y : Kcp × List (List ℕ)) → Sound x.0 → Sound y.0 → Sound (if b then x else y).0
if-First true x y p q = p
if-First false x y p q = q

flush-Sound : (k : Kcp) → Sound k → Sound (flush k).0
unfolding flush
flush-Sound k h =
    let k1 = probe_window (record k { acklist = [] }) in
    let k2 = record k1 { probe = 0 } in
    let out =
      ack_packets k k.acklist ++ (probe_packet 1 cmd_wask k1 ++ probe_packet 2 cmd_wins k1) in
    let filled = fill_buf (send_window k2) k2.snd_queue k2 in
    if-First (not k.updated) (k, []) (flush_buf (send_window k2) out filled) h
      (flush_buf-Sound (send_window k2) out filled
        (fill-Sound (send_window k2) k2.snd_queue k2 (probe-Sound (record k { acklist = [] }) h)))

-- The states of the engine of one conversation, whatever the peer sends and the application does.
pub data Reachable (conv : ℕ) : Kcp → Type 0 where
  start : Reachable conv (new_kcp conv)
  sized : (snd rcv : ℕ) → Reachable conv (set_wndsize snd rcv (new_kcp conv))
  tuned : {k : Kcp} (nodelay : Bool) → Reachable conv k → Reachable conv (set_nodelay nodelay k)
  clocked : {k : Kcp} (now : ℕ) → Reachable conv k → Reachable conv (update now k)
  flushed : {k : Kcp} → Reachable conv k → Reachable conv (flush k).0
  fed :
      {k k' : Kcp} {code : ℕ} (bytes : List ℕ)
      → Reachable conv k
      → input k bytes ≡ ok (k', code)
      → Reachable conv k'
  sent :
      {k k' : Kcp} {code : ℕ} (message : List ℕ)
      → Reachable conv k
      → send k message ≡ ok (k', code)
      → Reachable conv k'
  taken :
      {k k' : Kcp} {code : ℕ} {out : List ℕ} (buf : List ℕ)
      → Reachable conv k
      → recv k buf ≡ ok (k', out, code)
      → Reachable conv k'

update-Sound : (now : ℕ) (k : Kcp) → Sound k → Sound (update now k)
unfolding update
update-Sound now k h = if-Sound k.updated _ _ h h

Reachable-Sound : {conv : ℕ} {k : Kcp} → Reachable conv k → Sound k
Reachable-Sound start = (omega arith, omega arith, tt)
Reachable-Sound (sized snd rcv) = (omega arith, omega arith, tt)
Reachable-Sound (tuned nodelay h) = Reachable-Sound h
Reachable-Sound (clocked {k = k} now h) = update-Sound now k (Reachable-Sound h)
Reachable-Sound (flushed {k = k} h) = flush-Sound k (Reachable-Sound h)
Reachable-Sound (fed {k = k} bytes h e) =
    subst (Holds ResultSound) e (input-Sound k bytes (Reachable-Sound h))
Reachable-Sound (sent {k = k} message h e) =
    subst (IfOk ResultSound) e (send-Sound k message (Reachable-Sound h))
Reachable-Sound (taken {k = k} buf h e) =
    subst (IfOk Received) e (recv-Sound k buf (Reachable-Sound h))

-- In every state that an engine reaches from its start, with the default windows or with those that
-- `set_wndsize` gives it first, by any sequence of `set_nodelay`, `update`, `flush`, `input`, `send`
-- and `recv`, the received segments that wait fit the receive window, the
-- numbers in the receive buffer ascend strictly from `rcv_nxt` at least, and `input` of any bytes
-- returns a code, with neither a panic nor a loop that does not end, and leaves an engine of which
-- the same holds.
pub input-Reachable :
    {conv : ℕ} {k : Kcp} (bytes : List ℕ)
    → Reachable conv k
    → (length k.rcv_queue ≤ k.rcv_wnd) × Sorted k × Holds ResultSound (input k bytes)
input-Reachable {k = k} bytes h =
    ((Reachable-Sound h).1, (Reachable-Sound h).2, input-Sound k bytes (Reachable-Sound h))
