-- ===== src/Mkcp/Flush.antt =====
-- Segments to the peer: `update` and `flush` of mkcp/kcp.rs, and what they call.
use Prim.Native.Nat.{bit_or, bit_and, min, max}
use v2ray.Prelude.{
  ℕ, ◌+◌, ◌-◌, ◌*◌, ◌/◌, ◌^◌, Bool, true, false, not, ◌&&◌, List, [], ◌∷◌, ◌++◌, ltb, leb, ◌==◌,
  if◌then◌else◌,
}
use v2ray.Mkcp.Segment.{Segment, new_segment, encode, cmd_ack, cmd_push, cmd_wask, cmd_wins}
use v2ray.Mkcp.Kcp.{Kcp, u16, u32, minus, wnd_unused, probe_init, probe_limit, thresh_min}

unfoldable pub update : ℕ → Kcp → Kcp
update current k =
    let k = record k { current = current } in
    if k.updated then k else record k { updated = true; ts_flush = current }

unfoldable pub make_ctrl : ℕ → Kcp → Segment
make_ctrl cmd k = record (new_segment k.conv cmd) { wnd = wnd_unused k; una = k.rcv_nxt }

-- The acknowledgements, one packet for each entry of the list.
unfoldable pub ack_packets : Kcp → List (ℕ × ℕ) → List (List ℕ)
ack_packets k [] = []
ack_packets k ((sn, ts) ∷ rest) =
    encode (record (new_segment k.conv cmd_ack) {
      wnd = wnd_unused k;
      ts = ts;
      sn = sn;
      una = k.rcv_nxt;
    })
    ∷ ack_packets k rest

-- A longer wait for the peer's window to open.
wait_longer : ℕ → ℕ
wait_longer wait =
    let wait = if ltb wait probe_init then probe_init else wait in
    let wait = u32 (wait + wait / 2) in if ltb probe_limit wait then probe_limit else wait

unfoldable pub probe_window : Kcp → Kcp
unfolding wait_longer
probe_window k =
    if k.rmt_wnd == 0
    then (if k.probe_wait == 0
        then record k { probe_wait = probe_init; ts_probe = u32 (k.current + probe_init) }
        else if leb k.ts_probe k.current
        then (let wait = wait_longer k.probe_wait in
            record k {
              probe_wait = wait;
              ts_probe = u32 (k.current + wait);
              probe = bit_or k.probe 1;
            })
        else k)
    else record k { ts_probe = 0; probe_wait = 0 }

unfoldable pub probe_packet : ℕ → ℕ → Kcp → List (List ℕ)
unfolding make_ctrl
probe_packet bit cmd k = if bit_and k.probe bit == 0 then [] else encode (make_ctrl cmd k) ∷ []

unfoldable pub send_window : Kcp → ℕ
send_window k = let c = min k.snd_wnd k.rmt_wnd in if k.nocwnd then c else min c k.cwnd

-- A segment of the queue that gets its number.
unfoldable pub numbered : Kcp → Segment → Segment
numbered k s = record s {
  conv = k.conv;
  cmd = cmd_push;
  wnd = wnd_unused k;
  ts = k.current;
  sn = k.snd_nxt;
  una = k.rcv_nxt;
  resendts = k.current;
  rto = k.rx_rto;
  xmit = 0;
}

-- Segments move from the queue to the buffer while the window has room.
unfoldable pub fill_buf : ℕ → List Segment → Kcp → Kcp
unfolding numbered
fill_buf cwnd [] k = record k { snd_queue = [] }
fill_buf cwnd (s ∷ queue) k =
    if ltb k.snd_nxt (u32 (k.snd_una + cwnd))
    then fill_buf cwnd queue
        (record k { snd_nxt = u32 (k.snd_nxt + 1); snd_buf = k.snd_buf ++ (numbered k s ∷ []) })
    else record k { snd_queue = s ∷ queue }

-- What the loop over the buffer changes besides the segments.
pub record Sent : Type 0 where
  pub out : List (List ℕ)
  pub xmit : ℕ
  pub state : ℕ
  pub change : Bool
  pub lost : Bool

resent_of : Kcp → ℕ
resent_of k = if ltb 0 k.fastresend then k.fastresend else 2 ^ 32 - 1

-- The packet of a segment that is due.
send_now : Kcp → Segment → Sent → Segment × Sent
send_now k s sent =
    let s = record s { ts = k.current; wnd = wnd_unused k; una = k.rcv_nxt } in
    (
      s,
      record sent {
        out = sent.out ++ (encode s ∷ []);
        state = if leb k.dead_link s.xmit then minus 1 else sent.state;
      },
    )

-- One segment of the buffer: sent for the first time, again after its timeout, again after later
-- segments were acknowledged, or not yet.
unfoldable pub send_one : Kcp → Segment → Sent → Segment × Sent
unfolding send_now resent_of
send_one k s sent =
    let rtomin = if k.nodelay then 0 else k.rx_rto / 8 in
    if s.xmit == 0
    then send_now k
        (record s {
          xmit = 1;
          rto = k.rx_rto;
          resendts = u32 (u32 (k.current + k.rx_rto) + rtomin);
        })
        sent
    else if leb s.resendts k.current
    then (let rto = u32 (s.rto + (if k.nodelay then k.rx_rto / 2 else max k.rx_rto s.rto)) in
        send_now k
          (record s { xmit = u32 (s.xmit + 1); rto = rto; resendts = u32 (k.current + rto) })
          (record sent { xmit = u32 (sent.xmit + 1); lost = true }))
    else if leb (resent_of k) s.fastack && leb s.xmit k.fastresend
    then send_now k
        (record s { xmit = u32 (s.xmit + 1); fastack = 0; resendts = u32 (k.current + s.rto) })
        (record sent { change = true })
    else (s, sent)

unfoldable pub send_loop : Kcp → List Segment → Sent → List Segment × Sent
unfolding send_one
send_loop k [] sent = ([], sent)
send_loop k (s ∷ ss) sent =
    let (s, sent) = send_one k s sent in let (ss, sent) = send_loop k ss sent in (s ∷ ss, sent)

-- The congestion window after fast resends, after a loss, and at least 1.
unfoldable pub after_sending : ℕ → Bool → Bool → Kcp → Kcp
unfolding resent_of
after_sending cwnd change lost k =
    let k =
      if change
      then (let ssthresh = max (u16 (u32 (k.snd_nxt + 2 ^ 32 - k.snd_una) / 2)) thresh_min in
          let wnd = u16 (ssthresh + u16 (resent_of k)) in
          record k { ssthresh = ssthresh; cwnd = wnd; incr = u32 (wnd * k.mss) })
      else k in
    let k =
      if lost
      then record k { ssthresh = max (cwnd / 2) thresh_min; cwnd = 1; incr = k.mss }
      else k in
    if ltb k.cwnd 1 then record k { cwnd = 1; incr = k.mss } else k

-- The loop over the buffer, and what follows it.
unfoldable pub flush_buf : ℕ → List (List ℕ) → Kcp → Kcp × List (List ℕ)
unfolding send_loop after_sending
flush_buf cwnd out k =
    let (buf, sent) =
      send_loop k k.snd_buf
        (record { out = out; xmit = k.xmit; state = k.state; change = false; lost = false }) in
    let k = record k { snd_buf = buf; xmit = sent.xmit; state = sent.state } in
    (after_sending cwnd sent.change sent.lost k, sent.out)

-- The engine, and the packets that `flush` pushes.
unfoldable pub flush : Kcp → Kcp × List (List ℕ)
unfolding ack_packets probe_window probe_packet send_window fill_buf flush_buf
flush k =
    if not k.updated
    then (k, [])
    else (let acks = ack_packets k k.acklist in
        let k = probe_window (record k { acklist = [] }) in
        let probes = probe_packet 1 cmd_wask k ++ probe_packet 2 cmd_wins k in
        let k = record k { probe = 0 } in
        let cwnd = send_window k in flush_buf cwnd (acks ++ probes) (fill_buf cwnd k.snd_queue k))
