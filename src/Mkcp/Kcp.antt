-- ===== src/Mkcp/Kcp.antt =====
-- The engine's state: mkcp/kcp.rs.
use v2ray.Prelude.{ℕ, ◌+◌, ◌-◌, ◌%◌, ◌^◌, Bool, false, List, [], length, ltb, ◌==◌, if◌then◌else◌}
use v2ray.Mkcp.Segment.{Segment, overhead}

abbrev pub u16 : ℕ → ℕ
u16 n = n % 2 ^ 16

abbrev pub u32 : ℕ → ℕ
u32 n = n % 2 ^ 32

-- An `i32` is its two's complement.
abbrev pub minus : ℕ → ℕ
minus n = 2 ^ 32 - n

abbrev pub signed_less : ℕ → ℕ → Bool
signed_less a b = ltb (u32 (a + 2 ^ 31)) (u32 (b + 2 ^ 31))

abbrev pub rto_ndl : ℕ
rto_ndl = 30

abbrev pub rto_min : ℕ
rto_min = 100

abbrev pub rto_def : ℕ
rto_def = 200

abbrev pub rto_max : ℕ
rto_max = 60000

abbrev pub wnd_snd : ℕ
wnd_snd = 32

abbrev pub wnd_rcv : ℕ
wnd_rcv = 128

abbrev pub thresh_min : ℕ
thresh_min = 2

abbrev pub thresh_init : ℕ
thresh_init = 2

abbrev pub probe_init : ℕ
probe_init = 7000

abbrev pub probe_limit : ℕ
probe_limit = 120000

abbrev pub dead_link_limit : ℕ
dead_link_limit = 20

pub record Kcp : Type 0 where
  pub conv : ℕ
  pub mtu : ℕ
  pub mss : ℕ
  pub state : ℕ
  pub snd_una : ℕ
  pub snd_nxt : ℕ
  pub rcv_nxt : ℕ
  pub ssthresh : ℕ
  pub rx_rttval : ℕ
  pub rx_srtt : ℕ
  pub rx_rto : ℕ
  pub rx_minrto : ℕ
  pub snd_wnd : ℕ
  pub rcv_wnd : ℕ
  pub rmt_wnd : ℕ
  pub cwnd : ℕ
  pub probe : ℕ
  pub current : ℕ
  pub interval : ℕ
  pub ts_flush : ℕ
  pub xmit : ℕ
  pub nodelay : Bool
  pub updated : Bool
  pub ts_probe : ℕ
  pub probe_wait : ℕ
  pub dead_link : ℕ
  pub incr : ℕ
  pub snd_queue : List Segment
  pub rcv_queue : List Segment
  pub snd_buf : List Segment
  pub rcv_buf : List Segment
  pub acklist : List (ℕ × ℕ)
  pub fastresend : ℕ
  pub nocwnd : Bool

abbrev pub new_kcp : ℕ → Kcp
new_kcp conv = record {
  conv = conv;
  mtu = 1400;
  mss = 1400 - overhead;
  state = 0;
  snd_una = 0;
  snd_nxt = 0;
  rcv_nxt = 0;
  ssthresh = thresh_init;
  rx_rttval = 0;
  rx_srtt = 0;
  rx_rto = rto_def;
  rx_minrto = rto_min;
  snd_wnd = wnd_snd;
  rcv_wnd = wnd_rcv;
  rmt_wnd = wnd_rcv;
  cwnd = 0;
  probe = 0;
  current = 0;
  interval = 100;
  ts_flush = 100;
  xmit = 0;
  nodelay = false;
  updated = false;
  ts_probe = 0;
  probe_wait = 0;
  dead_link = dead_link_limit;
  incr = 0;
  snd_queue = [];
  rcv_queue = [];
  snd_buf = [];
  rcv_buf = [];
  acklist = [];
  fastresend = 0;
  nocwnd = false;
}

abbrev pub set_nodelay : Bool → Kcp → Kcp
set_nodelay nodelay k = record k {
  nodelay = nodelay;
  rx_minrto = if nodelay then rto_ndl else rto_min;
}

abbrev pub set_wndsize : ℕ → ℕ → Kcp → Kcp
set_wndsize snd rcv k = record k {
  snd_wnd = if ltb 0 snd then snd else k.snd_wnd;
  rcv_wnd = if ltb 0 rcv then rcv else k.rcv_wnd;
}

abbrev pub is_dead : Kcp → Bool
is_dead k = k.state == minus 1

-- `self.rcv_wnd.saturating_sub(self.rcv_queue.len() as u16)`
abbrev pub wnd_unused : Kcp → ℕ
wnd_unused k = k.rcv_wnd - u16 (length k.rcv_queue)
