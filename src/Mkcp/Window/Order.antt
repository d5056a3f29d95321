-- ===== src/Mkcp/Window/Order.antt =====
-- `move_rcv_buf` delivers segments in the order of their numbers.
use v2ray.Prelude.{
  ◌∙◌, ℕ, ◌+◌, ◌≡◌, refl, sym, ap, Bool, true, false, ◌&&◌, inl, inr, Bool-cases, arith, List, [],
  ◌∷◌, ◌++◌, length, append-nil, append_assoc, ltb, ◌==◌, ==_iff,
}
use v2ray.Mkcp.Segment.{Segment}
use v2ray.Mkcp.Kcp.{Kcp, u32}
use v2ray.Mkcp.Window.{move_loop, move_rcv_buf}

-- The segments carry the numbers from `first` on.
abbrev pub Consecutive : ℕ → List Segment → Type 0
Consecutive first [] = Unit {0}
Consecutive first (s ∷ ss) = (s.sn ≡ first) × Consecutive (u32 (first + 1)) ss

-- The number that follows as many.
abbrev pub advance : ℕ → List Segment → ℕ
advance first [] = first
advance first (s ∷ ss) = advance (u32 (first + 1)) ss

-- The front of the buffer is not due, or the queue is full.
abbrev pub Blocked : ℕ → ℕ → ℕ → List Segment → Type 0
Blocked wnd waiting next [] = Unit {0}
Blocked wnd waiting next (s ∷ ss) = (s.sn == next && ltb waiting wnd) ≡ false

-- What was moved from the buffer to the queue.
abbrev pub Moved : ℕ → List Segment → ℕ → List Segment → List Segment → List Segment → ℕ → Type 0
Moved wnd queue next buf queue' buf' next' =
    (moved : List Segment) × (queue' ≡ queue ++ moved)
    × (buf ≡ moved ++ buf')
    × Consecutive next moved
    × (next' ≡ advance next moved)
    × Blocked wnd (length queue') next' buf'

and_left : (a b : Bool) → (a && b) ≡ true → a ≡ true
and_left a b h = ground arith

move_loop-Moved :
    (wnd : ℕ) (queue : List Segment) (next : ℕ) (buf : List Segment)
    → (let r = move_loop wnd queue next buf in Moved wnd queue next buf r.0 r.1 r.2)
unfolding move_loop
move_loop-Moved wnd queue next [] = ([], sym (append-nil queue), refl, tt, refl, tt)
move_loop-Moved wnd queue next (s ∷ buf) =
    elim (Bool-cases (s.sn == next && ltb (length queue) wnd)) [
      | inl due ↦
          let (moved, q, b, c, n, stop) =
            move_loop-Moved wnd (queue ++ (s ∷ [])) (u32 (next + 1)) buf in
          rw due (
            s ∷ moved,
            q ∙ append_assoc queue (s ∷ []) moved,
            ap (◌∷◌ s) b,
            ((==_iff s.sn next).0 (and_left _ _ due), c),
            n,
            stop,
          )
      | inr waits ↦ rw waits ([], sym (append-nil queue), refl, tt, refl, waits)
    ]

-- `move_rcv_buf` moves a first part of the buffer to the end of the queue: the segments that carry
-- the numbers from `rcv_nxt` on. `rcv_nxt` becomes the number that follows them, and it stops only
-- where the buffer is empty, its front carries another number, or the queue fills the window.
pub move_rcv_buf-Moved :
    (k : Kcp)
    → Moved k.rcv_wnd k.rcv_queue k.rcv_nxt k.rcv_buf
        (move_rcv_buf k).rcv_queue
        (move_rcv_buf k).rcv_buf
        (move_rcv_buf k).rcv_nxt
unfolding move_rcv_buf
move_rcv_buf-Moved k = move_loop-Moved k.rcv_wnd k.rcv_queue k.rcv_nxt k.rcv_buf
