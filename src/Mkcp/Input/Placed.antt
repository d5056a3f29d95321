-- ===== src/Mkcp/Input/Placed.antt =====
-- Where a segment that arrives is put: parse_data of mkcp/kcp.rs against a list that is sorted.
use v2ray.Prelude.{
  ℕ, zero, suc, ◌+◌, ◌≤◌, ◌<◌, ◌≡◌, refl, ap, Bool, true, false, ◌||◌, ◌⊎◌, inl, inr, Bool-cases,
  arith, List, [], ◌∷◌, ◌++◌, take, drop, leb, ltb, ◌==◌, ltb→le, ==_iff,
}
use v2ray.Mkcp.Segment.{Segment}
use v2ray.Mkcp.Kcp.{Kcp, u32}
use v2ray.Mkcp.Window.{move_rcv_buf}
use v2ray.Mkcp.Input.{any_sn, insert_position, parse_data}
use v2ray.Mkcp.Input.Sorted.{Ascending, Sorted, insert-Ascending, or_false}

-- A segment of that number waits.
abbrev pub Waits : ℕ → List Segment → Type 0
Waits sn [] = ⊥
Waits sn (s ∷ ss) = (s.sn ≡ sn) ⊎ Waits sn ss

any_sn-Waits : (sn : ℕ) (ss : List Segment) → any_sn sn ss ≡ true → Waits sn ss
unfolding any_sn
any_sn-Waits sn [] h = ground arith
any_sn-Waits sn (s ∷ ss) h = elim (Bool-cases (s.sn == sn)) [
  | inl same ↦ inl ((==_iff s.sn sn).0 same)
  | inr other ↦ inr (any_sn-Waits sn ss (rw other at h))
]

or_true : (a b : Bool) → (a || b) ≡ true → (a ≡ true) ⊎ (b ≡ true)
or_true true b h = inl refl
or_true false b h = inr h

at_least : (a b : ℕ) → leb a b ≡ true → a ≤ b
at_least a b h = ground arith

below : (a b : ℕ) → leb a b ≡ false → b < a
below a b h = ground arith

smaller : (a b : ℕ) → ltb a b ≡ true → a < b
smaller a b h = ground arith

parts : (n : ℕ) (ss : List Segment) → take n ss ++ drop n ss ≡ ss
parts zero ss = refl
parts (suc n) [] = refl
parts (suc n) (s ∷ ss) = ap (λ l. s ∷ l) (parts n ss)

-- The segment is refused, since its number lies outside the window or waits already.
abbrev pub IsRefused : Segment → Kcp → Type 0
IsRefused seg k =
    (parse_data seg k ≡ k)
    × ((seg.sn < k.rcv_nxt) ⊎ (u32 (k.rcv_nxt + k.rcv_wnd) ≤ seg.sn) ⊎ Waits seg.sn k.rcv_buf)

-- The segment stands between two parts of the buffer, at the place that keeps the numbers
-- ascending, and the segments that are due are moved.
abbrev pub IsPlaced : Segment → Kcp → Type 0
IsPlaced seg k =
    (seg.sn < u32 (k.rcv_nxt + k.rcv_wnd))
    × (front : List Segment) × (back : List Segment) × (front ++ back ≡ k.rcv_buf)
    × Ascending k.rcv_nxt (front ++ (seg ∷ back))
    × (parse_data seg k ≡ move_rcv_buf (record k { rcv_buf = front ++ (seg ∷ back) }))

-- For an engine whose receive buffer ascends strictly from `rcv_nxt` at least, `parse_data` either
-- leaves the engine as it is, and then the number of the segment is below `rcv_nxt`, or not below
-- the end of the window (the sum of `rcv_nxt` and the window, as a u32), or that of a segment in the
-- buffer; or the number is below the end of the window, and the segment is put between two parts
-- that the buffer is split into, such that the numbers ascend strictly from `rcv_nxt` at least, and
-- `move_rcv_buf` is called on that buffer, with nothing else of the engine changed.
pub parse_data-places : (seg : Segment) (k : Kcp) → Sorted k → IsRefused seg k ⊎ IsPlaced seg k
unfolding parse_data
parse_data-places seg k h =
    elim (Bool-cases (leb (u32 (k.rcv_nxt + k.rcv_wnd)) seg.sn || ltb seg.sn k.rcv_nxt)) [
      | inl outside ↦ inl (
        simp (parse_data, outside) refl,
        elim (or_true _ _ outside) [
          | inl behind ↦ inr (inl (at_least _ seg.sn behind))
          | inr early ↦ inl (smaller seg.sn k.rcv_nxt early)
        ],
      )
      | inr inside ↦
          let (below_end, above) = or_false _ _ inside in
          elim (Bool-cases (any_sn seg.sn k.rcv_buf)) [
            | inl known ↦ inl (
              simp (parse_data, inside, known) refl,
              inr (inr (any_sn-Waits seg.sn k.rcv_buf known)),
            )
            | inr fresh ↦
                let at = insert_position seg.sn k.rcv_buf in
                inr (
                  below _ seg.sn below_end,
                  take at k.rcv_buf,
                  drop at k.rcv_buf,
                  parts at k.rcv_buf,
                  insert-Ascending seg k.rcv_nxt k.rcv_buf (ltb→le seg.sn k.rcv_nxt above) fresh h,
                  simp (parse_data, inside, fresh) refl,
                )
          ]
    ]
