-- ===== src/Mkcp/Input/Sorted.antt =====
-- The receive buffer stays sorted, without duplicates, and in front of no number that was delivered.
use v2ray.Prelude.{
  ℕ, suc, ◌+◌, ◌≤◌, ◌<◌, ◌≡◌, refl, Bool, true, false, ◌&&◌, ◌||◌, ◌⊎◌, inl, inr, Bool-cases, arith,
  List, [], ◌∷◌, ◌++◌, ltb, leb, ◌==◌, ==_iff, ltb→lt, ltb→le, if◌then◌else◌,
}
use v2ray.Mkcp.Segment.{Segment}
use v2ray.Mkcp.Kcp.{Kcp, u32}
use v2ray.Mkcp.Window.{move_loop, move_rcv_buf}
use v2ray.Mkcp.Input.{length, any_sn, insert_position, insert_at, parse_data}

-- Numbers ascend, from `low` at least.
abbrev pub Ascending : ℕ → List Segment → Type 0
Ascending low [] = Unit {0}
Ascending low (s ∷ ss) = (low ≤ s.sn) × Ascending (s.sn + 1) ss

lower : (low least : ℕ) (ss : List Segment) → least ≤ low → Ascending low ss → Ascending least ss
lower low least [] h a = tt
lower low least (s ∷ ss) h (a, rest) = (omega arith, rest)

strictly : (a b : ℕ) → a ≤ b → ((b ≡ a) → ⊥) → a + 1 ≤ b
strictly a b h k = ground arith

-- The three ways in which a position is found.
position_cases :
    (sn : ℕ) (s : Segment) (ss : List Segment)
    → ((0 < insert_position sn ss) × (insert_position sn (s ∷ ss) ≡ suc (insert_position sn ss)))
      ⊎ ((s.sn < sn) × (insert_position sn ss ≡ 0) × (insert_position sn (s ∷ ss) ≡ 1))
      ⊎ ((sn ≤ s.sn) × (insert_position sn ss ≡ 0) × (insert_position sn (s ∷ ss) ≡ 0))
unfolding insert_position
position_cases sn s ss = elim (Bool-cases (ltb 0 (insert_position sn ss))) [
  | inl later ↦ inl (ltb→lt 0 (insert_position sn ss) later, rw later (omega arith))
  | inr last ↦
      let none_later = ltb→le 0 (insert_position sn ss) last in
      elim (Bool-cases (ltb s.sn sn)) [
        | inl smaller ↦ inr (inl (ltb→lt s.sn sn smaller, omega arith, rw (last, smaller) refl))
        | inr greater ↦ inr (inr (ltb→le s.sn sn greater, omega arith, rw (last, greater) refl))
      ]
]

no_position : (sn : ℕ) → insert_position sn [] ≡ 0
unfolding insert_position
no_position sn = refl

above_low :
    (sn low : ℕ) (ss : List Segment) → 0 < insert_position sn ss → Ascending low ss → low < sn
above_low sn low [] h a = absurd (omega (arith, no_position sn))
above_low sn low (s ∷ ss) h (a, rest) = elim (position_cases sn s ss) [
  | inl (later, e) ↦ (let k = above_low sn (s.sn + 1) ss later rest in omega arith)
  | inr (inl (smaller, e, p)) ↦ omega arith
  | inr (inr (greater, e, p)) ↦ absurd (omega arith)
]

pub or_false : (a b : Bool) → (a || b) ≡ false → (a ≡ false) × (b ≡ false)
or_false a b h = (ground arith, ground arith)

differ : (a b : ℕ) → (a == b) ≡ false → (a ≡ b) → ⊥
differ a b h e = ground arith

not_equal :
    (sn : ℕ) (s : Segment) (ss : List Segment)
    → any_sn sn (s ∷ ss) ≡ false
    → ((s.sn ≡ sn) → ⊥) × (any_sn sn ss ≡ false)
unfolding any_sn
not_equal sn s ss h =
    let (other, fresh) = or_false (s.sn == sn) (any_sn sn ss) h in (differ s.sn sn other, fresh)

-- In front of a list without smaller numbers and without the number.
all_above :
    (sn low : ℕ) (ss : List Segment)
    → insert_position sn ss ≡ 0
    → any_sn sn ss ≡ false
    → Ascending low ss
    → Ascending (sn + 1) ss
all_above sn low [] e h a = tt
all_above sn low (s ∷ ss) e h (a, rest) =
    let (other, fresh) = not_equal sn s ss h in
    elim (position_cases sn s ss) [
      | inl (later, p) ↦ absurd (omega arith)
      | inr (inl (smaller, z, p)) ↦ absurd (omega arith)
      | inr (inr (greater, z, p)) ↦ (strictly sn s.sn greater other, rest)
    ]

pub insert-Ascending :
    (seg : Segment) (low : ℕ) (ss : List Segment)
    → low ≤ seg.sn
    → any_sn seg.sn ss ≡ false
    → Ascending low ss
    → Ascending low (insert_at (insert_position seg.sn ss) seg ss)
insert-Ascending seg low [] h fresh a = unfold insert_position in (h, tt)
insert-Ascending seg low (s ∷ ss) h fresh (a, rest) =
    let (other, later_fresh) = not_equal seg.sn s ss fresh in
    elim (position_cases seg.sn s ss) [
      | inl (later, p) ↦ rw p (
        a,
        insert-Ascending seg (s.sn + 1) ss
            (omega (arith, above_low seg.sn (s.sn + 1) ss later rest)) later_fresh rest,
      )
      | inr (inl (smaller, z, p)) ↦
          rw p (a, (omega arith, all_above seg.sn (s.sn + 1) ss z later_fresh rest))
      | inr (inr (greater, z, p)) ↦ rw p (h, (strictly seg.sn s.sn greater other, rest))
    ]

and_left : (a b : Bool) → (a && b) ≡ true → a ≡ true
and_left a b h = ground arith

pub move_loop-Ascending :
    (wnd : ℕ) (queue : List Segment) (next : ℕ) (buf : List Segment)
    → Ascending next buf
    → (let r = move_loop wnd queue next buf in Ascending r.2 r.1)
unfolding move_loop
move_loop-Ascending wnd queue next [] a = tt
move_loop-Ascending wnd queue next (s ∷ buf) (a, rest) =
    elim (Bool-cases (s.sn == next && ltb (length queue) wnd)) [
      | inl due ↦
          let e = (==_iff s.sn next).0 (and_left (s.sn == next) (ltb (length queue) wnd) due) in
          rw due (
            move_loop-Ascending wnd (queue ++ (s ∷ [])) (u32 (next + 1)) buf
              (lower (s.sn + 1) (u32 (next + 1)) buf (omega arith) rest))
      | inr waits ↦ rw waits (a, rest)
    ]

-- The invariant of the receive buffer.
abbrev pub Sorted : Kcp → Type 0
Sorted k = Ascending k.rcv_nxt k.rcv_buf

if-Sorted :
    (b : Bool) (x y : Kcp)
    → (b ≡ true → Sorted x)
    → (b ≡ false → Sorted y)
    → Sorted (if b then x else y)
if-Sorted true x y p q = p refl
if-Sorted false x y p q = q refl

-- If the numbers in the receive buffer ascend strictly from `rcv_nxt` at least, then they do after
-- `parse_data` of any segment.
pub parse_data-Sorted : (seg : Segment) (k : Kcp) → Sorted k → Sorted (parse_data seg k)
unfolding parse_data move_rcv_buf
parse_data-Sorted seg k h =
    if-Sorted (leb (u32 (k.rcv_nxt + k.rcv_wnd)) seg.sn || ltb seg.sn k.rcv_nxt) _ _ (λ _. h)
      λ inside.
        if-Sorted (any_sn seg.sn k.rcv_buf) _ _ (λ _. h)
          λ fresh.
            let low = ltb→le seg.sn k.rcv_nxt (or_false _ _ inside).1 in
            move_loop-Ascending k.rcv_wnd k.rcv_queue k.rcv_nxt
              (insert_at (insert_position seg.sn k.rcv_buf) seg k.rcv_buf)
              (insert-Ascending seg k.rcv_nxt k.rcv_buf low fresh h)
