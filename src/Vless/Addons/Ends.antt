-- ===== src/Vless/Addons/Ends.antt =====
-- Where no declared length wraps, `parse_flow_from_addons` ends with a flow in UTF-8.
use v2ray.Prelude.{
  ltb→lt, take, ltb→le, le→leb, ℕ, zero, suc, ◌+◌, ◌-◌, ◌%◌, ◌^◌, ◌≤◌, ◌<◌, ◌≡◌, refl, List, [],
  Bool, true, false, Option, some, none,
}
use v2ray.Prelude.{arith, ltb, ◌==◌, if◌then◌else◌, length, drop, is_utf8, Bool-cases, inl, inr}
use v2ray.Common.Result.{Result, ok}
use v2ray.Vless.Varint.{read_varint}
use v2ray.Vless.Varint.Cursor.{read_varint_takes}
use v2ray.Vless.Addons.{
  field, delimited, skip_varint, saturating_add, parse_flow_loop, parse_flow_from_addons,
}

-- Every number in the addons leaves room above the cursor.
abbrev pub NoWrap : List ℕ → Type 0
NoWrap xs = (c v c' : ℕ) → read_varint xs c ≡ (some v, c') → v + length xs < 2 ^ 64

abbrev pub Found : Result (List ℕ) → Type 0
Found r = (flow : List ℕ) × (r ≡ ok flow) × (is_utf8 flow ≡ true)

Found-nothing : Found (ok [])
unfolding is_utf8
Found-nothing = ([], refl, refl)

if-Found : (b : Bool) (x y : Result (List ℕ)) → Found x → Found y → Found (if b then x else y)
if-Found true x y p q = p
if-Found false x y p q = q

module _ (again : ℕ → Result (List ℕ)) (xs : List ℕ) (c : ℕ) (small : length xs ≤ 255) where
  delimited-Found :
      (number len cursor : ℕ)
      → len + length xs < 2 ^ 64
      → c < cursor
      → cursor ≤ length xs
      → ((c' : ℕ) → c < c' → Found (again c'))
      → Found (delimited again xs number (some len, cursor))
  unfolding delimited
  delimited-Found number len cursor fits above inside next =
      let e : (cursor + len) % 2 ^ 64 ≡ cursor + len = omega arith in
      rw e (elim (Bool-cases (ltb (length xs) (cursor + len))) [
        | inl past ↦ rw past Found-nothing
        | inr within ↦ rw within (elim (Bool-cases (number == 1)) [
          | inl flow ↦
              rw
                (
                  flow,
                  le→leb cursor (cursor + len) (omega arith),
                  le→leb (cursor + len) (length xs) (ltb→le (length xs) (cursor + len) within),
                )
                (elim (Bool-cases (is_utf8 (take (cursor + len - cursor) (drop cursor xs)))) [
                  | inl valid ↦ (take (cursor + len - cursor) (drop cursor xs), rw valid, valid)
                  | inr invalid ↦ rw invalid (next (cursor + len) (omega arith))
                ])
          | inr other ↦ rw other (next (cursor + len) (omega arith))
        ])
      ])

  delimited_read :
      (number cursor : ℕ) (read : Option ℕ × ℕ)
      → read_varint xs cursor ≡ read
      → NoWrap xs
      → c < cursor
      → cursor ≤ length xs
      → ((c' : ℕ) → c < c' → Found (again c'))
      → Found (delimited again xs number read)
  delimited_read number cursor (none, c') e w above inside next = unfold delimited in Found-nothing
  delimited_read number cursor (some len, c') e w above inside next =
      let (moved, ends) = read_varint_takes xs cursor len c' inside e in
      delimited-Found number len c' (w cursor len c' e) (omega arith) ends next

  skip_read :
      (cursor : ℕ) (read : Option ℕ × ℕ)
      → read_varint xs cursor ≡ read
      → c < cursor
      → cursor ≤ length xs
      → ((c' : ℕ) → c < c' → Found (again c'))
      → Found (skip_varint again read)
  unfolding skip_varint
  skip_read cursor (none, c') e above inside next = Found-nothing
  skip_read cursor (some v, c') e above inside next =
      let (moved, ends) = read_varint_takes xs cursor v c' inside e in next c' (omega arith)

  past : (c' n : ℕ) → c < c' → c' ≤ length xs → c < saturating_add c' n
  unfolding saturating_add
  past c' n moved ends = omega arith

  field-Found :
      (read : Option ℕ × ℕ)
      → read_varint xs c ≡ read
      → NoWrap xs
      → c ≤ length xs
      → ((c' : ℕ) → c < c' → Found (again c'))
      → Found (field again xs read)
  unfolding field
  field-Found (none, c') e w h next = Found-nothing
  field-Found (some tag, c') e w h next =
      let (moved, ends) = read_varint_takes xs c tag c' h e in
      elim (Bool-cases (tag % 8 == 2)) [
        | inl two ↦ rw two (delimited_read _ c' (read_varint xs c') refl w moved ends next)
        | inr not_two ↦ rw not_two (elim (Bool-cases (tag % 8 == 0)) [
          | inl zero_type ↦ rw zero_type (skip_read c' (read_varint xs c') refl moved ends next)
          | inr not_zero ↦ rw not_zero (
              if-Found _ _ _ (next _ (past c' 8 moved ends))
                (if-Found _ _ _ (next _ (past c' 4 moved ends)) Found-nothing))
        ])
      ]

parse_loop-Found :
    (fuel : ℕ) (xs : List ℕ) (c : ℕ)
    → length xs ≤ 255
    → NoWrap xs
    → length xs - c < fuel
    → Found (parse_flow_loop fuel xs c)
unfolding parse_flow_loop
parse_loop-Found zero xs c small w h = elim h [ ]
parse_loop-Found (suc fuel) xs c small w h = elim (Bool-cases (ltb c (length xs))) [
  | inl more ↦
      let inside = ltb→lt c (length xs) more in
      rw more (
        field-Found (λ c'. parse_flow_loop fuel xs c') xs c small (read_varint xs c) refl w
          (omega arith) (λ c' moved. parse_loop-Found fuel xs c' small w (omega arith)))
  | inr done ↦ rw done Found-nothing
]

-- Addons of at most 255 bytes in which no number reaches 2^64 less their length are parsed to the
-- end: the result is a flow in UTF-8, and neither a panic nor a loop without end.
pub parse_flow-Found :
    (xs : List ℕ) → length xs ≤ 255 → NoWrap xs → Found (parse_flow_from_addons xs)
unfolding parse_flow_from_addons
parse_flow-Found xs small w = parse_loop-Found (suc (length xs)) xs 0 small w (omega arith)
