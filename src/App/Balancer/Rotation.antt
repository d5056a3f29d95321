-- ===== src/App/Balancer/Rotation.antt =====
-- Round robin reaches every living member.
use native.Mathlib.Nat.{div-add-mod, mod-lt, mod-eq_of_lt, add-mul-mod_self_left}
use native.Mathlib.Decide.{dec_le}
use v2ray.Prelude.{
  ℕ, zero, suc, ◌+◌, ◌-◌, ◌*◌, ◌/◌, ◌%◌, ◌^◌, ◌<◌, ◌≡◌, refl, Option, some, List, [], ◌∷◌, arith,
  get_elem?,
}
use v2ray.Common.Result.{Result, ok, ◌>>=◌}
use v2ray.App.Balancer.State.{
  BalancerMember, OutboundState, Std, Balancer, round_robin, alive_count, nth_alive_index,
}
use v2ray.App.Balancer.Pick.{pick_slot, pick_member_index}
use v2ray.App.Balancer.Alive.{AliveAt, rank, rank-lt, nth_loop-rank}

remainder : (a q r m : ℕ) → r < a → m ≡ r + a * q → m % a ≡ r
remainder a q r m h e = rw (e, add-mul-mod_self_left r a q) (mod-eq_of_lt h)

-- Among `a` counters in a row there is one for every slot.
slot_reached : (a c r : ℕ) → r < a → (k : ℕ) × (k < a) × ((c + k) % a ≡ r)
slot_reached a c r h = elim (dec_le (c % a) r) [
  | yes le ↦
      let split = div-add-mod c a in
      (r - c % a, omega arith, remainder a (c / a) r _ h (omega arith))
  | no gt ↦
      let split = div-add-mod c a in
      let small = mod-lt c {m = a} (omega arith) in
      (r + a - c % a, omega arith, remainder a (c / a + 1) r _ h (omega arith))
]

-- What round robin picks from the counter `c` on.
slots : (List ℕ → Option OutboundState) → List BalancerMember → ℕ → ℕ → List (Option ℕ)
slots states ms zero c = []
slots states ms (suc n) c =
    nth_alive_index states ms (c % alive_count states ms) ∷ slots states ms n (c + 1)

slots-entry :
    (states : List ℕ → Option OutboundState) (ms : List BalancerMember) (n c k : ℕ)
    → k < n
    → get_elem? (slots states ms n c) k
      ≡ some (nth_alive_index states ms ((c + k) % alive_count states ms))
unfolding slots
slots-entry states ms zero c k lt = absurd (omega arith)
slots-entry states ms (suc n) c zero lt = let here : c + 0 ≡ c = omega arith in rw here refl
slots-entry states ms (suc n) c (suc k) lt =
    let step : c + suc k ≡ (c + 1) + k = omega arith in
    rw step (slots-entry states ms n (c + 1) k (omega arith))

module _ (f : Std) where
  -- The members that so many calls in a row pick, all at the same time.
  unfoldable pub picks : ℕ → Balancer f.F → ℕ → Result (List (Option ℕ))
  unfolding pick_member_index
  picks zero b now = ok []
  picks (suc n) b now = do
    (picked, b) ← pick_member_index f b now
    rest ← picks n b now
    ok (picked ∷ rest)

  pick-rotates :
      (b : Balancer f.F) (now : ℕ)
      → b.strategy ≡ round_robin
      → 0 < alive_count b.states b.members
      → b.rr_counter + 1 < 2 ^ 64
      → pick_member_index f b now
        ≡ ok (
          nth_alive_index b.states b.members (b.rr_counter % alive_count b.states b.members),
          record b { rr_counter = b.rr_counter + 1 },
        )
  unfolding pick_member_index pick_slot
  pick-rotates b now s some_alive fits = ground arith

  picks-slots :
      (b : Balancer f.F) (now n : ℕ)
      → b.strategy ≡ round_robin
      → 0 < alive_count b.states b.members
      → b.rr_counter + n < 2 ^ 64
      → picks n b now ≡ ok (slots b.states b.members n b.rr_counter)
  unfolding picks slots
  picks-slots b now zero s some_alive fits = refl
  picks-slots b now (suc n) s some_alive fits =
      rw
        (
          pick-rotates b now s some_alive (omega arith),
          picks-slots (record b { rr_counter = b.rr_counter + 1 }) now n s some_alive (omega arith),
        )
        refl

  -- With round robin, health that does not change and a counter that does not wrap meanwhile, every
  -- living member is among as many picks in a row as there are living members.
  pub picks-reach :
      (b : Balancer f.F) (now i : ℕ)
      → b.strategy ≡ round_robin
      → b.rr_counter + alive_count b.states b.members < 2 ^ 64
      → AliveAt b.states b.members i
      → (xs : List (Option ℕ)) × (k : ℕ) × (picks (alive_count b.states b.members) b now ≡ ok xs)
        × (get_elem? xs k ≡ some (some i))
  unfolding nth_alive_index
  picks-reach b now i s fits alive =
      let below = rank-lt b.states b.members i alive in
      let (k, lt, e) = slot_reached (alive_count b.states b.members) b.rr_counter _ below in
      (
        _,
        k,
        picks-slots b now _ s (omega arith) fits,
        rw
            (
              slots-entry b.states b.members _ b.rr_counter k lt,
              e,
              nth_loop-rank b.states b.members 0 0 (rank b.states b.members i) i alive
                  (omega arith),
            )
            (ground arith),
      )
