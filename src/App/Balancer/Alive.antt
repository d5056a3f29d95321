-- ===== src/App/Balancer/Alive.antt =====
-- The members that are alive, and the loop of `nth_alive_index` over them.
use v2ray.Prelude.{
  ℕ, zero, suc, ◌+◌, ◌≤◌, ◌<◌, ◌≡◌, true, Option, some, List, [], ◌∷◌, arith, length, take,
  get_elem?, ◌==◌, Bool-cases, inl, inr, ==_refl,
}
use v2ray.App.Balancer.State.{OutboundState, BalancerMember, is_alive, alive_count, nth_loop}

module _ (states : List ℕ → Option OutboundState) where
  -- The member with the index `i` is alive.
  abbrev pub AliveAt : List BalancerMember → ℕ → Type 0
  AliveAt [] i = ⊥
  AliveAt (m ∷ ms) zero = is_alive states m.outbound_tag ≡ true
  AliveAt (m ∷ ms) (suc i) = AliveAt ms i

  -- How many members in front of it are.
  unfoldable pub rank : List BalancerMember → ℕ → ℕ
  unfolding alive_count
  rank ms i = alive_count states (take i ms)

  pub AliveAt-within : (ms : List BalancerMember) (i : ℕ) → AliveAt ms i → i < length ms
  AliveAt-within [] i h = elim h [ ]
  AliveAt-within (m ∷ ms) zero h = omega arith
  AliveAt-within (m ∷ ms) (suc i) h = omega (arith, AliveAt-within ms i h)

  pub rank-lt :
      (ms : List BalancerMember) (i : ℕ) → AliveAt ms i → rank ms i < alive_count states ms
  unfolding alive_count rank
  rank-lt [] i h = elim h [ ]
  rank-lt (m ∷ ms) zero h = ground arith
  rank-lt (m ∷ ms) (suc i) h = ground (arith, rank-lt ms i h)

  -- The loop finds every living member at its rank.
  pub nth_loop-rank :
      (ms : List BalancerMember) (base idx n i : ℕ)
      → AliveAt ms i
      → n ≡ idx + rank ms i
      → nth_loop states ms base idx n ≡ some (base + i)
  unfolding nth_loop alive_count rank
  nth_loop-rank [] base idx n i h e = elim h [ ]
  nth_loop-rank (m ∷ ms) base idx n zero h e = ground (arith, ==_refl n)
  nth_loop-rank (m ∷ ms) base idx n (suc i) h e =
      elim (Bool-cases (is_alive states m.outbound_tag)) [
        | inl a ↦ ground (arith, nth_loop-rank ms (suc base) (suc idx) n i h)
        | inr d ↦ ground (arith, nth_loop-rank ms (suc base) idx n i h)
      ]

  -- For every slot there is a living member.
  pub nth_loop-finds :
      (ms : List BalancerMember) (base idx n : ℕ)
      → idx ≤ n
      → n < idx + alive_count states ms
      → (i : ℕ) × (nth_loop states ms base idx n ≡ some (base + i)) × AliveAt ms i
  unfolding nth_loop alive_count
  nth_loop-finds [] base idx n low high = absurd (omega arith)
  nth_loop-finds (m ∷ ms) base idx n low high = elim (Bool-cases (is_alive states m.outbound_tag)) [
    | inr d ↦
        let (i, e, h) = nth_loop-finds ms (suc base) idx n low (ground arith) in
        (suc i, ground arith, h)
    | inl a ↦ elim (Bool-cases (idx == n)) [
      | inl hit ↦ (0, ground arith, a)
      | inr miss ↦
          let (i, e, h) = nth_loop-finds ms (suc base) (suc idx) n (ground arith) (ground arith) in
          (suc i, ground arith, h)
    ]
  ]

  pub AliveAt-entry :
      (ms : List BalancerMember) (i : ℕ) (m : BalancerMember)
      → get_elem? ms i ≡ some m
      → is_alive states m.outbound_tag ≡ true
      → AliveAt ms i
  AliveAt-entry [] i m e a = ground arith
  AliveAt-entry (n ∷ ms) zero m e a = ground arith
  AliveAt-entry (n ∷ ms) (suc i) m e a = AliveAt-entry ms i m e a
