-- ===== src/App/Router/Disjoint.antt =====
-- Where the ranges do not overlap, the few that IpMatcher looks at are enough.
use v2ray.Prelude.{
  ℕ, zero, suc, ◌+◌, ◌-◌, ◌<◌, ◌≤◌, ◌≡◌, ◌↔◌, inl, inr, refl, ap, subst, Bool, true, none, some,
  List, [], ◌∷◌, arith, All, take, drop, get_elem?, Bool-cases,
}
use v2ray.Common.Address.{IpAddr}
use v2ray.App.Router.Ip
use v2ray.App.Router.Ip.{IpNet, any, partition_point, full_prefix}

-- Every two elements of the list, the one in front first.
abbrev pub Pairwise {ℓ κ} : {A : Type ℓ} → (A → A → Type κ) → List A → Type κ
Pairwise P [] = Unit
Pairwise P (x ∷ xs) = All (P x) xs × Pairwise P xs

module _ (n : IpNet) where
  -- What the documentation of ipnet says of the order of ranges and of the range of a single address,
  -- which `new` makes of the address and its full length.
  pub record IpNetLaws : Type 0 where
    pub probe : (ip : IpAddr) → (p : n.Net) × (n.new ip (full_prefix ip) ≡ some p)
    -- The range with the bits behind its prefix cleared.
    pub trunc : n.Net → n.Net
    pub le_trans : (a b c : n.Net) → n.le a b ≡ true → n.le b c ≡ true → n.le a c ≡ true
    -- Ranges are ordered by their address, and then by their prefix. The address of a range that is
    -- truncated is its first one, so that the range is not behind an address that it contains, and
    -- overlaps what stands between them.
    pub contains-le :
        (a p : n.Net) (ip : IpAddr)
        → trunc a ≡ a
        → n.new ip (full_prefix ip) ≡ some p
        → n.contains a ip ≡ true
        → n.le a p ≡ true
    pub between :
        (a b p : n.Net) (ip : IpAddr)
        → trunc a ≡ a
        → n.new ip (full_prefix ip) ≡ some p
        → n.contains a ip ≡ true
        → n.le a b ≡ true
        → n.le b p ≡ true
        → (q : IpAddr) × (n.contains a q ≡ true) × (n.contains b q ≡ true)

  -- `a` stands in front of `b`, and no address is in both.
  abbrev pub Apart : n.Net → n.Net → Type 0
  Apart a b = (n.le a b ≡ true) × ((q : IpAddr) → n.contains a q ≡ true → ¬ (n.contains b q ≡ true))

All_entry :
    {A : Type 0} (P : A → Type 0) (xs : List A) (i : ℕ) (x : A)
    → All P xs
    → get_elem? xs i ≡ some x
    → P x
All_entry P [] i x h e = ground arith
All_entry P (y ∷ ys) zero x h e = subst P (ap (λ o. elim o [ none ↦ y | some z ↦ z ]) e) h.0
All_entry P (y ∷ ys) (suc i) x h e = All_entry P ys i x h.1 e

module _ {A : Type 0} (f : A → Bool) where
  any-drop : (k : ℕ) (xs : List A) → any f (drop k xs) ≡ true → any f xs ≡ true
  any-drop zero xs h = h
  any-drop (suc k) [] h = h
  any-drop (suc k) (x ∷ xs) h = ground (arith, any-drop k xs)

  any-take : (k : ℕ) (xs : List A) → any f (take k xs) ≡ true → any f xs ≡ true
  any-take zero xs h = ground arith
  any-take (suc k) [] h = h
  any-take (suc k) (x ∷ xs) h = ground (arith, any-take k xs)

  -- An element in a part of the list is found there.
  any-part :
      (xs : List A) (low count i : ℕ) (x : A)
      → get_elem? xs i ≡ some x
      → f x ≡ true
      → low ≤ i
      → i < low + count
      → any f (take count (drop low xs)) ≡ true
  any-part [] low count i x e t l h = ground arith
  any-part (y ∷ ys) zero zero i x e t l h = absurd (omega arith)
  any-part (y ∷ ys) zero (suc count) zero x e t l h = ground arith
  any-part (y ∷ ys) zero (suc count) (suc i) x e t l h =
      ground (arith, any-part ys zero count i x e t)
  any-part (y ∷ ys) (suc low) count zero x e t l h = absurd (omega arith)
  any-part (y ∷ ys) (suc low) count (suc i) x e t l h =
      any-part ys low count i x e t (omega arith) (omega arith)

module _ (n : IpNet) (laws : IpNetLaws n) (ip : IpAddr) (p : n.Net)
    (made : n.new ip (full_prefix ip) ≡ some p) where
  abbrev IsTruncated : n.Net → Type 0
  IsTruncated r = laws.trunc r ≡ r

  none_low :
      (r : n.Net)
      → laws.trunc r ≡ r
      → n.contains r ip ≡ true
      → (rs : List n.Net) → All (Apart n r) rs
      → partition_point (λ net. n.le net p) rs ≡ 0
  unfolding partition_point
  none_low r whole c [] apart = refl
  none_low r whole c (s ∷ rs) (here, _) = elim (Bool-cases (n.le s p)) [
    | inr high ↦ rw high refl
    | inl low ↦
        let (q, in_r, in_s) = laws.between r s p ip whole made c here.0 low in
        absurd (here.1 q in_r in_s)
  ]

  -- The ranges in front of the address end with the one that contains it.
  last_low :
      (rs : List n.Net)
      → All IsTruncated rs
      → Pairwise (Apart n) rs
      → any (λ net. n.contains net ip) rs ≡ true
      → (i : ℕ) × (a : n.Net) × (partition_point (λ net. n.le net p) rs ≡ suc i)
        × (get_elem? rs i ≡ some a)
        × (n.contains a ip ≡ true)
  unfolding partition_point
  last_low [] whole apart h = ground arith
  last_low (r ∷ rs) whole apart h = elim (Bool-cases (n.contains r ip)) [
    | inl c ↦ (
      0,
      r,
      rw (laws.contains-le r p ip whole.0 made c, none_low r whole.0 c rs apart.0) refl,
      refl,
      c,
    )
    | inr c ↦
        let (i, a, e, g, t) = last_low rs whole.1 apart.1 (rw c at h) in
        let low =
          laws.le_trans r a p (All_entry (Apart n r) rs i a apart.0 g).0
            (laws.contains-le a p ip (All_entry IsTruncated rs i a whole.1 g) made t) in
        (suc i, a, rw (low, e) refl, g, t)
  ]

  found_in_part :
      (r : n.Net) (rs : List n.Net)
      → All IsTruncated (r ∷ rs)
      → Pairwise (Apart n) (r ∷ rs)
      → any (λ net. n.contains net ip) (r ∷ rs) ≡ true
      → Ip.matches n (r ∷ rs) ip ≡ true
  unfolding Ip.matches
  found_in_part r rs whole apart h =
      let (i, a, e, g, t) = last_low (r ∷ rs) whole apart h in
      let idx = partition_point (λ net. n.le net p) (r ∷ rs) in
      rw (Ip.matches, made)
        (any-part (λ net. n.contains net ip) (r ∷ rs) (idx - 4) (idx - (idx - 4)) i a g t
          (omega arith) (omega arith))

  sound_in_part :
      (rs : List n.Net) → Ip.matches n rs ip ≡ true → any (λ net. n.contains net ip) rs ≡ true
  unfolding Ip.matches
  sound_in_part [] h = h
  sound_in_part (r ∷ rs) h =
      let idx = partition_point (λ net. n.le net p) (r ∷ rs) in
      let part =
        any-take (λ net. n.contains net ip) (idx - (idx - 4)) (drop (idx - 4) (r ∷ rs))
          (rw (Ip.matches, made) at h) in
      any-drop (λ net. n.contains net ip) (idx - 4) (r ∷ rs) part

module _ (n : IpNet) (laws : IpNetLaws n) where
  -- For ranges without bits behind their prefixes, in their order, of which no two overlap, the search that looks at four ranges at most
  -- finds an address just if one of the ranges contains it.
  pub matches-any :
      (ranges : List n.Net) (ip : IpAddr)
      → All (λ r. laws.trunc r ≡ r) ranges
      → Pairwise (Apart n) ranges
      → (Ip.matches n ranges ip ≡ true) ↔ (any (λ net. n.contains net ip) ranges ≡ true)
  matches-any [] ip whole apart =
      let (p, made) = laws.probe ip in (sound_in_part n laws ip p made [], λ h. ground arith)
  matches-any (r ∷ rs) ip whole apart =
      let (p, made) = laws.probe ip in
      (sound_in_part n laws ip p made (r ∷ rs), found_in_part n laws ip p made r rs whole apart)
