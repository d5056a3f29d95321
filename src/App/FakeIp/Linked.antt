-- ===== src/App/FakeIp/Linked.antt =====
-- How the two maps and the order of use of a pool stand to a plan, and the steps that keep it so.
use v2ray.Prelude.{
  In, ℕ, suc, ◌+◌, ◌<◌, ◌≡◌, ◌≢◌, inl, inr, sym, ap, ◌∙◌, subst, Option, none, some, List, [], ◌∷◌,
  ◌++◌, arith, length, length-append,
}
use native.Mathlib.Decide.{ℕ_discrete}
use v2ray.Common.Maps.{DashMap, DashMapLaws, bytes_dec}
use v2ray.App.FakeIp.Maps.{LruCache, LruCacheLaws, Domain, without}
use v2ray.App.FakeIp.Distinct.{
  Distinct, In-front, In-split, Distinct-front, last-new, In-of_without, In-without, not-In-without,
  Distinct-without, length-without,
}
use v2ray.App.FakeIp.Plan.{
  Plan, assign, release, assign-same, assign-other, release-same, release-other, assign-some,
  release-some,
}

module _ (fwd : DashMap Domain ℕ) (rev : DashMap ℕ Domain) (lru : LruCache Domain)
    (fwd_laws : DashMapLaws fwd) (rev_laws : DashMapLaws rev)
    (lru_laws : LruCacheLaws bytes_dec lru) where
  pub record Linked (f : fwd.Map) (r : rev.Map) (l : lru.Cache) (s : Plan) : Type 0 where
    pub order : lru.keys l ≡ s.order
    pub there : (d : Domain) → fwd.get d f ≡ s.address d
    pub back : (d : Domain) (ip : ℕ) → s.address d ≡ some ip → rev.get ip r ≡ some d
    pub forth : (d : Domain) (ip : ℕ) → rev.get ip r ≡ some d → s.address d ≡ some ip
    pub listed : (d : Domain) (ip : ℕ) → s.address d ≡ some ip → In d s.order
    pub held : (d : Domain) → In d s.order → (ip : ℕ) × (s.address d ≡ some ip)
    pub count : fwd.len f ≡ length s.order
    pub distinct : Distinct s.order

  free_ne :
      (r : rev.Map) (ip n : ℕ) (d : Domain) → rev.get ip r ≡ none → rev.get n r ≡ some d → n ≢ ip
  free_ne r ip n d e g same = ground arith

  removed_ne :
      (r : rev.Map) (ip n : ℕ) (d : Domain) → rev.get n (rev.remove ip r).1 ≡ some d → n ≢ ip
  removed_ne r ip n d g same = free_ne (rev.remove ip r).1 ip n d (rev_laws.get-remove ip r) g same

  owner :
      (r : rev.Map) (n ip : ℕ) (q old : Domain)
      → n ≡ ip
      → rev.get n r ≡ some q
      → rev.get ip r ≡ some old
      → q ≡ old
  owner r n ip q old e g h = ground arith

  unassigned :
      (a : Domain → Option ℕ) (q d : Domain) (n : ℕ) → q ≡ d → a q ≡ some n → ¬ (a d ≡ none)
  unassigned a q d n e g h = ground arith

  address_of :
      (a : Domain → Option ℕ) (q old : Domain) (n ip : ℕ)
      → q ≡ old
      → a q ≡ some n
      → a old ≡ some ip
      → n ≡ ip
  address_of a q old n ip e g h = ground arith

  module _ (f : fwd.Map) (r : rev.Map) (l : lru.Cache) (s : Plan) (k : Linked f r l s) where
    -- A known domain is asked for.
    pub Linked-known :
        (d : Domain) (ip : ℕ)
        → s.address d ≡ some ip
        → Linked f r (lru.get d l) (record s { order = d ∷ without bytes_dec d s.order })
    Linked-known d ip e =
        let here = k.listed d ip e in
        record {
          order =
              lru_laws.keys-get d l (rw k.order here) ∙ ap (λ o. d ∷ without bytes_dec d o) k.order;
          there = k.there;
          back = k.back;
          forth = k.forth;
          listed = λ q n g. elim (bytes_dec q d) [
            | yes same ↦ inl (sym same)
            | no other ↦ inr (In-without bytes_dec d q s.order (k.listed q n g) other)
          ];
          held = λ q i. elim i [
            | inl same ↦ (ip, subst (λ x. s.address x ≡ some ip) same e)
            | inr later ↦ k.held q (In-of_without bytes_dec d q s.order later)
          ];
          count = k.count ∙ sym (length-without bytes_dec d s.order here);
          distinct = (
            not-In-without bytes_dec d s.order k.distinct,
            Distinct-without bytes_dec d s.order k.distinct,
          );
        }

    -- An address that no domain has is removed from the map back.
    pub Linked-unclaimed : (ip : ℕ) → rev.get ip r ≡ none → Linked f (rev.remove ip r).1 l s
    Linked-unclaimed ip e = record {
      order = k.order;
      there = k.there;
      back = λ d n g.
          rev_laws.get-remove_ne ip n r (λ same. absurd (free_ne r ip n d e (k.back d n g) same))
          ∙ k.back d n g;
      forth =
          λ d n g. k.forth d n (sym (rev_laws.get-remove_ne ip n r (removed_ne r ip n d g)) ∙ g);
      listed = k.listed;
      held = k.held;
      count = k.count;
      distinct = k.distinct;
    }

    -- The last domain goes.
    pub Linked-evict :
        (rest : List Domain) (old : Domain) (ip : ℕ)
        → s.order ≡ rest ++ (old ∷ [])
        → s.address old ≡ some ip
        → Linked
            (fwd.remove old f).1
            (rev.remove ip r).1
            (lru.pop_lru l).1
            (record { order = rest; address = release old s.address })
    Linked-evict rest old ip o e =
        let d = subst Distinct o k.distinct in
        let back = k.back old ip e in
        let shorter = fwd_laws.len-remove old ip f (k.there old ∙ e) in
        let len : length s.order ≡ length rest + 1 = ap length o ∙ length-append rest (old ∷ []) in
        let one_less : fwd.len (fwd.remove old f).1 ≡ length rest = omega (arith, k.count) in
        record {
          order = lru_laws.keys-pop_lru rest old l (k.order ∙ o);
          there = λ q. elim (bytes_dec q old) [
            | yes same ↦
                subst (λ x. fwd.get x (fwd.remove old f).1 ≡ release old s.address x) (sym same)
                  (fwd_laws.get-remove old f ∙ sym (release-same old s.address))
            | no other ↦
                fwd_laws.get-remove_ne old q f other
                ∙ k.there q
                ∙ sym (release-other old q s.address other)
          ];
          back = λ q n g.
              let (other, g) = release-some old q n s.address g in
              rev_laws.get-remove_ne ip n r
                (λ same. other (owner r n ip q old same (k.back q n g) back))
              ∙ k.back q n g;
          forth = λ q n g.
              let ne = removed_ne r ip n q g in
              let g = k.forth q n (sym (rev_laws.get-remove_ne ip n r ne) ∙ g) in
              release-other old q s.address (λ same. ne (address_of s.address q old n ip same g e))
              ∙ g;
          listed = λ q n g.
              let (other, g) = release-some old q n s.address g in
              elim (In-split q old rest (subst (In q) o (k.listed q n g))) [
                | inl i ↦ i
                | inr same ↦ absurd (other (sym same))
              ];
          held = λ q i.
              let (n, g) = k.held q (subst (In q) (sym o) (In-front q old rest i)) in
              (
                n,
                release-other old q s.address
                      (λ same. last-new old rest d (subst (λ x. In x rest) same i))
                    ∙ g,
              );
          count = one_less;
          distinct = Distinct-front old rest d;
        }

    not_held : (d : Domain) → s.address d ≡ none → ¬ In d s.order
    not_held d e i = let (n, g) = k.held d i in ground arith

    -- A new domain comes, with an address that is free.
    pub Linked-insert :
        (d : Domain) (ip : ℕ)
        → s.address d ≡ none
        → rev.get ip r ≡ none
        → length s.order < lru.cap l
        → Linked
            (fwd.insert d ip f)
            (rev.insert ip d r)
            (lru.put d l)
            (record { order = d ∷ s.order; address = assign d ip s.address })
    Linked-insert d ip e free room =
        let absent = λ (i : In d s.order). not_held d e i in
        record {
          order =
              lru_laws.keys-put d l (λ i. absent (subst (In d) k.order i))
                (subst (λ o. length o < lru.cap l) (sym k.order) room)
              ∙ ap (◌∷◌ d) k.order;
          there = λ q. elim (bytes_dec q d) [
            | yes same ↦
                subst (λ x. fwd.get x (fwd.insert d ip f) ≡ assign d ip s.address x) (sym same)
                  (fwd_laws.get-insert d ip f ∙ sym (assign-same d ip s.address))
            | no other ↦
                fwd_laws.get-insert_ne d q ip f other
                ∙ k.there q
                ∙ sym (assign-other d q ip s.address other)
          ];
          back = λ q n g. elim (assign-some d q ip n s.address g) [
            | inl (same, here) ↦
                subst (λ x. rev.get x (rev.insert ip d r) ≡ some q) here
                  (rev_laws.get-insert ip d r ∙ ap some (sym same))
            | inr (other, g) ↦
                rev_laws.get-insert_ne ip n d r (free_ne r ip n q free (k.back q n g))
                ∙ k.back q n g
          ];
          forth = λ q n g. elim (ℕ_discrete n ip) [
            | yes same ↦
                subst (λ x. assign d ip s.address x ≡ some n)
                  (sym (owner (rev.insert ip d r) n ip q d same g (rev_laws.get-insert ip d r)))
                  (assign-same d ip s.address ∙ ap some (sym same))
            | no other ↦
                let g = k.forth q n (sym (rev_laws.get-insert_ne ip n d r other) ∙ g) in
                assign-other d q ip s.address (λ same. unassigned s.address q d n same g e) ∙ g
          ];
          listed = λ q n g. elim (assign-some d q ip n s.address g) [
            | inl (same, here) ↦ inl (sym same)
            | inr (other, g) ↦ inr (k.listed q n g)
          ];
          held = λ q i. elim (bytes_dec q d) [
            | yes same ↦ (
              ip,
              subst (λ x. assign d ip s.address x ≡ some ip) (sym same)
                  (assign-same d ip s.address),
            )
            | no other ↦ elim i [
              | inl same ↦ absurd (other (sym same))
              | inr later ↦
                  let (n, g) = k.held q later in (n, assign-other d q ip s.address other ∙ g)
            ]
          ];
          count = fwd_laws.len-insert d ip f (k.there d ∙ e) ∙ ap suc k.count;
          distinct = (absent, k.distinct);
        }
