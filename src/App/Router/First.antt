-- ===== src/App/Router/First.antt =====
-- The first rule that matches decides, and rules without addresses do not see the address.
use v2ray.Prelude.{
  ℕ, zero, suc, ◌<◌, ◌≡◌, ◌⊎◌, inl, inr, refl, ap, subst, Bool, true, false, Option, none, some,
  List, [], ◌∷◌, arith, get_elem?, Bool-cases,
}
use v2ray.App.Router.Ip.{IpNet}
use v2ray.App.Router.Rule
use v2ray.App.Router.Rule.{RoutingContext, CompiledRule, RouterInner, is_some, is_empty}

some_eq : {A : Type 0} (x y : A) → Path (Option A) (some x) (some y) → x ≡ y
some_eq x y e = ap (λ o. elim o [ none ↦ x | some z ↦ z ]) e

module _ (n : IpNet) (lower : List ℕ → List ℕ) (inner : RouterInner n lower) where
  module _ (ctx : RoutingContext) where
    abbrev pub Matches : CompiledRule n lower → Bool → Type 0
    Matches r test = Rule.matches_with_geo n lower r ctx inner.geoip inner.geosite ≡ test

    -- What the first `i` rules, and what all rules answer.
    abbrev pub NoneBefore : List (CompiledRule n lower) → ℕ → Type 0
    NoneBefore rules i =
        (j : ℕ) (r : CompiledRule n lower) → j < i → get_elem? rules j ≡ some r → Matches r false

    abbrev pub NoneMatches : List (CompiledRule n lower) → Type 0
    NoneMatches rules =
        (j : ℕ) (r : CompiledRule n lower) → get_elem? rules j ≡ some r → Matches r false

    abbrev pub First : List (CompiledRule n lower) → List ℕ × Bool → Type 0
    First rules route =
        ((i : ℕ) × (r : CompiledRule n lower) × (get_elem? rules i ≡ some r)
          × Matches r true
          × NoneBefore rules i
          × (route ≡ (r.outbound_tag, true)))
        ⊎ (NoneMatches rules × (route ≡ (inner.default_tag, false)))

    before_cons :
        (r : CompiledRule n lower) (rules : List (CompiledRule n lower)) (i : ℕ)
        → Matches r false
        → NoneBefore rules i
        → NoneBefore (r ∷ rules) (suc i)
    before_cons r rules i h t zero s lt e = subst (λ x. Matches x false) (some_eq r s e) h
    before_cons r rules i h t (suc j) s lt e = t j s (omega arith) e

    none_cons :
        (r : CompiledRule n lower) (rules : List (CompiledRule n lower))
        → Matches r false
        → NoneMatches rules
        → NoneMatches (r ∷ rules)
    none_cons r rules h t zero s e = subst (λ x. Matches x false) (some_eq r s e) h
    none_cons r rules h t (suc j) s e = t j s e

    route_loop-First :
        (rules : List (CompiledRule n lower))
        → First rules (Rule.route_loop n lower inner ctx rules)
    unfolding Rule.route_loop
    route_loop-First [] = inr (λ j r e. ground arith, refl)
    route_loop-First (r ∷ rules) =
        elim (Bool-cases (Rule.matches_with_geo n lower r ctx inner.geoip inner.geosite)) [
          | inl yes_match ↦
              inl (0, r, refl, yes_match, (λ j s lt e. absurd (omega arith)), rw yes_match refl)
          | inr no_match ↦ elim (route_loop-First rules) [
            | inl (i, s, e, m, before, route) ↦
                inl (suc i, s, e, m, before_cons r rules i no_match before, rw no_match route)
            | inr (t, route) ↦ inr (none_cons r rules no_match t, rw no_match route)
          ]
        ]

    -- The route is that of the first rule that matches the connection; where none does, it is the
    -- default one, and reported as such.
    pub pick_route_match-First : First inner.rules (Rule.pick_route_match n lower inner ctx)
    unfolding Rule.pick_route_match
    pick_route_match-First = route_loop-First inner.rules
