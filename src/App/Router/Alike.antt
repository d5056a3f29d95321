-- ===== src/App/Router/Alike.antt =====
-- What the router saves the resolution of names for: rules without addresses.
use v2ray.Prelude.{
  ℕ, ◌≡◌, inl, inr, refl, false, not, ◌||◌, Option, none, List, [], ◌∷◌, arith, Bool-cases,
}
use v2ray.Common.Address.{Address, ipv4, ipv6, domain, port, is_domain, domain_of}
use v2ray.App.Router.Ip.{IpNet, any}
use v2ray.App.Router.Domain.{DomainMatcher}
use v2ray.App.Router.Rule
use v2ray.App.Router.Rule.{RoutingContext, CompiledRule, RouterInner, is_some, is_empty}

-- The address is left out of a destination that is no name.
domain_of_ip : (a : Address) → is_domain a ≡ false → domain_of a ≡ none
unfolding is_domain domain_of
domain_of_ip (ipv4 ip p) h = refl
domain_of_ip (ipv6 ip p) h = refl
domain_of_ip (domain d p) h = ground arith

module _ (n : IpNet) (lower : List ℕ → List ℕ) (ctx : RoutingContext) (a b : Address) where
  abbrev to_a : RoutingContext
  to_a = record ctx { dest = a }

  abbrev to_b : RoutingContext
  to_b = record ctx { dest = b }

  module _ (geoip : List ℕ → Option (List n.Net)) (geosite : List ℕ → Option DomainMatcher)
      (ha : is_domain a ≡ false) (hb : is_domain b ≡ false) (hp : port a ≡ port b) where
    matches-alike :
        (r : CompiledRule n lower)
        → (is_some r.ip_matcher || not (is_empty r.geoip_codes)) ≡ false
        → Rule.matches_with_geo n lower r to_a geoip geosite
          ≡ Rule.matches_with_geo n lower r to_b geoip geosite
    unfolding Rule.matches_with_geo
    matches-alike r h = rw (h, hp, domain_of_ip a ha, domain_of_ip b hb) refl

    routes-alike :
        (inner : RouterInner n lower) (rules : List (CompiledRule n lower))
        → inner.geoip ≡ geoip
        → inner.geosite ≡ geosite
        → any
            (λ r.
              is_some (CompiledRule.ip_matcher r) || not (is_empty (CompiledRule.geoip_codes r)))
            rules
          ≡ false
        → Rule.route_loop n lower inner to_a rules ≡ Rule.route_loop n lower inner to_b rules
    unfolding Rule.route_loop
    routes-alike inner [] hg hs h = refl
    routes-alike inner (r ∷ rules) hg hs h =
        elim (Bool-cases (is_some r.ip_matcher || not (is_empty r.geoip_codes))) [
          | inl e ↦ absurd (ground arith)
          | inr e ↦
              rw (hg, hs, matches-alike r e, routes-alike inner rules hg hs (ground arith)) refl
        ]

  -- Where no rule of the router asks for an address, two destinations that are addresses with the
  -- same port are routed alike, whatever the addresses are.
  pick_route_match-alike :
      (rules : List (CompiledRule n lower)) (default_tag : List ℕ)
      (geoip : List ℕ → Option (List n.Net)) (geosite : List ℕ → Option DomainMatcher)
      (domain_strategy : Option (List ℕ))
      → RouterInner.has_ip_rules
          (Rule.compile n lower rules default_tag geoip geosite domain_strategy)
        ≡ false
      → is_domain a ≡ false
      → is_domain b ≡ false
      → port a ≡ port b
      → Rule.pick_route_match n lower
          (Rule.compile n lower rules default_tag geoip geosite domain_strategy)
          to_a
        ≡ Rule.pick_route_match n lower
            (Rule.compile n lower rules default_tag geoip geosite domain_strategy)
            to_b
  unfolding Rule.pick_route_match Rule.compile
  pick_route_match-alike rules default_tag geoip geosite domain_strategy h ha hb hp =
      routes-alike geoip geosite ha hb hp
        (Rule.compile n lower rules default_tag geoip geosite domain_strategy) rules refl refl h
