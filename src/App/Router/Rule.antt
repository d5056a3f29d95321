-- ===== src/App/Router/Rule.antt =====
-- Rules and the choice of a route: router.rs. A route is the tag of its outbound.
use v2ray.Prelude.{
  ℕ, Bool, true, false, not, ◌||◌, ◌&&◌, Option, none, some, List, [], ◌∷◌, leb, if◌then◌else◌,
  bytes_eq,
}
use v2ray.Common.Address.{Address, Network, port, ip_of, domain_of}
use v2ray.App.Router.Ip
use v2ray.App.Router.Ip.{IpNet, any}
use v2ray.App.Router.Domain
use v2ray.App.Router.Domain.{DomainMatcher}

pub record RoutingContext : Type 0 where
  pub dest : Address
  pub network : Network
  pub inbound_tag : List ℕ
  pub user : Option (List ℕ)
  pub sniffed_protocol : Option (List ℕ)
  pub sniffed_domain : Option (List ℕ)

abbrev pub is_empty {ℓ} : {A : Type ℓ} → List A → Bool
is_empty [] = true
is_empty (x ∷ xs) = false

abbrev pub is_some {ℓ} : {A : Type ℓ} → Option A → Bool
is_some none = false
is_some (some a) = true

module _ (n : IpNet) (lower : List ℕ → List ℕ) where
  pub record CompiledRule : Type 0 where
    pub outbound_tag : List ℕ
    pub domain_matcher : Option DomainMatcher
    pub geosite_codes : List (List ℕ)
    pub ip_matcher : Option (List n.Net)
    pub geoip_codes : List (List ℕ)
    pub port_ranges : List (ℕ × ℕ)
    pub inbound_tags : List (List ℕ)
    pub protocols : List (List ℕ)

  -- The databases are what their `get` answers.
  pub record RouterInner : Type 0 where
    pub rules : List CompiledRule
    pub default_tag : List ℕ
    pub geoip : List ℕ → Option (List n.Net)
    pub geosite : List ℕ → Option DomainMatcher
    pub domain_strategy : Option (List ℕ)
    pub has_ip_rules : Bool

  abbrev pub inbound_ok : CompiledRule → RoutingContext → Bool
  inbound_ok r ctx = is_empty r.inbound_tags || any (λ t. bytes_eq t ctx.inbound_tag) r.inbound_tags

  abbrev pub protocol_ok : CompiledRule → RoutingContext → Bool
  protocol_ok r ctx =
      is_empty r.protocols
      || elim ctx.sniffed_protocol [ none ↦ false | some p ↦ any (λ q. bytes_eq q p) r.protocols ]

  abbrev pub port_ok : CompiledRule → RoutingContext → Bool
  port_ok r ctx =
      is_empty r.port_ranges
      || any (λ p. leb p.0 (port ctx.dest) && leb (port ctx.dest) p.1) r.port_ranges

  -- The destination's domain, or for an address the sniffed one.
  abbrev pub domain_name : RoutingContext → Option (List ℕ)
  domain_name ctx = elim (domain_of ctx.dest) [ some name ↦ some name | none ↦ ctx.sniffed_domain ]

  abbrev pub domain_ok : CompiledRule → RoutingContext → (List ℕ → Option DomainMatcher) → Bool
  domain_ok r ctx geosite =
      if is_some r.domain_matcher || not (is_empty r.geosite_codes)
      then elim (domain_name ctx) [
        | none ↦ false
        | some name ↦
            elim r.domain_matcher [ none ↦ false | some dm ↦ Domain.matches lower dm name ]
            || any
                (λ code. elim (geosite code) [
                  | none ↦ false
                  | some m ↦ Domain.match_domain lower m name
                ])
                r.geosite_codes
      ]
      else true

  abbrev pub ip_ok : CompiledRule → RoutingContext → (List ℕ → Option (List n.Net)) → Bool
  ip_ok r ctx geoip =
      if is_some r.ip_matcher || not (is_empty r.geoip_codes)
      then elim (ip_of ctx.dest) [
        | none ↦ false
        | some ip ↦
            elim r.ip_matcher [ none ↦ false | some im ↦ Ip.matches n im ip ]
            || any (λ code. elim (geoip code) [ none ↦ false | some m ↦ Ip.match_ip n m ip ])
                r.geoip_codes
      ]
      else true

  -- The early returns of `matches_with_geo`, in their order.
  unfoldable pub matches_with_geo :
      CompiledRule
      → RoutingContext
      → (List ℕ → Option (List n.Net))
      → (List ℕ → Option DomainMatcher)
      → Bool
  matches_with_geo r ctx geoip geosite =
      if not (inbound_ok r ctx)
      then false
      else if not (protocol_ok r ctx)
      then false
      else if not (port_ok r ctx)
      then false
      else if not (domain_ok r ctx geosite)
      then false
      else ip_ok r ctx geoip

  -- `new` and `swap`
  unfoldable pub compile :
      List CompiledRule
      → List ℕ
      → (List ℕ → Option (List n.Net))
      → (List ℕ → Option DomainMatcher)
      → Option (List ℕ)
      → RouterInner
  compile rules default_tag geoip geosite domain_strategy = record {
    rules = rules;
    default_tag = default_tag;
    geoip = geoip;
    geosite = geosite;
    domain_strategy = domain_strategy;
    has_ip_rules = any (λ r. is_some r.ip_matcher || not (is_empty r.geoip_codes)) rules;
  }

  unfoldable pub route_loop : RouterInner → RoutingContext → List CompiledRule → List ℕ × Bool
  route_loop inner ctx [] = (inner.default_tag, false)
  route_loop inner ctx (r ∷ rs) =
      if matches_with_geo r ctx inner.geoip inner.geosite
      then (r.outbound_tag, true)
      else route_loop inner ctx rs

  unfoldable pub pick_route_match : RouterInner → RoutingContext → List ℕ × Bool
  unfolding route_loop
  pick_route_match inner ctx = route_loop inner ctx inner.rules
