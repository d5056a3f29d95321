-- ===== src/App/Dispatch/Strategies.antt =====
-- Without rules on addresses and without a name that was sniffed, the strategy for names makes no
-- difference.
use v2ray.Prelude.{
  ℕ, ◌≡◌, refl, sym, ap, ◌∙◌, Bool, true, false, not, ◌||◌, Option, none, some, List, [], ◌∷◌,
  arith, All, if◌then◌else◌, Bool-cases, inl, inr,
}
use v2ray.Common.Address.{ip_of, domain_of, Address, IpAddr, ipv4, ipv6, domain, v4, v6, port}
use v2ray.App.Router.Ip.{IpNet, any}
use v2ray.App.Router.Domain.{DomainMatcher}
use v2ray.App.Router.Rule
use v2ray.App.Router.Rule.{RoutingContext, RouterInner, CompiledRule, is_some, is_empty}
use v2ray.App.Dispatch
use v2ray.App.Dispatch.{
  with_port, ask, ips_of, RoutingDomainStrategy, as_is, ip_if_non_match, ip_on_demand, Answers,
  Origin, routing_ctx, resolve_domain_ips, prefetch_dns, is_domain_dest, with_port, all_with_port,
  non_empty, or_else,
}

clash : (b : Bool) → b ≡ true → ¬ (b ≡ false)
clash b h k = ground arith

not_true : (b : Bool) → ¬ (b ≡ true) → b ≡ false
not_true true h = absurd (h refl)
not_true false h = refl

module _ (n : IpNet) (lower : List ℕ → List ℕ) (origin : Origin)
    (unsniffed : origin.sniffed_domain ≡ none) where
  abbrev has_ips : CompiledRule n lower → Bool
  has_ips r = is_some r.ip_matcher || not (is_empty r.geoip_codes)

  guards :
      (a b c d e d' e' : Bool)
      → (d ≡ true → d' ≡ true)
      → e' ≡ true
      → (if not a
          then false
          else if not b
          then false
          else if not c
          then false
          else if not d
          then false
          else e)
        ≡ true
      → (if not a
          then false
          else if not b
          then false
          else if not c
          then false
          else if not d'
          then false
          else e')
        ≡ true
  guards true true true true e d' e' h k m = rw (h refl, k) refl
  guards true true true false e d' e' h k m = ground (arith, m)
  guards true true false d e d' e' h k m = ground (arith, m)
  guards true false c d e d' e' h k m = ground (arith, m)
  guards false b c d e d' e' h k m = ground (arith, m)

  -- For an address there is no name to match.
  domain_ok-name :
      (r : CompiledRule n lower) (geosite : List ℕ → Option DomainMatcher) (name : List ℕ) (p : ℕ)
      (ip : Address)
      → Rule.domain_name n lower (routing_ctx origin ip) ≡ none
      → Rule.domain_ok n lower r (routing_ctx origin ip) geosite ≡ true
      → Rule.domain_ok n lower r (routing_ctx origin (domain name p)) geosite ≡ true
  domain_ok-name r geosite name p ip no_name m =
      elim (Bool-cases (is_some r.domain_matcher || not (is_empty r.geosite_codes))) [
        | inl has ↦ absurd (ground (arith, m, has, no_name))
        | inr free ↦ rw free refl
      ]

  ip_ok-name :
      (r : CompiledRule n lower) (geoip : List ℕ → Option (List n.Net)) (name : List ℕ) (p : ℕ)
      → has_ips r ≡ false
      → Rule.ip_ok n lower r (routing_ctx origin (domain name p)) geoip ≡ true
  ip_ok-name r geoip name p h = rw h refl

  -- A rule without addresses that matches an address of the name matches the name.
  matches-name :
      (r : CompiledRule n lower) (geoip : List ℕ → Option (List n.Net))
      (geosite : List ℕ → Option DomainMatcher) (name : List ℕ) (p : ℕ) (ip : IpAddr)
      → has_ips r ≡ false
      → Rule.matches_with_geo n lower r (routing_ctx origin (with_port p ip)) geoip geosite ≡ true
      → Rule.matches_with_geo n lower r (routing_ctx origin (domain name p)) geoip geosite ≡ true
  unfolding Rule.matches_with_geo port domain_of ip_of
  matches-name r geoip geosite name p (v4 ip) h m =
      let c : RoutingContext = routing_ctx origin (ipv4 ip p) in
      guards (Rule.inbound_ok n lower r c) (Rule.protocol_ok n lower r c) (Rule.port_ok n lower r c)
        (Rule.domain_ok n lower r c geosite) (Rule.ip_ok n lower r c geoip)
        (Rule.domain_ok n lower r (routing_ctx origin (domain name p)) geosite)
        (Rule.ip_ok n lower r (routing_ctx origin (domain name p)) geoip)
        (domain_ok-name r geosite name p (ipv4 ip p) unsniffed) (ip_ok-name r geoip name p h) m
  matches-name r geoip geosite name p (v6 ip) h m =
      let c : RoutingContext = routing_ctx origin (ipv6 ip p) in
      guards (Rule.inbound_ok n lower r c) (Rule.protocol_ok n lower r c) (Rule.port_ok n lower r c)
        (Rule.domain_ok n lower r c geosite) (Rule.ip_ok n lower r c geoip)
        (Rule.domain_ok n lower r (routing_ctx origin (domain name p)) geosite)
        (Rule.ip_ok n lower r (routing_ctx origin (domain name p)) geoip)
        (domain_ok-name r geosite name p (ipv6 ip p) unsniffed) (ip_ok-name r geoip name p h) m

  skipped :
      (inner : RouterInner n lower) (r : CompiledRule n lower) (rules : List (CompiledRule n lower))
      (c : RoutingContext)
      → Rule.matches_with_geo n lower r c inner.geoip inner.geosite ≡ false
      → Rule.route_loop n lower inner c (r ∷ rules) ≡ Rule.route_loop n lower inner c rules
  unfolding Rule.route_loop
  skipped inner r rules c h = rw h refl

  taken :
      (inner : RouterInner n lower) (r : CompiledRule n lower) (rules : List (CompiledRule n lower))
      (c : RoutingContext)
      → Rule.matches_with_geo n lower r c inner.geoip inner.geosite ≡ true
      → (Rule.route_loop n lower inner c (r ∷ rules)).1 ≡ true
  unfolding Rule.route_loop
  taken inner r rules c h = rw h refl

  -- With no rule for the name there is none for its addresses.
  route_loop-unmatched :
      (inner : RouterInner n lower) (rules : List (CompiledRule n lower)) (name : List ℕ) (p : ℕ)
      (ip : IpAddr)
      → any has_ips rules ≡ false
      → (Rule.route_loop n lower inner (routing_ctx origin (domain name p)) rules).1 ≡ false
      → (Rule.route_loop n lower inner (routing_ctx origin (with_port p ip)) rules).1 ≡ false
  unfolding Rule.route_loop
  route_loop-unmatched inner [] name p ip h m = refl
  route_loop-unmatched inner (r ∷ rules) name p ip h m =
      let no_ips : has_ips r ≡ false = ground (arith, h) in
      let others : any has_ips rules ≡ false = ground (arith, h) in
      let c : RoutingContext = routing_ctx origin (domain name p) in
      let k : RoutingContext = routing_ctx origin (with_port p ip) in
      elim (Bool-cases (Rule.matches_with_geo n lower r c inner.geoip inner.geosite)) [
        | inl named ↦ absurd (clash _ (taken inner r rules c named) m)
        | inr unnamed ↦
            let unmatched : Rule.matches_with_geo n lower r k inner.geoip inner.geosite ≡ false =
              not_true _ (λ yes_match.
                clash _ (matches-name r inner.geoip inner.geosite name p ip no_ips yes_match)
                  unnamed) in
            ap (λ (x : List ℕ × Bool). x.1) (skipped inner r rules k unmatched)
            ∙ route_loop-unmatched inner rules name p ip others
                (sym (ap (λ (x : List ℕ × Bool). x.1) (skipped inner r rules c unnamed)) ∙ m)
      ]

  abbrev IsOf : ℕ → Address → Type 0
  IsOf p a = (ip : IpAddr) × (a ≡ with_port p ip)

  all_with_port-IsOf : (p : ℕ) (o : Option (List IpAddr)) → All (IsOf p) (all_with_port p o)
  all_with_port-IsOf p none = tt
  all_with_port-IsOf p (some []) = tt
  all_with_port-IsOf p (some (ip ∷ ips)) = ((ip, refl), all_with_port-IsOf p (some ips))

  or_else-IsOf :
      (p : ℕ) (xs ys : List Address)
      → All (IsOf p) xs
      → All (IsOf p) ys
      → All (IsOf p) (or_else xs ys)
  or_else-IsOf p [] ys h k = k
  or_else-IsOf p (x ∷ xs) ys h k = h

  module _ (inner : RouterInner n lower) (answers : Answers)
      (no_ips : any has_ips inner.rules ≡ false) where
    first_match-none :
        (ips : List Address) (name : List ℕ) (p : ℕ)
        → All (IsOf p) ips
        → (Rule.pick_route_match n lower inner (routing_ctx origin (domain name p))).1 ≡ false
        → Dispatch.first_match n lower inner answers origin ips ≡ none
    unfolding Dispatch.first_match Rule.pick_route_match
    first_match-none [] name p all m = refl
    first_match-none (a ∷ ips) name p all m =
        let ((ip, e), others) = all in
        let rest = first_match-none ips name p others m in
        let none_here = route_loop-unmatched inner inner.rules name p ip no_ips m in
        rw (e, none_here) rest

    match_of-none :
        (ips : List Address) (name : List ℕ) (p : ℕ)
        → All (IsOf p) ips
        → (Rule.pick_route_match n lower inner (routing_ctx origin (domain name p))).1 ≡ false
        → Dispatch.match_of n lower inner answers origin (non_empty ips) ≡ none
    match_of-none [] name p all m = refl
    match_of-none (a ∷ ips) name p all m = first_match-none (a ∷ ips) name p all m

    resolved-none :
        (name : List ℕ) (p : ℕ)
        → (Rule.pick_route_match n lower inner (routing_ctx origin (domain name p))).1 ≡ false
        → Dispatch.match_of n lower inner answers origin
            (resolve_domain_ips answers (domain name p))
          ≡ none
    unfolding resolve_domain_ips
    resolved-none name p m =
        match_of-none _ name p
          (or_else-IsOf p _ _ (all_with_port-IsOf p (ask answers.dns name))
            (all_with_port-IsOf p (ips_of (answers.lookup_host name p))))
          m

    abbrev given : Address → List ℕ
    given dest = (Rule.pick_route_match n lower inner (routing_ctx origin dest)).0

    module _ (no_flag : inner.has_ip_rules ≡ false) where
      named-given :
          (strategy : RoutingDomainStrategy) (name : List ℕ) (p : ℕ)
          → Dispatch.pick_given n lower inner answers origin strategy (domain name p)
            ≡ given (domain name p)
      unfolding Dispatch.pick_given Rule.pick_route_match
      named-given strategy name p =
          elim (Bool-cases
            (Rule.pick_route_match n lower inner (routing_ctx origin (domain name p))).1) [
              | inl m ↦ rw (Dispatch.pick_given, m) refl
              | inr m ↦ by_strategy strategy m
            ]
        where
          by_strategy :
              (strategy : RoutingDomainStrategy)
              → (Rule.pick_route_match n lower inner (routing_ctx origin (domain name p))).1 ≡ false
              → Dispatch.pick_given n lower inner answers origin strategy (domain name p)
                ≡ given (domain name p)
          by_strategy as_is m = rw m refl
          by_strategy ip_on_demand m = rw m refl
          by_strategy ip_if_non_match m = rw (m, no_flag, resolved-none name p m) refl

      pick_given-given :
          (strategy : RoutingDomainStrategy) (dest : Address)
          → Dispatch.pick_given n lower inner answers origin strategy dest ≡ given dest
      unfolding Dispatch.pick_given
      pick_given-given strategy (domain name p) = named-given strategy name p
      pick_given-given ip_if_non_match (ipv4 ip p) = ground arith
      pick_given-given as_is (ipv4 ip p) = ground arith
      pick_given-given ip_on_demand (ipv4 ip p) = ground arith
      pick_given-given ip_if_non_match (ipv6 ip p) = ground arith
      pick_given-given as_is (ipv6 ip p) = ground arith
      pick_given-given ip_on_demand (ipv6 ip p) = ground arith

      pick-given :
          (strategy : RoutingDomainStrategy) (dest : Address)
          → Dispatch.pick_route_xray n lower inner answers origin strategy dest ≡ given dest
      unfolding Dispatch.pick_route_xray Rule.pick_route_match
      pick-given as_is dest = pick_given-given as_is dest
      pick-given ip_if_non_match dest = pick_given-given ip_if_non_match dest
      pick-given ip_on_demand (ipv4 ip p) = pick_given-given ip_on_demand (ipv4 ip p)
      pick-given ip_on_demand (ipv6 ip p) = pick_given-given ip_on_demand (ipv6 ip p)
      pick-given ip_on_demand (domain name p) =
          rw no_flag (pick_given-given ip_on_demand (domain name p))

  -- For a connection without sniffed domain, under rules of which none asks for an address: with
  -- every strategy for names, and whatever the name resolves to, the dispatcher picks the route
  -- that the rules give for the destination as it is.
  pub pick_route_xray-strategies :
      (rules : List (CompiledRule n lower)) (default_tag : List ℕ)
      (geoip : List ℕ → Option (List n.Net)) (geosite : List ℕ → Option DomainMatcher)
      (domain_strategy : Option (List ℕ)) (answers : Answers) (strategy : RoutingDomainStrategy)
      (dest : Address)
      → (Rule.compile n lower rules default_tag geoip geosite domain_strategy).has_ip_rules ≡ false
      → Dispatch.pick_route_xray n lower
          (Rule.compile n lower rules default_tag geoip geosite domain_strategy)
          answers
          origin
          strategy
          dest
        ≡ (Rule.pick_route_match n lower
            (Rule.compile n lower rules default_tag geoip geosite domain_strategy)
            (routing_ctx origin dest)).0
  unfolding Rule.compile
  pick_route_xray-strategies rules default_tag geoip geosite ds answers strategy dest h =
      pick-given (Rule.compile n lower rules default_tag geoip geosite ds) answers h h strategy dest
