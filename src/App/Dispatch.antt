-- ===== src/App/Dispatch.antt =====
-- How the dispatcher picks a route: `pick_route_xray` and what it calls in
-- crates/blackwire-app/src/dispatcher.rs. The DNS module and the resolver of the system are what
-- they answer, `none` for an error or a timeout.
pub mod Strategies
use v2ray.Prelude.{
  ℕ, Bool, true, false, ◌&&◌, Option, none, some, List, [], ◌∷◌, map, if◌then◌else◌,
}
use v2ray.Common.Address.{Address, IpAddr, SocketAddr, ipv4, ipv6, domain, v4, v6, tcp}
use v2ray.App.Router.Ip.{IpNet}
use v2ray.App.Router.Rule
use v2ray.App.Router.Rule.{RoutingContext, RouterInner}

pub data RoutingDomainStrategy : Type 0 where
  as_is ip_if_non_match ip_on_demand : RoutingDomainStrategy

-- The answers for one name: of the DNS module, where there is one, and of the system.
pub record Answers : Type 0 where
  pub dns : Option (List ℕ → Option (List IpAddr))
  pub lookup_host : List ℕ → ℕ → Option (List SocketAddr)

abbrev pub with_port : ℕ → IpAddr → Address
with_port port (v4 ip) = ipv4 ip port
with_port port (v6 ip) = ipv6 ip port

abbrev pub all_with_port : ℕ → Option (List IpAddr) → List Address
all_with_port port none = []
all_with_port port (some ips) = map (with_port port) ips

abbrev pub ips_of : Option (List SocketAddr) → Option (List IpAddr)
ips_of none = none
ips_of (some addrs) = some (map (λ a. SocketAddr.ip a) addrs)

abbrev pub or_else : List Address → List Address → List Address
or_else [] others = others
or_else (a ∷ as_found) others = a ∷ as_found

abbrev pub non_empty : List Address → Option (List Address)
non_empty [] = none
non_empty (a ∷ rest) = some (a ∷ rest)

abbrev pub ask : Option (List ℕ → Option (List IpAddr)) → List ℕ → Option (List IpAddr)
ask none name = none
ask (some resolve) name = resolve name

unfoldable pub resolve_domain_ips : Answers → Address → Option (List Address)
resolve_domain_ips answers (domain name port) = non_empty (
    or_else (all_with_port port (ask answers.dns name))
      (all_with_port port (ips_of (answers.lookup_host name port))))
resolve_domain_ips answers dest = none

-- The task that resolves in the background, as what it will give.
unfoldable pub prefetch_dns : Answers → Address → Option (Option (List Address))
unfolding resolve_domain_ips
prefetch_dns answers (domain name port) = elim answers.dns [
  | none ↦ none
  | some resolve ↦ some (resolve_domain_ips answers (domain name port))
]
prefetch_dns answers dest = none

abbrev is_if_non_match : RoutingDomainStrategy → Bool
is_if_non_match ip_if_non_match = true
is_if_non_match strategy = false

abbrev pub is_domain_dest : Address → Bool
is_domain_dest (domain name port) = true
is_domain_dest dest = false

-- What a connection is known by besides its destination.
pub record Origin : Type 0 where
  pub inbound_tag : List ℕ
  pub user : Option (List ℕ)
  pub sniffed_protocol : Option (List ℕ)
  pub sniffed_domain : Option (List ℕ)

abbrev pub routing_ctx : Origin → Address → RoutingContext
routing_ctx origin dest = record {
  dest = dest;
  network = tcp;
  inbound_tag = origin.inbound_tag;
  user = origin.user;
  sniffed_protocol = origin.sniffed_protocol;
  sniffed_domain = origin.sniffed_domain;
}

module _ (n : IpNet) (lower : List ℕ → List ℕ) (inner : RouterInner n lower) (answers : Answers)
    (origin : Origin) where
  -- The loop over the addresses of a name.
  unfoldable pub first_match : List Address → Option (List ℕ)
  first_match [] = none
  first_match (ip ∷ ips) =
      let rest = first_match ips in
      let (route, matched) = Rule.pick_route_match n lower inner (routing_ctx origin ip) in
      if matched then some route else rest

  abbrev pub match_of : Option (List Address) → Option (List ℕ)
  match_of none = none
  match_of (some ips) = first_match ips

  abbrev pub or_route : Option (List ℕ) → List ℕ → List ℕ
  or_route none route = route
  or_route (some r) route = r

  -- What comes when no address of the name has decided: the rules for the destination as given, and
  -- with `ip_if_non_match` those for its addresses.
  unfoldable pub pick_given : RoutingDomainStrategy → Address → List ℕ
  unfolding first_match resolve_domain_ips prefetch_dns
  pick_given strategy dest =
      let (route, matched) = Rule.pick_route_match n lower inner (routing_ctx origin dest) in
      let prefetch : Option (Option (List Address)) =
        if is_if_non_match strategy && (is_domain_dest dest && inner.has_ip_rules)
        then prefetch_dns answers dest
        else none in
      let resolved : Option (List Address) = elim prefetch [
        | some ips ↦ ips
        | none ↦ resolve_domain_ips answers dest
      ] in
      if matched then route else elim strategy [
        | ip_if_non_match ↦
            if is_domain_dest dest then or_route (match_of resolved) route else route
        | _ ↦ route
      ]

  unfoldable pub pick_route_xray : RoutingDomainStrategy → Address → List ℕ
  unfolding pick_given first_match resolve_domain_ips
  pick_route_xray ip_on_demand dest =
      let given = pick_given ip_on_demand dest in
      if is_domain_dest dest && inner.has_ip_rules
      then or_route (match_of (resolve_domain_ips answers dest)) given
      else given
  pick_route_xray strategy dest = pick_given strategy dest
