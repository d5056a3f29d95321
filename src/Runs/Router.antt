-- ===== src/Runs/Router.antt =====
-- Routing on concrete rules. A range is its first address as a number and how many follow it here,
-- and the order puts the wider one of two ranges with the same first address in front.
use v2ray.Prelude.{
  ◌^◌, ◌/◌, ℕ, ◌+◌, ◌*◌, ◌≡◌, ◌⊎◌, ◌↔◌, refl, arith, Bool, true, false, ◌&&◌, ◌||◌, Option, none,
  some, List, [], ◌∷◌, ltb, leb, ◌==◌, In,
}
use v2ray.Common.Address.{IpAddr, v4, v6, domain}
use v2ray.App.Router.Ip
use v2ray.App.Router.Ip.{IpNet, any, partition_point}
use v2ray.App.Router.Domain
use v2ray.App.Router.Domain.{DomainMatcher, lowered}
use v2ray.App.Router.Rule
use v2ray.App.Router.Rule.{RoutingContext, CompiledRule, RouterInner}
use v2ray.App.Router.Disjoint.{IpNetLaws, matches-any}
use v2ray.App.Router.Labels.{UnderKey, matches_iff}
use v2ray.App.Dispatch
use v2ray.App.Dispatch.{Answers, Origin, routing_ctx, ip_if_non_match}
use v2ray.App.Dispatch.Strategies.{pick_route_xray-strategies}

abbrev number : List ℕ → ℕ
number [] = 0
number (x ∷ xs) = x + 256 * number xs

abbrev backwards : List ℕ → List ℕ → List ℕ
backwards [] acc = acc
backwards (x ∷ xs) acc = backwards xs (x ∷ acc)

abbrev value : IpAddr → ℕ
value (v4 ip) = number (backwards ip [])
value (v6 ip) = number (backwards ip [])

abbrev before : ℕ × ℕ → ℕ × ℕ → Bool
before a b = ltb a.0 b.0 || (a.0 == b.0 && leb b.1 a.1)

-- A range is its first address and how many stand behind it, so that every range is truncated.
abbrev intervals : IpNet
intervals = record {
  Net = ℕ × ℕ;
  new = λ ip _. some (value ip, 0);
  le = before;
  contains = λ net ip. leb net.0 (value ip) && leb (value ip) (net.0 + net.1);
}

before_trans : (a b c : ℕ × ℕ) → before a b ≡ true → before b c ≡ true → before a c ≡ true
before_trans a b c h g = ground arith

contains-before :
    (a p : ℕ × ℕ) (ip : IpAddr)
    → Path (Option (ℕ × ℕ)) (some (value ip, 0)) (some p)
    → intervals.contains a ip ≡ true
    → before a p ≡ true
contains-before a p ip made c = ground arith

contains_between :
    (a b p : ℕ × ℕ) (ip : IpAddr)
    → Path (Option (ℕ × ℕ)) (some (value ip, 0)) (some p)
    → intervals.contains a ip ≡ true
    → before a b ≡ true
    → before b p ≡ true
    → (intervals.contains a (v4 (b.0 ∷ [])) ≡ true) × (intervals.contains b (v4 (b.0 ∷ [])) ≡ true)
contains_between a b p ip made c h g = ground arith

intervals_laws : IpNetLaws intervals
intervals_laws = record {
  probe = λ ip. ((value ip, 0), refl);
  le_trans = before_trans;
  trunc = λ net. net;
  contains-le = λ a p ip whole made c. contains-before a p ip made c;
  between = λ a b p ip whole made c h g.
      let (in_a, in_b) = contains_between a b p ip made c h g in (v4 (b.0 ∷ []), in_a, in_b);
}

-- 10.0.0.0/8 and 192.168.0.0/16 do not overlap.
abbrev private_ranges : List (ℕ × ℕ)
private_ranges = (0x0A000000, 0xFFFFFF) ∷ (0xC0A80000, 0xFFFF) ∷ []

apart :
    (q : IpAddr)
    → intervals.contains (0x0A000000, 0xFFFFFF) q ≡ true
    → ¬ (intervals.contains (0xC0A80000, 0xFFFF) q ≡ true)
apart q h g = ground arith

matches-any_example :
    (Ip.matches intervals private_ranges (v4 (10 ∷ 1 ∷ 2 ∷ 3 ∷ [])) ≡ true)
    ↔ (any (λ net. intervals.contains net (v4 (10 ∷ 1 ∷ 2 ∷ 3 ∷ []))) private_ranges ≡ true)
unfolding intervals_laws
matches-any_example =
    matches-any intervals intervals_laws private_ranges (v4 (10 ∷ 1 ∷ 2 ∷ 3 ∷ []))
      (refl, (refl, tt)) (((refl, apart), tt), (tt, tt))

-- 10.0.0.0/8 contains the address 10.9.0.1, but four narrower ranges stand in between.
abbrev nested_ranges : List (ℕ × ℕ)
nested_ranges =
    (0x0A000000, 0xFFFFFF)
    ∷ (0x0A010000, 0xFFFF)
    ∷ (0x0A020000, 0xFFFF)
    ∷ (0x0A030000, 0xFFFF)
    ∷ (0x0A040000, 0xFFFF)
    ∷ []

overlooked :
    (Ip.matches intervals nested_ranges (v4 (10 ∷ 9 ∷ 0 ∷ 1 ∷ [])) ≡ false)
    × (any (λ net. intervals.contains net (v4 (10 ∷ 9 ∷ 0 ∷ 1 ∷ []))) nested_ranges ≡ true)
unfolding Ip.matches
overlooked = (refl, refl)

-- Ranges as they are written: an address, and how many bits stand behind the prefix.
abbrev written : IpNet
written = record {
  Net = ℕ × ℕ;
  new = λ ip _. some (value ip, 0);
  le = λ a b. ltb a.0 b.0 || (a.0 == b.0 && leb b.1 a.1);
  contains = λ net ip. net.0 / 2 ^ net.1 == value ip / 2 ^ net.1;
}

-- 10.0.0.5/8 contains the address 10.0.0.1, and stands behind it.
untruncated :
    (Ip.matches written ((0x0A000005, 24) ∷ []) (v4 (10 ∷ 0 ∷ 0 ∷ 1 ∷ [])) ≡ false)
    × (any (λ net. written.contains net (v4 (10 ∷ 0 ∷ 0 ∷ 1 ∷ []))) ((0x0A000005, 24) ∷ []) ≡ true)
unfolding Ip.matches
untruncated = (refl, refl)

abbrev keep : List ℕ → List ℕ
keep name = name

abbrev example : List ℕ
example = b'a' ∷ b'.' ∷ b'b' ∷ []

abbrev matcher : DomainMatcher
matcher = record { full = []; suffix = example ∷ []; keyword = λ _. false; regex = λ _. false }

abbrev sub_example : List ℕ
sub_example = b'x' ∷ b'.' ∷ example

matches_iff_example : (Domain.matches keep matcher sub_example ≡ true) ↔ (
    In (lowered keep sub_example) []
    ⊎ (UnderKey (example ∷ []) (lowered keep sub_example) ⊎ ((false ≡ true) ⊎ (false ≡ true))))
matches_iff_example = matches_iff keep matcher sub_example

abbrev by_name : CompiledRule intervals keep
by_name = record {
  outbound_tag = b'p' ∷ [];
  domain_matcher = some matcher;
  geosite_codes = [];
  ip_matcher = none;
  geoip_codes = [];
  port_ranges = (1, 1000) ∷ [];
  inbound_tags = [];
  protocols = [];
}

abbrev inner : RouterInner intervals keep
inner = Rule.compile intervals keep (by_name ∷ []) (b'd' ∷ []) (λ _. none) (λ _. none) none

abbrev answers : Answers
answers = record {
  dns = some (λ name. some (v4 (5 ∷ 6 ∷ 7 ∷ 8 ∷ []) ∷ []));
  lookup_host = λ name p. none;
}

abbrev origin : Origin
origin = record {
  inbound_tag = b'i' ∷ [];
  user = none;
  sniffed_protocol = none;
  sniffed_domain = none;
}

pick_route_xray-strategies_example :
    Dispatch.pick_route_xray intervals keep inner answers origin ip_if_non_match
      (domain (b'x' ∷ []) 80)
    ≡ (Rule.pick_route_match intervals keep inner (routing_ctx origin (domain (b'x' ∷ []) 80))).0
unfolding Rule.compile
pick_route_xray-strategies_example =
    pick_route_xray-strategies intervals keep origin refl (by_name ∷ []) (b'd' ∷ []) (λ _. none)
      (λ _. none) none answers ip_if_non_match (domain (b'x' ∷ []) 80) refl
