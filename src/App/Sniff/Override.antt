-- ===== src/App/Sniff/Override.antt =====
-- What the sniffed domain does to the destination.
use v2ray.Prelude.{
  ◌≡◌, ◌⊎◌, inl, inr, refl, false, some, List, ℕ, not, ◌||◌, Bool-cases, Option-cases, arith,
}
use v2ray.Common.Address.{Address, ipv4, ipv6, domain, port, is_domain}
use v2ray.App.Sniff.{
  override, SniffResult, SniffingConfig, apply_dest_override, override_ip, any_overrides,
}

-- The outcome of the override for a destination with a port.
abbrev Outcome : Address → ℕ → SniffResult → Address → Type 0
Outcome dest p sniff result =
    (result ≡ dest)
    ⊎ ((name : List ℕ) × (sniff.domain ≡ some name)
        × (is_domain dest ≡ false)
        × (result ≡ domain name p))

by_ip :
    (dest : Address) (p : ℕ) (sniff : SniffResult) (config : SniffingConfig)
    → is_domain dest ≡ false
    → ((name : List ℕ) → override config name dest ≡ override_ip config name p dest)
    → Outcome dest p sniff (apply_dest_override dest sniff config)
unfolding apply_dest_override
by_ip dest p sniff config ip h = elim (Bool-cases (not config.enabled || config.route_only)) [
  | inl off ↦ inl (rw (apply_dest_override, off) refl)
  | inr on ↦ elim (Option-cases sniff.domain) [
    | inl e ↦ inl (rw (apply_dest_override, on, e) refl)
    | inr (name, e) ↦ elim (Bool-cases (any_overrides config.dest_override)) [
      | inl asked ↦ inr (name, e, ip, rw (apply_dest_override, on, e, h name, asked) refl)
      | inr other ↦ inl (rw (apply_dest_override, on, e, h name, other) refl)
    ]
  ]
]

-- The destination stays as it is, or it was an address and is now the sniffed name with the port of
-- the address.
apply_dest_override_lem :
    (dest : Address) (sniff : SniffResult) (config : SniffingConfig)
    → Outcome dest (port dest) sniff (apply_dest_override dest sniff config)
unfolding apply_dest_override is_domain port
apply_dest_override_lem (domain d p) sniff config = inl (ground arith)
apply_dest_override_lem (ipv4 ip p) sniff config =
    by_ip (ipv4 ip p) p sniff config refl (λ name. refl)
apply_dest_override_lem (ipv6 ip p) sniff config =
    by_ip (ipv6 ip p) p sniff config refl (λ name. refl)
