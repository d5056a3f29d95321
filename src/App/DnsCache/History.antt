-- ===== src/App/DnsCache/History.antt =====
-- What the cache answers, against the history of what was inserted.
use v2ray.Prelude.{
  ℕ, ◌+◌, ◌≤◌, ◌≡◌, ◌⊎◌, inl, inr, sym, ◌∙◌, subst, Option, none, some, List, [], ◌∷◌, arith, leb,
  leb→le, Bool-cases, Option-cases,
}
use v2ray.Common.Address.{IpAddr}
use v2ray.Common.Maps.{bytes_dec}
use v2ray.App.FakeIp.Maps.{Domain}
use v2ray.App.DnsCache
use v2ray.App.DnsCache.{max, CacheEntry, LruMap, LruMapLaws}

-- The calls of the cache, each with the time of the clock.
pub data Call : Type 0 where
  getting : Domain → ℕ → Call
  inserting : Domain → List IpAddr → ℕ → ℕ → Call
  evicting : ℕ → Call

-- The entry that was inserted last for a domain.
unfoldable pub last_inserted : List Call → Domain → Option CacheEntry
last_inserted [] d = none
last_inserted (getting k now ∷ calls) d = last_inserted calls d
last_inserted (evicting now ∷ calls) d = last_inserted calls d
last_inserted (inserting k ips ttl now ∷ calls) d = elim (bytes_dec d k) [
  | yes _ ↦ some (record { ips = ips; expires = now + ttl })
  | no _ ↦ last_inserted calls d
]

module _ (l : LruMap) where
  -- The cache after the calls, the last one first.
  unfoldable pub after : ℕ → List Call → l.Cache
  unfolding DnsCache.new DnsCache.get DnsCache.insert DnsCache.evict_expired
  after capacity [] = DnsCache.new l capacity
  after capacity (getting k now ∷ calls) = (DnsCache.get l k now (after capacity calls)).1
  after capacity (inserting k ips ttl now ∷ calls) =
      DnsCache.insert l k ips ttl now (after capacity calls)
  after capacity (evicting now ∷ calls) = DnsCache.evict_expired l now (after capacity calls)

  module _ (laws : LruMapLaws l) where
    abbrev Kept : l.Cache → l.Cache → Type 0
    Kept c b = (q : Domain) (e : CacheEntry) → l.peek q b ≡ some e → l.peek q c ≡ some e

    pop-Kept : (k : Domain) (c : l.Cache) → Kept c (l.pop k c)
    pop-Kept k c q e h = elim (bytes_dec q k) [
      | yes same ↦ absurd (popped k q c e same h)
      | no other ↦ sym (laws.peek-pop_ne k q c other) ∙ h
    ]
      where
        popped :
            (k q : Domain) (c : l.Cache) (e : CacheEntry)
            → q ≡ k
            → ¬ (l.peek q (l.pop k c) ≡ some e)
        popped k q c e same h = let gone = laws.peek-pop k c in ground arith

    pop_all-Kept : (ks : List Domain) (c : l.Cache) → Kept c (DnsCache.pop_all l ks c)
    unfolding DnsCache.pop_all
    pop_all-Kept [] c q e h = h
    pop_all-Kept (k ∷ ks) c q e h = pop-Kept k c q e (pop_all-Kept ks (l.pop k c) q e h)

    get_state :
        (k : Domain) (now : ℕ) (c : l.Cache)
        → ((DnsCache.get l k now c).1 ≡ (l.get k c).1)
          ⊎ ((DnsCache.get l k now c).1 ≡ l.pop k (l.get k c).1)
    unfolding DnsCache.get
    get_state k now c = elim (Option-cases (l.get k c).0) [
      | inl e ↦ inl (ground arith)
      | inr (v, e) ↦ elim (Bool-cases (leb now v.expires)) [
        | inl live ↦ inl (ground arith)
        | inr old ↦ inr (ground arith)
      ]
    ]

    get-Kept : (k : Domain) (now : ℕ) (c : l.Cache) → Kept c (DnsCache.get l k now c).1
    get-Kept k now c q e h = elim (get_state k now c) [
      | inl same ↦ sym (laws.peek-get k q c) ∙ subst (λ b. l.peek q b ≡ some e) same h
      | inr popped ↦
          sym (laws.peek-get k q c)
          ∙ pop-Kept k (l.get k c).1 q e (subst (λ b. l.peek q b ≡ some e) popped h)
    ]

    put_entry :
        (k q : Domain) (v e : CacheEntry) (c : l.Cache)
        → q ≡ k
        → l.peek q (l.put k v c) ≡ some e
        → Path (Option CacheEntry) (some v) (some e)
    put_entry k q v e c same h = let put = laws.peek-put k v c in ground arith

    -- What is in the cache was inserted last.
    peek-last_inserted :
        (capacity : ℕ) (calls : List Call) (q : Domain) (e : CacheEntry)
        → l.peek q (after capacity calls) ≡ some e
        → last_inserted calls q ≡ some e
    unfolding after last_inserted DnsCache.new DnsCache.insert DnsCache.evict_expired
    peek-last_inserted capacity [] q e h =
        let empty = laws.peek-new (max capacity 1) q in ground arith
    peek-last_inserted capacity (getting k now ∷ calls) q e h =
        peek-last_inserted capacity calls q e (get-Kept k now (after capacity calls) q e h)
    peek-last_inserted capacity (evicting now ∷ calls) q e h =
        peek-last_inserted capacity calls q e (
          pop_all-Kept (DnsCache.expired_keys l now (l.iter (after capacity calls)))
            (after capacity calls) q e h)
    peek-last_inserted capacity (inserting k ips ttl now ∷ calls) q e h =
        elim (bytes_dec q k)
          as (λ d.
            (elim d [
              | yes _ ↦ some (record { ips = ips; expires = now + ttl })
              | no _ ↦ last_inserted calls q
            ])
            ≡ some e) [
              | yes same ↦
                  put_entry k q (record { ips = ips; expires = now + ttl }) e (after capacity calls)
                    same h
              | no other ↦ peek-last_inserted capacity calls q e (
                  laws.peek-put_ne k q (record { ips = ips; expires = now + ttl }) e
                    (after capacity calls) other h)
            ]

    answer :
        (d : Domain) (now : ℕ) (c : l.Cache) (ips : List IpAddr)
        → (DnsCache.get l d now c).0 ≡ some ips
        → (e : CacheEntry) × (l.peek d c ≡ some e) × (e.ips ≡ ips) × (now ≤ e.expires)
    unfolding DnsCache.get
    answer d now c ips h = elim (Option-cases (l.get d c).0) [
      | inl e ↦ absurd (ground arith)
      | inr (v, e) ↦ elim (Bool-cases (leb now v.expires)) [
        | inl live ↦ (v, sym (laws.got d c) ∙ e, ground arith, leb→le _ _ live)
        | inr old ↦ absurd (ground arith)
      ]
    ]

    hit :
        (d : Domain) (now : ℕ) (c : l.Cache) (e : CacheEntry)
        → l.peek d c ≡ some e
        → now ≤ e.expires
        → (DnsCache.get l d now c).0 ≡ some e.ips
    unfolding DnsCache.get
    hit d now c e h live = ground (arith, laws.got d c)

    -- After any calls of a new cache, a hit returns what was inserted last for the domain, and this
    -- has not expired.
    pub get-last_inserted :
        (capacity : ℕ) (calls : List Call) (d : Domain) (now : ℕ) (ips : List IpAddr)
        → (DnsCache.get l d now (after capacity calls)).0 ≡ some ips
        → (e : CacheEntry) × (last_inserted calls d ≡ some e) × (e.ips ≡ ips) × (now ≤ e.expires)
    get-last_inserted capacity calls d now ips h =
        let (e, peeked, same, live) = answer d now (after capacity calls) ips h in
        (e, peek-last_inserted capacity calls d e peeked, same, live)

    -- What has just been inserted, in whatever cache, is hit until it expires.
    pub get-insert :
        (d : Domain) (ips : List IpAddr) (ttl now later : ℕ) (c : l.Cache)
        → later ≤ now + ttl
        → (DnsCache.get l d later (DnsCache.insert l d ips ttl now c)).0 ≡ some ips
    unfolding DnsCache.insert
    get-insert d ips ttl now later c live =
        let e : CacheEntry = record { ips = ips; expires = now + ttl } in
        hit d later (l.put d e c) e (laws.peek-put d e c) live
