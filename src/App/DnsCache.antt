-- ===== src/App/DnsCache.antt =====
-- The cache of resolved names: crates/blackwire-app/src/dns/cache.rs. The crate lru is a parameter. A
-- point in time is a number of seconds.
pub mod History
use v2ray.Prelude.{
  ℕ, zero, suc, ◌+◌, ◌<◌, ◌≡◌, ◌≢◌, Bool, true, false, Option, none, some, List, [], ◌∷◌, leb, ltb,
  if◌then◌else◌, max,
}
use v2ray.Common.Address.{IpAddr}
use v2ray.App.FakeIp.Maps.{Domain}

pub record CacheEntry : Type 0 where
  pub ips : List IpAddr
  pub expires : ℕ

-- `get` makes an entry the most recently used one, `peek` only looks, `iter` lists the entries.
pub record LruMap : Type 1 where
  pub Cache : Type 0
  pub new : ℕ → Cache
  pub get : Domain → Cache → Option CacheEntry × Cache
  pub put : Domain → CacheEntry → Cache → Cache
  pub pop : Domain → Cache → Cache
  pub peek : Domain → Cache → Option CacheEntry
  pub iter : Cache → List (Domain × CacheEntry)

-- What the documentation of lru says. `put` may drive out another entry.
pub record LruMapLaws (l : LruMap) : Type 0 where
  pub peek-new : (n : ℕ) (k : Domain) → l.peek k (l.new n) ≡ none
  pub got : (k : Domain) (c : l.Cache) → (l.get k c).0 ≡ l.peek k c
  pub peek-get : (k q : Domain) (c : l.Cache) → l.peek q (l.get k c).1 ≡ l.peek q c
  pub peek-put : (k : Domain) (e : CacheEntry) (c : l.Cache) → l.peek k (l.put k e c) ≡ some e
  pub peek-put_ne :
      (k q : Domain) (e d : CacheEntry) (c : l.Cache)
      → q ≢ k
      → l.peek q (l.put k e c) ≡ some d
      → l.peek q c ≡ some d
  pub peek-pop : (k : Domain) (c : l.Cache) → l.peek k (l.pop k c) ≡ none
  pub peek-pop_ne : (k q : Domain) (c : l.Cache) → q ≢ k → l.peek q (l.pop k c) ≡ l.peek q c

module _ (l : LruMap) where
  unfoldable pub new : ℕ → l.Cache
  new capacity = l.new (max capacity 1)

  unfoldable pub get : Domain → ℕ → l.Cache → Option (List IpAddr) × l.Cache
  get domain now c =
      let (found, c) = l.get domain c in
      elim found [
        | none ↦ (none, c)
        | some e ↦ if leb now e.expires then (some e.ips, c) else (none, l.pop domain c)
      ]

  unfoldable pub insert : Domain → List IpAddr → ℕ → ℕ → l.Cache → l.Cache
  insert domain ips ttl_secs now c = l.put domain (record { ips = ips; expires = now + ttl_secs }) c

  -- The keys of the entries that have expired, and their removal one by one.
  unfoldable pub expired_keys : ℕ → List (Domain × CacheEntry) → List Domain
  expired_keys now [] = []
  expired_keys now ((k, v) ∷ rest) =
      if ltb (CacheEntry.expires v) now then k ∷ expired_keys now rest else expired_keys now rest

  unfoldable pub pop_all : List Domain → l.Cache → l.Cache
  pop_all [] c = c
  pop_all (k ∷ ks) c = pop_all ks (l.pop k c)

  unfoldable pub evict_expired : ℕ → l.Cache → l.Cache
  unfolding expired_keys pop_all
  evict_expired now c = pop_all (expired_keys now (l.iter c)) c
