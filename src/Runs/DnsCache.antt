-- ===== src/Runs/DnsCache.antt =====
-- The cache of names with room for one entry.
use native.Mathlib.Decide.{ℕ_discrete}
use v2ray.Prelude.{◌≤◌, ◌≡◌, ◌≢◌, refl, sym, ◌∙◌, arith, Option, none, some, List, [], ◌∷◌}
use v2ray.Common.Address.{IpAddr, v4}
use v2ray.Common.Maps.{bytes_dec}
use v2ray.App.FakeIp.Maps.{Domain}
use v2ray.App.DnsCache
use v2ray.App.DnsCache.{CacheEntry, LruMap, LruMapLaws}
use v2ray.App.DnsCache.History.{
  Call, getting, inserting, evicting, after, last_inserted, get-last_inserted, get-insert,
}

abbrev seek : Domain → Option (Domain × CacheEntry) → Option CacheEntry
seek k none = none
seek k (some (d, e)) = elim (bytes_dec d k) [ yes _ ↦ some e | no _ ↦ none ]

abbrev drop_entry : Domain → Option (Domain × CacheEntry) → Option (Domain × CacheEntry)
drop_entry k none = none
drop_entry k (some (d, e)) = elim (bytes_dec d k) [ yes _ ↦ none | no _ ↦ some (d, e) ]

abbrev listed : Option (Domain × CacheEntry) → List (Domain × CacheEntry)
listed none = []
listed (some x) = x ∷ []

abbrev single : LruMap
single = record {
  Cache = Option (Domain × CacheEntry);
  new = λ n. none;
  get = λ k c. (seek k c, c);
  put = λ k e c. some (k, e);
  pop = drop_entry;
  peek = seek;
  iter = listed;
}

seek-first : (k : Domain) (e : CacheEntry) → seek k (some (k, e)) ≡ some e
seek-first k e = elim (bytes_dec k k) as (λ d. elim d [ yes _ ↦ some e | no _ ↦ none ] ≡ some e) [
  | yes _ ↦ refl
  | no n ↦ absurd (n refl)
]

seek-other : (k q : Domain) (e : CacheEntry) → q ≢ k → seek q (some (k, e)) ≡ none
seek-other k q e n = elim (bytes_dec k q) as (λ d. elim d [ yes _ ↦ some e | no _ ↦ none ] ≡ none) [
  | yes same ↦ absurd (n (sym same))
  | no _ ↦ refl
]

seek-drop : (k : Domain) (c : Option (Domain × CacheEntry)) → seek k (drop_entry k c) ≡ none
seek-drop k none = refl
seek-drop k (some (d, e)) =
    elim (bytes_dec d k) as (λ x. seek k (elim x [ yes _ ↦ none | no _ ↦ some (d, e) ]) ≡ none) [
      | yes _ ↦ refl
      | no n ↦ seek-other d k e (λ same. n (sym same))
    ]

seek-drop_ne :
    (k q : Domain) (c : Option (Domain × CacheEntry)) → q ≢ k → seek q (drop_entry k c) ≡ seek q c
seek-drop_ne k q none n = refl
seek-drop_ne k q (some (d, e)) n =
    elim (bytes_dec d k)
      as (λ x. seek q (elim x [ yes _ ↦ none | no _ ↦ some (d, e) ]) ≡ seek q (some (d, e))) [
        | yes same ↦ sym (seek-other d q e (λ here. n (here ∙ same)))
        | no _ ↦ refl
      ]

not_none : (e : CacheEntry) → ¬ (Path (Option CacheEntry) none (some e))
not_none e h = ground arith

single_laws : LruMapLaws single
single_laws = record {
  peek-new = λ n k. refl;
  got = λ k c. refl;
  peek-get = λ k q c. refl;
  peek-put = λ k e c. seek-first k e;
  peek-put_ne = λ k q e d c n h. absurd (not_none d (sym (seek-other k q e n) ∙ h));
  peek-pop = seek-drop;
  peek-pop_ne = seek-drop_ne;
}

abbrev name : Domain
name = b'a' ∷ b'.' ∷ b'b' ∷ []

abbrev here : List IpAddr
here = v4 (1 ∷ 2 ∷ 3 ∷ 4 ∷ []) ∷ []

abbrev calls : List Call
calls = getting name 20 ∷ evicting 15 ∷ inserting name here 60 10 ∷ []

hits : (DnsCache.get single name 70 (after single 4 calls)).0 ≡ some here
unfolding after bytes_dec ℕ_discrete
hits = refl

get-last_inserted_example :
    (e : CacheEntry) × (last_inserted calls name ≡ some e) × (e.ips ≡ here) × (70 ≤ e.expires)
get-last_inserted_example = get-last_inserted single single_laws 4 calls name 70 here hits

get-insert_example :
    (DnsCache.get single name 70 (DnsCache.insert single name here 60 10 none)).0 ≡ some here
get-insert_example = get-insert single single_laws name here 60 10 70 none (omega arith)
