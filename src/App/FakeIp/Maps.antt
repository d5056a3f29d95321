-- ===== src/App/FakeIp/Maps.antt =====
-- The crate lru, as far as the pool uses it, and what its documentation says.
use v2ray.Prelude.{In, ℕ, ◌<◌, ◌≡◌, Option, some, List, [], ◌∷◌, ◌++◌, length}

-- `keys` lists the entries, the most recently used first, as `iter` does.
pub record LruCache (K : Type 0) : Type 1 where
  pub Cache : Type 0
  pub new : ℕ → Cache
  pub get : K → Cache → Cache
  pub put : K → Cache → Cache
  pub pop : K → Cache → Cache
  pub pop_lru : Cache → Option K × Cache
  pub keys : Cache → List K
  pub cap : Cache → ℕ

-- A list without the first occurrence of a key.
module _ {K : Type 0} (dec : Discrete K) where
  unfoldable pub without : K → List K → List K
  without k [] = []
  without k (x ∷ xs) = elim (dec x k) [ yes _ ↦ xs | no _ ↦ x ∷ without k xs ]

  pub record LruCacheLaws (c : LruCache K) : Type 0 where
    pub keys-new : (n : ℕ) → c.keys (c.new n) ≡ []
    pub cap-new : (n : ℕ) → c.cap (c.new n) ≡ n
    pub keys-get :
        (k : K) (m : c.Cache) → In k (c.keys m) → c.keys (c.get k m) ≡ k ∷ without k (c.keys m)
    pub cap-get : (k : K) (m : c.Cache) → c.cap (c.get k m) ≡ c.cap m
    pub keys-put :
        (k : K) (m : c.Cache)
        → ¬ In k (c.keys m)
        → length (c.keys m) < c.cap m
        → c.keys (c.put k m) ≡ k ∷ c.keys m
    pub cap-put : (k : K) (m : c.Cache) → c.cap (c.put k m) ≡ c.cap m
    pub pops :
        (ks : List K) (k : K) (m : c.Cache) → c.keys m ≡ ks ++ (k ∷ []) → (c.pop_lru m).0 ≡ some k
    pub keys-pop_lru :
        (ks : List K) (k : K) (m : c.Cache)
        → c.keys m ≡ ks ++ (k ∷ [])
        → c.keys (c.pop_lru m).1 ≡ ks
    pub cap-pop_lru : (m : c.Cache) → c.cap (c.pop_lru m).1 ≡ c.cap m

abbrev pub Domain : Type 0
Domain = List ℕ
