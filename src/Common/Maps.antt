-- ===== src/Common/Maps.antt =====
-- The crate dashmap, as far as the code uses it, and what its documentation says.
use native.Mathlib.Decide.{ℕ_discrete}
use v2ray.Prelude.{true, Bool, In, ℕ, suc, ◌≡◌, ◌≢◌, Option, none, some, List, [], ◌∷◌, refl, arith}

-- `values` are the values of the entries, in some order, as `iter` gives them.
pub record DashMap (K V : Type 0) : Type 1 where
  pub Map : Type 0
  pub new : Map
  pub get : K → Map → Option V
  pub insert : K → V → Map → Map
  pub remove : K → Map → Option V × Map
  pub len : Map → ℕ
  pub values : Map → List V

pub record DashMapLaws {K V : Type 0} (d : DashMap K V) : Type 0 where
  pub get-new : (k : K) → d.get k d.new ≡ none
  pub len-new : d.len d.new ≡ 0
  pub get-insert : (k : K) (v : V) (m : d.Map) → d.get k (d.insert k v m) ≡ some v
  pub get-insert_ne : (k q : K) (v : V) (m : d.Map) → q ≢ k → d.get q (d.insert k v m) ≡ d.get q m
  pub len-insert :
      (k : K) (v : V) (m : d.Map) → d.get k m ≡ none → d.len (d.insert k v m) ≡ suc (d.len m)
  pub removed : (k : K) (m : d.Map) → (d.remove k m).0 ≡ d.get k m
  pub get-remove : (k : K) (m : d.Map) → d.get k (d.remove k m).1 ≡ none
  pub get-remove_ne : (k q : K) (m : d.Map) → q ≢ k → d.get q (d.remove k m).1 ≡ d.get q m
  pub len-remove :
      (k : K) (v : V) (m : d.Map) → d.get k m ≡ some v → suc (d.len (d.remove k m).1) ≡ d.len m
  pub values-get : (k : K) (v : V) (m : d.Map) → d.get k m ≡ some v → In v (d.values m)

pub no_nil : (y : ℕ) (ys : List ℕ) → ¬ (Path (List ℕ) [] (y ∷ ys))
no_nil y ys e = ground arith

pub no_cons : (x : ℕ) (xs : List ℕ) → ¬ (Path (List ℕ) (x ∷ xs) [])
no_cons x xs e = ground arith

both :
    {x y : ℕ} {xs ys : List ℕ} → Dec (x ≡ y) → Dec (xs ≡ ys) → Dec (Path (List ℕ) (x ∷ xs) (y ∷ ys))
both (yes p) (yes q) = yes (λ i. p i ∷ q i)
both (yes p) (no n) = no (λ e. n (ground arith))
both (no n) q = no (λ e. n (ground arith))

unfoldable pub bytes_dec : Discrete (List ℕ)
unfolding both
bytes_dec [] [] = yes refl
bytes_dec [] (y ∷ ys) = no (no_nil y ys)
bytes_dec (x ∷ xs) [] = no (no_cons x xs)
bytes_dec (x ∷ xs) (y ∷ ys) = both (ℕ_discrete x y) (bytes_dec xs ys)

-- `retain`, and its documentation.
pub record Retain {K V : Type 0} (d : DashMap K V) : Type 0 where
  pub retain : (K → V → Bool) → d.Map → d.Map

pub record RetainLaws {K V : Type 0} {d : DashMap K V} (r : Retain d) : Type 0 where
  pub kept :
      (keep : K → V → Bool) (k : K) (v : V) (m : d.Map)
      → d.get k m ≡ some v
      → keep k v ≡ true
      → d.get k (r.retain keep m) ≡ some v
