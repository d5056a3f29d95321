-- ===== src/Common/Result/Holds.antt =====
-- Reasoning about a call that returns: a predicate on its value, through `>>=` and `if`.
use v2ray.Prelude.{
  [], ◌∷◌, zero, suc, not, ltb, arith, le→leb, ℕ, Bool, true, false, ◌≡◌, ◌≤◌, ◌<◌, refl, List,
  length, if◌then◌else◌,
}
use v2ray.Common.Result.{Result, ok, err, panic, stuck, ◌>>=◌, ensure, Fault, index, slice}

-- The call returns an error value, or a value with the property. It neither panics nor runs on.
abbrev pub Holds {ℓ} : {A : Type ℓ} → (A → Type 0) → Result A → Type 0
Holds P (ok a) = P a
Holds P (err e) = Unit {0}
Holds P panic = ⊥
Holds P stuck = ⊥

module _ {ℓ} {A : Type ℓ} (P : A → Type 0) where
  pub bind-Holds {κ} :
      {B : Type κ} (Q : B → Type 0) (m : Result A) (f : A → Result B)
      → Holds P m
      → ((a : A) → P a → Holds Q (f a))
      → Holds Q (m >>= f)
  bind-Holds Q (ok a) f h k = k a h
  bind-Holds Q (err e) f h k = tt
  bind-Holds Q panic f h k = h
  bind-Holds Q stuck f h k = h

  pub if-Holds :
      (b : Bool) (x y : Result A)
      → (b ≡ true → Holds P x)
      → (b ≡ false → Holds P y)
      → Holds P (if b then x else y)
  if-Holds true x y p q = p refl
  if-Holds false x y p q = q refl

  pub ensure-Holds :
      (b : Bool) (f : Fault) (k : Result A)
      → (b ≡ true → Holds P k)
      → Holds P (ensure b f >>= λ _. k)
  ensure-Holds true f k h = h refl
  ensure-Holds false f k h = tt

pub not-ltb : (a b : ℕ) → not (ltb a b) ≡ true → b ≤ a
not-ltb a b h = ground arith

pub index-Holds : (xs : List ℕ) (i : ℕ) → i < length xs → Holds (λ b. Unit {0}) (index xs i)
index-Holds [] i h = elim h [ ]
index-Holds (x ∷ xs) zero h = tt
index-Holds (x ∷ xs) (suc i) h = index-Holds xs i (omega arith)

pub slice-Holds :
    (xs : List ℕ) (from to : ℕ)
    → from ≤ to
    → to ≤ length xs
    → Holds (λ s. Unit {0}) (slice xs from to)
slice-Holds xs from to h k = rw (le→leb from to h, le→leb to (length xs) k) tt
