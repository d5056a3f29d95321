-- ===== src/Common/Action.antt =====
-- A call that keeps state: the state comes back also when the call ends in an error, as what was
-- sent stays sent. A triple relates the state before such a call and the state after it.
use v2ray.Prelude.{if◌then◌else◌, false, true, refl, Bool, ◌≡◌, Option, none, some}
use v2ray.Common.Result.{Result, ok, err, panic, stuck, ProxyError}

abbrev pub Action : Type 0 → Type 0 → Type 0
Action S A = S → Result A × S

module _ {S : Type 0} where
  abbrev pub pure : {A : Type 0} → A → Action S A
  pure a s = (ok a, s)

  abbrev pub lift : {A : Type 0} → Result A → Action S A
  lift r s = (r, s)

  abbrev pub modify : (S → S) → Action S (Unit {0})
  modify f s = (ok tt, f s)

  -- `if let Some(e) = failure { return Err(e) }`
  abbrev pub or_fail : Option ProxyError → Action S (Unit {0})
  or_fail none s = (ok tt, s)
  or_fail (some e) s = (err e, s)

  abbrev pub continue : {A B : Type 0} → Result A × S → (A → Action S B) → Result B × S
  continue (ok a, s) f = f a s
  continue (err e, s) f = (err e, s)
  continue (panic, s) f = (panic, s)
  continue (stuck, s) f = (stuck, s)

  infixl 5 ◌>>=◌ ◌>>◌
  abbrev pub ◌>>=◌ : {A B : Type 0} → Action S A → (A → Action S B) → Action S B
  ◌>>=◌ m f s = continue (m s) f

  abbrev pub ◌>>◌ : {A B : Type 0} → Action S A → Action S B → Action S B
  m >> k = m >>= λ _. k

  -- The call ends in a value and a state with the property, or in an error value, or waits for ever
  -- for a lock. It does not panic.
  abbrev pub Ends : {A : Type 0} → (A → S → Type 0) → Result A × S → Type 0
  Ends Q (ok a, s) = Q a s
  Ends Q (err e, s) = Unit {0}
  Ends Q (panic, s) = ⊥
  Ends Q (stuck, s) = Unit {0}

  -- From a state with `P`, the call ends as `Q` says.
  pub record Triple {A : Type 0} (P : S → Type 0) (m : Action S A) (Q : A → S → Type 0)
      : Type 0 where
    pub run : (s : S) → P s → Ends Q (m s)

  pub pure-Triple : {A : Type 0} {Q : A → S → Type 0} (a : A) → Triple (Q a) (pure a) Q
  pure-Triple a = record { run = λ s h. h }

  continue-Ends :
      {A B : Type 0} {Q : A → S → Type 0} {R : B → S → Type 0} (r : Result A) (s : S)
      (f : A → Action S B)
      → Ends Q (r, s)
      → ((a : A) → Triple (Q a) (f a) R)
      → Ends R (continue (r, s) f)
  continue-Ends (ok a) s f h k = Triple.run (k a) s h
  continue-Ends (err e) s f h k = tt
  continue-Ends panic s f h k = h
  continue-Ends stuck s f h k = tt

  pub bind-Triple :
      {A B : Type 0} {P : S → Type 0} {Q : A → S → Type 0} {R : B → S → Type 0} {m : Action S A}
      {f : A → Action S B}
      → Triple P m Q
      → ((a : A) → Triple (Q a) (f a) R)
      → Triple P (m >>= f) R
  bind-Triple {m} {f} h k = record {
    run = λ s p. continue-Ends (m s).0 (m s).1 f (Triple.run h s p) k;
  }

  pub modify-Triple :
      {P Q : S → Type 0} {f : S → S} → ((s : S) → P s → Q (f s)) → Triple P (modify f) (λ u. Q)
  modify-Triple h = record { run = h }

  -- `if let`, with what the value was.
  pub Option-Ends :
      {A B : Type 0} (Q : B → S → Type 0) (o : Option A) (x : Result B × S) (f : A → Result B × S)
      → (o ≡ none → Ends Q x)
      → ((a : A) → o ≡ some a → Ends Q (f a))
      → Ends Q (elim o [ none ↦ x | some a ↦ f a ])
  Option-Ends Q none x f h k = h refl
  Option-Ends Q (some a) x f h k = k a refl

  pub if-Triple :
      {A : Type 0} {P : S → Type 0} {Q : A → S → Type 0} (b : Bool) {m n : Action S A}
      → (b ≡ true → Triple P m Q)
      → (b ≡ false → Triple P n Q)
      → Triple P (if b then m else n) Q
  if-Triple true h k = h refl
  if-Triple false h k = k refl

  pub Ends-map :
      {A : Type 0} (Q R : A → S → Type 0)
      → ((a : A) (s : S) → Q a s → R a s)
      → (r : Result A × S) → Ends Q r
      → Ends R r
  Ends-map Q R f (ok a, s) h = f a s h
  Ends-map Q R f (err e, s) h = tt
  Ends-map Q R f (panic, s) h = h
  Ends-map Q R f (stuck, s) h = tt

  pub Ends-both :
      {A : Type 0} (P Q : S → Type 0) (r : Result A × S)
      → Q r.1
      → Ends (λ a. P) r
      → Ends (λ a s. P s × Q s) r
  Ends-both P Q (ok a, s) q h = (h, q)
  Ends-both P Q (err e, s) q h = tt
  Ends-both P Q (panic, s) q h = h
  Ends-both P Q (stuck, s) q h = tt
