-- ===== src/App/FakeIp/Distinct.antt =====
-- Lists in which no key stands twice: dropping a key, and the last one.
use v2ray.Prelude.{
  In, suc, ◌≡◌, ◌≢◌, ◌⊎◌, inl, inr, refl, sym, ap, ◌∙◌, subst, List, [], ◌∷◌, ◌++◌, arith, length,
}
use v2ray.App.FakeIp.Maps.{without}

module _ {K : Type 0} where
  abbrev pub Distinct : List K → Type 0
  Distinct [] = Unit
  Distinct (x ∷ xs) = (¬ In x xs) × Distinct xs

  pub last_split : (x : K) (xs : List K) → (ks : List K) × (e : K) × (x ∷ xs ≡ ks ++ (e ∷ []))
  last_split x [] = ([], x, refl)
  last_split x (y ∷ ys) = let (ks, e, h) = last_split y ys in (x ∷ ks, e, ap (◌∷◌ x) h)

  pub In-front : (q e : K) (ks : List K) → In q ks → In q (ks ++ (e ∷ []))
  In-front q e [] h = elim h [ ]
  In-front q e (k ∷ ks) (inl h) = inl h
  In-front q e (k ∷ ks) (inr h) = inr (In-front q e ks h)

  pub In-last : (e : K) (ks : List K) → In e (ks ++ (e ∷ []))
  In-last e [] = inl refl
  In-last e (k ∷ ks) = inr (In-last e ks)

  pub In-split : (q e : K) (ks : List K) → In q (ks ++ (e ∷ [])) → In q ks ⊎ (e ≡ q)
  In-split q e [] (inl h) = inr h
  In-split q e [] (inr h) = elim h [ ]
  In-split q e (k ∷ ks) (inl h) = inl (inl h)
  In-split q e (k ∷ ks) (inr h) = elim (In-split q e ks h) [ inl g ↦ inl (inr g) | inr g ↦ inr g ]

  pub Distinct-front : (e : K) (ks : List K) → Distinct (ks ++ (e ∷ [])) → Distinct ks
  Distinct-front e [] h = tt
  Distinct-front e (k ∷ ks) h = (λ i. h.0 (In-front k e ks i), Distinct-front e ks h.1)

  pub last-new : (e : K) (ks : List K) → Distinct (ks ++ (e ∷ [])) → ¬ In e ks
  last-new e [] h i = elim i [ ]
  last-new e (k ∷ ks) h (inl i) = h.0 (subst (λ x. In x (ks ++ (e ∷ []))) (sym i) (In-last e ks))
  last-new e (k ∷ ks) h (inr i) = last-new e ks h.1 i

  module _ (dec : Discrete K) where
    pub In-of_without : (k q : K) (xs : List K) → In q (without dec k xs) → In q xs
    unfolding without
    In-of_without k q [] h = h
    In-of_without k q (x ∷ xs) h =
        elim (dec x k)
            as (λ d.
              In q (elim d [ yes _ ↦ xs | no _ ↦ x ∷ without dec k xs ]) → (x ≡ q) ⊎ In q xs) [
                | yes _ ↦ λ g. inr g
                | no _ ↦ λ g. elim g [
                  | inl here ↦ inl here
                  | inr later ↦ inr (In-of_without k q xs later)
                ]
              ]
          h

    pub In-without : (k q : K) (xs : List K) → In q xs → q ≢ k → In q (without dec k xs)
    unfolding without
    In-without k q [] h n = h
    In-without k q (x ∷ xs) h n =
        elim (dec x k) as (λ d. In q (elim d [ yes _ ↦ xs | no _ ↦ x ∷ without dec k xs ])) [
          | yes e ↦ elim h [ inl here ↦ absurd (n (sym here ∙ e)) | inr later ↦ later ]
          | no _ ↦ elim h [ inl here ↦ inl here | inr later ↦ inr (In-without k q xs later n) ]
        ]

    pub not-In-without : (k : K) (xs : List K) → Distinct xs → ¬ In k (without dec k xs)
    unfolding without
    not-In-without k [] h = λ i. i
    not-In-without k (x ∷ xs) h =
        elim (dec x k) as (λ d. ¬ In k (elim d [ yes _ ↦ xs | no _ ↦ x ∷ without dec k xs ])) [
          | yes e ↦ λ i. h.0 (subst (λ y. In y xs) (sym e) i)
          | no n ↦ λ i. elim i [ inl here ↦ n here | inr later ↦ not-In-without k xs h.1 later ]
        ]

    pub Distinct-without : (k : K) (xs : List K) → Distinct xs → Distinct (without dec k xs)
    unfolding without
    Distinct-without k [] h = h
    Distinct-without k (x ∷ xs) h =
        elim (dec x k) as (λ d. Distinct (elim d [ yes _ ↦ xs | no _ ↦ x ∷ without dec k xs ])) [
          | yes e ↦ h.1
          | no n ↦ (λ i. h.0 (In-of_without k x xs i), Distinct-without k xs h.1)
        ]

    pub length-without :
        (k : K) (xs : List K) → In k xs → suc (length (without dec k xs)) ≡ length xs
    unfolding without
    length-without k [] h = elim h [ ]
    length-without k (x ∷ xs) h =
        elim (dec x k)
          as (λ d.
            suc (length (elim d [ yes _ ↦ xs | no _ ↦ x ∷ without dec k xs ])) ≡ suc (length xs)) [
              | yes e ↦ refl
              | no n ↦ elim h [
                | inl here ↦ absurd (n here)
                | inr later ↦ omega (arith, length-without k xs later)
              ]
            ]
