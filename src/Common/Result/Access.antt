-- ===== src/Common/Result/Access.antt =====
-- Indexing and slicing a list whose parts are known.
use v2ray.Prelude.{
  subst, append-nil, ℕ, zero, suc, ◌+◌, ◌-◌, ◌<◌, ◌≡◌, refl, ap, ◌⊎◌, inl, inr, List, [], ◌∷◌, ◌++◌,
  arith, length, le→leb, length-append, take-append, drop-append, append_assoc,
}
use v2ray.Common.Result.{ok, index, slice}

pub index-append :
    (xs : List ℕ) (y : ℕ) (ys : List ℕ) (n : ℕ) → length xs ≡ n → index (xs ++ (y ∷ ys)) n ≡ ok y
index-append [] y ys zero h = refl
index-append [] y ys (suc n) h = absurd (omega arith)
index-append (x ∷ xs) y ys zero h = absurd (omega arith)
index-append (x ∷ xs) y ys (suc n) h = index-append xs y ys n (omega arith)

pub index-append_next :
    (xs : List ℕ) (y z : ℕ) (zs : List ℕ) (n : ℕ)
    → length xs ≡ n
    → index (xs ++ (y ∷ z ∷ zs)) (n + 1) ≡ ok z
index-append_next xs y z zs n h =
    rw (← append_assoc xs (y ∷ []) (z ∷ zs))
      (index-append (xs ++ (y ∷ [])) z zs (n + 1) (omega (arith, length-append xs (y ∷ []))))

pub slice-append :
    (xs ys zs : List ℕ) (n m : ℕ)
    → length xs ≡ n
    → n + length ys ≡ m
    → slice (xs ++ (ys ++ zs)) n m ≡ ok ys
slice-append xs ys zs n m hn hm = rw (
  le→leb n m (omega arith),
  le→leb m (length (xs ++ (ys ++ zs)))
      (omega (arith, length-append xs (ys ++ zs), length-append ys zs)),
  drop-append n xs (ys ++ zs) hn,
  take-append (m - n) ys zs (omega arith),
)

-- A list is too short for `n` elements, or splits behind them.
pub split_at :
    (n : ℕ) (xs : List ℕ)
    → (length xs < n) ⊎ ((ys : List ℕ) × (zs : List ℕ) × (length ys ≡ n) × (xs ≡ ys ++ zs))
split_at zero xs = inr ([], xs, refl, refl)
split_at (suc n) [] = inl (omega arith)
split_at (suc n) (x ∷ xs) = elim (split_at n xs) [
  | inl h ↦ inl (omega arith)
  | inr (ys, zs, h, e) ↦ inr (x ∷ ys, zs, ap suc h, ap (◌∷◌ x) e)
]

-- A field of `n` bytes with two more behind it.
pub split_field :
    (n : ℕ) (xs : List ℕ)
    → (length xs < n + 2)
      ⊎ ((ys : List ℕ) × (a : ℕ) × (b : ℕ) × (zs : List ℕ) × (length ys ≡ n)
          × (xs ≡ ys ++ (a ∷ b ∷ zs)))
split_field zero [] = inl (omega arith)
split_field zero (a ∷ []) = inl (omega arith)
split_field zero (a ∷ b ∷ zs) = inr ([], a, b, zs, refl, refl)
split_field (suc n) [] = inl (omega arith)
split_field (suc n) (x ∷ xs) = elim (split_field n xs) [
  | inl h ↦ inl (omega arith)
  | inr (ys, a, b, zs, h, e) ↦ inr (x ∷ ys, a, b, zs, ap suc h, ap (◌∷◌ x) e)
]

-- A list of four is four elements.
pub four :
    (xs : List ℕ)
    → length xs ≡ 4
    → (a : ℕ) × (b : ℕ) × (c : ℕ) × (d : ℕ) × (xs ≡ a ∷ b ∷ c ∷ d ∷ [])
four [] h = absurd (omega arith)
four (a ∷ []) h = absurd (omega arith)
four (a ∷ b ∷ []) h = absurd (omega arith)
four (a ∷ b ∷ c ∷ []) h = absurd (omega arith)
four (a ∷ b ∷ c ∷ d ∷ []) h = (a, b, c, d, refl)
four (a ∷ b ∷ c ∷ d ∷ e ∷ xs) h = absurd (omega arith)

pub slice-append_last :
    (xs ys : List ℕ) (n m : ℕ) → length xs ≡ n → n + length ys ≡ m → slice (xs ++ ys) n m ≡ ok ys
slice-append_last xs ys n m hn hm =
    subst (λ t. slice (xs ++ t) n m ≡ ok ys) (append-nil ys) (slice-append xs ys [] n m hn hm)

-- All that follows a front of known length.
pub slice_rest :
    (xs ys : List ℕ) (n : ℕ) → length xs ≡ n → slice (xs ++ ys) n (length (xs ++ ys)) ≡ ok ys
slice_rest xs ys n h =
    slice-append_last xs ys n (length (xs ++ ys)) h (omega (arith, length-append xs ys))

-- Two elements behind a front, and a field behind those.
pub slice-behind :
    (xs : List ℕ) (a b : ℕ) (ys zs : List ℕ) (n m : ℕ)
    → length xs ≡ n
    → n + 2 + length ys ≡ m
    → slice (xs ++ (a ∷ b ∷ (ys ++ zs))) (n + 2) m ≡ ok ys
slice-behind xs a b ys zs n m hn hm =
    subst (λ t. slice t (n + 2) m ≡ ok ys) (append_assoc xs (a ∷ b ∷ []) (ys ++ zs))
      (slice-append (xs ++ (a ∷ b ∷ [])) ys zs (n + 2) m
        (omega (arith, length-append xs (a ∷ b ∷ []))) hm)

pub index-shift : (xs ys : List ℕ) (i k : ℕ) → i ≡ length xs + k → index (xs ++ ys) i ≡ index ys k
index-shift [] ys i k e = let same : i ≡ k = omega arith in rw same
index-shift (x ∷ xs) ys zero k e = absurd (omega arith)
index-shift (x ∷ xs) ys (suc i) k e = index-shift xs ys i k (omega arith)

-- A field behind two others.
pub slice-third :
    (xs fs ys zs : List ℕ) (i j : ℕ)
    → length xs + length fs ≡ i
    → i + length ys ≡ j
    → slice (xs ++ (fs ++ (ys ++ zs))) i j ≡ ok ys
slice-third xs fs ys zs i j hi hj =
    subst (λ t. slice t i j ≡ ok ys) (append_assoc xs fs (ys ++ zs))
      (slice-append (xs ++ fs) ys zs i j (omega (arith, length-append xs fs)) hj)
