-- ===== src/App/Router/Labels.antt =====
-- Which names a suffix rule takes: the loop over the labels, and all of `matches`.
use v2ray.Prelude.{
  append_assoc, ℕ, zero, suc, ◌<◌, ◌≤◌, ◌≡◌, ◌⊎◌, ◌↔◌, inl, inr, refl, ap, sym, subst, true, false,
  some, List, [], ◌∷◌, ◌++◌, arith, length, length-append, In, ◌==◌, ==_iff, Bool-cases,
  Option-cases, bytes_eq, bytes_eq_iff,
}
use v2ray.App.Router.Domain
use v2ray.App.Router.Domain.{DomainMatcher, contains_key, behind_dot, suffix_loop, lowered}

contains_iff :
    (keys : List (List ℕ)) (name : List ℕ) → (contains_key keys name ≡ true) ↔ In name keys
contains_iff [] name = (λ e. ground arith, λ i. elim i [ ])
contains_iff (k ∷ keys) name = elim (Bool-cases (bytes_eq k name)) [
  | inl e ↦ (λ _. inl ((bytes_eq_iff k name).0 e), λ _. rw e refl)
  | inr e ↦ (
    λ h. inr ((contains_iff keys name).0 (rw e at h)),
    λ i. elim i [
      | inl same ↦ absurd (differ k name e same)
      | inr later ↦ rw e ((contains_iff keys name).1 later)
    ],
  )
]
  where
    differ : (k name : List ℕ) → bytes_eq k name ≡ false → ¬ (k ≡ name)
    differ k name e same = let t = (bytes_eq_iff k name).1 same in ground arith

-- The name is the suffix, or ends in it behind a dot.
abbrev pub IsUnder : List ℕ → List ℕ → Type 0
IsUnder name suf = (name ≡ suf) ⊎ ((pre : List ℕ) × (name ≡ pre ++ (b'.' ∷ suf)))

behind_dot-split :
    (xs rest : List ℕ) → behind_dot xs ≡ some rest → (pre : List ℕ) × (xs ≡ pre ++ (b'.' ∷ rest))
unfolding behind_dot
behind_dot-split [] rest h = ground arith
behind_dot-split (c ∷ cs) rest h = elim (Bool-cases (c == b'.')) [
  | inl e ↦ ([], ground (arith, ==_iff c b'.'))
  | inr e ↦
      let (pre, split) = behind_dot-split cs rest (ground arith) in (c ∷ pre, ap (◌∷◌ c) split)
]

-- The first dot stands in front of the suffix, or its own dot is the first.
behind_dot-suffix :
    (pre suf : List ℕ)
    → (rest : List ℕ) × (behind_dot (pre ++ (b'.' ∷ suf)) ≡ some rest)
      × IsUnder rest suf
      × (length rest < length (pre ++ (b'.' ∷ suf)))
unfolding behind_dot
behind_dot-suffix [] suf = (suf, refl, inl refl, omega arith)
behind_dot-suffix (c ∷ pre) suf = elim (Bool-cases (c == b'.')) [
  | inl e ↦ (pre ++ (b'.' ∷ suf), rw e refl, inr (pre, refl), omega arith)
  | inr e ↦
      let (rest, found, under, shorter) = behind_dot-suffix pre suf in
      (rest, rw e found, under, omega arith)
]

IsUnder-longer : (pre rest suf : List ℕ) → IsUnder rest suf → IsUnder (pre ++ (b'.' ∷ rest)) suf
IsUnder-longer pre rest suf (inl e) = inr (pre, rw e refl)
IsUnder-longer pre rest suf (inr (mid, e)) =
    inr (pre ++ (b'.' ∷ mid), rw e (sym (append_assoc pre (b'.' ∷ mid) (b'.' ∷ suf))))

-- A name under one of the keys, which is not empty.
abbrev pub UnderKey : List (List ℕ) → List ℕ → Type 0
UnderKey keys name = (suf : List ℕ) × In suf keys × (0 < length suf) × IsUnder name suf

suffix_loop-UnderKey :
    (fuel : ℕ) (keys : List (List ℕ)) (rest : List ℕ)
    → suffix_loop fuel keys rest ≡ true
    → UnderKey keys rest
unfolding suffix_loop
suffix_loop-UnderKey zero keys rest h = ground arith
suffix_loop-UnderKey (suc fuel) keys [] h = ground arith
suffix_loop-UnderKey (suc fuel) keys (c ∷ cs) h = elim (Bool-cases (contains_key keys (c ∷ cs))) [
  | inl e ↦ (c ∷ cs, (contains_iff keys (c ∷ cs)).0 e, omega arith, inl refl)
  | inr e ↦ elim (Option-cases (behind_dot (c ∷ cs))) [
    | inl g ↦ absurd (ground arith)
    | inr (rest, g) ↦
        let (suf, i, l, under) = suffix_loop-UnderKey fuel keys rest (ground arith) in
        let (pre, split) = behind_dot-split (c ∷ cs) rest g in
        (suf, i, l, subst (λ x. IsUnder x suf) (sym split) (IsUnder-longer pre rest suf under))
  ]
]

under_longer : (rest suf : List ℕ) → IsUnder rest suf → length suf ≤ length rest
under_longer rest suf (inl e) = omega (arith, ap length e)
under_longer rest suf (inr (pre, e)) = omega (arith, ap length e, length-append pre (b'.' ∷ suf))

-- With a round for every byte the loop finds the suffix.
suffix_loop-finds :
    (fuel : ℕ) (keys : List (List ℕ)) (rest suf : List ℕ)
    → length rest ≤ fuel
    → In suf keys
    → 0 < length suf
    → IsUnder rest suf
    → suffix_loop fuel keys rest ≡ true
unfolding suffix_loop
suffix_loop-finds zero keys rest suf h i l u = absurd (omega (arith, under_longer rest suf u))
suffix_loop-finds (suc fuel) keys [] suf h i l u = absurd (omega (arith, under_longer [] suf u))
suffix_loop-finds (suc fuel) keys (c ∷ cs) suf h i l u =
    elim (Bool-cases (contains_key keys (c ∷ cs))) [
      | inl e ↦ rw e refl
      | inr e ↦ elim u [
        | inl same ↦
            let found = (contains_iff keys (c ∷ cs)).1 (subst (λ x. In x keys) (sym same) i) in
            ground arith
        | inr (pre, split) ↦
            let (rest, found, under, shorter) = behind_dot-suffix pre suf in
            let found : behind_dot (c ∷ cs) ≡ some rest =
              subst (λ x. behind_dot x ≡ some rest) (sym split) found in
            let len = ap length split in
            let again = suffix_loop-finds fuel keys rest suf (omega arith) i l under in ground arith
      ]
    ]

module _ (lower : List ℕ → List ℕ) where
  -- The name that is looked up is the lower case of a name with an ASCII capital, and any other name
  -- as it is. A matcher takes a name just if the name that is looked up is one of the full names, or
  -- is one of the suffixes that are not empty or ends in it behind a dot, or is taken by the
  -- keywords, or by the regular expressions.
  pub matches_iff :
      (m : DomainMatcher) (domain : List ℕ)
      → (Domain.matches lower m domain ≡ true) ↔ (
          In (lowered lower domain) m.full
          ⊎ (UnderKey m.suffix (lowered lower domain)
              ⊎ ((m.keyword (lowered lower domain) ≡ true)
                  ⊎ (m.regex (lowered lower domain) ≡ true))))
  unfolding Domain.matches
  matches_iff m domain =
      let name = lowered lower domain in
      elim (Bool-cases (contains_key m.full name)) [
        | inl f ↦ (λ _. inl ((contains_iff m.full name).0 f), λ _. rw f refl)
        | inr f ↦ elim (Bool-cases (suffix_loop (length name) m.suffix name)) [
          | inl s ↦ (
            λ _. inr (inl (suffix_loop-UnderKey (length name) m.suffix name s)),
            λ _. rw (f, s) refl,
          )
          | inr s ↦ elim (Bool-cases (m.keyword name)) [
            | inl k ↦ (λ _. inr (inr (inl k)), λ _. rw (f, s, k) refl)
            | inr k ↦ (
              λ h. inr (inr (inr (rw (f, s, k) at h))),
              λ h. elim h [
                | inl i ↦ let t = (contains_iff m.full name).1 i in ground arith
                | inr (inl (suf, i, l, u)) ↦
                    let t = suffix_loop-finds (length name) m.suffix name suf (omega arith) i l u in
                    ground arith
                | inr (inr (inl t)) ↦ ground arith
                | inr (inr (inr t)) ↦ rw (f, s, k) t
              ],
            )
          ]
        ]
      ]
