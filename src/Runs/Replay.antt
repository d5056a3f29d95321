-- ===== src/Runs/Replay.antt =====
-- Two salts in a filter that is a list of entries.
use native.Mathlib.Decide.{ℕ_discrete}
use v2ray.Prelude.{
  ap, Option, ℕ, ◌≡◌, refl, sym, subst, ◌∙◌, arith, Bool, true, false, some, List, [], ◌∷◌, In, inl,
  inr, if◌then◌else◌, Bool-cases,
}
use v2ray.Common.Maps.{DashMap, Retain, RetainLaws, bytes_dec}
use v2ray.App.FakeIp.Distinct.{Distinct}
use v2ray.App.FakeIp.Concrete.{keys, find, discard, list_map, list_map_laws}
use v2ray.Ss2022.Replay
use v2ray.Ss2022.Replay.{Salt}
use v2ray.Ss2022.Replay.Once.{checking, reaping, after, check_and_insert-once}

abbrev Entries : Type 0
Entries = List (Salt × ℕ)

module _ (keep : Salt → ℕ → Bool) where
  filtered : Entries → Entries
  filtered [] = []
  filtered (e ∷ l) = if keep e.0 e.1 then e ∷ filtered l else filtered l

  In-filtered : (k : Salt) (l : Entries) → In k (keys (filtered l)) → In k (keys l)
  unfolding filtered
  In-filtered k [] i = i
  In-filtered k (e ∷ l) i = elim (Bool-cases (keep e.0 e.1)) [
    | inr gone ↦ inr (In-filtered k l (subst (λ m. In k (keys m)) (dropped gone) i))
    | inl stays ↦ elim (subst (λ m. In k (keys m)) (cons stays) i) [
      | inl here ↦ inl here
      | inr later ↦ inr (In-filtered k l later)
    ]
  ]
    where
      cons : keep e.0 e.1 ≡ true → filtered (e ∷ l) ≡ e ∷ filtered l
      cons stays = rw stays refl

      dropped : keep e.0 e.1 ≡ false → filtered (e ∷ l) ≡ filtered l
      dropped gone = rw gone refl

  Distinct-filtered : (l : Entries) → Distinct (keys l) → Distinct (keys (filtered l))
  unfolding filtered
  Distinct-filtered [] h = h
  Distinct-filtered (e ∷ l) h =
      let rest = Distinct-filtered l h.1 in
      elim (Bool-cases (keep e.0 e.1)) [
        | inl stays ↦ rw stays ((λ i. h.0 (In-filtered e.0 l i)), rest)
        | inr gone ↦ rw gone rest
      ]

find-filtered :
    (keep : Salt → ℕ → Bool) (k : Salt) (v : ℕ) (l : Entries)
    → find bytes_dec k l ≡ some v
    → keep k v ≡ true
    → find bytes_dec k (filtered keep l) ≡ some v
unfolding find filtered
find-filtered keep k v [] h s = h
find-filtered keep k v (e ∷ l) h s = elim (bytes_dec e.0 k) [
  | yes here ↦
      let value : e.1 ≡ v = some_eq e.1 v (sym (found e l here) ∙ h) in
      let stays : keep e.0 e.1 ≡ true =
        subst (λ a. keep a e.1 ≡ true) (sym here) (subst (λ b. keep k b ≡ true) (sym value) s) in
      rw stays (found e (filtered keep l) here ∙ ap (λ (x : ℕ). some x) value)
  | no other ↦ elim (Bool-cases (keep e.0 e.1)) [
    | inl stays ↦
        rw stays
          (next e (filtered keep l) other ∙ find-filtered keep k v l (sym (next e l other) ∙ h) s)
    | inr gone ↦ rw gone (find-filtered keep k v l (sym (next e l other) ∙ h) s)
  ]
]
  where
    some_eq : (x y : ℕ) → Path (Option ℕ) (some x) (some y) → x ≡ y
    some_eq x y e = ground arith

    found : (e : Salt × ℕ) (l : Entries) → e.0 ≡ k → find bytes_dec k (e ∷ l) ≡ some e.1
    found e l here =
        elim (bytes_dec e.0 k)
          as (λ c. (elim c [ yes _ ↦ some e.1 | no _ ↦ find bytes_dec k l ]) ≡ some e.1) [
            | yes _ ↦ refl
            | no n ↦ absurd (n here)
          ]

    next :
        (e : Salt × ℕ) (l : Entries) → ¬ (e.0 ≡ k) → find bytes_dec k (e ∷ l) ≡ find bytes_dec k l
    next e l other =
        elim (bytes_dec e.0 k)
          as (λ c. (elim c [ yes _ ↦ some e.1 | no _ ↦ find bytes_dec k l ]) ≡ find bytes_dec k l) [
            | yes here ↦ absurd (other here)
            | no _ ↦ refl
          ]

abbrev entries : DashMap Salt ℕ
entries = list_map bytes_dec

abbrev retaining : Retain entries
retaining = record { retain = λ keep m. (filtered keep m.0, Distinct-filtered keep m.0 m.1) }

retaining_laws : RetainLaws retaining
retaining_laws = record { kept = λ keep k v m h s. find-filtered keep k v m.0 h s }

abbrev first : Salt
first = 1 ∷ 2 ∷ []

abbrev second : Salt
second = 3 ∷ 4 ∷ []

check_and_insert-once_example :
    (Replay.check_and_insert entries retaining first 130 (
      after entries retaining
        (checking second 101 ∷ reaping 120 ∷ checking first 125 ∷ [])
        (Replay.check_and_insert entries retaining first 100 (Replay.new entries retaining)).1)).0
    ≡ false
unfolding Replay.check_and_insert Replay.new find
check_and_insert-once_example =
    check_and_insert-once entries retaining (list_map_laws bytes_dec) retaining_laws first 100 130
      (checking second 101 ∷ reaping 120 ∷ checking first 125 ∷ []) (Replay.new entries retaining)
      refl (omega arith, (omega arith, (omega arith, tt)))

-- Once the clearing task has run late enough, a salt is let in again.
again :
    (Replay.check_and_insert entries retaining first 170 (
      after entries retaining
        (reaping 160 ∷ [])
        (Replay.check_and_insert entries retaining first 100 (Replay.new entries retaining)).1)).0
    ≡ true
unfolding after filtered Replay.reap Replay.check_and_insert Replay.new find discard bytes_dec
    ℕ_discrete
again = refl
