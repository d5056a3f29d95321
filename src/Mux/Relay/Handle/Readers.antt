-- ===== src/Mux/Relay/Handle/Readers.antt =====
-- The reader tasks that a table of sessions holds, and what aborting does to the tasks.
use v2ray.Prelude.{
  ℕ, ◌==◌, ◌≡◌, ◌≢◌, inl, inr, refl, sym, ap, subst, ◌∙◌, false, Option, none, some, List, [], ◌∷◌,
  In, map, arith, ==_iff, Bool-cases,
}
use v2ray.Common.Maps.{DashMap, DashMapLaws}
use v2ray.Mux.Relay.{abort}
use v2ray.Mux.Relay.Handle.{abort_all}

In-map :
    {V : Type 0} (task : V → ℕ) (x : V) (r : ℕ) (l : List V)
    → In x l
    → task x ≡ r
    → In r (map task l)
In-map task x r [] i e = i
In-map task x r (y ∷ l) i e = elim i [
  | inl here ↦ inl (ap task here ∙ e)
  | inr later ↦ inr (In-map task x r l later e)
]

pub In-abort : (x r : ℕ) (tasks : List ℕ) → In r (abort x tasks) → In r tasks × (r ≢ x)
In-abort x r [] i = elim i [ ]
In-abort x r (y ∷ tasks) i = elim (Bool-cases (y == x)) [
  | inl same ↦
      let (rest, other) = In-abort x r tasks (subst (λ l. In r l) (rw same refl) i) in
      (inr rest, other)
  | inr differ ↦ elim (subst (λ l. In r l) (aborted differ) i) [
    | inl here ↦ (inl here, λ e. absurd (ground (arith, here, e, (==_iff y x).1)))
    | inr later ↦ let (rest, other) = In-abort x r tasks later in (inr rest, other)
  ]
]
  where
    aborted : (y == x) ≡ false → abort x (y ∷ tasks) ≡ y ∷ abort x tasks
    aborted differ = rw differ refl

pub In-abort_all :
    (r : ℕ) (readers tasks : List ℕ)
    → In r (abort_all readers tasks)
    → In r tasks × (¬ In r readers)
In-abort_all r [] tasks i = (i, λ none_left. none_left)
In-abort_all r (x ∷ readers) tasks i =
    let (left, others) = In-abort_all r readers (abort x tasks) i in
    let (was, other) = In-abort x r tasks left in
    (was, λ read. elim read [ inl here ↦ other (sym here) | inr later ↦ others later ])

module _ {K V : Type 0} (dec : Discrete K) (d : DashMap K V) (laws : DashMapLaws d)
    (task : V → ℕ) where
  -- A session of the table has the task as its reader.
  abbrev pub IsReader : d.Map → ℕ → Type 0
  IsReader m r = (k : K) × (x : V) × (d.get k m ≡ some x) × (task x ≡ r)

  pub IsReader-insert : (k : K) (v : V) (m : d.Map) → IsReader (d.insert k v m) (task v)
  IsReader-insert k v m = (k, v, laws.get-insert k v m, refl)

  pub IsReader-insert_absent :
      (k : K) (v : V) (m : d.Map) (r : ℕ)
      → d.get k m ≡ none
      → IsReader m r
      → IsReader (d.insert k v m) r
  IsReader-insert_absent k v m r absent (q, x, found, e) = elim (dec q k) [
    | yes same ↦ absurd (ground (arith, absent, found, ap (λ k. d.get k m) same))
    | no other ↦ (q, x, laws.get-insert_ne k q v m other ∙ found, e)
  ]

  pub IsReader-remove_absent :
      (k : K) (m : d.Map) (r : ℕ)
      → (d.remove k m).0 ≡ none
      → IsReader m r
      → IsReader (d.remove k m).1 r
  IsReader-remove_absent k m r gone (q, x, found, e) = elim (dec q k) [
    | yes same ↦ absurd (ground (arith, laws.removed k m, gone, found, ap (λ k. d.get k m) same))
    | no other ↦ (q, x, laws.get-remove_ne k q m other ∙ found, e)
  ]

  pub IsReader-remove :
      (k : K) (m : d.Map) (r : ℕ) (v : V)
      → (d.remove k m).0 ≡ some v
      → r ≢ task v
      → IsReader m r
      → IsReader (d.remove k m).1 r
  IsReader-remove k m r v gone differ (q, x, found, e) = elim (dec q k) [
    | yes same ↦
        let same_entry : Path (Option V) (some x) (some v) =
          sym found ∙ ap (λ k. d.get k m) same ∙ sym (laws.removed k m) ∙ gone in
        absurd (differ (sym e ∙ ap task (ground (arith, same_entry))))
    | no other ↦ (q, x, laws.get-remove_ne k q m other ∙ found, e)
  ]

  pub In-values : (m : d.Map) (r : ℕ) → IsReader m r → In r (map task (d.values m))
  In-values m r (k, x, found, e) = In-map task x r (d.values m) (laws.values-get k x m found) e
