-- ===== src/App/FakeIp/Concrete.antt =====
-- Maps and a cache as lists of entries, which keep what the documentation of the crates says.
use v2ray.Prelude.{
  map, In, ltb, if◌then◌else◌, ℕ, suc, ◌<◌, ◌≡◌, ◌≢◌, ◌⊎◌, inl, inr, refl, sym, ap, ◌∙◌, Option,
  none, some, List, [], ◌∷◌, ◌++◌, arith, length, length-append,
}
use v2ray.Common.Maps.{DashMap, DashMapLaws}
use v2ray.App.FakeIp.Maps.{LruCache, LruCacheLaws, without}
use v2ray.App.FakeIp.Distinct.{Distinct, not-In-without, Distinct-without, length-without}

module _ {K V : Type 0} where
  abbrev pub keys : List (K × V) → List K
  keys [] = []
  keys (e ∷ l) = e.0 ∷ keys l

  module _ (dec : Discrete K) where
    unfoldable pub find : K → List (K × V) → Option V
    find k [] = none
    find k (e ∷ l) = elim (dec e.0 k) [ yes _ ↦ some e.1 | no _ ↦ find k l ]

    unfoldable pub discard : K → List (K × V) → List (K × V)
    discard k [] = []
    discard k (e ∷ l) = elim (dec e.0 k) [ yes _ ↦ l | no _ ↦ e ∷ discard k l ]

    keys-discard : (k : K) (l : List (K × V)) → keys (discard k l) ≡ without dec k (keys l)
    unfolding discard without
    keys-discard k [] = refl
    keys-discard k (e ∷ l) =
        elim (dec e.0 k)
          as (λ d.
            keys (elim d [ yes _ ↦ l | no _ ↦ e ∷ discard k l ])
            ≡ elim d [ yes _ ↦ keys l | no _ ↦ e.0 ∷ without dec k (keys l) ]) [
              | yes _ ↦ refl
              | no _ ↦ ap (◌∷◌ e.0) (keys-discard k l)
            ]

    not-In_of_none : (k : K) (l : List (K × V)) → find k l ≡ none → ¬ In k (keys l)
    unfolding find
    not-In_of_none k [] h i = i
    not-In_of_none k (e ∷ l) h i =
        elim (dec e.0 k) as (λ d. (elim d [ yes _ ↦ some e.1 | no _ ↦ find k l ]) ≡ none → ⊥) [
          | yes _ ↦ λ h. ground arith
          | no n ↦ λ h. elim i [ inl here ↦ n here | inr later ↦ not-In_of_none k l h later ]
        ]
          h

    none_of_not-In : (k : K) (l : List (K × V)) → ¬ In k (keys l) → find k l ≡ none
    unfolding find
    none_of_not-In k [] h = refl
    none_of_not-In k (e ∷ l) h =
        elim (dec e.0 k) as (λ d. (elim d [ yes _ ↦ some e.1 | no _ ↦ find k l ]) ≡ none) [
          | yes same ↦ absurd (h (inl same))
          | no _ ↦ none_of_not-In k l (λ i. h (inr i))
        ]

    In-of_some : (k : K) (v : V) (l : List (K × V)) → find k l ≡ some v → In k (keys l)
    unfolding find
    In-of_some k v [] h = ground arith
    In-of_some k v (e ∷ l) h =
        elim (dec e.0 k)
            as (λ d.
              (elim d [ yes _ ↦ some e.1 | no _ ↦ find k l ]) ≡ some v
              → (e.0 ≡ k) ⊎ In k (keys l)) [
                | yes same ↦ λ h. inl same
                | no _ ↦ λ h. inr (In-of_some k v l h)
              ]
          h

    find-discard_ne : (k q : K) (l : List (K × V)) → q ≢ k → find q (discard k l) ≡ find q l
    unfolding find discard
    find-discard_ne k q [] h = refl
    find-discard_ne k q (e ∷ l) h =
        elim (dec e.0 k)
          as (λ d. find q (elim d [ yes _ ↦ l | no _ ↦ e ∷ discard k l ]) ≡ find q (e ∷ l)) [
            | yes same ↦ sym (skipped e l (λ here. h (sym here ∙ same)))
            | no _ ↦
                elim (dec e.0 q)
                  as (λ c.
                    elim c [ yes _ ↦ some e.1 | no _ ↦ find q (discard k l) ]
                    ≡ elim c [ yes _ ↦ some e.1 | no _ ↦ find q l ]) [
                      | yes _ ↦ refl
                      | no _ ↦ find-discard_ne k q l h
                    ]
          ]
      where
        skipped : (e : K × V) (l : List (K × V)) → e.0 ≢ q → find q (e ∷ l) ≡ find q l
        skipped e l n =
            elim (dec e.0 q) as (λ c. elim c [ yes _ ↦ some e.1 | no _ ↦ find q l ] ≡ find q l) [
              | yes same ↦ absurd (n same)
              | no _ ↦ refl
            ]

    pub not-In-discard :
        (k : K) (m : (l : List (K × V)) × Distinct (keys l)) → ¬ In k (keys (discard k m.0))
    not-In-discard k m = rw (keys-discard k m.0) (not-In-without dec k (keys m.0) m.1)

    pub Distinct-discard :
        (k : K) (m : (l : List (K × V)) × Distinct (keys l)) → Distinct (keys (discard k m.0))
    Distinct-discard k m = rw (keys-discard k m.0) (Distinct-without dec k (keys m.0) m.1)

    abbrev pub list_map : DashMap K V
    list_map = record {
      Map = (l : List (K × V)) × Distinct (keys l);
      new = ([], tt);
      get = λ k m. find k m.0;
      insert = λ k v m. ((k, v) ∷ discard k m.0, (not-In-discard k m, Distinct-discard k m));
      remove = λ k m. (find k m.0, (discard k m.0, Distinct-discard k m));
      len = λ m. length (keys m.0);
      values = λ m. map (λ e. e.1) m.0;
    }

    find-first : (k : K) (v : V) (l : List (K × V)) → find k ((k, v) ∷ l) ≡ some v
    unfolding find
    find-first k v l =
        elim (dec k k) as (λ d. elim d [ yes _ ↦ some v | no _ ↦ find k l ] ≡ some v) [
          | yes _ ↦ refl
          | no n ↦ absurd (n refl)
        ]

    In-find : (k : K) (v : V) (l : List (K × V)) → find k l ≡ some v → In v (map (λ e. e.1) l)
    unfolding find
    In-find k v [] h = ground arith
    In-find k v (e ∷ l) h =
        elim (dec e.0 k)
            as (λ d.
              (elim d [ yes _ ↦ some e.1 | no _ ↦ find k l ]) ≡ some v
              → (e.1 ≡ v) ⊎ In v (map (λ e. e.1) l)) [
                | yes _ ↦ λ h. inl (ground arith)
                | no _ ↦ λ h. inr (In-find k v l h)
              ]
          h

    find-next : (k q : K) (v : V) (l : List (K × V)) → q ≢ k → find q ((k, v) ∷ l) ≡ find q l
    unfolding find
    find-next k q v l n =
        elim (dec k q) as (λ d. elim d [ yes _ ↦ some v | no _ ↦ find q l ] ≡ find q l) [
          | yes same ↦ absurd (n (sym same))
          | no _ ↦ refl
        ]

    discard_absent : (k : K) (l : List (K × V)) → ¬ In k (keys l) → discard k l ≡ l
    unfolding discard
    discard_absent k [] h = refl
    discard_absent k (e ∷ l) h =
        elim (dec e.0 k) as (λ d. elim d [ yes _ ↦ l | no _ ↦ e ∷ discard k l ] ≡ e ∷ l) [
          | yes same ↦ absurd (h (inl same))
          | no _ ↦ ap (◌∷◌ e) (discard_absent k l (λ i. h (inr i)))
        ]

    pub list_map_laws : DashMapLaws list_map
    unfolding find
    list_map_laws = record {
      get-new = λ k. refl;
      len-new = refl;
      get-insert = λ k v m. find-first k v (discard k m.0);
      get-insert_ne = λ k q v m n. find-next k q v (discard k m.0) n ∙ find-discard_ne k q m.0 n;
      len-insert = λ k v m e.
          ap (λ l. suc (length (keys l))) (discard_absent k m.0 (not-In_of_none k m.0 e));
      removed = λ k m. refl;
      get-remove = λ k m. none_of_not-In k (discard k m.0) (not-In-discard k m);
      get-remove_ne = λ k q m n. find-discard_ne k q m.0 n;
      len-remove = λ k v m e.
          ap (λ l. suc (length l)) (keys-discard k m.0)
          ∙ length-without dec k (keys m.0) (In-of_some k v m.0 e);
      values-get = λ k v m e. In-find k v m.0 e;
    }

module _ {K : Type 0} (dec : Discrete K) where
  -- The last element, and the list without it.
  unfoldable pub pop_last : K → List K → K × List K
  pop_last x [] = (x, [])
  pop_last x (y ∷ ys) = let (e, rest) = pop_last y ys in (e, x ∷ rest)

  abbrev pub pop_oldest : ℕ × List K → Option K × (ℕ × List K)
  pop_oldest (n, []) = (none, (n, []))
  pop_oldest (n, x ∷ xs) = (some (pop_last x xs).0, (n, (pop_last x xs).1))

  -- An entry that is put into a full cache drives the oldest one out.
  abbrev pub put_front : K → ℕ × List K → ℕ × List K
  put_front k (n, l) = if ltb (length l) n then (n, k ∷ l) else (n, k ∷ (pop_oldest (n, l)).1.1)

  abbrev pub list_lru : LruCache K
  list_lru = record {
    Cache = ℕ × List K;
    new = λ n. (n, []);
    get = λ k c. (c.0, k ∷ without dec k c.1);
    put = put_front;
    pop = λ k c. (c.0, without dec k c.1);
    pop_lru = pop_oldest;
    keys = λ c. c.1;
    cap = λ c. c.0;
  }

  pop-last : (x : K) (xs ks : List K) (e : K) → x ∷ xs ≡ ks ++ (e ∷ []) → pop_last x xs ≡ (e, ks)
  unfolding pop_last
  pop-last x [] [] e h = ground arith
  pop-last x [] (k ∷ ks) e h = absurd (omega (arith, ap length h, length-append ks (e ∷ [])))
  pop-last x (y ∷ ys) [] e h = ground arith
  pop-last x (y ∷ ys) (k ∷ ks) e h =
      let tail : y ∷ ys ≡ ks ++ (e ∷ []) = ground arith in
      let rest = pop-last y ys ks e tail in ground arith

  cap-put_front : (k : K) (m : ℕ × List K) → (put_front k m).0 ≡ m.0
  cap-put_front k (n, l) = ground arith

  cap-pop_oldest : (m : ℕ × List K) → (pop_oldest m).1.0 ≡ m.0
  cap-pop_oldest (n, []) = refl
  cap-pop_oldest (n, x ∷ xs) = refl

  keys-put_front : (k : K) (m : ℕ × List K) → length m.1 < m.0 → (put_front k m).1 ≡ k ∷ m.1
  keys-put_front k (n, l) h = ground arith

  pops_oldest :
      (ks : List K) (k : K) (m : ℕ × List K)
      → m.1 ≡ ks ++ (k ∷ [])
      → ((pop_oldest m).0 ≡ some k) × ((pop_oldest m).1.1 ≡ ks)
  pops_oldest ks k (n, []) h = absurd (omega (arith, ap length h, length-append ks (k ∷ [])))
  pops_oldest ks k (n, x ∷ xs) h =
      let e = pop-last x xs ks k h in (ap (λ p. some p.0) e, ap (λ p. p.1) e)

  pub list_lru_laws : LruCacheLaws dec list_lru
  list_lru_laws = record {
    keys-new = λ n. refl;
    cap-new = λ n. refl;
    keys-get = λ k m i. refl;
    cap-get = λ k m. refl;
    keys-put = λ k m n h. keys-put_front k m h;
    cap-put = cap-put_front;
    pops = λ ks k m h. (pops_oldest ks k m h).0;
    keys-pop_lru = λ ks k m h. (pops_oldest ks k m h).1;
    cap-pop_lru = cap-pop_oldest;
  }
