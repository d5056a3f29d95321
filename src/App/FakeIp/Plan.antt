-- ===== src/App/FakeIp/Plan.antt =====
-- What a pool of fake addresses promises, in terms of which domain has which address and of how
-- recently the domains were asked for.
use v2ray.Prelude.{
  ℕ, ◌+◌, ◌<◌, ◌≡◌, ◌≢◌, ◌⊎◌, inl, inr, refl, sym, ◌∙◌, subst, arith, Option, none, some, List, [],
  ◌∷◌, ◌++◌, length,
}
use v2ray.Common.Maps.{bytes_dec}
use v2ray.App.FakeIp.Maps.{Domain, without}

-- The domains, the last one asked for first, and their addresses.
pub record Plan : Type 0 where
  pub order : List Domain
  pub address : Domain → Option ℕ

some_inj : {m n : ℕ} → some m ≡ some n → m ≡ n
some_inj e = ground arith

not_none : (n : ℕ) → ¬ (Path (Option ℕ) (some n) none)
not_none n e = ground arith

abbrev pub empty : Plan
empty = record { order = []; address = λ _. none }

-- One more domain has an address, and one is without.
abbrev pub assign : Domain → ℕ → (Domain → Option ℕ) → Domain → Option ℕ
assign d ip address q = elim (bytes_dec q d) [ yes _ ↦ some ip | no _ ↦ address q ]

abbrev pub release : Domain → (Domain → Option ℕ) → Domain → Option ℕ
release d address q = elim (bytes_dec q d) [ yes _ ↦ none | no _ ↦ address q ]

pub assign-same : (d : Domain) (ip : ℕ) (a : Domain → Option ℕ) → assign d ip a d ≡ some ip
assign-same d ip a =
    elim (bytes_dec d d) as (λ x. elim x [ yes _ ↦ some ip | no _ ↦ a d ] ≡ some ip) [
      | yes _ ↦ refl
      | no n ↦ absurd (n refl)
    ]

pub assign-other : (d q : Domain) (ip : ℕ) (a : Domain → Option ℕ) → q ≢ d → assign d ip a q ≡ a q
assign-other d q ip a h =
    elim (bytes_dec q d) as (λ x. elim x [ yes _ ↦ some ip | no _ ↦ a q ] ≡ a q) [
      | yes e ↦ absurd (h e)
      | no _ ↦ refl
    ]

pub release-same : (d : Domain) (a : Domain → Option ℕ) → release d a d ≡ none
release-same d a = elim (bytes_dec d d) as (λ x. elim x [ yes _ ↦ none | no _ ↦ a d ] ≡ none) [
  | yes _ ↦ refl
  | no n ↦ absurd (n refl)
]

pub release-other : (d q : Domain) (a : Domain → Option ℕ) → q ≢ d → release d a q ≡ a q
release-other d q a h = elim (bytes_dec q d) as (λ x. elim x [ yes _ ↦ none | no _ ↦ a q ] ≡ a q) [
  | yes e ↦ absurd (h e)
  | no _ ↦ refl
]

pub release-none : (d q : Domain) (a : Domain → Option ℕ) → a q ≡ none → release d a q ≡ none
release-none d q a h = elim (bytes_dec q d) as (λ x. elim x [ yes _ ↦ none | no _ ↦ a q ] ≡ none) [
  | yes e ↦ refl
  | no _ ↦ h
]

-- Who has an address afterwards.
pub assign-some :
    (d q : Domain) (ip n : ℕ) (a : Domain → Option ℕ)
    → assign d ip a q ≡ some n
    → ((q ≡ d) × (ip ≡ n)) ⊎ ((q ≢ d) × (a q ≡ some n))
assign-some d q ip n a h = elim (bytes_dec q d) [
  | yes e ↦
      inl (
        e,
        some_inj (sym (subst (λ x. assign d ip a x ≡ some ip) (sym e) (assign-same d ip a)) ∙ h),
      )
  | no m ↦ inr (m, sym (assign-other d q ip a m) ∙ h)
]

pub release-some :
    (d q : Domain) (n : ℕ) (a : Domain → Option ℕ)
    → release d a q ≡ some n
    → (q ≢ d) × (a q ≡ some n)
release-some d q n a h = elim (bytes_dec q d) [
  | yes e ↦
      absurd (not_none n (sym h ∙ subst (λ x. release d a x ≡ none) (sym e) (release-same d a)))
  | no m ↦ (m, sym (release-other d q a m) ∙ h)
]

module _ (network size : ℕ) where
  -- A known domain keeps its address. A new one has the next address while there is one, and then
  -- the address of the domain that nobody has asked for the longest. Nobody else's changes.
  pub data Assigns (s : Plan) (d : Domain) (ip : ℕ) (t : Plan) : Type 0 where
    known :
        s.address d ≡ some ip
        → t.order ≡ d ∷ without bytes_dec d s.order
        → ((q : Domain) → t.address q ≡ s.address q)
        → Assigns s d ip t
    fresh :
        s.address d ≡ none
        → length s.order < size
        → ip ≡ network + 1 + length s.order
        → t.order ≡ d ∷ s.order
        → ((q : Domain) → t.address q ≡ assign d ip s.address q)
        → Assigns s d ip t
    evicts :
        (old : Domain) (rest : List Domain)
        → s.address d ≡ none
        → length s.order ≡ size
        → s.order ≡ rest ++ (old ∷ [])
        → s.address old ≡ some ip
        → t.order ≡ d ∷ rest
        → ((q : Domain) → t.address q ≡ assign d ip (release old s.address) q)
        → Assigns s d ip t

  -- The same for a sequence of requests.
  pub data AssignsAll : Plan → List Domain → List ℕ → Plan → Type 0 where
    done : {s : Plan} → AssignsAll s [] [] s
    request :
        {d : Domain} {ip : ℕ} {ds : List Domain} {ips : List ℕ} {s t u : Plan}
        → Assigns s d ip t
        → AssignsAll t ds ips u
        → AssignsAll s (d ∷ ds) (ip ∷ ips) u
