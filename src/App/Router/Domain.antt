-- ===== src/App/Router/Domain.antt =====
-- DomainMatcher of router.rs and GeoSiteMatcher of geo/geosite.rs. A hash table of names is the list
-- of its keys; the automaton of the keywords and the set of regular expressions are what they answer.
-- `lower` stands for Unicode's mapping to lower case.
use v2ray.Prelude.{
  ℕ, zero, suc, Bool, true, false, ◌&&◌, Option, none, some, List, [], ◌∷◌, length, leb, ◌==◌,
  if◌then◌else◌, bytes_eq,
}
use v2ray.App.Router.Ip.{any}

pub record DomainMatcher : Type 0 where
  pub full : List (List ℕ)
  pub suffix : List (List ℕ)
  pub keyword : List ℕ → Bool
  pub regex : List ℕ → Bool

abbrev pub contains_key : List (List ℕ) → List ℕ → Bool
contains_key keys name = any (λ k. bytes_eq k name) keys

-- `lower[start..].find('.')`, and the text behind the dot
unfoldable pub behind_dot : List ℕ → Option (List ℕ)
behind_dot [] = none
behind_dot (c ∷ cs) = if c == b'.' then some cs else behind_dot cs

-- The loop over the labels of the name, from the text at `start` on.
unfoldable pub suffix_loop : ℕ → List (List ℕ) → List ℕ → Bool
unfolding behind_dot
suffix_loop zero keys rest = false
suffix_loop (suc fuel) keys [] = false
suffix_loop (suc fuel) keys (c ∷ cs) =
    if contains_key keys (c ∷ cs)
    then true
    else elim (behind_dot (c ∷ cs)) [ none ↦ false | some rest ↦ suffix_loop fuel keys rest ]

abbrev is_uppercase : ℕ → Bool
is_uppercase c = leb b'A' c && leb c b'Z'

abbrev pub lowered : (List ℕ → List ℕ) → List ℕ → List ℕ
lowered lower domain = if any is_uppercase domain then lower domain else domain

module _ (lower : List ℕ → List ℕ) where
  unfoldable pub matches : DomainMatcher → List ℕ → Bool
  unfolding suffix_loop
  matches m domain =
      let name = lowered lower domain in
      if contains_key m.full name
      then true
      else if suffix_loop (length name) m.suffix name
      then true
      else if m.keyword name
      then true
      else m.regex name

  unfoldable pub match_domain : DomainMatcher → List ℕ → Bool
  unfolding suffix_loop
  match_domain m domain =
      let name = lowered lower domain in
      if contains_key m.full name
      then true
      else if suffix_loop (length name) m.suffix name
      then true
      else if m.keyword name
      then true
      else m.regex name
