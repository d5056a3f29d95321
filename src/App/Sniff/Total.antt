-- ===== src/App/Sniff/Total.antt =====
-- The search for a server name never panics, and what it finds stands in the bytes.
use v2ray.Prelude.{
  ℕ, zero, suc, ◌+◌, ◌-◌, ◌<◌, ◌≤◌, ◌≡◌, refl, sym, ap, ◌∙◌, Bool, true, false, not, ◌&&◌, Option,
  none, some, List, ◌++◌, arith, leb, ltb, ◌==◌, if◌then◌else◌, length, min, of_be16, take, drop,
  take-append-drop, get_elem?-within, is_utf8, leb→le, ltb→le, le→leb, Bool-cases, inl, inr,
}
use v2ray.Common.Result.{Result, ok, err, panic, stuck, ◌>>=◌, index, slice}
use v2ray.Common.Result.Holds.{Holds, if-Holds}
use v2ray.App.Sniff.{
  u16_at, sni_name, sni_extension, one_extension, sni_loop, or_next, unless, extensions_at,
  compression_at, suites_at, session_at, tls_sni,
}

-- The bytes of a part stand next to each other in the whole.
abbrev pub IsPart : List ℕ → List ℕ → Type 0
IsPart part whole = (front : List ℕ) × (back : List ℕ) × (whole ≡ front ++ (part ++ back))

-- A name that was found.
abbrev pub IsName : List ℕ → Option (List ℕ) → Type 0
IsName xs none = Unit {0}
IsName xs (some name) = (is_utf8 name ≡ true) × IsPart name xs

abbrev IsAnswer : List ℕ → Option (Option (List ℕ)) → Type 0
IsAnswer xs none = Unit {0}
IsAnswer xs (some answer) = IsName xs answer

index-within : (xs : List ℕ) (i : ℕ) → i < length xs → (b : ℕ) × (index xs i ≡ ok b)
index-within xs i h = let (b, e) = get_elem?-within xs i h in (b, rw (index, e) refl)

u16-within : (xs : List ℕ) (pos : ℕ) → pos + 2 ≤ length xs → (v : ℕ) × (u16_at xs pos ≡ ok v)
unfolding u16_at
u16-within xs pos h =
    let (hi, e) = index-within xs pos (omega arith) in
    let (lo, k) = index-within xs (pos + 1) (omega arith) in (of_be16 hi lo, rw (e, k) refl)

slice-IsPart :
    (xs : List ℕ) (from to : ℕ)
    → from ≤ to
    → to ≤ length xs
    → (part : List ℕ) × (slice xs from to ≡ ok part) × IsPart part xs
slice-IsPart xs from to h k =
    let rest = drop from xs in
    (
      take (to - from) rest,
      rw (le→leb from to h, le→leb to (length xs) k) refl,
      (
        take from xs,
        drop (to - from) rest,
        sym (take-append-drop from xs)
            ∙ ap (λ l. take from xs ++ l) (sym (take-append-drop (to - from) rest)),
      ),
    )

IsName-part :
    (xs name : List ℕ) → IsPart name xs → IsName xs (if is_utf8 name then some name else none)
IsName-part xs name part = elim (Bool-cases (is_utf8 name)) [
  | inl u ↦ rw u (u, part)
  | inr u ↦ rw u tt
]

sni_name-Holds :
    (xs : List ℕ) (pos : ℕ) → pos + 5 ≤ length xs → Holds (IsAnswer xs) (sni_name xs pos)
unfolding sni_name
sni_name-Holds xs pos h =
    let (n, e) = u16-within xs (pos + 3) (omega arith) in
    elim (Bool-cases (leb (pos + 5 + n) (length xs))) [
      | inr out ↦ rw (e, out) tt
      | inl fits ↦
          let (name, s, part) =
            slice-IsPart xs (pos + 5) (pos + 5 + n) (omega arith) (leb→le _ _ fits) in
          rw (e, s, fits) (IsName-part xs name part)
    ]

sni_extension-Holds :
    (xs : List ℕ) (etype elen pos : ℕ)
    → pos + elen ≤ length xs
    → Holds (IsAnswer xs) (sni_extension xs etype elen pos)
unfolding sni_extension
sni_extension-Holds xs etype elen pos h = elim (Bool-cases (etype == 0 && ltb 5 elen)) [
  | inr other ↦ rw other tt
  | inl server_name ↦
      let long : 5 < elen = ground (arith, server_name) in
      let (b, e) = index-within xs (pos + 2) (omega arith) in
      rw (server_name, e)
        (if-Holds (IsAnswer xs) (b == 0) (sni_name xs pos) (ok none)
          (λ k. sni_name-Holds xs pos (omega arith)) (λ k. tt))
]

or_next-Holds :
    (xs : List ℕ) (r : Result (Option (Option (List ℕ)))) (next : Result (Option (List ℕ)))
    → Holds (IsAnswer xs) r
    → Holds (IsName xs) next
    → Holds (IsName xs) (r >>= λ answer. or_next answer next)
or_next-Holds xs (ok none) next h k = k
or_next-Holds xs (ok (some answer)) next h k = h
or_next-Holds xs (err e) next h k = tt
or_next-Holds xs panic next h k = h
or_next-Holds xs stuck next h k = h

one_extension-Holds :
    (next : ℕ → Result (Option (List ℕ))) (xs : List ℕ) (pos : ℕ)
    → pos + 4 ≤ length xs
    → ((q : ℕ) → pos + 4 ≤ q → q ≤ length xs → Holds (IsName xs) (next q))
    → Holds (IsName xs) (one_extension next xs pos)
unfolding one_extension
one_extension-Holds next xs pos h k =
    let (etype, a) = u16-within xs pos (omega arith) in
    let (elen, b) = u16-within xs (pos + 2) (omega arith) in
    elim (Bool-cases (ltb (length xs) (pos + 4 + elen))) [
      | inl out ↦ rw (a, b, out) tt
      | inr fits ↦
          let bound = ltb→le _ _ fits in
          rw (a, b, fits)
            (or_next-Holds xs (sni_extension xs etype elen (pos + 4)) (next (pos + 4 + elen))
              (sni_extension-Holds xs etype elen (pos + 4) bound)
              (k (pos + 4 + elen) (omega arith) bound))
    ]

-- There are rounds enough, since each goes on by four bytes at least.
sni_loop-Holds :
    (fuel : ℕ) (xs : List ℕ) (end pos : ℕ)
    → length xs < pos + fuel
    → pos ≤ length xs
    → Holds (IsName xs) (sni_loop fuel xs end pos)
unfolding sni_loop
sni_loop-Holds zero xs end pos h k = absurd (omega arith)
sni_loop-Holds (suc fuel) xs end pos h k =
    if-Holds (IsName xs) (leb (pos + 4) (min end (length xs)))
      (one_extension (sni_loop fuel xs end) xs pos) (ok none)
      (λ e.
        let room = leb→le (pos + 4) (min end (length xs)) e in
        one_extension-Holds (sni_loop fuel xs end) xs pos (omega arith)
          (λ q le bound. sni_loop-Holds fuel xs end q (omega arith) bound))
      (λ e. tt)

unless-Holds :
    (xs : List ℕ) (test : Bool) (k : Result (Option (List ℕ)))
    → (test ≡ false → Holds (IsName xs) k)
    → Holds (IsName xs) (unless test k)
unless-Holds xs true k h = tt
unless-Holds xs false k h = h refl

extensions_at-Holds : (xs : List ℕ) (pos : ℕ) → Holds (IsName xs) (extensions_at xs pos)
unfolding extensions_at
extensions_at-Holds xs pos = unless-Holds xs (ltb (length xs) (pos + 2)) _ (λ e.
    let bound = ltb→le _ _ e in
    let (n, k) = u16-within xs pos bound in
    rw k (sni_loop-Holds (suc (length xs)) xs (pos + 2 + n) (pos + 2) (omega arith) bound))

compression_at-Holds : (xs : List ℕ) (pos : ℕ) → Holds (IsName xs) (compression_at xs pos)
unfolding compression_at
compression_at-Holds xs pos = unless-Holds xs (leb (length xs) pos) _ (λ e.
    let (n, k) = index-within xs pos (ground arith) in
    rw k (extensions_at-Holds xs (pos + (1 + n))))

suites_at-Holds : (xs : List ℕ) (pos : ℕ) → Holds (IsName xs) (suites_at xs pos)
unfolding suites_at
suites_at-Holds xs pos = unless-Holds xs (ltb (length xs) (pos + 2)) _ (λ e.
    let (n, k) = u16-within xs pos (ltb→le _ _ e) in rw k (compression_at-Holds xs (pos + (2 + n))))

session_at-Holds : (xs : List ℕ) (pos : ℕ) → Holds (IsName xs) (session_at xs pos)
unfolding session_at
session_at-Holds xs pos = unless-Holds xs (ltb (length xs) (pos + 2)) _ (λ e.
    let (n, k) = u16-within xs pos (ltb→le _ _ e) in rw k (suites_at-Holds xs (pos + (2 + n))))

-- On every list of bytes the search for a server name returns, without a panic and within its
-- fuel; a name that it returns is UTF-8 and stands in the list.
pub tls_sni-Holds : (xs : List ℕ) → Holds (IsName xs) (tls_sni xs)
unfolding tls_sni
tls_sni-Holds xs = unless-Holds xs (ltb (length xs) 5) _ (λ e.
    let (first, a) = index-within xs 0 (omega (arith, ltb→le _ _ e)) in
    rw a (
      unless-Holds xs (not (first == 0x16)) _ (λ s. unless-Holds xs (leb (length xs) 5) _ (λ t.
        let (message, b) = index-within xs 5 (ground arith) in
        rw b (
          unless-Holds xs (not (message == 0x01)) _
            (λ u. session_at-Holds xs (5 + 4 + (2 + 32 + 1))))))))
