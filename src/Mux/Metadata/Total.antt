-- ===== src/Mux/Metadata/Total.antt =====
-- `parse_metadata` returns on any bytes.
use Prim.Native.Nat.{bit_and}
use v2ray.Prelude.{
  not, ◌&&◌, subst, length-append, ℕ, ◌≤◌, ◌≡◌, refl, Bool, List, [], ◌∷◌, ◌++◌, arith, length,
  AreBytes, Bool-cases, inl, inr, ◌==◌, leb,
}
use v2ray.Common.Result.{Result, ok, err, panic, stuck, ◌>>=◌, slice}
use v2ray.Common.Result.Access.{slice_rest, split_at}
use v2ray.Common.Address.{Address}
use v2ray.Vless.AddressPort.{decode_address_port_with_len}
use v2ray.Vless.AddressPort.Total.{decode_address_port-Within, Within}
use v2ray.Mux.Metadata.{
  opt_data, true, is_udp, parse_metadata, parse_target, status_of, Target, SessionStatus, new, keep,
  end, keep_alive, network_of, TargetNetwork, net_tcp, net_udp, skip_round,
  skip_mux_inbound_extensions, new_target, new_extensions, keep_target, skip_extension,
}
use v2ray.Common.Result.Holds.{Holds, bind-Holds, if-Holds}
use v2ray.Mux.Metadata.Parse.{parse_metadata_head}

All-drop : (ys zs : List ℕ) → AreBytes (ys ++ zs) → AreBytes zs
All-drop [] zs h = h
All-drop (y ∷ ys) zs h = All-drop ys zs h.1

parted :
    (rest : List ℕ) (n : ℕ)
    → AreBytes rest
    → n ≤ length rest
    → (tail : List ℕ) × (slice rest n (length rest) ≡ ok tail)
      × AreBytes tail
      × (length tail ≤ length rest)
parted rest n h inside = elim (split_at n rest) [
  | inl short ↦ absurd (omega arith)
  | inr (ys, zs, e, p) ↦ (
    zs,
    rw p (slice_rest ys zs n e),
    All-drop ys zs (subst AreBytes p h),
    rw p (omega (arith, length-append ys zs)),
  )
]

network_of-Holds : (b : ℕ) → Holds (λ n. Unit {0}) (network_of b)
unfolding network_of
network_of-Holds b =
    if-Holds _ (b == 0x01) _ _ (λ _. tt) (λ _. if-Holds _ (b == 0x02) _ _ (λ _. tt) (λ _. tt))

status_of-Holds : (b : ℕ) → Holds (λ s. Unit {0}) (status_of b)
unfolding status_of
status_of-Holds b =
    if-Holds _ (b == 0x01) _ _ (λ _. tt)
      (λ _.
        if-Holds _ (b == 0x02) _ _ (λ _. tt)
          (λ _.
            if-Holds _ (b == 0x03) _ _ (λ _. tt)
              (λ _. if-Holds _ (b == 0x04) _ _ (λ _. tt) (λ _. tt))))

-- The address decoder with what a caller needs of it.
abbrev Taken : List ℕ → Address × ℕ → Type 0
Taken rest (a, n) = n ≤ length rest

Taken-of : (rest : List ℕ) (m : Result (Address × ℕ)) → Within rest m → Holds (Taken rest) m
Taken-of rest (ok (a, n)) h = h.1
Taken-of rest (err e) h = h
Taken-of rest panic h = h
Taken-of rest stuck h = h

decode-Taken :
    (rest : List ℕ) → AreBytes rest → Holds (Taken rest) (decode_address_port_with_len rest)
decode-Taken rest h = Taken-of rest _ (decode_address_port-Within rest h)

-- A slice from inside to the end.
slice-Holds :
    (rest : List ℕ) (n : ℕ)
    → AreBytes rest
    → n ≤ length rest
    → Holds AreBytes (slice rest n (length rest))
slice-Holds rest n h inside = let (tail, e, bytes, _) = parted rest n h inside in rw e bytes

after_address {ℓ} :
    {B : Type ℓ} (Q : B → Type 0) (rest : List ℕ) (k : Address → List ℕ → Result B)
    → AreBytes rest
    → ((a : Address) (tail : List ℕ) → AreBytes tail → Holds Q (k a tail))
    → Holds Q (
        decode_address_port_with_len rest >>= λ p.
        slice rest p.1 (length rest) >>= λ tail. k p.0 tail)
after_address Q rest k h next =
    bind-Holds (Taken rest) Q (decode_address_port_with_len rest) _ (decode-Taken rest h)
      λ p inside.
        bind-Holds AreBytes Q (slice rest p.1 (length rest)) _ (slice-Holds rest p.1 h inside)
          (λ tail. next p.0 tail)

skip_extension-Holds :
    (b : ℕ) (bs : List ℕ) → AreBytes bs → Holds AreBytes (skip_extension (b ∷ bs))
unfolding skip_extension
skip_extension-Holds b bs h = rw (slice_rest (b ∷ []) bs 1 refl) (
    bind-Holds (λ n. Unit {0}) AreBytes (network_of b) _ (network_of-Holds b)
      λ n _.
        bind-Holds (Taken bs) AreBytes (decode_address_port_with_len bs) _ (decode-Taken bs h)
          (λ p inside. slice-Holds bs p.1 h inside))

skip_round-Holds : (rest : List ℕ) → AreBytes rest → Holds AreBytes (skip_round rest)
unfolding skip_round
skip_round-Holds [] h = tt
skip_round-Holds (b ∷ bs) h =
    if-Holds AreBytes (b == 0) _ _ (λ _. slice-Holds (b ∷ bs) 1 h (omega arith))
      (λ _. skip_extension-Holds b bs h.1)

skip-Holds : (rest : List ℕ) → AreBytes rest → Holds AreBytes (skip_mux_inbound_extensions rest)
unfolding skip_mux_inbound_extensions
skip-Holds rest h =
    bind-Holds AreBytes AreBytes (skip_round rest) _ (skip_round-Holds rest h) skip_round-Holds

abbrev Fine : Target → Type 0
Fine t = Unit {0}

and_right : (a b : Bool) → (a && b) ≡ true → b ≡ true
and_right a b h = ground arith

new_extensions-Holds :
    (network : TargetNetwork) (addr : Address) (option : ℕ) (rest : List ℕ)
    → AreBytes rest
    → Holds Fine (new_extensions network addr option rest)
unfolding new_extensions
new_extensions-Holds net_tcp addr option rest h =
    bind-Holds AreBytes Fine (skip_mux_inbound_extensions rest) _ (skip-Holds rest h) (λ _ _. tt)
new_extensions-Holds net_udp addr option rest h =
    let has_id = not (bit_and option opt_data == 0) && leb 8 (length rest) in
    elim (Bool-cases has_id) [
      | inl e ↦ rw (e, and_right (not (bit_and option opt_data == 0)) (leb 8 (length rest)) e) tt
      | inr e ↦ rw e tt
    ]

new_target-Holds :
    (option : ℕ) (rest : List ℕ) → AreBytes rest → Holds Fine (new_target option rest)
unfolding new_target
new_target-Holds option [] h = tt
new_target-Holds option (b ∷ rest) h =
    bind-Holds (λ n. Unit {0}) Fine (network_of b) _ (network_of-Holds b)
      λ network _.
        after_address Fine rest (λ addr tail. new_extensions network addr option tail) h.1
          (λ addr tail. new_extensions-Holds network addr option tail)

keep_target-Holds : (rest : List ℕ) → AreBytes rest → Holds Fine (keep_target rest)
unfolding keep_target
keep_target-Holds [] h = tt
keep_target-Holds (b ∷ rest) h = elim (Bool-cases (is_udp (network_of b))) [
  | inl udp_kind ↦ rw udp_kind (
      bind-Holds (λ n. Unit {0}) Fine (network_of b) _ (network_of-Holds b)
        λ network _.
          bind-Holds (Taken rest) Fine (decode_address_port_with_len rest) _ (decode-Taken rest h.1)
            (λ _ _. tt))
  | inr other ↦ rw other tt
]

parse_target-Holds :
    (s : SessionStatus) (option : ℕ) (rest : List ℕ)
    → AreBytes rest
    → Holds Fine (parse_target s option rest)
unfolding parse_target
parse_target-Holds new option rest h = new_target-Holds option rest h
parse_target-Holds keep option rest h = keep_target-Holds rest h
parse_target-Holds end option rest h = tt
parse_target-Holds keep_alive option rest h = tt

-- On any bytes the parser of a metadata block returns metadata or an error; it does not panic.
pub parse_metadata-Holds :
    (meta : List ℕ) → AreBytes meta → Holds (λ m. Unit {0}) (parse_metadata meta)
parse_metadata-Holds [] h = unfold parse_metadata in tt
parse_metadata-Holds (a ∷ []) h = unfold parse_metadata in tt
parse_metadata-Holds (a ∷ b ∷ []) h = unfold parse_metadata in tt
parse_metadata-Holds (a ∷ b ∷ c ∷ []) h = unfold parse_metadata in tt
parse_metadata-Holds (hi ∷ lo ∷ code ∷ option ∷ rest) h =
    rw (parse_metadata_head hi lo code option rest) (
      bind-Holds (λ s. Unit {0}) (λ m. Unit {0}) (status_of code) _ (status_of-Holds code)
        λ s _.
          bind-Holds Fine (λ m. Unit {0}) (parse_target s option rest) _
            (parse_target-Holds s option rest h.1.1.1.1) (λ _ _. tt))
