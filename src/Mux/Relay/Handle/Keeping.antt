-- ===== src/Mux/Relay/Handle/Keeping.antt =====
-- The calls of a frame that touch none of the relay's tables keep what is said of the tables.
use v2ray.Prelude.{Bool, true, false, ℕ, Option, none, some, List, [], ◌∷◌}
use v2ray.Common.Result.{ProxyError}
use v2ray.Common.Address.{Address, SocketAddr, ipv4, ipv6, domain}
use v2ray.Common.Action.{pure-Triple, Action, Ends, lift, or_fail, Triple, bind-Triple}
use v2ray.Mux.Relay.{
  or_transport, failed_write, resolved, Calls, with_data, Tables, State, bind_socket, send_on,
  send_to_dest, write_on, lock_upstream, granted, note, fresh, Event, resolve_udp_dest, bound, sent,
  sent_to, wrote,
}

resolved-Ends :
    {S : Type 0} (P : S → Type 0) (name : List ℕ) (o : Option (List SocketAddr)) (s : S)
    → P s
    → Ends (λ a. P) (lift (resolved name o) s)
resolved-Ends P name none s h = tt
resolved-Ends P name (some []) s h = tt
resolved-Ends P name (some (a ∷ rest)) s h = h

module _ {S : Type 0} {P : S → Type 0} where
  pub or_fail-Keeps : (e : Option ProxyError) → Triple P (or_fail e) (λ u. P)
  or_fail-Keeps none = record { run = λ s h. h }
  or_fail-Keeps (some e) = record { run = λ s h. tt }

  pub with_data-Keeps :
      (payload : Option (List ℕ)) (f : List ℕ → Action S (Unit {0}))
      → ((bytes : List ℕ) → Triple P (f bytes) (λ u. P))
      → Triple P (with_data payload f) (λ u. P)
  with_data-Keeps none f h = record { run = λ s p. p }
  with_data-Keeps (some []) f h = record { run = λ s p. p }
  with_data-Keeps (some (b ∷ bs)) f h = h (b ∷ bs)

  pub resolve_udp_dest-Keeps :
      (c : Calls) (dest : Address) → Triple P (lift (resolve_udp_dest c dest)) (λ a. P)
  resolve_udp_dest-Keeps c (ipv4 ip p) = record { run = λ s h. h }
  resolve_udp_dest-Keeps c (ipv6 ip p) = record { run = λ s h. h }
  resolve_udp_dest-Keeps c (domain name p) = record {
    run = λ s h. resolved-Ends P name c.lookup_host s h;
  }

-- No bytes are written to an outbound stream.
abbrev pub IsQuiet : Event → Type 0
IsQuiet (wrote u bytes) = ⊥
IsQuiet e = Unit {0}

pub write_on-Triple :
    (t : Tables) {P Q : State t → Type 0} (c : Calls) (u : ℕ) (bytes : List ℕ)
    → Triple P (note t (wrote u bytes)) (λ x. Q)
    → Triple P (write_on t c u bytes) (λ x. Q)
write_on-Triple t c u bytes wrote_on =
    bind-Triple (or_fail-Keeps (failed_write c.write_all)) (λ x. wrote_on)

pub lock_upstream-Keeps :
    (t : Tables) {P : State t → Type 0} (c : Calls) → Triple P (lock_upstream t c) (λ u. P)
lock_upstream-Keeps t {P} c = record { run = λ s h. granted_or_not c.lock s h }
  where
    granted_or_not : (b : Bool) (s : State t) → P s → Ends (λ u. P) (lift (granted b) s)
    granted_or_not true s h = h
    granted_or_not false s h = tt

module _ (t : Tables) {P : State t → Type 0}
    (noted : (e : Event) → IsQuiet e → Triple P (note t e) (λ u. P)) where
  pub send_on-Keeps : (c : Calls) (u : ℕ) (bytes : List ℕ) → Triple P (send_on t c u bytes) (λ u. P)
  send_on-Keeps c u bytes =
      bind-Triple (or_fail-Keeps (or_transport c.send)) (λ x. noted (sent u bytes) tt)

  pub send_to_dest-Keeps :
      (c : Calls) (u : ℕ) (dest : Address) (bytes : List ℕ)
      → Triple P (send_to_dest t c u dest bytes) (λ u. P)
  send_to_dest-Keeps c u dest bytes = bind-Triple (resolve_udp_dest-Keeps c dest) (λ a.
      bind-Triple (or_fail-Keeps (or_transport c.send_to)) (λ x. noted (sent_to u a bytes) tt))

  pub bind_socket-Keeps :
      (c : Calls) → Triple P (fresh t) (λ n. P) → Triple P (bind_socket t c) (λ n. P)
  bind_socket-Keeps c numbered = bind-Triple (or_fail-Keeps (or_transport c.bind)) (λ x.
      bind-Triple numbered
        (λ n. bind-Triple (noted (bound n) tt) (λ x. pure-Triple {Q = λ k. P} n)))
