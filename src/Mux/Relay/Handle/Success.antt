-- ===== src/Mux/Relay/Handle/Success.antt =====
-- The frames end the loop only by a call that fails, a lock that does not come free, or a `New` frame
-- without target.
use v2ray.Prelude.{
  ℕ, Bool, ◌≡◌, ◌≢◌, refl, true, false, if◌then◌else◌, Option, none, some, List, [], ◌∷◌,
}
use v2ray.Common.Result.{Result, ok, err, panic, stuck}
use v2ray.Common.Address.{Address, SocketAddr, ipv4, ipv6, domain}
use v2ray.Common.Action.{or_fail, lift, continue, Action, ◌>>=◌}
use v2ray.Mux.Metadata.{FrameMetadata, new, TargetNetwork, net_tcp, net_udp, is_xudp_metadata}
use v2ray.Mux.Relay.{
  spawn, insert_xudp, insert_udp, associated, note, MuxUdpSession, XudpUdpSession, Tables, State,
  Calls, with_data, resolve_udp_dest, bind_socket, send_on, send_to_dest, forget_xudp, new_tcp,
  new_udp, new_xudp,
}
use v2ray.Mux.Relay.Handle.{on_new, start_target, start_xudp}
use v2ray.Mux.Relay.Handle.Active.{no_missing_id}

abbrev pub IsOk : {A S : Type 0} → Result A × S → Type 0
IsOk (ok a, s) = Unit {0}
IsOk r = ⊥

-- The call succeeds, whatever the state.
pub record Succeeds {S A : Type 0} (m : Action S A) : Type 0 where
  pub at : (s : S) → IsOk (m s)

continue-IsOk :
    {S A B : Type 0} (r : Result A × S) (f : A → Action S B)
    → IsOk r
    → ((a : A) → Succeeds (f a))
    → IsOk (continue r f)
continue-IsOk (ok a, s) f h k = Succeeds.at (k a) s
continue-IsOk (err e, s) f h k = h
continue-IsOk (panic, s) f h k = h
continue-IsOk (stuck, s) f h k = h

pub bind-Succeeds :
    {S A B : Type 0} {m : Action S A} {f : A → Action S B}
    → Succeeds m
    → ((a : A) → Succeeds (f a))
    → Succeeds (m >>= f)
bind-Succeeds {m} {f} h k = record { at = λ s. continue-IsOk (m s) f (Succeeds.at h s) k }

pub if-Succeeds :
    {S A : Type 0} (b : Bool) {m n : Action S A}
    → (b ≡ true → Succeeds m)
    → (b ≡ false → Succeeds n)
    → Succeeds (if b then m else n)
if-Succeeds true h k = h refl
if-Succeeds false h k = k refl

pub Option-IsOk :
    {S A B : Type 0} (o : Option A) (x : Result B × S) (f : A → Result B × S)
    → IsOk x
    → ((a : A) → IsOk (f a))
    → IsOk {A = B} {S = S} (elim o [ none ↦ x | some a ↦ f a ])
Option-IsOk none x f h k = h
Option-IsOk (some a) x f h k = k a

pub with_data-Succeeds :
    {S : Type 0} (payload : Option (List ℕ)) (f : List ℕ → Action S (Unit {0}))
    → ((bytes : List ℕ) → Succeeds (f bytes))
    → Succeeds (with_data payload f)
with_data-Succeeds none f h = record { at = λ s. tt }
with_data-Succeeds (some []) f h = record { at = λ s. tt }
with_data-Succeeds (some (b ∷ bs)) f h = h (b ∷ bs)

-- All calls succeed and the lock comes free, the first address that a name has being `a`.
abbrev pub all_succeed : SocketAddr → List SocketAddr → Calls
all_succeed a rest = record {
  lock = true;
  connect_outbound = none;
  bind = true;
  lookup_host = some (a ∷ rest);
  connect = true;
  write_all = none;
  send = true;
  send_to = true;
}

module _ (t : Tables) (a : SocketAddr) (rest : List SocketAddr) where
  abbrev pub c : Calls
  c = all_succeed a rest

  pub send_to_dest-Succeeds :
      (n : ℕ) (dest : Address) (bytes : List ℕ) → Succeeds (send_to_dest t c n dest bytes)
  send_to_dest-Succeeds n (ipv4 ip p) bytes = record { at = λ s. tt }
  send_to_dest-Succeeds n (ipv6 ip p) bytes = record { at = λ s. tt }
  send_to_dest-Succeeds n (domain name p) bytes = record { at = λ s. tt }

  forget_xudp-Succeeds : (gid : List ℕ) → Succeeds (forget_xudp t gid)
  unfolding forget_xudp
  forget_xudp-Succeeds gid = record {
    at = λ s. Option-IsOk (t.xudp.remove gid s.xudp_sessions).0 _ _ tt (λ x. tt);
  }

  bind_socket-Succeeds : Succeeds (bind_socket t c)
  bind_socket-Succeeds = record { at = λ s. tt }

  spawn-Succeeds : Succeeds (spawn t)
  spawn-Succeeds = record { at = λ s. tt }

  insert_udp-Succeeds : (id : ℕ) (x : MuxUdpSession) → Succeeds (insert_udp t id x)
  insert_udp-Succeeds id x = record { at = λ s. tt }

  insert_xudp-Succeeds : (gid : List ℕ) (x : XudpUdpSession) → Succeeds (insert_xudp t gid x)
  insert_xudp-Succeeds gid x = record { at = λ s. tt }

  new_xudp-Succeeds :
      (dest : Address) (gid : List ℕ) (payload : Option (List ℕ))
      → Succeeds (new_xudp t c dest gid payload)
  unfolding new_xudp
  new_xudp-Succeeds dest gid payload = bind-Succeeds (forget_xudp-Succeeds gid) (λ u.
      bind-Succeeds bind_socket-Succeeds (λ n.
        bind-Succeeds (with_data-Succeeds payload _ (λ bytes. send_to_dest-Succeeds n dest bytes))
          (λ u.
            bind-Succeeds spawn-Succeeds
              (λ task. insert_xudp-Succeeds gid (record { socket = n; reader_task = task })))))

  new_tcp-Succeeds :
      (id : ℕ) (dest : Address) (payload : Option (List ℕ)) → Succeeds (new_tcp t c id dest payload)
  unfolding new_tcp
  new_tcp-Succeeds id dest none = record { at = λ s. tt }
  new_tcp-Succeeds id dest (some []) = record { at = λ s. tt }
  new_tcp-Succeeds id dest (some (b ∷ bs)) = record { at = λ s. tt }

  resolve-Succeeds : (dest : Address) → Succeeds {S = State t} (lift (resolve_udp_dest c dest))
  resolve-Succeeds (ipv4 ip p) = record { at = λ s. tt }
  resolve-Succeeds (ipv6 ip p) = record { at = λ s. tt }
  resolve-Succeeds (domain name p) = record { at = λ s. tt }

  new_udp-Succeeds :
      (id : ℕ) (dest : Address) (payload : Option (List ℕ)) → Succeeds (new_udp t c id dest payload)
  unfolding new_udp
  new_udp-Succeeds id dest payload = bind-Succeeds bind_socket-Succeeds (λ n.
      bind-Succeeds (resolve-Succeeds dest) (λ up.
        bind-Succeeds {m = or_fail none} (record { at = λ s. tt })
          (λ u.
            bind-Succeeds {m = note t (associated n up)} (record { at = λ s. tt })
              (λ u.
                bind-Succeeds
                  (with_data-Succeeds payload (send_on t c n) (λ bytes. record { at = λ s. tt }))
                  (λ u. bind-Succeeds spawn-Succeeds (λ task.
                    insert_udp-Succeeds id
                      (record { socket = n; dest = dest; reader_task = task })))))))

  pub on_new-Succeeds :
      (f : FrameMetadata) (payload : Option (List ℕ))
      → f.status ≡ new
      → f.target ≢ none
      → Succeeds (on_new t c (f, payload))
  unfolding on_new start_xudp start_target
  on_new-Succeeds f payload e has_target =
      if-Succeeds (is_xudp_metadata f)
        (λ x. started f.target f.global_id has_target (no_missing_id t f x e))
        (λ x. opened f.target has_target)
    where
      started :
          (target : Option (TargetNetwork × Address)) (gid : Option (List ℕ))
          → target ≢ none
          → ¬ (gid ≡ none)
          → Succeeds (start_xudp t c target gid payload)
      started none gid h k = absurd (h refl)
      started (some (n, dest)) none h k = absurd (k refl)
      started (some (n, dest)) (some gid) h k = new_xudp-Succeeds dest gid payload

      opened :
          (target : Option (TargetNetwork × Address))
          → target ≢ none
          → Succeeds (start_target t c f.session_id target payload)
      opened none h = absurd (h refl)
      opened (some (net_tcp, dest)) h = new_tcp-Succeeds f.session_id dest payload
      opened (some (net_udp, dest)) h = new_udp-Succeeds f.session_id dest payload
