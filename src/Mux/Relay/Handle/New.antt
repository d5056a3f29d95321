-- ===== src/Mux/Relay/Handle/New.antt =====
-- A `New` frame, from what is true of its parts: a property of the tables holds until the reader is
-- spawned, and another one once the session is in its table.
use v2ray.Prelude.{ℕ, Option, List}
use v2ray.Common.Address.{Address}
use v2ray.Common.Action.{Triple, bind-Triple}
use v2ray.Mux.Relay.{
  with_data, Calls, Tables, State, note, Event, forget_xudp, new_xudp, new_tcp, new_udp, write_on,
  associated, connected, spawn, fresh, or_transport, insert_tcp, insert_udp, insert_xudp,
}
use v2ray.Mux.Relay.Handle.Keeping.{
  IsQuiet, or_fail-Keeps, with_data-Keeps, send_on-Keeps, send_to_dest-Keeps, bind_socket-Keeps,
  resolve_udp_dest-Keeps,
}

pub new_tcp-Triple :
    (t : Tables) {P R : State t → Type 0} {Made Written : ℕ → State t → Type 0}
    {Spawned : ℕ → ℕ → State t → Type 0} (c : Calls) (id : ℕ) (dest : Address)
    (payload : Option (List ℕ))
    → Triple P (fresh t) Made
    → ((n : ℕ) → Triple (Made n) (note t (connected n dest)) (λ u. Made n))
    → ((n : ℕ) → Triple (Made n) (with_data payload (write_on t c n)) (λ u. Written n))
    → ((n : ℕ) → Triple (Written n) (spawn t) (Spawned n))
    → ((n task : ℕ)
        → Triple
            (Spawned n task)
            (insert_tcp t id (record { upstream = n; reader_task = task }))
            (λ u. R))
    → Triple P (new_tcp t c id dest payload) (λ u. R)
unfolding new_tcp
new_tcp-Triple t c id dest payload numbered made written spawned inserted =
    bind-Triple (or_fail-Keeps c.connect_outbound) (λ u. bind-Triple numbered (λ n.
      bind-Triple (made n)
        (λ u. bind-Triple (written n) (λ u. bind-Triple (spawned n) (λ task. inserted n task)))))

module _ (t : Tables) {P R : State t → Type 0} {Spawned : ℕ → State t → Type 0}
    (noted : (e : Event) → IsQuiet e → Triple P (note t e) (λ u. P))
    (numbered : Triple P (fresh t) (λ n. P)) (spawned : Triple P (spawn t) Spawned) where
  pub new_xudp-Triple :
      {O : State t → Type 0} (c : Calls) (dest : Address) (gid : List ℕ) (payload : Option (List ℕ))
      → Triple O (forget_xudp t gid) (λ u. P)
      → ((socket task : ℕ)
          → Triple
              (Spawned task)
              (insert_xudp t gid (record { socket = socket; reader_task = task }))
              (λ u. R))
      → Triple O (new_xudp t c dest gid payload) (λ u. R)
  unfolding new_xudp
  new_xudp-Triple c dest gid payload forgotten inserted = bind-Triple forgotten (λ u.
      bind-Triple (bind_socket-Keeps t noted c numbered) (λ socket.
        bind-Triple
          (with_data-Keeps payload _ (λ bytes. send_to_dest-Keeps t noted c socket dest bytes))
          (λ u. bind-Triple spawned (λ task. inserted socket task))))

  pub new_udp-Triple :
      (c : Calls) (id : ℕ) (dest : Address) (payload : Option (List ℕ))
      → ((socket task : ℕ)
          → Triple
              (Spawned task)
              (insert_udp t id (record { socket = socket; dest = dest; reader_task = task }))
              (λ u. R))
      → Triple P (new_udp t c id dest payload) (λ u. R)
  unfolding new_udp
  new_udp-Triple c id dest payload inserted =
      bind-Triple (bind_socket-Keeps t noted c numbered) (λ socket.
        bind-Triple (resolve_udp_dest-Keeps c dest) (λ upstream.
          bind-Triple (or_fail-Keeps (or_transport c.connect)) (λ u.
            bind-Triple (noted (associated socket upstream) tt) (λ u.
              bind-Triple
                (with_data-Keeps payload _ (λ bytes. send_on-Keeps t noted c socket bytes))
                (λ u. bind-Triple spawned (λ task. inserted socket task))))))
