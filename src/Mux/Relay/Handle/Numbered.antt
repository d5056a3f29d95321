-- ===== src/Mux/Relay/Handle/Numbered.antt =====
-- The bytes that were written to an outbound stream, and that a new stream has had none.
use native.Mathlib.Decide.{ℕ_discrete}
use v2ray.Prelude.{
  ℕ, suc, ◌<◌, ◌≤◌, ◌==◌, ◌≡◌, ◌≢◌, refl, sym, ap, subst, ◌∙◌, Option, none, some, List, [], ◌∷◌,
  ◌++◌, arith, if◌then◌else◌,
}
use v2ray.Common.Address.{Address}
use v2ray.Common.Maps.{DashMapLaws}
use v2ray.Common.Action.{modify-Triple, Triple}
use v2ray.Mux.Relay.{
  MuxSession, Calls, Tables, State, note, Event, spawn, fresh, connected, bound, associated, wrote,
  sent, sent_to, shut_down, insert_tcp, with_data, write_on, new_tcp,
}
use v2ray.Mux.Relay.Handle.Keeping.{IsQuiet, write_on-Triple}
use v2ray.Mux.Relay.Handle.New.{new_tcp-Triple}

-- In the order in which they were written.
unfoldable pub written : ℕ → List Event → List ℕ
written u [] = []
written u (wrote n bytes ∷ events) =
    let before = written u events in if n == u then before ++ bytes else before
written u (e ∷ events) = written u events

pub written_quiet :
    (u : ℕ) (e : Event) (events : List Event)
    → IsQuiet e
    → written u (e ∷ events) ≡ written u events
unfolding written
written_quiet u (connected n a) events q = refl
written_quiet u (bound n) events q = refl
written_quiet u (associated n a) events q = refl
written_quiet u (sent n bytes) events q = refl
written_quiet u (sent_to n a bytes) events q = refl
written_quiet u (shut_down n) events q = refl
written_quiet u (wrote n bytes) events q = elim q [ ]

pub written_same :
    (u : ℕ) (bytes : List ℕ) (events : List Event)
    → written u (wrote u bytes ∷ events) ≡ written u events ++ bytes
unfolding written
written_same u bytes events = ground arith

pub written_other :
    (u n : ℕ) (bytes : List ℕ) (events : List Event)
    → n ≢ u
    → written u (wrote n bytes ∷ events) ≡ written u events
unfolding written
written_other u n bytes events h = ground arith

-- The data of a payload; there may be none.
abbrev pub data_of : Option (List ℕ) → List ℕ
data_of none = []
data_of (some bytes) = bytes

module _ (t : Tables) where
  -- The streams of the sessions have been made, and no stream that has not been made has had bytes.
  abbrev pub IsNumbered : State t → Type 0
  IsNumbered s =
      ((q : ℕ) (y : MuxSession) → t.tcp.get q s.sessions ≡ some y → y.upstream < s.next)
      × ((u : ℕ) → s.next ≤ u → written u s.events ≡ [])

  pub noted-IsNumbered : (e : Event) → IsQuiet e → Triple IsNumbered (note t e) (λ u. IsNumbered)
  noted-IsNumbered e q = record {
    run = λ s h. (h.0, λ u le. written_quiet u e s.events q ∙ h.1 u le);
  }

  -- A stream that has just been made, and has had some bytes.
  abbrev pub HasNew : List ℕ → ℕ → State t → Type 0
  HasNew bytes n s =
      IsNumbered s
      × (n < s.next)
      × ((q : ℕ) (y : MuxSession) → t.tcp.get q s.sessions ≡ some y → y.upstream < n)
      × (written n s.events ≡ bytes)

  pub fresh-HasNew : Triple IsNumbered (fresh t) (HasNew [])
  fresh-HasNew = record {
    run = λ s h.
        let later : s.next < suc s.next = omega arith in
        (
          ((λ q y e. omega (arith, h.0 q y e)), λ u le. h.1 u (omega arith)),
          later,
          h.0,
          h.1 s.next (omega arith),
        );
  }

  pub noted-HasNew :
      (bytes : List ℕ) (n : ℕ) (e : Event)
      → IsQuiet e
      → Triple (HasNew bytes n) (note t e) (λ u. HasNew bytes n)
  noted-HasNew bytes n e q = record {
    run = λ s h. (
      (h.0.0, λ u le. written_quiet u e s.events q ∙ h.0.1 u le),
      h.1,
      h.2,
      written_quiet n e s.events q ∙ h.3,
    );
  }

  wrote-HasNew :
      (bytes : List ℕ) (n : ℕ) → Triple (HasNew [] n) (note t (wrote n bytes)) (λ u. HasNew bytes n)
  wrote-HasNew bytes n = record {
    run = λ s h. (
      (
        h.0.0,
        λ u le. written_other u n bytes s.events (λ e. absurd (omega (arith, h.1))) ∙ h.0.1 u le,
      ),
      h.1,
      h.2,
      written_same n bytes s.events ∙ ap (λ l. l ++ bytes) h.3,
    );
  }

  pub with_data-HasNew :
      (c : Calls) (payload : Option (List ℕ)) (n : ℕ)
      → Triple (HasNew [] n) (with_data payload (write_on t c n)) (λ u. HasNew (data_of payload) n)
  with_data-HasNew c none n = record { run = λ s h. h }
  with_data-HasNew c (some []) n = record { run = λ s h. h }
  with_data-HasNew c (some (b ∷ bs)) n = write_on-Triple t c n (b ∷ bs) (wrote-HasNew (b ∷ bs) n)

  pub spawn-HasNew :
      (bytes : List ℕ) (n : ℕ) → Triple (HasNew bytes n) (spawn t) (λ task. HasNew bytes n)
  spawn-HasNew bytes n = record {
    run = λ s h. (
      ((λ q y e. omega (arith, h.0.0 q y e)), λ u le. h.0.1 u (omega arith)),
      omega (arith, h.1),
      h.2,
      h.3,
    );
  }

  module _ (tcp_laws : DashMapLaws (Tables.tcp t)) where
    insert_tcp-IsNumbered :
        (id n task : ℕ) (bytes : List ℕ)
        → Triple
            (HasNew bytes n)
            (insert_tcp t id (record { upstream = n; reader_task = task }))
            (λ u. IsNumbered)
    insert_tcp-IsNumbered id n task bytes = modify-Triple (λ s h. (
      λ q y e. elim (ℕ_discrete q id) [
        | yes same ↦
            let x : MuxSession = record { upstream = n; reader_task = task } in
            let put = tcp_laws.get-insert id x s.sessions in
            let this : Path (Option MuxSession) (some x) (some y) =
              sym put ∙ ap (λ k. t.tcp.get k (t.tcp.insert id x s.sessions)) (sym same) ∙ e in
            subst (λ z. z.upstream < s.next) (some_eq x y this) h.1
        | no other ↦ h.0.0 q y (
            sym (
              tcp_laws.get-insert_ne id q (record { upstream = n; reader_task = task }) s.sessions
                other)
            ∙ e)
      ],
      h.0.1,
    ))
      where
        some_eq : (x y : MuxSession) → Path (Option MuxSession) (some x) (some y) → x ≡ y
        some_eq x y e = ground (arith, e)

    pub new_tcp-IsNumbered :
        (c : Calls) (id : ℕ) (dest : Address) (payload : Option (List ℕ))
        → Triple IsNumbered (new_tcp t c id dest payload) (λ u. IsNumbered)
    new_tcp-IsNumbered c id dest payload =
        new_tcp-Triple t {Made = HasNew []} {Written = HasNew (data_of payload)}
          {Spawned = λ n task. HasNew (data_of payload) n} c id dest payload fresh-HasNew
          (λ n. noted-HasNew [] n (connected n dest) tt) (λ n. with_data-HasNew c payload n)
          (λ n. spawn-HasNew (data_of payload) n)
          (λ n task. insert_tcp-IsNumbered id n task (data_of payload))
