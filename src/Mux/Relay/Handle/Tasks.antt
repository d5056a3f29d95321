-- ===== src/Mux/Relay/Handle/Tasks.antt =====
-- Every reader task that runs is the reader of a session of the relay, while no id is used again.
use native.Mathlib.Decide.{ℕ_discrete}
use v2ray.Prelude.{ℕ, ◌≡◌, ◌⊎◌, inl, inr, subst, none, List, In}
use v2ray.Common.Maps.{DashMapLaws, bytes_dec}
use v2ray.Common.Action.{Triple, modify-Triple, Option-Ends}
use v2ray.Mux.Relay.{
  MuxSession, MuxUdpSession, XudpUdpSession, Tables, State, forget_xudp, spawn, insert_tcp,
  insert_udp, insert_xudp,
}
use v2ray.Mux.Relay.Handle.{end_tcp, end_udp}
use v2ray.Mux.Relay.Handle.Readers.{
  IsReader, IsReader-insert, IsReader-insert_absent, IsReader-remove, IsReader-remove_absent,
  In-abort,
}

module _ (t : Tables) (tcp_laws : DashMapLaws (Tables.tcp t))
    (udp_laws : DashMapLaws (Tables.udp t)) (xudp_laws : DashMapLaws (Tables.xudp t)) where
  abbrev pub ReadsTcp : t.tcp.Map → ℕ → Type 0
  ReadsTcp = IsReader ℕ_discrete t.tcp tcp_laws MuxSession.reader_task

  abbrev pub ReadsUdp : t.udp.Map → ℕ → Type 0
  ReadsUdp = IsReader ℕ_discrete t.udp udp_laws MuxUdpSession.reader_task

  abbrev pub ReadsXudp : t.xudp.Map → ℕ → Type 0
  ReadsXudp = IsReader bytes_dec t.xudp xudp_laws XudpUdpSession.reader_task

  abbrev pub IsKnown : State t → ℕ → Type 0
  IsKnown s r = ReadsTcp s.sessions r ⊎ (ReadsUdp s.udp_sessions r ⊎ ReadsXudp s.xudp_sessions r)

  -- Each task that runs reads for a session of a table.
  abbrev pub AllKnown : State t → Type 0
  AllKnown s = (r : ℕ) → In r s.tasks → IsKnown s r

  abbrev pub KnownBut : ℕ → State t → Type 0
  KnownBut n s = (r : ℕ) → In r s.tasks → (n ≡ r) ⊎ IsKnown s r

  pub spawn-KnownBut : Triple AllKnown (spawn t) KnownBut
  spawn-KnownBut = record {
    run = λ s h r i. elim i [ inl here ↦ inl here | inr later ↦ inr (h r later) ];
  }

  pub insert_tcp-AllKnown :
      (id : ℕ) (x : MuxSession)
      → Triple
          (λ s. KnownBut x.reader_task s × (t.tcp.get id s.sessions ≡ none))
          (insert_tcp t id x)
          (λ u. AllKnown)
  insert_tcp-AllKnown id x = modify-Triple (λ s h r i. elim (h.0 r i) [
    | inl this ↦ inl (
        subst (ReadsTcp (t.tcp.insert id x s.sessions)) this
          (IsReader-insert ℕ_discrete t.tcp tcp_laws MuxSession.reader_task id x s.sessions))
    | inr (inl k) ↦ inl (
        IsReader-insert_absent ℕ_discrete t.tcp tcp_laws MuxSession.reader_task id x s.sessions r
          h.1 k)
    | inr (inr k) ↦ inr k
  ])

  pub insert_udp-AllKnown :
      (id : ℕ) (x : MuxUdpSession)
      → Triple
          (λ s. KnownBut x.reader_task s × (t.udp.get id s.udp_sessions ≡ none))
          (insert_udp t id x)
          (λ u. AllKnown)
  insert_udp-AllKnown id x = modify-Triple (λ s h r i. elim (h.0 r i) [
    | inl this ↦ inr (
        inl (
          subst (ReadsUdp (t.udp.insert id x s.udp_sessions)) this (
            IsReader-insert ℕ_discrete t.udp udp_laws MuxUdpSession.reader_task id x
              s.udp_sessions)))
    | inr (inl k) ↦ inl k
    | inr (inr (inl k)) ↦ inr (
        inl (
          IsReader-insert_absent ℕ_discrete t.udp udp_laws MuxUdpSession.reader_task id x
            s.udp_sessions r h.1 k))
    | inr (inr (inr k)) ↦ inr (inr k)
  ])

  pub insert_xudp-AllKnown :
      (gid : List ℕ) (x : XudpUdpSession)
      → Triple
          (λ s. KnownBut x.reader_task s × (t.xudp.get gid s.xudp_sessions ≡ none))
          (insert_xudp t gid x)
          (λ u. AllKnown)
  insert_xudp-AllKnown gid x = modify-Triple (λ s h r i. elim (h.0 r i) [
    | inl this ↦ inr (
        inr (
          subst (ReadsXudp (t.xudp.insert gid x s.xudp_sessions)) this (
            IsReader-insert bytes_dec t.xudp xudp_laws XudpUdpSession.reader_task gid x
              s.xudp_sessions)))
    | inr (inl k) ↦ inl k
    | inr (inr (inl k)) ↦ inr (inl k)
    | inr (inr (inr k)) ↦ inr (
        inr (
          IsReader-insert_absent bytes_dec t.xudp xudp_laws XudpUdpSession.reader_task gid x
            s.xudp_sessions r h.1 k))
  ])

  pub forget_xudp-AllKnown :
      (gid : List ℕ)
      → Triple AllKnown
          (forget_xudp t gid)
          (λ u s. AllKnown s × (t.xudp.get gid s.xudp_sessions ≡ none))
  unfolding forget_xudp
  forget_xudp-AllKnown gid = record {
    run = λ s h.
        Option-Ends (λ u s. AllKnown s × (t.xudp.get gid s.xudp_sessions ≡ none))
          (t.xudp.remove gid s.xudp_sessions).0 _ _
          (λ e. (
            λ r i. elim (h r i) [
              | inl k ↦ inl k
              | inr (inl k) ↦ inr (inl k)
              | inr (inr k) ↦ inr (
                  inr (
                    IsReader-remove_absent bytes_dec t.xudp xudp_laws XudpUdpSession.reader_task gid
                      s.xudp_sessions r e k))
            ],
            xudp_laws.get-remove gid s.xudp_sessions,
          ))
          (λ x e. (
            λ r i.
                let (was, other) = In-abort x.reader_task r s.tasks i in
                elim (h r was) [
                  | inl k ↦ inl k
                  | inr (inl k) ↦ inr (inl k)
                  | inr (inr k) ↦ inr (
                      inr (
                        IsReader-remove bytes_dec t.xudp xudp_laws XudpUdpSession.reader_task gid
                          s.xudp_sessions r x e other k))
                ],
            xudp_laws.get-remove gid s.xudp_sessions,
          ));
  }

  pub end_tcp-AllKnown : (id : ℕ) → Triple AllKnown (end_tcp t id) (λ u. AllKnown)
  unfolding end_tcp
  end_tcp-AllKnown id = record {
    run = λ s h.
        Option-Ends (λ u. AllKnown) (t.tcp.remove id s.sessions).0 _ _
          (λ e r i. elim (h r i) [
            | inl k ↦ inl (
                IsReader-remove_absent ℕ_discrete t.tcp tcp_laws MuxSession.reader_task id
                  s.sessions r e k)
            | inr k ↦ inr k
          ])
          (λ x e r i.
            let (was, other) = In-abort x.reader_task r s.tasks i in
            elim (h r was) [
              | inl k ↦ inl (
                  IsReader-remove ℕ_discrete t.tcp tcp_laws MuxSession.reader_task id s.sessions r x
                    e other k)
              | inr k ↦ inr k
            ]);
  }

  pub end_udp-AllKnown : (id : ℕ) → Triple AllKnown (end_udp t id) (λ u. AllKnown)
  unfolding end_udp
  end_udp-AllKnown id = record {
    run = λ s h.
        Option-Ends (λ u. AllKnown) (t.udp.remove id s.udp_sessions).0 _ _
          (λ e r i. elim (h r i) [
            | inl k ↦ inl k
            | inr (inl k) ↦ inr (
                inl (
                  IsReader-remove_absent ℕ_discrete t.udp udp_laws MuxUdpSession.reader_task id
                    s.udp_sessions r e k))
            | inr (inr k) ↦ inr (inr k)
          ])
          (λ x e r i.
            let (was, other) = In-abort x.reader_task r s.tasks i in
            elim (h r was) [
              | inl k ↦ inl k
              | inr (inl k) ↦ inr (
                  inl (
                    IsReader-remove ℕ_discrete t.udp udp_laws MuxUdpSession.reader_task id
                      s.udp_sessions r x e other k))
              | inr (inr k) ↦ inr (inr k)
            ]);
  }
