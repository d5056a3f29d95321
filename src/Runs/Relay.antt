-- ===== src/Runs/Relay.antt =====
-- Relays of Mux.Cool connections on concrete frames.
use native.Mathlib.Decide.{ℕ_discrete}
use v2ray.Prelude.{false, ℕ, ◌≡◌, refl, arith, true, none, some, List, [], ◌∷◌, ◌++◌}
use v2ray.Common.Result.{transport, ok, err, stuck, missing_target, protocol}
use v2ray.Common.Address.{SocketAddr, v4}
use v2ray.Common.Maps.{bytes_dec}
use v2ray.Common.Action.{Ends}
use v2ray.Common.Stream.{list_stream, list_stream_laws}
use v2ray.App.FakeIp.Concrete.{find, discard, list_map, list_map_laws}
use v2ray.Mux.Metadata.{
  new, keep, end, net_tcp, net_udp, is_xudp_metadata, is_udp_target, xudp_status,
}
use v2ray.Mux.Metadata.Parse.{finish}
use v2ray.Mux.Relay.{Calls, Tables, State, start, new_tcp, new_udp, new_xudp, forget_xudp}
use v2ray.Mux.Relay.Client.{mux_upstream_to_client}
use v2ray.Mux.Relay.Client.Reads.{
  read-mux_upstream_to_client, read_frames, until_end, keep_read, end_read,
}
use v2ray.Mux.Relay.Handle.{
  relay_mux_cool, Frame, run, close, on_frame, on_new, on_keep, on_end, start_target, start_xudp,
  keep_target, write_session, end_tcp, end_udp, end_xudp,
}
use v2ray.Mux.Relay.Handle.Active.{HasActive, run_start-HasActive}
use v2ray.Mux.Relay.Handle.Close.{NoReuse}
use v2ray.Mux.Relay.Handle.Aborts.{relay_mux_cool-aborts}
use v2ray.Mux.Relay.Handle.Sessions.{HasSent, run-delivers}
use v2ray.Mux.Relay.Handle.Deliver.{said}
use v2ray.Mux.Relay.Handle.Success.{all_succeed}
use v2ray.Mux.Relay.Handle.Complete.{served}
use v2ray.Runs.Values.{website, resolver, hello}

abbrev tables : Tables
tables = record { tcp = list_map ℕ_discrete; udp = list_map ℕ_discrete; xudp = list_map bytes_dec }

abbrev address : SocketAddr
address = record { ip = v4 (10 ∷ 0 ∷ 0 ∷ 1 ∷ []); port = 53 }

abbrev gid : List ℕ
gid = 1 ∷ 2 ∷ 3 ∷ 4 ∷ 5 ∷ 6 ∷ 7 ∷ 8 ∷ []

abbrev opens : ℕ → Frame
opens id = (finish id 1 new (some (net_tcp, website), none), some hello)

abbrev opens_udp : ℕ → Frame
opens_udp id = (finish id 1 new (some (net_udp, resolver), none), some hello)

abbrev opens_xudp : Frame
opens_xudp = (finish 0 1 new (some (net_udp, resolver), some gid), some hello)

abbrev keeps : ℕ → Frame
keeps id = (finish id 1 keep (none, none), some hello)

abbrev ends : ℕ → Frame
ends id = (finish id 0 end (none, none), none)

abbrev mixed : List Frame
mixed = opens_xudp ∷ opens 1 ∷ opens_udp 2 ∷ opens 3 ∷ keeps 1 ∷ ends 3 ∷ keeps 2 ∷ []

-- The frames of `mixed` behind the one that opens session 1.
abbrev rest_of_mixed : List Frame
rest_of_mixed = opens_udp 2 ∷ opens 3 ∷ keeps 1 ∷ ends 3 ∷ keeps 2 ∷ []

run_start-HasActive_example :
    Ends (λ u. HasActive tables) (run tables (served address [] mixed) (start tables))
run_start-HasActive_example =
    run_start-HasActive tables (list_map_laws bytes_dec) (served address [] mixed)

relay_mux_cool-aborts_example :
    Ends
      (λ u s. s.tasks ≡ [])
      (relay_mux_cool tables (served address [] mixed) transport (start tables))
unfolding NoReuse run on_frame on_new on_keep on_end start_target start_xudp keep_target
    write_session end_tcp end_udp end_xudp new_tcp new_udp new_xudp forget_xudp find discard
    ℕ_discrete is_xudp_metadata is_udp_target xudp_status
relay_mux_cool-aborts_example =
    relay_mux_cool-aborts tables (list_map_laws ℕ_discrete) (list_map_laws ℕ_discrete)
      (list_map_laws bytes_dec) (served address [] mixed) transport
      ((refl, refl), ((refl, refl), ((refl, refl), ((refl, refl), (tt, (tt, (tt, tt)))))))

run-delivers_example :
    Ends
      (λ u. HasSent tables (list_map_laws ℕ_discrete) 1 (hello ++ (hello ++ hello)))
      (run tables
        (served address [] (opens 3 ∷ opens_xudp ∷ [])
          ++ ((all_succeed address [], opens 1)
              ∷ served address [] (keeps 3 ∷ keeps 1 ∷ ends 3 ∷ keeps 1 ∷ [])))
        (start tables))
unfolding said
run-delivers_example =
    run-delivers tables (list_map_laws ℕ_discrete) (served address [] (opens 3 ∷ opens_xudp ∷ []))
      (served address [] (keeps 3 ∷ keeps 1 ∷ ends 3 ∷ keeps 1 ∷ [])) (all_succeed address [])
      (opens 1).0 website (some hello) refl refl
      (tt, (tt, ((λ e. absurd (omega (arith, e))), (tt, tt))))

read-mux_upstream_to_client_example :
    read_frames list_stream 3
      (mux_upstream_to_client 7 (until_end (hello ∷ (1 ∷ 2 ∷ []) ∷ [])) true ++ hello)
    ≡ ok (keep_read 7 hello ∷ keep_read 7 (1 ∷ 2 ∷ []) ∷ end_read 7 ∷ [], hello)
read-mux_upstream_to_client_example =
    read-mux_upstream_to_client list_stream list_stream_laws 7 (omega arith)
      (hello ∷ (1 ∷ 2 ∷ []) ∷ []) hello
      (((λ e. ground arith), omega arith), (((λ e. ground arith), omega arith), tt))

-- A session that is opened again under its id leaves the reader of the first one running when the
-- client's side ends.
reopened :
    State.tasks
      (relay_mux_cool tables
        (served address [] (opens 1 ∷ opens 1 ∷ []))
        transport
        (start tables)).1
    ≡ 1 ∷ []
unfolding relay_mux_cool run on_frame on_new start_target new_tcp find discard ℕ_discrete close
    is_xudp_metadata is_udp_target xudp_status
reopened = refl

-- A frame that is refused ends the relay before the readers are aborted.
refused :
    (relay_mux_cool tables
      (served address [] (opens 1 ∷ (finish 2 0 new (none, none), none) ∷ []))
      transport
      (start tables)).0
    ≡ err (protocol missing_target)
unfolding relay_mux_cool run on_frame on_new start_target new_tcp find discard ℕ_discrete
    is_xudp_metadata is_udp_target xudp_status
refused = refl

still_reading :
    State.tasks
      (relay_mux_cool tables
        (served address [] (opens 1 ∷ (finish 2 0 new (none, none), none) ∷ []))
        transport
        (start tables)).1
    ≡ 1 ∷ []
unfolding relay_mux_cool run on_frame on_new start_target new_tcp find discard ℕ_discrete
    is_xudp_metadata is_udp_target xudp_status
still_reading = refl

-- The outbound of session 1 is silent, so that its reader holds the lock of the stream: the data of
-- the `Keep` frame waits for ever, and the `New` frame behind it is not handled.
abbrev held_up : List (Calls × Frame)
held_up =
    served address [] (opens 1 ∷ [])
    ++ ((record (all_succeed address []) { lock = false }, keeps 1)
        ∷ served address [] (opens_udp 2 ∷ []))

waits : (relay_mux_cool tables held_up transport (start tables)).0 ≡ stuck
unfolding relay_mux_cool run on_frame on_new on_keep start_target keep_target write_session new_tcp
    find discard ℕ_discrete is_xudp_metadata is_udp_target xudp_status
waits = refl

unhandled : (relay_mux_cool tables held_up transport (start tables)).1.tasks ≡ 1 ∷ []
unfolding relay_mux_cool run on_frame on_new on_keep start_target keep_target write_session new_tcp
    find discard ℕ_discrete is_xudp_metadata is_udp_target xudp_status
unhandled = refl
