-- ===== src/Tests/Calls.antt =====
-- A call in the group "cheese" of Tests/World.antt, an event that is saved there, and the end of run.
use croissant.Base.{
  ℕ, suc, true, false, Option, none, some, List, [], ◌∷◌, String, load, count, contains, sum,
  nat_eq, string_eq, ◌≡◌, ◌↔◌, ◌⊎◌, refl, subst,
}
use croissant.Nostr.{Event}
use croissant.Groups.{GroupsState}
use croissant.LiveKit.{LiveKitState, join_token}
use croissant.LiveKit.Rooms.{Http, replied}
use croissant.LiveKit.Handlers.{AuthRequest, token, livekit_auth_handler}
use croissant.LiveKit.Handlers.Gate.{Admits, livekit_auth_handler_iff}
use croissant.Process.Phases.{panics, processed}
use croissant.Process.{process_event}
use croissant.Sync.Saved.{stopped, detached, saved, handle_event_saved}
use croissant.Sync.Broadcast.{Syncs, Renewed, handle_event_saved_lem}
use croissant.Guard.{
  CloseError, still_running, CloseReturns, timed_out, drained_first, begin_close, enter,
}
use croissant.Guard.Schedule.{System, start, here}
use croissant.Conntrack.{
  Conn, HijackedConns, conn_state, close, no_conns, tracked, hijacked, reports, all_closed,
  others_step, closes_next,
}
use croissant.Shutdown.{
  Stop, RunError, signalled, Run, runs, closes_all, shuts_down, on_signal, close_store,
}
use croissant.Shutdown.Order.{Run-ends_in_order}
use croissant.Tests.World.{Db, nostr, memory, cheese, event, message, world}
use croissant.Tests.Loading.{metadata}
use croissant.Tests.Conns.{no_error, two, two-Reach, two-order}

-- The group has calls, and its room is known.
abbrev calling : LiveKitState Db
calling = record {
  state = record world {
    groups = ("cheese", record cheese { nip = record cheese.nip { live_kit = true } }) ∷ [];
  };
  live_kit = record { server_url = "wss://calls"; api_key = "key"; api_secret = "secret" };
  base_url = "https://relay";
  rooms = "cheese" ∷ [];
  participants = [];
}

-- The server answers every call.
abbrev http : Http ℕ
http = record {
  parse_url = λ s. some (record { scheme = "wss"; rest = s });
  can_send = λ call. true;
  do_call = λ net call. (suc net, replied 200 (some []));
}

abbrev proof : Event
proof = event 8 27235 2 (("u" ∷ "https://relay/.well-known/nip29/livekit/cheese" ∷ []) ∷ [])

abbrev auth_request : AuthRequest
auth_request = record { group_id = "cheese"; authorization = "Nostr e30="; random = "xyz" }

livekit_auth_handler_iff_example :
    ((livekit_auth_handler nostr
        (λ s. some s)
        (λ s. some proof)
        (λ e. true)
        http
        calling
        auth_request
        0).1
      ≡ token "wss://calls" (join_token nostr calling.live_kit "xyz" cheese 2))
    ↔ Admits nostr
        (λ s. some s)
        (λ s. some proof)
        (λ e. true)
        http
        calling
        auth_request
        0
        "wss://calls"
        (join_token nostr calling.live_kit "xyz" cheese 2)
livekit_auth_handler_iff_example =
    livekit_auth_handler_iff nostr (λ s. some s) (λ s. some proof) (λ e. true) http calling
      auth_request 0 "wss://calls" (join_token nostr calling.live_kit "xyz" cheese 2)

handle_event_saved_lem_example :
    let r = handle_event_saved nostr metadata memory 99 1010 2 world message in
    let o = process_event nostr memory 1010 2 world message in
    ((o ≡ panics) × (r ≡ stopped))
    ⊎ ((s' : GroupsState Db) × (affected : List String) × (o ≡ processed s' affected)
        × (((s'' : GroupsState Db) × (r ≡ saved s'')
              × Syncs nostr metadata memory 99 1010 affected s' s''
              × Renewed nostr metadata memory 99 1010 s' s'')
            ⊎ ((r ≡ detached)
                × ((group_id : String) × (contains affected group_id ≡ true)
                    × (load s'.groups group_id ≡ none)))))
handle_event_saved_lem_example =
    handle_event_saved_lem nostr metadata memory 99 1010 0 world message

-- A signal comes and the requests drain, while nobody is at the store.
abbrev stop : Stop ℕ
stop = signalled none

abbrev closing : System
unfolding start croissant.Guard.new_gate begin_close
closing = record (start 2) { gate = begin_close (start 2).gate }

-- One connection more is handed off after CloseAll.
abbrev no_run_error : Option (RunError ℕ)
no_run_error = none

abbrev closed_both : HijackedConns ℕ
unfolding close no_conns conn_state
closed_both = (close no_error (close no_error two 1).0 2).0

abbrev late : HijackedConns ℕ
unfolding closed_both conn_state
late = conn_state closed_both (tracked 3) hijacked

third_open :
    (c : Conn) → tracked 3 ≡ tracked c → hijacked ≡ hijacked → load closed_both.close_errs c ≡ none
unfolding closed_both close no_conns conn_state
third_open c same state =
    let third : 3 ≡ c = cc same in subst (λ c. load closed_both.close_errs c ≡ none) third refl

late-Run :
    Run no_error stop
      (start 2)
      two
      (close_store closing none).0
      late
      none
      (close_store closing none).1
unfolding closing late
late-Run =
    runs closing none
      (on_signal none (
        shuts_down (
          closes_all (1 ∷ 2 ∷ []) two-order (
            closes_next 1 (
              closes_next 2
                (others_step (reports (tracked 3) hijacked third_open) (all_closed late)))))))
      here (drained_first refl)

Run-ends_in_order_example :
    let s' = (close_store closing none).0 in
    ((c : Conn)
      → contains two.conns c ≡ true
      → (count c late.inner_closes ≡ 1) × (contains late.conns c ≡ false))
    × (no_run_error ≡ none
        → (close_store closing none).1 ≡ none
        → (stop ≡ signalled none)
          × (s'.unmapped ≡ true)
          × (sum s'.threads ≡ 0)
          × ((enter s'.gate).1 ≡ false))
    × ((m : ℕ) → (close_store closing none).1 ≡ some (still_running m) → m ≡ sum s'.threads)
Run-ends_in_order_example = Run-ends_in_order no_error 2 stop here two-Reach late-Run
