-- ===== src/Gateway/Examples.antt =====
-- Sessions with sockets, streams and frames. Session 5 is of user 1.
use zk_auth.Prelude.{ℕ, ◌≡◌, refl, arith, Bool, true, false, some, none, List, [], ◌∷◌, ltb}
use zk_auth.Telemetry.Laws.{known, onto}
use zk_auth.Telemetry.Examples.{steady, small, idle}
use zk_auth.Gateway.{
  StreamEntry, Gateway, initial, new_stream, push_to_session, upgrade, on_error, on_close,
  register_connection, flush_queue,
}
use zk_auth.Gateway.Backpressure.{
  Signal, event, drain, signal_all, IsFlowing, taken, signal_all-IsFlowing,
}
use zk_auth.Gateway.Registry.{Event, upgrades, fails, closes, stale_close}
use zk_auth.Gateway.Messages.{
  Frame, malformed_json, ping, behavior_event, BehaviorEvent, scroll, Reply, pong, Line,
}
use zk_auth.Gateway.BothPaths.{on_frames, both_paths}

-- The third write is the first that wants a pause.
abbrev first_two : ℕ → Bool
first_two n = ltb n 2

abbrev signals : List (Signal ℕ)
signals = event 11 ∷ event 12 ∷ event 13 ∷ event 14 ∷ event 15 ∷ drain ∷ []

abbrev fresh : StreamEntry ℕ
fresh = new_stream 1 21

fresh-IsFlowing : IsFlowing fresh
fresh-IsFlowing = record { bound = ground arith; empty = λ _. refl }

signals_test :
    ((signal_all first_two signals fresh).sent ≡ 11 ∷ 12 ∷ 13 ∷ 14 ∷ [])
    × ((signal_all first_two signals fresh).pending_queue ≡ 15 ∷ [])
unfolding flush_queue
signals_test = (refl, refl)

signal_all-IsFlowing_example : IsFlowing (signal_all first_two signals fresh)
signal_all-IsFlowing_example = signal_all-IsFlowing first_two signals fresh fresh-IsFlowing

abbrev start : Gateway ℕ Reply
start = initial

abbrev events : List (Event ℕ)
events = upgrades true 5 1 21 ∷ fails 5 ∷ upgrades true 5 1 22 ∷ closes 5 21 ∷ []

abbrev connected : Gateway ℕ Reply
connected = register_connection true 5 1 21 start

abbrev stale : Gateway ℕ Reply
stale = on_close 5 21 (upgrade true 5 1 22 (on_error 5 connected)).1

stale_close_example :
    (stale.is_open 22 ≡ true)
    × (stale.streams 5 ≡ none)
    × (push_to_session 5 pong stale ≡ (false, stale))
    × ((upgrade true 5 1 21 stale).0 ≡ true)
stale_close_example = stale_close true 5 1 21 22 pong connected refl

abbrev scrolled : ℕ → BehaviorEvent
scrolled n = record {
  content = n;
  has_session_id = true;
  has_timestamp = true;
  event_type = some scroll;
  sequence_num = some n;
}

abbrev frames : List Frame
frames =
    behavior_event (some (scrolled 1))
    ∷ malformed_json
    ∷ ping
    ∷ behavior_event (some (record (scrolled 2) { sequence_num = none }))
    ∷ behavior_event (some (scrolled 3))
    ∷ []

abbrev line : Line steady small
line = record {
  state = record { last_seq_num = none; event_count = 0 };
  gateway = connected;
  telemetry = idle;
}

both_paths_example :
    (l' : Line steady small) × (s' : StreamEntry ℕ) × (on_frames steady small first_two 5 21 frames
        line
      ≡ some l')
    × (l'.gateway.streams 5 ≡ some s')
    × (taken s' ≡ 1 ∷ 3 ∷ [])
    × (known steady small (λ _. refl) l'.telemetry
        ≡ onto (1 ∷ 3 ∷ []) (known steady small (λ _. refl) idle))
both_paths_example =
    both_paths steady small first_two 5 21 (λ _. refl) frames line fresh refl fresh-IsFlowing
      (ground arith) refl refl refl
