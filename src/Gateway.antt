-- ===== src/Gateway.antt =====
-- The WebSocket gateway of the backend: websocket/wsServer.ts, websocket/telemetryHandler.ts and
-- grpc/behaviorClient.ts under backend/src. The maps `_connections`, `_contexts` and `_streams` are
-- functions of the session; a socket is a number. What the gRPC library replies to a write is given
-- for each number of writes so far, and the written events are kept, the oldest first. Timers and the
-- handling of risk scores, which is in Risk, are left out.
pub mod Backpressure
pub mod Registry
pub mod Messages
pub mod BothPaths
mod Examples
use zk_auth.Prelude.{
  ℕ, ◌+◌, suc, Bool, true, false, not, ◌&&◌, Option, none, some, List, [], ◌∷◌, ◌++◌, ◌==◌, ltb,
  length, if◌then◌else◌, is_some,
}

-- `StreamEntry`, without the times.
pub record StreamEntry (E : Type 0) : Type 0 where
  pub user_id : ℕ
  pub ws : ℕ
  pub draining : Bool
  pub pending_queue : List E
  pub sent : List E

abbrev pub max_queue : ℕ
max_queue = 500

module _ {E : Type 0} where
  abbrev pub shift : List E → List E
  shift [] = []
  shift (x ∷ xs) = xs

  abbrev pub new_stream : ℕ → ℕ → StreamEntry E
  new_stream user ws = record {
    user_id = user;
    ws = ws;
    draining = false;
    pending_queue = [];
    sent = [];
  }

  -- `stream.write`: where the reply is false, the library wants a pause until it drains.
  abbrev pub send_event : (ℕ → Bool) → E → StreamEntry E → StreamEntry E
  send_event accepts event s = record s {
    sent = s.sent ++ event ∷ [];
    draining = if accepts (length s.sent) then s.draining else true;
  }

  -- An event that comes while the stream drains is queued; above 500 the oldest is dropped.
  abbrev pub bounded : List E → List E
  bounded queue = if ltb max_queue (length queue) then shift queue else queue

  abbrev pub write_event : (ℕ → Bool) → E → StreamEntry E → StreamEntry E
  write_event accepts event s =
      if s.draining
      then record s { pending_queue = bounded (s.pending_queue ++ event ∷ []) }
      else send_event accepts event s

  -- The loop of `_flushPendingQueue`, along the queue.
  unfoldable pub flush_queue : (ℕ → Bool) → List E → StreamEntry E → StreamEntry E
  flush_queue accepts [] s = record s { pending_queue = [] }
  flush_queue accepts (x ∷ xs) s =
      let rest = flush_queue accepts xs (send_event accepts x s) in
      if accepts (length s.sent)
      then rest
      else record (send_event accepts x s) { pending_queue = xs }

  abbrev pub drained : (ℕ → Bool) → StreamEntry E → StreamEntry E
  drained accepts s = flush_queue accepts s.pending_queue (record s { draining = false })

-- The registries of the gateway, with the messages that were sent to each socket, the newest first.
pub record Gateway (E M : Type 0) : Type 0 where
  pub connections : ℕ → Option ℕ
  pub contexts : ℕ → Option ℕ
  pub streams : ℕ → Option (StreamEntry E)
  pub is_open : ℕ → Bool
  pub received : List (ℕ × M)

abbrev pub put {ℓ} : {A : Type ℓ} → ℕ → A → (ℕ → A) → ℕ → A
put k a f j = if k == j then a else f j

module _ {E M : Type 0} where
  abbrev pub initial : Gateway E M
  initial = record {
    connections = λ s. none;
    contexts = λ s. none;
    streams = λ s. none;
    is_open = λ ws. false;
    received = [];
  }

  abbrev pub send_to : Option ℕ → M → Gateway E M → Bool × Gateway E M
  send_to none message g = (false, g)
  send_to (some ws) message g =
      if g.is_open ws
      then (true, record g { received = (ws, message) ∷ g.received })
      else (false, g)

  abbrev pub push_to_session : ℕ → M → Gateway E M → Bool × Gateway E M
  push_to_session session message g = send_to (g.connections session) message g

  -- `behaviorGrpcClient.open`; `created` is whether the circuit breaker let the stream be created.
  abbrev pub open_stream : Bool → ℕ → ℕ → ℕ → Gateway E M → Gateway E M
  open_stream created session user ws g =
      if is_some (g.streams session)
      then g
      else if created
      then record g { streams = put session (some (new_stream user ws)) g.streams }
      else g

  abbrev pub close_stream : ℕ → Gateway E M → Gateway E M
  close_stream session g = record g { streams = put session none g.streams }

  -- The handler of a new connection.
  abbrev pub register_connection : Bool → ℕ → ℕ → ℕ → Gateway E M → Gateway E M
  register_connection created session user ws g = open_stream created session user ws (record g {
    connections = put session (some ws) g.connections;
    contexts = put session (some user) g.contexts;
    is_open = put ws true g.is_open;
  })

  -- The end of the upgrade: 409 where the session has a connection.
  abbrev pub upgrade : Bool → ℕ → ℕ → ℕ → Gateway E M → Bool × Gateway E M
  upgrade created session user ws g =
      if is_some (g.connections session)
      then (false, g)
      else (true, register_connection created session user ws g)

  -- What `close` and `error` of a socket both run. It goes by the session alone.
  abbrev pub cleanup : ℕ → Gateway E M → Gateway E M
  cleanup session g = close_stream session (record g {
    connections = put session none g.connections;
    contexts = put session none g.contexts;
  })

  -- The event of a socket of the session.
  abbrev pub on_error : ℕ → Gateway E M → Gateway E M
  on_error session g = cleanup session g

  abbrev pub on_close : ℕ → ℕ → Gateway E M → Gateway E M
  on_close session ws g = cleanup session (record g { is_open = put ws false g.is_open })

  abbrev pub write_found : (ℕ → Bool) → ℕ → E → Option (StreamEntry E) → Gateway E M → Gateway E M
  write_found accepts session event none g = g
  write_found accepts session event (some s) g = record g {
    streams = put session (some (write_event accepts event s)) g.streams;
  }

  -- `behaviorGrpcClient.write`
  abbrev pub write_stream : (ℕ → Bool) → ℕ → E → Gateway E M → Gateway E M
  write_stream accepts session event g = write_found accepts session event (g.streams session) g

  abbrev pub drain_found : (ℕ → Bool) → ℕ → Option (StreamEntry E) → Gateway E M → Gateway E M
  drain_found accepts session none g = g
  drain_found accepts session (some s) g = record g {
    streams = put session (some (drained accepts s)) g.streams;
  }

  abbrev pub on_drain : (ℕ → Bool) → ℕ → Gateway E M → Gateway E M
  on_drain accepts session g = drain_found accepts session (g.streams session) g
