-- ===== src/Gateway/Messages.antt =====
-- The frames of a client: backend/src/websocket/telemetryHandler.ts, with the stream of
-- grpc/behaviorClient.ts and the buffer of services/telemetry/telemetry.service.ts beside it. The
-- fields of an event that are only passed on are one number.
use zk_auth.Prelude.{ℕ, suc, Bool, ◌&&◌, Option, none, some, is_some, if◌then◌else◌}
use zk_auth.Stores.{Journal}
use zk_auth.Telemetry.{Telemetry, buffer_event}
use zk_auth.Gateway.{Gateway, send_to, write_stream}

pub data EventType : Type 0 where
  mouse_move key_down key_up scroll touch focus_loss : EventType

-- What the payload has: `none` is another type, and a number that is not a whole one or is negative.
pub record BehaviorEvent : Type 0 where
  pub content : ℕ
  pub has_session_id : Bool
  pub has_timestamp : Bool
  pub event_type : Option EventType
  pub sequence_num : Option ℕ

-- `null_json` is the text `null`, which is valid JSON. The payload `none` is not an object.
pub data Frame : Type 0 where
  malformed_json null_json no_type ping unknown_type : Frame
  behavior_event : Option BehaviorEvent → Frame

pub data Reply : Type 0 where
  pong : Reply

-- `lastSeqNum` is -1 before the first event.
pub record ConnectionState : Type 0 where
  pub last_seq_num : Option ℕ
  pub event_count : ℕ

abbrev pub is_valid_behavior_event : BehaviorEvent → Bool
is_valid_behavior_event e =
    e.has_session_id && (e.has_timestamp && (is_some e.event_type && is_some e.sequence_num))

module _ (J : Journal ℕ) (fits : ℕ → Bool) where
  pub record Line : Type 0 where
    pub state : ConnectionState
    pub gateway : Gateway ℕ Reply
    pub telemetry : Telemetry J fits

  -- A gap in the sequence is only logged.
  unfoldable pub handle_behavior_event : (ℕ → Bool) → ℕ → Option BehaviorEvent → Line → Line
  handle_behavior_event accepts session none l = l
  handle_behavior_event accepts session (some e) l =
      if is_valid_behavior_event e
      then record {
        state = record { last_seq_num = e.sequence_num; event_count = suc l.state.event_count };
        gateway = write_stream accepts session e.content l.gateway;
        telemetry = buffer_event J fits e.content l.telemetry;
      }
      else l

  -- `none` is an error that nothing catches: `msg.type` on `null` stands outside the `try`, and
  -- `uncaughtException` shuts the server down.
  unfoldable pub on_frame : (ℕ → Bool) → ℕ → ℕ → Frame → Line → Option Line
  unfolding handle_behavior_event
  on_frame accepts session ws malformed_json l = some l
  on_frame accepts session ws null_json l = none
  on_frame accepts session ws no_type l = some l
  on_frame accepts session ws unknown_type l = some l
  on_frame accepts session ws ping l =
      some (record l { gateway = (send_to (some ws) pong l.gateway).1 })
  on_frame accepts session ws (behavior_event payload) l =
      some (handle_behavior_event accepts session payload l)
