-- ===== src/Telemetry.antt =====
-- The buffer of behaviour events of backend/src/services/telemetry/telemetry.service.ts. TimescaleDB
-- is a table that is only appended to; a batch goes in with one INSERT. An event is a number, and
-- `fits` says whether the table takes its row (column types, ranges and CHECKs). The table has no
-- unique key, so that ON CONFLICT DO NOTHING skips no row.
pub mod Laws
pub mod Examples
use zk_auth.Prelude.{
  ℕ, ◌≤◌, leb, Bool, true, false, ◌&&◌, ◌||◌, not, List, [], ◌∷◌, ◌++◌, length, if◌then◌else◌,
}
use zk_auth.Stores.{Journal}

abbrev pub batch_size : ℕ
batch_size = 50

abbrev pub all_fit : (ℕ → Bool) → List ℕ → Bool
all_fit fits [] = true
all_fit fits (e ∷ es) = fits e && all_fit fits es

module _ (J : Journal ℕ) (fits : ℕ → Bool) where
  -- `timer` says whether a flush is scheduled: `_flushTimer` is not null.
  pub record Telemetry : Type 0 where
    pub buffer : List ℕ
    pub timer : Bool
    pub written : Journal.State J

  pub append_all : List ℕ → Journal.State J → Journal.State J
  append_all [] s = s
  append_all (e ∷ batch) s = append_all batch (Journal.append J e s)

  -- The INSERT of a batch. Its failure, where the database is down or a row does not fit, is logged and
  -- drops the whole batch.
  insert_batch : List ℕ → Journal.State J → Journal.State J
  unfolding append_all
  insert_batch batch s =
      if Journal.down J s || not (all_fit fits batch) then s else append_all batch s

  -- An empty buffer writes nothing.
  flush_batch : List ℕ → Telemetry → Telemetry
  unfolding insert_batch
  flush_batch [] w = w
  flush_batch (e ∷ batch) w = record w { buffer = []; written = insert_batch (e ∷ batch) w.written }

  pub flush_buffer : Telemetry → Telemetry
  unfolding flush_batch
  flush_buffer w = flush_batch w.buffer w

  schedule_flush : Telemetry → Telemetry
  schedule_flush w = record w { timer = true }

  clear_timer : Telemetry → Telemetry
  clear_timer w = record w { timer = false }

  pub buffer_event : ℕ → Telemetry → Telemetry
  unfolding flush_buffer schedule_flush clear_timer
  buffer_event e w =
      if leb batch_size (length (w.buffer ++ e ∷ []))
      then flush_buffer (clear_timer (record w { buffer = w.buffer ++ e ∷ [] }))
      else schedule_flush (record w { buffer = w.buffer ++ e ∷ [] })

  -- The timer fires: nothing where none is set.
  pub timer_fires : Telemetry → Telemetry
  unfolding flush_buffer clear_timer
  timer_fires w = if w.timer then flush_buffer (clear_timer w) else w

  -- At shutdown.
  pub flush : Telemetry → Telemetry
  unfolding flush_buffer clear_timer
  flush w = flush_buffer (clear_timer w)

  pub data Action : Type 0 where
    event : ℕ → Action
    fires shutdown : Action

  unfoldable pub act : Action → Telemetry → Telemetry
  unfolding buffer_event timer_fires flush
  act (event e) w = buffer_event e w
  act fires w = timer_fires w
  act shutdown w = flush w

  abbrev pub run : List Action → Telemetry → Telemetry
  run [] w = w
  run (a ∷ rest) w = run rest (act a w)
