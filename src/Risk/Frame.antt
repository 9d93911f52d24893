-- ===== src/Risk/Frame.antt =====
-- Which stores the resolution of a step-up and a message leave alone
-- (backend/src/services/session/risk.service.ts).
use zk_auth.Prelude.{ℕ, ◌≡◌, Bool, none, arith, ==_refl}
use zk_auth.Effects.{ok}
use zk_auth.Stores.{Keyspace}
use zk_auth.Schema.{Backends, WsMessage}
use zk_auth.World.{World, SameReplays}
use zk_auth.Risk.{RiskEnv, send, resolve_step_up}

module _ (B : Backends) (risk : RiskEnv) where
  pub resolve_replays :
      (now id : ℕ) (w w' : World B) → resolve_step_up B risk now id w ≡ ok tt w' → SameReplays w w'
  unfolding resolve_step_up
  resolve_replays now id w w' e = (ground (arith, e), ground (arith, e), ground (arith, e))

  pub resolve_opens :
      (now id t : ℕ) (w w' : World B)
      → resolve_step_up B risk now id w ≡ ok tt w'
      → Keyspace.live B.step_ups w'.step_ups t id ≡ none
  unfolding resolve_step_up
  resolve_opens now id t w w' e =
      ground (arith, e, ==_refl id, Keyspace.live-remove B.step_ups id w.step_ups t id)

  pub send_replays :
      (is_open : Bool) (id : ℕ) (msg : WsMessage) (w w' : World B)
      → send B risk is_open id msg w ≡ ok tt w'
      → SameReplays w w'
  unfolding send
  send_replays is_open id msg w w' e = (ground (arith, e), ground (arith, e), ground (arith, e))

  pub send_step_ups :
      (is_open : Bool) (id : ℕ) (msg : WsMessage) (w w' : World B)
      → send B risk is_open id msg w ≡ ok tt w'
      → w'.step_ups ≡ w.step_ups
  unfolding send
  send_step_ups is_open id msg w w' e = ground (arith, e)
