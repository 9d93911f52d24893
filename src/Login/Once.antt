-- ===== src/Login/Once.antt =====
-- Logins that are tried again, and accounts that wait for their new key
-- (backend/src/controllers/auth.controller.ts, `postVerify`).
use zk_auth.Prelude.{ℕ, ◌≡◌, ◌⊎◌, inl, inr, false, some, arith}
use zk_auth.Effects.{ok, Succeeds, not-Succeeds}
use zk_auth.Stores.{Table}
use zk_auth.Schema.{Backends, UserRow, pending_verify}
use zk_auth.World.{World}
use zk_auth.Zkp.{ZkpEnv}
use zk_auth.Login.{LoginEnv, Drawn, VerifyRequest, VerifyAnswer, Token, post_verify}
use zk_auth.Login.Laws.{LoggedIn, post_verify-LoginOutcome}

module _ (B : Backends) (env : LoginEnv) where
  logged_in :
      (now : ℕ) (d : Drawn) (req : VerifyRequest (Token B env)) (w w' : World B)
      (a : VerifyAnswer (Token B env)) (x : ℕ)
      → ZkpEnv.dev_skip env.zkp ≡ false
      → post_verify B env now d req w ≡ ok a w'
      → LoggedIn B env now d req w w' a x
  logged_in now d req w w' a x prod e = rw e at (post_verify-LoginOutcome B env now d req w x prod)

  -- After a login in production, no later login succeeds on the state it left with the same challenge
  -- or with the same nullifier.
  pub post_verify_once :
      (now later : ℕ) (d d2 : Drawn) (req again : VerifyRequest (Token B env)) (w w' : World B)
      (a : VerifyAnswer (Token B env))
      → ZkpEnv.dev_skip env.zkp ≡ false
      → post_verify B env now d req w ≡ ok a w'
      → (again.body.challenge_id ≡ req.body.challenge_id)
        ⊎ (again.body.nullifier ≡ req.body.nullifier)
      → ¬ Succeeds (post_verify B env later d2 again w')
  post_verify_once now later d d2 req again w w' a prod e (inl same) = not-Succeeds _ λ b w2 h.
      let first = logged_in now d req w w' a 0 prod e in
      let second = logged_in later d2 again w' w2 b 0 prod h in
      ground (arith, first.consumed later, second.live, same)
  post_verify_once now later d d2 req again w w' a prod e (inr same) = not-Succeeds _ λ b w2 h.
      let first = logged_in now d req w w' a 0 prod e in
      let second = logged_in later d2 again w' w2 b 0 prod h in
      let one = first.verified in
      let two = second.verified in
      ground (
        arith, first.records, second.unrecorded, one.named, two.named, one.signals, two.signals,
        same,
      )

  -- An account in PENDING_VERIFY cannot log in in production, with a recovery token or without: a login
  -- fails wherever all accounts of its commitment are in that state.
  pub post_verify_pending :
      (now : ℕ) (d : Drawn) (req : VerifyRequest (Token B env)) (w : World B)
      → ZkpEnv.dev_skip env.zkp ≡ false
      → ((user : ℕ) (row : UserRow)
          → Table.row B.user_rows w.user_rows user ≡ some row
          → row.commitment_hash ≡ ZkpEnv.name env.zkp req.body.commitment
          → row.status ≡ pending_verify)
      → ¬ Succeeds (post_verify B env now d req w)
  post_verify_pending now d req w prod h = not-Succeeds _ λ a w' e.
      let login = logged_in now d req w w' a 0 prod e in
      let one = login.verified in
      ground (
        arith,
        one.activated,
        h login.r.user_id one.row one.found (ground (arith, one.committed, one.signals)),
      )
