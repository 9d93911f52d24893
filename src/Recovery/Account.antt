-- ===== src/Recovery/Account.antt =====
-- The life of an account across registration, recovery and login
-- (backend/src/services/auth/recovery.service.ts and backend/src/controllers/auth.controller.ts).
use zk_auth.Prelude.{
  ℕ, ◌+◌, ◌*◌, ◌≡◌, sym, ap, ◌∙◌, inl, inr, true, false, Option, none, some, arith, ltb, ◌==◌,
  ==_refl, if◌then◌else◌, Bool-cases, Option-cases,
}
use zk_auth.Effects.{ok, not-Succeeds, Succeeds}
use zk_auth.Schema.{Backends, RecoveryCodeRow, UserRow}
use zk_auth.World.{World}
use zk_auth.Tokens.{Jwt, access_key}
use zk_auth.Session.{Env}
use zk_auth.Zkp.{ZkpEnv}
use zk_auth.Login
use zk_auth.Login.{LoginEnv, Drawn, VerifyRequest, VerifyAnswer, post_verify, recovers}
use zk_auth.Login.Once.{post_verify_pending}
use zk_auth.Recovery.{
  RecoveryEnv, UserIdentifier, user_id, RecoveryExecutionInput, RecoveryExecutionResult, Token,
  replace_key, recovery_token_of, recovery_claims, recovery_ttl_s, execute_recovery,
}
use zk_auth.Recovery.Codes.{code, open_code}
use zk_auth.Recovery.Replace.{user_row, matching, burnt_if, Replaced}
use zk_auth.Recovery.Laws.{Recovered, Identified, recover-RecoveryOutcome}

module _ (B : Backends) where
  Replaced-row :
      (now user h commitment key : ℕ) (w w' : World B) (t x : ℕ)
      → Replaced B now user h commitment key w w' t x
      → (old : UserRow) × ((user == x) ≡ true
          → user_row B w' x ≡ some (replace_key commitment key old))
  Replaced-row now user h commitment key w w' t x r = elim (Option-cases (user_row B w user)) [
    | inl e ↦ absurd (ground (arith, e, r.exists))
    | inr (old, e) ↦ (old, λ same. ground (arith, e, same, r.replaces))
  ]

module _ (B : Backends) (env : RecoveryEnv) where
  recovered :
      (now : ℕ) (input : RecoveryExecutionInput) (w w' : World B)
      (result : RecoveryExecutionResult (Token B env)) (t x : ℕ)
      → execute_recovery B env now input w ≡ ok result w'
      → Recovered B env now input w w' result t x
  recovered now input w w' result t x e = rw e at (recover-RecoveryOutcome B env now input w t x)

  burnt_lem :
      (now user h : ℕ) (row : Option RecoveryCodeRow)
      → open_code B user (burnt_if B now (matching B user h row) row) ≡ true
      → (open_code B user row ≡ true) × (matching B user h row ≡ false)
  burnt_lem now user h none e = absurd (ground (arith, e))
  burnt_lem now user h (some row) e = elim (Bool-cases (matching B user h (some row))) [
    | inl m ↦ absurd (ground (arith, e, m))
    | inr m ↦ (ground (arith, e, m), m)
  ]

  same_user :
      (who : UserIdentifier) (w : World B) (a b : ℕ)
      → who ≡ user_id b
      → Identified B env who w a
      → a ≡ b
  same_user who w a b e known =
      let known' : Identified B env (user_id b) w a = rw e at known in known'

  -- A recovery that used the only open code of the user is the last one: no later recovery of this
  -- user by its id succeeds on the state it left, whatever the mnemonic.
  pub recover_once :
      (now later : ℕ) (input again : RecoveryExecutionInput) (w w' : World B) (only : ℕ)
      (result : RecoveryExecutionResult (Token B env))
      → execute_recovery B env now input w ≡ ok result w'
      → ((x : ℕ) → open_code B result.user_id (code B w x) ≡ true → x ≡ only)
      → again.user_identifier ≡ user_id result.user_id
      → ¬ Succeeds (execute_recovery B env later again w')
  recover_once now later input again w w' only result e one same = not-Succeeds _ λ result2 w2 h.
      let second = recovered later again w' w2 result2 0 0 h in
      let first = recovered now input w w' result 0 second.id e in
      let user : result2.user_id ≡ result.user_id =
        same_user again.user_identifier w' result2.user_id result.user_id same second.identified in
      let still : open_code B result.user_id (code B w' second.id) ≡ true =
        ground (arith, second.found, second.is_open, user) in
      let (open_before, spared) =
        burnt_lem now result.user_id first.row.code_hash (code B w second.id)
          (rw first.replaced.burns at still) in
      let here : second.id ≡ only = one second.id open_before in
      let there : first.id ≡ only = one first.id (ground (arith, first.found, first.is_open)) in
      let found : code B w second.id ≡ some first.row =
        ap (code B w) (here ∙ sym there) ∙ first.found in
      ground (arith, spared, found, first.is_open, ==_refl first.row.code_hash)

  -- For 15 minutes a recovery token is that of its user and of no other, and then of nobody.
  pub recovers-recovery_token_of :
      (now t user other : ℕ)
      → recovers other
          (Jwt.verify (Env.jwt env.session) access_key t (recovery_token_of B env now user))
        ≡ (if ltb t (now + recovery_ttl_s * 1000) then user == other else false)
  recovers-recovery_token_of now t user other = ground (
    arith,
    Jwt.verify-sign (Env.jwt env.session) access_key recovery_ttl_s now t (recovery_claims user),
  )

  -- Where no two accounts hold one commitment, nobody can log in with the new commitment after a
  -- recovery in production: the account waits in PENDING_VERIFY, which the verification of proofs
  -- refuses, so that the recovery token is never asked for.
  pub recover_locks_out :
      (login : LoginEnv) (now later : ℕ) (d : Drawn) (input : RecoveryExecutionInput)
      (req : VerifyRequest (Login.Token B login)) (w w' : World B)
      (result : RecoveryExecutionResult (Token B env))
      → ZkpEnv.dev_skip login.zkp ≡ false
      → execute_recovery B env now input w ≡ ok result w'
      → ((j k : ℕ) (r q : UserRow)
          → user_row B w' j ≡ some r
          → user_row B w' k ≡ some q
          → r.commitment_hash ≡ q.commitment_hash
          → j ≡ k)
      → ZkpEnv.name login.zkp req.body.commitment ≡ ZkpEnv.name env.zkp input.new_commitment_hash
      → ¬ Succeeds (post_verify B login later d req w')
  recover_locks_out login now later d input req w w' result prod e unique new =
      post_verify_pending B login later d req w' prod λ user row found hash.
        let known = recovered now input w w' result 0 result.user_id e in
        let (old, now_row) =
          Replaced-row B now result.user_id known.row.code_hash
            (ZkpEnv.name env.zkp input.new_commitment_hash) input.new_public_key w w' 0
            result.user_id known.replaced in
        let same : user ≡ result.user_id =
          unique user result.user_id row _ found (now_row (==_refl result.user_id)) (hash ∙ new) in
        ground (arith, found, same, now_row (==_refl result.user_id))
