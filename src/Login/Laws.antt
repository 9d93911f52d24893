-- ===== src/Login/Laws.antt =====
-- What a login proves and leaves behind (backend/src/controllers/auth.controller.ts, `postVerify`).
use zk_auth.Prelude.{
  ℕ, ◌≡◌, refl, ◌∙◌, ap, Bool, true, false, Option, none, some, arith, ==_refl, if◌then◌else◌,
}
use zk_auth.Errors.{other_error}
use zk_auth.Effects.{Outcome, ok, err, ◌>>=◌, ◌>>◌, Outcome-split, >>=-split}
use zk_auth.Stores.{Table}
use zk_auth.Schema.{Backends, ChallengePayload, UserRow, active}
use zk_auth.World.{World, SameLogins}
use zk_auth.Challenge.{fetch, consume}
use zk_auth.Challenge.Laws.{cached, Consumed, consume-Consumed}
use zk_auth.Challenge.Frame.{fetched, fetch_same, consume_logins, consume_nullifiers}
use zk_auth.Nullifier.{row_of, exists, register}
use zk_auth.Nullifier.Laws.{spent, durable, TwoPhase, register-TwoPhase}
use zk_auth.Nullifier.Frame.{existed, exists_same, register_logins}
use zk_auth.Zkp.{VerificationResult, ZkpEnv, verify}
use zk_auth.Zkp.Laws.{Verified, Checked, verify-Checked}
use zk_auth.Login.{
  LoginEnv, Drawn, VerifyRequest, VerifyAnswer, Token, input_of, registration, activate_found,
  activate_pending, answer, admit, check_proof, post_verify,
}
use zk_auth.Login.Frames.{Yields, Answered, answer-Answered}

module _ (B : Backends) (env : LoginEnv) where
  -- What stands behind an answer, and what the login leaves: `before` is the state in which the
  -- answer is made.
  pub record LoggedIn (now : ℕ) (d : Drawn) (req : VerifyRequest (Token B env)) (w w' : World B)
      (a : VerifyAnswer (Token B env)) (x : ℕ) : Type 0 where
    pub payload : ChallengePayload
    pub r : VerificationResult
    pub before : World B
    pub live : cached B w now req.body.challenge_id ≡ some payload
    pub verified : Verified B env.zkp (input_of B env req.body payload) w r
    pub unspent : spent B w r.nullifier_hash ≡ false
    pub unrecorded : durable B w r.nullifier_hash ≡ none
    pub spends : spent B w' r.nullifier_hash ≡ true
    pub records : durable B w' r.nullifier_hash ≡ some (row_of now (registration B env req.body r))
    pub consumed : (t : ℕ) → cached B w' t req.body.challenge_id ≡ none
    pub same : SameLogins w before
    pub yields : Yields B env now d r req.device req.body.oauth_context before w' x a

  abbrev pub LoginOutcome :
      ℕ
      → Drawn
      → VerifyRequest (Token B env)
      → World B
      → ℕ
      → Outcome (World B) (VerifyAnswer (Token B env))
      → Type 0
  LoginOutcome now d req w x (ok a w') = LoggedIn now d req w w' a x
  LoginOutcome now d req w x (err e w') =
      (w'.session_rows ≡ w.session_rows) × (w'.oauth_codes ≡ w.oauth_codes)

  pub activate_answers :
      (now user : ℕ) (token : Option (Token B env)) (w : World B) (row : UserRow)
      → Table.row B.user_rows w.user_rows user ≡ some row
      → row.status ≡ active
      → activate_pending B env now user token w
        ≡ (if Table.down B.user_rows w.user_rows then err other_error w else ok tt w)
  unfolding activate_pending activate_found
  activate_answers now user token w row found is_active = ground (arith, found, is_active)

  last_step :
      (now : ℕ) (d : Drawn) (req : VerifyRequest (Token B env)) (w u : World B)
      (payload : ChallengePayload) (r : VerificationResult) (x : ℕ)
      → cached B w now req.body.challenge_id ≡ some payload
      → Verified B env.zkp (input_of B env req.body payload) w r
      → spent B w r.nullifier_hash ≡ false
      → durable B w r.nullifier_hash ≡ none
      → spent B u r.nullifier_hash ≡ true
      → durable B u r.nullifier_hash ≡ some (row_of now (registration B env req.body r))
      → ((t : ℕ) → cached B u t req.body.challenge_id ≡ none)
      → SameLogins w u
      → LoginOutcome now d req w x (answer B env now d r req.device req.body.oauth_context u)
  last_step now d req w u payload r x live verified unspent unrecorded spends records consumed
        same =
      let facts = answer-Answered B env now d r req.device req.body.oauth_context u x in
      Outcome-split (LoginOutcome now d req w x)
        (answer B env now d r req.device req.body.oauth_context u)
        (λ a w' e.
          let (yields, kept) : Answered B env now d r req.device req.body.oauth_context u x
              (ok a w') =
            rw e at facts in
          record {
            payload = payload;
            r = r;
            before = u;
            live = live;
            verified = verified;
            unspent = unspent;
            unrecorded = unrecorded;
            spends = ground (arith, kept, spends);
            records = ground (arith, kept, records);
            consumed = λ t. ground (arith, kept, consumed t);
            same = same;
            yields = yields;
          })
        (λ y w' e.
          let kept : w' ≡ u = rw e at facts in
          (ground (arith, kept, same), ground (arith, kept, same)))

  consume_step :
      (now : ℕ) (d : Drawn) (req : VerifyRequest (Token B env)) (w u : World B)
      (payload : ChallengePayload) (r : VerificationResult) (x : ℕ)
      → cached B w now req.body.challenge_id ≡ some payload
      → Verified B env.zkp (input_of B env req.body payload) w r
      → register B env.lock_ttl_s now (registration B env req.body r) w ≡ ok tt u
      → LoginOutcome now d req w x (
          (consume B now req.body.challenge_id
              >> answer B env now d r req.device req.body.oauth_context)
            u)
  consume_step now d req w u payload r x live verified e =
      let reg = registration B env req.body r in
      let stored : TwoPhase B now reg w r.nullifier_hash (ok tt u) =
        rw e at (register-TwoPhase B env.lock_ttl_s now reg w r.nullifier_hash) in
      let same : SameLogins w u = rw e at (register_logins B env.lock_ttl_s now reg w) in
      >>=-split (LoginOutcome now d req w x) (consume B now req.body.challenge_id) _ u
        (λ _ v c.
          let kept : SameLogins u v = rw c at (consume_logins B now req.body.challenge_id u) in
          let nulls : (v.nullifiers ≡ u.nullifiers) × (v.nullifier_rows ≡ u.nullifier_rows) =
            rw c at (consume_nullifiers B now req.body.challenge_id u) in
          last_step now d req w v payload r x live verified (ground (arith, stored))
            (ground (arith, stored)) (ground (arith, stored, nulls, ==_refl r.nullifier_hash))
            (ground (arith, stored, nulls, ==_refl r.nullifier_hash))
            (λ t.
              let gone : Consumed B now req.body.challenge_id u t req.body.challenge_id (ok tt v) =
                rw c at (consume-Consumed B now req.body.challenge_id u t req.body.challenge_id) in
              ground (arith, gone, ==_refl req.body.challenge_id))
            (kept.0 ∙ same.0, kept.1 ∙ same.1, kept.2 ∙ same.2, kept.3 ∙ same.3))
        (λ y v c.
          let kept : SameLogins u v = rw c at (consume_logins B now req.body.challenge_id u) in
          (kept.0 ∙ same.0, kept.1 ∙ same.1))

  register_step :
      (now : ℕ) (d : Drawn) (req : VerifyRequest (Token B env)) (w : World B)
      (payload : ChallengePayload) (r : VerificationResult) (x : ℕ)
      → cached B w now req.body.challenge_id ≡ some payload
      → Verified B env.zkp (input_of B env req.body payload) w r
      → LoginOutcome now d req w x (admit B env now d req r w)
  unfolding admit
  register_step now d req w payload r x live verified =
      rw
        (activate_answers now r.user_id req.recovery_token w verified.row verified.found
          verified.activated)
        (by_down (Table.down B.user_rows w.user_rows))
    where
      registers : LoginOutcome now d req w x (
          (register B env.lock_ttl_s now (registration B env req.body r)
              >> (consume B now req.body.challenge_id
                  >> answer B env now d r req.device req.body.oauth_context))
            w)
      registers =
          let same = register_logins B env.lock_ttl_s now (registration B env req.body r) w in
          >>=-split (LoginOutcome now d req w x)
            (register B env.lock_ttl_s now (registration B env req.body r)) _ w
            (λ _ u e. consume_step now d req w u payload r x live verified e)
            (λ y u e. let kept : SameLogins w u = rw e at same in (kept.0, kept.1))

      by_down :
          (down : Bool)
          → LoginOutcome now d req w x (elim (if down then err other_error w else ok tt w) [
            | ok _ u ↦
                (register B env.lock_ttl_s now (registration B env req.body r)
                    >> (consume B now req.body.challenge_id
                        >> answer B env now d r req.device req.body.oauth_context))
                  u
            | err y u ↦ err y u
          ])
      by_down true = (refl, refl)
      by_down false = registers

  unchanged :
      (w u : World B) → u ≡ w → (u.session_rows ≡ w.session_rows) × (u.oauth_codes ≡ w.oauth_codes)
  unchanged w u same = (ap World.session_rows same, ap World.oauth_codes same)

  proof_step :
      (now : ℕ) (d : Drawn) (req : VerifyRequest (Token B env)) (w u : World B) (x : ℕ)
      (payload : ChallengePayload) (b : Bool)
      → ZkpEnv.dev_skip env.zkp ≡ false
      → u ≡ w
      → cached B w now req.body.challenge_id ≡ some payload
      → LoginOutcome now d req w x
          ((check_proof B env req.body payload b >>= λ r. admit B env now d req r) u)
  unfolding check_proof
  proof_step now d req w u x payload true prod same live = unchanged w u same
  proof_step now d req w u x payload false prod same live =
      let facts = verify-Checked B env.zkp (input_of B env req.body payload) u prod in
      >>=-split (LoginOutcome now d req w x) (verify B env.zkp (input_of B env req.body payload)) _
        u
        (λ r v e.
          let (kept, verified) : Checked B env.zkp (input_of B env req.body payload) u (ok r v) =
            rw e at facts in
          let known : Verified B env.zkp (input_of B env req.body payload) w r =
            rw same at verified in
          rw (kept ∙ same) (register_step now d req w payload r x live known))
        (λ y v e.
          let kept : Checked B env.zkp (input_of B env req.body payload) u (err y v) =
            rw e at facts in
          unchanged w v (kept.0 ∙ same))

  spent_step :
      (now : ℕ) (d : Drawn) (req : VerifyRequest (Token B env)) (w u : World B) (x : ℕ)
      (payload : ChallengePayload)
      → ZkpEnv.dev_skip env.zkp ≡ false
      → u ≡ w
      → cached B w now req.body.challenge_id ≡ some payload
      → LoginOutcome now d req w x (
          (exists B (ZkpEnv.name env.zkp req.body.nullifier) >>= λ b.
          (check_proof B env req.body payload b >>= λ r. admit B env now d req r))
            u)
  spent_step now d req w u x payload prod same live =
      let hash = ZkpEnv.name env.zkp req.body.nullifier in
      >>=-split (LoginOutcome now d req w x) (exists B hash) _ u
        (λ b v e.
          let (kept, _) = existed B hash u v b e in
          proof_step now d req w v x payload b prod (kept ∙ same) live)
        (λ y v e. let kept : v ≡ u = rw e at (exists_same B hash u) in unchanged w v (kept ∙ same))

  -- In production a login answers only if its challenge was live, its proof is verified for the nonce
  -- of that challenge and the commitment of an ACTIVE user, and its nullifier was spent in neither
  -- store. Then the nullifier is in both stores for this user and challenge, the challenge is gone
  -- from Redis for good, and the answer is one new session of the user or, with an OAuth context, one
  -- new code of the user that is bound to the nullifier and to a grant of the context's client. A
  -- login that fails leaves the sessions and the codes as they were.
  pub post_verify-LoginOutcome :
      (now : ℕ) (d : Drawn) (req : VerifyRequest (Token B env)) (w : World B) (x : ℕ)
      → ZkpEnv.dev_skip env.zkp ≡ false
      → LoginOutcome now d req w x (post_verify B env now d req w)
  unfolding post_verify
  post_verify-LoginOutcome now d req w x prod =
      >>=-split (LoginOutcome now d req w x) (fetch B now req.body.challenge_id) _ w
        (λ payload w1 e.
          let (same, live) = fetched B now req.body.challenge_id w w1 payload e in
          spent_step now d req w w1 x payload prod same live)
        (λ y w1 e.
          let same : w1 ≡ w = rw e at (fetch_same B now req.body.challenge_id w) in
          unchanged w w1 same)
