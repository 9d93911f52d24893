-- ===== src/Devices/StepUp.antt =====
-- What stands behind a resolved step-up
-- (backend/src/controllers/session.controller.ts, `postStepUpResolve`).
use zk_auth.Prelude.{
  ℕ, ◌≡◌, ◌∙◌, Bool, true, false, Option, none, some, arith, ◌==◌, ==_refl, ==_iff, Bool-cases, inl,
  inr,
}
use zk_auth.Effects.{ok, ◌>>◌, >>=-ok}
use zk_auth.Stores.{get}
use zk_auth.Schema.{Backends, ChallengePayload, StepUpEntry, step_up_resolved}
use zk_auth.World.{World, in_step_ups}
use zk_auth.Challenge.{fetch, consume}
use zk_auth.Challenge.Laws.{cached, Consumed, consume-Consumed}
use zk_auth.Challenge.Frame.{fetched, consume_nullifiers}
use zk_auth.Nullifier.{exists, register, row_of}
use zk_auth.Nullifier.Laws.{spent, durable, TwoPhase, register-TwoPhase}
use zk_auth.Nullifier.Frame.{existed, register_challenges}
use zk_auth.Risk.{RiskEnv, resolve_step_up, send}
use zk_auth.Risk.Frame.{resolve_replays, resolve_opens, send_replays, send_step_ups}
use zk_auth.Zkp.{ZkpEnv, VerificationResult}
use zk_auth.Zkp.Laws.{Verified, Checked, verify-Checked}
use zk_auth.AuthGuard.{AuthenticatedSession}
use zk_auth.Login.{LoginEnv, VerifyBody, input_of, registration, check_proof}
use zk_auth.Devices.{resolve_verified, resolve_pending, post_step_up_resolve}
use zk_auth.Devices.Revocation.{stepped}

module _ (B : Backends) (env : LoginEnv) (risk : RiskEnv) where
  -- What a resolved step-up has seen, and what it leaves at a time `t`.
  pub record StepUpResolved (now : ℕ) (s : AuthenticatedSession) (body : VerifyBody)
      (w w' : World B) (t : ℕ) : Type 0 where
    pub entry : StepUpEntry
    pub payload : ChallengePayload
    pub r : VerificationResult
    pub asked : stepped B env risk w now s.session_id ≡ some entry
    pub live : cached B w now body.challenge_id ≡ some payload
    pub verified : Verified B env.zkp (input_of B env body payload) w r
    pub own : r.user_id ≡ s.user_id
    pub unspent : spent B w r.nullifier_hash ≡ false
    pub spends : spent B w' r.nullifier_hash ≡ true
    pub records : durable B w' r.nullifier_hash ≡ some (row_of now (registration B env body r))
    pub consumed : cached B w' t body.challenge_id ≡ none
    pub opened : stepped B env risk w' t s.session_id ≡ none

  after_proof :
      (now : ℕ) (is_open : Bool) (s : AuthenticatedSession) (body : VerifyBody) (w w' : World B)
      (entry : StepUpEntry) (payload : ChallengePayload) (r : VerificationResult) (t : ℕ)
      → stepped B env risk w now s.session_id ≡ some entry
      → cached B w now body.challenge_id ≡ some payload
      → Verified B env.zkp (input_of B env body payload) w r
      → r.user_id ≡ s.user_id
      → (consume B now body.challenge_id
            >> (register B env.lock_ttl_s now (registration B env body r)
                >> (resolve_step_up B risk now s.session_id
                    >> send B risk is_open s.session_id (step_up_resolved s.session_id))))
          w
        ≡ ok tt w'
      → StepUpResolved now s body w w' t
  after_proof now is_open s body w w' entry payload r t asked live verified own e =
      let reg = registration B env body r in
      let (_, w1, c, e1) = >>=-ok (consume B now body.challenge_id) _ w w' tt e in
      let (_, w2, g, e2) = >>=-ok (register B env.lock_ttl_s now reg) _ w1 w' tt e1 in
      let (_, w3, o, e3) = >>=-ok (resolve_step_up B risk now s.session_id) _ w2 w' tt e2 in
      let (nulls, rows) : (w1.nullifiers ≡ w.nullifiers) × (w1.nullifier_rows ≡ w.nullifier_rows) =
        rw c at (consume_nullifiers B now body.challenge_id w) in
      let gone : Consumed B now body.challenge_id w t body.challenge_id (ok tt w1) =
        rw c at (consume-Consumed B now body.challenge_id w t body.challenge_id) in
      let stored : TwoPhase B now reg w1 r.nullifier_hash (ok tt w2) =
        rw g at (register-TwoPhase B env.lock_ttl_s now reg w1 r.nullifier_hash) in
      let kept : w2.challenges ≡ w1.challenges =
        rw g at (register_challenges B env.lock_ttl_s now reg w1) in
      let (ch3, n3, d3) = resolve_replays B risk now s.session_id w2 w3 o in
      let (ch4, n4, d4) =
        send_replays B risk is_open s.session_id (step_up_resolved s.session_id) w3 w' e3 in
      let ups =
        send_step_ups B risk is_open s.session_id (step_up_resolved s.session_id) w3 w' e3 in
      let challenges : w'.challenges ≡ w1.challenges = ch4 ∙ ch3 ∙ kept in
      let members : w'.nullifiers ≡ w2.nullifiers = n4 ∙ n3 in
      let durables : w'.nullifier_rows ≡ w2.nullifier_rows = d4 ∙ d3 in
      let opened = resolve_opens B risk now s.session_id t w2 w3 o in
      record {
        entry = entry;
        payload = payload;
        r = r;
        asked = asked;
        live = live;
        verified = verified;
        own = own;
        unspent = ground (arith, stored, nulls);
        spends = ground (arith, stored, members, ==_refl r.nullifier_hash);
        records = ground (arith, stored, durables, ==_refl r.nullifier_hash);
        consumed = ground (arith, gone, challenges, ==_refl body.challenge_id);
        opened = ground (arith, opened, ups);
      }

  user_step :
      (now : ℕ) (is_open : Bool) (s : AuthenticatedSession) (body : VerifyBody) (w w' : World B)
      (entry : StepUpEntry) (payload : ChallengePayload) (r : VerificationResult) (t : ℕ)
      → stepped B env risk w now s.session_id ≡ some entry
      → cached B w now body.challenge_id ≡ some payload
      → Verified B env.zkp (input_of B env body payload) w r
      → resolve_verified B env risk now is_open s body r w ≡ ok tt w'
      → StepUpResolved now s body w w' t
  unfolding resolve_verified
  user_step now is_open s body w w' entry payload r t asked live verified e =
      elim (Bool-cases (r.user_id == s.user_id)) [
        | inl own ↦
            after_proof now is_open s body w w' entry payload r t asked live verified
              ((==_iff r.user_id s.user_id).0 own) (rw own at e)
        | inr other ↦ absurd (ground (arith, e, other))
      ]

  proof_step :
      (now : ℕ) (body : VerifyBody) (w w' : World B) (payload : ChallengePayload)
      (spent_before : Bool) (r : VerificationResult)
      → ZkpEnv.dev_skip env.zkp ≡ false
      → check_proof B env body payload spent_before w ≡ ok r w'
      → (w' ≡ w) × Verified B env.zkp (input_of B env body payload) w r
  unfolding check_proof
  proof_step now body w w' payload true r prod e = absurd (cc)
  proof_step now body w w' payload false r prod e =
      let known : Checked B env.zkp (input_of B env body payload) w (ok r w') =
        rw e at (verify-Checked B env.zkp (input_of B env body payload) w prod) in
      known

  pending_step :
      (now : ℕ) (is_open : Bool) (s : AuthenticatedSession) (body : VerifyBody) (w w' : World B)
      (entry : StepUpEntry) (t : ℕ)
      → ZkpEnv.dev_skip env.zkp ≡ false
      → stepped B env risk w now s.session_id ≡ some entry
      → resolve_pending B env risk now is_open s body (some entry) w ≡ ok tt w'
      → StepUpResolved now s body w w' t
  unfolding resolve_pending
  pending_step now is_open s body w w' entry t prod asked e =
      let hash = ZkpEnv.name env.zkp body.nullifier in
      let (payload, w1, f, e1) = >>=-ok (fetch B now body.challenge_id) _ w w' tt e in
      let (same1, live) = fetched B now body.challenge_id w w1 payload f in
      let (b, w2, x, e2) = >>=-ok (exists B hash) _ w1 w' tt e1 in
      let (same2, _) = existed B hash w1 w2 b x in
      let (r, w3, p, e3) = >>=-ok (check_proof B env body payload b) _ w2 w' tt e2 in
      let (same3, verified) = proof_step now body w2 w3 payload b r prod p in
      let same : w2 ≡ w = same2 ∙ same1 in
      user_step now is_open s body w w' entry payload r t asked live (rw same at verified)
        (rw (same3 ∙ same) at e3)

  asked_step :
      (now : ℕ) (is_open : Bool) (s : AuthenticatedSession) (body : VerifyBody) (w w' : World B)
      (asked : Option StepUpEntry) (t : ℕ)
      → ZkpEnv.dev_skip env.zkp ≡ false
      → stepped B env risk w now s.session_id ≡ asked
      → resolve_pending B env risk now is_open s body asked w ≡ ok tt w'
      → StepUpResolved now s body w w' t
  unfolding resolve_pending
  asked_step now is_open s body w w' none t prod a e = absurd (cc)
  asked_step now is_open s body w w' (some entry) t prod a e =
      pending_step now is_open s body w w' entry t prod a e

  got :
      (now id : ℕ) (w w' : World B) (entry : Option StepUpEntry)
      → in_step_ups (get B.step_ups now id) w ≡ ok entry w'
      → (w' ≡ w) × (stepped B env risk w now id ≡ entry)
  got now id w w' entry e = (ground (arith, e), ground (arith, e))

  -- In production a step-up is resolved only for a session that has one pending, with a live challenge
  -- and a proof that is verified for the nonce of that challenge and for the ACTIVE user of this very
  -- session, and whose nullifier was not spent. Then the nullifier is spent in both stores for this
  -- user and challenge, the challenge is gone, and no step-up is pending for the session at any time.
  pub resolve-StepUpResolved :
      (now : ℕ) (is_open : Bool) (s : AuthenticatedSession) (body : VerifyBody) (w w' : World B)
      (t : ℕ)
      → ZkpEnv.dev_skip env.zkp ≡ false
      → post_step_up_resolve B env risk now is_open s body w ≡ ok tt w'
      → StepUpResolved now s body w w' t
  unfolding post_step_up_resolve
  resolve-StepUpResolved now is_open s body w w' t prod e =
      let (asked, w1, g, e1) = >>=-ok (in_step_ups (get B.step_ups now s.session_id)) _ w w' tt e in
      let (same, known) = got now s.session_id w w1 asked g in
      asked_step now is_open s body w w' asked t prod known (rw same at e1)
