-- ===== src/VerifyRequests/Settled.antt =====
-- Requests that have been answered stay answered, whatever the handlers of
-- backend/src/controllers/verifyRequest.controller.ts do afterwards.
use zk_auth.Prelude.{
  ℕ, ◌≤◌, ◌≡◌, Bool, true, false, some, inl, inr, Option-cases, List, [], ◌∷◌, arith, refl, sym,
  ◌∙◌,
}
use zk_auth.Effects.{ok, final, Succeeds}
use zk_auth.Stores.{Table, Journal, row-updated}
use zk_auth.VerifyRequests.{
  VerificationRequestRow, Publication, approval, Desk, SendBody, is_pending, rejected_of,
  approve_row, post_send, get_pending, post_approve, post_reject,
}
use zk_auth.VerifyRequests.Lifecycle.{
  request, Moves, send-Moves, pending-Moves, reject-Moves, approve-Moves,
}

-- A call of a handler: a request is sent, a user lists, approves or rejects.
pub data Call : Type 0 where
  sends : ℕ → ℕ → Bool → SendBody → Call
  lists : ℕ → Call
  approves : ℕ → ℕ → List ℕ → Call
  rejects : ℕ → ℕ → ℕ → Call

module _ (T : Table VerificationRequestRow) (J : Journal Publication) where
  abbrev pub handle : ℕ → Call → Desk T J → Desk T J
  handle now (sends id challenge is_open d) w = final (post_send T J now id challenge is_open d w)
  handle now (lists user) w = final (get_pending T J now user w)
  handle now (approves user id names) w = final (post_approve T J now user id names w)
  handle now (rejects user id reason) w = final (post_reject T J now user id reason w)

  -- Calls at their times, each of which may return or throw.
  abbrev pub handle_all : List (ℕ × Call) → Desk T J → Desk T J
  handle_all [] w = w
  handle_all ((now, c) ∷ cs) w = handle_all cs (handle now c w)

  -- The user who acts; a request is sent for its user.
  abbrev pub acting : Call → ℕ
  acting (sends id challenge is_open d) = d.user_id
  acting (lists user) = user
  acting (approves user id names) = user
  acting (rejects user id reason) = user

  -- Every call refines the life cycle of a request: whether it returns or throws, each request stays
  -- as it is, or is new and pending, or was a pending request of the acting user, which is approved
  -- before its expiry with the claims that were not approved as the rejected ones, or expires after
  -- it, or is rejected.
  pub handle-Moves :
      (now : ℕ) (c : Call) (w : Desk T J) (x : ℕ)
      → Moves now (acting c) (request T J w x) (request T J (handle now c w) x)
  handle-Moves now (sends id challenge is_open d) w x =
      send-Moves T J now id challenge is_open d w x
  handle-Moves now (lists user) w x = pending-Moves T J now user w x
  handle-Moves now (approves user id names) w x = approve-Moves T J now user id names w x
  handle-Moves now (rejects user id reason) w x = reject-Moves T J now user id reason w x

  pub handle_settled :
      (now : ℕ) (c : Call) (w : Desk T J) (x : ℕ) (r : VerificationRequestRow)
      → request T J w x ≡ some r
      → is_pending r.status ≡ false
      → request T J (handle now c w) x ≡ some r
  handle_settled now c w x r found settled = elim (Option-cases (request T J (handle now c w) x)) [
    | inl gone ↦ absurd (ground (arith, handle-Moves now c w x))
    | inr (r', e) ↦ ground (arith, handle-Moves now c w x)
  ]

  -- A request that is not pending stays as it is over every run of the handlers.
  pub settled_stays :
      (cs : List (ℕ × Call)) (w : Desk T J) (x : ℕ) (r : VerificationRequestRow)
      → request T J w x ≡ some r
      → is_pending r.status ≡ false
      → request T J (handle_all cs w) x ≡ some r
  settled_stays [] w x r found settled = found
  settled_stays ((now, c) ∷ cs) w x r found settled =
      settled_stays cs (handle now c w) x r (handle_settled now c w x r found settled) settled

  -- What an approval that returned has found and done.
  pub record Approved (now user id : ℕ) (names refused : List ℕ) (w w' : Desk T J)
      (row : VerificationRequestRow) : Type 0 where
    pub found : request T J w id ≡ some row
    pub owned : row.user_id ≡ user
    pub was_pending : is_pending row.status ≡ true
    pub in_time : now ≤ row.expires_at
    pub answer : refused ≡ rejected_of names row.requested_claims
    pub written : request T J w' id ≡ some (approve_row now names refused row)
    pub published :
        Journal.entries J w'.channel ≡ approval id names refused ∷ Journal.entries J w.channel

  pub approve-Approved :
      (now user id : ℕ) (names refused : List ℕ) (w w' : Desk T J)
      → post_approve T J now user id names w ≡ ok refused w'
      → (row : VerificationRequestRow) × Approved now user id names refused w w' row
  unfolding post_approve
  approve-Approved now user id names refused w w' e = elim (Option-cases (request T J w id)) [
    | inl n ↦ absurd (ground (arith, e, n))
    | inr (row, f) ↦ (
      row,
      record {
        found = f;
        owned = ground (arith, e, f);
        was_pending = ground (arith, e, f);
        in_time = ground (arith, e, f);
        answer = ground (arith, e, f);
        written = ground (
          arith,
          e,
          f,
          row-updated T id (approve_row now names (rejected_of names row.requested_claims))
              w.requests id,
        );
        published = ground (
          arith,
          e,
          f,
          Journal.entries-append J (approval id names (rejected_of names row.requested_claims))
              w.channel,
        );
      },
    )
  ]

  refuses_settled :
      (now user id : ℕ) (names : List ℕ) (reason : ℕ) (w : Desk T J) (r : VerificationRequestRow)
      → request T J w id ≡ some r
      → is_pending r.status ≡ false
      → ¬ Succeeds (post_approve T J now user id names w)
        × ¬ Succeeds (post_reject T J now user id reason w)
  unfolding post_approve post_reject
  refuses_settled now user id names reason w r found settled =
      (λ s. ground (arith, s, found, settled), λ s. ground (arith, s, found, settled))

  -- A request is answered once: after an approval, whatever calls of whichever users follow and
  -- whether or not the stores answer them, the request keeps the claims that were approved, and it
  -- is neither approved nor rejected again.
  pub answered_once :
      (now user id : ℕ) (names refused : List ℕ) (w w' : Desk T J) (cs : List (ℕ × Call))
      (later other : ℕ) (names' : List ℕ) (reason : ℕ)
      → post_approve T J now user id names w ≡ ok refused w'
      → (request T J (handle_all cs w') id ≡ request T J w' id)
        × ¬ Succeeds (post_approve T J later other id names' (handle_all cs w'))
        × ¬ Succeeds (post_reject T J later other id reason (handle_all cs w'))
  answered_once now user id names refused w w' cs later other names' reason e =
      let (row, a) = approve-Approved now user id names refused w w' e in
      let stays = settled_stays cs w' id (approve_row now names refused row) a.written refl in
      let (no_approval, no_rejection) =
        refuses_settled later other id names' reason (handle_all cs w')
          (approve_row now names refused row) stays refl in
      (stays ∙ sym a.written, no_approval, no_rejection)
