-- ===== src/VerifyRequests.antt =====
-- The requests of a verifier to a user: backend/src/controllers/verifyRequest.controller.ts, with the
-- bodies that its schemas have parsed. A claim is the name of its attribute; the other columns that
-- are only passed on are left out. The Redis channel is a journal of what was published.
pub mod Lifecycle
pub mod Settled
pub mod Race
pub mod Notifier
pub mod Live
mod Examples
use zk_auth.Prelude.{
  ℕ, ◌+◌, ◌*◌, Bool, true, false, not, ◌&&◌, Option, none, some, List, [], ◌∷◌, ◌==◌, ltb, select,
  length, if◌then◌else◌,
}
use zk_auth.Errors.{Error, app_error, validation_error, challenge_expired, not_found_404}
use zk_auth.Effects.{M, ok, err, ◌>>=◌, ◌>>◌, return, throw}
use zk_auth.Stores.{
  Table, Journal, mem, find_unique, find_many, create, update, update_many, insert,
}

pub data RequestStatus : Type 0 where
  pending approved rejected expired : RequestStatus

pub record VerificationRequestRow : Type 0 where
  pub user_id : ℕ
  pub verifier_did : ℕ
  pub requested_claims : List ℕ
  pub challenge : ℕ
  pub status : RequestStatus
  pub expires_at : ℕ
  pub responded_at : Option ℕ
  pub approved_claims : Option (List ℕ)
  pub rejected_claims : Option (List ℕ)
  pub rejection_reason : Option ℕ

-- What is published for a request, with its id.
pub data Publication : Type 0 where
  approval : ℕ → List ℕ → List ℕ → Publication
  rejection : ℕ → ℕ → Publication

pub record SendBody : Type 0 where
  pub user_id : ℕ
  pub verifier_did : ℕ
  pub requested_claims : List ℕ
  pub ttl_seconds : ℕ

-- VERIFICATION_REQUEST for a user, with the id of the request and the number of its claims.
pub record Notice : Type 0 where
  pub to_user : ℕ
  pub request_id : ℕ
  pub claim_count : ℕ

abbrev pub is_pending : RequestStatus → Bool
is_pending pending = true
is_pending approved = false
is_pending rejected = false
is_pending expired = false

abbrev pub already_answered : Error
already_answered = app_error validation_error 400

abbrev pub new_request : ℕ → SendBody → ℕ → VerificationRequestRow
new_request now d challenge = record {
  user_id = d.user_id;
  verifier_did = d.verifier_did;
  requested_claims = d.requested_claims;
  challenge = challenge;
  status = pending;
  expires_at = now + d.ttl_seconds * 1000;
  responded_at = none;
  approved_claims = none;
  rejected_claims = none;
  rejection_reason = none;
}

abbrev pub expire : VerificationRequestRow → VerificationRequestRow
expire row = record row { status = expired }

-- `allClaims.map(attribute_name).filter((n) => !approved.includes(n))`
abbrev pub rejected_of : List ℕ → List ℕ → List ℕ
rejected_of approved_names claims = select (λ n. not (mem n approved_names)) claims

-- An empty list of rejected claims is not written.
abbrev pub unless_empty : List ℕ → Option (List ℕ) → Option (List ℕ)
unless_empty [] old = old
unless_empty (n ∷ ns) old = some (n ∷ ns)

abbrev pub approve_row : ℕ → List ℕ → List ℕ → VerificationRequestRow → VerificationRequestRow
approve_row now names refused row = record row {
  status = approved;
  responded_at = some now;
  approved_claims = some names;
  rejected_claims = unless_empty refused row.rejected_claims;
}

abbrev pub reject_row : ℕ → ℕ → VerificationRequestRow → VerificationRequestRow
reject_row now reason row = record row {
  status = rejected;
  responded_at = some now;
  rejection_reason = some reason;
}

-- `where: { userId, status: 'PENDING', expiresAt: { lt: now } }`
abbrev pub is_overdue_of : ℕ → ℕ → ℕ → VerificationRequestRow → Bool
is_overdue_of now user _ row =
    row.user_id == user && (is_pending row.status && ltb row.expires_at now)

abbrev pub is_pending_of : ℕ → ℕ → VerificationRequestRow → Bool
is_pending_of user _ row = row.user_id == user && is_pending row.status

module _ (T : Table VerificationRequestRow) (J : Journal Publication) where
  pub record Desk : Type 0 where
    pub requests : Table.State T
    pub channel : Journal.State J
    -- The notices that were pushed, the newest first.
    pub notices : List Notice

  module _ {A : Type 0} where
    abbrev pub in_requests : M (Table.State T) A → M Desk A
    in_requests m w = elim (m w.requests) [
      | ok a s ↦ ok a (record w { requests = s })
      | err e s ↦ err e (record w { requests = s })
    ]

    abbrev pub in_channel : M (Journal.State J) A → M Desk A
    in_channel m w = elim (m w.channel) [
      | ok a s ↦ ok a (record w { channel = s })
      | err e s ↦ err e (record w { channel = s })
    ]

  -- `pushToUser` at best, where the user has an open connection.
  abbrev pub push_notice : Bool → Notice → M Desk (Unit {0})
  push_notice is_open n w =
      if is_open then ok tt (record w { notices = n ∷ w.notices }) else ok tt w

  -- The id and the challenge are drawn. The answer is the time of expiry.
  unfoldable pub post_send : ℕ → ℕ → ℕ → Bool → SendBody → M Desk ℕ
  post_send now id challenge is_open d = do
    in_requests (create T id (new_request now d challenge))
    push_notice is_open
        (record { to_user = d.user_id; request_id = id; claim_count = length d.requested_claims })
    return (now + d.ttl_seconds * 1000)

  -- The ids of the pending requests, in the order of the table's keys.
  unfoldable pub get_pending : ℕ → ℕ → M Desk (List ℕ)
  get_pending now user = do
    count ← in_requests (update_many T (is_overdue_of now user) expire)
    in_requests (find_many T (is_pending_of user))

  -- The tests of a request before it is approved.
  unfoldable pub approvable :
      ℕ → ℕ → ℕ → Option VerificationRequestRow → M Desk VerificationRequestRow
  approvable now user id none = throw not_found_404
  approvable now user id (some row) =
      if row.user_id == user
      then (if is_pending row.status
          then (if ltb row.expires_at now
              then (do in_requests (update T id expire); throw (app_error challenge_expired 400))
              else return row)
          else throw already_answered)
      else throw not_found_404

  unfoldable pub write_approval : ℕ → ℕ → List ℕ → VerificationRequestRow → M Desk (List ℕ)
  write_approval now id names row = do
    let refused = rejected_of names row.requested_claims
    in_requests (update T id (approve_row now names refused))
    in_channel (insert J (approval id names refused))
    return refused

  -- The answer has the rejected claims.
  unfoldable pub post_approve : ℕ → ℕ → ℕ → List ℕ → M Desk (List ℕ)
  unfolding approvable write_approval
  post_approve now user id names = do
    found ← in_requests (find_unique T id)
    row ← approvable now user id found
    write_approval now id names row

  -- Whether a request is overdue is not asked here.
  unfoldable pub rejectable : ℕ → Option VerificationRequestRow → M Desk (Unit {0})
  rejectable user none = throw not_found_404
  rejectable user (some row) =
      if row.user_id == user
      then (if is_pending row.status then return tt else throw already_answered)
      else throw not_found_404

  unfoldable pub write_rejection : ℕ → ℕ → ℕ → M Desk (Unit {0})
  write_rejection now id reason = do
    in_requests (update T id (reject_row now reason))
    in_channel (insert J (rejection id reason))

  unfoldable pub post_reject : ℕ → ℕ → ℕ → ℕ → M Desk (Unit {0})
  unfolding rejectable write_rejection
  post_reject now user id reason = do
    found ← in_requests (find_unique T id)
    rejectable user found
    write_rejection now id reason
