-- ===== src/VerifyRequests/Lifecycle.antt =====
-- The life of a verification request (backend/src/controllers/verifyRequest.controller.ts): each
-- handler takes every request along the specification `Moves`.
use zk_auth.Prelude.{
  ℕ, ◌≤◌, ◌<◌, ◌≡◌, ◌⊎◌, Bool, true, false, Option, none, some, inl, inr, Option-cases, List, arith,
  ◌==◌, if◌then◌else◌,
}
use zk_auth.Effects.{final}
use zk_auth.Stores.{Table, Journal, row-updated}
use zk_auth.VerifyRequests.{
  VerificationRequestRow, Publication, Desk, SendBody, pending, new_request, expire, rejected_of,
  approve_row, reject_row, is_overdue_of, post_send, get_pending, post_approve, post_reject,
}

abbrev pub names_of : Option (List ℕ) → List ℕ
names_of none = zk_auth.Prelude.[]
names_of (some names) = names

abbrev pub reason_of : Option ℕ → ℕ
reason_of none = 0
reason_of (some reason) = reason

-- What may become of a request when `user` acts at the time `now`. A pending request of the user is
-- answered or expires; nothing else moves.
pub data Answered (now : ℕ) (r r' : VerificationRequestRow) : Type 0 where
  by_approval :
      now ≤ r.expires_at
      → r'
        ≡ approve_row now
            (names_of r'.approved_claims)
            (rejected_of (names_of r'.approved_claims) r.requested_claims)
            r
      → Answered now r r'
  by_expiry : r.expires_at < now → r' ≡ expire r → Answered now r r'
  by_rejection : r' ≡ reject_row now (reason_of r'.rejection_reason) r → Answered now r r'

abbrev pub Moves : ℕ → ℕ → Option VerificationRequestRow → Option VerificationRequestRow → Type 0
Moves now user none none = Unit
Moves now user none (some r) = r.status ≡ pending
Moves now user (some r) none = ⊥
Moves now user (some r) (some r') =
    (r' ≡ r) ⊎ ((r.status ≡ pending) × (r.user_id ≡ user) × Answered now r r')

module _ (T : Table VerificationRequestRow) (J : Journal Publication) where
  abbrev pub request : Desk T J → ℕ → Option VerificationRequestRow
  request w id = Table.row T w.requests id

  pub send-Moves :
      (now id challenge : ℕ) (is_open : Bool) (d : SendBody) (w : Desk T J) (x : ℕ)
      → Moves now d.user_id
          (request w x)
          (request (final (post_send T J now id challenge is_open d w)) x)
  unfolding post_send
  send-Moves now id challenge true d w x = ground (
    arith,
    Table.clash_sound T w.requests id (new_request now d challenge),
    Table.row-write T id (new_request now d challenge) w.requests x,
  )
  send-Moves now id challenge false d w x = ground (
    arith,
    Table.clash_sound T w.requests id (new_request now d challenge),
    Table.row-write T id (new_request now d challenge) w.requests x,
  )

  pub pending-Moves :
      (now user : ℕ) (w : Desk T J) (x : ℕ)
      → Moves now user (request w x) (request (final (get_pending T J now user w)) x)
  unfolding get_pending
  pending-Moves now user w x =
      ground (arith, Table.row-write_all T (is_overdue_of now user) expire w.requests x)

  pub reject-Moves :
      (now user id reason : ℕ) (w : Desk T J) (x : ℕ)
      → Moves now user (request w x) (request (final (post_reject T J now user id reason w)) x)
  unfolding post_reject
  reject-Moves now user id reason w x =
      ground (arith, by_rejection, row-updated T id (reject_row now reason) w.requests x)

  pub approve-Moves :
      (now user id : ℕ) (names : List ℕ) (w : Desk T J) (x : ℕ)
      → Moves now user (request w x) (request (final (post_approve T J now user id names w)) x)
  unfolding post_approve
  approve-Moves now user id names w x = elim (Option-cases (request w id)) [
    | inl e ↦ ground arith
    | inr (row, e) ↦ ground (
      arith,
      by_expiry,
      by_approval,
      row-updated T id expire w.requests x,
      row-updated T id (approve_row now names (rejected_of names row.requested_claims)) w.requests
          x,
    )
  ]
