-- ===== src/VerifyRequests/Race.antt =====
-- An approval and a rejection of one request that overlap
-- (backend/src/controllers/verifyRequest.controller.ts). Each handler reads the request, tests it and
-- then updates it by its id alone.
use zk_auth.Prelude.{ℕ, ◌≡◌, false, some, List, ◌∷◌, arith}
use zk_auth.Effects.{ok, final}
use zk_auth.Stores.{Table, Journal, row-updated}
use zk_auth.VerifyRequests.{
  VerificationRequestRow, Publication, approval, rejection, Desk, approve_row, reject_row,
  approvable, rejectable, write_approval, write_rejection,
}
use zk_auth.VerifyRequests.Lifecycle.{request}

module _ (T : Table VerificationRequestRow) (J : Journal Publication) where
  -- Where the approval and the rejection both read the request before either writes it, and the
  -- stores answer, both are done: the request ends rejected with the approved claims still in its
  -- row, and both answers have been published.
  pub double_answer :
      (now later user id reason : ℕ) (names refused : List ℕ) (w w1 : Desk T J)
      (row : VerificationRequestRow)
      → request T J w id ≡ some row
      → approvable T J now user id (some row) w ≡ ok row w
      → rejectable T J user (some row) w ≡ ok tt w
      → write_approval T J now id names row w ≡ ok refused w1
      → Table.down T w1.requests ≡ false
      → Journal.down J w1.channel ≡ false
      → (request T J (final (write_rejection T J later id reason w1)) id
          ≡ some (reject_row later reason (approve_row now names refused row)))
        × (Journal.entries J (final (write_rejection T J later id reason w1)).channel
            ≡ rejection id reason ∷ approval id names refused ∷ Journal.entries J w.channel)
  unfolding write_approval write_rejection
  double_answer now later user id reason names refused w w1 row found a r e up open_channel =
      ground (
        arith,
        row-updated T id (approve_row now names refused) w.requests id,
        row-updated T id (reject_row later reason) w1.requests id,
        Journal.entries-append J (approval id names refused) w.channel,
        Journal.entries-append J (rejection id reason) w1.channel,
      )
