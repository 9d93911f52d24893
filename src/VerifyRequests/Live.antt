-- ===== src/VerifyRequests/Live.antt =====
-- From the answer of a holder to the live result of the verifier: the handlers of
-- backend/src/controllers/verifyRequest.controller.ts publish, and
-- backend/src/services/verifyRequest/notifier.service.ts pushes.
use zk_auth.Prelude.{ℕ, ◌≡◌, ◌∙◌, Bool, true, some, none, List, [], ◌∷◌, arith, refl}
use zk_auth.Effects.{ok}
use zk_auth.Stores.{Table, Journal}
use zk_auth.VerifyRequests.{VerificationRequestRow, Publication, approval, Desk, post_approve}
use zk_auth.VerifyRequests.Settled.{approve-Approved}
use zk_auth.VerifyRequests.Notifier.{
  PendingEntry, Notifier, request_of, on_message, Signal, message, timer, hear, hear_all,
  pushed_about,
}

silent_step :
    (is_open : ℕ → Bool) (s : Signal) (id : ℕ) (n : Notifier)
    → n.entry id ≡ none
    → ((hear is_open s n).entry id ≡ none)
      × (pushed_about id (hear is_open s n) ≡ pushed_about id n)
silent_step is_open (message p) id n gone = ground arith
silent_step is_open (timer now) id n gone = ground arith

silent :
    (is_open : ℕ → Bool) (ss : List Signal) (id : ℕ) (n : Notifier)
    → n.entry id ≡ none
    → pushed_about id (hear_all is_open ss n) ≡ pushed_about id n
silent is_open [] id n gone = refl
silent is_open (s ∷ ss) id n gone =
    let (still, same) = silent_step is_open s id n gone in
    silent is_open ss id (hear is_open s n) still ∙ same

-- A registered verifier with an open connection is pushed the first result of its request, and
-- whatever is published or swept afterwards, no further one.
pub first_result :
    (is_open : ℕ → Bool) (p : Publication) (ss : List Signal) (n : Notifier) (e : PendingEntry)
    → n.entry (request_of p) ≡ some e
    → is_open e.verifier_session_id ≡ true
    → pushed_about (request_of p) (hear_all is_open ss (on_message is_open p n))
      ≡ record { to_session = e.verifier_session_id; result = p } ∷ pushed_about (request_of p) n
first_result is_open p ss n e found opened =
    silent is_open ss (request_of p) (on_message is_open p n) (ground arith) ∙ ground arith

module _ (T : Table VerificationRequestRow) (J : Journal Publication) where
  -- An approval that returns publishes the claims that were approved and those that were not, and
  -- the verifier that was registered for the request, with its connection open, is pushed exactly
  -- them when they arrive, and nothing else about the request afterwards.
  pub approve-first_result :
      (now user id : ℕ) (names refused : List ℕ) (w w' : Desk T J) (is_open : ℕ → Bool)
      (ss : List Signal) (n : Notifier) (e : PendingEntry)
      → post_approve T J now user id names w ≡ ok refused w'
      → n.entry id ≡ some e
      → is_open e.verifier_session_id ≡ true
      → (Journal.entries J w'.channel ≡ approval id names refused ∷ Journal.entries J w.channel)
        × (pushed_about id (hear_all is_open ss (on_message is_open (approval id names refused) n))
            ≡ record { to_session = e.verifier_session_id; result = approval id names refused }
              ∷ pushed_about id n)
  approve-first_result now user id names refused w w' is_open ss n e returned found opened =
      let (row, a) = approve-Approved T J now user id names refused w w' returned in
      (a.published, first_result is_open (approval id names refused) ss n e found opened)
