-- ===== src/VerifyRequests/Examples.antt =====
-- One request over a table and a channel in memory. User 1 is asked for the claims 5 and 6.
use zk_auth.Prelude.{ℕ, ◌≡◌, refl, true, false, some, none, List, [], ◌∷◌}
use zk_auth.Errors.{not_found_404, app_error, challenge_expired}
use zk_auth.Effects.{ok, final, FailsWith, Succeeds}
use zk_auth.Stores.{Table, Journal, updated}
use zk_auth.Stores.Memory.{memory_table, memory_journal}
use zk_auth.VerifyRequests.{
  VerificationRequestRow, Publication, approval, rejection, Desk, SendBody, new_request,
  approve_row, reject_row, already_answered, post_send, get_pending, approvable, rejectable,
  write_approval, write_rejection, post_approve, post_reject,
}
use zk_auth.VerifyRequests.Lifecycle.{request, Moves}
use zk_auth.VerifyRequests.Settled.{
  Call, lists, approves, handle, handle-Moves, handle_all, answered_once,
}
use zk_auth.VerifyRequests.Race.{double_answer}
use zk_auth.VerifyRequests.Notifier.{Notifier, Signal, message, timer, register_verifier}

abbrev rows : Table VerificationRequestRow
rows = memory_table

abbrev channel : Journal Publication
channel = memory_journal

abbrev empty_desk : Desk rows channel
empty_desk = record {
  requests = record { rows = []; is_down = false };
  channel = record { entries = []; is_down = false };
  notices = [];
}

abbrev ask : SendBody
ask = record { user_id = 1; verifier_did = 3; requested_claims = 5 ∷ 6 ∷ []; ttl_seconds = 60 }

abbrev asked : Desk rows channel
asked = final (post_send rows channel 1000 7 99 true ask empty_desk)

abbrev approved_desk : Desk rows channel
approved_desk = final (post_approve rows channel 2000 1 7 (5 ∷ []) asked)

desk_steps : Unit {0}
unfolding post_send get_pending approvable rejectable write_approval write_rejection post_approve
    post_reject updated
desk_steps = tt

desk_test :
    FailsWith not_found_404 (post_approve rows channel 2000 2 7 (5 ∷ []) asked)
    × FailsWith
        (app_error challenge_expired 400)
        (post_approve rows channel 70000 1 7 (5 ∷ []) asked)
    × Succeeds (post_reject rows channel 70000 1 7 8 asked)
    × FailsWith already_answered (post_reject rows channel 3000 1 7 8 approved_desk)
    × (get_pending rows channel 3000 1 asked ≡ ok (7 ∷ []) asked)
unfolding desk_steps
desk_test = (refl, refl, tt, refl, refl)

-- A claim that was never asked for is approved as well.
unrequested_test : Succeeds (post_approve rows channel 2000 1 7 (5 ∷ 44 ∷ []) asked)
unfolding desk_steps
unrequested_test = tt

abbrev later_calls : List (ℕ × Call)
later_calls = (2500, lists 1) ∷ (3000, approves 1 7 (6 ∷ [])) ∷ []

answered_once_example :
    (request rows channel (handle_all rows channel later_calls approved_desk) 7
      ≡ request rows channel approved_desk 7)
    × ¬ Succeeds (
        post_approve rows channel 4000 1 7
          (6 ∷ [])
          (handle_all rows channel later_calls approved_desk))
    × ¬ Succeeds
        (post_reject rows channel 4000 1 7 8 (handle_all rows channel later_calls approved_desk))
unfolding desk_steps
answered_once_example =
    answered_once rows channel 2000 1 7 (5 ∷ []) (6 ∷ []) asked approved_desk later_calls 4000 1
      (6 ∷ []) 8 refl

abbrev asked_row : VerificationRequestRow
asked_row = new_request 1000 ask 99

double_answer_example :
    (request rows channel (final (write_rejection rows channel 2001 7 8 approved_desk)) 7
      ≡ some (reject_row 2001 8 (approve_row 2000 (5 ∷ []) (6 ∷ []) asked_row)))
    × (Journal.entries channel (final (write_rejection rows channel 2001 7 8 approved_desk)).channel
        ≡ rejection 7 8 ∷ approval 7 (5 ∷ []) (6 ∷ []) ∷ [])
unfolding desk_steps
double_answer_example =
    double_answer rows channel 2000 2001 1 7 8 (5 ∷ []) (6 ∷ []) asked approved_desk asked_row refl
      refl refl refl refl refl

abbrev watching : Notifier
watching = register_verifier 1000 7 33 600000 (record { entry = λ _. none; pushed = [] })

abbrev signals : List Signal
signals = timer 3000 ∷ message (rejection 7 8) ∷ []

handle-Moves_example :
    Moves 2000 1
      (request rows channel asked 7)
      (request rows channel (handle rows channel 2000 (approves 1 7 (5 ∷ [])) asked) 7)
handle-Moves_example = handle-Moves rows channel 2000 (approves 1 7 (5 ∷ [])) asked 7
