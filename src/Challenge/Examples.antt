-- ===== src/Challenge/Examples.antt =====
-- Challenges over the stores in memory.
use zk_auth.Prelude.{◌≡◌, refl, none, List, [], ◌∷◌, arith}
use zk_auth.Errors.{app_error, challenge_expired, replay}
use zk_auth.Effects.{ok, final, FailsWith, Succeeds}
use zk_auth.Stores.{updated}
use zk_auth.World.{World}
use zk_auth.Fixtures.{memory, empty}
use zk_auth.Challenge.{ChallengeRecord, issue, fetch, consume}
use zk_auth.Challenge.Laws.{issued}
use zk_auth.Challenge.Once.{Call, issues, consumes, run_calls, consume_once}

abbrev after_issue : World memory
after_issue = final (issue memory 120 1000 5 42 none empty)

abbrev after_consume : World memory
after_consume = final (consume memory 2000 5 after_issue)

abbrev challenge : ChallengeRecord
challenge = record { challenge_id = 5; nonce = 42; expires_at = 121000 }

life_test :
    (fetch memory 2000 5 after_issue ≡ ok (issued memory 42 none 1000) after_issue)
    × FailsWith (app_error challenge_expired 400) (fetch memory 121000 5 after_issue)
    × FailsWith replay (fetch memory 2001 5 after_consume)
    × FailsWith replay (consume memory 2001 5 after_consume)
unfolding issue fetch consume updated
life_test = (refl, refl, refl, refl)

-- Another challenge is issued, and the consumed one is tried again.
abbrev later_calls : List Call
later_calls = consumes 2001 5 ∷ issues 120 2002 6 43 none ∷ []

consume_once_example :
    (¬ Succeeds (fetch memory 2003 5 (run_calls memory later_calls after_consume)))
    × (¬ Succeeds (consume memory 2003 5 (run_calls memory later_calls after_consume)))
unfolding issue consume updated
consume_once_example =
    consume_once memory 2000 5 2003 later_calls after_issue after_consume refl
      ((λ e. ground (arith, e)), tt)
