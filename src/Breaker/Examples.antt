-- ===== src/Breaker/Examples.antt =====
-- The circuit breaker on concrete calls, with a threshold of 2 failures and a reset time of 100 ms.
use zk_auth.Prelude.{◌≡◌, refl, true, false, none, List, [], ◌∷◌, arith}
use zk_auth.Breaker.{Breaker, open_, success, failure, initial, call, admit, settle}
use zk_auth.Breaker.Laws.{
  System, Reach, here, next, refused, entered, ended, IsSound, Reach-initial-IsSound,
}
use zk_auth.Breaker.Recovery.{Attempt, run, admitted, probe_is_last}

abbrev fresh : Breaker
fresh = initial 2 100

abbrev failing : List Attempt
failing =
    record { ending = failure; start = 0; stop = 10 }
    ∷ record { ending = failure; start = 20; stop = 30 }
    ∷ []

abbrev tripped : Breaker
tripped = record {
  state = open_;
  failure_count = 2;
  last_failure_time = 30;
  half_open_probing = false;
  open_threshold = 2;
  reset_ms = 100;
}

trips_test : run failing fresh ≡ tripped
unfolding call initial
trips_test = refl

-- The probe at 130 succeeds, two more failures trip the circuit again, and at 10000 it is still shut.
probe_test : (call success 10000 10001 (run failing (call success 130 140 tripped).0)).1 ≡ none
unfolding call
probe_test = refl

Reach-initial-IsSound_example :
    IsSound (record { breaker = settle failure 10 (admit 0 fresh).0; running = 0 })
unfolding admit initial
Reach-initial-IsSound_example = Reach-initial-IsSound 2 100 _ (omega arith) (
    next (next here (entered (record { breaker = fresh; running = 0 }) 0 refl))
      (ended (admit 0 fresh).0 0 10 failure))

-- A call is in flight when the probe starts at 130. The probe succeeds, that call fails, and so does
-- one more: the circuit is open again with no call in flight.
abbrev probed : Breaker
probed = (admit 130 tripped).0

abbrev closed_again : Breaker
closed_again = settle success 140 probed

abbrev failed_once : Breaker
failed_once = settle failure 150 closed_again

abbrev let_in : Breaker
let_in = (admit 160 failed_once).0

abbrev open_again : Breaker
open_again = settle failure 170 let_in

abbrev busy : System
busy = record { breaker = tripped; running = 1 }

trace : Reach (admitted 130 busy) (record { breaker = open_again; running = 0 })
unfolding admit settle
trace =
    next
      (next (next (next here (ended probed 1 140 success)) (ended closed_again 0 150 failure))
        (entered (record { breaker = failed_once; running = 0 }) 160 refl))
      (ended let_in 0 170 failure)

probe_is_last_example :
    ((admit 130 tripped).1 ≡ true) × ((admit 20000 (admit 10000 open_again).0).1 ≡ false)
unfolding admit settle
probe_is_last_example =
    probe_is_last busy (record { breaker = open_again; running = 0 })
      (record { breaker = (admit 10000 open_again).0; running = 0 }) 130 20000 refl refl
      (omega arith) trace refl (λ e. cc)
      (next here (refused (record { breaker = open_again; running = 0 }) 10000 refl))
