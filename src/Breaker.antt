-- ===== src/Breaker.antt =====
-- The circuit breaker of backend/src/grpc/circuitBreaker.ts. Time in milliseconds is an argument of
-- each call. A call has two moments, the guard before the wrapped function runs (`admit`) and the
-- handling of its end (`settle`), and other calls may come between the two.
pub mod Laws
mod Examples
pub mod Recovery
use zk_auth.Prelude.{ℕ, ◌+◌, Bool, true, false, Option, none, some, leb, if◌then◌else◌}

pub data CircuitState : Type 0 where
  closed open_ half_open : CircuitState

pub record Breaker : Type 0 where
  pub state : CircuitState
  pub failure_count : ℕ
  pub last_failure_time : ℕ
  pub half_open_probing : Bool
  pub open_threshold : ℕ
  pub reset_ms : ℕ

-- How the wrapped function ends within its timeout: with a result, or by an error or the timeout.
pub data Ending : Type 0 where
  success failure : Ending

pub initial : ℕ → ℕ → Breaker
initial threshold reset = record {
  state = closed;
  failure_count = 0;
  last_failure_time = 0;
  half_open_probing = false;
  open_threshold = threshold;
  reset_ms = reset;
}

transition_to : CircuitState → Breaker → Breaker
transition_to s b = record b { state = s }

on_success : Breaker → Breaker
unfolding transition_to
on_success b = transition_to closed (record b { failure_count = 0 })

-- The transition, by the state in which the failure is counted.
trip : CircuitState → Breaker → Breaker
unfolding transition_to
trip half_open b = transition_to open_ b
trip s b = if leb b.open_threshold b.failure_count then transition_to open_ b else b

on_failure : ℕ → Breaker → Breaker
unfolding trip
on_failure now b =
    trip b.state (record b { failure_count = b.failure_count + 1; last_failure_time = now })

-- The first guard of `call`: `none` is CircuitOpenError.
check_open : CircuitState → ℕ → Breaker → Option Breaker
unfolding transition_to
check_open open_ now b =
    if leb (b.last_failure_time + b.reset_ms) now then some (transition_to half_open b) else none
check_open s now b = some b

-- The second guard: one probe at a time. The state stays HALF_OPEN where the probe is refused.
check_probe : CircuitState → Breaker → Breaker × Bool
check_probe half_open b =
    if b.half_open_probing then (b, false) else (record b { half_open_probing = true }, true)
check_probe s b = (b, true)

-- The guards of `call`: the breaker after them, and whether the wrapped function is run.
pub admit : ℕ → Breaker → Breaker × Bool
unfolding check_open check_probe
admit now b = elim (check_open b.state now b) [
  | none ↦ (b, false)
  | some b' ↦ check_probe b'.state b'
]

-- The `finally` block.
finish : CircuitState → Breaker → Breaker
finish half_open b = record b { half_open_probing = false }
finish s b = b

-- The end of an admitted call.
pub settle : Ending → ℕ → Breaker → Breaker
unfolding on_success on_failure finish
settle success now b = let b' = on_success b in finish b'.state b'
settle failure now b = let b' = on_failure now b in finish b'.state b'

-- A whole call with nothing between its two moments: `none` is CircuitOpenError.
pub call : Ending → ℕ → ℕ → Breaker → Breaker × Option Ending
unfolding admit settle
call ending start stop b =
    let (b', admitted) = admit start b in
    if admitted then (settle ending stop b', some ending) else (b', none)
