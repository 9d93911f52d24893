-- ===== src/Breaker/Recovery.antt =====
-- Tripping, over calls made one after another, and what follows a probe, over calls that interleave
-- (backend/src/grpc/circuitBreaker.ts).
use zk_auth.Prelude.{
  ℕ, suc, ◌+◌, ◌≤◌, ◌<◌, ◌≡◌, ◌≢◌, ◌∙◌, true, false, some, List, [], ◌∷◌, arith, length, leb,
  if◌then◌else◌,
}
use zk_auth.Breaker.{Breaker, closed, open_, Ending, failure, call, admit}
use zk_auth.Breaker.Laws.{
  System, Step, refused, entered, ended, Reach, here, next, settle_keeps_probing,
}

-- A call with the times at which it starts and ends, and how the wrapped function would end.
pub record Attempt : Type 0 where
  pub ending : Ending
  pub start : ℕ
  pub stop : ℕ

abbrev pub run : List Attempt → Breaker → Breaker
run [] b = b
run (a ∷ rest) b = run rest (call a.ending a.start a.stop b).0

abbrev pub AllFail : List Attempt → Type 0
AllFail [] = Unit
AllFail (a ∷ rest) = (a.ending ≡ failure) × AllFail rest

call-failure_closed :
    (b : Breaker) (start stop : ℕ)
    → b.state ≡ closed
    → call failure start stop b ≡ (
      record b {
        state = if leb b.open_threshold (b.failure_count + 1) then open_ else closed;
        failure_count = b.failure_count + 1;
        last_failure_time = stop;
      },
      some failure,
    )
unfolding call
call-failure_closed b start stop h = ground arith

-- From a CLOSED circuit, failing calls in a row leave it CLOSED while the count is below the
-- threshold, and OPEN when the count reaches it.
pub run-AllFail_trips :
    (calls : List Attempt) (b : Breaker)
    → b.state ≡ closed
    → b.failure_count < b.open_threshold
    → b.failure_count + length calls ≤ b.open_threshold
    → AllFail calls
    → (run calls b).state
      ≡ (if leb b.open_threshold (b.failure_count + length calls) then open_ else closed)
run-AllFail_trips [] b h below fits f = ground arith
run-AllFail_trips (a ∷ []) b h below fits f = ground (arith, call-failure_closed b a.start a.stop h)
run-AllFail_trips (a ∷ c ∷ rest) b h below fits f = ground (
  arith,
  call-failure_closed b a.start a.stop h,
  run-AllFail_trips (c ∷ rest) (call a.ending a.start a.stop b).0,
)

admit_keeps_probing :
    (now : ℕ) (b : Breaker) → b.half_open_probing ≡ true → (admit now b).0.half_open_probing ≡ true
unfolding admit
admit_keeps_probing now b h = ground arith

abbrev IsProbing : System → Type 0
IsProbing s = s.breaker.half_open_probing ≡ true

Step-IsProbing : {s t : System} → Step s t → IsProbing s → IsProbing t
Step-IsProbing (refused s now r) h = admit_keeps_probing now s.breaker h
Step-IsProbing (entered s now r) h = admit_keeps_probing now s.breaker h
Step-IsProbing (ended b n now e) h = (settle_keeps_probing e now b).1 ∙ h

Reach-IsProbing : {s t : System} → Reach s t → IsProbing s → IsProbing t
Reach-IsProbing here h = h
Reach-IsProbing (next r step) h = Step-IsProbing step (Reach-IsProbing r h)

-- The circuit is not CLOSED, its probe flag is set and no call is in flight.
pub record IsStuck (s : System) : Type 0 where
  pub probing : IsProbing s
  pub not_closed : s.breaker.state ≢ closed
  pub idle : s.running ≡ 0

admit-refused :
    (now : ℕ) (b : Breaker)
    → b.half_open_probing ≡ true
    → b.state ≢ closed
    → ((admit now b).1 ≡ false) × ((admit now b).0.state ≢ closed)
unfolding admit
admit-refused now b h k = (ground arith, ground arith)

Step-IsStuck : {s t : System} → Step s t → IsStuck s → IsStuck t
Step-IsStuck (refused s now r) v = record {
  probing = admit_keeps_probing now s.breaker v.probing;
  not_closed = (admit-refused now s.breaker v.probing v.not_closed).1;
  idle = v.idle;
}
Step-IsStuck (entered s now r) v =
    let no = (admit-refused now s.breaker v.probing v.not_closed).0 in
    absurd (ground (arith, no, r))
Step-IsStuck (ended b n now e) v = absurd (ground (arith, v.idle))

Reach-IsStuck : {s t : System} → Reach s t → IsStuck s → IsStuck t
Reach-IsStuck here v = v
Reach-IsStuck (next r step) v = Step-IsStuck step (Reach-IsStuck r v)

admit_probe :
    (b : Breaker) (now : ℕ)
    → b.state ≡ open_
    → b.half_open_probing ≡ false
    → b.last_failure_time + b.reset_ms ≤ now
    → ((admit now b).1 ≡ true) × ((admit now b).0.half_open_probing ≡ true)
unfolding admit
admit_probe b now h k l = (ground arith, ground arith)

-- The state in which a call has just been let in.
abbrev pub admitted : ℕ → System → System
admitted now s = record { breaker = (admit now s.breaker).0; running = suc s.running }

-- An OPEN circuit lets its first probe in once the reset time has passed. Whatever other calls are in
-- flight, whatever they and the probe end in and however later calls interleave with them: as soon as
-- no call is in flight and the circuit is not CLOSED, every later call is refused, however long after
-- and however these calls overlap.
pub probe_is_last :
    (s t u : System) (now later : ℕ)
    → s.breaker.state ≡ open_
    → s.breaker.half_open_probing ≡ false
    → s.breaker.last_failure_time + s.breaker.reset_ms ≤ now
    → Reach (admitted now s) t
    → t.running ≡ 0
    → t.breaker.state ≢ closed
    → Reach t u
    → ((admit now s.breaker).1 ≡ true) × ((admit later u.breaker).1 ≡ false)
probe_is_last s t u now later h k l r idle open' r' =
    let (goes, probing) = admit_probe s.breaker now h k l in
    let stuck : IsStuck t = record {
      probing = Reach-IsProbing r probing;
      not_closed = open';
      idle = idle;
    } in
    let left = Reach-IsStuck r' stuck in
    (goes, (admit-refused later u.breaker left.probing left.not_closed).0)
