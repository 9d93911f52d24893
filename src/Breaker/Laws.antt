-- ===== src/Breaker/Laws.antt =====
-- What the guards of `call` admit, and what the breaker does over interleaved calls
-- (backend/src/grpc/circuitBreaker.ts).
use zk_auth.Prelude.{ℕ, suc, ◌+◌, ◌≤◌, ◌<◌, ◌≡◌, ◌≢◌, ◌↔◌, ◌⊎◌, true, false, arith}
use zk_auth.Breaker.{
  Breaker, closed, open_, half_open, Ending, success, failure, initial, admit, settle,
}

-- When a call may run.
abbrev pub MayRun : ℕ → Breaker → Type 0
MayRun now b =
    (b.state ≡ closed)
    ⊎ ((b.half_open_probing ≡ false)
        × ((b.state ≡ half_open) ⊎ ((b.state ≡ open_) × (b.last_failure_time + b.reset_ms ≤ now))))

-- A call runs exactly when the circuit is CLOSED, or no probe flag is set and the circuit is
-- HALF_OPEN or has been OPEN for the reset time.
pub admit-MayRun : (now : ℕ) (b : Breaker) → ((admit now b).1 ≡ true) ↔ MayRun now b
unfolding admit
admit-MayRun now b = ground arith

-- The calls in progress beside the breaker.
pub record System : Type 0 where
  pub breaker : Breaker
  pub running : ℕ

-- One thing that happens: a call is refused, is let in, or one in progress ends.
pub data Step : System → System → Type 0 where
  refused :
      (s : System) (now : ℕ)
      → (admit now s.breaker).1 ≡ false
      → Step s (record s { breaker = (admit now s.breaker).0 })
  entered :
      (s : System) (now : ℕ)
      → (admit now s.breaker).1 ≡ true
      → Step s (record { breaker = (admit now s.breaker).0; running = suc s.running })
  ended :
      (b : Breaker) (n now : ℕ) (e : Ending)
      → Step
          (record { breaker = b; running = suc n })
          (record { breaker = settle e now b; running = n })

pub data Reach (s : System) : System → Type 0 where
  here : Reach s s
  next : {t u : System} → Reach s t → Step t u → Reach s u

pub record IsSound (s : System) : Type 0 where
  pub threshold_pos : 0 < s.breaker.open_threshold
  pub closed_below : s.breaker.state ≡ closed → s.breaker.failure_count < s.breaker.open_threshold
  pub probe_marked : s.breaker.state ≡ half_open → s.breaker.half_open_probing ≡ true

admit-IsSound :
    (b : Breaker) (now n m : ℕ)
    → IsSound (record { breaker = b; running = n })
    → IsSound (record { breaker = (admit now b).0; running = m })
unfolding admit
admit-IsSound b now n m v = ground arith

settle-IsSound :
    (b : Breaker) (e : Ending) (now n m : ℕ)
    → IsSound (record { breaker = b; running = n })
    → IsSound (record { breaker = settle e now b; running = m })
unfolding settle
settle-IsSound b success now n m v = ground arith
settle-IsSound b failure now n m v = ground arith

Step-IsSound : {s t : System} → Step s t → IsSound s → IsSound t
Step-IsSound (refused s now h) v = admit-IsSound s.breaker now s.running s.running v
Step-IsSound (entered s now h) v = admit-IsSound s.breaker now s.running (suc s.running) v
Step-IsSound (ended b n now e) v = settle-IsSound b e now (suc n) n v

Reach-IsSound : {s t : System} → Reach s t → IsSound s → IsSound t
Reach-IsSound here v = v
Reach-IsSound (next r st) v = Step-IsSound st (Reach-IsSound r v)

-- Over every interleaving of calls from a new breaker with a positive threshold, a CLOSED circuit
-- has counted fewer failures than the threshold, and a HALF_OPEN one has its probe flag set.
pub Reach-initial-IsSound :
    (threshold reset : ℕ) (t : System)
    → 0 < threshold
    → Reach (record { breaker = initial threshold reset; running = 0 }) t
    → IsSound t
unfolding initial
Reach-initial-IsSound threshold reset t h r = Reach-IsSound r (ground arith)

-- The end of a call never leaves the circuit HALF_OPEN, and never clears the probe flag: the reset
-- in the `finally` block has no effect.
pub settle_keeps_probing :
    (e : Ending) (now : ℕ) (b : Breaker)
    → (settle e now b).state ≢ half_open
      × ((settle e now b).half_open_probing ≡ b.half_open_probing)
unfolding settle
settle_keeps_probing success now b = (ground arith, ground arith)
settle_keeps_probing failure now b = (ground arith, ground arith)
