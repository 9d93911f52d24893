-- ===== src/Telemetry/Laws.antt =====
-- No event is lost or repeated on its way through the buffer
-- (backend/src/services/telemetry/telemetry.service.ts).
use zk_auth.Prelude.{
  ℕ, ◌<◌, ◌≡◌, refl, ap, ◌∙◌, leb, Bool, true, false, List, [], ◌∷◌, ◌++◌, arith, length,
  Bool-cases, inl, inr,
}
use zk_auth.Stores.{Journal}
use zk_auth.Telemetry.{
  Telemetry, all_fit, append_all, batch_size, flush_buffer, timer_fires, Action, event, fires,
  shutdown, act, run,
}

-- The entries with a batch put before them, the last event first.
abbrev pub onto : List ℕ → List ℕ → List ℕ
onto [] ys = ys
onto (x ∷ xs) ys = onto xs (x ∷ ys)

all_fit-append :
    (fits : ℕ → Bool) (xs : List ℕ) (e : ℕ)
    → all_fit fits xs ≡ true
    → fits e ≡ true
    → all_fit fits (xs ++ e ∷ []) ≡ true
all_fit-append fits [] e h f = ground (arith, f)
all_fit-append fits (x ∷ xs) e h f = ground (arith, h, all_fit-append fits xs e, f)

flush_empties :
    (J : Journal ℕ) (fits : ℕ → Bool) (buffer : List ℕ) (timer : Bool) (s : Journal.State J)
    → (flush_buffer J fits (record { buffer = buffer; timer = timer; written = s })).buffer ≡ []
unfolding flush_buffer
flush_empties J fits [] timer s = refl
flush_empties J fits (e ∷ batch) timer s = refl

onto-append : (xs : List ℕ) (e : ℕ) (ys : List ℕ) → onto (xs ++ e ∷ []) ys ≡ e ∷ onto xs ys
onto-append [] e ys = refl
onto-append (x ∷ xs) e ys = onto-append xs e (x ∷ ys)

module _ (J : Journal ℕ) (fits : ℕ → Bool)
    (up : (s : Journal.State J) → Journal.down J s ≡ false) where
  -- The events that arrive in a run.
  abbrev pub arriving : List (Action J fits) → List ℕ
  arriving [] = []
  arriving (event e ∷ rest) = e ∷ arriving rest
  arriving (fires ∷ rest) = arriving rest
  arriving (shutdown ∷ rest) = arriving rest

  -- All events so far, written or still in the buffer, the newest first.
  abbrev pub known : Telemetry J fits → List ℕ
  known w = onto w.buffer (Journal.entries J w.written)

  entries-append_all :
      (batch : List ℕ) (s : Journal.State J)
      → Journal.entries J (append_all J fits batch s) ≡ onto batch (Journal.entries J s)
  unfolding append_all
  entries-append_all [] s = refl
  entries-append_all (e ∷ batch) s =
      entries-append_all batch (Journal.append J e s)
      ∙ ap (onto batch) (Journal.entries-append J e s)

  known-flush :
      (buffer : List ℕ) (timer : Bool) (s : Journal.State J)
      → all_fit fits buffer ≡ true
      → known (flush_buffer J fits (record { buffer = buffer; timer = timer; written = s }))
        ≡ onto buffer (Journal.entries J s)
  unfolding flush_buffer
  known-flush [] timer s h = refl
  known-flush (e ∷ batch) timer s h = rw (up s, h) (entries-append_all (e ∷ batch) s)

  -- The buffer holds only events whose rows fit.
  abbrev Fits : Telemetry J fits → Type 0
  Fits w = all_fit fits w.buffer ≡ true

  all_fit-empty : (buffer : List ℕ) → buffer ≡ [] → all_fit fits buffer ≡ true
  all_fit-empty buffer e = ap (all_fit fits) e

  known-act :
      (a : Action J fits) (w : Telemetry J fits)
      → Fits w
      → all_fit fits (arriving (a ∷ [])) ≡ true
      → (known (act J fits a w) ≡ onto (arriving (a ∷ [])) (known w)) × Fits (act J fits a w)
  unfolding act
  known-act (event e) w h f =
      let both = all_fit-append fits w.buffer e h (ground (arith, f)) in
      elim (Bool-cases (leb batch_size (length (w.buffer ++ e ∷ [])))) [
        | inl full ↦ rw full (
          known-flush (w.buffer ++ e ∷ []) false w.written both
              ∙ onto-append w.buffer e (Journal.entries J w.written),
          all_fit-empty _ (flush_empties J fits (w.buffer ++ e ∷ []) false w.written),
        )
        | inr room ↦ rw room (onto-append w.buffer e (Journal.entries J w.written), both)
      ]
  known-act fires w h f = elim (Bool-cases w.timer) [
    | inl set ↦ rw set (
      known-flush w.buffer false w.written h,
      all_fit-empty _ (flush_empties J fits w.buffer false w.written),
    )
    | inr unset ↦ rw unset (refl, h)
  ]
  known-act shutdown w h f = (
    known-flush w.buffer false w.written h,
    all_fit-empty _ (flush_empties J fits w.buffer false w.written),
  )

  -- While the database answers and takes the rows of the events, nothing is lost, repeated or
  -- reordered: after any run of arriving events, timers and shutdowns, the events written and those
  -- still in the buffer are the ones that were there before, followed by the ones that arrived.
  pub known-run :
      (actions : List (Action J fits)) (w : Telemetry J fits)
      → all_fit fits w.buffer ≡ true
      → all_fit fits (arriving actions) ≡ true
      → known (run J fits actions w) ≡ onto (arriving actions) (known w)
  known-run [] w h f = refl
  known-run (event e ∷ rest) w h f =
      let (step, left) = known-act (event e) w h (ground (arith, f)) in
      known-run rest (act J fits (event e) w) left (ground (arith, f))
      ∙ ap (onto (arriving rest)) step
  known-run (fires ∷ rest) w h f =
      let (step, left) = known-act fires w h refl in
      known-run rest (act J fits fires w) left f ∙ ap (onto (arriving rest)) step
  known-run (shutdown ∷ rest) w h f =
      let (step, left) = known-act shutdown w h refl in
      known-run rest (act J fits shutdown w) left f ∙ ap (onto (arriving rest)) step

module _ (J : Journal ℕ) (fits : ℕ → Bool) where
  -- The buffer is below the batch size, and a flush is scheduled whenever it is not empty.
  pub record IsBuffered (w : Telemetry J fits) : Type 0 where
    pub below : length w.buffer < batch_size
    pub scheduled : w.timer ≡ false → w.buffer ≡ []

  IsBuffered-empty : (w : Telemetry J fits) → w.buffer ≡ [] → IsBuffered w
  IsBuffered-empty w e = record { below = ground (arith, ap length e); scheduled = λ _. e }

  fires-IsBuffered :
      (buffer : List ℕ) (timer : Bool) (s : Journal.State J)
      → IsBuffered (record { buffer = buffer; timer = timer; written = s })
      → IsBuffered (timer_fires J fits (record { buffer = buffer; timer = timer; written = s }))
  unfolding timer_fires
  fires-IsBuffered buffer true s v = IsBuffered-empty _ (flush_empties J fits buffer false s)
  fires-IsBuffered buffer false s v = v

  act-IsBuffered :
      (a : Action J fits) (w : Telemetry J fits) → IsBuffered w → IsBuffered (act J fits a w)
  unfolding act
  act-IsBuffered (event e) w v = elim (Bool-cases (leb batch_size (length (w.buffer ++ e ∷ [])))) [
    | inl h ↦ rw h (IsBuffered-empty _ (flush_empties J fits (w.buffer ++ e ∷ []) false w.written))
    | inr h ↦ rw h (record { below = ground (arith, h); scheduled = λ t. ground (arith, t) })
  ]
  act-IsBuffered fires w v = fires-IsBuffered w.buffer w.timer w.written v
  act-IsBuffered shutdown w v = IsBuffered-empty _ (flush_empties J fits w.buffer false w.written)

  -- In every run the buffer stays below 50 events, and whenever it is not empty a flush is scheduled.
  pub run-IsBuffered :
      (actions : List (Action J fits)) (w : Telemetry J fits)
      → IsBuffered w
      → IsBuffered (run J fits actions w)
  run-IsBuffered [] w v = v
  run-IsBuffered (a ∷ rest) w v = run-IsBuffered rest (act J fits a w) (act-IsBuffered a w v)
