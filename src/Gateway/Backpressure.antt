-- ===== src/Gateway/Backpressure.antt =====
-- The stream of a session under backpressure (backend/src/grpc/behaviorClient.ts).
use zk_auth.Prelude.{
  ℕ, ◌+◌, ◌≤◌, ◌≡◌, refl, sym, ap, ◌∙◌, arith, Bool, true, false, List, [], ◌∷◌, ◌++◌, length,
  length-append, if◌then◌else◌,
}
use zk_auth.Gateway.{
  StreamEntry, max_queue, shift, send_event, bounded, write_event, flush_queue, drained,
}

-- What happens to a stream: an event is written, or the library has drained.
pub data Signal (E : Type 0) : Type 0 where
  event : E → Signal E
  drain : Signal E

if-split :
    {A : Type 0} (P : A → Type 0) (b : Bool) (x y : A)
    → (b ≡ true → P x)
    → (b ≡ false → P y)
    → P (if b then x else y)
if-split P true x y f g = f refl
if-split P false x y f g = g refl

module _ {E : Type 0} where
  append_nil : (xs : List E) → xs ++ [] ≡ xs
  append_nil [] = refl
  append_nil (x ∷ xs) = ap (λ ys. x ∷ ys) (append_nil xs)

  append_assoc : (xs ys zs : List E) → (xs ++ ys) ++ zs ≡ xs ++ (ys ++ zs)
  append_assoc [] ys zs = refl
  append_assoc (x ∷ xs) ys zs = ap (λ l. x ∷ l) (append_assoc xs ys zs)

  abbrev pub signal : (ℕ → Bool) → Signal E → StreamEntry E → StreamEntry E
  signal accepts (event e) s = write_event accepts e s
  signal accepts drain s = drained accepts s

  abbrev pub signal_all : (ℕ → Bool) → List (Signal E) → StreamEntry E → StreamEntry E
  signal_all accepts [] s = s
  signal_all accepts (x ∷ xs) s = signal_all accepts xs (signal accepts x s)

  abbrev pub events_of : List (Signal E) → List E
  events_of [] = []
  events_of (event e ∷ xs) = e ∷ events_of xs
  events_of (drain ∷ xs) = events_of xs

  -- The events that the stream has taken over: those written and those that wait.
  abbrev pub taken : StreamEntry E → List E
  taken s = s.sent ++ s.pending_queue

  pub record IsFlowing (s : StreamEntry E) : Type 0 where
    pub bound : length s.pending_queue ≤ max_queue
    pub empty : s.draining ≡ false → s.pending_queue ≡ []

  length-shift : (xs : List E) → length (shift xs) ≤ length xs
  length-shift [] = ground arith
  length-shift (x ∷ xs) = ground arith

  length-bounded :
      (xs : List E) (e : E) → length xs ≤ max_queue → length (bounded (xs ++ e ∷ [])) ≤ max_queue
  length-bounded [] e h = ground arith
  length-bounded (x ∷ xs) e h = ground (arith, h, length-append xs (e ∷ []))

  flush-IsFlowing :
      (accepts : ℕ → Bool) (xs : List E) (s : StreamEntry E)
      → length xs ≤ max_queue
      → s.draining ≡ false
      → IsFlowing (flush_queue accepts xs s)
  unfolding flush_queue
  flush-IsFlowing accepts [] s h d = record { bound = ground arith; empty = λ _. refl }
  flush-IsFlowing accepts (x ∷ xs) s h d =
      if-split IsFlowing (accepts (length s.sent)) _ _
        (λ went.
          flush-IsFlowing accepts xs (send_event accepts x s) (ground (arith, h))
            (ground (arith, went, d)))
        (λ stuck. record {
          bound = ground (arith, h);
          empty = λ f. absurd (ground (arith, f, stuck));
        })

  signal-IsFlowing :
      (accepts : ℕ → Bool) (x : Signal E) (s : StreamEntry E)
      → IsFlowing s
      → IsFlowing (signal accepts x s)
  signal-IsFlowing accepts drain s ok =
      flush-IsFlowing accepts s.pending_queue (record s { draining = false }) ok.bound refl
  signal-IsFlowing accepts (event e) s ok =
      if-split IsFlowing s.draining _ _
        (λ waits. record {
          bound = length-bounded s.pending_queue e ok.bound;
          empty = λ f. absurd (ground (arith, f, waits));
        })
        (λ flows. record { bound = ok.bound; empty = λ f. ok.empty flows })

  -- Whatever the library replies to the writes: at most 500 events wait, and none does unless the
  -- stream is draining.
  pub signal_all-IsFlowing :
      (accepts : ℕ → Bool) (xs : List (Signal E)) (s : StreamEntry E)
      → IsFlowing s
      → IsFlowing (signal_all accepts xs s)
  signal_all-IsFlowing accepts [] s ok = ok
  signal_all-IsFlowing accepts (x ∷ xs) s ok =
      signal_all-IsFlowing accepts xs (signal accepts x s) (signal-IsFlowing accepts x s ok)

  taken-flush :
      (accepts : ℕ → Bool) (xs : List E) (s : StreamEntry E)
      → taken (flush_queue accepts xs s) ≡ s.sent ++ xs
  unfolding flush_queue
  taken-flush accepts [] s = refl
  taken-flush accepts (x ∷ xs) s =
      if-split (λ r. taken r ≡ s.sent ++ x ∷ xs) (accepts (length s.sent)) _ _
        (λ went. taken-flush accepts xs (send_event accepts x s) ∙ append_assoc s.sent (x ∷ []) xs)
        (λ stuck. append_assoc s.sent (x ∷ []) xs)

  bounded_id : (xs : List E) → length xs ≤ max_queue → bounded xs ≡ xs
  bounded_id xs h = ground (arith, h)

  length-flush :
      (accepts : ℕ → Bool) (xs : List E) (s : StreamEntry E)
      → length (flush_queue accepts xs s).pending_queue ≤ length xs
  unfolding flush_queue
  length-flush accepts [] s = ground arith
  length-flush accepts (x ∷ xs) s =
      if-split (λ (r : StreamEntry E). length r.pending_queue ≤ length (x ∷ xs))
        (accepts (length s.sent)) _ _
        (λ went. ground (arith, length-flush accepts xs (send_event accepts x s)))
        (λ stuck. ground arith)

  step_lem :
      (accepts : ℕ → Bool) (x : Signal E) (xs : List (Signal E)) (s : StreamEntry E)
      → IsFlowing s
      → length s.pending_queue + length (events_of (x ∷ xs)) ≤ max_queue
      → (taken (signal accepts x s) ++ events_of xs ≡ taken s ++ events_of (x ∷ xs))
        × (length (signal accepts x s).pending_queue + length (events_of xs) ≤ max_queue)
  step_lem accepts drain xs s ok h = (
    ap (λ l. l ++ events_of xs)
        (taken-flush accepts s.pending_queue (record s { draining = false })),
    ground (arith, h, length-flush accepts s.pending_queue (record s { draining = false })),
  )
  step_lem accepts (event e) xs s ok h =
      let queue : List E = s.pending_queue ++ e ∷ [] in
      let longer : length queue ≡ length s.pending_queue + 1 =
        length-append s.pending_queue (e ∷ []) in
      let fits : length queue ≤ max_queue = ground (arith, h, longer) in
      let whole : bounded queue ≡ queue = bounded_id queue fits in
      if-split
        (λ r.
          (taken r ++ events_of xs ≡ taken s ++ (e ∷ events_of xs))
          × (length r.pending_queue + length (events_of xs) ≤ max_queue))
        s.draining _ _
        (λ waits. (
          ap (λ q. (s.sent ++ q) ++ events_of xs) whole
              ∙ ap (λ l. l ++ events_of xs) (sym (append_assoc s.sent s.pending_queue (e ∷ [])))
              ∙ append_assoc (taken s) (e ∷ []) (events_of xs),
          rw whole (ground (arith, h, longer)),
        ))
        (λ flows. (
          ap (λ q. ((s.sent ++ e ∷ []) ++ q) ++ events_of xs) (ok.empty flows)
              ∙ ap (λ l. l ++ events_of xs) (append_nil (s.sent ++ e ∷ []))
              ∙ append_assoc s.sent (e ∷ []) (events_of xs)
              ∙ ap (λ l. l ++ (e ∷ events_of xs)) (sym (append_nil s.sent))
              ∙ ap (λ q. (s.sent ++ q) ++ (e ∷ events_of xs)) (sym (ok.empty flows)),
          ground (arith, h),
        ))

  -- While no more than 500 events come in a run, nothing is lost, repeated or reordered: the events
  -- that were written and those that wait are the ones of before, followed by the ones that came,
  -- whatever the library replies.
  pub taken-signal_all :
      (accepts : ℕ → Bool) (xs : List (Signal E)) (s : StreamEntry E)
      → IsFlowing s
      → length s.pending_queue + length (events_of xs) ≤ max_queue
      → taken (signal_all accepts xs s) ≡ taken s ++ events_of xs
  taken-signal_all accepts [] s ok h = sym (append_nil (taken s))
  taken-signal_all accepts (x ∷ xs) s ok h =
      let (same, room) = step_lem accepts x xs s ok h in
      taken-signal_all accepts xs (signal accepts x s) (signal-IsFlowing accepts x s ok) room ∙ same
