-- ===== src/RateLimit/Laws.antt =====
-- The counts of the rate limiter (backend/src/middleware/rateLimit.middleware.ts).
use zk_auth.Prelude.{
  ℕ, suc, ◌+◌, ◌*◌, ◌≤◌, ◌<◌, ◌≡◌, refl, ltb, leb, Bool, true, false, Option, none, some, List, [],
  ◌∷◌, arith, if◌then◌else◌,
}
use zk_auth.Effects.{Outcome, ok, err, final}
use zk_auth.Stores.{Keyspace}
use zk_auth.RateLimit.{Limiter, RateLimitOptions, RateHeaders, rate_limit}

module _ (K : Keyspace ℕ) (options : RateLimitOptions) where
  open K use {down, live}

  abbrev pub passes : Outcome (Limiter K) (Option RateHeaders) → Bool
  passes (ok _ _) = true
  passes (err _ _) = false

  -- Redis answers every command of the request: it is up before it and up after it.
  abbrev pub Answers : ℕ → ℕ → ℕ → Limiter K → Type 0
  Answers now reply id s =
      (down s.counters ≡ false)
      × (down (final (rate_limit K options now reply (some id) s)).counters ≡ false)

  -- From a time on, the state has counted `n` requests of a client in a window with this end.
  abbrev pub Window : ℕ → ℕ → ℕ → ℕ → Limiter K → Type 0
  Window id n deadline from s =
      (t : ℕ) → from ≤ t → live s.counters t id ≡ (if ltb t deadline then some n else none)

  counts_first :
      (now reply id : ℕ) (s : Limiter K)
      → live s.counters now id ≡ none
      → 0 < options.window_seconds
      → Answers now reply id s
      → (passes (rate_limit K options now reply (some id) s) ≡ leb 1 options.limit)
        × Window id 1
            (now + options.window_seconds * 1000)
            now
            (final (rate_limit K options now reply (some id) s))
  unfolding rate_limit
  counts_first now reply id s none_yet pos (up, up') = (
    ground (arith, K.live-put_keep now id 1 s.counters now id),
    λ t le. ground (
      arith,
      K.live-put_keep now id 1 s.counters now id,
      K.live-put_ex now id 1 options.window_seconds (K.put_keep now id 1 s.counters) t id,
    ),
  )

  counts_next :
      (now reply id n deadline from : ℕ) (s : Limiter K)
      → Window id n deadline from s
      → from ≤ now
      → now < deadline
      → 0 < n
      → Answers now reply id s
      → (passes (rate_limit K options now reply (some id) s) ≡ leb (suc n) options.limit)
        × Window id (suc n) deadline now (final (rate_limit K options now reply (some id) s))
  unfolding rate_limit
  counts_next now reply id n deadline from s w le h pos (up, up') = (
    ground (arith, w now le),
    λ t later. ground (arith, w now le, w t, K.live-put_keep now id (suc n) s.counters t id),
  )

  -- The requests of one client at the given times, one after another, and whether each passed.
  abbrev pub serve : ℕ → ℕ → List ℕ → Limiter K → List Bool
  serve id reply [] s = []
  serve id reply (now ∷ later) s =
      passes (rate_limit K options now reply (some id) s)
      ∷ serve id reply later (final (rate_limit K options now reply (some id) s))

  abbrev pub AllAnswer : ℕ → ℕ → List ℕ → Limiter K → Type 0
  AllAnswer id reply [] s = Unit
  AllAnswer id reply (now ∷ later) s =
      Answers now reply id s
      × AllAnswer id reply later (final (rate_limit K options now reply (some id) s))

  -- The times do not go back and stay before the deadline.
  abbrev pub Within : ℕ → ℕ → List ℕ → Type 0
  Within from deadline [] = Unit
  Within from deadline (now ∷ later) = (from ≤ now) × (now < deadline) × Within now deadline later

  -- After `n` requests in the window, the next ones pass as long as the count is within the limit.
  abbrev pub allowed : ℕ → List ℕ → List Bool
  allowed n [] = []
  allowed n (now ∷ later) = leb (suc n) options.limit ∷ allowed (suc n) later

  serve-allowed :
      (id reply n deadline from : ℕ) (times : List ℕ) (s : Limiter K)
      → Window id n deadline from s
      → 0 < n
      → Within from deadline times
      → AllAnswer id reply times s
      → serve id reply times s ≡ allowed n times
  serve-allowed id reply n deadline from [] s w pos within up = refl
  serve-allowed id reply n deadline from (now ∷ later) s w pos (le, h, within) (up, up') =
      let (decision, w') = counts_next now reply id n deadline from s w le h pos up in
      ground (
        arith,
        decision,
        serve-allowed id reply (suc n) deadline now later _ w' (omega arith) within up',
      )

  -- Of the requests that a client makes within one window, counted from its first request, exactly
  -- the first `limit` pass and all later ones are refused, as long as Redis answers every command.
  pub serve_window :
      (id reply now : ℕ) (later : List ℕ) (s : Limiter K)
      → live s.counters now id ≡ none
      → 0 < options.window_seconds
      → Within now (now + options.window_seconds * 1000) later
      → AllAnswer id reply (now ∷ later) s
      → serve id reply (now ∷ later) s ≡ allowed 0 (now ∷ later)
  serve_window id reply now later s none_yet pos within (up, up') =
      let (decision, w) = counts_first now reply id s none_yet pos up in
      ground (
        arith,
        decision,
        serve-allowed id reply 1 (now + options.window_seconds * 1000) now later _ w (omega arith)
            within up',
      )

  -- Where Redis goes down between the INCR of a client's first request and its EXPIRE, the request
  -- passes, and its counter never expires: it is there at every later time.
  pub rate_limit_unexpiring :
      (now reply id : ℕ) (s : Limiter K)
      → live s.counters now id ≡ none
      → down s.counters ≡ false
      → down (K.put_keep now id 1 s.counters) ≡ true
      → (passes (rate_limit K options now reply (some id) s) ≡ true)
        × ((t : ℕ)
            → now ≤ t
            → live (final (rate_limit K options now reply (some id) s)).counters t id ≡ some 1)
  unfolding rate_limit
  rate_limit_unexpiring now reply id s none_yet up d = (
    ground (arith, up, none_yet, d),
    λ t le. ground (arith, up, none_yet, d, K.live-put_keep now id 1 s.counters t id),
  )
