-- ===== src/RateLimit/Examples.antt =====
-- The rate limiter over counters in memory.
use zk_auth.Prelude.{ℕ, ◌-◌, ◌==◌, ◌≡◌, refl, true, false, none, [], ◌∷◌, arith}
use zk_auth.Stores.{Keyspace}
use zk_auth.Stores.Memory.{memory_keys, Cells, alive, live_put_ex, live_keep, live_remove}
use zk_auth.RateLimit.{RateLimitOptions, Limiter, rate_limit}
use zk_auth.RateLimit.Laws.{serve, allowed, serve_window}

-- Two requests in 60 seconds.
abbrev options : RateLimitOptions
options = record { limit = 2; window_seconds = 60 }

abbrev idle : Limiter memory_keys
idle = record { counters = record { cell = λ _. none; is_down = false } }

-- The third request is refused, and the fourth comes after the window.
serve_test :
    serve memory_keys options 7 60 (1000 ∷ 2000 ∷ 3000 ∷ 61000 ∷ []) idle
    ≡ true ∷ true ∷ false ∷ true ∷ []
unfolding rate_limit
serve_test = refl

serve_window_example :
    serve memory_keys options 7 60 (1000 ∷ 2000 ∷ 3000 ∷ []) idle
    ≡ allowed memory_keys options 0 (1000 ∷ 2000 ∷ 3000 ∷ [])
unfolding rate_limit
serve_window_example =
    serve_window memory_keys options 7 60 1000 (2000 ∷ 3000 ∷ []) idle refl (omega arith)
      (omega arith, omega arith, (omega arith, omega arith, tt))
      ((refl, refl), ((refl, refl), ((refl, refl), tt)))

-- Counters in memory that fail after a number of commands that write.
abbrev fragile : Keyspace ℕ
fragile = record {
  State = Cells ℕ × ℕ;
  down = λ s. s.1 == 0;
  live = λ s t k. alive (s.0.cell k) t;
  put_ex =
      λ now k v seconds s. (Keyspace.put_ex (memory_keys {V = ℕ}) now k v seconds s.0, s.1 - 1);
  put_keep = λ now k v s. (Keyspace.put_keep (memory_keys {V = ℕ}) now k v s.0, s.1 - 1);
  remove = λ k s. (Keyspace.remove (memory_keys {V = ℕ}) k s.0, s.1 - 1);
  live-put_ex = λ now k v seconds s t j. live_put_ex now k v seconds s.0 t j;
  live-put_keep = λ now k v s t j h. live_keep now k v s.0 t j h;
  live-remove = λ k s t j. live_remove k s.0 t j;
}

abbrev failing : Limiter fragile
failing = record { counters = (record { cell = λ _. none; is_down = false }, 1) }
