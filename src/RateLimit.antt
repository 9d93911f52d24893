-- ===== src/RateLimit.antt =====
-- The rate limiter of backend/src/middleware/rateLimit.middleware.ts: a counter in Redis for one
-- endpoint, with one key for each client. Which client a request comes from (`identifier`) is an
-- argument, `none` where it cannot be told.
pub mod Laws
mod Examples
use zk_auth.Prelude.{
  ℕ, zero, suc, ◌+◌, ◌-◌, ◌/◌, ◌==◌, ltb, Bool, true, false, Option, none, some, if◌then◌else◌,
}
use zk_auth.Errors.{Error, app_error, rate_limit_exceeded, rate_limited, other_error}
use zk_auth.Effects.{M, Outcome, ok, err, ◌>>=◌, ◌>>◌, return, throw, try_catch}
use zk_auth.Stores.{Keyspace}

-- The options of one endpoint.
pub record RateLimitOptions : Type 0 where
  pub limit : ℕ
  pub window_seconds : ℕ

-- The headers of the response.
pub record RateHeaders : Type 0 where
  pub limit : ℕ
  pub remaining : ℕ
  pub reset_at : ℕ

pub is_rate_limit_error : Error → Bool
is_rate_limit_error (app_error rate_limit_exceeded status) = true
is_rate_limit_error e = false

-- A rate limit error goes to the error handler, any other failure lets the request through.
abbrev pub rethrow {ℓ} : {W : Type ℓ} → Bool → Error → M W (Option RateHeaders)
rethrow true e w = err e w
rethrow false e w = ok none w

abbrev pub count_of : Option ℕ → ℕ
count_of none = 0
count_of (some n) = n

module _ (K : Keyspace ℕ) where
  open K use {State, down, live, put_ex, put_keep}

  -- INCR: a missing key counts as 0 and gets no expiry, a key that is there keeps its own.
  abbrev pub incr : ℕ → ℕ → M State ℕ
  incr now k s =
      if down s
      then err other_error s
      else ok (suc (count_of (live s now k))) (put_keep now k (suc (count_of (live s now k))) s)

  -- EXPIRE: nothing for a missing key.
  abbrev pub expire : ℕ → ℕ → ℕ → M State (Unit {0})
  expire now k seconds s =
      if down s
      then err other_error s
      else elim (live s now k) [ none ↦ ok tt s | some n ↦ ok tt (put_ex now k n seconds s) ]

  -- TTL: the seconds are what Redis replies, 0 where there is no key or no expiry. Only the headers
  -- depend on them.
  abbrev pub ttl : ℕ → M State ℕ
  ttl seconds s = if down s then err other_error s else ok seconds s

-- The headers of a response, or the refusal. The headers of a refused response are left out.
abbrev pub decide : RateLimitOptions → ℕ → ℕ → ℕ → Bool → Option RateHeaders
decide options now count seconds true = none
decide options now count seconds false = some (record {
  limit = options.limit;
  remaining = options.limit - count;
  reset_at = now / 1000 + seconds;
})

abbrev pub or_refuse {ℓ} : {W : Type ℓ} → Option RateHeaders → M W (Option RateHeaders)
or_refuse none w = err rate_limited w
or_refuse (some headers) w = ok (some headers) w

-- What the middleware keeps: the counters in Redis.
pub record Limiter (K : Keyspace ℕ) : Type 0 where
  pub counters : Keyspace.State K

abbrev pub in_counters : {K : Keyspace ℕ} {A : Type 0} → M (Keyspace.State K) A → M (Limiter K) A
in_counters m w = elim (m w.counters) [
  | ok a s ↦ ok a (record w { counters = s })
  | err e s ↦ err e (record w { counters = s })
]

module _ (K : Keyspace ℕ) (options : RateLimitOptions) where
  -- EXPIRE follows only on the count 1.
  abbrev pub expire_first : ℕ → ℕ → Bool → M (Limiter K) (Unit {0})
  expire_first now id true = in_counters (expire K now id options.window_seconds)
  expire_first now id false = return tt

  -- The body of the `try`.
  pub limited : ℕ → ℕ → ℕ → M (Limiter K) (Option RateHeaders)
  limited now reply id = do
    count ← in_counters (incr K now id)
    expire_first now id (count == 1)
    seconds ← in_counters (ttl K reply)
    or_refuse (decide options now count seconds (ltb options.limit count))

  -- `some` is a request that goes on with headers, and `none` one that goes on without any.
  pub rate_limit : ℕ → ℕ → Option ℕ → M (Limiter K) (Option RateHeaders)
  unfolding limited is_rate_limit_error
  rate_limit now reply none = return none
  rate_limit now reply (some id) =
      try_catch (limited now reply id) λ e. rethrow (is_rate_limit_error e) e
