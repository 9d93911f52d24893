-- ===== src/Idempotency.antt =====
-- The idempotency keys of backend/src/middleware/idempotency.middleware.ts. The handler behind the
-- middleware is an argument: it reads and writes the application's own state and answers once.
pub mod Laws
mod Examples
use zk_auth.Prelude.{
  ℕ, ◌≤◌, Bool, true, false, Option, none, some, List, [], ◌∷◌, ◌&&◌, ltb, leb, if◌then◌else◌,
  select,
}
use zk_auth.Errors.{Error, other_error}
use zk_auth.Effects.{M, Outcome, ok, err, ◌>>=◌, ◌>>◌, return, throw, final}
use zk_auth.Stores.{Keyspace, get, set_ex, set_nx_ex, del}

pub data Method : Type 0 where
  get_method delete_method post put patch : Method

-- The header x-idempotency-key: missing, not a UUID v4, or a UUID.
pub data KeyHeader : Type 0 where
  absent malformed : KeyHeader
  uuid : ℕ → KeyHeader

-- A header name is a number, and the names that are not replayed are told apart.
pub data HeaderName : Type 0 where
  set_cookie authorization idempotency_replayed retry_after : HeaderName
  header : ℕ → HeaderName

-- A text or a number, which count by the text that is sent, or an array of texts.
pub data HeaderValue : Type 0 where
  single : ℕ → HeaderValue
  several : List ℕ → HeaderValue

pub record Response : Type 0 where
  pub status : ℕ
  pub headers : List (HeaderName × HeaderValue)
  pub body : ℕ

abbrev pub idempotency_ttl_s : ℕ
idempotency_ttl_s = 86400

abbrev pub processing_lock_ttl : ℕ
processing_lock_ttl = 30

pub is_mutating : Method → Bool
is_mutating get_method = false
is_mutating delete_method = false
is_mutating _ = true

pub is_replayed : HeaderName × HeaderValue → Bool
is_replayed (set_cookie, v) = false
is_replayed (authorization, v) = false
is_replayed _ = true

-- The response as it is cached: an array is no value that is kept.
pub is_cached : HeaderName × HeaderValue → Bool
is_cached (name, single v) = true
is_cached (name, several vs) = false

pub to_cache : Response → Response
unfolding is_cached
to_cache r = record r { headers = select is_cached r.headers }

-- The cached response as it is sent again.
pub replayed : Response → Response
unfolding is_replayed
replayed r = record r { headers = (idempotency_replayed, single 1) ∷ select is_replayed r.headers }

-- The bodies that only carry a code: INVALID_IDEMPOTENCY_KEY and IDEMPOTENCY_CONFLICT.
abbrev pub invalid_key : Response
invalid_key = record { status = 400; headers = []; body = 0 }

abbrev pub conflict : Response
conflict = record { status = 409; headers = (retry_after, single 2) ∷ []; body = 1 }

-- How a request is let in: answered at once, run with its response intercepted, or run without.
pub data Admission : Type 0 where
  answered : Response → Admission
  intercepted : Admission
  passed_through : Admission

module _ (cache : Keyspace Response) (locks : Keyspace (Unit {0})) (App : Type 0) where
  pub record Site : Type 0 where
    pub cached : Keyspace.State cache
    pub locked : Keyspace.State locks
    pub app : App

  abbrev in_cache : {A : Type 0} → M (Keyspace.State cache) A → M Site A
  in_cache m w = elim (m w.cached) [
    | ok a s ↦ ok a (record w { cached = s })
    | err e s ↦ err e (record w { cached = s })
  ]

  abbrev in_locks : {A : Type 0} → M (Keyspace.State locks) A → M Site A
  in_locks m w = elim (m w.locked) [
    | ok a s ↦ ok a (record w { locked = s })
    | err e s ↦ err e (record w { locked = s })
  ]

  -- The steps before the handler, for a valid key.
  enter : ℕ → ℕ → M Site Admission
  unfolding replayed
  enter now key = do
    found ← in_cache (get cache now key)
    elim found [
      | some r ↦ return (answered (replayed r))
      | none ↦ do
        acquired ← in_locks (set_nx_ex locks now key tt processing_lock_ttl)
        if acquired then return intercepted else return (answered conflict)
    ]

  -- The failure of Redis lets the request through.
  pub admit : ℕ → ℕ → Site → Admission × Site
  unfolding enter
  admit now key w = elim (enter now key w) [ ok a w' ↦ (a, w') | err e w' ↦ (passed_through, w') ]

  -- The replaced `res.json`: a 2xx response is cached and then the lock is released; the lock of any
  -- other is released at once. Failures are logged.
  cache_and_release : ℕ → ℕ → Response → M Site ℕ
  unfolding to_cache
  cache_and_release now key r = do
    in_cache (set_ex cache now key (to_cache r) idempotency_ttl_s)
    in_locks (del locks now key)

  pub intercept : ℕ → ℕ → Response → Site → Site
  unfolding cache_and_release
  intercept now key r w =
      if leb 200 r.status && ltb r.status 300
      then final (cache_and_release now key r w)
      else final (in_locks (del locks now key) w)

  run : (App → Response × App) → Site → Response × Site
  run handler w = let (r, app) = handler w.app in (r, record w { app = app })

  handle : ℕ → ℕ → (App → Response × App) → Admission × Site → Response × Site
  unfolding run intercept
  handle stop key handler (answered r, w) = (r, w)
  handle stop key handler (passed_through, w) = run handler w
  handle stop key handler (intercepted, w) =
      let (r, w') = run handler w in (r, intercept stop key r w')

  keyed : ℕ → ℕ → (App → Response × App) → KeyHeader → Site → Response × Site
  unfolding handle admit
  keyed start stop handler absent w = run handler w
  keyed start stop handler malformed w = (invalid_key, w)
  keyed start stop handler (uuid key) w = handle stop key handler (admit start key w)

  -- `start` is the time at which the request comes in, and `stop` that at which the handler answers.
  pub idempotency : ℕ → ℕ → Method → KeyHeader → (App → Response × App) → Site → Response × Site
  unfolding keyed is_mutating
  idempotency start stop method key handler w =
      if is_mutating method then keyed start stop handler key w else run handler w
