-- ===== src/Idempotency/Laws.antt =====
-- At most one execution for one idempotency key (backend/src/middleware/idempotency.middleware.ts).
use zk_auth.Prelude.{ℕ, ◌+◌, ◌*◌, ◌<◌, ◌≡◌, Bool, true, false, ◌&&◌, none, some, arith, ltb, leb}
use zk_auth.Stores.{Keyspace}
use zk_auth.Idempotency.{
  Response, Method, uuid, Site, conflict, replayed, to_cache, is_mutating, idempotency,
  idempotency_ttl_s, processing_lock_ttl,
}

abbrev pub is_success : Response → Bool
is_success r = leb 200 r.status && ltb r.status 300

module _ (cache : Keyspace Response) (locks : Keyspace (Unit {0})) (App : Type 0) where
  -- The key is new: nothing is cached for it and no request holds its lock, and Redis answers.
  abbrev pub Fresh : ℕ → ℕ → Site cache locks App → Type 0
  Fresh now key w =
      (Keyspace.down cache w.cached ≡ false)
      × (Keyspace.down locks w.locked ≡ false)
      × (Keyspace.live cache w.cached now key ≡ none)
      × (Keyspace.live locks w.locked now key ≡ none)

  -- The first request with a key runs its handler once, on the state of the application as it is.
  -- When the handler answers with a 2xx status, every request with the key in the next 24 hours,
  -- whatever its handler, gets that answer again, without the headers set-cookie and authorization
  -- and those whose value is an array, and changes nothing, as long as Redis answers.
  pub idempotency_once :
      (start stop now later key : ℕ) (method again : Method) (first second : App → Response × App)
      (w : Site cache locks App)
      → Fresh start key w
      → is_mutating method ≡ true
      → is_mutating again ≡ true
      → is_success (first w.app).0 ≡ true
      → now < stop + idempotency_ttl_s * 1000
      → Keyspace.down cache
          (idempotency cache locks App start stop method (uuid key) first w).1.cached
        ≡ false
      → ((idempotency cache locks App start stop method (uuid key) first w).0 ≡ (first w.app).0)
        × ((idempotency cache locks App start stop method (uuid key) first w).1.app
            ≡ (first w.app).1)
        × (idempotency cache locks App now later again
              (uuid key)
              second
              (idempotency cache locks App start stop method (uuid key) first w).1
            ≡ (
              replayed (to_cache (first w.app).0),
              (idempotency cache locks App start stop method (uuid key) first w).1,
            ))
  unfolding idempotency
  idempotency_once start stop now later key method again first second w (cu, lu, cn, ln) m1 m2 good
        lt up =
      ground (
        arith,
        cu,
        lu,
        cn,
        ln,
        m1,
        m2,
        good,
        up,
        Keyspace.live-put_ex cache stop key (to_cache (first w.app).0) idempotency_ttl_s w.cached
            now key,
      )

  -- A request with the key of a request that is still in flight is answered with 409 and changes
  -- nothing.
  pub idempotency_in_flight :
      (now later key : ℕ) (method : Method) (handler : App → Response × App)
      (w : Site cache locks App)
      → is_mutating method ≡ true
      → Keyspace.down cache w.cached ≡ false
      → Keyspace.down locks w.locked ≡ false
      → Keyspace.live cache w.cached now key ≡ none
      → Keyspace.live locks w.locked now key ≡ some tt
      → idempotency cache locks App now later method (uuid key) handler w ≡ (conflict, w)
  unfolding idempotency
  idempotency_in_flight now later key method handler w m cu lu cn ll =
      ground (arith, m, cu, lu, cn, ll)

  -- An answer that is not 2xx is not cached and its lock is released, so a later request with the key
  -- runs its handler.
  pub idempotency_retry :
      (start stop now later key : ℕ) (method again : Method) (first second : App → Response × App)
      (w : Site cache locks App)
      → Fresh start key w
      → is_mutating method ≡ true
      → is_mutating again ≡ true
      → is_success (first w.app).0 ≡ false
      → Keyspace.live cache w.cached now key ≡ none
      → Keyspace.down locks (Keyspace.put_ex locks start key tt processing_lock_ttl w.locked)
        ≡ false
      → (idempotency cache locks App now later again
          (uuid key)
          second
          (idempotency cache locks App start stop method (uuid key) first w).1).0
        ≡ (second (first w.app).1).0
  unfolding idempotency
  idempotency_retry start stop now later key method again first second w (cu, lu, cn, ln) m1 m2 bad
        later_none lu' =
      ground (
        arith,
        cu,
        lu,
        cn,
        ln,
        m1,
        m2,
        bad,
        lu',
        later_none,
        Keyspace.live-remove locks key
            (Keyspace.put_ex locks start key tt processing_lock_ttl w.locked) now key,
      )
