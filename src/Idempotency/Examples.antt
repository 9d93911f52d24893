-- ===== src/Idempotency/Examples.antt =====
-- Idempotency keys over stores in memory, for an application that counts its requests.
use zk_auth.Prelude.{ℕ, suc, ◌≡◌, refl, none, some, [], ◌∷◌, false, arith}
use zk_auth.Stores.Memory.{memory_keys}
use zk_auth.Idempotency.{
  Response, Site, post, put, uuid, header, set_cookie, single, several, replayed, to_cache,
  idempotency,
}
use zk_auth.Idempotency.Laws.{idempotency_once}

abbrev created : ℕ → Response × ℕ
created n = (
  record {
    status = 201;
    headers = (header 3, single 4) ∷ (header 5, several (6 ∷ 7 ∷ [])) ∷ (set_cookie, single 5) ∷ [];
    body = n;
  },
  suc n,
)

abbrev refused : ℕ → Response × ℕ
refused n = (record { status = 503; headers = []; body = n }, n)

abbrev idle : Site memory_keys memory_keys ℕ
idle = record {
  cached = record { cell = λ _. none; is_down = false };
  locked = record { cell = λ _. none; is_down = false };
  app = 40;
}

abbrev busy : Site memory_keys memory_keys ℕ
busy = record idle {
  locked = record {
    cell = λ j. some (record { value = tt; expires = some 30000 });
    is_down = false;
  };
}

once_test :
    (idempotency memory_keys memory_keys ℕ 9000 9001 put
      (uuid 7)
      created
      (idempotency memory_keys memory_keys ℕ 0 10 post (uuid 7) created idle).1).1.app
    ≡ 41
unfolding idempotency
once_test = refl

idempotency_once_example :
    ((idempotency memory_keys memory_keys ℕ 0 10 post (uuid 7) created idle).0 ≡ (created 40).0)
    × ((idempotency memory_keys memory_keys ℕ 0 10 post (uuid 7) created idle).1.app ≡ 41)
    × (idempotency memory_keys memory_keys ℕ 9000 9001 put
          (uuid 7)
          refused
          (idempotency memory_keys memory_keys ℕ 0 10 post (uuid 7) created idle).1
        ≡ (
          replayed (to_cache (created 40).0),
          (idempotency memory_keys memory_keys ℕ 0 10 post (uuid 7) created idle).1,
        ))
unfolding idempotency
idempotency_once_example =
    idempotency_once memory_keys memory_keys ℕ 0 10 9000 9001 7 post put created refused idle
      (refl, refl, refl, refl) refl refl refl (omega arith) refl
