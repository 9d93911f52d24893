-- ===== src/Lib.antt =====
-- ZK-Auth: the core of the authentication backend, modelled and verified.
--
-- The backend signs a user in with a zero-knowledge proof. It issues a challenge, checks the proof,
-- spends the proof's nullifier, consumes the challenge and issues a session, a pair of JWTs that is
-- rotated and revoked. While the session lives, an ML service sends risk scores; a high score asks for
-- a step-up and closes a gate before the protected routes. Relying parties log users in over OAuth, a
-- lost key is replaced with a recovery mnemonic, and verifiers ask a user for claims. Credentials are
-- Merkle trees of salted attribute hashes.
--
-- The state is kept in Redis and PostgreSQL. Both are parameters: `Stores` states what the code relies
-- on as interfaces (Keyspace for string keys with expiry, MemberSet for a set, Table for rows with a
-- primary key and unique columns, Journal for rows that are only inserted), `Schema` gives the values
-- in them, and `World` is the state of all of them at one moment. Any store may fail at any command,
-- and may start or stop failing after one. `Stores.Memory` is an instance in memory, which the tests
-- run on. An async function is a function from the state to an `Outcome`, which is a value or a thrown
-- error, with the state reached (`Effects`). Redis commands and SQL statements are atomic. Where runs
-- interleave (in `Breaker` and the modules named Race), a run is cut into its commands and the
-- commands of different runs come in an order that the theorem states.
--
-- The files and the code they are about, under backend/src unless another path is given:
--   Errors          utils/errors.ts (ErrorCode, AppError and its subclasses) and
--                   middleware/errorHandler.middleware.ts (`respond`)
--   Schema          backend/prisma/schema.prisma, and the JSON values of the Redis keys
--   Breaker         grpc/circuitBreaker.ts: `call` is `admit` (the guards), then the wrapped function,
--                   then `settle` (success or failure, and the finally block)
--   Nullifier       services/zkp/nullifier.service.ts: `register` is `take_lock`,
--                   `two_phase_register` (`gate`, then `insert_row` with `rollback_redis`) and
--                   `release_lock`
--   Challenge       services/zkp/challenge.service.ts: `issue`, `fetch`, `consume`
--   Tokens          jsonwebtoken as an interface: what is signed with a key verifies with it until it
--                   expires, and not with the other key
--   Session         services/session/session.service.ts: `issue`, `rotate`, `revoke_session`,
--                   `revoke_all_for_user`, `verify_access_token`
--   Risk            services/session/risk.service.ts (`process_score`, `resolve_step_up`) and
--                   middleware/riskGate.middleware.ts (`risk_gate`)
--   Merkle          services/credential/merkle.service.ts: `build_tree`, `generate_proof`,
--                   `verify_proof`
--   RateLimit       middleware/rateLimit.middleware.ts: `rate_limit` for one endpoint
--   Login           controllers/auth.controller.ts: `post_challenge`, `post_verify` (`fetch`, `exists`,
--                   `check_proof`, then `admit`), `post_refresh`, `post_logout`
--   Zkp             services/zkp/zkp.service.ts: `verify` around snarkjs, and the padding of the time
--   OAuth           services/oauth/oauth.service.ts (`validate_authorize_request`,
--                   `issue_authorization_code`, `exchange_code_for_token`) and
--                   controllers/oauth.controller.ts (`get_authorize`, `post_token`)
--   Recovery        services/auth/recovery.service.ts (`generate_for_user`, `execute_recovery`), the
--                   stored procedure of the codes, and the handlers `post_register` and `post_recover`
--   Devices         controllers/session.controller.ts: step-ups, the state of a session, devices
--   VerifyRequests  controllers/verifyRequest.controller.ts (`post_send`, `get_pending`,
--                   `post_approve`, `post_reject`) and services/verifyRequest/notifier.service.ts
--   Credentials     services/credential/credential.service.ts (`issue_credential`, `get_credential`,
--                   `revoke_credential`), disclosure.service.ts beside it (`verify_claim`) and
--                   controllers/credential.controller.ts
--   Gateway         websocket/wsServer.ts (`upgrade`, `on_close`, `on_error`, `push_to_session`),
--                   websocket/telemetryHandler.ts (`on_frame`) and grpc/behaviorClient.ts
--                   (`open_stream`, `write_stream`, `on_drain`, `close_stream`)
--   Presentations   controllers/ecosystem/verifier.controller.ts: `post_request_proof`,
--                   `post_verify_presentation`
--   ApiClient       web/src/lib/api.ts: `api_fetch` with its retry, on fuel, of which two is enough
--                   unless a refresh is answered with 401
--   Idempotency     middleware/idempotency.middleware.ts: `idempotency` is `admit`, the handler and
--                   `intercept`
--   AuthGuard       middleware/auth.middleware.ts (`auth_middleware`, `optional_auth`,
--                   `extract_bearer_token`) and middleware/issuerRole.middleware.ts
--                   (`require_issuer_role`)
--   Telemetry       services/telemetry/telemetry.service.ts: `buffer_event`, `timer_fires`, `flush`; which
--                   rows the table takes is a parameter
--   IntentQueue     web/src/lib/intentQueue.ts: `enqueue`, `complete`, `fail`, `replay_pending`, with
--                   IndexedDB as a table
-- Fixtures holds the stores, tokens and settings that the Examples of each part run on.
--
-- Numbers: identifiers, hashes and texts that the code only compares are natural numbers that stand for
-- them, times are milliseconds, and risk scores are integers on the scale of the thresholds. What is
-- random or read from the clock (ids, nonces, the time) is an argument. Only `ApiClient` uses fuel: the
-- other loops recurse on a list, on the level of a tree or on an index that counts down.
--
-- Not modelled: HTTP routing, log output and message texts; the parsing of the settings and of request
-- bodies; snarkjs and Argon2, which are parameters; the HTTP upgrade, the pings and the shutdown of the
-- WebSocket server; the other controllers and services of the backend; the pages of the web client,
-- which are user interface, the mobile client, the ML service and the circuits.
pub mod Prelude
pub mod Errors
pub mod Effects
pub mod Stores
pub mod Schema
pub mod World
pub mod Nullifier
pub mod Challenge
pub mod Tokens
pub mod Session
pub mod Risk
pub mod Fixtures
pub mod Breaker
pub mod Merkle
pub mod RateLimit
pub mod Idempotency
pub mod Text
pub mod AuthGuard
pub mod IntentQueue
pub mod ApiClient
pub mod Login
pub mod Devices
pub mod Telemetry
pub mod Gateway
pub mod VerifyRequests
pub mod Credentials
pub mod Zkp
pub mod Presentations
pub mod OAuth
pub mod Recovery
