-- ===== src/Fixtures/Accounts.antt =====
-- Accounts, proofs and clients over the stores in memory, for the tests of logins, authorization codes
-- and recoveries.
use zk_auth.Prelude.{ℕ, ◌≡◌, true, false, Option, none, some, List, [], ◌∷◌, ◌==◌, arith}
use zk_auth.Schema.{UserRow, active, OAuthClientRow, s256}
use zk_auth.Effects.{final}
use zk_auth.Text.{Text, decimal}
use zk_auth.World.{World}
use zk_auth.Fixtures.{memory, empty, env, device, Sealed}
use zk_auth.Session.{Draw}
use zk_auth.Challenge
use zk_auth.Zkp.{Proof, ZkpEnv, items, groth16_protocol, bn128}
use zk_auth.OAuth.{default_scope}
use zk_auth.Login.{LoginEnv, Drawn, VerifyBody, VerifyRequest, OAuthContext}
use zk_auth.Recovery.{Argon2, RecoveryEnv}

-- Every proof is accepted under the loaded key.
abbrev pub zkp_env : ZkpEnv
zkp_env = record {
  dev_skip = false;
  v_key = some 1;
  groth16_verify = λ key signals proof. some true;
  name = decimal;
}

abbrev pub login_env : LoginEnv
login_env = record {
  session = env;
  zkp = zkp_env;
  sha256 = λ secret. secret;
  challenge_ttl_s = 120;
  lock_ttl_s = 30;
}

-- The hash of a mnemonic is the mnemonic.
pub verify_same :
    (mnemonic salt code_hash : ℕ)
    → some mnemonic ≡ some code_hash
    → some (code_hash == mnemonic) ≡ some true
verify_same mnemonic salt code_hash h = ground arith

abbrev pub plain : Argon2
plain = record {
  hash = λ mnemonic salt. some mnemonic;
  verify = λ code_hash mnemonic. some (code_hash == mnemonic);
  verify-hash = verify_same;
}

abbrev pub recovery_env : RecoveryEnv
recovery_env = record { session = env; zkp = zkp_env; argon2 = plain }

abbrev pub triple : List ℕ
triple = 1 ∷ 1 ∷ 1 ∷ []

abbrev pub proof : Proof
proof = record {
  pi_a = some (items triple);
  pi_b = some (items (items (1 ∷ 1 ∷ []) ∷ items (1 ∷ 1 ∷ []) ∷ items (1 ∷ 1 ∷ []) ∷ []));
  pi_c = some (items triple);
  protocol = some groth16_protocol;
  curve = some bn128;
}

-- The digits of 5, 7, 8 and 9.
abbrev pub five : Text
five = 53 ∷ []

abbrev pub seven : Text
seven = 55 ∷ []

abbrev pub eight : Text
eight = 56 ∷ []

abbrev pub nine : Text
nine = 57 ∷ []

-- User 1 holds the commitment 5, and the client 40 with the public id 4 the redirect URI 3.
abbrev pub user : UserRow
user = record { commitment_hash = 5; public_key = 0; status = active; last_login_at = none }

abbrev pub client : OAuthClientRow
client = record {
  client_id = 4;
  client_secret_hash = some 77;
  redirect_uris = 3 ∷ [];
  scopes = (111 ∷ 112 ∷ 101 ∷ 110 ∷ 105 ∷ 100 ∷ []) ∷ [];
  is_active = true;
}

abbrev pub accounts : World memory
accounts = record empty {
  user_rows = record { rows = (1, user) ∷ []; is_down = false };
  oauth_clients = record { rows = (40, client) ∷ []; is_down = false };
}

-- The challenge 20 with the nonce 9 is issued at time 0.
abbrev pub challenged : World memory
challenged = final (Challenge.issue memory 120 0 20 9 none accounts)

abbrev pub context : OAuthContext
context = record {
  client_id = 4;
  redirect_uri = 3;
  scope = default_scope;
  state = none;
  code_challenge = some 66;
  code_challenge_method = some s256;
}

abbrev pub body : Text → Option OAuthContext → VerifyBody
body nullifier oauth_context = record {
  challenge_id = 20;
  proof = proof;
  nullifier = nullifier;
  commitment = five;
  nonce_signal = nine;
  oauth_context = oauth_context;
}

abbrev pub request : Text → Option OAuthContext → VerifyRequest Sealed
request nullifier oauth_context = record {
  body = body nullifier oauth_context;
  recovery_token = none;
  device = device;
}

abbrev pub session_draw : ℕ → Draw
session_draw n = record { session_id = n; refresh_jti = n }

abbrev pub drawn : ℕ → ℕ → Drawn
drawn n code = record { session = session_draw n; code = code }
