-- ===== src/Fixtures.antt =====
-- Stores in memory, tokens in the clear and small states for the tests.
pub mod Accounts
use zk_auth.Prelude.{
  ℕ, ◌+◌, ◌*◌, ◌≡◌, refl, ◌≢◌, Bool, true, false, none, [], arith, ltb, if◌then◌else◌,
}
use zk_auth.Schema.{Backends, Device}
use zk_auth.Stores.Memory.{memory_keys, memory_set, memory_table, memory_journal}
use zk_auth.World.{World}
use zk_auth.Tokens.{
  Key, access_key, refresh_key, Claims, Verdict, valid, token_expired_error, other_failure, Jwt,
}
use zk_auth.Session.{Env}
use zk_auth.Risk.{RiskEnv}

abbrev pub memory : Backends
memory = record {
  challenges = memory_keys;
  session_cache = memory_keys;
  step_ups = memory_keys;
  nullifier_locks = memory_keys;
  nullifiers = memory_set;
  challenge_rows = memory_table;
  nullifier_rows = memory_table;
  session_rows = memory_table;
  user_rows = memory_table;
  recovery_codes = memory_table;
  oauth_clients = memory_table;
  oauth_codes = memory_table;
  risk_scores = memory_journal;
}

abbrev pub empty : World memory
empty = record {
  challenges = record { cell = λ _. none; is_down = false };
  session_cache = record { cell = λ _. none; is_down = false };
  step_ups = record { cell = λ _. none; is_down = false };
  nullifier_locks = record { cell = λ _. none; is_down = false };
  nullifiers = record { member = λ _. false; is_down = false };
  challenge_rows = record { rows = []; is_down = false };
  nullifier_rows = record { rows = []; is_down = false };
  session_rows = record { rows = []; is_down = false };
  user_rows = record { rows = []; is_down = false };
  recovery_codes = record { rows = []; is_down = false };
  oauth_clients = record { rows = []; is_down = false };
  oauth_codes = record { rows = []; is_down = false };
  risk_scores = record { entries = []; is_down = false };
  outbox = [];
}

abbrev pub device : Device
device = record { fingerprint = none; ip_address = none; label = none; user_agent = none }

-- A token in the clear.
pub record Sealed : Type 0 where
  pub key : Key
  pub expires : ℕ
  pub claims : Claims

abbrev same_key : Key → Key → Bool
same_key access_key access_key = true
same_key refresh_key refresh_key = true
same_key _ _ = false

abbrev pub open_sealed : Key → ℕ → Sealed → Verdict
open_sealed k now t =
    if same_key k t.key
    then (if ltb now t.expires then valid t.claims else token_expired_error)
    else other_failure

abbrev pub seal : Key → ℕ → ℕ → Claims → Sealed
seal k seconds iat c = record { key = k; expires = iat + seconds * 1000; claims = c }

pub open-seal :
    (k : Key) (seconds iat now : ℕ) (c : Claims)
    → open_sealed k now (seal k seconds iat c)
      ≡ (if ltb now (iat + seconds * 1000) then valid c else token_expired_error)
open-seal access_key seconds iat now c = refl
open-seal refresh_key seconds iat now c = refl

pub open-seal_ne :
    (k l : Key) (seconds iat now : ℕ) (c : Claims)
    → k ≢ l
    → open_sealed k now (seal l seconds iat c) ≡ other_failure
open-seal_ne access_key access_key seconds iat now c h = absurd (h refl)
open-seal_ne access_key refresh_key seconds iat now c h = refl
open-seal_ne refresh_key access_key seconds iat now c h = refl
open-seal_ne refresh_key refresh_key seconds iat now c h = absurd (h refl)

pub open_fixed :
    (k : Key) (t u : ℕ) (token : Sealed) (a b : Claims)
    → open_sealed k t token ≡ valid a
    → open_sealed k u token ≡ valid b
    → a ≡ b
open_fixed k t u token a b h l = ground arith

abbrev pub clear : Jwt
clear = record {
  Token = Sealed;
  sign = seal;
  verify = open_sealed;
  verify-sign = open-seal;
  verify-sign_ne = open-seal_ne;
  verify_fixed = open_fixed;
}

-- 15 minutes and 7 days; the hash of a token is the time at which it expires.
abbrev pub env : Env
env = record { jwt = clear; sha256 = λ t. t.expires; access_ttl_s = 900; refresh_ttl_s = 604800 }

-- Thresholds 0.75 and 0.90 in hundredths, and 300 seconds.
abbrev pub risk_env : RiskEnv
risk_env = record { soft_threshold = 75; hard_threshold = 90; step_up_ttl_s = 300 }
