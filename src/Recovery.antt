-- ===== src/Recovery.antt =====
-- Registration and lost-key recovery: backend/src/services/auth/recovery.service.ts, the stored
-- procedure of backend/prisma/migrations/phase8_recovery_devices.sql, and `postRegister` and
-- `postRecover` of backend/src/controllers/auth.controller.ts, with the bodies that their schemas have
-- parsed. Argon2 is a parameter; identifiers, mnemonics and salts that are drawn are arguments. A
-- commitment that is updated is known not to be in use, so the update does not meet the unique index.
pub mod Codes
pub mod Replace
pub mod Laws
pub mod Account
pub mod Registration
mod Examples
use zk_auth.Prelude.{
  ℕ, ◌≡◌, Bool, true, false, not, ◌&&◌, Option, none, some, List, ◌==◌, if◌then◌else◌, is_some,
}
use zk_auth.Errors.{
  Error, app_error, commitment_already_registered, validation, unauthorized_401, other_error,
}
use zk_auth.Effects.{M, ◌>>=◌, ◌>>◌, return, throw, try_catch, best_effort}
use zk_auth.Text.{Text}
use zk_auth.Stores.{find_first, find_many, create, update, update_many, del_all}
use zk_auth.Schema.{Backends, RecoveryCodeRow, SessionRow, UserRow, active, pending_verify, low}
use zk_auth.World.{
  World, in_user_rows, in_recovery_codes, in_session_rows, in_session_cache, in_step_ups,
  transaction,
}
use zk_auth.Tokens.{Jwt, Claims, recovery, access_key}
use zk_auth.Session.{Env, is_active_of, revoke_row}
use zk_auth.Zkp.{ZkpEnv, by_commitment, is_valid_field_element}

-- `hash mnemonic salt` gives the encoded hash, and `verify code_hash mnemonic` tests it; both may
-- throw. The package documents that a mnemonic verifies against its own hash.
pub record Argon2 : Type 0 where
  pub hash : ℕ → ℕ → Option ℕ
  pub verify : ℕ → ℕ → Option Bool
  pub verify-hash :
      (mnemonic salt code_hash : ℕ)
      → hash mnemonic salt ≡ some code_hash
      → verify code_hash mnemonic ≡ some true

pub record RecoveryEnv : Type 1 where
  pub session : Env
  pub zkp : ZkpEnv
  pub argon2 : Argon2

pub data UserIdentifier : Type 0 where
  user_id commitment_hash : ℕ → UserIdentifier

pub record RecoveryExecutionInput : Type 0 where
  pub user_identifier : UserIdentifier
  pub mnemonic : ℕ
  pub new_commitment_hash : Text
  pub new_public_key : ℕ

pub record RecoveryExecutionResult (Token : Type 0) : Type 0 where
  pub recovery_token : Token
  pub user_id : ℕ

pub record RecoveryGenerationResult : Type 0 where
  pub mnemonic : ℕ
  pub recovery_code_id : ℕ

-- The identifiers, the mnemonic and the salt that a registration draws.
pub record CodeDraw : Type 0 where
  pub id : ℕ
  pub mnemonic : ℕ
  pub salt : ℕ

pub record Registered : Type 0 where
  pub user_id : ℕ
  pub recovery_mnemonic : Option ℕ

abbrev pub recovery_ttl_s : ℕ
recovery_ttl_s = 900

abbrev pub in_use : Error
in_use = app_error commitment_already_registered 409

-- `userId, isUsed: false, supersededAt: null`
abbrev pub is_open_of : ℕ → ℕ → RecoveryCodeRow → Bool
is_open_of user _ row = row.user_id == user && (not row.is_used && not (is_some row.superseded_at))

abbrev pub supersede : ℕ → RecoveryCodeRow → RecoveryCodeRow
supersede now row = record row { superseded_at = some now }

abbrev pub is_burnt_by : ℕ → ℕ → ℕ → RecoveryCodeRow → Bool
is_burnt_by user code_hash id row = is_open_of user id row && row.code_hash == code_hash

abbrev pub burn : ℕ → RecoveryCodeRow → RecoveryCodeRow
burn now row = record row { is_used = true; used_at = some now }

abbrev pub is_session_of : ℕ → ℕ → SessionRow → Bool
is_session_of user _ row = row.user_id == user

abbrev pub replace_key : ℕ → ℕ → UserRow → UserRow
replace_key commitment public_key row = record row {
  commitment_hash = commitment;
  public_key = public_key;
  status = pending_verify;
}

abbrev pub recovery_claims : ℕ → Claims
recovery_claims user = record { sub = user; sid = 0; risk = low; jti = 0; type = recovery }

abbrev pub new_code : ℕ → ℕ → RecoveryCodeRow
new_code user code_hash = record {
  user_id = user;
  code_hash = code_hash;
  is_used = false;
  used_at = none;
  superseded_at = none;
}

abbrev pub new_user : ℕ → ℕ → UserRow
new_user commitment public_key = record {
  commitment_hash = commitment;
  public_key = public_key;
  status = active;
  last_login_at = none;
}

-- Whether the commitment belongs to another account.
abbrev pub taken_by_other : ℕ → Option (ℕ × UserRow) → Bool
taken_by_other user none = false
taken_by_other user (some (id, row)) = not (id == user)

module _ (B : Backends) (env : RecoveryEnv) where
  abbrev pub Token : Type 0
  Token = Jwt.Token (Env.jwt env.session)

  pub store_code : ℕ → CodeDraw → ℕ → ℕ → M (World B) (Unit {0})
  store_code now d user code_hash = do
    superseded ← in_recovery_codes (update_many B.recovery_codes (is_open_of user) (supersede now))
    in_recovery_codes (create B.recovery_codes d.id (new_code user code_hash))

  generate_hashed : ℕ → CodeDraw → ℕ → Option ℕ → M (World B) RecoveryGenerationResult
  unfolding store_code
  generate_hashed now d user none = throw other_error
  generate_hashed now d user (some code_hash) = do
    transaction (store_code now d user code_hash)
    return (record { mnemonic = d.mnemonic; recovery_code_id = d.id })

  unfoldable pub generate_for_user : ℕ → CodeDraw → ℕ → M (World B) RecoveryGenerationResult
  unfolding generate_hashed
  generate_for_user now d user =
      generate_hashed now d user (Argon2.hash env.argon2 d.mnemonic d.salt)

  -- The stored procedure; it replies whether it has burnt exactly one code.
  pub burn_recovery_code : ℕ → ℕ → ℕ → M (World B) Bool
  burn_recovery_code now user code_hash = do
    rows_updated ←
        in_recovery_codes (update_many B.recovery_codes (is_burnt_by user code_hash) (burn now))
    return (rows_updated == 1)

  -- The commands of a pipeline fail one by one, and `exec` does not throw.
  pub clear_caches : List ℕ → M (World B) (Unit {0})
  clear_caches ids = do
    best_effort (in_session_cache (del_all B.session_cache ids))
    best_effort (in_step_ups (del_all B.step_ups ids))

  -- The body of the transaction, which ignores the reply of the stored procedure.
  pub replace_account : ℕ → ℕ → ℕ → ℕ → ℕ → M (World B) (Unit {0})
  unfolding burn_recovery_code clear_caches
  replace_account now user code_hash commitment public_key = do
    burnt ← burn_recovery_code now user code_hash
    sessions ← in_session_rows (find_many B.session_rows (is_active_of user))
    count ← in_session_rows (update_many B.session_rows (is_session_of user) revoke_row)
    in_user_rows (update B.user_rows user (replace_key commitment public_key))
    clear_caches sessions

  -- A 15-minute token of type `recovery`, under the key of the access tokens.
  abbrev pub recovery_token_of : ℕ → ℕ → Token
  recovery_token_of now user =
      Jwt.sign (Env.jwt env.session) access_key recovery_ttl_s now (recovery_claims user)

  find_commitment : ℕ → M (World B) (Option (ℕ × UserRow))
  find_commitment hash = in_user_rows (find_first B.user_rows (by_commitment B env.zkp hash))

  replace_free :
      ℕ
      → RecoveryExecutionInput
      → ℕ
      → ℕ
      → Option (ℕ × UserRow)
      → M (World B) (RecoveryExecutionResult Token)
  unfolding replace_account
  replace_free now input user code_hash existing =
      if taken_by_other user existing then throw in_use else (do
        transaction (
            replace_account now user code_hash (ZkpEnv.name env.zkp input.new_commitment_hash)
              input.new_public_key)
        return (record { recovery_token = recovery_token_of now user; user_id = user }))

  replace_checked : ℕ → RecoveryExecutionInput → ℕ → ℕ → M (World B) (RecoveryExecutionResult Token)
  unfolding replace_free find_commitment
  replace_checked now input user code_hash =
      if is_valid_field_element input.new_commitment_hash
      then (do
        existing ← find_commitment (ZkpEnv.name env.zkp input.new_commitment_hash)
        replace_free now input user code_hash existing)
      else throw validation

  -- Whatever is wrong with the code or the mnemonic, the answer is the same.
  check_mnemonic :
      ℕ
      → RecoveryExecutionInput
      → ℕ
      → Option (ℕ × RecoveryCodeRow)
      → M (World B) (RecoveryExecutionResult Token)
  unfolding replace_checked
  check_mnemonic now input user none = throw unauthorized_401
  check_mnemonic now input user (some (id, row)) =
      elim (Argon2.verify env.argon2 row.code_hash input.mnemonic) [
        | none ↦ throw unauthorized_401
        | some false ↦ throw unauthorized_401
        | some true ↦ replace_checked now input user row.code_hash
      ]

  found_user : Option (ℕ × UserRow) → M (World B) ℕ
  found_user none = throw unauthorized_401
  found_user (some (id, row)) = return id

  pub resolve_user : UserIdentifier → M (World B) ℕ
  unfolding found_user find_commitment
  resolve_user (user_id user) = return user
  resolve_user (commitment_hash hash) = do user ← find_commitment hash; found_user user

  unfoldable pub execute_recovery :
      ℕ → RecoveryExecutionInput → M (World B) (RecoveryExecutionResult Token)
  unfolding resolve_user check_mnemonic
  execute_recovery now input = do
    user ← resolve_user input.user_identifier
    code ← in_recovery_codes (find_first B.recovery_codes (is_open_of user))
    check_mnemonic now input user code

  register_new : ℕ → ℕ → CodeDraw → ℕ → ℕ → Option (ℕ × UserRow) → M (World B) Registered
  unfolding generate_for_user
  register_new now user d commitment public_key (some existing) = throw in_use
  register_new now user d commitment public_key none = do
    transaction (in_user_rows (create B.user_rows user (new_user commitment public_key)))
    mnemonic ←
        try_catch (generate_for_user now d user >>= λ g. return (some g.mnemonic)) λ _. return none
    return (record { user_id = user; recovery_mnemonic = mnemonic })

  unfoldable pub post_register : ℕ → ℕ → CodeDraw → ℕ → ℕ → M (World B) Registered
  unfolding register_new find_commitment
  post_register now user d commitment public_key = do
    existing ← find_commitment commitment
    register_new now user d commitment public_key existing

  pub post_recover : ℕ → RecoveryExecutionInput → M (World B) (RecoveryExecutionResult Token)
  unfolding execute_recovery
  post_recover now input = execute_recovery now input
