-- ===== src/Recovery/Laws.antt =====
-- What a recovery leaves behind (backend/src/services/auth/recovery.service.ts, `executeRecovery`).
use zk_auth.Prelude.{
  ℕ, ◌≡◌, refl, sym, subst, ◌⊎◌, inl, inr, Bool, true, false, Option, none, some, arith,
  if◌then◌else◌, Bool-cases,
}
use zk_auth.Errors.{Error, unauthorized_401, other_error, validation}
use zk_auth.Effects.{Outcome, ok, err, >>=-split, >>=-ask, ◌>>=◌}
use zk_auth.Stores.{Table, find_first, first_of_keys, find_first_lem}
use zk_auth.Schema.{Backends, RecoveryCodeRow, UserRow}
use zk_auth.World.{World, in_recovery_codes, transaction}
use zk_auth.Zkp.{ZkpEnv, by_commitment, is_valid_field_element}
use zk_auth.Recovery.{
  Argon2, RecoveryEnv, UserIdentifier, user_id, commitment_hash, RecoveryExecutionInput,
  RecoveryExecutionResult, Token, in_use, is_open_of, recovery_token_of, taken_by_other,
  replace_account, replace_free, replace_checked, check_mnemonic, found_user, resolve_user,
  find_commitment, execute_recovery,
}
use zk_auth.Recovery.Codes.{code}
use zk_auth.Recovery.Replace.{user_row, Replaced, Replacing, replace-Replacing}

module _ (B : Backends) (env : RecoveryEnv) where
  abbrev pub holder : World B → ℕ → Option (ℕ × UserRow)
  holder w hash =
      first_of_keys B.user_rows
        (Table.find_keys B.user_rows (by_commitment B env.zkp hash) w.user_rows) w.user_rows

  abbrev pub Identified : UserIdentifier → World B → ℕ → Type 0
  Identified (user_id user) w id = id ≡ user
  Identified (commitment_hash hash) w id =
      (row : UserRow) × (user_row B w id ≡ some row) × (row.commitment_hash ≡ hash)

  -- What stands behind a recovery, and what it does to the code, session and user `x`.
  pub record Recovered (now : ℕ) (input : RecoveryExecutionInput) (w w' : World B)
      (result : RecoveryExecutionResult (Token B env)) (t x : ℕ) : Type 0 where
    pub id : ℕ
    pub row : RecoveryCodeRow
    pub identified : Identified input.user_identifier w result.user_id
    pub found : code B w id ≡ some row
    pub is_open : is_open_of result.user_id id row ≡ true
    pub proved : Argon2.verify env.argon2 row.code_hash input.mnemonic ≡ some true
    pub well_formed : is_valid_field_element input.new_commitment_hash ≡ true
    pub free :
        taken_by_other result.user_id (holder w (ZkpEnv.name env.zkp input.new_commitment_hash))
        ≡ false
    pub token : result.recovery_token ≡ recovery_token_of B env now result.user_id
    pub replaced :
        Replaced B now result.user_id row.code_hash
          (ZkpEnv.name env.zkp input.new_commitment_hash)
          input.new_public_key
          w
          w'
          t
          x

  abbrev pub Refusal : Error → Type 0
  Refusal e = (e ≡ unauthorized_401) ⊎ (e ≡ validation) ⊎ (e ≡ in_use) ⊎ (e ≡ other_error)

  abbrev pub RecoveryOutcome :
      ℕ
      → RecoveryExecutionInput
      → World B
      → ℕ
      → ℕ
      → Outcome (World B) (RecoveryExecutionResult (Token B env))
      → Type 0
  RecoveryOutcome now input w t x (ok result w') = Recovered now input w w' result t x
  RecoveryOutcome now input w t x (err e w') = (w' ≡ w) × Refusal e

  module _ (now : ℕ) (input : RecoveryExecutionInput) (w : World B) (t x user : ℕ)
      (known : Identified input.user_identifier w user) where
    abbrev commitment : ℕ
    commitment = ZkpEnv.name env.zkp input.new_commitment_hash

    replace_free_lem :
        (id : ℕ) (row : RecoveryCodeRow)
        → code B w id ≡ some row
        → is_open_of user id row ≡ true
        → Argon2.verify env.argon2 row.code_hash input.mnemonic ≡ some true
        → is_valid_field_element input.new_commitment_hash ≡ true
        → RecoveryOutcome now input w t x
            (replace_free B env now input user row.code_hash (holder w commitment) w)
    unfolding replace_free
    replace_free_lem id row found is_open proved well_formed =
        elim (Bool-cases (taken_by_other user (holder w commitment))) [
          | inl taken ↦ rw taken (refl, inr (inr (inl refl)))
          | inr free ↦
              let facts =
                replace-Replacing B env now user row.code_hash commitment input.new_public_key w t
                  x in
              rw free (
                >>=-split (RecoveryOutcome now input w t x)
                  (transaction
                    (replace_account B env now user row.code_hash commitment input.new_public_key))
                  _ w
                  (λ _ v e. record {
                    id = id;
                    row = row;
                    identified = known;
                    found = found;
                    is_open = is_open;
                    proved = proved;
                    well_formed = well_formed;
                    free = free;
                    token = refl;
                    replaced = rw e at facts;
                  })
                  (λ y v e.
                    let failed : Replacing B now user row.code_hash commitment input.new_public_key
                        w t x (err y v) =
                      rw e at facts in
                    (failed.0, inr (inr (inr failed.1)))))
        ]

    find_answers :
        (hash : ℕ)
        → find_commitment B env hash w
          ≡ (if Table.down B.user_rows w.user_rows then err other_error w else ok (holder w hash) w)
    unfolding find_commitment
    find_answers hash = ground arith

    replace_checked_lem :
        (id : ℕ) (row : RecoveryCodeRow)
        → code B w id ≡ some row
        → is_open_of user id row ≡ true
        → Argon2.verify env.argon2 row.code_hash input.mnemonic ≡ some true
        → RecoveryOutcome now input w t x (replace_checked B env now input user row.code_hash w)
    unfolding replace_checked
    replace_checked_lem id row found is_open proved =
        elim (Bool-cases (is_valid_field_element input.new_commitment_hash)) [
          | inr bad ↦ rw bad (refl, inr (inl refl))
          | inl good ↦ rw good (
              >>=-ask (RecoveryOutcome now input w t x) (find_commitment B env commitment)
                (replace_free B env now input user row.code_hash) w
                (Table.down B.user_rows w.user_rows) (holder w commitment) other_error
                (find_answers commitment) (refl, inr (inr (inr refl)))
                (replace_free_lem id row found is_open proved good))
        ]

    proved_lem :
        (id : ℕ) (row : RecoveryCodeRow) (verdict : Option Bool)
        → Argon2.verify env.argon2 row.code_hash input.mnemonic ≡ verdict
        → code B w id ≡ some row
        → is_open_of user id row ≡ true
        → RecoveryOutcome now input w t x (check_mnemonic B env now input user (some (id, row)) w)
    unfolding check_mnemonic
    proved_lem id row none v found is_open =
        let answer : check_mnemonic B env now input user (some (id, row)) w
            ≡ err unauthorized_401 w =
          ground (arith, v) in
        subst (RecoveryOutcome now input w t x) (sym answer) (refl, inl refl)
    proved_lem id row (some false) v found is_open =
        let answer : check_mnemonic B env now input user (some (id, row)) w
            ≡ err unauthorized_401 w =
          ground (arith, v) in
        subst (RecoveryOutcome now input w t x) (sym answer) (refl, inl refl)
    proved_lem id row (some true) v found is_open =
        let answer : check_mnemonic B env now input user (some (id, row)) w
            ≡ replace_checked B env now input user row.code_hash w =
          ground (arith, v) in
        subst (RecoveryOutcome now input w t x) (sym answer)
          (replace_checked_lem id row found is_open v)

    abbrev open_of : Option (ℕ × RecoveryCodeRow)
    open_of =
        first_of_keys B.recovery_codes
          (Table.find_keys B.recovery_codes (is_open_of user) w.recovery_codes) w.recovery_codes

    check_lem :
        (held : Option (ℕ × RecoveryCodeRow))
        → open_of ≡ held
        → RecoveryOutcome now input w t x (check_mnemonic B env now input user held w)
    unfolding check_mnemonic
    check_lem none h = (refl, inl refl)
    check_lem (some (id, row)) h =
        let (found, is_open) =
          find_first_lem B.recovery_codes (is_open_of user) w.recovery_codes id row h in
        proved_lem id row _ refl found is_open

    code_step : RecoveryOutcome now input w t x (
        (in_recovery_codes (find_first B.recovery_codes (is_open_of user))
            >>= check_mnemonic B env now input user)
          w)
    code_step =
        >>=-ask (RecoveryOutcome now input w t x)
          (in_recovery_codes (find_first B.recovery_codes (is_open_of user)))
          (check_mnemonic B env now input user) w (Table.down B.recovery_codes w.recovery_codes)
          open_of other_error (ground arith) (refl, inr (inr (inr refl))) (check_lem open_of refl)

  abbrev Resolved : UserIdentifier → World B → Outcome (World B) ℕ → Type 0
  Resolved who w (ok user w') = (w' ≡ w) × Identified who w user
  Resolved who w (err e w') = (w' ≡ w) × Refusal e

  found_user_lem :
      (hash : ℕ) (w : World B) (held : Option (ℕ × UserRow))
      → holder w hash ≡ held
      → Resolved (commitment_hash hash) w (found_user B env held w)
  unfolding found_user
  found_user_lem hash w none h = (refl, inl refl)
  found_user_lem hash w (some (id, row)) h =
      let (found, named) =
        find_first_lem B.user_rows (by_commitment B env.zkp hash) w.user_rows id row h in
      (refl, (row, found, ground (arith, named)))

  resolve-Resolved :
      (who : UserIdentifier) (w : World B) → Resolved who w (resolve_user B env who w)
  unfolding resolve_user find_commitment
  resolve-Resolved (user_id user) w = (refl, refl)
  resolve-Resolved (commitment_hash hash) w =
      >>=-ask (Resolved (commitment_hash hash) w) (find_commitment B env hash) (found_user B env) w
        (Table.down B.user_rows w.user_rows) (holder w hash) other_error (ground arith)
        (refl, inr (inr (inr refl))) (found_user_lem hash w (holder w hash) refl)

  -- A recovery succeeds only with a mnemonic that Argon2 verifies against an unused code of the user
  -- that was not superseded, and for a commitment in decimal that no other account holds. Then every
  -- code of the user with that hash that is unused and not superseded is used, every session of the
  -- user is revoked, and those that were not revoked before are out of Redis if Redis answers (one
  -- that was revoked and is still cached stays cached). The account holds the new commitment and key
  -- and waits in PENDING_VERIFY, and no other code, session or account changes. Every failure changes
  -- nothing, and is UNAUTHORIZED, VALIDATION_ERROR, COMMITMENT_ALREADY_REGISTERED or that of the
  -- database.
  pub recover-RecoveryOutcome :
      (now : ℕ) (input : RecoveryExecutionInput) (w : World B) (t x : ℕ)
      → RecoveryOutcome now input w t x (execute_recovery B env now input w)
  unfolding execute_recovery
  recover-RecoveryOutcome now input w t x =
      let facts = resolve-Resolved input.user_identifier w in
      >>=-split (RecoveryOutcome now input w t x) (resolve_user B env input.user_identifier) _ w
        (λ user v e.
          let (same, known) : Resolved input.user_identifier w (ok user v) = rw e at facts in
          rw same (code_step now input w t x user known))
        (λ y v e. rw e at facts)
