-- ===== src/Recovery/Codes.antt =====
-- The recovery codes of a user (backend/src/services/auth/recovery.service.ts, `generateForUser`).
use zk_auth.Prelude.{
  ℕ, ◌≡◌, refl, Bool, false, Option, none, some, arith, ◌==◌, ==_refl, if◌then◌else◌,
}
use zk_auth.Effects.{Outcome, ok, err, >>=-split}
use zk_auth.Stores.{Table}
use zk_auth.Schema.{Backends, RecoveryCodeRow}
use zk_auth.World.{World, transaction, transaction-split, rolled_back}
use zk_auth.Recovery.{
  Argon2, RecoveryEnv, RecoveryGenerationResult, CodeDraw, is_open_of, supersede, new_code,
  store_code, generate_hashed, generate_for_user,
}

module _ (B : Backends) where
  abbrev pub code : World B → ℕ → Option RecoveryCodeRow
  code w id = Table.row B.recovery_codes w.recovery_codes id

  -- Whether the row is an unused code of the user that is not superseded.
  abbrev pub open_code : ℕ → Option RecoveryCodeRow → Bool
  open_code user none = false
  open_code user (some row) = is_open_of user 0 row

  abbrev pub superseded_if : ℕ → Bool → Option RecoveryCodeRow → Option RecoveryCodeRow
  superseded_if now b none = none
  superseded_if now b (some row) = some (if b then supersede now row else row)

module _ (B : Backends) (env : RecoveryEnv) where
  -- What a generation does to a code `x`.
  abbrev pub Generated :
      ℕ → CodeDraw → ℕ → World B → ℕ → Outcome (World B) RecoveryGenerationResult → Type 0
  Generated now d user w x (ok g w') =
      (g ≡ record { mnemonic = d.mnemonic; recovery_code_id = d.id })
      × (h : ℕ) × (Argon2.hash env.argon2 d.mnemonic d.salt ≡ some h)
      × (code B w' x ≡ (
          if d.id == x
          then some (new_code user h)
          else superseded_if B now (open_code B user (code B w x)) (code B w x)))
      × (open_code B user (code B w' x) ≡ (d.id == x))
      × (w'.user_rows ≡ w.user_rows)
  Generated now d user w x (err e w') = w' ≡ w

  abbrev Stored : ℕ → CodeDraw → ℕ → ℕ → World B → ℕ → Outcome (World B) (Unit {0}) → Type 0
  Stored now d user h w x (ok _ w') =
      (code B w' x ≡ (
        if d.id == x
        then some (new_code user h)
        else superseded_if B now (open_code B user (code B w x)) (code B w x)))
      × (w'.user_rows ≡ w.user_rows)
  Stored now d user h w x (err e w') = rolled_back w w' ≡ w

  store_code-Stored :
      (now : ℕ) (d : CodeDraw) (user h : ℕ) (w : World B) (x : ℕ)
      → Stored now d user h w x (store_code B env now d user h w)
  unfolding store_code
  store_code-Stored now d user h w x =
      let s = Table.write_all B.recovery_codes (is_open_of user) (supersede now) w.recovery_codes in
      ground (
        arith,
        Table.row-write_all B.recovery_codes (is_open_of user) (supersede now) w.recovery_codes x,
        Table.row-write B.recovery_codes d.id (new_code user h) s x,
      )

  abbrev Committed : ℕ → CodeDraw → ℕ → ℕ → World B → ℕ → Outcome (World B) (Unit {0}) → Type 0
  Committed now d user h w x (ok a w') = Stored now d user h w x (ok a w')
  Committed now d user h w x (err e w') = w' ≡ w

  store_code-Committed :
      (now : ℕ) (d : CodeDraw) (user h : ℕ) (w : World B) (x : ℕ)
      → Committed now d user h w x (transaction (store_code B env now d user h) w)
  store_code-Committed now d user h w x =
      let facts = store_code-Stored now d user h w x in
      transaction-split (Committed now d user h w x) (store_code B env now d user h) w
        (λ _ v s. rw s at facts) (λ y v s. rw s at facts)

  superseded_lem :
      (now user : ℕ) (row : Option RecoveryCodeRow)
      → open_code B user (superseded_if B now (open_code B user row) row) ≡ false
  superseded_lem now user none = refl
  superseded_lem now user (some row) = ground arith

  only_open :
      (now user h x id : ℕ) (row : Option RecoveryCodeRow)
      → open_code B user (
          if id == x
          then some (new_code user h)
          else superseded_if B now (open_code B user row) row)
        ≡ (id == x)
  only_open now user h x id row = ground (arith, superseded_lem now user row, ==_refl user)

  stored_lem :
      (now : ℕ) (d : CodeDraw) (user h : ℕ) (w : World B) (x : ℕ)
      → Argon2.hash env.argon2 d.mnemonic d.salt ≡ some h
      → Generated now d user w x (generate_hashed B env now d user (some h) w)
  unfolding generate_hashed
  stored_lem now d user h w x e =
      >>=-split (Generated now d user w x) (transaction (store_code B env now d user h)) _ w
        (λ _ v s.
          let (row, users) : Committed now d user h w x (ok tt v) =
            rw s at (store_code-Committed now d user h w x) in
          let only : open_code B user (code B v x) ≡ (d.id == x) =
            rw row (only_open now user h x d.id (code B w x)) in
          (refl, h, e, row, only, users))
        (λ y v s.
          let same : Committed now d user h w x (err y v) =
            rw s at (store_code-Committed now d user h w x) in
          same)

  hashed_lem :
      (now : ℕ) (d : CodeDraw) (user : ℕ) (w : World B) (x : ℕ) (h : Option ℕ)
      → Argon2.hash env.argon2 d.mnemonic d.salt ≡ h
      → Generated now d user w x (generate_hashed B env now d user h w)
  unfolding generate_hashed
  hashed_lem now d user w x none e = refl
  hashed_lem now d user w x (some h) e = stored_lem now d user h w x e

  -- A generation stores a code of the user with the hash of its mnemonic and supersedes the others
  -- that were unused, so that it is afterwards the user's only open code; one that fails changes
  -- nothing.
  pub generate-Generated :
      (now : ℕ) (d : CodeDraw) (user : ℕ) (w : World B) (x : ℕ)
      → Generated now d user w x (generate_for_user B env now d user w)
  unfolding generate_for_user
  generate-Generated now d user w x = hashed_lem now d user w x _ refl
