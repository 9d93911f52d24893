-- ===== src/Recovery/Registration.antt =====
-- What a registration leaves behind (backend/src/controllers/auth.controller.ts, `postRegister`).
use zk_auth.Prelude.{ℕ, ◌≡◌, refl, ◌⊎◌, inl, inr, Option, none, some, arith, ◌==◌, if◌then◌else◌}
use zk_auth.Errors.{other_error, unique_violation}
use zk_auth.Effects.{
  M, return, try_catch, Outcome, ok, err, >>=-split, try_catch-split, >>=-ask, ◌>>=◌,
}
use zk_auth.Stores.{Table, create}
use zk_auth.Schema.{Backends, UserRow}
use zk_auth.World.{World, in_user_rows, transaction}
use zk_auth.Recovery.{
  RecoveryEnv, CodeDraw, Registered, new_user, in_use, generate_for_user, post_register,
  register_new, find_commitment,
}
use zk_auth.Recovery.Codes.{code, open_code, Generated, generate-Generated}
use zk_auth.Recovery.Replace.{user_row}
use zk_auth.Recovery.Laws.{holder}

module _ (B : Backends) (env : RecoveryEnv) where
  abbrev pub Mnemonic : ℕ → CodeDraw → World B → World B → ℕ → Option ℕ → Type 0
  Mnemonic user d w w' x none = code B w' x ≡ code B w x
  Mnemonic user d w w' x (some m) =
      (m ≡ d.mnemonic) × (open_code B user (code B w' x) ≡ (d.id == x))

  -- What a registration does to the account and the code `x`.
  abbrev pub RegisterOutcome :
      ℕ → CodeDraw → ℕ → ℕ → World B → ℕ → Outcome (World B) Registered → Type 0
  RegisterOutcome user d commitment key w x (ok g w') =
      (g.user_id ≡ user)
      × (holder B env w commitment ≡ none)
      × (user_row B w user ≡ none)
      × (user_row B w' x ≡ (if user == x then some (new_user commitment key) else user_row B w x))
      × Mnemonic user d w w' x g.recovery_mnemonic
  RegisterOutcome user d commitment key w x (err e w') =
      (w' ≡ w) × ((e ≡ in_use) ⊎ (e ≡ unique_violation) ⊎ (e ≡ other_error))

  abbrev Created : ℕ → ℕ → ℕ → World B → ℕ → Outcome (World B) (Unit {0}) → Type 0
  Created user commitment key w x (ok _ w') =
      (user_row B w user ≡ none)
      × (user_row B w' x ≡ (if user == x then some (new_user commitment key) else user_row B w x))
      × (w'.recovery_codes ≡ w.recovery_codes)
  Created user commitment key w x (err e w') =
      (w' ≡ w) × ((e ≡ in_use) ⊎ (e ≡ unique_violation) ⊎ (e ≡ other_error))

  create-Created :
      (user commitment key : ℕ) (w : World B) (x : ℕ)
      → Created user commitment key w x
          (transaction (in_user_rows (create B.user_rows user (new_user commitment key))) w)
  create-Created user commitment key w x = ground (
    arith,
    Table.clash_sound B.user_rows w.user_rows user (new_user commitment key),
    Table.row-write B.user_rows user (new_user commitment key) w.user_rows x,
  )

  abbrev try_generate : ℕ → CodeDraw → ℕ → M (World B) (Option ℕ)
  try_generate now d user =
      try_catch (generate_for_user B env now d user >>= λ g. return (some g.mnemonic))
        λ _. return none

  abbrev Tried : ℕ → CodeDraw → World B → ℕ → Outcome (World B) (Option ℕ) → Type 0
  Tried user d w x (ok m w') = Mnemonic user d w w' x m × (w'.user_rows ≡ w.user_rows)
  Tried user d w x (err e w') = ⊥

  abbrev Attempted : ℕ → CodeDraw → World B → ℕ → Outcome (World B) (Option ℕ) → Type 0
  Attempted user d w x (ok m w') = Tried user d w x (ok m w')
  Attempted user d w x (err e w') = w' ≡ w

  generate-Attempted :
      (now user : ℕ) (d : CodeDraw) (w : World B) (x : ℕ)
      → Attempted user d w x
          ((generate_for_user B env now d user >>= λ g. return (some g.mnemonic)) w)
  generate-Attempted now user d w x =
      let facts = generate-Generated B env now d user w x in
      >>=-split (Attempted user d w x) (generate_for_user B env now d user) _ w
        (λ g v e.
          let (told, h, hashed, row, only, users) : Generated B env now d user w x (ok g v) =
            rw e at facts in
          ((ground (arith, told), only), users))
        (λ y v e. rw e at facts)

  generate-Tried :
      (now user : ℕ) (d : CodeDraw) (w : World B) (x : ℕ)
      → Tried user d w x (try_generate now d user w)
  generate-Tried now user d w x =
      let facts = generate-Attempted now user d w x in
      try_catch-split (Tried user d w x)
        (generate_for_user B env now d user >>= λ g. return (some g.mnemonic)) (λ _. return none) w
        (λ m v e. rw e at facts)
        (λ y v e.
          let same : Attempted user d w x (err y v) = rw e at facts in
          (ground (arith, same), ground (arith, same)))

  same_codes :
      (user : ℕ) (d : CodeDraw) (w v u : World B) (x : ℕ) (m : Option ℕ)
      → v.recovery_codes ≡ w.recovery_codes
      → Mnemonic user d v u x m
      → Mnemonic user d w u x m
  same_codes user d w v u x none e h = ground (arith, e, h)
  same_codes user d w v u x (some m) e h = h

  create_step :
      (now user : ℕ) (d : CodeDraw) (commitment key : ℕ) (w : World B) (x : ℕ)
      (existing : Option (ℕ × UserRow))
      → holder B env w commitment ≡ existing
      → RegisterOutcome user d commitment key w x
          (register_new B env now user d commitment key existing w)
  unfolding register_new
  create_step now user d commitment key w x (some u) h = (refl, inl refl)
  create_step now user d commitment key w x none h =
      >>=-split (RegisterOutcome user d commitment key w x)
        (transaction (in_user_rows (create B.user_rows user (new_user commitment key)))) _ w
        (λ _ v e.
          let made : Created user commitment key w x (ok tt v) =
            rw e at (create-Created user commitment key w x) in
          >>=-split (RegisterOutcome user d commitment key w x) (try_generate now d user) _ v
            (λ m u f.
              let tried : Tried user d v x (ok m u) = rw f at (generate-Tried now user d v x) in
              (
                refl,
                h,
                made.0,
                ground (arith, made, tried.1),
                same_codes user d w v u x m made.2 tried.0,
              ))
            (λ y u f.
              let tried : Tried user d v x (err y u) = rw f at (generate-Tried now user d v x) in
              absurd tried))
        (λ y v e. rw e at (create-Created user commitment key w x))

  -- A registration makes an ACTIVE account for a commitment that no account had, under a new id, and
  -- changes no other account. It tells the mnemonic of the only open code of the account, or none, and
  -- then it leaves the codes as they were. One that fails changes nothing.
  pub post_register-RegisterOutcome :
      (now user : ℕ) (d : CodeDraw) (commitment key : ℕ) (w : World B) (x : ℕ)
      → RegisterOutcome user d commitment key w x (post_register B env now user d commitment key w)
  unfolding post_register find_commitment
  post_register-RegisterOutcome now user d commitment key w x =
      >>=-ask (RegisterOutcome user d commitment key w x) (find_commitment B env commitment)
        (register_new B env now user d commitment key) w (Table.down B.user_rows w.user_rows)
        (holder B env w commitment) other_error (ground arith) (refl, inr (inr refl))
        (create_step now user d commitment key w x _ refl)
