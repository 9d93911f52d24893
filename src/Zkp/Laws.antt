-- ===== src/Zkp/Laws.antt =====
-- What a verified proof guarantees, and how a refused one is answered
-- (backend/src/services/zkp/zkp.service.ts).
use zk_auth.Prelude.{
  ℕ, ◌+◌, ◌%◌, ◌≤◌, ◌<◌, ◌≡◌, refl, leb, ◌⊎◌, inl, inr, Bool, true, false, Option, none, some, List,
  [], ◌∷◌, arith, Bool-cases, if◌then◌else◌,
}
use zk_auth.Errors.{
  Error, app_error, service_unavailable, user_suspended, user_not_found, other_error,
}
use zk_auth.Effects.{Outcome, ok, err}
use zk_auth.Text.{Text, decimal}
use zk_auth.Stores.{Table, first_of_keys, find_first_lem}
use zk_auth.Schema.{Backends, UserRow, UserStatus, active, suspended, pending_verify}
use zk_auth.World.{World}
use zk_auth.Zkp.{
  Proof, VerificationInput, VerificationResult, ZkpEnv, bn254_field_modulus, rejected,
  validate_proof_shape, by_commitment, find_user, result_of, admit_user, accepts, resolve,
  verify_signals, verify_with, verify, padded,
}

status_cases : (s : UserStatus) → (s ≡ active) ⊎ (s ≡ suspended) ⊎ (s ≡ pending_verify)
status_cases active = inl refl
status_cases suspended = inr (inl refl)
status_cases pending_verify = inr (inr refl)

module _ (B : Backends) (env : ZkpEnv) where
  open env use {dev_skip, v_key, groth16_verify, name}

  -- What stands behind a result of the verification.
  pub record Verified (input : VerificationInput) (w : World B) (r : VerificationResult)
      : Type 0 where
    pub key : ℕ
    pub nullifier : Text
    pub commitment : Text
    pub nonce_signal : Text
    pub row : UserRow
    pub keyed : v_key ≡ some key
    pub signals : input.public_signals ≡ nullifier ∷ commitment ∷ nonce_signal ∷ []
    pub named : r ≡ result_of B env nullifier commitment r.user_id
    pub bound : input.challenge_nonce % bn254_field_modulus ≡ decimal nonce_signal
    pub shaped : validate_proof_shape input.proof ≡ true
    pub proved : groth16_verify key input.public_signals input.proof ≡ some true
    pub found : Table.row B.user_rows w.user_rows r.user_id ≡ some row
    pub committed : row.commitment_hash ≡ name commitment
    pub activated : row.status ≡ active

  abbrev pub Refusal : Error → Type 0
  Refusal e =
      (e ≡ rejected)
      ⊎ (e ≡ app_error service_unavailable 503)
      ⊎ (e ≡ app_error user_suspended 403)
      ⊎ (e ≡ app_error user_not_found 403)
      ⊎ (e ≡ other_error)

  abbrev pub Checked : VerificationInput → World B → Outcome (World B) VerificationResult → Type 0
  Checked input w (ok r w') = (w' ≡ w) × Verified input w r
  Checked input w (err e w') = (w' ≡ w) × Refusal e

  accepts_lem :
      (key nonce : ℕ) (proof : Proof) (a b c : Text)
      → accepts B env key nonce proof a b c ≡ true
      → (nonce % bn254_field_modulus ≡ decimal c)
        × (validate_proof_shape proof ≡ true)
        × (groth16_verify key (a ∷ b ∷ c ∷ []) proof ≡ some true)
  unfolding accepts
  accepts_lem key nonce proof a b c h = (ground (arith, h), ground (arith, h), ground (arith, h))

  abbrev pub user_of : World B → Text → Option (ℕ × UserRow)
  user_of w commitment =
      first_of_keys B.user_rows
        (Table.find_keys B.user_rows (by_commitment B env (name commitment)) w.user_rows)
        w.user_rows

  admit_user_lem :
      (input : VerificationInput) (w : World B) (key : ℕ) (a b c : Text)
      (user : Option (ℕ × UserRow))
      → v_key ≡ some key
      → input.public_signals ≡ a ∷ b ∷ c ∷ []
      → accepts B env key input.challenge_nonce input.proof a b c ≡ true
      → user_of w b ≡ user
      → Checked input w (admit_user B env a b user w)
  unfolding admit_user
  admit_user_lem input w key a b c none k s t u = (refl, inl refl)
  admit_user_lem input w key a b c (some (id, row)) k s t u = elim (status_cases row.status) [
    | inr (inl e) ↦ rw e (refl, inr (inr (inl refl)))
    | inr (inr e) ↦ rw e (refl, inr (inr (inr (inl refl))))
    | inl e ↦
        let (bound, shaped, proved) = accepts_lem key input.challenge_nonce input.proof a b c t in
        let (found, selected) =
          find_first_lem B.user_rows (by_commitment B env (name b)) w.user_rows id row u in
        simp e (
          refl,
          record {
            key = key;
            nullifier = a;
            commitment = b;
            nonce_signal = c;
            row = row;
            keyed = k;
            signals = s;
            named = refl;
            bound = bound;
            shaped = shaped;
            proved = rw s proved;
            found = found;
            committed = ground (arith, selected);
            activated = e;
          },
        )
  ]

  resolve_answers :
      (w : World B) (a b : Text)
      → resolve B env a b w ≡ (
          if Table.down B.user_rows w.user_rows
          then err other_error w
          else admit_user B env a b (user_of w b) w)
  unfolding resolve find_user
  resolve_answers w a b = ground arith

  resolve_lem :
      (input : VerificationInput) (w : World B) (key : ℕ) (a b c : Text)
      → v_key ≡ some key
      → input.public_signals ≡ a ∷ b ∷ c ∷ []
      → accepts B env key input.challenge_nonce input.proof a b c ≡ true
      → Checked input w (resolve B env a b w)
  resolve_lem input w key a b c k s e =
      rw (resolve_answers w a b) (by_down (Table.down B.user_rows w.user_rows))
    where
      by_down :
          (down : Bool)
          → Checked input w
              (if down then err other_error w else admit_user B env a b (user_of w b) w)
      by_down true = (refl, inr (inr (inr (inr refl))))
      by_down false = admit_user_lem input w key a b c (user_of w b) k s e refl

  verify_signals_lem :
      (input : VerificationInput) (w : World B) (key : ℕ) (signals : List Text)
      → v_key ≡ some key
      → input.public_signals ≡ signals
      → Checked input w (verify_signals B env key input.challenge_nonce input.proof signals w)
  unfolding verify_signals
  verify_signals_lem input w key [] k s = (refl, inl refl)
  verify_signals_lem input w key (a ∷ []) k s = (refl, inl refl)
  verify_signals_lem input w key (a ∷ b ∷ []) k s = (refl, inl refl)
  verify_signals_lem input w key (a ∷ b ∷ c ∷ d ∷ rest) k s = (refl, inl refl)
  verify_signals_lem input w key (a ∷ b ∷ c ∷ []) k s =
      elim (Bool-cases (accepts B env key input.challenge_nonce input.proof a b c)) [
        | inr e ↦ rw e (refl, inl refl)
        | inl e ↦ rw e (resolve_lem input w key a b c k s e)
      ]

  verify_with_lem :
      (input : VerificationInput) (w : World B) (key : Option ℕ)
      → v_key ≡ key
      → Checked input w (verify_with B env key input w)
  unfolding verify_with
  verify_with_lem input w none k = (refl, inr (inl refl))
  verify_with_lem input w (some key) k = verify_signals_lem input w key input.public_signals k refl

  -- In production nothing changes in any store, and a proof is accepted only if snarkjs accepts it
  -- under the loaded key for its three public signals, its third signal is the nonce of the challenge
  -- reduced to the field, and its second is the commitment of the ACTIVE user that is returned. Every
  -- refusal is INVALID_PROOF, SERVICE_UNAVAILABLE, USER_SUSPENDED, USER_NOT_FOUND or a failure of the
  -- database.
  pub verify-Checked :
      (input : VerificationInput) (w : World B)
      → dev_skip ≡ false
      → Checked input w (verify B env input w)
  unfolding verify
  verify-Checked input w prod = simp prod (verify_with_lem input w v_key refl)

-- A verification takes as long as it needs, and where that is less than the drawn target, between 40
-- and 59 ms, it takes exactly the target.
pub padded_lem :
    (elapsed draw : ℕ)
    → draw < 20
    → (padded elapsed draw ≡ (if leb elapsed (40 + draw) then 40 + draw else elapsed))
      × (40 ≤ padded elapsed draw)
unfolding padded
padded_lem elapsed draw h = (ground arith, omega arith)
