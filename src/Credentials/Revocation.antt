-- ===== src/Credentials/Revocation.antt =====
-- What a verified claim shows, and that a revocation ends it
-- (backend/src/services/credential/disclosure.service.ts and credential.service.ts).
use zk_auth.Prelude.{
  ℕ, ◌≡◌, ◌≤◌, ◌⊎◌, inl, inr, refl, arith, Bool, true, false, Option, none, some, Option-cases,
  List, [], ◌∷◌,
}
use zk_auth.Effects.{ok, Succeeds, not-Succeeds}
use zk_auth.Stores.{Table, Journal, row-updated}
use zk_auth.Text.{Text, decimal}
use zk_auth.Credentials.{
  CredentialTypeRow, CredentialRow, CredentialStatus, DisclosureProofRow, LeafTable, active,
  revoked, expired, revoke_for, stated,
}
use zk_auth.Credentials.Service.{CredentialDb, revoke_owned, revoke_credential}
use zk_auth.Credentials.Disclosure.{
  DisclosureEnv, DisclosureProofInput, DisclosureResult, valid_signals, is_overdue, audit_row,
  conclude, check_active, check_credential, claim_with, claim_loaded, verify_claim,
}

module _ (T : Table CredentialTypeRow) (C : Table CredentialRow) (L : LeafTable)
    (A : Journal DisclosureProofRow) (env : DisclosureEnv) where
  abbrev pub Db : Type 0
  Db = CredentialDb T C L A

  abbrev pub credential : Db → ℕ → Option CredentialRow
  credential w id = Table.row C w.credentials id

  -- The claim was recorded as valid, unless the database failed for the record.
  abbrev pub Recorded : ℕ → DisclosureProofInput → Db → Db → Type 0
  Recorded now input w w' =
      (w'.audit ≡ w.audit)
      ⊎ (Journal.entries A w'.audit
          ≡ audit_row T C L A env now input true ∷ Journal.entries A w.audit)

  pub record Accepted (now : ℕ) (input : DisclosureProofInput) (w w' : Db) : Type 0 where
    pub key : ℕ
    pub root : Text
    pub threshold : Text
    pub leaf_index : Text
    pub row : CredentialRow
    pub loaded : DisclosureEnv.v_key env ≡ some key
    pub signals : input.public_signals ≡ root ∷ threshold ∷ leaf_index ∷ []
    pub found : credential w input.credential_id ≡ some row
    pub is_active : row.status ≡ active
    pub in_time : is_overdue now row.expires_at ≡ false
    pub committed : decimal root ≡ row.merkle_root
    pub position : decimal leaf_index ≤ 255
    pub proved : DisclosureEnv.groth16_verify env key input.public_signals input.proof ≡ some true
    pub kept : w'.credentials ≡ w.credentials
    pub recorded : Recorded now input w w'

  conclude_lem :
      (now : ℕ) (input : DisclosureProofInput) (o : Option Bool) (w w' : Db) (r : DisclosureResult)
      → conclude T C L A env now input o w ≡ ok r w'
      → (o ≡ some true) × (w'.credentials ≡ w.credentials) × Recorded now input w w'
  unfolding conclude
  conclude_lem now input none w w' r e = absurd (ground (arith, e))
  conclude_lem now input (some false) w w' r e = absurd (ground (arith, e))
  conclude_lem now input (some true) w w' r e =
      ground (arith, e, Journal.entries-append A (audit_row T C L A env now input true) w.audit)

  check_lem :
      (now : ℕ) (input : DisclosureProofInput) (key : ℕ) (root : Text) (row : CredentialRow)
      (w w' : Db) (r : DisclosureResult)
      → check_credential T C L A env now input key root (some row) w ≡ ok r w'
      → (row.status ≡ active)
        × (is_overdue now row.expires_at ≡ false)
        × (decimal root ≡ row.merkle_root)
        × (conclude T C L A env now input
              (DisclosureEnv.groth16_verify env key input.public_signals input.proof)
              w
            ≡ ok r w')
  unfolding check_credential check_active
  check_lem now input key root row w w' r e = ground (arith, e)

  signals_lem :
      (now : ℕ) (input : DisclosureProofInput) (key : ℕ) (signals : List Text) (w w' : Db)
      (r : DisclosureResult)
      → DisclosureEnv.v_key env ≡ some key
      → input.public_signals ≡ signals
      → claim_with T C L A env now input key signals w ≡ ok r w'
      → Accepted now input w w'
  unfolding claim_with valid_signals check_credential
  signals_lem now input key [] w w' r l s e = absurd (ground (arith, e))
  signals_lem now input key (a ∷ []) w w' r l s e = absurd (ground (arith, e))
  signals_lem now input key (a ∷ b ∷ []) w w' r l s e = absurd (ground (arith, e))
  signals_lem now input key (a ∷ b ∷ c ∷ d ∷ ds) w w' r l s e = absurd (ground (arith, e))
  signals_lem now input key (root ∷ threshold ∷ leaf_index ∷ []) w w' r l s e =
      elim (Option-cases (credential w input.credential_id)) [
        | inl gone ↦ absurd (ground (arith, e, gone))
        | inr (row, found) ↦
            let checked : check_credential T C L A env now input key root (some row) w ≡ ok r w' =
              ground (arith, e, found) in
            let (is_active, in_time, committed, concluded) =
              check_lem now input key root row w w' r checked in
            let (proved, kept, recorded) = conclude_lem now input _ w w' r concluded in
            record {
              key = key;
              root = root;
              threshold = threshold;
              leaf_index = leaf_index;
              row = row;
              loaded = l;
              signals = s;
              found = found;
              is_active = is_active;
              in_time = in_time;
              committed = committed;
              position = ground (arith, e);
              proved = proved;
              kept = kept;
              recorded = recorded;
            }
      ]

  -- A claim is verified only for a credential that is active and not expired, with a proof that
  -- snarkjs accepts for the signals and whose root is the one stored for the credential, about a
  -- position of the tree. It changes no credential, and is recorded as valid unless the database
  -- fails for the record.
  pub verify_claim-Accepted :
      (now : ℕ) (input : DisclosureProofInput) (w w' : Db) (r : DisclosureResult)
      → verify_claim T C L A env now input w ≡ ok r w'
      → Accepted now input w w'
  unfolding verify_claim claim_loaded
  verify_claim-Accepted now input w w' r e = elim (Option-cases (DisclosureEnv.v_key env)) [
    | inl none_loaded ↦ absurd (ground (arith, e, none_loaded))
    | inr (key, loaded) ↦
        signals_lem now input key input.public_signals w w' r loaded refl
          (ground (arith, e, loaded))
  ]

  owned_lem :
      (now id user reason : ℕ) (w w' : Db) (row : CredentialRow) (s : CredentialStatus)
      → credential w id ≡ some row
      → row.status ≡ s
      → revoke_credential T C L A now id user reason w ≡ ok tt w'
      → (row' : CredentialRow) × (credential w' id ≡ some row') × (row'.status ≡ revoked)
  unfolding revoke_credential revoke_owned
  owned_lem now id user reason w w' row revoked found h e = (row, ground (arith, e, found, h), h)
  owned_lem now id user reason w w' row active found h e = (
    revoke_for (stated reason) now row,
    ground (arith, e, found, h, row-updated C id (revoke_for (stated reason) now) w.credentials id),
    refl,
  )
  owned_lem now id user reason w w' row expired found h e = (
    revoke_for (stated reason) now row,
    ground (arith, e, found, h, row-updated C id (revoke_for (stated reason) now) w.credentials id),
    refl,
  )

  revoke_lem :
      (now id user reason : ℕ) (w w' : Db)
      → revoke_credential T C L A now id user reason w ≡ ok tt w'
      → (row : CredentialRow) × (credential w' id ≡ some row) × (row.status ≡ revoked)
  unfolding revoke_credential revoke_owned
  revoke_lem now id user reason w w' e = elim (Option-cases (credential w id)) [
    | inl gone ↦ absurd (ground (arith, e, gone))
    | inr (row, found) ↦ owned_lem now id user reason w w' row row.status found refl e
  ]

  -- After a credential is revoked by its user, no claim about it is verified, whatever the proof.
  pub verify_claim-revoke :
      (now later id user reason : ℕ) (input : DisclosureProofInput) (w w' : Db)
      → revoke_credential T C L A now id user reason w ≡ ok tt w'
      → input.credential_id ≡ id
      → ¬ Succeeds (verify_claim T C L A env later input w')
  verify_claim-revoke now later id user reason input w w' e same = not-Succeeds _ λ r v h.
      let (row, there, status) = revoke_lem now id user reason w w' e in
      let claimed = verify_claim-Accepted later input w' v r h in
      ground (arith, claimed.found, claimed.is_active, there, status, same)
