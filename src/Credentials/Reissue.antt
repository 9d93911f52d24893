-- ===== src/Credentials/Reissue.antt =====
-- A second credential of a type (backend/src/services/credential/credential.service.ts): the transaction
-- marks the old credential REVOKED and creates another row, and the table has the unique constraint
-- `@@unique([userId, credentialTypeId])` (backend/prisma/schema.prisma), whatever the status.
use zk_auth.Prelude.{
  ℕ, ◌≡◌, true, Option, none, some, List, arith, refl, ◌∙◌, Bool-cases, inl, inr, ◌==◌,
}
use zk_auth.Effects.{M, ok, >>=-ok, Succeeds, not-Succeeds}
use zk_auth.Stores.{Table, Journal, row-updated, find_first, create}
use zk_auth.Credentials.{
  CredentialTypeRow, CredentialRow, CredentialLeaf, DisclosureProofRow, LeafTable, Value,
  new_credential, is_active_for, revoke_for, reissued,
}
use zk_auth.Credentials.Service.{
  CredentialDb, retire, write_credential, issue_credential, in_credentials,
}
use zk_auth.Credentials.Issuance.{Db, credential, IssuedCredential, issue-IssueOutcome}

-- A row of the same user and type as an old one is a unique violation.
abbrev pub IsUnique : Table CredentialRow → Type 0
IsUnique C =
    (s : Table.State C) (j k : ℕ) (q r : CredentialRow)
    → Table.row C s j ≡ some q
    → q.user_id ≡ r.user_id
    → q.credential_type_id ≡ r.credential_type_id
    → Table.clash C s k r ≡ true

module _ (T : Table CredentialTypeRow) (C : Table CredentialRow) (L : LeafTable)
    (A : Journal DisclosureProofRow) (poseidon : ℕ → ℕ → ℕ) where
  retire_keeps :
      (now j : ℕ) (existing : Option (ℕ × CredentialRow)) (q : CredentialRow)
      (w w' : Db T C L A poseidon)
      → retire T C L A now existing w ≡ ok tt w'
      → credential T C L A poseidon w j ≡ some q
      → (q' : CredentialRow) × (credential T C L A poseidon w' j ≡ some q')
        × (q'.user_id ≡ q.user_id)
        × (q'.credential_type_id ≡ q.credential_type_id)
  unfolding retire
  retire_keeps now j none q w w' e h = (q, ground (arith, e, h), refl, refl)
  retire_keeps now j (some (old, row)) q w w' e h = elim (Bool-cases (old == j)) [
    | inl same ↦ (
      revoke_for reissued now q,
      ground (arith, e, h, same, row-updated C old (revoke_for reissued now) w.credentials j),
      refl,
      refl,
    )
    | inr other ↦ (
      q,
      ground (arith, e, h, other, row-updated C old (revoke_for reissued now) w.credentials j),
      refl,
      refl,
    )
  ]

  write_clash :
      (now id j : ℕ) (row q : CredentialRow) (leaves : List CredentialLeaf)
      (w w' : Db T C L A poseidon)
      → IsUnique C
      → credential T C L A poseidon w j ≡ some q
      → q.user_id ≡ row.user_id
      → q.credential_type_id ≡ row.credential_type_id
      → write_credential T C L A now id row leaves w ≡ ok tt w'
      → ⊥
  unfolding write_credential
  write_clash now id j row q leaves w w' unique found user type e =
      let first : M (CredentialDb T C L A) (Option (ℕ × CredentialRow)) =
        in_credentials T C L A (find_first C (is_active_for row.user_id row.credential_type_id)) in
      let (existing, w1, e0, e1) = >>=-ok first _ w w' tt e in
      let same : credential T C L A poseidon w1 j ≡ some q = ground (arith, e0, found) in
      let (_, w2, r, e2) = >>=-ok (retire T C L A now existing) _ w1 w' tt e1 in
      let (q', kept, user', type') = retire_keeps now j existing q w1 w2 r same in
      let (_, w3, created, e3) = >>=-ok (in_credentials T C L A (create C id row)) _ w2 w' tt e2 in
      let clash = unique w2.credentials j id q' row kept (user' ∙ user) (type' ∙ type) in
      ground (arith, created, clash)

  -- Under the unique constraint a credential of a type is issued to a user only once: where the user
  -- has one, active, expired or revoked, no other is ever issued, although the code means to replace
  -- it.
  pub reissue_fails :
      (now id : ℕ) (salts : ℕ → ℕ) (user type : ℕ) (attributes : List (ℕ × Value))
      (expires_at : Option ℕ) (w : CredentialDb T C L A) (j : ℕ) (q : CredentialRow)
      → IsUnique C
      → Table.row C w.credentials j ≡ some q
      → q.user_id ≡ user
      → q.credential_type_id ≡ type
      → ¬ Succeeds
          (issue_credential T C L A poseidon now id salts user type attributes expires_at w)
  reissue_fails now id salts user type attributes expires_at w j q unique found u t =
      not-Succeeds _ λ r w' e.
        let issued : IssuedCredential T C L A poseidon now id salts user type attributes expires_at
            w w' r =
          rw e at
            (issue-IssueOutcome T C L A poseidon now id salts user type attributes expires_at w) in
        write_clash now id j (new_credential now user type issued.tree r.leaves expires_at) q
          r.leaves w w' unique found u t issued.written
