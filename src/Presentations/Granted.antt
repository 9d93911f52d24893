-- ===== src/Presentations/Granted.antt =====
-- What a granted presentation shows
-- (backend/src/controllers/ecosystem/verifier.controller.ts, `postVerifyPresentation`).
use zk_auth.Prelude.{ℕ, ◌≡◌, refl, arith, Bool-cases, Option, none, some, Option-cases, inl, inr}
use zk_auth.Effects.{M, ok, >>=-ok}
use zk_auth.Stores.{Keyspace, Table, Journal, del}
use zk_auth.Credentials.{CredentialTypeRow, CredentialRow, DisclosureProofRow, LeafTable}
use zk_auth.Credentials.Disclosure.{DisclosureProofInput, DisclosureResult, verify_claim}
use zk_auth.Credentials.Revocation.{Accepted, verify_claim-Accepted}
use zk_auth.Presentations.{
  ProofRequest, ZkDisclosure, EmbeddedVc, Presentation, Grant, VerifierEnv, Verifier, claim_of,
  canonical_data, vc_proof_valid, grant, check_issuer, check_vc, check_request, check_claim,
  check_disclosure, post_verify_presentation, in_requests, in_db,
}

module _ (env : VerifierEnv) (K : Keyspace ProofRequest) (T : Table CredentialTypeRow)
    (C : Table CredentialRow) (L : LeafTable) (A : Journal DisclosureProofRow) where
  abbrev V : Type 0
  V = Verifier env K T C L A

  abbrev pub live_request : V → ℕ → ℕ → Option ProofRequest
  live_request w t id = Keyspace.live K w.requests t id

  -- The claim that was verified, for the verifier of the request.
  abbrev pub claim_for : ProofRequest → DisclosureProofInput → DisclosureProofInput
  claim_for request claim = record claim { verifier_id = request.verifier_did }

  pub record Granted (now id : ℕ) (w w' : V) : Type 0 where
    pub request : ProofRequest
    pub claim : DisclosureProofInput
    pub live : live_request w now id ≡ some request
    pub consumed : (t : ℕ) → live_request w' t id ≡ none
    pub accepted :
        Accepted T C L A (VerifierEnv.disclosure env) now (claim_for request claim) w.db w'.db

  grant_lem :
      (now id : ℕ) (claim : DisclosureProofInput) (issuer : ℕ) (request : ProofRequest) (w w' : V)
      (g : Grant)
      → live_request w now id ≡ some request
      → grant env K T C L A now id claim issuer request w ≡ ok g w'
      → Granted now id w w'
  unfolding grant
  grant_lem now id claim issuer request w w' g live e =
      let verifies : M V DisclosureResult =
        in_db env K T C L A
          (verify_claim T C L A (VerifierEnv.disclosure env) now (claim_for request claim)) in
      let (r, w1, c, e1) = >>=-ok verifies _ w w' g e in
      let (count, w2, d, e2) = >>=-ok (in_requests env K T C L A (del K now id)) _ w1 w' g e1 in
      record {
        request = request;
        claim = claim;
        live = live;
        consumed = λ t. ground (arith, d, e2, Keyspace.live-remove K id w1.requests t id);
        accepted =
            verify_claim-Accepted T C L A (VerifierEnv.disclosure env) now (claim_for request claim)
              w.db w'.db r (ground (arith, c, d, e2));
      }

  issuer_lem :
      (now id holder : ℕ) (d : ZkDisclosure) (claim : DisclosureProofInput) (request : ProofRequest)
      (vc : EmbeddedVc) (issuer : Option ℕ) (w w' : V) (g : Grant)
      → live_request w now id ≡ some request
      → check_issuer env K T C L A now id holder d claim request vc issuer w ≡ ok g w'
      → Granted now id w w'
  unfolding check_issuer
  issuer_lem now id holder d claim request vc none w w' g live e = absurd (ground (arith, e))
  issuer_lem now id holder d claim request vc (some issuer) w w' g live e =
      elim (Option-cases (VerifierEnv.resolve_key env issuer)) [
        | inl unknown ↦ absurd (ground (arith, e, unknown))
        | inr (key, known) ↦
            elim (Bool-cases
              (vc_proof_valid env key (canonical_data d issuer holder vc) vc.proof_value)) [
                | inl valid ↦
                    grant_lem now id claim issuer request w w' g live
                      (ground (arith, e, known, valid))
                | inr invalid ↦ absurd (ground (arith, e, known, invalid))
              ]
      ]

  request_lem :
      (now id : ℕ) (vp : Presentation) (d : ZkDisclosure) (claim : DisclosureProofInput)
      (request : Option ProofRequest) (vc : Option EmbeddedVc) (w w' : V) (g : Grant)
      → live_request w now id ≡ request
      → vp.credential ≡ vc
      → check_request env K T C L A now id vp d claim request w ≡ ok g w'
      → Granted now id w w'
  unfolding check_request check_vc
  request_lem now id vp d claim none vc w w' g live c e = absurd (ground (arith, e))
  request_lem now id vp d claim (some request) none w w' g live c e = absurd (ground (arith, e, c))
  request_lem now id vp d claim (some request) (some vc) w w' g live c e =
      issuer_lem now id vp.holder d claim request vc vc.issuer w w' g live (ground (arith, e, c))

  claim_lem :
      (now id : ℕ) (vp : Presentation) (d : ZkDisclosure) (claim : Option DisclosureProofInput)
      (w w' : V) (g : Grant)
      → check_claim env K T C L A now id vp d claim w ≡ ok g w'
      → Granted now id w w'
  unfolding check_claim
  claim_lem now id vp d none w w' g e = absurd (ground (arith, e))
  claim_lem now id vp d (some claim) w w' g e =
      request_lem now id vp d claim (live_request w now id) vp.credential w w' g refl refl
        (ground (arith, e))

  -- A presentation is granted only for a proof request that is live, which is consumed, and with a
  -- claim that is verified for the verifier of the request.
  pub post_verify-Granted :
      (now id : ℕ) (vp : Presentation) (w w' : V) (g : Grant)
      → post_verify_presentation env K T C L A now id vp w ≡ ok g w'
      → Granted now id w w'
  unfolding post_verify_presentation check_disclosure
  post_verify-Granted now id vp w w' g e = elim (Option-cases vp.zk_disclosure) [
    | inl missing ↦ absurd (ground (arith, e, missing))
    | inr (d, there) ↦
        claim_lem now id vp d (claim_of d d.groth16_proof d.public_signals) w w' g
          (ground (arith, e, there))
  ]
