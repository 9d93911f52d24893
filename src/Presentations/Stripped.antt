-- ===== src/Presentations/Stripped.antt =====
-- What a presentation can leave out
-- (backend/src/controllers/ecosystem/verifier.controller.ts, `postVerifyPresentation`).
use zk_auth.Prelude.{
  ℕ, ◌≡◌, refl, ◌∙◌, arith, Bool-cases, Option, none, some, Option-cases, inl, inr, List,
}
use zk_auth.Effects.{M, ok, >>=-ok, >>=_then}
use zk_auth.Stores.{Keyspace, Table, Journal, get}
use zk_auth.Text.{Text}
use zk_auth.Zkp.{Proof}
use zk_auth.Credentials.{CredentialTypeRow, CredentialRow, DisclosureProofRow, LeafTable}
use zk_auth.Credentials.Disclosure.{DisclosureProofInput}
use zk_auth.Presentations.{
  ProofRequest, ZkDisclosure, EmbeddedVc, Presentation, Grant, VerifierEnv, Verifier, claim_of,
  challenge_matches, canonical_data, vc_proof_valid, check_issuer, check_vc, check_request,
  check_claim, check_disclosure, post_verify_presentation, in_requests,
}

abbrev pub unanswered : ZkDisclosure → ZkDisclosure
unanswered d = record d { verifier_challenge = none }

abbrev pub unsigned : EmbeddedVc → EmbeddedVc
unsigned vc = record vc { proof_value = none }

abbrev pub on_some : {A : Type 0} → (A → A) → Option A → Option A
on_some f none = none
on_some f (some a) = some (f a)

-- The presentation without the challenge of the verifier and without the issuer's proof.
abbrev pub stripped : Presentation → Presentation
stripped vp = record vp {
  zk_disclosure = on_some unanswered vp.zk_disclosure;
  credential = on_some unsigned vp.credential;
}

claim_of-unanswered :
    (d : ZkDisclosure) (p : Option Proof) (s : Option (List Text))
    → claim_of (unanswered d) p s ≡ claim_of d p s
claim_of-unanswered d none s = refl
claim_of-unanswered d (some p) none = refl
claim_of-unanswered d (some p) (some s) = refl

module _ (env : VerifierEnv) (K : Keyspace ProofRequest) (T : Table CredentialTypeRow)
    (C : Table CredentialRow) (L : LeafTable) (A : Journal DisclosureProofRow) where
  abbrev V : Type 0
  V = Verifier env K T C L A

  issuer_lem :
      (now id holder : ℕ) (d : ZkDisclosure) (claim : DisclosureProofInput) (request : ProofRequest)
      (vc : EmbeddedVc) (issuer : Option ℕ) (w w' : V) (g : Grant)
      → check_issuer env K T C L A now id holder d claim request vc issuer w ≡ ok g w'
      → check_issuer env K T C L A now id holder (unanswered d) claim request (unsigned vc) issuer w
        ≡ ok g w'
  unfolding check_issuer
  issuer_lem now id holder d claim request vc none w w' g e = absurd (ground (arith, e))
  issuer_lem now id holder d claim request vc (some issuer) w w' g e =
      elim (Option-cases (VerifierEnv.resolve_key env issuer)) [
        | inl unknown ↦ absurd (ground (arith, e, unknown))
        | inr (key, known) ↦
            elim (Bool-cases
              (vc_proof_valid env key (canonical_data d issuer holder vc) vc.proof_value)) [
                | inl valid ↦ ground (arith, e, known, valid)
                | inr invalid ↦ absurd (ground (arith, e, known, invalid))
              ]
      ]

  vc_lem :
      (now id holder : ℕ) (d : ZkDisclosure) (claim : DisclosureProofInput) (request : ProofRequest)
      (vc : Option EmbeddedVc) (w w' : V) (g : Grant)
      → check_vc env K T C L A now id holder d claim request vc w ≡ ok g w'
      → check_vc env K T C L A now id holder (unanswered d) claim request (on_some unsigned vc) w
        ≡ ok g w'
  unfolding check_vc
  vc_lem now id holder d claim request none w w' g e = absurd (ground (arith, e))
  vc_lem now id holder d claim request (some vc) w w' g e =
      issuer_lem now id holder d claim request vc vc.issuer w w' g e

  request_lem :
      (now id : ℕ) (vp : Presentation) (d : ZkDisclosure) (claim : DisclosureProofInput)
      (request : Option ProofRequest) (w w' : V) (g : Grant)
      → check_request env K T C L A now id vp d claim request w ≡ ok g w'
      → check_request env K T C L A now id (stripped vp) (unanswered d) claim request w ≡ ok g w'
  unfolding check_request
  request_lem now id vp d claim none w w' g e = absurd (ground (arith, e))
  request_lem now id vp d claim (some request) w w' g e =
      elim (Bool-cases (challenge_matches d.verifier_challenge request.challenge)) [
        | inl matches ↦
            vc_lem now id vp.holder d claim request vp.credential w w' g
              (ground (arith, e, matches))
        | inr wrong ↦ absurd (ground (arith, e, wrong))
      ]

  claim_lem :
      (now id : ℕ) (vp : Presentation) (d : ZkDisclosure) (claim : Option DisclosureProofInput)
      (w w' : V) (g : Grant)
      → check_claim env K T C L A now id vp d claim w ≡ ok g w'
      → check_claim env K T C L A now id (stripped vp) (unanswered d) claim w ≡ ok g w'
  unfolding check_claim
  claim_lem now id vp d none w w' g e = absurd (ground (arith, e))
  claim_lem now id vp d (some claim) w w' g e =
      let stored : M V (Option ProofRequest) = in_requests env K T C L A (get K now id) in
      let (request, v, found, went) =
        >>=-ok stored (check_request env K T C L A now id vp d claim) w w' g e in
      >>=_then stored (check_request env K T C L A now id (stripped vp) (unanswered d) claim) w v
        request found
      ∙ request_lem now id vp d claim request v w' g went

  disclosure_lem :
      (now id : ℕ) (vp : Presentation) (d : Option ZkDisclosure) (w w' : V) (g : Grant)
      → check_disclosure env K T C L A now id vp d w ≡ ok g w'
      → check_disclosure env K T C L A now id (stripped vp) (on_some unanswered d) w ≡ ok g w'
  unfolding check_disclosure
  disclosure_lem now id vp none w w' g e = absurd (ground (arith, e))
  disclosure_lem now id vp (some d) w w' g e =
      rw (claim_of-unanswered d d.groth16_proof d.public_signals)
        (claim_lem now id vp d (claim_of d d.groth16_proof d.public_signals) w w' g e)

  -- Neither the challenge of the verifier nor the proof of the issuer is needed: a presentation that
  -- is granted is granted in the same way with both left out.
  pub post_verify-stripped :
      (now id : ℕ) (vp : Presentation) (w w' : V) (g : Grant)
      → post_verify_presentation env K T C L A now id vp w ≡ ok g w'
      → post_verify_presentation env K T C L A now id (stripped vp) w ≡ ok g w'
  unfolding post_verify_presentation
  post_verify-stripped now id vp w w' g e = elim (Bool-cases vp.is_presentation) [
    | inl is ↦ rw is (disclosure_lem now id vp vp.zk_disclosure w w' g (ground (arith, e, is)))
    | inr not ↦ absurd (ground (arith, e, not))
  ]
