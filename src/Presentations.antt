-- ===== src/Presentations.antt =====
-- Presentations to a verifier: backend/src/controllers/ecosystem/verifier.controller.ts. A presentation is
-- what the handler reads of the JSON it was sent; DIDs, texts and signatures are numbers. The key that
-- the DID registry resolves an issuer to, Ed25519 and SHA-256 are given. The metadata of the answer is
-- left out.
pub mod Granted
pub mod Once
pub mod Stripped
mod Examples
use zk_auth.Prelude.{
  ℕ, Bool, true, false, ◌&&◌, ◌||◌, Option, none, some, List, [], ◌∷◌, ◌==◌, length, if◌then◌else◌,
}
use zk_auth.Errors.{app_error, challenge_expired, service_unavailable}
use zk_auth.Effects.{M, ok, err, ◌>>=◌, ◌>>◌, return, throw}
use zk_auth.Stores.{Keyspace, Table, Journal, get, set_ex, del}
use zk_auth.Text.{Text}
use zk_auth.Zkp.{Proof}
use zk_auth.Credentials.{CredentialTypeRow, CredentialRow, DisclosureProofRow, LeafTable}
use zk_auth.Credentials.Service.{CredentialDb}
use zk_auth.Credentials.Disclosure.{
  DisclosureEnv, DisclosureProofInput, DisclosureResult, verify_claim, bad_claim,
}

-- The request for a proof as it is stored in Redis.
pub record ProofRequest : Type 0 where
  pub challenge : ℕ
  pub verifier_did : ℕ

-- `none` is a field that is missing or empty.
pub record ZkDisclosure : Type 0 where
  pub groth16_proof : Option Proof
  pub public_signals : Option (List Text)
  pub credential_id : ℕ
  pub claimed_predicate : ℕ
  pub verifier_challenge : Option ℕ

-- The credential in a presentation: `content` is what its issuer signs besides the ids.
pub record EmbeddedVc : Type 0 where
  pub issuer : Option ℕ
  pub proof_value : Option ℕ
  pub content : List ℕ

pub record Presentation : Type 0 where
  pub is_presentation : Bool
  pub zk_disclosure : Option ZkDisclosure
  pub credential : Option EmbeddedVc
  pub holder : ℕ

pub record Grant : Type 0 where
  pub claim : DisclosureResult
  pub issuer_did : ℕ
  pub verifier_did : ℕ

pub record VerifierEnv : Type 0 where
  pub disclosure : DisclosureEnv
  pub resolve_key : ℕ → Option ℕ
  -- Whether the value is a signature of the data under the key; false where Node's crypto throws.
  pub ed25519_verify : ℕ → List ℕ → ℕ → Bool
  pub sha256 : List ℕ → ℕ

abbrev pub proof_request_ttl_s : ℕ
proof_request_ttl_s = 300

abbrev pub three : List Text → Bool
three (a ∷ b ∷ c ∷ []) = true
three signals = false

-- The claim of a disclosure with its proof and three signals.
abbrev pub claim_of : ZkDisclosure → Option Proof → Option (List Text) → Option DisclosureProofInput
claim_of d none signals = none
claim_of d (some proof) none = none
claim_of d (some proof) (some signals) =
    if three signals
    then some (record {
      proof = proof;
      public_signals = signals;
      credential_id = d.credential_id;
      claimed_predicate = d.claimed_predicate;
      verifier_id = 0;
    })
    else none

-- A challenge is compared only where the presentation has one.
abbrev pub challenge_matches : Option ℕ → ℕ → Bool
challenge_matches none stored = true
challenge_matches (some challenge) stored = challenge == stored

abbrev pub canonical_data : ZkDisclosure → ℕ → ℕ → EmbeddedVc → List ℕ
canonical_data d issuer holder vc = d.credential_id ∷ issuer ∷ holder ∷ vc.content

module _ (env : VerifierEnv) where
  -- A credential without a proof passes, and so does one whose proof is the hash of its data.
  abbrev pub vc_proof_valid : ℕ → List ℕ → Option ℕ → Bool
  vc_proof_valid key signed none = true
  vc_proof_valid key signed (some value) =
      VerifierEnv.ed25519_verify env key signed value || (value == VerifierEnv.sha256 env signed)

  module _ (K : Keyspace ProofRequest) (T : Table CredentialTypeRow) (C : Table CredentialRow)
      (L : LeafTable) (A : Journal DisclosureProofRow) where
    pub record Verifier : Type 0 where
      pub requests : Keyspace.State K
      pub db : CredentialDb T C L A

    module _ {X : Type 0} where
      abbrev pub in_requests : M (Keyspace.State K) X → M Verifier X
      in_requests m w = elim (m w.requests) [
        | ok a s ↦ ok a (record w { requests = s })
        | err e s ↦ err e (record w { requests = s })
      ]

      abbrev pub in_db : M (CredentialDb T C L A) X → M Verifier X
      in_db m w = elim (m w.db) [
        | ok a s ↦ ok a (record w { db = s })
        | err e s ↦ err e (record w { db = s })
      ]

    -- The id and the challenge are drawn.
    unfoldable pub post_request_proof : ℕ → ℕ → ℕ → ℕ → M Verifier ProofRequest
    post_request_proof now id challenge verifier = do
      in_requests (
          set_ex K now id (record { challenge = challenge; verifier_did = verifier })
            proof_request_ttl_s)
      return (record { challenge = challenge; verifier_did = verifier })

    -- The request is consumed after the claim was verified.
    unfoldable pub grant : ℕ → ℕ → DisclosureProofInput → ℕ → ProofRequest → M Verifier Grant
    grant now id claim issuer request = do
      r ← in_db (
          verify_claim T C L A (VerifierEnv.disclosure env) now
            (record claim { verifier_id = request.verifier_did }))
      deleted ← in_requests (del K now id)
      return (record { claim = r; issuer_did = issuer; verifier_did = request.verifier_did })

    unfoldable pub check_issuer :
        ℕ
        → ℕ
        → ℕ
        → ZkDisclosure
        → DisclosureProofInput
        → ProofRequest
        → EmbeddedVc
        → Option ℕ
        → M Verifier Grant
    unfolding grant
    check_issuer now id holder d claim request vc none = throw bad_claim
    check_issuer now id holder d claim request vc (some issuer) =
        elim (VerifierEnv.resolve_key env issuer) [
          | none ↦ throw (app_error service_unavailable 503)
          | some key ↦
              if vc_proof_valid key (canonical_data d issuer holder vc) vc.proof_value
              then grant now id claim issuer request
              else throw bad_claim
        ]

    unfoldable pub check_vc :
        ℕ
        → ℕ
        → ℕ
        → ZkDisclosure
        → DisclosureProofInput
        → ProofRequest
        → Option EmbeddedVc
        → M Verifier Grant
    unfolding check_issuer
    check_vc now id holder d claim request none = throw bad_claim
    check_vc now id holder d claim request (some vc) =
        check_issuer now id holder d claim request vc vc.issuer

    unfoldable pub check_request :
        ℕ
        → ℕ
        → Presentation
        → ZkDisclosure
        → DisclosureProofInput
        → Option ProofRequest
        → M Verifier Grant
    unfolding check_vc
    check_request now id vp d claim none = throw (app_error challenge_expired 400)
    check_request now id vp d claim (some request) =
        if challenge_matches d.verifier_challenge request.challenge
        then check_vc now id vp.holder d claim request vp.credential
        else throw bad_claim

    unfoldable pub check_claim :
        ℕ → ℕ → Presentation → ZkDisclosure → Option DisclosureProofInput → M Verifier Grant
    unfolding check_request
    check_claim now id vp d none = throw bad_claim
    check_claim now id vp d (some claim) = do
      request ← in_requests (get K now id)
      check_request now id vp d claim request

    unfoldable pub check_disclosure : ℕ → ℕ → Presentation → Option ZkDisclosure → M Verifier Grant
    unfolding check_claim
    check_disclosure now id vp none = throw bad_claim
    check_disclosure now id vp (some d) =
        check_claim now id vp d (claim_of d d.groth16_proof d.public_signals)

    unfoldable pub post_verify_presentation : ℕ → ℕ → Presentation → M Verifier Grant
    unfolding check_disclosure
    post_verify_presentation now id vp =
        if vp.is_presentation then check_disclosure now id vp vp.zk_disclosure else throw bad_claim
