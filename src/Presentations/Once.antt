-- ===== src/Presentations/Once.antt =====
-- A proof request after its grant, over any later use of the controller
-- (backend/src/controllers/ecosystem/verifier.controller.ts).
use zk_auth.Prelude.{
  ℕ, ◌≡◌, ◌≢◌, Bool-cases, Option, none, some, Option-cases, inl, inr, List, [], ◌∷◌, arith,
}
use zk_auth.Effects.{ok, final, Succeeds, not-Succeeds, Outcome-cases}
use zk_auth.Stores.{Keyspace, Table, Journal}
use zk_auth.Credentials.{CredentialTypeRow, CredentialRow, DisclosureProofRow, LeafTable}
use zk_auth.Credentials.Disclosure.{DisclosureProofInput, verify_claim}
use zk_auth.Presentations.{
  ProofRequest, ZkDisclosure, EmbeddedVc, Presentation, Grant, VerifierEnv, Verifier, claim_of,
  canonical_data, challenge_matches, vc_proof_valid, proof_request_ttl_s, post_request_proof, grant,
  check_issuer, check_vc, check_request, check_claim, check_disclosure, post_verify_presentation,
}
use zk_auth.Presentations.Granted.{live_request, post_verify-Granted}

-- A call of the controller, with its time and what it draws.
pub data Call : Type 0 where
  requests_proof : ℕ → ℕ → ℕ → ℕ → Call
  presents : ℕ → ℕ → Presentation → Call

-- No call draws the identifier.
abbrev pub Undrawn : ℕ → List Call → Type 0
Undrawn id [] = Unit
Undrawn id (requests_proof now x challenge verifier ∷ rest) = (x ≢ id) × Undrawn id rest
Undrawn id (presents now x vp ∷ rest) = Undrawn id rest

module _ (env : VerifierEnv) (K : Keyspace ProofRequest) (T : Table CredentialTypeRow)
    (C : Table CredentialRow) (L : LeafTable) (A : Journal DisclosureProofRow) where
  abbrev V : Type 0
  V = Verifier env K T C L A

  -- One call after the other, whether it returns or throws.
  abbrev pub run_calls : List Call → V → V
  run_calls [] w = w
  run_calls (requests_proof now x challenge verifier ∷ rest) w =
      run_calls rest (final (post_request_proof env K T C L A now x challenge verifier w))
  run_calls (presents now x vp ∷ rest) w =
      run_calls rest (final (post_verify_presentation env K T C L A now x vp w))

  -- Not in Redis, at any time.
  abbrev Gone : ℕ → V → Type 0
  Gone id w = (t : ℕ) → live_request env K T C L A w t id ≡ none

  request-Gone :
      (now x challenge verifier id : ℕ) (w : V)
      → x ≢ id
      → Gone id w
      → Gone id (final (post_request_proof env K T C L A now x challenge verifier w))
  unfolding post_request_proof
  request-Gone now x challenge verifier id w other gone t =
      let request : ProofRequest = record { challenge = challenge; verifier_did = verifier } in
      ground (
        arith,
        other,
        gone t,
        Keyspace.live-put_ex K now x request proof_request_ttl_s w.requests t id,
      )

  grant-Gone :
      (now x : ℕ) (claim : DisclosureProofInput) (issuer : ℕ) (request : ProofRequest) (id : ℕ)
      (w : V)
      → Gone id w
      → Gone id (final (grant env K T C L A now x claim issuer request w))
  unfolding grant
  grant-Gone now x claim issuer request id w gone t =
      elim (Outcome-cases (
        verify_claim T C L A (VerifierEnv.disclosure env) now
          (record claim { verifier_id = request.verifier_did }) w.db)) [
            | inl (r, db, e) ↦ ground (arith, e, gone t, Keyspace.live-remove K x w.requests t id)
            | inr (y, db, e) ↦ ground (arith, e, gone t)
          ]

  issuer-Gone :
      (now x holder : ℕ) (d : ZkDisclosure) (claim : DisclosureProofInput) (request : ProofRequest)
      (vc : EmbeddedVc) (issuer : Option ℕ) (id : ℕ) (w : V)
      → Gone id w
      → Gone id (final (check_issuer env K T C L A now x holder d claim request vc issuer w))
  unfolding check_issuer
  issuer-Gone now x holder d claim request vc none id w gone t = gone t
  issuer-Gone now x holder d claim request vc (some issuer) id w gone t =
      let granted = grant-Gone now x claim issuer request id w gone t in
      elim (Option-cases (VerifierEnv.resolve_key env issuer)) [
        | inl unknown ↦ ground (arith, unknown, gone t)
        | inr (key, known) ↦
            elim (Bool-cases
              (vc_proof_valid env key (canonical_data d issuer holder vc) vc.proof_value)) [
                | inl valid ↦ ground (arith, known, valid, granted)
                | inr invalid ↦ ground (arith, known, invalid, gone t)
              ]
      ]

  vc-Gone :
      (now x holder : ℕ) (d : ZkDisclosure) (claim : DisclosureProofInput) (request : ProofRequest)
      (vc : Option EmbeddedVc) (id : ℕ) (w : V)
      → Gone id w
      → Gone id (final (check_vc env K T C L A now x holder d claim request vc w))
  unfolding check_vc
  vc-Gone now x holder d claim request none id w gone = gone
  vc-Gone now x holder d claim request (some vc) id w gone =
      issuer-Gone now x holder d claim request vc vc.issuer id w gone

  found-Gone :
      (now x : ℕ) (vp : Presentation) (d : ZkDisclosure) (claim : DisclosureProofInput)
      (request : Option ProofRequest) (id : ℕ) (w : V)
      → Gone id w
      → Gone id (final (check_request env K T C L A now x vp d claim request w))
  unfolding check_request
  found-Gone now x vp d claim none id w gone = gone
  found-Gone now x vp d claim (some request) id w gone =
      elim (Bool-cases (challenge_matches d.verifier_challenge request.challenge)) [
        | inl fits ↦ rw fits (vc-Gone now x vp.holder d claim request vp.credential id w gone)
        | inr differs ↦ rw differs gone
      ]

  claim-Gone :
      (now x : ℕ) (vp : Presentation) (d : ZkDisclosure) (claim : Option DisclosureProofInput)
      (id : ℕ) (w : V)
      → Gone id w
      → Gone id (final (check_claim env K T C L A now x vp d claim w))
  unfolding check_claim
  claim-Gone now x vp d none id w gone t = gone t
  claim-Gone now x vp d (some claim) id w gone t =
      let found = live_request env K T C L A w now x in
      let left = found-Gone now x vp d claim found id w gone t in
      elim (Bool-cases (Keyspace.down K w.requests)) [
        | inl down ↦ ground (arith, down, gone t)
        | inr up ↦ ground (arith, up, left)
      ]

  presentation-Gone :
      (now x : ℕ) (vp : Presentation) (id : ℕ) (w : V)
      → Gone id w
      → Gone id (final (post_verify_presentation env K T C L A now x vp w))
  unfolding post_verify_presentation check_disclosure
  presentation-Gone now x vp id w gone t = elim (Option-cases vp.zk_disclosure) [
    | inl missing ↦ ground (arith, missing, gone t)
    | inr (d, there) ↦
        let claim = claim_of d d.groth16_proof d.public_signals in
        ground (arith, there, gone t, claim-Gone now x vp d claim id w gone t)
  ]

  run-Gone :
      (calls : List Call) (id : ℕ) (w : V)
      → Undrawn id calls
      → Gone id w
      → Gone id (run_calls calls w)
  run-Gone [] id w u gone = gone
  run-Gone (requests_proof now x challenge verifier ∷ rest) id w (other, u) gone =
      run-Gone rest id (final (post_request_proof env K T C L A now x challenge verifier w)) u
        (request-Gone now x challenge verifier id w other gone)
  run-Gone (presents now x vp ∷ rest) id w u gone =
      run-Gone rest id (final (post_verify_presentation env K T C L A now x vp w)) u
        (presentation-Gone now x vp id w gone)

  -- A proof request is good for one grant, among calls that do not overlap: after the grant and any
  -- run of later calls that ask for proofs and present, one after the other and each returning or
  -- throwing, no presentation for the request is granted, at whatever time, as long as no call draws
  -- its identifier anew.
  pub granted_once :
      (now later id : ℕ) (vp again : Presentation) (calls : List Call) (w w' : V) (g : Grant)
      → post_verify_presentation env K T C L A now id vp w ≡ ok g w'
      → Undrawn id calls
      → ¬ Succeeds (post_verify_presentation env K T C L A later id again (run_calls calls w'))
  granted_once now later id vp again calls w w' g e u = not-Succeeds _ λ g2 v h.
      let first = post_verify-Granted env K T C L A now id vp w w' g e in
      let second = post_verify-Granted env K T C L A later id again (run_calls calls w') v g2 h in
      ground (arith, run-Gone calls id w' u first.consumed later, second.live)
