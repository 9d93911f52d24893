-- ===== src/Zkp.antt =====
-- The verification of Groth16 proofs of backend/src/services/zkp/zkp.service.ts. snarkjs is a
-- parameter, with the verification key that was read at start-up, if it was. The padding of the time
-- is `padded`; it does not touch the state.
pub mod Laws
mod Examples
use zk_auth.Prelude.{
  ℕ, ◌+◌, ◌-◌, ◌%◌, ◌≤◌, ◌==◌, leb, ltb, not, length, Bool, true, false, ◌&&◌, Option, none, some,
  List, [], ◌∷◌, if◌then◌else◌,
}
use zk_auth.Errors.{
  Error, app_error, invalid_proof, service_unavailable, user_suspended, user_not_found,
}
use zk_auth.Effects.{M, ◌>>=◌, ◌>>◌, return, throw}
use zk_auth.Text.{Text, all_digits, decimal}
use zk_auth.Stores.{find_first}
use zk_auth.Schema.{Backends, UserRow, UserStatus, active, suspended, pending_verify}
use zk_auth.World.{World, in_user_rows}

-- A field of the proof as it was parsed from JSON: a list, or anything else.
pub data Field (A : Type 0) : Type 0 where
  items : List A → Field A
  no_list : Field A

pub data Protocol : Type 0 where
  groth16_protocol other_protocol : Protocol

pub data Curve : Type 0 where
  bn128 bn254 other_curve : Curve

-- `none` is a missing field. Coordinates are numbers that stand for their texts.
pub record Proof : Type 0 where
  pub pi_a : Option (Field ℕ)
  pub pi_b : Option (Field (Field ℕ))
  pub pi_c : Option (Field ℕ)
  pub protocol : Option Protocol
  pub curve : Option Curve

-- The nonce is the number that the hexadecimal text of the challenge says.
pub record VerificationInput : Type 0 where
  pub proof : Proof
  pub public_signals : List Text
  pub challenge_nonce : ℕ

pub record VerificationResult : Type 0 where
  pub nullifier_hash : ℕ
  pub commitment_root : ℕ
  pub user_id : ℕ

-- `dev_skip` is DEV_SKIP, `v_key` the loaded key, and `groth16_verify` snarkjs, which may throw
-- (`none`). `name` gives the number that stands for a text in the database.
pub record ZkpEnv : Type 0 where
  pub dev_skip : Bool
  pub v_key : Option ℕ
  pub groth16_verify : ℕ → List Text → Proof → Option Bool
  pub name : Text → ℕ

abbrev pub bn254_field_modulus : ℕ
bn254_field_modulus = 21888242871839275222246405745257275088548364400416034343698204186575808495617

abbrev pub rejected : Error
rejected = app_error invalid_proof 400

-- `/^\d{1,78}$/`
abbrev pub is_valid_field_element : Text → Bool
is_valid_field_element t = all_digits t && (leb 1 (length t) && leb (length t) 78)

abbrev pub has_length {ℓ} : {A : Type ℓ} → ℕ → List A → Bool
has_length n xs = length xs == n

abbrev pub is_triple : Option (Field ℕ) → Bool
is_triple (some (items xs)) = has_length 3 xs
is_triple _ = false

abbrev pub is_pair : Field ℕ → Bool
is_pair (items xs) = has_length 2 xs
is_pair no_list = false

pub all_pairs : List (Field ℕ) → Bool
all_pairs [] = true
all_pairs (row ∷ rows) = is_pair row && all_pairs rows

abbrev pub is_three_pairs : Option (Field (Field ℕ)) → Bool
is_three_pairs (some (items rows)) = has_length 3 rows && all_pairs rows
is_three_pairs _ = false

abbrev pub is_groth16 : Option Protocol → Bool
is_groth16 (some groth16_protocol) = true
is_groth16 _ = false

abbrev pub is_known_curve : Option Curve → Bool
is_known_curve (some bn128) = true
is_known_curve (some bn254) = true
is_known_curve _ = false

-- Every check throws INVALID_PROOF, so their order does not show.
pub validate_proof_shape : Proof → Bool
unfolding all_pairs
validate_proof_shape p =
    is_groth16 p.protocol
    && (is_known_curve p.curve && (is_triple p.pi_a && (is_three_pairs p.pi_b && is_triple p.pi_c)))

module _ (B : Backends) (env : ZkpEnv) where
  open env use {dev_skip, v_key, groth16_verify, name}

  abbrev pub by_commitment : ℕ → ℕ → UserRow → Bool
  by_commitment hash _ row = row.commitment_hash == hash

  pub find_user : ℕ → M (World B) (Option (ℕ × UserRow))
  find_user hash = in_user_rows (find_first B.user_rows (by_commitment hash))

  abbrev pub result_of : Text → Text → ℕ → VerificationResult
  result_of nullifier commitment user = record {
    nullifier_hash = name nullifier;
    commitment_root = name commitment;
    user_id = user;
  }

  -- Step 6 and what is returned. Without a user the answer is that of a bad proof.
  admit_user : Text → Text → Option (ℕ × UserRow) → M (World B) VerificationResult
  admit_user nullifier commitment none = throw rejected
  admit_user nullifier commitment (some (id, row)) = elim row.status [
    | active ↦ return (result_of nullifier commitment id)
    | suspended ↦ throw (app_error user_suspended 403)
    | pending_verify ↦ throw (app_error user_not_found 403)
  ]

  -- The development bypass looks only at whether the user is suspended.
  dev_admit_user : Text → Text → Option (ℕ × UserRow) → M (World B) VerificationResult
  dev_admit_user nullifier commitment none = throw rejected
  dev_admit_user nullifier commitment (some (id, row)) = elim row.status [
    | suspended ↦ throw (app_error user_suspended 403)
    | _ ↦ return (result_of nullifier commitment id)
  ]

  abbrev pub is_empty : Text → Bool
  is_empty t = has_length 0 t

  dev_verify : List Text → M (World B) VerificationResult
  unfolding find_user dev_admit_user
  dev_verify (nullifier ∷ commitment ∷ others) =
      if is_empty nullifier
      then throw rejected
      else if is_empty commitment
      then throw rejected
      else (do user ← find_user (name commitment); dev_admit_user nullifier commitment user)
  dev_verify signals = throw rejected

  -- The tests of steps 2 to 4: field elements, the nonce of this challenge, the shape of the proof
  -- and the proof itself. A failure of any of them, or an exception of snarkjs, is INVALID_PROOF.
  accepts : ℕ → ℕ → Proof → Text → Text → Text → Bool
  unfolding validate_proof_shape
  accepts key nonce proof nullifier commitment nonce_signal =
      is_valid_field_element nullifier
      && (is_valid_field_element commitment
          && (is_valid_field_element nonce_signal
              && (nonce % bn254_field_modulus == decimal nonce_signal
                  && (validate_proof_shape proof
                      && elim (groth16_verify key (nullifier ∷ commitment ∷ nonce_signal ∷ [])
                          proof) [ some true ↦ true | some false ↦ false | none ↦ false ]))))

  resolve : Text → Text → M (World B) VerificationResult
  unfolding find_user admit_user
  resolve nullifier commitment = do
    user ← find_user (name commitment)
    admit_user nullifier commitment user

  verify_signals : ℕ → ℕ → Proof → List Text → M (World B) VerificationResult
  unfolding accepts resolve
  verify_signals key nonce proof (nullifier ∷ commitment ∷ nonce_signal ∷ []) =
      if accepts key nonce proof nullifier commitment nonce_signal
      then resolve nullifier commitment
      else throw rejected
  verify_signals key nonce proof signals = throw rejected

  verify_with : Option ℕ → VerificationInput → M (World B) VerificationResult
  unfolding verify_signals
  verify_with none input = throw (app_error service_unavailable 503)
  verify_with (some key) input =
      verify_signals key input.challenge_nonce input.proof input.public_signals

  unfoldable pub verify : VerificationInput → M (World B) VerificationResult
  unfolding dev_verify verify_with
  verify input = if dev_skip then dev_verify input.public_signals else verify_with v_key input

-- How long `verify` takes, in milliseconds: `elapsed` for the verification itself, and `draw` for
-- `Math.floor(Math.random() * JITTER_MS * 2)`, which is below 20. The target is 50 + draw - 10.
abbrev pub target_verify_ms : ℕ
target_verify_ms = 50

abbrev pub jitter_ms : ℕ
jitter_ms = 10

pub padded : ℕ → ℕ → ℕ
padded elapsed draw = elapsed + (target_verify_ms + draw - jitter_ms - elapsed)
