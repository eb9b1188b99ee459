-- ===== src/Attestation/Endpoint.antt =====
-- app/main.py, app/replay.py: the endpoints that accept attestations and STARK batches.
use Prim.Native.String
use Prim.Native.String.{String}
use text.Mathlib.Text.{◌==◌ as str_eq}
use flop_proof_api.Base.{
  ℕ, zero, suc, ◌-◌, ◌%◌, Bool, true, false, not, ◌&&◌, List, [], ◌∷◌, ◌++◌, Option, none, some,
  any, length, ◌==◌, if◌then◌else◌, Result, ok, err, value_error, http_exception, raise_if, ◌>>=◌,
  ◌>>◌,
}
use flop_proof_api.Base.Bytes.{Bytes, fromhex, to_hex}
use flop_proof_api.Base.Strings.{codes}
use flop_proof_api.Base.Sets.{contains}
use flop_proof_api.Host.{Host}
use flop_proof_api.Value.{Value, pos, negsuc, arr, Items, obj, Fields, find, get}
use flop_proof_api.Records.{last_of}
use flop_proof_api.Authorization.{result_created}
use flop_proof_api.Attestation.{ValidatorAttestation, Threshold, post_init}
use flop_proof_api.Attestation.Bundle.{
  tripwire, verify_validator_attestation_bundle_for_result,
  verify_and_accept_validator_attestation_bundle_for_result,
}
use flop_proof_api.Store.{ProofEvent, Tables, first_proof, chain_of}
use flop_proof_api.Store.Append.{http, or_404}

-- `ValidatorAttestationSchema` of app/schemas.py
pub record AttestationInput : Type 0 where
  pub task_hash : String
  pub gn_weight : ℕ
  pub latency_ms : ℕ
  pub model_hash : String
  pub output_hash : String
  pub decode_policy_hash : String
  pub tee_type : ℕ
  pub quote_verified : Bool
  pub event_log_verified : Bool
  pub hardware_id_hash : String
  pub validator_id : String
  pub signature : String

-- `ValidatorAttestationAcceptRequest`
pub record AcceptRequest : Type 0 where
  pub result : Fields
  pub report_data : String
  pub attestations : List AttestationInput

-- `ProofValidatorAttestationAcceptRequest`
pub record ProofAcceptRequest : Type 0 where
  pub report_data : String
  pub attestations : List AttestationInput

-- The answers of the two endpoints, but for "accepted" and "evidence", which are constant.
pub record AcceptedBundle : Type 0 where
  pub task_hash : String
  pub validators : ℕ

pub record AcceptedProof : Type 0 where
  pub task_hash : String
  pub validators : ℕ
  pub result_event_id : String

-- `"=" * n`
abbrev equals_signs : ℕ → String
equals_signs zero = ""
equals_signs (suc n) = String.◌++◌ "=" (equals_signs n)

abbrev padded : String → String
padded signature = String.◌++◌ signature (equals_signs ((4 - length (codes signature) % 4) % 4))

-- `b64decode` is base64.b64decode with the two other characters and `validate=True`.
module _ (b64decode : String → Result Bytes) where
  unfoldable pub decode_attestation : AttestationInput → Result ValidatorAttestation
  decode_attestation input = do
    task_hash ← fromhex input.task_hash
    model_hash ← fromhex input.model_hash
    output_hash ← fromhex input.output_hash
    decode_policy_hash ← fromhex input.decode_policy_hash
    hardware_id_hash ← fromhex input.hardware_id_hash
    validator_id ← fromhex input.validator_id
    signature ← b64decode (padded input.signature)
    let attestation : ValidatorAttestation = record {
      task_hash = task_hash;
      gn_weight = input.gn_weight;
      latency_ms = input.latency_ms;
      model_hash = model_hash;
      output_hash = output_hash;
      decode_policy_hash = decode_policy_hash;
      tee_type = input.tee_type;
      quote_verified = input.quote_verified;
      event_log_verified = input.event_log_verified;
      hardware_id_hash = hardware_id_hash;
      validator_id = validator_id;
      signature = signature;
    }
    post_init attestation
    ok attestation

  unfoldable pub decode_attestations : List AttestationInput → Result (List ValidatorAttestation)
  decode_attestations [] = ok []
  decode_attestations (input ∷ inputs) = do
    attestation ← decode_attestation input
    attestations ← decode_attestations inputs
    ok (attestation ∷ attestations)

-- `except (ValueError, TypeError)` around the decoding
abbrev pub or_422 {ℓ} : {A : Type ℓ} → Result A → Result A
or_422 (ok a) = ok a
or_422 (err _) = http 422 "Invalid validator attestation encoding"

abbrev pub is_int : Value → Bool
is_int (pos _) = true
is_int (negsuc _) = true
is_int _ = false

abbrev pub integer_claims : Fields → Bool
integer_claims result =
    is_int (get "gn_weight" result)
    && is_int (get "latency_ms" result)
    && is_int (get "tee_type" result)

abbrev pub first_hash : List ValidatorAttestation → Bytes
first_hash [] = []
first_hash (first ∷ _) = first.task_hash

-- `claim_processed_task`: the answer, and the rows of processed_tasks after it
unfoldable pub claim_processed_task : List String → Bytes → Result (Bool × List String)
claim_processed_task rows task_hash = do
  raise_if (not (length task_hash == 32)) (value_error "task_hash must be exactly 32 bytes")
  if contains rows (to_hex task_hash)
      then ok (false, rows)
      else ok (true, rows ++ to_hex task_hash ∷ [])

abbrev pub required_fields : List String
required_fields =
    "task_hash" ∷ "model_hash" ∷ "gn_weight" ∷ "latency_ms" ∷ "decode_policy_hash" ∷ "tee_type"
    ∷ "output_hash" ∷ []

abbrev pub is_missing : Fields → String → Bool
is_missing result field = elim (find field result) [ none ↦ true | some _ ↦ false ]

abbrev pub results_of : List ProofEvent → List ProofEvent
results_of [] = []
results_of (e ∷ events) =
    let rest = results_of events in if str_eq e.event_type result_created then e ∷ rest else rest

abbrev pub or_409 : Option ProofEvent → Result ProofEvent
or_409 none = http 409 "result.created event not found"
or_409 (some event) = ok event

-- The payload of the result, where it is an object.
abbrev pub read_result : Result Value → Result Fields
read_result (ok (obj result)) = ok result
read_result _ = http 409 "Invalid result.created payload"

module _ (host : Host) (b64decode : String → Result Bytes) (registry : List Bytes)
    (threshold : Threshold) where
  -- The answer of the endpoint, and the set of processed tasks after it.
  unfoldable pub accept_validator_attestations :
      AcceptRequest → List Bytes → Result (AcceptedBundle × List Bytes)
  unfolding tripwire
  accept_validator_attestations request processed = do
    attestations ← or_422 (decode_attestations b64decode request.attestations)
    raise_if (not (integer_claims request.result))
        (http_exception 422 "Invalid validator result encoding")
    raise_if (not (tripwire (get "gn_weight" request.result) (get "latency_ms" request.result)))
        (http_exception 409 "Validator attestation bundle rejected: throughput tripwire")
    (accepted, after) ←
        verify_and_accept_validator_attestation_bundle_for_result host attestations
          (obj request.result) request.report_data registry threshold processed
    raise_if (not accepted) (http_exception 409 "Validator attestation bundle rejected")
    ok (
      record { task_hash = to_hex (first_hash attestations); validators = length attestations },
      after,
    )

  -- The answer of the endpoint, and the rows of processed_tasks after it; `json_loads` is
  -- json.loads, which raises ValueError.
  unfoldable pub accept_proof_validator_attestations :
      (String → Result Value)
      → Tables
      → String
      → ProofAcceptRequest
      → List String
      → Result (AcceptedProof × List String)
  accept_proof_validator_attestations json_loads tables proof_id request rows = do
    proof ← or_404 (first_proof tables.proofs proof_id)
    result_event ← or_409 (last_of (results_of (chain_of tables.events proof_id)))
    result ← read_result (json_loads result_event.payload_json)
    raise_if (any (is_missing result) required_fields)
        (http_exception 409 "result.created is not validator-ready")
    attestations ← or_422 (decode_attestations b64decode request.attestations)
    validated ←
        verify_validator_attestation_bundle_for_result host attestations (obj result)
          request.report_data registry threshold
    raise_if (not validated) (http_exception 409 "Validator attestation bundle rejected")
    (claimed, after) ← claim_processed_task rows (first_hash attestations)
    raise_if (not claimed) (http_exception 409 "Validator attestation bundle rejected")
    ok (
      record {
        task_hash = to_hex (first_hash attestations);
        validators = length attestations;
        result_event_id = result_event.event_id;
      },
      after,
    )

-- `StarkBatchSubmitRequest`, with the hashes as they are sent
pub record StarkBatch : Type 0 where
  pub proofs : Items
  pub gn_weight : ℕ
  pub task_hash : String
  pub latency_ms : ℕ
  pub model_hash : String
  pub output_hash : String

-- A row of pending_verifications.
pub record PendingVerification : Type 0 where
  pub task_hash : String
  pub proofs_json : String
  pub gn_weight : ℕ
  pub latency_ms : ℕ
  pub model_hash : String
  pub output_hash : String

abbrev already_submitted {ℓ} : {A : Type ℓ} → Result A
already_submitted = http 409 "task_hash already submitted"

abbrev pub has_task : List PendingVerification → String → Bool
has_task rows task_hash = any (λ row. str_eq row.task_hash task_hash) rows

-- `lower` is `str.lower`, and `json_dumps` is json.dumps with sorted keys and the fixed separators,
-- which escapes what is not ASCII.
module _ (lower : String → String) (json_dumps : Value → String) where
  -- `validate_hash_hex`
  unfoldable pub validate_hash_hex : String → Result String
  validate_hash_hex value = do
    _ ← fromhex value
    raise_if (not (length (codes value) == 64)) (value_error "hash must represent exactly 32 bytes")
    ok (lower value)

  -- The fields of the request are read by the validators, whose ValueError pydantic turns into 422; the body of the endpoint follows.
  unfoldable pub submit_stark_batch :
      List PendingVerification → StarkBatch → Result (String × List PendingVerification)
  submit_stark_batch rows payload = do
    task_hash ← validate_hash_hex payload.task_hash
    model_hash ← validate_hash_hex payload.model_hash
    output_hash ← validate_hash_hex payload.output_hash
    if has_task rows (lower task_hash)
        then already_submitted
        else ok (
          lower task_hash,
          rows
              ++ record {
                task_hash = lower task_hash;
                proofs_json = json_dumps (arr payload.proofs);
                gn_weight = payload.gn_weight;
                latency_ms = payload.latency_ms;
                model_hash = lower model_hash;
                output_hash = lower output_hash;
              }
                ∷ [],
        )
