-- ===== src/Attestation/Tests.antt =====
-- A validator's attestation that is accepted once.
use flop_proof_api.Base.{
  ◌≡◌, refl, true, false, not, List, [], ◌∷◌, all, none, Result, ok, ◌>>=◌, ◌⊎◌,
}
use Prim.Native.String.{String}
use flop_proof_api.Base.Sets.{contains}
use flop_proof_api.Value.{Value, str, pos, obj, Fields, field, end, get, find, get_in, is_nat}
use flop_proof_api.Json.{dumps}
use flop_proof_api.Base.Bytes.{Bytes, to_le, zeros, same_bytes, to_hex, fromhex}
use flop_proof_api.Transcript.Tests.{ones}
use flop_proof_api.Verification.Tests.{level_host}
use flop_proof_api.Attestation.{
  ValidatorAttestation, Threshold, post_init, has_bytes, has_distinct_validator_ids, is_processed,
  mark_processed, calculate_validator_quorum, encode_validator_attestation_signable_payload,
  same_claims, verify_validator_attestation_signature, all_agree,
  verify_validator_attestation_quorum, verify_and_accept_validator_attestation_quorum,
}
use flop_proof_api.Store.{Tables, insert_event, sorted_onto, chain_of}
use flop_proof_api.Attestation.{
  compute_report_data, verify_validator_attestation_report_data,
  validate_gn_latency_throughput_tripwire,
}
use flop_proof_api.Attestation.Bundle.{
  hash_matches, number_matches, validator_attestation_matches_result, tripwire,
  verify_validator_attestation_bundle_for_result,
  verify_and_accept_validator_attestation_bundle_for_result,
}
use flop_proof_api.Attestation.Endpoint.{
  AttestationInput, decode_attestation, decode_attestations, claim_processed_task,
  accept_proof_validator_attestations,
}
use flop_proof_api.Attestation.Claims.{
  claim_if, accept_is_verify_then_claim, Call, accepted_hashes, is_distinct, tasks_claimed_once,
}
use flop_proof_api.Attestation.Acceptance.{Accepted, accept_all, Accepted-of_run, accepted_once}

abbrev attestation : ValidatorAttestation
attestation = record {
  task_hash = ones;
  gn_weight = 10;
  latency_ms = 20;
  model_hash = ones;
  output_hash = ones;
  decode_policy_hash = ones;
  tee_type = 1;
  quote_verified = true;
  event_log_verified = true;
  hardware_id_hash = ones;
  validator_id = ones;
  signature = zeros 64;
}

abbrev two_thirds : Threshold
two_thirds = record { numerator = 2; denominator = 3 }

-- Opening this opens the module for a test.
attestations : Unit {0}
unfolding to_le zeros same_bytes post_init has_bytes has_distinct_validator_ids is_processed
    mark_processed calculate_validator_quorum encode_validator_attestation_signable_payload
    same_claims verify_validator_attestation_signature all_agree verify_validator_attestation_quorum
    verify_and_accept_validator_attestation_quorum accept_all get find get_in is_nat to_hex fromhex
    contains dumps insert_event sorted_onto chain_of compute_report_data
    verify_validator_attestation_report_data validate_gn_latency_throughput_tripwire hash_matches
    number_matches validator_attestation_matches_result tripwire
    verify_validator_attestation_bundle_for_result decode_attestation decode_attestations
    claim_processed_task accept_proof_validator_attestations accepted_hashes
attestations = tt

quorum_run :
    (calculate_validator_quorum 10 two_thirds ≡ ok 7)
    × (calculate_validator_quorum 0 two_thirds ≡ ok 1)
    × (post_init attestation ≡ ok tt)
unfolding attestations
quorum_run = (refl, refl, refl)

accepting_run :
    verify_and_accept_validator_attestation_quorum level_host
      (attestation ∷ [])
      (ones ∷ [])
      two_thirds
      []
    ≡ ok (true, ones ∷ [])
unfolding attestations
accepting_run = refl

no_calls : accept_all level_host (ones ∷ []) two_thirds [] (ones ∷ []) ≡ ok (ones ∷ [])
unfolding attestations
no_calls = refl

Accepted-of_run_example :
    ((true ≡ false) × (◌≡◌ {A = List Bytes} (ones ∷ []) []))
    ⊎ ((true ≡ true) × Accepted level_host (attestation ∷ []) (ones ∷ []) two_thirds [] (ones ∷ []))
Accepted-of_run_example =
    Accepted-of_run level_host (ones ∷ []) two_thirds (attestation ∷ []) [] (true, ones ∷ [])
      accepting_run

accepted_once_example :
    verify_and_accept_validator_attestation_quorum level_host
      (attestation ∷ [])
      (ones ∷ [])
      two_thirds
      (ones ∷ [])
    ≡ ok (false, ones ∷ [])
accepted_once_example =
    accepted_once level_host (ones ∷ []) two_thirds attestation attestation [] [] [] (ones ∷ [])
      (ones ∷ []) [] accepting_run no_calls refl

-- A stored result, and a validator's attestation that is bound to it.
abbrev ones_hex : String
ones_hex = to_hex ones

abbrev result : Fields
result = field "decode_policy_hash" (str ones_hex) (
    field "gn_weight" (pos 10) (
      field "latency_ms" (pos 20) (
        field "model_hash" (str ones_hex) (
          field "output_hash" (str ones_hex)
            (field "task_hash" (str ones_hex) (field "tee_type" (pos 1) end))))))

abbrev zeros_hex : String
zeros_hex = to_hex (zeros 64)

abbrev input : AttestationInput
input = record {
  task_hash = ones_hex;
  gn_weight = 10;
  latency_ms = 20;
  model_hash = ones_hex;
  output_hash = ones_hex;
  decode_policy_hash = ones_hex;
  tee_type = 1;
  quote_verified = true;
  event_log_verified = true;
  hardware_id_hash = ones_hex;
  validator_id = ones_hex;
  signature = "AAAA";
}

abbrev tables : Tables
tables = record {
  proofs =
      record {
        proof_id = "p";
        request_id = "r";
        version = "4";
        status = "active";
        created_at = "t";
        updated_at = "t";
      }
      ∷ [];
  events =
      record {
        event_id = "e";
        proof_id = "p";
        event_type = "result.created";
        actor_did = "a";
        payload_hash = "h";
        payload_json = dumps (obj result);
        canonical = "c";
        signature = "s";
        created_at = "t";
        sequence = 1;
        previous_event_hash = none;
        nonce = "n";
      }
      ∷ [];
}

abbrev call : Call
call = record {
  tables = tables;
  proof_id = "p";
  request = record { report_data = zeros_hex; attestations = input ∷ [] };
}

abbrev decoded : String → Result Bytes
decoded text = ok (zeros 64)

abbrev loaded : String → Result Value
loaded text = ok (obj result)

-- The same call twice is accepted once.
two_calls :
    accepted_hashes level_host decoded (ones ∷ []) two_thirds loaded (call ∷ call ∷ []) []
    ≡ ones_hex ∷ []
unfolding attestations
two_calls = refl

tasks_claimed_once_example :
    (all
        (λ h. not (contains [] h))
        (accepted_hashes level_host decoded (ones ∷ []) two_thirds loaded (call ∷ call ∷ []) [])
      ≡ true)
    × (is_distinct level_host decoded
          (ones ∷ [])
          two_thirds
          loaded
          (accepted_hashes level_host decoded (ones ∷ []) two_thirds loaded (call ∷ call ∷ []) [])
        ≡ true)
tasks_claimed_once_example =
    tasks_claimed_once level_host decoded (ones ∷ []) two_thirds loaded (call ∷ call ∷ []) []

accept_is_verify_then_claim_example :
    verify_and_accept_validator_attestation_bundle_for_result level_host
      (attestation ∷ [])
      (obj result)
      zeros_hex
      (ones ∷ [])
      two_thirds
      []
    ≡ (verify_validator_attestation_bundle_for_result level_host
          (attestation ∷ [])
          (obj result)
          zeros_hex
          (ones ∷ [])
          two_thirds
        >>= λ verified. claim_if level_host verified [] ones)
accept_is_verify_then_claim_example =
    accept_is_verify_then_claim level_host attestation [] (obj result) zeros_hex (ones ∷ [])
      two_thirds []
