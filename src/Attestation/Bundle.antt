-- ===== src/Attestation/Bundle.antt =====
-- app/crypto.py: attestations that are bound to a result, and their acceptance.
use Prim.Native.String.{String}
use flop_proof_api.Base.{
  ℕ, Bool, true, false, not, ◌&&◌, List, [], ◌∷◌, ◌++◌, length, ◌==◌, if◌then◌else◌, Result, ok,
  err, value_error, raise_if, ◌>>=◌, ◌>>◌,
}
use flop_proof_api.Base.Bytes.{Bytes, same_bytes, fromhex}
use flop_proof_api.Host.{Host}
use flop_proof_api.Value.{Value, str, pos, bool, get_in, is_nat, is_object}
use flop_proof_api.Attestation.{
  ValidatorAttestation, Threshold, is_processed, mark_processed,
  verify_validator_attestation_quorum, verify_validator_attestation_report_data,
  encode_validator_attestation_signable_payload, validate_gn_latency_throughput_tripwire,
}

unfoldable pub encode_validator_attestation_scale : ValidatorAttestation → Result Bytes
encode_validator_attestation_scale attestation = do
  signed_payload ← encode_validator_attestation_signable_payload attestation
  raise_if (not (length attestation.validator_id == 32))
      (value_error "validator_id must be exactly 32 bytes")
  raise_if (not (length attestation.signature == 64))
      (value_error "signature must be exactly 64 bytes")
  ok (signed_payload ++ (attestation.validator_id ++ attestation.signature))

abbrev read_as : Result Bytes → Bytes → Bool
read_as (ok bytes) expected = same_bytes bytes expected
read_as (err _) expected = false

-- A hash field of the result.
unfoldable pub hash_matches : Value → Bytes → Bool
unfolding fromhex
hash_matches (str value) expected = read_as (fromhex value) expected
hash_matches _ expected = false

-- A numeric field of the result.
unfoldable pub number_matches : Value → ℕ → Bool
number_matches (bool _) n = false
number_matches value n = is_nat value n

unfoldable pub validator_attestation_matches_result : ValidatorAttestation → Value → Bool
unfolding hash_matches number_matches
validator_attestation_matches_result attestation result =
    is_object result
    && hash_matches (get_in "task_hash" result) attestation.task_hash
    && hash_matches (get_in "model_hash" result) attestation.model_hash
    && hash_matches (get_in "output_hash" result) attestation.output_hash
    && hash_matches (get_in "decode_policy_hash" result) attestation.decode_policy_hash
    && number_matches (get_in "gn_weight" result) attestation.gn_weight
    && number_matches (get_in "latency_ms" result) attestation.latency_ms
    && number_matches (get_in "tee_type" result) attestation.tee_type

-- The loop over the attestations.
abbrev pub all_match : List ValidatorAttestation → Value → Bool
all_match [] result = true
all_match (attestation ∷ attestations) result =
    validator_attestation_matches_result attestation result && all_match attestations result

-- `validate_gn_latency_throughput_tripwire` of two values; what is no count is refused.
unfoldable pub tripwire : Value → Value → Bool
tripwire (pos gn_weight) (pos latency_ms) =
    validate_gn_latency_throughput_tripwire gn_weight latency_ms
tripwire _ _ = false

module _ (host : Host) where
  unfoldable pub verify_validator_attestation_bundle_for_result :
      List ValidatorAttestation → Value → String → List Bytes → Threshold → Result Bool
  unfolding tripwire
  verify_validator_attestation_bundle_for_result [] result report_data registry threshold = ok false
  verify_validator_attestation_bundle_for_result (first ∷ others) result report_data registry
        threshold =
      if not (all_match (first ∷ others) result)
      then ok false
      else if not (verify_validator_attestation_report_data host first report_data)
      then ok false
      else (do
        verified ← verify_validator_attestation_quorum host (first ∷ others) registry threshold
        if not verified
            then ok false
            else ok (tripwire (get_in "gn_weight" result) (get_in "latency_ms" result)))

  unfoldable pub verify_and_accept_validator_attestation_bundle_for_result :
      List ValidatorAttestation
      → Value
      → String
      → List Bytes
      → Threshold
      → List Bytes
      → Result (Bool × List Bytes)
  verify_and_accept_validator_attestation_bundle_for_result [] result report_data registry threshold
        processed =
      ok (false, processed)
  verify_and_accept_validator_attestation_bundle_for_result (first ∷ others) result report_data
        registry threshold processed =
      if not (all_match (first ∷ others) result)
      then ok (false, processed)
      else if not (verify_validator_attestation_report_data host first report_data)
      then ok (false, processed)
      else (do
        verified ← verify_validator_attestation_quorum host (first ∷ others) registry threshold
        if not verified
            then ok (false, processed)
            else if not (tripwire (get_in "gn_weight" result) (get_in "latency_ms" result))
            then ok (false, processed)
            else (do
              old ← is_processed processed first.task_hash
              if old then ok (false, processed) else mark_processed processed first.task_hash))

  unfoldable pub verify_and_accept_validator_attestation_bundle :
      List ValidatorAttestation
      → String
      → List Bytes
      → Threshold
      → List Bytes
      → Result (Bool × List Bytes)
  verify_and_accept_validator_attestation_bundle [] report_data registry threshold processed =
      ok (false, processed)
  verify_and_accept_validator_attestation_bundle (first ∷ others) report_data registry threshold
        processed =
      do
        old ← is_processed processed first.task_hash
        if old then ok (false, processed) else (do
          verified ← verify_validator_attestation_quorum host (first ∷ others) registry threshold
          if not verified
              then ok (false, processed)
              else if not (verify_validator_attestation_report_data host first report_data)
              then ok (false, processed)
              else mark_processed processed first.task_hash)

  unfoldable pub verify_and_accept_validator_attestation :
      ValidatorAttestation
      → String
      → List Bytes
      → Threshold
      → List Bytes
      → Result (Bool × List Bytes)
  verify_and_accept_validator_attestation attestation report_data registry threshold processed = do
    old ← is_processed processed attestation.task_hash
    if old
        then ok (false, processed)
        else if not attestation.quote_verified
        then ok (false, processed)
        else if not attestation.event_log_verified
        then ok (false, processed)
        else if not (verify_validator_attestation_report_data host attestation report_data)
        then ok (false, processed)
        else (do
          verified ← verify_validator_attestation_quorum host (attestation ∷ []) registry threshold
          if not verified
              then ok (false, processed)
              else mark_processed processed attestation.task_hash)
