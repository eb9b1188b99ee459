-- ===== src/Attestation.antt =====
-- app/crypto.py: validator attestations, their quorum, and the tasks that they complete.
pub mod Acceptance
pub mod Bundle
pub mod Claims
pub mod Endpoint
mod Tests
use Prim.Native.String
use Prim.Native.String.{String}
use text.Mathlib.Text.{◌==◌ as str_eq}
use flop_proof_api.Base.{
  or_false, ℕ, zero, suc, ◌+◌, ◌-◌, ◌*◌, ◌/◌, ◌^◌, Bool, true, false, not, ◌&&◌, ◌||◌, List, [],
  ◌∷◌, ◌++◌, Option, none, some, map, all, length, ltb, leb, ◌==◌, if◌then◌else◌, Result, ok, err,
  value_error, raise_if, ◌>>=◌, ◌>>◌,
}
use flop_proof_api.Base.Bytes.{Bytes, same_bytes, to_le, to_hex, fromhex, zeros}
use flop_proof_api.Host.{Host}
use flop_proof_api.Value.{Value, str, bool, obj, get, is_nat}
use flop_proof_api.Channel.{u64, h256, sr25519_signature}

pub record ValidatorAttestation : Type 0 where
  pub task_hash : Bytes
  pub gn_weight : ℕ
  pub latency_ms : ℕ
  pub model_hash : Bytes
  pub output_hash : Bytes
  pub decode_policy_hash : Bytes
  pub tee_type : ℕ
  pub quote_verified : Bool
  pub event_log_verified : Bool
  pub hardware_id_hash : Bytes
  pub validator_id : Bytes
  pub signature : Bytes

abbrev u8 : ℕ → String → Result (Unit {0})
u8 value name = raise_if (ltb 255 value) (value_error (String.◌++◌ name " must be a u8"))

-- `__post_init__`
unfoldable pub post_init : ValidatorAttestation → Result (Unit {0})
post_init attestation = do
  h256 attestation.task_hash "task_hash"
  h256 attestation.model_hash "model_hash"
  h256 attestation.output_hash "output_hash"
  h256 attestation.decode_policy_hash "decode_policy_hash"
  h256 attestation.hardware_id_hash "hardware_id_hash"
  h256 attestation.validator_id "validator_id"
  raise_if (not (length attestation.signature == 64))
      (value_error "signature must be exactly 64 bytes")
  u64 attestation.gn_weight "gn_weight"
  u64 attestation.latency_ms "latency_ms"
  u8 attestation.tee_type "tee_type"

-- `value in values`, for a list, a tuple or a set of bytes
unfoldable pub has_bytes : List Bytes → Bytes → Bool
has_bytes [] value = false
has_bytes (x ∷ values) value = same_bytes x value || has_bytes values value

-- `len(ids) == len(set(ids))`
unfoldable pub has_distinct_validator_ids : List Bytes → Bool
has_distinct_validator_ids [] = true
has_distinct_validator_ids (id ∷ ids) = not (has_bytes ids id) && has_distinct_validator_ids ids

-- `MockValidatorRegistry(active_validator_ids)`: the identifiers that it keeps
unfoldable pub new_registry : List Bytes → Result (List Bytes)
new_registry active_validator_ids = do
  raise_if (not (all (λ id. length id == 32) active_validator_ids))
      (value_error "validator IDs must be exactly 32 bytes")
  raise_if (not (has_distinct_validator_ids active_validator_ids))
      (value_error "duplicate validator IDs are not allowed")
  ok active_validator_ids

-- `ProcessedTasks`: the set of the hashes, the latest first
unfoldable pub is_processed : List Bytes → Bytes → Result Bool
is_processed processed task_hash = h256 task_hash "task_hash" >> ok (has_bytes processed task_hash)

-- `claim` and `mark_processed`, whose bodies are the same: the answer, and the set after it
unfoldable pub mark_processed : List Bytes → Bytes → Result (Bool × List Bytes)
mark_processed processed task_hash = do
  h256 task_hash "task_hash"
  if has_bytes processed task_hash then ok (false, processed) else ok (true, task_hash ∷ processed)

-- `Fraction(threshold)`
pub record Threshold : Type 0 where
  pub numerator : ℕ
  pub denominator : ℕ

abbrev max : ℕ → ℕ → ℕ
max a b = if leb a b then b else a

unfoldable pub calculate_validator_quorum : ℕ → Threshold → Result ℕ
calculate_validator_quorum active_validator_count threshold = do
  raise_if (threshold.numerator == 0 || ltb threshold.denominator threshold.numerator)
      (value_error "threshold must be greater than 0 and at most 1")
  ok (
      max 1 (
        (active_validator_count * threshold.numerator + threshold.denominator - 1)
        / threshold.denominator))

-- `validate_gn_latency_throughput_tripwire`; a value that is no count is refused before.
unfoldable pub validate_gn_latency_throughput_tripwire : ℕ → ℕ → Bool
validate_gn_latency_throughput_tripwire gn_weight latency_ms =
    not (latency_ms == 0) && leb (gn_weight * 1000) (2000000 * latency_ms)

abbrev byte_of : Bool → ℕ
byte_of true = 1
byte_of false = 0

unfoldable pub encode_validator_attestation_signable_payload : ValidatorAttestation → Result Bytes
encode_validator_attestation_signable_payload attestation = do
  h256 attestation.task_hash "task_hash"
  h256 attestation.model_hash "model_hash"
  h256 attestation.output_hash "output_hash"
  h256 attestation.decode_policy_hash "decode_policy_hash"
  h256 attestation.hardware_id_hash "hardware_id_hash"
  u64 attestation.gn_weight "gn_weight"
  u64 attestation.latency_ms "latency_ms"
  u8 attestation.tee_type "tee_type"
  ok (
      attestation.task_hash
      ++ (to_le 8 attestation.gn_weight
          ++ (to_le 8 attestation.latency_ms
              ++ (attestation.model_hash
                  ++ (attestation.output_hash
                      ++ (attestation.decode_policy_hash
                          ++ (to_le 1 attestation.tee_type
                              ++ (byte_of attestation.quote_verified
                                  ∷ (byte_of attestation.event_log_verified
                                      ∷ attestation.hardware_id_hash)))))))))

-- `compute_report_data`, on the encodings that its caller gives it
unfoldable pub compute_report_data :
    Host → Bytes → Bytes → Bytes → Bytes → Bytes → Bytes → Bytes → Result String
compute_report_data host task_hash gn_weight latency_ms model_hash output_hash decode_policy_hash
      tee_type =
    do
      h256 task_hash "task_hash"
      h256 model_hash "model_hash"
      h256 output_hash "output_hash"
      h256 decode_policy_hash "decode_policy_hash"
      ok (
          to_hex (
            host.sha256 (
              task_hash
              ++ (gn_weight
                  ++ (latency_ms
                      ++ (model_hash ++ (output_hash ++ (decode_policy_hash ++ tee_type))))))
            ++ zeros 32))

-- The ten comparisons with the first attestation.
unfoldable pub same_claims : ValidatorAttestation → ValidatorAttestation → Bool
same_claims a b =
    same_bytes a.task_hash b.task_hash
    && a.gn_weight == b.gn_weight
    && a.latency_ms == b.latency_ms
    && same_bytes a.model_hash b.model_hash
    && same_bytes a.output_hash b.output_hash
    && same_bytes a.decode_policy_hash b.decode_policy_hash
    && a.tee_type == b.tee_type
    && byte_of a.quote_verified == byte_of b.quote_verified
    && byte_of a.event_log_verified == byte_of b.event_log_verified
    && same_bytes a.hardware_id_hash b.hardware_id_hash

module _ (host : Host) where
  unfoldable pub verify_validator_attestation_signature : ValidatorAttestation → Result Bool
  verify_validator_attestation_signature attestation = do
    payload ← encode_validator_attestation_signable_payload attestation
    h256 attestation.validator_id "public_key"
    sr25519_signature attestation.signature "signature"
    ok (or_false (host.sr25519_verify attestation.signature payload attestation.validator_id))

  -- The loop over the attestations.
  unfoldable pub all_agree : ValidatorAttestation → List ValidatorAttestation → Result Bool
  all_agree reference [] = ok true
  all_agree reference (attestation ∷ attestations) =
      if not attestation.quote_verified
      then ok false
      else if not attestation.event_log_verified
      then ok false
      else if not (same_claims attestation reference)
      then ok false
      else (do
        signed ← verify_validator_attestation_signature attestation
        if signed then all_agree reference attestations else ok false)

  -- `registry` is the tuple of active identifiers.
  unfoldable pub verify_validator_attestation_quorum :
      List ValidatorAttestation → List Bytes → Threshold → Result Bool
  verify_validator_attestation_quorum [] registry threshold = ok false
  verify_validator_attestation_quorum (reference ∷ others) registry threshold = do
    required ← calculate_validator_quorum (length registry) threshold
    let attestations = reference ∷ others
    let validator_ids = map (λ attestation. attestation.validator_id) attestations
    if ltb (length attestations) required
        then ok false
        else if not (has_distinct_validator_ids validator_ids)
        then ok false
        else if not (all (has_bytes registry) validator_ids)
        then ok false
        else all_agree reference attestations

  abbrev caught : Result String → String → Bool
  caught (ok expected) report_data = str_eq report_data expected
  caught (err _) report_data = false

  unfoldable pub verify_validator_attestation_report_data : ValidatorAttestation → String → Bool
  verify_validator_attestation_report_data attestation report_data =
      caught
        (compute_report_data host attestation.task_hash (to_le 8 attestation.gn_weight)
          (to_le 8 attestation.latency_ms) attestation.model_hash attestation.output_hash
          attestation.decode_policy_hash (to_le 1 attestation.tee_type))
        report_data

  unfoldable pub verify_and_accept_validator_attestation_quorum :
      List ValidatorAttestation → List Bytes → Threshold → List Bytes → Result (Bool × List Bytes)
  verify_and_accept_validator_attestation_quorum [] registry threshold processed =
      ok (false, processed)
  verify_and_accept_validator_attestation_quorum (first ∷ others) registry threshold processed = do
    old ← is_processed processed first.task_hash
    if old then ok (false, processed) else (do
      verified ← verify_validator_attestation_quorum (first ∷ others) registry threshold
      if verified then mark_processed processed first.task_hash else ok (false, processed))
