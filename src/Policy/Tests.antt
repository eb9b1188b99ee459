-- ===== src/Policy/Tests.antt =====
-- A decode policy, and one that differs from it in a field that does not count.
use flop_proof_api.Base.{◌≡◌, ◌≢◌, refl, ◌⊎◌, none, some, ok}
use flop_proof_api.Base.Bytes.{Bytes, to_le, utf8, zeros}
use flop_proof_api.Transcript.Tests.{ones}
use flop_proof_api.Verification.Tests.{level_host}
use flop_proof_api.Policy.{
  DecodePolicy, uint_le, encode_sampling_params, class_bytes, transform_bytes, encode_decode_policy,
  compute_decode_policy_hash,
}
use flop_proof_api.Policy.Binding.{SamePolicy, policy_hash_binds}

abbrev policy : DecodePolicy
policy = record {
  version = 1;
  class_tag = 0;
  tokenizer_hash = ones;
  sampling_params = record {
    temperature_milli = 700;
    top_p_ppm = 950000;
    top_k = 40;
    repetition_penalty_ppm = 1000000;
    beam_width = 1;
    seed = 7;
  };
  stop_conditions_hash = ones;
  output_transform = 0;
  transform_id = none;
  class_policy_hash = ones;
  other_class = none;
}

abbrev other_policy : DecodePolicy
other_policy = record policy { other_class = some 9 }

hash_run :
    (compute_decode_policy_hash level_host policy ≡ ok (zeros 32))
    × (compute_decode_policy_hash level_host other_policy ≡ ok (zeros 32))
unfolding uint_le encode_sampling_params class_bytes transform_bytes encode_decode_policy
    compute_decode_policy_hash to_le utf8 zeros
hash_run = (refl, refl)

policy_hash_binds_example :
    SamePolicy policy other_policy
    ⊎ ((m : Bytes) × (n : Bytes) × (m ≢ n) × (level_host.sha256 m ≡ level_host.sha256 n))
policy_hash_binds_example =
    policy_hash_binds level_host policy other_policy (zeros 32) hash_run.0 hash_run.1
