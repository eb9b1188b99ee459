-- ===== src/Policy.antt =====
-- app/crypto.py: the decode policy of a computation, its SCALE encoding and its hash.
pub mod Encoding
pub mod Binding
mod Tests
use Prim.Native.String
use Prim.Native.String.{String}
use flop_proof_api.Base.{
  ℕ, ◌-◌, ◌^◌, Bool, not, List, [], ◌∷◌, ◌++◌, Option, none, some, length, ltb, ◌==◌, if◌then◌else◌,
  Result, ok, err, value_error, raise_if, ◌>>=◌, ◌>>◌,
}
use flop_proof_api.Base.Bytes.{Bytes, to_le, utf8}
use flop_proof_api.Host.{Host}
use flop_proof_api.Channel.{h256}

pub record SamplingParams : Type 0 where
  pub temperature_milli : ℕ
  pub top_p_ppm : ℕ
  pub top_k : ℕ
  pub repetition_penalty_ppm : ℕ
  pub beam_width : ℕ
  pub seed : ℕ

pub record DecodePolicy : Type 0 where
  pub version : ℕ
  pub class_tag : ℕ
  pub tokenizer_hash : Bytes
  pub sampling_params : SamplingParams
  pub stop_conditions_hash : Bytes
  pub output_transform : ℕ
  pub transform_id : Option Bytes
  pub class_policy_hash : Bytes
  pub other_class : Option ℕ

-- `DecodePolicyClass.OTHER`
abbrev pub class_other : ℕ
class_other = 4

-- `_u16_le`, `_u32_le` and `_u64_le`: the unsigned integers of 2, 4 and 8 bytes. A negative number is
-- no input of the model.
unfoldable pub uint_le : ℕ → String → ℕ → String → Result Bytes
uint_le size width value name = do
  raise_if (ltb (256 ^ size - 1) value)
      (value_error (String.◌++◌ name (String.◌++◌ " must be a " width)))
  ok (to_le size value)

unfoldable pub encode_sampling_params : SamplingParams → Result Bytes
unfolding uint_le
encode_sampling_params params = do
  temperature_milli ← uint_le 4 "u32" params.temperature_milli "temperature_milli"
  top_p_ppm ← uint_le 4 "u32" params.top_p_ppm "top_p_ppm"
  top_k ← uint_le 4 "u32" params.top_k "top_k"
  repetition_penalty_ppm ← uint_le 4 "u32" params.repetition_penalty_ppm "repetition_penalty_ppm"
  beam_width ← uint_le 2 "u16" params.beam_width "beam_width"
  seed ← uint_le 8 "u64" params.seed "seed"
  ok (
      temperature_milli
      ++ (top_p_ppm ++ (top_k ++ (repetition_penalty_ppm ++ (beam_width ++ seed)))))

-- The tag of the class, and the number of another class.
unfoldable pub class_bytes : ℕ → Option ℕ → Result Bytes
unfolding uint_le
class_bytes class_tag other_class =
    if class_tag == class_other
    then elim other_class [
      | none ↦ err (value_error "Other class requires other_class u16")
      | some other_value ↦ do
        other ← uint_le 2 "u16" other_value "other_class"
        ok (class_other ∷ other)
    ]
    else ok (class_tag ∷ [])

-- `_h256` of a value that may be None
abbrev pub some_h256 : Option Bytes → String → Result Bytes
some_h256 none name = err (value_error (String.◌++◌ name " must be exactly 32 bytes"))
some_h256 (some value) name = h256 value name >> ok value

unfoldable pub transform_bytes : ℕ → Option Bytes → Result Bytes
transform_bytes output_transform transform_id =
    if output_transform == 0
    then ok (0 ∷ [])
    else if output_transform == 1
    then (do id ← some_h256 transform_id "transform_id"; ok (1 ∷ id))
    else err (value_error "output_transform must be Identity(0) or TransformId(1)")

unfoldable pub encode_decode_policy : DecodePolicy → Result Bytes
unfolding uint_le
encode_decode_policy policy = do
  raise_if (not (policy.version == 1)) (value_error "DecodePolicy version must be 1")
  raise_if (ltb 4 policy.class_tag) (value_error "class_tag must be in the range 0..4")
  version ← uint_le 2 "u16" policy.version "version"
  class ← class_bytes policy.class_tag policy.other_class
  h256 policy.tokenizer_hash "tokenizer_hash"
  sampling ← encode_sampling_params policy.sampling_params
  h256 policy.stop_conditions_hash "stop_conditions_hash"
  transform ← transform_bytes policy.output_transform policy.transform_id
  h256 policy.class_policy_hash "class_policy_hash"
  ok (
      version
      ++ (class
          ++ (policy.tokenizer_hash
              ++ (sampling
                  ++ (policy.stop_conditions_hash ++ (transform ++ policy.class_policy_hash))))))

unfoldable pub compute_decode_policy_hash : Host → DecodePolicy → Result Bytes
compute_decode_policy_hash host policy = do
  encoded ← encode_decode_policy policy
  ok (host.sha256 (utf8 "FLOP_DECODE_POLICY_HASH_V1" ++ encoded))
