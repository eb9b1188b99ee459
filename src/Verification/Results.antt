-- ===== src/Verification/Results.antt =====
-- app/verification_core.py: the hashes that result.created and artifact.created events carry.
use Prim.Native.String
use Prim.Native.String.{String}
use flop_proof_api.Base.{
  Bool, true, false, not, ◌&&◌, ◌||◌, List, [], ◌∷◌, ◌++◌, Option, none, some, any, all, length,
  ◌==◌, if◌then◌else◌, Result, ok, err, value_error, type_error, attribute_error, os_error,
  raise_if, ◌>>=◌, ◌>>◌,
}
use flop_proof_api.Base.Bytes.{Bytes, to_hex, utf8, fromhex}
use flop_proof_api.Host.{Host}
use flop_proof_api.Value.{Value, null, str, obj, Fields, find, get, is_text, truthy}
use flop_proof_api.Records.{sha256_bytes}

pub data Metadata : Type 0 where
  absent present incomplete : Metadata

pub record Outcome : Type 0 where
  pub result_hash_valid : Option Bool
  pub artifact_hash_valid : Option Bool
  pub task_hash_valid : Option Bool
  pub flop_metadata_status : Metadata

abbrev is_none_value : Value → Bool
is_none_value null = true
is_none_value _ = false

abbrev flop_metadata_fields : List String
flop_metadata_fields =
    "task_hash" ∷ "model_hash" ∷ "gn_weight" ∷ "latency_ms" ∷ "decode_policy_hash" ∷ "tee_type" ∷ []

unfoldable pub metadata_status : Fields → Metadata
metadata_status payload =
    if not (any (λ key. not (is_none_value (get key payload))) flop_metadata_fields)
    then absent
    else if all (λ key. not (is_none_value (get key payload))) flop_metadata_fields
    then present
    else incomplete

-- `bytes.fromhex(inputs[key])`; a missing key or a value that is no text is caught like an error.
abbrev hex_input : Value → String → Result Bytes
hex_input (obj inputs) key = elim (find key inputs) [
  | some (str text) ↦ fromhex text
  | _ ↦ err (type_error "fromhex() argument must be str")
]
hex_input _ key = err (value_error "missing task_hash inputs")

-- `if len(value) != 32: raise ValueError`
abbrev require_32 : Bytes → String → Result (Unit {0})
require_32 value name =
    raise_if (not (length value == 32)) (value_error (String.◌++◌ name " must be exactly 32 bytes"))

module _ (host : Host) where
  -- app/crypto.py
  unfoldable pub compute_task_hash : Bytes → Bytes → Bytes → Bytes → Bytes → Result String
  compute_task_hash agent nonce model_hash payload_hash commit_hash = do
    require_32 agent "agent"
    require_32 model_hash "model_hash"
    require_32 payload_hash "payload_hash"
    require_32 commit_hash "commit_hash"
    ok (to_hex (host.blake2b (agent ++ (nonce ++ (model_hash ++ (payload_hash ++ commit_hash))))))

  calculated_task_hash : Value → Result String
  calculated_task_hash inputs = do
    agent ← hex_input inputs "agent"
    nonce ← hex_input inputs "nonce"
    model_hash ← hex_input inputs "model_hash"
    payload_hash ← hex_input inputs "payload_hash"
    commit_hash ← hex_input inputs "commit_hash"
    compute_task_hash agent nonce model_hash payload_hash commit_hash

  -- The new value of `task_hash_valid` after a result payload.
  unfoldable pub task_hash_after : Option Bool → Fields → Option Bool
  unfolding calculated_task_hash
  task_hash_after before payload =
      let task_hash = get "task_hash" payload in
      if is_none_value task_hash
      then before
      else elim (calculated_task_hash (get "task_hash_inputs" payload)) [
        | err _ ↦ some false
        | ok calculated ↦ some (is_text task_hash calculated)
      ]

  -- The new value of `result_hash_valid`; a content that is no text has no `encode`.
  unfoldable pub result_hash_after : Option Bool → Fields → Result (Option Bool)
  result_hash_after before payload =
      let content_hash = get "content_hash" payload in
      elim (get "content" payload) [
        | null ↦ ok before
        | str content ↦
            if truthy content_hash
            then ok (
                some
                  (is_text content_hash (String.◌++◌ "sha256:" (sha256_bytes host (utf8 content)))))
            else ok before
        | _ ↦
            if truthy content_hash
            then err (attribute_error "object has no attribute 'encode'")
            else ok before
      ]

  -- `read_file` opens and reads a path: open() raises OSError for a file that it cannot open, which
  -- is caught, and TypeError or ValueError for a value that is no path, which are not.
  unfoldable pub artifact_hash_after :
      (Value → Result Bytes) → Option Bool → Fields → Result (Option Bool)
  artifact_hash_after read_file before payload =
      let artifact_hash = get "sha256" payload in
      let artifact_path = get "path" payload in
      if truthy artifact_hash && truthy artifact_path
      then elim (read_file artifact_path) [
        | err (os_error _) ↦ ok (some false)
        | err e ↦ err e
        | ok file ↦
            let calculated = sha256_bytes host file in
            ok (
              some (
                is_text artifact_hash calculated
                || is_text artifact_hash (String.◌++◌ "sha256:" calculated)))
      ]
      else ok (if truthy artifact_hash then some true else before)

  -- The body of the second loop.
  unfoldable pub outcome_after : (Value → Result Bytes) → Outcome → Fields → Result Outcome
  outcome_after read_file outcome event = elim (get "payload" event) [
    | obj payload ↦
        if is_text (get "type" event) "result.created"
        then (do
          result_hash ← result_hash_after outcome.result_hash_valid payload
          ok (record outcome {
            result_hash_valid = result_hash;
            task_hash_valid = task_hash_after outcome.task_hash_valid payload;
            flop_metadata_status = metadata_status payload;
          }))
        else if is_text (get "type" event) "artifact.created"
        then (do
          artifact_hash ← artifact_hash_after read_file outcome.artifact_hash_valid payload
          ok (record outcome { artifact_hash_valid = artifact_hash }))
        else ok outcome
    | _ ↦ ok outcome
  ]

  unfoldable pub outcome_of : (Value → Result Bytes) → Outcome → List Fields → Result Outcome
  outcome_of read_file outcome [] = ok outcome
  outcome_of read_file outcome (event ∷ events) = do
    next ← outcome_after read_file outcome event
    outcome_of read_file next events

abbrev pub no_outcome : Outcome
no_outcome = record {
  result_hash_valid = none;
  artifact_hash_valid = none;
  task_hash_valid = none;
  flop_metadata_status = absent;
}
