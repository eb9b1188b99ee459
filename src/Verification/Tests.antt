-- ===== src/Verification/Tests.antt =====
-- A run of verify_proof_events on a version-4 proof of two events, and its theorems there.
use Prim.Native.String.{String}
use flop_proof_api.Base.{
  ◌≢◌, arith, suc, length, get_elem?, ◌≡◌, refl, ◌⊎◌, true, false, none, some, List, ℕ, [], ◌∷◌,
  map, Result, ok, err, os_error,
}
use flop_proof_api.Base.Bytes.{Bytes}
use flop_proof_api.Host.{Host}
use flop_proof_api.Value.{Value, null, str, pos, obj, end, field, Fields}
use flop_proof_api.Base.Bytes.{
  same_bytes, after_bytes, from_le, to_le, zeros, fromhex, to_hex, utf8,
}
use flop_proof_api.Base.Sets.{contains, add, update, discard, set_of}
use flop_proof_api.Base.Strings.{split_bar, join_bar, after_prefix, has_prefix}
use flop_proof_api.Value.{
  is_text, is_nat, find, texts, count_items, all_items, get, count_fields, truthy, get_in,
  same_value, same_items, same_fields,
}
use flop_proof_api.Did.{
  pow_mod, ed25519_d, ed25519_sqrt_m1, is_ed25519_point_encoding, has_small_order,
  did_key_to_public_key, ed25519_public_key_from_did, signature_digits, canonical_raw,
  decode_ed25519_signature, verify_signature, verify_did_signature, verify_canonical_signature,
}
use flop_proof_api.Did.Base64.{
  digit_value, digit_char, digit_values, bytes_of_digits, digits_of_bytes, encode_base64url,
}
use flop_proof_api.Canonical.{
  request_fields, event_fields_v3, event_fields_v4, is_proof_id, is_payload_hash, check_field,
  check_room, check_proof_id, check_payload_hash, check_prior_head, split_tagged,
  build_request_canonical_v3, parse_request_canonical_v3, build_event_canonical_v3,
  parse_event_canonical_v3, build_request_canonical_v4, parse_request_canonical_v4,
  build_event_canonical_v4, parse_event_canonical_v4,
}
use flop_proof_api.Authorization.{
  reasons, is_valid_did_key, delegates_field_error, creator_of, listed_delegates, delegated_by,
  delegated_from, delegates_of, authorize_event, check_single_result_created,
}
use flop_proof_api.Json.{text_before, dumps, dump_items, dump_fields}
use flop_proof_api.Records.{
  link_object, sha256_bytes, sha256_json, hash_event_record, link_of, head_of, chain_head,
}
use flop_proof_api.Formats.{
  v4, is_closing, version_of, request_binding_ok, request_binding_ok_v3, signed_nonce,
  signed_prior_head_v4,
}
use flop_proof_api.Verification.{
  is_legacy_canonical, formatted, has_pair, chain_ok, canonical_ok, binding_ok, signature_ok,
  format_ok, replay_ok, nonces_after, pairs_after, prior_head_ok, authorization_of, check_event,
  grants_authority, seen_after, check_events,
}
use flop_proof_api.Verification.Results.{
  no_outcome, metadata_status, compute_task_hash, task_hash_after, result_hash_after,
  artifact_hash_after, outcome_after, outcome_of,
}
use flop_proof_api.Verification.Verdict.{
  has_hashable_types, check_holds, closing_positions, position_ok, outcome_holds, report_of,
  verify_proof_events,
}
use flop_proof_api.Did.Tests.{base_point}
use flop_proof_api.Verification.Verdict.{Report}
use flop_proof_api.Verification.History.{link_json, Collision}
use flop_proof_api.Verification.Nonces.{nonce_of, signed_nonces_differ}
use flop_proof_api.Verification.Closing.{closing_event_last}
use flop_proof_api.Verification.Binding.{chain_head_binds_history}

-- Packages with one digest for all messages, and signatures that all verify.
abbrev pub level_host : Host
level_host = record {
  sha256 = λ _. zeros 32;
  blake2b = λ _. zeros 32;
  b58decode = λ text. ok (0xED ∷ 0x01 ∷ base_point);
  ed25519_verify = λ _ _ _. true;
  sr25519_verify = λ _ _ _. ok true;
  repr = λ _. "[]";
}

abbrev pub sample_proof : String
sample_proof = "proof_0123456789abcdef0123456789abcdef"

abbrev pub zero_hash : String
zero_hash = "0000000000000000000000000000000000000000000000000000000000000000"

abbrev pub sample_signature : String
sample_signature =
    "AAAAAAAAAAAAAAAAAAAAAAAAAAAAAAAAAAAAAAAAAAAAAAAAAAAAAAAAAAAAAAAAAAAAAAAAAAAAAAAAAAAAAA"

abbrev pub request : String
request = "FLOP/REQUEST/v4|lobby|n1|hi"

abbrev pub completion : String
completion =
    "FLOP/EVENT/v4|proof_0123456789abcdef0123456789abcdef|proof.completed|0000000000000000000000000000000000000000000000000000000000000000|n2|0000000000000000000000000000000000000000000000000000000000000000"

abbrev sample_payload : Value
sample_payload = obj (
    field "text" (str "hi") (
      field "from_did" (str "did:key:zA") (
        field "signature"
          (obj (
            field "canonical" (str request)
              (field "nonce" (str "n1") (field "sig" (str sample_signature) end))))
          end)))

abbrev event : Value → String → Value → String → String → ℕ → Value → Fields
event event_id event_type payload canonical nonce sequence previous = field "event_id" event_id (
    field "type" (str event_type) (
      field "actor_did" (str "did:key:zA") (
        field "payload" payload (
          field "payload_hash" (str zero_hash) (
            field "canonical" (str canonical) (
              field "signature" (str sample_signature) (
                field "nonce" (str nonce) (
                  field "created_at" (str "2026-01-01T00:00:00") (
                    field "sequence" (pos sequence)
                      (field "previous_event_hash" previous end))))))))))

abbrev pub sample_events : List Fields
sample_events =
    event (str "e1") "request.created" sample_payload request "n1" 1 null
    ∷ event (str "e2") "proof.completed" (obj end) completion "n2" 2 (str zero_hash)
    ∷ []

abbrev pub no_file : Value → Result Bytes
no_file path = err (os_error "No such file or directory")

-- Opening this opens the verifier for a test.
unfoldable pub verification : Unit {0}
unfolding same_bytes after_bytes from_le to_le zeros fromhex to_hex utf8 contains add update discard
    set_of split_bar join_bar after_prefix has_prefix is_text is_nat find texts count_items
    all_items get count_fields truthy get_in same_value same_items same_fields pow_mod ed25519_d
    ed25519_sqrt_m1 is_ed25519_point_encoding has_small_order did_key_to_public_key
    ed25519_public_key_from_did signature_digits canonical_raw decode_ed25519_signature
    verify_signature verify_did_signature verify_canonical_signature digit_value digit_char
    digit_values bytes_of_digits digits_of_bytes encode_base64url is_proof_id is_payload_hash
    check_field check_room check_proof_id check_payload_hash check_prior_head split_tagged
    build_request_canonical_v3 parse_request_canonical_v3 build_event_canonical_v3
    parse_event_canonical_v3 build_request_canonical_v4 parse_request_canonical_v4
    build_event_canonical_v4 parse_event_canonical_v4 request_fields event_fields_v3 event_fields_v4
    reasons is_valid_did_key delegates_field_error creator_of listed_delegates delegated_by
    delegated_from delegates_of authorize_event check_single_result_created text_before dumps
    dump_items dump_fields link_object sha256_bytes sha256_json hash_event_record link_of head_of
    chain_head version_of request_binding_ok request_binding_ok_v3 signed_nonce signed_prior_head_v4
    is_legacy_canonical has_pair chain_ok canonical_ok binding_ok signature_ok format_ok replay_ok
    nonces_after pairs_after prior_head_ok authorization_of check_event grants_authority seen_after
    check_events formatted has_hashable_types metadata_status compute_task_hash task_hash_after
    result_hash_after artifact_hash_after outcome_after outcome_of check_holds closing_positions
    position_ok outcome_holds report_of verify_proof_events
verification = tt

abbrev report_in : Result Report → Report
report_in (ok report) = report
report_in (err _) = record {
  valid = false;
  events_checked = 0;
  outcome = no_outcome;
  checks = [];
  closed = false;
  chain_head = none;
  event_count = 0;
  reason = none;
}

abbrev sample_report : Report
sample_report =
    report_in (verify_proof_events level_host no_file (str sample_proof) sample_events (str "4"))

sample_run :
    (verify_proof_events level_host no_file (str sample_proof) sample_events (str "4")
      ≡ ok sample_report)
    × (sample_report.valid ≡ true)
    × (sample_report.chain_head ≡ some zero_hash)
unfolding verification
sample_run = (refl, refl, refl)

chain_head_binds_history_example :
    (map (link_json (str sample_proof)) sample_events
      ≡ map (link_json (str sample_proof)) sample_events)
    ⊎ Collision level_host
        (map (link_json (str sample_proof)) sample_events)
        (map (link_json (str sample_proof)) sample_events)
chain_head_binds_history_example =
    chain_head_binds_history level_host no_file (str sample_proof) sample_events sample_events
      sample_report sample_report zero_hash sample_run.0 sample_run.0 sample_run.1 sample_run.1
      sample_run.2 sample_run.2

-- The completion is the second of the two events.
completion_place :
    (e : Fields) × (get_elem? sample_events 1 ≡ some e) × (is_closing (get "type" e) ≡ true)
unfolding verification
completion_place = (_, refl, refl)

closing_event_last_example : suc 1 ≡ length sample_events
closing_event_last_example =
    closing_event_last level_host no_file (str sample_proof) (str "4") sample_events sample_report 1
      completion_place.0 sample_run.0 sample_run.1 completion_place.1 completion_place.2

-- The two events sign "n1" and "n2".
sample_nonces :
    (version_of (str "4") ≡ some v4)
    × (e : Fields) × (get_elem? sample_events 0 ≡ some e)
    × (nonce_of v4 e ≡ some "n1")
    × (f : Fields) × (get_elem? sample_events 1 ≡ some f)
    × (nonce_of v4 f ≡ some "n2")
unfolding verification
sample_nonces = (refl, _, refl, refl, _, refl, refl)

signed_nonces_differ_example : ◌≢◌ {A = String} "n1" "n2"
signed_nonces_differ_example =
    signed_nonces_differ level_host no_file (str sample_proof) (str "4") v4 sample_events
      sample_report 0 1 sample_nonces.1 sample_nonces.4 "n1" "n2" sample_nonces.0 sample_run.0
      sample_run.1 (omega arith) sample_nonces.2 sample_nonces.5 sample_nonces.3 sample_nonces.6
