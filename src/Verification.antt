-- ===== src/Verification.antt =====
-- app/verification_core.py: the checks on each event of an exported proof.
pub mod Results
pub mod Verdict
pub mod Facts
pub mod History
pub mod Binding
pub mod Closing
pub mod Nonces
pub mod Tests
use Prim.Native.String
use Prim.Native.String.{String}
use text.Mathlib.Text.{◌==◌ as str_eq}
use flop_proof_api.Base.{
  ℕ, suc, ◌+◌, Bool, true, false, not, ◌&&◌, ◌||◌, List, [], ◌∷◌, ◌++◌, Option, none, some, any,
  if◌then◌else◌, Result, ok, err,
}
use flop_proof_api.Base.Strings.{split_bar, is_empty, has_prefix, join_bar}
use flop_proof_api.Base.Sets.{contains, add}
use flop_proof_api.Host.{Host}
use flop_proof_api.Value.{
  Value, null, bool, pos, negsuc, str, arr, obj, Fields, get, get_in, is_object, is_text, is_nat,
  same_value, truthy, text_or_null,
}
use flop_proof_api.Did.{verify_canonical_signature}
use flop_proof_api.Json.{dumps}
use flop_proof_api.Records.{sha256_json, hash_event_record, link_of}
use flop_proof_api.Canonical.{
  is_proof_id, tag_prefix, build_event_canonical_v3, build_event_canonical_v4,
  parse_request_canonical_v3, parse_request_canonical_v4, parse_event_canonical_v3,
  parse_event_canonical_v4,
}
use flop_proof_api.Authorization.{
  Role, unauthorized, Reason, not_delegated, PriorEvent, request_created, authorize_event,
  check_single_result_created,
}
use flop_proof_api.Formats.{
  Version, legacy, v3, v4, request_binding_ok, request_binding_ok_v3, signed_nonce,
  signed_prior_head_v4,
}

-- What the loop carries from event to event.
pub record Seen : Type 0 where
  pub expected_sequence : ℕ
  pub previous_event : Option Fields
  pub authorization_prior : List PriorEvent
  pub seen_nonces : List String
  pub seen_pairs : List (Value × Value)

-- One entry of "checks"; `none` stands for Python's None.
pub record Check : Type 0 where
  pub sequence_valid : Bool
  pub chain_valid : Bool
  pub payload_hash_valid : Bool
  pub canonical_valid : Bool
  pub signature_valid : Bool
  pub request_binding_valid : Option Bool
  pub format_valid : Bool
  pub replay_valid : Bool
  pub prior_head_valid : Option Bool
  pub role : Role
  pub actor_authorized : Bool
  pub authorization_reason : Option Reason

abbrev is_null : Value → Bool
is_null null = true
is_null _ = false

-- `value is not False`
abbrev pub not_false : Option Bool → Bool
not_false none = true
not_false (some b) = b

abbrev is_ok_text : Result String → Value → Bool
is_ok_text (ok expected) canonical = is_text canonical expected
is_ok_text (err _) canonical = false

-- A value in an f-string: its `str`, which for a list or an object is its `repr`.
unfoldable pub formatted : Host → Value → String
formatted host (str text) = text
formatted host null = "None"
formatted host (bool true) = "True"
formatted host (bool false) = "False"
formatted host (pos n) = dumps (pos n)
formatted host (negsuc n) = dumps (negsuc n)
formatted host (arr items) = host.repr (arr items)
formatted host (obj fields) = host.repr (obj fields)

-- `canonical == f"{proof_id}|{event_type}|{payload_hash}"`
unfoldable pub is_legacy_canonical : Host → Value → Value → Value → Value → Bool
is_legacy_canonical host proof_id event_type payload_hash canonical = is_text canonical (
    join_bar
      (formatted host proof_id ∷ formatted host event_type ∷ formatted host payload_hash ∷ []))

-- `pair not in seen_pairs`
unfoldable pub has_pair : List (Value × Value) → Value → Value → Bool
has_pair [] canonical signature = false
has_pair ((c, s) ∷ pairs) canonical signature =
    (same_value c canonical && same_value s signature) || has_pair pairs canonical signature

-- A list or an object cannot be hashed.
abbrev pub is_hashable : Value → Bool
is_hashable (arr _) = false
is_hashable (obj _) = false
is_hashable _ = true

module _ (host : Host) (proof_id : Value) where
  unfoldable pub chain_ok : Option Fields → Value → Bool
  chain_ok none previous_event_hash = is_null previous_event_hash
  chain_ok (some previous) previous_event_hash = elim (link_of previous) [
    | none ↦ false
    | some link ↦ is_text previous_event_hash (hash_event_record host proof_id link)
  ]

  unfoldable pub canonical_ok : Version → Fields → Bool
  unfolding is_legacy_canonical
  canonical_ok version event =
      let event_type = get "type" event in
      let canonical = get "canonical" event in
      let payload_hash = get "payload_hash" event in
      let nonce = get "nonce" event in
      let expected = get_in "canonical" (get_in "signature" (get "payload" event)) in
      if is_text event_type request_created
      then truthy expected && same_value canonical expected
      else elim version [
        | v4 ↦
            is_ok_text
              (build_event_canonical_v4 proof_id event_type payload_hash nonce
                (text_or_null (signed_prior_head_v4 canonical)))
              canonical
        | v3 ↦
            is_ok_text (build_event_canonical_v3 proof_id event_type payload_hash nonce) canonical
        | legacy ↦ is_legacy_canonical host proof_id event_type payload_hash canonical
      ]

  unfoldable pub binding_ok : Version → Fields → Option Bool
  binding_ok version event =
      let canonical = get "canonical" event in
      let signature = get "signature" event in
      let actor_did = get "actor_did" event in
      let payload = get "payload" event in
      if not (is_text (get "type" event) request_created)
      then none
      else some (elim version [
        | v4 ↦
            request_binding_ok_v3 canonical signature actor_did payload parse_request_canonical_v4
        | v3 ↦
            request_binding_ok_v3 canonical signature actor_did payload parse_request_canonical_v3
        | legacy ↦ request_binding_ok canonical signature actor_did payload
      ])

  abbrev pub is_signed : Value → Value → Value → Bool
  is_signed (str did) (str canonical) (str signature) =
      elim (verify_canonical_signature host did canonical signature) [ ok b ↦ b | err _ ↦ false ]
  is_signed _ _ _ = false

  unfoldable pub signature_ok : Fields → Bool
  signature_ok event =
      is_signed (get "actor_did" event) (get "canonical" event) (get "signature" event)

  abbrev is_untagged : Value → Bool
  is_untagged (str canonical) = not (has_prefix tag_prefix canonical)
  is_untagged _ = false

  unfoldable pub format_ok : Version → Fields → Bool
  format_ok legacy event = is_untagged (get "canonical" event)
  format_ok version event = elim (signed_nonce version (get "type" event) (get "canonical" event)) [
    | none ↦ false
    | some nonce ↦ is_text (get "nonce" event) nonce
  ]

  -- Whether the event is new in the proof, and the sets with it.
  unfoldable pub replay_ok : Version → Seen → Fields → Bool
  replay_ok legacy seen event =
      let canonical = get "canonical" event in
      let signature = get "signature" event in
      not (is_hashable canonical && is_hashable signature)
      || not (has_pair seen.seen_pairs canonical signature)
  replay_ok version seen event =
      elim (signed_nonce version (get "type" event) (get "canonical" event)) [
        | none ↦ true
        | some nonce ↦ not (contains seen.seen_nonces nonce)
      ]

  unfoldable pub nonces_after : Version → Seen → Fields → List String
  nonces_after version seen event =
      elim (signed_nonce version (get "type" event) (get "canonical" event)) [
        | none ↦ seen.seen_nonces
        | some nonce ↦ add seen.seen_nonces nonce
      ]

  unfoldable pub pairs_after : Version → Seen → Fields → List (Value × Value)
  pairs_after legacy seen event =
      let canonical = get "canonical" event in
      let signature = get "signature" event in
      if is_hashable canonical && is_hashable signature
      then seen.seen_pairs ++ (canonical, signature) ∷ []
      else seen.seen_pairs
  pairs_after version seen event = seen.seen_pairs

  unfoldable pub prior_head_ok : Version → Seen → Fields → Option Bool
  prior_head_ok v4 seen event =
      let previous_event_hash = get "previous_event_hash" event in
      if is_text (get "type" event) request_created
      then none
      else some (elim (seen.previous_event) [
        | none ↦ false
        | some previous ↦
            chain_ok (some previous) previous_event_hash
            && elim (signed_prior_head_v4 (get "canonical" event)) [
              | none ↦ false
              | some prior_head ↦ is_text previous_event_hash prior_head
            ]
      ])
  prior_head_ok _ seen event = none

  abbrev role_and_reason : List PriorEvent → Value → Value → Value → Role × Option Reason
  role_and_reason prior (str actor_did) event_type payload =
      let decision = authorize_event host prior actor_did event_type payload in
      if decision.allowed
      then (decision.role, check_single_result_created prior event_type)
      else (decision.role, decision.reason)
  role_and_reason prior _ event_type payload = (unauthorized, some not_delegated)

  abbrev is_first : Option Fields → Bool
  is_first none = true
  is_first (some _) = false

  unfoldable pub authorization_of : Seen → Fields → Role × Option Reason
  authorization_of seen event =
      if is_first seen.previous_event && is_text (get "type" event) request_created
      then (Role.creator, none)
      else role_and_reason seen.authorization_prior (get "actor_did" event) (get "type" event)
          (get "payload" event)

  abbrev is_none_reason : Option Reason → Bool
  is_none_reason none = true
  is_none_reason (some _) = false

  -- The body of the loop: the entry of "checks".
  unfoldable pub check_event : Version → Seen → Fields → Check
  check_event version seen event =
      let (role, reason) = authorization_of seen event in
      record {
        sequence_valid = is_nat (get "sequence" event) seen.expected_sequence;
        chain_valid = chain_ok seen.previous_event (get "previous_event_hash" event);
        payload_hash_valid =
            is_text (get "payload_hash" event) (sha256_json host (get "payload" event));
        canonical_valid = canonical_ok version event;
        signature_valid = signature_ok event;
        request_binding_valid = binding_ok version event;
        format_valid = format_ok version event;
        replay_valid = replay_ok version seen event;
        prior_head_valid = prior_head_ok version seen event;
        role = role;
        actor_authorized = is_none_reason reason;
        authorization_reason = reason;
      }

-- Whether the event may grant authority to later ones.
unfoldable pub grants_authority : Check → Bool
grants_authority check =
    check.signature_valid
    && check.canonical_valid
    && check.payload_hash_valid
    && not_false check.request_binding_valid
    && check.format_valid
    && check.replay_valid
    && not_false check.prior_head_valid

-- The event as it enters `authorization_prior`.
abbrev pub prior_event : Fields → PriorEvent
prior_event event = record {
  event_type = get "type" event;
  actor_did = get "actor_did" event;
  payload = get "payload" event;
  sequence = some (get "sequence" event);
}

module _ (host : Host) (proof_id : Value) where
  -- The end of the loop's body: what the next event is checked against.
  unfoldable pub seen_after : Version → Seen → Fields → Seen
  unfolding grants_authority
  seen_after version seen event = record {
    expected_sequence = seen.expected_sequence + 1;
    previous_event = some event;
    authorization_prior =
        if grants_authority (check_event host proof_id version seen event)
        then seen.authorization_prior ++ prior_event event ∷ []
        else seen.authorization_prior;
    seen_nonces = nonces_after host proof_id version seen event;
    seen_pairs = pairs_after host proof_id version seen event;
  }

  unfoldable pub check_events : Version → Seen → List Fields → List Check
  check_events version seen [] = []
  check_events version seen (event ∷ events) =
      check_event host proof_id version seen event
      ∷ check_events version (seen_after version seen event) events

-- The start of the loop.
abbrev pub nothing_seen : Seen
nothing_seen = record {
  expected_sequence = 1;
  previous_event = none;
  authorization_prior = [];
  seen_nonces = [];
  seen_pairs = [];
}
