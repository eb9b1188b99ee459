-- ===== src/Canonical.antt =====
-- app/canonical.py: the tagged messages that version-3 and version-4 proofs sign, with the patterns
-- of app/crypto.py that they use. An argument that Python leaves untyped is a `Value`.
pub mod Fields
pub mod EventV4
pub mod EventV3
pub mod Requests
pub mod RoundTrip
pub mod Separation
pub mod Tests
use Prim.Native.String
use Prim.Native.String.{String}
use text.Mathlib.Text.{◌==◌ as str_eq}
use flop_proof_api.Base.{
  ℕ, ◌+◌, Bool, true, false, not, ◌&&◌, ◌||◌, List, [], ◌∷◌, none, some, leb, ◌==◌, length,
}
use flop_proof_api.Base.{Result, ok, err, value_error, raise_if, ◌>>=◌, ◌>>◌}
use flop_proof_api.Base.Strings.{
  has_char, all_chars, chars, is_bar, is_lower_hex, is_empty, split_bar, join_bar, after_prefix,
}
use flop_proof_api.Value.{Value, str}

abbrev pub request_tag : String
request_tag = "FLOP/REQUEST/v3"

abbrev pub event_tag : String
event_tag = "FLOP/EVENT/v3"

abbrev pub request_tag_v4 : String
request_tag_v4 = "FLOP/REQUEST/v4"

abbrev pub event_tag_v4 : String
event_tag_v4 = "FLOP/EVENT/v4"

-- `[\x00-\x1f\x7f]`
abbrev pub is_control : ℕ → Bool
is_control c = leb c 0x1f || c == 0x7f

-- `^proof_[0-9a-f]{32}$`, matched whole
unfoldable pub is_proof_id : String → Bool
unfolding after_prefix
is_proof_id value = elim (after_prefix "proof_" value) [
  | none ↦ false
  | some digits ↦ all_chars is_lower_hex digits && chars digits == 32
]

-- `^[0-9a-f]{64}$`, matched whole
unfoldable pub is_payload_hash : String → Bool
is_payload_hash value = all_chars is_lower_hex value && chars value == 64

unfoldable pub check_field : String → Value → Bool → Result String
check_field name (str value) free_text = do
  raise_if (is_empty value) (value_error (String.◌++◌ name ": must not be empty"))
  raise_if (not free_text && has_char is_bar value)
      (value_error (String.◌++◌ name ": must not contain '|'"))
  raise_if (not free_text && has_char is_control value)
      (value_error (String.◌++◌ name ": must not contain control characters"))
  ok value
check_field name _ free_text = err (value_error (String.◌++◌ name ": must be a string"))

unfoldable pub check_room : Value → Result String
check_room room = do
  room' ← check_field "room" room false
  raise_if (is_proof_id room') (value_error "room: must not be a proof_id")
  ok room'

unfoldable pub check_proof_id : Value → Result String
check_proof_id proof_id = do
  proof_id' ← check_field "proof_id" proof_id false
  raise_if (not (is_proof_id proof_id')) (value_error "proof_id: invalid format")
  ok proof_id'

unfoldable pub check_payload_hash : Value → Result String
check_payload_hash payload_hash = do
  payload_hash' ← check_field "payload_hash" payload_hash false
  raise_if (not (is_payload_hash payload_hash'))
      (value_error "payload_hash: must be 64 lowercase hex characters")
  ok payload_hash'

unfoldable pub check_prior_head : Value → Result String
check_prior_head prior_head = do
  prior_head' ← check_field "prior_head" prior_head false
  raise_if (not (is_payload_hash prior_head'))
      (value_error "prior_head: must be 64 lowercase hex characters")
  ok prior_head'

-- The checks of `_split_tagged` on the parts; a split has at least one.
tagged_fields : String → ℕ → List String → Result (List String)
tagged_fields tag field_count [] = err (value_error "canonical: wrong number of fields")
tagged_fields tag field_count (first ∷ rest) = do
  raise_if (not (str_eq first tag)) (value_error (String.◌++◌ "canonical: tag must be " tag))
  raise_if (not (length (first ∷ rest) == field_count + 1))
      (value_error "canonical: wrong number of fields")
  ok rest

unfoldable pub split_tagged : Value → String → ℕ → Result (List String)
unfolding tagged_fields
split_tagged (str canonical) tag field_count =
    tagged_fields tag field_count (split_bar field_count canonical)
split_tagged _ tag field_count = err (value_error "canonical: must be a string")

-- The unpacking of three, four and five fields, with the checks of a parser.
unfoldable pub request_fields : List String → Result (String × String × String)
request_fields (room ∷ nonce ∷ text ∷ []) = do
  room' ← check_room (str room)
  nonce' ← check_field "nonce" (str nonce) false
  text' ← check_field "text" (str text) true
  ok (room', nonce', text')
request_fields _ = err (value_error "not enough values to unpack")

unfoldable pub event_fields_v3 : List String → Result (String × String × String × String)
event_fields_v3 (proof_id ∷ event_type ∷ payload_hash ∷ nonce ∷ []) = do
  proof_id' ← check_proof_id (str proof_id)
  event_type' ← check_field "event_type" (str event_type) false
  payload_hash' ← check_payload_hash (str payload_hash)
  nonce' ← check_field "nonce" (str nonce) false
  ok (proof_id', event_type', payload_hash', nonce')
event_fields_v3 _ = err (value_error "not enough values to unpack")

unfoldable pub event_fields_v4 : List String → Result (String × String × String × String × String)
event_fields_v4 (proof_id ∷ event_type ∷ payload_hash ∷ nonce ∷ prior_head ∷ []) = do
  proof_id' ← check_proof_id (str proof_id)
  event_type' ← check_field "event_type" (str event_type) false
  payload_hash' ← check_payload_hash (str payload_hash)
  nonce' ← check_field "nonce" (str nonce) false
  prior_head' ← check_prior_head (str prior_head)
  ok (proof_id', event_type', payload_hash', nonce', prior_head')
event_fields_v4 _ = err (value_error "not enough values to unpack")

unfoldable pub build_request_canonical_v3 : Value → Value → Value → Result String
build_request_canonical_v3 room nonce text = do
  room' ← check_room room
  nonce' ← check_field "nonce" nonce false
  text' ← check_field "text" text true
  ok (join_bar (request_tag ∷ room' ∷ nonce' ∷ text' ∷ []))

unfoldable pub parse_request_canonical_v3 : Value → Result (String × String × String)
parse_request_canonical_v3 canonical = do
  fields ← split_tagged canonical request_tag 3
  request_fields fields

unfoldable pub build_event_canonical_v3 : Value → Value → Value → Value → Result String
build_event_canonical_v3 proof_id event_type payload_hash nonce = do
  proof_id' ← check_proof_id proof_id
  event_type' ← check_field "event_type" event_type false
  payload_hash' ← check_payload_hash payload_hash
  nonce' ← check_field "nonce" nonce false
  ok (join_bar (event_tag ∷ proof_id' ∷ event_type' ∷ payload_hash' ∷ nonce' ∷ []))

unfoldable pub parse_event_canonical_v3 : Value → Result (String × String × String × String)
parse_event_canonical_v3 canonical = do
  fields ← split_tagged canonical event_tag 4
  event_fields_v3 fields

unfoldable pub build_request_canonical_v4 : Value → Value → Value → Result String
build_request_canonical_v4 room nonce text = do
  room' ← check_room room
  nonce' ← check_field "nonce" nonce false
  text' ← check_field "text" text true
  ok (join_bar (request_tag_v4 ∷ room' ∷ nonce' ∷ text' ∷ []))

unfoldable pub parse_request_canonical_v4 : Value → Result (String × String × String)
parse_request_canonical_v4 canonical = do
  fields ← split_tagged canonical request_tag_v4 3
  request_fields fields

unfoldable pub build_event_canonical_v4 : Value → Value → Value → Value → Value → Result String
build_event_canonical_v4 proof_id event_type payload_hash nonce prior_head = do
  proof_id' ← check_proof_id proof_id
  event_type' ← check_field "event_type" event_type false
  payload_hash' ← check_payload_hash payload_hash
  nonce' ← check_field "nonce" nonce false
  prior_head' ← check_prior_head prior_head
  ok (join_bar (event_tag_v4 ∷ proof_id' ∷ event_type' ∷ payload_hash' ∷ nonce' ∷ prior_head' ∷ []))

unfoldable pub parse_event_canonical_v4 :
    Value → Result (String × String × String × String × String)
parse_event_canonical_v4 canonical = do
  fields ← split_tagged canonical event_tag_v4 5
  event_fields_v4 fields

-- Every tagged message starts with this.
abbrev pub tag_prefix : String
tag_prefix = "FLOP/"
