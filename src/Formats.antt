-- ===== src/Formats.antt =====
-- app/verification_core.py: what the events of each proof version sign.
use Prim.Native.String.{String}
use flop_proof_api.Base.{
  Bool, false, not, ◌&&◌, ◌||◌, List, [], ◌∷◌, Option, none, some, if◌then◌else◌, Result, ok, err,
}
use flop_proof_api.Base.Strings.{split_bar, is_empty, join_bar}
use flop_proof_api.Value.{Value, str, get_in, is_object, is_text, same_value}
use flop_proof_api.Canonical.{
  is_proof_id, parse_request_canonical_v3, parse_request_canonical_v4, parse_event_canonical_v3,
  parse_event_canonical_v4,
}
use flop_proof_api.Authorization.{request_created}

-- The proof versions that the verifier knows: "1" and "2" are the legacy ones.
pub data Version : Type 0 where
  legacy v3 v4 : Version

unfoldable pub version_of : Value → Option Version
unfolding is_text
version_of version =
    if is_text version "4"
    then some v4
    else if is_text version "3"
    then some v3
    else if is_text version "1" || is_text version "2"
    then some legacy
    else none

-- `_request_binding_ok`, on the three parts of the split
legacy_binding : List String → Value → Value → Value → Value → Value → Bool
legacy_binding (room ∷ nonce ∷ text ∷ []) canonical signature actor_did payload request_signature =
    not (is_empty room)
    && not (is_proof_id room)
    && is_text canonical (join_bar (room ∷ nonce ∷ text ∷ []))
    && is_text (get_in "nonce" request_signature) nonce
    && is_text (get_in "text" payload) text
    && same_value signature (get_in "sig" request_signature)
    && same_value actor_did (get_in "from_did" payload)
legacy_binding _ canonical signature actor_did payload request_signature = false

unfoldable pub request_binding_ok : Value → Value → Value → Value → Bool
unfolding legacy_binding
request_binding_ok (str canonical) signature actor_did payload =
    is_object payload
    && is_object (get_in "signature" payload)
    && legacy_binding (split_bar 2 canonical) (str canonical) signature actor_did payload
        (get_in "signature" payload)
request_binding_ok _ signature actor_did payload = false

-- `_request_binding_ok_v3`, for the parser that it is given
unfoldable pub request_binding_ok_v3 :
    Value → Value → Value → Value → (Value → Result (String × String × String)) → Bool
request_binding_ok_v3 canonical signature actor_did payload parse_request =
    is_object payload && is_object (get_in "signature" payload) && elim (parse_request canonical) [
      | err _ ↦ false
      | ok (_, nonce, text) ↦
          is_text (get_in "nonce" (get_in "signature" payload)) nonce
          && is_text (get_in "text" payload) text
          && same_value signature (get_in "sig" (get_in "signature" payload))
          && same_value actor_did (get_in "from_did" payload)
    ]

abbrev request_nonce : Result (String × String × String) → Option String
request_nonce (ok (_, nonce, _)) = some nonce
request_nonce (err _) = none

abbrev event_nonce_v3 : Result (String × String × String × String) → Option String
event_nonce_v3 (ok (_, _, _, nonce)) = some nonce
event_nonce_v3 (err _) = none

abbrev event_nonce_v4 : Result (String × String × String × String × String) → Option String
event_nonce_v4 (ok (_, _, _, nonce, _)) = some nonce
event_nonce_v4 (err _) = none

-- `_signed_nonce_v3`; a legacy event has none.
unfoldable pub signed_nonce : Version → Value → Value → Option String
signed_nonce v4 event_type canonical =
    if is_text event_type request_created
    then request_nonce (parse_request_canonical_v4 canonical)
    else event_nonce_v4 (parse_event_canonical_v4 canonical)
signed_nonce v3 event_type canonical =
    if is_text event_type request_created
    then request_nonce (parse_request_canonical_v3 canonical)
    else event_nonce_v3 (parse_event_canonical_v3 canonical)
signed_nonce legacy event_type canonical = none

unfoldable pub signed_prior_head_v4 : Value → Option String
signed_prior_head_v4 canonical = elim (parse_event_canonical_v4 canonical) [
  | ok (_, _, _, _, prior_head) ↦ some prior_head
  | err _ ↦ none
]

-- `CLOSING_EVENT_TYPES`
abbrev pub is_closing : Value → Bool
is_closing event_type = is_text event_type "proof.completed" || is_text event_type "proof.failed"
