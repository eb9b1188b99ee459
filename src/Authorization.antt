-- ===== src/Authorization.antt =====
-- app/authorization.py: who may append which event to a proof.
pub mod Rules
pub mod Delegates
pub mod Tests
use Prim.Native.String.{String}
use text.Mathlib.Text.{◌==◌ as str_eq}
use flop_proof_api.Base.{
  ℕ, Bool, true, false, not, ◌&&◌, ◌||◌, List, [], ◌∷◌, Option, none, some, any, length, ltb, ◌==◌,
  if◌then◌else◌, Result, ok, err,
}
use flop_proof_api.Base.Strings.{is_empty}
use flop_proof_api.Base.Sets.{contains, update, discard, set_of}
use flop_proof_api.Host.{Host}
use flop_proof_api.Value.{
  Value, str, arr, obj, Fields, find, is_text, is_nat, texts, count_items, all_items,
}
use flop_proof_api.Did.{did_key_to_public_key}

pub data Role : Type 0 where
  creator delegate unauthorized : Role

abbrev pub request_created : String
request_created = "request.created"

abbrev pub task_delegated : String
task_delegated = "task.delegated"

abbrev pub result_created : String
result_created = "result.created"

-- `event_type in CREATOR_ONLY_TYPES`; a list or an object as the type, on which Python raises
-- TypeError, is taken for no member.
abbrev pub is_creator_only : Value → Bool
is_creator_only event_type =
    is_text event_type task_delegated
    || is_text event_type "proof.completed"
    || is_text event_type "proof.failed"

abbrev pub max_delegates_per_proof : ℕ
max_delegates_per_proof = 32

-- The keys of REASONS.
pub data Reason : Type 0 where
  no_creator not_delegated creator_only request_created_not_allowed invalid_delegate_did : Reason
  invalid_delegates result_already_created head_mismatch : Reason

-- REASONS: the HTTP status and the message.
unfoldable pub reasons : Reason → ℕ × String
reasons no_creator = (403, "Actor is not authorized for this proof")
reasons not_delegated = (403, "Actor is not authorized for this proof")
reasons creator_only = (403, "Event type requires the proof creator")
reasons request_created_not_allowed = (403, "request.created can only be written by POST /proofs")
reasons invalid_delegate_did = (400, "Invalid delegate DID")
reasons invalid_delegates = (400, "Invalid delegate list")
reasons result_already_created = (409, "result.created already exists for this proof")
reasons head_mismatch = (409, "Event prior_head does not match the current chain")

pub record AuthorizationDecision : Type 0 where
  pub allowed : Bool
  pub role : Role
  pub reason : Option Reason

-- One of `prior_events`; "sequence" may be missing.
pub record PriorEvent : Type 0 where
  pub event_type : Value
  pub actor_did : Value
  pub payload : Value
  pub sequence : Option Value

module _ (host : Host) where
  unfoldable pub is_valid_did_key : Value → Bool
  is_valid_did_key (str did) = elim (did_key_to_public_key host did) [ ok _ ↦ true | err _ ↦ false ]
  is_valid_did_key _ = false

  -- The checks on the value of "delegates".
  delegates_error : Value → Option Reason
  delegates_error (arr delegates) =
      if ltb max_delegates_per_proof (count_items delegates)
      then some invalid_delegates
      else if not (all_items is_valid_did_key delegates)
      then some invalid_delegate_did
      else if not (length (set_of (texts delegates)) == count_items delegates)
      then some invalid_delegates
      else none
  delegates_error _ = some invalid_delegates

  unfoldable pub delegates_field_error : Value → Option Reason
  unfolding delegates_error
  delegates_field_error (obj payload) = elim (find "delegates" payload) [
    | none ↦ none
    | some delegates ↦ delegates_error delegates
  ]
  delegates_field_error _ = none

-- `actor if isinstance(actor, str) and actor else None`
abbrev actor_text : Value → Option String
actor_text (str actor) = if is_empty actor then none else some actor
actor_text _ = none

-- `"sequence" in first and first["sequence"] != 1`
abbrev wrong_sequence : Option Value → Bool
wrong_sequence none = false
wrong_sequence (some n) = not (is_nat n 1)

unfoldable pub creator_of : List PriorEvent → Option String
creator_of [] = none
creator_of (first ∷ _) =
    if not (is_text first.event_type request_created)
    then none
    else if wrong_sequence first.sequence
    then none
    else actor_text first.actor_did

-- `payload.get("delegates", [])` of a mapping whose delegate list is well formed
unfoldable pub listed_delegates : Value → List String
listed_delegates (obj payload) = elim (find "delegates" payload) [
  | some (arr delegates) ↦ texts delegates
  | _ ↦ []
]
listed_delegates _ = []

module _ (host : Host) where
  -- What one event of the chain delegates.
  unfoldable pub delegated_by : String → PriorEvent → List String
  unfolding delegates_field_error
  delegated_by owner event =
      if not (is_text event.event_type task_delegated) || not (is_text event.actor_did owner)
      then []
      else elim (delegates_field_error host event.payload) [
        | some _ ↦ []
        | none ↦ listed_delegates event.payload
      ]

  -- The loop over the events after the first.
  unfoldable pub delegated_from : String → List String → List PriorEvent → List String
  delegated_from owner delegated [] = delegated
  delegated_from owner delegated (event ∷ events) =
      delegated_from owner (update delegated (delegated_by owner event)) events

  unfoldable pub delegates_of : List PriorEvent → List String
  delegates_of [] = []
  delegates_of (first ∷ rest) = elim (creator_of (first ∷ rest)) [
    | none ↦ []
    | some owner ↦ discard owner (delegated_from owner [] rest)
  ]

  abbrev role_of : String → List PriorEvent → String → Role
  role_of owner prior_events actor_did =
      if str_eq actor_did owner
      then Role.creator
      else if contains (delegates_of prior_events) actor_did
      then delegate
      else unauthorized

  abbrev refuse : Role → Reason → AuthorizationDecision
  refuse role reason = record { allowed = false; role = role; reason = some reason }

  abbrev allow : Role → AuthorizationDecision
  allow role = record { allowed = true; role = role; reason = none }

  -- `isinstance(payload, Mapping) and "delegates" in payload`, and the cap with the new delegates
  abbrev too_many : String → List PriorEvent → Value → Bool
  too_many owner prior_events (obj payload) = elim (find "delegates" payload) [
    | none ↦ false
    | some _ ↦
        let new = discard owner (set_of (listed_delegates (obj payload))) in
        ltb max_delegates_per_proof (length (update (delegates_of prior_events) new))
  ]
  too_many owner prior_events _ = false

  delegation : String → List PriorEvent → Value → Role → AuthorizationDecision
  delegation owner prior_events payload role = elim (delegates_field_error host payload) [
    | some error ↦ refuse role error
    | none ↦
        if too_many owner prior_events payload then refuse role invalid_delegates else allow role
  ]

  abbrev is_unauthorized : Role → Bool
  is_unauthorized unauthorized = true
  is_unauthorized _ = false

  abbrev is_creator : Role → Bool
  is_creator Role.creator = true
  is_creator _ = false

  -- The checks that follow once the creator and the role are known.
  authorize_role : String → List PriorEvent → Value → Value → Role → AuthorizationDecision
  unfolding delegation
  authorize_role owner prior_events event_type payload role =
      if is_text event_type request_created
      then refuse role request_created_not_allowed
      else if is_unauthorized role
      then refuse role not_delegated
      else if is_creator_only event_type && not (is_creator role)
      then refuse role creator_only
      else if is_text event_type task_delegated
      then delegation owner prior_events payload role
      else allow role

  unfoldable pub authorize_event : List PriorEvent → String → Value → Value → AuthorizationDecision
  unfolding authorize_role
  authorize_event prior_events actor_did event_type payload = elim (creator_of prior_events) [
    | none ↦ refuse unauthorized no_creator
    | some owner ↦
        authorize_role owner prior_events event_type payload (role_of owner prior_events actor_did)
  ]

unfoldable pub check_single_result_created : List PriorEvent → Value → Option Reason
check_single_result_created prior_events event_type =
    if not (is_text event_type result_created)
    then none
    else if any (λ event. is_text event.event_type result_created) prior_events
    then some result_already_created
    else none
