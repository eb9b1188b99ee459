-- ===== src/Authorization/Tests.antt =====
-- Runs of app/authorization.py, and its theorems at a concrete chain.
use flop_proof_api.Base.{◌≡◌, refl, ◌↔◌, true, List, [], ◌∷◌, none, some, arith, ◌≤◌, length}
use flop_proof_api.Base.Sets.{contains, update, discard, set_of}
use flop_proof_api.Value.{
  Value, null, str, pos, arr, obj, nil, cons, end, field, find, is_text, is_nat, texts, count_items,
  all_items,
}
use flop_proof_api.Did.{did_key_to_public_key, is_ed25519_point_encoding, has_small_order}
use flop_proof_api.Did.Tests.{toy_host}
use flop_proof_api.Authorization.{
  PriorEvent, invalid_delegates, creator_only, creator_of, delegates_of, delegated_by,
  delegated_from, delegates_field_error, listed_delegates, authorize_event, is_valid_did_key,
  check_single_result_created,
}
use flop_proof_api.Authorization.Rules.{MayAppend, authorize_event_iff}
use flop_proof_api.Authorization.Delegates.{KeepsDelegates, authorize_event-delegates}

-- The creator "did:key:zA" has delegated to "did:key:zB".
abbrev chain : List PriorEvent
chain =
    record {
      event_type = str "request.created";
      actor_did = str "did:key:zA";
      payload = null;
      sequence = some (pos 1);
    }
    ∷ record {
      event_type = str "task.delegated";
      actor_did = str "did:key:zA";
      payload = obj (field "delegates" (arr (cons (str "did:key:zB") nil)) end);
      sequence = some (pos 2);
    }
    ∷ []

abbrev to_c : Value
to_c = obj (field "delegates" (arr (cons (str "did:key:zC") nil)) end)

-- Opening this opens the module for a test.
authorization : Unit {0}
unfolding authorize_event creator_of delegates_of delegated_by delegated_from delegates_field_error
    listed_delegates is_valid_did_key did_key_to_public_key is_ed25519_point_encoding
    has_small_order is_text is_nat find texts count_items all_items contains update discard set_of
authorization = tt

delegates_run : delegates_of toy_host chain ≡ "did:key:zB" ∷ []
unfolding authorization
delegates_run = refl

delegate_may_report :
    (authorize_event toy_host chain "did:key:zB" (str "result.created") null).allowed ≡ true
unfolding authorization
delegate_may_report = refl

creator_may_delegate :
    (authorize_event toy_host chain "did:key:zA" (str "task.delegated") to_c).allowed ≡ true
unfolding authorization
creator_may_delegate = refl

refusals :
    ((authorize_event toy_host chain "did:key:zB" (str "task.delegated") to_c).reason
      ≡ some creator_only)
    × ((authorize_event toy_host chain "did:key:zA"
          (str "task.delegated")
          (obj (field "delegates" null end))).reason
        ≡ some invalid_delegates)
    × (check_single_result_created chain (str "result.created") ≡ none)
unfolding authorization check_single_result_created
refusals = (refl, refl, refl)

authorize_event_iff_example :
    ((authorize_event toy_host chain "did:key:zB" (str "result.created") null).allowed ≡ true)
    ↔ MayAppend toy_host chain "did:key:zB" "result.created" null
authorize_event_iff_example = authorize_event_iff toy_host chain "did:key:zB" "result.created" null

few_delegates : length (delegates_of toy_host chain) ≤ 32
few_delegates = rw delegates_run (omega arith)

authorize_event-delegates_example :
    KeepsDelegates toy_host chain "did:key:zA" "task.delegated" to_c (some (pos 3))
authorize_event-delegates_example =
    authorize_event-delegates toy_host chain "did:key:zA" "task.delegated" to_c (some (pos 3))
      creator_may_delegate few_delegates
