-- ===== src/Verification/Verdict.antt =====
-- app/verification_core.py: `verify_proof_events` as a whole.
use Prim.Native.String.{String}
use flop_proof_api.Base.{
  ℕ, ◌+◌, ◌-◌, Bool, true, false, not, ◌&&◌, List, [], ◌∷◌, Option, none, some, all, length, leb,
  ◌==◌, if◌then◌else◌, Result, ok, err, type_error, raise_if, ◌>>=◌, ◌>>◌,
}
use flop_proof_api.Base.Bytes.{Bytes}
use flop_proof_api.Host.{Host}
use flop_proof_api.Value.{Value, Fields, get}
use flop_proof_api.Records.{chain_head}
use flop_proof_api.Formats.{Version, version_of, is_closing}
use flop_proof_api.Verification.{Check, check_events, nothing_seen, not_false, is_hashable}
use flop_proof_api.Verification.Results.{Outcome, outcome_of, no_outcome}

-- The conjunction that one entry of "checks" contributes to the verdict.
unfoldable pub check_holds : Check → Bool
check_holds check =
    check.sequence_valid
    && check.chain_valid
    && check.payload_hash_valid
    && check.canonical_valid
    && check.signature_valid
    && not_false check.request_binding_valid
    && check.format_valid
    && check.replay_valid
    && not_false check.prior_head_valid
    && check.actor_authorized

unfoldable pub closing_positions : ℕ → List Fields → List ℕ
closing_positions index [] = []
closing_positions index (event ∷ events) =
    let later = closing_positions (index + 1) events in
    if is_closing (get "type" event) then index ∷ later else later

unfoldable pub position_ok : List Fields → Bool
unfolding closing_positions
position_ok events =
    let positions = closing_positions 0 events in
    leb (length positions) 1 && all (λ index. index == length events - 1) positions

-- The report, with `outcome` for the hash fields.
pub record Report : Type 0 where
  pub valid : Bool
  pub events_checked : ℕ
  pub outcome : Outcome
  pub checks : List Check
  pub closed : Bool
  pub chain_head : Option String
  pub event_count : ℕ
  pub reason : Option String

unfoldable pub has_hashable_types : List Fields → Bool
has_hashable_types events = all (λ event. is_hashable (get "type" event)) events

abbrev rejected : String → Report
rejected reason = record {
  valid = false;
  events_checked = 0;
  outcome = no_outcome;
  checks = [];
  closed = false;
  chain_head = none;
  event_count = 0;
  reason = some reason;
}

abbrev is_empty_list {ℓ} : {A : Type ℓ} → List A → Bool
is_empty_list [] = true
is_empty_list (_ ∷ _) = false

unfoldable pub outcome_holds : Outcome → Bool
outcome_holds outcome =
    not_false outcome.result_hash_valid
    && not_false outcome.artifact_hash_valid
    && not_false outcome.task_hash_valid

abbrev pub head_or_none : Result (Option String) → Option String
head_or_none (ok head) = head
head_or_none (err _) = none

module _ (host : Host) (read_file : Value → Result Bytes) (proof_id : Value) where
  -- The dictionary that is returned once the outcome is known.
  abbrev pub report_with : Version → List Fields → Outcome → Report
  report_with version events outcome =
      let checks = check_events host proof_id version nothing_seen events in
      record {
        valid = all check_holds checks && position_ok events && outcome_holds outcome;
        events_checked = length events;
        outcome = outcome;
        checks = checks;
        closed = not (is_empty_list (closing_positions 0 events));
        chain_head = head_or_none (chain_head host events proof_id);
        event_count = length events;
        reason =
            if position_ok events
            then none
            else some
                "A closing event (proof.completed or proof.failed) is not the last event, or there is more than one.";
      }

  -- The part after the two early returns. `event.get("type") in CLOSING_EVENT_TYPES` raises for a
  -- type that is a list or an object.
  unfoldable pub report_of : Version → List Fields → Result Report
  unfolding check_holds position_ok outcome_holds
  report_of version events = do
    raise_if (not (has_hashable_types events)) (type_error "unhashable type")
    outcome ← outcome_of host read_file no_outcome events
    ok (report_with version events outcome)

  -- `version not in LEGACY_PROOF_VERSIONS` raises for a version that is a list or an object.
  unfoldable pub verify_proof_events : List Fields → Value → Result Report
  unfolding report_of
  verify_proof_events events version = elim (version_of version) [
    | none ↦
        if is_hashable version
        then ok (rejected "Missing or unsupported proof version.")
        else err (type_error "unhashable type")
    | some known ↦
        if is_empty_list events
        then ok (rejected "Proof contains no events.")
        else report_of known events
  ]
