-- ===== src/Store.antt =====
-- app/models.py, app/events.py: the tables of proofs and events, and how an event is added.
pub mod Append
pub mod Create
pub mod Order
pub mod Chain
pub mod Matching
pub mod Matches
pub mod Accepted
pub mod Passed
pub mod Opened
pub mod Verified
pub mod Rows
pub mod Writes
pub mod System
pub mod Invariant
pub mod Kept
pub mod Inserted
pub mod Reached
pub mod Promises
pub mod Races
pub mod Repeats
pub mod Liveness
pub mod Read
pub mod Pages
pub mod Client
pub mod Closed
pub mod Tests
use Prim.Native.String.{String}
use text.Mathlib.Text.{◌==◌ as str_eq}
use flop_proof_api.Base.{
  ℕ, ◌+◌, Bool, true, false, not, ◌||◌, List, [], ◌∷◌, ◌++◌, Option, none, some, any, map, ltb,
  if◌then◌else◌, Result, ok, err, ◌>>=◌,
}
use flop_proof_api.Base.Strings.{join_bar}
use flop_proof_api.Host.{Host}
use flop_proof_api.Value.{Value, text_or_null, str, pos, obj, Fields, end, field}
use flop_proof_api.Json.{dumps}
use flop_proof_api.Records.{Link, sha256_json, hash_event_record, last_of}
use flop_proof_api.Authorization.{PriorEvent}

-- A row of the table proofs. The column `status` is a text. A time is the text that `isoformat` makes of it.
pub record Proof : Type 0 where
  pub proof_id : String
  pub request_id : String
  pub version : String
  pub status : String
  pub created_at : String
  pub updated_at : String

-- A row of the table proof_events.
pub record ProofEvent : Type 0 where
  pub event_id : String
  pub proof_id : String
  pub event_type : String
  pub actor_did : String
  pub payload_hash : String
  pub payload_json : String
  pub canonical : String
  pub signature : String
  pub created_at : String
  pub sequence : ℕ
  pub previous_event_hash : Option String
  pub nonce : String

-- The rows in the order of their insertion.
pub record Tables : Type 0 where
  pub proofs : List Proof
  pub events : List ProofEvent

-- `db.scalar(select(Proof).where(Proof.proof_id == proof_id))`
abbrev pub first_proof : List Proof → String → Option Proof
first_proof [] proof_id = none
first_proof (p ∷ proofs) proof_id =
    if str_eq p.proof_id proof_id then some p else first_proof proofs proof_id

-- `db.scalar(select(Proof).where(Proof.request_id == request_id))`
abbrev pub first_request : List Proof → String → Option Proof
first_request [] request_id = none
first_request (p ∷ proofs) request_id =
    if str_eq p.request_id request_id then some p else first_request proofs request_id

abbrev pub events_of : List ProofEvent → String → List ProofEvent
events_of [] proof_id = []
events_of (e ∷ events) proof_id =
    let rest = events_of events proof_id in if str_eq e.proof_id proof_id then e ∷ rest else rest

-- `order_by(ProofEvent.sequence)`, with the rows that are there sorted in one after the other
unfoldable pub insert_event : ProofEvent → List ProofEvent → List ProofEvent
insert_event e [] = e ∷ []
insert_event e (x ∷ xs) =
    let rest = insert_event e xs in if ltb e.sequence x.sequence then e ∷ (x ∷ xs) else x ∷ rest

unfoldable pub sorted_onto : List ProofEvent → List ProofEvent → List ProofEvent
sorted_onto sorted [] = sorted
sorted_onto sorted (e ∷ events) = sorted_onto (insert_event e sorted) events

-- The chain of a proof, in the order of the sequence numbers.
unfoldable pub chain_of : List ProofEvent → String → List ProofEvent
unfolding sorted_onto
chain_of events proof_id = sorted_onto [] (events_of events proof_id)

-- The link that a row gives `hash_event_record`.
abbrev pub link_of_row : ProofEvent → Link
link_of_row e = record {
  event_id = str e.event_id;
  event_type = str e.event_type;
  actor_did = str e.actor_did;
  payload_hash = str e.payload_hash;
  canonical = str e.canonical;
  signature = str e.signature;
  created_at = str e.created_at;
  sequence = pos e.sequence;
}

abbrev pub next_sequence : Option ProofEvent → ℕ
next_sequence none = 0 + 1
next_sequence (some last) = last.sequence + 1

abbrev pub or_text : Option String → String → String
or_text none text = text
or_text (some given) text = given

-- The arguments of `create_event` after `db` and `proof_id`.
pub record NewEvent : Type 0 where
  pub event_type : String
  pub actor_did : String
  pub payload : Fields
  pub canonical : Option String
  pub signature : Option String
  pub nonce : String

module _ (host : Host) where
  abbrev pub link_hash : String → Option ProofEvent → Option String
  link_hash proof_id none = none
  link_hash proof_id (some last) =
      some (hash_event_record host (str last.proof_id) (link_of_row last))

  -- The row that `create_event` adds after the last row of the chain. `event_id` is the new "evt_"
  -- and UUID, `now` the clock.
  unfoldable pub row_after : Option ProofEvent → String → NewEvent → String → String → ProofEvent
  row_after last_event proof_id event event_id now =
      let payload_hash = sha256_json host (obj event.payload) in
      record {
        event_id = event_id;
        proof_id = proof_id;
        event_type = event.event_type;
        actor_did = event.actor_did;
        payload_hash = payload_hash;
        payload_json = dumps (obj event.payload);
        canonical =
            or_text event.canonical (join_bar (proof_id ∷ event.event_type ∷ payload_hash ∷ []));
        signature = or_text event.signature "";
        created_at = now;
        sequence = next_sequence last_event;
        previous_event_hash = link_hash proof_id last_event;
        nonce = event.nonce;
      }

  -- `create_event`
  unfoldable pub create_event : Tables → String → NewEvent → String → String → ProofEvent
  unfolding row_after
  create_event tables proof_id event event_id now =
      row_after (last_of (chain_of tables.events proof_id)) proof_id event event_id now

-- `db.add(event)`
abbrev pub add_event : Tables → ProofEvent → Tables
add_event tables event = record tables { events = tables.events ++ event ∷ [] }

-- The unique columns, which the commit checks.
unfoldable pub has_event_id : List ProofEvent → String → Bool
has_event_id events event_id = any (λ e. str_eq e.event_id event_id) events

-- `_link_fields`
unfoldable pub link_fields : ProofEvent → Fields
link_fields e = field "event_id" (str e.event_id) (
    field "type" (str e.event_type) (
      field "actor_did" (str e.actor_did) (
        field "payload_hash" (str e.payload_hash) (
          field "canonical" (str e.canonical) (
            field "signature" (str e.signature)
              (field "created_at" (str e.created_at) (field "sequence" (pos e.sequence) end)))))))

-- The dictionary of one event in `verify_proof`, with the payload that was read.
unfoldable pub exported : ProofEvent → Value → Fields
exported e payload = field "event_id" (str e.event_id) (
    field "type" (str e.event_type) (
      field "actor_did" (str e.actor_did) (
        field "payload" payload (
          field "payload_hash" (str e.payload_hash) (
            field "canonical" (str e.canonical) (
              field "signature" (str e.signature) (
                field "nonce" (str e.nonce) (
                  field "created_at" (str e.created_at) (
                    field "sequence" (pos e.sequence) (
                      field "previous_event_hash" (text_or_null e.previous_event_hash) end))))))))))

-- `json_loads` is json.loads, which raises on a text that is not JSON.
module _ (json_loads : String → Result Value) where
  -- `[... for event in db_events]` of `verify_proof` and `get_proof`
  unfoldable pub export_events : List ProofEvent → Result (List Fields)
  export_events [] = ok []
  export_events (e ∷ rows) = do
    payload ← json_loads e.payload_json
    rest ← export_events rows
    ok (exported e payload ∷ rest)

  -- `prior_events`
  unfoldable pub prior_events : List ProofEvent → Result (List PriorEvent)
  prior_events [] = ok []
  prior_events (e ∷ rows) = do
    payload ← json_loads e.payload_json
    rest ← prior_events rows
    ok (
        record {
          event_type = str e.event_type;
          actor_did = str e.actor_did;
          payload = payload;
          sequence = some (pos e.sequence);
        }
        ∷ rest)
