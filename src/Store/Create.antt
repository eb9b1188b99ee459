-- ===== src/Store/Create.antt =====
-- app/main.py: create_proof.
use Prim.Native.String
use Prim.Native.String.{String}
use text.Mathlib.Text.{◌==◌ as str_eq}
use flop_proof_api.Base.{
  Bool, true, false, not, ◌&&◌, ◌||◌, List, [], ◌∷◌, ◌++◌, Option, none, some, if◌then◌else◌,
  Result, ok, err, or_false, database_error, http_exception, raise_if, ◌>>=◌, ◌>>◌,
}
use flop_proof_api.Host.{Host}
use flop_proof_api.Value.{str, obj, Fields, end, field}
use flop_proof_api.Records.{sha256_json}
use flop_proof_api.Did.{verify_canonical_signature}
use flop_proof_api.Canonical.{parse_request_canonical_v4}
use flop_proof_api.Authorization.{request_created}
use flop_proof_api.Store.{
  Proof, ProofEvent, Tables, first_proof, first_request, NewEvent, create_event, has_event_id,
}
use flop_proof_api.Store.Append.{http, or_http, require_signature_encoding, require_ed25519_did}

-- `RequestSchema` of app/schemas.py, with the parts of its signature
pub record Request : Type 0 where
  pub request_id : String
  pub from_did : String
  pub text : String
  pub created_at : String
  pub nonce : String
  pub sig : String
  pub canonical : String

-- `signed_request.model_dump(mode="json")`, with the keys in order: Python's dictionaries are equal
-- whatever the order of their keys, and both json.dumps and json.loads are given this order.
unfoldable pub request_payload : Request → Fields
request_payload request = field "created_at" (str request.created_at) (
    field "from_did" (str request.from_did) (
      field "request_id" (str request.request_id) (
        field "signature"
          (obj (
            field "canonical" (str request.canonical)
              (field "nonce" (str request.nonce) (field "sig" (str request.sig) end))))
          (field "text" (str request.text) end))))

-- `db.scalar(select(ProofEvent).where(proof_id, event_type == "request.created"))`
abbrev pub request_event : List ProofEvent → String → Option ProofEvent
request_event [] proof_id = none
request_event (e ∷ events) proof_id =
    if str_eq e.proof_id proof_id && str_eq e.event_type request_created
    then some e
    else request_event events proof_id

abbrev pub bad_canonical : String → String
bad_canonical text =
    String.◌++◌ "Invalid request canonical, expected FLOP/REQUEST/v4|room|nonce|text ("
      (String.◌++◌ text ")")

abbrev pub another_actor {ℓ} : {A : Type ℓ} → Result A
another_actor = http 409 "request_id already belongs to another actor"

abbrev pub another_request {ℓ} : {A : Type ℓ} → Result A
another_request = http 409 "request_id already belongs to a different request"

-- `create_event(db=db, proof_id=proof_id, event_type="request.created", ...)`
abbrev pub opening_event : Request → NewEvent
opening_event request = record {
  event_type = request_created;
  actor_did = request.from_did;
  payload = request_payload request;
  canonical = some request.canonical;
  signature = some request.sig;
  nonce = request.nonce;
}

-- The row of a new proof.
abbrev pub new_proof : String → String → String → Proof
new_proof proof_id request_id now = record {
  proof_id = proof_id;
  request_id = request_id;
  version = "4";
  status = "pending";
  created_at = now;
  updated_at = now;
}

abbrev pub is_taken : Option Proof → Bool
is_taken none = false
is_taken (some _) = true

module _ (host : Host) where
  -- The checks of the signed request itself.
  unfoldable pub check_request : Request → Result (Unit {0})
  check_request request = do
    (_, canonical_nonce, canonical_text) ←
        or_http 401 bad_canonical (parse_request_canonical_v4 (str request.canonical))
    require_signature_encoding request.sig
    require_ed25519_did host request.from_did "from_did"
    raise_if
        (not (
          str_eq canonical_nonce request.nonce
          && str_eq canonical_text request.text
          && or_false
              (verify_canonical_signature host request.from_did request.canonical request.sig)))
        (http_exception 401 "Invalid request signature")

  -- The answer where the request_id has a proof.
  unfoldable pub repeated : Tables → Proof → Request → Result Proof
  repeated tables proof request = elim (request_event tables.events proof.proof_id) [
    | none ↦ another_actor
    | some event ↦
        if not (str_eq event.actor_did request.from_did)
        then another_actor
        else if str_eq event.payload_hash (sha256_json host (obj (request_payload request)))
        then ok proof
        else another_request
  ]

  -- From `db.add(proof)` to `db.commit()`: the tables after it, or none on an IntegrityError.
  unfoldable pub insert_proof : Tables → Request → String → String → String → Option Tables
  insert_proof tables request proof_id event_id now =
      if is_taken (first_proof tables.proofs proof_id)
        || is_taken (first_request tables.proofs request.request_id)
        || has_event_id tables.events event_id
      then none
      else some (record {
        proofs = tables.proofs ++ new_proof proof_id request.request_id now ∷ [];
        events =
            tables.events
            ++ create_event host tables proof_id (opening_event request) event_id now ∷ [];
      })

  -- `except IntegrityError`, after the rollback
  unfoldable pub raced : Tables → Request → Result Proof
  raced tables request = elim (first_request tables.proofs request.request_id) [
    | none ↦ err (database_error "UNIQUE constraint failed")
    | some proof ↦ elim (request_event tables.events proof.proof_id) [
      | none ↦ err (database_error "UNIQUE constraint failed")
      | some event ↦
          if not (str_eq event.actor_did request.from_did)
          then another_actor
          else if not (str_eq event.payload_hash (sha256_json host (obj (request_payload request))))
          then another_request
          else ok proof
    ]
  ]

  -- The handler after the lookup that found no proof: the answer, and the tables after it.
  unfoldable pub write_proof : Tables → Request → String → String → String → Result (Proof × Tables)
  write_proof tables request proof_id event_id now =
      elim (insert_proof tables request proof_id event_id now) [
        | some after ↦ ok (new_proof proof_id request.request_id now, after)
        | none ↦ do proof ← raced tables request; ok (proof, tables)
      ]

  -- `create_proof`, with no other writer between its two parts
  unfoldable pub create_proof :
      Tables → Request → String → String → String → Result (Proof × Tables)
  create_proof tables request proof_id event_id now = do
    check_request request
    elim (first_request tables.proofs request.request_id) [
      | some proof ↦ do answer ← repeated tables proof request; ok (answer, tables)
      | none ↦ write_proof tables request proof_id event_id now
    ]
