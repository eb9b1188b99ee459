-- ===== src/Store/Append.antt =====
-- app/main.py: append_event.
use Prim.Native.String
use Prim.Native.String.{String}
use text.Mathlib.Text.{◌==◌ as str_eq}
use flop_proof_api.Base.{
  ℕ, Bool, true, false, not, ◌&&◌, ◌||◌, List, [], ◌∷◌, Option, none, some, any, if◌then◌else◌,
  Result, ok, err, or_false, http_exception, database_error, Exn, message, raise_if, ◌>>=◌, ◌>>◌,
}
use flop_proof_api.Base.Strings.{join_bar, has_prefix, codes}
use flop_proof_api.Host.{Host}
use flop_proof_api.Value.{Value, str, obj, Fields}
use flop_proof_api.Records.{sha256_json, chain_head, last_of}
use flop_proof_api.Did.{
  decode_ed25519_signature, ed25519_public_key_from_did, verify_canonical_signature,
}
use flop_proof_api.Canonical.{tag_prefix, build_event_canonical_v3, build_event_canonical_v4}
use flop_proof_api.Authorization.{
  Reason, head_mismatch, reasons, AuthorizationDecision, authorize_event,
  check_single_result_created,
}
use flop_proof_api.Formats.{Version, legacy, v3, v4, version_of}
use flop_proof_api.Store.{
  Proof, ProofEvent, Tables, first_proof, chain_of, NewEvent, create_event, add_event, has_event_id,
  link_fields, prior_events,
}

-- `EventCreate` of app/schemas.py, with the parts of its signature
pub record EventCreate : Type 0 where
  pub event_type : String
  pub actor_did : String
  pub payload : Fields
  pub nonce : String
  pub sig : String
  pub canonical : String
  pub prior_head : Option String

abbrev pub http {ℓ} : {A : Type ℓ} → ℕ → String → Result A
http status detail = err (http_exception status detail)

-- `except ValueError: raise HTTPException(...)`; only a ValueError comes here.
abbrev pub or_http {ℓ} : {A : Type ℓ} → ℕ → (String → String) → Result A → Result A
or_http status detail (ok a) = ok a
or_http status detail (err e) = http status (detail (message e))

-- `proof.status in {"completed", "failed"}`
abbrev pub is_closed : String → Bool
is_closed status = str_eq status "completed" || str_eq status "failed"

-- `if proof.status in {"completed", "failed"}: raise ...`
abbrev pub require_open : Proof → Result (Unit {0})
require_open proof =
    raise_if (is_closed proof.status)
      (http_exception 409 (String.◌++◌ "Proof is already " proof.status))

abbrev pub or_404 : Option Proof → Result Proof
or_404 none = http 404 "Proof not found"
or_404 (some proof) = ok proof

abbrev pub field_error : String → String
field_error text = String.◌++◌ "Invalid event field (" (String.◌++◌ text ")")

-- The message of a proof without prior heads; `version` is the row's text of it.
abbrev no_prior_head {ℓ} : {A : Type ℓ} → String → Result A
no_prior_head version =
    http 400
      (field_error (String.◌++◌ "prior_head: not part of version-" (String.◌++◌ version " events")))

-- The choice of the expected canonical message by the proof's version.
unfoldable pub expected_canonical :
    String → Option Version → String → EventCreate → String → Result String
expected_canonical proof_id (some v4) version event payload_hash = elim (event.prior_head) [
  | none ↦ http 400 (field_error "prior_head: required for version-4 proofs")
  | some prior_head ↦ or_http 400 field_error (
      build_event_canonical_v4 (str proof_id) (str event.event_type) (str payload_hash)
        (str event.nonce) (str prior_head))
]
expected_canonical proof_id (some v3) version event payload_hash = elim (event.prior_head) [
  | some _ ↦ no_prior_head version
  | none ↦ or_http 400 field_error (
      build_event_canonical_v3 (str proof_id) (str event.event_type) (str payload_hash)
        (str event.nonce))
]
expected_canonical proof_id (some legacy) version event payload_hash = elim (event.prior_head) [
  | some _ ↦ no_prior_head version
  | none ↦ ok (join_bar (proof_id ∷ event.event_type ∷ payload_hash ∷ []))
]
-- The quotes are those of `!r` for a version that holds none.
expected_canonical proof_id none version event payload_hash =
    http 409 (String.◌++◌ "Unsupported proof version '" (String.◌++◌ version "'"))

abbrev pub is_legacy : Option Version → Bool
is_legacy (some legacy) = true
is_legacy _ = false

abbrev pub is_v4 : Option Version → Bool
is_v4 (some v4) = true
is_v4 _ = false

-- `_require_signature_encoding`
unfoldable pub require_signature_encoding : String → Result (Unit {0})
require_signature_encoding signature = do
  _ ← or_http 422 (λ _. "Invalid signature encoding") (decode_ed25519_signature (codes signature))
  ok tt

-- `_require_ed25519_did`
unfoldable pub require_ed25519_did : Host → String → String → Result (Unit {0})
require_ed25519_did host did field = do
  _ ← or_http 422 (λ _. String.◌++◌ "Invalid " field) (ed25519_public_key_from_did host (str did))
  ok tt

module _ (host : Host) where
  -- What is checked of the event itself, for the version of its proof.
  unfoldable pub check_signed : String → String → EventCreate → Result (Unit {0})
  check_signed proof_id version event = do
    let known = version_of (str version)
    expected ←
        expected_canonical proof_id known version event (sha256_json host (obj event.payload))
    raise_if
        (not (str_eq event.canonical expected)
          || (is_legacy known && has_prefix tag_prefix event.canonical))
        (http_exception 401 "Event canonical message mismatch")
    require_signature_encoding event.sig
    require_ed25519_did host event.actor_did "actor_did"
    raise_if
        (not (or_false (verify_canonical_signature host event.actor_did event.canonical event.sig)))
        (http_exception 401 "Invalid event signature")

  -- The handler up to `begin_chain_write`: it reads the tables and changes nothing.
  unfoldable pub check_append : Tables → String → EventCreate → Result (Unit {0})
  check_append tables proof_id event = do
    proof ← or_404 (first_proof tables.proofs proof_id)
    require_open proof
    check_signed proof_id proof.version event

-- `db.refresh(proof)`
abbrev pub refreshed : Option Proof → Result Proof
refreshed none = err (database_error "Could not refresh instance")
refreshed (some proof) = ok proof

-- The answer of a refused event.
abbrev refusal : Reason → Exn
refusal reason = let (status, detail) = reasons reason in http_exception status detail

-- `if error is not None: raise ...`
abbrev pub raise_reason : Option Reason → Result (Unit {0})
raise_reason none = ok tt
raise_reason (some reason) = err (refusal reason)

-- A decision that does not allow has a reason (see AuthorizationDecision).
abbrev pub require_allowed : AuthorizationDecision → Result (Unit {0})
require_allowed decision = if decision.allowed then ok tt else raise_reason decision.reason

abbrev pub last_links : Option ProofEvent → List Fields
last_links none = []
last_links (some last) = link_fields last ∷ []

abbrev pub same_head : Option String → Option String → Bool
same_head (some a) (some b) = str_eq a b
same_head none none = true
same_head _ _ = false

abbrev pub stored_nonce : String → List ProofEvent → Bool
stored_nonce nonce = any (λ stored. str_eq stored.nonce nonce)

abbrev pub stored_pair : String → String → List ProofEvent → Bool
stored_pair canonical sig =
    any (λ stored. str_eq stored.canonical canonical && str_eq stored.signature sig)

-- The status that the event leaves.
abbrev pub next_status : String → String → String
next_status event_type status =
    if str_eq event_type "proof.completed"
    then "completed"
    else if str_eq event_type "proof.failed"
    then "failed"
    else if str_eq status "pending"
    then "active"
    else status

-- `proof.status = ...; proof.updated_at = now`
abbrev pub touch : List Proof → String → String → String → List Proof
touch [] proof_id event_type now = []
touch (p ∷ proofs) proof_id event_type now =
    (if str_eq p.proof_id proof_id
      then record p { status = next_status event_type p.status; updated_at = now }
      else p)
    ∷ touch proofs proof_id event_type now

abbrev pub new_event : EventCreate → NewEvent
new_event event = record {
  event_type = event.event_type;
  actor_did = event.actor_did;
  payload = event.payload;
  canonical = some event.canonical;
  signature = some event.sig;
  nonce = event.nonce;
}

module _ (host : Host) (json_loads : String → Result Value) where
  -- The checks inside the write section, on the chain that is read there.
  unfoldable pub check_chain :
      String → Option Version → List ProofEvent → EventCreate → Result (Unit {0})
  check_chain proof_id known chain event = do
    prior ← prior_events json_loads chain
    require_allowed
        (authorize_event host prior event.actor_did (str event.event_type) (obj event.payload))
    raise_if (stored_nonce event.nonce chain)
        (http_exception 409 "event nonce already used for this proof")
    raise_if (is_legacy known && stored_pair event.canonical event.sig chain)
        (http_exception 409 "event already recorded in this proof")
    raise_reason (check_single_result_created prior (str event.event_type))
    head ← chain_head host (last_links (last_of chain)) (str proof_id)
    raise_if (is_v4 known && not (same_head event.prior_head head)) (refusal head_mismatch)

  -- From `begin_chain_write` to the commit: the new row, and the tables after it.
  unfoldable pub write_event :
      Tables → String → EventCreate → String → String → Result (ProofEvent × Tables)
  write_event tables proof_id event event_id now = do
    proof ← refreshed (first_proof tables.proofs proof_id)
    require_open proof
    check_chain proof_id (version_of (str proof.version)) (chain_of tables.events proof_id) event
    raise_if (has_event_id tables.events event_id)
        (database_error "UNIQUE constraint failed: proof_events.event_id")
    let created = create_event host tables proof_id (new_event event) event_id now
    ok (
      created,
      record {
        proofs = touch tables.proofs proof_id event.event_type now;
        events = (add_event tables created).events;
      },
    )

  -- `append_event`, with no other writer between its two parts
  unfoldable pub append_event :
      Tables → String → EventCreate → String → String → Result (ProofEvent × Option String × Tables)
  append_event tables proof_id event event_id now = do
    check_append host tables proof_id event
    (created, after) ← write_event tables proof_id event event_id now
    head ← chain_head host (link_fields created ∷ []) (str proof_id)
    ok (created, head, after)
