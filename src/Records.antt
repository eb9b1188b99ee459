-- ===== src/Records.antt =====
-- The hashes of app/crypto.py that link the events of a proof.
pub mod Links
use Prim.Native.String
use Prim.Native.String.{String}
use flop_proof_api.Base.{
  ℕ, ◌∷◌, [], List, Option, none, some, Bool, true, false, Result, ok, err, value_error, ◌>>=◌,
}
use flop_proof_api.Base.Bytes.{Bytes, to_hex, utf8}
use flop_proof_api.Host.{Host}
use flop_proof_api.Value.{Value, str, obj, Fields, end, field, find}
use flop_proof_api.Json.{dumps}

-- The values that a link hash covers. In an export they are of any type.
pub record Link : Type 0 where
  pub event_id : Value
  pub event_type : Value
  pub actor_did : Value
  pub payload_hash : Value
  pub canonical : Value
  pub signature : Value
  pub created_at : Value
  pub sequence : Value

-- The dictionary that is hashed.
unfoldable pub link_object : Value → Link → Value
link_object proof_id link = obj (
    field "event_id" link.event_id (
      field "proof_id" proof_id (
        field "event_type" link.event_type (
          field "actor_did" link.actor_did (
            field "payload_hash" link.payload_hash (
              field "canonical" link.canonical (
                field "signature" link.signature
                  (field "created_at" link.created_at (field "sequence" link.sequence end)))))))))

module _ (host : Host) where
  unfoldable pub sha256_bytes : Bytes → String
  sha256_bytes message = to_hex (host.sha256 message)

  unfoldable pub sha256_json : Value → String
  sha256_json payload = sha256_bytes (utf8 (dumps payload))

  unfoldable pub hash_event_record : Value → Link → String
  hash_event_record proof_id link = sha256_json (link_object proof_id link)

-- The eight keys of a link, where an exported event has them all.
unfoldable pub link_of : Fields → Option Link
link_of event = elim (find "event_id" event) [
  | none ↦ none
  | some event_id ↦ elim (find "type" event) [
    | none ↦ none
    | some event_type ↦ elim (find "actor_did" event) [
      | none ↦ none
      | some actor_did ↦ elim (find "payload_hash" event) [
        | none ↦ none
        | some payload_hash ↦ elim (find "canonical" event) [
          | none ↦ none
          | some canonical ↦ elim (find "signature" event) [
            | none ↦ none
            | some signature ↦ elim (find "created_at" event) [
              | none ↦ none
              | some created_at ↦ elim (find "sequence" event) [
                | none ↦ none
                | some sequence ↦ some (record {
                  event_id = event_id;
                  event_type = event_type;
                  actor_did = actor_did;
                  payload_hash = payload_hash;
                  canonical = canonical;
                  signature = signature;
                  created_at = created_at;
                  sequence = sequence;
                })
              ]
            ]
          ]
        ]
      ]
    ]
  ]
]

abbrev pub last_of {ℓ} : {A : Type ℓ} → List A → Option A
last_of [] = none
last_of (x ∷ []) = some x
last_of (x ∷ (y ∷ xs)) = last_of (y ∷ xs)

module _ (host : Host) where
  unfoldable pub head_of : Value → Link → Result (Option String)
  head_of proof_id link = elim (link.created_at) [
    | str _ ↦ ok (some (hash_event_record host proof_id link))
    | _ ↦ err (value_error "events: created_at must be the exported string")
  ]

  unfoldable pub chain_head : List Fields → Value → Result (Option String)
  unfolding head_of
  chain_head events proof_id = elim (last_of events) [
    | none ↦ ok none
    | some last ↦ elim (link_of last) [
      | none ↦ err (value_error "events: last event is missing fields")
      | some link ↦ head_of proof_id link
    ]
  ]
