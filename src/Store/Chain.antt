-- ===== src/Store/Chain.antt =====
-- app/main.py: the rows that the two handlers write for a version-4 proof, one after the other.
use Prim.Native.String.{String}
use flop_proof_api.Base.{Bool, ◌≡◌, false, List, [], ◌∷◌, ◌++◌, none, some, any, Result, ok}
use flop_proof_api.Host.{Host}
use flop_proof_api.Value.{Value, str, obj, Fields}
use flop_proof_api.Json.{dumps}
use flop_proof_api.Records.{last_of}
use flop_proof_api.Formats.{v4, is_closing}
use flop_proof_api.Store.{ProofEvent, row_after}
use flop_proof_api.Store.Append.{EventCreate, check_signed, check_chain, new_event}
use flop_proof_api.Store.Create.{Request, request_payload, opening_event, check_request}

-- `json.loads` gives back the payload that `json.dumps` was given. It is so for a payload whose
-- keys are distinct and in order; Python's dictionaries do not tell the orders apart.
abbrev pub ReadsBack : (String → Result Value) → Fields → Type 0
ReadsBack json_loads payload = json_loads (dumps (obj payload)) ≡ ok (obj payload)

abbrev pub has_closing : List ProofEvent → Bool
has_closing = any (λ row. is_closing (str row.event_type))

module _ (host : Host) (json_loads : String → Result Value) (proof_id : String) where
  -- The rows of one proof that some run of the handlers' checks has let in, in their order.
  pub data Chain : List ProofEvent → Type 0 where
    empty : Chain []
    opened :
        (request : Request) (event_id now : String)
        → ReadsBack json_loads (request_payload request)
        → check_request host request ≡ ok tt
        → Chain (row_after host none proof_id (opening_event request) event_id now ∷ [])
    appended :
        (rows : List ProofEvent) (event : EventCreate) (event_id now : String)
        → Chain rows
        → ReadsBack json_loads event.payload
        → has_closing rows ≡ false
        → check_signed host proof_id "4" event ≡ ok tt
        → check_chain host json_loads proof_id (some v4) rows event ≡ ok tt
        → Chain (rows ++ row_after host (last_of rows) proof_id (new_event event) event_id now ∷ [])
