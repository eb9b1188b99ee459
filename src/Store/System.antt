-- ===== src/Store/System.antt =====
-- app/main.py, app/events.py: the API with any number of calls under way.
use Prim.Native.String.{String}
use flop_proof_api.Base.{◌≡◌, List, [], ◌∷◌, ◌++◌, none, Result, ok, err, Exn}
use flop_proof_api.Host.{Host}
use flop_proof_api.Value.{Value}
use flop_proof_api.Store.{Proof, ProofEvent, Tables, first_request}
use flop_proof_api.Store.Append.{EventCreate, check_append, write_event}
use flop_proof_api.Store.Create.{Request, request_payload, check_request, write_proof}
use flop_proof_api.Store.Chain.{ReadsBack}

-- The tables, and the calls that have passed their first checks and wait to write: those of
-- append_event with their proof_id, and those of create_proof.
pub record State : Type 0 where
  pub tables : Tables
  pub appends : List (String × EventCreate)
  pub requests : List Request

-- An empty database.
abbrev pub initial : State
initial = record { tables = record { proofs = []; events = [] }; appends = []; requests = [] }

module _ (host : Host) (json_loads : String → Result Value) where
  -- What one call does next. The identifiers and times are any texts. A call that is refused before
  -- it waits changes nothing, and is no step.
  pub data Step (s : State) : State → Type 0 where
    checked :
        (proof_id : String) (event : EventCreate)
        → ReadsBack json_loads event.payload
        → check_append host s.tables proof_id event ≡ ok tt
        → Step s (record s { appends = (proof_id, event) ∷ s.appends })
    written :
        (xs ys : List (String × EventCreate)) (proof_id : String) (event : EventCreate)
        (event_id now : String) (row : ProofEvent) (after : Tables)
        → s.appends ≡ xs ++ (proof_id, event) ∷ ys
        → write_event host json_loads s.tables proof_id event event_id now ≡ ok (row, after)
        → Step s (record s { tables = after; appends = xs ++ ys })
    refused :
        (xs ys : List (String × EventCreate)) (proof_id : String) (event : EventCreate)
        (event_id now : String) (e : Exn)
        → s.appends ≡ xs ++ (proof_id, event) ∷ ys
        → write_event host json_loads s.tables proof_id event event_id now ≡ err e
        → Step s (record s { appends = xs ++ ys })
    asked :
        (request : Request)
        → ReadsBack json_loads (request_payload request)
        → check_request host request ≡ ok tt
        → first_request s.tables.proofs request.request_id ≡ none
        → Step s (record s { requests = request ∷ s.requests })
    created :
        (xs ys : List Request) (request : Request) (proof_id event_id now : String) (proof : Proof)
        (after : Tables)
        → s.requests ≡ xs ++ request ∷ ys
        → write_proof host s.tables request proof_id event_id now ≡ ok (proof, after)
        → Step s (record s { tables = after; requests = xs ++ ys })
    lost :
        (xs ys : List Request) (request : Request) (proof_id event_id now : String) (e : Exn)
        → s.requests ≡ xs ++ request ∷ ys
        → write_proof host s.tables request proof_id event_id now ≡ err e
        → Step s (record s { requests = xs ++ ys })

  pub data Reach : State → Type 0 where
    start : Reach initial
    later : {s t : State} → Reach s → Step s t → Reach t
