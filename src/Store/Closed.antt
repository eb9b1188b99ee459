-- ===== src/Store/Closed.antt =====
-- app/main.py: a proof with a closing event takes no further event.
use Prim.Native.String
use Prim.Native.String.{String}
use flop_proof_api.Base.{◌≡◌, refl, ◌∙◌, true, some, Result, err, http_exception, Exn}
use flop_proof_api.Host.{Host}
use flop_proof_api.Value.{Value}
use flop_proof_api.Store.{Proof, first_proof, chain_of}
use flop_proof_api.Store.Append.{EventCreate, check_append, write_event, append_event}
use flop_proof_api.Store.Chain.{has_closing}
use flop_proof_api.Store.Promises.{closed_status}
use flop_proof_api.Store.System.{State, Reach}

abbrev pub already : Proof → Exn
already p = http_exception 409 (String.◌++◌ "Proof is already " p.status)

-- In every state that the API reaches, every event for a proof whose chain has a closing event is
-- refused with 409 and the proof's status, by append_event as a whole, and by its write if the proof
-- was closed after the first checks.
pub closed_proof_refuses :
    (host : Host) (json_loads : String → Result Value) (s : State) (proof_id : String) (p : Proof)
    (event : EventCreate) (event_id now : String)
    → Reach host json_loads s
    → first_proof s.tables.proofs proof_id ≡ some p
    → has_closing (chain_of s.tables.events proof_id) ≡ true
    → (append_event host json_loads s.tables proof_id event event_id now ≡ err (already p))
      × (write_event host json_loads s.tables proof_id event event_id now ≡ err (already p))
unfolding append_event check_append write_event
closed_proof_refuses host json_loads s proof_id p event event_id now reach found closing =
    let closed = closed_status host json_loads s proof_id p reach found ∙ closing in
    (rw (append_event, check_append, found, closed) refl, rw (write_event, found, closed) refl)
