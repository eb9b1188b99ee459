-- ===== src/Store/Invariant.antt =====
-- app/main.py: what holds of the tables and of the waiting calls in every reachable state.
use Prim.Native.String.{String}
use flop_proof_api.Base.{◌≡◌, refl, ◌≢◌, List, [], ◌∷◌, ◌++◌, none, some, Result, ok, All}
use flop_proof_api.Host.{Host}
use flop_proof_api.Value.{Value}
use flop_proof_api.Store.{Proof, Tables, first_proof, events_of, chain_of}
use flop_proof_api.Store.Append.{EventCreate, check_signed, is_closed}
use flop_proof_api.Store.Create.{Request, request_payload, check_request}
use flop_proof_api.Store.Order.{chain-events}
use flop_proof_api.Store.Chain.{ReadsBack, has_closing, Chain, empty}
use flop_proof_api.Store.Verified.{Matches-of_chain}
use flop_proof_api.Store.System.{State}

module _ (host : Host) (json_loads : String → Result Value) where
  -- What holds of the tables: the rows of each proof are a chain, a proof is closed exactly when
  -- its chain has a closing event, and there are no events without a proof, nor the reverse.
  pub record Consistent (tables : Tables) : Type 0 where
    pub chain :
        (proof_id : String) → Chain host json_loads proof_id (events_of tables.events proof_id)
    pub version :
        (proof_id : String) (p : Proof)
        → first_proof tables.proofs proof_id ≡ some p
        → p.version ≡ "4"
    pub closed :
        (proof_id : String) (p : Proof)
        → first_proof tables.proofs proof_id ≡ some p
        → is_closed p.status ≡ has_closing (events_of tables.events proof_id)
    pub orphans :
        (proof_id : String)
        → first_proof tables.proofs proof_id ≡ none
        → events_of tables.events proof_id ≡ []
    pub opening :
        (proof_id : String) (p : Proof)
        → first_proof tables.proofs proof_id ≡ some p
        → events_of tables.events proof_id ≢ []

  abbrev pub Waits : String × EventCreate → Type 0
  Waits (proof_id, event) =
      ReadsBack json_loads event.payload × (check_signed host proof_id "4" event ≡ ok tt)

  abbrev pub Asks : Request → Type 0
  Asks request =
      ReadsBack json_loads (request_payload request) × (check_request host request ≡ ok tt)

  pub record Sound (s : State) : Type 0 where
    pub tables : Consistent s.tables
    pub appends : All Waits s.appends
    pub requests : All Asks s.requests

  pub nothing-Consistent : Consistent (record { proofs = []; events = [] })
  nothing-Consistent = record {
    chain = λ proof_id. empty;
    version = λ proof_id p h. cc;
    closed = λ proof_id p h. cc;
    orphans = λ proof_id h. refl;
    opening = λ proof_id p h. cc;
  }

  -- The chain that is read in the order of the numbers is the rows as they were inserted.
  pub chain-rows :
      (tables : Tables) (proof_id : String)
      → Consistent tables
      → chain_of tables.events proof_id ≡ events_of tables.events proof_id
  chain-rows tables proof_id c =
      let (_, _, m) = Matches-of_chain host json_loads proof_id _ (c.chain proof_id) in
      chain-events tables.events proof_id m.numbered

-- The middle of a list, and the list without it.
pub All-middle {ℓ κ} :
    {A : Type ℓ} (P : A → Type κ) (xs ys : List A) (x : A)
    → All P (xs ++ x ∷ ys)
    → P x × All P (xs ++ ys)
All-middle P [] ys x (h, rest) = (h, rest)
All-middle P (z ∷ xs) ys x (h, rest) =
    let (mid, others) = All-middle P xs ys x rest in (mid, (h, others))
