-- ===== src/Store/Read.antt =====
-- app/main.py: the endpoints that read the tables.
use Prim.Native.String.{String}
use text.Mathlib.Text.{◌==◌ as str_eq}
use flop_proof_api.Base.{
  ℕ, Bool, false, not, ◌||◌, List, [], ◌∷◌, Option, none, some, map, length, ltb, take,
  if◌then◌else◌, Result, ok, http_exception, raise_if, ◌>>=◌, ◌>>◌,
}
use flop_proof_api.Base.Bytes.{Bytes}
use flop_proof_api.Base.Sets.{contains, add}
use flop_proof_api.Host.{Host}
use flop_proof_api.Value.{Value, str, Fields}
use flop_proof_api.Records.{chain_head, last_of}
use flop_proof_api.Verification.Verdict.{Report, verify_proof_events}
use flop_proof_api.Store.{
  Proof, ProofEvent, Tables, first_proof, events_of, chain_of, export_events,
}
use flop_proof_api.Store.Append.{or_404, last_links}

-- The answer of `get_proof`.
pub record ProofView : Type 0 where
  pub proof : Proof
  pub chain_head : Option String
  pub events : List Fields

-- The answer of `verify_proof`: the report, and "evidence".
pub record Verified : Type 0 where
  pub report : Report
  pub evidence_class : String
  pub execution_verified : Bool
  pub runtime_settled : Bool

module _ (host : Host) (json_loads : String → Result Value) where
  unfoldable pub get_proof : Tables → String → Result ProofView
  get_proof tables proof_id = do
    proof ← or_404 (first_proof tables.proofs proof_id)
    head ← chain_head host (last_links (last_of (chain_of tables.events proof_id))) (str proof_id)
    events ← export_events json_loads (chain_of tables.events proof_id)
    ok (record { proof = proof; chain_head = head; events = events })

  -- `read_file` is the reader of artifacts, which the verifier is given.
  unfoldable pub verify_proof : (Value → Result Bytes) → Tables → String → Result Verified
  verify_proof read_file tables proof_id = do
    proof ← or_404 (first_proof tables.proofs proof_id)
    events ← export_events json_loads (chain_of tables.events proof_id)
    report ← verify_proof_events host read_file (str proof_id) events (str proof.version)
    ok (record {
      report = report;
      evidence_class = "proof_integrity_verified";
      execution_verified = false;
      runtime_settled = false;
    })

-- `where(Proof.status == status)`
abbrev pub with_status : String → List Proof → List Proof
with_status status [] = []
with_status status (p ∷ proofs) =
    let rest = with_status status proofs in if str_eq p.status status then p ∷ rest else rest

-- One of "items" of `list_proofs`.
pub record ProofItem : Type 0 where
  pub proof : Proof
  pub events : ℕ

pub record Stats : Type 0 where
  pub total : ℕ
  pub pending : ℕ
  pub active : ℕ
  pub completed : ℕ
  pub failed : ℕ

pub record ProofPage : Type 0 where
  pub items : List ProofItem
  pub count : ℕ
  pub total : ℕ
  pub stats : Stats

abbrev pub is_status : String → Bool
is_status status =
    str_eq status "pending"
    || str_eq status "active"
    || str_eq status "completed"
    || str_eq status "failed"

abbrev pub item : List ProofEvent → Proof → ProofItem
item events p = record { proof = p; events = length (events_of events p.proof_id) }

unfoldable pub stats_of : List Proof → Stats
stats_of proofs = record {
  total = length proofs;
  pending = length (with_status "pending" proofs);
  active = length (with_status "active" proofs);
  completed = length (with_status "completed" proofs);
  failed = length (with_status "failed" proofs);
}

-- `order_by(Proof.created_at.desc())` is done by the database.
module _ (newest_first : List Proof → List Proof) where
  abbrev pub selected : Option String → List Proof → List Proof
  selected none proofs = newest_first proofs
  selected (some status) proofs = newest_first (with_status status proofs)

  abbrev pub require_status : Option String → Result (Unit {0})
  require_status none = ok tt
  require_status (some status) =
      raise_if (not (is_status status)) (http_exception 400 "Invalid proof status")

  -- What `list_proofs` returns.
  abbrev pub page_of : Tables → ℕ → Option String → ProofPage
  page_of tables limit status =
      let items = map (item tables.events) (take limit (selected status tables.proofs)) in
      record {
        items = items;
        count = length items;
        total = length tables.proofs;
        stats = stats_of tables.proofs;
      }

  -- `list_proofs`; a negative limit is refused as 0 is.
  unfoldable pub list_proofs : Tables → ℕ → Option String → Result ProofPage
  unfolding stats_of
  list_proofs tables limit status = do
    raise_if (ltb limit 1 || ltb 100 limit) (http_exception 400 "limit must be between 1 and 100")
    require_status status
    ok (page_of tables limit status)

-- One of `actors`: the did and the set of its proofs.
pub record Actor : Type 0 where
  pub did : String
  pub proof_ids : List String

-- The body of the first loop of `list_actors`.
unfoldable pub put_actor : String → String → List Actor → List Actor
put_actor did proof_id [] = record { did = did; proof_ids = proof_id ∷ [] } ∷ []
put_actor did proof_id (a ∷ actors) =
    let rest = put_actor did proof_id actors in
    if str_eq a.did did
    then record a { proof_ids = add a.proof_ids proof_id } ∷ actors
    else a ∷ rest

unfoldable pub actors_from : List Actor → List ProofEvent → List Actor
actors_from actors [] = actors
actors_from actors (e ∷ events) = actors_from (put_actor e.actor_did e.proof_id actors) events

pub record ActorItem : Type 0 where
  pub did : String
  pub proofs : ℕ
  pub active : ℕ
  pub completed : ℕ
  pub failed : ℕ

-- `where(Proof.proof_id.in_(proof_ids))`
abbrev pub proofs_in : List String → List Proof → List Proof
proofs_in proof_ids [] = []
proofs_in proof_ids (p ∷ proofs) =
    let rest = proofs_in proof_ids proofs in
    if contains proof_ids p.proof_id then p ∷ rest else rest

abbrev pub actor_item : List Proof → Actor → ActorItem
actor_item proofs actor =
    let own = proofs_in actor.proof_ids proofs in
    record {
      did = actor.did;
      proofs = length actor.proof_ids;
      active = length (with_status "active" own);
      completed = length (with_status "completed" own);
      failed = length (with_status "failed" own);
    }

-- `items.sort(key=..., reverse=True)`, which keeps the order of equal items
unfoldable pub insert_item : ActorItem → List ActorItem → List ActorItem
insert_item x [] = x ∷ []
insert_item x (y ∷ ys) =
    let rest = insert_item x ys in if ltb x.proofs y.proofs then y ∷ rest else x ∷ (y ∷ ys)

unfoldable pub sort_items : List ActorItem → List ActorItem
unfolding insert_item
sort_items [] = []
sort_items (x ∷ xs) = insert_item x (sort_items xs)

-- `list_actors`; the rows in the order of the database.
unfoldable pub list_actors : (List ProofEvent → List ProofEvent) → Tables → List ActorItem
unfolding actors_from put_actor sort_items
list_actors newest_first tables =
    sort_items (map (actor_item tables.proofs) (actors_from [] (newest_first tables.events)))
