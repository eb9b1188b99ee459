-- ===== src/Store/Tests.antt =====
-- A run of the API that makes a proof and completes it, and the theorems there.
use Prim.Native.String.{String}
use text.Mathlib.Text.{◌==◌ as str_eq}
use flop_proof_api.Base.{
  length, ◌+◌, ◌≡◌, refl, true, false, List, [], ◌∷◌, ◌++◌, none, some, Result, ok, err,
  if◌then◌else◌, get_elem?, all, any, ◌≤◌, ◌&&◌,
}
use flop_proof_api.Value.{Value, str, obj, Fields, end}
use flop_proof_api.Json.{dumps}
use flop_proof_api.Records.{last_of, link_object, hash_event_record}
use flop_proof_api.Records.Links.{Clash}
use flop_proof_api.Authorization.{PriorEvent, creator_of, check_single_result_created}
use flop_proof_api.Authorization.Rules.{MayAppend, as_creator}
use flop_proof_api.Formats.{v4}
use flop_proof_api.Verification.{nothing_seen, check_events}
use flop_proof_api.Verification.Verdict.{check_holds, position_ok, outcome_holds}
use flop_proof_api.Verification.Results.{outcome_of, no_outcome}
use flop_proof_api.Verification.Tests.{
  verification, level_host, sample_proof, zero_hash, sample_signature, request, completion, no_file,
}
use flop_proof_api.Store.{
  Proof, ProofEvent, Tables, first_proof, chain_of, events_of, export_events, insert_event,
  sorted_onto, row_after, create_event, link_of_row, has_event_id, link_fields, exported,
  prior_events,
}
use flop_proof_api.Store.Append.{
  EventCreate, expected_canonical, require_signature_encoding, require_ed25519_did, check_signed,
  check_append, check_chain, stored_nonce, write_event, append_event, is_closed,
}
use flop_proof_api.Store.Create.{
  Request, request_payload, check_request, repeated, insert_proof, raced, write_proof, create_proof,
}
use flop_proof_api.Store.Chain.{ReadsBack, has_closing}
use flop_proof_api.Store.System.{
  State, initial, Step, checked, written, asked, created, Reach, start, later,
}
use flop_proof_api.Store.Promises.{
  stored_proof_exports, chain_numbered, closed_status, chain_extended,
}
use flop_proof_api.Store.Repeats.{answer, created_once}
use flop_proof_api.Store.Races.{same_head_once}
use flop_proof_api.Store.Read.{
  ProofView, get_proof, Verified, verify_proof, ProofPage, stats_of, list_proofs, actors_from,
}
use flop_proof_api.Store.Pages.{
  has_status, with_known_status, verified_valid, list_proofs_page, is_listed, actors_listed,
}
use flop_proof_api.Store.Client.{read_head_accepted}
use flop_proof_api.Store.Closed.{already, closed_proof_refuses}

-- Opening this opens the API for a test.
unfoldable pub api : Unit {0}
unfolding verification chain_of insert_event sorted_onto row_after create_event has_event_id
    link_fields exported export_events prior_events expected_canonical require_signature_encoding
    require_ed25519_did check_signed check_append check_chain write_event append_event
    request_payload check_request repeated insert_proof raced write_proof create_proof get_proof
    list_proofs stats_of
api = tt

abbrev sample_request : Request
sample_request = record {
  request_id = "r1";
  from_did = "did:key:zA";
  text = "hi";
  created_at = "2026-01-01T00:00:00Z";
  nonce = "n1";
  sig = sample_signature;
  canonical = request;
}

abbrev sample_event : EventCreate
sample_event = record {
  event_type = "proof.completed";
  actor_did = "did:key:zA";
  payload = end;
  nonce = "n2";
  sig = sample_signature;
  canonical = completion;
  prior_head = some zero_hash;
}

-- json.loads on the texts that the run stores.
abbrev pub json_loads : String → Result Value
json_loads text =
    if str_eq text (dumps (obj end))
    then ok (obj end)
    else ok (obj (request_payload sample_request))

abbrev tables_in {ℓ} : {A : Type ℓ} → Result (A × Tables) → Tables
tables_in (ok (_, tables)) = tables
tables_in (err _) = record { proofs = []; events = [] }

abbrev made : Tables
made = tables_in (
    write_proof level_host (record { proofs = []; events = [] }) sample_request sample_proof "evt_1"
      "2026-01-01T00:00:01")

abbrev made_proof : Proof
made_proof = record {
  proof_id = sample_proof;
  request_id = "r1";
  version = "4";
  status = "pending";
  created_at = "2026-01-01T00:00:01";
  updated_at = "2026-01-01T00:00:01";
}

abbrev made_state : State
made_state = record { tables = made; appends = []; requests = [] }

made_reached : Reach level_host json_loads made_state
unfolding api
made_reached = later (later start (asked sample_request refl refl refl)) (
    created [] [] sample_request sample_proof "evt_1" "2026-01-01T00:00:01" made_proof made refl
      refl)

abbrev row_in : Result (ProofEvent × Tables) → List ProofEvent
row_in (ok (row, _)) = row ∷ []
row_in (err _) = []

abbrev closing_write : Result (ProofEvent × Tables)
closing_write =
    write_event level_host json_loads made sample_proof sample_event "evt_2" "2026-01-01T00:00:02"

abbrev waiting_state : State
waiting_state = record made_state { appends = (sample_proof, sample_event) ∷ [] }

abbrev pub closed_state : State
closed_state = record made_state { tables = tables_in closing_write }

closing-Step :
    Reach level_host json_loads waiting_state
    × Step level_host json_loads waiting_state closed_state
unfolding api
closing-Step = (
  later made_reached (checked sample_proof sample_event refl refl),
  written [] [] sample_proof sample_event "evt_2" "2026-01-01T00:00:02" _ _ refl refl,
)

pub closed_reached : Reach level_host json_loads closed_state
closed_reached = later closing-Step.0 closing-Step.1

abbrev pub closed_proof : Proof
closed_proof = record made_proof { status = "completed"; updated_at = "2026-01-01T00:00:02" }

abbrev events_in : Result (List Fields) → List Fields
events_in (ok events) = events
events_in (err _) = []

abbrev closed_events : List Fields
closed_events =
    events_in (export_events json_loads (chain_of closed_state.tables.events sample_proof))

closed_run :
    (first_proof closed_state.tables.proofs sample_proof ≡ some closed_proof)
    × (export_events json_loads (chain_of closed_state.tables.events sample_proof)
        ≡ ok closed_events)
    × (outcome_of level_host no_file no_outcome closed_events ≡ ok no_outcome)
unfolding api
closed_run = (refl, refl, refl)

stored_proof_exports_example :
    (events : List Fields) × (export_events json_loads
        (chain_of closed_state.tables.events sample_proof)
      ≡ ok events)
    × (all check_holds (check_events level_host (str sample_proof) v4 nothing_seen events) ≡ true)
    × (position_ok events ≡ true)
stored_proof_exports_example =
    stored_proof_exports level_host json_loads closed_state sample_proof closed_proof closed_reached
      closed_run.0

verified_valid_example :
    (v : Verified) × (verify_proof level_host json_loads no_file closed_state.tables sample_proof
      ≡ ok v)
    × (v.report.valid ≡ outcome_holds no_outcome)
verified_valid_example =
    verified_valid level_host json_loads no_file closed_state sample_proof closed_proof
      closed_events no_outcome closed_reached closed_run.0 closed_run.1 closed_run.2

second_row :
    (row : ProofEvent) × (get_elem? (chain_of closed_state.tables.events sample_proof) 1 ≡ some row)
unfolding api
second_row = (_, refl)

chain_numbered_example : second_row.0.sequence ≡ 1 + 1
chain_numbered_example =
    chain_numbered level_host json_loads closed_state sample_proof 1 second_row.0 closed_reached
      second_row.1

closed_status_example :
    is_closed closed_proof.status ≡ has_closing (chain_of closed_state.tables.events sample_proof)
closed_status_example =
    closed_status level_host json_loads closed_state sample_proof closed_proof closed_reached
      closed_run.0

chain_extended_example :
    (more : List ProofEvent) × (chain_of closed_state.tables.events sample_proof
      ≡ chain_of made.events sample_proof ++ more)
chain_extended_example =
    chain_extended level_host json_loads waiting_state closed_state sample_proof closing-Step.0
      closing-Step.1

request_run :
    (create_proof level_host
        (initial.tables)
        sample_request
        sample_proof
        "evt_1"
        "2026-01-01T00:00:01"
      ≡ ok (made_proof, made))
    × (check_request level_host sample_request ≡ ok tt)
unfolding api
request_run = (refl, refl)

created_once_example :
    create_proof level_host made sample_request "proof_2" "evt_2" "2026-01-01T00:00:02"
    ≡ answer level_host sample_request sample_request made_proof made
created_once_example =
    created_once level_host json_loads initial sample_request sample_request made_proof made
      sample_proof "evt_1" "2026-01-01T00:00:01" "proof_2" "evt_2" "2026-01-01T00:00:02" start
      request_run.0 request_run.1 refl

-- Two events that were signed for one head.
abbrev note : String → String → EventCreate
note nonce canonical = record sample_event {
  event_type = "note.added";
  nonce = nonce;
  canonical = canonical;
}

abbrev note_1 : EventCreate
note_1 =
    note "n2"
      "FLOP/EVENT/v4|proof_0123456789abcdef0123456789abcdef|note.added|0000000000000000000000000000000000000000000000000000000000000000|n2|0000000000000000000000000000000000000000000000000000000000000000"

abbrev note_2 : EventCreate
note_2 =
    note "n3"
      "FLOP/EVENT/v4|proof_0123456789abcdef0123456789abcdef|note.added|0000000000000000000000000000000000000000000000000000000000000000|n3|0000000000000000000000000000000000000000000000000000000000000000"

-- With one digest for all texts, both are let in.
both_writes :
    (check_signed level_host sample_proof "4" note_1 ≡ ok tt)
    × (check_signed level_host sample_proof "4" note_2 ≡ ok tt)
    × (row_1 : ProofEvent) × (after_1 : Tables) × (write_event level_host json_loads made
          sample_proof note_1 "evt_2" "t"
        ≡ ok (row_1, after_1))
    × (row_2 : ProofEvent) × (after_2 : Tables) × (write_event level_host json_loads after_1
          sample_proof note_2 "evt_3" "t"
        ≡ ok (row_2, after_2))
unfolding api
both_writes = (refl, refl, _, _, refl, _, _, refl)

note_reads : ReadsBack json_loads note_1.payload
unfolding api
note_reads = refl

same_head_once_example :
    (last : ProofEvent) × (last_of (chain_of made.events sample_proof) ≡ some last)
    × Clash level_host
        (dumps (link_object (str sample_proof) (link_of_row last)))
        (dumps (link_object (str sample_proof) (link_of_row both_writes.2)))
same_head_once_example =
    same_head_once level_host json_loads made_state sample_proof note_1 note_2 "evt_2" "t" "evt_3"
      "t" both_writes.2 both_writes.5 both_writes.3 both_writes.6 made_reached note_reads
      both_writes.0 both_writes.1 refl both_writes.4 both_writes.7

-- What the event of the creator needs in order to be let in.
abbrev first_row : List ProofEvent
first_row = chain_of made.events sample_proof

note_admitted :
    (prior : List PriorEvent) × (prior_events json_loads first_row ≡ ok prior)
    × (creator_of prior ≡ some "did:key:zA")
    × (check_single_result_created prior (str "note.added") ≡ none)
    × (stored_nonce "n2" first_row ≡ false)
    × (first_proof made.proofs sample_proof ≡ some made_proof)
    × (has_event_id made.events "evt_2" ≡ false)
unfolding api
note_admitted = (_, refl, refl, refl, refl, refl, refl)

note_allowed : MayAppend level_host note_admitted.0 "did:key:zA" "note.added" (obj end)
note_allowed = as_creator "did:key:zA" note_admitted.2 refl (λ e. cc) (λ e. cc)

made_view :
    (view : ProofView) × (get_proof level_host json_loads made sample_proof ≡ ok view)
    × (some zero_hash ≡ view.chain_head)
unfolding api
made_view = (_, refl, refl)

read_head_accepted_example :
    (row : ProofEvent) × (after : Tables) × (append_event level_host json_loads made sample_proof
        note_1 "evt_2" "t"
      ≡ ok (row, some (hash_event_record level_host (str sample_proof) (link_of_row row)), after))
    × (events_of after.events sample_proof ≡ first_row ++ row ∷ [])
read_head_accepted_example =
    read_head_accepted level_host json_loads made_state sample_proof made_proof made_view.0 note_1
      "evt_2" "t" note_admitted.0 made_reached note_admitted.5 refl made_view.1 made_view.2
      both_writes.0 note_admitted.1 note_allowed note_admitted.3 note_admitted.4 note_admitted.6

page_run :
    (page : ProofPage) × (list_proofs (λ proofs. proofs) closed_state.tables 20 none ≡ ok page)
unfolding api
page_run = (_, refl)

list_proofs_page_example :
    (page_run.0.count ≤ 20)
    × (page_run.0.count ≤ 100)
    × (all (λ i. has_status none i.proof) page_run.0.items ≡ true)
    × (page_run.0.total ≡ length closed_state.tables.proofs)
    × (page_run.0.stats.pending + page_run.0.stats.active + page_run.0.stats.completed
          + page_run.0.stats.failed
        ≡ length (with_known_status closed_state.tables.proofs))
list_proofs_page_example =
    list_proofs_page (λ proofs. proofs) (λ q proofs h. h) closed_state.tables 20 none page_run.0
      page_run.1

actors_listed_example :
    is_listed "did:key:zA" sample_proof (actors_from [] closed_state.tables.events)
    ≡ any
        (λ e. str_eq e.actor_did "did:key:zA" && str_eq e.proof_id sample_proof)
        closed_state.tables.events
actors_listed_example = actors_listed "did:key:zA" sample_proof closed_state.tables.events

closed_chain : has_closing (chain_of closed_state.tables.events sample_proof) ≡ true
unfolding api
closed_chain = refl

closed_proof_refuses_example :
    (append_event level_host json_loads closed_state.tables sample_proof note_1 "evt_3" "t"
      ≡ err (already closed_proof))
    × (write_event level_host json_loads closed_state.tables sample_proof note_1 "evt_3" "t"
        ≡ err (already closed_proof))
closed_proof_refuses_example =
    closed_proof_refuses level_host json_loads closed_state sample_proof closed_proof note_1 "evt_3"
      "t" closed_reached closed_run.0 closed_chain
