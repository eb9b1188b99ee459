-- ===== src/Store/Repeats.antt =====
-- app/main.py: a request that is sent again to create_proof.
use Prim.Native.String.{String}
use text.Mathlib.Text.{◌==◌ as str_eq}
use text.Mathlib.TextEquality.{eq_iff}
use flop_proof_api.Base.{
  ◌≡◌, refl, sym, ap, ◌∙◌, inl, inr, subst, true, not, ◌&&◌, List, [], ◌∷◌, ◌++◌, none, some, arith,
  Result, ok, ok_inj, >>=-eq-ok, Option-cases, Bool-cases, if◌then◌else◌,
}
use flop_proof_api.Host.{Host}
use flop_proof_api.Value.{Value, obj}
use flop_proof_api.Records.{sha256_json}
use flop_proof_api.Authorization.{request_created}
use flop_proof_api.Store.{
  Proof, ProofEvent, Tables, first_proof, first_request, events_of, create_event, row_after,
}
use flop_proof_api.Store.Create.{
  Request, request_payload, request_event, another_actor, another_request, opening_event, new_proof,
  check_request, repeated, raced, create_proof,
}
use flop_proof_api.Store.Rows.{if_true}
use flop_proof_api.Store.Writes.{Insertion, write_proof-cases}
use flop_proof_api.Store.Accepted.{checks_passed}
use flop_proof_api.Store.System.{State, Reach}
use flop_proof_api.Store.Reached.{Sound-of_Reach}

first_request-append :
    (proofs : List Proof) (new : Proof)
    → first_request proofs new.request_id ≡ none
    → first_request (proofs ++ new ∷ []) new.request_id ≡ some new
first_request-append [] new h = if_true _ _ _ ((eq_iff new.request_id new.request_id).1 refl)
first_request-append (p ∷ proofs) new h = elim (Bool-cases (str_eq p.request_id new.request_id)) [
  | inl same ↦ ground arith
  | inr other ↦ ground (arith, first_request-append proofs new)
]

request_event-append :
    (events : List ProofEvent) (row : ProofEvent) (proof_id : String)
    → events_of events proof_id ≡ []
    → str_eq row.proof_id proof_id && str_eq row.event_type request_created ≡ true
    → request_event (events ++ row ∷ []) proof_id ≡ some row
request_event-append [] row proof_id h k = if_true _ _ _ k
request_event-append (e ∷ events) row proof_id h k =
    elim (Bool-cases (str_eq e.proof_id proof_id)) [
      | inl same ↦ ground arith
      | inr other ↦ ground (arith, request_event-append events row proof_id)
    ]

module _ (host : Host) where
  abbrev payload_hash : Request → String
  payload_hash request = sha256_json host (obj (request_payload request))

  -- The rows that answer a request that is sent again.
  record Stored (tables : Tables) (request : Request) (proof : Proof) : Type 0 where
    event : ProofEvent
    found : first_request tables.proofs request.request_id ≡ some proof
    opening : request_event tables.events proof.proof_id ≡ some event
    actor : event.actor_did ≡ request.from_did
    digest : event.payload_hash ≡ payload_hash request

  Stored-of_repeated :
      (tables : Tables) (request : Request) (p proof : Proof)
      → first_request tables.proofs request.request_id ≡ some p
      → repeated host tables p request ≡ ok proof
      → Stored tables request proof
  unfolding repeated
  Stored-of_repeated tables request p proof at h =
      elim (Option-cases (request_event tables.events p.proof_id)) [
        | inl nothing ↦ ground arith
        | inr (event, there) ↦
            let k = rw (there, repeated) at h in
            elim (Bool-cases (str_eq event.actor_did request.from_did)) [
              | inr other ↦ ground arith
              | inl same ↦ elim (Bool-cases (str_eq event.payload_hash (payload_hash request))) [
                | inr differs ↦ ground arith
                | inl equal ↦
                    let e : p ≡ proof = ok_inj (rw (same, equal) at k) in
                    record {
                      event = event;
                      found = at ∙ ap some e;
                      opening = ap (λ q. request_event tables.events q.proof_id) (sym e) ∙ there;
                      actor = (eq_iff event.actor_did request.from_did).0 same;
                      digest = (eq_iff event.payload_hash (payload_hash request)).0 equal;
                    }
              ]
            ]
      ]

  Stored-of_Insertion :
      (tables after : Tables) (request : Request) (proof_id event_id now : String)
      → events_of tables.events proof_id ≡ []
      → Insertion host tables request proof_id event_id now after
      → Stored after request (new_proof proof_id request.request_id now)
  unfolding create_event row_after
  Stored-of_Insertion tables after request proof_id event_id now fresh w = record {
    event = create_event host tables proof_id (opening_event request) event_id now;
    found =
        ap (λ ps. first_request ps request.request_id) w.proofs_are
        ∙ first_request-append tables.proofs (new_proof proof_id request.request_id now)
            w.new_request_id;
    opening =
        ap (λ es. request_event es proof_id) w.events_are
        ∙ request_event-append tables.events _ proof_id fresh
            (ground (arith, (eq_iff proof_id proof_id).1 refl));
    actor = refl;
    digest = refl;
  }

  no_race :
      (tables : Tables) (request : Request) (proof : Proof)
      → first_request tables.proofs request.request_id ≡ none
      → raced host tables request ≡ ok proof
      → ⊥
  unfolding raced
  no_race tables request proof nothing h = let k = rw (nothing, raced) at h in cc

  -- The answer to a request with a request_id that has a proof.
  abbrev pub answer : Request → Request → Proof → Tables → Result (Proof × Tables)
  answer before request proof tables =
      if not (str_eq before.from_did request.from_did)
      then another_actor
      else if str_eq (payload_hash before) (payload_hash request)
      then ok (proof, tables)
      else another_request

  answer-of_Stored :
      (tables : Tables) (before request : Request) (proof : Proof) (proof_id event_id now : String)
      → Stored tables before proof
      → check_request host request ≡ ok tt
      → request.request_id ≡ before.request_id
      → create_proof host tables request proof_id event_id now ≡ answer before request proof tables
  unfolding create_proof repeated
  answer-of_Stored tables before request proof proof_id event_id now st checked same =
      let found = ap (first_request tables.proofs) same ∙ st.found in
      rw (create_proof, checked, found, repeated, st.opening, st.actor, st.digest)
        (elim (Bool-cases (str_eq before.from_did request.from_did)) [
          | inr other ↦ rw other refl
          | inl actor ↦ elim (Bool-cases (str_eq (payload_hash before) (payload_hash request))) [
            | inl digest ↦ rw (actor, digest) refl
            | inr differs ↦ rw (actor, differs) refl
          ]
        ])

  Stored-of_created :
      (tables after : Tables) (request : Request) (proof : Proof) (proof_id event_id now : String)
      → (first_proof tables.proofs proof_id ≡ none → events_of tables.events proof_id ≡ [])
      → create_proof host tables request proof_id event_id now ≡ ok (proof, after)
      → Stored after request proof
  unfolding create_proof
  Stored-of_created tables after request proof proof_id event_id now orphans h =
      let (checked, r1) = checks_passed (check_request host request) _ h in
      elim (Option-cases (first_request tables.proofs request.request_id)) [
        | inl nothing ↦
            let k = rw nothing at r1 in
            elim (write_proof-cases host tables request proof_id event_id now proof after k) [
              | inl (w, is_new) ↦ subst (Stored after request) (sym is_new) (
                  Stored-of_Insertion tables after request proof_id event_id now
                    (orphans w.new_proof_id) w)
              | inr (_, answered) ↦ absurd (no_race tables request proof nothing answered)
            ]
        | inr (p, at) ↦
            let k = rw at at r1 in
            let (answered, found, built) = >>=-eq-ok (repeated host tables p request) _ k in
            let e = ok_inj built in
            subst (λ t. Stored t request proof) (ap (λ a. a.1) e)
              (Stored-of_repeated tables request p proof at (found ∙ ap (λ a. ok a.0) e))
      ]

module _ (host : Host) (json_loads : String → Result Value) where
  -- In a state that the API reaches, let create_proof answer a request. Another request with the
  -- same request_id that passes the checks of its own is then answered by the digest of what it
  -- asks: the same one from the same actor gets the same proof, and changes no row; the others get
  -- 409. So a request that is sent again makes no second proof.
  pub created_once :
      (s : State) (before request : Request) (proof : Proof) (after : Tables)
      (id_1 event_1 now_1 id_2 event_2 now_2 : String)
      → Reach host json_loads s
      → create_proof host s.tables before id_1 event_1 now_1 ≡ ok (proof, after)
      → check_request host request ≡ ok tt
      → request.request_id ≡ before.request_id
      → create_proof host after request id_2 event_2 now_2 ≡ answer host before request proof after
  created_once s before request proof after id_1 event_1 now_1 id_2 event_2 now_2 reach h checked
        same =
      let tables = (Sound-of_Reach host json_loads s reach).tables in
      answer-of_Stored host after before request proof id_2 event_2 now_2
        (Stored-of_created host s.tables after before proof id_1 event_1 now_1 (tables.orphans id_1)
          h)
        checked same
