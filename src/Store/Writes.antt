-- ===== src/Store/Writes.antt =====
-- app/main.py: what the two writes do to the tables.
use Prim.Native.String.{String}
use mathlib.Core.Option.{some-injective}
use flop_proof_api.Base.{
  ◌≡◌, refl, sym, ◌∙◌, ◌⊎◌, inl, inr, false, ◌||◌, [], ◌∷◌, ◌++◌, Option, none, some, arith, Result,
  ok, ok_inj, ap, >>=-eq-ok, raise_if-eq-ok, Option-cases, Bool-cases,
}
use flop_proof_api.Host.{Host}
use flop_proof_api.Value.{Value, str}
use flop_proof_api.Formats.{version_of}
use flop_proof_api.Store.{
  Proof, ProofEvent, Tables, first_proof, first_request, chain_of, create_event, has_event_id,
}
use flop_proof_api.Store.Append.{
  EventCreate, require_open, check_chain, refreshed, write_event, touch, new_event, is_closed,
}
use flop_proof_api.Store.Create.{
  Request, opening_event, new_proof, is_taken, insert_proof, raced, write_proof,
}
use flop_proof_api.Store.Accepted.{checks_passed, last_check}

refreshed-eq-ok : (o : Option Proof) (proof : Proof) → refreshed o ≡ ok proof → o ≡ some proof
refreshed-eq-ok none proof h = cc
refreshed-eq-ok (some p) proof h = ap some (ok_inj h)

module _ (host : Host) (json_loads : String → Result Value) (tables : Tables) (proof_id : String)
    (event : EventCreate) (event_id now : String) where
  -- A write of append_event that is not refused: what held before it, and the tables after it.
  pub record Write (row : ProofEvent) (after : Tables) : Type 0 where
    pub proof : Proof
    pub found : first_proof tables.proofs proof_id ≡ some proof
    pub still_open : is_closed proof.status ≡ false
    pub checked :
        check_chain host json_loads proof_id
          (version_of (str proof.version))
          (chain_of tables.events proof_id)
          event
        ≡ ok tt
    pub new_id : has_event_id tables.events event_id ≡ false
    pub row_is : row ≡ create_event host tables proof_id (new_event event) event_id now
    pub proofs_are : after.proofs ≡ touch tables.proofs proof_id event.event_type now
    pub events_are : after.events ≡ tables.events ++ row ∷ []

  pub Write-of_ok :
      (row : ProofEvent) (after : Tables)
      → write_event host json_loads tables proof_id event event_id now ≡ ok (row, after)
      → Write row after
  unfolding write_event
  Write-of_ok row after h =
      let (proof, found, r1) = >>=-eq-ok (refreshed (first_proof tables.proofs proof_id)) _ h in
      let (opened, r2) = checks_passed (require_open proof) _ r1 in
      let (checked, r3) =
        checks_passed
          (check_chain host json_loads proof_id (version_of (str proof.version))
            (chain_of tables.events proof_id) event)
          _ r2 in
      let (fresh, r4) = raise_if-eq-ok (has_event_id tables.events event_id) _ _ r3 in
      let row_is = ap (λ p. p.0) (ok_inj r4) in
      let after_is = ap (λ p. p.1) (ok_inj r4) in
      record {
        proof = proof;
        found = refreshed-eq-ok _ _ found;
        still_open = last_check _ _ opened;
        checked = checked;
        new_id = fresh;
        row_is = sym row_is;
        proofs_are = ap (λ t. t.proofs) (sym after_is);
        events_are = ap (λ t. t.events) (sym after_is) ∙ ap (λ r. tables.events ++ r ∷ []) row_is;
      }

module _ (host : Host) (tables : Tables) (request : Request) (proof_id event_id now : String) where
  -- A write of create_proof that inserts its rows.
  pub record Insertion (after : Tables) : Type 0 where
    pub new_proof_id : first_proof tables.proofs proof_id ≡ none
    pub new_request_id : first_request tables.proofs request.request_id ≡ none
    pub new_event_id : has_event_id tables.events event_id ≡ false
    pub proofs_are : after.proofs ≡ tables.proofs ++ new_proof proof_id request.request_id now ∷ []
    pub events_are :
        after.events
        ≡ tables.events
          ++ create_event host tables proof_id (opening_event request) event_id now ∷ []

  not_taken : (o : Option Proof) → is_taken o ≡ false → o ≡ none
  not_taken none h = refl
  not_taken (some p) h = cc

  Insertion-of_some :
      (after : Tables)
      → insert_proof host tables request proof_id event_id now ≡ some after
      → Insertion after
  unfolding insert_proof
  Insertion-of_some after h =
      elim (Bool-cases (
        is_taken (first_proof tables.proofs proof_id)
        || is_taken (first_request tables.proofs request.request_id)
        || has_event_id tables.events event_id)) [
          | inl taken ↦ ground arith
          | inr free ↦
              let built = some-injective _ _ (rw (free, insert_proof) at h) in
              record {
                new_proof_id = not_taken _ (ground arith);
                new_request_id = not_taken _ (ground arith);
                new_event_id = ground arith;
                proofs_are = ap (λ t. t.proofs) (sym built);
                events_are = ap (λ t. t.events) (sym built);
              }
        ]

  -- A write of create_proof that answers inserts its rows, or leaves the tables as they are.
  pub write_proof-cases :
      (proof : Proof) (after : Tables)
      → write_proof host tables request proof_id event_id now ≡ ok (proof, after)
      → (Insertion after × (proof ≡ new_proof proof_id request.request_id now))
        ⊎ ((after ≡ tables) × (raced host tables request ≡ ok proof))
  unfolding write_proof
  write_proof-cases proof after h =
      elim (Option-cases (insert_proof host tables request proof_id event_id now)) [
        | inl clash ↦
            let k = rw (clash, write_proof) at h in
            let (answer, found, r) = >>=-eq-ok (raced host tables request) _ k in
            inr (ap (λ p. p.1) (sym (ok_inj r)), found ∙ ap (λ p. ok p.0) (ok_inj r))
        | inr (t, put) ↦
            let k = ok_inj (rw (put, write_proof) at h) in
            inl (Insertion-of_some after (put ∙ ap (λ p. some p.1) k), ap (λ p. p.0) (sym k))
      ]
