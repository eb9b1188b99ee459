-- ===== src/Store/Client.antt =====
-- app/main.py: a client that reads the head of a chain and signs an event for it.
use Prim.Native.String.{String}
use flop_proof_api.Base.{
  ◌≡◌, refl, sym, ap, ◌∙◌, inl, inr, subst, false, List, [], ◌∷◌, ◌++◌, none, some, Option-cases,
  Result, ok, ok_inj, >>=-eq-ok,
}
use flop_proof_api.Host.{Host}
use flop_proof_api.Value.{Value, str, obj}
use flop_proof_api.Records.{last_of, hash_event_record, chain_head}
use flop_proof_api.Authorization.{PriorEvent, check_single_result_created}
use flop_proof_api.Authorization.Rules.{MayAppend}
use flop_proof_api.Store.{
  Proof, ProofEvent, Tables, first_proof, events_of, chain_of, prior_events, link_of_row,
  has_event_id, export_events,
}
use flop_proof_api.Store.Append.{
  EventCreate, or_404, is_closed, check_signed, stored_nonce, last_links, append_event,
}
use flop_proof_api.Store.Read.{ProofView, get_proof}
use flop_proof_api.Store.Passed.{head-row}
use flop_proof_api.Store.Invariant.{chain-rows}
use flop_proof_api.Store.System.{State, Reach}
use flop_proof_api.Store.Reached.{Sound-of_Reach}
use flop_proof_api.Store.Liveness.{current_event_accepted}

last_none {ℓ} : {A : Type ℓ} (xs : List A) → last_of xs ≡ none → xs ≡ []
last_none [] h = refl
last_none (x ∷ []) h = cc
last_none (x ∷ (y ∷ xs)) h = let rest = last_none (y ∷ xs) h in cc

module _ (host : Host) (json_loads : String → Result Value) where
  -- The head that get_proof gives is the link hash of the last event.
  read_head :
      (s : State) (proof_id : String) (p : Proof) (view : ProofView)
      → Reach host json_loads s
      → first_proof s.tables.proofs proof_id ≡ some p
      → get_proof host json_loads s.tables proof_id ≡ ok view
      → (last : ProofEvent) × (last_of (chain_of s.tables.events proof_id) ≡ some last)
        × (view.chain_head ≡ some (hash_event_record host (str proof_id) (link_of_row last)))
  unfolding get_proof
  read_head s proof_id p view reach found h =
      let tables = (Sound-of_Reach host json_loads s reach).tables in
      let rows = chain-rows host json_loads s.tables proof_id tables in
      let (proof, _, r1) = >>=-eq-ok (or_404 (first_proof s.tables.proofs proof_id)) _ h in
      let (head, at_head, r2) =
        >>=-eq-ok
          (chain_head host (last_links (last_of (chain_of s.tables.events proof_id)))
            (str proof_id))
          _ r1 in
      let (events, _, r3) =
        >>=-eq-ok (export_events json_loads (chain_of s.tables.events proof_id)) _ r2 in
      let e : record { proof = proof; chain_head = head; events = events } ≡ view = ok_inj r3 in
      elim (Option-cases (last_of (chain_of s.tables.events proof_id))) [
        | inl nothing ↦ absurd (tables.opening proof_id p found (sym rows ∙ last_none _ nothing))
        | inr (last, at) ↦
            let k =
              subst (λ l. chain_head host (last_links l) (str proof_id) ≡ ok head) at at_head in
            (
              last,
              at,
              ap (λ v. v.chain_head) (sym e) ∙ ok_inj (sym k ∙ head-row host proof_id last),
            )
      ]

  -- Liveness: in a state that the API reaches, let get_proof answer for an open proof. An event for
  -- it is let in by append_event when it is signed for the head of this answer, its signed message
  -- is right, its actor may append it, it is no second result, its nonce is new in the proof and its
  -- new identifier is free. The row then stands at the end of the chain, after all others, and the
  -- answer gives the new head.
  pub read_head_accepted :
      (s : State) (proof_id : String) (p : Proof) (view : ProofView) (event : EventCreate)
      (event_id now : String) (prior : List PriorEvent)
      → Reach host json_loads s
      → first_proof s.tables.proofs proof_id ≡ some p
      → is_closed p.status ≡ false
      → get_proof host json_loads s.tables proof_id ≡ ok view
      → event.prior_head ≡ view.chain_head
      → check_signed host proof_id "4" event ≡ ok tt
      → prior_events json_loads (chain_of s.tables.events proof_id) ≡ ok prior
      → MayAppend host prior event.actor_did event.event_type (obj event.payload)
      → check_single_result_created prior (str event.event_type) ≡ none
      → stored_nonce event.nonce (chain_of s.tables.events proof_id) ≡ false
      → has_event_id s.tables.events event_id ≡ false
      → (row : ProofEvent) × (after : Tables) × (append_event host json_loads s.tables proof_id
            event event_id now
          ≡ ok (row, some (hash_event_record host (str proof_id) (link_of_row row)), after))
        × (events_of after.events proof_id ≡ chain_of s.tables.events proof_id ++ row ∷ [])
  read_head_accepted s proof_id p view event event_id now prior reach found open' answered
        signed_for signed read may single fresh free =
      let (last, at, head) = read_head s proof_id p view reach found answered in
      let (row, after, appended, rows, _) =
        current_event_accepted host json_loads s proof_id p event event_id now prior last reach
          found open' signed read may single fresh at (signed_for ∙ head) free in
      (row, after, appended, rows)
