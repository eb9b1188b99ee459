-- ===== src/Store/Liveness.antt =====
-- app/main.py: when append_event lets an event in.
use Prim.Native.String.{String}
use text.Mathlib.Text.{◌==◌ as str_eq}
use text.Mathlib.TextEquality.{eq_iff}
use flop_proof_api.Base.{
  ◌+◌, ◌≡◌, refl, sym, ap, ◌∙◌, subst, true, false, List, [], ◌∷◌, ◌++◌, none, some, Result, ok,
}
use flop_proof_api.Host.{Host}
use flop_proof_api.Value.{Value, str, obj}
use flop_proof_api.Records.{last_of, hash_event_record}
use flop_proof_api.Authorization.{PriorEvent, check_single_result_created}
use flop_proof_api.Authorization.Rules.{MayAppend, authorize_event_iff}
use flop_proof_api.Formats.{v4, version_of}
use flop_proof_api.Store.{
  Proof, ProofEvent, Tables, first_proof, events_of, chain_of, prior_events, link_of_row,
  create_event, row_after, has_event_id, next_sequence,
}
use flop_proof_api.Store.Append.{
  EventCreate, is_closed, stored_nonce, check_signed, check_append, check_chain, write_event,
  append_event, new_event, touch,
}
use flop_proof_api.Store.Passed.{head-row}
use flop_proof_api.Store.Order.{events-append-same}
use flop_proof_api.Store.Kept.{version_4}
use flop_proof_api.Store.Invariant.{chain-rows}
use flop_proof_api.Store.System.{State, Reach}
use flop_proof_api.Store.Reached.{Sound-of_Reach}

same_text : (s : String) → str_eq s s ≡ true
same_text s = (eq_iff s s).1 refl

module _ (host : Host) (json_loads : String → Result Value) where
  -- The checks against the chain pass an event that may be appended.
  chain_passes :
      (proof_id : String) (rows : List ProofEvent) (event : EventCreate) (prior : List PriorEvent)
      (last : ProofEvent)
      → prior_events json_loads rows ≡ ok prior
      → MayAppend host prior event.actor_did event.event_type (obj event.payload)
      → check_single_result_created prior (str event.event_type) ≡ none
      → stored_nonce event.nonce rows ≡ false
      → last_of rows ≡ some last
      → event.prior_head ≡ some (hash_event_record host (str proof_id) (link_of_row last))
      → check_chain host json_loads proof_id (some v4) rows event ≡ ok tt
  unfolding check_chain
  chain_passes proof_id rows event prior last read may single fresh at head =
      let allowed =
        (authorize_event_iff host prior event.actor_did event.event_type (obj event.payload)).1
          may in
      rw
        (
          check_chain,
          read,
          allowed,
          fresh,
          single,
          at,
          head-row host proof_id last,
          head,
          same_text (hash_event_record host (str proof_id) (link_of_row last)),
        )
        refl

  -- In a state that the API reaches, an event for an open proof is let in when its signed message
  -- is right, its actor may append it, it is no second result, its nonce is new in the proof, it
  -- was signed for the head of the chain, and its new identifier is free. The answer is then the
  -- row, which stands at the end of the chain after all others, with the new head.
  pub current_event_accepted :
      (s : State) (proof_id : String) (p : Proof) (event : EventCreate) (event_id now : String)
      (prior : List PriorEvent) (last : ProofEvent)
      → Reach host json_loads s
      → first_proof s.tables.proofs proof_id ≡ some p
      → is_closed p.status ≡ false
      → check_signed host proof_id "4" event ≡ ok tt
      → prior_events json_loads (chain_of s.tables.events proof_id) ≡ ok prior
      → MayAppend host prior event.actor_did event.event_type (obj event.payload)
      → check_single_result_created prior (str event.event_type) ≡ none
      → stored_nonce event.nonce (chain_of s.tables.events proof_id) ≡ false
      → last_of (chain_of s.tables.events proof_id) ≡ some last
      → event.prior_head ≡ some (hash_event_record host (str proof_id) (link_of_row last))
      → has_event_id s.tables.events event_id ≡ false
      → (row : ProofEvent) × (after : Tables) × (append_event host json_loads s.tables proof_id
            event event_id now
          ≡ ok (row, some (hash_event_record host (str proof_id) (link_of_row row)), after))
        × (events_of after.events proof_id ≡ chain_of s.tables.events proof_id ++ row ∷ [])
        × (row.sequence ≡ last.sequence + 1)
  unfolding append_event check_append write_event create_event row_after
  current_event_accepted s proof_id p event event_id now prior last reach found open' signed read
        may single fresh at head free =
      let tables = (Sound-of_Reach host json_loads s reach).tables in
      let four = tables.version proof_id p found in
      let signed' = subst (λ v. check_signed host proof_id v event ≡ ok tt) (sym four) signed in
      let rows = chain-rows host json_loads s.tables proof_id tables in
      let known : version_of (str p.version) ≡ some v4 =
        ap (λ v. version_of (str v)) four ∙ version_4 in
      let checked =
        chain_passes proof_id (chain_of s.tables.events proof_id) event prior last read may single
          fresh at head in
      let row = create_event host s.tables proof_id (new_event event) event_id now in
      (
        row,
        record {
          proofs = touch s.tables.proofs proof_id event.event_type now;
          events = s.tables.events ++ row ∷ [];
        },
        rw
            (
              append_event,
              check_append,
              found,
              open',
              signed',
              write_event,
              known,
              checked,
              free,
              head-row host proof_id
                  (create_event host s.tables proof_id (new_event event) event_id now),
            )
            refl,
        events-append-same s.tables.events row proof_id (same_text proof_id)
            ∙ ap (λ xs. xs ++ row ∷ []) (sym rows),
        ap next_sequence at,
      )
