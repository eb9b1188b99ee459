-- ===== src/Store/Inserted.antt =====
-- app/main.py: the insertion of a new proof keeps the tables consistent.
use Prim.Native.String.{String}
use mathlib.Core.Option.{some-injective}
use text.Mathlib.Text.{◌==◌ as str_eq}
use text.Mathlib.TextEquality.{eq_iff}
use flop_proof_api.Base.{
  ◌≡◌, refl, sym, ap, ◌∙◌, ◌≢◌, inl, inr, subst, false, [], ◌∷◌, ◌++◌, none, some, Result, ok,
  Bool-cases, Option-cases,
}
use flop_proof_api.Host.{Host}
use flop_proof_api.Value.{Value, is_text}
use flop_proof_api.Records.{last_of}
use flop_proof_api.Store.{
  Proof, ProofEvent, Tables, first_proof, events_of, create_event, row_after,
}
use flop_proof_api.Store.Append.{is_closed}
use flop_proof_api.Store.Create.{Request, request_payload, check_request, opening_event, new_proof}
use flop_proof_api.Store.Order.{events-append-other, events-append-same}
use flop_proof_api.Store.Rows.{
  first_proof-append, first_proof-append_found, first_proof-append_none,
}
use flop_proof_api.Store.Chain.{ReadsBack, has_closing, Chain, opened}
use flop_proof_api.Store.Writes.{Insertion}
use flop_proof_api.Store.Invariant.{Consistent, chain-rows}
use flop_proof_api.Store.Kept.{append-nonempty}

module _ (host : Host) (json_loads : String → Result Value) (tables : Tables)
    (c : Consistent host json_loads tables) (request : Request) (proof_id event_id now : String)
    (after : Tables) (w : Insertion host tables request proof_id event_id now after) where
  abbrev new : Proof
  new = new_proof proof_id request.request_id now

  abbrev row : ProofEvent
  row = row_after host none proof_id (opening_event request) event_id now

  rows_none : events_of tables.events proof_id ≡ []
  rows_none = c.orphans proof_id w.new_proof_id

  row_first : create_event host tables proof_id (opening_event request) event_id now ≡ row
  unfolding create_event
  row_first =
      ap (λ xs. row_after host (last_of xs) proof_id (opening_event request) event_id now)
        (chain-rows host json_loads tables proof_id c ∙ rows_none)

  events_after : after.events ≡ tables.events ++ row ∷ []
  events_after = w.events_are ∙ ap (λ r. tables.events ++ r ∷ []) row_first

  rows_same : events_of after.events proof_id ≡ row ∷ []
  unfolding row_after
  rows_same =
      ap (λ es. events_of es proof_id) events_after
      ∙ events-append-same tables.events row proof_id ((eq_iff proof_id proof_id).1 refl)
      ∙ ap (λ xs. xs ++ row ∷ []) rows_none

  rows_other :
      (q : String)
      → str_eq proof_id q ≡ false
      → events_of after.events q ≡ events_of tables.events q
  unfolding row_after
  rows_other q apart =
      ap (λ es. events_of es q) events_after ∙ events-append-other tables.events row q apart

  kept_chain :
      ReadsBack json_loads (request_payload request)
      → check_request host request ≡ ok tt
      → (q : String) → Chain host json_loads q (events_of after.events q)
  kept_chain reads checked q = elim (Bool-cases (str_eq proof_id q)) [
    | inl same ↦
        subst (λ x. Chain host json_loads x (events_of after.events x)) ((eq_iff proof_id q).0 same)
          (subst (Chain host json_loads proof_id) (sym rows_same)
            (opened request event_id now reads checked))
    | inr apart ↦ subst (Chain host json_loads q) (sym (rows_other q apart)) (c.chain q)
  ]

  -- A proof that is there before the write is not the new one.
  apart-of_found :
      (q : String) (old : Proof)
      → first_proof tables.proofs q ≡ some old
      → str_eq proof_id q ≡ false
  apart-of_found q old found = elim (Bool-cases (str_eq proof_id q)) [
    | inl same ↦
        let there =
          subst (λ x. first_proof tables.proofs x ≡ none) ((eq_iff proof_id q).0 same)
            w.new_proof_id in
        cc
    | inr apart ↦ apart
  ]

  kept_closed :
      (q : String) (p : Proof)
      → first_proof after.proofs q ≡ some p
      → (p.version ≡ "4")
        × (is_closed p.status ≡ has_closing (events_of after.events q))
        × (events_of after.events q ≢ [])
  unfolding row_after is_text
  kept_closed q p h =
      let there = ap (λ ps. first_proof ps q) (sym w.proofs_are) ∙ h in
      elim (Option-cases (first_proof tables.proofs q)) [
        | inl nothing ↦
            let (is_new, e) = first_proof-append tables.proofs new q p there nothing in
            let rows = subst (λ x. events_of after.events x ≡ row ∷ []) e rows_same in
            (
              ap (λ r. r.version) is_new,
              ap (λ r. is_closed r.status) is_new ∙ ap has_closing (sym rows),
              λ none_left. append-nonempty [] row (sym rows ∙ none_left),
            )
        | inr (old, found) ↦
            let apart = apart-of_found q old found in
            let same =
              some-injective _ _
                (sym there ∙ first_proof-append_found tables.proofs new q old found) in
            (
              ap (λ r. r.version) same ∙ c.version q old found,
              ap (λ r. is_closed r.status) same
                  ∙ c.closed q old found
                  ∙ ap has_closing (sym (rows_other q apart)),
              λ none_left. c.opening q old found (sym (rows_other q apart) ∙ none_left),
            )
      ]

  kept_orphans : (q : String) → first_proof after.proofs q ≡ none → events_of after.events q ≡ []
  kept_orphans q h =
      let (nothing, apart) =
        first_proof-append_none tables.proofs new q
          (ap (λ ps. first_proof ps q) (sym w.proofs_are) ∙ h) in
      rows_other q apart ∙ c.orphans q nothing

  -- A write of create_proof that inserts its rows keeps the tables consistent.
  pub insert-Consistent :
      ReadsBack json_loads (request_payload request)
      → check_request host request ≡ ok tt
      → Consistent host json_loads after
  insert-Consistent reads checked = record {
    chain = kept_chain reads checked;
    version = λ q p h. (kept_closed q p h).0;
    closed = λ q p h. (kept_closed q p h).1;
    orphans = kept_orphans;
    opening = λ q p h. (kept_closed q p h).2;
  }
