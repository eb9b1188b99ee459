-- ===== src/Store/Kept.antt =====
-- app/main.py: the writes keep the tables consistent.
use Prim.Native.String.{String}
use text.Mathlib.Text.{◌==◌ as str_eq}
use text.Mathlib.TextEquality.{eq_iff}
use flop_proof_api.Base.{
  ◌≡◌, refl, sym, ap, ◌∙◌, ◌≢◌, inl, inr, subst, false, ◌||◌, List, [], ◌∷◌, ◌++◌, none, some,
  arith, Result, ok, Bool-cases, if◌then◌else◌,
}
use flop_proof_api.Host.{Host}
use flop_proof_api.Value.{Value, str, is_text}
use flop_proof_api.Records.{last_of}
use flop_proof_api.Formats.{v4, version_of, is_closing}
use flop_proof_api.Store.{
  Proof, ProofEvent, Tables, first_proof, events_of, create_event, row_after,
}
use flop_proof_api.Store.Append.{
  EventCreate, check_signed, check_chain, is_closed, next_status, new_event,
}
use flop_proof_api.Store.Order.{events-append-other, events-append-same}
use flop_proof_api.Store.Rows.{
  if_true, if_false, first_proof-id, touch-none, touch-some, closed_next, has_closing-append,
}
use flop_proof_api.Store.Chain.{ReadsBack, has_closing, Chain, appended}
use flop_proof_api.Store.Writes.{Write}
use flop_proof_api.Store.Invariant.{Consistent, chain-rows}

pub version_4 : version_of (str "4") ≡ some v4
unfolding version_of is_text
version_4 = refl

pub append-nonempty {ℓ} : {A : Type ℓ} (xs : List A) (x : A) → xs ++ x ∷ [] ≢ []
append-nonempty [] x h = cc
append-nonempty (y ∷ xs) x h = cc

module _ (host : Host) (json_loads : String → Result Value) (tables : Tables)
    (c : Consistent host json_loads tables) (proof_id : String) (event : EventCreate)
    (event_id now : String) (row : ProofEvent) (after : Tables)
    (w : Write host json_loads tables proof_id event event_id now row after) where
  abbrev pub rows : List ProofEvent
  rows = events_of tables.events proof_id

  pub row_next : row ≡ row_after host (last_of rows) proof_id (new_event event) event_id now
  unfolding create_event
  row_next =
      w.row_is
      ∙ ap (λ xs. row_after host (last_of xs) proof_id (new_event event) event_id now)
          (chain-rows host json_loads tables proof_id c)

  pub row_of : row.proof_id ≡ proof_id
  unfolding row_after
  row_of = ap (λ r. r.proof_id) row_next

  row_type : row.event_type ≡ event.event_type
  unfolding row_after
  row_type = ap (λ r. r.event_type) row_next

  pub checked_v4 : check_chain host json_loads proof_id (some v4) rows event ≡ ok tt
  checked_v4 =
      subst (λ v. check_chain host json_loads proof_id v rows event ≡ ok tt)
        (ap (λ v. version_of (str v)) (c.version proof_id w.proof w.found) ∙ version_4)
        (subst
          (λ xs.
            check_chain host json_loads proof_id (version_of (str w.proof.version)) xs event
            ≡ ok tt)
          (chain-rows host json_loads tables proof_id c) w.checked)

  -- The rows of the proof, and those of another one.
  pub rows_same : events_of after.events proof_id ≡ rows ++ row ∷ []
  rows_same =
      ap (λ es. events_of es proof_id) w.events_are
      ∙ events-append-same tables.events row proof_id ((eq_iff row.proof_id proof_id).1 row_of)

  rows_at :
      (q : String) → proof_id ≡ q → events_of after.events q ≡ events_of tables.events q ++ row ∷ []
  rows_at q e =
      subst (λ x. events_of after.events x ≡ events_of tables.events x ++ row ∷ []) e rows_same

  rows_other :
      (q : String)
      → str_eq proof_id q ≡ false
      → events_of after.events q ≡ events_of tables.events q
  rows_other q apart =
      ap (λ es. events_of es q) w.events_are
      ∙ events-append-other tables.events row q (ap (λ p. str_eq p q) row_of ∙ apart)

  none_open : has_closing rows ≡ false
  none_open = sym (c.closed proof_id w.proof w.found) ∙ w.still_open

  kept_chain :
      ReadsBack json_loads event.payload
      → check_signed host proof_id "4" event ≡ ok tt
      → (q : String) → Chain host json_loads q (events_of after.events q)
  kept_chain reads signed q = elim (Bool-cases (str_eq proof_id q)) [
    | inl same ↦
        subst (λ x. Chain host json_loads x (events_of after.events x)) ((eq_iff proof_id q).0 same)
          (subst (Chain host json_loads proof_id)
            (ap (λ r. rows ++ r ∷ []) (sym row_next) ∙ sym rows_same)
            (appended rows event event_id now (c.chain proof_id) reads none_open signed checked_v4))
    | inr apart ↦ subst (Chain host json_loads q) (sym (rows_other q apart)) (c.chain q)
  ]

  -- The status after the write, of the proof itself and of another one.
  closed_same :
      (q : String) (old p : Proof)
      → proof_id ≡ q
      → first_proof tables.proofs q ≡ some old
      → p.status ≡ (
          if str_eq old.proof_id proof_id
          then next_status event.event_type old.status
          else old.status)
      → is_closed p.status ≡ has_closing (events_of after.events q)
  closed_same q old p e found status =
      let own =
        (eq_iff old.proof_id proof_id).1 (first_proof-id tables.proofs q old found ∙ sym e) in
      ap is_closed (status ∙ if_true _ _ _ own)
      ∙ closed_next event.event_type old.status
      ∙ ap (λ t. is_closing (str t) || is_closed old.status) (sym row_type)
      ∙ ap (λ b. is_closing (str row.event_type) || b) (c.closed q old found)
      ∙ sym (has_closing-append (events_of tables.events q) row)
      ∙ ap has_closing (sym (rows_at q e))

  closed_other :
      (q : String) (old p : Proof)
      → str_eq proof_id q ≡ false
      → first_proof tables.proofs q ≡ some old
      → p.status ≡ (
          if str_eq old.proof_id proof_id
          then next_status event.event_type old.status
          else old.status)
      → is_closed p.status ≡ has_closing (events_of after.events q)
  closed_other q old p apart found status =
      let elsewhere : str_eq old.proof_id proof_id ≡ false = ground (
        arith,
        eq_iff old.proof_id proof_id,
        eq_iff proof_id q,
        first_proof-id tables.proofs q old found,
      ) in
      ap is_closed (status ∙ if_false _ _ _ elsewhere)
      ∙ c.closed q old found
      ∙ ap has_closing (sym (rows_other q apart))

  kept_closed :
      (q : String) (p : Proof)
      → first_proof after.proofs q ≡ some p
      → (p.version ≡ "4")
        × (is_closed p.status ≡ has_closing (events_of after.events q))
        × (events_of after.events q ≢ [])
  kept_closed q p h =
      let (old, found, version, status) =
        touch-some tables.proofs proof_id event.event_type now q p
          (ap (λ ps. first_proof ps q) (sym w.proofs_are) ∙ h) in
      let four = version ∙ c.version q old found in
      elim (Bool-cases (str_eq proof_id q)) [
        | inl same ↦
            let e = (eq_iff proof_id q).0 same in
            (
              four,
              closed_same q old p e found status,
              λ none_left. append-nonempty _ row (sym (rows_at q e) ∙ none_left),
            )
        | inr apart ↦ (
          four,
          closed_other q old p apart found status,
          λ none_left. c.opening q old found (sym (rows_other q apart) ∙ none_left),
        )
      ]

  kept_orphans : (q : String) → first_proof after.proofs q ≡ none → events_of after.events q ≡ []
  kept_orphans q h =
      let before =
        touch-none tables.proofs proof_id event.event_type now q
          (ap (λ ps. first_proof ps q) (sym w.proofs_are) ∙ h) in
      elim (Bool-cases (str_eq proof_id q)) [
        | inl same ↦
            let e = (eq_iff proof_id q).0 same in
            let there = subst (λ x. first_proof tables.proofs x ≡ some w.proof) e w.found in cc
        | inr apart ↦ rows_other q apart ∙ c.orphans q before
      ]

  -- A write of append_event keeps the tables consistent.
  pub write-Consistent :
      ReadsBack json_loads event.payload
      → check_signed host proof_id "4" event ≡ ok tt
      → Consistent host json_loads after
  write-Consistent reads signed = record {
    chain = kept_chain reads signed;
    version = λ q p h. (kept_closed q p h).0;
    closed = λ q p h. (kept_closed q p h).1;
    orphans = kept_orphans;
    opening = λ q p h. (kept_closed q p h).2;
  }
