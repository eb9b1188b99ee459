-- ===== src/Store/Verified.antt =====
-- app/main.py, app/verification_core.py: a chain of rows, exported, is what the verifier accepts.
use Prim.Native.String.{String}
use flop_proof_api.Base.{
  ℕ, suc, ◌+◌, ◌-◌, ◌≡◌, refl, sym, ap, ◌∙◌, inl, inr, Bool, true, false, ◌||◌, List, [], ◌∷◌, ◌++◌,
  none, arith, Result, ok, subst, ◌≢◌, ok_inj, >>=-eq-ok, length-append, any, all, length,
  Bool-cases, ==_iff, if◌then◌else◌,
}
use flop_proof_api.Base.Bytes.{Bytes}
use flop_proof_api.Host.{Host}
use flop_proof_api.Value.{Value, str, obj, Fields, get, find, is_text}
use flop_proof_api.Records.{last_of}
use flop_proof_api.Formats.{v4, version_of, is_closing}
use flop_proof_api.Verification.{Seen, nothing_seen, check_events}
use flop_proof_api.Verification.Verdict.{
  has_hashable_types, check_holds, closing_positions, position_ok, outcome_holds, Report,
  report_with, report_of, verify_proof_events,
}
use flop_proof_api.Verification.Results.{Outcome, no_outcome, outcome_of}
use flop_proof_api.Store.{ProofEvent, exported, export_events, row_after}
use flop_proof_api.Store.Append.{new_event}
use flop_proof_api.Store.Create.{request_payload, opening_event}
use flop_proof_api.Store.Chain.{has_closing, Chain, empty, opened, appended}
use flop_proof_api.Store.Matching.{export-append}
use flop_proof_api.Store.Matches.{Matches, nothing-Matches, extend}
use flop_proof_api.Store.Passed.{appended_holds}
use flop_proof_api.Store.Opened.{opened_holds}

module _ (host : Host) (json_loads : String → Result Value) (proof_id : String) where
  pub Matches-of_chain :
      (rows : List ProofEvent)
      → Chain host json_loads proof_id rows
      → (events : List Fields) × (seen : Seen) × Matches host json_loads proof_id rows events seen
  unfolding row_after
  Matches-of_chain _ empty = ([], nothing_seen, nothing-Matches host json_loads proof_id)
  Matches-of_chain _ (opened request event_id now reads checked) =
      let row = row_after host none proof_id (opening_event request) event_id now in
      let payload = obj (request_payload request) in
      (
        _,
        _,
        extend host json_loads proof_id [] [] nothing_seen row payload
            (nothing-Matches host json_loads proof_id) reads refl refl
            (opened_holds host proof_id request event_id now checked),
      )
  Matches-of_chain _ (appended rows event event_id now chain reads open' signed checked) =
      let (events, seen, m) = Matches-of_chain rows chain in
      let row = row_after host (last_of rows) proof_id (new_event event) event_id now in
      (
        _,
        _,
        extend host json_loads proof_id rows events seen row (obj event.payload) m reads refl refl (
            appended_holds host json_loads proof_id rows events seen event event_id now m signed
              checked),
      )

abbrev any_closing : List Fields → Bool
any_closing = any (λ e. is_closing (get "type" e))

closing_positions-append :
    (n : ℕ) (events : List Fields) (event : Fields)
    → any_closing events ≡ false
    → closing_positions n (events ++ event ∷ [])
      ≡ (if is_closing (get "type" event) then (n + length events) ∷ [] else [])
unfolding closing_positions
closing_positions-append n [] event h =
    let same : n ≡ n + 0 = omega arith in
    ap (λ m. if is_closing (get "type" event) then m ∷ [] else []) same
closing_positions-append n (e ∷ events) event h =
    let this : is_closing (get "type" e) ≡ false = ground arith in
    let rest : any_closing events ≡ false = ground arith in
    let same : n + 1 + length events ≡ n + suc (length events) = omega arith in
    rw (closing_positions, this)
      (closing_positions-append (n + 1) events event rest
        ∙ ap (λ m. if is_closing (get "type" event) then m ∷ [] else []) same)

-- A closing event after events of which none closes is the last one, and the only one.
position-append :
    (events : List Fields) (event : Fields)
    → any_closing events ≡ false
    → position_ok (events ++ event ∷ []) ≡ true
unfolding position_ok
position-append events event h =
    rw (position_ok, closing_positions-append 0 events event h)
      (elim (Bool-cases (is_closing (get "type" event))) [
        | inl closing ↦ ground (
          arith,
          length-append events (event ∷ []),
          ==_iff (0 + length events) (length (events ++ event ∷ []) - 1),
        )
        | inr other ↦ ground arith
      ])

module _ (json_loads : String → Result Value) where
  closing-exported :
      (rows : List ProofEvent) {events : List Fields}
      → export_events json_loads rows ≡ ok events
      → any_closing events ≡ has_closing rows
  unfolding export_events exported get find
  closing-exported [] h = ap any_closing (sym (ok_inj h))
  closing-exported (row ∷ rows) h =
      let (value, read, after) = >>=-eq-ok (json_loads row.payload_json) _ h in
      let (rest, others, built) = >>=-eq-ok (export_events json_loads rows) _ after in
      ap any_closing (sym (ok_inj built))
      ∙ ap (λ b. is_closing (str row.event_type) || b) (closing-exported rows others)

no_rows :
    (json_loads : String → Result Value) (rows : List ProofEvent)
    → export_events json_loads rows ≡ ok []
    → rows ≡ []
unfolding export_events
no_rows json_loads [] h = refl
no_rows json_loads (row ∷ rows) h =
    let (value, read, after) = >>=-eq-ok (json_loads row.payload_json) _ h in
    let (rest, others, built) = >>=-eq-ok (export_events json_loads rows) _ after in cc

module _ (host : Host) (json_loads : String → Result Value) (proof_id : String) where
  pub chain_position :
      (rows : List ProofEvent) (events : List Fields)
      → Chain host json_loads proof_id rows
      → export_events json_loads rows ≡ ok events
      → position_ok events ≡ true
  unfolding export_events position_ok closing_positions row_after
  chain_position _ events empty h = subst (λ es. position_ok es ≡ true) (ok_inj h) refl
  chain_position _ events (opened request event_id now reads checked) h =
      let row = row_after host none proof_id (opening_event request) event_id now in
      let same =
        ok_inj
          (sym (export-append json_loads [] row (obj (request_payload request)) refl reads) ∙ h) in
      subst (λ es. position_ok es ≡ true) same (position-append [] _ refl)
  chain_position _ events (appended rows event event_id now chain reads open' signed checked) h =
      let (before, _, m) = Matches-of_chain host json_loads proof_id rows chain in
      let row = row_after host (last_of rows) proof_id (new_event event) event_id now in
      let same =
        ok_inj (sym (export-append json_loads rows row (obj event.payload) m.read reads) ∙ h) in
      subst (λ es. position_ok es ≡ true) same
        (position-append before _ (closing-exported json_loads rows m.read ∙ open'))

-- The types of exported events are texts.
has_hashable_types-exported :
    (json_loads : String → Result Value) (rows : List ProofEvent) (events : List Fields)
    → export_events json_loads rows ≡ ok events
    → has_hashable_types events ≡ true
unfolding export_events has_hashable_types exported get find
has_hashable_types-exported json_loads [] events h = ap has_hashable_types (sym (ok_inj h))
has_hashable_types-exported json_loads (x ∷ rows) events h =
    let (payload, _, r1) = >>=-eq-ok (json_loads x.payload_json) _ h in
    let (rest, read, r2) = >>=-eq-ok (export_events json_loads rows) _ r1 in
    ap has_hashable_types (sym (ok_inj r2)) ∙ has_hashable_types-exported json_loads rows rest read

module _ (host : Host) (json_loads : String → Result Value) (read_file : Value → Result Bytes)
    (proof_id : String) where
  accepted_report :
      (events : List Fields) (outcome : Outcome)
      → events ≢ []
      → all check_holds (check_events host (str proof_id) v4 nothing_seen events) ≡ true
      → position_ok events ≡ true
      → has_hashable_types events ≡ true
      → outcome_of host read_file no_outcome events ≡ ok outcome
      → (r : Report) × (verify_proof_events host read_file (str proof_id) events (str "4") ≡ ok r)
        × (r.valid ≡ outcome_holds outcome)
  unfolding verify_proof_events report_of version_of is_text
  accepted_report [] outcome some_events checks position types found = absurd (some_events refl)
  accepted_report (e ∷ es) outcome some_events checks position types found = (
    report_with host read_file (str proof_id) v4 (e ∷ es) outcome,
    rw (verify_proof_events, report_of, types, found) refl,
    rw (checks, position) refl,
  )

  -- What verify_proof_events reports of the export of a chain that is not empty.
  pub report-Chain :
      (rows : List ProofEvent)
      → Chain host json_loads proof_id rows
      → rows ≢ []
      → (events : List Fields) × (export_events json_loads rows ≡ ok events)
        × ((outcome : Outcome)
            → outcome_of host read_file no_outcome events ≡ ok outcome
            → (r : Report) × (verify_proof_events host read_file (str proof_id) events (str "4")
                ≡ ok r)
              × (r.valid ≡ outcome_holds outcome))
  report-Chain rows chain some_rows =
      let (events, seen, m) = Matches-of_chain host json_loads proof_id rows chain in
      (
        events,
        m.read,
        λ outcome found.
            accepted_report events outcome
              (λ nothing. some_rows (no_rows json_loads rows (m.read ∙ ap ok nothing))) m.holds
              (chain_position host json_loads proof_id rows events chain m.read)
              (has_hashable_types-exported json_loads rows events m.read) found,
      )
