-- ===== src/Command/Expected.antt =====
-- app/verifier.py: when the command exits with 0.
use Prim.Native.String.{String}
use flop_proof_api.Base.{
  [], ◌∷◌, ◌≡◌, refl, sym, ap, ◌∙◌, ◌⊎◌, inl, inr, ◌↔◌, true, Option, none, some, List, map, arith,
  Result, ok, err, Result-cases, &&-eq-true, ok_inj,
}
use flop_proof_api.Base.Bytes.{Bytes}
use flop_proof_api.Host.{Host}
use flop_proof_api.Value.{
  Value, str, arr, obj, Items, nil, cons, Fields, end, field, find, get, truthy,
}
use flop_proof_api.Verification.Verdict.{Report, verify_proof_events}
use flop_proof_api.Verification.History.{link_json, Collision}
use flop_proof_api.Verification.Binding.{chain_head_binds_history}
use flop_proof_api.Command.{
  ℤ, pos, objects_of, verify_items, FileReport, reported, is_valid, head_found, count_found,
  check_expectations, all_met, verify_listed, verify_proof_data, main,
}
use flop_proof_api.Command.Parts.{head_met, count_met, items_parts, listed_parts, data_parts}

-- What an exit with 0 says of the file.
pub record Passed (host : Host) (read_file : Value → Result Bytes) (file : Result Value)
    (expect_head : Option String) (expect_count : Option ℤ) : Type 0 where
  pub proof : Fields
  pub items : Items
  pub events : List Fields
  pub report : Report
  pub is_read : file ≡ ok (obj proof)
  pub is_named : truthy (get "proof_id" proof) ≡ true
  pub is_list : get "events" proof ≡ arr items
  pub has_events : objects_of items ≡ some events
  pub is_verified :
      verify_proof_events host read_file (get "proof_id" proof) events (get "version" proof)
      ≡ ok report
  pub is_valid : report.valid ≡ true
  pub head : (expect_head ≡ none) ⊎ (expect_head ≡ report.chain_head)
  pub count : (expect_count ≡ none) ⊎ (expect_count ≡ some (pos report.event_count))

-- The list of an export's events.
unfoldable pub items_of : List Fields → Items
items_of [] = nil
items_of (event ∷ events) = cons (obj event) (items_of events)

-- The object with the three keys that the command reads.
abbrev pub export_of : Value → List Fields → Value → Fields
export_of proof_id events version =
    field "proof_id" proof_id (field "events" (arr (items_of events)) (field "version" version end))

pub objects_of-items_of : (events : List Fields) → objects_of (items_of events) ≡ some events
unfolding objects_of items_of
objects_of-items_of [] = refl
objects_of-items_of (event ∷ events) = rw (objects_of-items_of events) refl

module _ (host : Host) (read_file : Value → Result Bytes) where
  exit_parts :
      (file : Value) (expect_head : Option String) (expect_count : Option ℤ) (result : FileReport)
      → verify_proof_data host read_file file ≡ ok result
      → main host read_file (ok file) expect_head expect_count ≡ 0
      → (is_valid result ≡ true)
        × (all_met (check_expectations result expect_head expect_count) ≡ true)
  unfolding main
  exit_parts file expect_head expect_count result known h = ground arith

  expectations_parts :
      (expect_head : Option String) (expect_count : Option ℤ) (report : Report)
      → (all_met (check_expectations (reported report) expect_head expect_count) ≡ true) ↔ (
          ((expect_head ≡ none) ⊎ (expect_head ≡ report.chain_head))
          × ((expect_count ≡ none) ⊎ (expect_count ≡ some (pos report.event_count))))
  unfolding all_met check_expectations head_found count_found
  expectations_parts expect_head expect_count report = (
    λ h.
        let (a, b) = &&-eq-true _ _ h in
        (
          (head_met report.chain_head expect_head).0 a,
          (count_met report.event_count expect_count).0 b,
        ),
    λ (a, b).
        rw
          (
            (head_met report.chain_head expect_head).1 a,
            (count_met report.event_count expect_count).1 b,
          )
          refl,
  )

  passed :
      (file : Result Value) (expect_head : Option String) (expect_count : Option ℤ)
      → main host read_file file expect_head expect_count ≡ 0
      → Passed host read_file file expect_head expect_count
  unfolding main
  passed (err e) expect_head expect_count h = ground arith
  passed (ok file) expect_head expect_count h =
      elim (Result-cases (verify_proof_data host read_file file)) [
        | inr (e, raised) ↦ ground arith
        | inl (result, known) ↦
            let (valid, met) = exit_parts file expect_head expect_count result known h in
            let (proof, read, named, run) = data_parts host read_file file result known valid in
            let (items, listed, taken) = listed_parts host read_file _ _ _ result run valid in
            let (events, report, objects, verified, same) =
              items_parts host read_file _ _ _ result taken valid in
            let (head, count) =
              (expectations_parts expect_head expect_count report).0 (rw same at met) in
            record {
              proof = proof;
              items = items;
              events = events;
              report = report;
              is_read = ap ok read;
              is_named = named;
              is_list = listed;
              has_events = objects;
              is_verified = verified;
              is_valid = rw (same, is_valid) at valid;
              head = head;
              count = count;
            }
      ]

  exits :
      (proof : Fields) (items : Items) (events : List Fields) (report : Report)
      (expect_head : Option String) (expect_count : Option ℤ)
      → truthy (get "proof_id" proof) ≡ true
      → get "events" proof ≡ arr items
      → objects_of items ≡ some events
      → verify_proof_events host read_file (get "proof_id" proof) events (get "version" proof)
        ≡ ok report
      → report.valid ≡ true
      → all_met (check_expectations (reported report) expect_head expect_count) ≡ true
      → main host read_file (ok (obj proof)) expect_head expect_count ≡ 0
  unfolding main
  exits proof items events report expect_head expect_count named listed objects run valid met =
      rw
        (
          main, verify_proof_data, named, listed, verify_listed, objects, verify_items, run,
          is_valid, valid, met,
        )
        refl

  -- The command exits with 0 exactly when the file can be read and holds an object with a truthy
  -- proof_id and a list of objects as its events, `verify_proof_events` reports these as valid, and
  -- each expectation that is given, of the head and of the count, is what the report says.
  pub main_iff_Passed :
      (file : Result Value) (expect_head : Option String) (expect_count : Option ℤ)
      → (main host read_file file expect_head expect_count ≡ 0)
        ↔ Passed host read_file file expect_head expect_count
  main_iff_Passed file expect_head expect_count = (
    passed file expect_head expect_count,
    λ p. rw p.is_read (
        exits p.proof p.items p.events p.report expect_head expect_count p.is_named p.is_list
          p.has_events p.is_verified p.is_valid
          ((expectations_parts expect_head expect_count p.report).1 (p.head, p.count))),
  )

  report_found :
      (proof_id : Value) (head : String) (events : List Fields) (count : Option ℤ)
      → main host read_file (ok (obj (export_of proof_id events (str "4")))) (some head) count ≡ 0
      → (r : Report) × (verify_proof_events host read_file proof_id events (str "4") ≡ ok r)
        × (r.valid ≡ true)
        × (r.chain_head ≡ some head)
  unfolding get find
  report_found proof_id head events count h =
      let p = passed (ok (obj (export_of proof_id events (str "4")))) (some head) count h in
      let read : obj (export_of proof_id events (str "4")) ≡ obj p.proof = ok_inj p.is_read in
      let same : export_of proof_id events (str "4") ≡ p.proof = cc in
      let id : proof_id ≡ get "proof_id" p.proof = ap (get "proof_id") same in
      let version : str "4" ≡ get "version" p.proof = ap (get "version") same in
      let listed : arr (items_of events) ≡ arr p.items = ap (get "events") same ∙ p.is_list in
      let items : items_of events ≡ p.items = cc in
      let objects : some events ≡ some p.events =
        sym (objects_of-items_of events) ∙ ap objects_of items ∙ p.has_events in
      let taken : events ≡ p.events = cc in
      (
        p.report,
        rw (id, taken, version) p.is_verified,
        p.is_valid,
        elim p.head [ inl unset ↦ cc | inr found ↦ sym found ],
      )

  -- Two version-4 exports with one proof_id for which the command exits with 0 under one expected
  -- head have the same link texts at all positions, or a link text of the one and a link text of the
  -- other differ and have one SHA-256 digest.
  pub expected_head_binds :
      (proof_id : Value) (head : String) (events others : List Fields) (count total : Option ℤ)
      → main host read_file (ok (obj (export_of proof_id events (str "4")))) (some head) count ≡ 0
      → main host read_file (ok (obj (export_of proof_id others (str "4")))) (some head) total ≡ 0
      → (map (link_json proof_id) events ≡ map (link_json proof_id) others)
        ⊎ Collision host (map (link_json proof_id) events) (map (link_json proof_id) others)
  expected_head_binds proof_id head events others count total h k =
      let (r, run_r, valid_r, head_r) = report_found proof_id head events count h in
      let (t, run_t, valid_t, head_t) = report_found proof_id head others total k in
      chain_head_binds_history host read_file proof_id events others r t head run_r run_t valid_r
        valid_t head_r head_t
