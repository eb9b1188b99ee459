-- ===== src/Command/Tests.antt =====
-- Runs of the verifier's command on a version-4 export of two events.
use flop_proof_api.Base.{◌≡◌, refl, ◌⊎◌, ◌↔◌, none, some, map, ok, err, os_error, true, length}
use flop_proof_api.Value.{Value, str, obj, truthy}
use flop_proof_api.Verification.History.{link_json, Collision}
use flop_proof_api.Verification.Tests.{
  level_host, sample_proof, zero_hash, sample_events, no_file, verification,
}
use flop_proof_api.Command.{
  pos, negsuc, objects_of, verify_items, is_valid, head_found, count_found, head_expectation,
  count_expectation, check_expectations, all_met, verify_listed, verify_proof_data, main,
}
use flop_proof_api.Store.{first_proof}
use flop_proof_api.Store.Read.{ProofView, get_proof}
use flop_proof_api.Store.Tests.{api, json_loads, closed_state, closed_proof, closed_reached}
use flop_proof_api.Verification.Results.{no_outcome, outcome_of}
use flop_proof_api.Verification.Verdict.{outcome_holds}
use flop_proof_api.Command.Stored.{stored_export_exits}
use flop_proof_api.Command.Expected.{
  export_of, items_of, Passed, main_iff_Passed, expected_head_binds,
}

abbrev sample_export : Value
sample_export = obj (export_of (str sample_proof) sample_events (str "4"))

sample_exit :
    (main level_host no_file (ok sample_export) (some zero_hash) (some (pos 2)) ≡ 0)
    × (main level_host no_file (ok sample_export) (some zero_hash) none ≡ 0)
    × (main level_host no_file (ok sample_export) none (some (negsuc 1)) ≡ 1)
    × (main level_host no_file (ok sample_export) (some "ab") none ≡ 1)
    × (main level_host no_file (err (os_error "unreadable")) none none ≡ 1)
unfolding verification main verify_proof_data verify_listed verify_items objects_of items_of all_met
    check_expectations is_valid head_found count_found head_expectation count_expectation
sample_exit = (refl, refl, refl, refl, refl)

main_iff_Passed_example :
    (main level_host no_file (ok sample_export) (some zero_hash) (some (pos 2)) ≡ 0)
    ↔ Passed level_host no_file (ok sample_export) (some zero_hash) (some (pos 2))
main_iff_Passed_example =
    main_iff_Passed level_host no_file (ok sample_export) (some zero_hash) (some (pos 2))

expected_head_binds_example :
    (map (link_json (str sample_proof)) sample_events
      ≡ map (link_json (str sample_proof)) sample_events)
    ⊎ Collision level_host
        (map (link_json (str sample_proof)) sample_events)
        (map (link_json (str sample_proof)) sample_events)
expected_head_binds_example =
    expected_head_binds level_host no_file (str sample_proof) zero_hash sample_events sample_events
      (some (pos 2)) none sample_exit.0 sample_exit.1

-- What get_proof shows of the proof that its completion has closed.
closed_view :
    (first_proof closed_state.tables.proofs sample_proof ≡ some closed_proof)
    × (view : ProofView) × (get_proof level_host json_loads closed_state.tables sample_proof
        ≡ ok view)
    × (outcome_of level_host no_file no_outcome view.events ≡ ok no_outcome)
    × (outcome_holds no_outcome ≡ true)
    × (truthy (str sample_proof) ≡ true)
unfolding api outcome_holds truthy
closed_view = (refl, _, refl, refl, refl, refl)

stored_export_exits_example :
    main level_host no_file
      (ok (obj (export_of (str sample_proof) closed_view.1.events (str closed_proof.version))))
      closed_view.1.chain_head
      (some (pos (length closed_view.1.events)))
    ≡ 0
stored_export_exits_example =
    stored_export_exits level_host json_loads no_file closed_state sample_proof closed_proof
      closed_view.1 no_outcome closed_reached closed_view.0 closed_view.5 closed_view.2
      closed_view.3 closed_view.4
