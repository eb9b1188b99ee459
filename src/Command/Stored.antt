-- ===== src/Command/Stored.antt =====
-- app/verifier.py and app/main.py: the command on the export of a stored proof.
use Prim.Native.String.{String}
use flop_proof_api.Base.{
  raise_if-eq-ok, ◌≡◌, refl, sym, ap, ◌∙◌, inl, inr, true, some, List, [], ◌∷◌, length, arith,
  Result, ok, ok_inj, >>=-eq-ok, Option-cases,
}
use flop_proof_api.Base.Bytes.{Bytes}
use flop_proof_api.Host.{Host}
use flop_proof_api.Value.{Value, str, obj, Fields, truthy, get, find}
use flop_proof_api.Records.{last_of, chain_head}
use flop_proof_api.Formats.{Version, version_of}
use flop_proof_api.Verification.Results.{Outcome, no_outcome, outcome_of}
use flop_proof_api.Verification.Verdict.{
  Report, report_of, outcome_holds, verify_proof_events, head_or_none,
}
use flop_proof_api.Store.{Proof, ProofEvent, first_proof, chain_of, exported, export_events}
use flop_proof_api.Store.Append.{or_404, last_links}
use flop_proof_api.Store.Read.{ProofView, get_proof}
use flop_proof_api.Store.Passed.{link-exported, head-row}
use flop_proof_api.Store.Promises.{stored_proof_verifies}
use flop_proof_api.Store.System.{State, Reach}
use flop_proof_api.Command.{pos, main}
use flop_proof_api.Command.Expected.{items_of, export_of, objects_of-items_of, main_iff_Passed}

module _ (host : Host) (json_loads : String → Result Value) (proof_id : String) where
  head_of_later :
      (a : Fields) (events : List Fields) (e : Fields) (es : List Fields)
      → events ≡ e ∷ es
      → chain_head host (a ∷ events) (str proof_id) ≡ chain_head host events (str proof_id)
  unfolding chain_head
  head_of_later a events e es there = rw there refl

  head_exported :
      (row : ProofEvent) (payload : Value)
      → chain_head host (exported row payload ∷ []) (str proof_id)
        ≡ chain_head host (last_links (some row)) (str proof_id)
  unfolding chain_head
  head_exported row payload =
      rw (chain_head, link-exported row payload, head-row host proof_id row) refl

  -- The head of an export is the head of the rows.
  chain_head-export_events :
      (rows : List ProofEvent) (events : List Fields)
      → export_events json_loads rows ≡ ok events
      → chain_head host events (str proof_id)
        ≡ chain_head host (last_links (last_of rows)) (str proof_id)
  unfolding export_events
  chain_head-export_events [] events h =
      ap (λ es. chain_head host es (str proof_id)) (sym (ok_inj h))
  chain_head-export_events (x ∷ []) events h =
      let (payload, _, same) = >>=-eq-ok (json_loads x.payload_json) _ h in
      ap (λ es. chain_head host es (str proof_id)) (sym (ok_inj same)) ∙ head_exported x payload
  chain_head-export_events (x ∷ (y ∷ rows)) events h =
      let (payload, _, r1) = >>=-eq-ok (json_loads x.payload_json) _ h in
      let (rest, read, r2) = >>=-eq-ok (export_events json_loads (y ∷ rows)) _ r1 in
      let (paid, _, r3) = >>=-eq-ok (json_loads y.payload_json) _ read in
      let (later, _, r4) = >>=-eq-ok (export_events json_loads rows) _ r3 in
      ap (λ es. chain_head host es (str proof_id)) (sym (ok_inj r2))
      ∙ head_of_later (exported x payload) rest (exported y paid) later (sym (ok_inj r4))
      ∙ chain_head-export_events (y ∷ rows) rest read

module _ (host : Host) (read_file : Value → Result Bytes) where
  known_values :
      (proof_id : String) (version : Version) (events : List Fields) (r : Report)
      → report_of host read_file (str proof_id) version events ≡ ok r
      → (r.chain_head ≡ head_or_none (chain_head host events (str proof_id)))
        × (r.event_count ≡ length events)
  unfolding report_of
  known_values proof_id version events r h =
      let (outcome, _, built) =
        >>=-eq-ok (outcome_of host read_file no_outcome events) _ (raise_if-eq-ok _ _ _ h).1 in
      (ap (λ x. x.chain_head) (sym (ok_inj built)), ap (λ x. x.event_count) (sym (ok_inj built)))

  report_values :
      (proof_id : String) (events : List Fields) (version : Value) (r : Report)
      → verify_proof_events host read_file (str proof_id) events version ≡ ok r
      → r.valid ≡ true
      → (r.chain_head ≡ head_or_none (chain_head host events (str proof_id)))
        × (r.event_count ≡ length events)
  unfolding verify_proof_events
  report_values proof_id [] version r h valid = elim (Option-cases (version_of version)) [
    | inl unknown ↦ ground arith
    | inr (known, there) ↦ ground arith
  ]
  report_values proof_id (e ∷ es) version r h valid = elim (Option-cases (version_of version)) [
    | inl unknown ↦ ground arith
    | inr (known, there) ↦
        known_values proof_id known (e ∷ es) r (rw (verify_proof_events, there) at h)
  ]

module _ (host : Host) (json_loads : String → Result Value) (read_file : Value → Result Bytes) where
  -- A client that reads a stored proof with get_proof, and keeps the head and the number of events,
  -- gets exit code 0 from the command on the export with these as expectations. This holds in every
  -- state that the API reaches, for a proof whose identifier is not empty, when the loop that checks
  -- the hashes inside the payloads returns and finds none of them wrong. Calls with payloads that
  -- json.loads reads back are let in.
  pub stored_export_exits :
      (s : State) (proof_id : String) (p : Proof) (view : ProofView) (outcome : Outcome)
      → Reach host json_loads s
      → first_proof s.tables.proofs proof_id ≡ some p
      → truthy (str proof_id) ≡ true
      → get_proof host json_loads s.tables proof_id ≡ ok view
      → outcome_of host read_file no_outcome view.events ≡ ok outcome
      → outcome_holds outcome ≡ true
      → main host read_file
          (ok (obj (export_of (str proof_id) view.events (str p.version))))
          view.chain_head
          (some (pos (length view.events)))
        ≡ 0
  unfolding get_proof get find
  stored_export_exits s proof_id p view outcome reach found named h known holds =
      let (proof, _, r1) = >>=-eq-ok (or_404 (first_proof s.tables.proofs proof_id)) _ h in
      let (head, at_head, r2) =
        >>=-eq-ok
          (chain_head host (last_links (last_of (chain_of s.tables.events proof_id)))
            (str proof_id))
          _ r1 in
      let (events, read, r3) =
        >>=-eq-ok (export_events json_loads (chain_of s.tables.events proof_id)) _ r2 in
      let e : record { proof = proof; chain_head = head; events = events } ≡ view = ok_inj r3 in
      let same : events ≡ view.events = ap (λ v. v.events) e in
      let shown : export_events json_loads (chain_of s.tables.events proof_id) ≡ ok view.events =
        read ∙ ap ok same in
      let (r, run, valid) =
        stored_proof_verifies host json_loads read_file s proof_id p view.events outcome reach found
          shown known in
      let (heads, counts) =
        report_values host read_file proof_id view.events (str p.version) r run (valid ∙ holds) in
      let there : chain_head host view.events (str proof_id) ≡ ok head =
        chain_head-export_events host json_loads proof_id _ view.events shown ∙ at_head in
      (main_iff_Passed host read_file
          (ok (obj (export_of (str proof_id) view.events (str p.version)))) view.chain_head
          (some (pos (length view.events)))).1
        (record {
          proof = export_of (str proof_id) view.events (str p.version);
          items = items_of view.events;
          events = view.events;
          report = r;
          is_read = refl;
          is_named = named;
          is_list = refl;
          has_events = objects_of-items_of view.events;
          is_verified = run;
          is_valid = valid ∙ holds;
          head = inr (ap (λ v. v.chain_head) (sym e) ∙ sym (heads ∙ ap head_or_none there));
          count = inr (ap (λ n. some (pos n)) (sym counts));
        })
