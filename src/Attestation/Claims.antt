-- ===== src/Attestation/Claims.antt =====
-- app/crypto.py, app/replay.py, app/main.py: a task is claimed once, and only for a bound result.
use Prim.Native.String.{String}
use text.Mathlib.TextEquality.{eq_iff}
use flop_proof_api.Base.{
  ◌≡◌, refl, sym, ap, subst, ◌∙◌, inl, inr, Bool, true, false, not, ◌&&◌, List, [], ◌∷◌, ◌++◌, all,
  any, arith, if◌then◌else◌, Result, ok, ok_inj, ◌>>=◌, >>=-eq-ok, raise_if-eq-ok, Bool-cases,
  Result-cases, err,
}
use flop_proof_api.Base.Bytes.{Bytes, to_hex}
use flop_proof_api.Base.Sets.{contains, contains-append}
use flop_proof_api.Host.{Host}
use flop_proof_api.Value.{Value, obj}
use flop_proof_api.Attestation.{
  ValidatorAttestation, Threshold, is_processed, mark_processed,
  verify_validator_attestation_quorum, verify_validator_attestation_report_data,
}
use flop_proof_api.Attestation.Bundle.{
  all_match, verify_validator_attestation_bundle_for_result,
  verify_and_accept_validator_attestation_bundle_for_result,
}
use flop_proof_api.Attestation.Endpoint.{
  ProofAcceptRequest, AcceptedProof, decode_attestations, or_422, first_hash, claim_processed_task,
  accept_proof_validator_attestations, or_409, read_result, results_of, is_missing, required_fields,
}
use flop_proof_api.Records.{last_of}
use flop_proof_api.Store.{Tables, first_proof, chain_of}
use flop_proof_api.Store.Append.{or_404}
use flop_proof_api.Store.Accepted.{not-not}

module _ (host : Host) where
  -- What the accepting call does after a verdict.
  abbrev pub claim_if : Bool → List Bytes → Bytes → Result (Bool × List Bytes)
  claim_if verified processed task_hash =
      if not verified
      then ok (false, processed)
      else (is_processed processed task_hash >>= λ old.
          if old then ok (false, processed) else mark_processed processed task_hash)

  -- For a bundle of at least one attestation, the call that accepts a bundle for a result is the
  -- call that only verifies it, followed by the claim of the task, and an error of the one is an
  -- error of the other: so nothing is claimed that does not verify.
  pub accept_is_verify_then_claim :
      (first : ValidatorAttestation) (others : List ValidatorAttestation) (result : Value)
      (report_data : String) (registry : List Bytes) (threshold : Threshold)
      (processed : List Bytes)
      → verify_and_accept_validator_attestation_bundle_for_result host
          (first ∷ others)
          result
          report_data
          registry
          threshold
          processed
        ≡ (verify_validator_attestation_bundle_for_result host
              (first ∷ others)
              result
              report_data
              registry
              threshold
            >>= λ verified. claim_if verified processed first.task_hash)
  unfolding verify_and_accept_validator_attestation_bundle_for_result
      verify_validator_attestation_bundle_for_result
  accept_is_verify_then_claim first others result report_data registry threshold processed =
      elim (Bool-cases (all_match (first ∷ others) result)) [
        | inr differs ↦ ground arith
        | inl matches ↦
            elim (Bool-cases (verify_validator_attestation_report_data host first report_data)) [
              | inr unbound ↦ ground arith
              | inl bound ↦
                  elim (Result-cases (
                    verify_validator_attestation_quorum host (first ∷ others) registry threshold)) [
                      | inr (e, failed) ↦ ground (arith, failed)
                      | inl (verified, q) ↦ ground (arith, q)
                    ]
            ]
      ]

all_out :
    (rows hashes : List String) (h : String)
    → all (λ x. not (contains rows x)) hashes ≡ true
    → contains rows h ≡ true
    → contains hashes h ≡ false
unfolding contains
all_out rows [] h k c = refl
all_out rows (x ∷ hashes) h k c = ground (arith, all_out rows hashes h, eq_iff x h)

fewer_rows :
    (rows hashes : List String) (h : String)
    → all (λ x. not (contains (rows ++ h ∷ []) x)) hashes ≡ true
    → all (λ x. not (contains rows x)) hashes ≡ true
fewer_rows rows [] h k = refl
fewer_rows rows (x ∷ hashes) h k =
    ground (arith, fewer_rows rows hashes h, contains-append rows (h ∷ []) x)

contains_last : (rows : List String) (h : String) → contains (rows ++ h ∷ []) h ≡ true
unfolding contains
contains_last rows h = ground (arith, contains-append rows (h ∷ []) h, (eq_iff h h).1 refl)

claim_lem :
    (rows after : List String) (task_hash : Bytes) (claimed : Bool)
    → claim_processed_task rows task_hash ≡ ok (claimed, after)
    → claimed ≡ true
    → (contains rows (to_hex task_hash) ≡ false) × (after ≡ rows ++ to_hex task_hash ∷ [])
unfolding claim_processed_task
claim_lem rows after task_hash claimed h k = ground arith

-- A call of the endpoint: what it reads of the tables, and what it is sent.
pub record Call : Type 0 where
  pub tables : Tables
  pub proof_id : String
  pub request : ProofAcceptRequest

module _ (host : Host) (b64decode : String → Result Bytes) (registry : List Bytes)
    (threshold : Threshold) (json_loads : String → Result Value) where
  claimed_row :
      (call : Call) (rows after : List String) (answer : AcceptedProof)
      → accept_proof_validator_attestations host b64decode registry threshold json_loads call.tables
          call.proof_id call.request rows
        ≡ ok (answer, after)
      → (contains rows answer.task_hash ≡ false) × (after ≡ rows ++ answer.task_hash ∷ [])
  unfolding accept_proof_validator_attestations
  claimed_row call rows after answer h =
      let (proof, _, r1) = >>=-eq-ok (or_404 (first_proof call.tables.proofs call.proof_id)) _ h in
      let (event, _, r2) =
        >>=-eq-ok (or_409 (last_of (results_of (chain_of call.tables.events call.proof_id)))) _
          r1 in
      let (result, _, r3) = >>=-eq-ok (read_result (json_loads event.payload_json)) _ r2 in
      let (_, r4) = raise_if-eq-ok (any (is_missing result) required_fields) _ _ r3 in
      let (attestations, _, r5) =
        >>=-eq-ok (or_422 (decode_attestations b64decode call.request.attestations)) _ r4 in
      let (validated, _, r6) =
        >>=-eq-ok
          (verify_validator_attestation_bundle_for_result host attestations (obj result)
            call.request.report_data registry threshold)
          _ r5 in
      let (_, r7) = raise_if-eq-ok (not validated) _ _ r6 in
      let ((claimed, left), claim, r8) =
        >>=-eq-ok (claim_processed_task rows (first_hash attestations)) _ r7 in
      let (was, r9) = raise_if-eq-ok (not claimed) _ _ r8 in
      let (new, grown) =
        claim_lem rows left (first_hash attestations) claimed claim (not-not claimed was) in
      let hash : to_hex (first_hash attestations) ≡ answer.task_hash =
        ap (λ p. p.0.task_hash) (ok_inj r9) in
      (
        ap (contains rows) (sym hash) ∙ new,
        ap (λ p. p.1) (sym (ok_inj r9)) ∙ grown ∙ ap (λ x. rows ++ x ∷ []) hash,
      )

  -- The calls one after the other: the task hashes of the accepted ones.
  unfoldable pub accepted_hashes : List Call → List String → List String
  accepted_hashes [] rows = []
  accepted_hashes (call ∷ calls) rows =
      elim (accept_proof_validator_attestations host b64decode registry threshold json_loads
        call.tables call.proof_id call.request rows) [
          | err _ ↦ accepted_hashes calls rows
          | ok (answer, after) ↦ answer.task_hash ∷ accepted_hashes calls after
        ]

  abbrev pub is_distinct : List String → Bool
  is_distinct [] = true
  is_distinct (h ∷ hashes) = not (contains hashes h) && is_distinct hashes

  -- Whatever calls of accept_proof_validator_attestations come one after the other, for whatever
  -- proofs, the accepted ones have different task hashes, none of which was claimed before them.
  pub tasks_claimed_once :
      (calls : List Call) (rows : List String)
      → (all (λ h. not (contains rows h)) (accepted_hashes calls rows) ≡ true)
        × (is_distinct (accepted_hashes calls rows) ≡ true)
  unfolding accepted_hashes
  tasks_claimed_once [] rows = (refl, refl)
  tasks_claimed_once (call ∷ calls) rows =
      elim (Result-cases (
        accept_proof_validator_attestations host b64decode registry threshold json_loads call.tables
          call.proof_id call.request rows)) [
            | inr (e, refused) ↦ rw (refused, accepted_hashes) (tasks_claimed_once calls rows)
            | inl ((answer, after), served) ↦
                let (new, grown) = claimed_row call rows after answer served in
                let (later, distinct) = tasks_claimed_once calls after in
                let hashes = accepted_hashes calls after in
                let later' = subst (λ x. all (λ h. not (contains x h)) hashes ≡ true) grown later in
                let mine = contains_last rows answer.task_hash in
                let apart =
                  all_out (rows ++ answer.task_hash ∷ []) hashes answer.task_hash later' mine in
                let fresh = fewer_rows rows hashes answer.task_hash later' in
                rw (served, accepted_hashes)
                  (ground (arith, new, fresh), ground (arith, apart, distinct))
          ]
