-- ===== src/Attestation/Acceptance.antt =====
-- A task hash is accepted at most once, and only with a verified quorum.
use flop_proof_api.Base.{
  ◌≡◌, refl, ap, ◌∙◌, Bool, true, false, not, List, [], ◌∷◌, length, ◌==◌, arith, Result, ok, ◌>>=◌,
  >>=-eq-ok, ok_inj, Bool-cases, ◌⊎◌, inl, inr,
}
use flop_proof_api.Base.Bytes.{Bytes, same_bytes_iff}
use flop_proof_api.Host.{Host}
use flop_proof_api.Attestation.{
  ValidatorAttestation, Threshold, has_bytes, is_processed, mark_processed,
  verify_validator_attestation_quorum, verify_and_accept_validator_attestation_quorum,
}

-- What an acceptance rests on.
pub record Accepted (host : Host) (bundle : List ValidatorAttestation) (registry : List Bytes)
    (threshold : Threshold) (processed after : List Bytes) : Type 0 where
  pub first : ValidatorAttestation
  pub others : List ValidatorAttestation
  pub bundle_is : bundle ≡ first ∷ others
  pub hash_length : length first.task_hash ≡ 32
  pub is_new : has_bytes processed first.task_hash ≡ false
  pub marked : after ≡ first.task_hash ∷ processed
  pub quorum : verify_validator_attestation_quorum host bundle registry threshold ≡ ok true

module _ (host : Host) (registry : List Bytes) (threshold : Threshold) where
  marked_once :
      (processed : List Bytes) (task_hash : Bytes) {r : Bool × List Bytes}
      → has_bytes processed task_hash ≡ false
      → mark_processed processed task_hash ≡ ok r
      → (r.0 ≡ true) × (r.1 ≡ task_hash ∷ processed) × (length task_hash ≡ 32)
  unfolding mark_processed
  marked_once processed task_hash new h = ground arith

  is_processed_lem :
      (processed : List Bytes) (task_hash : Bytes) {b : Bool}
      → is_processed processed task_hash ≡ ok b
      → has_bytes processed task_hash ≡ b
  unfolding is_processed
  is_processed_lem processed task_hash h = ground arith

  -- A call of `verify_and_accept_validator_attestation_quorum` that returns refuses and leaves the
  -- set of processed tasks alone, or accepts: then the quorum verifies, and a hash of 32 bytes that
  -- was not in the set is added to it.
  pub Accepted-of_run :
      (bundle : List ValidatorAttestation) (processed : List Bytes) (r : Bool × List Bytes)
      → verify_and_accept_validator_attestation_quorum host bundle registry threshold processed
        ≡ ok r
      → ((r.0 ≡ false) × (r.1 ≡ processed))
        ⊎ ((r.0 ≡ true) × Accepted host bundle registry threshold processed r.1)
  unfolding verify_and_accept_validator_attestation_quorum
  Accepted-of_run [] processed r h = inl (ground arith, ground arith)
  Accepted-of_run (first ∷ others) processed r h =
      let (old, e, h1) = >>=-eq-ok (is_processed processed first.task_hash) _ h in
      elim (Bool-cases old) [
        | inl seen ↦ inl (ground arith, ground arith)
        | inr new ↦
            let (verified, q, h2) =
              >>=-eq-ok
                (verify_validator_attestation_quorum host (first ∷ others) registry threshold) _
                (rw new at h1) in
            elim (Bool-cases verified) [
              | inr refused ↦ inl (ground arith, ground arith)
              | inl accepted ↦
                  let fresh = is_processed_lem processed first.task_hash e ∙ new in
                  let (answer, marked, size) =
                    marked_once processed first.task_hash fresh (rw accepted at h2) in
                  inr (
                    answer,
                    record {
                      first = first;
                      others = others;
                      bundle_is = refl;
                      hash_length = size;
                      is_new = fresh;
                      marked = marked;
                      quorum = q ∙ ap ok accepted;
                    },
                  )
            ]
      ]

-- Bundles that arrive one after the other: the sets that the accepting calls leave behind.
unfoldable pub accept_all :
    (host : Host) (registry : List Bytes) (threshold : Threshold)
    → List (List ValidatorAttestation)
    → List Bytes
    → Result (List Bytes)
accept_all host registry threshold [] processed = ok processed
accept_all host registry threshold (bundle ∷ bundles) processed = do
  (_, after) ←
      verify_and_accept_validator_attestation_quorum host bundle registry threshold processed
  accept_all host registry threshold bundles after

has_bytes_self : (x : Bytes) (xs : List Bytes) → has_bytes (x ∷ xs) x ≡ true
unfolding has_bytes
has_bytes_self x xs = ground (arith, (same_bytes_iff x x).1 refl)

module _ (host : Host) (registry : List Bytes) (threshold : Threshold) where
  keeps :
      (bundle : List ValidatorAttestation) (processed : List Bytes) (r : Bool × List Bytes)
      (h : Bytes)
      → has_bytes processed h ≡ true
      → verify_and_accept_validator_attestation_quorum host bundle registry threshold processed
        ≡ ok r
      → has_bytes r.1 h ≡ true
  unfolding has_bytes
  keeps bundle processed r h old run =
      elim (Accepted-of_run host registry threshold bundle processed r run) [
        | inl (_, same) ↦ rw same old
        | inr (_, accepted) ↦ rw accepted.marked (ground arith)
      ]

  keeps_all :
      (bundles : List (List ValidatorAttestation)) (processed later : List Bytes) (h : Bytes)
      → has_bytes processed h ≡ true
      → accept_all host registry threshold bundles processed ≡ ok later
      → has_bytes later h ≡ true
  unfolding accept_all
  keeps_all [] processed later h old run = rw (← ok_inj run) old
  keeps_all (bundle ∷ bundles) processed later h old run =
      let (r, e, k) =
        >>=-eq-ok
          (verify_and_accept_validator_attestation_quorum host bundle registry threshold processed)
          _ run in
      keeps_all bundles r.1 later h (keeps bundle processed r h old e) k

  refuses :
      (first : ValidatorAttestation) (others : List ValidatorAttestation) (processed : List Bytes)
      → length first.task_hash ≡ 32
      → has_bytes processed first.task_hash ≡ true
      → verify_and_accept_validator_attestation_quorum host
          (first ∷ others)
          registry
          threshold
          processed
        ≡ ok (false, processed)
  unfolding verify_and_accept_validator_attestation_quorum is_processed
  refuses first others processed size old =
      let fine : not (length first.task_hash == 32) ≡ false = ground arith in rw (fine, old) refl

  accepted_hash :
      (first : ValidatorAttestation) (others : List ValidatorAttestation)
      (processed after : List Bytes)
      → verify_and_accept_validator_attestation_quorum host
          (first ∷ others)
          registry
          threshold
          processed
        ≡ ok (true, after)
      → (length first.task_hash ≡ 32) × (has_bytes after first.task_hash ≡ true)
  accepted_hash first others processed after h =
      elim (Accepted-of_run host registry threshold (first ∷ others) processed (true, after) h) [
        | inl (refused, _) ↦ cc
        | inr (_, accepted) ↦
            let same : accepted.first ≡ first = cc accepted.bundle_is in
            (
              rw (← same) accepted.hash_length,
              rw (accepted.marked, ← same) (has_bytes_self accepted.first.task_hash processed),
            )
      ]

  -- A task hash is accepted once: after an accepting call for it and any later calls, a call whose
  -- first attestation has the same task hash refuses and leaves the set of processed tasks alone.
  pub accepted_once :
      (first again : ValidatorAttestation) (others rest : List ValidatorAttestation)
      (processed after later : List Bytes) (bundles : List (List ValidatorAttestation))
      → verify_and_accept_validator_attestation_quorum host
          (first ∷ others)
          registry
          threshold
          processed
        ≡ ok (true, after)
      → accept_all host registry threshold bundles after ≡ ok later
      → again.task_hash ≡ first.task_hash
      → verify_and_accept_validator_attestation_quorum host (again ∷ rest) registry threshold later
        ≡ ok (false, later)
  accepted_once first again others rest processed after later bundles h k same =
      let (size, there) = accepted_hash first others processed after h in
      let kept = keeps_all bundles after later first.task_hash there k in
      refuses again rest later (ap length same ∙ size) (rw same kept)
