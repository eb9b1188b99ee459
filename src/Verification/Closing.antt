-- ===== src/Verification/Closing.antt =====
-- app/verification_core.py: where the closing event of a valid proof stands.
use mathlib.Core.Option.{some-injective}
use flop_proof_api.Base.{
  Result, raise_if-eq-ok, subst, ℕ, zero, suc, ◌+◌, ◌-◌, ◌≡◌, Bool, true, List, [], ◌∷◌, some,
  Option-cases, all, length, get_elem?, ◌==◌, arith, ok, >>=-eq-ok, inl, inr,
}
use flop_proof_api.Base.Bytes.{Bytes}
use flop_proof_api.Host.{Host}
use flop_proof_api.Value.{Value, Fields, get}
use flop_proof_api.Formats.{Version, version_of, is_closing}
use flop_proof_api.Verification.Results.{no_outcome, outcome_of}
use flop_proof_api.Verification.Verdict.{
  closing_positions, position_ok, Report, report_of, verify_proof_events,
}

-- What holds at all closing positions holds at the position of a closing event.
closing_at :
    (p : ℕ → Bool) (n i : ℕ) (events : List Fields) (event : Fields)
    → get_elem? events i ≡ some event
    → is_closing (get "type" event) ≡ true
    → all p (closing_positions n events) ≡ true
    → p (n + i) ≡ true
unfolding closing_positions
closing_at p n i [] event at closing h = cc
closing_at p n zero (e ∷ events) event at closing h =
    let now : is_closing (get "type" e) ≡ true = rw (some-injective _ _ at) closing in
    let here : p n ≡ true = ground arith in subst (λ k. p k ≡ true) (omega arith) here
closing_at p n (suc i) (e ∷ events) event at closing h =
    let later : all p (closing_positions (n + 1) events) ≡ true = ground arith in
    subst (λ k. p k ≡ true) (omega arith) (closing_at p (n + 1) i events event at closing later)

last_position :
    (i : ℕ) (events : List Fields) (event : Fields)
    → position_ok events ≡ true
    → get_elem? events i ≡ some event
    → is_closing (get "type" event) ≡ true
    → (0 + i) == length events - 1 ≡ true
unfolding position_ok
last_position i events event ok_position at closing =
    closing_at (λ index. index == length events - 1) 0 i events event at closing (ground arith)

module _ (host : Host) (read_file : Value → Result Bytes) (proof_id : Value) where
  report_position :
      (version : Version) (events : List Fields) (r : Report)
      → report_of host read_file proof_id version events ≡ ok r
      → r.valid ≡ true
      → position_ok events ≡ true
  unfolding report_of
  report_position version events r h valid =
      let (_, _, built) =
        >>=-eq-ok (outcome_of host read_file no_outcome events) _ (raise_if-eq-ok _ _ _ h).1 in
      ground arith

  valid_position :
      (version : Value) (events : List Fields) (r : Report)
      → verify_proof_events host read_file proof_id events version ≡ ok r
      → r.valid ≡ true
      → position_ok events ≡ true
  unfolding verify_proof_events
  valid_position version [] r h valid = elim (Option-cases (version_of version)) [
    | inl unknown ↦ ground arith
    | inr (known, is_known) ↦ ground arith
  ]
  valid_position version (e ∷ es) r h valid = elim (Option-cases (version_of version)) [
    | inl unknown ↦ ground arith
    | inr (known, is_known) ↦
        report_position known (e ∷ es) r (rw (is_known, verify_proof_events) at h) valid
  ]

  -- In a proof of any version that `verify_proof_events` reports as valid, an event of a closing
  -- type is the last event.
  pub closing_event_last :
      (version : Value) (events : List Fields) (r : Report) (i : ℕ) (event : Fields)
      → verify_proof_events host read_file proof_id events version ≡ ok r
      → r.valid ≡ true
      → get_elem? events i ≡ some event
      → is_closing (get "type" event) ≡ true
      → suc i ≡ length events
  closing_event_last version (e ∷ es) r i event h valid at closing =
      let last =
        last_position i (e ∷ es) event (valid_position version (e ∷ es) r h valid) at closing in
      ground arith
  closing_event_last version [] r i event h valid at closing = cc
