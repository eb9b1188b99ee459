-- ===== src/Store/Matching.antt =====
-- app/verification_core.py against app/main.py: what the verifier has seen after the stored rows.
use Prim.Native.String.{String}
use text.Mathlib.Text.{◌==◌ as str_eq}
use flop_proof_api.Base.{
  ◌≡◌, refl, true, ◌||◌, List, [], ◌∷◌, ◌++◌, some, all, arith, Result, ok, >>=-eq-ok,
}
use flop_proof_api.Base.Sets.{add}
use flop_proof_api.Host.{Host}
use flop_proof_api.Value.{Value, str, pos, Fields, get}
use flop_proof_api.Formats.{v4, signed_nonce}
use flop_proof_api.Authorization.{PriorEvent}
use flop_proof_api.Verification.{
  Seen, check_event, check_events, seen_after, nonces_after, grants_authority, prior_event,
}
use flop_proof_api.Verification.Verdict.{check_holds}
use flop_proof_api.Store.{ProofEvent, exported, export_events, prior_events}
use flop_proof_api.Store.Append.{stored_nonce}

-- The rows as the texts that they carry in `authorize_event` and in the verifier.
abbrev pub prior_row : ProofEvent → Value → PriorEvent
prior_row row payload = record {
  event_type = str row.event_type;
  actor_did = str row.actor_did;
  payload = payload;
  sequence = some (pos row.sequence);
}

module _ (json_loads : String → Result Value) where
  pub export-append :
      (rows : List ProofEvent) (row : ProofEvent) (payload : Value) {events : List Fields}
      → export_events json_loads rows ≡ ok events
      → json_loads row.payload_json ≡ ok payload
      → export_events json_loads (rows ++ row ∷ []) ≡ ok (events ++ exported row payload ∷ [])
  unfolding export_events
  export-append [] row payload h k = ground (arith, k)
  export-append (x ∷ rows) row payload h k =
      let (value, read, after) = >>=-eq-ok (json_loads x.payload_json) _ h in
      let (rest, others, built) = >>=-eq-ok (export_events json_loads rows) _ after in
      ground (arith, export-append rows row payload others k)

  pub prior-append :
      (rows : List ProofEvent) (row : ProofEvent) (payload : Value) {prior : List PriorEvent}
      → prior_events json_loads rows ≡ ok prior
      → json_loads row.payload_json ≡ ok payload
      → prior_events json_loads (rows ++ row ∷ []) ≡ ok (prior ++ prior_row row payload ∷ [])
  unfolding prior_events
  prior-append [] row payload h k = ground (arith, k)
  prior-append (x ∷ rows) row payload h k =
      let (value, read, after) = >>=-eq-ok (json_loads x.payload_json) _ h in
      let (rest, others, built) = >>=-eq-ok (prior_events json_loads rows) _ after in
      ground (arith, prior-append rows row payload others k)

pub stored_nonce-append :
    (nonce : String) (rows : List ProofEvent) (row : ProofEvent)
    → stored_nonce nonce (rows ++ row ∷ []) ≡ (stored_nonce nonce rows || str_eq row.nonce nonce)
stored_nonce-append nonce [] row = ground arith
stored_nonce-append nonce (x ∷ rows) row = ground (arith, stored_nonce-append nonce rows row)

module _ (host : Host) (proof_id : String) where
  -- What the loop has seen after these events.
  abbrev pub seen_over : Seen → List Fields → Seen
  seen_over seen [] = seen
  seen_over seen (event ∷ events) = seen_over (seen_after host (str proof_id) v4 seen event) events

  pub seen_over-append :
      (seen : Seen) (events : List Fields) (event : Fields)
      → seen_over seen (events ++ event ∷ [])
        ≡ seen_after host (str proof_id) v4 (seen_over seen events) event
  seen_over-append seen [] event = refl
  seen_over-append seen (e ∷ events) event =
      seen_over-append (seen_after host (str proof_id) v4 seen e) events event

  -- The checks hold of the events and of one more exactly when its own check holds as well.
  pub checks-append :
      (seen : Seen) (events : List Fields) (event : Fields)
      → all check_holds (check_events host (str proof_id) v4 seen events) ≡ true
      → check_holds (check_event host (str proof_id) v4 (seen_over seen events) event) ≡ true
      → all check_holds (check_events host (str proof_id) v4 seen (events ++ event ∷ [])) ≡ true
  unfolding check_events
  checks-append seen [] event h k = ground arith
  checks-append seen (e ∷ events) event h k =
      let rest =
        checks-append (seen_after host (str proof_id) v4 seen e) events event (ground arith) k in
      ground (arith, rest)

  -- An event whose check holds is one that may grant authority.
  pub authority :
      (seen : Seen) (event : Fields)
      → check_holds (check_event host (str proof_id) v4 seen event) ≡ true
      → (seen_after host (str proof_id) v4 seen event).authorization_prior
        ≡ seen.authorization_prior ++ prior_event event ∷ []
  unfolding seen_after grants_authority check_holds
  authority seen event h = ground arith

  pub nonces :
      (seen : Seen) (event : Fields) (nonce : String)
      → signed_nonce v4 (get "type" event) (get "canonical" event) ≡ some nonce
      → (seen_after host (str proof_id) v4 seen event).seen_nonces ≡ add seen.seen_nonces nonce
  unfolding seen_after nonces_after
  nonces seen event nonce h = rw (h, seen_after, nonces_after) refl
