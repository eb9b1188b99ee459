-- ===== src/Store/Matches.antt =====
-- app/verification_core.py against app/main.py: stored rows whose export the verifier accepts.
use Prim.Native.String.{String}
use text.Mathlib.Text.{◌==◌ as str_eq}
use text.Mathlib.TextEquality.{eq_iff}
use flop_proof_api.Base.{
  ◌+◌, ◌≡◌, refl, sym, ap, ◌∙◌, true, ◌||◌, List, [], ◌∷◌, ◌++◌, Option, none, some, all, arith,
  Result, ok, length, length-append, subst,
}
use flop_proof_api.Base.Sets.{contains, contains-add}
use flop_proof_api.Host.{Host}
use flop_proof_api.Value.{str, Value, Fields, get, find, is_text}
use flop_proof_api.Records.{last_of}
use flop_proof_api.Formats.{v4, signed_nonce}
use flop_proof_api.Verification.{
  Seen, nothing_seen, check_event, check_events, seen_after, format_ok,
}
use flop_proof_api.Verification.Verdict.{check_holds}
use flop_proof_api.Verification.Facts.{check_parts, format_nonce}
use flop_proof_api.Store.{ProofEvent, next_sequence, exported, export_events, prior_events}
use flop_proof_api.Store.Append.{stored_nonce}
use flop_proof_api.Store.Order.{last-append, is_numbered, numbered-append, next-numbered}
use flop_proof_api.Store.Matching.{
  export-append, prior-append, stored_nonce-append, seen_over, seen_over-append, checks-append,
  authority, nonces,
}

module _ (host : Host) (json_loads : String → Result Value) (proof_id : String) where
  -- The last row of the chain is the previous event of the loop.
  pub data Previous : Option ProofEvent → Option Fields → Type 0 where
    at_start : Previous none none
    after :
        (row : ProofEvent) (payload : Value)
        → row.proof_id ≡ proof_id
        → Previous (some row) (some (exported row payload))

  -- The export of the rows passes all checks, and the loop has seen what the table holds.
  pub record Matches (rows : List ProofEvent) (events : List Fields) (seen : Seen) : Type 0 where
    pub read : export_events json_loads rows ≡ ok events
    pub seen_is : seen ≡ seen_over host proof_id nothing_seen events
    pub holds : all check_holds (check_events host (str proof_id) v4 nothing_seen events) ≡ true
    pub numbered : is_numbered 1 rows ≡ true
    pub expected : seen.expected_sequence ≡ 1 + length rows
    pub previous : Previous (last_of rows) seen.previous_event
    pub prior : prior_events json_loads rows ≡ ok seen.authorization_prior
    pub nonce : (n : String) → contains seen.seen_nonces n ≡ stored_nonce n rows

  pub nothing-Matches : Matches [] [] nothing_seen
  unfolding export_events check_events is_numbered prior_events contains
  nothing-Matches = record {
    read = refl;
    seen_is = refl;
    holds = refl;
    numbered = refl;
    expected = refl;
    previous = at_start;
    prior = refl;
    nonce = λ n. refl;
  }

  -- The nonce that a checked row signs is the one in its column.
  row_nonce :
      (seen : Seen) (row : ProofEvent) (payload : Value)
      → check_holds (check_event host (str proof_id) v4 seen (exported row payload)) ≡ true
      → signed_nonce v4 (get "type" (exported row payload)) (get "canonical" (exported row payload))
        ≡ some row.nonce
  unfolding exported get find is_text format_ok
  row_nonce seen row payload h =
      let (_, _, format, _, _, _) = check_parts host (str proof_id) seen (exported row payload) h in
      let (n, signed) = format_nonce host (str proof_id) seen (exported row payload) format in
      let same : row.nonce ≡ n = (eq_iff row.nonce n).0 (ground arith) in
      signed ∙ ap some (sym same)

  -- A row that passes its check is added to the rows.
  pub extend :
      (rows : List ProofEvent) (events : List Fields) (seen : Seen) (row : ProofEvent)
      (payload : Value)
      → Matches rows events seen
      → json_loads row.payload_json ≡ ok payload
      → row.proof_id ≡ proof_id
      → row.sequence ≡ next_sequence (last_of rows)
      → check_holds (check_event host (str proof_id) v4 seen (exported row payload)) ≡ true
      → Matches
          (rows ++ row ∷ [])
          (events ++ exported row payload ∷ [])
          (seen_after host (str proof_id) v4 seen (exported row payload))
  unfolding seen_after exported get find
  extend rows events seen row payload m read own sequence check = record {
    read = export-append json_loads rows row payload m.read read;
    seen_is =
        ap (λ s. seen_after host (str proof_id) v4 s (exported row payload)) m.seen_is
        ∙ sym (seen_over-append host proof_id nothing_seen events (exported row payload));
    holds = checks-append host proof_id nothing_seen events (exported row payload) m.holds (
        subst
          (λ s. check_holds (check_event host (str proof_id) v4 s (exported row payload)) ≡ true)
          m.seen_is check);
    numbered = numbered-append 1 rows row m.numbered (sequence ∙ next-numbered rows m.numbered);
    expected = ap (λ n. n + 1) m.expected ∙ omega (arith, length-append rows (row ∷ []));
    previous =
        subst (λ last. Previous last (some (exported row payload))) (sym (last-append rows row))
          (after row payload own);
    prior =
        prior-append json_loads rows row payload m.prior read
        ∙ ap ok (sym (authority host proof_id seen (exported row payload) check));
    nonce = λ n.
        ap (λ s. contains s n)
          (nonces host proof_id seen (exported row payload) row.nonce
            (row_nonce seen row payload check))
        ∙ contains-add seen.seen_nonces row.nonce n
        ∙ ap (λ b. b || str_eq row.nonce n) (m.nonce n)
        ∙ sym (stored_nonce-append n rows row);
  }
