-- ===== src/Store/Passed.antt =====
-- app/main.py, app/verification_core.py: the row of an event that append_event lets in.
use Prim.Native.String.{String}
use text.Mathlib.TextEquality.{eq_iff}
use flop_proof_api.Base.{
  ℕ, ◌+◌, ◌≡◌, refl, sym, ap, ◌∙◌, inl, inr, true, false, List, [], ◌∷◌, Option, none, some,
  Bool-cases, Result-cases, arith, Result, ok, or_false, subst, length, ok_inj, ==_iff,
}
use flop_proof_api.Base.Sets.{contains}
use flop_proof_api.Host.{Host}
use flop_proof_api.Value.{Value, str, pos, obj, Fields, get, find, is_text, is_nat, text_or_null}
use flop_proof_api.Did.{verify_canonical_signature}
use flop_proof_api.Records.{last_of, link_of, sha256_json, hash_event_record, chain_head}
use flop_proof_api.Canonical.{build_event_canonical_v4}
use flop_proof_api.Canonical.RoundTrip.{build_event_v4_iff_parse}
use flop_proof_api.Authorization.{
  PriorEvent, authorize_event, check_single_result_created, request_created,
}
use flop_proof_api.Authorization.Rules.{request_created_refused}
use flop_proof_api.Formats.{v4, signed_nonce, signed_prior_head_v4}
use flop_proof_api.Verification.{
  Seen, check_event, chain_ok, canonical_ok, binding_ok, signature_ok, format_ok, replay_ok,
  prior_head_ok, authorization_of, not_false,
}
use flop_proof_api.Verification.Verdict.{check_holds}
use flop_proof_api.Store.{ProofEvent, exported, link_of_row, link_hash, link_fields, row_after}
use flop_proof_api.Store.Append.{
  EventCreate, check_signed, check_chain, require_allowed, last_links, same_head, new_event,
}
use flop_proof_api.Store.Order.{next-numbered}
use flop_proof_api.Store.Matches.{Matches, Previous, at_start, after}
use flop_proof_api.Store.Accepted.{signed_parts, chain_parts, required}

abbrev pub IsOther : EventCreate → Type 0
IsOther event = is_text (str event.event_type) request_created ≡ false

-- The API's own rule on request.created.
pub appended_type :
    (host : Host) (prior : List PriorEvent) (event : EventCreate)
    → require_allowed
        (authorize_event host prior event.actor_did (str event.event_type) (obj event.payload))
      ≡ ok tt
    → IsOther event
appended_type host prior event h =
    elim (Bool-cases (is_text (str event.event_type) request_created)) [
      | inr other ↦ other
      | inl request ↦
          let (refused, reason) =
            request_created_refused host prior event.actor_did (str event.event_type)
              (obj event.payload) request in
          elim (required
            (authorize_event host prior event.actor_did (str event.event_type) (obj event.payload))
            h) [ inl allowed ↦ cc | inr missing ↦ absurd (reason missing) ]
    ]

-- The link of an exported row is the row's own.
pub link-exported :
    (row : ProofEvent) (payload : Value) → link_of (exported row payload) ≡ some (link_of_row row)
unfolding link_of exported find
link-exported row payload = refl

-- The head of the last row is its link hash.
pub head-row :
    (host : Host) (proof_id : String) (row : ProofEvent)
    → chain_head host (link_fields row ∷ []) (str proof_id)
      ≡ ok (some (hash_event_record host (str proof_id) (link_of_row row)))
unfolding chain_head link_fields link_of find
head-row host proof_id row = refl

pub text_eq : (s : String) → is_text (str s) s ≡ true
unfolding is_text
text_eq s = (eq_iff s s).1 refl

module _ (host : Host) (json_loads : String → Result Value) (proof_id : String) where
  -- The row after the last one carries the link hash of the last one.
  pub linked :
      (last : Option ProofEvent) (previous : Option Fields)
      → Previous host json_loads proof_id last previous
      → chain_ok host (str proof_id) previous (text_or_null (link_hash host proof_id last)) ≡ true
  unfolding chain_ok
  linked _ _ at_start = refl
  linked _ _ (after row payload own) = rw (chain_ok, link-exported row payload, own) (text_eq _)

  -- The head that the API compares with is that link hash.
  pub headed :
      (last : Option ProofEvent) (previous : Option Fields) (head : String) (found : Option String)
      → Previous host json_loads proof_id last previous
      → chain_head host (last_links last) (str proof_id) ≡ ok found
      → same_head (some head) found ≡ true
      → (event : Fields) × (previous ≡ some event) × (link_hash host proof_id last ≡ some head)
  unfolding chain_head
  headed _ _ head found at_start h same = ground arith
  headed _ _ head found (after row payload own) h same =
      let hash = hash_event_record host (str proof_id) (link_of_row row) in
      let e : some hash ≡ found = ok_inj (sym (head-row host proof_id row) ∙ h) in
      let agrees : same_head (some head) (some hash) ≡ true = rw (sym e) at same in
      (
        exported row payload,
        refl,
        ap (λ p. some (hash_event_record host (str p) (link_of_row row))) own
            ∙ ap some (sym ((eq_iff head hash).0 agrees)),
      )

-- The signed fields of the message that the API has rebuilt are those that the verifier reads.
pub nonce_signed :
    (proof_id event_type hash nonce head canonical : String)
    → is_text (str event_type) request_created ≡ false
    → build_event_canonical_v4 (str proof_id) (str event_type) (str hash) (str nonce) (str head)
      ≡ ok canonical
    → (signed_nonce v4 (str event_type) (str canonical) ≡ some nonce)
      × (signed_prior_head_v4 (str canonical) ≡ some head)
unfolding signed_nonce signed_prior_head_v4
nonce_signed proof_id event_type hash nonce head canonical other build =
    let parsed = (build_event_v4_iff_parse proof_id event_type hash nonce head canonical).0 build in
    (ground (arith, parsed), ground (arith, parsed))

pub nat_eq : (n : ℕ) → is_nat (pos n) n ≡ true
unfolding is_nat
nat_eq n = (==_iff n n).1 refl

-- All that the verifier asks of one event.
pub check_built :
    (host : Host) (proof_id : String) (seen : Seen) (event : Fields)
    → is_nat (get "sequence" event) seen.expected_sequence ≡ true
    → chain_ok host (str proof_id) seen.previous_event (get "previous_event_hash" event) ≡ true
    → is_text (get "payload_hash" event) (sha256_json host (get "payload" event)) ≡ true
    → canonical_ok host (str proof_id) v4 event ≡ true
    → signature_ok host (str proof_id) event ≡ true
    → not_false (binding_ok host (str proof_id) v4 event) ≡ true
    → format_ok host (str proof_id) v4 event ≡ true
    → replay_ok host (str proof_id) v4 seen event ≡ true
    → not_false (prior_head_ok host (str proof_id) v4 seen event) ≡ true
    → (authorization_of host (str proof_id) seen event).1 ≡ none
    → check_holds (check_event host (str proof_id) v4 seen event) ≡ true
unfolding check_holds check_event
check_built host proof_id seen event a b c d e f g h i j = ground arith

pub row_signed :
    (host : Host) (proof_id : String) (row : ProofEvent) (payload : Value)
    → or_false (verify_canonical_signature host row.actor_did row.canonical row.signature) ≡ true
    → signature_ok host (str proof_id) (exported row payload) ≡ true
unfolding signature_ok exported get
row_signed host proof_id row payload h =
    elim (Result-cases
      (verify_canonical_signature host row.actor_did row.canonical row.signature)) [
        | inl (b, e) ↦ ground (arith, e)
        | inr (x, e) ↦ ground (arith, e)
      ]

module _ (host : Host) (json_loads : String → Result Value) (proof_id : String) where
  module _ (seen : Seen) (row : ProofEvent) (payload : Value)
      (other : is_text (str row.event_type) request_created ≡ false) where
    other_canonical :
        (head : String)
        → build_event_canonical_v4
            (str proof_id)
            (str row.event_type)
            (str row.payload_hash)
            (str row.nonce)
            (str head)
          ≡ ok row.canonical
        → signed_prior_head_v4 (str row.canonical) ≡ some head
        → canonical_ok host (str proof_id) v4 (exported row payload) ≡ true
    unfolding canonical_ok exported get
    other_canonical head build signed =
        rw (canonical_ok, other, signed, build) (text_eq row.canonical)

    other_format :
        signed_nonce v4 (str row.event_type) (str row.canonical) ≡ some row.nonce
        → format_ok host (str proof_id) v4 (exported row payload) ≡ true
    unfolding format_ok exported get
    other_format signed = rw (format_ok, signed) (text_eq row.nonce)

    other_replay :
        signed_nonce v4 (str row.event_type) (str row.canonical) ≡ some row.nonce
        → contains seen.seen_nonces row.nonce ≡ false
        → replay_ok host (str proof_id) v4 seen (exported row payload) ≡ true
    unfolding replay_ok exported get
    other_replay signed fresh = rw (replay_ok, signed, fresh) refl

    other_binding : not_false (binding_ok host (str proof_id) v4 (exported row payload)) ≡ true
    unfolding binding_ok exported get
    other_binding = rw (binding_ok, other) refl

    other_prior_head :
        (head : String) (previous : Fields)
        → seen.previous_event ≡ some previous
        → row.previous_event_hash ≡ some head
        → chain_ok host (str proof_id) seen.previous_event (text_or_null row.previous_event_hash)
          ≡ true
        → signed_prior_head_v4 (str row.canonical) ≡ some head
        → not_false (prior_head_ok host (str proof_id) v4 seen (exported row payload)) ≡ true
    unfolding prior_head_ok exported get
    other_prior_head head previous at hash link signed =
        let chained = rw (at, hash) at link in ground (arith, text_eq head)

    other_authorization :
        require_allowed (
            authorize_event host seen.authorization_prior row.actor_did
              (str row.event_type)
              payload)
          ≡ ok tt
        → check_single_result_created seen.authorization_prior (str row.event_type) ≡ none
        → (authorization_of host (str proof_id) seen (exported row payload)).1 ≡ none
    unfolding authorization_of exported get
    other_authorization allowed single =
        elim (required
          (authorize_event host seen.authorization_prior row.actor_did (str row.event_type) payload)
          allowed) [ inl granted ↦ ground (arith, single) | inr missing ↦ ground (arith, single) ]

  -- An event that passes the API's checks passes those of the verifier, as the next row.
  pub appended_holds :
      (rows : List ProofEvent) (events : List Fields) (seen : Seen) (event : EventCreate)
      (event_id now : String)
      → Matches host json_loads proof_id rows events seen
      → check_signed host proof_id "4" event ≡ ok tt
      → check_chain host json_loads proof_id (some v4) rows event ≡ ok tt
      → check_holds (
          check_event host (str proof_id) v4 seen (
            exported
              (row_after host (last_of rows) proof_id (new_event event) event_id now)
              (obj event.payload)))
        ≡ true
  unfolding row_after exported get signature_ok
  appended_holds rows events seen event event_id now m signed chained =
      let (head, there, build, verified) = signed_parts host proof_id event signed in
      let (prior, read, allowed, fresh, single, (found, at_head, same)) =
        chain_parts host json_loads proof_id rows event chained in
      let other = appended_type host prior event allowed in
      let (nonce, prior_head) =
        nonce_signed proof_id event.event_type _ event.nonce head event.canonical other build in
      let link = linked host json_loads proof_id (last_of rows) seen.previous_event m.previous in
      let (previous, is_previous, hash) =
        headed host json_loads proof_id (last_of rows) seen.previous_event head found m.previous
          at_head (subst (λ h. same_head h found ≡ true) there same) in
      let prior_same : prior ≡ seen.authorization_prior = ok_inj (sym read ∙ m.prior) in
      let row = row_after host (last_of rows) proof_id (new_event event) event_id now in
      let payload = obj event.payload in
      check_built host proof_id seen (exported row payload)
        (rw (m.expected, next-numbered rows m.numbered) (nat_eq (1 + length rows))) link (text_eq _)
        (other_canonical seen row payload other head build prior_head)
        (row_signed host proof_id row payload verified) (other_binding seen row payload other)
        (other_format seen row payload other nonce)
        (other_replay seen row payload other nonce (m.nonce event.nonce ∙ fresh))
        (other_prior_head seen row payload other head previous is_previous hash link prior_head)
        (other_authorization seen row payload other (rw prior_same at allowed)
          (rw prior_same at single))
