-- ===== src/Verification/Facts.antt =====
-- What one passed check of a version-4 event says of the event.
use Prim.Native.String.{String}
use flop_proof_api.Base.{
  ◌≡◌, refl, sym, ap, ◌∙◌, ◌⊎◌, inl, inr, true, false, none, some, Option-cases, Bool-cases, arith,
}
use text.Mathlib.TextEquality.{eq_iff}
use flop_proof_api.Host.{Host}
use flop_proof_api.Value.{Value, null, str, Fields, get, str_inj, is_text}
use flop_proof_api.Records.{Link, link_of, hash_event_record}
use flop_proof_api.Canonical.Separation.{parses, request_v4, event_v4}
use flop_proof_api.Authorization.{request_created}
use flop_proof_api.Authorization.Rules.{request_created_refused}
use flop_proof_api.Formats.{v4, signed_prior_head_v4, signed_nonce}
use flop_proof_api.Verification.{
  Seen, is_signed, check_event, chain_ok, signature_ok, format_ok, replay_ok, prior_head_ok,
  authorization_of, not_false,
}
use flop_proof_api.Verification.Verdict.{check_holds}

-- A value that was compared with a text and found equal is that text.
pub is_text-eq : (v : Value) (s : String) → is_text v s ≡ true → v ≡ str s
unfolding is_text
is_text-eq (str t) s h = ap str ((eq_iff t s).0 h)
is_text-eq null s h = cc
is_text-eq _ s h = cc

module _ (host : Host) (proof_id : Value) (seen : Seen) (event : Fields) where
  pub check_parts :
      check_holds (check_event host proof_id v4 seen event) ≡ true
      → (chain_ok host proof_id seen.previous_event (get "previous_event_hash" event) ≡ true)
        × (signature_ok host proof_id event ≡ true)
        × (format_ok host proof_id v4 event ≡ true)
        × (replay_ok host proof_id v4 seen event ≡ true)
        × (not_false (prior_head_ok host proof_id v4 seen event) ≡ true)
        × ((authorization_of host proof_id seen event).1 ≡ none)
  unfolding check_holds check_event
  check_parts h = ground arith

  signed_texts :
      (actor canonical signature : Value)
      → is_signed host proof_id actor canonical signature ≡ true
      → (a : String) × (c : String) × (actor ≡ str a) × (canonical ≡ str c)
  signed_texts (str a) (str c) (str s) h = (a, c, refl, refl)
  signed_texts _ _ _ h = cc

  pub signature_texts :
      signature_ok host proof_id event ≡ true
      → (a : String) × (c : String) × (get "actor_did" event ≡ str a)
        × (get "canonical" event ≡ str c)
  unfolding signature_ok
  signature_texts h = signed_texts _ _ _ h

  pub format_nonce :
      format_ok host proof_id v4 event ≡ true
      → (n : String) × (signed_nonce v4 (get "type" event) (get "canonical" event) ≡ some n)
  unfolding format_ok
  format_nonce h =
      elim (Option-cases (signed_nonce v4 (get "type" event) (get "canonical" event))) [
        | inl missing ↦ ground arith
        | inr found ↦ found
      ]

  -- A request.created event carries a version-4 request, any other one a version-4 event.
  pub format_parses :
      (c : String)
      → get "canonical" event ≡ str c
      → format_ok host proof_id v4 event ≡ true
      → ((is_text (get "type" event) request_created ≡ true) × (parses request_v4 c ≡ true))
        ⊎ ((is_text (get "type" event) request_created ≡ false) × (parses event_v4 c ≡ true))
  unfolding signed_nonce parses
  format_parses c e h =
      let (n, found) = format_nonce h in
      let k = rw e at found in
      elim (Bool-cases (is_text (get "type" event) request_created)) [
        | inl request ↦ inl (request, ground arith)
        | inr other ↦ inr (other, ground arith)
      ]

  chain_link :
      (previous : Fields) (v : Value)
      → chain_ok host proof_id (some previous) v ≡ true
      → (l : Link) × (link_of previous ≡ some l) × (v ≡ str (hash_event_record host proof_id l))
  unfolding chain_ok
  chain_link previous v h = elim (Option-cases (link_of previous)) [
    | inl missing ↦ ground arith
    | inr (l, there) ↦ (l, there, is_text-eq v _ (ground arith))
  ]

  prior_head_parts :
      (previous : Fields)
      → seen.previous_event ≡ some previous
      → is_text (get "type" event) request_created ≡ false
      → not_false (prior_head_ok host proof_id v4 seen event) ≡ true
      → (chain_ok host proof_id (some previous) (get "previous_event_hash" event) ≡ true)
        × ((head : String) × (signed_prior_head_v4 (get "canonical" event) ≡ some head)
            × (is_text (get "previous_event_hash" event) head ≡ true))
  unfolding prior_head_ok
  prior_head_parts previous p other h =
      elim (Option-cases (signed_prior_head_v4 (get "canonical" event))) [
        | inl missing ↦ ground arith
        | inr (head, there) ↦ (ground arith, (head, there, ground arith))
      ]

  -- An event after the first that is no request.created signs the link hash of the one before it.
  pub prior_head_signed :
      (previous : Fields) (c : String)
      → seen.previous_event ≡ some previous
      → get "canonical" event ≡ str c
      → is_text (get "type" event) request_created ≡ false
      → not_false (prior_head_ok host proof_id v4 seen event) ≡ true
      → (l : Link) × (link_of previous ≡ some l)
        × (signed_prior_head_v4 (str c) ≡ some (hash_event_record host proof_id l))
  prior_head_signed previous c p e other h =
      let (chained, (head, signed, same)) = prior_head_parts previous p other h in
      let (l, there, hash) = chain_link previous _ chained in
      let heads = str_inj (sym (is_text-eq _ head same) ∙ hash) in
      (l, there, (rw e at signed) ∙ ap some heads)

  -- The first event of a version-4 proof is a request.created event.
  pub first_is_request :
      seen.previous_event ≡ none
      → not_false (prior_head_ok host proof_id v4 seen event) ≡ true
      → is_text (get "type" event) request_created ≡ true
  unfolding prior_head_ok
  first_is_request p h = ground arith

  -- Only the first event is a request.created event.
  pub later_is_other :
      (previous : Fields) (actor : String)
      → seen.previous_event ≡ some previous
      → get "actor_did" event ≡ str actor
      → (authorization_of host proof_id seen event).1 ≡ none
      → is_text (get "type" event) request_created ≡ false
  unfolding authorization_of
  later_is_other previous actor p e h =
      elim (Bool-cases (is_text (get "type" event) request_created)) [
        | inr other ↦ other
        | inl request ↦
            let (refused, reason) =
              request_created_refused host seen.authorization_prior actor (get "type" event)
                (get "payload" event) request in
            ground (arith, refused, reason)
      ]
