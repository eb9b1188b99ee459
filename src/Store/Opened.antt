-- ===== src/Store/Opened.antt =====
-- app/main.py, app/verification_core.py: the first event of a proof that create_proof makes.
use Prim.Native.String.{String}
use text.Mathlib.TextEquality.{eq_iff}
use flop_proof_api.Base.{
  ◌≡◌, refl, ap, ◌∙◌, true, none, some, arith, ok, or_false, >>=-eq-ok, &&-eq-true,
}
use flop_proof_api.Base.Sets.{contains}
use flop_proof_api.Host.{Host}
use flop_proof_api.Value.{str, obj, Fields, get, get_in, is_text, same_value, truthy}
use flop_proof_api.Did.{verify_canonical_signature}
use flop_proof_api.Base.Strings.{split_bar, after_prefix}
use flop_proof_api.Canonical.{split_tagged, parse_request_canonical_v4}
use flop_proof_api.Authorization.{request_created}
use flop_proof_api.Formats.{v4, signed_nonce, request_binding_ok_v3}
use flop_proof_api.Verification.{
  nothing_seen, check_event, chain_ok, canonical_ok, binding_ok, format_ok, replay_ok,
  prior_head_ok, authorization_of, not_false,
}
use flop_proof_api.Verification.Verdict.{check_holds}
use flop_proof_api.Store.{ProofEvent, exported, row_after}
use flop_proof_api.Store.Append.{or_http, require_signature_encoding, require_ed25519_did}
use flop_proof_api.Store.Create.{
  Request, request_payload, opening_event, bad_canonical, check_request,
}
use flop_proof_api.Store.Accepted.{or_http-eq-ok, checks_passed, not-not, last_check}
use flop_proof_api.Store.Passed.{text_eq, nat_eq, row_signed, check_built}

module _ (host : Host) where
  -- What a request that passes the checks of create_proof signs.
  pub request_parts :
      (request : Request)
      → check_request host request ≡ ok tt
      → (room : String) × (parse_request_canonical_v4 (str request.canonical)
          ≡ ok (room, request.nonce, request.text))
        × (or_false (verify_canonical_signature host request.from_did request.canonical request.sig)
            ≡ true)
  unfolding check_request
  request_parts request h =
      let ((room, nonce, text), parsed, r1) =
        >>=-eq-ok (or_http 401 bad_canonical (parse_request_canonical_v4 (str request.canonical))) _
          h in
      let (_, r2) = checks_passed (require_signature_encoding request.sig) _ r1 in
      let (_, r3) = checks_passed (require_ed25519_did host request.from_did "from_did") _ r2 in
      let (texts, signed) = &&-eq-true _ _ (not-not _ (last_check _ _ r3)) in
      let (nonces, words) = &&-eq-true _ _ texts in
      let nonce_is : nonce ≡ request.nonce = (eq_iff nonce request.nonce).0 nonces in
      let text_is : text ≡ request.text = (eq_iff text request.text).0 words in
      (
        room,
        or_http-eq-ok 401 bad_canonical _ _ parsed
            ∙ ap (λ n. ok (room, n, text)) nonce_is
            ∙ ap (λ t. ok (room, request.nonce, t)) text_is,
        signed,
      )

parsed-truthy :
    (canonical : String) (fields : String × String × String)
    → parse_request_canonical_v4 (str canonical) ≡ ok fields
    → truthy (str canonical) ≡ true
unfolding truthy parse_request_canonical_v4 split_tagged split_bar after_prefix
parsed-truthy String.[] fields h = cc
parsed-truthy (String.◌∷◌ c cs) fields h = refl

pub same_text : (s : String) → same_value (str s) (str s) ≡ true
unfolding same_value is_text
same_text s = (eq_iff s s).1 refl

module _ (host : Host) (proof_id : String) (request : Request) (event_id now room : String)
    (parsed : parse_request_canonical_v4 (str request.canonical)
      ≡ ok (room, request.nonce, request.text)) where
  abbrev first_row : ProofEvent
  first_row = row_after host none proof_id (opening_event request) event_id now

  abbrev first_event : Fields
  unfolding row_after
  first_event = exported first_row (obj (request_payload request))

  pub first_nonce :
      signed_nonce v4 (str request_created) (str request.canonical) ≡ some request.nonce
  unfolding signed_nonce is_text
  first_nonce = ground (arith, parsed)

  first_canonical : canonical_ok host (str proof_id) v4 first_event ≡ true
  unfolding canonical_ok exported get get_in request_payload is_text row_after
  first_canonical =
      ground (arith, parsed-truthy request.canonical _ parsed, same_text request.canonical)

  first_format : format_ok host (str proof_id) v4 first_event ≡ true
  unfolding format_ok exported get row_after
  first_format = rw (format_ok, first_nonce) (text_eq request.nonce)

  first_replay : replay_ok host (str proof_id) v4 nothing_seen first_event ≡ true
  unfolding replay_ok exported get row_after contains
  first_replay = rw (replay_ok, first_nonce) refl

  first_binding : not_false (binding_ok host (str proof_id) v4 first_event) ≡ true
  unfolding binding_ok exported get get_in request_payload request_binding_ok_v3 row_after is_text
  first_binding = ground (
    arith,
    parsed,
    text_eq request.nonce,
    text_eq request.text,
    same_text request.sig,
    same_text request.from_did,
  )

  first_prior_head :
      not_false (prior_head_ok host (str proof_id) v4 nothing_seen first_event) ≡ true
  unfolding prior_head_ok exported get row_after is_text
  first_prior_head = refl

  first_authorization : (authorization_of host (str proof_id) nothing_seen first_event).1 ≡ none
  unfolding authorization_of exported get row_after is_text
  first_authorization = refl

-- The row of a request that passes the API's checks passes those of the verifier, as the first one.
pub opened_holds :
    (host : Host) (proof_id : String) (request : Request) (event_id now : String)
    → check_request host request ≡ ok tt
    → check_holds (
        check_event host (str proof_id) v4 nothing_seen (
          exported
            (row_after host none proof_id (opening_event request) event_id now)
            (obj (request_payload request))))
      ≡ true
unfolding exported row_after get chain_ok
opened_holds host proof_id request event_id now h =
    let (room, parsed, signed) = request_parts host request h in
    check_built host proof_id nothing_seen
      (first_event host proof_id request event_id now room parsed) (nat_eq 1) refl (text_eq _)
      (first_canonical host proof_id request event_id now room parsed)
      (row_signed host proof_id (first_row host proof_id request event_id now room parsed) _ signed)
      (first_binding host proof_id request event_id now room parsed)
      (first_format host proof_id request event_id now room parsed)
      (first_replay host proof_id request event_id now room parsed)
      (first_prior_head host proof_id request event_id now room parsed)
      (first_authorization host proof_id request event_id now room parsed)
