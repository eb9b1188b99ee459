-- ===== src/Store/Accepted.antt =====
-- app/main.py, app/verification_core.py: an event that append_event lets in passes the verifier.
use Prim.Native.String.{String}
use text.Mathlib.TextEquality.{eq_iff}
use flop_proof_api.Base.{
  ℕ, ◌≡◌, refl, sym, ap, ◌∙◌, ◌⊎◌, inl, inr, Bool, true, false, not, ◌||◌, List, Option, none, some,
  Option-cases, Bool-cases, arith, Result, ok, err, Exn, raise_if, ◌>>◌, or_false, >>=-eq-ok,
  raise_if-eq-ok,
}
use flop_proof_api.Host.{Host}
use flop_proof_api.Value.{Value, str, obj, is_text}
use flop_proof_api.Did.{verify_canonical_signature}
use flop_proof_api.Records.{last_of, sha256_json, chain_head}
use flop_proof_api.Canonical.{build_event_canonical_v4}
use flop_proof_api.Authorization.{
  PriorEvent, Reason, AuthorizationDecision, authorize_event, check_single_result_created,
}
use flop_proof_api.Formats.{v4, version_of}
use flop_proof_api.Store.{ProofEvent, prior_events}
use flop_proof_api.Store.Append.{
  EventCreate, or_http, field_error, expected_canonical, require_signature_encoding,
  require_ed25519_did, check_signed, check_chain, require_allowed, raise_reason, last_links,
  same_head, stored_nonce,
}

pub or_http-eq-ok {ℓ} :
    {A : Type ℓ} (status : ℕ) (detail : String → String) (call : Result A) (a : A)
    → or_http status detail call ≡ ok a
    → call ≡ ok a
or_http-eq-ok status detail (ok b) a h = h
or_http-eq-ok status detail (err e) a h = cc

expected_head :
    (proof_id version : String) (event : EventCreate) (hash canonical : String)
    → expected_canonical proof_id (some v4) version event hash ≡ ok canonical
    → (head : String) × (event.prior_head ≡ some head)
      × (build_event_canonical_v4
            (str proof_id)
            (str event.event_type)
            (str hash)
            (str event.nonce)
            (str head)
          ≡ ok canonical)
unfolding expected_canonical
expected_head proof_id version event hash canonical h = elim (Option-cases event.prior_head) [
  | inl missing ↦ ground arith
  | inr (head, there) ↦
      (head, there, or_http-eq-ok 400 field_error _ canonical (rw (there, expected_canonical) at h))
]

pub checks_passed {ℓ} :
    {A : Type ℓ} (check : Result (Unit {0})) (rest : Result A) {a : A}
    → (check >> rest) ≡ ok a
    → (check ≡ ok tt) × (rest ≡ ok a)
checks_passed (ok tt) rest h = (refl, h)
checks_passed (err e) rest h = cc

pub not-not : (b : Bool) → not b ≡ false → b ≡ true
not-not true h = refl
not-not false h = cc

not_or : (a b : Bool) → (not a || b) ≡ false → a ≡ true
not_or true b h = refl
not_or false b h = cc

pub last_check : (bad : Bool) (e : Exn) → raise_if bad e ≡ ok tt → bad ≡ false
last_check false e h = refl
last_check true e h = cc

module _ (host : Host) where
  -- What a version-4 event that passes the checks of its own signs.
  pub signed_parts :
      (proof_id : String) (event : EventCreate)
      → check_signed host proof_id "4" event ≡ ok tt
      → (head : String) × (event.prior_head ≡ some head)
        × (build_event_canonical_v4
              (str proof_id)
              (str event.event_type)
              (str (sha256_json host (obj event.payload)))
              (str event.nonce)
              (str head)
            ≡ ok event.canonical)
        × (or_false (verify_canonical_signature host event.actor_did event.canonical event.sig)
            ≡ true)
  unfolding check_signed version_of is_text
  signed_parts proof_id event h =
      let (expected, built, r1) =
        >>=-eq-ok
          (expected_canonical proof_id (some v4) "4" event (sha256_json host (obj event.payload))) _
          h in
      let (mismatch, r2) = raise_if-eq-ok _ _ _ r1 in
      let (head, there, build) = expected_head proof_id "4" event _ expected built in
      let (_, r2b) = checks_passed (require_signature_encoding event.sig) _ r2 in
      let (_, r3) = checks_passed (require_ed25519_did host event.actor_did "actor_did") _ r2b in
      let same : event.canonical ≡ expected =
        (eq_iff event.canonical expected).0 (not_or _ _ mismatch) in
      let signed = not-not _ (last_check _ _ r3) in (head, there, build ∙ ap ok (sym same), signed)

-- A decision that does not allow, and that is let through, has no reason.
pub required :
    (decision : AuthorizationDecision)
    → require_allowed decision ≡ ok tt
    → (decision.allowed ≡ true) ⊎ (decision.reason ≡ none)
required decision h = elim (Bool-cases decision.allowed) [
  | inl allowed ↦ inl allowed
  | inr refused ↦ elim (Option-cases decision.reason) [
    | inl missing ↦ inr missing
    | inr (reason, there) ↦ ground arith
  ]
]

no_reason : (reason : Option Reason) → raise_reason reason ≡ ok tt → reason ≡ none
no_reason none h = refl
no_reason (some reason) h = cc

module _ (host : Host) (json_loads : String → Result Value) where
  -- What the checks against the chain say of a version-4 event that passes them.
  pub chain_parts :
      (proof_id : String) (rows : List ProofEvent) (event : EventCreate)
      → check_chain host json_loads proof_id (some v4) rows event ≡ ok tt
      → (prior : List PriorEvent) × (prior_events json_loads rows ≡ ok prior)
        × (require_allowed (
              authorize_event host prior event.actor_did (str event.event_type) (obj event.payload))
            ≡ ok tt)
        × (stored_nonce event.nonce rows ≡ false)
        × (check_single_result_created prior (str event.event_type) ≡ none)
        × ((head : Option String) × (chain_head host (last_links (last_of rows)) (str proof_id)
              ≡ ok head)
            × (same_head event.prior_head head ≡ true))
  unfolding check_chain
  chain_parts proof_id rows event h =
      let (prior, read, r1) = >>=-eq-ok (prior_events json_loads rows) _ h in
      let (allowed, r2) =
        checks_passed
          (require_allowed
            (authorize_event host prior event.actor_did (str event.event_type) (obj event.payload)))
          _ r1 in
      let (fresh, r3) = raise_if-eq-ok _ _ _ r2 in
      let (single, r4) =
        checks_passed (raise_reason (check_single_result_created prior (str event.event_type))) _
          r3 in
      let (head, found, r5) =
        >>=-eq-ok (chain_head host (last_links (last_of rows)) (str proof_id)) _ r4 in
      (
        prior,
        read,
        allowed,
        fresh,
        no_reason _ single,
        (head, found, not-not _ (last_check _ _ r5)),
      )
