-- ===== src/Canonical/EventV4.antt =====
-- The version-4 event of app/canonical.py: its builder and its parser accept the same fields.
use Prim.Native.String.{String}
use flop_proof_api.Base.{◌≡◌, refl, ◌↔◌, false, List, [], ◌∷◌, arith, ok, >>=-eq-ok}
use flop_proof_api.Base.Strings.{join_bar}
use flop_proof_api.Value.{str, str_inj}
use flop_proof_api.Canonical.{
  check_field, check_proof_id, check_payload_hash, check_prior_head, split_tagged, event_tag_v4,
  event_fields_v4, build_event_canonical_v4, parse_event_canonical_v4,
}
use flop_proof_api.Canonical.Fields.{
  check_field-bars, check_proof_id-bars, check_payload_hash-bars, check_field-KeepsText,
  check_proof_id-KeepsText, check_payload_hash-KeepsText, check_prior_head-KeepsText,
  split_tagged-join_bar, split_tagged-eq-ok,
}

-- The fields that a version-4 event may carry.
pub record IsEvent (proof_id event_type payload_hash nonce prior_head : String) : Type 0 where
  pub at_proof_id : check_proof_id (str proof_id) ≡ ok proof_id
  pub at_type : check_field "event_type" (str event_type) false ≡ ok event_type
  pub at_hash : check_payload_hash (str payload_hash) ≡ ok payload_hash
  pub at_nonce : check_field "nonce" (str nonce) false ≡ ok nonce
  pub at_head : check_prior_head (str prior_head) ≡ ok prior_head

module _ (p t h n d : String) where
  fields_iff : (event_fields_v4 (p ∷ t ∷ h ∷ n ∷ d ∷ []) ≡ ok (p, t, h, n, d)) ↔ IsEvent p t h n d
  unfolding event_fields_v4
  fields_iff = ground (
    arith,
    check_proof_id-KeepsText p,
    check_field-KeepsText "event_type" false t,
    check_payload_hash-KeepsText h,
    check_field-KeepsText "nonce" false n,
    check_prior_head-KeepsText d,
  )

  fields-eq-ok :
      (fields : List String)
      → event_fields_v4 fields ≡ ok (p, t, h, n, d)
      → fields ≡ p ∷ t ∷ h ∷ n ∷ d ∷ []
  unfolding event_fields_v4
  fields-eq-ok (a ∷ b ∷ c ∷ e ∷ f ∷ []) k = ground (
    arith,
    check_proof_id-KeepsText a,
    check_field-KeepsText "event_type" false b,
    check_payload_hash-KeepsText c,
    check_field-KeepsText "nonce" false e,
    check_prior_head-KeepsText f,
  )
  fields-eq-ok _ k = cc

  pub build_iff :
      (c : String)
      → (build_event_canonical_v4 (str p) (str t) (str h) (str n) (str d) ≡ ok c)
        ↔ (IsEvent p t h n d × (c ≡ join_bar (event_tag_v4 ∷ p ∷ t ∷ h ∷ n ∷ d ∷ [])))
  unfolding build_event_canonical_v4
  build_iff c = ground (
    arith,
    check_proof_id-KeepsText p,
    check_field-KeepsText "event_type" false t,
    check_payload_hash-KeepsText h,
    check_field-KeepsText "nonce" false n,
    check_prior_head-KeepsText d,
  )

  pub parse_iff :
      (c : String)
      → (parse_event_canonical_v4 (str c) ≡ ok (p, t, h, n, d))
        ↔ (IsEvent p t h n d × (c ≡ join_bar (event_tag_v4 ∷ p ∷ t ∷ h ∷ n ∷ d ∷ [])))
  unfolding parse_event_canonical_v4
  parse_iff c = (
    λ e.
        let (fields, cut, checked) = >>=-eq-ok (split_tagged (str c) event_tag_v4 5) _ e in
        let joined = str_inj (split_tagged-eq-ok (str c) event_tag_v4 5 fields cut) in
        let whole = fields-eq-ok fields checked in
        (fields_iff.0 (rw whole at checked), rw whole at joined),
    λ (f, joined).
        rw
          (
            joined,
            split_tagged-join_bar event_tag_v4 (p ∷ t ∷ h ∷ n ∷ []) d refl (
              check_proof_id-bars p f.at_proof_id,
              (
                check_field-bars "event_type" t f.at_type,
                (check_payload_hash-bars h f.at_hash, (check_field-bars "nonce" n f.at_nonce, tt)),
              ),
            ),
          )
          (fields_iff.1 f),
  )
