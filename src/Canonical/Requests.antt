-- ===== src/Canonical/Requests.antt =====
-- The requests of app/canonical.py, for either tag: builder and parser accept the same fields.
use Prim.Native.String.{String}
use flop_proof_api.Base.{◌≡◌, refl, ◌↔◌, false, true, List, [], ◌∷◌, arith, ok, >>=-eq-ok, ◌>>=◌}
use flop_proof_api.Base.Strings.{join_bar, has_char, is_bar}
use flop_proof_api.Value.{str, str_inj}
use flop_proof_api.Canonical.{
  check_field, check_room, split_tagged, request_tag, request_tag_v4, request_fields,
  build_request_canonical_v3, parse_request_canonical_v3, build_request_canonical_v4,
  parse_request_canonical_v4,
}
use flop_proof_api.Canonical.Fields.{
  check_field-bars, check_room-bars, check_room-KeepsText, check_field-KeepsText,
  split_tagged-join_bar, split_tagged-eq-ok,
}

-- The fields that a request may carry.
pub record IsRequest (room nonce text : String) : Type 0 where
  pub at_room : check_room (str room) ≡ ok room
  pub at_nonce : check_field "nonce" (str nonce) false ≡ ok nonce
  pub at_text : check_field "text" (str text) true ≡ ok text

module _ (r n t : String) where
  fields_iff : (request_fields (r ∷ n ∷ t ∷ []) ≡ ok (r, n, t)) ↔ IsRequest r n t
  unfolding request_fields
  fields_iff = ground (
    arith,
    check_room-KeepsText r,
    check_field-KeepsText "nonce" false n,
    check_field-KeepsText "text" true t,
  )

  fields-eq-ok :
      (fields : List String) → request_fields fields ≡ ok (r, n, t) → fields ≡ r ∷ n ∷ t ∷ []
  unfolding request_fields
  fields-eq-ok (a ∷ b ∷ c ∷ []) k = ground (
    arith,
    check_room-KeepsText a,
    check_field-KeepsText "nonce" false b,
    check_field-KeepsText "text" true c,
  )
  fields-eq-ok _ k = cc

  split_iff :
      (tag c : String)
      → has_char is_bar tag ≡ false
      → ((split_tagged (str c) tag 3 >>= request_fields) ≡ ok (r, n, t))
        ↔ (IsRequest r n t × (c ≡ join_bar (tag ∷ r ∷ n ∷ t ∷ [])))
  split_iff tag c plain = (
    λ e.
        let (fields, cut, checked) = >>=-eq-ok (split_tagged (str c) tag 3) _ e in
        let joined = str_inj (split_tagged-eq-ok (str c) tag 3 fields cut) in
        let whole = fields-eq-ok fields checked in
        (fields_iff.0 (rw whole at checked), rw whole at joined),
    λ (f, joined).
        rw
          (
            joined,
            split_tagged-join_bar tag (r ∷ n ∷ []) t plain
                (check_room-bars r f.at_room, (check_field-bars "nonce" n f.at_nonce, tt)),
          )
          (fields_iff.1 f),
  )

  pub build_v3_iff :
      (c : String)
      → (build_request_canonical_v3 (str r) (str n) (str t) ≡ ok c)
        ↔ (IsRequest r n t × (c ≡ join_bar (request_tag ∷ r ∷ n ∷ t ∷ [])))
  unfolding build_request_canonical_v3
  build_v3_iff c = ground (
    arith,
    check_room-KeepsText r,
    check_field-KeepsText "nonce" false n,
    check_field-KeepsText "text" true t,
  )

  pub build_v4_iff :
      (c : String)
      → (build_request_canonical_v4 (str r) (str n) (str t) ≡ ok c)
        ↔ (IsRequest r n t × (c ≡ join_bar (request_tag_v4 ∷ r ∷ n ∷ t ∷ [])))
  unfolding build_request_canonical_v4
  build_v4_iff c = ground (
    arith,
    check_room-KeepsText r,
    check_field-KeepsText "nonce" false n,
    check_field-KeepsText "text" true t,
  )

  pub parse_v3_iff :
      (c : String)
      → (parse_request_canonical_v3 (str c) ≡ ok (r, n, t))
        ↔ (IsRequest r n t × (c ≡ join_bar (request_tag ∷ r ∷ n ∷ t ∷ [])))
  unfolding parse_request_canonical_v3
  parse_v3_iff c = split_iff request_tag c refl

  pub parse_v4_iff :
      (c : String)
      → (parse_request_canonical_v4 (str c) ≡ ok (r, n, t))
        ↔ (IsRequest r n t × (c ≡ join_bar (request_tag_v4 ∷ r ∷ n ∷ t ∷ [])))
  unfolding parse_request_canonical_v4
  parse_v4_iff c = split_iff request_tag_v4 c refl
