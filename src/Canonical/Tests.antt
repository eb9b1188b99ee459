-- ===== src/Canonical/Tests.antt =====
-- Runs of app/canonical.py, and the round trips at concrete messages.
use Prim.Native.String.{String}
use flop_proof_api.Base.{◌≡◌, refl, ◌↔◌, true, false, ok, err, value_error}
use flop_proof_api.Base.Strings.{split_bar, join_bar, has_prefix}
use flop_proof_api.Value.{str, pos}
use flop_proof_api.Canonical.{
  check_field, check_room, check_proof_id, check_payload_hash, check_prior_head, is_proof_id,
  is_payload_hash, split_tagged, request_fields, event_fields_v3, event_fields_v4, tag_prefix,
  build_event_canonical_v4, parse_event_canonical_v4, build_event_canonical_v3,
  parse_event_canonical_v3, build_request_canonical_v3, parse_request_canonical_v3,
  build_request_canonical_v4, parse_request_canonical_v4,
}
use flop_proof_api.Canonical.RoundTrip.{
  build_event_v4_iff_parse, build_event_v3_iff_parse, build_request_iff_parse,
}
use flop_proof_api.Canonical.Separation.{Kind, request_v4, parses, parses_unique}

abbrev sample_proof : String
sample_proof = "proof_0123456789abcdef0123456789abcdef"

abbrev sample_hash : String
sample_hash = "00112233445566778899aabbccddeeff00112233445566778899aabbccddeeff"

abbrev sample_event : String
sample_event =
    "FLOP/EVENT/v4|proof_0123456789abcdef0123456789abcdef|result.created|00112233445566778899aabbccddeeff00112233445566778899aabbccddeeff|n1|00112233445566778899aabbccddeeff00112233445566778899aabbccddeeff"

abbrev sample_event_v3 : String
sample_event_v3 =
    "FLOP/EVENT/v3|proof_0123456789abcdef0123456789abcdef|result.created|00112233445566778899aabbccddeeff00112233445566778899aabbccddeeff|n1"

-- Opening this opens the module for a test.
canonical : Unit {0}
unfolding check_field check_room check_proof_id check_payload_hash check_prior_head is_proof_id
    is_payload_hash split_tagged split_bar join_bar request_fields event_fields_v3 event_fields_v4
    build_event_canonical_v4 parse_event_canonical_v4 build_event_canonical_v3
    parse_event_canonical_v3 build_request_canonical_v3 parse_request_canonical_v3
    build_request_canonical_v4 parse_request_canonical_v4
canonical = tt

event_v4_run :
    build_event_canonical_v4
      (str sample_proof)
      (str "result.created")
      (str sample_hash)
      (str "n1")
      (str sample_hash)
    ≡ ok sample_event
unfolding canonical
event_v4_run = refl

request_run :
    parse_request_canonical_v4 (str "FLOP/REQUEST/v4|lobby|n1|a|b") ≡ ok ("lobby", "n1", "a|b")
unfolding canonical
request_run = refl

rejections :
    (check_room (str sample_proof) ≡ err (value_error "room: must not be a proof_id"))
    × (check_field "nonce" (pos 1) false ≡ err (value_error "nonce: must be a string"))
    × (check_field "nonce" (str "a|b") false ≡ err (value_error "nonce: must not contain '|'"))
    × (parse_request_canonical_v3 (str "FLOP/REQUEST/v4|lobby|n1|hi")
        ≡ err (value_error "canonical: tag must be FLOP/REQUEST/v3"))
unfolding canonical
rejections = (refl, refl, refl, refl)

build_event_v4_iff_parse_example :
    (build_event_canonical_v4
        (str sample_proof)
        (str "result.created")
        (str sample_hash)
        (str "n1")
        (str sample_hash)
      ≡ ok sample_event)
    ↔ (parse_event_canonical_v4 (str sample_event)
        ≡ ok (sample_proof, "result.created", sample_hash, "n1", sample_hash))
build_event_v4_iff_parse_example =
    build_event_v4_iff_parse sample_proof "result.created" sample_hash "n1" sample_hash sample_event

build_event_v3_iff_parse_example :
    (build_event_canonical_v3 (str sample_proof) (str "result.created") (str sample_hash) (str "n1")
      ≡ ok sample_event_v3)
    ↔ (parse_event_canonical_v3 (str sample_event_v3)
        ≡ ok (sample_proof, "result.created", sample_hash, "n1"))
build_event_v3_iff_parse_example =
    build_event_v3_iff_parse sample_proof "result.created" sample_hash "n1" sample_event_v3

build_request_iff_parse_example :
    ((build_request_canonical_v3 (str "lobby") (str "n1") (str "a|b")
        ≡ ok "FLOP/REQUEST/v4|lobby|n1|a|b")
      ↔ (parse_request_canonical_v3 (str "FLOP/REQUEST/v4|lobby|n1|a|b")
          ≡ ok ("lobby", "n1", "a|b")))
    × ((build_request_canonical_v4 (str "lobby") (str "n1") (str "a|b")
          ≡ ok "FLOP/REQUEST/v4|lobby|n1|a|b")
        ↔ (parse_request_canonical_v4 (str "FLOP/REQUEST/v4|lobby|n1|a|b")
            ≡ ok ("lobby", "n1", "a|b")))
build_request_iff_parse_example =
    build_request_iff_parse "lobby" "n1" "a|b" "FLOP/REQUEST/v4|lobby|n1|a|b"

sample_parses : parses request_v4 "FLOP/REQUEST/v4|lobby|n1|a|b" ≡ true
unfolding parses canonical
sample_parses = refl

parses_unique_example :
    (◌≡◌ {A = Kind} request_v4 request_v4)
    × (has_prefix tag_prefix "FLOP/REQUEST/v4|lobby|n1|a|b" ≡ true)
parses_unique_example =
    parses_unique request_v4 request_v4 "FLOP/REQUEST/v4|lobby|n1|a|b" sample_parses sample_parses
