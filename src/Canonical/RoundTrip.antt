-- ===== src/Canonical/RoundTrip.antt =====
-- What app/canonical.py builds is what it parses: a message and its fields determine one another.
use Prim.Native.String.{String}
use flop_proof_api.Base.{◌≡◌, ◌↔◌, ok}
use flop_proof_api.Value.{str}
use flop_proof_api.Canonical.{
  build_event_canonical_v4, parse_event_canonical_v4, build_event_canonical_v3,
  parse_event_canonical_v3, build_request_canonical_v3, parse_request_canonical_v3,
  build_request_canonical_v4, parse_request_canonical_v4,
}
use flop_proof_api.Canonical.EventV4
use flop_proof_api.Canonical.EventV3
use flop_proof_api.Canonical.Requests

-- Five texts build a version-4 event message exactly when that message parses into them.
pub build_event_v4_iff_parse :
    (p t h n d c : String)
    → (build_event_canonical_v4 (str p) (str t) (str h) (str n) (str d) ≡ ok c)
      ↔ (parse_event_canonical_v4 (str c) ≡ ok (p, t, h, n, d))
build_event_v4_iff_parse p t h n d c =
    let build = EventV4.build_iff p t h n d c in
    let parse = EventV4.parse_iff p t h n d c in
    (λ e. parse.1 (build.0 e), λ e. build.1 (parse.0 e))

-- Four texts build a version-3 event message exactly when that message parses into them.
pub build_event_v3_iff_parse :
    (p t h n c : String)
    → (build_event_canonical_v3 (str p) (str t) (str h) (str n) ≡ ok c)
      ↔ (parse_event_canonical_v3 (str c) ≡ ok (p, t, h, n))
build_event_v3_iff_parse p t h n c =
    let build = EventV3.build_iff p t h n c in
    let parse = EventV3.parse_iff p t h n c in (λ e. parse.1 (build.0 e), λ e. build.1 (parse.0 e))

-- Three texts, the last of which may hold bars, build a request message of version 3 exactly when
-- that message parses into them, and likewise for version 4.
pub build_request_iff_parse :
    (r n t c : String)
    → ((build_request_canonical_v3 (str r) (str n) (str t) ≡ ok c)
        ↔ (parse_request_canonical_v3 (str c) ≡ ok (r, n, t)))
      × ((build_request_canonical_v4 (str r) (str n) (str t) ≡ ok c)
          ↔ (parse_request_canonical_v4 (str c) ≡ ok (r, n, t)))
build_request_iff_parse r n t c =
    let b3 = Requests.build_v3_iff r n t c in
    let p3 = Requests.parse_v3_iff r n t c in
    let b4 = Requests.build_v4_iff r n t c in
    let p4 = Requests.parse_v4_iff r n t c in
    ((λ e. p3.1 (b3.0 e), λ e. b3.1 (p3.0 e)), (λ e. p4.1 (b4.0 e), λ e. b4.1 (p4.0 e)))
