-- ===== src/Records/Links.antt =====
-- What the equality of two link hashes says of the events.
use Prim.Native.String.{String}
use text.Mathlib.Text.{◌==◌ as str_eq}
use text.Mathlib.TextEquality.{eq_iff}
use mathlib.Core.Bool.{false≢true}
use flop_proof_api.Base.{◌≡◌, ◌≢◌, sym, ◌∙◌, ◌⊎◌, inl, inr, Bool-cases}
use flop_proof_api.Base.Bytes.{utf8}
use flop_proof_api.Host.{Host}
use flop_proof_api.Value.{Value, str}
use flop_proof_api.Json.{dumps, quoted, ◌+++◌}
use flop_proof_api.Json.Reading.{append_assoc, append_cancel, quoted_inj}
use flop_proof_api.Records.{Link, link_object, hash_event_record, sha256_json, sha256_bytes}

-- One digest for two different texts.
pub record Clash (host : Host) (left right : String) : Type 0 where
  pub differ : left ≢ right
  pub same : sha256_bytes host (utf8 left) ≡ sha256_bytes host (utf8 right)

-- One digest for two texts: they are one text, or they clash.
pub same_digest :
    (host : Host) (s t : String)
    → sha256_bytes host (utf8 s) ≡ sha256_bytes host (utf8 t)
    → (s ≡ t) ⊎ Clash host s t
same_digest host s t h = elim (Bool-cases (str_eq s t)) [
  | inl same ↦ inl ((eq_iff s t).0 same)
  | inr other ↦ inr (record { differ = λ e. false≢true (sym other ∙ (eq_iff s t).1 e); same = h })
]

module _ (proof_id : Value) (link : Link) where
  -- The hashed text, from the actor and the canonical message on.
  rest_text : String
  rest_text =
      ",\"created_at\":"
      +++ (dumps link.created_at
          +++ (",\"event_id\":"
              +++ (dumps link.event_id
                  +++ (",\"event_type\":"
                      +++ (dumps link.event_type
                          +++ (",\"payload_hash\":"
                              +++ (dumps link.payload_hash
                                  +++ (",\"proof_id\":"
                                      +++ (dumps proof_id
                                          +++ (",\"sequence\":"
                                              +++ (dumps link.sequence
                                                  +++ (",\"signature\":"
                                                      +++ (dumps link.signature +++ "}")))))))))))))

  link_text :
      (actor canonical : String)
      → link.actor_did ≡ str actor
      → link.canonical ≡ str canonical
      → dumps (link_object proof_id link)
        ≡ "{\"actor_did\":"
          +++ (quoted actor +++ (",\"canonical\":" +++ (quoted canonical +++ rest_text)))
  unfolding dumps link_object rest_text
  link_text actor canonical ha hc = rw (ha, hc) (simp append_assoc)

-- Links with one hashed text have one actor and one canonical message.
pub link_object_inj :
    (proof_id : Value) (a c b d : String) (l m : Link)
    → l.actor_did ≡ str a
    → l.canonical ≡ str c
    → m.actor_did ≡ str b
    → m.canonical ≡ str d
    → dumps (link_object proof_id l) ≡ dumps (link_object proof_id m)
    → (a ≡ b) × (c ≡ d)
link_object_inj proof_id a c b d l m la lc ma mc h =
    let whole = sym (link_text proof_id l a c la lc) ∙ h ∙ link_text proof_id m b d ma mc in
    let (same_actor, rest) = quoted_inj a b _ _ (append_cancel "{\"actor_did\":" _ _ whole) in
    let (same_canonical, _) = quoted_inj c d _ _ (append_cancel ",\"canonical\":" _ _ rest) in
    (same_actor, same_canonical)

-- Two events whose link hashes are one have one actor, one canonical message and one hashed text,
-- unless their hashed texts clash.
pub same_link_hash :
    (host : Host) (proof_id : Value) (a c b d : String) (l m : Link)
    → l.actor_did ≡ str a
    → l.canonical ≡ str c
    → m.actor_did ≡ str b
    → m.canonical ≡ str d
    → hash_event_record host proof_id l ≡ hash_event_record host proof_id m
    → ((a ≡ b) × (c ≡ d) × (dumps (link_object proof_id l) ≡ dumps (link_object proof_id m)))
      ⊎ Clash host (dumps (link_object proof_id l)) (dumps (link_object proof_id m))
unfolding hash_event_record sha256_json
same_link_hash host proof_id a c b d l m la lc ma mc h =
    elim (same_digest host (dumps (link_object proof_id l)) (dumps (link_object proof_id m)) h) [
      | inr collision ↦ inr collision
      | inl same ↦
          let (x, y) = link_object_inj proof_id a c b d l m la lc ma mc same in inl (x, y, same)
    ]
