-- ===== src/Verification/Binding.antt =====
-- app/verification_core.py and chain_head of app/crypto.py: the chain head of a valid proof.
use Prim.Native.String.{String}
use mathlib.Core.List.{reverse, reverse_aux, mem-reverse}
use mathlib.Mathlib.Data.List.Basic.{map-reverse_aux, reverse-Injective}
use flop_proof_api.Base.{
  Result, raise_if-eq-ok, ◌≡◌, refl, sym, ◌∙◌, ◌⊎◌, inl, inr, true, none, some, Option-cases, List,
  [], ◌∷◌, map, all, arith, ok, Result-cases, >>=-eq-ok,
}
use flop_proof_api.Base.Bytes.{Bytes}
use flop_proof_api.Host.{Host}
use flop_proof_api.Value.{Value, str, Fields, is_text}
use flop_proof_api.Records.{Link, link_of, hash_event_record, head_of, chain_head}
use flop_proof_api.Formats.{v4, version_of}
use flop_proof_api.Verification.{Seen, nothing_seen, check_event, check_events, seen_after}
use flop_proof_api.Verification.Verdict.{check_holds, Report, report_of, verify_proof_events}
use flop_proof_api.Verification.Facts.{
  check_parts, signature_texts, format_parses, prior_head_signed, first_is_request, later_is_other,
}
use flop_proof_api.Verification.Results.{no_outcome, outcome_of}
use flop_proof_api.Verification.History.{
  Signed, first, next, head_link, link_json, same_history, Collision,
}

map-reverse_inj {ℓ κ} :
    {A : Type ℓ} {B : Type κ} (f : A → B) (xs ys : List A)
    → map f (reverse_aux xs []) ≡ map f (reverse_aux ys [])
    → map f xs ≡ map f ys
map-reverse_inj {B = B} f xs ys h =
    reverse-Injective {α = B} (map f xs) (map f ys)
      (sym (map-reverse_aux f xs []) ∙ h ∙ map-reverse_aux f ys [])

module _ (host : Host) (proof_id : Value) where
  Signed-first :
      (seen : Seen) (event : Fields)
      → seen.previous_event ≡ none
      → check_holds (check_event host proof_id v4 seen event) ≡ true
      → Signed host proof_id (event ∷ [])
  Signed-first seen event p h =
      let (_, signature, format, _, prior, _) = check_parts host proof_id seen event h in
      let (a, c, ea, ec) = signature_texts host proof_id seen event signature in
      elim (format_parses host proof_id seen event c ec format) [
        | inl (_, request) ↦ first event a c ea ec request
        | inr (other, _) ↦ cc (first_is_request host proof_id seen event p prior)
      ]

  Signed-next :
      (seen : Seen) (event previous : Fields) (rest : List Fields)
      → seen.previous_event ≡ some previous
      → check_holds (check_event host proof_id v4 seen event) ≡ true
      → Signed host proof_id (previous ∷ rest)
      → Signed host proof_id (event ∷ (previous ∷ rest))
  Signed-next seen event previous rest p h signed =
      let (_, signature, format, _, prior, authorized) = check_parts host proof_id seen event h in
      let (a, c, ea, ec) = signature_texts host proof_id seen event signature in
      let other = later_is_other host proof_id seen event previous a p ea authorized in
      let (l, there, heads) =
        prior_head_signed host proof_id seen event previous c p ec other prior in
      elim (format_parses host proof_id seen event c ec format) [
        | inl (request, _) ↦ cc
        | inr (_, parsed) ↦ next event previous rest a c l ea ec parsed there heads signed
      ]

  seen_after-previous :
      (seen : Seen) (event : Fields)
      → (seen_after host proof_id v4 seen event).previous_event ≡ some event
  unfolding seen_after
  seen_after-previous seen event = refl

  Signed-rest :
      (seen : Seen) (es : List Fields) (previous : Fields) (rest : List Fields)
      → seen.previous_event ≡ some previous
      → all check_holds (check_events host proof_id v4 seen es) ≡ true
      → Signed host proof_id (previous ∷ rest)
      → Signed host proof_id (reverse_aux es (previous ∷ rest))
  unfolding check_events
  Signed-rest seen [] previous rest p h signed = signed
  Signed-rest seen (e ∷ es) previous rest p h signed =
      let now : check_holds (check_event host proof_id v4 seen e) ≡ true = ground arith in
      let later : all check_holds
            (check_events host proof_id v4 (seen_after host proof_id v4 seen e) es)
          ≡ true =
        ground arith in
      Signed-rest (seen_after host proof_id v4 seen e) es e (previous ∷ rest)
        (seen_after-previous seen e) later (Signed-next seen e previous rest p now signed)

  Signed-of_checks :
      (e : Fields) (es : List Fields)
      → all check_holds (check_events host proof_id v4 nothing_seen (e ∷ es)) ≡ true
      → Signed host proof_id (reverse (e ∷ es))
  unfolding check_events
  Signed-of_checks e es h =
      let now : check_holds (check_event host proof_id v4 nothing_seen e) ≡ true = ground arith in
      let later : all check_holds
            (check_events host proof_id v4 (seen_after host proof_id v4 nothing_seen e) es)
          ≡ true =
        ground arith in
      Signed-rest (seen_after host proof_id v4 nothing_seen e) es e []
        (seen_after-previous nothing_seen e) later (Signed-first nothing_seen e refl now)

module _ (host : Host) (read_file : Value → Result Bytes) (proof_id : Value) where
  report_parts :
      (events : List Fields) (r : Report) (head : String)
      → report_of host read_file proof_id v4 events ≡ ok r
      → r.valid ≡ true
      → r.chain_head ≡ some head
      → (all check_holds (check_events host proof_id v4 nothing_seen events) ≡ true)
        × (chain_head host events proof_id ≡ ok (some head))
  unfolding report_of
  report_parts events r head h valid found =
      let (_, _, built) =
        >>=-eq-ok (outcome_of host read_file no_outcome events) _ (raise_if-eq-ok _ _ _ h).1 in
      elim (Result-cases (chain_head host events proof_id)) [
        | inl (none, known) ↦ ground arith
        | inl (some k, known) ↦ ground arith
        | inr (e, known) ↦ ground arith
      ]

  accepted_parts :
      (events : List Fields) (r : Report) (head : String)
      → verify_proof_events host read_file proof_id events (str "4") ≡ ok r
      → r.valid ≡ true
      → r.chain_head ≡ some head
      → (e : Fields) × (es : List Fields) × (events ≡ e ∷ es)
        × (all check_holds (check_events host proof_id v4 nothing_seen (e ∷ es)) ≡ true)
        × (chain_head host (e ∷ es) proof_id ≡ ok (some head))
  unfolding verify_proof_events version_of is_text
  accepted_parts [] r head h valid found = ground arith
  accepted_parts (e ∷ es) r head h valid found =
      let (checks, chained) = report_parts (e ∷ es) r head h valid found in
      (e, es, refl, checks, chained)

  head_of_lem :
      (l : Link) (head : String)
      → head_of host proof_id l ≡ ok (some head)
      → hash_event_record host proof_id l ≡ head
  unfolding head_of
  head_of_lem l head h = ground arith

  head_link_aux :
      (e : Fields) (es acc : List Fields) (head : String)
      → chain_head host (e ∷ es) proof_id ≡ ok (some head)
      → (l : Link) × (head_link (reverse_aux (e ∷ es) acc) ≡ some l)
        × (hash_event_record host proof_id l ≡ head)
  unfolding chain_head
  head_link_aux e [] acc head h = elim (Option-cases (link_of e)) [
    | inl missing ↦ ground arith
    | inr (l, there) ↦ (l, there, head_of_lem l head (rw (there, chain_head) at h))
  ]
  head_link_aux e (f ∷ es) acc head h = head_link_aux f es (e ∷ acc) head h

  unreverse-Collision :
      (xs ys : List Fields)
      → Collision host
          (map (link_json proof_id) (reverse xs))
          (map (link_json proof_id) (reverse ys))
      → Collision host (map (link_json proof_id) xs) (map (link_json proof_id) ys)
  unreverse-Collision xs ys found = record {
    left = found.left;
    right = found.right;
    left_in =
        (mem-reverse {l = map (link_json proof_id) xs}).0
          (rw (← map-reverse_aux (link_json proof_id) xs []) found.left_in);
    right_in =
        (mem-reverse {l = map (link_json proof_id) ys}).0
          (rw (← map-reverse_aux (link_json proof_id) ys []) found.right_in);
    clash = found.clash;
  }

  -- Two exports of one version-4 proof that `verify_proof_events` reports as valid, with the same
  -- chain head, are of one length and have the same link texts at all positions, or a link text of
  -- the one and a link text of the other differ and have one SHA-256 digest.
  pub chain_head_binds_history :
      (events others : List Fields) (r t : Report) (head : String)
      → verify_proof_events host read_file proof_id events (str "4") ≡ ok r
      → verify_proof_events host read_file proof_id others (str "4") ≡ ok t
      → r.valid ≡ true
      → t.valid ≡ true
      → r.chain_head ≡ some head
      → t.chain_head ≡ some head
      → (map (link_json proof_id) events ≡ map (link_json proof_id) others)
        ⊎ Collision host (map (link_json proof_id) events) (map (link_json proof_id) others)
  chain_head_binds_history events others r t head hr ht vr vt cr ct =
      let (e, es, is_e, checks_e, chained_e) = accepted_parts events r head hr vr cr in
      let (f, fs, is_f, checks_f, chained_f) = accepted_parts others t head ht vt ct in
      let (l, there_e, hash_e) = head_link_aux e es [] head chained_e in
      let (m, there_f, hash_f) = head_link_aux f fs [] head chained_f in
      elim (same_history host proof_id (Signed-of_checks host proof_id e es checks_e)
        (Signed-of_checks host proof_id f fs checks_f) l m there_e there_f (hash_e ∙ sym hash_f)) [
          | inr collision ↦ inr (rw (is_e, is_f) (unreverse-Collision (e ∷ es) (f ∷ fs) collision))
          | inl same ↦
              inl (rw (is_e, is_f) (map-reverse_inj (link_json proof_id) (e ∷ es) (f ∷ fs) same))
        ]
