-- ===== src/Verification/Nonces.antt =====
-- app/verification_core.py: the signed nonces of a valid proof.
use Prim.Native.String.{String}
use mathlib.Core.Option.{some-injective}
use text.Mathlib.TextEquality.{eq_iff}
use flop_proof_api.Base.{
  Result, raise_if-eq-ok, sym, ◌∙◌, ◌≢◌, ap, ℕ, zero, suc, ◌<◌, ◌≡◌, refl, true, false, List, [],
  ◌∷◌, Option, none, some, Option-cases, all, get_elem?, arith, ok, >>=-eq-ok, inl, inr,
}
use flop_proof_api.Base.Sets.{contains, add, contains-add}
use flop_proof_api.Base.Bytes.{Bytes}
use flop_proof_api.Host.{Host}
use flop_proof_api.Value.{Value, Fields, get}
use flop_proof_api.Formats.{Version, legacy, v3, v4, version_of, signed_nonce}
use flop_proof_api.Verification.{
  Seen, nothing_seen, check_event, check_events, seen_after, replay_ok, nonces_after,
}
use flop_proof_api.Verification.Results.{no_outcome, outcome_of}
use flop_proof_api.Verification.Verdict.{check_holds, Report, report_of, verify_proof_events}

-- The nonce that an event of a proof of this version signs.
abbrev pub nonce_of : Version → Fields → Option String
nonce_of version event = signed_nonce version (get "type" event) (get "canonical" event)

legacy_nonce : (event : Fields) (n : String) → nonce_of legacy event ≡ some n → ⊥
unfolding signed_nonce
legacy_nonce event n h = cc

module _ (host : Host) (proof_id : Value) where
  check_replay :
      (version : Version) (seen : Seen) (event : Fields)
      → check_holds (check_event host proof_id version seen event) ≡ true
      → replay_ok host proof_id version seen event ≡ true
  unfolding check_holds check_event
  check_replay version seen event h = ground arith

  fresh_nonce :
      (version : Version) (seen : Seen) (event : Fields) (n : String)
      → replay_ok host proof_id version seen event ≡ true
      → nonce_of version event ≡ some n
      → contains seen.seen_nonces n ≡ false
  unfolding replay_ok
  fresh_nonce legacy seen event n h k = absurd (legacy_nonce event n k)
  fresh_nonce v3 seen event n h k = ground arith
  fresh_nonce v4 seen event n h k = ground arith

  no_nonce :
      (version : Version) (seen : Seen) (event : Fields)
      → nonce_of version event ≡ none
      → (seen_after host proof_id version seen event).seen_nonces ≡ seen.seen_nonces
  unfolding seen_after nonces_after
  no_nonce version seen event h = rw (h, seen_after, nonces_after) refl

  one_nonce :
      (version : Version) (seen : Seen) (event : Fields) (m : String)
      → nonce_of version event ≡ some m
      → (seen_after host proof_id version seen event).seen_nonces ≡ add seen.seen_nonces m
  unfolding seen_after nonces_after
  one_nonce version seen event m h = rw (h, seen_after, nonces_after) refl

  nonce_kept :
      (version : Version) (seen : Seen) (event : Fields) (n : String)
      → contains seen.seen_nonces n ≡ true
      → contains (seen_after host proof_id version seen event).seen_nonces n ≡ true
  nonce_kept version seen event n h = elim (Option-cases (nonce_of version event)) [
    | inl missing ↦ rw (no_nonce version seen event missing) h
    | inr (m, there) ↦
        rw (one_nonce version seen event m there)
          (ground (arith, contains-add seen.seen_nonces m n))
  ]

  nonce_added :
      (version : Version) (seen : Seen) (event : Fields) (n : String)
      → nonce_of version event ≡ some n
      → contains (seen_after host proof_id version seen event).seen_nonces n ≡ true
  nonce_added version seen event n h =
      rw (one_nonce version seen event n h)
        (ground (arith, contains-add seen.seen_nonces n n, (eq_iff n n).1 refl))

  not_again :
      (version : Version) (seen : Seen) (events : List Fields) (j : ℕ) (event : Fields) (n : String)
      → all check_holds (check_events host proof_id version seen events) ≡ true
      → contains seen.seen_nonces n ≡ true
      → get_elem? events j ≡ some event
      → nonce_of version event ≡ some n
      → ⊥
  unfolding check_events
  not_again version seen [] j event n h c at k = cc
  not_again version seen (e ∷ events) zero event n h c at k =
      let now : check_holds (check_event host proof_id version seen e) ≡ true = ground arith in
      let new =
        fresh_nonce version seen e n (check_replay version seen e now)
          (rw (some-injective _ _ at) k) in
      cc
  not_again version seen (e ∷ events) (suc j) event n h c at k =
      let later : all check_holds
            (check_events host proof_id version (seen_after host proof_id version seen e) events)
          ≡ true =
        ground arith in
      not_again version (seen_after host proof_id version seen e) events j event n later
        (nonce_kept version seen e n c) at k

  distinct_from :
      (version : Version) (seen : Seen) (events : List Fields) (i j : ℕ) (e f : Fields) (n : String)
      → all check_holds (check_events host proof_id version seen events) ≡ true
      → i < j
      → get_elem? events i ≡ some e
      → get_elem? events j ≡ some f
      → nonce_of version e ≡ some n
      → nonce_of version f ≡ some n
      → ⊥
  unfolding check_events
  distinct_from version seen [] i j e f n h o at_i at_j k l = cc
  distinct_from version seen (g ∷ events) i zero e f n h o at_i at_j k l = omega arith
  distinct_from version seen (g ∷ events) zero (suc j) e f n h o at_i at_j k l =
      let later : all check_holds
            (check_events host proof_id version (seen_after host proof_id version seen g) events)
          ≡ true =
        ground arith in
      not_again version (seen_after host proof_id version seen g) events j f n later
        (nonce_added version seen g n (rw (some-injective _ _ at_i) k)) at_j l
  distinct_from version seen (g ∷ events) (suc i) (suc j) e f n h o at_i at_j k l =
      let later : all check_holds
            (check_events host proof_id version (seen_after host proof_id version seen g) events)
          ≡ true =
        ground arith in
      distinct_from version (seen_after host proof_id version seen g) events i j e f n later
        (omega arith) at_i at_j k l

module _ (host : Host) (read_file : Value → Result Bytes) (proof_id : Value) where
  report_checks :
      (version : Version) (events : List Fields) (r : Report)
      → report_of host read_file proof_id version events ≡ ok r
      → r.valid ≡ true
      → all check_holds (check_events host proof_id version nothing_seen events) ≡ true
  unfolding report_of
  report_checks version events r h valid =
      let (_, _, built) =
        >>=-eq-ok (outcome_of host read_file no_outcome events) _ (raise_if-eq-ok _ _ _ h).1 in
      ground arith

  valid_checks :
      (version : Value) (known : Version) (e : Fields) (es : List Fields) (r : Report)
      → version_of version ≡ some known
      → verify_proof_events host read_file proof_id (e ∷ es) version ≡ ok r
      → r.valid ≡ true
      → all check_holds (check_events host proof_id known nothing_seen (e ∷ es)) ≡ true
  unfolding verify_proof_events
  valid_checks version known e es r is_known h valid =
      report_checks known (e ∷ es) r (rw (is_known, verify_proof_events) at h) valid

  -- In a proof that `verify_proof_events` reports as valid, two events at different positions that
  -- sign a nonce by the proof's version sign different nonces.
  pub signed_nonces_differ :
      (version : Value) (known : Version) (events : List Fields) (r : Report) (i j : ℕ)
      (e f : Fields) (n m : String)
      → version_of version ≡ some known
      → verify_proof_events host read_file proof_id events version ≡ ok r
      → r.valid ≡ true
      → i < j
      → get_elem? events i ≡ some e
      → get_elem? events j ≡ some f
      → nonce_of known e ≡ some n
      → nonce_of known f ≡ some m
      → n ≢ m
  signed_nonces_differ version known [] r i j e f n m is_known h valid o at_i at_j k l = cc
  signed_nonces_differ version known (g ∷ es) r i j e f n m is_known h valid o at_i at_j k l =
      λ same.
        distinct_from host proof_id known nothing_seen (g ∷ es) i j e f n
          (valid_checks version known g es r is_known h valid) o at_i at_j k
          (l ∙ ap some (sym same))
