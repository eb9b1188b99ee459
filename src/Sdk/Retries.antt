-- ===== src/Sdk/Retries.antt =====
-- flop_proof_sdk/client.py: how often append_signed_event signs.
use Prim.Native.String.{String}
use flop_proof_api.Base.{
  ℕ, zero, suc, ◌+◌, ◌<◌, ◌≤◌, ◌≡◌, ◌⊎◌, subst, sym, ◌∙◌, refl, inl, inr, true, false, ◌||◌, Option,
  some, arith, leb, Result, ok, err, Bool-cases,
}
use flop_proof_api.Host.{Host}
use flop_proof_api.Value.{str, obj, Fields}
use flop_proof_api.Records.{sha256_json}
use flop_proof_api.Canonical.{build_event_canonical_v4}
use flop_proof_api.Formats.{is_closing}
use flop_proof_api.Sdk.{
  Failure, Reply, failed, answered, Exported, SignedEvent, is_mismatch, Turn, stop, again,
  current_head, head_to_sign, retried, posted, signed_event, built, signed_for, one_turn, turns,
  append_signed_event,
}

Turn-cases :
    {World Answer : Type 0} (t : Turn World Answer)
    → ((reply : Reply Answer) × (after : World) × (t ≡ stop reply after))
      ⊎ ((head : String) × (after : World) × (t ≡ again head after))
Turn-cases (stop reply after) = inl (reply, after, refl)
Turn-cases (again head after) = inr (head, after, refl)

module _ (host : Host) {World Answer : Type 0} (get_proof : World → String → Reply Exported × World)
    (append_event : World → String → SignedEvent → Reply Answer × World)
    (sign_message : String → String) (proof_id did event_type : String) (payload : Fields)
    (nonce : String) where
  -- Another turn is taken only for an event that does not close, with a retry left.
  abbrev MayRetry : ℕ → Turn World Answer → ℕ → Type 0
  MayRetry retries (stop _ _) attempt = Unit
  MayRetry retries (again _ _) attempt = (attempt < retries) × (is_closing (str event_type) ≡ false)

  abbrev run : ℕ → ℕ → World → Option String → ℕ → Option (Reply Answer × World)
  run retries =
      turns host get_proof append_event sign_message proof_id did event_type payload nonce retries

  abbrev turn : ℕ → World → Option String → ℕ → Turn World Answer
  turn retries =
      one_turn host get_proof append_event sign_message proof_id did event_type payload nonce
        retries

  MayRetry-retried :
      (retries : ℕ) (f : Failure) (head : String) (attempt : ℕ) (read : Reply String × World)
      → MayRetry retries
          (retried host get_proof append_event sign_message proof_id did event_type payload nonce
            retries f head attempt read)
          attempt
  MayRetry-retried retries f head attempt (failed g, world) = tt
  MayRetry-retried retries f head attempt (answered current, world) =
      elim (Bool-cases (leb retries attempt || is_closing (str event_type))) [
        | inl last ↦ rw last tt
        | inr more ↦ rw more (ground arith, ground arith)
      ]

  MayRetry-posted :
      (retries : ℕ) (head : String) (attempt : ℕ) (reply : Reply Answer × World)
      → MayRetry retries
          (posted host get_proof append_event sign_message proof_id did event_type payload nonce
            retries head attempt reply)
          attempt
  MayRetry-posted retries head attempt (answered answer, world) = tt
  MayRetry-posted retries head attempt (failed f, world) = elim (Bool-cases (is_mismatch f)) [
    | inl mismatch ↦ rw mismatch (
        MayRetry-retried retries f head attempt
          (current_head host get_proof append_event sign_message world proof_id))
    | inr other ↦ rw other tt
  ]

  MayRetry-built :
      (retries : ℕ) (head : String) (attempt : ℕ) (world : World) (canonical : Result String)
      → MayRetry retries
          (built host get_proof append_event sign_message proof_id did event_type payload nonce
            retries head attempt world canonical)
          attempt
  MayRetry-built retries head attempt world (err e) = tt
  MayRetry-built retries head attempt world (ok canonical) = MayRetry-posted retries head attempt (
      append_event world proof_id (
        signed_event host get_proof append_event sign_message proof_id did event_type payload nonce
          retries head canonical))

  MayRetry-signed :
      (retries : ℕ) (attempt : ℕ) (known : Reply String × World)
      → MayRetry retries
          (signed_for host get_proof append_event sign_message proof_id did event_type payload nonce
            retries attempt known)
          attempt
  MayRetry-signed retries attempt (failed f, world) = tt
  MayRetry-signed retries attempt (answered head, world) =
      MayRetry-built retries head attempt world (
        build_event_canonical_v4 (str proof_id) (str event_type)
          (str (sha256_json host (obj payload))) (str nonce) (str head))

  MayRetry-turn :
      (retries : ℕ) (world : World) (known : Option String) (attempt : ℕ)
      → MayRetry retries (turn retries world known attempt) attempt
  unfolding one_turn
  MayRetry-turn retries world known attempt =
      MayRetry-signed retries attempt
        (head_to_sign host get_proof append_event sign_message world proof_id known)

  stops :
      (retries fuel : ℕ) (world : World) (known : Option String) (attempt : ℕ)
      → retries ≤ fuel + attempt
      → (r : Reply Answer × World) × (run retries (suc fuel) world known attempt ≡ some r)
  unfolding turns
  stops retries zero world known attempt h =
      let may = MayRetry-turn retries world known attempt in
      elim (Turn-cases (turn retries world known attempt)) [
        | inl (reply, after, e) ↦ ((reply, after), rw (turns, e) refl)
        | inr (head, after, e) ↦
            let (left, _) = subst (λ t. MayRetry retries t attempt) e may in absurd (omega arith)
      ]
  stops retries (suc fuel) world known attempt h =
      elim (Turn-cases (turn retries world known attempt)) [
        | inl (reply, after, e) ↦ ((reply, after), rw (turns, e) refl)
        | inr (head, after, e) ↦
            let (r, ended) = stops retries fuel after (some head) (attempt + 1) (omega arith) in
            (r, rw (turns, e) ended)
      ]

  -- append_signed_event always ends, whatever the server answers and however its state changes: as
  -- many turns as there are retries, and one, are enough.
  pub append_signed_event_ends :
      (retries : ℕ) (world : World) (prior_head : Option String)
      → (r : Reply Answer × World) × (append_signed_event host get_proof append_event sign_message
            proof_id did event_type payload nonce retries world prior_head
          ≡ some r)
  unfolding append_signed_event
  append_signed_event_ends retries world prior_head =
      stops retries retries world prior_head 0 (omega arith)

  module _ (closing : is_closing (str event_type) ≡ true) (retries : ℕ) where
    once-retried :
        (f : Failure) (head : String) (attempt : ℕ) (read : Reply String × World)
        → retried host get_proof append_event sign_message proof_id did event_type payload nonce
            retries f head attempt read
          ≡ retried host get_proof append_event sign_message proof_id did event_type payload nonce 0
              f head attempt read
    once-retried f head attempt (failed g, world) = refl
    once-retried f head attempt (answered current, world) = ground (arith, closing)

    once-posted :
        (head : String) (attempt : ℕ) (reply : Reply Answer × World)
        → posted host get_proof append_event sign_message proof_id did event_type payload nonce
            retries head attempt reply
          ≡ posted host get_proof append_event sign_message proof_id did event_type payload nonce 0
              head attempt reply
    once-posted head attempt (answered answer, world) = refl
    once-posted head attempt (failed f, world) = elim (Bool-cases (is_mismatch f)) [
      | inl mismatch ↦ rw mismatch (
          once-retried f head attempt
            (current_head host get_proof append_event sign_message world proof_id))
      | inr other ↦ rw other refl
    ]

    once-built :
        (head : String) (attempt : ℕ) (world : World) (canonical : Result String)
        → built host get_proof append_event sign_message proof_id did event_type payload nonce
            retries head attempt world canonical
          ≡ built host get_proof append_event sign_message proof_id did event_type payload nonce 0
              head attempt world canonical
    once-built head attempt world (err e) = refl
    once-built head attempt world (ok canonical) = once-posted head attempt (
        append_event world proof_id (
          signed_event host get_proof append_event sign_message proof_id did event_type payload
            nonce retries head canonical))

    once-signed :
        (attempt : ℕ) (known : Reply String × World)
        → signed_for host get_proof append_event sign_message proof_id did event_type payload nonce
            retries attempt known
          ≡ signed_for host get_proof append_event sign_message proof_id did event_type payload
              nonce 0 attempt known
    once-signed attempt (failed f, world) = refl
    once-signed attempt (answered head, world) = once-built head attempt world (
        build_event_canonical_v4 (str proof_id) (str event_type)
          (str (sha256_json host (obj payload))) (str nonce) (str head))

    once-turn :
        (world : World) (known : Option String) (attempt : ℕ)
        → turn retries world known attempt ≡ turn 0 world known attempt
    unfolding one_turn
    once-turn world known attempt =
        once-signed attempt
          (head_to_sign host get_proof append_event sign_message world proof_id known)

    -- A closing event is never signed a second time: with any number of retries, append_signed_event
    -- does what it does with none.
    pub closing_event_signed_once :
        (world : World) (prior_head : Option String)
        → append_signed_event host get_proof append_event sign_message proof_id did event_type
            payload nonce retries world prior_head
          ≡ append_signed_event host get_proof append_event sign_message proof_id did event_type
              payload nonce 0 world prior_head
    unfolding append_signed_event turns
    closing_event_signed_once world prior_head =
        let may = MayRetry-turn retries world prior_head 0 in
        let same = once-turn world prior_head 0 in
        elim (Turn-cases (turn retries world prior_head 0)) [
          | inl (reply, after, e) ↦ rw (append_signed_event, turns, e, sym same ∙ e) refl
          | inr (head, after, e) ↦ let (_, other) = subst (λ t. MayRetry retries t 0) e may in cc
        ]
