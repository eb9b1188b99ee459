-- ===== src/Sdk.antt =====
-- flop_proof_sdk/client.py: the client that signs an event for the head of a chain.
pub mod Retries
mod Tests
use Prim.Native.String
use Prim.Native.String.{String}
use text.Mathlib.Text.{◌==◌ as str_eq}
use flop_proof_api.Base.{
  ℕ, zero, suc, ◌+◌, Bool, true, false, not, ◌&&◌, ◌||◌, List, Option, none, some, leb, ◌==◌,
  if◌then◌else◌, Result, ok, err, message,
}
use flop_proof_api.Host.{Host}
use flop_proof_api.Value.{Value, str, obj, Fields}
use flop_proof_api.Records.{sha256_json, chain_head}
use flop_proof_api.Canonical.{build_event_canonical_v4, build_request_canonical_v4}
use flop_proof_api.Formats.{is_closing}

-- FlopProofHTTPError, HeadMismatchError, FlopProofChainError, ValueError and the errors of `_request`.
pub data Failure : Type 0 where
  http_error : ℕ → String → Failure
  head_mismatch_error : String → String → String → Failure
  chain_error : String → Failure
  bad_value : String → Failure
  connection_error : String → Failure

-- What a call gives: it raises, or it returns.
pub data Reply {ℓ} (Returned : Type ℓ) : Type ℓ where
  failed : Failure → Reply Returned
  answered : Returned → Reply Returned

-- The two keys of an exported proof that the client reads.
pub record Exported : Type 0 where
  pub events : List Fields
  pub chain_head : Option String

-- The event that `append_event` posts.
pub record SignedEvent : Type 0 where
  pub event_type : String
  pub actor_did : String
  pub payload : Fields
  pub nonce : String
  pub sig : String
  pub canonical : String
  pub prior_head : String

-- The request that `create_proof` posts.
pub record SignedRequest : Type 0 where
  pub request_id : String
  pub from_did : String
  pub text : String
  pub created_at : String
  pub nonce : String
  pub sig : String
  pub canonical : String

abbrev pub head_mismatch_detail : String
head_mismatch_detail = "Event prior_head does not match the current chain"

abbrev pub is_mismatch : Failure → Bool
is_mismatch (http_error status detail) = status == 409 && str_eq detail head_mismatch_detail
is_mismatch _ = false

abbrev pub detail_of : Failure → String
detail_of (http_error status detail) = detail
detail_of _ = ""

-- The checks of `current_head` on the export; `chain_head` is the SDK's copy of app/crypto.py's.
unfoldable pub checked_head : Host → Exported → String → Reply String
checked_head host exported proof_id = elim (chain_head host exported.events (str proof_id)) [
  | err e ↦ failed (chain_error (String.◌++◌ "Cannot compute the chain head: " (message e)))
  | ok none ↦ failed (chain_error "The exported proof has no events.")
  | ok (some computed) ↦ elim (exported.chain_head) [
    | none ↦
        failed (chain_error "The API's chain_head does not match its exported events; not signing.")
    | some head ↦
        if str_eq computed head
        then answered computed
        else failed
            (chain_error "The API's chain_head does not match its exported events; not signing.")
  ]
]

-- What one turn of the loop of `append_signed_event` leads to: the end of the call, or another turn
-- with the head that was read.
pub data Turn (World Answer : Type 0) : Type 0 where
  stop : Reply Answer → World → Turn World Answer
  again : String → World → Turn World Answer

-- `get_proof` and `append_event` ask the server, whose state is the World: between two calls of this
-- client others may change it. `sign_message` signs with the private key.
module _ (host : Host) {World Answer : Type 0} (get_proof : World → String → Reply Exported × World)
    (append_event : World → String → SignedEvent → Reply Answer × World)
    (sign_message : String → String) where
  abbrev head_from : String → Reply Exported × World → Reply String × World
  head_from proof_id (failed f, world) = (failed f, world)
  head_from proof_id (answered exported, world) = (checked_head host exported proof_id, world)

  unfoldable pub current_head : World → String → Reply String × World
  current_head world proof_id = head_from proof_id (get_proof world proof_id)

  -- `if head is None: head = self.current_head(proof_id)`
  abbrev pub head_to_sign : World → String → Option String → Reply String × World
  head_to_sign world proof_id none = current_head world proof_id
  head_to_sign world proof_id (some head) = (answered head, world)

  module _ (proof_id did event_type : String) (payload : Fields) (nonce : String)
      (retries : ℕ) where
    -- After `current = self.current_head(proof_id)`, on the failure of the event for `head`.
    abbrev pub retried : Failure → String → ℕ → Reply String × World → Turn World Answer
    retried f head attempt (failed g, world) = stop (failed g) world
    retried f head attempt (answered current, world) =
        if leb retries attempt || is_closing (str event_type)
        then stop (failed (head_mismatch_error (detail_of f) head current)) world
        else again current world

    -- `return self.append_event(...)`, and `except FlopProofHTTPError`
    abbrev pub posted : String → ℕ → Reply Answer × World → Turn World Answer
    posted head attempt (answered answer, world) = stop (answered answer) world
    posted head attempt (failed f, world) =
        if not (is_mismatch f)
        then stop (failed f) world
        else retried f head attempt (current_head world proof_id)

    abbrev pub signed_event : String → String → SignedEvent
    signed_event head canonical = record {
      event_type = event_type;
      actor_did = did;
      payload = payload;
      nonce = nonce;
      sig = sign_message canonical;
      canonical = canonical;
      prior_head = head;
    }

    abbrev pub built : String → ℕ → World → Result String → Turn World Answer
    built head attempt world (err e) = stop (failed (bad_value (message e))) world
    built head attempt world (ok canonical) =
        posted head attempt (append_event world proof_id (signed_event head canonical))

    abbrev pub signed_for : ℕ → Reply String × World → Turn World Answer
    signed_for attempt (failed f, world) = stop (failed f) world
    signed_for attempt (answered head, world) = built head attempt world (
        build_event_canonical_v4 (str proof_id) (str event_type)
          (str (sha256_json host (obj payload))) (str nonce) (str head))

    -- The body of the loop, with the head that is known and the number of the turns before.
    unfoldable pub one_turn : World → Option String → ℕ → Turn World Answer
    one_turn world known attempt = signed_for attempt (head_to_sign world proof_id known)

    -- `while True`, on fuel; none where it does not suffice.
    unfoldable pub turns : ℕ → World → Option String → ℕ → Option (Reply Answer × World)
    unfolding one_turn
    turns zero world known attempt = none
    turns (suc fuel) world known attempt = elim (one_turn world known attempt) [
      | stop reply after ↦ some (reply, after)
      | again head after ↦ turns fuel after (some head) (attempt + 1)
    ]

    -- A negative number of retries, which is a ValueError, is no input of the model.
    unfoldable pub append_signed_event : World → Option String → Option (Reply Answer × World)
    unfolding turns
    append_signed_event world prior_head = turns (suc retries) world prior_head 0

  -- `created_at` and the other texts are taken as they are given.
  unfoldable pub create_signed_proof :
      (World → SignedRequest → Reply Answer × World)
      → World
      → String
      → String
      → String
      → String
      → String
      → String
      → Reply Answer × World
  create_signed_proof create_proof world did text room nonce request_id created_at =
      elim (build_request_canonical_v4 (str room) (str nonce) (str text)) [
        | err e ↦ (failed (bad_value (message e)), world)
        | ok canonical ↦ create_proof world (record {
          request_id = request_id;
          from_did = did;
          text = text;
          created_at = created_at;
          nonce = nonce;
          sig = sign_message canonical;
          canonical = canonical;
        })
      ]
