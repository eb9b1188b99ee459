-- ===== src/Sdk/Tests.antt =====
-- A client of a server that refuses the first event for its head, and lets the others in.
use Prim.Native.String.{String}
use flop_proof_api.Base.{ℕ, zero, suc, ◌≡◌, refl, true, none, some, take}
use flop_proof_api.Value.{str, end}
use flop_proof_api.Formats.{is_closing}
use flop_proof_api.Verification.Tests.{
  verification, level_host, sample_proof, sample_events, zero_hash,
}
use flop_proof_api.Sdk.{
  Reply, failed, answered, http_error, head_mismatch_error, Exported, SignedEvent,
  head_mismatch_detail, checked_head, current_head, one_turn, turns, append_signed_event,
}
use flop_proof_api.Sdk.Retries.{append_signed_event_ends, closing_event_signed_once}

-- The state is the number of the posts.
abbrev get_proof : ℕ → String → Reply Exported × ℕ
get_proof posts proof_id =
    (answered (record { events = take 1 sample_events; chain_head = some zero_hash }), posts)

abbrev append_event : ℕ → String → SignedEvent → Reply String × ℕ
append_event zero proof_id event = (failed (http_error 409 head_mismatch_detail), 1)
append_event (suc posts) proof_id event = (answered event.prior_head, suc (suc posts))

abbrev sign_message : String → String
sign_message message = "sig"

-- With one retry the second post is let in; a closing event is posted once.
client_runs :
    (append_signed_event level_host get_proof append_event sign_message sample_proof "did:key:zA"
        "note.added" end "n2" 1 0 none
      ≡ some (answered zero_hash, 2))
    × (append_signed_event level_host get_proof append_event sign_message sample_proof "did:key:zA"
          "proof.failed" end "n2" 1 0 none
        ≡ some (failed (head_mismatch_error head_mismatch_detail zero_hash zero_hash), 1))
    × (is_closing (str "proof.failed") ≡ true)
unfolding verification append_signed_event turns one_turn current_head checked_head
client_runs = (refl, refl, refl)

append_signed_event_ends_example :
    (r : Reply String × ℕ) × (append_signed_event level_host get_proof append_event sign_message
        sample_proof "did:key:zA" "note.added" end "n2" 1 0 none
      ≡ some r)
append_signed_event_ends_example =
    append_signed_event_ends level_host get_proof append_event sign_message sample_proof
      "did:key:zA" "note.added" end "n2" 1 0 none

closing_event_signed_once_example :
    append_signed_event level_host get_proof append_event sign_message sample_proof "did:key:zA"
      "proof.failed" end "n2" 1 0 none
    ≡ append_signed_event level_host get_proof append_event sign_message sample_proof "did:key:zA"
        "proof.failed" end "n2" 0 0 none
closing_event_signed_once_example =
    closing_event_signed_once level_host get_proof append_event sign_message sample_proof
      "did:key:zA" "proof.failed" end "n2" client_runs.2 1 0 none
