-- ===== src/Settlement/Tests.antt =====
-- A settlement of one turn, and its theorem there.
use flop_proof_api.Base.{◌≡◌, refl, ◌↔◌, List, [], ◌∷◌, none, ok, err, value_error}
use flop_proof_api.Base.Bytes.{to_le, from_le, zeros, same_bytes, to_hex, fromhex}
use flop_proof_api.Transcript.{is_zero}
use flop_proof_api.Transcript.Tests.{ones, plain_turn}
use flop_proof_api.Channel.{
  check_leaf, leaf_preimage, compute_verified_turn_leaf, verify_verified_turn_leaf_signature,
  compute_merkle_node, climb, verify_merkle_path,
}
use flop_proof_api.Verification.Tests.{level_host}
use flop_proof_api.Settlement.{
  TurnProof, check_policy, has_index, verify_turn_proof, settle, verified_work_from_turns,
}
use flop_proof_api.Settlement.Work.{Settles, verified_work_iff}

abbrev sample : List TurnProof
sample = record { merkle_index = 0; turn = plain_turn; merkle_path = [] } ∷ []

-- Opening this opens the settlement for a test.
settlement : Unit {0}
unfolding to_le from_le zeros same_bytes to_hex fromhex is_zero check_leaf leaf_preimage
    compute_verified_turn_leaf verify_verified_turn_leaf_signature compute_merkle_node climb
    verify_merkle_path check_policy has_index verify_turn_proof settle verified_work_from_turns
settlement = tt

sample_run : verified_work_from_turns level_host ones (zeros 32) ones none 5 sample ≡ ok 5
unfolding settlement
sample_run = refl

rejections :
    (verified_work_from_turns level_host ones (zeros 32) ones none 6 sample
      ≡ err (value_error "AggregateGnMismatch"))
    × (verified_work_from_turns level_host ones ones ones none 5 sample
        ≡ err (value_error "LeafNotInRoot"))
unfolding settlement
rejections = (refl, refl)

verified_work_iff_example :
    (verified_work_from_turns level_host ones (zeros 32) ones none 5 sample ≡ ok 5)
    ↔ Settles level_host ones (zeros 32) ones none 5 sample 5
verified_work_iff_example = verified_work_iff level_host ones (zeros 32) ones none 5 sample 5
